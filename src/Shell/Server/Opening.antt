-- ===== src/Shell/Server/Opening.antt =====
-- desktop/crates/shell/src/server.rs, `get_diff` and `upload_event`: the files of a diff go to the phone
-- and come back as the headers of its uploads.
use photo_sync.Prelude.{
  ℕ, ◌<◌, Option, List, [], ◌∷◌, ◌++◌, map, none, some, ◌≡◌, refl, ap, ◌∙◌, All,
}
use photo_sync.Prelude.Word.{u64_mod}
use photo_sync.Id.{DeviceId, DevicePath, FileId, Timestamp}
use photo_sync.Effect.{DiffSummary, Effect, ToSend}
use photo_sync.Event.{Event, Result}
use photo_sync.Shell.Answers.{diff_chunk, into_chunks, refusal_status, wire_to_send}
use photo_sync.Shell.Server.{Desk, deliver, get_diff, upload_event}
use photo_sync.Shell.Server.Chunks.{concat_all, into_chunks-IsSplit, marked}
use photo_sync.Shell.Wire.{DiffChunk, FileHeader, Kind, Status, WireToSend}
use photo_sync.Shell.Wire.Numbers.{parse_u64-decimal}

-- What the messages of a diff name, one message after another.
abbrev pub named_in : List DiffChunk → List WireToSend
named_in [] = []
named_in (chunk ∷ chunks) = chunk.to_send ++ named_in chunks

marked-names :
    (summary : DiffSummary) (first : List WireToSend) (pieces : List (List WireToSend))
    → named_in (marked (diff_chunk summary) first pieces) ≡ concat_all (first ∷ pieces)
marked-names summary first [] = refl
marked-names summary first (next ∷ pieces) =
    ap (λ names. first ++ names) (marked-names summary next pieces)

into_chunks-names :
    (summary : DiffSummary) (names : List WireToSend)
    → named_in (into_chunks (diff_chunk summary) names) ≡ names
into_chunks-names summary names =
    let split = into_chunks-IsSplit (diff_chunk summary) names in
    ap named_in split.carries ∙ (marked-names summary split.first split.pieces ∙ split.together)

module _ (size_of : DevicePath → ℕ) (mtime_of : DevicePath → Timestamp) (device : DeviceId) where
  -- The header with which a phone answers a name of the diff: the size and the time are its own.
  abbrev pub header_for : WireToSend → FileHeader
  header_for name = record {
    file_id = name.file_id;
    path = name.path;
    size = size_of name.path;
    mtime = mtime_of name.path;
    offset = name.resume_offset;
  }

  -- What the server makes of a header that begins an upload.
  abbrev pub begun : WireToSend → Result (Event × (Option FileId × ℕ)) Status
  begun name = upload_event device none 0 (some (Kind.header (header_for name)))

  -- The opening of an upload of a file that the core asked for.
  abbrev pub opening : ToSend → Result (Event × (Option FileId × ℕ)) Status
  opening one = Result.ok (
    Event.upload_opened device one.file one.path (size_of one.path) (mtime_of one.path)
        one.resume_offset,
    (some one.file, one.resume_offset),
  )

  begun-opening : (one : ToSend) → one.file < u64_mod → begun (wire_to_send one) ≡ opening one
  unfolding upload_event
  begun-opening one fits = rw (upload_event, parse_u64-decimal one.file fits) refl

  begun-openings :
      (plan : List ToSend)
      → All (λ one. one.file < u64_mod) plan
      → map begun (map wire_to_send plan) ≡ map opening plan
  begun-openings [] h = refl
  begun-openings (one ∷ plan) h =
      ap (λ x. x ∷ map begun (map wire_to_send plan)) (begun-opening one h.0)
      ∙ ap (λ xs. opening one ∷ xs) (begun-openings plan h.1)

  pub get_diff-opens :
      {D : Type 0} (desk : Desk D) (d : D) (plan : List ToSend) (summary : DiffSummary)
      (rest : List Effect)
      → (deliver desk (Event.diff_requested device ∷ []) d).0
        ≡ Effect.send_diff device plan summary ∷ rest
      → refusal_status rest ≡ none
      → All (λ one. one.file < u64_mod) plan
      → (chunks : List DiffChunk) × ((get_diff desk device d).0 ≡ Result.ok chunks)
        × (map begun (named_in chunks) ≡ map opening plan)
  unfolding get_diff
  get_diff-opens desk d plan summary rest answers allowed fits = (
    into_chunks (diff_chunk summary) (map wire_to_send plan),
    rw (get_diff, answers, allowed, answers) refl,
    ap (map begun) (into_chunks-names summary (map wire_to_send plan)) ∙ begun-openings plan fits,
  )
