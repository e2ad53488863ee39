-- ===== src/Tests/Shell.antt =====
-- The theorems on the shell's own decisions, at concrete inputs.
use photo_sync.Prelude.{
  ℕ, ◌≡◌, ◌≢◌, refl, List, [], ◌∷◌, ◌++◌, map, Option, none, some, Bool, true, false, All, arith,
  nat_ord, list_ord,
}
use photo_sync.Prelude.Int.{ℤ}
use photo_sync.Catalog.{CatalogEntry}
use photo_sync.Effect.{DiffSummary, Effect, ToSend, UiUpdate}
use photo_sync.Event.{Event, Result}
use photo_sync.Shell.Pinning.{Admission, Paired, admit, nobody_paired, pair, unpair}
use photo_sync.Shell.Pinning.Admitting.{unpair-admits_none}
use photo_sync.Shell.Suspend.{Awake, is_busy, mind_the_clock, nobody_busy}
use photo_sync.Shell.Suspend.Keeping.{IsMinded, mind_the_clock-IsMinded}
use photo_sync.Shell.Views.{nothing_shown, observe}
use photo_sync.Shell.Views.Bounds.{IsShown, observe-IsShown}
use photo_sync.Shell.Wire.{
  CatalogChunk, DiffChunk, FileHeader, HandshakeRequest, Kind, Status, WireOutcome, parse_digits,
  parse_u64,
}
use photo_sync.Shell.Server.Opening.{begun, get_diff-opens, named_in, opening}
use photo_sync.Shell.Server.{
  Desk, deliver, finish, get_diff, handshake, read_catalog, report_deletions, submit_catalog,
  upload_event, upload_file, upload_loop,
}
use photo_sync.Shell.Answers.{into_chunks}
use photo_sync.Shell.Server.Broken.{upload_file-breaks}
use photo_sync.Shell.Server.Calls.{IsSpared, calls-keep, device_of}
use photo_sync.Shell.Server.Chunks.{IsSplit, into_chunks-IsSplit}
use photo_sync.Shell.Server.Streams.{all_entries, last_total, read_catalog-within, within}
use photo_sync.Tests.{phone, photo_path, transparent}

-- A desk that only keeps what it is told.
abbrev recorder : Desk (List Event)
recorder = record { deliver = λ event told. event ∷ told; take_log = λ told. ([], told) }

abbrev AllOfPhone : List Event → Type 0
AllOfPhone told = All (λ e. device_of e ≡ some phone) told

recorder-IsSpared : IsSpared recorder phone AllOfPhone
recorder-IsSpared = record { delivered = λ event named d p. (named, p); logged = λ d p. p }

calls-keep_example :
    ((name : List ℕ) (asked : HandshakeRequest)
      → AllOfPhone (handshake recorder name asked phone []).1)
    × (((chunks : List (Result CatalogChunk Status))
          → AllOfPhone (submit_catalog recorder chunks phone []).1)
        × (AllOfPhone (get_diff recorder phone []).1
            × (((chunks : List (Result (Option Kind) Status))
                  → AllOfPhone (upload_file recorder chunks phone []).1)
                × (AllOfPhone (finish recorder phone []).1
                    × ((reports : List (Result (List WireOutcome) Status))
                        → AllOfPhone (report_deletions recorder reports phone []).1)))))
calls-keep_example = calls-keep recorder phone AllOfPhone recorder-IsSpared [] tt

-- A stream that sends a header and no more.
abbrev header : FileHeader
header = record { file_id = b'7' ∷ []; path = photo_path; size = 2; mtime = ℤ.pos 7; offset = 0 }

abbrev opened : Event
opened = Event.upload_opened phone 7 photo_path 2 (ℤ.pos 7) 0

abbrev header_alone : List (Result (Option Kind) Status)
header_alone = Result.ok (some (Kind.header header)) ∷ []

header-opens :
    upload_loop recorder phone none 0 header_alone [] ≡ (Result.ok (none, some 7), opened ∷ [])
unfolding upload_loop upload_event parse_u64 parse_digits deliver
header-opens = refl

upload_file-breaks_example :
    (upload_file recorder header_alone phone [] ≡ (
      Result.err Status.not_finished,
      (deliver recorder (Event.upload_aborted phone 7 ∷ []) (opened ∷ [])).1,
    ))
    × (upload_file recorder (header_alone ++ Result.err Status.no_key ∷ []) phone []
        ≡ (Result.err Status.no_key, opened ∷ []))
upload_file-breaks_example =
    upload_file-breaks recorder header_alone phone 7 Status.no_key [] (opened ∷ []) header-opens

abbrev listed_photo : CatalogEntry
listed_photo = record { path = photo_path; size = 2; mtime = ℤ.pos 7 }

abbrev catalog_chunks : List CatalogChunk
catalog_chunks =
    record { entries = listed_photo ∷ []; last = false; total_bytes = 9 }
    ∷ record { entries = listed_photo ∷ []; last = true; total_bytes = 4 }
    ∷ []

read_catalog-within_example :
    read_catalog 0 [] 0 (map Result.ok catalog_chunks)
    ≡ within (all_entries catalog_chunks) (last_total 0 catalog_chunks)
read_catalog-within_example = read_catalog-within catalog_chunks

abbrev message : List ℕ → Bool → List ℕ × Bool
message entries last = (entries, last)

into_chunks-IsSplit_example : IsSplit message (1 ∷ 2 ∷ []) (into_chunks message (1 ∷ 2 ∷ []))
into_chunks-IsSplit_example = into_chunks-IsSplit message (1 ∷ 2 ∷ [])

-- A desk whose core answers every event with a diff of one file.
abbrev asked_file : ToSend
asked_file = record { file = 421; path = photo_path; resume_offset = 1 }

abbrev one_file : DiffSummary
one_file = record { to_send_count = 1; to_send_bytes = 2; already_imported = 0; already_staged = 0 }

abbrev differ : Desk (List Effect)
differ = record {
  deliver = λ event told. Effect.send_diff phone (asked_file ∷ []) one_file ∷ [];
  take_log = λ told. (told, []);
}

get_diff-opens_example :
    (chunks : List DiffChunk) × ((get_diff differ phone []).0 ≡ Result.ok chunks)
    × (map (begun (λ path. 2) (λ path. ℤ.pos 7) phone) (named_in chunks)
        ≡ map (opening (λ path. 2) (λ path. ℤ.pos 7) phone) (asked_file ∷ []))
unfolding deliver
get_diff-opens_example =
    get_diff-opens (λ path. 2) (λ path. ℤ.pos 7) phone differ [] (asked_file ∷ []) one_file [] refl
      refl (omega arith, tt)

abbrev paired : Paired
paired = pair transparent (1 ∷ 2 ∷ []) phone phone nobody_paired

unpair-admits_none_example :
    admit transparent (λ certificate. some certificate) (unpair phone paired) true (1 ∷ 2 ∷ [])
    ≢ Admission.known phone
unpair-admits_none_example =
    unpair-admits_none transparent (λ certificate. some certificate) paired true (1 ∷ 2 ∷ []) phone

observe-IsShown_example :
    IsShown (observe (UiUpdate.device_progress phone 9 4 12) nothing_shown).phones
observe-IsShown_example = observe-IsShown (UiUpdate.device_progress phone 9 4 12) nothing_shown tt

abbrev idle : Awake
idle = record { busy = nobody_busy; inhibition = false }

mind_the_clock-IsMinded_example :
    IsMinded (mind_the_clock true (Event.peer_connected phone phone) idle)
unfolding is_busy
mind_the_clock-IsMinded_example =
    mind_the_clock-IsMinded (Event.peer_connected phone phone) idle (record { held = refl })
