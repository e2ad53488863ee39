-- ===== src/Shell/Server/Calls.antt =====
-- desktop/crates/shell/src/server.rs: a call speaks for the phone whose key authenticated it.
use photo_sync.Prelude.{
  ℕ, List, [], ◌∷◌, Option, none, some, not, eqb, ◌≡◌, refl, arith, inl, inr, Bool-cases,
  Option-cases, ◌⊎◌, length,
}
use photo_sync.Id.{DeviceId, FileId, Text}
use photo_sync.Catalog.{CatalogEntry}
use photo_sync.Event.{Event, Result}
use photo_sync.Shell.Wire.{
  CatalogChunk, HandshakeRequest, Kind, Status, UploadResult, WireOutcome, protocol_version,
}
use photo_sync.Shell.Server.{
  Desk, deliver, finish, get_diff, handshake, read_catalog, read_reports, report_deletions,
  submit_catalog, upload_done, upload_event, upload_file, upload_loop,
}
use photo_sync.Shell.Answers.{diff, offered, refusal_status, session_summary, upload_result}

-- The phone that an event names.
abbrev pub device_of : Event → Option DeviceId
device_of (Event.peer_connected device name) = some device
device_of (Event.peer_disconnected device) = some device
device_of (Event.catalog_submitted device entries total) = some device
device_of (Event.diff_requested device) = some device
device_of (Event.upload_opened device file path size mtime offset) = some device
device_of (Event.chunk_arrived device file offset bytes) = some device
device_of (Event.upload_closed device file digest) = some device
device_of (Event.upload_aborted device file) = some device
device_of (Event.finish_requested device) = some device
device_of (Event.deletions_reported device outcomes) = some device
device_of (Event.manual_commit_requested device) = some device
device_of (Event.force_reimport_requested device path) = some device
device_of _ = none

-- What no event of a phone changes, and reading the log does not.
pub record IsSpared {D : Type 0} (desk : Desk D) (device : DeviceId) (P : D → Type 0) : Type 0 where
  pub delivered :
      (event : Event) → device_of event ≡ some device → (d : D) → P d → P (desk.deliver event d)
  pub logged : (d : D) → P d → P (desk.take_log d).1

upload_event-device :
    (device : DeviceId) (file : Option FileId) (offset : ℕ) (kind : Option Kind) (event : Event)
    (next : Option FileId × ℕ)
    → upload_event device file offset kind ≡ Result.ok (event, next)
    → device_of event ≡ some device
unfolding upload_event
upload_event-device device file offset none event next e = cc
upload_event-device device none offset (some (Kind.bytes bytes)) event next e = cc
upload_event-device device none offset (some (Kind.trailer sha256)) event next e = cc
upload_event-device device (some named) offset (some (Kind.bytes bytes)) event next e =
    ground (arith, e)
upload_event-device device (some named) offset (some (Kind.trailer sha256)) event next e =
    ground (arith, e)
upload_event-device device file offset (some (Kind.header header)) event next e = ground (arith, e)

result_cases :
    {A E : Type 0} (r : Result A E) → ((e : E) × (r ≡ Result.err e)) ⊎ ((a : A) × (r ≡ Result.ok a))
result_cases (Result.err e) = inl (e, refl)
result_cases (Result.ok a) = inr (a, refl)

module _ {D : Type 0} (desk : Desk D) (device : DeviceId) (P : D → Type 0)
    (h : IsSpared desk device P) where
  deliver-keeps :
      (event : Event) (d : D)
      → device_of event ≡ some device
      → P d
      → P (deliver desk (event ∷ []) d).1
  unfolding deliver
  deliver-keeps event d named p = h.logged _ (h.delivered event named _ (h.logged d p))

  handshake-keeps :
      (name : Text) (asked : HandshakeRequest) (d : D)
      → P d
      → P (handshake desk name asked device d).1
  unfolding handshake
  handshake-keeps name asked d p =
      elim (Bool-cases (not (eqb asked.protocol_version protocol_version))) [
        | inl e ↦ rw e p
        | inr e ↦ rw e (deliver-keeps (Event.peer_connected device asked.device_name) d refl p)
      ]

  submit-keeps :
      (chunks : List (Result CatalogChunk Status)) (d : D)
      → P d
      → P (submit_catalog desk chunks device d).1
  unfolding submit_catalog
  submit-keeps chunks d p = by_read (read_catalog 0 [] 0 chunks)
    where
      by_read :
          (r : Result (List CatalogEntry × ℕ) Status)
          → P
              (elim r as (λ x. Result ℕ Status × D) [
                | Result.err status ↦ (Result.err status, d)
                | Result.ok (entries, total) ↦ (
                  Result.ok (length entries),
                  (deliver desk (Event.catalog_submitted device entries total ∷ []) d).1,
                )
              ]).1
      by_read (Result.err status) = p
      by_read (Result.ok (entries, total)) =
          deliver-keeps (Event.catalog_submitted device entries total) d refl p

  get_diff-keeps : (d : D) → P d → P (get_diff desk device d).1
  unfolding get_diff
  get_diff-keeps d p =
      let asked = deliver-keeps (Event.diff_requested device) d refl p in
      let effects = (deliver desk (Event.diff_requested device ∷ []) d).0 in
      elim (Option-cases (refusal_status effects)) [
        | inr (status, e) ↦ rw (get_diff, e) asked
        | inl e ↦ elim (Option-cases (diff effects)) [
          | inl none_made ↦ rw (get_diff, e, none_made) asked
          | inr (made, found) ↦ rw (get_diff, e, found) asked
        ]
      ]

  finish-keeps : (d : D) → P d → P (finish desk device d).1
  unfolding finish
  finish-keeps d p =
      let asked = deliver-keeps (Event.finish_requested device) d refl p in
      elim (Option-cases (offered (deliver desk (Event.finish_requested device ∷ []) d).0)) [
        | inl e ↦ rw (finish, e) asked
        | inr (made, e) ↦ rw (finish, e) asked
      ]

  report-keeps :
      (reports : List (Result (List WireOutcome) Status)) (d : D)
      → P d
      → P (report_deletions desk reports device d).1
  unfolding report_deletions
  report-keeps reports d p = elim (result_cases (read_reports 0 [] reports)) [
    | inl (status, e) ↦ rw (report_deletions, e) p
    | inr (outcomes, e) ↦
        let told = deliver-keeps (Event.deletions_reported device outcomes) d refl p in
        elim (Option-cases
          (session_summary (deliver desk (Event.deletions_reported device outcomes ∷ []) d).0)) [
            | inl f ↦ rw (report_deletions, e, f) told
            | inr (summary, f) ↦ rw (report_deletions, e, f) told
          ]
  ]

  loop-keeps :
      (file : Option FileId) (offset : ℕ) (chunks : List (Result (Option Kind) Status)) (d : D)
      → P d
      → P (upload_loop desk device file offset chunks d).1
  unfolding upload_loop
  loop-keeps file offset [] d p = p
  loop-keeps file offset (Result.err status ∷ chunks) d p = p
  loop-keeps file offset (Result.ok kind ∷ chunks) d p =
      elim (result_cases (upload_event device file offset kind)) [
        | inl (status, e) ↦ rw (upload_loop, e) p
        | inr ((event, (named, at)), e) ↦
            let told =
              deliver-keeps event d
                (upload_event-device device file offset kind event (named, at) e) p in
            elim (Option-cases (upload_result (deliver desk (event ∷ []) d).0)) [
              | inr (result, f) ↦ rw (upload_loop, e, f) told
              | inl f ↦
                  rw (upload_loop, e, f)
                    (loop-keeps named at chunks (deliver desk (event ∷ []) d).1 told)
            ]
      ]

  done-keeps :
      (r : Result (Option UploadResult × Option FileId) Status × D)
      → P r.1
      → P (upload_done desk device r).1
  unfolding upload_done
  done-keeps (Result.err status, d) p = p
  done-keeps (Result.ok (some result, file), d) p = p
  done-keeps (Result.ok (none, none), d) p = p
  done-keeps (Result.ok (none, some named), d) p =
      deliver-keeps (Event.upload_aborted device named) d refl p

  upload-keeps :
      (chunks : List (Result (Option Kind) Status)) (d : D)
      → P d
      → P (upload_file desk chunks device d).1
  unfolding upload_file
  upload-keeps chunks d p =
      done-keeps (upload_loop desk device none 0 chunks d) (loop-keeps none 0 chunks d p)

  -- Whatever no event of one phone changes, and reading the desk's log does not, no call of that
  -- phone changes: each of its calls hands the core events that name the phone whose key opened
  -- the connection, whatever the messages of the call say.
  pub calls-keep :
      (d : D)
      → P d
      → ((name : Text) (asked : HandshakeRequest) → P (handshake desk name asked device d).1)
        × (((chunks : List (Result CatalogChunk Status))
              → P (submit_catalog desk chunks device d).1)
            × (P (get_diff desk device d).1
                × (((chunks : List (Result (Option Kind) Status))
                      → P (upload_file desk chunks device d).1)
                    × (P (finish desk device d).1
                        × ((reports : List (Result (List WireOutcome) Status))
                            → P (report_deletions desk reports device d).1)))))
  calls-keep d p = (
    (λ name asked. handshake-keeps name asked d p),
    (
      (λ chunks. submit-keeps chunks d p),
      (
        get_diff-keeps d p,
        (
          (λ chunks. upload-keeps chunks d p),
          (finish-keeps d p, (λ reports. report-keeps reports d p)),
        ),
      ),
    ),
  )
