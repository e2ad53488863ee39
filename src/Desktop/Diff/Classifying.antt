-- ===== src/Desktop/Diff/Classifying.antt =====
-- desktop/crates/core/src/desktop.rs: reading prefixes back, classifying, and the free-space check.
use photo_sync.Prelude.{
  ℕ, List, [], ◌∷◌, map, filter, any, is_empty, min, Option, none, some, Bool, false, ◌&&◌, not,
  ◌==◌, eqb, ltb, is_some, list_ord, nat_ord, if◌then◌else◌,
}
use photo_sync.Prelude.Int.{int_ord}
use photo_sync.Prelude.Map.{Map, Set, lookup, insert, remove, add, contains, keys, of_list}
use photo_sync.Prelude.Word.{add_u64, saturating_sub}
use photo_sync.Id.{DeviceId, FileId, OpId}
use photo_sync.Catalog.{CatalogEntry}
use photo_sync.Digest
use photo_sync.Digest.{Hasher, RunningDigest}
use photo_sync.Effect.{Effect, Message, RejectReason, ToSend}
use photo_sync.Session.{
  Answers, Input, Inputs, Phase, Session, begin_rebuilding, in_order, plan, record_input,
  take_inputs, to_send_bytes, waiting_inputs,
}
use photo_sync.Session.Classify.{FileIds, PlannedSend, classify, starting_above}
use photo_sync.Store.{StagingEntry, StoreRequest, is_verified}
use photo_sync.Desktop.State.{
  Answered, Desktop, Pending, also, issue, only, put_session, quiet, rebuild_chunk_bytes, set_phase,
  unknown_session, warn,
}

-- The fields of `ToSend` that the phone is told.
abbrev pub to_send_of : PlannedSend → ToSend
to_send_of send = record { file = send.file; path = send.path; resume_offset = send.resume_offset }

module _ {S : Type 0} where
  -- `durable_digests.get(&file).is_some_and(|digest| digest.bytes() == bytes)`
  unfoldable pub holds_digest : Map FileId (RunningDigest S) → FileId → ℕ → Bool
  holds_digest digests file bytes = elim (lookup file digests) [
    | none ↦ false
    | some digest ↦ eqb digest.bytes bytes
  ]

  -- The chain of filters of `prefixes_to_rebuild`.
  unfoldable pub needs_rebuild : Desktop S → Session S → StagingEntry → Bool
  needs_rebuild d session entry =
      not (is_verified entry)
      && ltb 0 entry.durable_bytes
      && any
          (λ (wanted : CatalogEntry).
            wanted.path == entry.path && wanted.size == entry.size && wanted.mtime == entry.mtime)
          session.catalog.entries
      && not (holds_digest d.durable_digests entry.file entry.durable_bytes)
      && not (is_some (lookup entry.file d.rebuilding))
      && not (contains entry.file d.unreadable)

  unfoldable pub rebuilds_of : Desktop S → Session S → Inputs → List (FileId × ℕ)
  rebuilds_of d session inputs = elim inputs.staged [
    | none ↦ []
    | some entries ↦
        if is_some inputs.imported
        then map (λ (e : StagingEntry). (e.file, e.durable_bytes))
            (filter (needs_rebuild d session) entries)
        else []
  ]

  unfoldable pub prefixes_to_rebuild : DeviceId → Desktop S → List (FileId × ℕ)
  prefixes_to_rebuild device d = elim (lookup device d.sessions) [
    | none ↦ []
    | some session ↦ elim (waiting_inputs session.phase) [
      | none ↦ []
      | some inputs ↦ rebuilds_of d session inputs
    ]
  ]

  unfoldable pub read_more_of : DeviceId → FileId → ℕ → ℕ → Desktop S → Answered S
  read_more_of device file from prefix d =
      let length = min rebuild_chunk_bytes (saturating_sub prefix from) in
      issue (Pending.rebuild_digest device file (add_u64 from length) prefix)
        (λ op. Effect.read_staged_range op file from length) d

  unfoldable pub supersede : List FileId → Desktop S → Answered S
  supersede [] d = quiet d
  supersede (file ∷ files) d =
      let dropped =
        issue (Pending.drop_superseded file)
          (λ op. Effect.store op (StoreRequest.drop_staging_entry file))
          (record d { durable_digests = remove file d.durable_digests }) in
      also dropped.0 (supersede files dropped.1)

  -- The partials whose digest the desktop can continue.
  unfoldable pub resumable_of : Map FileId (RunningDigest S) → List StagingEntry → Set FileId
  resumable_of digests entries = of_list (
      map (λ (e : StagingEntry). e.file)
        (filter (λ (e : StagingEntry). holds_digest digests e.file e.durable_bytes) entries))

  -- `try_classify`, once both answers are taken.
  unfoldable pub classify_session :
      DeviceId → Session S → Answers → FileIds → Desktop S → Answered S
  classify_session device session (entries, rows) files d =
      let (classification, files') =
        classify session.catalog entries rows (resumable_of d.durable_digests entries) files in
      let superseded =
        supersede classification.superseded
          (put_session device (plan session classification) (record d { files = some files' })) in
      also superseded.0 (issue (Pending.free_space device) Effect.measure_free_space superseded.1)

  -- `try_classify` where no prefix has to be read back.
  unfoldable pub classify_now : DeviceId → FileIds → Desktop S → Answered S
  classify_now device files d = elim (lookup device d.sessions) [
    | none ↦ only (unknown_session device) d
    | some session ↦
        let (answers, session') = take_inputs session in
        elim answers [
          | none ↦ quiet (put_session device session' d)
          | some both ↦ classify_session device session' both files d
        ]
  ]

  unfoldable pub free_space_known : DeviceId → ℕ → Desktop S → Answered S
  free_space_known device available_bytes d = elim (lookup device d.sessions) [
    | none ↦ only (unknown_session device) d
    | some session ↦
        if ltb available_bytes (to_send_bytes session)
        then only
            (Effect.reject_session device
              (RejectReason.not_enough_space (to_send_bytes session) available_bytes))
            (put_session device (set_phase Phase.rejected session) d)
        else only (Effect.send_diff device (map to_send_of (in_order session)) session.summary)
            (put_session device (set_phase Phase.transferring session) d)
  ]

  -- `free_space_measured`, by what the operation was for.
  unfoldable pub free_space_answered : OpId → ℕ → Option (Pending S) → Desktop S → Answered S
  free_space_answered op available_bytes (some (Pending.free_space device)) d =
      free_space_known device available_bytes (record d { pending = remove op d.pending })
  free_space_answered op available_bytes asked d = only (warn (Message.free_space_not_asked op)) d

  unfoldable pub free_space_measured : OpId → ℕ → Desktop S → Answered S
  free_space_measured op available_bytes d =
      free_space_answered op available_bytes (lookup op d.pending) d

module _ {S : Type 0} ⦃h : Hasher S⦄ where
  -- The loop of `rebuild_prefixes`.
  unfoldable pub rebuild_each : DeviceId → List (FileId × ℕ) → Desktop S → Answered S
  rebuild_each device [] d = quiet d
  rebuild_each device ((file, prefix) ∷ files) d =
      let asked =
        read_more_of device file 0 prefix
          (record d { rebuilding = insert file Digest.new d.rebuilding }) in
      also asked.0 (rebuild_each device files asked.1)

  unfoldable pub rebuild_prefixes : DeviceId → List (FileId × ℕ) → Desktop S → Answered S
  rebuild_prefixes device files d = elim (lookup device d.sessions) [
    | none ↦ rebuild_each device files d
    | some session ↦ rebuild_each device files (put_session device (begin_rebuilding session) d)
  ]

  unfoldable pub try_classify : DeviceId → Desktop S → Answered S
  try_classify device d = elim d.files [
    | none ↦ quiet (record d { awaiting_ids = add device d.awaiting_ids })
    | some files ↦
        let rebuilds = prefixes_to_rebuild device d in
        if is_empty rebuilds
        then classify_now device files d
        else rebuild_prefixes device rebuilds d
  ]

  unfoldable pub try_each : List DeviceId → Desktop S → Answered S
  try_each [] d = quiet d
  try_each (device ∷ devices) d =
      let tried = try_classify device d in also tried.0 (try_each devices tried.1)

  unfoldable pub seed_file_ids : Option FileId → Desktop S → Answered S
  seed_file_ids highest d =
      try_each (keys d.awaiting_ids)
        (record d { files = some (starting_above highest); awaiting_ids = [] })

  unfoldable pub record_answer : DeviceId → Input → Desktop S → Answered S
  record_answer device input d = elim (lookup device d.sessions) [
    | none ↦ only (unknown_session device) d
    | some session ↦
        let (session', complete) = record_input session input in
        let d' = put_session device session' d in
        if complete then try_classify device d' else quiet d'
  ]

  -- What a read back ends with: the digest is kept if it covers the prefix exactly.
  unfoldable pub settle_prefix : FileId → ℕ → RunningDigest S → Desktop S → Desktop S
  settle_prefix file prefix rebuilt d =
      if eqb rebuilt.bytes prefix
      then record d {
        rebuilding = remove file d.rebuilding;
        durable_digests = insert file rebuilt d.durable_digests;
      }
      else record d { rebuilding = remove file d.rebuilding; unreadable = add file d.unreadable }

  unfoldable pub prefix_read : DeviceId → FileId → ℕ → ℕ → List ℕ → Desktop S → Answered S
  prefix_read device file read_to prefix bytes d = elim (lookup file d.rebuilding) [
    | none ↦ quiet d
    | some digest ↦
        let digest' = Digest.update digest bytes in
        let d' = record d { rebuilding = insert file digest' d.rebuilding } in
        if ltb digest'.bytes prefix && not (is_empty bytes)
        then read_more_of device file read_to prefix d'
        else try_classify device (settle_prefix file prefix digest' d')
  ]

  unfoldable pub prefix_unreadable : DeviceId → FileId → Desktop S → Answered S
  prefix_unreadable device file d = also (warn (Message.could_not_be_read_back file) ∷ []) (
      try_classify device
        (record d { rebuilding = remove file d.rebuilding; unreadable = add file d.unreadable }))
