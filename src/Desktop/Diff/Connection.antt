-- ===== src/Desktop/Diff/Connection.antt =====
-- desktop/crates/core/src/desktop.rs: connections, the frozen catalog and the request for a diff.
use photo_sync.Prelude.{
  ℕ, List, [], ◌∷◌, ◌++◌, map, filter, none, some, Bool, true, false, list_ord, nat_ord,
  if◌then◌else◌,
}
use photo_sync.Prelude.Int.{int_ord}
use photo_sync.Prelude.Map.{lookup, remove}
use photo_sync.Id.{Text, DeviceId, FileId}
use photo_sync.Catalog
use photo_sync.Catalog.{CatalogEntry}
use photo_sync.Effect.{Effect, Message, PhaseName}
use photo_sync.Session.{Phase, Session, Upload, begin_classifying, connected, freeze, is_receiving}
use photo_sync.Store.{StoreRequest}
use photo_sync.Desktop.State.{
  AfterWatermark, Answered, Desktop, Pending, info, issue, issue_each, only, put_session, quiet,
  unknown_session, warn,
}
use photo_sync.Desktop.Commit.Queue.{is_committing, refuse_while_committing}

unfoldable pub describe : Phase → PhaseName
describe Phase.awaiting_catalog = PhaseName.waiting_for_its_catalog
describe Phase.catalog_frozen = PhaseName.holding_a_frozen_catalog
describe (Phase.classifying _) = PhaseName.being_classified
describe (Phase.rebuilding_digests _) = PhaseName.reading_its_partials_back
describe Phase.measuring_space = PhaseName.waiting_on_the_free_space_check
describe Phase.transferring = PhaseName.transferring
describe Phase.nominating = PhaseName.looking_for_its_vault_copies
describe Phase.deleting = PhaseName.deleting_on_the_phone
describe Phase.rejected = PhaseName.rejected

abbrev pub is_awaiting_catalog : Phase → Bool
is_awaiting_catalog Phase.awaiting_catalog = true
is_awaiting_catalog _ = false

abbrev pub is_catalog_frozen : Phase → Bool
is_catalog_frozen Phase.catalog_frozen = true
is_catalog_frozen _ = false

module _ {S : Type 0} where
  -- The uploads that `finalize_partials` finds unfinished, in the map's order.
  unfoldable pub unfinished : Session S → List (FileId × Upload S)
  unfinished session = filter (λ e. is_receiving e.1.state) session.uploads

  unfoldable pub finalize_partials : Session S → Desktop S → Answered S
  finalize_partials session d =
      issue_each
        (λ e. Pending.sync_file (record {
          device = session.device;
          file = e.0;
          through = e.1.received;
          snapshot = e.1.digest;
          then = AfterWatermark.stop;
        }))
        (λ e op. Effect.sync_file op e.0) (unfinished session) d

  -- A second connection takes the counts of the first over.
  abbrev pub rejoined : DeviceId → Session S → Session S
  rejoined device previous = record (connected device) {
    sent = previous.sent;
    skipped = previous.skipped;
    failed = previous.failed;
  }

  unfoldable pub peer_connected : DeviceId → Text → Desktop S → Answered S
  peer_connected device name d =
      if is_committing device d
      then refuse_while_committing device d
      else elim (lookup device d.sessions) [
        | none ↦ quiet (put_session device (connected device) d)
        | some previous ↦
            let finalized =
              finalize_partials previous (record d { sessions = remove device d.sessions }) in
            (
              finalized.0 ++ info (Message.reconnected name device) ∷ [],
              put_session device (rejoined device previous) finalized.1,
            )
      ]

  unfoldable pub peer_disconnected : DeviceId → Desktop S → Answered S
  peer_disconnected device d = elim (lookup device d.sessions) [
    | none ↦ only (unknown_session device) d
    | some session ↦ finalize_partials session (record d { sessions = remove device d.sessions })
  ]

  unfoldable pub catalog_submitted : DeviceId → List CatalogEntry → ℕ → Desktop S → Answered S
  catalog_submitted device entries total_bytes d = elim (lookup device d.sessions) [
    | none ↦ only (unknown_session device) d
    | some session ↦
        if is_awaiting_catalog session.phase
        then quiet (put_session device (freeze session (Catalog.new entries total_bytes)) d)
        else only (warn (Message.catalog_while device (describe session.phase))) d
  ]

  -- The two lookups behind a diff.
  unfoldable pub ask_for_diff : DeviceId → Session S → Desktop S → Answered S
  ask_for_diff device session d =
      let staging =
        issue (Pending.list_staging device)
          (λ op. Effect.store op (StoreRequest.list_staging_entries device))
          (put_session device (begin_classifying session) d) in
      let index =
        issue (Pending.lookup_imported device)
          (λ op. Effect.store op (
            StoreRequest.lookup_device_files device
              (map (λ (e : CatalogEntry). e.path) session.catalog.entries)))
          staging.1 in
      (staging.0 ++ index.0, index.1)

  unfoldable pub diff_requested : DeviceId → Desktop S → Answered S
  diff_requested device d = elim (lookup device d.sessions) [
    | none ↦ only (unknown_session device) d
    | some session ↦
        if is_catalog_frozen session.phase
        then ask_for_diff device session d
        else only (warn (Message.diff_while device (describe session.phase))) d
  ]
