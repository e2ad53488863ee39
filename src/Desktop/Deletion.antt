-- ===== src/Desktop/Deletion.antt =====
-- desktop/crates/core/src/desktop/deletion.rs: offering the phone the photos it may delete.
use photo_sync.Prelude.{
  ℕ, List, [], ◌∷◌, ◌++◌, map, filter, any, find, length, is_empty, Option, none, some, Bool, ◌&&◌,
  ◌==◌, ltb, eqb, list_ord, nat_ord, if◌then◌else◌,
}
use photo_sync.Prelude.Int.{int_ord}
use photo_sync.Prelude.Map.{lookup, remove, contains}
use photo_sync.Prelude.Word.{add_u64, saturating_sub}
use photo_sync.Id.{DeviceId, DevicePath}
use photo_sync.Catalog.{CatalogEntry}
use photo_sync.Effect.{Effect, Message, CandidateOrigin, DeletionCandidate, SessionSummary}
use photo_sync.Event.{DeletionOutcome, DeletionResult}
use photo_sync.Session.{Nomination, Phase, Session}
use photo_sync.Store.{DeviceFileRow, StoreRequest}
use photo_sync.Desktop.State.{
  Answered, Desktop, Pending, issue, issue_each, only, put_session, quiet, set_phase, warn,
}

-- Whether an index row describes the very file the catalog listed.
unfoldable pub covers : CatalogEntry → DeviceFileRow → Bool
covers entry row = entry.path == row.path && entry.size == row.size && entry.mtime == row.mtime

unfoldable pub size_of : List DeletionCandidate → DevicePath → ℕ
size_of candidates path = elim (find (λ candidate. candidate.path == path) candidates) [
  | none ↦ 0
  | some candidate ↦ candidate.size
]

abbrev pub is_nominating : Phase → Bool
is_nominating Phase.nominating = Bool.true
is_nominating _ = Bool.false

unfoldable pub count_outcome :
    List DeletionCandidate → SessionSummary → DeletionOutcome → SessionSummary
count_outcome candidates summary outcome = elim outcome.result [
  | DeletionResult.deleted ↦ record summary {
    deleted = add_u64 summary.deleted 1;
    bytes_freed = add_u64 summary.bytes_freed (size_of candidates outcome.path);
  }
  | DeletionResult.failed ↦ record summary { failed = add_u64 summary.failed 1 }
  | _ ↦ record summary { kept = add_u64 summary.kept 1 }
]

unfoldable pub count_outcomes :
    List DeletionCandidate → SessionSummary → List DeletionOutcome → SessionSummary
count_outcomes candidates summary [] = summary
count_outcomes candidates summary (o ∷ os) =
    count_outcomes candidates (count_outcome candidates summary o) os

-- The candidate that a row becomes once its vault copy is found.
unfoldable pub candidate_of : Nomination → DeviceFileRow → DeletionCandidate
candidate_of nomination row = record {
  path = row.path;
  size = row.size;
  mtime = row.mtime;
  expected = row.digest;
  origin =
      if contains row.path nomination.committed
      then CandidateOrigin.this_transfer
      else CandidateOrigin.earlier;
}

abbrev pub is_size : Option ℕ → ℕ → Bool
is_size none size = Bool.false
is_size (some n) size = eqb n size

-- What one answer about a vault copy does to the nomination.
unfoldable pub check_copy : DeviceFileRow → Option ℕ → Nomination → Nomination
check_copy row found nomination = record nomination {
  candidates =
      if is_size found row.size
      then nomination.candidates ++ candidate_of nomination row ∷ []
      else nomination.candidates;
  awaited = saturating_sub nomination.awaited 1;
}

module _ {S : Type 0} where
  unfoldable pub send_candidates : DeviceId → Desktop S → Answered S
  send_candidates device d = elim (lookup device d.sessions) [
    | none ↦ quiet d
    | some session ↦
        only (Effect.send_candidates device session.nomination.candidates session.nomination.commit)
          (put_session device (set_phase Phase.deleting session) d)
  ]

  unfoldable pub nominate : DeviceId → Nomination → Desktop S → Answered S
  nominate device nomination d = elim (lookup device d.sessions) [
    | none ↦ quiet d
    | some session ↦
        let d' =
          put_session device (record session { nomination = nomination; phase = Phase.nominating })
            d in
        let paths = map (λ entry. entry.path) session.catalog.entries in
        if is_empty paths
        then send_candidates device d'
        else issue (Pending.nomination_rows device)
            (λ op. Effect.store op (StoreRequest.lookup_device_files device paths)) d'
  ]

  -- The rows that describe a file of the frozen catalog.
  unfoldable pub covered_rows : Session S → List DeviceFileRow → List DeviceFileRow
  covered_rows session rows =
      filter (λ row. any (λ entry. covers entry row) session.catalog.entries) rows

  abbrev pub await : ℕ → Session S → Session S
  await n session = record session { nomination = record session.nomination { awaited = n } }

  -- The part of `nomination_rows` after the filter.
  unfoldable pub nominate_rows : DeviceId → Session S → List DeviceFileRow → Desktop S → Answered S
  nominate_rows device session covered d =
      let d' = put_session device (await (length covered) session) d in
      if is_empty covered
      then send_candidates device d'
      else issue_each (λ row. Pending.nomination_stat device row)
          (λ row op. Effect.stat_vault_file op row.vault_name) covered d'

  unfoldable pub nomination_rows : DeviceId → List DeviceFileRow → Desktop S → Answered S
  nomination_rows device rows d = elim (lookup device d.sessions) [
    | none ↦ quiet d
    | some session ↦
        if is_nominating session.phase
        then nominate_rows device session (covered_rows session rows) d
        else only (warn (Message.not_nominating device)) d
  ]

  unfoldable pub vault_copy_checked : DeviceId → DeviceFileRow → Option ℕ → Desktop S → Answered S
  vault_copy_checked device row found d = elim (lookup device d.sessions) [
    | none ↦ quiet d
    | some session ↦
        let nomination = check_copy row found session.nomination in
        let d' = put_session device (record session { nomination = nomination }) d in
        if ltb 0 nomination.awaited then quiet d' else send_candidates device d'
  ]

  -- `SessionSummary` as the session leaves it, before the outcomes are counted.
  abbrev pub summary_of : Session S → SessionSummary
  summary_of session = record {
    sent = session.sent;
    skipped = session.skipped;
    failed = session.failed;
    deleted = 0;
    kept = 0;
    bytes_freed = 0;
  }

  unfoldable pub deletions_reported : DeviceId → List DeletionOutcome → Desktop S → Answered S
  deletions_reported device outcomes d = elim (lookup device d.sessions) [
    | none ↦ only (warn (Message.deletions_without_session device)) d
    | some session ↦
        only
          (Effect.send_session_summary device
            (count_outcomes session.nomination.candidates (summary_of session) outcomes))
          (record d { sessions = remove device d.sessions })
  ]
