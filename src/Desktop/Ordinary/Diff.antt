-- ===== src/Desktop/Ordinary/Diff.antt =====
-- desktop/crates/core/src/desktop.rs: the handlers from connection to diff are ordinary.
use photo_sync.Prelude.{ℕ, List, [], ◌∷◌, Option, refl, All-append, arith, nat_ord, list_ord}
use photo_sync.Prelude.Map.{add, insert, lookup, remove}
use photo_sync.Id.{Text, DeviceId, FileId, OpId}
use photo_sync.Catalog.{CatalogEntry}
use photo_sync.Digest
use photo_sync.Digest.{Hasher, RunningDigest}
use photo_sync.Effect.{Message}
use photo_sync.Session.{Answers, Input, Session, take_inputs}
use photo_sync.Session.Classify.{FileIds}
use photo_sync.Desktop.State.{Desktop, issue, put_session, warn}
use photo_sync.Desktop.Commit.Queue.{is_committing, refuse_while_committing}
use photo_sync.Desktop.Diff.{
  ask_for_diff, catalog_submitted, classify_now, classify_session, diff_requested,
  finalize_partials, free_space_answered, free_space_known, free_space_measured, peer_connected,
  peer_disconnected, prefix_read, prefix_unreadable, read_more_of, rebuild_each, rebuild_prefixes,
  record_answer, seed_file_ids, settle_prefix, supersede, try_classify, try_each,
}
use photo_sync.Desktop.Ordinary.{
  IsBenign, IsOrdinary, SameCommits, after-IsOrdinary, also-IsOrdinary, from-IsOrdinary,
  issue-IsOrdinary, issue_each-IsOrdinary, if-IsOrdinary, only-IsOrdinary, option-IsOrdinary,
  quiet-IsOrdinary,
}

module _ {S : Type 0} where
  pub finalize_partials-IsOrdinary :
      (session : Session S) (d : Desktop S) → IsOrdinary d (finalize_partials session d)
  unfolding finalize_partials
  finalize_partials-IsOrdinary session d = issue_each-IsOrdinary _ _ _ d (λ x op. tt)

  pub peer_disconnected-IsOrdinary :
      (device : DeviceId) (d : Desktop S) → IsOrdinary d (peer_disconnected device d)
  unfolding peer_disconnected
  peer_disconnected-IsOrdinary device d =
      option-IsOrdinary (lookup device d.sessions) _ _ (only-IsOrdinary _ d tt refl)
        (λ session. from-IsOrdinary _ refl (finalize_partials-IsOrdinary session _))

  pub peer_connected-IsOrdinary :
      (device : DeviceId) (name : Text) (d : Desktop S)
      → IsOrdinary d (peer_connected device name d)
  unfolding peer_connected refuse_while_committing put_session
  peer_connected-IsOrdinary device name d =
      if-IsOrdinary (is_committing device d) _ _ (record { effects = (tt, (tt, tt)); same = refl })
        (option-IsOrdinary (lookup device d.sessions) _ _ (quiet-IsOrdinary _ refl) (λ previous.
          let o =
            finalize_partials-IsOrdinary previous
              (record d { sessions = remove device d.sessions }) in
          record { effects = All-append IsBenign _ _ o.effects (tt, tt); same = o.same }))

  pub catalog_submitted-IsOrdinary :
      (device : DeviceId) (entries : List CatalogEntry) (total : ℕ) (d : Desktop S)
      → IsOrdinary d (catalog_submitted device entries total d)
  unfolding catalog_submitted put_session
  catalog_submitted-IsOrdinary device entries total d = ground arith

  pub ask_for_diff-IsOrdinary :
      (device : DeviceId) (session : Session S) (d : Desktop S)
      → IsOrdinary d (ask_for_diff device session d)
  unfolding ask_for_diff put_session issue
  ask_for_diff-IsOrdinary device session d = record { effects = (tt, (tt, tt)); same = refl }

  pub diff_requested-IsOrdinary :
      (device : DeviceId) (d : Desktop S) → IsOrdinary d (diff_requested device d)
  unfolding diff_requested
  diff_requested-IsOrdinary device d =
      option-IsOrdinary (lookup device d.sessions) _ _ (only-IsOrdinary _ d tt refl) (λ session.
        if-IsOrdinary _ _ _ (ask_for_diff-IsOrdinary device session d)
          (only-IsOrdinary _ d tt refl))

  pub supersede-IsOrdinary :
      (files : List FileId) (d : Desktop S) → IsOrdinary d (supersede files d)
  unfolding supersede
  supersede-IsOrdinary [] d = quiet-IsOrdinary d refl
  supersede-IsOrdinary (file ∷ files) d =
      after-IsOrdinary _ _ (from-IsOrdinary _ refl (issue-IsOrdinary _ _ _ tt))
        (supersede-IsOrdinary files _)

  pub free_space_known-IsOrdinary :
      (device : DeviceId) (n : ℕ) (d : Desktop S) → IsOrdinary d (free_space_known device n d)
  unfolding free_space_known put_session
  free_space_known-IsOrdinary device n d = ground arith

  pub free_space_measured-IsOrdinary :
      (op : OpId) (n : ℕ) (d : Desktop S) → IsOrdinary d (free_space_measured op n d)
  unfolding free_space_measured free_space_answered free_space_known put_session
  free_space_measured-IsOrdinary op n d = ground arith

  classify_session-IsOrdinary :
      (device : DeviceId) (session : Session S) (answers : Answers) (files : FileIds)
      (d : Desktop S)
      → IsOrdinary d (classify_session device session answers files d)
  unfolding classify_session put_session
  classify_session-IsOrdinary device session (entries, rows) files d =
      after-IsOrdinary _ _ (from-IsOrdinary _ refl (supersede-IsOrdinary _ _))
        (issue-IsOrdinary _ _ _ tt)

  classify_now-IsOrdinary :
      (device : DeviceId) (files : FileIds) (d : Desktop S)
      → IsOrdinary d (classify_now device files d)
  unfolding classify_now put_session
  classify_now-IsOrdinary device files d =
      option-IsOrdinary (lookup device d.sessions) _ _ (only-IsOrdinary _ d tt refl) (λ session.
        option-IsOrdinary (take_inputs session).0 _ _ (quiet-IsOrdinary _ refl)
          (λ both. classify_session-IsOrdinary device _ both files d))

  read_more_of-IsOrdinary :
      (device : DeviceId) (file : FileId) (from prefix : ℕ) (d : Desktop S)
      → IsOrdinary d (read_more_of device file from prefix d)
  unfolding read_more_of
  read_more_of-IsOrdinary device file from prefix d = issue-IsOrdinary _ _ d tt

module _ {S : Type 0} ⦃h : Hasher S⦄ where
  rebuild_each-IsOrdinary :
      (device : DeviceId) (files : List (FileId × ℕ)) (d : Desktop S)
      → IsOrdinary d (rebuild_each device files d)
  unfolding rebuild_each
  rebuild_each-IsOrdinary device [] d = quiet-IsOrdinary d refl
  rebuild_each-IsOrdinary device ((file, prefix) ∷ files) d =
      after-IsOrdinary _ _ (from-IsOrdinary _ refl (read_more_of-IsOrdinary device file 0 prefix _))
        (rebuild_each-IsOrdinary device files _)

  rebuild_prefixes-IsOrdinary :
      (device : DeviceId) (files : List (FileId × ℕ)) (d : Desktop S)
      → IsOrdinary d (rebuild_prefixes device files d)
  unfolding rebuild_prefixes put_session
  rebuild_prefixes-IsOrdinary device files d =
      option-IsOrdinary (lookup device d.sessions) _ _ (rebuild_each-IsOrdinary device files d)
        (λ session. from-IsOrdinary _ refl (rebuild_each-IsOrdinary device files _))

  pub try_classify-IsOrdinary :
      (device : DeviceId) (d : Desktop S) → IsOrdinary d (try_classify device d)
  unfolding try_classify
  try_classify-IsOrdinary device d =
      option-IsOrdinary d.files _ _ (quiet-IsOrdinary _ refl) (λ files.
        if-IsOrdinary _ _ _ (classify_now-IsOrdinary device files d)
          (rebuild_prefixes-IsOrdinary device _ d))

  try_each-IsOrdinary :
      (devices : List DeviceId) (d : Desktop S) → IsOrdinary d (try_each devices d)
  unfolding try_each
  try_each-IsOrdinary [] d = quiet-IsOrdinary d refl
  try_each-IsOrdinary (device ∷ devices) d =
      after-IsOrdinary _ _ (try_classify-IsOrdinary device d) (try_each-IsOrdinary devices _)

  pub seed_file_ids-IsOrdinary :
      (highest : Option FileId) (d : Desktop S) → IsOrdinary d (seed_file_ids highest d)
  unfolding seed_file_ids
  seed_file_ids-IsOrdinary highest d = from-IsOrdinary _ refl (try_each-IsOrdinary _ _)

  pub record_answer-IsOrdinary :
      (device : DeviceId) (input : Input) (d : Desktop S)
      → IsOrdinary d (record_answer device input d)
  unfolding record_answer put_session
  record_answer-IsOrdinary device input d =
      option-IsOrdinary (lookup device d.sessions) _ _ (only-IsOrdinary _ d tt refl) (λ session.
        if-IsOrdinary _ _ _ (from-IsOrdinary _ refl (try_classify-IsOrdinary device _))
          (quiet-IsOrdinary _ refl))

  settle_prefix-SameCommits :
      (file : FileId) (prefix : ℕ) (digest : RunningDigest S) (d : Desktop S)
      → SameCommits d (settle_prefix file prefix digest d)
  unfolding settle_prefix
  settle_prefix-SameCommits file prefix digest d = ground arith

  pub prefix_read-IsOrdinary :
      (device : DeviceId) (file : FileId) (read_to prefix : ℕ) (bytes : List ℕ) (d : Desktop S)
      → IsOrdinary d (prefix_read device file read_to prefix bytes d)
  unfolding prefix_read
  prefix_read-IsOrdinary device file read_to prefix bytes d =
      option-IsOrdinary (lookup file d.rebuilding) _ _ (quiet-IsOrdinary d refl) (λ digest.
        let d' : Desktop S = record d {
          rebuilding = insert file (Digest.update digest bytes) d.rebuilding;
        } in
        if-IsOrdinary _ _ _
          (from-IsOrdinary {e = d'} _ refl (read_more_of-IsOrdinary device file read_to prefix _))
          (from-IsOrdinary {e = settle_prefix file prefix (Digest.update digest bytes) d'} _
            (settle_prefix-SameCommits file prefix (Digest.update digest bytes) d')
            (try_classify-IsOrdinary device _)))

  pub prefix_unreadable-IsOrdinary :
      (device : DeviceId) (file : FileId) (d : Desktop S)
      → IsOrdinary d (prefix_unreadable device file d)
  unfolding prefix_unreadable
  prefix_unreadable-IsOrdinary device file d =
      also-IsOrdinary
        {e = record d { rebuilding = remove file d.rebuilding; unreadable = add file d.unreadable }}
        (warn (Message.could_not_be_read_back file) ∷ []) _ (tt, tt) refl
        (try_classify-IsOrdinary device _)
