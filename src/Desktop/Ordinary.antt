-- ===== src/Desktop/Ordinary.antt =====
-- desktop/crates/core/src/desktop.rs: the transfers leave the commits alone. Every handler but those
-- of the commit keeps the queue, the lock and the running commit, and emits none of the effects
-- that a commit or a verified file rests on.
pub mod Diff
pub mod Receiving
pub mod Completed
use photo_sync.Prelude.{
  ℕ, List, [], ◌∷◌, ◌++◌, map, filter, Option, none, some, Bool, true, false, ◌≡◌, refl, ◌∙◌, All,
  All-append, Bool-cases, Option-cases, inl, inr, arith, nat_ord, list_ord, if◌then◌else◌,
}
use photo_sync.Prelude.Map.{Set, lookup}
use photo_sync.Id.{DeviceId, FileId, OpId}
use photo_sync.Effect.{Effect}
use photo_sync.Session.{Session, Upload}
use photo_sync.Store.{PlanEntry, StoreRequest}
use photo_sync.Desktop.State.{
  Answered, Desktop, Pending, Running, also, begin, issue, issue_each, only, put_session,
  put_upload, quiet, upload,
}

-- The requests and effects that move a watermark, finish a file, or carry a commit out.
abbrev pub IsBenignRequest : StoreRequest → Type 0
IsBenignRequest (StoreRequest.advance_watermark _ _) = ⊥
IsBenignRequest (StoreRequest.seal_commit_plan _ _) = ⊥
IsBenignRequest (StoreRequest.mark_plan_entries_done _ _) = ⊥
IsBenignRequest (StoreRequest.insert_committed_batch _ _) = ⊥
IsBenignRequest (StoreRequest.clear_commit_plan _) = ⊥
IsBenignRequest (StoreRequest.clear_staging_manifest _) = ⊥
IsBenignRequest _ = Unit

abbrev pub IsBenign : Effect → Type 0
IsBenign (Effect.finalize_staging_file _ _) = ⊥
IsBenign (Effect.rename_into_vault _ _ _) = ⊥
IsBenign (Effect.clear_staging_directory _ _) = ⊥
IsBenign (Effect.store _ request) = IsBenignRequest request
IsBenign _ = Unit

-- What the commits rest on.
pub record Commits : Type 0 where
  pub running : Option Running
  pub halted : Set DeviceId
  pub queued : Set DeviceId
  pub order : List DeviceId
  pub to_replay : List (DeviceId × List PlanEntry)

module _ {S : Type 0} where
  abbrev pub commits : Desktop S → Commits
  commits d = record {
    running = d.running;
    halted = d.halted;
    queued = d.queued;
    order = d.order;
    to_replay = d.to_replay;
  }

  abbrev pub SameCommits : Desktop S → Desktop S → Type 0
  SameCommits d e = commits e ≡ commits d

  pub record IsOrdinary (d : Desktop S) (r : Answered S) : Type 0 where
    pub effects : All IsBenign r.0
    pub same : SameCommits d r.1

  pub quiet-IsOrdinary : {d : Desktop S} (e : Desktop S) → SameCommits d e → IsOrdinary d (quiet e)
  quiet-IsOrdinary e s = record { effects = tt; same = s }

  pub only-IsOrdinary :
      {d : Desktop S} (effect : Effect) (e : Desktop S)
      → IsBenign effect
      → SameCommits d e
      → IsOrdinary d (only effect e)
  only-IsOrdinary effect e b s = record { effects = (b, tt); same = s }

  pub begin-SameCommits : (p : Pending S) (d : Desktop S) → SameCommits d (begin p d)
  unfolding begin
  begin-SameCommits p d = refl

  pub put_session-SameCommits :
      (device : DeviceId) (session : Session S) (d : Desktop S)
      → SameCommits d (put_session device session d)
  unfolding put_session
  put_session-SameCommits device session d = refl

  pub issue-IsOrdinary :
      (p : Pending S) (effect : OpId → Effect) (d : Desktop S)
      → IsBenign (effect d.next_op)
      → IsOrdinary d (issue p effect d)
  unfolding issue
  issue-IsOrdinary p effect d b = only-IsOrdinary (effect d.next_op) _ b (begin-SameCommits p d)

  -- One answer after another.
  pub also-IsOrdinary :
      {d e : Desktop S} (effects : List Effect) (r : Answered S)
      → All IsBenign effects
      → SameCommits d e
      → IsOrdinary e r
      → IsOrdinary d (also effects r)
  also-IsOrdinary effects r b s o = record {
    effects = All-append IsBenign effects r.0 b o.effects;
    same = o.same ∙ s;
  }

  pub after-IsOrdinary :
      {d : Desktop S} (q r : Answered S)
      → IsOrdinary d q
      → IsOrdinary q.1 r
      → IsOrdinary d (also q.0 r)
  after-IsOrdinary q r o p = also-IsOrdinary q.0 r o.effects o.same p

  pub issue_each-IsOrdinary {ℓ} :
      {A : Type ℓ} (pending : A → Pending S) (effect : A → OpId → Effect) (xs : List A)
      (d : Desktop S)
      → ((x : A) (op : OpId) → IsBenign (effect x op))
      → IsOrdinary d (issue_each pending effect xs d)
  unfolding issue_each
  issue_each-IsOrdinary pending effect [] d b = quiet-IsOrdinary d refl
  issue_each-IsOrdinary pending effect (x ∷ xs) d b =
      also-IsOrdinary (effect x d.next_op ∷ []) _ (b x d.next_op, tt)
        (begin-SameCommits (pending x) d)
        (issue_each-IsOrdinary pending effect xs (begin (pending x) d) b)

  -- The same state before, for what the commits rest on.
  pub from-IsOrdinary :
      {d e : Desktop S} (r : Answered S) → SameCommits d e → IsOrdinary e r → IsOrdinary d r
  from-IsOrdinary r s o = record { effects = o.effects; same = o.same ∙ s }

  pub put_upload-SameCommits :
      (device : DeviceId) (file : FileId) (u : Upload S) (d : Desktop S)
      → SameCommits d (put_upload device file u d)
  unfolding put_upload
  put_upload-SameCommits device file u d = elim (Option-cases (lookup device d.sessions)) [
    | inl e ↦ rw (e, put_upload)
    | inr (session, e) ↦ rw (e, put_upload)
  ]

  -- The rules for `if` and for a lookup.
  pub if-IsOrdinary :
      {d : Desktop S} (b : Bool) (m n : Answered S)
      → IsOrdinary d m
      → IsOrdinary d n
      → IsOrdinary d (if b then m else n)
  if-IsOrdinary true m n h k = h
  if-IsOrdinary false m n h k = k

  pub option-IsOrdinary {ℓ} :
      {A : Type ℓ} {d : Desktop S} (o : Option A) (m : Answered S) (f : A → Answered S)
      → IsOrdinary d m
      → ((a : A) → IsOrdinary d (f a))
      → IsOrdinary d (elim o [ none ↦ m | some a ↦ f a ])
  option-IsOrdinary none m f h k = h
  option-IsOrdinary (some a) m f h k = k a
