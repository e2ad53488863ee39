-- ===== src/Shell/Server/Broken.antt =====
-- desktop/crates/shell/src/server.rs, `upload_file`: a stream that ends, and one that breaks.
use photo_sync.Prelude.{ℕ, List, [], ◌∷◌, ◌++◌, Option, none, some, ◌≡◌, ap}
use photo_sync.Id.{DeviceId, FileId}
use photo_sync.Event.{Event, Result}
use photo_sync.Shell.Wire.{Kind, Status, UploadResult}
use photo_sync.Shell.Server.{Desk, deliver, upload_done, upload_event, upload_file, upload_loop}
use photo_sync.Shell.Answers.{upload_result}

abbrev Looped : Type 0 → Type 0
Looped D = Result (Option UploadResult × Option FileId) Status × D

-- An error is no success.
err_is_not_ok : {A E X : Type 0} (status : E) (a : A) → Result.err status ≡ Result.ok a → X
err_is_not_ok status a e = cc

some_is_not_none : {A X : Type 0} (a : A) → some a ≡ none → X
some_is_not_none a e = cc

module _ {D : Type 0} (desk : Desk D) where
  -- One round of the loop, over what the rest of it does.
  abbrev next_round :
      Result (Event × (Option FileId × ℕ)) Status
      → (Option FileId → ℕ → D → Looped D)
      → D
      → Looped D
  next_round r rest d = elim r [
    | Result.err status ↦ (Result.err status, d)
    | Result.ok (event, (named, at)) ↦ elim (upload_result (deliver desk (event ∷ []) d).0) [
      | some result ↦ (Result.ok (some result, named), (deliver desk (event ∷ []) d).1)
      | none ↦ rest named at (deliver desk (event ∷ []) d).1
    ]
  ]

  round-breaks :
      (r : Result (Event × (Option FileId × ℕ)) Status)
      (ends breaks : Option FileId → ℕ → D → Looped D) (status : Status) (d after : D)
      (left : Option FileId)
      → ((named : Option FileId) (at : ℕ) (x : D)
          → ends named at x ≡ (Result.ok (none, left), after)
          → breaks named at x ≡ (Result.err status, after))
      → next_round r ends d ≡ (Result.ok (none, left), after)
      → next_round r breaks d ≡ (Result.err status, after)
  round-breaks (Result.err s) ends breaks status d after left rest e =
      err_is_not_ok s (none, left) (ap (λ x. x.0) e)
  round-breaks (Result.ok x) ends breaks status d after left rest e =
      by_answer (upload_result (deliver desk (x.0 ∷ []) d).0) e
    where
      by_answer :
          (answer : Option UploadResult)
          → (elim answer as (λ a. Looped D) [
            | some result ↦ (Result.ok (some result, x.1.0), (deliver desk (x.0 ∷ []) d).1)
            | none ↦ ends x.1.0 x.1.1 (deliver desk (x.0 ∷ []) d).1
          ])
            ≡ (Result.ok (none, left), after)
          → (elim answer as (λ a. Looped D) [
            | some result ↦ (Result.ok (some result, x.1.0), (deliver desk (x.0 ∷ []) d).1)
            | none ↦ breaks x.1.0 x.1.1 (deliver desk (x.0 ∷ []) d).1
          ])
            ≡ (Result.err status, after)
      by_answer none e = rest x.1.0 x.1.1 (deliver desk (x.0 ∷ []) d).1 e
      by_answer (some result) e = some_is_not_none result (ap answer_of e)
        where
          answer_of : Looped D → Option UploadResult
          answer_of (Result.err s, y) = none
          answer_of (Result.ok (answer, file), y) = answer

  loop-breaks :
      (device : DeviceId) (file : Option FileId) (offset : ℕ)
      (chunks : List (Result (Option Kind) Status)) (status : Status) (d after : D)
      (left : Option FileId)
      → upload_loop desk device file offset chunks d ≡ (Result.ok (none, left), after)
      → upload_loop desk device file offset (chunks ++ Result.err status ∷ []) d
        ≡ (Result.err status, after)
  unfolding upload_loop
  loop-breaks device file offset [] status d after left e = ap (λ x. (Result.err status, x.1)) e
  loop-breaks device file offset (Result.err s ∷ chunks) status d after left e =
      err_is_not_ok s (none, left) (ap (λ x. x.0) e)
  loop-breaks device file offset (Result.ok kind ∷ chunks) status d after left e =
      round-breaks (upload_event device file offset kind)
        (λ named at x. upload_loop desk device named at chunks x)
        (λ named at x. upload_loop desk device named at (chunks ++ Result.err status ∷ []) x) status
        d after left (λ named at x. loop-breaks device named at chunks status x after left) e

  -- A stream that leaves a file open: where it ends, the call reports the upload as aborted before
  -- it answers that the file is not finished; where it breaks at that very point with an error of
  -- the connection, the call answers with that error and the core is told nothing.
  pub upload_file-breaks :
      (chunks : List (Result (Option Kind) Status)) (device : DeviceId) (file : FileId)
      (status : Status) (d after : D)
      → upload_loop desk device none 0 chunks d ≡ (Result.ok (none, some file), after)
      → (upload_file desk chunks device d ≡ (
        Result.err Status.not_finished,
        (deliver desk (Event.upload_aborted device file ∷ []) after).1,
      ))
        × (upload_file desk (chunks ++ Result.err status ∷ []) device d
            ≡ (Result.err status, after))
  unfolding upload_file upload_done
  upload_file-breaks chunks device file status d after e = (
    ap (upload_done desk device) e,
    ap (upload_done desk device) (loop-breaks device none 0 chunks status d after (some file) e),
  )
