-- ===== src/Desktop/Nomination.antt =====
-- desktop/crates/core/src/desktop/deletion.rs: which photos the phone is offered to delete.
use photo_sync.Prelude.{
  ℕ, suc, ◌-◌, lt→ltb, List, [], ◌∷◌, ◌++◌, map, append_assoc, append-nil, length, Option, none,
  some, true, false, ◌≡◌, refl, ap, ◌∙◌, sym, eqb, ltb, Bool-cases, inl, inr, arith, nat_ord,
  list_ord, if◌then◌else◌,
}
use photo_sync.Prelude.Map.{lookup, lookup-insert_self}
use photo_sync.Prelude.Word.{saturating_sub}
use photo_sync.Id.{DeviceId}
use photo_sync.Effect.{DeletionCandidate, Effect}
use photo_sync.Session.{Nomination, Session}
use photo_sync.Store.{DeviceFileRow}
use photo_sync.Desktop.State.{Answered, Desktop, also, put_session, quiet}
use photo_sync.Desktop.Deletion.{candidate_of, check_copy, send_candidates, vault_copy_checked}

-- What the phone may delete: the rows whose vault copy has the recorded size, in the order of the answers.
abbrev pub kept_safe : List (DeviceFileRow × Option ℕ) → List DeviceFileRow
kept_safe [] = []
kept_safe ((row, none) ∷ answers) = kept_safe answers
kept_safe ((row, some size) ∷ answers) =
    if eqb size row.size then row ∷ kept_safe answers else kept_safe answers

abbrev pub offered : Nomination → List (DeviceFileRow × Option ℕ) → List DeletionCandidate
offered nomination answers =
    nomination.candidates ++ map (candidate_of nomination) (kept_safe answers)

check_copy-offered :
    (row : DeviceFileRow) (found : Option ℕ) (answers : List (DeviceFileRow × Option ℕ))
    (nomination : Nomination)
    → offered (check_copy row found nomination) answers
      ≡ offered nomination ((row, found) ∷ answers)
unfolding check_copy candidate_of
check_copy-offered row none answers nomination = refl
check_copy-offered row (some size) answers nomination = elim (Bool-cases (eqb size row.size)) [
  | inl t ↦ rw t (append_assoc nomination.candidates (candidate_of nomination row ∷ []) _)
  | inr f ↦ rw f refl
]

check_copy-awaits :
    (row : DeviceFileRow) (found : Option ℕ) (nomination : Nomination) (n : ℕ)
    → nomination.awaited ≡ suc n
    → (check_copy row found nomination).awaited ≡ n
unfolding check_copy
check_copy-awaits row found nomination n a = omega (arith, a)

module _ {S : Type 0} where
  lookup-put_session :
      (device : DeviceId) (session : Session S) (d : Desktop S)
      → lookup device (put_session device session d).sessions ≡ some session
  unfolding put_session
  lookup-put_session device session d = lookup-insert_self device session d.sessions

  -- The answers about the vault copies, one after another.
  abbrev pub check_all : DeviceId → List (DeviceFileRow × Option ℕ) → Desktop S → Answered S
  check_all device [] d = quiet d
  check_all device ((row, found) ∷ answers) d =
      let checked = vault_copy_checked device row found d in
      also checked.0 (check_all device answers checked.1)

  -- One answer of several leaves the session waiting for the rest, and says nothing.
  vault_copy_checked-waits :
      (device : DeviceId) (row : DeviceFileRow) (found : Option ℕ) (n : ℕ) (session : Session S)
      (d : Desktop S)
      → lookup device d.sessions ≡ some session
      → session.nomination.awaited ≡ suc (suc n)
      → vault_copy_checked device row found d
        ≡ quiet (
            put_session device
              (record session { nomination = check_copy row found session.nomination })
              d)
  unfolding vault_copy_checked check_copy
  vault_copy_checked-waits device row found n session d e a =
      let more : ltb 0 (saturating_sub session.nomination.awaited 1) ≡ true =
        lt→ltb 0 (session.nomination.awaited - 1) (omega (arith, a)) in
      rw (e, vault_copy_checked, more)

  send_candidates-effects :
      (device : DeviceId) (session : Session S) (d : Desktop S)
      → lookup device d.sessions ≡ some session
      → (send_candidates device d).0
        ≡ Effect.send_candidates device session.nomination.candidates session.nomination.commit ∷ []
  unfolding send_candidates
  send_candidates-effects device session d e = rw (e, send_candidates)

  -- The last answer sends the candidates.
  vault_copy_checked-sends :
      (device : DeviceId) (row : DeviceFileRow) (found : Option ℕ) (session : Session S)
      (d : Desktop S)
      → lookup device d.sessions ≡ some session
      → session.nomination.awaited ≡ 1
      → (vault_copy_checked device row found d).0
        ≡ Effect.send_candidates device
            (check_copy row found session.nomination).candidates
            session.nomination.commit
          ∷ []
  unfolding vault_copy_checked check_copy put_session
  vault_copy_checked-sends device row found session d e a =
      let last : ltb 0 (saturating_sub session.nomination.awaited 1) ≡ false = ground (arith, a) in
      rw (e, vault_copy_checked, last)
        (send_candidates-effects device
          (record session { nomination = check_copy row found session.nomination }) _
          (lookup-insert_self device _ d.sessions))

  pub check_all-sends :
      (device : DeviceId) (row : DeviceFileRow) (found : Option ℕ)
      (answers : List (DeviceFileRow × Option ℕ)) (session : Session S) (d : Desktop S)
      → lookup device d.sessions ≡ some session
      → session.nomination.awaited ≡ suc (length answers)
      → (check_all device ((row, found) ∷ answers) d).0
        ≡ Effect.send_candidates device
            (offered session.nomination ((row, found) ∷ answers))
            session.nomination.commit
          ∷ []
  unfolding check_copy
  check_all-sends device row found [] session d e a =
      append-nil (vault_copy_checked device row found d).0
      ∙ (vault_copy_checked-sends device row found session d e a
          ∙ ap
              (λ candidates.
                Effect.send_candidates device candidates session.nomination.commit ∷ [])
              (sym (append-nil (check_copy row found session.nomination).candidates)
                ∙ check_copy-offered row found [] session.nomination))
  check_all-sends device row found ((row', found') ∷ answers) session d e a =
      let session' : Session S = record session {
        nomination = check_copy row found session.nomination;
      } in
      let rest =
        check_all-sends device row' found' answers session' (put_session device session' d)
          (lookup-put_session device session' d)
          (check_copy-awaits row found session.nomination _ a) in
      ap (λ r. r.0 ++ (check_all device ((row', found') ∷ answers) r.1).0)
        (vault_copy_checked-waits device row found (length answers) session d e a)
      ∙ (rest
          ∙ ap
              (λ candidates.
                Effect.send_candidates device candidates session.nomination.commit ∷ [])
              (check_copy-offered row found ((row', found') ∷ answers) session.nomination))
