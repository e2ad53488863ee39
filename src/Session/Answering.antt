-- ===== src/Session/Answering.antt =====
-- desktop/crates/core/src/session.rs: the two answers that a diff waits for.
use photo_sync.Prelude.{List, none, some, Bool, true, false, ◌≡◌, refl}
use photo_sync.Session.{
  Input, Session, both_answers, begin_classifying, emptied, is_complete, record_input,
  record_input_phase, store_input, take_inputs, waiting_inputs,
}
use photo_sync.Store.{DeviceFileRow, StagingEntry}

module _ {S : Type 0} where
  abbrev pub staged_answer : List StagingEntry → Session S → Session S × Bool
  staged_answer entries session = record_input session (Input.staged entries)

  abbrev pub imported_answer : List DeviceFileRow → Session S → Session S × Bool
  imported_answer rows session = record_input session (Input.imported rows)

  -- The answers in both orders, the first incomplete and the second complete, and taken then.
  pub record CompletesOnce (session : Session S) (entries : List StagingEntry)
      (rows : List DeviceFileRow) : Type 0 where
    pub staged_waits : (staged_answer entries session).1 ≡ false
    pub imported_waits : (imported_answer rows session).1 ≡ false
    pub commutes :
        imported_answer rows (staged_answer entries session).0
        ≡ staged_answer entries (imported_answer rows session).0
    pub completes : (imported_answer rows (staged_answer entries session).0).1 ≡ true
    pub taken :
        (take_inputs (imported_answer rows (staged_answer entries session).0).0).0
        ≡ some (entries, rows)

  -- The two answers to a diff, in either order, complete it at the second and not at the first,
  -- with the same session, and both are then taken from it.
  pub answers-CompletesOnce :
      (session : Session S) (entries : List StagingEntry) (rows : List DeviceFileRow)
      → CompletesOnce (begin_classifying session) entries rows
  unfolding begin_classifying record_input record_input_phase store_input is_complete take_inputs
      waiting_inputs both_answers
  answers-CompletesOnce session entries rows = record {
    staged_waits = refl;
    imported_waits = refl;
    commutes = refl;
    completes = refl;
    taken = refl;
  }

  -- Where the answers are taken while only the staging entries are in, nothing is taken and they
  -- are lost: the index rows, when they come, do not complete the diff.
  pub early_take-loses :
      (session : Session S) (entries : List StagingEntry) (rows : List DeviceFileRow)
      → ((take_inputs (staged_answer entries (begin_classifying session)).0).0 ≡ none)
        × ((imported_answer rows
              (take_inputs (staged_answer entries (begin_classifying session)).0).1).1
            ≡ false)
  unfolding begin_classifying record_input record_input_phase store_input is_complete take_inputs
      waiting_inputs both_answers emptied
  early_take-loses session entries rows = (refl, refl)
