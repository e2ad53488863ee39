-- ===== src/Shell/Server/Chunks.antt =====
-- desktop/crates/shell/src/server.rs, `into_chunks`: a list in messages of bounded size.
use photo_sync.Prelude.{
  length-drop, length-take, take-drop, ℕ, zero, suc, ◌+◌, ◌≤◌, ◌<◌, ◌≢◌, List, [], ◌∷◌, ◌++◌,
  length, take, drop, min, Bool, true, false, eqb, ◌≡◌, refl, sym, ap, subst, ◌∙◌, arith, All,
}
use photo_sync.Shell.Answers.{entries_per_message}
use photo_sync.Shell.Answers.{chunks_from, into_chunks}

-- Messages of which only the last is marked as the last.
abbrev pub marked : {A C : Type 0} → (List A → Bool → C) → List A → List (List A) → List C
marked build piece [] = build piece true ∷ []
marked build piece (next ∷ pieces) = build piece false ∷ marked build next pieces

abbrev pub concat_all : {A : Type 0} → List (List A) → List A
concat_all [] = []
concat_all (piece ∷ pieces) = piece ++ concat_all pieces

-- A list cut into the pieces that messages carry, none of them empty; and one message where the
-- list is empty.
pub record IsSplit {A C : Type 0} (build : List A → Bool → C) (whole : List A) (messages : List C)
    : Type 0 where
  pub first : List A
  pub pieces : List (List A)
  pub carries : messages ≡ marked build first pieces
  pub together : concat_all (first ∷ pieces) ≡ whole
  pub small : All (λ piece. length piece ≤ 1000) (first ∷ pieces)
  pub filled : whole ≢ [] → All (λ piece. 0 < length piece) (first ∷ pieces)
  pub empty : whole ≡ [] → messages ≡ build [] true ∷ []

module _ {A C : Type 0} (build : List A → Bool → C) where
  -- One message and the rest of the loop.
  chunks_from-step :
      (fuel total taken : ℕ) (x : A) (xs : List A) (cut : ℕ)
      → cut ≡ min entries_per_message (length (x ∷ xs))
      → chunks_from build (suc fuel) total taken (x ∷ xs)
        ≡ build (take cut (x ∷ xs)) (eqb (taken + length (take cut (x ∷ xs))) total)
          ∷ chunks_from build fuel total (taken + length (take cut (x ∷ xs))) (drop cut (x ∷ xs))
  unfolding chunks_from
  chunks_from-step fuel total taken x xs cut e = rw e refl

  chunks_from-nil : (fuel total taken : ℕ) → chunks_from build fuel total taken [] ≡ []
  unfolding chunks_from
  chunks_from-nil zero total taken = refl
  chunks_from-nil (suc fuel) total taken = refl

  rest-IsSplit :
      (fuel total so_far : ℕ) (piece rest whole : List A)
      → piece ++ rest ≡ whole
      → whole ≢ []
      → 0 < length piece
      → length piece ≤ 1000
      → so_far + length rest ≡ total
      → ((y : A) (ys : List A)
          → rest ≡ y ∷ ys
          → IsSplit build (y ∷ ys) (chunks_from build fuel total so_far (y ∷ ys)))
      → IsSplit build whole
          (build piece (eqb so_far total) ∷ chunks_from build fuel total so_far rest)
  rest-IsSplit fuel total so_far piece [] whole joins whole_more more_here fits adds next =
      let over : eqb so_far total ≡ true = ground (arith, adds) in
      record {
        first = piece;
        pieces = [];
        carries = rw (over, chunks_from-nil fuel total so_far) refl;
        together = joins;
        small = (fits, tt);
        filled = λ _. (more_here, tt);
        empty = λ e. elim (whole_more e) [ ];
      }
  rest-IsSplit fuel total so_far piece (y ∷ ys) whole joins whole_more more_here fits adds next =
      let more : eqb so_far total ≡ false = ground (arith, adds) in
      let inner = next y ys refl in
      record {
        first = piece;
        pieces = inner.first ∷ inner.pieces;
        carries = rw (more, inner.carries) refl;
        together = ap (λ zs. piece ++ zs) inner.together ∙ joins;
        small = (fits, inner.small);
        filled = λ _. (more_here, inner.filled (λ e. cc));
        empty = λ e. elim (whole_more e) [ ];
      }

  chunks_from-IsSplit :
      (fuel total taken : ℕ) (x : A) (xs : List A)
      → length (x ∷ xs) ≤ fuel
      → taken + length (x ∷ xs) ≡ total
      → IsSplit build (x ∷ xs) (chunks_from build fuel total taken (x ∷ xs))
  chunks_from-IsSplit zero total taken x xs enough adds = absurd (omega (arith, enough))
  chunks_from-IsSplit (suc fuel) total taken x xs enough adds =
      let whole = x ∷ xs in
      let cut = min entries_per_message (length whole) in
      let piece = take cut whole in
      let size = length-take cut whole in
      let left = length-drop cut whole in
      subst (IsSplit build whole) (sym (chunks_from-step fuel total taken x xs cut refl)) (
        rest-IsSplit fuel total (taken + length piece) piece (drop cut whole) whole
          (take-drop cut whole) (λ e. cc) (omega (arith, size)) (omega (arith, size))
          (omega (arith, size, left, adds))
          (λ y ys same.
            let long : length (drop cut whole) ≡ suc (length ys) = ap length same in
            chunks_from-IsSplit fuel total (taken + length piece) y ys
              (omega (arith, size, left, enough, long)) (omega (arith, size, left, adds, long))))

  -- The messages that a list goes out in carry the list, in order and cut into pieces of at most a
  -- thousand entries, the last of them and no other marked as the last; where the list is not empty
  -- no message is, and an empty list goes out in one empty message.
  pub into_chunks-IsSplit : (xs : List A) → IsSplit build xs (into_chunks build xs)
  unfolding into_chunks
  into_chunks-IsSplit [] = record {
    first = [];
    pieces = [];
    carries = refl;
    together = refl;
    small = (omega arith, tt);
    filled = λ n. elim (n refl) [ ];
    empty = λ _. refl;
  }
  into_chunks-IsSplit (x ∷ xs) =
      chunks_from-IsSplit (length (x ∷ xs)) (length (x ∷ xs)) 0 x xs (omega arith) (omega arith)
