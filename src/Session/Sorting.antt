-- ===== src/Session/Sorting.antt =====
-- desktop/crates/core/src/session.rs and commit.rs: the sort of staging entries by identifier.
use mathlib.Core.List.{Perm, Permᴰ}
use mathlib.Core.List.Permᴰ
use photo_sync.Prelude.{
  ℕ, ◌≤◌, List, [], ◌∷◌, filter, head?, Option, none, some, Bool, leb, ◌≡◌, refl, ◌∙◌, arith, All,
  All-filter, All-map, Option-cases, Bool-cases, inl, inr, nat_ord, list_ord, if◌then◌else◌,
}
use photo_sync.Session.Classify.{insert_by_file, sort_by_file}
use photo_sync.Store.{StagingEntry}

insert_by_file-All {κ} :
    (P : StagingEntry → Type κ) (e : StagingEntry) (xs : List StagingEntry)
    → P e
    → All P xs
    → All P (insert_by_file e xs)
unfolding insert_by_file
insert_by_file-All P e [] h k = (h, tt)
insert_by_file-All P e (x ∷ xs) h k = elim (Bool-cases (leb e.file x.file)) [
  | inl le ↦ rw le (h, k)
  | inr gt ↦ rw gt (k.0, insert_by_file-All P e xs h k.1)
]

pub sort_by_file-All {κ} :
    (P : StagingEntry → Type κ) (xs : List StagingEntry) → All P xs → All P (sort_by_file xs)
unfolding sort_by_file
sort_by_file-All P [] h = tt
sort_by_file-All P (x ∷ xs) h = insert_by_file-All P x _ h.0 (sort_by_file-All P xs h.1)

-- Entries by rising identifier.
abbrev pub AreOrdered : List StagingEntry → Type 0
AreOrdered [] = Unit
AreOrdered (x ∷ xs) = All (λ y. x.file ≤ y.file) xs × AreOrdered xs

insert_by_file-AreOrdered :
    (e : StagingEntry) (xs : List StagingEntry) → AreOrdered xs → AreOrdered (insert_by_file e xs)
unfolding insert_by_file
insert_by_file-AreOrdered e [] h = (tt, tt)
insert_by_file-AreOrdered e (x ∷ xs) h = elim (Bool-cases (leb e.file x.file)) [
  | inl le ↦
      let low : e.file ≤ x.file = ground (arith, le) in
      rw le ((low, All-map _ _ (λ y k. omega (arith, low, k)) xs h.0), h)
  | inr gt ↦
      let low : x.file ≤ e.file = ground (arith, gt) in
      rw gt
        (insert_by_file-All (λ y. x.file ≤ y.file) e xs low h.0, insert_by_file-AreOrdered e xs h.1)
]

pub sort_by_file-AreOrdered : (xs : List StagingEntry) → AreOrdered (sort_by_file xs)
unfolding sort_by_file
sort_by_file-AreOrdered [] = tt
sort_by_file-AreOrdered (x ∷ xs) = insert_by_file-AreOrdered x _ (sort_by_file-AreOrdered xs)

insert_by_file-Permᴰ :
    (e : StagingEntry) (xs : List StagingEntry) → Permᴰ (insert_by_file e xs) (e ∷ xs)
unfolding insert_by_file
insert_by_file-Permᴰ e [] = Permᴰ.refl (e ∷ [])
insert_by_file-Permᴰ e (x ∷ xs) = elim (Bool-cases (leb e.file x.file)) [
  | inl le ↦ rw le (Permᴰ.refl (e ∷ x ∷ xs))
  | inr gt ↦
      rw gt (Permᴰ.trans (Permᴰ.cons refl (insert_by_file-Permᴰ e xs)) (Permᴰ.swap refl refl))
]

sort_by_file-Permᴰ : (xs : List StagingEntry) → Permᴰ (sort_by_file xs) xs
unfolding sort_by_file
sort_by_file-Permᴰ [] = Permᴰ.nil
sort_by_file-Permᴰ (x ∷ xs) =
    Permᴰ.trans (insert_by_file-Permᴰ x (sort_by_file xs)) (Permᴰ.cons refl (sort_by_file-Permᴰ xs))

pub sort_by_file-Perm : (xs : List StagingEntry) → Perm (sort_by_file xs) xs
sort_by_file-Perm xs = ∣ sort_by_file-Permᴰ xs ∣₁

-- The entry of the lowest identifier, the first of them where several share it.
abbrev pub lower : StagingEntry → Option StagingEntry → StagingEntry
lower x none = x
lower x (some y) = if leb x.file y.file then x else y

abbrev pub lowest : List StagingEntry → Option StagingEntry
lowest [] = none
lowest (x ∷ xs) = some (lower x (lowest xs))

head-low :
    (n : ℕ) (xs : List StagingEntry) (y : StagingEntry)
    → All (λ z. n ≤ z.file) xs
    → head? xs ≡ some y
    → n ≤ y.file
head-low n [] y h e = cc
head-low n (x ∷ xs) y h e = ground (arith, h.0)

-- The head of what a test keeps of the list with one more entry in it.
head-insert :
    (q : StagingEntry → Bool) (e : StagingEntry) (xs : List StagingEntry)
    → AreOrdered xs
    → head? (filter q (insert_by_file e xs))
      ≡ (if q e then some (lower e (head? (filter q xs))) else head? (filter q xs))
unfolding insert_by_file
head-insert q e [] h = elim (Bool-cases (q e)) [ inl t ↦ rw t refl | inr f ↦ rw f refl ]
head-insert q e (x ∷ xs) h = elim (Bool-cases (leb e.file x.file)) [
  | inl le ↦ elim (Option-cases (head? (filter q (x ∷ xs)))) [
    | inl none_left ↦ ground (arith, le, none_left)
    | inr (y, found) ↦
        let low : x.file ≤ y.file =
          head-low x.file (filter q (x ∷ xs)) y
            (All-filter (λ z. x.file ≤ z.file) q (x ∷ xs) (omega arith, h.0)) found in
        ground (arith, le, found, low)
  ]
  | inr gt ↦ ground (arith, gt, head-insert q e xs h.1)
]

-- The first entry that passes a test, once the list is sorted.
pub head-sort_by_file :
    (q : StagingEntry → Bool) (xs : List StagingEntry)
    → head? (filter q (sort_by_file xs)) ≡ lowest (filter q xs)
unfolding sort_by_file
head-sort_by_file q [] = refl
head-sort_by_file q (x ∷ xs) =
    head-insert q x (sort_by_file xs) (sort_by_file-AreOrdered xs)
    ∙ ground (arith, head-sort_by_file q xs)
