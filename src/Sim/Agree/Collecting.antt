-- ===== src/Sim/Agree/Collecting.antt =====
-- desktop/crates/sim/src/run.rs, `agree`: what the sets and the map that it collects contain.
use photo_sync.Prelude.{
  List, [], ◌∷◌, map, some, true, ◌==◌, ◌≡◌, ◌≢◌, ◌↔◌, ◌⊎◌, inl, inr, refl, sym, ap, ◌∙◌, arith,
  eq_iff, eq_refl, All, AllDifferent, Bool-cases, Ord, list_ord, nat_ord, pair_ord, if◌then◌else◌,
}
use photo_sync.Prelude.Map.{
  Map, Set, collect, collect_onto, contains, elem, insert, keys, lookup, lookup-insert,
  lookup-insert_self, of_list,
}

-- Some member of a list is so.
abbrev pub Any : {A : Type 0} → (A → Type 0) → List A → Type 0
Any P [] = ⊥
Any P (x ∷ xs) = P x ⊎ Any P xs

pub Any-map :
    {A B : Type 0} (P : A → Type 0) (Q : B → Type 0) (f : A → B)
    → ((x : A) → P x → Q (f x))
    → (xs : List A) → Any P xs
    → Any Q (map f xs)
Any-map P Q f g [] h = elim h [ ]
Any-map P Q f g (x ∷ xs) (inl p) = inl (g x p)
Any-map P Q f g (x ∷ xs) (inr h) = inr (Any-map P Q f g xs h)

pub Any-unmap :
    {A B : Type 0} (P : A → Type 0) (Q : B → Type 0) (f : A → B)
    → ((x : A) → Q (f x) → P x)
    → (xs : List A) → Any Q (map f xs)
    → Any P xs
Any-unmap P Q f g [] h = elim h [ ]
Any-unmap P Q f g (x ∷ xs) (inl p) = inl (g x p)
Any-unmap P Q f g (x ∷ xs) (inr h) = inr (Any-unmap P Q f g xs h)

module _ {K : Type 0} ⦃o : Ord K⦄ where
  elem_iff : (k : K) (ks : List K) → (elem k ks ≡ true) ↔ Any (λ j. j ≡ k) ks
  elem_iff k [] = (λ h. cc, λ h. elim h [ ])
  elem_iff k (j ∷ ks) = elim (Bool-cases (j == k)) [
    | inl e ↦ (λ h. inl ((eq_iff j k).0 e), λ h. rw e refl)
    | inr e ↦ (
      λ h. inr ((elem_iff k ks).0 (ground (arith, e, h))),
      λ h. elim h [
        | inl same ↦ absurd (ground (arith, e, same, eq_refl k))
        | inr later ↦ rw e ((elem_iff k ks).1 later)
      ],
    )
  ]

  module _ {V : Type 0} where
    abbrev pub IsAt : K → V → K × V → Type 0
    IsAt k v e = (e.0 ≡ k) × (e.1 ≡ v)

    collect_onto-absent :
        (k : K) (l : List (K × V)) (m : Map K V)
        → All (λ j. k ≢ j) (keys l)
        → lookup k (collect_onto l m) ≡ lookup k m
    unfolding collect_onto
    collect_onto-absent k [] m h = refl
    collect_onto-absent k ((j, v) ∷ l) m h =
        collect_onto-absent k l (insert j v m) h.1
        ∙ ground (arith, h.0, lookup-insert j k v m, eq_iff j k)

    collect_onto-found :
        (k : K) (v : V) (l : List (K × V)) (m : Map K V)
        → AllDifferent (keys l)
        → Any (IsAt k v) l
        → lookup k (collect_onto l m) ≡ some v
    unfolding collect_onto
    collect_onto-found k v [] m h a = elim a [ ]
    collect_onto-found k v ((j, w) ∷ l) m h (inl (at, is)) =
        ap (λ x. lookup x (collect_onto l (insert j w m))) (sym at)
        ∙ (collect_onto-absent j l (insert j w m) h.0 ∙ (lookup-insert_self j w m ∙ ap some is))
    collect_onto-found k v ((j, w) ∷ l) m h (inr later) =
        collect_onto-found k v l (insert j w m) h.1 later

    collect_onto-comes_from :
        (k : K) (v : V) (l : List (K × V)) (m : Map K V)
        → lookup k (collect_onto l m) ≡ some v
        → (lookup k m ≡ some v) ⊎ Any (IsAt k v) l
    unfolding collect_onto
    collect_onto-comes_from k v [] m h = inl h
    collect_onto-comes_from k v ((j, w) ∷ l) m h =
        elim (collect_onto-comes_from k v l (insert j w m) h) [
          | inr later ↦ inr (inr later)
          | inl here ↦ elim (Bool-cases (j == k)) [
            | inl e ↦ inr (inl ((eq_iff j k).0 e, ground (arith, e, here, lookup-insert j k w m)))
            | inr e ↦ inl (ground (arith, e, here, lookup-insert j k w m))
          ]
        ]

    pub collect_iff :
        (k : K) (v : V) (l : List (K × V))
        → AllDifferent (keys l)
        → (lookup k (collect l) ≡ some v) ↔ Any (IsAt k v) l
    unfolding collect lookup
    collect_iff k v l once = (
      λ h. elim (collect_onto-comes_from k v l [] h) [ inl e ↦ cc | inr a ↦ a ],
      collect_onto-found k v l [] once,
    )

  units_onto-elem :
      (k : K) (l : List K) (m : Set K)
      → contains k (collect_onto (map (λ j. (j, tt)) l) m)
        ≡ (if elem k l then true else contains k m)
  unfolding collect_onto contains
  units_onto-elem k [] m = refl
  units_onto-elem k (j ∷ l) m =
      units_onto-elem k l (insert j tt m) ∙ ground (arith, lookup-insert j k tt m)

  pub of_list_iff : (k : K) (l : List K) → (contains k (of_list l) ≡ true) ↔ Any (λ j. j ≡ k) l
  unfolding of_list collect contains lookup
  of_list_iff k l =
      let same : contains k (of_list l) ≡ elem k l = units_onto-elem k l [] ∙ ground arith in
      (λ h. (elem_iff k l).0 (sym same ∙ h), λ h. same ∙ (elem_iff k l).1 h)
