-- ===== src/Sim/Agree/Silence.antt =====
-- desktop/crates/sim/src/run.rs, `agree`: what it means that it has nothing to report.
use photo_sync.Prelude.{
  List, [], ◌∷◌, ◌++◌, some, Bool, true, false, ◌==◌, ◌≡◌, ◌≢◌, ◌↔◌, refl, sym, ap, ◌∙◌, arith,
  eq_iff, eq_refl, inl, inr, All, All-map, AllDifferent, Option-cases, Bool-cases, list_ord,
  nat_ord, pair_ord,
}
use photo_sync.Prelude.Int.{int_ord}
use photo_sync.Prelude.Map.{Map, Set, contains, elem, elem-keys, keys, lookup}
use photo_sync.Id.{Sha256}
use photo_sync.Digest.{Hasher}
use photo_sync.Oracle.{FileKey, Recorded}
use photo_sync.Sim.Agree.{
  Account, Difference, agree, check_keys, check_row, check_rows, compare, index_digests, only_in,
  recorded_rows, report_if, same_record, vault_digests,
}
use photo_sync.Sim.World.{Simulation}

append_empty : {A : Type 0} (xs ys : List A) → xs ++ ys ≡ [] → (xs ≡ []) × (ys ≡ [])
append_empty [] ys h = (refl, h)
append_empty (x ∷ xs) ys h = cc

report_if-silent :
    (p : Sha256 → Bool) (report : Sha256 → Difference) (d : Sha256) (ds : List Sha256)
    → report_if p report ds ≡ []
    → elem d ds ≡ true
    → p d ≡ false
unfolding report_if
report_if-silent p report d [] h k = cc
report_if-silent p report d (x ∷ xs) h k =
    ground (arith, report_if-silent p report d xs, eq_iff x d)

report_if-holds :
    (p : Sha256 → Bool) (report : Sha256 → Difference) (ds : List Sha256)
    → ((d : Sha256) → elem d ds ≡ true → p d ≡ false)
    → report_if p report ds ≡ []
unfolding report_if
report_if-holds p report [] h = refl
report_if-holds p report (x ∷ xs) h =
    let at_x : p x ≡ false = h x (ground (arith, eq_refl x)) in
    rw at_x (report_if-holds p report xs (λ d k. h d (ground arith)))

-- Two sets hold the same digests, leaving out those that are undecided.
abbrev pub SameUpTo : Set Sha256 → Set Sha256 → Set Sha256 → Type 0
SameUpTo undecided these those =
    (d : Sha256) → contains d undecided ≡ false → contains d these ≡ contains d those

compare-silent :
    (what : Account) (expected found undecided : Set Sha256)
    → compare what expected found undecided ≡ []
    → SameUpTo undecided expected found
unfolding compare only_in
compare-silent what expected found undecided h d decided =
    let lacks = only_in expected found undecided in
    let exceeds = only_in found expected undecided in
    let quiet =
      append_empty (report_if lacks (Difference.missing what) (keys expected))
        (report_if exceeds (Difference.unearned what) (keys found)) h in
    ground (
      arith,
      report_if-silent lacks (Difference.missing what) d (keys expected) quiet.0,
      report_if-silent exceeds (Difference.unearned what) d (keys found) quiet.1,
      elem-keys d expected,
      elem-keys d found,
    )

compare-holds :
    (what : Account) (expected found undecided : Set Sha256)
    → SameUpTo undecided expected found
    → compare what expected found undecided ≡ []
unfolding compare only_in
compare-holds what expected found undecided same =
    let missing =
      report_if-holds (only_in expected found undecided) (Difference.missing what) (keys expected)
        (λ d k. ground (arith, k, same d, elem-keys d expected)) in
    let unearned =
      report_if-holds (only_in found expected undecided) (Difference.unearned what) (keys found)
        (λ d k. ground (arith, k, same d, elem-keys d found)) in
    rw (missing, unearned) refl

-- Two maps have the same records, leaving out the files that are undecided.
abbrev pub SameRecords : Set FileKey → (found expected : Map FileKey Recorded) → Type 0
SameRecords undecided found expected =
    (key : FileKey) → contains key undecided ≡ false → lookup key found ≡ lookup key expected

same_record_refl : (r : Recorded) → same_record r r ≡ true
unfolding same_record
same_record_refl r = ground (arith, eq_refl r.digest, eq_refl r.mtime)

eq_of_same_record : (a b : Recorded) → same_record a b ≡ true → a ≡ b
unfolding same_record
eq_of_same_record a b h = ground (arith, eq_iff a.digest b.digest, eq_iff a.mtime b.mtime)

check_row-silent :
    (found : Map FileKey Recorded) (undecided : Set FileKey) (key : FileKey) (r : Recorded)
    → check_row found undecided (key, r) ≡ []
    → contains key undecided ≡ false
    → lookup key found ≡ some r
unfolding check_row
check_row-silent found undecided key r h k = elim (Option-cases (lookup key found)) [
  | inl e ↦ ground arith
  | inr (v, e) ↦ ground (arith, e, eq_of_same_record v r)
]

check_row-holds :
    (found : Map FileKey Recorded) (undecided : Set FileKey) (key : FileKey) (r : Recorded)
    → (contains key undecided ≡ false → lookup key found ≡ some r)
    → check_row found undecided (key, r) ≡ []
unfolding check_row
check_row-holds found undecided key r h = ground (arith, h, same_record_refl r)

check_rows-silent :
    (found : Map FileKey Recorded) (undecided : Set FileKey) (key : FileKey) (r : Recorded)
    (expected : Map FileKey Recorded)
    → check_rows found undecided expected ≡ []
    → contains key undecided ≡ false
    → lookup key expected ≡ some r
    → lookup key found ≡ some r
unfolding check_rows lookup
check_rows-silent found undecided key r [] h k e = cc
check_rows-silent found undecided key r ((j, v) ∷ es) h k e =
    let quiet = append_empty (check_row found undecided (j, v)) (check_rows found undecided es) h in
    elim (Bool-cases (j == key)) [
      | inl same ↦
          let at : j ≡ key = (eq_iff j key).0 same in
          let found_v : lookup key found ≡ some v =
            check_row-silent found undecided key v
              (ap (λ x. check_row found undecided (x, v)) (sym at) ∙ quiet.0) k in
          found_v ∙ ground arith
      | inr other ↦ check_rows-silent found undecided key r es quiet.1 k (ground arith)
    ]

check_rows-holds :
    (found : Map FileKey Recorded) (undecided : Set FileKey) (expected : Map FileKey Recorded)
    → All
        (λ (e : FileKey × Recorded). contains e.0 undecided ≡ false → lookup e.0 found ≡ some e.1)
        expected
    → check_rows found undecided expected ≡ []
unfolding check_rows
check_rows-holds found undecided [] h = refl
check_rows-holds found undecided ((key, r) ∷ es) h =
    rw (check_row-holds found undecided key r h.0, check_rows-holds found undecided es h.1) refl

later_entries :
    (key : FileKey) (r : Recorded) (m rest : Map FileKey Recorded)
    → All (λ k. key ≢ k) (keys rest)
    → All (λ (e : FileKey × Recorded). lookup e.0 m ≡ some e.1) rest
    → All (λ (e : FileKey × Recorded). lookup e.0 ((key, r) ∷ m) ≡ some e.1) rest
unfolding lookup
later_entries key r m [] n h = tt
later_entries key r m ((j, v) ∷ rest) n h =
    (ground (arith, n.0, h.0, eq_iff key j), later_entries key r m rest n.1 h.1)

-- Where a map has each key once, each of its entries is the one looked up.
entries-lookup :
    (m : Map FileKey Recorded)
    → AllDifferent (keys m)
    → All (λ (e : FileKey × Recorded). lookup e.0 m ≡ some e.1) m
unfolding lookup
entries-lookup [] h = tt
entries-lookup ((key, r) ∷ m) h =
    (ground (arith, eq_refl key), later_entries key r m m h.0 (entries-lookup m h.1))

check_keys-silent :
    (expected : Map FileKey Recorded) (undecided : Set FileKey) (key : FileKey) (ks : List FileKey)
    → check_keys expected undecided ks ≡ []
    → contains key undecided ≡ false
    → elem key ks ≡ true
    → contains key expected ≡ true
unfolding check_keys
check_keys-silent expected undecided key [] h k e = cc
check_keys-silent expected undecided key (j ∷ ks) h k e =
    ground (arith, check_keys-silent expected undecided key ks, eq_iff j key)

check_keys-holds :
    (expected : Map FileKey Recorded) (undecided : Set FileKey) (ks : List FileKey)
    → ((key : FileKey)
        → contains key undecided ≡ false
        → elem key ks ≡ true
        → contains key expected ≡ true)
    → check_keys expected undecided ks ≡ []
unfolding check_keys
check_keys-holds expected undecided [] h = refl
check_keys-holds expected undecided (j ∷ ks) h =
    let rest = check_keys-holds expected undecided ks (λ key d e. h key d (ground arith)) in
    ground (arith, rest, h j, eq_refl j)

rows-silent :
    (found expected : Map FileKey Recorded) (undecided : Set FileKey)
    → check_rows found undecided expected ≡ []
    → check_keys expected undecided (keys found) ≡ []
    → SameRecords undecided found expected
unfolding contains
rows-silent found expected undecided h k key d = elim (Option-cases (lookup key expected)) [
  | inr (r, e) ↦ check_rows-silent found undecided key r expected h d e ∙ sym e
  | inl e ↦ elim (Option-cases (lookup key found)) [
    | inl nothing ↦ nothing ∙ sym e
    | inr (v, there) ↦ ground (
      arith,
      e,
      there,
      check_keys-silent expected undecided key (keys found) k d,
      elem-keys key found,
    )
  ]
]

-- What the oracle expects, and what the comparison reads off the disk and the index.
pub record IsMatched {S : Type 0} ⦃h : Hasher S⦄ (sim : Simulation S) : Type 0 where
  pub vault : SameUpTo sim.model.expected.undecided sim.model.expected.vault (vault_digests sim)
  pub index : SameUpTo sim.model.expected.undecided sim.model.expected.content (index_digests sim)
  pub rows :
      SameRecords sim.model.expected.undecided_files
        (recorded_rows sim)
        sim.model.expected.device_files

module _ {S : Type 0} ⦃h : Hasher S⦄ where
  agree_sound : (sim : Simulation S) → agree sim ≡ [] → IsMatched sim
  unfolding agree
  agree_sound sim h =
      let e = sim.model.expected in
      let (vault, rest) =
        append_empty (compare Account.the_vault e.vault (vault_digests sim) e.undecided) _ h in
      let (index, more) =
        append_empty (compare Account.the_index e.content (index_digests sim) e.undecided) _ rest in
      let (rows, extra) =
        append_empty (check_rows (recorded_rows sim) e.undecided_files e.device_files) _ more in
      record {
        vault = compare-silent Account.the_vault e.vault (vault_digests sim) e.undecided vault;
        index = compare-silent Account.the_index e.content (index_digests sim) e.undecided index;
        rows = rows-silent (recorded_rows sim) e.device_files e.undecided_files rows extra;
      }

  agree_complete :
      (sim : Simulation S)
      → AllDifferent (keys sim.model.expected.device_files)
      → IsMatched sim
      → agree sim ≡ []
  unfolding agree contains
  agree_complete sim once h =
      let e = sim.model.expected in
      let vault = compare-holds Account.the_vault e.vault (vault_digests sim) e.undecided h.vault in
      let index =
        compare-holds Account.the_index e.content (index_digests sim) e.undecided h.index in
      let rows = check_rows-holds (recorded_rows sim) e.undecided_files e.device_files (
        All-map _ _ (λ x at d. h.rows x.0 d ∙ at) e.device_files
          (entries-lookup e.device_files once)) in
      let extra =
        check_keys-holds e.device_files e.undecided_files (keys (recorded_rows sim))
          (λ key d k. ground (arith, h.rows key d, k, elem-keys key (recorded_rows sim))) in
      rw (vault, index, rows, extra) refl

  pub agree-IsMatched :
      (sim : Simulation S)
      → AllDifferent (keys sim.model.expected.device_files)
      → (agree sim ≡ []) ↔ IsMatched sim
  agree-IsMatched sim once = (agree_sound sim, agree_complete sim once)
