-- ===== src/Shell/Views/Bounds.antt =====
-- desktop/crates/shell/src/views.rs: the bar of a phone never reads past its end.
use photo_sync.Prelude.{
  ℕ, ◌*◌, ◌-◌, ◌≤◌, ◌<◌, [], ◌∷◌, min, Option, none, some, true, false, eqb, list_ord, nat_ord,
  arith, ◌≡◌, refl, All, Ordering, inl, inr, Bool-cases, ◌==◌, ◌↔◌, cmp_list,
}
use native.Mathlib.Nat.{le-div_iff_mul-le}
use photo_sync.Prelude.Map.{Map, insert, lookup}
use photo_sync.Prelude.Word.{u64_mod}
use photo_sync.Id.{DeviceId}
use photo_sync.Effect.{UiUpdate}
use photo_sync.Shell.Views.{
  Detail, Phone, Views, show, fraction, new_phone, observe, phones, saturating_mul, shown_or,
}

-- The bar is a percentage, whatever the counts; where the counts are not so large that they
-- saturate, it is full exactly when all of the files are done.
pub fraction-bounds :
    (files total : ℕ)
    → (fraction files total ≤ 100)
      × (files * 100 < u64_mod → (fraction files total ≡ 100) ↔ (total ≤ files))
unfolding fraction saturating_mul
fraction-bounds files total = (
  ground arith,
  λ exact. elim (Bool-cases (eqb total 0)) [
    | inl none_wanted ↦
        let nothing : total ≡ 0 = ground arith in
        rw none_wanted ((λ e. omega (arith, nothing)), (λ k. refl))
    | inr wanted ↦
        let some_wanted : 0 < total = ground arith in
        let whole : min (files * 100) (u64_mod - 1) ≡ files * 100 = omega (arith, exact) in
        let quotient = le-div_iff_mul-le {k = total} {x = 100} {y = files * 100} some_wanted in
        rw (wanted, whole)
          (
            (λ e. omega (arith, quotient.0 (omega (arith, e)))),
            (λ k. omega (arith, quotient.1 (omega (arith, k)))),
          )
  ],
)

-- Every phone that is shown has a bar of at most 100.
abbrev pub IsShown : Map DeviceId Phone → Type 0
IsShown phones = All (λ (e : DeviceId × Phone). e.1.progress ≤ 100) phones

insert-IsShown :
    (device : DeviceId) (phone : Phone) (m : Map DeviceId Phone)
    → phone.progress ≤ 100
    → IsShown m
    → IsShown (insert device phone m)
unfolding insert list_ord cmp_list
insert-IsShown device phone [] p h = (p, tt)
insert-IsShown device phone ((d, q) ∷ m) p h =
    by_order (cmp_list device d) (insert-IsShown device phone m p h.1)
  where
    by_order :
        (o : Ordering)
        → IsShown (insert device phone m)
        → IsShown (elim o as (λ x. Map DeviceId Phone) [
          | Ordering.lt ↦ (device, phone) ∷ (d, q) ∷ m
          | Ordering.eq ↦ (device, phone) ∷ m
          | Ordering.gt ↦ (d, q) ∷ insert device phone m
        ])
    by_order Ordering.lt rest = (p, h)
    by_order Ordering.eq rest = (p, h.1)
    by_order Ordering.gt rest = (h.0, rest)

lookup-IsShown :
    (device : DeviceId) (new : Phone) (m : Map DeviceId Phone)
    → new.progress ≤ 100
    → IsShown m
    → (shown_or new (lookup device m)).progress ≤ 100
unfolding lookup
lookup-IsShown device new [] p h = p
lookup-IsShown device new ((d, q) ∷ m) p h = elim (Bool-cases (d == device)) [
  | inl e ↦ rw e h.0
  | inr e ↦ rw e (lookup-IsShown device new m p h.1)
]

-- What the core reports keeps every bar of the window within 100.
pub observe-IsShown :
    (update : UiUpdate) (views : Views)
    → IsShown views.phones
    → IsShown (observe update views).phones
unfolding observe
observe-IsShown (UiUpdate.device_progress device files total bytes) views h =
    insert-IsShown device _ views.phones (fraction-bounds files total).0 h
observe-IsShown (UiUpdate.commit_started device) views h =
    insert-IsShown device _ views.phones
      (lookup-IsShown device (new_phone device 0 true) views.phones (omega arith) h) h
observe-IsShown (UiUpdate.commit_finished device summary) views h =
    insert-IsShown device _ views.phones (omega arith) h
observe-IsShown (UiUpdate.error device message) views h =
    insert-IsShown device _ views.phones
      (lookup-IsShown device (new_phone device 0 false) views.phones (omega arith) h) h
observe-IsShown (UiUpdate.forgotten device path) views h =
    by_lookup (lookup device views.phones)
      (lookup-IsShown device (new_phone device 0 false) views.phones (omega arith) h)
  where
    by_lookup :
        (found : Option Phone)
        → (shown_or (new_phone device 0 false) found).progress ≤ 100
        → IsShown
            (elim found as (λ x. Views) [
              | none ↦ views
              | some phone ↦ show device (record phone { detail = Detail.sent_again path }) views
            ]).phones
    by_lookup none p = h
    by_lookup (some phone) p = insert-IsShown device _ views.phones p h
