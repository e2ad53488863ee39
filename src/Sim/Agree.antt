-- ===== src/Sim/Agree.antt =====
-- desktop/crates/sim/src/run.rs, `agree` and `curate`: the desktop and the oracle compared.
pub mod Silence
pub mod Collecting
pub mod Meaning
use photo_sync.Prelude.{
  ℕ, List, [], ◌∷◌, ◌++◌, map, filter_map, any, Option, none, some, Bool, not, ◌&&◌, ◌||◌, ◌==◌,
  eqb, list_ord, nat_ord, pair_ord, if◌then◌else◌,
}
use photo_sync.Prelude.Int.{int_ord}
use photo_sync.Prelude.Map.{Map, Set, collect, contains, keys, lookup, of_list, values}
use photo_sync.Id.{Sha256, VaultName}
use photo_sync.Digest.{Hasher}
use photo_sync.Store.{DeviceFileRow}
use photo_sync.Oracle.{FileKey, Recorded, forget_vault_copy}
use photo_sync.Sim.Storage
use photo_sync.Sim.Run.{digest_of}
use photo_sync.Sim.World.{Simulation}

pub data Account : Type 0 where
  the_vault the_index : Account

-- One line that `agree` reports.
pub data Difference : Type 0 where
  missing : Account → Sha256 → Difference
  unearned : Account → Sha256 → Difference
  recorded_as : FileKey → (found expected : Recorded) → Difference
  no_row : FileKey → Recorded → Difference
  unearned_row : FileKey → Difference

-- `difference`, less what is undecided.
unfoldable pub only_in : Set Sha256 → Set Sha256 → Set Sha256 → Sha256 → Bool
only_in these those undecided digest =
    not (contains digest those) && not (contains digest undecided)

unfoldable pub report_if : (Sha256 → Bool) → (Sha256 → Difference) → List Sha256 → List Difference
report_if p report [] = []
report_if p report (digest ∷ digests) =
    let rest = report_if p report digests in if p digest then report digest ∷ rest else rest

unfoldable pub compare : Account → (expected found undecided : Set Sha256) → List Difference
compare what expected found undecided =
    report_if (only_in expected found undecided) (Difference.missing what) (keys expected)
    ++ report_if (only_in found expected undecided) (Difference.unearned what) (keys found)

unfoldable pub row_recorded : DeviceFileRow → Recorded
row_recorded row = record { digest = row.digest; size = row.size; mtime = row.mtime }

unfoldable pub same_record : Recorded → Recorded → Bool
same_record a b = a.digest == b.digest && eqb a.size b.size && a.mtime == b.mtime

unfoldable pub check_row : Map FileKey Recorded → Set FileKey → FileKey × Recorded → List Difference
check_row recorded undecided (key, expected) =
    if contains key undecided then [] else elim (lookup key recorded) [
      | none ↦ Difference.no_row key expected ∷ []
      | some found ↦
          if same_record found expected then [] else Difference.recorded_as key found expected ∷ []
    ]

unfoldable pub check_rows :
    Map FileKey Recorded → Set FileKey → List (FileKey × Recorded) → List Difference
check_rows recorded undecided [] = []
check_rows recorded undecided (e ∷ es) =
    check_row recorded undecided e ++ check_rows recorded undecided es

unfoldable pub check_keys : Map FileKey Recorded → Set FileKey → List FileKey → List Difference
check_keys expected undecided [] = []
check_keys expected undecided (key ∷ ks) =
    let rest = check_keys expected undecided ks in
    if not (contains key expected) && not (contains key undecided)
    then Difference.unearned_row key ∷ rest
    else rest

module _ {S : Type 0} ⦃h : Hasher S⦄ where
  abbrev pub vault_digests : Simulation S → Set Sha256
  vault_digests sim = of_list (map (digest_of h) (values sim.storage.live.vault))

  abbrev pub index_digests : Simulation S → Set Sha256
  index_digests sim = of_list (keys sim.store.content)

  -- The rows of the index, by the file each one describes.
  abbrev pub recorded_rows : Simulation S → Map FileKey Recorded
  recorded_rows sim =
      collect
        (map (λ row. ((row.device, row.path), row_recorded row)) (values sim.store.device_files))

  unfoldable pub agree : Simulation S → List Difference
  agree sim =
      let expected = sim.model.expected in
      compare Account.the_vault expected.vault (vault_digests sim) expected.undecided
      ++ (compare Account.the_index expected.content (index_digests sim) expected.undecided
          ++ (check_rows (recorded_rows sim) expected.undecided_files expected.device_files
              ++ check_keys expected.device_files expected.undecided_files
                  (keys (recorded_rows sim))))

  -- Whether another vault file holds the same content.
  unfoldable pub is_elsewhere : VaultName → Sha256 → Simulation S → Bool
  is_elsewhere name gone sim =
      any (λ e. not (e.0 == name) && digest_of h e.1 == gone) sim.storage.live.vault

  unfoldable pub curate : VaultName → Simulation S → Simulation S
  curate name sim =
      let tidied : Simulation S = record sim { storage = Storage.curate name sim.storage } in
      elim (lookup name sim.storage.live.vault) [
        | none ↦ tidied
        | some bytes ↦
            if is_elsewhere name (digest_of h bytes) sim
            then tidied
            else record tidied { model = forget_vault_copy (digest_of h bytes) sim.model }
      ]
