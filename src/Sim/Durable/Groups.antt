-- ===== src/Sim/Durable/Groups.antt =====
-- desktop/crates/sim/src/storage.rs: the files of one group of a commit after another.
use photo_sync.Prelude.{
  List, [], ◌∷◌, ◌++◌, some, ◌≡◌, All, All-append, All-map, All-left, All-right, All-both, list_ord,
  nat_ord,
}
use photo_sync.Prelude.Map.{lookup}
use photo_sync.Id.{DeviceId, FileId, VaultName}
use photo_sync.Store.{PlanAction, PlanEntry}
use photo_sync.Desktop.Rounds.Carrying.{concat_groups}
use photo_sync.Sim.Storage.{crash, sync_staging_directory, sync_vault_directory}
use photo_sync.Sim.Disk.{Bytes, Storage}
use photo_sync.Sim.Durable.{InVault, synced_survives}
use photo_sync.Sim.Durable.Group.{
  AreApart, AreReady, IsFound, IsKept, IsReady, NamesApart, carry, carry_all,
  carry_all_keeps-InVault, group-IsKept, later-AreReady,
}

abbrev pub synced_all : DeviceId → Storage → Storage
synced_all device s = sync_staging_directory device (sync_vault_directory s)

abbrev pub after_groups : DeviceId → List (List PlanEntry) → Storage → Storage
after_groups device [] s = s
after_groups device (group ∷ groups) s =
    after_groups device groups (synced_all device (carry_all group s))

AreApart-left : (xs ys : List PlanEntry) → AreApart (xs ++ ys) → AreApart xs
AreApart-left [] ys h = tt
AreApart-left (x ∷ xs) ys h = (All-left _ xs ys h.0, AreApart-left xs ys h.1)

AreApart-right : (xs ys : List PlanEntry) → AreApart (xs ++ ys) → AreApart ys
AreApart-right [] ys h = h
AreApart-right (x ∷ xs) ys h = AreApart-right xs ys h.1

-- Every entry of the first part gives a name apart from those of the second.
AreApart-across :
    (xs ys : List PlanEntry)
    → AreApart (xs ++ ys)
    → All (λ (x : PlanEntry). All (λ (y : PlanEntry). NamesApart x.action y.action) ys) xs
AreApart-across [] ys h = tt
AreApart-across (x ∷ xs) ys h =
    (All-map _ _ (λ y n. n.1) ys (All-right _ xs ys h.0), AreApart-across xs ys h.1)

synced-InVault :
    (device : DeviceId) (name : VaultName) (bytes : Bytes) (s : Storage)
    → InVault s name bytes
    → InVault (synced_all device s) name bytes
unfolding sync_staging_directory sync_vault_directory
synced-InVault device name bytes s h = record { named = h.named; proved = h.proved }

of_synced-InVault :
    (device : DeviceId) (name : VaultName) (bytes : Bytes) (s : Storage)
    → InVault (synced_all device s) name bytes
    → InVault s name bytes
unfolding sync_staging_directory sync_vault_directory
of_synced-InVault device name bytes s h = record { named = h.named; proved = h.proved }

synced-IsReady :
    (device : DeviceId) (action : PlanAction) (file : FileId) (bytes : Bytes) (s : Storage)
    → IsReady s action file bytes
    → IsReady (synced_all device s) action file bytes
unfolding sync_staging_directory sync_vault_directory
synced-IsReady device (PlanAction.import name) file bytes s h = record {
  staged = h.staged;
  found = h.found;
  proved = h.proved;
}
synced-IsReady device (PlanAction.duplicate name) file bytes s h = tt

-- What is left to do stays ready through a group.
group_keeps-AreReady :
    (contents : FileId → Bytes) (group later : List PlanEntry) (s : Storage)
    → AreApart (group ++ later)
    → AreReady contents later s
    → AreReady contents later (carry_all group s)
group_keeps-AreReady contents [] later s apart ready = ready
group_keeps-AreReady contents (e ∷ es) later s apart ready =
    group_keeps-AreReady contents es later (carry e s) apart.1
      (later-AreReady contents e later s (All-right _ es later apart.0) ready)

module _ (device : DeviceId) (contents : FileId → Bytes) where
  after-AreReady :
      (group later : List PlanEntry) (s : Storage)
      → AreApart (group ++ later)
      → AreReady contents later s
      → AreReady contents later (synced_all device (carry_all group s))
  after-AreReady group later s apart ready =
      All-map _ _
        (λ e r. synced-IsReady device e.action e.file (contents e.file) (carry_all group s) r) later
        (group_keeps-AreReady contents group later s apart ready)

  groups_keep-InVault :
      (groups : List (List PlanEntry)) (name : VaultName) (theirs : Bytes) (s : Storage)
      → All (λ (e : PlanEntry). NamesApart (PlanAction.import name) e.action) (concat_groups groups)
      → AreApart (concat_groups groups)
      → AreReady contents (concat_groups groups) s
      → InVault s name theirs
      → InVault (after_groups device groups s) name theirs
  groups_keep-InVault [] name theirs s n apart ready h = h
  groups_keep-InVault (group ∷ groups) name theirs s n apart ready h =
      let later = concat_groups groups in
      groups_keep-InVault groups name theirs (synced_all device (carry_all group s))
        (All-right _ group later n) (AreApart-right group later apart)
        (after-AreReady group later s apart (All-right _ group later ready))
        (synced-InVault device name theirs (carry_all group s) (
          carry_all_keeps-InVault contents group name theirs s (All-left _ group later n)
            (AreApart-left group later apart) (All-left _ group later ready) h))

  groups_keep-IsKept :
      (groups : List (List PlanEntry)) (action : PlanAction) (bytes : Bytes) (s : Storage)
      → All (λ (e : PlanEntry). NamesApart action e.action) (concat_groups groups)
      → AreApart (concat_groups groups)
      → AreReady contents (concat_groups groups) s
      → IsKept s action bytes
      → IsKept (after_groups device groups (synced_all device s)) action bytes
  groups_keep-IsKept groups (PlanAction.import name) bytes s n apart ready h =
      groups_keep-InVault groups name bytes (synced_all device s) n apart
        (All-map _ _ (λ e r. synced-IsReady device e.action e.file (contents e.file) s r)
          (concat_groups groups) ready)
        (synced-InVault device name bytes s h)
  groups_keep-IsKept groups (PlanAction.duplicate name) bytes s n apart ready h = tt

  pub groups-IsKept :
      (groups : List (List PlanEntry)) (s : Storage)
      → AreApart (concat_groups groups)
      → AreReady contents (concat_groups groups) s
      → All
          (λ (e : PlanEntry). IsKept (after_groups device groups s) e.action (contents e.file))
          (concat_groups groups)
  groups-IsKept [] s apart ready = tt
  groups-IsKept (group ∷ groups) s apart ready =
      let later = concat_groups groups in
      let here = All-left _ group later ready in
      let ahead =
        group_keeps-AreReady contents group later s apart (All-right _ group later ready) in
      All-append _ group later
        (All-map _ _
          (λ e k.
            groups_keep-IsKept groups e.action (contents e.file) (carry_all group s) k.0
              (AreApart-right group later apart) ahead k.1)
          group
          (All-both _ _ group (AreApart-across group later apart)
            (group-IsKept contents group s (AreApart-left group later apart) here)))
        (groups-IsKept groups (synced_all device (carry_all group s))
          (AreApart-right group later apart)
          (after-AreReady group later s apart (All-right _ group later ready)))

  -- A file that is in the vault after the last group is there after a crash.
  last_synced-survives :
      (group : List PlanEntry) (groups : List (List PlanEntry)) (name : VaultName) (bytes : Bytes)
      (s : Storage)
      → InVault (after_groups device (group ∷ groups) s) name bytes
      → lookup name (crash (after_groups device (group ∷ groups) s)).live.vault ≡ some bytes
  last_synced-survives group [] name bytes s h =
      synced_survives device name bytes (carry_all group s)
        (of_synced-InVault device name bytes (carry_all group s) h)
  last_synced-survives group (next ∷ groups) name bytes s h =
      last_synced-survives next groups name bytes (synced_all device (carry_all group s)) h

  kept-survives :
      (group : List PlanEntry) (groups : List (List PlanEntry)) (action : PlanAction)
      (bytes : Bytes) (s : Storage)
      → IsKept (after_groups device (group ∷ groups) s) action bytes
      → IsFound (crash (after_groups device (group ∷ groups) s)) action bytes
  kept-survives group groups (PlanAction.import name) bytes s h =
      last_synced-survives group groups name bytes s h
  kept-survives group groups (PlanAction.duplicate name) bytes s h = tt

  pub groups-AreFound :
      (groups : List (List PlanEntry)) (s : Storage)
      → AreApart (concat_groups groups)
      → AreReady contents (concat_groups groups) s
      → All
          (λ (e : PlanEntry).
            IsFound (crash (after_groups device groups s)) e.action (contents e.file))
          (concat_groups groups)
  groups-AreFound [] s apart ready = tt
  groups-AreFound (group ∷ groups) s apart ready =
      All-map _ _ (λ e k. kept-survives group groups e.action (contents e.file) s k)
        (concat_groups (group ∷ groups)) (groups-IsKept (group ∷ groups) s apart ready)
