-- ===== src/Sim/Durable/Group.antt =====
-- desktop/crates/sim/src/storage.rs: the files of a group of a commit, through its syncs and a crash.
use photo_sync.Prelude.{List, [], ◌∷◌, some, ◌≡◌, ◌≢◌, sym, All, All-map, list_ord, nat_ord}
use photo_sync.Prelude.Map.{lookup}
use photo_sync.Id.{DeviceId, FileId, VaultName}
use photo_sync.Store.{PlanAction, PlanEntry}
use photo_sync.Sim.Storage.{
  crash, remove_file, rename_into_vault, sync_staging_directory, sync_vault_directory,
}
use photo_sync.Sim.Disk.{Bytes, Storage}
use photo_sync.Sim.Durable.{
  InVault, IsSynced, remove_keeps-InVault, remove_keeps-IsSynced, rename-InVault,
  rename_keeps-InVault, rename_keeps-IsSynced, synced_survives,
}

-- What carrying out an entry of a plan does to the files.
abbrev pub carry_out : PlanAction → FileId → Storage → Storage
carry_out (PlanAction.import name) file s = rename_into_vault file name s
carry_out (PlanAction.duplicate name) file s = remove_file file s

abbrev pub carry : PlanEntry → Storage → Storage
carry entry s = carry_out entry.action entry.file s

abbrev pub carry_all : List PlanEntry → Storage → Storage
carry_all [] s = s
carry_all (entry ∷ entries) s = carry_all entries (carry entry s)

-- What an import needs of the disk before it, and what it leaves.
abbrev pub IsReady : Storage → PlanAction → FileId → Bytes → Type 0
IsReady s (PlanAction.import name) file bytes = IsSynced s file bytes
IsReady s (PlanAction.duplicate name) file bytes = Unit

abbrev pub IsKept : Storage → PlanAction → Bytes → Type 0
IsKept s (PlanAction.import name) bytes = InVault s name bytes
IsKept s (PlanAction.duplicate name) bytes = Unit

-- Two actions do not give one name.
abbrev pub NamesApart : PlanAction → PlanAction → Type 0
NamesApart (PlanAction.import name) (PlanAction.import other) = name ≢ other
NamesApart (PlanAction.import name) (PlanAction.duplicate other) = Unit
NamesApart (PlanAction.duplicate name) other = Unit

-- The files of a group and the names of its imports are all different, and the bytes of each file
-- it imports were proved by their sync.
abbrev pub AreReady : (FileId → Bytes) → List PlanEntry → Storage → Type 0
AreReady bytes entries s = All (λ (e : PlanEntry). IsReady s e.action e.file (bytes e.file)) entries

abbrev pub AreApart : List PlanEntry → Type 0
AreApart [] = Unit
AreApart (entry ∷ entries) =
    All (λ (e : PlanEntry). (entry.file ≢ e.file) × NamesApart entry.action e.action) entries
    × AreApart entries

carry-IsKept :
    (action : PlanAction) (file : FileId) (bytes : Bytes) (s : Storage)
    → IsReady s action file bytes
    → IsKept (carry_out action file s) action bytes
carry-IsKept (PlanAction.import name) file bytes s h = rename-InVault file name bytes s h
carry-IsKept (PlanAction.duplicate name) file bytes s h = tt

pub carry_keeps-IsReady :
    (action : PlanAction) (file : FileId) (other : PlanAction) (theirs : FileId) (bytes : Bytes)
    (s : Storage)
    → file ≢ theirs
    → IsReady s other theirs bytes
    → IsReady (carry_out action file s) other theirs bytes
carry_keeps-IsReady (PlanAction.import name) file (PlanAction.import other) theirs bytes s n h =
    rename_keeps-IsSynced file name theirs bytes s n h
carry_keeps-IsReady (PlanAction.duplicate name) file (PlanAction.import other) theirs bytes s n h =
    remove_keeps-IsSynced file theirs bytes s n h
carry_keeps-IsReady (PlanAction.import name) file (PlanAction.duplicate other) theirs bytes s n h =
    tt
carry_keeps-IsReady (PlanAction.duplicate name) file (PlanAction.duplicate other) theirs bytes s n
      h =
    tt

carry_keeps-InVault :
    (action : PlanAction) (file : FileId) (name : VaultName) (bytes theirs : Bytes) (s : Storage)
    → NamesApart (PlanAction.import name) action
    → IsReady s action file bytes
    → InVault s name theirs
    → InVault (carry_out action file s) name theirs
carry_keeps-InVault (PlanAction.import other) file name bytes theirs s n ready h =
    rename_keeps-InVault file other name bytes s (λ e. n (sym e)) ready h
carry_keeps-InVault (PlanAction.duplicate other) file name bytes theirs s n ready h =
    remove_keeps-InVault file name theirs s h

pub later-AreReady :
    (contents : FileId → Bytes) (entry : PlanEntry) (entries : List PlanEntry) (s : Storage)
    → All (λ (e : PlanEntry). (entry.file ≢ e.file) × NamesApart entry.action e.action) entries
    → AreReady contents entries s
    → AreReady contents entries (carry entry s)
later-AreReady contents entry [] s apart ready = tt
later-AreReady contents entry (e ∷ es) s (n, ns) (r, ready) = (
  carry_keeps-IsReady entry.action entry.file e.action e.file (contents e.file) s n.0 r,
  later-AreReady contents entry es s ns ready,
)

pub carry_all_keeps-InVault :
    (contents : FileId → Bytes) (entries : List PlanEntry) (name : VaultName) (theirs : Bytes)
    (s : Storage)
    → All (λ (e : PlanEntry). NamesApart (PlanAction.import name) e.action) entries
    → AreApart entries
    → AreReady contents entries s
    → InVault s name theirs
    → InVault (carry_all entries s) name theirs
carry_all_keeps-InVault contents [] name theirs s n apart ready h = h
carry_all_keeps-InVault contents (e ∷ es) name theirs s (n, ns) apart (r, ready) h =
    carry_all_keeps-InVault contents es name theirs (carry e s) ns apart.1
      (later-AreReady contents e es s apart.0 ready)
      (carry_keeps-InVault e.action e.file name (contents e.file) theirs s n r h)

through-IsKept :
    (contents : FileId → Bytes) (action : PlanAction) (bytes : Bytes) (entries : List PlanEntry)
    (s : Storage)
    → All (λ (e : PlanEntry). NamesApart action e.action) entries
    → AreApart entries
    → AreReady contents entries s
    → IsKept s action bytes
    → IsKept (carry_all entries s) action bytes
through-IsKept contents (PlanAction.import name) bytes entries s ns apart ready h =
    carry_all_keeps-InVault contents entries name bytes s ns apart ready h
through-IsKept contents (PlanAction.duplicate name) bytes entries s ns apart ready h = tt

pub group-IsKept :
    (contents : FileId → Bytes) (entries : List PlanEntry) (s : Storage)
    → AreApart entries
    → AreReady contents entries s
    → All (λ (e : PlanEntry). IsKept (carry_all entries s) e.action (contents e.file)) entries
group-IsKept contents [] s apart ready = tt
group-IsKept contents (e ∷ es) s (n, apart) (r, ready) = (
  through-IsKept contents e.action (contents e.file) es (carry e s) (All-map _ _ (λ x h. h.1) es n)
      apart (later-AreReady contents e es s n ready)
      (carry-IsKept e.action e.file (contents e.file) s r),
  group-IsKept contents es (carry e s) apart (later-AreReady contents e es s n ready),
)

-- What a reader of the vault finds under an import's name.
abbrev pub IsFound : Storage → PlanAction → Bytes → Type 0
IsFound s (PlanAction.import name) bytes = lookup name s.live.vault ≡ some bytes
IsFound s (PlanAction.duplicate name) bytes = Unit

pub kept-IsFound :
    (device : DeviceId) (action : PlanAction) (bytes : Bytes) (s : Storage)
    → IsKept s action bytes
    → IsFound (crash (sync_staging_directory device (sync_vault_directory s))) action bytes
kept-IsFound device (PlanAction.import name) bytes s h = synced_survives device name bytes s h
kept-IsFound device (PlanAction.duplicate name) bytes s h = tt

pub group-AreFound :
    (device : DeviceId) (contents : FileId → Bytes) (entries : List PlanEntry) (s : Storage)
    → AreApart entries
    → AreReady contents entries s
    → All
        (λ (e : PlanEntry).
          IsFound
            (crash (sync_staging_directory device (sync_vault_directory (carry_all entries s))))
            e.action
            (contents e.file))
        entries
group-AreFound device contents entries s apart ready =
    All-map _ _ (λ e h. kept-IsFound device e.action (contents e.file) (carry_all entries s) h)
      entries (group-IsKept contents entries s apart ready)
