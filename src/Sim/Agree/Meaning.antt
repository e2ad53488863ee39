-- ===== src/Sim/Agree/Meaning.antt =====
-- desktop/crates/sim/src/run.rs, `agree`: what its silence says of the files and the rows themselves.
use photo_sync.Prelude.{
  List, [], ◌∷◌, map, Option, none, some, Bool, true, false, ◌≡◌, ◌↔◌, refl, sym, ap, subst, ◌∙◌,
  AllDifferent, list_ord, nat_ord, pair_ord,
}
use photo_sync.Prelude.Map.{contains, keys, lookup, values}
use photo_sync.Id.{Sha256}
use photo_sync.Digest.{Hasher, new, peek, update}
use photo_sync.Store.{DeviceFileRow}
use photo_sync.Oracle.{FileKey, Recorded}
use photo_sync.Sim.Agree.{agree, index_digests, recorded_rows, row_recorded, vault_digests}
use photo_sync.Sim.Agree.Collecting.{Any, Any-map, Any-unmap, IsAt, collect_iff, of_list_iff}
use photo_sync.Sim.Agree.Silence.{IsMatched, agree-IsMatched}
use photo_sync.Sim.Run.{digest_of}
use photo_sync.Sim.World.{Simulation}

same_bool : (a b : Bool) → (a ≡ true → b ≡ true) → (b ≡ true → a ≡ true) → a ≡ b
same_bool true b f g = sym (f refl)
same_bool false true f g = g refl
same_bool false false f g = refl

same_option :
    {A : Type 0} (a b : Option A)
    → ((x : A) → a ≡ some x → b ≡ some x)
    → ((x : A) → b ≡ some x → a ≡ some x)
    → a ≡ b
same_option (some x) b f g = sym (f x refl)
same_option none (some x) f g = g x refl
same_option none none f g = refl

-- A row is about the file, and says this of it.
abbrev pub IsRowOf : FileKey → Recorded → DeviceFileRow → Type 0
IsRowOf key r row =
    ((row.device ≡ key.0) × (row.path ≡ key.1))
    × ((row.digest ≡ r.digest) × (row.size ≡ r.size) × (row.mtime ≡ r.mtime))

-- The file that a row is about.
abbrev pub row_key : DeviceFileRow → FileKey
row_key row = (row.device, row.path)

abbrev keyed : DeviceFileRow → FileKey × Recorded
keyed row = (row_key row, row_recorded row)

IsAt-IsRowOf :
    (key : FileKey) (r : Recorded) (row : DeviceFileRow)
    → IsAt key r (keyed row)
    → IsRowOf key r row
unfolding row_recorded
IsAt-IsRowOf key r row (at, is) = (
  (ap (λ (k : FileKey). k.0) at, ap (λ (k : FileKey). k.1) at),
  (
    ap (λ (x : Recorded). x.digest) is,
    ap (λ (x : Recorded). x.size) is,
    ap (λ (x : Recorded). x.mtime) is,
  ),
)

IsRowOf-IsAt :
    (key : FileKey) (r : Recorded) (row : DeviceFileRow)
    → IsRowOf key r row
    → IsAt key r (keyed row)
unfolding row_recorded
IsRowOf-IsAt key r row ((device, path), (digest, size, mtime)) = (
  ap (λ x. (x, row.path)) device ∙ ap (λ x. (key.0, x)) path,
  ap (λ x. record { digest = x; size = row.size; mtime = row.mtime }) digest
      ∙ ap (λ x. record { digest = r.digest; size = x; mtime = row.mtime }) size
      ∙ ap (λ x. record { digest = r.digest; size = r.size; mtime = x }) mtime,
)

keys-keyed : (rows : List DeviceFileRow) → map row_key rows ≡ keys (map keyed rows)
keys-keyed [] = refl
keys-keyed (row ∷ rows) = ap (λ ks. row_key row ∷ ks) (keys-keyed rows)

module _ {S : Type 0} ⦃h : Hasher S⦄ (sim : Simulation S) where
  -- A file of the vault has the digest.
  abbrev pub IsStored : Sha256 → Type 0
  IsStored d = Any (λ bytes. h.finalize (h.update h.new bytes) ≡ d) (values sim.storage.live.vault)

  -- The index lists the digest as content.
  abbrev pub IsListed : Sha256 → Type 0
  IsListed d = Any (λ entry. entry.0 ≡ d) sim.store.content

  -- A row of the index records this of the file.
  abbrev pub IsRecorded : FileKey → Recorded → Type 0
  IsRecorded key r = Any (IsRowOf key r) (values sim.store.device_files)

  -- What the oracle expects is what the vault holds, what the index lists and what it records,
  -- leaving out what a crash left undecided.
  pub record IsAgreed : Type 0 where
    pub vault :
        (d : Sha256)
        → contains d sim.model.expected.undecided ≡ false
        → (contains d sim.model.expected.vault ≡ true) ↔ IsStored d
    pub index :
        (d : Sha256)
        → contains d sim.model.expected.undecided ≡ false
        → (contains d sim.model.expected.content ≡ true) ↔ IsListed d
    pub rows :
        (key : FileKey) (r : Recorded)
        → contains key sim.model.expected.undecided_files ≡ false
        → (lookup key sim.model.expected.device_files ≡ some r) ↔ IsRecorded key r

  IsStored-iff : (d : Sha256) → (contains d (vault_digests sim) ≡ true) ↔ IsStored d
  unfolding digest_of peek update new
  IsStored-iff d =
      let files = values sim.storage.live.vault in
      let (to, from) = of_list_iff d (map (digest_of h) files) in
      (
        λ k. Any-unmap _ (λ x. x ≡ d) (digest_of h) (λ x e. e) files (to k),
        λ a. from (Any-map _ (λ x. x ≡ d) (digest_of h) (λ x e. e) files a),
      )

  IsListed-iff : (d : Sha256) → (contains d (index_digests sim) ≡ true) ↔ IsListed d
  IsListed-iff d =
      let (to, from) = of_list_iff d (keys sim.store.content) in
      (
        λ k. Any-unmap _ (λ x. x ≡ d) (λ e. e.0) (λ x e. e) sim.store.content (to k),
        λ a. from (Any-map _ (λ x. x ≡ d) (λ e. e.0) (λ x e. e) sim.store.content a),
      )

  IsRecorded-iff :
      (key : FileKey) (r : Recorded)
      → AllDifferent (map row_key (values sim.store.device_files))
      → (lookup key (recorded_rows sim) ≡ some r) ↔ IsRecorded key r
  IsRecorded-iff key r once =
      let rows = values sim.store.device_files in
      let (to, from) =
        collect_iff key r (map keyed rows) (subst AllDifferent (keys-keyed rows) once) in
      (
        λ k. Any-unmap _ (IsAt key r) keyed (IsAt-IsRowOf key r) rows (to k),
        λ a. from (Any-map _ (IsAt key r) keyed (IsRowOf-IsAt key r) rows a),
      )

  IsMatched-IsAgreed :
      AllDifferent (map row_key (values sim.store.device_files)) → IsMatched sim → IsAgreed
  IsMatched-IsAgreed once m = record {
    vault = λ d k.
        (λ e. (IsStored-iff d).0 (sym (m.vault d k) ∙ e), λ a. m.vault d k ∙ (IsStored-iff d).1 a);
    index = λ d k.
        (λ e. (IsListed-iff d).0 (sym (m.index d k) ∙ e), λ a. m.index d k ∙ (IsListed-iff d).1 a);
    rows = λ key r k. (
      λ e. (IsRecorded-iff key r once).0 (m.rows key k ∙ e),
      λ a. sym (m.rows key k) ∙ (IsRecorded-iff key r once).1 a,
    );
  }

  IsAgreed-IsMatched :
      AllDifferent (map row_key (values sim.store.device_files)) → IsAgreed → IsMatched sim
  IsAgreed-IsMatched once a = record {
    vault = λ d k.
        same_bool _ _ (λ e. (IsStored-iff d).1 ((a.vault d k).0 e))
          (λ e. (a.vault d k).1 ((IsStored-iff d).0 e));
    index = λ d k.
        same_bool _ _ (λ e. (IsListed-iff d).1 ((a.index d k).0 e))
          (λ e. (a.index d k).1 ((IsListed-iff d).0 e));
    rows = λ key k.
        same_option _ _ (λ r e. (a.rows key r k).1 ((IsRecorded-iff key r once).0 e))
          (λ r e. (IsRecorded-iff key r once).1 ((a.rows key r k).0 e));
  }

  -- The comparison with the oracle reports nothing exactly when, but for the digests that a crash
  -- left undecided, a digest is expected in the vault just where a file of the vault has it, and
  -- expected in the index just where the index lists it as content, and, but for the undecided
  -- files, the oracle expects a record of a file just where a row about that file has its digest,
  -- size and time. The oracle has one record for a file, and the index one row.
  pub agree_iff :
      AllDifferent (keys sim.model.expected.device_files)
      → AllDifferent (map row_key (values sim.store.device_files))
      → (agree sim ≡ []) ↔ IsAgreed
  agree_iff expected once =
      let (to, from) = agree-IsMatched sim expected in
      (λ e. IsMatched-IsAgreed once (to e), λ a. from (IsAgreed-IsMatched once a))
