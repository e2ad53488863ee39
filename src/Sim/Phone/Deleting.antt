-- ===== src/Sim/Phone/Deleting.antt =====
-- desktop/crates/sim/src/phone.rs: which photographs a phone lets go of.
use photo_sync.Prelude.{
  List, [], ◌∷◌, ◌++◌, any, any-found, none, some, Bool, true, ◌&&◌, ◌==◌, ◌≡◌, refl, ap, ◌∙◌,
  arith, eq_iff, list_ord, nat_ord, if◌then◌else◌,
}
use photo_sync.Prelude.Int.{int_ord}
use photo_sync.Prelude.Map.{Map, elem, lookup, lookup-remove, remove}
use photo_sync.Id.{DevicePath}
use photo_sync.Digest.{Hasher}
use photo_sync.Effect.{CandidateOrigin, DeletionCandidate}
use photo_sync.Sim.Phone.{
  check, decide, deleted_paths, gate_holds, is_unchanged, let_go, remove_each, was_deleted,
}
use photo_sync.Sim.Handset.{Phone, PhoneFile, digest, size}

lookup-remove_each :
    (path : DevicePath) (paths : List DevicePath) (files : Map DevicePath PhoneFile)
    → lookup path (remove_each paths files) ≡ (if elem path paths then none else lookup path files)
unfolding remove_each
lookup-remove_each path [] files = refl
lookup-remove_each path (p ∷ ps) files =
    ground (arith, lookup-remove_each path ps (remove p files), lookup-remove p path files)

module _ {S : Type 0} (h : Hasher S) (phone : Phone) where
  -- A candidate for a path that the phone's gates let go of.
  abbrev pub lets_go : DevicePath → DeletionCandidate → Bool
  lets_go path c =
      c.path == path && was_deleted (record { path = c.path; result = check h c phone })

  elem-deleted :
      (path : DevicePath) (offered : List DeletionCandidate)
      → elem path (deleted_paths (decide h offered phone)) ≡ any (lets_go path) offered
  unfolding deleted_paths decide
  elem-deleted path [] = refl
  elem-deleted path (c ∷ cs) = ground (arith, elem-deleted path cs)

  -- After the answer to an offer, a path holds what it held, unless a candidate of the offer for
  -- that path passed its gate, and then it holds nothing.
  pub let_go-lookup :
      (path : DevicePath) (offered : List DeletionCandidate)
      → lookup path (let_go h offered phone).1.files
        ≡ (if any (lets_go path) offered then none else lookup path phone.files)
  unfolding let_go
  let_go-lookup path offered = ground (
    arith,
    lookup-remove_each path (deleted_paths (decide h offered phone)) phone.files,
    elem-deleted path offered,
  )

  -- What vouches for letting a file go: an offered candidate for its path that has its size and
  -- its time and, unless it was verified in this very transfer, its digest.
  pub record IsVouched (path : DevicePath) (file : PhoneFile) (offered : List DeletionCandidate)
      : Type 0 where
    pub candidate : DeletionCandidate
    pub before : List DeletionCandidate
    pub after : List DeletionCandidate
    pub offers : offered ≡ before ++ candidate ∷ after
    pub path_is : candidate.path ≡ path
    pub size_is : size file ≡ candidate.size
    pub mtime_is : file.mtime ≡ candidate.mtime
    pub digest_is : candidate.origin ≡ CandidateOrigin.earlier → digest h file ≡ candidate.expected

  gate_lem :
      (c : DeletionCandidate) (file : PhoneFile)
      → gate_holds h c file ≡ true
      → (size file ≡ c.size)
        × ((file.mtime ≡ c.mtime)
            × (c.origin ≡ CandidateOrigin.earlier → digest h file ≡ c.expected))
  unfolding gate_holds is_unchanged
  gate_lem c file holds = by_origin c.origin holds
    where
      by_origin :
          (origin : CandidateOrigin)
          → (elim origin as (λ x. Bool) [
            | CandidateOrigin.this_transfer ↦ is_unchanged c file
            | CandidateOrigin.earlier ↦ is_unchanged c file && digest h file == c.expected
          ])
            ≡ true
          → (size file ≡ c.size)
            × ((file.mtime ≡ c.mtime)
                × (origin ≡ CandidateOrigin.earlier → digest h file ≡ c.expected))
      by_origin CandidateOrigin.this_transfer e = (
        ground (arith, eq_iff file.mtime c.mtime),
        (ground (arith, eq_iff file.mtime c.mtime), λ x. cc),
      )
      by_origin CandidateOrigin.earlier e = (
        ground (arith, eq_iff file.mtime c.mtime),
        (
          ground (arith, eq_iff file.mtime c.mtime),
          λ x. ground (arith, eq_iff (digest h file) c.expected),
        ),
      )

  check-gate :
      (c : DeletionCandidate) (file : PhoneFile)
      → lookup c.path phone.files ≡ some file
      → was_deleted (record { path = c.path; result = check h c phone }) ≡ true
      → gate_holds h c file ≡ true
  unfolding check
  check-gate c file e deleted = ground arith

  -- A file that the phone held when it was offered candidates, and holds no longer once it has
  -- answered, was vouched for by a candidate of the offer.
  pub let_go-IsVouched :
      (path : DevicePath) (file : PhoneFile) (offered : List DeletionCandidate)
      → lookup path phone.files ≡ some file
      → lookup path (let_go h offered phone).1.files ≡ none
      → IsVouched path file offered
  let_go-IsVouched path file offered held gone =
      let passes : any (lets_go path) offered ≡ true = ground (arith, let_go-lookup path offered) in
      let (before, candidate, after, offers, lets) = any-found (lets_go path) offered passes in
      let path_is : candidate.path ≡ path = ground (arith, eq_iff candidate.path path) in
      let deleted : was_deleted (record { path = candidate.path; result = check h candidate phone })
          ≡ true =
        ground (arith, eq_iff candidate.path path) in
      let gate =
        gate_lem candidate file
          (check-gate candidate file (ap (λ p. lookup p phone.files) path_is ∙ held) deleted) in
      record {
        candidate = candidate;
        before = before;
        after = after;
        offers = offers;
        path_is = path_is;
        size_is = gate.0;
        mtime_is = gate.1.0;
        digest_is = gate.1.1;
      }
