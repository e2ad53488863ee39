-- ===== src/Digest.antt =====
-- desktop/crates/core/src/digest.rs: the digest of a file as its bytes stream past.
-- SHA-256 is the `sha2` crate's: its hasher is a parameter, and what the code relies on is the
-- documented streaming behaviour, that feeding nothing changes nothing
-- and feeding two pieces is feeding their concatenation.
use photo_sync.Prelude.{ℕ, ◌≡◌, List, [], ◌++◌, length}
use photo_sync.Prelude.Word.{add_u64}
use photo_sync.Id.{Sha256}

-- The calls that the source makes of `sha2::Sha256`, over its state.
pub record Hasher (S : Type 0) : Type 0 where
  pub new : S
  pub update : S → List ℕ → S
  pub finalize : S → Sha256

pub record IsStreaming {S : Type 0} (h : Hasher S) : Type 0 where
  pub update-nil : (s : S) → h.update s [] ≡ s
  pub update-update : (s : S) (a b : List ℕ) → h.update (h.update s a) b ≡ h.update s (a ++ b)

pub record RunningDigest (S : Type 0) : Type 0 where
  pub hasher : S
  pub bytes : ℕ

module _ {S : Type 0} ⦃h : Hasher S⦄ where
  unfoldable pub new : RunningDigest S
  new = record { hasher = h.new; bytes = 0 }

  unfoldable pub update : RunningDigest S → List ℕ → RunningDigest S
  update digest bytes = record {
    hasher = h.update digest.hasher bytes;
    bytes = add_u64 digest.bytes (length bytes);
  }

  unfoldable pub peek : RunningDigest S → Sha256
  peek digest = h.finalize digest.hasher
