-- ===== src/Sim/Phone/Sending.antt =====
-- desktop/crates/sim/src/phone.rs: the chunks that a file is sent in.
use photo_sync.Prelude.{
  drop-length, length-take-drop, take-drop-drop, ℕ, zero, suc, ◌+◌, ◌-◌, ◌≤◌, ◌<◌, List, [], ◌∷◌,
  ◌++◌, length, take, drop, min, true, false, ltb, ◌≡◌, refl, sym, ap, ◌∙◌, arith, inl, inr,
  Bool-cases, All,
}
use photo_sync.Id.{DeviceId, FileId}
use photo_sync.Digest.{Hasher}
use photo_sync.Event.{Event}
use photo_sync.Desktop.Content.{concat}
use photo_sync.Sim.Phone.{send_chunks}
use photo_sync.Sim.Handset.{Driver, chunk_bytes}

module _ {S D : Type 0} (h : Hasher S) (driver : Driver D) where
  -- Chunks delivered one after another, each at the offset where the one before it ends.
  abbrev pub deliver_pieces : DeviceId → FileId → ℕ → List (List ℕ) → D → D
  deliver_pieces device file offset [] d = d
  deliver_pieces device file offset (piece ∷ pieces) d =
      deliver_pieces device file (offset + length piece) pieces
        (driver.deliver (Event.chunk_arrived device file offset piece) d)

  -- The pieces that a file is cut into from an offset on.
  pub record IsCut (device : DeviceId) (file : FileId) (offset : ℕ) (content : List ℕ)
      (before after : D) : Type 0 where
    pub pieces : List (List ℕ)
    pub whole : concat pieces ≡ drop offset content
    pub small : All (λ piece. length piece ≤ chunk_bytes) pieces
    pub delivered : after ≡ deliver_pieces device file offset pieces before

  send_chunks-more :
      (fuel : ℕ) (device : DeviceId) (file : FileId) (offset : ℕ) (content : List ℕ) (d : D)
      → ltb offset (length content) ≡ true
      → send_chunks h driver (suc fuel) device file offset content d
        ≡ send_chunks h driver fuel device file
            (min (offset + chunk_bytes) (length content))
            content
            (driver.deliver
              (Event.chunk_arrived device file offset
                (take (min (offset + chunk_bytes) (length content) - offset) (drop offset content)))
              d)
  unfolding send_chunks
  send_chunks-more fuel device file offset content d more = rw more refl

  send_chunks-ends :
      (fuel : ℕ) (device : DeviceId) (file : FileId) (offset : ℕ) (content : List ℕ) (d : D)
      → ltb offset (length content) ≡ false
      → send_chunks h driver fuel device file offset content d ≡ d
  unfolding send_chunks
  send_chunks-ends zero device file offset content d over = refl
  send_chunks-ends (suc fuel) device file offset content d over = rw over refl

  -- The chunks that a phone sends of a file, from the offset it was asked for on: they are
  -- contiguous, none is longer than a message may be, and together they are the rest of the file;
  -- when the loop may take as many rounds as there are bytes left.
  pub send_chunks-IsCut :
      (fuel : ℕ) (device : DeviceId) (file : FileId) (offset : ℕ) (content : List ℕ) (d : D)
      → length content ≤ offset + fuel
      → IsCut device file offset content d (send_chunks h driver fuel device file offset content d)
  send_chunks-IsCut zero device file offset content d enough = record {
    pieces = [];
    whole = sym (drop-length offset content (omega (arith, enough)));
    small = tt;
    delivered = send_chunks-ends zero device file offset content d (ground (arith, enough));
  }
  send_chunks-IsCut (suc fuel) device file offset content d enough =
      elim (Bool-cases (ltb offset (length content))) [
        | inr over ↦ record {
          pieces = [];
          whole = sym (drop-length offset content (ground arith));
          small = tt;
          delivered = send_chunks-ends (suc fuel) device file offset content d over;
        }
        | inl more ↦
            let before : offset < length content = ground arith in
            let end = min (offset + chunk_bytes) (length content) in
            let piece = take (end - offset) (drop offset content) in
            let next = driver.deliver (Event.chunk_arrived device file offset piece) d in
            let rest =
              send_chunks-IsCut fuel device file end content next (omega (arith, enough, before)) in
            let long : length piece ≡ end - offset =
              length-take-drop offset (end - offset) content (omega (arith, before)) in
            record {
              pieces = piece ∷ rest.pieces;
              whole =
                  ap (λ ys. piece ++ ys) rest.whole
                  ∙ take-drop-drop offset end (end - offset) content (omega (arith, before));
              small = (omega (arith, long), rest.small);
              delivered =
                  send_chunks-more fuel device file offset content d more
                  ∙ (rest.delivered
                      ∙ ap (λ k. deliver_pieces device file k rest.pieces next)
                          (omega (arith, before, long)));
            }
      ]
