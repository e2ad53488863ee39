-- ===== src/Sim/Phone/Uploading.antt =====
-- desktop/crates/sim/src/phone.rs against desktop/crates/core/src/desktop.rs: a phone's chunks, sent to
-- the core.
use photo_sync.Prelude.{
  ℕ, ◌+◌, ◌-◌, ◌≤◌, List, [], ◌∷◌, ◌++◌, length, length-drop, take-drop, take, some, false, ◌≡◌,
  refl, ap, ◌∙◌, arith,
}
use photo_sync.Id.{DeviceId, FileId}
use photo_sync.Digest
use photo_sync.Digest.{Hasher, IsStreaming}
use photo_sync.Session.{Upload, UploadState}
use photo_sync.Desktop.{handle}
use photo_sync.Desktop.State.{Desktop, upload}
use photo_sync.Desktop.Content.{IsReceiving, concat, receive, receive-digest}
use photo_sync.Sim.Phone.{send_chunks}
use photo_sync.Sim.Handset.{Driver, PhoneFile, digest}
use photo_sync.Sim.Phone.Sending.{deliver_pieces, send_chunks-IsCut}

module _ {S : Type 0} ⦃h : Hasher S⦄ where
  -- The core alone, which is told of events, and whose effects wait.
  abbrev pub core : Driver (Desktop S)
  core = record {
    deliver = λ event d. (handle event d).1;
    take_log = λ d. ([], d);
    power_cycle = λ d. (false, d);
  }

  pieces-receive :
      (device : DeviceId) (file : FileId) (offset : ℕ) (pieces : List (List ℕ)) (d : Desktop S)
      → deliver_pieces h core device file offset pieces d ≡ receive device file offset pieces d
  pieces-receive device file offset [] d = refl
  pieces-receive device file offset (piece ∷ pieces) d =
      pieces-receive device file (offset + length piece) pieces _

  -- A phone that sends the rest of a file in chunks to the core, from where the open upload of it
  -- stands, leaves the upload with all of the file received, and with the very digest that the phone
  -- states when it closes the upload. The upload has the file's size and the digest of the bytes
  -- before that place, the loop may take as many rounds as bytes are left, and the hasher streams.
  pub send_chunks-digest :
      IsStreaming h
      → (device : DeviceId) (file : FileId) (u : Upload S) (photo : PhoneFile) (fuel : ℕ)
        (d : Desktop S)
      → IsReceiving device file u d
      → u.digest.hasher ≡ h.update h.new (take u.received photo.content)
      → u.size ≡ length photo.content
      → u.received ≤ length photo.content
      → length photo.content ≤ u.received + fuel
      → (now : Upload S) × (upload device file
            (send_chunks h core fuel device file u.received photo.content d)
          ≡ some now)
        × (now.state ≡ UploadState.receiving)
        × (now.received ≡ length photo.content)
        × (Digest.peek now.digest ≡ digest h photo)
  unfolding digest Digest.peek Digest.update Digest.new
  send_chunks-digest law device file u photo fuel d r e size there enough =
      let content = photo.content in
      let cut = send_chunks-IsCut h core fuel device file u.received content d enough in
      let long : length (concat cut.pieces) ≡ length content - u.received =
        ap length cut.whole ∙ length-drop u.received content in
      let (now, found, receiving, received, digested) =
        receive-digest law device file u (take u.received content) cut.pieces d r e
          (omega (arith, long, size, there)) in
      (
        now,
        ap (upload device file) (cut.delivered ∙ pieces-receive device file u.received cut.pieces d)
            ∙ found,
        receiving,
        omega (arith, received, long, there),
        digested
            ∙ ap (λ bytes. h.finalize (h.update h.new bytes))
                (ap (λ bytes. take u.received content ++ bytes) cut.whole
                  ∙ take-drop u.received content),
      )
