-- ===== src/Tests/Phone.antt =====
-- The theorems on the simulated phone, at concrete inputs.
use photo_sync.Prelude.{
  ℕ, List, [], ◌∷◌, none, some, false, ◌≡◌, refl, arith, nat_ord, list_ord, ◌==◌, cmp_list,
}
use photo_sync.Prelude.Int.{ℤ, cmp_ℤ, int_ord}
use photo_sync.Prelude.Map.{lookup, remove}
use photo_sync.Effect.{CandidateOrigin, DeletionCandidate}
use photo_sync.Event.{Event}
use photo_sync.Sim.Phone.{
  check, decide, deleted_paths, gate_holds, is_unchanged, let_go, remove_each, send_chunks,
}
use photo_sync.Sim.Handset.{Driver, Phone, PhoneFile, digest, phone_new}
use photo_sync.Sim.Phone.Deleting.{IsVouched, let_go-IsVouched}
use photo_sync.Sim.Phone.Sending.{IsCut, send_chunks-IsCut}
use photo_sync.Digest
use photo_sync.Session.{Upload, UploadState}
use photo_sync.Desktop.State.{upload}
use photo_sync.Sim.Phone.Uploading.{core, send_chunks-digest}
use photo_sync.Tests.{
  desk-IsReceiving, desk_receiving, photo_upload, transparent-IsStreaming, phone, photo_path,
  transparent,
}

-- A desktop that only keeps what it is told.
abbrev recorder : Driver (List Event)
recorder = record {
  deliver = λ event told. event ∷ told;
  take_log = λ told. ([], told);
  power_cycle = λ told. (false, told);
}

abbrev photo : PhoneFile
photo = record { mtime = ℤ.pos 7; content = 1 ∷ 2 ∷ [] }

abbrev kitchen : Phone
kitchen = record (phone_new phone phone) { files = (photo_path, photo) ∷ [] }

abbrev candidate : DeletionCandidate
candidate = record {
  path = photo_path;
  size = 2;
  mtime = ℤ.pos 7;
  expected = 1 ∷ 2 ∷ [];
  origin = CandidateOrigin.this_transfer;
}

photo_held : lookup photo_path kitchen.files ≡ some photo
unfolding lookup ◌==◌ list_ord cmp_list nat_ord
photo_held = refl

photo_gone : lookup photo_path (let_go transparent (candidate ∷ []) kitchen).1.files ≡ none
unfolding let_go decide deleted_paths check gate_holds is_unchanged remove_each remove lookup ◌==◌
    list_ord cmp_list nat_ord int_ord cmp_ℤ
photo_gone = refl

let_go-IsVouched_example : IsVouched transparent kitchen photo_path photo (candidate ∷ [])
let_go-IsVouched_example =
    let_go-IsVouched transparent kitchen photo_path photo (candidate ∷ []) photo_held photo_gone

send_chunks-IsCut_example :
    IsCut transparent recorder phone 3 1
      (1 ∷ 2 ∷ 3 ∷ [])
      []
      (send_chunks transparent recorder 2 phone 3 1 (1 ∷ 2 ∷ 3 ∷ []) [])
send_chunks-IsCut_example =
    send_chunks-IsCut transparent recorder 2 phone 3 1 (1 ∷ 2 ∷ 3 ∷ []) [] (omega arith)

-- The rest of a photo, whose first two bytes came before, sent to the core.
abbrev long_photo : PhoneFile
long_photo = record { mtime = ℤ.pos 7; content = 8 ∷ 9 ∷ 1 ∷ 2 ∷ 3 ∷ [] }

send_chunks-digest_example :
    (now : Upload (List ℕ)) × (upload phone 3
        (send_chunks transparent core 3 phone 3 2 long_photo.content desk_receiving)
      ≡ some now)
    × (now.state ≡ UploadState.receiving)
    × (now.received ≡ 5)
    × (Digest.peek now.digest ≡ digest transparent long_photo)
send_chunks-digest_example =
    send_chunks-digest transparent-IsStreaming phone 3 photo_upload long_photo 3 desk_receiving
      desk-IsReceiving refl refl (omega arith) (omega arith)
