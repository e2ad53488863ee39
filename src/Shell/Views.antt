-- ===== src/Shell/Views.antt =====
-- desktop/crates/shell/src/views.rs: what the window shows of each phone. The texts are kept as what
-- they say: the size of the bytes, which the source prints with floating point, is left out.
pub mod Bounds
use photo_sync.Prelude.{
  ℕ, ◌*◌, ◌/◌, ◌-◌, ◌≤◌, List, [], ◌∷◌, min, Option, none, some, Bool, true, false, eqb, list_ord,
  nat_ord, arith, ◌≡◌, if◌then◌else◌,
}
use photo_sync.Prelude.Map.{Map, insert, lookup, values}
use photo_sync.Prelude.Word.{u64_mod}
use photo_sync.Id.{DeviceId, DevicePath, Text}
use photo_sync.Effect.{CommitSummary, Message, UiUpdate}

-- The text under a phone's name.
pub data Detail : Type 0 where
  nothing filing_away : Detail
  photographs : (files_done files_total bytes_done : ℕ) → Detail
  kept : (imported duplicates : ℕ) → Detail
  trouble : Message → Detail
  sent_again : DevicePath → Detail

pub record Phone : Type 0 where
  pub name : Text
  pub detail : Detail
  pub progress : ℕ
  pub busy : Bool

pub record Views : Type 0 where
  pub phones : Map DeviceId Phone

-- `Views::new`
abbrev pub nothing_shown : Views
nothing_shown = record { phones = [] }

-- `saturating_mul`
unfoldable pub saturating_mul : ℕ → ℕ → ℕ
saturating_mul a b = min (a * b) (u64_mod - 1)

unfoldable pub fraction : ℕ → ℕ → ℕ
fraction files total = if eqb total 0 then 100 else min (saturating_mul files 100 / total) 100

-- `or_insert_with`
abbrev pub shown_or : Phone → Option Phone → Phone
shown_or new none = new
shown_or new (some phone) = phone

abbrev pub new_phone : DeviceId → ℕ → Bool → Phone
new_phone device progress busy = record {
  name = device;
  detail = Detail.nothing;
  progress = progress;
  busy = busy;
}

abbrev pub show : DeviceId → Phone → Views → Views
show device phone views = record { phones = insert device phone views.phones }

unfoldable pub observe : UiUpdate → Views → Views
observe (UiUpdate.device_progress device files_done files_total bytes_done) views =
    show device
      (record (shown_or (new_phone device 0 true) (lookup device views.phones)) {
        busy = true;
        progress = fraction files_done files_total;
        detail = Detail.photographs files_done files_total bytes_done;
      })
      views
observe (UiUpdate.commit_started device) views =
    show device
      (record (shown_or (new_phone device 0 true) (lookup device views.phones)) {
        busy = true;
        detail = Detail.filing_away;
      })
      views
observe (UiUpdate.commit_finished device summary) views =
    show device
      (record (shown_or (new_phone device 100 false) (lookup device views.phones)) {
        busy = false;
        progress = 100;
        detail = Detail.kept summary.imported summary.duplicates;
      })
      views
observe (UiUpdate.error device message) views =
    show device
      (record (shown_or (new_phone device 0 false) (lookup device views.phones)) {
        busy = false;
        detail = Detail.trouble message;
      })
      views
observe (UiUpdate.forgotten device path) views = elim (lookup device views.phones) [
  | none ↦ views
  | some phone ↦ show device (record phone { detail = Detail.sent_again path }) views
]

unfoldable pub phones : Views → List Phone
phones views = values views.phones
