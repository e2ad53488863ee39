-- ===== src/Shell/Suspend.antt =====
-- desktop/crates/shell/src/suspend.rs and `mind_the_clock` of desktop/crates/shell/src/desk.rs: when
-- the machine is kept awake. Whether the login manager gives an inhibitor is a parameter.
pub mod Keeping
use photo_sync.Prelude.{
  ℕ, List, [], ◌∷◌, Bool, true, false, not, is_empty, list_ord, nat_ord, if◌then◌else◌,
}
use photo_sync.Prelude.Map.{Set, add, remove}
use photo_sync.Id.{DeviceId}
use photo_sync.Event.{Event}

pub record Busy : Type 0 where
  pub devices : Set DeviceId

-- `Busy::new`
abbrev pub nobody_busy : Busy
nobody_busy = record { devices = [] }

-- Whether this is the first phone, and the phones after it.
unfoldable pub started : DeviceId → Busy → Bool × Busy
started device busy = (is_empty busy.devices, record { devices = add device busy.devices })

-- Whether this was the last phone, and the phones after it.
unfoldable pub ended : DeviceId → Busy → Bool × Busy
ended device busy =
    let left = remove device busy.devices in (is_empty left, record { devices = left })

unfoldable pub is_busy : Busy → Bool
is_busy busy = not (is_empty busy.devices)

-- The two fields of `Desk` that `mind_the_clock` changes.
pub record Awake : Type 0 where
  pub busy : Busy
  pub inhibition : Bool

unfoldable pub mind_the_clock : (inhibit : Bool) → Event → Awake → Awake
mind_the_clock inhibit (Event.peer_connected device name) a =
    let (first, busy) = started device a.busy in
    record {
      busy = busy;
      inhibition = if first then (if inhibit then true else a.inhibition) else a.inhibition;
    }
mind_the_clock inhibit (Event.peer_disconnected device) a =
    let (last, busy) = ended device a.busy in
    record { busy = busy; inhibition = if last then false else a.inhibition }
mind_the_clock inhibit event a = a
