-- ===== src/Shell/Suspend/Keeping.antt =====
-- desktop/crates/shell/src/desk.rs, `mind_the_clock`: the machine is kept awake for phones alone.
use photo_sync.Prelude.{[], ◌∷◌, true, false, is_empty, ◌≡◌, refl, arith, list_ord, nat_ord}
use photo_sync.Prelude.Map.{Set, add, insert, remove}
use photo_sync.Id.{DeviceId}
use photo_sync.Event.{Event}
use photo_sync.Shell.Suspend.{Awake, ended, is_busy, mind_the_clock, started}

-- The inhibitor is held exactly while a phone is connected.
pub record IsMinded (a : Awake) : Type 0 where
  pub held : a.inhibition ≡ is_busy a.busy

add_not_empty : (device : DeviceId) (s : Set DeviceId) → is_empty (add device s) ≡ false
unfolding add insert
add_not_empty device [] = refl
add_not_empty device ((d, u) ∷ s) = ground arith

remove_empty :
    (device : DeviceId) (s : Set DeviceId) → is_empty s ≡ true → is_empty (remove device s) ≡ true
unfolding remove
remove_empty device [] h = refl
remove_empty device (e ∷ s) h = cc

-- Where the login manager grants the inhibitor, every event of a desk keeps this: the inhibitor is
-- held exactly while the set of connected phones is not empty.
pub mind_the_clock-IsMinded :
    (event : Event) (a : Awake) → IsMinded a → IsMinded (mind_the_clock true event a)
unfolding mind_the_clock started ended is_busy
mind_the_clock-IsMinded (Event.peer_connected device name) a h = record {
  held = ground (arith, h.held, add_not_empty device a.busy.devices);
}
mind_the_clock-IsMinded (Event.peer_disconnected device) a h = record {
  held = ground (arith, h.held, remove_empty device a.busy.devices);
}
mind_the_clock-IsMinded (Event.started t) a h = h
mind_the_clock-IsMinded (Event.timer_fired o t) a h = h
mind_the_clock-IsMinded (Event.catalog_submitted d e n) a h = h
mind_the_clock-IsMinded (Event.diff_requested d) a h = h
mind_the_clock-IsMinded (Event.upload_opened d f p s t o) a h = h
mind_the_clock-IsMinded (Event.chunk_arrived d f o b) a h = h
mind_the_clock-IsMinded (Event.upload_closed d f g) a h = h
mind_the_clock-IsMinded (Event.upload_aborted d f) a h = h
mind_the_clock-IsMinded (Event.finish_requested d) a h = h
mind_the_clock-IsMinded (Event.deletions_reported d o) a h = h
mind_the_clock-IsMinded (Event.manual_commit_requested d) a h = h
mind_the_clock-IsMinded (Event.force_reimport_requested d p) a h = h
mind_the_clock-IsMinded (Event.storage_op_completed o r) a h = h
mind_the_clock-IsMinded (Event.store_op_completed o r) a h = h
mind_the_clock-IsMinded (Event.free_space_measured o n) a h = h
mind_the_clock-IsMinded (Event.clock_read o m) a h = h
mind_the_clock-IsMinded Event.shutdown_requested a h = h
