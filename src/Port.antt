-- ===== src/Port.antt =====
-- desktop/crates/core/src/port.rs: the failures that storage reports. The traits themselves are
-- implemented by the shell and by the simulator, and the core never calls them.
use photo_sync.Id.{Text}

pub data StorageError : Type 0 where
  not_found no_space : StorageError
  failed : Text → StorageError
