-- ===== src/Lib.antt =====
-- Photo Sync: the desktop's core, the simulation that tests it, and what its shell decides.
--
-- The core (desktop/crates/core) is a state machine without input or output. The shell, or the
-- simulator, hands it one event at a time; `handle` changes its state and answers with the effects
-- to carry out, and the completion of an operation that an effect began comes back as a later
-- event. A phone connects, freezes a catalog and asks for a diff; the desktop classifies the
-- catalog against its index and its staging manifest, reading the prefixes of partials back first;
-- the phone uploads in chunks, whose watermarks move once they are synced; a closed file is
-- verified against the digest the phone states; the commit names the batch, seals a plan, renames
-- in groups of 64, syncs, marks, records rows and clears staging; and the photos whose vault copy
-- is there are offered for deletion on the phone.
--
-- Parts, and the files they model (paths under desktop/crates/core/src):
--   Id, Catalog, Digest, Port        id.rs, catalog.rs, digest.rs, port.rs
--   Naming, with Civil, Decimal and Calendar   naming.rs
--   Store, Event, Effect             store.rs, event.rs, effect.rs
--   Session, Session.Classify        session.rs
--   Commit                           commit.rs: `plan` and `replay`
--   Desktop, with State, Diff, Upload, Completions   desktop.rs
--   Desktop.Commit, with Queue, Gather, Execute      desktop/commit.rs
--   Desktop.Deletion                 desktop/deletion.rs
-- and, with paths under desktop/crates:
--   Oracle                           model/src/lib.rs: what the desktop should hold, by the phone
--   Sim.Disk, Sim.Storage, Sim.Store sim/src/storage.rs, sim/src/store.rs: files that a crash cuts
--                                    back to what was synced, and the store in memory
--   Sim.World, Sim.Run, Sim.Agree    sim/src/run.rs: the core driven effect by effect, and the
--                                    desktop compared with the oracle
--   Sim.Handset, Sim.Phone           sim/src/phone.rs: a session from the phone's side
--   Shell.Wire, .Answers, .Server    shell/src/server.rs over proto/photosync/v1: the phone's calls
--   Shell.Pinning, Shell.Suspend, Shell.Views   shell/src/pinning.rs, suspend.rs with
--                                    `mind_the_clock` of desk.rs, and views.rs
-- The simulation runs the core's `handle` and answers its effects from the simulated files and
-- store; the phone and the shell's calls reach a desktop through the interfaces `Driver` and `Desk`.
-- Proofs stand in Naming.Free and Naming.Safe; Commit.Rows, Commit.Arrivals, Commit.Dedup,
-- Commit.Fresh, Commit.Files and Commit.Replay, on the cases of Commit.Cases; Session.Sorting,
-- Session.Partition and Session.Answering; Desktop.Ordinary and its
-- children, which say handler by handler what a transfer leaves alone, Desktop.Transfers,
-- Desktop.Verified, Desktop.Content, Desktop.Nomination, and
-- Desktop.Rounds with Order, Answering, Carrying and Whole; Sim.Durable,
-- with Group, Round and Planned for a round, Groups and Whole for a commit, which carries a plan
-- through the core, the simulated disk and a crash; Sim.Refines, Sim.Agree.Silence, .Collecting and .Meaning, the children of Sim.Phone; and
-- the children of Shell.Wire, Shell.Server, Shell.Pinning, Shell.Suspend and Shell.Views. Tests
-- and its children apply them.
--
-- How the state is carried: a method of `&mut self` is a function that takes the state last and
-- returns its effects beside the new state; the fields of `Desktop`, `Session`, `Upload` and
-- `Running` are those of the source. A BTreeMap is a list of entries in the order of their keys,
-- with `insert`, `remove` and `lookup`; a key that is missing is `none`. Strings are their UTF-8
-- bytes. The texts of log lines are constructors of `Message` with the values they print.
--
-- Integers: `u64` additions wrap at 2 ^ 64 as a release build does, saturating operations stop at
-- the ends, and `i64` and `i32` values are integers. The search for a name's suffix runs on fuel,
-- one more suffix than names are taken, which is enough. The queue of the
-- simulation runs on fuel that the caller chooses; a file's chunks and a list's messages run on as
-- many rounds as there are bytes or entries, which is enough.
--
-- Parameters: the sha2 crate's hasher, `Hasher`, with its streaming law `IsStreaming` where a
-- theorem needs it; the key that x509_parser reads from a certificate; whether the login manager
-- grants an inhibitor, what a person decides on a pairing, and whether the paired phones could be
-- written. To the core, the phone, the file system and the database enter as events.
--
-- Not modelled: the rest of the shell (network, TLS, SQLite, the real file system, discovery, the
-- tray), whose code calls third-party crates; campaigns, whose sequences proptest draws; the test
-- client, the vectors and xtask, which are drivers of tests; the encoding of the wire messages,
-- which is generated; and the Android application, another language. The size of the bytes under a
-- phone's bar is floating point and left out. The sabotage features are off, as in a build that is
-- shipped.
pub mod Prelude
pub mod Id
pub mod Catalog
pub mod Digest
pub mod Port
pub mod Naming
pub mod Store
pub mod Event
pub mod Effect
pub mod Session
pub mod Commit
pub mod Desktop
pub mod Oracle
pub mod Sim
pub mod Shell
pub mod Tests
