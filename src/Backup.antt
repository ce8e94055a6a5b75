-- ===== src/Backup.antt =====
-- scripts/backup_db.py and scripts/restore_db.py: snapshots of the agent's database, their rotation,
-- and the restore with its rollback, over a small file system. Every operation on the disk may fail,
-- and a failed write may leave a part of its output. SQLite, gzip and pathlib are parameters;
-- directories are taken to exist.
pub mod Exec
pub mod Keeps
pub mod Snapshot
pub mod Restore
pub mod RoundTrip
mod Examples
use continuous_agent.Prelude.{
  ℕ, String, Bool, true, false, Option, none, some, List, [], ◌∷◌, if◌then◌else◌,
}
use continuous_agent.Prelude.Maps.{find, store, remove, has}
use continuous_agent.Backup.Exec.{Outcome, done, raised, exited, Action, pure, raise, ◌>>=◌, ◌>>◌}

-- What happens to the next operation on the disk: it works, or it raises and a write has put a part
-- of its output, if any, in the place of the file.
pub data Fault (D : Type 0) : Type 0 where
  works : Fault D
  fails : Option D → Fault D

pub record World (D : Type 0) : Type 0 where
  pub files : List (String × D)
  -- Of the operations to come; where the list ends, all of them work.
  pub faults : List (Fault D)

-- What the scripts call: SQLite and gzip on the contents of files, and pathlib.
pub record Platform (D : Type 0) : Type 0 where
  -- `src.backup(dst)` of a database and its write-ahead log.
  pub backup : D → Option D → D
  -- What the last `close` of a connection leaves of the two.
  pub close : D → Option D → D × Option D
  -- `PRAGMA integrity_check` and `PRAGMA foreign_key_check`; `none` is an exception.
  pub pragma_check : D → Option (String × List String)
  -- `PRAGMA journal_mode = WAL` and the two settings of the connection.
  pub arm : D → D
  pub gzip : D → D
  -- The output, and whether it ended without an exception.
  pub gunzip : D → D × Bool
  pub wal_of : String → String
  pub shm_of : String → String
  -- `with_suffix(".emergency_bak")`
  pub emergency_of : String → String
  -- `path.suffix == ".gz"`
  pub is_gz : String → Bool
  -- The two patterns of `glob`, in the directory of backups.
  pub is_gz_backup : String → Bool
  pub is_raw_backup : String → Bool
  -- `path.stat().st_mtime`
  pub mtime : String → ℕ

module _ {D : Type 0} where
  abbrev pub fault_of : List (Fault D) → Fault D
  fault_of [] = works
  fault_of (f ∷ fs) = f

  abbrev pub later : List (Fault D) → List (Fault D)
  later [] = []
  later (f ∷ fs) = fs

  -- `path.exists()`
  unfoldable pub exists : String → Action (World D) Bool
  exists path w = (done (has path w.files), w)

  abbrev pub spoil : String → Option D → List (String × D) → List (String × D)
  spoil path none files = files
  spoil path (some part) files = store path part files

  abbrev pub write_with : Fault D → String → D → Action (World D) Unit
  write_with works path d w =
      (done tt, record { files = store path d w.files; faults = later w.faults })
  write_with (fails part) path d w =
      (raised, record { files = spoil path part w.files; faults = later w.faults })

  -- Open a file for writing and write `d`.
  unfoldable pub write : String → D → Action (World D) Unit
  write path d w = write_with (fault_of w.faults) path d w

  abbrev pub or_raise : Option D → Action (World D) D
  or_raise none w = (raised, w)
  or_raise (some d) w = (done d, w)

  -- The contents of a file, for the operation that reads it.
  unfoldable pub contents : String → Action (World D) D
  contents path w = or_raise (find path w.files) w

  unfoldable pub copyfile : String → String → Action (World D) Unit
  copyfile from to = do d ← contents from; write to d

  abbrev pub unlink_with : Fault D → Option D → String → Action (World D) Unit
  unlink_with works none path w = (raised, record { files = w.files; faults = later w.faults })
  unlink_with works (some d) path w =
      (done tt, record { files = remove path w.files; faults = later w.faults })
  unlink_with (fails part) found path w =
      (raised, record { files = w.files; faults = later w.faults })

  unfoldable pub unlink : String → Action (World D) Unit
  unlink path w = unlink_with (fault_of w.faults) (find path w.files) path w

  -- An operation on the disk that changes no file of this model.
  abbrev pub attempt_with : Fault D → Action (World D) Bool
  attempt_with works w = (done true, record { files = w.files; faults = later w.faults })
  attempt_with (fails part) w = (done false, record { files = w.files; faults = later w.faults })

  -- Whether it works.
  unfoldable pub attempt : Action (World D) Bool
  attempt w = attempt_with (fault_of w.faults) w

  unfoldable pub unlink_if_exists : String → Action (World D) Unit
  unlink_if_exists path = do there ← exists path; if there then unlink path else pure tt
