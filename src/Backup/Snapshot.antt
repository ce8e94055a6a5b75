-- ===== src/Backup/Snapshot.antt =====
-- scripts/backup_db.py: the online backup and the rotation of old ones; `get_latest_backup` of
-- scripts/restore_db.py.
pub mod Rotation
use continuous_agent.Prelude.{
  ℕ, ◌-◌, ◌≤◌, String, str_eq, Bool, true, false, not, ◌&&◌, ◌||◌, Option, none, some, List, [],
  ◌∷◌, ◌++◌, length, take, leb, ◌==◌, if◌then◌else◌,
}
use continuous_agent.Prelude.Sort.{filter, sort_by}
use continuous_agent.Prelude.Maps.{find, store, remove}
use continuous_agent.Backup.Exec.{
  Outcome, done, raised, exited, Action, pure, raise, exit, try_except, ◌>>=◌, ◌>>◌,
}
use continuous_agent.Backup.{
  World, Platform, fault_of, exists, write, contents, unlink, attempt, unlink_if_exists,
}

module _ {D : Type 0} where
  -- The paths of the files.
  abbrev pub paths : List (String × D) → List String
  paths [] = []
  paths ((path, d) ∷ files) = path ∷ paths files

  unfoldable pub unlink_all : List String → Action (World D) Unit
  unlink_all [] = pure tt
  unlink_all (path ∷ rest) = do unlink path; unlink_all rest

module _ {D : Type 0} (p : Platform D) where
  abbrev pub keep_log : String → Option D → List (String × D) → List (String × D)
  keep_log path none files = remove path files
  keep_log path (some log) files = store path log files

  abbrev pub closed : String → Option D → World D → World D
  closed path none w = w
  closed path (some d) w =
      let (d', log) = p.close d (find (p.wal_of path) w.files) in
      record { files = keep_log (p.wal_of path) log (store path d' w.files); faults = w.faults }

  -- `close()` of a connection to the database at `path`.
  abbrev pub close_db : String → World D → World D
  close_db path w = closed path (find path w.files) w

  abbrev pub then_close : String → Outcome {0} Unit × World D → Outcome {0} Unit × World D
  then_close path (r, w) = (r, close_db path w)

  abbrev pub backup_of : Option D → String → String → Action (World D) Unit
  backup_of none from to w = (raised, w)
  backup_of (some d) from to w =
      then_close from (write to (p.backup d (find (p.wal_of from) w.files)) w)

  -- `src.backup(dst)`, and close them, whatever happens.
  abbrev pub backup_to : String → String → Action (World D) Unit
  backup_to from to w = backup_of (find from w.files) from to w

  -- Connect to both databases and back up the one to the other.
  unfoldable pub hot_copy : String → String → Action (World D) Unit
  hot_copy from to = do connected ← attempt; if connected then backup_to from to else raise

  -- `PRAGMA integrity_check` alone.
  abbrev integrity_ok : Option (String × List String) → Action (World D) Unit
  integrity_ok none = raise
  integrity_ok (some (result, violations)) = if str_eq result "ok" then pure tt else raise

  -- The body of the `try`: copy, check, compress, remove the copy.
  unfoldable pub make_backup : String → String → String → Action (World D) Unit
  make_backup src raw_backup_path gz_backup_path = do
    hot_copy src raw_backup_path
    verified ← attempt
    d ← contents raw_backup_path
    if verified then integrity_ok (p.pragma_check d) else raise
    write gz_backup_path (p.gzip d)
    unlink raw_backup_path

  abbrev pub older : String → String → Bool
  older a b = leb (p.mtime a) (p.mtime b)

  -- `sorted(dest_dir.glob("agent_state_*.db.gz"), key=mtime)`
  unfoldable pub by_age : World D → List String
  by_age w = sort_by older (filter p.is_gz_backup (paths w.files))

  -- `max_retained or int(os.getenv("MAX_BACKUPS_RETAINED", "14"))`
  abbrev pub retain : ℕ → Option ℕ → ℕ
  retain configured none = configured
  retain configured (some n) = if n == 0 then configured else n

  -- The limit is not negative. Where there is no excess, `-` gives 0 and nothing is removed, as the
  -- guard `excess > 0` has it.
  unfoldable pub rotate_old_backups : ℕ → Option ℕ → Action (World D) Unit
  rotate_old_backups configured max_retained w =
      let backups = by_age w in
      unlink_all (take (length backups - retain configured max_retained) backups) w

  unfoldable pub perform_online_backup :
      ℕ → Option ℕ → String → String → String → Action (World D) Unit
  perform_online_backup configured max_retained src raw_backup_path gz_backup_path = do
    there ← exists src
    if there then pure tt else exit 1
    try_except (make_backup src raw_backup_path gz_backup_path)
        (do unlink_if_exists raw_backup_path; exit 1)
    rotate_old_backups configured max_retained

  -- `key=mtime, reverse=True`
  abbrev newer : String → String → Bool
  newer a b = leb (p.mtime b) (p.mtime a)

  abbrev first : List String → Option String
  first [] = none
  first (path ∷ rest) = some path

  unfoldable pub get_latest_backup : World D → Option String
  get_latest_backup w = first (
      sort_by newer
        (filter p.is_gz_backup (paths w.files) ++ filter p.is_raw_backup (paths w.files)))
