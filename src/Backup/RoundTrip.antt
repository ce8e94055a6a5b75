-- ===== src/Backup/RoundTrip.antt =====
-- scripts/backup_db.py and scripts/restore_db.py together: what is backed up is restored.
use continuous_agent.Prelude.{◌≡◌, ◌≢◌, refl, sym, ◌∙◌, String, Bool, true, some, List, []}
use continuous_agent.Prelude.Maps.{
  find, store, remove, find-store_self, find-store_ne, find-remove_ne,
}
use continuous_agent.Backup.Exec.{done}
use continuous_agent.Backup.{Platform, write, contents, attempt}
use continuous_agent.Backup.Snapshot.{make_backup}
use continuous_agent.Backup.Restore.{Stamp, eval_integrity_res, passes, restore_database}
use continuous_agent.Backup.Restore.Rejects.{snapshot}
use continuous_agent.Backup.Restore.Steps.{Holds}
use continuous_agent.Backup.Restore.Success.{
  copied, hot_copy-calm, find-copied, restore_database-restores,
}
use continuous_agent.Backup.Restore.Calm.{calm, unlink-calm}

-- gzip gives back what it compressed.
abbrev pub IsLossless : {D : Type 0} → Platform D → Type 0
IsLossless {D} p = (d : D) → p.gunzip (p.gzip d) ≡ (d, true)

module _ {D : Type 0} (p : Platform D) (src raw_backup_path gz_backup_path : String)
    (raw_src : raw_backup_path ≢ src) (raw_wal : raw_backup_path ≢ p.wal_of src)
    (gz_raw : gz_backup_path ≢ raw_backup_path) where
  abbrev paths_of : Stamp
  paths_of = record { archive_path = gz_backup_path; temp_archive = raw_backup_path }

  -- The database with what is in its log.
  abbrev pub state_of : D → List (String × D) → D
  state_of d files = p.backup d (find (p.wal_of src) files)

  make_backup-calm :
      (d : D) (files : List (String × D))
      → find src files ≡ some d
      → p.pragma_check (state_of d files) ≡ some ("ok", [])
      → (after : List (String × D)) × (make_backup p src raw_backup_path gz_backup_path (calm files)
          ≡ (done tt, calm after))
        × Holds gz_backup_path (p.gzip (state_of d files)) after
  unfolding make_backup contents write attempt
  make_backup-calm d files h ok = (
    remove raw_backup_path saved,
    rw
        (
          hot_copy-calm p paths_of src raw_src raw_wal d files h,
          find-copied p paths_of src raw_src raw_wal d files,
        )
        (rw (ok) (
          unlink-calm raw_backup_path saved (state_of d files) (
            find-store_ne gz_backup_path raw_backup_path _ _ gz_raw
            ∙ find-copied p paths_of src raw_src raw_wal d files))),
    find-remove_ne raw_backup_path gz_backup_path saved (λ e. gz_raw (sym e))
        ∙ find-store_self gz_backup_path (p.gzip (state_of d files)) _,
  )
    where
      saved : List (String × D)
      saved =
          store gz_backup_path (p.gzip (state_of d files))
            (copied p paths_of src raw_src raw_wal d files)

  passes_ok : (d : D) → p.pragma_check d ≡ some ("ok", []) → passes p d ≡ true
  unfolding passes eval_integrity_res
  passes_ok d e = rw e refl

  snapshot_gz :
      (state : D) (files : List (String × D))
      → p.is_gz gz_backup_path ≡ true
      → p.gunzip (p.gzip state) ≡ (state, true)
      → Holds gz_backup_path (p.gzip state) files
      → snapshot p gz_backup_path files ≡ some state
  snapshot_gz state files zipped lossless h = rw (zipped, h, lossless) refl

  -- Where no operation on the disk fails and the paths are apart, a backup of a database that is
  -- there and whose copy passes the checks is made, and a restore from it returns: the target then
  -- holds the backed up state, that is the database with what is in its log, re-armed.
  pub make_backup-restore_database :
      (stamp : Stamp) (target : String)
      → stamp.temp_archive ≢ target
      → stamp.temp_archive ≢ p.wal_of target
      → stamp.archive_path ≢ stamp.temp_archive
      → p.emergency_of target ≢ target
      → IsLossless p
      → p.is_gz gz_backup_path ≡ true
      → (skip_archive : Bool) (d : D) (files : List (String × D)) → find src files ≡ some d
      → p.pragma_check (state_of d files) ≡ some ("ok", [])
      → (after : List (String × D)) × (restored : List (String × D)) × (make_backup p src
            raw_backup_path gz_backup_path
            (calm files)
          ≡ (done tt, calm after))
        × (restore_database p stamp skip_archive gz_backup_path target (calm after)
            ≡ (done tt, calm restored))
        × Holds target (p.arm (state_of d files)) restored
  make_backup-restore_database stamp target temp_target temp_wal archive_temp emergency_target
        lossless zipped skip_archive d files h ok =
      let (after, made, held) = make_backup-calm d files h ok in
      let (restored, returned, holds) =
        restore_database-restores p stamp gz_backup_path target temp_target temp_wal archive_temp
          emergency_target skip_archive after (state_of d files)
          (snapshot_gz (state_of d files) after zipped (lossless (state_of d files)) held)
          (passes_ok (state_of d files) ok) in
      (after, restored, made, returned, holds)
