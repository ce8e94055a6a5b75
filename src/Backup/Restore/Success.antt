-- ===== src/Backup/Restore/Success.antt =====
-- scripts/restore_db.py: where no operation on the disk fails, a restore of a good snapshot returns.
use continuous_agent.Prelude.{
  ◌≡◌, ◌≢◌, refl, ap, sym, ◌∙◌, String, Bool, true, false, Option, none, some, List, inl, inr,
  if◌then◌else◌, Option-cases, some-injective,
}
use continuous_agent.Prelude.Maps.{
  find, store, remove, has, find-store_self, find-store_ne, find-remove_ne,
}
use continuous_agent.Backup.Exec.{done, pure, raise, ◌>>=◌}
use continuous_agent.Backup.{Platform, or_raise, exists, write, contents, attempt}
use continuous_agent.Backup.Snapshot.{hot_copy, keep_log}
use continuous_agent.Backup.Restore.{
  Stamp, save_archive, archive_active_db, archive_and_swap, restore_database, stage, unpacked,
  passes, verify_sqlite_integrity,
}
use continuous_agent.Backup.Restore.Steps.{Holds}
use continuous_agent.Backup.Restore.Rejects.{snapshot, unpack, complete_output}
use continuous_agent.Backup.Restore.Calm.{calm, unlink-calm, swapped, guarded_swap-calm}

module _ {D : Type 0} (p : Platform D) (stamp : Stamp) (target : String)
    (temp_target : stamp.temp_archive ≢ target)
    (temp_wal : stamp.temp_archive ≢ p.wal_of target) where
  find-keep_log :
      (log : Option D) (files : List (String × D))
      → find stamp.temp_archive (keep_log p (p.wal_of target) log files)
        ≡ find stamp.temp_archive files
  find-keep_log none files =
      find-remove_ne (p.wal_of target) stamp.temp_archive files (λ e. temp_wal (sym e))
  find-keep_log (some log) files =
      find-store_ne (p.wal_of target) stamp.temp_archive log files (λ e. temp_wal (sym e))

  -- The files after the hot copy.
  abbrev pub copied : D → List (String × D) → List (String × D)
  copied d files =
      let saved = store stamp.temp_archive (p.backup d (find (p.wal_of target) files)) files in
      let (d', log) = p.close d (find (p.wal_of target) saved) in
      keep_log p (p.wal_of target) log (store target d' saved)

  pub hot_copy-calm :
      (d : D) (files : List (String × D))
      → find target files ≡ some d
      → hot_copy p target stamp.temp_archive (calm files) ≡ (done tt, calm (copied d files))
  unfolding hot_copy attempt write
  hot_copy-calm d files h =
      rw
        (
          h,
          find-store_ne stamp.temp_archive target (p.backup d (find (p.wal_of target) files)) files
              temp_target,
          h,
        )
        refl

  pub find-copied :
      (d : D) (files : List (String × D))
      → find stamp.temp_archive (copied d files) ≡ some (p.backup d (find (p.wal_of target) files))
  find-copied d files =
      find-keep_log _ _
      ∙ find-store_ne target stamp.temp_archive _ _ (λ e. temp_target (sym e))
      ∙ find-store_self stamp.temp_archive _ files

  save_archive-calm :
      (d : D) (files : List (String × D))
      → stamp.archive_path ≢ stamp.temp_archive
      → find target files ≡ some d
      → (after : List (String × D)) × (save_archive p stamp target (calm files)
          ≡ (done (some stamp.archive_path), calm after))
  unfolding save_archive contents write
  save_archive-calm d files apart h = (
    remove stamp.temp_archive (archived (copied d files)),
    rw (hot_copy-calm d files h, find-copied d files)
        (rw
          (unlink-calm stamp.temp_archive (archived (copied d files)) snapshot_of
            (find-store_ne stamp.archive_path stamp.temp_archive _ _ apart ∙ find-copied d files))
          refl),
  )
    where
      snapshot_of : D
      snapshot_of = p.backup d (find (p.wal_of target) files)

      archived : List (String × D) → List (String × D)
      archived now = store stamp.archive_path (p.gzip snapshot_of) now

  pub archive_active_db-calm :
      (files : List (String × D))
      → stamp.archive_path ≢ stamp.temp_archive
      → (archive_path : Option String) × (after : List (String × D)) × (archive_active_db p stamp
            target
            (calm files)
          ≡ (done archive_path, calm after))
  unfolding archive_active_db exists
  archive_active_db-calm files apart = elim (Option-cases (find target files)) [
    | inl e ↦ (none, files, rw (has, e) refl)
    | inr (d, e) ↦
        let (after, saved) = save_archive-calm d files apart e in
        (some stamp.archive_path, after, rw (has, e) (rw saved refl))
  ]

module _ {D : Type 0} (p : Platform D) (stamp : Stamp) (source target : String)
    (temp_target : stamp.temp_archive ≢ target) (temp_wal : stamp.temp_archive ≢ p.wal_of target)
    (archive_temp : stamp.archive_path ≢ stamp.temp_archive)
    (emergency_target : p.emergency_of target ≢ target) where
  archive_and_swap-calm :
      (skip_archive : Bool) (staged : D) (files : List (String × D))
      → passes p staged ≡ true
      → (after : List (String × D)) × (archive_and_swap p stamp skip_archive staged target
            (calm files)
          ≡ (done tt, calm after))
        × Holds target (p.arm staged) after
  archive_and_swap-calm true staged files valid =
      guarded_swap-calm p staged target none files emergency_target valid
  archive_and_swap-calm false staged files valid =
      let (archive_path, between, archived) =
        archive_active_db-calm p stamp target temp_target temp_wal files archive_temp in
      let (after, swapped, h) =
        guarded_swap-calm p staged target archive_path between emergency_target valid in
      (after, rw archived swapped, h)

  unpacked-calm :
      (files : List (String × D)) (staged : D) (r : D × Bool)
      → complete_output p r ≡ some staged
      → unpacked p r (calm files) ≡ (done staged, calm files)
  unpacked-calm files staged (out, true) e = ap (λ v. (done v, calm files)) (some-injective _ _ e)
  unpacked-calm files staged (out, false) e = cc

  chosen-calm :
      (zipped : Bool) (files : List (String × D)) (d staged : D)
      → unpack p zipped (some d) ≡ some staged
      → (if zipped then unpacked p (p.gunzip d) else pure d) (calm files)
        ≡ (done staged, calm files)
  chosen-calm true files d staged e = unpacked-calm files staged (p.gunzip d) e
  chosen-calm false files d staged e = ap (λ v. (done v, calm files)) (some-injective _ _ e)

  opened-calm :
      (found : Option D) (files : List (String × D)) (staged : D)
      → unpack p (p.is_gz source) found ≡ some staged
      → (or_raise found >>= λ d. attempt >>= λ fine.
            if fine then if p.is_gz source then unpacked p (p.gunzip d) else pure d else raise)
          (calm files)
        ≡ (done staged, calm files)
  unfolding attempt
  opened-calm none files staged e = cc
  opened-calm (some d) files staged e = chosen-calm (p.is_gz source) files d staged e

  stage-calm :
      (files : List (String × D)) (staged : D)
      → snapshot p source files ≡ some staged
      → stage p source (calm files) ≡ (done staged, calm files)
  unfolding stage contents
  stage-calm files staged e = opened-calm (find source files) files staged e

  exists_snapshot :
      (found : Option D) (staged : D)
      → unpack p (p.is_gz source) found ≡ some staged
      → elim found [ none ↦ false | some v ↦ true ] ≡ true
  exists_snapshot none staged e = cc
  exists_snapshot (some d) staged e = refl

  -- Where no operation on the disk fails and the paths are apart, a snapshot that is there,
  -- decompresses and passes the checks is restored, with or without an archive: `restore_database`
  -- returns, and the target holds the snapshot, re-armed.
  pub restore_database-restores :
      (skip_archive : Bool) (files : List (String × D)) (staged : D)
      → snapshot p source files ≡ some staged
      → passes p staged ≡ true
      → (after : List (String × D)) × (restore_database p stamp skip_archive source target
            (calm files)
          ≡ (done tt, calm after))
        × Holds target (p.arm staged) after
  unfolding restore_database exists verify_sqlite_integrity attempt passes
  restore_database-restores skip_archive files staged e valid =
      let (after, swapped, h) = archive_and_swap-calm skip_archive staged files valid in
      (
        after,
        rw (has, exists_snapshot (find source files) staged e)
            (rw (stage-calm files staged e) (rw valid swapped)),
        h,
      )
