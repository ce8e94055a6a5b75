-- ===== src/Backup/Examples.antt =====
-- Backup and restore on concrete files, with a database at version 1, a snapshot of version 2 and a broken one.
use continuous_agent.Prelude.{
  ℕ, ◌≡◌, ◌≢◌, refl, String, str_eq, ◌==◌, Bool, true, false, Option, none, some, List, [], ◌∷◌,
  inr, if◌then◌else◌, length, ◌⊎◌, ◌≤◌,
}
use continuous_agent.Prelude.Sort.{Each, insert_by, sort_by, filter}
use continuous_agent.Prelude.Maps.{find, differ}
use continuous_agent.Backup.Exec.{done, exited, Ends}
use continuous_agent.Backup.{
  World, Platform, works, fails, exists, write, contents, copyfile, unlink, attempt,
  unlink_if_exists,
}
use continuous_agent.Backup.Snapshot.{by_age, rotate_old_backups, make_backup, hot_copy}
use continuous_agent.Backup.Snapshot.Rotation.{rotate_old_backups-newest}
use continuous_agent.Backup.Restore.{
  verify_sqlite_integrity, stage, archive_active_db, save_archive, swap, check_target, roll_back,
  present, Stamp, Args, Terminal, passes, eval_integrity_res, restore_database, guarded_swap, main,
}
use continuous_agent.Backup.Restore.Readonly.{main-unchanged}
use continuous_agent.Backup.Restore.Rejects.{snapshot, restore_database-rejects}
use continuous_agent.Backup.Restore.Steps.{IsLaidOut, Holds}
use continuous_agent.Backup.Restore.Archive.{IsFresh}
use continuous_agent.Backup.Restore.Safety.{restore_database-recoverable, guarded_swap-partial_copy}
use continuous_agent.Backup.Restore.Success.{restore_database-restores}
use continuous_agent.Backup.Restore.Calm.{calm}
use continuous_agent.Backup.RoundTrip.{make_backup-restore_database}

-- A database by its version and whether its log is on, or what gzip makes of contents.
data Content : Type 0 where
  database : ℕ → Bool → Content
  zipped : Content → Content

abbrev gunzip_content : Content → Content × Bool
gunzip_content (zipped d) = (d, true)
gunzip_content (database n armed) = (database 0 false, false)

abbrev check_content : Content → Option (String × List String)
check_content (database n armed) = if n == 0 then some ("broken", []) else some ("ok", [])
check_content (zipped d) = none

abbrev arm_content : Content → Content
arm_content (database n armed) = database n true
arm_content (zipped d) = zipped d

-- Closing puts the pages of the log into the database and removes it.
abbrev checkpoint : Content → Option Content → Content × Option Content
checkpoint d none = (d, none)
checkpoint d (some log) = (log, none)

abbrev platform : Platform Content
platform = record {
  backup = λ d log. d;
  close = checkpoint;
  pragma_check = check_content;
  arm = arm_content;
  gzip = zipped;
  gunzip = gunzip_content;
  wal_of = λ path. "t.db-wal";
  shm_of = λ path. "t.db-shm";
  emergency_of = λ path. "t.emergency_bak";
  is_gz = λ path. str_eq path "b2.db.gz";
  is_gz_backup = λ path. if str_eq path "b1.db.gz" then true else str_eq path "b2.db.gz";
  is_raw_backup = λ path. false;
  mtime = λ path. if str_eq path "b2.db.gz" then 2 else 1;
}

abbrev disk : List (String × Content)
disk =
    ("t.db", database 1 true)
    ∷ ("b2.db.gz", zipped (database 2 false))
    ∷ ("b1.db.gz", zipped (database 1 false))
    ∷ ("broken.db", database 0 false)
    ∷ []

abbrev stamp : Stamp
stamp = record { archive_path = "a.db.gz"; temp_archive = "a.tmp" }

laid_out : IsLaidOut platform "t.db"
laid_out = record {
  wal_apart = differ "t.db-wal" "t.db" refl;
  shm_apart = differ "t.db-shm" "t.db" refl;
  emergency_apart = differ "t.emergency_bak" "t.db" refl;
  wal_emergency = differ "t.db-wal" "t.emergency_bak" refl;
  shm_emergency = differ "t.db-shm" "t.emergency_bak" refl;
}

fresh : IsFresh platform stamp "t.db"
fresh = record {
  wal_apart = differ "t.db-wal" "t.db" refl;
  temp_target = differ "a.tmp" "t.db" refl;
  temp_wal = differ "a.tmp" "t.db-wal" refl;
  archive_target = differ "a.db.gz" "t.db" refl;
  archive_wal = differ "a.db.gz" "t.db-wal" refl;
}

-- The write over the database fails half-way.
abbrev torn : World Content
torn = record {
  files = disk;
  faults =
      works ∷ works ∷ works ∷ works ∷ works ∷ works ∷ works ∷ fails (some (database 0 false)) ∷ [];
}

abbrev nobody : Terminal
nobody = record { isatty = false; reply = none }

abbrev unattended : Args
unattended = record {
  source = none;
  target = "t.db";
  yes = false;
  dry_run = false;
  skip_archive = false;
  list = false;
}

torn_restore : (restore_database platform stamp false "b2.db.gz" "t.db" torn).0 ≡ exited 1
unfolding restore_database exists write contents copyfile unlink attempt unlink_if_exists
    eval_integrity_res verify_sqlite_integrity stage archive_active_db save_archive hot_copy
    guarded_swap swap check_target roll_back present
torn_restore = refl

main-unchanged_example : (main platform stamp nobody unattended torn).1.files ≡ disk
main-unchanged_example = main-unchanged platform stamp nobody unattended torn (inr (inr refl))

restore_database-rejects_example :
    Ends
      (λ _ t. ⊥)
      (λ t. t.files ≡ disk)
      (λ n t. (n ≡ 1) × (t.files ≡ disk))
      (restore_database platform stamp false "broken.db" "t.db" torn)
unfolding passes eval_integrity_res
restore_database-rejects_example =
    restore_database-rejects platform stamp false "broken.db" "t.db" torn refl

-- With a log that closing puts into the database.
abbrev logged : World Content
logged = record { files = ("t.db-wal", database 4 true) ∷ disk; faults = torn.faults }

restore_database-recoverable_example :
    Ends
      (λ _ t.
        (staged : Content) × (snapshot platform "b2.db.gz" logged.files ≡ some staged)
        × (passes platform staged ≡ true)
        × Holds "t.db" (arm_content staged) t.files
        × (find "t.emergency_bak" t.files ≡ none))
      (λ t.
        Holds "t.db" (database 1 true) t.files
        ⊎ (Holds "t.db" (database 4 true) t.files
            ⊎ Holds "t.emergency_bak" (database 4 true) t.files))
      (λ n t.
        (n ≡ 1) × (Holds "t.db" (database 1 true) t.files ⊎ Holds "t.db" (database 4 true) t.files))
      (restore_database platform stamp false "b2.db.gz" "t.db" logged)
restore_database-recoverable_example =
    restore_database-recoverable platform stamp "t.db" (database 1 true) (some (database 4 true))
      laid_out fresh false "b2.db.gz" logged (refl, refl) refl

restore_database-restores_example :
    (after : List (String × Content)) × (restore_database platform stamp false "b2.db.gz" "t.db"
        (calm disk)
      ≡ (done tt, calm after))
    × Holds "t.db" (database 2 true) after
unfolding passes eval_integrity_res
restore_database-restores_example =
    restore_database-restores platform stamp "b2.db.gz" "t.db" (differ "a.tmp" "t.db" refl)
      (differ "a.tmp" "t.db-wal" refl) (differ "a.db.gz" "a.tmp" refl)
      (differ "t.emergency_bak" "t.db" refl) false disk (database 2 false) refl refl

guarded_swap-partial_copy_example :
    Ends
      (λ _ _. ⊥)
      (λ t.
        Holds "t.db" (database 0 false) t.files
        ⊎ Holds "t.emergency_bak" (database 0 false) t.files)
      (λ n t. (n ≡ 1) × Holds "t.db" (database 0 false) t.files)
      (guarded_swap platform
        (database 2 false)
        none
        "t.db"
        (record { files = disk; faults = fails (some (database 0 false)) ∷ [] }))
guarded_swap-partial_copy_example =
    guarded_swap-partial_copy platform "t.db" laid_out (database 1 true) (database 0 false)
      (database 2 false) none
      (record { files = disk; faults = fails (some (database 0 false)) ∷ [] }) refl refl

abbrev newest : List String
newest = "b2.db.gz" ∷ []

rotate_old_backups-newest_example :
    (after : World Content) × (rotate_old_backups platform 14 (some 1) (calm disk)
      ≡ (done tt, after))
    × Each
        (λ old.
          (find old after.files ≡ none)
          × Each (λ kept. platform.mtime old ≤ platform.mtime kept) ("b2.db.gz" ∷ []))
        ("b1.db.gz" ∷ [])
    × (length newest ≡ 1)
    × ((path : String)
        → Each (λ old. old ≢ path) ("b1.db.gz" ∷ [])
        → find path after.files ≡ find path disk)
unfolding by_age sort_by insert_by filter
rotate_old_backups-newest_example = rotate_old_backups-newest platform 14 (some 1) disk (
  (
    differ "t.db" "b2.db.gz" refl,
    (differ "t.db" "b1.db.gz" refl, (differ "t.db" "broken.db" refl, tt)),
  ),
  (
    (differ "b2.db.gz" "b1.db.gz" refl, (differ "b2.db.gz" "broken.db" refl, tt)),
    ((differ "b1.db.gz" "broken.db" refl, tt), (tt, tt)),
  ),
)

make_backup-restore_database_example :
    (after : List (String × Content)) × (restored : List (String × Content)) × (make_backup platform
        "t.db" "b3.db" "b2.db.gz"
        (calm disk)
      ≡ (done tt, calm after))
    × (restore_database platform stamp true "b2.db.gz" "t.db" (calm after)
        ≡ (done tt, calm restored))
    × Holds "t.db" (database 1 true) restored
make_backup-restore_database_example =
    make_backup-restore_database platform "t.db" "b3.db" "b2.db.gz" (differ "b3.db" "t.db" refl)
      (differ "b3.db" "t.db-wal" refl) (differ "b2.db.gz" "b3.db" refl) stamp "t.db"
      (differ "a.tmp" "t.db" refl) (differ "a.tmp" "t.db-wal" refl) (differ "a.db.gz" "a.tmp" refl)
      (differ "t.emergency_bak" "t.db" refl) (λ d. refl) refl true (database 1 true) disk refl refl
