-- ===== src/Backup/Restore.antt =====
-- scripts/restore_db.py. The staging area is a fresh directory that is removed at the end, so the
-- staged database is a local value. Paths with a time stamp are arguments.
pub mod Readonly
pub mod Rejects
pub mod Steps
pub mod Rollback
pub mod Faults
pub mod Archive
pub mod Safety
pub mod Calm
pub mod Success
use continuous_agent.Prelude.{
  ℕ, String, str_eq, Bool, true, false, not, ◌&&◌, ◌||◌, Option, none, some, List, [], ◌∷◌,
  if◌then◌else◌,
}
use continuous_agent.Prelude.Maps.{find}
use continuous_agent.Backup.Exec.{
  Outcome, done, raised, exited, Action, pure, raise, exit, try_except, ◌>>=◌, ◌>>◌,
}
use continuous_agent.Backup.{
  World, Platform, exists, write, contents, copyfile, unlink, attempt, unlink_if_exists,
}
use continuous_agent.Backup.Snapshot.{hot_copy, get_latest_backup}

-- What an integrity check returned: a tuple with its first item and the rest of its texts, or a
-- plain truth value.
pub data IntegrityRes : Type 0 where
  items : Bool → List String → IntegrityRes
  plain : Bool → IntegrityRes

abbrev message : Bool → List String → String
message is_valid (msg ∷ rest) = msg
message is_valid [] = if is_valid then "ok" else "integrity check failed"

unfoldable pub eval_integrity_res : IntegrityRes → Bool × String
eval_integrity_res (items is_valid texts) = (is_valid, message is_valid texts)
eval_integrity_res (plain is_valid) = (is_valid, message is_valid [])

abbrev pub is_empty : List String → Bool
is_empty [] = true
is_empty (x ∷ xs) = false

-- Paths that `archive_active_db` makes from the time.
pub record Stamp : Type 0 where
  pub archive_path : String
  pub temp_archive : String

pub record Args : Type 0 where
  pub source : Option String
  pub target : String
  pub yes : Bool
  pub dry_run : Bool
  pub skip_archive : Bool
  pub list : Bool

-- The terminal: whether it is one, and what was typed, in lower case and without spaces around it;
-- `none` is an interrupt.
pub record Terminal : Type 0 where
  pub isatty : Bool
  pub reply : Option String

module _ {D : Type 0} (p : Platform D) where
  -- The text of an exception is left empty.
  abbrev pub checked : Option (String × List String) → IntegrityRes
  checked none = items false ("" ∷ [])
  checked (some (integrity_res, fk_violations)) =
      items (str_eq integrity_res "ok" && is_empty fk_violations) (integrity_res ∷ [])

  -- `verify_sqlite_integrity` of a database with these contents, `none` if it cannot be opened.
  abbrev pub check_contents : Bool → Option D → IntegrityRes
  check_contents true (some d) = checked (p.pragma_check d)
  check_contents true none = checked none
  check_contents false d = checked none

  unfoldable pub verify_sqlite_integrity : Option D → Action (World D) IntegrityRes
  verify_sqlite_integrity d = do opened ← attempt; pure (check_contents opened d)

  abbrev pub is_valid : IntegrityRes → Bool
  is_valid res = (eval_integrity_res res).0

  -- Whether the contents pass the check, when it can be made.
  unfoldable pub passes : D → Bool
  unfolding eval_integrity_res
  passes d = is_valid (checked (p.pragma_check d))

  abbrev pub unpacked : D × Bool → Action (World D) D
  unpacked (out, complete) = if complete then pure out else raise

  -- The snapshot, decompressed if it is compressed, in the staging area.
  unfoldable pub stage : String → Action (World D) D
  stage source_path = do
    d ← contents source_path
    works ← attempt
    if works then if p.is_gz source_path then unpacked (p.gunzip d) else pure d else raise

  -- Write what `gzip.open` reads of the file `from`.
  unfoldable pub gunzip_to : String → String → Action (World D) Unit
  gunzip_to from to = do
    d ← contents from
    write to (p.gunzip d).0
    if (p.gunzip d).1 then pure tt else raise

  unfoldable pub save_archive : Stamp → String → Action (World D) (Option String)
  save_archive stamp target = do
    hot_copy p target stamp.temp_archive
    d ← contents stamp.temp_archive
    write stamp.archive_path (p.gzip d)
    unlink stamp.temp_archive
    pure (some stamp.archive_path)

  unfoldable pub archive_active_db : Stamp → String → Action (World D) (Option String)
  archive_active_db stamp target = do
    there ← exists target
    if there
        then try_except (save_archive stamp target) (do unlink_if_exists stamp.temp_archive; raise)
        else pure none

  unfoldable pub confirm_restoration : Terminal → String → Bool → Action (World D) Bool
  confirm_restoration terminal source_path assume_yes = if assume_yes then pure true else do
    contents source_path
    if terminal.isatty
        then elim terminal.reply [
          | none ↦ pure false
          | some reply ↦ pure (str_eq reply "y" || str_eq reply "yes")
        ]
        else pure false

  abbrev pub judge : Option D → Action (World D) Bool
  judge none = pure false
  judge (some staged) = do res ← verify_sqlite_integrity (some staged); pure (is_valid res)

  abbrev pub staged_or_none : String → Action (World D) (Option D)
  staged_or_none source_path = try_except (do d ← stage source_path; pure (some d)) (pure none)

  -- The census of the tables is printed only.
  unfoldable pub dry_run_database : String → Action (World D) Bool
  dry_run_database source_path = do
    there ← exists source_path
    staged ← if there then staged_or_none source_path else pure none
    judge staged

  -- `path and path.exists()`
  unfoldable pub present : Option String → Action (World D) (Option String)
  present none = pure none
  present (some path) = do there ← exists path; pure (if there then some path else none)

  abbrev pub save_emergency : Option String → String → Action (World D) Unit
  save_emergency none target = pure tt
  save_emergency (some emergency_backup) target = copyfile target emergency_backup

  abbrev pub drop_emergency : Option String → Action (World D) Unit
  drop_emergency none = pure tt
  drop_emergency (some emergency_backup) = unlink_if_exists emergency_backup

  unfoldable pub check_target : String → Action (World D) Unit
  check_target target w =
      (do
        res ← verify_sqlite_integrity (find target w.files)
        if is_valid res then pure tt else raise)
        w

  -- From the copy over the target to the connection that re-arms the log.
  unfoldable pub swap : D → String → Action (World D) Unit
  swap staged target = do
    unlink_if_exists (p.wal_of target)
    unlink_if_exists (p.shm_of target)
    write target staged
    check_target target
    d ← contents target
    write target (p.arm d)

  unfoldable pub roll_back : Option String → Option String → String → Action (World D) Unit
  roll_back emergency_backup archive_path target = do
    saved ← present emergency_backup
    archived ← present archive_path
    elim saved [
      | some path ↦ do copyfile path target; unlink path
      | none ↦ elim archived [ some path ↦ gunzip_to path target | none ↦ pure tt ]
    ]
    exit 1

  -- The `try` of `restore_database` and its handler.
  abbrev pub try_swap : Option String → D → Option String → String → Action (World D) Unit
  try_swap emergency_backup staged archive_path target =
      try_except
        (do
          save_emergency emergency_backup target
          swap staged target
          drop_emergency emergency_backup)
        (roll_back emergency_backup archive_path target)

  unfoldable pub guarded_swap : D → Option String → String → Action (World D) Unit
  guarded_swap staged archive_path target = do
    there ← exists target
    try_swap (if there then some (p.emergency_of target) else none) staged archive_path target

  abbrev pub archive_and_swap : Stamp → Bool → D → String → Action (World D) Unit
  archive_and_swap stamp skip_archive staged target = do
    archive_path ← if skip_archive then pure none else archive_active_db stamp target
    guarded_swap staged archive_path target

  unfoldable pub restore_database : Stamp → Bool → String → String → Action (World D) Unit
  restore_database stamp skip_archive source_path target = do
    there ← exists source_path
    if there then pure tt else exit 1
    staged ← stage source_path
    res ← verify_sqlite_integrity (some staged)
    if is_valid res then pure tt else exit 1
    archive_and_swap stamp skip_archive staged target

  abbrev pub or_exit : Option String → Action (World D) String
  or_exit none = exit 1
  or_exit (some source) = pure source

  abbrev pub select_source : Option String → Action (World D) String
  select_source (some source) w = (done source, w)
  select_source none w = or_exit (get_latest_backup p w) w

  abbrev pub dry_run : String → Action (World D) Unit
  dry_run source = do success ← dry_run_database source; if success then exit 0 else exit 1

  abbrev pub confirm_and_restore : Stamp → Terminal → Args → String → Action (World D) Unit
  confirm_and_restore stamp terminal args source = do
    confirmed ← confirm_restoration terminal source args.yes
    if confirmed then pure tt else exit 0
    restore_database stamp args.skip_archive source args.target

  -- After `parse_args`; a return is the exit status 0. The listing of `--list`, which only reads and
  -- prints, is left out.
  unfoldable pub main : Stamp → Terminal → Args → Action (World D) Unit
  main stamp terminal args = if args.list then pure tt else do
    source ← select_source args.source
    if args.dry_run then dry_run source else confirm_and_restore stamp terminal args source
