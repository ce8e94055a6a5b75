-- ===== src/Backup/Restore/Readonly.antt =====
-- scripts/restore_db.py: which runs leave every file as it is.
use continuous_agent.Prelude.{
  ◌≡◌, refl, String, str_eq, Bool, true, false, ◌&&◌, ◌||◌, Option, none, some, List, ◌⊎◌, inl, inr,
  if◌then◌else◌,
}
use continuous_agent.Backup.Exec.{Outcome, pure, Ends, >>=-Ends}
use continuous_agent.Backup.{World, Platform, contents}
use continuous_agent.Backup.Keeps.{
  Keeps, Ends-files, Keeps-pure, Keeps-exit, Keeps-if, Keeps-bind, Keeps-contents, keeps_rules,
}
use continuous_agent.Backup.Snapshot.{get_latest_backup}
use continuous_agent.Backup.Restore.{
  Args, Terminal, Stamp, unpacked, verify_sqlite_integrity, stage, dry_run_database,
  confirm_restoration, main, judge, or_exit, staged_or_none, select_source, dry_run,
  confirm_and_restore,
}

module _ {D : Type 0} (p : Platform D) {F : List (String × D) → Type 0} {X : Type 0} where
  pub Keeps-verify_sqlite_integrity : (d : Option D) → Keeps F X (verify_sqlite_integrity p d)
  unfolding verify_sqlite_integrity
  Keeps-verify_sqlite_integrity d = search keeps_rules

  Keeps-unpacked : (r : D × Bool) → Keeps F X (unpacked p r)
  Keeps-unpacked (out, complete) = search keeps_rules

  pub Keeps-stage : (source : String) → Keeps F X (stage p source)
  unfolding stage
  Keeps-stage source = search (keeps_rules, Keeps-unpacked)

  Keeps-staged_or_none : (source : String) → Keeps F X (staged_or_none p source)
  Keeps-staged_or_none source = search (keeps_rules, Keeps-stage)

  Keeps-judge : (staged : Option D) → Keeps F X (judge p staged)
  Keeps-judge none = search keeps_rules
  Keeps-judge (some d) = search (keeps_rules, Keeps-verify_sqlite_integrity)

  Keeps-dry_run_database : (source : String) → Keeps F X (dry_run_database p source)
  unfolding dry_run_database
  Keeps-dry_run_database source = search (keeps_rules, Keeps-staged_or_none, Keeps-judge)

module _ {D : Type 0} (p : Platform D) {F : List (String × D) → Type 0} where
  Keeps-dry_run : (source : String) → Keeps F Unit (dry_run p source)
  Keeps-dry_run source = search (keeps_rules, Keeps-dry_run_database)

-- `--yes`, or a terminal at which "y" or "yes" was typed.
abbrev pub agrees : Option String → Bool
agrees none = false
agrees (some reply) = str_eq reply "y" || str_eq reply "yes"

abbrev pub consents : Terminal → Bool → Bool
consents terminal assume_yes = assume_yes || (terminal.isatty && agrees terminal.reply)

module _ {D : Type 0} (p : Platform D) (F : List (String × D) → Type 0) where
  Refused : Outcome {0} Bool × World D → Type 0
  Refused r = Ends (λ b t. (b ≡ false) × F t.files) (λ t. F t.files) (λ _ t. Unit × F t.files) r

  answered :
      (isatty : Bool) (reply : Option String) (t : World D)
      → (isatty && agrees reply) ≡ false
      → F t.files
      → Refused (
          (if isatty
              then elim reply [
                | none ↦ pure false
                | some typed ↦ pure (str_eq typed "y" || str_eq typed "yes")
              ]
              else pure false)
            t)
  unfolding Refused
  answered false reply t n h = record { post = (refl, h) }
  answered true none t n h = record { post = (refl, h) }
  answered true (some typed) t n h = record { post = (n, h) }

  confirm_restoration-Refused :
      (terminal : Terminal) (source : String) (assume_yes : Bool) (w : World D)
      → consents terminal assume_yes ≡ false
      → F w.files
      → Refused (confirm_restoration p terminal source assume_yes w)
  unfolding confirm_restoration Refused
  confirm_restoration-Refused terminal source true w n h = cc
  confirm_restoration-Refused terminal source false w n h =
      >>=-Ends (contents source) _ w ((Keeps-contents source).at w h)
        (λ d t ht. answered terminal.isatty terminal.reply t n ht)

  confirm_and_restore-Ends :
      (stamp : Stamp) (terminal : Terminal) (args : Args) (source : String) (w : World D)
      → consents terminal args.yes ≡ false
      → F w.files
      → Ends
          (λ _ t. F t.files)
          (λ t. F t.files)
          (λ _ t. Unit × F t.files)
          (confirm_and_restore p stamp terminal args source w)
  unfolding Refused
  confirm_and_restore-Ends stamp terminal args source w n h =
      >>=-Ends (confirm_restoration p terminal source args.yes) _ w
        (confirm_restoration-Refused terminal source args.yes w n h)
        (λ b t (off, ht). rw off (record { post = (tt, ht) }))

  Keeps-or_exit : (found : Option String) → Keeps F Unit (or_exit p found)
  Keeps-or_exit none = Keeps-exit tt 1
  Keeps-or_exit (some source) = Keeps-pure source

  Keeps-select_source : (source : Option String) → Keeps F Unit (select_source p source)
  Keeps-select_source (some source) = record { at = λ w h. record { post = h } }
  Keeps-select_source none = record { at = λ w h. (Keeps-or_exit (get_latest_backup p w)).at w h }

  Keeps-act :
      (stamp : Stamp) (terminal : Terminal) (args : Args) (source : String)
      → (args.dry_run ≡ true) ⊎ (consents terminal args.yes ≡ false)
      → Keeps F Unit (
          if args.dry_run
          then dry_run p source
          else confirm_and_restore p stamp terminal args source)
  Keeps-act stamp terminal args source (inl dry) = rw dry (Keeps-dry_run p source)
  Keeps-act stamp terminal args source (inr n) =
      Keeps-if args.dry_run _ _ (Keeps-dry_run p source)
        (record { at = λ w h. confirm_and_restore-Ends stamp terminal args source w n h })

  Keeps-main :
      (stamp : Stamp) (terminal : Terminal) (args : Args)
      → (args.list ≡ true) ⊎ ((args.dry_run ≡ true) ⊎ (consents terminal args.yes ≡ false))
      → Keeps F Unit (main p stamp terminal args)
  unfolding main
  Keeps-main stamp terminal args (inl listed) = rw listed (Keeps-pure tt)
  Keeps-main stamp terminal args (inr why) = Keeps-if args.list _ _ (Keeps-pure tt) (
      Keeps-bind (select_source p args.source) _ (Keeps-select_source args.source)
        (λ source. Keeps-act stamp terminal args source why))

-- `main` leaves every file as it is, whichever operations on the disk fail, when it lists the
-- snapshots, makes a dry run, or is not told to go on by `--yes` or by "y" or "yes" at a terminal.
pub main-unchanged :
    {D : Type 0} (p : Platform D) (stamp : Stamp) (terminal : Terminal) (args : Args) (w : World D)
    → (args.list ≡ true) ⊎ ((args.dry_run ≡ true) ⊎ (consents terminal args.yes ≡ false))
    → (main p stamp terminal args w).1.files ≡ w.files
main-unchanged p stamp terminal args w why =
    Ends-files (λ files. files ≡ w.files) Unit _
      ((Keeps-main p (λ files. files ≡ w.files) stamp terminal args why).at w refl)
