-- ===== src/Backup/Restore/Rollback.antt =====
-- scripts/restore_db.py: what the `try` of `restore_database` and its handler leave of the database.
use continuous_agent.Prelude.{
  ◌≡◌, refl, sym, subst, String, Option, none, some, List, inl, inr, ◌⊎◌,
}
use continuous_agent.Prelude.Maps.{find, store, find-store_self}
use continuous_agent.Backup.Exec.{
  Outcome, done, exit, ◌>>=◌, ◌>>◌, Ends, >>=-Ends, try_except-Ends, Ends-weaken,
}
use continuous_agent.Backup.{
  World, Platform, Fault, works, fails, fault_of, later, write, write_with, contents, copyfile,
  unlink, unlink_if_exists,
}
use continuous_agent.Backup.Keeps.{
  Keeps, Keeps-unlink, Keeps-unlink_if_exists, Keeps-pure, Keeps-raise, Keeps-if, Keeps-bind,
}
use continuous_agent.Backup.Restore.{
  verify_sqlite_integrity, is_valid, check_target, swap, present, roll_back, save_emergency,
  drop_emergency, guarded_swap, try_swap,
}
use continuous_agent.Backup.Restore.Readonly.{Keeps-verify_sqlite_integrity}
use continuous_agent.Backup.Restore.Steps.{
  IsLaidOut, Holds, Holds-store, Holds-remove, contents-Ends, present-Ends, unlink_if_exists-Ends,
  Keeps-present, guarded_swap-there,
}

module _ {D : Type 0} (p : Platform D) (target : String) (apart : IsLaidOut p target)
    (original : D) where
  abbrev Saved : List (String × D) → Type 0
  Saved files = Holds (p.emergency_of target) original files

  Written : D → Outcome {0} Unit × World D → Type 0
  Written v r =
      Ends (λ _ t. Holds target v t.files × Saved t.files) (λ t. Saved t.files)
        (λ _ t. ⊥ × Saved t.files) r

  Saved-target : (v : D) (files : List (String × D)) → Saved files → Saved (store target v files)
  Saved-target v files h = Holds-store target (λ e. apart.emergency_apart (sym e)) v files h

  write_with-Written :
      (f : Fault D) (v : D) (w : World D) → Saved w.files → Written v (write_with f target v w)
  unfolding Written
  write_with-Written works v w h = record {
    post = (find-store_self target v w.files, Saved-target v w.files h);
  }
  write_with-Written (fails none) v w h = record { post = h }
  write_with-Written (fails (some part)) v w h = record { post = Saved-target part w.files h }

  write-Written : (v : D) (w : World D) → Saved w.files → Written v (write target v w)
  unfolding write
  write-Written v w h = write_with-Written (fault_of w.faults) v w h

  Keeps-check_target :
      {F : List (String × D) → Type 0} {X : Type 0} → Keeps F X (check_target p target)
  unfolding check_target
  Keeps-check_target {F} {X} = record {
    at = λ w h.
        (Keeps-bind {F = F} {X = X} (verify_sqlite_integrity p (find target w.files)) _
            (Keeps-verify_sqlite_integrity p (find target w.files))
            (λ res. Keeps-if (is_valid p res) _ _ (Keeps-pure tt) Keeps-raise)).at
          w h;
  }

  -- The copy over the target, the check, and the connection that re-arms the log.
  over_target :
      (staged : D) (w : World D)
      → Saved w.files
      → Written (p.arm staged) (
          (write target staged >>= λ _.
          check_target p target >>= λ _. contents target >>= λ d. write target (p.arm d))
            w)
  unfolding Written
  over_target staged w h =
      >>=-Ends (write target staged) _ w (write-Written staged w h) (λ _ t kept.
        >>=-Ends (check_target p target) _ t
          (Ends-weaken _
            ((Keeps-check_target {F = λ files. Holds target staged files × Saved files} {X = ⊥}).at
              t kept)
            (λ a s q. q) (λ s e. e.1) (λ n s x. absurd x.0))
          (λ _ t' kept'.
            >>=-Ends (contents target) _ t'
              (Ends-weaken _ (contents-Ends p target staged t' kept'.0) (λ a s q. q)
                (λ s x. absurd x) (λ n s x. absurd x))
              (λ d t'' (d_eq, t_eq). rw (d_eq, t_eq) (write-Written (p.arm staged) t' kept'.1))))

  swap-Written :
      (staged : D) (w : World D) → Saved w.files → Written (p.arm staged) (swap p staged target w)
  unfolding swap Written
  swap-Written staged w h =
      >>=-Ends (unlink_if_exists (p.wal_of target)) _ w
        ((Keeps-unlink_if_exists {F = Saved} {X = ⊥} (p.wal_of target)
            (Holds-remove _ apart.wal_emergency)).at
          w h)
        (λ _ t ht.
          >>=-Ends (unlink_if_exists (p.shm_of target)) _ t
            ((Keeps-unlink_if_exists {F = Saved} {X = ⊥} (p.shm_of target)
                (Holds-remove _ apart.shm_emergency)).at
              t ht)
            (λ _ t' ht'. over_target staged t' ht'))

  -- The database is as it was, or its emergency copy is there.
  abbrev pub Recoverable : List (String × D) → Type 0
  Recoverable files = Holds target original files ⊎ Saved files

  abbrev pub RolledBack : Outcome {0} Unit × World D → Type 0
  RolledBack r =
      Ends (λ _ _. ⊥) (λ t. Recoverable t.files) (λ n t. (n ≡ 1) × Holds target original t.files) r

  PutBack : Outcome {0} Unit × World D → Type 0
  PutBack r = Ends (λ _ t. Holds target original t.files) (λ t. Recoverable t.files) (λ _ _. ⊥) r

  copied_back : (w : World D) → Saved w.files → PutBack (copyfile (p.emergency_of target) target w)
  unfolding PutBack copyfile Written
  copied_back w h =
      >>=-Ends (contents (p.emergency_of target)) _ w
        (Ends-weaken _ (contents-Ends p (p.emergency_of target) original w h) (λ a s q. q)
          (λ s x. absurd x) (λ n s x. absurd x))
        (λ d t (d_eq, t_eq).
          rw (d_eq, t_eq)
            (Ends-weaken _ (write-Written original w h) (λ a s q. q.0) (λ s e. inr e)
              (λ n s x. absurd x.0)))

  unlinked :
      (t : World D) → Holds target original t.files → PutBack (unlink (p.emergency_of target) t)
  unfolding PutBack
  unlinked t back =
      Ends-weaken _
        ((Keeps-unlink {F = Holds target original} {X = ⊥} (p.emergency_of target)
            (Holds-remove _ apart.emergency_apart)).at
          t back)
        (λ a s q. q) (λ s e. inl e) (λ n s x. absurd x.0)

  handled :
      (w : World D)
      → Saved w.files
      → RolledBack (
          ((copyfile (p.emergency_of target) target >> unlink (p.emergency_of target)) >>= λ _.
          exit 1)
            w)
  unfolding PutBack
  handled w h =
      >>=-Ends (copyfile (p.emergency_of target) target >> unlink (p.emergency_of target)) _ w
        (Ends-weaken _
          (>>=-Ends (copyfile (p.emergency_of target) target) _ w (copied_back w h)
            (λ _ t back. unlinked t back))
          (λ a s q. q) (λ s e. e) (λ n s x. absurd x))
        (λ _ t back. record { post = (refl, back) })

  pub roll_back-RolledBack :
      (archive_path : Option String) (w : World D)
      → Saved w.files
      → RolledBack (roll_back p (some (p.emergency_of target)) archive_path target w)
  unfolding roll_back
  roll_back-RolledBack archive_path w h =
      >>=-Ends (present p (some (p.emergency_of target))) _ w
        (Ends-weaken _ (present-Ends p (p.emergency_of target) original w h) (λ a s q. q)
          (λ s x. absurd x) (λ n s x. absurd x))
        (λ saved t (saved_eq, t_eq).
          rw (saved_eq, t_eq)
            (>>=-Ends (present p archive_path) _ w
              (Ends-weaken _ ((Keeps-present {F = Saved} {X = ⊥} p archive_path).at w h)
                (λ a s q. q) (λ s e. inr e) (λ n s x. absurd x.0))
              (λ archived t' ht. handled t' ht)))

  -- The body of the `try` after the emergency copy.
  swapped :
      (staged : D) (w : World D)
      → Saved w.files
      → Ends
          (λ _ t.
            Holds target (p.arm staged) t.files × (find (p.emergency_of target) t.files ≡ none))
          (λ t. Saved t.files)
          (λ n t. (n ≡ 1) × Holds target original t.files)
          ((swap p staged target >>= λ _. drop_emergency p (some (p.emergency_of target))) w)
  unfolding Written
  swapped staged w h =
      >>=-Ends (swap p staged target) _ w
        (Ends-weaken _ (swap-Written staged w h) (λ a s q. q) (λ s e. e) (λ n s x. absurd x.0))
        (λ _ t (now, saved).
          Ends-weaken _
            (unlink_if_exists-Ends (Holds target (p.arm staged)) Saved (p.emergency_of target) t
              (Holds-remove _ apart.emergency_apart) now saved)
            (λ a s q. q) (λ s e. e) (λ n s x. absurd x))

  -- The emergency copy works: the files are then these.
  abbrev pub with_copy : World D → World D
  with_copy w = record {
    files = store (p.emergency_of target) original w.files;
    faults = later w.faults;
  }

  saved_first :
      (w : World D)
      → Holds target original w.files
      → fault_of w.faults ≡ works
      → copyfile target (p.emergency_of target) w ≡ (done tt, with_copy w)
  unfolding copyfile contents write
  saved_first w h ok = rw (h, ok) refl

  abbrev pub Restored : D → Outcome {0} Unit × World D → Type 0
  Restored staged r =
      Ends
        (λ _ t. Holds target (p.arm staged) t.files × (find (p.emergency_of target) t.files ≡ none))
        (λ t. Recoverable t.files) (λ n t. (n ≡ 1) × Holds target original t.files) r

  saved_then_swapped :
      (staged : D) (w : World D)
      → Holds target original w.files
      → fault_of w.faults ≡ works
      → Ends
          (λ _ t.
            Holds target (p.arm staged) t.files × (find (p.emergency_of target) t.files ≡ none))
          (λ t. Saved t.files)
          (λ n t. (n ≡ 1) × Holds target original t.files)
          ((save_emergency p (some (p.emergency_of target)) target >>= λ _.
              swap p staged target >>= λ _. drop_emergency p (some (p.emergency_of target)))
            w)
  saved_then_swapped staged w h ok =
      rw (saved_first w h ok)
        (swapped staged (with_copy w) (find-store_self (p.emergency_of target) original w.files))

  tried :
      (staged : D) (archive_path : Option String) (w : World D)
      → Holds target original w.files
      → fault_of w.faults ≡ works
      → Restored staged (try_swap p (some (p.emergency_of target)) staged archive_path target w)
  tried staged archive_path w h ok =
      try_except-Ends
        (save_emergency p (some (p.emergency_of target)) target >>= λ _.
          swap p staged target >>= λ _. drop_emergency p (some (p.emergency_of target)))
        (roll_back p (some (p.emergency_of target)) archive_path target) w
        (saved_then_swapped staged w h ok)
        (λ t ht.
          Ends-weaken _ (roll_back-RolledBack archive_path t ht) (λ a s q. absurd q) (λ s e. e)
            (λ n s x. x))

  pub guarded_swap-Restored :
      (staged : D) (archive_path : Option String) (w : World D)
      → Holds target original w.files
      → fault_of w.faults ≡ works
      → Restored staged (guarded_swap p staged archive_path target w)
  guarded_swap-Restored staged archive_path w h ok =
      subst (Restored staged) (sym (guarded_swap-there p staged archive_path target original w h))
        (tried staged archive_path w h ok)
