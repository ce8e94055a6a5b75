-- ===== src/Backup/Restore/Safety.antt =====
-- scripts/restore_db.py: what `restore_database` guarantees of the database.
use continuous_agent.Prelude.{
  ℕ, zero, suc, [], ◌∷◌, ◌≡◌, refl, ap, sym, ◌∙◌, subst, String, Bool, true, false, Option, none,
  some, List, drop, ◌⊎◌, inl, inr, if◌then◌else◌,
}
use continuous_agent.Prelude.Maps.{find, store, find-store_self}
use continuous_agent.Backup.Exec.{Outcome, raised, try_except, ◌>>=◌, Ends, >>=-Ends, Ends-weaken}
use continuous_agent.Backup.{
  World, Platform, Fault, works, fails, fault_of, later, copyfile, contents, write,
}
use continuous_agent.Backup.Restore.{
  Stamp, swap, roll_back, drop_emergency, passes, archive_active_db, guarded_swap, archive_and_swap,
  restore_database,
}
use continuous_agent.Backup.Restore.Rejects.{snapshot, next, restore_database-Ends}
use continuous_agent.Backup.Restore.Rollback.{roll_back-RolledBack, guarded_swap-Restored}
use continuous_agent.Backup.Restore.Steps.{IsLaidOut, Holds, guarded_swap-there}
use continuous_agent.Backup.Restore.Archive.{IsFresh, Database, archive_active_db-Closed}

drop_empty {ℓ} : {A : Type ℓ} (n : ℕ) → drop {A = A} n [] ≡ []
drop_empty zero = refl
drop_empty (suc n) = refl

staged_faults :
    {D : Type 0} (n : ℕ) (faults : List (Fault D))
    → drop n (later (later faults)) ≡ drop (suc (suc n)) faults
staged_faults n [] = drop_empty n
staged_faults n (f ∷ []) = drop_empty n
staged_faults n (f ∷ g ∷ fs) = refl

module _ {D : Type 0} (p : Platform D) (stamp : Stamp) (target : String) (original : D)
    (log : Option D) (laid_out : IsLaidOut p target) (fresh : IsFresh p stamp target) where
  -- The database that the swap finds: where it was archived, as the close of the archiver's
  -- connection leaves it.
  abbrev pub settled : Bool → D
  settled skip_archive = if skip_archive then original else (p.close original log).0

  -- How a restore of the snapshot `staged` may end.
  abbrev pub Recovers : Bool → D → Outcome {0} Unit × World D → Type 0
  Recovers skip_archive staged r =
      Ends
        (λ _ t. Holds target (p.arm staged) t.files × (find (p.emergency_of target) t.files ≡ none))
        (λ t.
          Holds target original t.files
          ⊎ (Holds target (settled skip_archive) t.files
              ⊎ Holds (p.emergency_of target) (settled skip_archive) t.files))
        (λ n t.
          (n ≡ 1) × (Holds target original t.files ⊎ Holds target (settled skip_archive) t.files))
        r

  swapped :
      (skip_archive : Bool) (staged : D) (archive_path : Option String) (w : World D)
      → Holds target (settled skip_archive) w.files
      → fault_of w.faults ≡ works
      → Recovers skip_archive staged (guarded_swap p staged archive_path target w)
  swapped skip_archive staged archive_path w h ok =
      Ends-weaken _
        (guarded_swap-Restored p target laid_out (settled skip_archive) staged archive_path w h ok)
        (λ a s q. q) (λ s e. inr e) (λ n s x. (x.0, inr x.1))

  archive_and_swap-Recovers :
      (skip_archive : Bool) (staged : D) (w : World D)
      → Database p target original log w.files
      → fault_of (drop (if skip_archive then 0 else 4) w.faults) ≡ works
      → Recovers skip_archive staged (archive_and_swap p stamp skip_archive staged target w)
  archive_and_swap-Recovers true staged w h ok = swapped true staged none w h.0 ok
  archive_and_swap-Recovers false staged w h ok =
      >>=-Ends (archive_active_db p stamp target) _ w
        (Ends-weaken _ (archive_active_db-Closed p stamp target original log fresh w h) (λ a s q. q)
          (λ s e. elim e [ inl before ↦ inl before.0 | inr after ↦ inr (inl after.0) ])
          (λ n s x. absurd x))
        (λ archive_path t (ht, u). swapped false staged archive_path t ht.0 (ap fault_of u ∙ ok))

  after_staging :
      (skip_archive : Bool) (faults : List (Fault D))
      → fault_of (drop (if skip_archive then 2 else 6) faults) ≡ works
      → fault_of (drop (if skip_archive then 0 else 4) (later (later faults))) ≡ works
  after_staging true faults ok = ap fault_of (staged_faults 0 faults) ∙ ok
  after_staging false faults ok = ap fault_of (staged_faults 4 faults) ∙ ok

  -- Of the database `original` with its log, where the emergency copy, if it is reached, works:
  -- whichever other operations on the disk fail and whatever parts they leave, a return means that
  -- the target holds the staged snapshot, which passed the checks, re-armed, and that no emergency
  -- copy is left; an exit, that the status is 1 and the target is the original, or what closing the
  -- archiver's connection made of it where it was to be archived; an exception, that the target is
  -- one of these or that the emergency copy is the latter.
  pub restore_database-recoverable :
      (skip_archive : Bool) (source : String) (w : World D)
      → Database p target original log w.files
      → fault_of (drop (if skip_archive then 2 else 6) w.faults) ≡ works
      → Ends
          (λ _ t.
            (staged : D) × (snapshot p source w.files ≡ some staged)
            × (passes p staged ≡ true)
            × Holds target (p.arm staged) t.files
            × (find (p.emergency_of target) t.files ≡ none))
          (λ t.
            Holds target original t.files
            ⊎ (Holds target (settled skip_archive) t.files
                ⊎ Holds (p.emergency_of target) (settled skip_archive) t.files))
          (λ n t.
            (n ≡ 1) × (Holds target original t.files ⊎ Holds target (settled skip_archive) t.files))
          (restore_database p stamp skip_archive source target w)
  restore_database-recoverable skip_archive source w h ok =
      restore_database-Ends p stamp skip_archive source target _ _ _ w
        (λ t e. inl (ap (find target) e ∙ h.0)) (λ t e. (refl, inl (ap (find target) e ∙ h.0)))
        (λ staged e valid.
          Ends-weaken _
            (archive_and_swap-Recovers skip_archive staged (next p (next p w)) h
              (after_staging skip_archive w.faults ok))
            (λ a s q. (staged, e, valid, q.0, q.1)) (λ s x. x) (λ n s x. x))

module _ {D : Type 0} (p : Platform D) (target : String) (laid_out : IsLaidOut p target)
    (original part : D) where
  partly_saved :
      (staged : D) (archive_path : Option String) (w : World D)
      → Holds target original w.files
      → fault_of w.faults ≡ fails (some part)
      → (copyfile target (p.emergency_of target) >>= λ _.
            swap p staged target >>= λ _. drop_emergency p (some (p.emergency_of target)))
          w
        ≡ (
          raised,
          record { files = store (p.emergency_of target) part w.files; faults = later w.faults },
        )
  unfolding copyfile contents write
  partly_saved staged archive_path w h bad = rw (h, bad) refl

  -- Where the emergency copy fails and leaves a part of the database, `restore_database` has no way
  -- back: the handler takes the part for the copy. It never returns, and an exit means that the part
  -- has taken the place of the database.
  pub guarded_swap-partial_copy :
      (staged : D) (archive_path : Option String) (w : World D)
      → Holds target original w.files
      → fault_of w.faults ≡ fails (some part)
      → Ends
          (λ _ _. ⊥)
          (λ t. Holds target part t.files ⊎ Holds (p.emergency_of target) part t.files)
          (λ n t. (n ≡ 1) × Holds target part t.files)
          (guarded_swap p staged archive_path target w)
  guarded_swap-partial_copy staged archive_path w h bad =
      subst Lost
        (sym (
          guarded_swap-there p staged archive_path target original w h
          ∙ ap
              (λ r.
                try_except (λ _. r) (roll_back p (some (p.emergency_of target)) archive_path target)
                  w)
              (partly_saved staged archive_path w h bad)))
        (roll_back-RolledBack p target laid_out part archive_path _
          (find-store_self (p.emergency_of target) part w.files))
    where
      Lost : Outcome {0} Unit × World D → Type 0
      Lost r =
          Ends (λ _ _. ⊥)
            (λ t. Holds target part t.files ⊎ Holds (p.emergency_of target) part t.files)
            (λ n t. (n ≡ 1) × Holds target part t.files) r
