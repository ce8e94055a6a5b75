-- ===== src/Backup/Restore/Rejects.antt =====
-- scripts/restore_db.py: staging and checking a snapshot, and the snapshots that are turned away.
use continuous_agent.Prelude.{
  ℕ, ◌≡◌, refl, String, Bool, true, false, Bool-cases, Option, none, some, List, inl, inr,
  if◌then◌else◌,
}
use continuous_agent.Prelude.Maps.{find, has}
use continuous_agent.Backup.Exec.{
  Outcome, pure, raise, exit, ◌>>=◌, ◌>>◌, Ends, >>=-Ends, Ends-weaken,
}
use continuous_agent.Backup.{
  World, Platform, Fault, works, fails, fault_of, later, exists, contents, attempt, or_raise,
  attempt_with,
}
use continuous_agent.Backup.Restore.{
  Stamp, IntegrityRes, eval_integrity_res, unpacked, verify_sqlite_integrity, check_contents, stage,
  passes, is_valid, restore_database, archive_and_swap,
}

module _ {D : Type 0} (p : Platform D) where
  abbrev pub complete_output : D × Bool → Option D
  complete_output (out, complete) = if complete then some out else none

  -- What staging a file with these contents gives.
  abbrev pub unpack : Bool → Option D → Option D
  unpack compressed none = none
  unpack compressed (some d) = if compressed then complete_output (p.gunzip d) else some d

  abbrev pub snapshot : String → List (String × D) → Option D
  snapshot source files = unpack (p.is_gz source) (find source files)

  abbrev pub acceptable : Option D → Bool
  acceptable none = false
  acceptable (some d) = passes p d

  -- The world after one operation that changes no file.
  abbrev pub next : World D → World D
  next w = record { files = w.files; faults = later w.faults }

  abbrev pub Staged : String → World D → Outcome {0} D × World D → Type 0
  Staged source w r =
      Ends (λ d t. (snapshot source w.files ≡ some d) × (t ≡ next w)) (λ t. t.files ≡ w.files)
        (λ n t. ⊥) r

  unpacked-Staged :
      (source : String) (w : World D) (d : D)
      → find source w.files ≡ some d
      → p.is_gz source ≡ true
      → Staged source w (unpacked p (p.gunzip d) (next w))
  unpacked-Staged source w d at zipped = elim (Bool-cases (p.gunzip d).1) [
    | inl e ↦ rw e (record { post = (rw (zipped, at, e) refl, refl) })
    | inr e ↦ rw e (record { post = refl })
  ]

  chosen :
      (zipped : Bool) (source : String) (w : World D) (d : D)
      → p.is_gz source ≡ zipped
      → find source w.files ≡ some d
      → Staged source w ((if zipped then unpacked p (p.gunzip d) else pure d) (next w))
  chosen true source w d e at = unpacked-Staged source w d at e
  chosen false source w d e at = record { post = (rw (e, at) refl, refl) }

  attempted :
      (f : Fault D) (source : String) (w : World D) (d : D)
      → find source w.files ≡ some d
      → Staged source w (
          ((attempt_with f) >>= λ fine.
          if fine then if p.is_gz source then unpacked p (p.gunzip d) else pure d else raise)
            w)
  attempted works source w d at = chosen (p.is_gz source) source w d refl at
  attempted (fails part) source w d at = record { post = refl }

  opened :
      (found : Option D) (source : String) (w : World D)
      → find source w.files ≡ found
      → Staged source w (
          (or_raise found >>= λ d. attempt >>= λ fine.
          if fine then if p.is_gz source then unpacked p (p.gunzip d) else pure d else raise)
            w)
  unfolding attempt
  opened none source w at = record { post = refl }
  opened (some d) source w at = attempted (fault_of w.faults) source w d at

  pub stage-Staged : (source : String) (w : World D) → Staged source w (stage p source w)
  unfolding stage contents
  stage-Staged source w = opened (find source w.files) source w refl

  -- `verify_sqlite_integrity` changes no file and says whether the contents pass, where the database
  -- can be opened.
  abbrev pub Verified : D → World D → Outcome {0} IntegrityRes × World D → Type 0
  Verified d w r =
      Ends (λ res t. (is_valid p res ≡ true → passes p d ≡ true) × (t ≡ next w)) (λ t. ⊥) (λ n t. ⊥)
        r

  verified :
      (f : Fault D) (w : World D) (d : D)
      → Verified d w ((attempt_with f >>= λ fine. pure (check_contents p fine (some d))) w)
  unfolding passes eval_integrity_res
  verified works w d = record { post = (λ h. h, refl) }
  verified (fails part) w d = record { post = (λ h. cc, refl) }

  pub verify_sqlite_integrity-Verified :
      (d : D) (w : World D) → Verified d w (verify_sqlite_integrity p (some d) w)
  unfolding verify_sqlite_integrity attempt
  verify_sqlite_integrity-Verified d w = verified (fault_of w.faults) w d

module _ {D : Type 0} (p : Platform D) (stamp : Stamp) (skip_archive : Bool)
    (source target : String) (R : Unit → World D → Type 0) (E : World D → Type 0)
    (X : ℕ → World D → Type 0) (w : World D) (stays : (t : World D) → t.files ≡ w.files → E t)
    (exits : (t : World D) → t.files ≡ w.files → X 1 t)
    (accepted : (staged : D)
      → snapshot p source w.files ≡ some staged
      → passes p staged ≡ true
      → Ends R E X (archive_and_swap p stamp skip_archive staged target (next p (next p w)))) where
  judged :
      (b : Bool) (staged : D)
      → snapshot p source w.files ≡ some staged
      → (b ≡ true → passes p staged ≡ true)
      → Ends R E X (
          ((if b then pure tt else exit 1) >> archive_and_swap p stamp skip_archive staged target)
            (next p (next p w)))
  judged true staged e valid = accepted staged e (valid refl)
  judged false staged e valid = record { post = exits _ refl }

  from_stage : Ends R E X (
      (stage p source >>= λ staged. verify_sqlite_integrity p (some staged) >>= λ res.
      (if is_valid p res then pure tt else exit 1)
      >> archive_and_swap p stamp skip_archive staged target)
        w)
  from_stage =
      >>=-Ends (stage p source) _ w
        (Ends-weaken _ (stage-Staged p source w) (λ a s q. q) stays (λ n s x. absurd x))
        (λ staged t (e, t_eq). rw t_eq (
          >>=-Ends (verify_sqlite_integrity p (some staged)) _ (next p w)
            (Ends-weaken _ (verify_sqlite_integrity-Verified p staged (next p w)) (λ a s q. q)
              (λ s x. absurd x) (λ n s x. absurd x))
            (λ res t' (valid, t'_eq). rw t'_eq (judged (is_valid p res) staged e valid))))

  started :
      (there : Bool)
      → Ends R E X (
          ((if there then pure tt else exit 1)
              >> (stage p source >>= λ staged. verify_sqlite_integrity p (some staged) >>= λ res.
                  (if is_valid p res then pure tt else exit 1)
                  >> archive_and_swap p stamp skip_archive staged target))
            w)
  started true = from_stage
  started false = record { post = exits w refl }

  -- A restore that reaches the swap has staged a snapshot that passes, and has changed no file.
  pub restore_database-Ends : Ends R E X (restore_database p stamp skip_archive source target w)
  unfolding restore_database exists
  restore_database-Ends = started (has source w.files)

not_acceptable :
    {D : Type 0} (p : Platform D) (found : Option D) (staged : D)
    → found ≡ some staged
    → passes p staged ≡ true
    → acceptable p found ≡ false
    → ⊥
not_acceptable p none staged e valid bad = cc
not_acceptable p (some d) staged e valid bad = cc

-- A snapshot that is missing, does not decompress to the end, or fails the check of its integrity or
-- of its foreign keys is never restored: whichever operations on the disk fail, `restore_database`
-- does not return, and leaves every file as it is; an explicit exit has the status 1.
pub restore_database-rejects :
    {D : Type 0} (p : Platform D) (stamp : Stamp) (skip_archive : Bool) (source target : String)
    (w : World D)
    → acceptable p (snapshot p source w.files) ≡ false
    → Ends
        (λ _ t. ⊥)
        (λ t. t.files ≡ w.files)
        (λ n t. (n ≡ 1) × (t.files ≡ w.files))
        (restore_database p stamp skip_archive source target w)
restore_database-rejects p stamp skip_archive source target w bad =
    restore_database-Ends p stamp skip_archive source target _ _ _ w (λ t h. h) (λ t h. (refl, h))
      (λ staged e valid. absurd (not_acceptable p _ staged e valid bad))
