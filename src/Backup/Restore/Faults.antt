-- ===== src/Backup/Restore/Faults.antt =====
-- scripts/restore_db.py: how many of the operations to come an action has used.
use continuous_agent.Prelude.{
  ℕ, zero, suc, ◌≡◌, refl, String, Option, none, some, List, [], ◌∷◌, drop,
}
use continuous_agent.Prelude.Maps.{find}
use continuous_agent.Backup.Exec.{Outcome, Ends}
use continuous_agent.Backup.{
  World, Fault, works, fails, fault_of, later, write, write_with, attempt, attempt_with, unlink,
  unlink_with,
}

-- An operation that works has used one entry of the list of faults.
module _ {D : Type 0} where
  abbrev pub Uses : {A : Type 0} → ℕ → World D → Outcome {0} A × World D → Type 0
  Uses n w r = Ends (λ _ t. t.faults ≡ drop n w.faults) (λ _. Unit) (λ _ _. ⊥) r

  drop_one : (faults : List (Fault D)) → later faults ≡ drop 1 faults
  drop_one [] = refl
  drop_one (f ∷ fs) = refl

  write_with-Uses :
      (f : Fault D) (path : String) (d : D) (w : World D) → Uses 1 w (write_with f path d w)
  write_with-Uses works path d w = record { post = drop_one w.faults }
  write_with-Uses (fails part) path d w = record { post = tt }

  pub write-Uses : (path : String) (d : D) (w : World D) → Uses 1 w (write path d w)
  unfolding write
  write-Uses path d w = write_with-Uses (fault_of w.faults) path d w

  unlink_with-Uses :
      (f : Fault D) (found : Option D) (path : String) (w : World D)
      → Uses 1 w (unlink_with f found path w)
  unlink_with-Uses works none path w = record { post = tt }
  unlink_with-Uses works (some d) path w = record { post = drop_one w.faults }
  unlink_with-Uses (fails part) found path w = record { post = tt }

  pub unlink-Uses : (path : String) (w : World D) → Uses 1 w (unlink path w)
  unfolding unlink
  unlink-Uses path w = unlink_with-Uses (fault_of w.faults) (find path w.files) path w

  attempt_with-Uses : (f : Fault D) (w : World D) → Uses 1 w (attempt_with f w)
  attempt_with-Uses works w = record { post = drop_one w.faults }
  attempt_with-Uses (fails part) w = record { post = drop_one w.faults }

  pub attempt-Uses : (w : World D) → Uses 1 w (attempt w)
  unfolding attempt
  attempt-Uses w = attempt_with-Uses (fault_of w.faults) w

pub drop_more {ℓ} : {A : Type ℓ} (n : ℕ) (xs : List A) → drop 1 (drop n xs) ≡ drop (suc n) xs
drop_more zero [] = refl
drop_more zero (x ∷ xs) = refl
drop_more (suc n) [] = refl
drop_more (suc n) (x ∷ xs) = drop_more n xs
