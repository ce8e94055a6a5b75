-- ===== src/Backup/Restore/Calm.antt =====
-- scripts/restore_db.py: the swap where no operation on the disk fails.
use continuous_agent.Prelude.{
  ◌≡◌, ◌≢◌, refl, ap, ◌∙◌, String, true, false, Bool-cases, Option, none, some, List, [], inl, inr,
  if◌then◌else◌, Option-cases,
}
use continuous_agent.Prelude.Maps.{find, store, remove, has, find-store_self, find-remove_ne}
use continuous_agent.Backup.Exec.{done, ◌>>=◌}
use continuous_agent.Backup.{
  World, Platform, exists, write, contents, attempt, unlink, copyfile, unlink_if_exists,
}
use continuous_agent.Backup.Restore.{
  check_target, swap, guarded_swap, try_swap, passes, verify_sqlite_integrity,
}
use continuous_agent.Backup.Restore.Steps.{Holds, guarded_swap-there}

module _ {D : Type 0} where
  -- A world in which everything works.
  abbrev pub calm : List (String × D) → World D
  calm files = record { files = files; faults = [] }

  abbrev pub without : String → List (String × D) → List (String × D)
  without path files = if has path files then remove path files else files

  pub unlink-calm :
      (path : String) (files : List (String × D)) (d : D)
      → find path files ≡ some d
      → unlink path (calm files) ≡ (done tt, calm (remove path files))
  unfolding unlink
  unlink-calm path files d h = rw h refl

  unlink_if_exists-calm :
      (path : String) (files : List (String × D))
      → unlink_if_exists path (calm files) ≡ (done tt, calm (without path files))
  unfolding unlink_if_exists exists
  unlink_if_exists-calm path files = elim (Option-cases (find path files)) [
    | inl e ↦ rw (has, e) refl
    | inr (d, e) ↦ rw (has, e) (unlink-calm path files d e)
  ]

  without-Holds :
      (target path : String) (d : D) (files : List (String × D))
      → path ≢ target
      → Holds target d files
      → Holds target d (without path files)
  without-Holds target path d files apart h = elim (Bool-cases (has path files)) [
    | inl e ↦ rw e (find-remove_ne path target files apart ∙ h)
    | inr e ↦ rw e h
  ]

module _ {D : Type 0} (p : Platform D) (staged : D) (target : String) where
  check_target-calm :
      (files : List (String × D))
      → Holds target staged files
      → passes p staged ≡ true
      → check_target p target (calm files) ≡ (done tt, calm files)
  unfolding check_target verify_sqlite_integrity attempt passes
  check_target-calm files h valid = rw (h, valid) refl

  abbrev pub swapped : List (String × D) → List (String × D)
  swapped files =
      store target (p.arm staged)
        (store target staged (without (p.shm_of target) (without (p.wal_of target) files)))

  armed :
      (files : List (String × D))
      → (contents target >>= λ d. write target (p.arm d)) (calm (store target staged files))
        ≡ (done tt, calm (store target (p.arm staged) (store target staged files)))
  unfolding contents write
  armed files = rw (find-store_self target staged files) refl

  swap-calm :
      (files : List (String × D))
      → passes p staged ≡ true
      → swap p staged target (calm files) ≡ (done tt, calm (swapped files))
  unfolding swap write contents
  swap-calm files valid =
      rw
        (
          unlink_if_exists-calm (p.wal_of target) files,
          unlink_if_exists-calm (p.shm_of target) (without (p.wal_of target) files),
        )
        (rw (check_target-calm _ (find-store_self target staged _) valid) (armed _))

  try_swap-calm :
      (archive_path : Option String) (files : List (String × D)) (d : D)
      → find target files ≡ some d
      → passes p staged ≡ true
      → try_swap p (some (p.emergency_of target)) staged archive_path target (calm files) ≡ (
        done tt,
        calm (without (p.emergency_of target) (swapped (store (p.emergency_of target) d files))),
      )
  unfolding copyfile contents write
  try_swap-calm archive_path files d h valid = rw (h) (
      rw (swap-calm (store (p.emergency_of target) d files) valid) (
        rw
          (unlink_if_exists-calm (p.emergency_of target)
            (swapped (store (p.emergency_of target) d files)))
          refl))

  -- The emergency copy, the swap, and the removal of the copy.
  pub guarded_swap-calm :
      (archive_path : Option String) (files : List (String × D))
      → p.emergency_of target ≢ target
      → passes p staged ≡ true
      → (after : List (String × D)) × (guarded_swap p staged archive_path target (calm files)
          ≡ (done tt, calm after))
        × Holds target (p.arm staged) after
  unfolding guarded_swap exists
  guarded_swap-calm archive_path files apart valid = elim (Option-cases (find target files)) [
    | inl e ↦ (
      swapped files,
      ap
            (λ there.
              try_swap p (if there then some (p.emergency_of target) else none) staged archive_path
                target (calm files))
            (ap (λ o. elim o [ none ↦ false | some v ↦ true ]) e)
          ∙ rw (swap-calm files valid) refl,
      find-store_self target (p.arm staged) _,
    )
    | inr (d, e) ↦ (
      without (p.emergency_of target) (swapped (store (p.emergency_of target) d files)),
      guarded_swap-there p staged archive_path target d (calm files) e
          ∙ try_swap-calm archive_path files d e valid,
      without-Holds target (p.emergency_of target) (p.arm staged) _ apart
          (find-store_self target (p.arm staged) _),
    )
  ]
