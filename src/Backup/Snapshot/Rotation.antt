-- ===== src/Backup/Snapshot/Rotation.antt =====
-- scripts/backup_db.py: what `rotate_old_backups` removes.
use continuous_agent.Prelude.{
  ℕ, ◌-◌, ◌≤◌, ◌≡◌, ◌≢◌, refl, ap, sym, ◌∙◌, subst, String, str_eq, Bool, if◌then◌else◌, eq_refl,
  Option-cases, true, false, Option, none, some, List, [], ◌∷◌, take, drop, length, length-drop,
  leb, leb→le, min, arith, inl, inr,
}
use continuous_agent.Prelude.Sort.{
  Each, Each-both, Distinct, Ordered, Each-weaken, Each-take, Distinct-take, Ordered-take,
  Each-filter, Distinct-filter, filter, Each-sort_by, Distinct-sort_by, Ordered-sort_by,
}
use continuous_agent.Prelude.Maps.{find, remove, has, find-remove_self, find-remove_ne}
use continuous_agent.Backup.Exec.{done}
use continuous_agent.Backup.{World, Platform, unlink}
use continuous_agent.Backup.Snapshot.{paths, older, by_age, unlink_all, retain, rotate_old_backups}

apart_from : (q : String) (rest : List String) → Each (λ x. q ≢ x) rest → Each (λ x. x ≢ q) rest
apart_from q rest h = Each-weaken rest (λ x n e. n (sym e)) h

module _ {D : Type 0} where
  abbrev remove_all : List String → List (String × D) → List (String × D)
  remove_all [] files = files
  remove_all (path ∷ rest) files = remove_all rest (remove path files)

  Present : List (String × D) → String → Type 0
  Present files path = has path files ≡ true

  find-remove_all :
      (path : String) (removed : List String) (files : List (String × D))
      → Each (λ q. q ≢ path) removed
      → find path (remove_all removed files) ≡ find path files
  find-remove_all path [] files h = refl
  find-remove_all path (q ∷ qs) files (h, hs) =
      find-remove_all path qs (remove q files) hs ∙ find-remove_ne q path files h

  remove_all-gone :
      (removed : List String) (files : List (String × D))
      → Distinct removed
      → Each (λ q. find q (remove_all removed files) ≡ none) removed
  remove_all-gone [] files h = tt
  remove_all-gone (q ∷ qs) files (h, hs) = (
    find-remove_all q qs (remove q files) (apart_from q qs h) ∙ find-remove_self q files,
    remove_all-gone qs (remove q files) hs,
  )

  Present-remove :
      (files : List (String × D)) (q : String) (rest : List String)
      → Each (λ x. q ≢ x) rest
      → Each (Present files) rest
      → Each (Present (remove q files)) rest
  unfolding Present
  Present-remove files q [] n h = tt
  Present-remove files q (x ∷ xs) (n, ns) (h, hs) = (
    ap (λ o. elim o [ none ↦ false | some d ↦ true ]) (find-remove_ne q x files n) ∙ h,
    Present-remove files q xs ns hs,
  )

  Present-some :
      (path : String) (files : List (String × D))
      → Present files path
      → (d : D) × (find path files ≡ some d)
  unfolding Present
  Present-some path files h = elim (Option-cases (find path files)) [
    | inl e ↦ absurd (none_has e h)
    | inr (d, e) ↦ (d, e)
  ]
    where
      none_has : find path files ≡ none → has path files ≡ true → ⊥
      none_has e h = cc

  unlink_all-removes :
      (removed : List String) (files : List (String × D))
      → Distinct removed
      → Each (Present files) removed
      → unlink_all removed (record { files = files; faults = [] })
        ≡ (done tt, record { files = remove_all removed files; faults = [] })
  unfolding unlink_all unlink
  unlink_all-removes [] files h k = refl
  unlink_all-removes (q ∷ qs) files (h, hs) (k, ks) =
      let (d, e) = Present-some q files k in
      rw e (unlink_all-removes qs (remove q files) hs (Present-remove files q qs h ks))

  cons_found :
      (b : Bool) (d : D) (o : Option D)
      → elim o [ none ↦ false | some v ↦ true ] ≡ true
      → elim (if b then some d else o) [ none ↦ false | some v ↦ true ] ≡ true
  cons_found true d o h = refl
  cons_found false d o h = h

  Present-cons :
      (path : String) (d : D) (files : List (String × D)) (q : String)
      → Present files q
      → Present ((path, d) ∷ files) q
  unfolding Present
  Present-cons path d files q h = cons_found (str_eq path q) d (find q files) h

  Present-head :
      (path : String) (d : D) (files : List (String × D)) → Present ((path, d) ∷ files) path
  unfolding Present
  Present-head path d files =
      subst
        (λ b. elim (if b then some d else find path files) [ none ↦ false | some v ↦ true ] ≡ true)
        (sym (eq_refl path)) refl

  Present-paths : (files : List (String × D)) → Each (Present files) (paths files)
  Present-paths [] = tt
  Present-paths ((path, d) ∷ files) = (
    Present-head path d files,
    Each-weaken (paths files) (Present-cons path d files) (Present-paths files),
  )

trans_le : {a b c : ℕ} → a ≤ b → b ≤ c → a ≤ c
trans_le h k = omega arith

not_older : (a b : ℕ) → leb a b ≡ false → b ≤ a
not_older a b h = ground arith

left : (n r : ℕ) → n - (n - r) ≡ min r n
left n r = ground arith

module _ {D : Type 0} (p : Platform D) (configured : ℕ) (max_retained : Option ℕ)
    (files : List (String × D)) (distinct : Distinct (paths files)) where
  abbrev pub before_rotation : World D
  before_rotation = record { files = files; faults = [] }

  abbrev pub excess : ℕ
  excess = length (by_age p before_rotation) - retain p configured max_retained

  by_age-Ordered : Ordered (λ a b. p.mtime a ≤ p.mtime b) (by_age p before_rotation)
  unfolding by_age
  by_age-Ordered =
      Ordered-sort_by (older p) _ (λ a b h. leb→le (p.mtime a) (p.mtime b) h)
        (λ a b h. not_older (p.mtime a) (p.mtime b) h) (λ a b c h k. trans_le h k)
        (filter p.is_gz_backup (paths files))

  by_age-Distinct : Distinct (by_age p before_rotation)
  unfolding by_age
  by_age-Distinct =
      Distinct-sort_by (older p) _ (Distinct-filter p.is_gz_backup (paths files) distinct)

  by_age-Present : Each (Present files) (by_age p before_rotation)
  unfolding by_age
  by_age-Present =
      Each-sort_by (older p) _ _ (Each-filter _ p.is_gz_backup (paths files) (Present-paths files))

  -- Each path once in the directory and no operation on the disk failing, `rotate_old_backups`
  -- returns; it removes the `excess` oldest of the compressed backups, none of which is newer than
  -- one that is left; as many are left as are to be retained, or all; every other file stays.
  pub rotate_old_backups-newest :
      (after : World D) × (rotate_old_backups p configured max_retained before_rotation
        ≡ (done tt, after))
      × Each
          (λ old.
            (find old after.files ≡ none)
            × Each (λ kept. p.mtime old ≤ p.mtime kept) (drop excess (by_age p before_rotation)))
          (take excess (by_age p before_rotation))
      × (length (drop excess (by_age p before_rotation))
          ≡ min (retain p configured max_retained) (length (by_age p before_rotation)))
      × ((path : String)
          → Each (λ old. old ≢ path) (take excess (by_age p before_rotation))
          → find path after.files ≡ find path files)
  unfolding rotate_old_backups
  rotate_old_backups-newest = (
    record { files = remove_all oldest files; faults = [] },
    unlink_all-removes oldest files distinct_oldest (Each-take _ excess all by_age-Present),
    Each-both _ _ oldest (remove_all-gone oldest files distinct_oldest)
        (Ordered-take _ excess all by_age-Ordered),
    length-drop excess all ∙ left (length all) (retain p configured max_retained),
    λ path apart. find-remove_all path oldest files apart,
  )
    where
      all : List String
      all = by_age p before_rotation

      oldest : List String
      oldest = take excess all

      distinct_oldest : Distinct oldest
      distinct_oldest = Distinct-take excess all by_age-Distinct
