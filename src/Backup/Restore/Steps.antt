-- ===== src/Backup/Restore/Steps.antt =====
-- scripts/restore_db.py: paths, and single operations on the disk.
use continuous_agent.Prelude.{
  ◌≡◌, ◌≢◌, refl, ap, sym, ◌∙◌, subst, String, Bool, true, false, Option, none, some, List,
  if◌then◌else◌,
}
use continuous_agent.Prelude.Maps.{
  find, store, remove, has, find-store_ne, find-remove_self, find-remove_ne,
}
use continuous_agent.Backup.Exec.{Outcome, done, pure, Ends}
use continuous_agent.Backup.{
  World, Platform, Fault, works, fails, fault_of, exists, contents, unlink, unlink_with,
  unlink_if_exists,
}
use continuous_agent.Backup.Keeps.{Keeps, Keeps-pure, keeps_rules}
use continuous_agent.Backup.Restore.{present, guarded_swap, try_swap}

-- The paths that `restore_database` makes from that of the database are different from it and from
-- each other.
pub record IsLaidOut {D : Type 0} (p : Platform D) (target : String) : Type 0 where
  pub wal_apart : p.wal_of target ≢ target
  pub shm_apart : p.shm_of target ≢ target
  pub emergency_apart : p.emergency_of target ≢ target
  pub wal_emergency : p.wal_of target ≢ p.emergency_of target
  pub shm_emergency : p.shm_of target ≢ p.emergency_of target

-- The file at `path` holds `d`.
abbrev pub Holds : {D : Type 0} → String → D → List (String × D) → Type 0
Holds path d files = find path files ≡ some d

module _ {D : Type 0} {path : String} {d : D} where
  pub Holds-store :
      (other : String)
      → other ≢ path
      → (v : D) (files : List (String × D)) → Holds path d files
      → Holds path d (store other v files)
  Holds-store other apart v files h = find-store_ne other path v files apart ∙ h

  pub Holds-remove :
      (other : String)
      → other ≢ path
      → (files : List (String × D)) → Holds path d files
      → Holds path d (remove other files)
  Holds-remove other apart files h = find-remove_ne other path files apart ∙ h

module _ {D : Type 0} (p : Platform D) (path : String) (d : D) (w : World D)
    (h : Holds path d w.files) where
  pub contents-Ends : Ends (λ a t. (a ≡ d) × (t ≡ w)) (λ _. ⊥) (λ _ _. ⊥) (contents path w)
  unfolding contents
  contents-Ends = rw h (record { post = (refl, refl) })

  pub has_it : has path w.files ≡ true
  has_it = ap (λ o. elim o [ none ↦ false | some v ↦ true ]) h

  pub present-Ends :
      Ends (λ r t. (r ≡ some path) × (t ≡ w)) (λ _. ⊥) (λ _ _. ⊥) (present p (some path) w)
  unfolding present exists
  present-Ends =
      subst
        (λ b.
          Ends (λ r t. (r ≡ some path) × (t ≡ w)) (λ _. ⊥) (λ _ _. ⊥)
            (done (if b then some path else none), w))
        (sym has_it) (record { post = (refl, refl) })

module _ {D : Type 0} (F G : List (String × D) → Type 0) (path : String) (w : World D)
    (kept : (files : List (String × D)) → F files → F (remove path files)) where
  abbrev Dropped : Outcome {0} Unit × World D → Type 0
  Dropped r = Ends (λ _ t. F t.files × (find path t.files ≡ none)) (λ t. G t.files) (λ _ _. ⊥) r

  dropped :
      (found : Option D) (f : Fault D)
      → F w.files
      → G w.files
      → Dropped (unlink_with f found path w)
  dropped none works h g = record { post = g }
  dropped (some d) works h g = record { post = (kept w.files h, find-remove_self path w.files) }
  dropped found (fails part) h g = record { post = g }

  none_there :
      (found : Option D) → elim found [ none ↦ false | some d ↦ true ] ≡ false → found ≡ none
  none_there none e = refl
  none_there (some d) e = cc

  where_there :
      (there : Bool)
      → has path w.files ≡ there
      → F w.files
      → G w.files
      → Dropped ((if there then unlink path else pure tt) w)
  unfolding unlink
  where_there true e h g = dropped (find path w.files) (fault_of w.faults) h g
  where_there false e h g = record { post = (h, none_there (find path w.files) e) }

  pub unlink_if_exists-Ends : F w.files → G w.files → Dropped (unlink_if_exists path w)
  unfolding unlink_if_exists exists
  unlink_if_exists-Ends h g = where_there (has path w.files) refl h g

pub Keeps-present :
    {D : Type 0} {F : List (String × D) → Type 0} {X : Type 0} (p : Platform D)
    (path : Option String)
    → Keeps F X (present p path)
unfolding present
Keeps-present p none = Keeps-pure none
Keeps-present p (some path) = search keeps_rules

-- With a database there is an emergency copy.
pub guarded_swap-there :
    {D : Type 0} (p : Platform D) (staged : D) (archive_path : Option String) (target : String)
    (original : D) (w : World D)
    → Holds target original w.files
    → guarded_swap p staged archive_path target w
      ≡ try_swap p (some (p.emergency_of target)) staged archive_path target w
unfolding guarded_swap exists
guarded_swap-there p staged archive_path target original w h =
    ap
      (λ there.
        try_swap p (if there then some (p.emergency_of target) else none) staged archive_path target
          w)
      (has_it p target original w h)
