-- ===== src/Backup/Restore/Archive.antt =====
-- scripts/restore_db.py: `archive_active_db` leaves the database as it is, or as the close of its own
-- connection leaves it.
use continuous_agent.Prelude.{
  ℕ, suc, ◌≡◌, ◌≢◌, refl, ap, sym, ◌∙◌, subst, String, Bool, true, false, Option, none, some, List,
  drop, if◌then◌else◌, ◌⊎◌, inl, inr,
}
use continuous_agent.Prelude.Maps.{
  find, store, remove, find-store_self, find-store_ne, find-remove_self, find-remove_ne,
}
use continuous_agent.Backup.Exec.{
  Outcome, done, raised, exited, Action, pure, raise, try_except, ◌>>=◌, Ends, >>=-Ends,
  try_except-Ends, Ends-weaken, Ends-both,
}
use continuous_agent.Backup.{
  World, Platform, or_raise, exists, write, contents, attempt, unlink, unlink_if_exists,
}
use continuous_agent.Backup.Keeps.{
  Keeps, Keeps-write, Keeps-unlink, Keeps-unlink_if_exists, Keeps-attempt,
}
use continuous_agent.Backup.Snapshot.{
  hot_copy, closed, close_db, keep_log, then_close, backup_of, backup_to,
}
use continuous_agent.Backup.Restore.{Stamp, save_archive, archive_active_db}
use continuous_agent.Backup.Restore.Steps.{Holds, has_it}
use continuous_agent.Backup.Restore.Faults.{Uses, write-Uses, unlink-Uses, attempt-Uses, drop_more}

-- The paths of the archive are different from those of the database and of its log.
pub record IsFresh {D : Type 0} (p : Platform D) (stamp : Stamp) (target : String) : Type 0 where
  pub wal_apart : p.wal_of target ≢ target
  pub temp_target : stamp.temp_archive ≢ target
  pub temp_wal : stamp.temp_archive ≢ p.wal_of target
  pub archive_target : stamp.archive_path ≢ target
  pub archive_wal : stamp.archive_path ≢ p.wal_of target

module _ {D : Type 0} (p : Platform D) (target : String) (d : D) (log : Option D) where
  -- The file of the database and that of its write-ahead log.
  abbrev pub Database : List (String × D) → Type 0
  Database files = Holds target d files × (find (p.wal_of target) files ≡ log)

  Database-store :
      (other : String)
      → other ≢ target
      → other ≢ p.wal_of target
      → (v : D) (files : List (String × D)) → Database files
      → Database (store other v files)
  Database-store other nt nw v files (h, k) =
      (find-store_ne other target v files nt ∙ h, find-store_ne other _ v files nw ∙ k)

  Database-remove :
      (other : String)
      → other ≢ target
      → other ≢ p.wal_of target
      → (files : List (String × D)) → Database files
      → Database (remove other files)
  Database-remove other nt nw files (h, k) =
      (find-remove_ne other target files nt ∙ h, find-remove_ne other _ files nw ∙ k)

keep_log-Database :
    {D : Type 0} (p : Platform D) (target : String) (d : D) (log : Option D)
    → p.wal_of target ≢ target
    → (files : List (String × D))
    → Database p target d log (keep_log p (p.wal_of target) log (store target d files))
keep_log-Database p target d none apart files = (
  find-remove_ne _ target _ apart ∙ find-store_self target d files,
  find-remove_self (p.wal_of target) (store target d files),
)
keep_log-Database p target d (some l) apart files = (
  find-store_ne _ target l _ apart ∙ find-store_self target d files,
  find-store_self (p.wal_of target) l (store target d files),
)

module _ {D : Type 0} (p : Platform D) (target : String) (d : D) (log : Option D) where
  -- The database is still so, and that many operations have worked.
  abbrev pub Kept : {A : Type 0} → ℕ → World D → Outcome {0} A × World D → Type 0
  Kept n w r =
      Ends (λ _ t. Database p target d log t.files × (t.faults ≡ drop n w.faults))
        (λ t. Database p target d log t.files) (λ _ _. ⊥) r

  once :
      {A : Type 0} (m : Action (World D) A) (w : World D)
      → Keeps (Database p target d log) ⊥ m
      → Uses 1 w (m w)
      → Database p target d log w.files
      → Kept 1 w (m w)
  once m w k u h =
      Ends-weaken _ (Ends-both _ (k.at w h) u) (λ a s q. q) (λ s e. e.0) (λ n s x. absurd x.1)

  write-Kept :
      (path : String) (v : D) (w : World D)
      → path ≢ target
      → path ≢ p.wal_of target
      → Database p target d log w.files
      → Kept 1 w (write path v w)
  write-Kept path v w nt nw h =
      once (write path v) w (Keeps-write path v (Database-store p target d log path nt nw))
        (write-Uses path v w) h

  later_Kept :
      {A : Type 0} (n : ℕ) (w t : World D) (r : Outcome {0} A × World D)
      → t.faults ≡ drop n w.faults
      → Kept 1 t r
      → Kept (suc n) w r
  later_Kept n w t r e k =
      Ends-weaken r k (λ a s (h, u). (h, u ∙ ap (drop 1) e ∙ drop_more n w.faults)) (λ s h. h)
        (λ n s x. absurd x)

  -- `contents` changes nothing.
  read-Kept :
      (path : String) (w : World D) → Database p target d log w.files → Kept 0 w (contents path w)
  unfolding contents
  read-Kept path w h = read (find path w.files)
    where
      read : (found : Option D) → Kept 0 w (or_raise found w)
      read none = record { post = h }
      read (some v) = record { post = (h, refl) }

-- Before and after the one connection to the database is closed.
module _ {D : Type 0} (p : Platform D) (stamp : Stamp) (target : String) (d : D) (log : Option D)
    (fresh : IsFresh p stamp target) where
  abbrev After : List (String × D) → Type 0
  After = Database p target (p.close d log).0 (p.close d log).1

  closed-Database :
      (w : World D) → Database p target d log w.files → After (close_db p target w).files
  closed-Database w (h, k) =
      subst (λ found. After (closed p target found w).files) (sym h)
        (subst
          (λ l.
            After
              (keep_log p (p.wal_of target) (p.close d l).1 (store target (p.close d l).0 w.files)))
          (sym k) (keep_log-Database p target _ (p.close d log).1 fresh.wal_apart w.files))

  closed-faults : (w : World D) → (close_db p target w).faults ≡ w.faults
  closed-faults w = closed_faults (find target w.files) w
    where
      closed_faults : (found : Option D) (w : World D) → (closed p target found w).faults ≡ w.faults
      closed_faults none w = refl
      closed_faults (some v) w = refl

  -- With so many operations that have worked the connection is closed; before, it may not be.
  abbrev pub Closed : {A : Type 0} → ℕ → World D → Outcome {0} A × World D → Type 0
  Closed n w r =
      Ends
        (λ _ t.
          Database p target (p.close d log).0 (p.close d log).1 t.files
          × (t.faults ≡ drop n w.faults))
        (λ t.
          Database p target d log t.files
          ⊎ Database p target (p.close d log).0 (p.close d log).1 t.files)
        (λ _ _. ⊥) r

  after_close :
      {A : Type 0} (n k : ℕ) (w t : World D) (r : Outcome {0} A × World D)
      → t.faults ≡ drop n w.faults
      → Kept p target (p.close d log).0 (p.close d log).1 k t r
      → k ≡ 1
      → Closed (suc n) w r
  after_close n k w t r e kept one =
      Ends-weaken r
        (later_Kept p target (p.close d log).0 (p.close d log).1 n w t r e
          (subst (λ m. Kept p target (p.close d log).0 (p.close d log).1 m t r) one kept))
        (λ a s q. q) (λ s h. inr h) (λ n s x. x)

  backup_of-Closed :
      (v : D) (w : World D)
      → Database p target d log w.files
      → Closed 1 w (backup_of p (some v) target stamp.temp_archive w)
  backup_of-Closed v w h =
      close_after (write stamp.temp_archive (p.backup v (find (p.wal_of target) w.files)) w) (
        write-Kept p target d log stamp.temp_archive (p.backup v (find (p.wal_of target) w.files)) w
          fresh.temp_target fresh.temp_wal h)
    where
      close_after :
          (r : Outcome {0} Unit × World D)
          → Kept p target d log 1 w r
          → Closed 1 w (then_close p target r)
      close_after (done a, t) k = record {
        post = (closed-Database t k.post.0, closed-faults t ∙ k.post.1);
      }
      close_after (raised, t) k = record { post = inr (closed-Database t k.post) }
      close_after (exited n, t) k = absurd k.post

  later_Closed :
      {A : Type 0} (n : ℕ) (w t : World D) (r : Outcome {0} A × World D)
      → t.faults ≡ drop n w.faults
      → Closed 1 t r
      → Closed (suc n) w r
  later_Closed n w t r e k =
      Ends-weaken r k (λ a s (h, u). (h, u ∙ ap (drop 1) e ∙ drop_more n w.faults)) (λ s h. h)
        (λ n s x. absurd x)

  hot_copy-Closed :
      (w : World D)
      → Database p target d log w.files
      → Closed 2 w (hot_copy p target stamp.temp_archive w)
  unfolding hot_copy
  hot_copy-Closed w h =
      >>=-Ends attempt _ w
        (Ends-weaken _ (once p target d log attempt w Keeps-attempt (attempt-Uses w) h) (λ a s q. q)
          (λ s before. inl before) (λ n s x. x))
        (λ connected t (ht, u). copied connected t ht u)
    where
      copied :
          (connected : Bool) (t : World D)
          → Database p target d log t.files
          → t.faults ≡ drop 1 w.faults
          → Closed 2 w ((if connected then backup_to p target stamp.temp_archive else raise) t)
      copied true t ht u =
          subst (λ found. Closed 2 w (backup_of p found target stamp.temp_archive t)) (sym ht.0)
            (later_Closed 1 w t _ u (backup_of-Closed d t ht))
      copied false t ht u = record { post = inl ht }

  save_archive-Closed :
      (w : World D) → Database p target d log w.files → Closed 4 w (save_archive p stamp target w)
  unfolding save_archive
  save_archive-Closed w h =
      let d' = (p.close d log).0 in
      let log' = (p.close d log).1 in
      >>=-Ends (hot_copy p target stamp.temp_archive) _ w (hot_copy-Closed w h) (λ _ t (ht, u).
        >>=-Ends (contents stamp.temp_archive) _ t
          (Ends-weaken _ (read-Kept p target d' log' stamp.temp_archive t ht) (λ a s q. q)
            (λ s after. inr after) (λ n s x. x))
          (λ v t1 (h1, u1).
            >>=-Ends (write stamp.archive_path (p.gzip v)) _ t1
              (after_close 2 1 w t1 _ (u1 ∙ u)
                (write-Kept p target d' log' stamp.archive_path (p.gzip v) t1 fresh.archive_target
                  fresh.archive_wal h1)
                refl)
              (λ _ t2 (h2, u2).
                >>=-Ends (unlink stamp.temp_archive) _ t2
                  (after_close 3 1 w t2 _ u2
                    (once p target d' log' (unlink stamp.temp_archive) t2
                      (Keeps-unlink stamp.temp_archive (
                        Database-remove p target d' log' stamp.temp_archive fresh.temp_target
                          fresh.temp_wal))
                      (unlink-Uses stamp.temp_archive t2) h2)
                    refl)
                  (λ _ t3 h3. record { post = h3 }))))

  -- The handler: the copy is removed.
  cleaned :
      (e : D) (l : Option D) (w : World D)
      → Database p target e l w.files
      → Ends
          (λ _ _. ⊥)
          (λ t. Database p target e l t.files)
          (λ _ _. ⊥)
          ((unlink_if_exists stamp.temp_archive >>= λ _. raise {A = Option String}) w)
  cleaned e l w h =
      >>=-Ends (unlink_if_exists stamp.temp_archive) _ w
        (Ends-weaken _
          ((Keeps-unlink_if_exists {X = ⊥} stamp.temp_archive
              (Database-remove p target e l stamp.temp_archive fresh.temp_target fresh.temp_wal)).at
            w h)
          (λ a s q. q) (λ s e. e) (λ n s x. absurd x.0))
        (λ _ t ht. record { post = ht })

  cleaned_either :
      (t : World D)
      → Database p target d log t.files
        ⊎ Database p target (p.close d log).0 (p.close d log).1 t.files
      → Ends
          (λ _ _. ⊥)
          (λ u.
            Database p target d log u.files
            ⊎ Database p target (p.close d log).0 (p.close d log).1 u.files)
          (λ _ _. ⊥)
          ((unlink_if_exists stamp.temp_archive >>= λ _. raise {A = Option String}) t)
  cleaned_either t (inl h) =
      Ends-weaken _ (cleaned d log t h) (λ a s q. q) (λ s e. inl e) (λ n s x. x)
  cleaned_either t (inr h) =
      Ends-weaken _ (cleaned _ _ t h) (λ a s q. q) (λ s e. inr e) (λ n s x. x)

  pub archive_active_db-Closed :
      (w : World D)
      → Database p target d log w.files
      → Closed 4 w (archive_active_db p stamp target w)
  unfolding archive_active_db exists
  archive_active_db-Closed w h =
      subst
        (λ there. Closed 4 w (
          (if there
              then try_except (save_archive p stamp target)
                  (unlink_if_exists stamp.temp_archive >>= λ _. raise)
              else pure none)
            w))
        (sym (has_it p target d w h.0))
        (try_except-Ends (save_archive p stamp target)
          (unlink_if_exists stamp.temp_archive >>= λ _. raise) w (save_archive-Closed w h)
          (λ t ht. Ends-weaken _ (cleaned_either t ht) (λ a s q. absurd q) (λ s e. e) (λ n s x. x)))
