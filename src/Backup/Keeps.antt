-- ===== src/Backup/Keeps.antt =====
-- What an action of the two scripts keeps of the files, one rule for each way to build an action.
use continuous_agent.Prelude.{ℕ, String, Bool, true, false, Option, none, some, List, if◌then◌else◌}
use continuous_agent.Prelude.Maps.{find, store, remove}
use continuous_agent.Backup.Exec.{
  Outcome, done, raised, exited, Action, pure, raise, exit, try_except, ◌>>=◌, Ends, >>=-Ends,
  try_except-Ends,
}
use continuous_agent.Backup.{
  World, Fault, works, fails, fault_of, exists, write, contents, copyfile, unlink, attempt,
  unlink_if_exists, attempt_with, write_with, unlink_with, or_raise,
}

-- `m` keeps `F`, however it ends, and exits only where `X` allows it.
module _ {D A : Type 0} where
  pub record Keeps (F : List (String × D) → Type 0) (X : Type 0) (m : Action (World D) A)
      : Type 0 where
    pub at :
        (w : World D)
        → F w.files
        → Ends (λ _ t. F t.files) (λ t. F t.files) (λ _ t. X × F t.files) (m w)

module _ {D A : Type 0} {F : List (String × D) → Type 0} {X : Type 0} where
  pub Keeps-pure : (a : A) → Keeps F X (pure a)
  Keeps-pure a = record { at = λ w h. record { post = h } }

  pub Keeps-raise : Keeps F X (raise {A = A})
  Keeps-raise = record { at = λ w h. record { post = h } }

  pub Keeps-exit : X → (n : ℕ) → Keeps F X (exit {A = A} n)
  Keeps-exit x n = record { at = λ w h. record { post = (x, h) } }

  pub Keeps-if :
      (b : Bool) (m n : Action (World D) A)
      → Keeps F X m
      → Keeps F X n
      → Keeps F X (if b then m else n)
  Keeps-if true m n km kn = km
  Keeps-if false m n km kn = kn

  pub Keeps-try :
      (body handler : Action (World D) A)
      → Keeps F X body
      → Keeps F X handler
      → Keeps F X (try_except body handler)
  Keeps-try body handler kb kh = record {
    at = λ w h. try_except-Ends body handler w (kb.at w h) (λ t ht. kh.at t ht);
  }

module _ {D A B : Type 0} {F : List (String × D) → Type 0} {X : Type 0} where
  pub Keeps-bind :
      (m : Action (World D) A) (f : A → Action (World D) B)
      → Keeps F X m
      → ((a : A) → Keeps F X (f a))
      → Keeps F X (m >>= f)
  Keeps-bind m f km kf = record {
    at = λ w h. >>=-Ends m f w (km.at w h) (λ a t ht. (kf a).at t ht);
  }

module _ {D : Type 0} (F : List (String × D) → Type 0) (X : Type 0) where
  abbrev pub Kept : {A : Type 0} → Outcome {0} A × World D → Type 0
  Kept r = Ends (λ _ t. F t.files) (λ t. F t.files) (λ _ t. X × F t.files) r

  read : (found : Option D) (w : World D) → F w.files → Kept (or_raise found w)
  read none w h = record { post = h }
  read (some d) w h = record { post = h }

  attempted : (f : Fault D) (w : World D) → F w.files → Kept (attempt_with f w)
  attempted works w h = record { post = h }
  attempted (fails part) w h = record { post = h }

  written :
      (f : Fault D) (path : String) (d : D) (w : World D)
      → ((v : D) (files : List (String × D)) → F files → F (store path v files))
      → F w.files
      → Kept (write_with f path d w)
  written works path d w k h = record { post = k d w.files h }
  written (fails none) path d w k h = record { post = h }
  written (fails (some part)) path d w k h = record { post = k part w.files h }

  removed :
      (f : Fault D) (found : Option D) (path : String) (w : World D)
      → ((files : List (String × D)) → F files → F (remove path files))
      → F w.files
      → Kept (unlink_with f found path w)
  removed works none path w k h = record { post = h }
  removed works (some d) path w k h = record { post = k w.files h }
  removed (fails part) found path w k h = record { post = h }

module _ {D : Type 0} {F : List (String × D) → Type 0} {X : Type 0} where
  pub Keeps-exists : (path : String) → Keeps F X (exists path)
  unfolding exists
  Keeps-exists path = record { at = λ w h. record { post = h } }

  pub Keeps-contents : (path : String) → Keeps F X (contents path)
  unfolding contents
  Keeps-contents path = record { at = λ w h. read F X (find path w.files) w h }

  pub Keeps-attempt : Keeps F X attempt
  unfolding attempt
  Keeps-attempt = record { at = λ w h. attempted F X (fault_of w.faults) w h }

  pub Keeps-write :
      (path : String) (d : D)
      → ((v : D) (files : List (String × D)) → F files → F (store path v files))
      → Keeps F X (write path d)
  unfolding write
  Keeps-write path d k = record { at = λ w h. written F X (fault_of w.faults) path d w k h }

  pub Keeps-unlink :
      (path : String)
      → ((files : List (String × D)) → F files → F (remove path files))
      → Keeps F X (unlink path)
  unfolding unlink
  Keeps-unlink path k = record {
    at = λ w h. removed F X (fault_of w.faults) (find path w.files) path w k h;
  }

  pub Keeps-unlink_if_exists :
      (path : String)
      → ((files : List (String × D)) → F files → F (remove path files))
      → Keeps F X (unlink_if_exists path)
  unfolding unlink_if_exists
  Keeps-unlink_if_exists path k =
      Keeps-bind (exists path) _ (Keeps-exists path)
        (λ there. Keeps-if there _ _ (Keeps-unlink path k) (Keeps-pure tt))

  pub Keeps-copyfile :
      (from to : String)
      → ((v : D) (files : List (String × D)) → F files → F (store to v files))
      → Keeps F X (copyfile from to)
  unfolding copyfile
  Keeps-copyfile from to k =
      Keeps-bind (contents from) _ (Keeps-contents from) (λ d. Keeps-write to d k)

pub ruleset keeps_rules = (
  Keeps-pure, Keeps-raise, Keeps-exit, Keeps-if, Keeps-try, Keeps-bind, Keeps-exists,
  Keeps-contents, Keeps-attempt,
)

module _ {D A : Type 0} (F : List (String × D) → Type 0) (X : Type 0) where
  pub Ends-files :
      (r : Outcome {0} A × World D)
      → Ends (λ _ t. F t.files) (λ t. F t.files) (λ _ t. X × F t.files) r
      → F r.1.files
  Ends-files (done a, t) h = h.post
  Ends-files (raised, t) h = h.post
  Ends-files (exited n, t) h = h.post.1
