-- ===== src/Backup/Exec.antt =====
-- Scripts that read and write a state and may end early: by an exception, or by `sys.exit`, which
-- `except Exception` does not catch.
use continuous_agent.Prelude.{ℕ}

pub data Outcome {ℓ} (A : Type ℓ) : Type ℓ where
  done : A → Outcome A
  raised : Outcome A
  exited : ℕ → Outcome A

abbrev pub Action {ℓ} : Type ℓ → Type ℓ → Type ℓ
Action S A = S → Outcome A × S

module _ {ℓ} {S A : Type ℓ} where
  abbrev pub pure : A → Action S A
  pure a s = (done a, s)

  abbrev pub raise : Action S A
  raise s = (raised, s)

  abbrev pub exit : ℕ → Action S A
  exit n s = (exited n, s)

  abbrev handle : Action S A → Outcome A × S → Outcome A × S
  handle handler (done a, s) = (done a, s)
  handle handler (raised, s) = handler s
  handle handler (exited n, s) = (exited n, s)

  -- `try: body` and `except Exception: handler`
  abbrev pub try_except : Action S A → Action S A → Action S A
  try_except body handler s = handle handler (body s)

module _ {ℓ} {S A B : Type ℓ} where
  abbrev continue : (A → Action S B) → Outcome A × S → Outcome B × S
  continue f (done a, s) = f a s
  continue f (raised, s) = (raised, s)
  continue f (exited n, s) = (exited n, s)

  infixl 10 ◌>>=◌ ◌>>◌
  abbrev pub ◌>>=◌ : Action S A → (A → Action S B) → Action S B
  ◌>>=◌ m f s = continue f (m s)

  abbrev pub ◌>>◌ : Action S A → Action S B → Action S B
  m >> n = m >>= λ _. n

-- What holds at the end, one condition for each way to end.
module _ {ℓ} {S A : Type ℓ} where
  abbrev pub Post : (A → S → Type ℓ) → (S → Type ℓ) → (ℕ → S → Type ℓ) → Outcome A × S → Type ℓ
  Post Q E X (done a, s) = Q a s
  Post Q E X (raised, s) = E s
  Post Q E X (exited n, s) = X n s

  pub record Ends (Q : A → S → Type ℓ) (E : S → Type ℓ) (X : ℕ → S → Type ℓ) (r : Outcome A × S)
      : Type ℓ where
    pub post : Post Q E X r

module _ {ℓ} {S A : Type ℓ} {E E' : S → Type ℓ} {X : ℕ → S → Type ℓ} {Q : A → S → Type ℓ} where
  handle-Ends :
      (handler : Action S A) (r : Outcome A × S)
      → Ends Q E X r
      → ((s : S) → E s → Ends Q E' X (handler s))
      → Ends Q E' X (handle handler r)
  handle-Ends handler (done a, s) h k = record { post = h.post }
  handle-Ends handler (raised, s) h k = k s h.post
  handle-Ends handler (exited n, s) h k = record { post = h.post }

  pub try_except-Ends :
      (body handler : Action S A) (s : S)
      → Ends Q E X (body s)
      → ((t : S) → E t → Ends Q E' X (handler t))
      → Ends Q E' X (try_except body handler s)
  try_except-Ends body handler s h k = handle-Ends handler (body s) h k

module _ {ℓ} {S A B : Type ℓ} {E : S → Type ℓ} {X : ℕ → S → Type ℓ} {Q : A → S → Type ℓ}
    {R : B → S → Type ℓ} where
  continue-Ends :
      (f : A → Action S B) (r : Outcome A × S)
      → Ends Q E X r
      → ((a : A) (s : S) → Q a s → Ends R E X (f a s))
      → Ends R E X (continue f r)
  continue-Ends f (done a, s) h k = k a s h.post
  continue-Ends f (raised, s) h k = record { post = h.post }
  continue-Ends f (exited n, s) h k = record { post = h.post }

  pub >>=-Ends :
      (m : Action S A) (f : A → Action S B) (s : S)
      → Ends Q E X (m s)
      → ((a : A) (t : S) → Q a t → Ends R E X (f a t))
      → Ends R E X ((m >>= f) s)
  >>=-Ends m f s h k = continue-Ends f (m s) h k

-- Weakening what is known at the end.
module _ {ℓ} {S A : Type ℓ} {E E' : S → Type ℓ} {X X' : ℕ → S → Type ℓ}
    {Q Q' : A → S → Type ℓ} where
  pub Ends-weaken :
      (r : Outcome A × S)
      → Ends Q E X r
      → ((a : A) (s : S) → Q a s → Q' a s)
      → ((s : S) → E s → E' s)
      → ((n : ℕ) (s : S) → X n s → X' n s)
      → Ends Q' E' X' r
  Ends-weaken (done a, s) h q e x = record { post = q a s h.post }
  Ends-weaken (raised, s) h q e x = record { post = e s h.post }
  Ends-weaken (exited n, s) h q e x = record { post = x n s h.post }

module _ {ℓ} {S A : Type ℓ} {E E' : S → Type ℓ} {X X' : ℕ → S → Type ℓ}
    {Q Q' : A → S → Type ℓ} where
  pub Ends-both :
      (r : Outcome A × S)
      → Ends Q E X r
      → Ends Q' E' X' r
      → Ends (λ a s. Q a s × Q' a s) (λ s. E s × E' s) (λ n s. X n s × X' n s) r
  Ends-both (done a, s) h k = record { post = (h.post, k.post) }
  Ends-both (raised, s) h k = record { post = (h.post, k.post) }
  Ends-both (exited n, s) h k = record { post = (h.post, k.post) }
