-- ===== src/FunSearch/Ring.antt =====
-- agent/funsearch_service.py: what `execute_ring_migration` gives each island.
use native.Mathlib.Nat.{mod-lt, mod-eq_of_lt, mod_self}
use continuous_agent.Prelude.{
  ℕ, zero, suc, ◌+◌, ◌%◌, ◌≤◌, ◌<◌, ◌≡◌, ◌≢◌, refl, ap, sym, ◌∙◌, subst, String, Bool-cases, true,
  false, Option, some, some-injective, ◌==◌, ◌>>=◌, List, [], ◌∷◌, length, length-set, get_elem?,
  get_elem?-set_self, get_elem?-set_ne, set, ltb, arith, inl, inr,
}
use continuous_agent.Prelude.Int.{ℤ}
use continuous_agent.Evolution.Nsga.{Distances, Nsga2Individual}
use continuous_agent.FunSearch.{
  FunSearchIsland, Stored, register_heuristic, relabel, inject, inject_into, inject_all,
  upsert_island,
}
use continuous_agent.FunSearch.Restart.{WithinCapacity, register_heuristic-WithinCapacity}

in_range {ℓ} :
    {A : Type ℓ} (xs : List A) (i : ℕ) → i < length xs → (a : A) × (get_elem? xs i ≡ some a)
in_range [] i h = elim h [ ]
in_range (x ∷ xs) zero h = (x, refl)
in_range (x ∷ xs) (suc i) h = in_range xs i (omega arith)

get_elem?-bound {ℓ} :
    {A : Type ℓ} (xs : List A) (i : ℕ) (a : A) → get_elem? xs i ≡ some a → i < length xs
get_elem?-bound [] i a e = cc
get_elem?-bound (x ∷ xs) zero a e = omega arith
get_elem?-bound (x ∷ xs) (suc i) a e = let h = get_elem?-bound xs i a e in omega arith

-- The targets of two islands on a ring are different.
targets-ne : (n i k : ℕ) → i < k → k < n → (i + 1) % n ≢ (k + 1) % n
targets-ne n i k h h' same =
    let early : i + 1 < n = omega arith in
    elim (Bool-cases (ltb (k + 1) n)) [
      | inl e ↦ next_ne (sym (mod-eq_of_lt early) ∙ same ∙ mod-eq_of_lt (below (k + 1) n e))
      | inr e ↦ first_ne (sym (mod-eq_of_lt early) ∙ same ∙ wraps e)
    ]
  where
    below : (a b : ℕ) → ltb a b ≡ true → a < b
    below a b e = ground arith

    next_ne : i + 1 ≡ k + 1 → ⊥
    next_ne e = omega arith

    first_ne : i + 1 ≡ 0 → ⊥
    first_ne e = omega arith

    last : ltb (k + 1) n ≡ false → n ≡ k + 1
    last e = ground arith

    wraps : ltb (k + 1) n ≡ false → (k + 1) % n ≡ 0
    wraps e = subst (λ m. m % n ≡ 0) (last e) (mod_self n)

module _ {D : Type 0} (distances : Distances D) (tiny : ℤ)
    (migrated_id : String → ℕ → ℕ → String) where
  -- An island that registers migrants, one by one, under their new ids.
  abbrev pub receive : ℕ → List (Nsga2Individual D) → FunSearchIsland D → Option (FunSearchIsland D)
  receive src_id [] target = some target
  receive src_id (p ∷ migrants) target =
      register_heuristic distances tiny
        (relabel distances tiny migrated_id src_id target.island_id p) target
      >>= receive src_id migrants

  inject-receive :
      (src_id : ℕ) (migrants : List (Nsga2Individual D)) (s : FunSearchIsland D)
      (rows : List (Stored D))
      → WithinCapacity distances tiny s
      → (s' : FunSearchIsland D) × (rows' : List (Stored D)) × (inject distances tiny migrated_id
            src_id migrants s rows
          ≡ some (s', rows'))
        × (receive src_id migrants s ≡ some s')
        × WithinCapacity distances tiny s'
        × (s'.island_id ≡ s.island_id)
  unfolding inject
  inject-receive src_id [] s rows h = (s, rows, refl, refl, h, refl)
  inject-receive src_id (p ∷ migrants) s rows h =
      let ind = relabel distances tiny migrated_id src_id s.island_id p in
      let (t, registered, within, same, max_same) =
        register_heuristic-WithinCapacity distances tiny ind s in
      let (s', rows', injected, received, within', same') =
        inject-receive src_id migrants t
          (upsert_island
            (record { id = ind.id; island_id = s.island_id; generation = 0; individual = ind })
            rows)
          within in
      (s', rows', rw registered injected, rw registered received, within', same' ∙ same)

  abbrev pub AllWithin : List (FunSearchIsland D) → Type 0
  AllWithin islands =
      (j : ℕ) (s : FunSearchIsland D)
      → get_elem? islands j ≡ some s
      → WithinCapacity distances tiny s

  AllWithin-set :
      (islands : List (FunSearchIsland D)) (i : ℕ) (s' : FunSearchIsland D)
      → i < length islands
      → AllWithin islands
      → WithinCapacity distances tiny s'
      → AllWithin (set islands i s')
  AllWithin-set islands i s' h all within j s at = elim (Bool-cases (i == j)) [
    | inl e ↦
        let same : i ≡ j = ground arith in
        subst (WithinCapacity distances tiny)
          (some-injective _ _
            (sym (get_elem?-set_self islands i s' h) ∙ ap (get_elem? (set islands i s')) same ∙ at))
          within
    | inr e ↦
        let apart : i ≢ j = λ same. ground arith in
        all j s (sym (get_elem?-set_ne islands s' apart) ∙ at)
  ]

  -- What the loop from the source `idx` on leaves of `n` islands: a place that is no target stays,
  -- and a target holds what its island received from its source.
  abbrev pub Delivered :
      ℕ
      → ℕ
      → List (ℕ × List (Nsga2Individual D))
      → List (FunSearchIsland D)
      → List (FunSearchIsland D)
      → Type 0
  Delivered n idx sources before after =
      (length after ≡ n)
      × ((j : ℕ)
          → ((k : ℕ) → k < length sources → (idx + k + 1) % n ≢ j)
          → get_elem? after j ≡ get_elem? before j)
      × ((k src_id : ℕ) (migrants : List (Nsga2Individual D)) (s : FunSearchIsland D)
          → get_elem? sources k ≡ some (src_id, migrants)
          → get_elem? before ((idx + k + 1) % n) ≡ some s
          → get_elem? after ((idx + k + 1) % n) ≡ receive src_id migrants s)
      × AllWithin after

  module _ (n idx src_id : ℕ) (migrants : List (Nsga2Individual D))
      (sources : List (ℕ × List (Nsga2Individual D))) (islands after : List (FunSearchIsland D))
      (s s' : FunSearchIsland D) (size : length islands ≡ n) (fits : idx + suc (length sources) ≤ n)
      (inside : (idx + 1) % n < length islands) (at : get_elem? islands ((idx + 1) % n) ≡ some s)
      (received : receive src_id migrants s ≡ some s')
      (delivered : Delivered n (idx + 1) sources (set islands ((idx + 1) % n) s') after) where
    shift : (k : ℕ) → (idx + suc k + 1) % n ≡ (idx + 1 + k + 1) % n
    shift k = let e : idx + suc k + 1 ≡ idx + 1 + k + 1 = omega arith in ap (λ m. m % n) e

    zero_shift : (idx + 0 + 1) % n ≡ (idx + 1) % n
    zero_shift = let e : idx + 0 + 1 ≡ idx + 1 = omega arith in ap (λ m. m % n) e

    untouched :
        (j : ℕ)
        → ((k : ℕ) → k < suc (length sources) → (idx + k + 1) % n ≢ j)
        → get_elem? after j ≡ get_elem? islands j
    untouched j away =
        delivered.1 j (λ k h same. away (suc k) (omega arith) (shift k ∙ same))
        ∙ get_elem?-set_ne islands s' (λ same. away 0 (omega arith) (zero_shift ∙ same))

    arrived : get_elem? after ((idx + 1) % n) ≡ some s'
    arrived =
        delivered.1 ((idx + 1) % n)
          (λ k h same. targets-ne n idx (idx + 1 + k) (omega arith) (omega arith) (sym same))
        ∙ get_elem?-set_self islands ((idx + 1) % n) s' inside

    given :
        (k src : ℕ) (ms : List (Nsga2Individual D)) (t : FunSearchIsland D)
        → get_elem? ((src_id, migrants) ∷ sources) k ≡ some (src, ms)
        → get_elem? islands ((idx + k + 1) % n) ≡ some t
        → get_elem? after ((idx + k + 1) % n) ≡ receive src ms t
    given zero src ms t e h =
        let island : s ≡ t =
          some-injective _ _ (sym at ∙ ap (get_elem? islands) (sym zero_shift) ∙ h) in
        let source : (src_id, migrants) ≡ (src, ms) = some-injective _ _ e in
        ap (get_elem? after) zero_shift
        ∙ arrived
        ∙ sym received
        ∙ ap (λ q. receive q.0 q.1 s) source
        ∙ ap (receive src ms) island
    given (suc k) src ms t e h =
        let bound = get_elem?-bound sources k (src, ms) e in
        ap (get_elem? after) (shift k)
        ∙ delivered.2 k src ms t e (
            get_elem?-set_ne islands s' (targets-ne n idx (idx + 1 + k) (omega arith) (omega arith))
            ∙ ap (get_elem? islands) (sym (shift k))
            ∙ h)

  into :
      (target src_id : ℕ) (migrants : List (Nsga2Individual D)) (islands : List (FunSearchIsland D))
      (rows : List (Stored D)) (s s' : FunSearchIsland D) (rows' : List (Stored D))
      → get_elem? islands target ≡ some s
      → inject distances tiny migrated_id src_id migrants s rows ≡ some (s', rows')
      → inject_into distances tiny migrated_id target src_id migrants islands rows
        ≡ some (set islands target s', rows')
  unfolding inject_into
  into target src_id migrants islands rows s s' rows' at injected = rw at (rw injected refl)

  pub inject_all-Delivered :
      (n idx : ℕ) (sources : List (ℕ × List (Nsga2Individual D)))
      (islands : List (FunSearchIsland D)) (rows : List (Stored D))
      → length islands ≡ n
      → idx + length sources ≤ n
      → AllWithin islands
      → (after : List (FunSearchIsland D)) × (rows' : List (Stored D)) × (inject_all distances tiny
            migrated_id idx sources islands rows
          ≡ some (after, rows'))
        × Delivered n idx sources islands after
  unfolding inject_all
  inject_all-Delivered n idx [] islands rows size fits all =
      (islands, rows, refl, (size, (λ j away. refl), (λ k src_id migrants s e. cc), all))
  inject_all-Delivered n idx ((src_id, migrants) ∷ sources) islands rows size fits all =
      let target = (idx + 1) % n in
      let inside : target < length islands =
        subst (λ m. target < m) (sym size) (mod-lt (idx + 1) (omega arith)) in
      let (s, at) = in_range islands target inside in
      let (s', rows', injected, received, within, same) =
        inject-receive src_id migrants s rows (all target s at) in
      let (after, rows'', later, delivered) =
        inject_all-Delivered n (idx + 1) sources (set islands target s') rows'
          (length-set islands target s' ∙ size) (omega arith)
          (AllWithin-set islands target s' inside all within) in
      (
        after,
        rows'',
        ap
              (λ m.
                inject_into distances tiny migrated_id ((idx + 1) % m) src_id migrants islands rows
                >>= λ (islands', rows').
                    inject_all distances tiny migrated_id (idx + 1) sources islands' rows')
              size
            ∙ ap
                (λ o. o >>= λ (islands', rows').
                  inject_all distances tiny migrated_id (idx + 1) sources islands' rows')
                (into target src_id migrants islands rows s s' rows' at injected)
            ∙ later,
        (
          delivered.0,
          untouched n idx src_id migrants sources islands after s s' size fits inside at received
              delivered,
          given n idx src_id migrants sources islands after s s' size fits inside at received
              delivered,
          delivered.3,
        ),
      )
