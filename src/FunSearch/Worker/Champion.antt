-- ===== src/FunSearch/Worker/Champion.antt =====
-- agent/funsearch_service.py: the champion of the service.
use continuous_agent.Prelude.{
  ℕ, zero, suc, ◌≡◌, refl, sym, subst, String, Bool, true, false, ◌&&◌, Bool-cases, Option, none,
  some, some-injective, List, [], ◌∷◌, map, get_elem?, set, arith, inl, inr, ◌⊎◌, if◌then◌else◌,
}
use continuous_agent.Prelude.Int.{ℤ, pos, ltb_ℤ, ◌≤ℤ◌}
use continuous_agent.Prelude.Maps.{find}
use continuous_agent.Evolution.Nsga.{Distances}
use continuous_agent.Evolution.Cluster.{Program, Island, exceeds, replaces, add_program}
use continuous_agent.FunSearch.{FunSearchIsland}
use continuous_agent.FunSearch.Worker.{
  Service, Diagnosis, Event, to_start, to_stop, to_evaluate, filed, program_of, accept_on,
  evaluated, start, stop, handle, handle_all, new_island,
}

-- A best fitness, if there is one, is at most this.
abbrev pub AtMost : Option ℤ → ℤ → Type 0
AtMost none top = Unit
AtMost (some best) top = best ≤ℤ top

AtMost-max :
    (best : Option ℤ) (top fitness : ℤ)
    → AtMost best top
    → AtMost best (if ltb_ℤ top fitness then fitness else top)
AtMost-max none top fitness h = tt
AtMost-max (some best) top fitness h = ground arith

AtMost-new :
    (best : Option ℤ) (top fitness : ℤ)
    → AtMost best top
    → AtMost
        (if exceeds fitness best then some fitness else best)
        (if ltb_ℤ top fitness then fitness else top)
AtMost-new none top fitness h = ground arith
AtMost-new (some best) top fitness h = ground arith

add_program-best :
    {Strategy : Type 0} (isclose : ℤ → ℤ → Bool) (program : Program) (s : Island Strategy)
    → (add_program isclose program s).0.best_fitness
      ≡ (if exceeds program.fitness s.best_fitness then some program.fitness else s.best_fitness)
unfolding add_program
add_program-best isclose program s =
    elim (Bool-cases (replaces isclose program (find program.signature s.clusters))) [
      | inl e ↦ rw e refl
      | inr e ↦ rw e refl
    ]

module _ {Strategy : Type 0} where
  -- No island has a better program than the top.
  abbrev pub Capped : ℤ → List (Island Strategy) → Type 0
  Capped top [] = Unit
  Capped top (s ∷ islands) = AtMost s.best_fitness top × Capped top islands

  Capped-max :
      (top fitness : ℤ) (islands : List (Island Strategy))
      → Capped top islands
      → Capped (if ltb_ℤ top fitness then fitness else top) islands
  Capped-max top fitness [] h = tt
  Capped-max top fitness (s ∷ islands) (h, hs) =
      (AtMost-max s.best_fitness top fitness h, Capped-max top fitness islands hs)

  Capped-at :
      (top : ℤ) (islands : List (Island Strategy)) (i : ℕ) (s : Island Strategy)
      → Capped top islands
      → get_elem? islands i ≡ some s
      → AtMost s.best_fitness top
  Capped-at top [] i s h at = cc
  Capped-at top (q ∷ islands) zero s (h, hs) at =
      subst (λ x. AtMost x.best_fitness top) (some-injective _ _ at) h
  Capped-at top (q ∷ islands) (suc i) s (h, hs) at = Capped-at top islands i s hs at

  Capped-set :
      (top : ℤ) (islands : List (Island Strategy)) (i : ℕ) (s : Island Strategy)
      → Capped top islands
      → AtMost s.best_fitness top
      → Capped top (set islands i s)
  Capped-set top [] i s h k = h
  Capped-set top (q ∷ islands) zero s (h, hs) k = (k, hs)
  Capped-set top (q ∷ islands) (suc i) s (h, hs) k = (h, Capped-set top islands i s hs k)

crowned_by :
    (better : Bool) (prog c : Program) (champion : Option Program) (top : ℤ)
    → champion ≡ some c
    → c.fitness ≡ top
    → (c' : Program) × ((if better then some prog else champion) ≡ some c')
      × (c'.fitness ≡ (if better then prog.fitness else top))
crowned_by true prog c champion top e h = (prog, refl, refl)
crowned_by false prog c champion top e h = (c, e, h)

module _ {Strategy D : Type 0} where
  -- The champion has the top fitness, which no island exceeds.
  abbrev pub IsCrowned : Service Strategy D → Type 0
  IsCrowned s =
      (c : Program) × (s.champion_program ≡ some c)
      × (c.fitness ≡ s.top_fitness_score)
      × Capped s.top_fitness_score s.cluster_islands

module _ {Strategy D : Type 0} (distances : Distances D) (tiny : ℤ) (isclose : ℤ → ℤ → Bool)
    (heuristic_id : ℕ → ℕ → String → String) (char_length : String → ℕ) where
  filed-IsCrowned :
      (o : Option (FunSearchIsland D)) (i generation : ℕ) (h_id : String) (s : Service Strategy D)
      → IsCrowned s
      → IsCrowned (filed distances tiny isclose heuristic_id char_length o i generation h_id s)
  filed-IsCrowned none i generation h_id s h = h
  filed-IsCrowned (some isl) i generation h_id s h = h

  accept_on-IsCrowned :
      (found : Option (Island Strategy)) (i : ℕ) (code : String) (diag : Diagnosis) (fp : String)
      (s : Service Strategy D)
      → get_elem? s.cluster_islands i ≡ found
      → IsCrowned s
      → IsCrowned (accept_on distances tiny isclose heuristic_id char_length found i code diag fp s)
  accept_on-IsCrowned none i code diag fp s at h = h
  accept_on-IsCrowned (some island) i code diag fp s at (c, champion, same, capped) =
      let prog = program_of distances tiny isclose heuristic_id char_length i code diag fp island in
      let top = s.top_fitness_score in
      let better = ltb_ℤ top prog.fitness in
      let (c', champion', same') = crowned_by better prog c s.champion_program top champion same in
      filed-IsCrowned _ i _ _ _ (
        c',
        champion',
        same',
        Capped-set (if better then prog.fitness else top) s.cluster_islands i _
            (Capped-max top prog.fitness s.cluster_islands capped)
            (subst (λ best. AtMost best (if better then prog.fitness else top))
              (sym (add_program-best isclose prog island))
              (AtMost-new island.best_fitness top prog.fitness
                (Capped-at top s.cluster_islands i island capped at))),
      )

  evaluated-IsCrowned :
      (i : ℕ) (code : String) (diag : Diagnosis) (fp : Option String) (s : Service Strategy D)
      → IsCrowned s
      → IsCrowned (evaluated distances tiny isclose heuristic_id char_length i code diag fp s)
  unfolding evaluated
  evaluated-IsCrowned i code diag none s h = h
  evaluated-IsCrowned i code diag (some fp) s h =
      elim (Bool-cases (diag.success && ltb_ℤ (pos 0) diag.fitness)) [
        | inl e ↦ rw e (accept_on-IsCrowned (get_elem? s.cluster_islands i) i code diag fp s refl h)
        | inr e ↦ rw e h
      ]

  seeded :
      (seed : Program) (strategies : List Strategy)
      → Capped seed.fitness
          (map (λ strategy. (add_program isclose seed (new_island strategy)).0) strategies)
  unfolding add_program
  seeded seed [] = tt
  seeded seed (strategy ∷ strategies) = (omega arith, seeded seed strategies)

  start-IsCrowned :
      (seed : Program) (strategies : List Strategy) (s : Service Strategy D)
      → (s.is_running ≡ false) ⊎ IsCrowned s
      → IsCrowned (start distances tiny isclose heuristic_id char_length seed strategies s)
  unfolding start
  start-IsCrowned seed strategies s h = elim (Bool-cases s.is_running) [
    | inl e ↦ rw e (was_running e h)
    | inr e ↦ rw e (seed, refl, refl, seeded seed strategies)
  ]
    where
      was_running : s.is_running ≡ true → (s.is_running ≡ false) ⊎ IsCrowned s → IsCrowned s
      was_running e (inl off) = cc
      was_running e (inr crowned) = crowned

  handle-IsCrowned :
      (e : Event Strategy) (s : Service Strategy D)
      → IsCrowned s
      → IsCrowned (handle distances tiny isclose heuristic_id char_length e s)
  unfolding stop
  handle-IsCrowned (to_start seed strategies) s h = start-IsCrowned seed strategies s (inr h)
  handle-IsCrowned to_stop s h = h
  handle-IsCrowned (to_evaluate i code diag fp) s h = evaluated-IsCrowned i code diag fp s h

  kept :
      (events : List (Event Strategy)) (s : Service Strategy D)
      → IsCrowned s
      → IsCrowned (handle_all distances tiny isclose heuristic_id char_length events s)
  unfolding handle_all
  kept [] s h = h
  kept (e ∷ events) s h =
      kept events (handle distances tiny isclose heuristic_id char_length e s)
        (handle-IsCrowned e s h)

  -- From the start of a service that was not running, through whatever evaluations, stops and
  -- starts: there is a champion, its fitness is the top score, and no island of clusters has a best
  -- fitness above it.
  pub handle_all-IsCrowned :
      (seed : Program) (strategies : List Strategy) (events : List (Event Strategy))
      (s : Service Strategy D)
      → s.is_running ≡ false
      → IsCrowned (
          handle_all distances tiny isclose heuristic_id char_length events
            (start distances tiny isclose heuristic_id char_length seed strategies s))
  handle_all-IsCrowned seed strategies events s idle =
      kept events _ (start-IsCrowned seed strategies s (inl idle))
