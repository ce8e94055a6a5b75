-- ===== src/Evolution/Cluster/Invariant.antt =====
-- agent/restartable_island.py: what stays true of an island.
use continuous_agent.Prelude.{
  ℕ, ◌+◌, ◌*◌, ◌≤◌, ◌≡◌, refl, sym, ◌∙◌, String, str_eq, eq_iff, Bool, Bool-cases, false, Option,
  none, some, List, [], ◌∷◌, length, leb, if◌then◌else◌, arith, ◌<◌, ◌⊎◌, inl, inr,
}
use continuous_agent.Prelude.Int.{ℤ, ◌≤ℤ◌}
use continuous_agent.Prelude.Maps.{find, store}
use continuous_agent.Evolution.Cluster.{
  Program, Island, exceeds, set_inbox, replaces, add_program, ingest, drain_inbox, warmer,
  check_stagnation_and_adapt,
}

-- The best fitness is at least this.
abbrev pub AtMostBest : ℤ → Option ℤ → Type 0
AtMostBest fitness none = ⊥
AtMostBest fitness (some best) = fitness ≤ℤ best

-- Each cluster is filed under the signature of its program, whose fitness is at most the best.
abbrev pub IsFiled : Option ℤ → List (String × Program) → Type 0
IsFiled best [] = Unit
IsFiled best ((sig, program) ∷ clusters) =
    (program.signature ≡ sig) × AtMostBest program.fitness best × IsFiled best clusters

AtMostBest-grow :
    (x fitness : ℤ) (best : Option ℤ)
    → AtMostBest x best
    → AtMostBest x (if exceeds fitness best then some fitness else best)
AtMostBest-grow x fitness none h = absurd h
AtMostBest-grow x fitness (some best) h = ground arith

AtMostBest-new :
    (fitness : ℤ) (best : Option ℤ)
    → AtMostBest fitness (if exceeds fitness best then some fitness else best)
AtMostBest-new fitness none = omega arith
AtMostBest-new fitness (some best) = ground arith

IsFiled-grow :
    (fitness : ℤ) (best : Option ℤ) (clusters : List (String × Program))
    → IsFiled best clusters
    → IsFiled (if exceeds fitness best then some fitness else best) clusters
IsFiled-grow fitness best [] h = tt
IsFiled-grow fitness best ((sig, program) ∷ clusters) (filed, low, hs) =
    (filed, AtMostBest-grow program.fitness fitness best low, IsFiled-grow fitness best clusters hs)

IsFiled-store :
    (best : Option ℤ) (program : Program) (clusters : List (String × Program))
    → AtMostBest program.fitness best
    → IsFiled best clusters
    → IsFiled best (store program.signature program clusters)
IsFiled-store best program [] low h = (refl, low, tt)
IsFiled-store best program ((sig, p) ∷ clusters) low (filed, old, hs) =
    elim (Bool-cases (str_eq sig program.signature)) [
      | inl e ↦ rw e (sym ((eq_iff sig program.signature).0 e), low, hs)
      | inr e ↦ rw e (filed, old, IsFiled-store best program clusters low hs)
    ]

warmer-bound : (t : ℕ × ℕ) → 2 * (warmer t).0 ≤ 5 * (warmer t).1
warmer-bound (num, den) = ground arith

module _ {Strategy : Type 0} (isclose : ℤ → ℤ → Bool) where
  abbrev pub IsSound : Island Strategy → Type 0
  IsSound s = IsFiled s.best_fitness s.clusters

  add_program-IsSound :
      (program : Program) (s : Island Strategy)
      → IsSound s
      → IsSound (add_program isclose program s).0
  unfolding add_program
  add_program-IsSound program s h =
      let grown = IsFiled-grow program.fitness s.best_fitness s.clusters h in
      elim (Bool-cases (replaces isclose program (find program.signature s.clusters))) [
        | inl e ↦ rw e (
            IsFiled-store _ program s.clusters (AtMostBest-new program.fitness s.best_fitness)
              grown)
        | inr e ↦ rw e grown
      ]

  add_program_lem :
      (program : Program) (s : Island Strategy)
      → ((add_program isclose program s).0.inbox ≡ s.inbox)
        × ((add_program isclose program s).0.generation_count ≡ s.generation_count + 1)
  unfolding add_program
  add_program_lem program s =
      elim (Bool-cases (replaces isclose program (find program.signature s.clusters))) [
        | inl e ↦ rw e (refl, refl)
        | inr e ↦ rw e (refl, refl)
      ]

  ingest_lem :
      (programs : List Program) (n : ℕ) (s : Island Strategy)
      → IsSound s
      → let r = ingest isclose programs n s in
        IsSound r.0
        × (r.1 ≤ n + length programs)
        × (r.0.inbox ≡ s.inbox)
        × (r.0.generation_count ≡ s.generation_count + length programs)
  unfolding ingest
  ingest_lem [] n s h = (h, omega arith, refl, omega arith)
  ingest_lem (program ∷ programs) n s h =
      let r = add_program isclose program s in
      let (sound, few, box, count) =
        ingest_lem programs (if r.1.0 then n + 1 else n) r.0 (add_program-IsSound program s h) in
      let (same, counted) = add_program_lem program s in
      (sound, ground arith, box ∙ same, omega arith)

  -- Draining the inbox empties it and leaves the clusters filed by signature, none above the best
  -- fitness. It counts every program as a generation, and ingests at most all of them.
  pub drain_inbox-IsSound :
      (s : Island Strategy)
      → IsSound s
      → let r = drain_inbox isclose s in
        IsSound r.0
        × (r.0.inbox ≡ [])
        × (r.1 ≤ length s.inbox)
        × (r.0.generation_count ≡ s.generation_count + length s.inbox)
  unfolding drain_inbox
  drain_inbox-IsSound s h =
      let (sound, few, box, count) = ingest_lem s.inbox 0 (set_inbox [] s) h in
      (sound, box, omega arith, count)

-- Once the island has looked for stagnation, it has gone fewer generations without improvement
-- than its positive limit allows; its clusters and its best fitness are as they were; and where it
-- shifted its strategy, its temperature is at most 2.5.
pub check_stagnation_and_adapt-bounds :
    {Strategy : Type 0} (mutate_strategy : Strategy → Strategy) (s : Island Strategy)
    → 0 < s.stagnation_limit
    → let r = check_stagnation_and_adapt mutate_strategy s in
      (r.0.generations_without_improvement < s.stagnation_limit)
      × (r.0.clusters ≡ s.clusters)
      × (r.0.best_fitness ≡ s.best_fitness)
      × ((r.1 ≡ false) ⊎ (2 * r.0.temperature.0 ≤ 5 * r.0.temperature.1))
unfolding check_stagnation_and_adapt
check_stagnation_and_adapt-bounds mutate_strategy s positive =
    elim (Bool-cases (leb s.stagnation_limit s.generations_without_improvement)) [
      | inl e ↦ rw e (positive, refl, refl, inr (warmer-bound s.temperature))
      | inr e ↦ rw e (ground arith, refl, refl, inl refl)
    ]
