-- ===== src/FunSearch/Sampling.antt =====
-- agent/adaptive_sampling.py, agent/adaptive_temperature.py, and their use by the islands of
-- agent/funsearch_service.py. Temperatures and top_p are thousandths, to which the code rounds them.
-- Entropies are a parameter, with the test that one reaches the target and with the boost that its
-- deficit gives over a range, `(max - min) * deficit ** gamma`, rounded as the result is; for an
-- entropy that is not negative both files have the same deficit.
use continuous_agent.Prelude.{
  ℕ, zero, suc, String, map, ◌>>=◌, ◌+◌, ◌-◌, ◌≤◌, ◌<◌, ◌≡◌, refl, min, max, Bool, false, ◌||◌, not,
  Bool-cases, Option, some, List, [], ◌∷◌, ◌++◌, leb, ◌==◌, length, if◌then◌else◌, inl, inr, arith,
}
use continuous_agent.Prelude.Int.{ℤ}
use continuous_agent.Prelude.Sort.{filter}
use continuous_agent.Evolution.Nsga.{Distances, Nsga2Individual}
use continuous_agent.Evolution.Nsga.Crowding.{assign_crowding_distance, crowded_tournament_select}
use continuous_agent.FunSearch.{FunSearchIsland, fronts_of, join, latest, with_individuals}

pub record SamplingPolicy : Type 0 where
  pub temperature : ℕ
  pub top_p : ℕ
  pub beam_width : ℕ

-- The range and the exponent of one of the three, the exponent in hundredths.
pub record Range : Type 0 where
  pub least : ℕ
  pub most : ℕ
  pub gamma : ℕ

-- The default `AdaptiveSamplingConfig`, but for `h_target`.
abbrev pub for_temperature : Range
for_temperature = record { least = 200; most = 950; gamma = 150 }

abbrev pub for_top_p : Range
for_top_p = record { least = 700; most = 980; gamma = 120 }

abbrev pub for_beam_width : Range
for_beam_width = record { least = 1; most = 4; gamma = 100 }

-- A move that `supervisor_policy_audit` records.
pub record Transition (E : Type 0) : Type 0 where
  pub island_id : ℕ
  pub entropy : E
  pub old_policy : SamplingPolicy
  pub new_policy : SamplingPolicy

-- The size of a difference.
abbrev pub gap : ℕ → ℕ → ℕ
gap a b = (a - b) + (b - a)

module _ {E : Type 0} (reaches_target : E → Bool) (boost : Range → E → ℕ) where
  -- `min(max(least + boost, least), most)`
  abbrev pub scale : Range → E → ℕ
  scale r entropy = min (max (r.least + boost r entropy) r.least) r.most

  unfoldable pub calculate_adaptive_policy : E → SamplingPolicy
  calculate_adaptive_policy entropy =
      if reaches_target entropy
      then record {
        temperature = for_temperature.least;
        top_p = for_top_p.least;
        beam_width = for_beam_width.least;
      }
      else record {
        temperature = scale for_temperature entropy;
        top_p = scale for_top_p entropy;
        beam_width = scale for_beam_width entropy;
      }

  unfoldable pub calculate_adaptive_temperature : E → ℕ
  calculate_adaptive_temperature entropy =
      if reaches_target entropy then for_temperature.least else scale for_temperature entropy

  -- `temp_delta >= 0.05 or top_p_delta >= 0.05 or beam_changed`
  abbrev pub has_moved : SamplingPolicy → SamplingPolicy → Bool
  has_moved new_policy current =
      leb 50 (gap new_policy.temperature current.temperature)
      || (leb 50 (gap new_policy.top_p current.top_p)
          || not (new_policy.beam_width == current.beam_width))

  -- `update_and_audit_policy` of an island at this entropy: its policy, and the audit.
  unfoldable pub update_and_audit_policy :
      ℕ → E → SamplingPolicy → List (Transition E) → SamplingPolicy × List (Transition E)
  unfolding calculate_adaptive_policy
  update_and_audit_policy island_id entropy current audit =
      let new_policy = calculate_adaptive_policy entropy in
      if has_moved new_policy current
      then (
        new_policy,
        audit
            ++ record {
              island_id = island_id;
              entropy = entropy;
              old_policy = current;
              new_policy = new_policy;
            }
              ∷ [],
      )
      else (current, audit)

module _ {D : Type 0} (distances : Distances D) (tiny : ℤ)
    (sample : ℕ → List (Nsga2Individual D) → Nsga2Individual D × List (Nsga2Individual D)) where
  -- One tournament for each of so many rounds, on what `random.sample` gives in it.
  unfoldable pub winners : ℕ → List (Nsga2Individual D) → List (Nsga2Individual D)
  winners zero population = []
  winners (suc count) population =
      let (best, candidates) = sample count population in
      crowded_tournament_select distances best candidates ∷ winners count population

  -- The exemplars, and the island with its ranks and distances updated.
  unfoldable pub sample_prompt_exemplars :
      ℕ → FunSearchIsland D → Option (List (Nsga2Individual D) × FunSearchIsland D)
  sample_prompt_exemplars count s =
      if leb (length s.individuals) count
      then some (s.individuals, s)
      else (fronts_of s.individuals >>= λ fronts.
          let assigned = join (map (assign_crowding_distance distances tiny) fronts) in
          let population = map (latest assigned) s.individuals in
          some (winners count population, with_individuals population s))

-- The candidates of a beam that `step_mutation_beam_audited` accepts, by `"def " in code or "return"
-- in code`, and the number of the others.
unfoldable pub review_candidates : (String → Bool) → List String → List String × ℕ
unfolding filter
review_candidates has_definition raw_candidates =
    let accepted = filter has_definition raw_candidates in
    (accepted, length raw_candidates - length accepted)

-- What two policies have when neither has moved from the other.
abbrev pub IsNear : SamplingPolicy → SamplingPolicy → Type 0
IsNear a b =
    (gap a.temperature b.temperature < 50)
    × (gap a.top_p b.top_p < 50)
    × (a.beam_width ≡ b.beam_width)

abbrev pub IsInRange : SamplingPolicy → Type 0
IsInRange a =
    (200 ≤ a.temperature)
    × (a.temperature ≤ 950)
    × (700 ≤ a.top_p)
    × (a.top_p ≤ 980)
    × (1 ≤ a.beam_width)
    × (a.beam_width ≤ 4)

module _ {E : Type 0} (reaches_target : E → Bool) (boost : Range → E → ℕ) where
  scale_least : (a b c : ℕ) → b ≤ c → b ≤ min (max a b) c
  scale_least a b c h = ground arith

  scale_most : (a b c : ℕ) → min (max a b) c ≤ c
  scale_most a b c = ground arith

  scaled-IsInRange :
      (entropy : E) → IsInRange (calculate_adaptive_policy reaches_target boost entropy)
  unfolding calculate_adaptive_policy
  scaled-IsInRange entropy = elim (Bool-cases (reaches_target entropy)) [
    | inl e ↦ rw e (omega arith, omega arith, omega arith, omega arith, omega arith, omega arith)
    | inr e ↦ rw e (
      scale_least (200 + boost for_temperature entropy) 200 950 (omega arith),
      scale_most (200 + boost for_temperature entropy) 200 950,
      scale_least (700 + boost for_top_p entropy) 700 980 (omega arith),
      scale_most (700 + boost for_top_p entropy) 700 980,
      scale_least (1 + boost for_beam_width entropy) 1 4 (omega arith),
      scale_most (1 + boost for_beam_width entropy) 1 4,
    )
  ]

  gap_self : (a : ℕ) → gap a a < 50
  gap_self a = omega arith

  still-IsNear :
      (new current : SamplingPolicy)
      → has_moved reaches_target boost new current ≡ false
      → IsNear new current
  still-IsNear new current e =
      parts (gap new.temperature current.temperature) (gap new.top_p current.top_p) new.beam_width
        current.beam_width e
    where
      parts :
          (a b c d : ℕ)
          → (leb 50 a || (leb 50 b || not (c == d))) ≡ false
          → (a < 50) × (b < 50) × (c ≡ d)
      parts a b c d e = (ground arith, ground arith, ground arith)

  -- What an island calculates is in the configured ranges at every entropy, and the policy it goes on
  -- with is near that: its temperature and top_p are less than 0.05 off, and its beam is as wide.
  pub update_and_audit_policy-IsNear :
      (island_id : ℕ) (entropy : E) (current : SamplingPolicy) (audit : List (Transition E))
      → let new = calculate_adaptive_policy reaches_target boost entropy in
        let (policy, audit') =
          update_and_audit_policy reaches_target boost island_id entropy current audit in
        IsInRange new × IsNear new policy
  unfolding update_and_audit_policy
  update_and_audit_policy-IsNear island_id entropy current audit =
      let new = calculate_adaptive_policy reaches_target boost entropy in
      (
        scaled-IsInRange entropy,
        elim (Bool-cases (has_moved reaches_target boost new current)) [
          | inl e ↦ rw e (gap_self new.temperature, gap_self new.top_p, refl)
          | inr e ↦ rw e (still-IsNear new current e)
        ],
      )
