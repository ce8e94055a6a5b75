-- ===== src/Evolution/Health.antt =====
-- agent/island_profiler.py: `calculate_phenotypic_entropy` and `profile_island`. The entropy is a
-- number of a type of its own: its zero, the step of its sum (`entropy -= p * math.log2(p)` with
-- `p = count / total`) and its comparison with the threshold are parameters.
pub mod Verdict
use continuous_agent.Prelude.{
  ℕ, suc, ◌+◌, ◌-◌, ◌*◌, max, String, str_eq, Bool, true, false, ◌&&◌, ◌||◌, Option, none, some,
  ◌>>=◌, List, [], ◌∷◌, ◌++◌, map, length, drop, ltb, ◌==◌, if◌then◌else◌,
}
use continuous_agent.Prelude.Int.{ℤ, pos, ◌+ℤ◌, ◌-ℤ◌, leb_ℤ, ltb_ℤ}
use continuous_agent.Prelude.Maps.{find, store}
use mathlib.Core.Option.{get_or}

pub data Action : Type 0 where
  nominal ring_migration cataclysmic_restart : Action

pub record IslandHealth (E : Type 0) : Type 0 where
  pub island_id : ℕ
  pub total_evaluations : ℕ
  pub best_fitness : ℤ
  pub mean_fitness : ℤ × ℕ
  pub phenotypic_entropy : E
  pub is_plateaued : Bool
  pub stagnation_generations : ℕ
  pub suggested_action : Action

-- One evaluation of the history; the signature may be missing.
pub record Evaluation : Type 0 where
  pub fitness : ℤ
  pub phenotype_signature : Option String

unfoldable pub total : List ℤ → ℤ
total [] = pos 0
total (x ∷ xs) = x +ℤ total xs

abbrev pub max_ℤ : ℤ → ℤ → ℤ
max_ℤ a b = if leb_ℤ a b then b else a

abbrev pub min_ℤ : ℤ → ℤ → ℤ
min_ℤ a b = if leb_ℤ b a then b else a

-- `max` and `min` of a list that begins with `x`.
unfoldable pub largest : ℤ → List ℤ → ℤ
largest x [] = x
largest x (y ∷ ys) = max_ℤ x (largest y ys)

unfoldable pub smallest : ℤ → List ℤ → ℤ
smallest x [] = x
smallest x (y ∷ ys) = min_ℤ x (smallest y ys)

-- `counts[p] = counts.get(p, 0) + 1`
unfoldable pub count_phenotypes : List String → List (String × ℕ) → List (String × ℕ)
count_phenotypes [] counts = counts
count_phenotypes (p ∷ ps) counts =
    count_phenotypes ps (store p (get_or (find p counts) 0 + 1) counts)

-- `abs(current_best - past_score) < epsilon`
abbrev pub is_near : ℤ → ℤ → ℤ → Bool
is_near epsilon a b = let d = a -ℤ b in ltb_ℤ (if ltb_ℤ d (pos 0) then pos 0 -ℤ d else d) epsilon

-- The loop over the earlier scores, the latest first.
unfoldable pub count_stagnant : ℤ → ℤ → List ℤ → ℕ
count_stagnant epsilon current [] = 0
count_stagnant epsilon current (past ∷ earlier) =
    let rest = count_stagnant epsilon current earlier in
    if is_near epsilon current past then suc rest else 0

abbrev pub reverse {ℓ} : {A : Type ℓ} → List A → List A → List A
reverse [] acc = acc
reverse (x ∷ xs) acc = reverse xs (x ∷ acc)

-- `history[-window_size:]`
abbrev pub last_of {ℓ} : {A : Type ℓ} → ℕ → List A → List A
last_of window xs = if window == 0 then xs else drop (length xs - window) xs

abbrev pub fitness_of : Evaluation → ℤ
fitness_of h = h.fitness

abbrev pub signature_of : Evaluation → String
signature_of h = get_or h.phenotype_signature "unknown"

abbrev pub choose_action : ℕ → ℕ → Bool → Bool → Action
choose_action stagnation window stagnant collapsed =
    if ltb (window * 2) stagnation && collapsed
    then cataclysmic_restart
    else if stagnant || collapsed
    then ring_migration
    else nominal

module _ {E : Type 0} (zero_entropy one_entropy : E) (add_term : E → ℕ → ℕ → E) where
  unfoldable pub add_terms : ℕ → E → List (String × ℕ) → E
  add_terms n entropy [] = entropy
  add_terms n entropy ((p, count) ∷ counts) = add_terms n (add_term entropy count n) counts

  unfoldable pub calculate_phenotypic_entropy : List String → E
  unfolding add_terms count_phenotypes
  calculate_phenotypic_entropy phenotypes =
      add_terms (length phenotypes) zero_entropy (count_phenotypes phenotypes [])

  module _ (below_threshold : E → Bool) (window_size : ℕ) (epsilon : ℤ) (island_id : ℕ) where
    -- Fewer evaluations than the window.
    abbrev pub young : List ℤ → IslandHealth E
    young [] = record {
      island_id = island_id;
      total_evaluations = 0;
      best_fitness = pos 0;
      mean_fitness = (pos 0, 1);
      phenotypic_entropy = one_entropy;
      is_plateaued = false;
      stagnation_generations = 0;
      suggested_action = nominal;
    }
    young (f ∷ fs) = record {
      island_id = island_id;
      total_evaluations = suc (length fs);
      best_fitness = largest f fs;
      mean_fitness = (total (f ∷ fs), suc (length fs));
      phenotypic_entropy = one_entropy;
      is_plateaued = false;
      stagnation_generations = 0;
      suggested_action = nominal;
    }

    -- `none`: `min` of an empty window. The scores come as the window's and all, the latest first.
    abbrev pub full : List ℤ → List ℤ → E → Option (IslandHealth E)
    full [] past entropy = none
    full (f ∷ fs) [] entropy = none
    full (f ∷ fs) (current_best ∷ past) entropy =
        let stagnant = ltb_ℤ (largest f fs -ℤ smallest f fs) epsilon in
        let collapsed = below_threshold entropy in
        let stagnation = count_stagnant epsilon current_best past in
        some (record {
          island_id = island_id;
          total_evaluations = suc (length past);
          best_fitness = largest current_best past;
          mean_fitness = (total (f ∷ fs), suc (length fs));
          phenotypic_entropy = entropy;
          is_plateaued = stagnant || collapsed;
          stagnation_generations = stagnation;
          suggested_action = choose_action stagnation window_size stagnant collapsed;
        })

    unfoldable pub profile_island : List Evaluation → Option (IslandHealth E)
    unfolding total largest smallest count_stagnant calculate_phenotypic_entropy
    profile_island history =
        if ltb (length history) window_size
        then some (young (map fitness_of history))
        else full (map fitness_of (last_of window_size history))
            (reverse (map fitness_of history) [])
            (calculate_phenotypic_entropy (map signature_of (last_of window_size history)))
