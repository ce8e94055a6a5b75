-- ===== src/Cegis.antt =====
-- agent/dynamic_suite.py and cegis_loop.py: the probes that counterexamples add, and the loop around
-- the verifier and the simulation. Sizes are thousandths; `round(x, 1)` is a parameter.
pub mod Probes
mod Examples
use continuous_agent.Prelude.{
  ℕ, zero, suc, ◌*◌, Bool, true, false, ◌&&◌, Option, none, some, List, [], ◌∷◌, ◌++◌, map,
  replicate, if◌then◌else◌,
}
use continuous_agent.Prelude.Int.{ℤ, pos, ◌-ℤ◌, leb_ℤ, ltb_ℤ}

pub record Suite : Type 0 where
  pub static_probes : List (List ℤ)
  pub counterexample_probes : List (List ℤ)

abbrev pub whole : ℕ → ℤ
whole n = pos (n * 1000)

-- `DynamicDiagnosticSuite.__init__`
abbrev pub new_suite : Suite
new_suite = record {
  static_probes =
      map whole (10 ∷ 20 ∷ 30 ∷ 40 ∷ 15 ∷ 25 ∷ 35 ∷ 5 ∷ 45 ∷ 10 ∷ [])
      ∷ map whole (50 ∷ 40 ∷ 30 ∷ 20 ∷ 10 ∷ 5 ∷ 15 ∷ 25 ∷ 35 ∷ 45 ∷ [])
      ∷ map whole (replicate 20 5)
      ∷ map whole (30 ∷ 30 ∷ 30 ∷ 10 ∷ 10 ∷ 10 ∷ 50 ∷ 50 ∷ [])
      ∷ [];
  counterexample_probes = [];
}

unfoldable pub get_probes : Suite → List (List ℤ)
get_probes s = s.static_probes ++ s.counterexample_probes

abbrev pub larger : ℤ → ℤ → ℤ
larger a b = if leb_ℤ a b then b else a

abbrev pub smaller : ℤ → ℤ → ℤ
smaller a b = if leb_ℤ a b then a else b

-- `==` of two lists of sizes, and `in`.
unfoldable pub eq_seq : List ℤ → List ℤ → Bool
eq_seq [] [] = true
eq_seq (x ∷ xs) (y ∷ ys) = (leb_ℤ x y && leb_ℤ y x) && eq_seq xs ys
eq_seq [] (y ∷ ys) = false
eq_seq (x ∷ xs) [] = false

unfoldable pub is_in : List ℤ → List (List ℤ) → Bool
unfolding eq_seq
is_in seq [] = false
is_in seq (p ∷ ps) = if eq_seq seq p then true else is_in seq ps

module _ (round1 : ℤ → ℤ) where
  abbrev pub probe_item : ℤ → ℤ
  probe_item item = round1 (larger (whole 1) (smaller (whole 99) item))

  abbrev pub probe_cap : ℤ → ℤ → ℤ
  probe_cap val bin_capacity = round1 (larger val (smaller (whole 100) bin_capacity))

  abbrev pub sequence_of : ℤ → ℤ → List ℤ
  sequence_of val complement =
      if ltb_ℤ (pos 0) complement
      then complement ∷ val ∷ val ∷ round1 (whole 100 -ℤ val) ∷ []
      else val ∷ round1 (whole 100 -ℤ val) ∷ val ∷ []

  -- `adversarial_seq`, for the item and the capacity of a counterexample.
  unfoldable pub adversarial_seq : ℤ → ℤ → List ℤ
  adversarial_seq item bin_capacity =
      let val = probe_item item in sequence_of val (round1 (probe_cap val bin_capacity -ℤ val))

  unfoldable pub register_counterexample : ℤ → ℤ → Suite → Suite
  unfolding adversarial_seq is_in
  register_counterexample item bin_capacity s =
      let seq = adversarial_seq item bin_capacity in
      if is_in seq s.counterexample_probes then s else record {
        static_probes = s.static_probes;
        counterexample_probes = s.counterexample_probes ++ seq ∷ [];
      }

  -- What the loop does with the verifier's answer.
  abbrev pub inject : Bool → Option (ℤ × ℤ) → Suite → Suite
  inject false (some (item, cap)) s = register_counterexample item cap s
  inject false none s = s
  inject true ce s = s

  -- The verifier's answer on `current_code`, and the score of it on a data set (0.0 on an exception).
  module _ (is_verified : Bool) (counterexample : Option (ℤ × ℤ)) (score : List (List ℤ) → ℤ)
      (target_fitness : ℤ) where
    -- The score that `run_cegis_funsearch` returns, and the suite that it leaves.
    unfoldable pub run_cegis_funsearch : ℕ → Suite → ℤ × Suite
    unfolding register_counterexample get_probes
    run_cegis_funsearch zero s = (pos 0, s)
    run_cegis_funsearch (suc iterations) s =
        let s' = inject is_verified counterexample s in
        let rest = run_cegis_funsearch iterations s' in
        if leb_ℤ target_fitness (score (get_probes s')) && is_verified
        then (score (get_probes s'), s')
        else rest
