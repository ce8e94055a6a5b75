-- ===== src/Packing/Wasm/Agreement.antt =====
-- agent/wasm_sandbox.py against problem.py: with enough fuel, the two simulations agree.
use continuous_agent.Prelude.{
  ℕ, zero, suc, ◌+◌, ◌≤◌, ◌≡◌, refl, ap, Bool-cases, Option, none, some, List, [], ◌∷◌, length,
  length-append, arith, inl, inr,
}
use continuous_agent.Prelude.Int.{ℤ, pos, ◌+ℤ◌, ◌-ℤ◌, leb_ℤ}
use continuous_agent.Packing.{
  Scores, Best, lower, sum, start, put, choose, place, pack, simulate, run_simulation,
}
use continuous_agent.Packing.Wasm.{
  improve, choose_or_trap, put_wasm, pack_or_trap, simulate_or_trap, score_benchmark_wasm,
}

-- The fuel of so many calls, of one sequence on that many bins, and of all sequences: each item is
-- offered to each bin, and opens at most one.
abbrev pub times : ℕ → ℕ → ℕ
times cost zero = 0
times cost (suc n) = cost + times cost n

abbrev pub sequence_fuel : ℕ → ℕ → List ℤ → ℕ
sequence_fuel cost n [] = 0
sequence_fuel cost n (item ∷ seq) = times cost n + sequence_fuel cost (suc n) seq

abbrev pub fuel_for : ℕ → List (List ℤ) → ℕ
fuel_for cost [] = 0
fuel_for cost (seq ∷ sequences) = sequence_fuel cost 0 seq + fuel_for cost sequences

times_mono : (cost m n : ℕ) → m ≤ n → times cost m ≤ times cost n
times_mono cost zero n h = omega arith
times_mono cost (suc m) zero h = absurd (omega arith)
times_mono cost (suc m) (suc n) h =
    let rest = times_mono cost m n (omega arith) in omega (arith, rest)

length-lower : (i : ℕ) (item : ℤ) (bins : List ℤ) → length (lower i item bins) ≡ length bins
unfolding lower
length-lower zero item [] = refl
length-lower (suc i) item [] = refl
length-lower zero item (cap ∷ bins) = refl
length-lower (suc i) item (cap ∷ bins) = ap suc (length-lower i item bins)

-- The exported function does what the heuristic does, at no more than that cost a call, while it has
-- the fuel.
pub record Answers {S : Type 0} (priority_fn : ℕ → ℤ → ℤ → Option (S × ℕ))
    (priority : ℤ → ℤ → Option S) (cost : ℕ) : Type 0 where
  pub answers :
      (fuel : ℕ) (item cap : ℤ)
      → cost ≤ fuel
      → (score : S) × (left : ℕ) × (priority_fn fuel item cap ≡ some (score, left))
        × (priority item cap ≡ some score)
        × (fuel ≤ left + cost)

module _ {S : Type 0} (scores : Scores S) (priority_fn : ℕ → ℤ → ℤ → Option (S × ℕ))
    (priority : ℤ → ℤ → Option S) (cost : ℕ) (same : Answers priority_fn priority cost) where
  choose_or_trap-choose :
      (item : ℤ) (idx : ℕ) (bins : List ℤ) (fuel : ℕ) (b : Best S)
      → times cost (length bins) ≤ fuel
      → (left : ℕ) × (choose_or_trap scores priority_fn item idx bins fuel b
          ≡ some (choose scores priority item idx bins b, left))
        × (fuel ≤ left + times cost (length bins))
  unfolding choose_or_trap choose
  choose_or_trap-choose item idx [] fuel b enough = (fuel, refl, omega arith)
  choose_or_trap-choose item idx (cap ∷ bins) fuel b enough = elim (Bool-cases (leb_ℤ item cap)) [
    | inl fits ↦
        let (score, left, called, valued, spent) = same.answers fuel item cap (omega arith) in
        let (left', chosen, spent') =
          choose_or_trap-choose item (suc idx) bins left (improve scores priority_fn idx score b)
            (omega (arith, spent, enough)) in
        (left', rw (fits, called, valued) chosen, omega (arith, spent, spent'))
    | inr small ↦
        let (left, chosen, spent) =
          choose_or_trap-choose item (suc idx) bins fuel b (omega (arith, enough)) in
        (left, rw small chosen, omega (arith, spent))
  ]

  module _ (bin_size : ℤ) where
    put-grows :
        (item : ℤ) (bins : List ℤ) (o : Option ℕ)
        → (put_wasm scores priority_fn bin_size item bins o
            ≡ put scores priority bin_size item bins o)
          × (length (put scores priority bin_size item bins o) ≤ suc (length bins))
    put-grows item bins none = (refl, omega (arith, length-append bins ((bin_size -ℤ item) ∷ [])))
    put-grows item bins (some i) = (refl, omega (arith, length-lower i item bins))

    pack_or_trap-pack :
        (seq bins : List ℤ) (n fuel : ℕ)
        → length bins ≤ n
        → sequence_fuel cost n seq ≤ fuel
        → (left : ℕ) × (pack_or_trap scores priority_fn bin_size seq bins fuel
            ≡ some (pack scores priority bin_size seq bins, left))
          × (fuel ≤ left + sequence_fuel cost n seq)
    unfolding pack_or_trap pack place
    pack_or_trap-pack [] bins n fuel few enough = (fuel, refl, omega arith)
    pack_or_trap-pack (item ∷ seq) bins n fuel few enough =
        let bound = times_mono cost (length bins) n few in
        let (left, chosen, spent) =
          choose_or_trap-choose item 0 bins fuel (start scores priority)
            (omega (arith, bound, enough)) in
        let best = (choose scores priority item 0 bins (start scores priority)).best_idx in
        let (agrees, grown) = put-grows item bins best in
        let (left', packed, spent') =
          pack_or_trap-pack seq (put scores priority bin_size item bins best) (suc n) left
            (omega (arith, grown, few)) (omega (arith, bound, enough, spent)) in
        (left', rw chosen (rw agrees packed), omega (arith, bound, spent, spent'))

    simulate_or_trap-simulate :
        (sequences : List (List ℤ)) (n fuel : ℕ) (v : ℤ)
        → fuel_for cost sequences ≤ fuel
        → simulate_or_trap scores priority_fn bin_size sequences n v fuel
          ≡ some (simulate scores priority bin_size sequences n v)
    unfolding simulate_or_trap simulate
    simulate_or_trap-simulate [] n fuel v enough = refl
    simulate_or_trap-simulate (seq ∷ sequences) n fuel v enough =
        let (left, packed, spent) =
          pack_or_trap-pack seq [] 0 fuel (omega arith) (omega (arith, enough)) in
        rw packed (
          simulate_or_trap-simulate sequences (n + length (pack scores priority bin_size seq []))
            left (v +ℤ sum seq) (omega (arith, enough, spent)))

    -- Where the exported function answers as the heuristic does, at no more than a given cost in
    -- fuel, and the budget is enough for offering each item to each bin, the engine scores the
    -- benchmark, and with the fitness of `run_simulation`.
    pub score_benchmark_wasm-run_simulation :
        (fuel_budget : ℕ) (sequences : List (List ℤ))
        → fuel_for cost sequences ≤ fuel_budget
        → score_benchmark_wasm scores priority_fn bin_size fuel_budget sequences
          ≡ some (run_simulation scores priority bin_size sequences)
    unfolding score_benchmark_wasm run_simulation
    score_benchmark_wasm-run_simulation fuel_budget sequences enough =
        rw (simulate_or_trap-simulate sequences 0 fuel_budget (pos 0) enough) refl
