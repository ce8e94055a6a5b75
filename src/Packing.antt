-- ===== src/Packing.antt =====
-- The online bin-packing simulations that score a heuristic: `run_simulation` of problem.py and of
-- evaluator_harness.py (the same text), and `get_behavioral_fingerprint` of behavior.py. Sizes are
-- whole numbers: the source's floats, their sums and their differences are then exact up to 2 ^ 53.
-- For sizes with a fraction the floats round, which is not modelled. Scores are a parameter with
-- Python's `>` and the constants -inf and -1e9.
pub mod Placement
pub mod Volume
pub mod AnyFit
pub mod Fingerprint
pub mod Wasm
mod Examples
use continuous_agent.Prelude.{
  ℕ, zero, suc, ◌+◌, ◌==◌, Bool, true, false, Option, none, some, List, [], ◌∷◌, ◌++◌, map, length,
  leb, if◌then◌else◌,
}
use continuous_agent.Prelude.Int.{ℤ, pos, ◌+ℤ◌, ◌-ℤ◌, leb_ℤ, ltb_ℤ}
use mathlib.Core.Option.{get_or}

-- Scores: `score > max_score`, `-float("inf")` and the `-1e9` that stands for an exception.
pub record Scores (S : Type 0) : Type 0 where
  pub gt : S → S → Bool
  pub minus_inf : S
  pub penalty : S

-- Fitness is the quotient of two integers; no rounding is modelled.
pub record Ratio : Type 0 where
  pub num : ℤ
  pub den : ℤ

-- The locals of the inner loop.
pub record Best (S : Type 0) : Type 0 where
  pub best_idx : Option ℕ
  pub max_score : S

-- `bins[i] -= item`
unfoldable pub lower : ℕ → ℤ → List ℤ → List ℤ
lower i x [] = []
lower zero x (room ∷ bins) = (room -ℤ x) ∷ bins
lower (suc i) x (room ∷ bins) = room ∷ lower i x bins

unfoldable pub sum : List ℤ → ℤ
sum [] = pos 0
sum (x ∷ xs) = x +ℤ sum xs

-- Up to here the floats of whole numbers are exact.
abbrev pub exact_limit : ℤ
exact_limit = pos 9007199254740992

-- `n * x`
unfoldable pub scale : ℕ → ℤ → ℤ
scale zero x = pos 0
scale (suc n) x = x +ℤ scale n x

module _ {S : Type 0} (scores : Scores S) (priority : ℤ → ℤ → Option S) where
  -- `none` is an exception of `priority_fn`.
  abbrev pub score_of : ℤ → ℤ → S
  score_of item room = get_or (priority item room) scores.penalty

  -- `for idx, cap in enumerate(bins)`, from index `idx` on.
  unfoldable pub choose : ℤ → ℕ → List ℤ → Best S → Best S
  choose item idx [] b = b
  choose item idx (room ∷ bins) b = choose item (suc idx) bins (
      if leb_ℤ item room
      then if scores.gt (score_of item room) b.max_score
        then record { best_idx = some idx; max_score = score_of item room }
        else b
      else b)

  abbrev pub start : Best S
  start = record { best_idx = none; max_score = scores.minus_inf }

  module _ (bin_size : ℤ) where
    abbrev pub put : ℤ → List ℤ → Option ℕ → List ℤ
    put item bins none = bins ++ (bin_size -ℤ item) ∷ []
    put item bins (some i) = lower i item bins

    -- The body of `for item in seq`.
    unfoldable pub place : ℤ → List ℤ → List ℤ
    unfolding choose lower
    place item bins = put item bins (choose item 0 bins start).best_idx

    unfoldable pub pack : List ℤ → List ℤ → List ℤ
    unfolding place
    pack [] bins = bins
    pack (item ∷ seq) bins = pack seq (place item bins)

    -- The loop over the sequences, with `total_bins` and `total_vol`.
    unfoldable pub simulate : List (List ℤ) → ℕ → ℤ → ℕ × ℤ
    unfolding pack sum
    simulate [] total_bins total_vol = (total_bins, total_vol)
    simulate (seq ∷ sequences) total_bins total_vol =
        simulate sequences (total_bins + length (pack seq [])) (total_vol +ℤ sum seq)

    -- `max(0.0, min(1.0, total_vol / (total_bins * bin_size)))`, for a positive `bin_size`.
    abbrev pub clamp : ℤ → ℤ → Ratio
    clamp num den =
        if ltb_ℤ num (pos 0)
        then record { num = pos 0; den = pos 1 }
        else if ltb_ℤ den num
        then record { num = pos 1; den = pos 1 }
        else record { num = num; den = den }

    abbrev pub fitness : ℕ × ℤ → Ratio
    fitness (total_bins, total_vol) =
        if total_bins == 0
        then record { num = pos 0; den = pos 1 }
        else clamp total_vol (scale total_bins bin_size)

    unfoldable pub run_simulation : List (List ℤ) → Ratio
    unfolding simulate scale
    run_simulation sequences = fitness (simulate sequences 0 (pos 0))
