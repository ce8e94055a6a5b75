-- ===== src/Packing/Fingerprint.antt =====
-- behavior.py: `get_behavioral_fingerprint` logs the bin chosen for each item of the probes; an
-- exception of the heuristic ends it. The hash (SHA-256) of the log's bytes is a parameter.
pub mod Replay
use continuous_agent.Prelude.{
  ℕ, zero, suc, ◌+◌, Bool, true, false, Option, none, some, ◌>>=◌, List, [], ◌∷◌, ◌++◌, length,
  if◌then◌else◌,
}
use continuous_agent.Prelude.Int.{ℤ, ◌-ℤ◌, leb_ℤ}
use continuous_agent.Packing.{Scores, Best, lower}

module _ {S : Type 0} (scores : Scores S) (priority : ℤ → ℤ → Option S) where
  abbrev pub consider : ℕ → S → Best S → Best S
  consider idx score b =
      if scores.gt score b.max_score then record { best_idx = some idx; max_score = score } else b

  -- The inner loop. `none`: `return "invalid_runtime", False`.
  unfoldable pub choose_or_fail : ℤ → ℕ → List ℤ → Best S → Option (Best S)
  choose_or_fail item idx [] b = some b
  choose_or_fail item idx (room ∷ bins) b =
      (if leb_ℤ item room
        then (priority item room >>= λ score. some (consider idx score b))
        else some b)
      >>= λ b'. choose_or_fail item (suc idx) bins b'

  module _ (bin_size : ℤ) where
    -- The new bins, and what is appended to `decision_log`.
    abbrev pub decide_on : ℤ → List ℤ → Option ℕ → List ℤ × ℕ
    decide_on item bins (some i) = (lower i item bins, i)
    decide_on item bins none = let bins' = bins ++ (bin_size -ℤ item) ∷ [] in (bins', length bins)

    unfoldable pub log_sequence : List ℤ → List ℤ → Option (List ℤ × List ℕ)
    unfolding choose_or_fail lower
    log_sequence [] bins = some (bins, [])
    log_sequence (item ∷ seq) bins =
        choose_or_fail item 0 bins (record { best_idx = none; max_score = scores.minus_inf })
        >>= λ b.
            let (bins', decision) = decide_on item bins b.best_idx in
            log_sequence seq bins' >>= λ (last, decisions). some (last, decision ∷ decisions)

    unfoldable pub decision_log : List (List ℤ) → Option (List ℕ)
    unfolding log_sequence
    decision_log [] = some []
    decision_log (seq ∷ probes) = log_sequence seq [] >>= λ (bins, decisions).
        decision_log probes >>= λ rest. some (decisions ++ rest)

    -- The fingerprint and whether it is valid.
    unfoldable pub get_behavioral_fingerprint :
        {D : Type 0} → (List ℕ → D) → D → List (List ℤ) → D × Bool
    unfolding decision_log
    get_behavioral_fingerprint sha256 invalid_runtime probes = elim (decision_log probes) [
      | some log ↦ (sha256 log, true)
      | none ↦ (invalid_runtime, false)
    ]
