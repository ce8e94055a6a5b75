-- ===== src/Packing/Fingerprint/Replay.antt =====
-- behavior.py against problem.py: the logged decisions determine the packing.
use continuous_agent.Prelude.{
  ℕ, zero, suc, ◌≡◌, refl, sym, ap, ◌∙◌, Bool-cases, Option, none, some, >>=-eq-some, List, [], ◌∷◌,
  ◌++◌, map, take, drop, length, ltb, lt→ltb, get_elem?, arith, if◌then◌else◌, inl, inr, ◌<◌,
}
use continuous_agent.Prelude.Int.{ℤ, ◌-ℤ◌, leb_ℤ}
use continuous_agent.Packing.{Scores, Best, choose, start, lower, put, pack}
use continuous_agent.Packing.Placement.{OnSome, Fits, choose-Fits}
use continuous_agent.Packing.Fingerprint.{choose_or_fail, decide_on, log_sequence, decision_log}

-- A packing from its decisions alone: an index of an open bin, or the number of bins for a new one.
unfoldable replay : ℤ → List ℤ → List ℕ → List ℤ → List ℤ
replay size (item ∷ seq) (d ∷ ds) bins =
    replay size seq ds
      (if ltb d (length bins) then lower d item bins else bins ++ (size -ℤ item) ∷ [])
replay size seq ds bins = bins

-- The bins of every probe from one log.
unfoldable replay_all : ℤ → List (List ℤ) → List ℕ → List (List ℤ)
unfolding replay
replay_all size [] log = []
replay_all size (seq ∷ probes) log =
    replay size seq (take (length seq) log) [] ∷ replay_all size probes (drop (length seq) log)

take-append {ℓ} : {A : Type ℓ} (xs ys : List A) → take (length xs) (xs ++ ys) ≡ xs
take-append [] ys = refl
take-append (x ∷ xs) ys = ap (λ zs. x ∷ zs) (take-append xs ys)

drop-append {ℓ} : {A : Type ℓ} (xs ys : List A) → drop (length xs) (xs ++ ys) ≡ ys
drop-append [] ys = refl
drop-append (x ∷ xs) ys = drop-append xs ys

get_elem?-lt : (bins : List ℤ) (i : ℕ) (room : ℤ) → get_elem? bins i ≡ some room → i < length bins
get_elem?-lt [] i room h = cc
get_elem?-lt (x ∷ xs) zero room h = omega arith
get_elem?-lt (x ∷ xs) (suc i) room h = omega (arith, get_elem?-lt xs i room h)

module _ {S : Type 0} (scores : Scores S) (priority : ℤ → ℤ → Option S) where
  -- Without an exception the loop chooses as the loop of `run_simulation` does.
  pub choose_or_fail-choose :
      (item : ℤ) (idx : ℕ) (bins : List ℤ) (b r : Best S)
      → choose_or_fail scores priority item idx bins b ≡ some r
      → choose scores priority item idx bins b ≡ r
  unfolding choose_or_fail choose
  choose_or_fail-choose item idx [] b r h = cc
  choose_or_fail-choose item idx (room ∷ bins) b r h = elim (Bool-cases (leb_ℤ item room)) [
    | inl fits ↦
        let h' = rw fits at h in
        let (b', step, rest) = >>=-eq-some _ _ h' in
        let (score, valued, taken) = >>=-eq-some (priority item room) _ step in
        rw (fits, valued) (cc (choose_or_fail-choose item (suc idx) bins b' r rest))
    | inr small ↦ rw small (choose_or_fail-choose item (suc idx) bins b r (rw small at h))
  ]

  module _ (size : ℤ) where
    replay-decide_on :
        (item : ℤ) (bins : List ℤ) (o : Option ℕ)
        → OnSome (Fits item bins) o
        → let (bins', d) = decide_on scores priority size item bins o in
          ((if ltb d (length bins) then lower d item bins else bins ++ (size -ℤ item) ∷ []) ≡ bins')
          × (put scores priority size item bins o ≡ bins')
    replay-decide_on item bins none fits = (ground arith, refl)
    replay-decide_on item bins (some i) (room, e, fits) =
        (rw (lt→ltb i (length bins) (get_elem?-lt bins i room e)), refl)

    -- Where a sequence is logged, the log replays to the bins that `run_simulation` packs.
    log_sequence-replay :
        (seq bins last : List ℤ) (decisions : List ℕ)
        → log_sequence scores priority size seq bins ≡ some (last, decisions)
        → (pack scores priority size seq bins ≡ last) × (replay size seq decisions bins ≡ last)
    unfolding log_sequence pack replay
    log_sequence-replay [] bins last decisions h = (cc, cc)
    log_sequence-replay (item ∷ seq) bins last decisions h =
        let (b, chosen, h') = >>=-eq-some _ _ h in
        let same = choose_or_fail-choose item 0 bins _ b chosen in
        let fits = choose-Fits scores priority item bins in
        let (agrees, puts) = replay-decide_on item bins b.best_idx (rw same at fits) in
        let (r, logged, pair) =
          >>=-eq-some
            (log_sequence scores priority size seq
              (decide_on scores priority size item bins b.best_idx).0)
            _ h' in
        let (packs, replays) = log_sequence-replay seq _ r.0 r.1 logged in
        let last_eq : r.0 ≡ last = cc pair in
        let log_eq : (decide_on scores priority size item bins b.best_idx).1 ∷ r.1 ≡ decisions =
          cc pair in
        (rw (same, puts) (packs ∙ last_eq), rw (← log_eq) (rw agrees (replays ∙ last_eq)))

    log_sequence-length :
        (seq bins last : List ℤ) (decisions : List ℕ)
        → log_sequence scores priority size seq bins ≡ some (last, decisions)
        → length decisions ≡ length seq
    unfolding log_sequence
    log_sequence-length [] bins last decisions h = cc
    log_sequence-length (item ∷ seq) bins last decisions h =
        let (b, chosen, h') =
          >>=-eq-some (choose_or_fail scores priority item 0 bins (start scores priority)) _ h in
        let next = decide_on scores priority size item bins b.best_idx in
        let (r, logged, pair) = >>=-eq-some (log_sequence scores priority size seq next.0) _ h' in
        let log_eq : next.1 ∷ r.1 ≡ decisions = cc pair in
        rw (← log_eq) (ap suc (log_sequence-length seq _ r.0 r.1 logged))

    -- The log of the probes holds the decisions of each, one behind the other.
    decision_log-replay :
        (probes : List (List ℤ)) (log : List ℕ)
        → decision_log scores priority size probes ≡ some log
        → map (λ seq. pack scores priority size seq []) probes ≡ replay_all size probes log
    unfolding decision_log replay_all
    decision_log-replay [] log h = refl
    decision_log-replay (seq ∷ probes) log h =
        let (r, logged, h') = >>=-eq-some (log_sequence scores priority size seq []) _ h in
        let (rest, others, joined) = >>=-eq-some (decision_log scores priority size probes) _ h' in
        let log_eq : r.1 ++ rest ≡ log = cc joined in
        let (packs, replays) = log_sequence-replay seq [] r.0 r.1 logged in
        let size_eq = log_sequence-length seq [] r.0 r.1 logged in
        rw
          (
            ← log_eq,
            ← size_eq,
            take-append r.1 rest,
            drop-append r.1 rest,
            packs,
            replays,
            decision_log-replay probes rest others,
          )
          refl

-- Two heuristics, each with scores of its own, whose decision logs on the probes are equal, as the
-- bytes that `get_behavioral_fingerprint` hashes, pack every probe into the same bins.
pub decision_log-determines :
    {S T : Type 0} (scores : Scores S) (scores' : Scores T) (priority : ℤ → ℤ → Option S)
    (priority' : ℤ → ℤ → Option T) (size : ℤ) (probes : List (List ℤ)) (log : List ℕ)
    → decision_log scores priority size probes ≡ some log
    → decision_log scores' priority' size probes ≡ some log
    → map (λ seq. pack scores priority size seq []) probes
      ≡ map (λ seq. pack scores' priority' size seq []) probes
decision_log-determines scores scores' priority priority' size probes log h h' =
    decision_log-replay scores priority size probes log h
    ∙ sym (decision_log-replay scores' priority' size probes log h')
