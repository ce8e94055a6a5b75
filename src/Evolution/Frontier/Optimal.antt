-- ===== src/Evolution/Frontier/Optimal.antt =====
-- agent/island_profiler.py: the frontier is the set of points that nothing dominates.
use continuous_agent.Prelude.{
  ℕ, ◌≤◌, ◌≡◌, refl, subst, Bool, Bool-cases, true, false, List, [], ◌∷◌, arith, ◌⊎◌, inl, inr,
}
use continuous_agent.Prelude.Int.{ℤ, negsuc, ◌≤ℤ◌, ◌<ℤ◌, ltb_ℤ}
use continuous_agent.Evolution.{outperforms}
use continuous_agent.Evolution.Frontier.{
  HeuristicPoint, sorts_before, insert, sorted, set_pareto, sweep, compute_pareto_frontier,
}

abbrev pub All : (HeuristicPoint → Type 0) → List HeuristicPoint → Type 0
All P [] = Unit
All P (p ∷ ps) = P p × All P ps

abbrev pub Any : (HeuristicPoint → Type 0) → List HeuristicPoint → Type 0
Any P [] = ⊥
Any P (p ∷ ps) = P p ⊎ Any P ps

abbrev IsSorted : List HeuristicPoint → Type 0
IsSorted [] = Unit
IsSorted (p ∷ ps) = All (λ q. sorts_before p q ≡ true) ps × IsSorted ps

All-map :
    (P Q : HeuristicPoint → Type 0) (ps : List HeuristicPoint)
    → ((p : HeuristicPoint) → P p → Q p)
    → All P ps
    → All Q ps
All-map P Q [] f h = tt
All-map P Q (p ∷ ps) f (h, hs) = (f p h, All-map P Q ps f hs)

All-insert :
    (P : HeuristicPoint → Type 0) (p : HeuristicPoint) (qs : List HeuristicPoint)
    → P p
    → All P qs
    → All P (insert p qs)
unfolding insert
All-insert P p [] h hs = (h, tt)
All-insert P p (q ∷ qs) h (hq, hs) = elim (Bool-cases (sorts_before p q)) [
  | inl e ↦ rw e (h, (hq, hs))
  | inr e ↦ rw e (hq, All-insert P p qs h hs)
]

All-of-insert :
    (P : HeuristicPoint → Type 0) (p : HeuristicPoint) (qs : List HeuristicPoint)
    → All P (insert p qs)
    → P p × All P qs
unfolding insert
All-of-insert P p [] h = h
All-of-insert P p (q ∷ qs) h = elim (Bool-cases (sorts_before p q)) [
  | inl e ↦ rw e at h
  | inr e ↦ let (hq, hs) = rw e at h in let (hp, rest) = All-of-insert P p qs hs in (hp, (hq, rest))
]

All-of-sorted :
    (P : HeuristicPoint → Type 0) (ps : List HeuristicPoint) → All P (sorted ps) → All P ps
unfolding sorted
All-of-sorted P [] h = tt
All-of-sorted P (p ∷ ps) h =
    let (hp, hs) = All-of-insert P p (sorted ps) h in (hp, All-of-sorted P ps hs)

sorts_before_trans :
    (p q r : HeuristicPoint)
    → sorts_before p q ≡ true
    → sorts_before q r ≡ true
    → sorts_before p r ≡ true
sorts_before_trans p q r h k = ground arith

sorts_before_total : (p q : HeuristicPoint) → sorts_before p q ≡ false → sorts_before q p ≡ true
sorts_before_total p q h = ground arith

insert-IsSorted :
    (p : HeuristicPoint) (qs : List HeuristicPoint) → IsSorted qs → IsSorted (insert p qs)
unfolding insert
insert-IsSorted p [] h = (tt, tt)
insert-IsSorted p (q ∷ qs) (h, hs) = elim (Bool-cases (sorts_before p q)) [
  | inl e ↦ rw e (
    (e, All-map _ (λ r. sorts_before p r ≡ true) qs (λ r. sorts_before_trans p q r e) h),
    (h, hs),
  )
  | inr e ↦ rw e (
    All-insert (λ r. sorts_before q r ≡ true) p qs (sorts_before_total p q e) h,
    insert-IsSorted p qs hs,
  )
]

sorted-IsSorted : (ps : List HeuristicPoint) → IsSorted (sorted ps)
unfolding sorted
sorted-IsSorted [] = tt
sorted-IsSorted (p ∷ ps) = insert-IsSorted p (sorted ps) (sorted-IsSorted ps)

abbrev pub outperforms_point : HeuristicPoint → HeuristicPoint → Bool
outperforms_point p q = outperforms p.packing_ratio p.fuel_consumed q.packing_ratio q.fuel_consumed

-- `q` costs no more fuel than `p` and packs no worse.
abbrev pub Covers : HeuristicPoint → HeuristicPoint → Type 0
Covers p q = (q.fuel_consumed ≤ p.fuel_consumed) × (p.packing_ratio ≤ℤ q.packing_ratio)

ltb_ℤ→<ℤ : (a b : ℤ) → ltb_ℤ a b ≡ true → a <ℤ b
ltb_ℤ→<ℤ a b h = ground arith

ltb_ℤ-≤ℤ : (a b : ℤ) → ltb_ℤ a b ≡ false → b ≤ℤ a
ltb_ℤ-≤ℤ a b h = ground arith

<ℤ_trans : (a b c : ℤ) → a <ℤ b → b <ℤ c → a <ℤ c
<ℤ_trans a b c h k = omega arith

not_self : (p : HeuristicPoint) → outperforms_point p p ≡ false
not_self p = ground arith

not_later : (p q : HeuristicPoint) → sorts_before p q ≡ true → outperforms_point q p ≡ false
not_later p q h = ground arith

not_lower :
    (p f : HeuristicPoint) → p.packing_ratio <ℤ f.packing_ratio → outperforms_point p f ≡ false
not_lower p f h = ground arith

not_below :
    (m : ℤ) (p f : HeuristicPoint)
    → ltb_ℤ m p.packing_ratio ≡ false
    → m <ℤ f.packing_ratio
    → outperforms_point p f ≡ false
not_below m p f e h = not_lower p f (omega (arith, ltb_ℤ-≤ℤ m p.packing_ratio e))

-- Nothing in a sorted list outperforms what the sweep keeps, and all of that is above the threshold.
sweep-undominated :
    (max_packing : ℤ) (ps : List HeuristicPoint)
    → IsSorted ps
    → All
        (λ f. (max_packing <ℤ f.packing_ratio) × All (λ p. outperforms_point p f ≡ false) ps)
        (sweep max_packing ps).0
unfolding sweep
sweep-undominated m [] s = tt
sweep-undominated m (p ∷ ps) (h, s) = elim (Bool-cases (ltb_ℤ m p.packing_ratio)) [
  | inl e ↦ rw e (
    (ltb_ℤ→<ℤ m p.packing_ratio e, (not_self p, All-map _ _ ps (not_later p) h)),
    All-map _ _ (sweep p.packing_ratio ps).0
        (λ f (above, none_better). (
          <ℤ_trans m p.packing_ratio f.packing_ratio (ltb_ℤ→<ℤ m p.packing_ratio e) above,
          (not_lower p f above, none_better),
        ))
        (sweep-undominated p.packing_ratio ps s),
  )
  | inr e ↦ rw e (
      All-map _ _ (sweep m ps).0
        (λ f (above, none_better). (above, (not_below m p f e above, none_better)))
        (sweep-undominated m ps s))
]

All-both :
    (P Q : HeuristicPoint → Type 0) (ps : List HeuristicPoint)
    → All P ps
    → All Q ps
    → All (λ p. P p × Q p) ps
All-both P Q [] h k = tt
All-both P Q (p ∷ ps) (h, hs) (k, ks) = ((h, k), All-both P Q ps hs ks)

later_covered :
    (m : ℤ) (p : HeuristicPoint) (front : List HeuristicPoint) (q : HeuristicPoint)
    → (sorts_before p q ≡ true) × ((q.packing_ratio ≤ℤ p.packing_ratio) ⊎ Any (Covers q) front)
    → (q.packing_ratio ≤ℤ m) ⊎ Any (Covers q) (set_pareto true p ∷ front)
later_covered m p front q (h, inl low) = inr (inl (ground arith, low))
later_covered m p front q (h, inr high) = inr (inr high)

sweep_kept :
    (m : ℤ) (p : HeuristicPoint) (ps : List HeuristicPoint)
    → ltb_ℤ m p.packing_ratio ≡ true
    → set_pareto true p ∷ (sweep p.packing_ratio ps).0 ≡ (sweep m (p ∷ ps)).0
unfolding sweep
sweep_kept m p ps e = rw e refl

sweep_dropped :
    (m : ℤ) (p : HeuristicPoint) (ps : List HeuristicPoint)
    → ltb_ℤ m p.packing_ratio ≡ false
    → (sweep m ps).0 ≡ (sweep m (p ∷ ps)).0
unfolding sweep
sweep_dropped m p ps e = rw e refl

abbrev CoveredIn : ℤ → List HeuristicPoint → HeuristicPoint → Type 0
CoveredIn m front p = (p.packing_ratio ≤ℤ m) ⊎ Any (Covers p) front

sweep-covers :
    (max_packing : ℤ) (ps : List HeuristicPoint)
    → IsSorted ps
    → All (CoveredIn max_packing (sweep max_packing ps).0) ps
sweep-covers m [] s = tt
sweep-covers m (p ∷ ps) (h, s) = elim (Bool-cases (ltb_ℤ m p.packing_ratio)) [
  | inl e ↦
      subst (λ front. All (CoveredIn m front) (p ∷ ps)) (sweep_kept m p ps e)
        (
          inr (inl (omega arith, omega arith)),
          All-map _ _ ps (later_covered m p (sweep p.packing_ratio ps).0)
              (All-both _ _ ps h (sweep-covers p.packing_ratio ps s)),
        )
  | inr e ↦
      subst (λ front. All (CoveredIn m front) (p ∷ ps)) (sweep_dropped m p ps e)
        (inl (ltb_ℤ-≤ℤ m p.packing_ratio e), sweep-covers m ps s)
]

-- Nothing among the candidates outperforms a point of the frontier, in packing and in fuel; and
-- every candidate with a packing ratio above -1.0 is matched by a point of the frontier that costs
-- no more fuel and packs no worse.
pub compute_pareto_frontier-optimal :
    (unit : ℕ) (candidates : List HeuristicPoint)
    → let front = compute_pareto_frontier unit candidates in
      All (λ f. All (λ p. outperforms_point p f ≡ false) candidates) front
      × All (λ p. (p.packing_ratio ≤ℤ negsuc unit) ⊎ Any (Covers p) front) candidates
unfolding compute_pareto_frontier
compute_pareto_frontier-optimal unit candidates =
    let s = sorted-IsSorted candidates in
    (
      All-map _ _ (sweep (negsuc unit) (sorted candidates)).0
          (λ f (above, none_better). All-of-sorted _ candidates none_better)
          (sweep-undominated (negsuc unit) (sorted candidates) s),
      All-of-sorted _ candidates (sweep-covers (negsuc unit) (sorted candidates) s),
    )
