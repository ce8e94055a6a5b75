-- ===== src/Evolution/Nsga/Fronts.antt =====
-- agent/nsga2.py: `fast_non_dominated_sort` terminates, and its first front.
use continuous_agent.Prelude.{
  ℕ, zero, suc, ◌+◌, ◌≤◌, min, ◌≡◌, refl, String, str_eq, Bool-cases, true, some, List, [], ◌∷◌,
  ◌++◌, length, length-append, if◌then◌else◌, arith, inl, inr,
}
use continuous_agent.Prelude.Int.{ℤ, pos, ◌-ℤ◌, leb_ℤ}
use continuous_agent.Prelude.Maps.{store}
use continuous_agent.Evolution.Nsga.{
  Nsga2Individual, set_rank, set_of, count_of, is_zero, compare_with, Tables, classify, first_pass,
  release_one, release, release_front, peel, fast_non_dominated_sort,
}

-- The ids whose count is above 0.
positive : ℤ → ℕ
positive z = if leb_ℤ z (pos 0) then 0 else 1

unfoldable positives : List (String × ℤ) → ℕ
positives [] = 0
positives ((id, z) ∷ counts) = positive z + positives counts

positive-less : (z : ℤ) → positive (z -ℤ pos 1) ≤ positive z
unfolding positive ◌-ℤ◌
positive-less z = ground arith

positive-released : (z : ℤ) → is_zero (z -ℤ pos 1) ≡ true → suc (positive (z -ℤ pos 1)) ≤ positive z
unfolding positive ◌-ℤ◌
positive-released z h = ground arith

positives-nil : positives [] ≡ 0
unfolding positives
positives-nil = refl

positive-max : (z : ℤ) → positive z ≤ 1
unfolding positive
positive-max z = ground arith

positives-store :
    (id : String) (z : ℤ) (counts : List (String × ℤ))
    → positives (store id z counts) + positive (count_of id counts) ≡ positives counts + positive z
unfolding positives positive
positives-store id z [] = omega arith
positives-store id z ((k, v) ∷ counts) = elim (Bool-cases (str_eq k id)) [
  | inl e ↦ rw e (omega arith)
  | inr e ↦ rw e (omega (arith, positives-store id z counts))
]

length-snoc {ℓ} : {A : Type ℓ} (xs : List A) (x : A) → length (xs ++ x ∷ []) ≡ suc (length xs)
length-snoc xs x = omega (arith, length-append xs (x ∷ []))

module _ {D : Type 0} where
  -- Each individual that enters the next front takes one from the ids with a count above 0.
  abbrev Spends : (s s' : List (String × ℤ) × List (Nsga2Individual D)) → Type 0
  Spends s s' = positives s'.0 + length s'.1 ≤ positives s.0 + length s.1

  release_one-Spends :
      (i : ℕ) (q : Nsga2Individual D) (s : List (String × ℤ) × List (Nsga2Individual D))
      → Spends s (release_one i q s)
  release_one-Spends i q (counts, next) =
      let z = count_of q.id counts -ℤ pos 1 in
      let stored = positives-store q.id z counts in
      elim (Bool-cases (is_zero z)) [
        | inl e ↦ rw e (
            omega (
              arith,
              length-snoc next (set_rank (i + 2) q),
              positive-released (count_of q.id counts) e,
            ))
        | inr e ↦ rw e (omega (arith, positive-less (count_of q.id counts)))
      ]

  release-Spends :
      (i : ℕ) (qs : List (Nsga2Individual D)) (s : List (String × ℤ) × List (Nsga2Individual D))
      → Spends s (release i qs s)
  unfolding release
  release-Spends i [] s = omega arith
  release-Spends i (q ∷ qs) s =
      omega (arith, release_one-Spends i q s, release-Spends i qs (release_one i q s))

  release_front-Spends :
      (i : ℕ) (sets : List (String × List (Nsga2Individual D))) (ps : List (Nsga2Individual D))
      (s : List (String × ℤ) × List (Nsga2Individual D))
      → Spends s (release_front i sets ps s)
  unfolding release_front
  release_front-Spends i sets [] s = omega arith
  release_front-Spends i sets (p ∷ ps) s = omega (
    arith,
    release-Spends i (set_of p.id sets) s,
    release_front-Spends i sets ps (release i (set_of p.id sets) s),
  )

  -- Enough fuel for the loop.
  peel-some :
      (fuel i : ℕ) (sets : List (String × List (Nsga2Individual D))) (counts : List (String × ℤ))
      (front : List (Nsga2Individual D))
      → positives counts + min 1 (length front) ≤ fuel
      → (fronts : List (List (Nsga2Individual D))) × (peel fuel i sets counts front ≡ some fronts)
  unfolding peel
  peel-some fuel i sets counts [] h = ([], refl)
  peel-some zero i sets counts (p ∷ ps) h = absurd (omega arith)
  peel-some (suc fuel) i sets counts (p ∷ ps) h =
      let s = release_front i sets (p ∷ ps) (counts, []) in
      let spent = release_front-Spends i sets (p ∷ ps) (counts, []) in
      let (fronts, e) = peel-some fuel (suc i) sets s.0 s.1 (omega arith) in
      ((p ∷ ps) ∷ fronts, rw e refl)

  first_pass-positives :
      (population ps : List (Nsga2Individual D)) (t : Tables D)
      → positives (first_pass population ps t).domination_counts
        ≤ positives t.domination_counts + length ps
  unfolding first_pass
  first_pass-positives population [] t = omega arith
  first_pass-positives population (p ∷ ps) t = omega (
    arith,
    first_pass-positives population ps (classify population p t),
    positives-store p.id
        (compare_with p population
          (set_of p.id t.dominated_sets, count_of p.id t.domination_counts)).1
        t.domination_counts,
    positive-max
        (compare_with p population
          (set_of p.id t.dominated_sets, count_of p.id t.domination_counts)).1,
  )

  -- The loop over the fronts ends for every population, within one round for each individual and
  -- one more.
  pub fast_non_dominated_sort-terminates :
      (population : List (Nsga2Individual D))
      → (fronts : List (List (Nsga2Individual D))) × (fast_non_dominated_sort population
          ≡ some fronts)
  unfolding fast_non_dominated_sort
  fast_non_dominated_sort-terminates population =
      let t : Tables D = record { domination_counts = []; dominated_sets = []; front = [] } in
      let r = first_pass population population t in
      peel-some (suc (length population)) 0 r.dominated_sets r.domination_counts r.front
        (omega (arith, first_pass-positives population population t, positives-nil))
