-- ===== src/Evolution/Nsga/FirstFront.antt =====
-- agent/nsga2.py: the first front of `fast_non_dominated_sort`.
use continuous_agent.Prelude.{
  ℕ, zero, suc, ◌+◌, ◌≡◌, ◌≢◌, refl, sym, ap, ◌∙◌, String, Bool, Bool-cases, true, false, ◌||◌, not,
  some, >>=-eq-some, List, [], ◌∷◌, ◌++◌, append-nil, append_assoc, length, ◌==◌, if◌then◌else◌,
  arith, inl, inr,
}
use continuous_agent.Prelude.Int.{ℤ, pos, ◌+ℤ◌}
use continuous_agent.Prelude.Maps.{store, find-store_ne}
use mathlib.Core.Option.{get_or}
use continuous_agent.Evolution.Nsga.{
  Nsga2Individual, set_rank, dominates, set_of, count_of, is_zero, compare_one, compare_with,
  release_front, Tables, classify, first_pass, peel, fast_non_dominated_sort,
}

pos-suc : (n : ℕ) → pos n +ℤ pos 1 ≡ pos (n + 1)
unfolding ◌+ℤ◌
pos-suc n = ground arith

zero-left : (n : ℕ) → 0 + n ≡ n
zero-left n = omega arith

is_zero-pos : (n : ℕ) → is_zero (pos n) ≡ (n == 0)
is_zero-pos n = ground arith

module _ {D : Type 0} where
  pub dominates-asymmetric :
      (p q : Nsga2Individual D) → dominates p q ≡ true → dominates q p ≡ false
  unfolding dominates
  dominates-asymmetric p q h = ground arith

  pub dominates_trans :
      (p q r : Nsga2Individual D)
      → dominates p q ≡ true
      → dominates q r ≡ true
      → dominates p r ≡ true
  unfolding dominates
  dominates_trans p q r h k = ground arith

  abbrev pub first_of : List (List (Nsga2Individual D)) → List (Nsga2Individual D)
  first_of [] = []
  first_of (front ∷ fronts) = front

  peel-first :
      (fuel i : ℕ) (sets : List (String × List (Nsga2Individual D))) (counts : List (String × ℤ))
      (front : List (Nsga2Individual D)) (fronts : List (List (Nsga2Individual D)))
      → peel fuel i sets counts front ≡ some fronts
      → first_of fronts ≡ front
  unfolding peel
  peel-first fuel i sets counts [] fronts h = let e : [] ≡ fronts = cc h in rw (← e) refl
  peel-first zero i sets counts (p ∷ ps) fronts h = cc
  peel-first (suc fuel) i sets counts (p ∷ ps) fronts h =
      let (rest, more, e) =
        >>=-eq-some
          (peel fuel (suc i) sets (release_front i sets (p ∷ ps) (counts, [])).0
            (release_front i sets (p ∷ ps) (counts, [])).1)
          _ h in
      let e' : (p ∷ ps) ∷ rest ≡ fronts = cc e in rw (← e') refl

  -- Some individual of the list dominates `p`.
  abbrev pub has_dominator : Nsga2Individual D → List (Nsga2Individual D) → Bool
  has_dominator p [] = false
  has_dominator p (q ∷ qs) = dominates q p || has_dominator p qs

  -- The individuals of the list that nothing in the population dominates, with rank 1.
  abbrev pub undominated :
      List (Nsga2Individual D) → List (Nsga2Individual D) → List (Nsga2Individual D)
  undominated population [] = []
  undominated population (p ∷ ps) =
      if has_dominator p population
      then undominated population ps
      else set_rank 1 p ∷ undominated population ps

  abbrev pub AllApart : String → List (Nsga2Individual D) → Type 0
  AllApart id [] = Unit
  AllApart id (p ∷ ps) = (id ≢ p.id) × AllApart id ps

  -- No two individuals share an id.
  abbrev pub Distinct : List (Nsga2Individual D) → Type 0
  Distinct [] = Unit
  Distinct (p ∷ ps) = AllApart p.id ps × Distinct ps

  -- What one round adds to the count.
  abbrev weight : Nsga2Individual D → Nsga2Individual D → ℕ
  weight p q = if dominates p q then 0 else if dominates q p then 1 else 0

  abbrev dominators : Nsga2Individual D → List (Nsga2Individual D) → ℕ
  dominators p [] = 0
  dominators p (q ∷ qs) = weight p q + dominators p qs

  compare_one-count :
      (p q : Nsga2Individual D) (ds : List (Nsga2Individual D)) (n : ℕ)
      → (compare_one p q (ds, pos n)).1 ≡ pos (n + weight p q)
  compare_one-count p q ds n = elim (Bool-cases (dominates p q)) [
    | inl e ↦ rw e (ap pos (omega arith))
    | inr e ↦ elim (Bool-cases (dominates q p)) [
      | inl d ↦ rw (e, d) (pos-suc n)
      | inr d ↦ rw (e, d) (ap pos (omega arith))
    ]
  ]

  compare_with-count :
      (p : Nsga2Individual D) (qs : List (Nsga2Individual D)) (s : List (Nsga2Individual D) × ℤ)
      (n : ℕ)
      → s.1 ≡ pos n
      → (compare_with p qs s).1 ≡ pos (n + dominators p qs)
  unfolding compare_with
  compare_with-count p [] s n e = e ∙ ap pos (omega arith)
  compare_with-count p (q ∷ qs) s n e =
      compare_with-count p qs (compare_one p q s) (n + weight p q)
        (rw e (compare_one-count p q s.0 n))
      ∙ ap pos (omega arith)

  dominators-zero :
      (p : Nsga2Individual D) (qs : List (Nsga2Individual D))
      → (dominators p qs == 0) ≡ not (has_dominator p qs)
  dominators-zero p [] = refl
  dominators-zero p (q ∷ qs) = elim (Bool-cases (dominates q p)) [
    | inl d ↦ rw (dominates-asymmetric q p d, d) (ground arith)
    | inr d ↦ elim (Bool-cases (dominates p q)) [
      | inl e ↦ rw (e, d, zero-left (dominators p qs)) (dominators-zero p qs)
      | inr e ↦ rw (e, d, zero-left (dominators p qs)) (dominators-zero p qs)
    ]
  ]

  -- Of an id whose entry is still 0, the round of the first pass counts whether a dominator is there.
  counted :
      (p : Nsga2Individual D) (population ds : List (Nsga2Individual D)) (z : ℤ)
      → z ≡ pos 0
      → is_zero (compare_with p population (ds, z)).1 ≡ not (has_dominator p population)
  counted p population ds z e =
      rw (compare_with-count p population (ds, z) 0 e, zero-left (dominators p population))
        (is_zero-pos (dominators p population) ∙ dominators-zero p population)

  -- The entries of the ids of the list are still 0.
  abbrev Cleared : List (String × ℤ) → List (Nsga2Individual D) → Type 0
  Cleared counts [] = Unit
  Cleared counts (p ∷ ps) = (count_of p.id counts ≡ pos 0) × Cleared counts ps

  Cleared-store :
      (id : String) (z : ℤ) (counts : List (String × ℤ)) (ps : List (Nsga2Individual D))
      → AllApart id ps
      → Cleared counts ps
      → Cleared (store id z counts) ps
  Cleared-store id z counts [] h k = tt
  Cleared-store id z counts (p ∷ ps) (h, hs) (k, ks) = (
    ap (λ o. get_or o (pos 0)) (find-store_ne id p.id z counts h) ∙ k,
    Cleared-store id z counts ps hs ks,
  )

  Cleared-nil : (ps : List (Nsga2Individual D)) → Cleared [] ps
  Cleared-nil [] = tt
  Cleared-nil (p ∷ ps) = (refl, Cleared-nil ps)

  first_pass-front :
      (population ps : List (Nsga2Individual D)) (t : Tables D)
      → Distinct ps
      → Cleared t.domination_counts ps
      → (first_pass population ps t).front ≡ t.front ++ undominated population ps
  unfolding first_pass
  first_pass-front population [] t d c = sym (append-nil t.front)
  first_pass-front population (p ∷ ps) t (apart, d) (zero_yet, c) =
      let count =
        compare_with p population
          (set_of p.id t.dominated_sets, count_of p.id t.domination_counts) in
      let here = counted p population (set_of p.id t.dominated_sets) _ zero_yet in
      let later =
        first_pass-front population ps (classify population p t) d
          (Cleared-store p.id count.1 t.domination_counts ps apart c) in
      later ∙ elim (Bool-cases (has_dominator p population)) [
        | inl e ↦ rw (here, e) refl
        | inr e ↦
            rw (here, e) (append_assoc t.front (set_rank 1 p ∷ []) (undominated population ps))
      ]

  -- Among individuals with different ids, the first front is the list of those that no individual
  -- of the population dominates, in the order of the population and with rank 1; where that list is
  -- empty there is no front.
  pub first_front-undominated :
      (population : List (Nsga2Individual D)) (fronts : List (List (Nsga2Individual D)))
      → Distinct population
      → fast_non_dominated_sort population ≡ some fronts
      → first_of fronts ≡ undominated population population
  unfolding fast_non_dominated_sort
  first_front-undominated population fronts d h =
      let empty : Tables D = record { domination_counts = []; dominated_sets = []; front = [] } in
      let t = first_pass population population empty in
      peel-first (suc (length population)) 0 t.dominated_sets t.domination_counts t.front fronts h
      ∙ first_pass-front population population empty d (Cleared-nil population)
