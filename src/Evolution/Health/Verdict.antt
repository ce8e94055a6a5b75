-- ===== src/Evolution/Health/Verdict.antt =====
-- agent/island_profiler.py: what `profile_island` says of every history.
use continuous_agent.Prelude.{
  ℕ, ◌+◌, ◌-◌, ◌≤◌, ◌<◌, ◌≡◌, ◌↔◌, refl, Bool, Bool-cases, false, ◌||◌, some, List, [], ◌∷◌, map,
  length, length-map, length-drop, ltb, ◌==◌, arith, inl, inr,
}
use continuous_agent.Prelude.Int.{ℤ, ◌≤ℤ◌, ◌-ℤ◌, ltb_ℤ}
use continuous_agent.Evolution.Health.{
  nominal, IslandHealth, Evaluation, largest, smallest, count_stagnant, max_ℤ, fitness_of,
  choose_action, reverse, last_of, young, full, profile_island,
}

-- Every number of the list is at most `hi`.
abbrev pub AllBelow : ℤ → List ℤ → Type 0
AllBelow hi [] = Unit
AllBelow hi (x ∷ xs) = (x ≤ℤ hi) × AllBelow hi xs

max_ℤ-left : (a b : ℤ) → a ≤ℤ max_ℤ a b
max_ℤ-left a b = ground arith

max_ℤ-right : (a b : ℤ) → b ≤ℤ max_ℤ a b
max_ℤ-right a b = ground arith

AllBelow-mono : (a b : ℤ) (xs : List ℤ) → a ≤ℤ b → AllBelow a xs → AllBelow b xs
AllBelow-mono a b [] le h = tt
AllBelow-mono a b (x ∷ xs) le (h, hs) = (omega arith, AllBelow-mono a b xs le hs)

largest-AllBelow : (x : ℤ) (xs : List ℤ) → AllBelow (largest x xs) (x ∷ xs)
unfolding largest
largest-AllBelow x [] = (omega arith, tt)
largest-AllBelow x (y ∷ ys) = (
  max_ℤ-left x (largest y ys),
  AllBelow-mono (largest y ys) _ (y ∷ ys) (max_ℤ-right x (largest y ys)) (largest-AllBelow y ys),
)

AllBelow-reverse :
    (hi : ℤ) (xs acc : List ℤ) → AllBelow hi (reverse xs acc) → AllBelow hi xs × AllBelow hi acc
AllBelow-reverse hi [] acc h = (tt, h)
AllBelow-reverse hi (x ∷ xs) acc h =
    let (hs, (hx, rest)) = AllBelow-reverse hi xs (x ∷ acc) h in ((hx, hs), rest)

length-reverse : (xs acc : List ℤ) → length (reverse xs acc) ≡ length xs + length acc
length-reverse [] acc = omega arith
length-reverse (x ∷ xs) acc = omega (arith, length-reverse xs (x ∷ acc))

length-last_of :
    (window : ℕ) (xs : List Evaluation)
    → 0 < window
    → window ≤ length xs
    → length (last_of window xs) ≡ window
length-last_of window xs positive enough =
    let nonzero : (window == 0) ≡ false = ground arith in
    rw (nonzero, length-drop (length xs - window) xs) (omega arith)

choose_action-nominal :
    (stagnation window : ℕ) (stagnant collapsed : Bool)
    → (choose_action stagnation window stagnant collapsed ≡ nominal)
      ↔ ((stagnant || collapsed) ≡ false)
choose_action-nominal s w st co = ground arith

module _ {E : Type 0} (zero_entropy one_entropy : E) (add_term : E → ℕ → ℕ → E)
    (below_threshold : E → Bool) (window_size : ℕ) (epsilon : ℤ) (island_id : ℕ) where
  -- What holds of a profile of these scores.
  abbrev pub IsSound : List ℤ → IslandHealth E → Type 0
  IsSound scores r =
      ((r.suggested_action ≡ nominal) ↔ (r.is_plateaued ≡ false))
      × AllBelow r.best_fitness scores
      × (r.total_evaluations ≡ length scores)

  young-IsSound :
      (scores : List ℤ)
      → IsSound scores (
          young zero_entropy one_entropy add_term below_threshold window_size epsilon island_id
            scores)
  young-IsSound [] = ((λ h. refl, λ h. refl), tt, refl)
  young-IsSound (f ∷ fs) = ((λ h. refl, λ h. refl), largest-AllBelow f fs, refl)

  full-IsSound :
      (window scores past : List ℤ) (entropy : E)
      → 0 < length window
      → 0 < length past
      → length past ≡ length scores
      → ((hi : ℤ) → AllBelow hi past → AllBelow hi scores)
      → (r : IslandHealth E) × (full zero_entropy one_entropy add_term below_threshold window_size
            epsilon island_id window past entropy
          ≡ some r)
        × IsSound scores r
  full-IsSound [] scores past entropy w p same below = absurd (omega arith)
  full-IsSound (f ∷ fs) scores [] entropy w p same below = absurd (omega arith)
  full-IsSound (f ∷ fs) scores (b ∷ past) entropy w p same below = (
    _,
    refl,
    (
      choose_action-nominal (count_stagnant epsilon b past) window_size
          (ltb_ℤ (largest f fs -ℤ smallest f fs) epsilon) (below_threshold entropy),
      below _ (largest-AllBelow b past),
      same,
    ),
  )

  -- With a window of at least one evaluation, every history has a profile. It suggests no action
  -- exactly where it does not report a plateau, its best fitness is an upper bound of the history's,
  -- and it counts every evaluation.
  pub profile_island-IsSound :
      (history : List Evaluation)
      → 0 < window_size
      → (r : IslandHealth E) × (profile_island zero_entropy one_entropy add_term below_threshold
            window_size epsilon island_id history
          ≡ some r)
        × IsSound (map fitness_of history) r
  unfolding profile_island
  profile_island-IsSound history positive = elim (Bool-cases (ltb (length history) window_size)) [
    | inl e ↦ rw e (_, refl, young-IsSound (map fitness_of history))
    | inr e ↦
        let enough : window_size ≤ length history = ground arith in
        let scores = map fitness_of history in
        let counted = length-map history fitness_of in
        let reversed = length-reverse scores [] in
        rw e (
          full-IsSound (map fitness_of (last_of window_size history)) scores (reverse scores []) _
            (omega (
              arith,
              length-map (last_of window_size history) fitness_of,
              length-last_of window_size history positive enough,
            ))
            (omega arith) (omega arith) (λ hi h. (AllBelow-reverse hi scores [] h).0))
  ]
