-- ===== src/Heuristic/Walk/Conjunctions.antt =====
-- A test of all nodes of a tree is a test of its parts.
use continuous_agent.Prelude.{◌≡◌, Bool, true, ◌&&◌, List, [], ◌∷◌, ◌++◌, append_assoc, arith}
use continuous_agent.Heuristic.Walk.{Node, Levels, zip_levels, flatten}

module _ {F : Type 0} (passes : List (Node F) → Bool) (passes-nil : passes [] ≡ true)
    (passes-append : (xs ys : List (Node F)) → passes (xs ++ ys) ≡ (passes xs && passes ys)) where
  pub zip_levels-passes :
      (xs ys : Levels F)
      → passes (flatten (zip_levels xs ys)) ≡ (passes (flatten xs) && passes (flatten ys))
  unfolding zip_levels flatten
  zip_levels-passes [] ys = ground (arith, passes-nil)
  zip_levels-passes (x ∷ xs) [] = ground (arith, passes-nil)
  zip_levels-passes (x ∷ xs) (y ∷ ys) = ground (
    arith,
    append_assoc x y (flatten (zip_levels xs ys)),
    passes-append (x ++ y) (flatten (zip_levels xs ys)),
    passes-append x y,
    passes-append x (flatten xs),
    passes-append y (flatten ys),
    zip_levels-passes xs ys,
  )

  -- With what the two parts are known to say.
  pub zip_levels-parts :
      {a b : Bool} (xs ys : Levels F)
      → passes (flatten xs) ≡ a
      → passes (flatten ys) ≡ b
      → passes (flatten (zip_levels xs ys)) ≡ (a && b)
  zip_levels-parts xs ys p q = rw (zip_levels-passes, p, q)
