-- ===== src/Heuristic/Contract/Divisors.antt =====
-- agent/cegis_verifier.py: the divisors that `ast.walk` finds are those of the expression.
use continuous_agent.Prelude.{
  ◌≡◌, refl, ◌∙◌, Bool, true, ◌&&◌, &&-true, &&-parts, &&-intro, List, [], ◌∷◌, ◌++◌, arith,
}
use continuous_agent.Heuristic.{
  div, CmpOp, Expr, name, constant, bin_op, unary_op, if_exp, compare, call, attribute, other,
  Exprs, nil, cons,
}
use continuous_agent.Heuristic.Fragment.{
  is_bin, is_sign, is_test, is_supported, each_divisor, each_divisor_all,
}
use continuous_agent.Heuristic.Walk.{
  Node, expr_node, function_node, plain, Levels, zip_levels, leaf, node, bin_name, unary_name,
  cmp_name, cmp_leaves, levels, levels_all, flatten, walk,
}
use continuous_agent.Heuristic.Walk.Conjunctions.{zip_levels-parts}
use continuous_agent.Heuristic.Contract.{divisors}

module _ {F : Type 0} where
  unfoldable pub all_of : (Expr F → Bool) → List (Expr F) → Bool
  all_of p [] = true
  all_of p (e ∷ es) = p e && all_of p es

  module _ (p : Expr F → Bool) where
    passes : List (Node F) → Bool
    passes ns = all_of p (divisors ns)

    passes-append : (xs ys : List (Node F)) → passes (xs ++ ys) ≡ (passes xs && passes ys)
    unfolding passes all_of divisors
    passes-append [] ys = refl
    passes-append (plain t ∷ xs) ys = passes-append xs ys
    passes-append (function_node f args body ∷ xs) ys = passes-append xs ys
    passes-append (expr_node (name x) ∷ xs) ys = passes-append xs ys
    passes-append (expr_node (bin_op l div r) ∷ xs) ys = ground (arith, passes-append xs ys)
    passes-append (expr_node (bin_op l op r) ∷ xs) ys = passes-append xs ys
    passes-append (expr_node e ∷ xs) ys = passes-append xs ys

    abbrev clear : Levels F → Bool
    clear ls = passes (flatten ls)

    zipped :
        {a b : Bool} (xs ys : Levels F)
        → clear xs ≡ a
        → clear ys ≡ b
        → clear (zip_levels xs ys) ≡ (a && b)
    unfolding passes all_of divisors
    zipped = zip_levels-parts passes refl passes-append

    clear-cmp_leaves : (ops : List CmpOp) → clear (cmp_leaves ops) ≡ true
    unfolding cmp_leaves flatten passes all_of divisors
    clear-cmp_leaves [] = refl
    clear-cmp_leaves (op ∷ ops) =
        zipped (leaf (cmp_name op)) (cmp_leaves ops) refl (clear-cmp_leaves ops)

    clear-div :
        (l r : Expr F) (ls : Levels F) {b : Bool}
        → clear ls ≡ b
        → clear (node (expr_node (bin_op l div r)) ls) ≡ (p r && b)
    unfolding flatten passes all_of divisors
    clear-div l r ls h = rw h

mutual
  unfolding levels flatten passes all_of divisors each_divisor

  clear-levels :
      {F : Type 0} (p : Expr F → Bool) (e : Expr F) → clear p (levels e) ≡ each_divisor p e
  clear-levels p (name x) = refl
  clear-levels p (constant v) = refl
  clear-levels p (bin_op l div r) =
      clear-div p l r (zip_levels (levels l) (zip_levels (leaf "Div") (levels r))) (
        zipped p (levels l) (zip_levels (leaf "Div") (levels r)) (clear-levels p l)
          (zipped p (leaf "Div") (levels r) refl (clear-levels p r)))
  clear-levels p (bin_op l op r) =
      zipped p (levels l) (zip_levels (leaf (bin_name op)) (levels r)) (clear-levels p l)
        (zipped p (leaf (bin_name op)) (levels r) refl (clear-levels p r))
  clear-levels p (unary_op op e) =
      zipped p (leaf (unary_name op)) (levels e) refl (clear-levels p e)
  clear-levels p (if_exp t e f) =
      zipped p (levels t) (zip_levels (levels e) (levels f)) (clear-levels p t)
        (zipped p (levels e) (levels f) (clear-levels p e) (clear-levels p f))
  clear-levels p (compare l ops cs) =
      zipped p (levels l) (zip_levels (cmp_leaves ops) (levels_all cs)) (clear-levels p l)
        (zipped p (cmp_leaves ops) (levels_all cs) (clear-cmp_leaves p ops) (clear-levels_all p cs))
  clear-levels p (call f args) =
      zipped p (levels f) (levels_all args) (clear-levels p f) (clear-levels_all p args)
  clear-levels p (attribute e a) =
      zipped p (levels e) (leaf "Load") (clear-levels p e) refl ∙ &&-true _
  clear-levels p (other t es) = clear-levels_all p es

  clear-levels_all :
      {F : Type 0} (p : Expr F → Bool) (es : Exprs F)
      → clear p (levels_all es) ≡ each_divisor_all p es
  clear-levels_all p nil = refl
  clear-levels_all p (cons e es) =
      zipped p (levels e) (levels_all es) (clear-levels p e) (clear-levels_all p es)

pub all_of-divisors :
    {F : Type 0} (p : Expr F → Bool) (e : Expr F) → all_of p (divisors (walk e)) ≡ each_divisor p e
unfolding walk passes
all_of-divisors p e = clear-levels p e

-- The divisors of a supported expression are supported.
pub is_supported-each_divisor :
    {F : Type 0} (e : Expr F) → is_supported e ≡ true → each_divisor is_supported e ≡ true
unfolding is_supported each_divisor
is_supported-each_divisor (name x) h = refl
is_supported-each_divisor (constant v) h = refl
is_supported-each_divisor (bin_op l div r) h =
    let (p, q) = &&-parts _ _ h in
    &&-intro q (&&-intro (is_supported-each_divisor l p) (is_supported-each_divisor r q))
is_supported-each_divisor (bin_op l op r) h =
    let (o, lr) = &&-parts (is_bin op) (is_supported l && is_supported r) h in
    let (p, q) = &&-parts _ _ lr in
    &&-intro (is_supported-each_divisor l p) (is_supported-each_divisor r q)
is_supported-each_divisor (unary_op op e) h =
    is_supported-each_divisor e (&&-parts (is_sign op) (is_supported e) h).1
is_supported-each_divisor (if_exp (compare l (op ∷ []) (cons r nil)) e f) h =
    let (o, parts) = &&-parts (is_test op) _ h in
    let (test, branches) = &&-parts _ _ parts in
    let (p, q) = &&-parts _ _ test in
    let (y, n) = &&-parts _ _ branches in
    &&-intro
      (&&-intro (is_supported-each_divisor l p) (&&-intro (is_supported-each_divisor r q) refl))
      (&&-intro (is_supported-each_divisor e y) (is_supported-each_divisor f n))
is_supported-each_divisor _ h = cc
