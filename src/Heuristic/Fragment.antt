-- ===== src/Heuristic/Fragment.antt =====
-- The kinds of expressions of which the theorems on the compilers speak.
use continuous_agent.Prelude.{str_eq, Bool, true, false, ◌&&◌, ◌||◌, [], ◌∷◌}
use continuous_agent.Heuristic.{
  BinOp, add, sub, mult, div, UnaryOp, usub, uadd, CmpOp, other_cmp, num, Expr, name, constant,
  bin_op, unary_op, if_exp, compare, call, attribute, other, Exprs, nil, cons,
}

-- Expressions of names, numbers, the four operators and signs.
abbrev pub is_bin : BinOp → Bool
is_bin add = true
is_bin sub = true
is_bin mult = true
is_bin div = true
is_bin _ = false

abbrev pub is_sign : UnaryOp → Bool
is_sign usub = true
is_sign uadd = true
is_sign _ = false

unfoldable pub is_arith : {F : Type 0} → Expr F → Bool
is_arith (name x) = str_eq x "item" || str_eq x "bin_capacity"
is_arith (constant (num v)) = true
is_arith (bin_op l op r) = is_bin op && (is_arith l && is_arith r)
is_arith (unary_op op e) = is_sign op && is_arith e
is_arith _ = false

abbrev pub is_test : CmpOp → Bool
is_test other_cmp = false
is_test _ = true

-- Arithmetic expressions, and conditionals whose test is one comparison.
unfoldable pub is_supported : {F : Type 0} → Expr F → Bool
is_supported (name x) = str_eq x "item" || str_eq x "bin_capacity"
is_supported (constant (num v)) = true
is_supported (bin_op l op r) = is_bin op && (is_supported l && is_supported r)
is_supported (unary_op op e) = is_sign op && is_supported e
is_supported (if_exp (compare l (op ∷ []) (cons r nil)) e f) =
    is_test op && ((is_supported l && is_supported r) && (is_supported e && is_supported f))
is_supported _ = false

-- A test holds of the right operand of every division, in every branch.
unfoldable mutual
  pub each_divisor : {F : Type 0} → (Expr F → Bool) → Expr F → Bool
  each_divisor p (bin_op l div r) = p r && (each_divisor p l && each_divisor p r)
  each_divisor p (bin_op l op r) = each_divisor p l && each_divisor p r
  each_divisor p (unary_op op e) = each_divisor p e
  each_divisor p (if_exp t e f) = each_divisor p t && (each_divisor p e && each_divisor p f)
  each_divisor p (compare l ops cs) = each_divisor p l && each_divisor_all p cs
  each_divisor p (call f args) = each_divisor p f && each_divisor_all p args
  each_divisor p (attribute e a) = each_divisor p e
  each_divisor p (other t es) = each_divisor_all p es
  each_divisor p e = true

  pub each_divisor_all : {F : Type 0} → (Expr F → Bool) → Exprs F → Bool
  each_divisor_all p nil = true
  each_divisor_all p (cons e es) = each_divisor p e && each_divisor_all p es
