-- ===== src/Heuristic/Symbolic.antt =====
-- agent/cegis_verifier.py: `ASTZ3Transpiler`, from Python expressions to terms of the solver.
-- The literals are Python's numbers, of a type `P`; the terms are over the solver's reals, of a type
-- `F`, and `real_of` is `z3.RealVal`. A visit of a node without a method of its own visits the children and returns None.
pub mod Correct
use continuous_agent.Prelude.{
  String, str_eq, Bool, true, false, not, Option, none, some, List, [], ◌∷◌, if◌then◌else◌,
}
use continuous_agent.Heuristic.{
  BinOp, add, sub, mult, div, UnaryOp, usub, uadd, CmpOp, gt, gt_e, lt, lt_e, eq, not_eq, other_cmp,
  Literal, num, text, Expr, name, constant, bin_op, unary_op, if_exp, compare, call, attribute,
  other, Exprs, nil, cons, Arith,
}

-- The real variables that the verifier declares.
pub data Var : Type 0 where
  item cap cap2 : Var

mutual
  pub data Term (F : Type 0) : Type 0 where
    var : Var → Term F
    real_val : F → Term F
    t_add t_sub t_mul t_div : Term F → Term F → Term F
    t_neg : Term F → Term F
    t_if : Cond F → Term F → Term F → Term F

  -- `known b` is the Python truth value that `==` and `!=` give where an operand is None.
  pub data Cond (F : Type 0) : Type 0 where
    c_lt c_le c_eq : Term F → Term F → Cond F
    c_not : Cond F → Cond F
    known : Bool → Cond F

-- How a visit ends: with a term or None, by ValueError, or by an error of another class (an
-- operator of the solver applied to None).
pub data Visited (A : Type 0) : Type 0 where
  gives : A → Visited A
  gives_none value_error crash : Visited A

module _ {A B : Type 0} where
  -- A use of the result that fails on None.
  abbrev pub need : Visited A → (A → Visited B) → Visited B
  need (gives a) f = f a
  need gives_none f = crash
  need value_error f = value_error
  need crash f = crash

  -- Both operands are visited before the operator looks at them.
  abbrev pub both : Visited A → Visited A → (A → A → Visited B) → Visited B
  both value_error q f = value_error
  both crash q f = crash
  both p value_error f = value_error
  both p crash f = crash
  both (gives a) (gives b) f = f a b
  both _ _ f = crash

  -- One visit after another, for its errors alone.
  abbrev pub after : Visited A → Visited B → Visited B
  after value_error q = value_error
  after crash q = crash
  after _ q = q

module _ {F : Type 0} (zero_f one_f : F) where
  -- `left / z3.If(right == 0, z3.RealVal(1.0), right)`
  abbrev pub guarded : Term F → Term F → Term F
  guarded l r = t_div l (t_if (c_eq r (real_val zero_f)) (real_val one_f) r)

  abbrev term_bin : BinOp → Visited (Term F) → Visited (Term F) → Visited (Term F)
  term_bin add p q = both p q (λ l r. gives (t_add l r))
  term_bin sub p q = both p q (λ l r. gives (t_sub l r))
  term_bin mult p q = both p q (λ l r. gives (t_mul l r))
  term_bin div p q = both p q (λ l r. gives (guarded l r))
  term_bin _ p q = after p (after q value_error)

  abbrev term_unary : UnaryOp → Visited (Term F) → Visited (Term F)
  term_unary usub p = need p (λ t. gives (t_neg t))
  term_unary uadd p = p
  term_unary _ p = after p value_error

-- `==` of two results, either of which may be None.
abbrev term_eq : {F : Type 0} → Visited (Term F) → Visited (Term F) → Visited (Cond F)
term_eq value_error q = value_error
term_eq crash q = crash
term_eq p value_error = value_error
term_eq p crash = crash
term_eq (gives l) (gives r) = gives (c_eq l r)
term_eq gives_none gives_none = gives (known true)
term_eq _ _ = gives (known false)

abbrev negate : {F : Type 0} → Visited (Cond F) → Visited (Cond F)
negate (gives (known b)) = gives (known (not b))
negate (gives c) = gives (c_not c)
negate p = p

-- The tests of `visit_condition` on the two results.
abbrev term_cmp : {F : Type 0} → CmpOp → Visited (Term F) → Visited (Term F) → Visited (Cond F)
term_cmp gt p q = both p q (λ l r. gives (c_lt r l))
term_cmp gt_e p q = both p q (λ l r. gives (c_le r l))
term_cmp lt p q = both p q (λ l r. gives (c_lt l r))
term_cmp lt_e p q = both p q (λ l r. gives (c_le l r))
term_cmp eq p q = term_eq p q
term_cmp not_eq p q = negate (term_eq p q)
term_cmp other_cmp p q = after p (after q value_error)

-- `z3.If(cond, body, orelse)`
abbrev term_if :
    {F : Type 0} → Visited (Cond F) → Visited (Term F) → Visited (Term F) → Visited (Term F)
term_if value_error p q = value_error
term_if crash p q = crash
term_if gives_none p q = crash
term_if (gives c) p q = both p q (λ t e. gives (t_if c t e))

unfoldable mutual
  -- The capacity is the variable `v`. `self.locals` stays empty: any other name is ValueError.
  pub transpile : {P F : Type 0} → (P → F) → F → F → Var → Expr P → Visited (Term F)
  transpile real_of z o v (name x) =
      if str_eq x "item"
      then gives (var item)
      else if str_eq x "bin_capacity"
      then gives (var v)
      else value_error
  transpile real_of z o v (constant (num x)) = gives (real_val (real_of x))
  transpile real_of z o v (constant (text s)) = value_error
  transpile real_of z o v (bin_op l op r) =
      term_bin z o op (transpile real_of z o v l) (transpile real_of z o v r)
  transpile real_of z o v (unary_op op e) = term_unary z o op (transpile real_of z o v e)
  transpile real_of z o v (if_exp (compare l (op ∷ []) (cons r nil)) e f) =
      term_if (term_cmp op (transpile real_of z o v l) (transpile real_of z o v r))
        (transpile real_of z o v e) (transpile real_of z o v f)
  transpile real_of z o v (if_exp (compare l ops cs) e f) =
      after (transpile real_of z o v l) value_error
  transpile real_of z o v (if_exp t e f) = value_error
  transpile real_of z o v (compare l ops cs) =
      after (transpile real_of z o v l) (visit_children real_of z o v cs)
  transpile real_of z o v (call f args) =
      after (transpile real_of z o v f) (visit_children real_of z o v args)
  transpile real_of z o v (attribute e a) = after (transpile real_of z o v e) gives_none
  transpile real_of z o v (other t es) = visit_children real_of z o v es

  visit_children : {P F : Type 0} → (P → F) → F → F → Var → Exprs P → Visited (Term F)
  visit_children real_of z o v nil = gives_none
  visit_children real_of z o v (cons e es) =
      after (transpile real_of z o v e) (visit_children real_of z o v es)

module _ {F : Type 0} (A : Arith F) (value : Var → F) where
  -- The reading of terms over the reals, under an assignment of the variables.
  unfoldable mutual
    pub denote : Term F → F
    denote (var x) = value x
    denote (real_val v) = v
    denote (t_add l r) = A.add_f (denote l) (denote r)
    denote (t_sub l r) = A.sub_f (denote l) (denote r)
    denote (t_mul l r) = A.mul_f (denote l) (denote r)
    denote (t_div l r) = A.div_f (denote l) (denote r)
    denote (t_neg t) = A.neg_f (denote t)
    denote (t_if c t e) = if denote_cond c then denote t else denote e

    pub denote_cond : Cond F → Bool
    denote_cond (c_lt l r) = A.lt_f (denote l) (denote r)
    denote_cond (c_le l r) = A.le_f (denote l) (denote r)
    denote_cond (c_eq l r) = A.eq_f (denote l) (denote r)
    denote_cond (c_not c) = not (denote_cond c)
    denote_cond (known b) = b
