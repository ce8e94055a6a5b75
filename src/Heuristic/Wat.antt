-- ===== src/Heuristic/Wat.antt =====
-- agent/wat_compiler.py: `PythonToWatCompiler`, which appends WebAssembly instructions to a list,
-- and `compile_python_to_wat`, which compiles the body of `priority`. The literals are Python's numbers,
-- of a type `P`; the constants of the code are floats, of a type `F`. The text of the module around
-- the instructions is left out: its parameters are the item and the capacity, in this order.
pub mod Correct
use continuous_agent.Prelude.{
  String, str_eq, Option, none, some, ◌>>=◌, List, [], ◌∷◌, ◌++◌, if◌then◌else◌,
}
use continuous_agent.Heuristic.{
  BinOp, add, sub, mult, div, UnaryOp, usub, uadd, Literal, num, text, Expr, name, constant, bin_op,
  unary_op, if_exp, compare, call, attribute, other, Exprs, nil, cons, Stmt, ret, expr_stmt, assign,
  ann_assign, pass_stmt, function_def, other_stmt, Stmts, stop, seq, Arg, Arguments,
}
use continuous_agent.Heuristic.Walk.{find_priority}

pub data Instr (F : Type 0) : Type 0 where
  local_get_item local_get_cap f64_add f64_sub f64_mul f64_div f64_neg : Instr F
  f64_const : F → Instr F

module _ {F : Type 0} where
  abbrev pub bin_instr : BinOp → Option (List (Instr F))
  bin_instr add = some (f64_add ∷ [])
  bin_instr sub = some (f64_sub ∷ [])
  bin_instr mult = some (f64_mul ∷ [])
  bin_instr div = some (f64_div ∷ [])
  bin_instr _ = none

  abbrev unary_instr : UnaryOp → Option (List (Instr F))
  unary_instr usub = some (f64_neg ∷ [])
  unary_instr uadd = some []
  unary_instr _ = none

  abbrev join : Option (List (Instr F)) → Option (List (Instr F)) → Option (List (Instr F))
  join p q = p >>= λ xs. q >>= λ ys. some (xs ++ ys)

-- What a visit appends to `self.instructions`; `none` is ValueError. A node without a method of its
-- own is visited child by child (`NodeVisitor.generic_visit`). `float_of` is Python's `float`.
unfoldable mutual
  pub visit : {P F : Type 0} → (P → F) → Expr P → Option (List (Instr F))
  visit float_of (name x) =
      if str_eq x "item"
      then some (local_get_item ∷ [])
      else if str_eq x "bin_capacity"
      then some (local_get_cap ∷ [])
      else none
  visit float_of (constant (num v)) = some (f64_const (float_of v) ∷ [])
  visit float_of (constant (text s)) = none
  visit float_of (bin_op l op r) = join (visit float_of l) (join (visit float_of r) (bin_instr op))
  visit float_of (unary_op op e) = join (visit float_of e) (unary_instr op)
  visit float_of (if_exp t e o) =
      join (visit float_of t) (join (visit float_of e) (visit float_of o))
  visit float_of (compare l ops cs) = join (visit float_of l) (visit_all float_of cs)
  visit float_of (call f args) = join (visit float_of f) (visit_all float_of args)
  visit float_of (attribute e a) = visit float_of e
  visit float_of (other t es) = visit_all float_of es

  pub visit_all : {P F : Type 0} → (P → F) → Exprs P → Option (List (Instr F))
  visit_all float_of nil = some []
  visit_all float_of (cons e es) = join (visit float_of e) (visit_all float_of es)

module _ {P F : Type 0} (float_of : P → F) where
  abbrev pub visit_option : Option (Expr P) → Option (List (Instr F))
  visit_option none = some []
  visit_option (some e) = visit float_of e

  abbrev pub visit_args : List (Arg P) → Option (List (Instr F))
  visit_args [] = some []
  visit_args (a ∷ args) = join (visit_option a.annotation) (visit_args args)

  abbrev pub visit_optional_arg : Option (Arg P) → Option (List (Instr F))
  visit_optional_arg none = some []
  visit_optional_arg (some a) = visit_option a.annotation

  abbrev pub visit_arguments : Arguments P → Option (List (Instr F))
  visit_arguments a = join (visit_args a.posonlyargs) (
      join (visit_args a.args) (
        join (visit_optional_arg a.vararg) (
          join (visit_args a.kwonlyargs) (
            join (visit_all float_of a.kw_defaults)
              (join (visit_optional_arg a.kwarg) (visit_all float_of a.defaults))))))

unfoldable mutual
  unfolding visit visit_all

  pub visit_stmt : {P F : Type 0} → (P → F) → Stmt P → Option (List (Instr F))
  visit_stmt float_of (ret value) = visit_option float_of value
  visit_stmt float_of (expr_stmt e) = visit float_of e
  visit_stmt float_of (assign targets e) = join (visit_all float_of targets) (visit float_of e)
  visit_stmt float_of (ann_assign target annotation value) =
      join (visit float_of target) (join (visit float_of annotation) (visit_option float_of value))
  visit_stmt float_of pass_stmt = some []
  visit_stmt float_of (function_def f args body decorators returns type_params) =
      join (visit_arguments float_of args) (
        join (visit_body float_of body) (
          join (visit_all float_of decorators)
            (join (visit_option float_of returns) (visit_all float_of type_params))))
  visit_stmt float_of (other_stmt t es body) =
      join (visit_all float_of es) (visit_body float_of body)

  pub visit_body : {P F : Type 0} → (P → F) → Stmts P → Option (List (Instr F))
  visit_body float_of stop = some []
  visit_body float_of (seq s body) = join (visit_stmt float_of s) (visit_body float_of body)

-- The instructions of the emitted function `$priority`.
unfoldable pub compile_python_to_wat : {P F : Type 0} → (P → F) → Stmts P → Option (List (Instr F))
unfolding find_priority visit_body
compile_python_to_wat float_of items =
    find_priority items >>= λ (args, body). visit_body float_of body
