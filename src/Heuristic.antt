-- ===== src/Heuristic.antt =====
-- The Python syntax trees (`ast`) of the candidate heuristics, and the values of expressions.
-- Numbers are a parameter, a type with the operations listed in `Arith`: Python's own numbers, the
-- floats of WebAssembly, or the reals of the solver. A literal is held as Python's number.
mod Fragment
pub mod Wat
pub mod Walk
pub mod Guard
pub mod Symbolic
pub mod Contract
mod Examples
use continuous_agent.Prelude.{
  String, str_eq, Bool, true, false, not, ◌&&◌, ◌||◌, Option, none, some, ◌>>=◌, List, [], ◌∷◌,
  if◌then◌else◌,
}

pub data BinOp : Type 0 where
  add sub mult div floor_div mod_op pow other_op : BinOp

pub data UnaryOp : Type 0 where
  usub uadd not_op invert : UnaryOp

pub data CmpOp : Type 0 where
  gt gt_e lt lt_e eq not_eq other_cmp : CmpOp

-- `Constant`: a number, or a literal of another type.
pub data Literal (F : Type 0) : Type 0 where
  num : F → Literal F
  text : String → Literal F

-- `other` stands for each expression node that the program names nowhere, with its type's name
-- and its children. The arguments of a call are `args` and then its `keyword` nodes.
mutual
  pub data Expr (F : Type 0) : Type 0 where
    name : String → Expr F
    constant : Literal F → Expr F
    bin_op : Expr F → BinOp → Expr F → Expr F
    unary_op : UnaryOp → Expr F → Expr F
    if_exp : Expr F → Expr F → Expr F → Expr F
    compare : Expr F → List CmpOp → Exprs F → Expr F
    call : Expr F → Exprs F → Expr F
    attribute : Expr F → String → Expr F
    other : String → Exprs F → Expr F

  pub data Exprs (F : Type 0) : Type 0 where
    nil : Exprs F
    cons : Expr F → Exprs F → Exprs F

-- A parameter with its annotation.
pub record Arg (F : Type 0) : Type 0 where
  pub arg : String
  pub annotation : Option (Expr F)

-- The defaults are those that are given.
pub record Arguments (F : Type 0) : Type 0 where
  pub posonlyargs : List (Arg F)
  pub args : List (Arg F)
  pub vararg : Option (Arg F)
  pub kwonlyargs : List (Arg F)
  pub kw_defaults : Exprs F
  pub kwarg : Option (Arg F)
  pub defaults : Exprs F

-- Statements, of a module or of a body. A function definition has its name, parameters, body,
-- decorators, annotation of the result and type parameters, and may stand anywhere. `other_stmt`
-- stands for each statement node that the program names nowhere, with its type's name, its
-- expressions and its statements.
mutual
  pub data Stmt (F : Type 0) : Type 0 where
    ret : Option (Expr F) → Stmt F
    expr_stmt : Expr F → Stmt F
    assign : Exprs F → Expr F → Stmt F
    ann_assign : Expr F → Expr F → Option (Expr F) → Stmt F
    pass_stmt : Stmt F
    function_def : String → Arguments F → Stmts F → Exprs F → Option (Expr F) → Exprs F → Stmt F
    other_stmt : String → Exprs F → Stmts F → Stmt F

  pub data Stmts (F : Type 0) : Type 0 where
    stop : Stmts F
    seq : Stmt F → Stmts F → Stmts F

pub record Arith (F : Type 0) : Type 0 where
  pub zero_f : F
  pub one_f : F
  pub add_f : F → F → F
  pub sub_f : F → F → F
  pub mul_f : F → F → F
  pub div_f : F → F → F
  pub neg_f : F → F
  pub lt_f : F → F → Bool
  pub le_f : F → F → Bool
  pub eq_f : F → F → Bool

-- `for stmt in target_fn.body: if isinstance(stmt, ast.Return)`: the first return statement.
unfoldable pub find_return : {F : Type 0} → Stmts F → Option (Option (Expr F))
find_return stop = none
find_return (seq (ret value) body) = some value
find_return (seq s body) = find_return body

module _ {F : Type 0} (A : Arith F) where
  open A use {zero_f, one_f, add_f, sub_f, mul_f, div_f, neg_f, lt_f, le_f, eq_f}

  -- The comparison of two numbers.
  unfoldable pub holds : CmpOp → F → F → Option Bool
  holds gt a b = some (lt_f b a)
  holds gt_e a b = some (le_f b a)
  holds lt a b = some (lt_f a b)
  holds lt_e a b = some (le_f a b)
  holds eq a b = some (eq_f a b)
  holds not_eq a b = some (not (eq_f a b))
  holds other_cmp a b = none

  -- Python's operators. `none`: an exception (ZeroDivisionError), or an operator outside `Arith`.
  unfoldable pub apply : BinOp → F → F → Option F
  apply add a b = some (add_f a b)
  apply sub a b = some (sub_f a b)
  apply mult a b = some (mul_f a b)
  apply div a b = if eq_f b zero_f then none else some (div_f a b)
  apply _ a b = none

  abbrev pub of_bool : Bool → F
  of_bool b = if b then one_f else zero_f

-- `num_of` reads the literals.
module _ {P F : Type 0} (A : Arith F) (num_of : P → F) where
  -- The value of an expression in a call `priority(item, bin_capacity)`. `none` as in `apply`.
  unfoldable pub eval : F → F → Expr P → Option F
  unfolding holds apply
  eval i c (name x) =
      if str_eq x "item" then some i else if str_eq x "bin_capacity" then some c else none
  eval i c (constant (num v)) = some (num_of v)
  eval i c (bin_op l op r) = eval i c l >>= λ a. eval i c r >>= λ b. apply A op a b
  eval i c (unary_op usub e) = eval i c e >>= λ a. some (A.neg_f a)
  eval i c (unary_op uadd e) = eval i c e
  eval i c (if_exp t e o) =
      let yes_branch = eval i c e in
      let no_branch = eval i c o in
      eval i c t >>= λ v. if A.eq_f v A.zero_f then no_branch else yes_branch
  eval i c (compare l (op ∷ []) (cons r nil)) =
      eval i c l >>= λ a. eval i c r >>= λ b. holds A op a b >>= λ v. some (of_bool A v)
  eval i c _ = none
