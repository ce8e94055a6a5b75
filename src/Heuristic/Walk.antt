-- ===== src/Heuristic/Walk.antt =====
-- `ast.walk`: the nodes of a tree, level by level, each level from left to right.
pub mod Conjunctions
use continuous_agent.Prelude.{
  String, str_eq, Option, none, some, List, [], ◌∷◌, ◌++◌, if◌then◌else◌,
}
use continuous_agent.Heuristic.{
  BinOp, add, sub, mult, div, floor_div, mod_op, pow, other_op, UnaryOp, usub, uadd, not_op, invert,
  CmpOp, gt, gt_e, lt, lt_e, eq, not_eq, other_cmp, Expr, name, constant, bin_op, unary_op, if_exp,
  compare, call, attribute, other, Exprs, nil, cons, Stmt, ret, expr_stmt, assign, ann_assign,
  pass_stmt, function_def, other_stmt, Stmts, stop, seq, Arg, Arguments,
}

-- An expression, a function definition by its name, parameters and body, or a node that the program
-- looks at by its type's name alone.
pub data Node (F : Type 0) : Type 0 where
  expr_node : Expr F → Node F
  function_node : String → Arguments F → Stmts F → Node F
  plain : String → Node F

abbrev pub bin_name : BinOp → String
bin_name add = "Add"
bin_name sub = "Sub"
bin_name mult = "Mult"
bin_name div = "Div"
bin_name floor_div = "FloorDiv"
bin_name mod_op = "Mod"
bin_name pow = "Pow"
bin_name other_op = "MatMult"

abbrev pub unary_name : UnaryOp → String
unary_name usub = "USub"
unary_name uadd = "UAdd"
unary_name not_op = "Not"
unary_name invert = "Invert"

abbrev pub cmp_name : CmpOp → String
cmp_name gt = "Gt"
cmp_name gt_e = "GtE"
cmp_name lt = "Lt"
cmp_name lt_e = "LtE"
cmp_name eq = "Eq"
cmp_name not_eq = "NotEq"
cmp_name other_cmp = "In"

-- `type(node).__name__`
abbrev pub type_name : {F : Type 0} → Node F → String
type_name (plain t) = t
type_name (function_node f args body) = "FunctionDef"
type_name (expr_node (name x)) = "Name"
type_name (expr_node (constant v)) = "Constant"
type_name (expr_node (bin_op l op r)) = "BinOp"
type_name (expr_node (unary_op op e)) = "UnaryOp"
type_name (expr_node (if_exp t e o)) = "IfExp"
type_name (expr_node (compare l ops cs)) = "Compare"
type_name (expr_node (call f args)) = "Call"
type_name (expr_node (attribute e a)) = "Attribute"
type_name (expr_node (other t es)) = t

abbrev pub Levels : Type 0 → Type 0
Levels F = List (List (Node F))

module _ {F : Type 0} where
  -- Two trees side by side.
  unfoldable pub zip_levels : Levels F → Levels F → Levels F
  zip_levels [] ys = ys
  zip_levels (x ∷ xs) [] = x ∷ xs
  zip_levels (x ∷ xs) (y ∷ ys) = (x ++ y) ∷ zip_levels xs ys

  abbrev pub leaf : String → Levels F
  leaf t = (plain t ∷ []) ∷ []

  abbrev pub node : Node F → Levels F → Levels F
  node n children = (n ∷ []) ∷ children

  unfoldable pub cmp_leaves : List CmpOp → Levels F
  cmp_leaves [] = []
  cmp_leaves (op ∷ ops) = zip_levels (leaf (cmp_name op)) (cmp_leaves ops)

unfoldable mutual
  unfolding zip_levels cmp_leaves

  pub levels : {F : Type 0} → Expr F → Levels F
  levels (name x) = node (expr_node (name x)) (leaf "Load")
  levels (constant v) = node (expr_node (constant v)) []
  levels (bin_op l op r) =
      node (expr_node (bin_op l op r))
        (zip_levels (levels l) (zip_levels (leaf (bin_name op)) (levels r)))
  levels (unary_op op e) =
      node (expr_node (unary_op op e)) (zip_levels (leaf (unary_name op)) (levels e))
  levels (if_exp t e o) =
      node (expr_node (if_exp t e o)) (zip_levels (levels t) (zip_levels (levels e) (levels o)))
  levels (compare l ops cs) =
      node (expr_node (compare l ops cs))
        (zip_levels (levels l) (zip_levels (cmp_leaves ops) (levels_all cs)))
  levels (call f args) = node (expr_node (call f args)) (zip_levels (levels f) (levels_all args))
  levels (attribute e a) = node (expr_node (attribute e a)) (zip_levels (levels e) (leaf "Load"))
  levels (other t es) = node (expr_node (other t es)) (levels_all es)

  pub levels_all : {F : Type 0} → Exprs F → Levels F
  levels_all nil = []
  levels_all (cons e es) = zip_levels (levels e) (levels_all es)

module _ {F : Type 0} where
  abbrev pub levels_option : Option (Expr F) → Levels F
  levels_option none = []
  levels_option (some e) = levels e

  abbrev pub levels_arg : Arg F → Levels F
  levels_arg a = node (plain "arg") (levels_option a.annotation)

  unfoldable pub levels_args : List (Arg F) → Levels F
  unfolding levels
  levels_args [] = []
  levels_args (a ∷ args) = zip_levels (levels_arg a) (levels_args args)

  abbrev pub levels_optional_arg : Option (Arg F) → Levels F
  levels_optional_arg none = []
  levels_optional_arg (some a) = levels_arg a

  unfoldable pub levels_arguments : Arguments F → Levels F
  unfolding levels_args
  levels_arguments a = node (plain "arguments") (
      zip_levels (levels_args a.posonlyargs) (
        zip_levels (levels_args a.args) (
          zip_levels (levels_optional_arg a.vararg) (
            zip_levels (levels_args a.kwonlyargs) (
              zip_levels (levels_all a.kw_defaults)
                (zip_levels (levels_optional_arg a.kwarg) (levels_all a.defaults)))))))

unfoldable mutual
  unfolding zip_levels levels levels_all levels_arguments

  pub levels_stmt : {F : Type 0} → Stmt F → Levels F
  levels_stmt (ret value) = node (plain "Return") (levels_option value)
  levels_stmt (expr_stmt e) = node (plain "Expr") (levels e)
  levels_stmt (assign targets e) =
      node (plain "Assign") (zip_levels (levels_all targets) (levels e))
  levels_stmt (ann_assign target annotation value) =
      node (plain "AnnAssign")
        (zip_levels (levels target) (zip_levels (levels annotation) (levels_option value)))
  levels_stmt pass_stmt = node (plain "Pass") []
  levels_stmt (function_def f args body decorators returns type_params) =
      node (function_node f args body) (
        zip_levels (levels_arguments args) (
          zip_levels (levels_body body) (
            zip_levels (levels_all decorators)
              (zip_levels (levels_option returns) (levels_all type_params)))))
  levels_stmt (other_stmt t es body) =
      node (plain t) (zip_levels (levels_all es) (levels_body body))

  pub levels_body : {F : Type 0} → Stmts F → Levels F
  levels_body stop = []
  levels_body (seq s body) = zip_levels (levels_stmt s) (levels_body body)

module _ {F : Type 0} where
  unfoldable pub flatten : Levels F → List (Node F)
  flatten [] = []
  flatten (x ∷ xs) = x ++ flatten xs

  unfoldable pub walk : Expr F → List (Node F)
  unfolding flatten levels
  walk e = flatten (levels e)

  -- `ast.walk(tree)` of a whole module.
  unfoldable pub walk_module : Stmts F → List (Node F)
  unfolding flatten levels_body
  walk_module items = flatten (node (plain "Module") (levels_body items))

  abbrev pub names : List (Arg F) → List String
  names [] = []
  names (a ∷ args) = a.arg ∷ names args

  -- The parameters that positions fill, in their order.
  abbrev pub parameters : Arguments F → List String
  parameters a = names a.posonlyargs ++ names a.args

  unfoldable pub first_priority : List (Node F) → Option (Arguments F × Stmts F)
  first_priority [] = none
  first_priority (function_node f args body ∷ nodes) =
      let rest = first_priority nodes in if str_eq f "priority" then some (args, body) else rest
  first_priority (n ∷ nodes) = first_priority nodes

  -- `for node in ast.walk(tree): if isinstance(node, ast.FunctionDef) and node.name == "priority"`.
  unfoldable pub find_priority : Stmts F → Option (Arguments F × Stmts F)
  unfolding walk_module first_priority
  find_priority items = first_priority (walk_module items)
