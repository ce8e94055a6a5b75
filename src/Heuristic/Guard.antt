-- ===== src/Heuristic/Guard.antt =====
-- agent/ast_guard.py: `sanitize_ast`, the allowlist that a candidate has to pass before it runs.
-- The tree is the result of `ast.parse`: `none` where that raises SyntaxError.
pub mod Pure
pub mod Purity
use continuous_agent.Prelude.{
  String, str_eq, Bool, true, false, ◌||◌, Option, none, some, List, [], ◌∷◌, if◌then◌else◌,
  starts_with,
}
use continuous_agent.Heuristic.{Expr, name, call, attribute, Stmts}
use continuous_agent.Heuristic.Walk.{Node, expr_node, plain, type_name, walk_module}

pub data SecurityError : Type 0 where
  malformed_syntax complex_invocation : SecurityError
  unsafe_element internal_access forbidden_identifier attribute_access unauthorized_call :
      String → SecurityError

abbrev pub allowed_nodes : List String
allowed_nodes =
    "Module" ∷ "FunctionDef" ∷ "arguments" ∷ "arg" ∷ "Return" ∷ "Assign" ∷ "AnnAssign" ∷ "BinOp"
    ∷ "UnaryOp" ∷ "Constant" ∷ "Name" ∷ "Call" ∷ "Add" ∷ "Sub" ∷ "Mult" ∷ "Div" ∷ "FloorDiv" ∷ "Mod"
    ∷ "Pow" ∷ "USub" ∷ "UAdd" ∷ "IfExp" ∷ "Compare" ∷ "Lt" ∷ "LtE" ∷ "Gt" ∷ "GtE" ∷ "Eq" ∷ "NotEq"
    ∷ "Expr" ∷ "Pass" ∷ "Load" ∷ "Store" ∷ []

abbrev pub safe_call_functions : List String
safe_call_functions = "max" ∷ "min" ∷ "abs" ∷ "round" ∷ []

abbrev pub forbidden_names : List String
forbidden_names = "eval" ∷ "exec" ∷ "open" ∷ "compile" ∷ "globals" ∷ "locals" ∷ "__import__" ∷ []

-- `x in set`
unfoldable pub contains : List String → String → Bool
contains [] x = false
contains (y ∷ ys) x = str_eq x y || contains ys x

abbrev pub check_name : String → Option SecurityError
check_name x =
    if starts_with x "__"
    then some (internal_access x)
    else if contains forbidden_names x
    then some (forbidden_identifier x)
    else none

abbrev pub check_call : {F : Type 0} → Expr F → Option SecurityError
check_call (name f) = if contains safe_call_functions f then none else some (unauthorized_call f)
check_call _ = some complex_invocation

abbrev pub check_kind : {F : Type 0} → Node F → Option SecurityError
check_kind (expr_node (name x)) = check_name x
check_kind (expr_node (attribute e a)) = some (attribute_access a)
check_kind (expr_node (call f args)) = check_call f
check_kind _ = none

-- The body of the loop over the nodes.
unfoldable pub check_node : {F : Type 0} → Node F → Option SecurityError
check_node n =
    if contains allowed_nodes (type_name n)
    then check_kind n
    else some (unsafe_element (type_name n))

-- The loop: the first node that is refused ends it.
unfoldable pub check_nodes : {F : Type 0} → List (Node F) → Option SecurityError
unfolding check_node
check_nodes [] = none
check_nodes (n ∷ ns) = elim (check_node n) [ none ↦ check_nodes ns | some e ↦ some e ]

-- `none`: the function returns; `some e`: it raises `e`.
unfoldable pub sanitize_ast : {F : Type 0} → Option (Stmts F) → Option SecurityError
unfolding check_nodes walk_module
sanitize_ast none = some malformed_syntax
sanitize_ast (some items) = check_nodes (walk_module items)
