-- ===== src/Heuristic/Guard/Pure.antt =====
-- A description by recursion of the modules that agent/ast_guard.py means to accept.
use continuous_agent.Prelude.{
  String, Bool, true, false, not, ◌&&◌, Option, none, some, List, [], ◌∷◌, starts_with,
}
use continuous_agent.Heuristic.{
  BinOp, other_op, UnaryOp, usub, uadd, CmpOp, other_cmp, Expr, name, constant, bin_op, unary_op,
  if_exp, compare, call, attribute, other, Exprs, nil, cons, Stmt, ret, expr_stmt, assign,
  ann_assign, pass_stmt, function_def, other_stmt, Stmts, stop, seq, Arg, Arguments,
}
use continuous_agent.Heuristic.Guard.{allowed_nodes, safe_call_functions, forbidden_names, contains}

abbrev pub safe_name : String → Bool
safe_name x = not (starts_with x "__") && not (contains forbidden_names x)

abbrev pub safe_bin : BinOp → Bool
safe_bin other_op = false
safe_bin _ = true

abbrev pub safe_unary : UnaryOp → Bool
safe_unary usub = true
safe_unary uadd = true
safe_unary _ = false

unfoldable pub safe_ops : List CmpOp → Bool
safe_ops [] = true
safe_ops (other_cmp ∷ ops) = false
safe_ops (op ∷ ops) = safe_ops ops

-- Names that are not internal or dangerous, numbers, the arithmetic and comparison operators,
-- conditionals, and calls of max, min, abs and round by name.
unfoldable mutual
  unfolding safe_ops

  pub pure : {F : Type 0} → Expr F → Bool
  pure (name x) = safe_name x
  pure (constant v) = true
  pure (bin_op l op r) = pure l && (safe_bin op && pure r)
  pure (unary_op op e) = safe_unary op && pure e
  pure (if_exp t e o) = pure t && (pure e && pure o)
  pure (compare l ops cs) = pure l && (safe_ops ops && pure_all cs)
  pure (call (name f) args) = contains safe_call_functions f && (safe_name f && pure_all args)
  pure (call _ args) = false
  pure (attribute e a) = false
  pure (other t es) = contains allowed_nodes t && pure_all es

  pub pure_all : {F : Type 0} → Exprs F → Bool
  pure_all nil = true
  pure_all (cons e es) = pure e && pure_all es

module _ {F : Type 0} where
  abbrev pub pure_option : Option (Expr F) → Bool
  pure_option none = true
  pure_option (some e) = pure e

  unfoldable pub pure_args : List (Arg F) → Bool
  unfolding pure
  pure_args [] = true
  pure_args (a ∷ args) = pure_option a.annotation && pure_args args

  abbrev pub pure_optional_arg : Option (Arg F) → Bool
  pure_optional_arg none = true
  pure_optional_arg (some a) = pure_option a.annotation

  -- The annotations and defaults of all parameters.
  unfoldable pub pure_arguments : Arguments F → Bool
  unfolding pure_args
  pure_arguments a =
      pure_args a.posonlyargs
      && (pure_args a.args
          && (pure_optional_arg a.vararg
              && (pure_args a.kwonlyargs
                  && (pure_all a.kw_defaults
                      && (pure_optional_arg a.kwarg && pure_all a.defaults)))))

unfoldable mutual
  unfolding pure pure_arguments

  pub pure_stmt : {F : Type 0} → Stmt F → Bool
  pure_stmt (ret value) = pure_option value
  pure_stmt (expr_stmt e) = pure e
  pure_stmt (assign targets e) = pure_all targets && pure e
  pure_stmt (ann_assign target annotation value) =
      pure target && (pure annotation && pure_option value)
  pure_stmt pass_stmt = true
  pure_stmt (function_def f args body decorators returns type_params) =
      pure_arguments args
      && (pure_body body && (pure_all decorators && (pure_option returns && pure_all type_params)))
  pure_stmt (other_stmt t es body) = contains allowed_nodes t && (pure_all es && pure_body body)

  pub pure_body : {F : Type 0} → Stmts F → Bool
  pure_body stop = true
  pure_body (seq s body) = pure_stmt s && pure_body body
