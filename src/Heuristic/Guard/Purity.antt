-- ===== src/Heuristic/Guard/Purity.antt =====
-- agent/ast_guard.py: the loop over `ast.walk` against a description of pure code by recursion.
use continuous_agent.Prelude.{
  ◌≡◌, refl, sym, ap, ◌∙◌, ◌↔◌, String, Bool, true, false, not, ◌&&◌, &&-true, Option, none, some,
  List, [], ◌∷◌, ◌++◌, arith, starts_with, if◌then◌else◌,
}
use continuous_agent.Heuristic.{
  BinOp, add, UnaryOp, usub, CmpOp, gt, Expr, name, constant, bin_op, unary_op, if_exp, compare,
  call, attribute, other, Exprs, nil, cons, Stmt, ret, expr_stmt, assign, ann_assign, pass_stmt,
  function_def, other_stmt, Stmts, stop, seq, Arg, Arguments,
}
use continuous_agent.Heuristic.Walk.{
  Node, expr_node, function_node, plain, bin_name, unary_name, cmp_name, Levels, zip_levels, leaf,
  node, cmp_leaves, levels, levels_all, levels_option, levels_arg, levels_args, levels_optional_arg,
  levels_arguments, levels_stmt, levels_body, flatten, walk_module,
}
use continuous_agent.Heuristic.Walk.Conjunctions.{zip_levels-parts}
use continuous_agent.Heuristic.Guard.Pure.{
  safe_name, safe_bin, safe_unary, safe_ops, pure, pure_all, pure_option, pure_args,
  pure_optional_arg, pure_arguments, pure_stmt, pure_body,
}
use continuous_agent.Heuristic.Guard.{
  SecurityError, allowed_nodes, forbidden_names, contains, check_node, check_nodes, sanitize_ast,
}

-- Whether a check passes, as a Boolean.
abbrev accepted : Option SecurityError → Bool
accepted none = true
accepted (some e) = false

accepted-none : (r : Option SecurityError) → accepted r ≡ true → r ≡ none
accepted-none none h = refl
accepted-none (some e) h = cc

two_tests :
    (a b : Bool) (x y : SecurityError)
    → accepted (if a then some x else if b then some y else none) ≡ (not a && not b)
two_tests true b x y = refl
two_tests false true x y = refl
two_tests false false x y = refl

one_test : (a : Bool) (x : SecurityError) → accepted (if a then none else some x) ≡ a
one_test true x = refl
one_test false x = refl

module _ {F : Type 0} where
  passes : List (Node F) → Bool
  passes [] = true
  passes (n ∷ ns) = accepted (check_node n) && passes ns

  accepted-check_nodes : (ns : List (Node F)) → accepted (check_nodes ns) ≡ passes ns
  unfolding check_nodes passes
  accepted-check_nodes [] = refl
  accepted-check_nodes (n ∷ ns) = go (check_node n) (accepted-check_nodes ns)
    where
      go :
          (r : Option SecurityError)
          → accepted (check_nodes ns) ≡ passes ns
          → accepted (elim r [ none ↦ check_nodes ns | some e ↦ some e ])
            ≡ (accepted r && passes ns)
      go none h = h
      go (some e) h = refl

  passes-append : (xs ys : List (Node F)) → passes (xs ++ ys) ≡ (passes xs && passes ys)
  unfolding passes
  passes-append [] ys = refl
  passes-append (x ∷ xs) ys = ground (arith, passes-append xs ys)

  abbrev clean : Levels F → Bool
  clean ls = passes (flatten ls)

  zipped :
      {a b : Bool} (xs ys : Levels F)
      → clean xs ≡ a
      → clean ys ≡ b
      → clean (zip_levels xs ys) ≡ (a && b)
  unfolding passes
  zipped = zip_levels-parts passes refl passes-append

module _ (F : Type 0) where
  clean-plain : (t : String) → clean {F = F} (leaf t) ≡ contains allowed_nodes t
  unfolding check_node flatten passes
  clean-plain t = ground arith

  clean-cmp_leaf : (op : CmpOp) → clean {F = F} (leaf (cmp_name op)) ≡ safe_ops (op ∷ [])
  unfolding check_node flatten passes contains safe_ops
  clean-cmp_leaf gt = refl
  clean-cmp_leaf op = refl

  safe_ops-cons :
      (op : CmpOp) (ops : List CmpOp) → (safe_ops (op ∷ []) && safe_ops ops) ≡ safe_ops (op ∷ ops)
  unfolding safe_ops
  safe_ops-cons gt ops = refl
  safe_ops-cons op ops = refl

  clean-cmp_leaves : (ops : List CmpOp) → clean {F = F} (cmp_leaves ops) ≡ safe_ops ops
  unfolding cmp_leaves safe_ops flatten passes
  clean-cmp_leaves [] = refl
  clean-cmp_leaves (op ∷ ops) =
      zipped (leaf (cmp_name op)) (cmp_leaves ops) (clean-cmp_leaf op) (clean-cmp_leaves ops)
      ∙ safe_ops-cons op ops

  clean-bin_leaf : (op : BinOp) → clean {F = F} (leaf (bin_name op)) ≡ safe_bin op
  unfolding check_node flatten passes contains
  clean-bin_leaf add = refl
  clean-bin_leaf op = refl

  clean-unary_leaf : (op : UnaryOp) → clean {F = F} (leaf (unary_name op)) ≡ safe_unary op
  unfolding check_node flatten passes contains
  clean-unary_leaf usub = refl
  clean-unary_leaf op = refl

  allowed_name : contains allowed_nodes "Name" ≡ true
  unfolding contains
  allowed_name = refl

  allowed_call : contains allowed_nodes "Call" ≡ true
  unfolding contains
  allowed_call = refl

  refused_attribute : contains allowed_nodes "Attribute" ≡ false
  unfolding contains
  refused_attribute = refl

module _ {F : Type 0} where
  clean-node :
      (n : Node F) (children : Levels F)
      → clean (node n children) ≡ (accepted (check_node n) && clean children)
  unfolding flatten passes
  clean-node n children = refl

module _ (F : Type 0) where
  accepted-name : (x : String) → accepted (check_node {F = F} (expr_node (name x))) ≡ safe_name x
  unfolding check_node
  accepted-name x =
      rw (allowed_name F) (two_tests (starts_with x "__") (contains forbidden_names x) _ _)

  clean-name : (x : String) → clean (levels {F = F} (name x)) ≡ pure {F = F} (name x)
  unfolding levels pure contains
  clean-name x = clean-node _ _ ∙ rw (accepted-name, clean-plain F "Load") (&&-true _)

module _ {F : Type 0} where
  clean-call :
      (f : Expr F) (args : Exprs F)
      → clean (levels f) ≡ pure f
      → clean (levels_all args) ≡ pure_all args
      → clean (levels (call f args)) ≡ pure (call f args)
  unfolding check_node levels pure
  clean-call (name f) args p q =
      clean-node _ _ ∙ rw (allowed_call F, one_test, zipped (levels (name f)) (levels_all args) p q)
  clean-call (constant v) args p q = clean-node _ _ ∙ rw (allowed_call F)
  clean-call f args p q = clean-node _ _ ∙ rw (allowed_call F)

  clean-other :
      (t : String) (es : Exprs F)
      → clean (levels_all es) ≡ pure_all es
      → clean (levels (other t es)) ≡ pure (other t es)
  unfolding levels pure check_node
  clean-other t es h = clean-node _ _ ∙ rw (h, one_test)

  clean-attribute : (e : Expr F) (a : String) → clean (levels (attribute e a)) ≡ false
  unfolding levels check_node
  clean-attribute e a = clean-node _ _ ∙ rw (refused_attribute F)

mutual
  unfolding levels pure flatten passes check_node contains

  clean-levels : {F : Type 0} (e : Expr F) → clean (levels e) ≡ pure e
  clean-levels {F} (name x) = clean-name F x
  clean-levels (constant v) = refl
  clean-levels {F} (bin_op l op r) =
      zipped (levels l) _ (clean-levels l)
        (zipped (leaf (bin_name op)) (levels r) (clean-bin_leaf F op) (clean-levels r))
  clean-levels {F} (unary_op op e) =
      zipped (leaf (unary_name op)) (levels e) (clean-unary_leaf F op) (clean-levels e)
  clean-levels (if_exp t e o) =
      zipped (levels t) _ (clean-levels t)
        (zipped (levels e) (levels o) (clean-levels e) (clean-levels o))
  clean-levels {F} (compare l ops cs) =
      zipped (levels l) _ (clean-levels l)
        (zipped (cmp_leaves ops) (levels_all cs) (clean-cmp_leaves F ops) (clean-levels_all cs))
  clean-levels (call f args) = clean-call f args (clean-levels f) (clean-levels_all args)
  clean-levels (attribute e a) = clean-attribute e a
  clean-levels (other t es) = clean-other t es (clean-levels_all es)

  clean-levels_all : {F : Type 0} (es : Exprs F) → clean (levels_all es) ≡ pure_all es
  clean-levels_all nil = refl
  clean-levels_all (cons e es) =
      zipped (levels e) (levels_all es) (clean-levels e) (clean-levels_all es)

module _ {F : Type 0} where
  allowed_node :
      (t : String) (children : Levels F) {b : Bool}
      → contains allowed_nodes t ≡ true
      → clean children ≡ b
      → clean (node (plain t) children) ≡ b
  unfolding check_node
  allowed_node t children h p = clean-node (plain t) children ∙ rw (h, p)

  clean-levels_option : (o : Option (Expr F)) → clean (levels_option o) ≡ pure_option o
  unfolding flatten passes
  clean-levels_option none = refl
  clean-levels_option (some e) = clean-levels e

  clean-levels_arg : (a : Arg F) → clean (levels_arg a) ≡ pure_option a.annotation
  unfolding contains
  clean-levels_arg a =
      allowed_node "arg" (levels_option a.annotation) refl (clean-levels_option a.annotation)

  clean-levels_args : (args : List (Arg F)) → clean (levels_args args) ≡ pure_args args
  unfolding levels_args pure_args flatten passes
  clean-levels_args [] = refl
  clean-levels_args (a ∷ args) =
      zipped (levels_arg a) (levels_args args) (clean-levels_arg a) (clean-levels_args args)

  clean-levels_optional_arg :
      (o : Option (Arg F)) → clean (levels_optional_arg o) ≡ pure_optional_arg o
  unfolding flatten passes
  clean-levels_optional_arg none = refl
  clean-levels_optional_arg (some a) = clean-levels_arg a

  clean-levels_arguments : (a : Arguments F) → clean (levels_arguments a) ≡ pure_arguments a
  unfolding levels_arguments pure_arguments contains
  clean-levels_arguments a = allowed_node "arguments" _ refl (
      zipped (levels_args a.posonlyargs) _ (clean-levels_args a.posonlyargs) (
        zipped (levels_args a.args) _ (clean-levels_args a.args) (
          zipped (levels_optional_arg a.vararg) _ (clean-levels_optional_arg a.vararg) (
            zipped (levels_args a.kwonlyargs) _ (clean-levels_args a.kwonlyargs) (
              zipped (levels_all a.kw_defaults) _ (clean-levels_all a.kw_defaults) (
                zipped (levels_optional_arg a.kwarg) (levels_all a.defaults)
                  (clean-levels_optional_arg a.kwarg) (clean-levels_all a.defaults)))))))

  function_allowed :
      (f : String) (args : Arguments F) (body : Stmts F) (children : Levels F) {b : Bool}
      → clean children ≡ b
      → clean (node (function_node f args body) children) ≡ b
  unfolding check_node contains
  function_allowed f args body children p = clean-node (function_node f args body) children ∙ p

  clean-other_stmt :
      (t : String) (children : Levels F) {b : Bool}
      → clean children ≡ b
      → clean (node (plain t) children) ≡ (contains allowed_nodes t && b)
  unfolding check_node
  clean-other_stmt t children h = clean-node (plain t) children ∙ rw (h, one_test)

mutual
  unfolding levels_stmt levels_body pure_stmt pure_body contains flatten passes

  clean-levels_stmt : {F : Type 0} (s : Stmt F) → clean (levels_stmt s) ≡ pure_stmt s
  clean-levels_stmt (ret value) =
      allowed_node "Return" (levels_option value) refl (clean-levels_option value)
  clean-levels_stmt (expr_stmt e) = allowed_node "Expr" (levels e) refl (clean-levels e)
  clean-levels_stmt (assign targets e) =
      allowed_node "Assign" (zip_levels (levels_all targets) (levels e)) refl
        (zipped (levels_all targets) (levels e) (clean-levels_all targets) (clean-levels e))
  clean-levels_stmt (ann_assign target annotation value) =
      allowed_node "AnnAssign"
        (zip_levels (levels target) (zip_levels (levels annotation) (levels_option value))) refl
        (zipped (levels target) (zip_levels (levels annotation) (levels_option value))
          (clean-levels target)
          (zipped (levels annotation) (levels_option value) (clean-levels annotation)
            (clean-levels_option value)))
  clean-levels_stmt pass_stmt = allowed_node "Pass" [] refl refl
  clean-levels_stmt (function_def f args body decorators returns type_params) =
      let end = zip_levels (levels_option returns) (levels_all type_params) in
      let after = zip_levels (levels_all decorators) end in
      let inner = zip_levels (levels_body body) after in
      function_allowed f args body (zip_levels (levels_arguments args) inner) (
        zipped (levels_arguments args) inner (clean-levels_arguments args) (
          zipped (levels_body body) after (clean-levels_body body) (
            zipped (levels_all decorators) end (clean-levels_all decorators) (
              zipped (levels_option returns) (levels_all type_params) (clean-levels_option returns)
                (clean-levels_all type_params)))))
  clean-levels_stmt (other_stmt t es body) =
      clean-other_stmt t (zip_levels (levels_all es) (levels_body body))
        (zipped (levels_all es) (levels_body body) (clean-levels_all es) (clean-levels_body body))

  clean-levels_body : {F : Type 0} (body : Stmts F) → clean (levels_body body) ≡ pure_body body
  clean-levels_body stop = refl
  clean-levels_body (seq s body) =
      zipped (levels_stmt s) (levels_body body) (clean-levels_stmt s) (clean-levels_body body)

module _ {F : Type 0} where
  -- A parsed module is accepted exactly when it is pure: its statements, those of nested function
  -- definitions included, are of the allowed kinds and every expression in it (nested operands,
  -- annotations, defaults of parameters and decorators included) is built from names that
  -- are neither internal nor dangerous, constants, the allowed operators, conditionals and calls of
  -- max, min, abs and round by name. Text that does not parse is never accepted.
  pub sanitize_ast-eq-none_iff :
      (tree : Option (Stmts F))
      → (sanitize_ast tree ≡ none)
        ↔ ((items : Stmts F) × (tree ≡ some items) × (pure_body items ≡ true))
  unfolding sanitize_ast walk_module flatten passes check_node contains
  sanitize_ast-eq-none_iff none = (λ h. cc, λ (items, e, p). cc)
  sanitize_ast-eq-none_iff (some items) =
      let agree = accepted-check_nodes (walk_module items) ∙ clean-levels_body items in
      (
        λ h. (items, refl, sym agree ∙ ap accepted h),
        λ (parsed, e, p). accepted-none _ (agree ∙ cc),
      )
