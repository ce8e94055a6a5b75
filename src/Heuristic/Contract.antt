-- ===== src/Heuristic/Contract.antt =====
-- agent/cegis_verifier.py: `SymbolicContractVerifier.verify`. The solver (z3) is a parameter: its
-- `check` on a list of constraints, and its printing of a model's value to three decimals. The numbers
-- of constraints are the solver's reals; `real_of` is `z3.RealVal` of a literal.
mod Divisors
pub mod Sound
use continuous_agent.Prelude.{
  ◌≡◌, String, Bool, true, false, ◌&&◌, Option, none, some, List, [], ◌∷◌, ◌++◌,
}
use continuous_agent.Heuristic.{Expr, bin_op, div, Stmts, Arguments, Arith, find_return}
use continuous_agent.Heuristic.Walk.{Node, expr_node, walk, find_priority}
use continuous_agent.Heuristic.Symbolic.{
  Var, item, cap, cap2, Term, var, real_val, Cond, c_lt, c_le, c_eq, known, Visited, gives,
  gives_none, value_error, crash, transpile, denote_cond,
}

pub record Counterexample (F : Type 0) : Type 0 where
  pub invariant_name : String
  pub ce_item : F
  pub bin_capacity : F
  pub detail : String

-- The label given to `record_cegis_probe`.
pub data Probe : Type 0 where
  verified refuted : Probe

-- What `verify` returns, and the probe that it records.
pub record Verdict (F : Type 0) : Type 0 where
  pub ok : Bool
  pub counterexample : Option (Counterexample F)
  pub probe : Option Probe

-- A model shows a value for a variable only if it needs one.
pub data Answer (F : Type 0) : Type 0 where
  sat : Option F → Option F → Answer F
  unsat unknown : Answer F

-- Whether an assignment meets all constraints.
unfoldable pub meets : {F : Type 0} → Arith F → (Var → F) → List (Cond F) → Bool
meets A value [] = true
meets A value (c ∷ cs) = denote_cond A value c && meets A value cs

-- `unsat` is the solver's claim that no assignment meets the constraints.
pub record Solver {F : Type 0} (A : Arith F) : Type 0 where
  pub check : List (Cond F) → Answer F
  pub as_decimal : F → F
  pub unsat_sound :
      (cs : List (Cond F)) → check cs ≡ unsat → (value : Var → F) → meets A value cs ≡ false

-- The numerals of the source: 100, and the defaults for a value that the model leaves open.
pub record Numerals (F : Type 0) : Type 0 where
  pub hundred : F
  pub ten : F
  pub fifteen : F
  pub twenty : F

-- `if s.check() == z3.sat: … return`, and otherwise on to the next divisor.
abbrev pub or_later :
    {F : Type 0} → Answer F → Option (Option F × Option F) → Option (Option F × Option F)
or_later (sat i k) rest = some (i, k)
or_later _ rest = rest

-- `node.right` for each division under `ast.walk`.
unfoldable pub divisors : {F : Type 0} → List (Node F) → List (Expr F)
divisors [] = []
divisors (expr_node (bin_op l div r) ∷ ns) = r ∷ divisors ns
divisors (n ∷ ns) = divisors ns

module _ {P F : Type 0} {A : Arith F} (real_of : P → F) (solver : Solver A) (n : Numerals F) where
  abbrev pub zero_t : Term F
  zero_t = real_val A.zero_f

  abbrev pub item_range : List (Cond F)
  item_range = c_lt zero_t (var item) ∷ c_le (var item) (real_val n.hundred) ∷ []

  abbrev pub cap_range : List (Cond F)
  cap_range = item_range ++ c_le (var item) (var cap) ∷ c_le (var cap) (real_val n.hundred) ∷ []

  abbrev pub pair_range : List (Cond F)
  pair_range =
      item_range
      ++ c_le (var item) (var cap)
        ∷ c_lt (var cap) (var cap2)
        ∷ c_le (var cap2) (real_val n.hundred)
        ∷ []

  abbrev bypass : Verdict F
  bypass = record { ok = true; counterexample = none; probe = none }

  abbrev passed : Verdict F
  passed = record { ok = true; counterexample = none; probe = some verified }

  abbrev refute : String → F → F → String → Option Probe → Verdict F
  refute name i c text p = record {
    ok = false;
    counterexample =
        some (record { invariant_name = name; ce_item = i; bin_capacity = c; detail = text });
    probe = p;
  }

  -- The handler of every exception but ValueError. The message of the exception is left out.
  abbrev crashed : Verdict F
  crashed = refute "VerificationCrash" A.zero_f A.zero_f "" (some refuted)

  abbrev shown : Option F → F → F
  shown none d = d
  shown (some v) d = solver.as_decimal v

  -- The transpiled `denom == 0` of a divisor, before those of the rest.
  abbrev pub prepend : Visited (Term F) → Visited (List (Cond F)) → Visited (List (Cond F))
  prepend value_error rest = value_error
  prepend crash rest = crash
  prepend p value_error = value_error
  prepend p crash = crash
  prepend p gives_none = gives_none
  prepend gives_none (gives cs) = gives (known false ∷ cs)
  prepend (gives t) (gives cs) = gives (c_eq t zero_t ∷ cs)

  unfoldable pub zero_tests : List (Expr P) → Visited (List (Cond F))
  unfolding transpile
  zero_tests [] = gives []
  zero_tests (d ∷ ds) = prepend (transpile real_of A.zero_f A.one_f cap d) (zero_tests ds)

  -- The loop over the divisors: the model of the first test that the solver can meet.
  unfoldable pub singularity : List (Cond F) → Option (Option F × Option F)
  singularity [] = none
  singularity (c ∷ cs) = or_later (solver.check (cap_range ++ c ∷ [])) (singularity cs)

  -- The second invariant, on the scores at `cap` and at `cap2`.
  abbrev pub monotone_on : Answer F → Verdict F
  monotone_on (sat i k) =
      refute "FitMonotonicity" (shown i n.fifteen) (shown k n.twenty)
        "Tighter fit assigned lower priority" (some refuted)
  monotone_on _ = passed

  unfoldable pub monotone : Visited (Term F) → Visited (Term F) → Verdict F
  monotone (gives s) (gives s2) = monotone_on (solver.check (pair_range ++ c_lt s s2 ∷ []))
  monotone p value_error = bypass
  monotone _ _ = crashed

  unfoldable pub check_invariants : Visited (Term F) → Expr P → Visited (List (Cond F)) → Verdict F
  unfolding singularity monotone
  check_invariants p e (gives cs) = elim (singularity cs) [
    | some (i, k) ↦
        refute "NoSingularity" (shown i n.ten) (shown k n.ten) "Divisor evaluates to 0"
          (some refuted)
    | none ↦ monotone p (transpile real_of A.zero_f A.one_f cap2 e)
  ]
  check_invariants p e value_error = bypass
  check_invariants p e _ = crashed

  unfoldable pub verify_return : Visited (Term F) → Expr P → Verdict F
  unfolding check_invariants
  verify_return value_error e = bypass
  verify_return crash e = crashed
  verify_return p e = check_invariants p e (zero_tests (divisors (walk e)))

  abbrev pub missing : String → Verdict F
  missing text = refute "SyntaxContract" A.zero_f A.zero_f text none

  abbrev pub verify_body : Option (Option (Expr P)) → Verdict F
  verify_body (some (some e)) = verify_return (transpile real_of A.zero_f A.one_f cap e) e
  verify_body _ = missing "Missing return statement in priority()"

  abbrev pub verify_found : Option (Arguments P × Stmts P) → Verdict F
  verify_found none = missing "Missing priority() declaration"
  verify_found (some (args, body)) = verify_body (find_return body)

  -- `none` is a text that `ast.parse` refuses.
  unfoldable pub verify : Option (Stmts P) → Verdict F
  unfolding verify_return
  verify none = crashed
  verify (some items) = verify_found (find_priority items)
