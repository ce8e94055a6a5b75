-- ===== src/Heuristic/Examples.antt =====
-- Runs of the compilers, the guard and the verifier over four numbers, 0 to 3, with arithmetic that
-- stops at 3. The solver tries every assignment, so it decides.
use continuous_agent.Prelude.{
  ℕ, zero, suc, ◌+◌, ◌-◌, ◌*◌, ◌/◌, ◌≡◌, ◌≢◌, ◌↔◌, refl, fun_ext, String, Bool, true, false, ◌||◌,
  Option, none, some, List, [], ◌∷◌, arith, ltb, leb, ◌==◌,
}
use continuous_agent.Heuristic.{
  Arith, Expr, name, constant, bin_op, num, div, Exprs, nil, ret, Stmts, stop, seq, function_def,
  Arg, Arguments, find_return, eval,
}
use continuous_agent.Heuristic.Fragment.{is_arith, is_supported}
use continuous_agent.Heuristic.Wat.{
  Instr, local_get_item, local_get_cap, f64_add, f64_sub, f64_mul, f64_div, f64_neg, f64_const,
  compile_python_to_wat,
}
use continuous_agent.Heuristic.Wat.Correct.{
  WasmEngine, Converts, run, all_fit, compile_python_to_wat-runs,
}
use continuous_agent.Heuristic.Walk.{walk, find_priority}
use continuous_agent.Heuristic.Guard.{contains, forbidden_identifier, sanitize_ast}
use continuous_agent.Heuristic.Guard.Purity.{sanitize_ast-eq-none_iff}
use continuous_agent.Heuristic.Guard.Pure.{pure_body}
use continuous_agent.Heuristic.Symbolic.{Var, item, cap, cap2, Cond, transpile, denote}
use continuous_agent.Heuristic.Symbolic.Correct.{IsLawful, IsTranslated, transpile-IsTranslated}
use continuous_agent.Heuristic.Contract.{
  Solver, Answer, sat, unsat, unknown, Numerals, meets, divisors, zero_tests, verify,
}
use continuous_agent.Heuristic.Contract.Sound.{DecidesAll, Decides, verify-defined, verify-monotone}

data Level : Type 0 where
  l0 l1 l2 l3 : Level

abbrev value_of : Level → ℕ
value_of l0 = 0
value_of l1 = 1
value_of l2 = 2
value_of l3 = 3

abbrev level : ℕ → Level
level zero = l0
level (suc zero) = l1
level (suc (suc zero)) = l2
level (suc (suc (suc n))) = l3

abbrev small : Arith Level
small = record {
  zero_f = l0;
  one_f = l1;
  add_f = λ a b. level (value_of a + value_of b);
  sub_f = λ a b. level (value_of a - value_of b);
  mul_f = λ a b. level (value_of a * value_of b);
  div_f = λ a b. level (value_of a / value_of b);
  neg_f = λ a. l0;
  lt_f = λ a b. ltb (value_of a) (value_of b);
  le_f = λ a b. leb (value_of a) (value_of b);
  eq_f = λ a b. value_of a == value_of b;
}

abbrev execute : Level → Level → Instr Level → List Level → Option (List Level)
execute i c local_get_item s = some (i ∷ s)
execute i c local_get_cap s = some (c ∷ s)
execute i c (f64_const v) s = some (v ∷ s)
execute i c f64_add (b ∷ a ∷ s) = some (small.add_f a b ∷ s)
execute i c f64_sub (b ∷ a ∷ s) = some (small.sub_f a b ∷ s)
execute i c f64_mul (b ∷ a ∷ s) = some (small.mul_f a b ∷ s)
execute i c f64_div (b ∷ a ∷ s) = some (small.div_f a b ∷ s)
execute i c f64_neg (a ∷ s) = some (small.neg_f a ∷ s)
execute i c instr s = none

abbrev engine : WasmEngine small
engine = record {
  execute = execute;
  get_item = λ i c s. refl;
  get_cap = λ i c s. refl;
  const = λ i c v s. refl;
  f_add = λ i c a b s. refl;
  f_sub = λ i c a b s. refl;
  f_mul = λ i c a b s. refl;
  f_div = λ i c a b s. refl;
  f_neg = λ i c a s. refl;
}

-- return 3 / bin_capacity
abbrev quotient : Expr Level
quotient = bin_op (constant (num l3)) div (name "bin_capacity")

abbrev parameter : String → Arg Level
parameter x = record { arg = x; annotation = none }

abbrev item_cap : Arguments Level
item_cap = record {
  posonlyargs = [];
  args = parameter "item" ∷ parameter "bin_capacity" ∷ [];
  vararg = none;
  kwonlyargs = [];
  kw_defaults = nil;
  kwarg = none;
  defaults = nil;
}

abbrev body : Stmts Level
body = seq (ret (some quotient)) stop

abbrev program : Stmts Level
program = seq (function_def "priority" item_cap body nil none nil) stop

program_found : find_priority program ≡ some (item_cap, body)
unfolding find_priority
program_found = refl

-- A default of a parameter that names a dangerous function is found.
abbrev dangerous : Stmts Level
dangerous =
    seq
      (function_def "priority" (record item_cap { defaults = Exprs.cons (name "open") nil }) body
        nil none nil)
      stop

dangerous_refused : sanitize_ast (some dangerous) ≡ some (forbidden_identifier "open")
unfolding sanitize_ast contains
dangerous_refused = refl

abbrev same : Level → Level
same v = v

abbrev any_fits : Level → Bool
any_fits v = true

small-Converts : Converts small small same any_fits
small-Converts = record {
  adds = λ a b ha hb h. refl;
  subs = λ a b ha hb h. refl;
  muls = λ a b ha hb h. refl;
  divs = λ a b ha hb n h. refl;
  negs = λ a ha h. refl;
}

quotient-is_arith : is_arith quotient ≡ true
unfolding is_arith
quotient-is_arith = refl

program_code :
    compile_python_to_wat same program ≡ some (f64_const l3 ∷ local_get_cap ∷ f64_div ∷ [])
unfolding compile_python_to_wat
program_code = refl

compile_python_to_wat-runs_example :
    (code : List (Instr Level)) × (v : Level) × (compile_python_to_wat same program ≡ some code)
    × (run same any_fits small-Converts engine l1 l2 code [] ≡ some (v ∷ []))
    × (all_fit same any_fits small-Converts engine l1 l2 quotient ≡ true
        → (w : Level) → eval small same l1 l2 quotient ≡ some w
        → v ≡ same w)
compile_python_to_wat-runs_example =
    compile_python_to_wat-runs same any_fits small-Converts engine l1 l2 program item_cap quotient
      program_found refl quotient-is_arith

sanitize_ast-eq-none_iff_example :
    (sanitize_ast (some program) ≡ none)
    ↔ ((items : Stmts Level) × (some program ≡ some items) × (pure_body items ≡ true))
sanitize_ast-eq-none_iff_example = sanitize_ast-eq-none_iff (some program)

program_accepted : sanitize_ast (some program) ≡ none
unfolding sanitize_ast contains
program_accepted = refl

small-IsLawful : IsLawful small
small-IsLawful = record { zero_eq = refl; one_ne = refl }

quotient-is_supported : is_supported quotient ≡ true
unfolding is_supported
quotient-is_supported = refl

abbrev assigned : Level → Level → Level → Var → Level
assigned i c c2 item = i
assigned i c c2 cap = c
assigned i c c2 cap2 = c2

transpile-IsTranslated_example : IsTranslated same small-IsLawful (assigned l1 l2 l3) cap quotient
transpile-IsTranslated_example =
    transpile-IsTranslated same small-IsLawful (assigned l1 l2 l3) cap quotient
      quotient-is_supported

abbrev any_level : (Level → Bool) → Bool
any_level p = p l0 || (p l1 || (p l2 || p l3))

any_level-false : (p : Level → Bool) → any_level p ≡ false → (x : Level) → p x ≡ false
any_level-false p h l0 = ground arith
any_level-false p h x = ground arith

some_assignment : List (Cond Level) → Bool
some_assignment cs = any_level λ i. any_level λ c. any_level λ c2. meets small (assigned i c c2) cs

assigned_eta : (value : Var → Level) → value ≡ assigned (value item) (value cap) (value cap2)
assigned_eta value = fun_ext at_var
  where
    at_var : (v : Var) → value v ≡ assigned (value item) (value cap) (value cap2) v
    at_var item = refl
    at_var v = refl

abbrev answer : Bool → Answer Level
answer true = sat none none
answer false = unsat

answer-unsat : (b : Bool) → answer b ≡ unsat → b ≡ false
answer-unsat true h = cc
answer-unsat false h = refl

tries_sound :
    (cs : List (Cond Level))
    → answer (some_assignment cs) ≡ unsat
    → (value : Var → Level) → meets small value cs ≡ false
unfolding some_assignment
tries_sound cs h value = rw (assigned_eta value) (
    any_level-false (λ x. meets small (assigned (value item) (value cap) x) cs)
      (any_level-false (λ x. any_level (λ c2. meets small (assigned (value item) x c2) cs))
        (any_level-false (λ x. any_level (λ c. any_level (λ c2. meets small (assigned x c c2) cs)))
          (answer-unsat _ h) (value item))
        (value cap))
      (value cap2))

abbrev tries : Solver small
tries = record {
  check = λ cs. answer (some_assignment cs);
  as_decimal = λ v. v;
  unsat_sound = tries_sound;
}

tries_decides : (cs : List (Cond Level)) → tries.check cs ≢ unknown
tries_decides cs = step (some_assignment cs)
  where
    step : (b : Bool) → answer b ≢ unknown
    step true = λ e. cc
    step false = λ e. cc

abbrev numerals : Numerals Level
numerals = record { hundred = l3; ten = l1; fifteen = l1; twenty = l2 }

program_verified : (verify same tries numerals (some program)).ok ≡ true
unfolding verify find_priority find_return transpile zero_tests divisors walk some_assignment meets
    denote
program_verified = refl

quotient-Decides : Decides same small-IsLawful tries numerals quotient
quotient-Decides = record {
  divisor_tests = λ cs made. decides_all cs;
  comparison = λ s s2 t t2. tries_decides _;
}
  where
    decides_all : (cs : List (Cond Level)) → DecidesAll same small-IsLawful tries numerals cs
    decides_all [] = tt
    decides_all (c ∷ cs) = (tries_decides _, decides_all cs)

verify-defined_example : (s : Level) × (eval small same l1 l2 quotient ≡ some s)
verify-defined_example =
    verify-defined same small-IsLawful tries numerals program item_cap quotient program_found refl
      quotient-is_supported quotient-Decides program_verified l1 l2 refl refl refl refl

verify-monotone_example : small.lt_f l1 l1 ≡ false
unfolding eval
verify-monotone_example =
    verify-monotone same small-IsLawful tries numerals program item_cap quotient program_found refl
      quotient-is_supported quotient-Decides program_verified l1 l2 l3 l1 l1 refl refl refl refl
      refl refl refl
