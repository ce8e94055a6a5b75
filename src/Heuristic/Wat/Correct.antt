-- ===== src/Heuristic/Wat/Correct.antt =====
-- agent/wat_compiler.py: the emitted code, run by a WebAssembly engine on floats, against Python's
-- arithmetic on its own numbers. The engine (wasmtime) is a parameter with the documented effect of
-- each instruction.
use continuous_agent.Prelude.{
  ◌≡◌, refl, sym, ap, ◌∙◌, append-nil, some-injective, if◌then◌else◌, &&-parts, ◌>>=◌, >>=-eq-some,
  inl, inr, String, str_eq, Bool-cases, Bool, true, false, ◌&&◌, Option, none, some, List, [], ◌∷◌,
  ◌++◌, arith,
}
use continuous_agent.Heuristic.{
  Arith, BinOp, add, sub, mult, div, UnaryOp, usub, uadd, num, Expr, name, constant, bin_op,
  unary_op, Stmts, stop, seq, Arguments, ret, apply, eval,
}
use continuous_agent.Heuristic.Walk.{find_priority, parameters}
use continuous_agent.Heuristic.Fragment.{is_bin, is_sign, is_arith}
use continuous_agent.Heuristic.Wat.{
  Instr, local_get_item, local_get_cap, f64_add, f64_sub, f64_mul, f64_div, f64_neg, f64_const,
  visit, bin_instr, compile_python_to_wat,
}

pub record WasmEngine {F : Type 0} (B : Arith F) : Type 0 where
  pub execute : F → F → Instr F → List F → Option (List F)
  pub get_item : (i c : F) (s : List F) → execute i c local_get_item s ≡ some (i ∷ s)
  pub get_cap : (i c : F) (s : List F) → execute i c local_get_cap s ≡ some (c ∷ s)
  pub const : (i c v : F) (s : List F) → execute i c (f64_const v) s ≡ some (v ∷ s)
  pub f_add : (i c a b : F) (s : List F) → execute i c f64_add (b ∷ a ∷ s) ≡ some (B.add_f a b ∷ s)
  pub f_sub : (i c a b : F) (s : List F) → execute i c f64_sub (b ∷ a ∷ s) ≡ some (B.sub_f a b ∷ s)
  pub f_mul : (i c a b : F) (s : List F) → execute i c f64_mul (b ∷ a ∷ s) ≡ some (B.mul_f a b ∷ s)
  pub f_div : (i c a b : F) (s : List F) → execute i c f64_div (b ∷ a ∷ s) ≡ some (B.div_f a b ∷ s)
  pub f_neg : (i c a : F) (s : List F) → execute i c f64_neg (a ∷ s) ≡ some (B.neg_f a ∷ s)

-- Python's numbers against floats. `fits` holds of numbers that a float holds exactly and whose zero
-- has a sign: floats, and integers other than 0 up to 2 ^ 53. On such numbers, and with such a
-- result, an operation of Python is the one on floats.
pub record Converts {P F : Type 0} (A : Arith P) (B : Arith F) (float_of : P → F) (fits : P → Bool)
    : Type 0 where
  pub adds :
      (a b : P)
      → fits a ≡ true
      → fits b ≡ true
      → fits (A.add_f a b) ≡ true
      → B.add_f (float_of a) (float_of b) ≡ float_of (A.add_f a b)
  pub subs :
      (a b : P)
      → fits a ≡ true
      → fits b ≡ true
      → fits (A.sub_f a b) ≡ true
      → B.sub_f (float_of a) (float_of b) ≡ float_of (A.sub_f a b)
  pub muls :
      (a b : P)
      → fits a ≡ true
      → fits b ≡ true
      → fits (A.mul_f a b) ≡ true
      → B.mul_f (float_of a) (float_of b) ≡ float_of (A.mul_f a b)
  pub divs :
      (a b : P)
      → fits a ≡ true
      → fits b ≡ true
      → A.eq_f b A.zero_f ≡ false
      → fits (A.div_f a b) ≡ true
      → B.div_f (float_of a) (float_of b) ≡ float_of (A.div_f a b)
  pub negs :
      (a : P)
      → fits a ≡ true
      → fits (A.neg_f a) ≡ true
      → B.neg_f (float_of a) ≡ float_of (A.neg_f a)

module _ {P F : Type 0} {A : Arith P} {B : Arith F} (float_of : P → F) (fits : P → Bool)
    (converts : Converts A B float_of fits) (engine : WasmEngine B) (i c : P) where
  -- The body of a function is executed in order.
  pub run : List (Instr F) → List F → Option (List F)
  run [] s = some s
  run (instr ∷ code) s = engine.execute (float_of i) (float_of c) instr s >>= run code

  run-append : (xs ys : List (Instr F)) (s : List F) → run (xs ++ ys) s ≡ (run xs s >>= run ys)
  unfolding run
  run-append [] ys s = refl
  run-append (x ∷ xs) ys s = step (engine.execute (float_of i) (float_of c) x s) (run-append xs ys)
    where
      step :
          (r : Option (List F))
          → ((t : List F) → run (xs ++ ys) t ≡ (run xs t >>= run ys))
          → (r >>= run (xs ++ ys)) ≡ ((r >>= run xs) >>= run ys)
      step none h = refl
      step (some t) h = h t

  abbrev fits_value : Option P → Bool
  fits_value none = true
  fits_value (some v) = fits v

  -- In Python's evaluation every operand and every result of an operator fits.
  abbrev pub all_fit : Expr P → Bool
  all_fit (bin_op l op r) =
      fits_value (eval A (λ n. n) i c (bin_op l op r))
      && ((fits_value (eval A (λ n. n) i c l) && fits_value (eval A (λ n. n) i c r))
          && (all_fit l && all_fit r))
  all_fit (unary_op usub e) =
      fits_value (eval A (λ n. n) i c (unary_op usub e))
      && (fits_value (eval A (λ n. n) i c e) && all_fit e)
  all_fit (unary_op op e) = all_fit e
  all_fit e = true

  -- The code is emitted, it leaves one value on the stack, and Python agrees where it has a value.
  pub record IsFaithful (e : Expr P) : Type 0 where
    pub code : List (Instr F)
    pub value : F
    pub emitted : visit float_of e ≡ some code
    pub runs : (s : List F) → run code s ≡ some (value ∷ s)
    pub agrees : all_fit e ≡ true → (v : P) → eval A (λ n. n) i c e ≡ some v → value ≡ float_of v

  fitting : (o : Option P) (v : P) → o ≡ some v → fits_value o ≡ true → fits v ≡ true
  fitting none v e h = cc
  fitting (some w) v e h = let same : w ≡ v = cc e in rw (← same) h

  operands_fit :
      (l r : Expr P) (op : BinOp)
      → all_fit (bin_op l op r) ≡ true
      → (fits_value (eval A (λ n. n) i c (bin_op l op r)) ≡ true)
        × (fits_value (eval A (λ n. n) i c l) ≡ true)
        × (fits_value (eval A (λ n. n) i c r) ≡ true)
        × (all_fit l ≡ true)
        × (all_fit r ≡ true)
  operands_fit l r op h =
      let (v, lr) = &&-parts (fits_value (eval A (λ n. n) i c (bin_op l op r))) _ h in
      let (ab, both) =
        &&-parts (fits_value (eval A (λ n. n) i c l) && fits_value (eval A (λ n. n) i c r)) _ lr in
      let (a, b) = &&-parts (fits_value (eval A (λ n. n) i c l)) _ ab in
      let (p, q) = &&-parts (all_fit l) _ both in (v, a, b, p, q)

  operand_fits :
      (e : Expr P)
      → all_fit (unary_op usub e) ≡ true
      → (fits_value (eval A (λ n. n) i c (unary_op usub e)) ≡ true)
        × (fits_value (eval A (λ n. n) i c e) ≡ true)
        × (all_fit e ≡ true)
  operand_fits e h =
      let (v, rest) = &&-parts (fits_value (eval A (λ n. n) i c (unary_op usub e))) _ h in
      let (a, p) = &&-parts (fits_value (eval A (λ n. n) i c e)) _ rest in (v, a, p)

  -- One operator: its instruction and what that computes.
  IsFaithful-op :
      (l r : Expr P) (op : BinOp) (instr : Instr F) (f : F → F → F)
      → bin_instr op ≡ some (instr ∷ [])
      → ((a b : F) (s : List F)
          → engine.execute (float_of i) (float_of c) instr (b ∷ a ∷ s) ≡ some (f a b ∷ s))
      → ((a b v : P)
          → fits a ≡ true
          → fits b ≡ true
          → fits v ≡ true
          → apply A op a b ≡ some v
          → f (float_of a) (float_of b) ≡ float_of v)
      → IsFaithful l
      → IsFaithful r
      → IsFaithful (bin_op l op r)
  unfolding visit eval run
  IsFaithful-op l r op instr f known effect meaning p q = record {
    code = p.code ++ (q.code ++ instr ∷ []);
    value = f p.value q.value;
    emitted = rw (p.emitted, q.emitted, known);
    runs = λ s. rw (run-append, p.runs, run-append, q.runs, effect);
    agrees = λ fit v e.
        let (fit_v, fit_a, fit_b, fit_l, fit_r) = operands_fit l r op fit in
        let (a, l_value, rest) = >>=-eq-some (eval A (λ n. n) i c l) _ e in
        let (b, r_value, applied) = >>=-eq-some (eval A (λ n. n) i c r) _ rest in
        rw (p.agrees fit_l a l_value, q.agrees fit_r b r_value)
          (meaning a b v (fitting _ a l_value fit_a) (fitting _ b r_value fit_b)
            (fitting _ v e fit_v) applied);
  }

  div_agrees :
      (a b v : P)
      → fits a ≡ true
      → fits b ≡ true
      → fits v ≡ true
      → apply A div a b ≡ some v
      → B.div_f (float_of a) (float_of b) ≡ float_of v
  unfolding apply
  div_agrees a b v ha hb hv e = elim (Bool-cases (A.eq_f b A.zero_f)) [
    | inl zero ↦
        absurd (none-ne-some v (sym (ap (λ t. if t then none else some (A.div_f a b)) zero) ∙ e))
    | inr other ↦
        let same : A.div_f a b ≡ v =
          some-injective _ _ (sym (ap (λ t. if t then none else some (A.div_f a b)) other) ∙ e) in
        rw (← same) (converts.divs a b ha hb other (rw same hv))
  ]
    where
      none-ne-some : (v : P) → none ≡ some v → ⊥
      none-ne-some v e = cc

  IsFaithful-bin :
      (l r : Expr P) (op : BinOp)
      → is_bin op ≡ true
      → IsFaithful l
      → IsFaithful r
      → IsFaithful (bin_op l op r)
  unfolding apply
  IsFaithful-bin l r add h =
      IsFaithful-op l r add f64_add B.add_f refl (engine.f_add _ _) (λ a b v ha hb hv e.
        let same : A.add_f a b ≡ v = cc e in rw (← same) (converts.adds a b ha hb (rw same hv)))
  IsFaithful-bin l r sub h =
      IsFaithful-op l r sub f64_sub B.sub_f refl (engine.f_sub _ _) (λ a b v ha hb hv e.
        let same : A.sub_f a b ≡ v = cc e in rw (← same) (converts.subs a b ha hb (rw same hv)))
  IsFaithful-bin l r mult h =
      IsFaithful-op l r mult f64_mul B.mul_f refl (engine.f_mul _ _) (λ a b v ha hb hv e.
        let same : A.mul_f a b ≡ v = cc e in rw (← same) (converts.muls a b ha hb (rw same hv)))
  IsFaithful-bin l r div h =
      IsFaithful-op l r div f64_div B.div_f refl (engine.f_div _ _) div_agrees
  IsFaithful-bin l r _ h = cc

  IsFaithful-sign :
      (e : Expr P) (op : UnaryOp) → is_sign op ≡ true → IsFaithful e → IsFaithful (unary_op op e)
  unfolding visit eval run
  IsFaithful-sign e usub h p = record {
    code = p.code ++ f64_neg ∷ [];
    value = B.neg_f p.value;
    emitted = rw p.emitted;
    runs = λ s. rw (run-append, p.runs, engine.f_neg);
    agrees = λ fit v q.
        let (fit_v, fit_a, fit_in) = operand_fits e fit in
        let (a, value, rest) = >>=-eq-some (eval A (λ n. n) i c e) _ q in
        let same : A.neg_f a ≡ v = cc rest in
        rw (p.agrees fit_in a value, ← same)
          (converts.negs a (fitting _ a value fit_a) (rw same (fitting _ v q fit_v)));
  }
  IsFaithful-sign e uadd h p = record {
    code = p.code;
    value = p.value;
    emitted = rw (p.emitted, append-nil);
    runs = p.runs;
    agrees = p.agrees;
  }
  IsFaithful-sign e _ h p = cc

  IsFaithful-num : (v : P) → IsFaithful (constant (num v))
  unfolding visit eval run
  IsFaithful-num v = record {
    code = f64_const (float_of v) ∷ [];
    value = float_of v;
    emitted = refl;
    runs = λ s. rw engine.const;
    agrees = λ fit w e. cc;
  }

  IsFaithful-name : (x : String) → is_arith {F = P} (name x) ≡ true → IsFaithful (name x)
  unfolding visit eval run is_arith
  IsFaithful-name x h = elim (Bool-cases (str_eq x "item")) [
    | inl is_item ↦ record {
      code = local_get_item ∷ [];
      value = float_of i;
      emitted = rw is_item;
      runs = λ s. rw engine.get_item;
      agrees = λ fit v e. ground arith;
    }
    | inr other_name ↦ record {
      code = local_get_cap ∷ [];
      value = float_of c;
      emitted = ground arith;
      runs = λ s. rw engine.get_cap;
      agrees = λ fit v e. ground arith;
    }
  ]

  pub visit-IsFaithful : (e : Expr P) → is_arith e ≡ true → IsFaithful e
  unfolding is_arith
  visit-IsFaithful (name x) h = IsFaithful-name x h
  visit-IsFaithful (constant (num v)) h = IsFaithful-num v
  visit-IsFaithful (bin_op l op r) h =
      let (o, lr) = &&-parts _ _ h in
      let (p, q) = &&-parts _ _ lr in
      IsFaithful-bin l r op o (visit-IsFaithful l p) (visit-IsFaithful r q)
  visit-IsFaithful (unary_op op e) h =
      let (o, p) = &&-parts _ _ h in IsFaithful-sign e op o (visit-IsFaithful e p)
  visit-IsFaithful _ h = cc

  -- Where the `priority` that `ast.walk` finds first takes the item and the capacity, in this order,
  -- and is one return of an expression of names, numbers, + - * / and signs, and the engine gives
  -- each instruction its documented effect: the compiler emits code, and the code runs from the
  -- empty stack to exactly one value without a trap. Where moreover Python's evaluation has a value
  -- (it has none where a divisor is zero) and all its operands and results are floats or integers
  -- other than 0 that a float holds exactly, the two values are the same.
  pub compile_python_to_wat-runs :
      (items : Stmts P) (args : Arguments P) (e : Expr P)
      → find_priority items ≡ some (args, seq (ret (some e)) stop)
      → parameters args ≡ "item" ∷ "bin_capacity" ∷ []
      → is_arith e ≡ true
      → (code : List (Instr F)) × (v : F) × (compile_python_to_wat float_of items ≡ some code)
        × (run code [] ≡ some (v ∷ []))
        × (all_fit e ≡ true → (w : P) → eval A (λ n. n) i c e ≡ some w → v ≡ float_of w)
  unfolding compile_python_to_wat
  compile_python_to_wat-runs items args e found named h =
      let p = visit-IsFaithful e h in
      (p.code, p.value, rw (found, p.emitted, append-nil), p.runs [], p.agrees)
