-- ===== src/Heuristic/Symbolic/Correct.antt =====
-- agent/cegis_verifier.py: what the terms of `ASTZ3Transpiler` mean, against the expressions read over
-- the same numbers, the solver's reals.
use continuous_agent.Prelude.{
  ◌≡◌, refl, sym, ap, ◌∙◌, String, str_eq, Bool, Bool-cases, true, false, not, ◌&&◌, Option, some,
  >>=-eq-some, &&-parts, [], ◌∷◌, arith, if◌then◌else◌, inl, inr,
}
use continuous_agent.Heuristic.{
  BinOp, add, sub, mult, div, UnaryOp, usub, uadd, CmpOp, gt, gt_e, lt, lt_e, eq, not_eq, other_cmp,
  num, Expr, name, constant, bin_op, unary_op, if_exp, compare, nil, cons, Arith, holds, apply,
  eval,
}
use continuous_agent.Heuristic.Fragment.{is_bin, is_sign, is_test, is_supported, each_divisor}
use continuous_agent.Heuristic.Symbolic.{
  Var, item, Term, var, real_val, t_add, t_sub, t_mul, t_neg, t_if, Cond, c_lt, c_le, c_eq, c_not,
  known, Visited, gives, transpile, denote, denote_cond, term_bin, guarded, term_cmp,
}

-- Zero is false and one is true, as results of a comparison.
pub record IsLawful {F : Type 0} (A : Arith F) : Type 0 where
  pub zero_eq : A.eq_f A.zero_f A.zero_f ≡ true
  pub one_ne : A.eq_f A.one_f A.zero_f ≡ false

module _ {F : Type 0} {x y : Option F} {s t : F} where
  chosen_value :
      (b : Bool) (w : F)
      → ((w : F) → x ≡ some w → s ≡ w)
      → ((w : F) → y ≡ some w → t ≡ w)
      → (if b then x else y) ≡ some w
      → (if b then s else t) ≡ w
  chosen_value true w p q h = p w h
  chosen_value false w p q h = q w h

  chosen_some :
      (b : Bool) → x ≡ some s → y ≡ some t → (if b then x else y) ≡ some (if b then s else t)
  chosen_some true p q = p
  chosen_some false p q = q

module _ {F : Type 0} (A : Arith F) where
  -- The guarded quotient is the quotient where there is one.
  guarded-apply :
      (a b w : F)
      → apply A div a b ≡ some w
      → A.div_f a (if A.eq_f b A.zero_f then A.one_f else b) ≡ w
  unfolding apply
  guarded-apply a b w h = ground arith

  apply-guarded :
      (a b : F)
      → not (A.eq_f b A.zero_f) ≡ true
      → apply A div a b ≡ some (A.div_f a (if A.eq_f b A.zero_f then A.one_f else b))
  unfolding apply
  apply-guarded a b h = ground arith

  abbrev cond_of : CmpOp → Term F → Term F → Cond F
  cond_of gt a b = c_lt b a
  cond_of gt_e a b = c_le b a
  cond_of lt a b = c_lt a b
  cond_of lt_e a b = c_le a b
  cond_of eq a b = c_eq a b
  cond_of not_eq a b = c_not (c_eq a b)
  cond_of other_cmp a b = known false

  term_cmp-cond_of :
      (op : CmpOp) (a b : Term F)
      → is_test op ≡ true
      → term_cmp op (gives a) (gives b) ≡ gives (cond_of op a b)
  term_cmp-cond_of gt a b h = refl
  term_cmp-cond_of gt_e a b h = refl
  term_cmp-cond_of lt a b h = refl
  term_cmp-cond_of lt_e a b h = refl
  term_cmp-cond_of eq a b h = refl
  term_cmp-cond_of not_eq a b h = refl
  term_cmp-cond_of other_cmp a b h = cc

  holds-denote_cond :
      (value : Var → F) (op : CmpOp) (a b : Term F)
      → is_test op ≡ true
      → holds A op (denote A value a) (denote A value b)
        ≡ some (denote_cond A value (cond_of op a b))
  unfolding holds denote
  holds-denote_cond value other_cmp a b h = cc
  holds-denote_cond value op a b h = refl

module _ {P F : Type 0} {A : Arith F} (real_of : P → F) (lawful : IsLawful A) (value : Var → F)
    (v : Var) where
  abbrev exact : Expr P → Option F
  exact e = eval A real_of (value item) (value v) e

  abbrev pub symbol : Expr P → Visited (Term F)
  symbol e = transpile real_of A.zero_f A.one_f v e

  -- The divisor's term does not denote zero.
  abbrev pub nonzero_term : Visited (Term F) → Bool
  nonzero_term (gives t) = not (A.eq_f (denote A value t) A.zero_f)
  nonzero_term _ = true

  abbrev pub nonzero : Expr P → Bool
  nonzero e = nonzero_term (symbol e)

  pub record IsTranslated (e : Expr P) : Type 0 where
    pub term : Term F
    pub translated : symbol e ≡ gives term
    pub agrees : (w : F) → exact e ≡ some w → denote A value term ≡ w
    pub defined : each_divisor nonzero e ≡ true → exact e ≡ some (denote A value term)

  -- An operator other than division.
  IsTranslated-op :
      (l r : Expr P) (op : BinOp) (t : Term F → Term F → Term F) (f : F → F → F)
      → ((a b : Term F) → term_bin A.zero_f A.one_f op (gives a) (gives b) ≡ gives (t a b))
      → ((a b : Term F) → denote A value (t a b) ≡ f (denote A value a) (denote A value b))
      → ((a b : F) → apply A op a b ≡ some (f a b))
      → (each_divisor nonzero (bin_op l op r) ≡ (each_divisor nonzero l && each_divisor nonzero r))
      → IsTranslated l
      → IsTranslated r
      → IsTranslated (bin_op l op r)
  unfolding transpile eval
  IsTranslated-op l r op t f made meaning computed split p q = record {
    term = t p.term q.term;
    translated = rw (p.translated, q.translated) (made p.term q.term);
    agrees = λ w h.
        let (a, l_value, rest) = >>=-eq-some (exact l) _ h in
        let (b, r_value, applied) = >>=-eq-some (exact r) _ rest in
        rw (meaning, p.agrees a l_value, q.agrees b r_value) (cc (computed a b));
    defined = λ h.
        let (l_clear, r_clear) = &&-parts _ _ (sym split ∙ h) in
        rw (p.defined l_clear, q.defined r_clear, meaning) (computed _ _);
  }

  IsTranslated-div :
      (l r : Expr P) → IsTranslated l → IsTranslated r → IsTranslated (bin_op l div r)
  unfolding transpile eval denote each_divisor
  IsTranslated-div l r p q = record {
    term = guarded A.zero_f A.one_f p.term q.term;
    translated = rw (p.translated, q.translated);
    agrees = λ w h.
        let (a, l_value, rest) = >>=-eq-some (exact l) _ h in
        let (b, r_value, applied) = >>=-eq-some (exact r) _ rest in
        rw (p.agrees a l_value, q.agrees b r_value) (guarded-apply A a b w applied);
    defined = λ h.
        let (r_nonzero, clear) = &&-parts (nonzero r) _ h in
        let (l_clear, r_clear) = &&-parts _ _ clear in
        rw (p.defined l_clear, q.defined r_clear)
          (apply-guarded A _ _ (sym (ap nonzero_term q.translated) ∙ r_nonzero));
  }

  IsTranslated-bin :
      (l r : Expr P) (op : BinOp)
      → is_bin op ≡ true
      → IsTranslated l
      → IsTranslated r
      → IsTranslated (bin_op l op r)
  unfolding apply denote each_divisor
  IsTranslated-bin l r add h =
      IsTranslated-op l r add t_add A.add_f (λ a b. refl) (λ a b. refl) (λ a b. refl) refl
  IsTranslated-bin l r sub h =
      IsTranslated-op l r sub t_sub A.sub_f (λ a b. refl) (λ a b. refl) (λ a b. refl) refl
  IsTranslated-bin l r mult h =
      IsTranslated-op l r mult t_mul A.mul_f (λ a b. refl) (λ a b. refl) (λ a b. refl) refl
  IsTranslated-bin l r div h = IsTranslated-div l r
  IsTranslated-bin l r _ h = cc

  IsTranslated-sign :
      (e : Expr P) (op : UnaryOp)
      → is_sign op ≡ true
      → IsTranslated e
      → IsTranslated (unary_op op e)
  unfolding transpile eval denote each_divisor
  IsTranslated-sign e usub h p = record {
    term = t_neg p.term;
    translated = rw p.translated;
    agrees = λ w q.
        let (a, e_value, rest) = >>=-eq-some (exact e) _ q in rw (p.agrees a e_value) (cc rest);
    defined = λ q. rw (p.defined q);
  }
  IsTranslated-sign e uadd h p = record {
    term = p.term;
    translated = p.translated;
    agrees = p.agrees;
    defined = p.defined;
  }
  IsTranslated-sign e _ h p = cc

  -- The choice by a comparison's result, as the expression and as the term make it.
  truthy :
      (b : Bool) (x y : Option F)
      → (if A.eq_f (if b then A.one_f else A.zero_f) A.zero_f then y else x) ≡ (if b then x else y)
  truthy true x y = rw lawful.one_ne
  truthy false x y = rw lawful.zero_eq

  module _ (l r e f : Expr P) (op : CmpOp) (test : is_test op ≡ true) (p : IsTranslated l)
      (q : IsTranslated r) (y : IsTranslated e) (n : IsTranslated f) where
    abbrev conditional : Expr P
    conditional = if_exp (compare l (op ∷ []) (cons r nil)) e f

    abbrev chosen : Term F
    chosen = t_if (cond_of A op p.term q.term) y.term n.term

    -- Where both sides of the test have their values, the expression takes the branch that the term takes.
    exact-conditional :
        exact l ≡ some (denote A value p.term)
        → exact r ≡ some (denote A value q.term)
        → exact conditional
          ≡ (if denote_cond A value (cond_of A op p.term q.term) then exact e else exact f)
    unfolding eval
    exact-conditional l_value r_value =
        rw (l_value, r_value, holds-denote_cond A value op p.term q.term test) (truthy _ _ _)

    agrees_if : (w : F) → exact conditional ≡ some w → denote A value chosen ≡ w
    unfolding eval denote
    agrees_if w h =
        let (flag, test_value, _) = >>=-eq-some (exact (compare l (op ∷ []) (cons r nil))) _ h in
        let (a, l_value, rest) = >>=-eq-some (exact l) _ test_value in
        let (b, r_value, _) = >>=-eq-some (exact r) _ rest in
        chosen_value _ w y.agrees n.agrees
          (sym (exact-conditional (cc (p.agrees a l_value)) (cc (q.agrees b r_value))) ∙ h)

    IsTranslated-if : IsTranslated conditional
    unfolding transpile denote each_divisor
    IsTranslated-if = record {
      term = chosen;
      translated =
          rw (
            p.translated,
            q.translated,
            term_cmp-cond_of A op _ _ test,
            y.translated,
            n.translated,
          );
      agrees = agrees_if;
      defined = λ h.
          let (t_clear, branches) =
            &&-parts (each_divisor nonzero (compare l (op ∷ []) (cons r nil))) _ h in
          let (l_clear, rest) = &&-parts (each_divisor nonzero l) _ t_clear in
          let (r_clear, _) = &&-parts (each_divisor nonzero r) _ rest in
          let (y_clear, n_clear) = &&-parts (each_divisor nonzero e) _ branches in
          exact-conditional (p.defined l_clear) (q.defined r_clear)
          ∙ chosen_some _ (y.defined y_clear) (n.defined n_clear);
    }

  IsTranslated-name : (x : String) → is_supported {F = P} (name x) ≡ true → IsTranslated (name x)
  unfolding transpile eval denote is_supported
  IsTranslated-name x h = elim (Bool-cases (str_eq x "item")) [
    | inl is_item ↦ record {
      term = var item;
      translated = rw is_item;
      agrees = λ w e. ground arith;
      defined = λ e. rw is_item;
    }
    | inr other_name ↦ record {
      term = var v;
      translated = ground arith;
      agrees = λ w e. ground arith;
      defined = λ e. ground arith;
    }
  ]

  IsTranslated-num : (x : P) → IsTranslated (constant (num x))
  unfolding transpile eval denote
  IsTranslated-num x = record {
    term = real_val (real_of x);
    translated = refl;
    agrees = λ w e. cc;
    defined = λ e. refl;
  }

  -- Of a supported expression the transpiler makes a term. Read over the solver's numbers, each
  -- literal as the solver's number for it, the expression and the term have the same value wherever the expression has one, that
  -- is, no divisor that is evaluated is zero; and it has one where no divisor's term, in any branch,
  -- has the value zero.
  pub transpile-IsTranslated : (e : Expr P) → is_supported e ≡ true → IsTranslated e
  unfolding is_supported
  transpile-IsTranslated (name x) h = IsTranslated-name x h
  transpile-IsTranslated (constant (num x)) h = IsTranslated-num x
  transpile-IsTranslated (bin_op l op r) h =
      let (o, lr) = &&-parts _ _ h in
      let (p, q) = &&-parts _ _ lr in
      IsTranslated-bin l r op o (transpile-IsTranslated l p) (transpile-IsTranslated r q)
  transpile-IsTranslated (unary_op op e) h =
      let (o, p) = &&-parts _ _ h in IsTranslated-sign e op o (transpile-IsTranslated e p)
  transpile-IsTranslated (if_exp (compare l (op ∷ []) (cons r nil)) e f) h =
      let (o, parts) = &&-parts _ _ h in
      let (test, branches) = &&-parts _ _ parts in
      let (p, q) = &&-parts _ _ test in
      let (y, n) = &&-parts _ _ branches in
      IsTranslated-if l r e f op o (transpile-IsTranslated l p) (transpile-IsTranslated r q)
        (transpile-IsTranslated e y) (transpile-IsTranslated f n)
  transpile-IsTranslated _ h = cc
