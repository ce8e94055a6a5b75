-- ===== src/Heuristic/Contract/Sound.antt =====
-- agent/cegis_verifier.py: what a positive answer of `verify` promises, over the reals and where the
-- solver decides the questions that the run puts to it.
use continuous_agent.Prelude.{
  ◌≡◌, ◌≢◌, refl, sym, ◌∙◌, Bool, true, false, not, ◌&&◌, &&-parts, &&-true, &&-intro, none, some,
  List, [], ◌∷◌, ◌++◌, arith,
}
use continuous_agent.Heuristic.{Expr, ret, Stmts, stop, seq, Arguments, Arith, find_return, eval}
use continuous_agent.Heuristic.Fragment.{is_supported}
use continuous_agent.Heuristic.Walk.{walk, find_priority, parameters}
use continuous_agent.Heuristic.Symbolic.{
  Var, item, cap, cap2, Term, var, real_val, Cond, c_lt, c_le, c_eq, known, Visited, gives,
  gives_none, value_error, crash, transpile, denote, denote_cond,
}
use continuous_agent.Heuristic.Symbolic.Correct.{
  IsLawful, transpile-IsTranslated, nonzero, nonzero_term,
}
use continuous_agent.Heuristic.Contract.{
  Solver, Answer, sat, unsat, unknown, Numerals, meets, divisors, cap_range, pair_range, zero_t,
  zero_tests, or_later, singularity, monotone, monotone_on, check_invariants, verify_return, verify,
  prepend,
}
use continuous_agent.Heuristic.Contract.Divisors.{
  all_of, all_of-divisors, is_supported-each_divisor,
}

not-true : (b : Bool) → not b ≡ true → b ≡ false
not-true true h = cc
not-true false h = refl

last_false :
    {a b c d e f : Bool}
    → a ≡ true
    → b ≡ true
    → c ≡ true
    → d ≡ true
    → e ≡ true
    → (a && (b && (c && (d && (e && (f && true)))))) ≡ false
    → f ≡ false
last_false {f} ha hb hc hd he h = sym (&&-true f) ∙ rw (ha, hb, hc, hd, he) at h

four_and :
    (a b c d e : Bool)
    → (a && (b && (c && (d && true)))) ≡ true
    → (a && (b && (c && (d && (e && true))))) ≡ e
four_and true true true true e h = &&-true e
four_and true true true false e h = cc
four_and true true false d e h = cc
four_and true false c d e h = cc
four_and false b c d e h = cc

module _ {P F : Type 0} {A : Arith F} (real_of : P → F) (lawful : IsLawful A) (solver : Solver A)
    (n : Numerals F) where
  -- The solver decides each of these tests of a divisor.
  abbrev pub DecidesAll : List (Cond F) → Type 0
  DecidesAll [] = Unit
  DecidesAll (c ∷ cs) =
      (solver.check (cap_range real_of solver n ++ c ∷ []) ≢ unknown) × DecidesAll cs

  -- The solver answers every question of this run by `sat` or `unsat`: whether a divisor can be
  -- zero, and whether the scores can fall short.
  pub record Decides (e : Expr P) : Type 0 where
    pub divisor_tests :
        (cs : List (Cond F))
        → zero_tests real_of solver n (divisors (walk e)) ≡ gives cs
        → DecidesAll cs
    pub comparison :
        (s s2 : Term F)
        → transpile real_of A.zero_f A.one_f cap e ≡ gives s
        → transpile real_of A.zero_f A.one_f cap2 e ≡ gives s2
        → solver.check (pair_range real_of solver n ++ c_lt s s2 ∷ []) ≢ unknown

  -- Every constraint set in the list was refuted.
  refuted_all : List (Cond F) → (Var → F) → Bool
  refuted_all [] value = true
  refuted_all (c ∷ cs) value =
      not (meets A value (cap_range real_of solver n ++ c ∷ [])) && refuted_all cs value

  singularity-refuted :
      (cs : List (Cond F))
      → DecidesAll cs
      → singularity real_of solver n cs ≡ none
      → (value : Var → F) → refuted_all cs value ≡ true
  unfolding singularity refuted_all
  singularity-refuted [] decided h value = refl
  singularity-refuted (c ∷ cs) (decided, others) h value =
      step (solver.check (cap_range real_of solver n ++ c ∷ [])) refl h
        (λ q. singularity-refuted cs others q value)
    where
      step :
          (a : Answer F)
          → solver.check (cap_range real_of solver n ++ c ∷ []) ≡ a
          → or_later a (singularity real_of solver n cs) ≡ none
          → (singularity real_of solver n cs ≡ none → refuted_all cs value ≡ true)
          → (not (meets A value (cap_range real_of solver n ++ c ∷ [])) && refuted_all cs value)
            ≡ true
      step (sat i k) e q rest = cc
      step unsat e q rest = rw (solver.unsat_sound _ e value) (rest q)
      step unknown e q rest = absurd (decided e)

  -- An assignment of the two variables within the verifier's range.
  module _ (value : Var → F) (in_range : meets A value (cap_range real_of solver n) ≡ true) where
    refuted-cons :
        (c : Cond F) → meets A value (cap_range real_of solver n ++ c ∷ []) ≡ denote_cond A value c
    unfolding meets
    refuted-cons c =
        four_and (denote_cond A value (c_lt (zero_t real_of solver n) (var item)))
          (denote_cond A value (c_le (var item) (real_val n.hundred)))
          (denote_cond A value (c_le (var item) (var cap)))
          (denote_cond A value (c_le (var cap) (real_val n.hundred))) (denote_cond A value c)
          in_range

    refuted_all-cons :
        (c : Cond F) (cs : List (Cond F))
        → refuted_all (c ∷ cs) value ≡ true
        → (denote_cond A value c ≡ false) × (refuted_all cs value ≡ true)
    unfolding refuted_all
    refuted_all-cons c cs h =
        let (first, others) =
          &&-parts (not (meets A value (cap_range real_of solver n ++ c ∷ []))) _ h in
        (sym (refuted-cons c) ∙ not-true _ first, others)

    -- The test of a divisor that got into the list, and what its refutation says.
    prepend-eq-gives :
        (p : Visited (Term F)) (rest : Visited (List (Cond F))) (cs : List (Cond F))
        → prepend real_of solver n p rest ≡ gives cs
        → (c : Cond F) × (cs' : List (Cond F)) × (rest ≡ gives cs')
          × (cs ≡ c ∷ cs')
          × (denote_cond A value c ≡ false → nonzero_term real_of lawful value cap p ≡ true)
    unfolding denote
    prepend-eq-gives (gives t) (gives cs') cs h =
        (c_eq t (zero_t real_of solver n), cs', refl, cc, λ q. rw q)
    prepend-eq-gives gives_none (gives cs') cs h = (known false, cs', refl, cc, λ q. refl)
    prepend-eq-gives value_error rest cs h = cc
    prepend-eq-gives crash rest cs h = cc
    prepend-eq-gives p gives_none cs h = cc
    prepend-eq-gives p value_error cs h = cc
    prepend-eq-gives p crash cs h = cc

    refuted-nonzero :
        (ds : List (Expr P)) (cs : List (Cond F))
        → zero_tests real_of solver n ds ≡ gives cs
        → refuted_all cs value ≡ true
        → all_of (nonzero real_of lawful value cap) ds ≡ true
    unfolding zero_tests all_of
    refuted-nonzero [] cs made h = refl
    refuted-nonzero (d ∷ ds) cs made h =
        let (c, cs', rest, split, clear) = prepend-eq-gives _ _ cs made in
        let (first, others) = refuted_all-cons c cs' (rw split at h) in
        &&-intro (clear first) (refuted-nonzero ds cs' rest others)

  -- The tests of supported divisors are all made.
  zero_tests-gives :
      (ds : List (Expr P))
      → all_of is_supported ds ≡ true
      → (cs : List (Cond F)) × (zero_tests real_of solver n ds ≡ gives cs)
  unfolding zero_tests all_of
  zero_tests-gives [] h = ([], refl)
  zero_tests-gives (d ∷ ds) h =
      let (first, others) = &&-parts (is_supported d) _ h in
      let p = transpile-IsTranslated real_of lawful (λ v. A.zero_f) cap d first in
      let (cs, made) = zero_tests-gives ds others in
      (c_eq p.term (zero_t real_of solver n) ∷ cs, rw (p.translated, made))

  abbrev assign : F → F → F → Var → F
  assign i c c2 item = i
  assign i c c2 cap = c
  assign i c c2 cap2 = c2

  -- What a positive answer says of the two checks.
  check_invariants-ok :
      (t : Term F) (e : Expr P) (cs : List (Cond F))
      → (check_invariants real_of solver n (gives t) e (gives cs)).ok ≡ true
      → (singularity real_of solver n cs ≡ none)
        × ((monotone real_of solver n (gives t) (transpile real_of A.zero_f A.one_f cap2 e)).ok
            ≡ true)
  unfolding check_invariants
  check_invariants-ok t e cs h = ground arith

  monotone-ok :
      (s s2 : Term F)
      → solver.check (pair_range real_of solver n ++ c_lt s s2 ∷ []) ≢ unknown
      → (monotone real_of solver n (gives s) (gives s2)).ok ≡ true
      → solver.check (pair_range real_of solver n ++ c_lt s s2 ∷ []) ≡ unsat
  unfolding monotone
  monotone-ok s s2 decided h =
      step (solver.check (pair_range real_of solver n ++ c_lt s s2 ∷ [])) refl h
    where
      step :
          (a : Answer F)
          → solver.check (pair_range real_of solver n ++ c_lt s s2 ∷ []) ≡ a
          → (monotone_on real_of solver n a).ok ≡ true
          → solver.check (pair_range real_of solver n ++ c_lt s s2 ∷ []) ≡ unsat
      step (sat i k) e q = cc
      step unsat e q = e
      step unknown e q = absurd (decided e)

  module _ (items : Stmts P) (args : Arguments P) (e : Expr P)
      (found : find_priority items ≡ some (args, seq (ret (some e)) stop))
      (named : parameters args ≡ "item" ∷ "bin_capacity" ∷ []) (supported : is_supported e ≡ true)
      (decides : Decides e) (accepted : (verify real_of solver n (some items)).ok ≡ true) where
    -- The two checks of the verifier went through.
    checks :
        (t : Term F) (cs : List (Cond F))
        → transpile real_of A.zero_f A.one_f cap e ≡ gives t
        → zero_tests real_of solver n (divisors (walk e)) ≡ gives cs
        → (singularity real_of solver n cs ≡ none)
          × ((monotone real_of solver n (gives t) (transpile real_of A.zero_f A.one_f cap2 e)).ok
              ≡ true)
    unfolding verify verify_return find_return
    checks t cs made tests = check_invariants-ok t e cs (rw (found, made, tests) at accepted)

    -- Over exact real numbers, with each literal as the solver reads it. The verifier accepts a module whose `priority`, the one that `ast.walk`
    -- finds first, takes the item and the capacity, in this order, and is one return of a supported
    -- expression, and the solver answers no question of this run by `unknown`. Then, for every item
    -- above 0 and at most 100 and every capacity from the item to 100, the expression has a value:
    -- no divisor that is evaluated is zero.
    pub verify-defined :
        (i c : F)
        → A.lt_f A.zero_f i ≡ true
        → A.le_f i n.hundred ≡ true
        → A.le_f i c ≡ true
        → A.le_f c n.hundred ≡ true
        → (s : F) × (eval A real_of i c e ≡ some s)
    unfolding meets denote
    verify-defined i c positive i_max fits c_max =
        let value = assign i c c in
        let p = transpile-IsTranslated real_of lawful value cap e supported in
        let (cs, made) =
          zero_tests-gives (divisors (walk e))
            (all_of-divisors is_supported e ∙ is_supported-each_divisor e supported) in
        let (none_met, _) = checks p.term cs p.translated made in
        let in_range = &&-intro positive (&&-intro i_max (&&-intro fits (&&-intro c_max refl))) in
        let clear =
          refuted-nonzero value in_range (divisors (walk e)) cs made
            (singularity-refuted cs (decides.divisor_tests cs made) none_met value) in
        (
          denote A value p.term,
          p.defined (sym (all_of-divisors (nonzero real_of lawful value cap) e) ∙ clear),
        )

    -- Over exact real numbers, with each literal as the solver reads it. The verifier accepts a module whose `priority`, the one that `ast.walk`
    -- finds first, takes the item and the capacity, in this order, and is one return of a supported
    -- expression, and the solver answers no question of this run by `unknown`. Then, for every item
    -- above 0 and at most 100 and two capacities from the item to 100, the value at the smaller is
    -- not below that at the larger.
    pub verify-monotone :
        (i c c2 s s2 : F)
        → A.lt_f A.zero_f i ≡ true
        → A.le_f i n.hundred ≡ true
        → A.le_f i c ≡ true
        → A.lt_f c c2 ≡ true
        → A.le_f c2 n.hundred ≡ true
        → eval A real_of i c e ≡ some s
        → eval A real_of i c2 e ≡ some s2
        → A.lt_f s s2 ≡ false
    unfolding meets denote
    verify-monotone i c c2 s s2 positive i_max fits tighter c2_max score score2 =
        let value = assign i c c2 in
        let p = transpile-IsTranslated real_of lawful value cap e supported in
        let p2 = transpile-IsTranslated real_of lawful value cap2 e supported in
        let (cs, made) =
          zero_tests-gives (divisors (walk e))
            (all_of-divisors is_supported e ∙ is_supported-each_divisor e supported) in
        let (_, ok) = checks p.term cs p.translated made in
        let refuted =
          solver.unsat_sound _
            (monotone-ok p.term p2.term (decides.comparison _ _ p.translated p2.translated)
              (rw p2.translated at ok))
            value in
        rw (← p.agrees s score, ← p2.agrees s2 score2)
          (last_false positive i_max fits tighter c2_max refuted)
