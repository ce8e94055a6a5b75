-- ===== src/Cegis/Probes.antt =====
-- agent/dynamic_suite.py and cegis_loop.py: every probe can be simulated, and what the loop adds.
use continuous_agent.Prelude.{
  ℕ, zero, suc, ◌≡◌, refl, Bool, Bool-cases, true, false, ◌&&◌, Option, none, some, List, [], ◌∷◌,
  ◌++◌, arith, inl, inr, &&-intro,
}
use continuous_agent.Prelude.Int.{ℤ, pos, ◌-ℤ◌, ◌≤ℤ◌, leb_ℤ, ltb_ℤ, int_laws}
use continuous_agent.Packing.Volume.{Within, AllWithin}
use continuous_agent.Cegis.{
  Suite, whole, get_probes, larger, smaller, eq_seq, is_in, probe_item, probe_cap, adversarial_seq,
  register_counterexample, inject, run_cegis_funsearch,
}

-- What the code relies on in `round(x, 1)`: whole numbers and results of it are kept, and it does
-- not leave an interval between two numbers that it keeps.
pub record IsRounding (round1 : ℤ → ℤ) : Type 0 where
  pub keeps_whole : (n : ℕ) → round1 (whole n) ≡ whole n
  pub keeps_rounded : (x : ℤ) → round1 (round1 x) ≡ round1 x
  pub stays :
      (lo hi x : ℤ)
      → round1 lo ≡ lo
      → round1 hi ≡ hi
      → lo ≤ℤ x
      → x ≤ℤ hi
      → (lo ≤ℤ round1 x) × (round1 x ≤ℤ hi)

AllWithin-append :
    (lo hi : ℤ) (xs ys : List (List ℤ))
    → AllWithin lo hi xs
    → AllWithin lo hi ys
    → AllWithin lo hi (xs ++ ys)
AllWithin-append lo hi [] ys h k = k
AllWithin-append lo hi (x ∷ xs) ys (h, hs) k = (h, AllWithin-append lo hi xs ys hs k)

clamp_lo : (item : ℤ) → whole 1 ≤ℤ larger (whole 1) (smaller (whole 99) item)
clamp_lo item = ground arith

clamp_hi : (item : ℤ) → larger (whole 1) (smaller (whole 99) item) ≤ℤ whole 99
clamp_hi item = ground arith

cap_lo : (val c : ℤ) → val ≤ℤ larger val (smaller (whole 100) c)
cap_lo val c = ground arith

cap_hi : (val c : ℤ) → val ≤ℤ whole 99 → larger val (smaller (whole 100) c) ≤ℤ whole 100
cap_hi val c h = ground arith

eq_seq_refl : (xs : List ℤ) → eq_seq xs xs ≡ true
unfolding eq_seq
eq_seq_refl [] = refl
eq_seq_refl (x ∷ xs) = &&-intro (ground arith) (eq_seq_refl xs)

is_in-append : (seq : List ℤ) (ps : List (List ℤ)) → is_in seq (ps ++ seq ∷ []) ≡ true
unfolding is_in
is_in-append seq [] = rw (eq_seq_refl seq) refl
is_in-append seq (p ∷ ps) = elim (Bool-cases (eq_seq seq p)) [
  | inl e ↦ rw e refl
  | inr e ↦ rw e (is_in-append seq ps)
]

module _ (round1 : ℤ → ℤ) where
  -- A counterexample that is registered again changes nothing.
  register_again :
      (item cap : ℤ) (s : Suite)
      → register_counterexample round1 item cap (register_counterexample round1 item cap s)
        ≡ register_counterexample round1 item cap s
  unfolding register_counterexample
  register_again item cap s =
      elim (Bool-cases (is_in (adversarial_seq round1 item cap) s.counterexample_probes)) [
        | inl e ↦ rw (e, e) refl
        | inr e ↦
            rw (e, is_in-append (adversarial_seq round1 item cap) s.counterexample_probes) refl
      ]

  inject_again :
      (b : Bool) (ce : Option (ℤ × ℤ)) (s : Suite)
      → inject round1 b ce (inject round1 b ce s) ≡ inject round1 b ce s
  inject_again false (some (item, cap)) s = register_again item cap s
  inject_again false none s = refl
  inject_again true ce s = refl

  -- Counterexamples, each with its item and its capacity, registered one after another.
  abbrev pub registered : List (ℤ × ℤ) → Suite → Suite
  registered [] s = s
  registered ((item, cap) ∷ ces) s = registered ces (register_counterexample round1 item cap s)

  module _ (rounding : IsRounding round1) where
    item_range :
        (item : ℤ) → (whole 1 ≤ℤ probe_item round1 item) × (probe_item round1 item ≤ℤ whole 99)
    item_range item =
        rounding.stays (whole 1) (whole 99) _ (rounding.keeps_whole 1) (rounding.keeps_whole 99)
          (clamp_lo item) (clamp_hi item)

    adversarial_seq-Within :
        (item cap : ℤ) → Within (pos 0) (whole 100) (adversarial_seq round1 item cap)
    unfolding adversarial_seq
    adversarial_seq-Within item cap =
        let val = probe_item round1 item in
        let (low, high) = item_range item in
        let low' : pos 0 ≤ℤ val = omega arith in
        let high' : val ≤ℤ whole 100 = omega arith in
        let (c_low, c_high) =
          rounding.stays val (whole 100) _ (rounding.keeps_rounded _) (rounding.keeps_whole 100)
            (cap_lo val cap) (cap_hi val cap high) in
        let (d_low, d_high) =
          rounding.stays (pos 0) (whole 100) (probe_cap round1 val cap -ℤ val)
            (rounding.keeps_whole 0) (rounding.keeps_whole 100) (omega int_laws) (omega int_laws) in
        let (e_low, e_high) =
          rounding.stays (pos 0) (whole 100) (whole 100 -ℤ val) (rounding.keeps_whole 0)
            (rounding.keeps_whole 100) (omega int_laws) (omega int_laws) in
        elim (Bool-cases (ltb_ℤ (pos 0) (round1 (probe_cap round1 val cap -ℤ val)))) [
          | inl e ↦ rw e (d_low, d_high, (low', high', (low', high', (e_low, e_high, tt))))
          | inr e ↦ rw e (low', high', (e_low, e_high, (low', high', tt)))
        ]

    AllWithin-parts :
        (xs ys : List (List ℤ))
        → AllWithin (pos 0) (whole 100) (xs ++ ys)
        → AllWithin (pos 0) (whole 100) xs × AllWithin (pos 0) (whole 100) ys
    AllWithin-parts [] ys h = (tt, h)
    AllWithin-parts (x ∷ xs) ys (h, hs) = let (a, b) = AllWithin-parts xs ys hs in ((h, a), b)

    register-AllWithin :
        (item cap : ℤ) (s : Suite)
        → AllWithin (pos 0) (whole 100) (get_probes s)
        → AllWithin (pos 0) (whole 100) (get_probes (register_counterexample round1 item cap s))
    unfolding register_counterexample get_probes
    register-AllWithin item cap s h =
        let (fixed, added) = AllWithin-parts s.static_probes s.counterexample_probes h in
        let seq = adversarial_seq round1 item cap in
        elim (Bool-cases (is_in seq s.counterexample_probes)) [
          | inl e ↦ rw e h
          | inr e ↦ rw e (
              AllWithin-append (pos 0) (whole 100) s.static_probes
                (s.counterexample_probes ++ seq ∷ []) fixed
                (AllWithin-append (pos 0) (whole 100) s.counterexample_probes (seq ∷ []) added
                  (adversarial_seq-Within item cap, tt)))
        ]

    -- Whatever the counterexamples say, out of range as well: where the probes of a suite are sizes
    -- from 0 to 100, so are those after any counterexamples were registered.
    pub get_probes-AllWithin :
        (ces : List (ℤ × ℤ)) (s : Suite)
        → AllWithin (pos 0) (whole 100) (get_probes s)
        → AllWithin (pos 0) (whole 100) (get_probes (registered ces s))
    get_probes-AllWithin [] s h = h
    get_probes-AllWithin ((item, cap) ∷ ces) s h =
        get_probes-AllWithin ces (register_counterexample round1 item cap s)
          (register-AllWithin item cap s h)

  module _ (is_verified : Bool) (counterexample : Option (ℤ × ℤ)) (score : List (List ℤ) → ℤ)
      (target_fitness : ℤ) where
    injected-once :
        (n : ℕ) (s : Suite)
        → inject round1 is_verified counterexample s ≡ s
        → leb_ℤ target_fitness (score (get_probes s)) && is_verified ≡ false
        → run_cegis_funsearch round1 is_verified counterexample score target_fitness n s
          ≡ (pos 0, s)
    unfolding run_cegis_funsearch
    injected-once zero s same miss = refl
    injected-once (suc n) s same miss = rw (same, miss) (injected-once n s same miss)

    -- The loop never changes its candidate, so the first iteration decides: with one iteration or
    -- more, the same score is returned and the same suite is left, however many there are.
    pub run_cegis_funsearch-once :
        (n : ℕ) (s : Suite)
        → run_cegis_funsearch round1 is_verified counterexample score target_fitness (suc n) s
          ≡ run_cegis_funsearch round1 is_verified counterexample score target_fitness 1 s
    unfolding run_cegis_funsearch
    run_cegis_funsearch-once n s =
        let s' = inject round1 is_verified counterexample s in
        elim (Bool-cases (leb_ℤ target_fitness (score (get_probes s')) && is_verified)) [
          | inl e ↦ rw e refl
          | inr e ↦ rw e (injected-once n s' (inject_again is_verified counterexample s) e)
        ]
