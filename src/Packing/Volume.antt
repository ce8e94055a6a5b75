-- ===== src/Packing/Volume.antt =====
-- `run_simulation`: capacities stay in range, and what the bins hold is what was put into them.
use continuous_agent.Prelude.{
  ℕ, zero, suc, ◌≡◌, refl, ap, ◌∙◌, subst, ◌≡⟨◌⟩◌, ◌∎, length-append, Option, none, some, List, [],
  ◌∷◌, ◌++◌, length,
}
use Prim.Native.Nat.add
use native.Mathlib.Numerals.{add-one}
use continuous_agent.Prelude.Int.{ℤ, pos, ◌+ℤ◌, ◌-ℤ◌, ◌≤ℤ◌, int_laws}
use continuous_agent.Packing.{Scores, lower, sum, scale, put, place, pack}
use continuous_agent.Packing.Placement.{OnSome, Fits, choose-Fits}

-- Every number of the list is at least `lo` and at most `hi`.
abbrev pub Within : ℤ → ℤ → List ℤ → Type 0
Within lo hi [] = Unit
Within lo hi (x ∷ xs) = (lo ≤ℤ x) × (x ≤ℤ hi) × Within lo hi xs

abbrev pub AllWithin : ℤ → ℤ → List (List ℤ) → Type 0
AllWithin lo hi [] = Unit
AllWithin lo hi (seq ∷ sequences) = Within lo hi seq × AllWithin lo hi sequences

Fits-zero : (item room : ℤ) (bins : List ℤ) → Fits item (room ∷ bins) 0 → item ≤ℤ room
Fits-zero item room bins (r, e, fits) = subst (λ x. item ≤ℤ x) (cc e) fits

module _ (hi item : ℤ) (nonneg : pos 0 ≤ℤ item) where
  lower-Within :
      (i : ℕ) (bins : List ℤ)
      → Within (pos 0) hi bins
      → Fits item bins i
      → Within (pos 0) hi (lower i item bins)
  unfolding lower
  lower-Within i [] h fits = tt
  lower-Within zero (room ∷ bins) (h0, h1, hs) fits =
      let small = Fits-zero item room bins fits in (omega int_laws, omega int_laws, hs)
  lower-Within (suc i) (room ∷ bins) (h0, h1, hs) fits = (h0, h1, lower-Within i bins hs fits)

  snoc-Within :
      (bins : List ℤ)
      → item ≤ℤ hi
      → Within (pos 0) hi bins
      → Within (pos 0) hi (bins ++ (hi -ℤ item) ∷ [])
  snoc-Within [] small h = omega int_laws
  snoc-Within (room ∷ bins) small (h0, h1, hs) = (h0, h1, snoc-Within bins small hs)

sum-lower :
    (item : ℤ) (i : ℕ) (bins : List ℤ)
    → Fits item bins i
    → sum (lower i item bins) +ℤ item ≡ sum bins
unfolding lower sum
sum-lower item i [] (r, e, fits) = cc
sum-lower item zero (room ∷ bins) fits = omega int_laws
sum-lower item (suc i) (room ∷ bins) fits =
    let ih = sum-lower item i bins fits in
    room +ℤ sum (lower i item bins) +ℤ item
    ≡⟨ omega int_laws ⟩ room +ℤ (sum (lower i item bins) +ℤ item)
    ≡⟨ ap (λ x. room +ℤ x) ih ⟩ room +ℤ sum bins ∎

length-lower : (item : ℤ) (i : ℕ) (bins : List ℤ) → length (lower i item bins) ≡ length bins
unfolding lower
length-lower item i [] = refl
length-lower item zero (room ∷ bins) = refl
length-lower item (suc i) (room ∷ bins) = ap suc (length-lower item i bins)

sum-snoc : (x : ℤ) (xs : List ℤ) → sum (xs ++ x ∷ []) ≡ sum xs +ℤ x
unfolding sum
sum-snoc x [] = omega int_laws
sum-snoc x (y ∷ ys) = rw (sum-snoc x ys) (omega int_laws)

-- What the bins hold, `size` each when empty.
abbrev pub Holds : ℤ → List ℤ → ℤ → Type 0
Holds size bins volume = scale (length bins) size ≡ sum bins +ℤ volume

scale-snoc :
    (size : ℤ) (bins : List ℤ) (x : ℤ)
    → scale (length (bins ++ x ∷ [])) size ≡ size +ℤ scale (length bins) size
unfolding scale
scale-snoc size bins x = rw (length-append bins (x ∷ []), add-one)

pub Holds-empty : (size : ℤ) → Holds size [] (pos 0)
unfolding scale sum
Holds-empty size = omega int_laws

module _ {S : Type 0} (scores : Scores S) (priority : ℤ → ℤ → Option S) (size : ℤ) where
  put-Within :
      (item : ℤ) (bins : List ℤ) (o : Option ℕ)
      → pos 0 ≤ℤ item
      → item ≤ℤ size
      → OnSome (Fits item bins) o
      → Within (pos 0) size bins
      → Within (pos 0) size (put scores priority size item bins o)
  put-Within item bins none nonneg small fits h = snoc-Within size item nonneg bins small h
  put-Within item bins (some i) nonneg small fits h = lower-Within size item nonneg i bins h fits

  put-Holds :
      (item : ℤ) (bins : List ℤ) (o : Option ℕ) (volume : ℤ)
      → OnSome (Fits item bins) o
      → Holds size bins volume
      → Holds size (put scores priority size item bins o) (volume +ℤ item)
  put-Holds item bins none volume fits h =
      rw (scale-snoc size bins (size -ℤ item), sum-snoc (size -ℤ item) bins, h) (omega int_laws)
  put-Holds item bins (some i) volume fits h =
      rw (length-lower item i bins, h, ← sum-lower item i bins fits) (omega int_laws)

  pub pack-Within :
      (seq bins : List ℤ)
      → Within (pos 0) size seq
      → Within (pos 0) size bins
      → Within (pos 0) size (pack scores priority size seq bins)
  unfolding pack place
  pack-Within [] bins hs hb = hb
  pack-Within (item ∷ seq) bins (h0, h1, hs) hb =
      pack-Within seq _ hs (put-Within item bins _ h0 h1 (choose-Fits scores priority item bins) hb)

  pub pack-Holds :
      (seq bins : List ℤ) (volume : ℤ)
      → Holds size bins volume
      → Holds size (pack scores priority size seq bins) (volume +ℤ sum seq)
  unfolding pack place sum
  pack-Holds [] bins volume h = h ∙ omega int_laws
  pack-Holds (item ∷ seq) bins volume h =
      pack-Holds seq _ (volume +ℤ item)
        (put-Holds item bins _ volume (choose-Fits scores priority item bins) h)
      ∙ omega int_laws
