-- ===== src/Packing/AnyFit.antt =====
-- `run_simulation`: the bound on the bins that any heuristic with ordinary scores meets.
use continuous_agent.Prelude.{
  ℕ, zero, suc, ◌≤◌, ◌≡◌, refl, ap, Option, none, some, List, [], ◌∷◌, ◌++◌, length, arith,
}
use continuous_agent.Prelude.Int.{ℤ, pos, pos_part, neg_part, ◌+ℤ◌, ◌-ℤ◌, ◌≤ℤ◌, ◌<ℤ◌, int_laws}
use continuous_agent.Packing.{Scores, exact_limit, lower, sum, scale, put, place, pack}
use continuous_agent.Packing.Placement.{NoRoom, IsAnyFit, choose-NoRoom}
use continuous_agent.Packing.Volume.{Within, Holds-empty, pack-Holds}

-- The capacities left in any two bins are together less than one bin.
abbrev Each : ℤ → ℤ → List ℤ → Type 0
Each size room [] = Unit
Each size room (x ∷ xs) = (room +ℤ x <ℤ size) × Each size room xs

abbrev Paired : ℤ → List ℤ → Type 0
Paired size [] = Unit
Paired size (room ∷ bins) = Each size room bins × Paired size bins

module _ (size item : ℤ) (nonneg : pos 0 ≤ℤ item) where
  Each-less : (room : ℤ) (bins : List ℤ) → Each size room bins → Each size (room -ℤ item) bins
  Each-less room [] h = tt
  Each-less room (x ∷ xs) (h, hs) = (omega int_laws, Each-less room xs hs)

  Each-lower :
      (room : ℤ) (i : ℕ) (bins : List ℤ) → Each size room bins → Each size room (lower i item bins)
  unfolding lower
  Each-lower room i [] h = tt
  Each-lower room zero (x ∷ xs) (h, hs) = (omega int_laws, hs)
  Each-lower room (suc i) (x ∷ xs) (h, hs) = (h, Each-lower room i xs hs)

  Paired-lower : (i : ℕ) (bins : List ℤ) → Paired size bins → Paired size (lower i item bins)
  unfolding lower
  Paired-lower i [] h = tt
  Paired-lower zero (room ∷ bins) (h, hs) = (Each-less room bins h, hs)
  Paired-lower (suc i) (room ∷ bins) (h, hs) = (Each-lower room i bins h, Paired-lower i bins hs)

  Each-snoc :
      (room : ℤ) (bins : List ℤ)
      → room <ℤ item
      → Each size room bins
      → Each size room (bins ++ (size -ℤ item) ∷ [])
  Each-snoc room [] small h = (omega int_laws, tt)
  Each-snoc room (x ∷ xs) small (h, hs) = (h, Each-snoc room xs small hs)

  Paired-snoc :
      (bins : List ℤ)
      → NoRoom item bins
      → Paired size bins
      → Paired size (bins ++ (size -ℤ item) ∷ [])
  Paired-snoc [] full h = (tt, tt)
  Paired-snoc (room ∷ bins) (small, full) (h, hs) =
      (Each-snoc room bins small h, Paired-snoc bins full hs)

-- From two bins on, the free capacity is less than half of the whole.
Paired-half :
    (size : ℤ) (bins : List ℤ)
    → Paired size bins
    → 2 ≤ length bins
    → sum bins +ℤ sum bins <ℤ scale (length bins) size
unfolding sum scale
Paired-half size [] h two = absurd (omega arith)
Paired-half size (a ∷ []) h two = absurd (omega arith)
Paired-half size (a ∷ b ∷ []) ((ab, _), _) two = omega int_laws
Paired-half size (a ∷ b ∷ c ∷ []) ((ab, (ac, _)), ((bc, _), _)) two = omega int_laws
Paired-half size (a ∷ b ∷ c ∷ d ∷ bins) ((ab, _), (_, h)) two =
    omega (int_laws, Paired-half size (c ∷ d ∷ bins) h (omega arith))

module _ {S : Type 0} (scores : Scores S) (priority : ℤ → ℤ → Option S) (size : ℤ)
    (any_fit : IsAnyFit scores priority) where
  put-Paired :
      (item : ℤ) (bins : List ℤ) (o : Option ℕ)
      → pos 0 ≤ℤ item
      → (o ≡ none → NoRoom item bins)
      → Paired size bins
      → Paired size (put scores priority size item bins o)
  put-Paired item bins none nonneg full h = Paired-snoc size item nonneg bins (full refl) h
  put-Paired item bins (some i) nonneg full h = Paired-lower size item nonneg i bins h

  pack-Paired :
      (seq bins : List ℤ)
      → Within (pos 0) size seq
      → Paired size bins
      → Paired size (pack scores priority size seq bins)
  unfolding pack place
  pack-Paired [] bins hs h = h
  pack-Paired (item ∷ seq) bins (h0, h1, hs) h =
      pack-Paired seq _ hs
        (put-Paired item bins _ h0 (choose-NoRoom scores priority any_fit item bins) h)

  -- A heuristic whose scores are all above -inf, on items that are whole numbers between 0 and the
  -- bin size and together no more than 2 ^ 53, where the floats are exact: once two bins are open,
  -- their number times the bin size is less than twice the volume of the items.
  pub pack-any_fit :
      (seq : List ℤ)
      → Within (pos 0) size seq
      → sum seq ≤ℤ exact_limit
      → 2 ≤ length (pack scores priority size seq [])
      → scale (length (pack scores priority size seq [])) size <ℤ sum seq +ℤ sum seq
  pack-any_fit seq hs exact two =
      let packed = pack scores priority size seq [] in
      let volume = pack-Holds scores priority size seq [] (pos 0) (Holds-empty size) in
      let half = Paired-half size packed (pack-Paired seq [] hs tt) two in
      omega (int_laws, ap pos_part volume, ap neg_part volume)
