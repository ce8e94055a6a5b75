-- ===== src/Packing/Placement.antt =====
-- `run_simulation`: which bin the inner loop chooses.
use continuous_agent.Prelude.{
  ℕ, suc, ◌+◌, ◌≡◌, refl, subst, Bool-cases, true, false, Option, none, some, List, [], ◌∷◌,
  get_elem?, arith, leb→le, if◌then◌else◌, inl, inr,
}
use continuous_agent.Prelude.Int.{ℤ, leb_ℤ, ◌≤ℤ◌, ◌<ℤ◌}
use continuous_agent.Packing.{Scores, Best, choose, start, score_of}

-- A property of the index, where there is one.
abbrev pub OnSome : (ℕ → Type 0) → Option ℕ → Type 0
OnSome P none = Unit
OnSome P (some i) = P i

-- The bin at the index has room for the item.
abbrev pub Fits : ℤ → List ℤ → ℕ → Type 0
Fits item bins i = (room : ℤ) × (get_elem? bins i ≡ some room) × (item ≤ℤ room)

-- The item fits in no bin.
abbrev pub NoRoom : ℤ → List ℤ → Type 0
NoRoom item [] = Unit
NoRoom item (room ∷ bins) = (room <ℤ item) × NoRoom item bins

leb_ℤ→≤ℤ : (a b : ℤ) → leb_ℤ a b ≡ true → a ≤ℤ b
leb_ℤ→≤ℤ a b h = leb→le _ _ h

leb_ℤ→<ℤ : (a b : ℤ) → leb_ℤ a b ≡ false → b <ℤ a
leb_ℤ→<ℤ a b h = ground arith

module _ {S : Type 0} (scores : Scores S) (priority : ℤ → ℤ → Option S) where
  -- One round of the loop.
  abbrev update : ℤ → ℕ → ℤ → Best S → Best S
  update item idx room b =
      if leb_ℤ item room
      then if scores.gt (score_of scores priority item room) b.max_score
        then record { best_idx = some idx; max_score = score_of scores priority item room }
        else b
      else b

  update-OnSome :
      (P : ℕ → Type 0) (item : ℤ) (idx : ℕ) (room : ℤ) (b : Best S)
      → (item ≤ℤ room → P idx)
      → OnSome P b.best_idx
      → OnSome P (update item idx room b).best_idx
  update-OnSome P item idx room b here h = elim (Bool-cases (leb_ℤ item room)) [
    | inl fits ↦ elim (Bool-cases (scores.gt (score_of scores priority item room) b.max_score)) [
      | inl better ↦ rw (fits, better) (here (leb_ℤ→≤ℤ item room fits))
      | inr worse ↦ rw (fits, worse) h
    ]
    | inr small ↦ rw small h
  ]

  choose-OnSome :
      (P : ℕ → Type 0) (item : ℤ) (idx : ℕ) (bins : List ℤ) (b : Best S)
      → ((j : ℕ) (room : ℤ) → get_elem? bins j ≡ some room → item ≤ℤ room → P (idx + j))
      → OnSome P b.best_idx
      → OnSome P (choose scores priority item idx bins b).best_idx
  unfolding choose
  choose-OnSome P item idx [] b each h = h
  choose-OnSome P item idx (room ∷ bins) b each h =
      choose-OnSome P item (suc idx) bins (update item idx room b)
        (λ j r e fits. subst P (omega arith) (each (suc j) r e fits))
        (update-OnSome P item idx room b (λ fits. subst P (omega arith) (each 0 room refl fits)) h)

  -- The chosen bin exists and has room for the item.
  pub choose-Fits :
      (item : ℤ) (bins : List ℤ)
      → OnSome
          (Fits item bins)
          (choose scores priority item 0 bins (start scores priority)).best_idx
  choose-Fits item bins =
      choose-OnSome (Fits item bins) item 0 bins (start scores priority)
        (λ j room e fits. let i : 0 + j ≡ j = omega arith in rw i (room, e, fits)) tt

  -- Every score that the loop can see is above the initial `-inf`.
  abbrev pub IsAnyFit : Type 0
  IsAnyFit =
      (item room : ℤ) → scores.gt (score_of scores priority item room) scores.minus_inf ≡ true

  choose-none :
      IsAnyFit
      → (item : ℤ) (idx : ℕ) (bins : List ℤ) (b : Best S)
      → (choose scores priority item idx bins b).best_idx ≡ none
      → (b.best_idx ≡ none) × (b.max_score ≡ scores.minus_inf → NoRoom item bins)
  unfolding choose
  choose-none any_fit item idx [] b h = (h, λ e. tt)
  choose-none any_fit item idx (room ∷ bins) b h =
      let (prior, later) = choose-none any_fit item (suc idx) bins (update item idx room b) h in
      elim (Bool-cases (leb_ℤ item room)) [
        | inl fits ↦
            elim (Bool-cases (scores.gt (score_of scores priority item room) b.max_score)) [
              | inl better ↦ cc (rw (fits, better) at prior)
              | inr worse ↦ (rw (fits, worse) at prior, λ e. cc (any_fit item room))
            ]
        | inr small ↦ (rw small at prior, λ e. (leb_ℤ→<ℤ item room small, (rw small at later) e))
      ]

  -- Where the loop opens a new bin, no bin had room.
  pub choose-NoRoom :
      IsAnyFit
      → (item : ℤ) (bins : List ℤ)
      → (choose scores priority item 0 bins (start scores priority)).best_idx ≡ none
      → NoRoom item bins
  choose-NoRoom any_fit item bins h =
      (choose-none any_fit item 0 bins (start scores priority) h).1 refl
