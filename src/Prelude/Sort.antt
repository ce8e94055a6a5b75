-- ===== src/Prelude/Sort.antt =====
-- Stable sorting, and what it keeps of a list.
use continuous_agent.Prelude.{
  ℕ, suc, ◌≡◌, ◌≢◌, sym, ap, ◌∙◌, refl, Bool, true, false, Bool-cases, List, [], ◌∷◌, ◌++◌, length,
  take, drop, if◌then◌else◌, inl, inr, zero,
}

-- `sort` by a key, of which the argument says whether the one may stand before the other: stable.
unfoldable pub insert_by {ℓ} : {A : Type ℓ} → (A → A → Bool) → A → List A → List A
insert_by before x [] = x ∷ []
insert_by before x (y ∷ ys) =
    let rest = insert_by before x ys in if before x y then x ∷ y ∷ ys else y ∷ rest

unfoldable pub sort_by {ℓ} : {A : Type ℓ} → (A → A → Bool) → List A → List A
unfolding insert_by
sort_by before [] = []
sort_by before (x ∷ xs) = insert_by before x (sort_by before xs)

-- `[x for x in xs if keep(x)]`
unfoldable pub filter {ℓ} : {A : Type ℓ} → (A → Bool) → List A → List A
filter keep [] = []
filter keep (x ∷ xs) = let rest = filter keep xs in if keep x then x ∷ rest else rest

module _ {ℓ} {A : Type ℓ} where
  abbrev pub Each : (A → Type ℓ) → List A → Type ℓ
  Each P [] = Unit
  Each P (x ∷ xs) = P x × Each P xs

  abbrev pub Distinct : List A → Type ℓ
  Distinct [] = Unit
  Distinct (x ∷ xs) = Each (λ y. x ≢ y) xs × Distinct xs

  abbrev pub Ordered : (A → A → Type ℓ) → List A → Type ℓ
  Ordered R [] = Unit
  Ordered R (x ∷ xs) = Each (R x) xs × Ordered R xs

  pub Each-weaken : {P Q : A → Type ℓ} (xs : List A) → ((x : A) → P x → Q x) → Each P xs → Each Q xs
  Each-weaken [] f h = tt
  Each-weaken (x ∷ xs) f (h, hs) = (f x h, Each-weaken xs f hs)

  pub Each-both :
      (P Q : A → Type ℓ) (xs : List A) → Each P xs → Each Q xs → Each (λ x. P x × Q x) xs
  Each-both P Q [] h k = tt
  Each-both P Q (x ∷ xs) (h, hs) (k, ks) = ((h, k), Each-both P Q xs hs ks)

  pub Each-snoc : (P : A → Type ℓ) (xs : List A) (a : A) → Each P xs → P a → Each P (xs ++ a ∷ [])
  Each-snoc P [] a h k = (k, tt)
  Each-snoc P (x ∷ xs) a (h, hs) k = (h, Each-snoc P xs a hs k)

  pub Each-take : (P : A → Type ℓ) (n : ℕ) (xs : List A) → Each P xs → Each P (take n xs)
  Each-take _ zero xs h = tt
  Each-take _ (suc n) [] h = tt
  Each-take _ (suc n) (x ∷ xs) (h, hs) = (h, Each-take _ n xs hs)

  pub Each-drop : (P : A → Type ℓ) (n : ℕ) (xs : List A) → Each P xs → Each P (drop n xs)
  Each-drop _ zero xs h = h
  Each-drop _ (suc n) [] h = tt
  Each-drop _ (suc n) (x ∷ xs) (h, hs) = Each-drop _ n xs hs

  pub Distinct-take : (n : ℕ) (xs : List A) → Distinct xs → Distinct (take n xs)
  Distinct-take zero xs h = tt
  Distinct-take (suc n) [] h = tt
  Distinct-take (suc n) (x ∷ xs) (h, hs) = (Each-take _ n xs h, Distinct-take n xs hs)

  -- In an ordered list, what is taken stands before what is left.
  pub Ordered-take :
      (R : A → A → Type ℓ) (n : ℕ) (xs : List A)
      → Ordered R xs
      → Each (λ x. Each (R x) (drop n xs)) (take n xs)
  Ordered-take _ zero xs h = tt
  Ordered-take _ (suc n) [] h = tt
  Ordered-take _ (suc n) (x ∷ xs) (h, hs) = (Each-drop _ n xs h, Ordered-take _ n xs hs)

  pub take-Ordered :
      (R : A → A → Type ℓ) (n : ℕ) (xs : List A) → Ordered R xs → Ordered R (take n xs)
  take-Ordered R zero xs h = tt
  take-Ordered R (suc n) [] h = tt
  take-Ordered R (suc n) (x ∷ xs) (h, hs) = (Each-take (R x) n xs h, take-Ordered R n xs hs)

  pub Each-filter :
      (P : A → Type ℓ) (keep : A → Bool) (xs : List A) → Each P xs → Each P (filter keep xs)
  unfolding filter
  Each-filter _ keep [] h = tt
  Each-filter P keep (x ∷ xs) (h, hs) = elim (Bool-cases (keep x)) [
    | inl e ↦ rw e (h, Each-filter _ keep xs hs)
    | inr e ↦ rw e (Each-filter _ keep xs hs)
  ]

  pub filter-true :
      (keep : A → Bool) (P : A → Type ℓ) (xs : List A)
      → ((x : A) → keep x ≡ true → P x)
      → Each P (filter keep xs)
  unfolding filter
  filter-true keep P [] f = tt
  filter-true keep P (x ∷ xs) f = elim (Bool-cases (keep x)) [
    | inl e ↦ rw e (f x e, filter-true keep P xs f)
    | inr e ↦ rw e (filter-true keep P xs f)
  ]

  -- What holds of the elements that are kept, and of those that are not, holds of all.
  pub filter-Each :
      (keep : A → Bool) (P : A → Type ℓ) (xs : List A)
      → Each P (filter keep xs)
      → ((x : A) → keep x ≡ false → P x)
      → Each P xs
  unfolding filter
  filter-Each keep P [] h f = tt
  filter-Each keep P (x ∷ xs) h f = go (keep x) refl h (λ ps. filter-Each keep P xs ps f)
    where
      go :
          (b : Bool)
          → keep x ≡ b
          → Each P (if b then x ∷ filter keep xs else filter keep xs)
          → (Each P (filter keep xs) → Each P xs)
          → Each P (x ∷ xs)
      go true e (p, ps) rest = (p, rest ps)
      go false e ps rest = (f x e, rest ps)

  pub Ordered-snoc :
      (R : A → A → Type ℓ) (xs : List A) (a : A)
      → Ordered R xs
      → Each (λ x. R x a) xs
      → Ordered R (xs ++ a ∷ [])
  Ordered-snoc R [] a h k = (tt, tt)
  Ordered-snoc R (x ∷ xs) a (h, hs) (k, ks) = (Each-snoc (R x) xs a h k, Ordered-snoc R xs a hs ks)

  pub Distinct-filter : (keep : A → Bool) (xs : List A) → Distinct xs → Distinct (filter keep xs)
  unfolding filter
  Distinct-filter keep [] h = tt
  Distinct-filter keep (x ∷ xs) (h, hs) = elim (Bool-cases (keep x)) [
    | inl e ↦ rw e (Each-filter _ keep xs h, Distinct-filter keep xs hs)
    | inr e ↦ rw e (Distinct-filter keep xs hs)
  ]

module _ {ℓ} {A : Type ℓ} (before : A → A → Bool) where
  pub length-insert_by : (x : A) (ys : List A) → length (insert_by before x ys) ≡ suc (length ys)
  unfolding insert_by
  length-insert_by x [] = refl
  length-insert_by x (y ∷ ys) = elim (Bool-cases (before x y)) [
    | inl e ↦ rw e refl
    | inr e ↦ rw e (ap suc (length-insert_by x ys))
  ]

  pub length-sort_by : (xs : List A) → length (sort_by before xs) ≡ length xs
  unfolding sort_by
  length-sort_by [] = refl
  length-sort_by (x ∷ xs) = length-insert_by x (sort_by before xs) ∙ ap suc (length-sort_by xs)

  Each-insert_by :
      (P : A → Type ℓ) (x : A) (ys : List A) → P x → Each P ys → Each P (insert_by before x ys)
  unfolding insert_by
  Each-insert_by _ x [] p h = (p, tt)
  Each-insert_by _ x (y ∷ ys) p (h, hs) = elim (Bool-cases (before x y)) [
    | inl e ↦ rw e (p, (h, hs))
    | inr e ↦ rw e (h, Each-insert_by _ x ys p hs)
  ]

  pub Each-sort_by : (P : A → Type ℓ) (xs : List A) → Each P xs → Each P (sort_by before xs)
  unfolding sort_by
  Each-sort_by _ [] h = tt
  Each-sort_by _ (x ∷ xs) (h, hs) = Each-insert_by _ x (sort_by before xs) h (Each-sort_by _ xs hs)

  insert_by-Each :
      (P : A → Type ℓ) (x : A) (ys : List A) → Each P (insert_by before x ys) → P x × Each P ys
  unfolding insert_by
  insert_by-Each P x [] h = h
  insert_by-Each P x (y ∷ ys) h = go (before x y) h (insert_by-Each P x ys)
    where
      go :
          (b : Bool)
          → Each P (if b then x ∷ y ∷ ys else y ∷ insert_by before x ys)
          → (Each P (insert_by before x ys) → P x × Each P ys)
          → P x × Each P (y ∷ ys)
      go true h rest = h
      go false (h, hs) rest = let (p, ps) = rest hs in (p, (h, ps))

  pub sort_by-Each : (P : A → Type ℓ) (xs : List A) → Each P (sort_by before xs) → Each P xs
  unfolding sort_by
  sort_by-Each P [] h = tt
  sort_by-Each P (x ∷ xs) h =
      let (p, ps) = insert_by-Each P x (sort_by before xs) h in (p, sort_by-Each P xs ps)

  Distinct-insert_by :
      (x : A) (ys : List A) → Each (λ y. x ≢ y) ys → Distinct ys → Distinct (insert_by before x ys)
  unfolding insert_by
  Distinct-insert_by x [] n h = (tt, tt)
  Distinct-insert_by x (y ∷ ys) (n, ns) (h, hs) = elim (Bool-cases (before x y)) [
    | inl e ↦ rw e ((n, ns), (h, hs))
    | inr e ↦ rw e (Each-insert_by _ x ys (λ q. n (sym q)) h, Distinct-insert_by x ys ns hs)
  ]

  pub Distinct-sort_by : (xs : List A) → Distinct xs → Distinct (sort_by before xs)
  unfolding sort_by
  Distinct-sort_by [] h = tt
  Distinct-sort_by (x ∷ xs) (h, hs) =
      Distinct-insert_by x (sort_by before xs) (Each-sort_by _ xs h) (Distinct-sort_by xs hs)

-- Where `before` decides an order, sorting orders.
module _ {ℓ} {A : Type ℓ} (before : A → A → Bool) (R : A → A → Type ℓ)
    (holds : (x y : A) → before x y ≡ true → R x y) (flips : (x y : A) → before x y ≡ false → R y x)
    (trans : (x y z : A) → R x y → R y z → R x z) where
  Ordered-insert_by : (x : A) (ys : List A) → Ordered R ys → Ordered R (insert_by before x ys)
  unfolding insert_by
  Ordered-insert_by x [] h = (tt, tt)
  Ordered-insert_by x (y ∷ ys) (h, hs) = elim (Bool-cases (before x y)) [
    | inl e ↦ rw e ((holds x y e, Each-weaken ys (λ z. trans x y z (holds x y e)) h), (h, hs))
    | inr e ↦ rw e (Each-insert_by before _ x ys (flips x y e) h, Ordered-insert_by x ys hs)
  ]

  pub Ordered-sort_by : (xs : List A) → Ordered R (sort_by before xs)
  unfolding sort_by
  Ordered-sort_by [] = tt
  Ordered-sort_by (x ∷ xs) = Ordered-insert_by x (sort_by before xs) (Ordered-sort_by xs)
