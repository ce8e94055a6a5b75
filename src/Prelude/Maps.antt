-- ===== src/Prelude/Maps.antt =====
-- Dictionaries with string keys, in the order in which the keys came.
use continuous_agent.Prelude.{
  Bool, true, ◌≡◌, ◌≢◌, refl, String, str_eq, eq_iff, eq_refl, Bool-cases, false, Option, none,
  some, List, [], ◌∷◌, if◌then◌else◌, inl, inr,
}

module _ {ℓ} {V : Type ℓ} where
  -- `d.get(key)`
  abbrev pub find : String → List (String × V) → Option V
  find key [] = none
  find key ((k, v) ∷ d) = if str_eq k key then some v else find key d

  -- `d[key] = value`
  abbrev pub store : String → V → List (String × V) → List (String × V)
  store key value [] = (key, value) ∷ []
  store key value ((k, v) ∷ d) =
      let rest = store key value d in if str_eq k key then (k, value) ∷ d else (k, v) ∷ rest

pub differ : (s t : String) → str_eq s t ≡ false → s ≢ t
differ s t h e = let k = (eq_iff s t).1 e in cc

str_ne : (s t : String) → s ≢ t → str_eq s t ≡ false
str_ne s t apart = elim (Bool-cases (str_eq s t)) [
  | inl e ↦ absurd (apart ((eq_iff s t).0 e))
  | inr e ↦ e
]

module _ {ℓ} {V : Type ℓ} where
  pub find-store_self :
      (key : String) (value : V) (d : List (String × V)) → find key (store key value d) ≡ some value
  find-store_self key value [] = rw (eq_refl key)
  find-store_self key value ((k, v) ∷ d) = elim (Bool-cases (str_eq k key)) [
    | inl e ↦ rw (e, e)
    | inr e ↦ rw (e, e) (find-store_self key value d)
  ]

  pub find-store_ne :
      (key key' : String) (value : V) (d : List (String × V))
      → key ≢ key'
      → find key' (store key value d) ≡ find key' d
  find-store_ne key key' value [] apart = rw (str_ne key key' apart)
  find-store_ne key key' value ((k, v) ∷ d) apart = elim (Bool-cases (str_eq k key)) [
    | inl e ↦ let k_eq = (eq_iff k key).0 e in rw (e, k_eq, str_ne key key' apart) refl
    | inr e ↦ rw (e, find-store_ne key key' value d apart) refl
  ]

module _ {ℓ} {V : Type ℓ} where
  -- `del d[key]`, and nothing where the key is missing.
  abbrev pub remove : String → List (String × V) → List (String × V)
  remove key [] = []
  remove key ((k, v) ∷ d) = let rest = remove key d in if str_eq k key then rest else (k, v) ∷ rest

  abbrev pub has : String → List (String × V) → Bool
  has key d = elim (find key d) [ none ↦ false | some v ↦ true ]

  pub find-remove_self : (key : String) (d : List (String × V)) → find key (remove key d) ≡ none
  find-remove_self key [] = refl
  find-remove_self key ((k, v) ∷ d) = elim (Bool-cases (str_eq k key)) [
    | inl e ↦ rw (e) (find-remove_self key d)
    | inr e ↦ rw (e, e) (find-remove_self key d)
  ]

  pub find-remove_ne :
      (key key' : String) (d : List (String × V))
      → key ≢ key'
      → find key' (remove key d) ≡ find key' d
  find-remove_ne key key' [] apart = refl
  find-remove_ne key key' ((k, v) ∷ d) apart = elim (Bool-cases (str_eq k key)) [
    | inl e ↦
        let k_eq = (eq_iff k key).0 e in
        rw (e, k_eq, str_ne key key' apart) (find-remove_ne key key' d apart)
    | inr e ↦ rw (e, find-remove_ne key key' d apart) refl
  ]
