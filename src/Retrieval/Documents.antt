-- ===== src/Retrieval/Documents.antt =====
-- agent/hybrid_search.py: which documents the fused table has.
use continuous_agent.Prelude.{
  ℕ, zero, suc, ◌+◌, ◌≡◌, ◌≢◌, refl, ap, sym, ◌∙◌, String, Bool, Bool-cases, true, false, ◌||◌,
  List, [], ◌∷◌, ◌++◌, take, drop, ◌==◌, inl, inr, arith,
}
use continuous_agent.Prelude.Sort.{Each, Ordered, Each-sort_by, sort_by, insert_by}
use continuous_agent.Retrieval.{Summary, Entry, Scores, hit, tally, fuse}

-- The documents are different.
abbrev pub Apart : {S : Type 0} → List (Entry S) → Type 0
Apart table = Ordered (λ a b. a.doc_id ≢ b.doc_id) table

||-assoc : (a b c : Bool) → (a || (b || c)) ≡ ((a || b) || c)
||-assoc a b c = ground arith

||-swap : (a b c : Bool) → (a || (b || c)) ≡ (b || (a || c))
||-swap a b c = ground arith

||-swap' : (a b c : Bool) → (a || (b || c)) ≡ ((b || a) || c)
||-swap' a b c = ground arith

||-comm : (a b : Bool) → (a || (b || false)) ≡ (b || a)
||-comm a b = ground arith

module _ {S : Type 0} (before : Entry S → Entry S → Bool) where
  Each-insert_by :
      (x : ℕ) (e : Entry S) (table : List (Entry S))
      → x ≢ e.doc_id
      → Each (λ b. x ≢ b.doc_id) table
      → Each (λ b. x ≢ b.doc_id) (insert_by before e table)
  unfolding insert_by
  Each-insert_by x e [] n h = (n, tt)
  Each-insert_by x e (f ∷ table) n (h, hs) = elim (Bool-cases (before e f)) [
    | inl b ↦ rw b (n, (h, hs))
    | inr b ↦ rw b (h, Each-insert_by x e table n hs)
  ]

  insert_by-Apart :
      (e : Entry S) (table : List (Entry S))
      → Each (λ b. e.doc_id ≢ b.doc_id) table
      → Apart table
      → Apart (insert_by before e table)
  unfolding insert_by
  insert_by-Apart e [] n h = (tt, tt)
  insert_by-Apart e (f ∷ table) (n, ns) (h, hs) = elim (Bool-cases (before e f)) [
    | inl b ↦ rw b ((n, ns), (h, hs))
    | inr b ↦
        rw b
          (Each-insert_by f.doc_id e table (λ same. n (sym same)) h, insert_by-Apart e table ns hs)
  ]

  pub sort_by-Apart : (table : List (Entry S)) → Apart table → Apart (sort_by before table)
  unfolding sort_by
  sort_by-Apart [] h = tt
  sort_by-Apart (e ∷ table) (h, hs) =
      insert_by-Apart e (sort_by before table)
        (Each-sort_by before (λ b. e.doc_id ≢ b.doc_id) table h) (sort_by-Apart table hs)

-- Whether a document stands in a list, and whether it has an entry.
abbrev pub listed : ℕ → List Summary → Bool
listed id [] = false
listed id (item ∷ items) = (item.id == id) || listed id items

abbrev pub entered : {S : Type 0} → ℕ → List (Entry S) → Bool
entered id [] = false
entered id (e ∷ table) = (e.doc_id == id) || entered id table

pub entered-append :
    {S : Type 0} (id : ℕ) (xs ys : List (Entry S))
    → entered id (xs ++ ys) ≡ (entered id xs || entered id ys)
entered-append id [] ys = refl
entered-append id (x ∷ xs) ys = rw (entered-append id xs ys) (||-assoc (x.doc_id == id) _ _)

entered-insert_by :
    {S : Type 0} (before : Entry S → Entry S → Bool) (id : ℕ) (x : Entry S) (ys : List (Entry S))
    → entered id (insert_by before x ys) ≡ ((x.doc_id == id) || entered id ys)
unfolding insert_by
entered-insert_by before id x [] = refl
entered-insert_by before id x (y ∷ ys) = elim (Bool-cases (before x y)) [
  | inl e ↦ rw e refl
  | inr e ↦
      rw (e, entered-insert_by before id x ys)
        (||-swap (y.doc_id == id) (x.doc_id == id) (entered id ys))
]

pub entered-sort_by :
    {S : Type 0} (before : Entry S → Entry S → Bool) (id : ℕ) (xs : List (Entry S))
    → entered id (sort_by before xs) ≡ entered id xs
unfolding sort_by
entered-sort_by before id [] = refl
entered-sort_by before id (x ∷ xs) =
    entered-insert_by before id x (sort_by before xs)
    ∙ ap (λ b. (x.doc_id == id) || b) (entered-sort_by before id xs)

pub take-drop : {A : Type 0} (n : ℕ) (xs : List A) → take n xs ++ drop n xs ≡ xs
take-drop zero xs = refl
take-drop (suc n) [] = refl
take-drop (suc n) (x ∷ xs) = ap (λ ys. x ∷ ys) (take-drop n xs)

module _ {S : Type 0} (scores : Scores S) (rrf_k : ℕ) where
  entered-hit :
      (overwrite : Bool) (source : String) (id rank : ℕ) (item : Summary) (table : List (Entry S))
      → entered id (hit scores rrf_k overwrite source rank item table)
        ≡ ((item.id == id) || entered id table)
  unfolding hit
  entered-hit overwrite source id rank item [] = refl
  entered-hit overwrite source id rank item (e ∷ table) = elim (Bool-cases (e.doc_id == item.id)) [
    | inl here ↦ rw here (known e.doc_id item.id id (entered id table) here)
    | inr there ↦
        rw (there, entered-hit overwrite source id rank item table)
          (||-swap (e.doc_id == id) (item.id == id) (entered id table))
  ]
    where
      known :
          (a b id : ℕ) (more : Bool)
          → (a == b) ≡ true
          → ((a == id) || more) ≡ ((b == id) || ((a == id) || more))
      known a b id more same = ground arith

  entered-tally :
      (overwrite : Bool) (source : String) (id rank : ℕ) (items : List Summary)
      (table : List (Entry S))
      → entered id (tally scores rrf_k overwrite source rank items table)
        ≡ (listed id items || entered id table)
  unfolding tally
  entered-tally overwrite source id rank [] table = refl
  entered-tally overwrite source id rank (item ∷ items) table =
      entered-tally overwrite source id (rank + 1) items _
      ∙ ap (λ b. listed id items || b) (entered-hit overwrite source id rank item table)
      ∙ ||-swap' (listed id items) (item.id == id) (entered id table)

  -- The fused table has the documents of both lists.
  pub entered-fuse :
      (id : ℕ) (fts_results vector_results : List Summary)
      → entered id (fuse scores rrf_k fts_results vector_results)
        ≡ (listed id fts_results || listed id vector_results)
  unfolding fuse
  entered-fuse id fts_results vector_results =
      entered-tally false "SEMANTIC (ChromaDB)" id 1 vector_results
        (tally scores rrf_k true "KEYWORD (FTS5)" 1 fts_results [])
      ∙ ap (λ b. listed id vector_results || b)
          (entered-tally true "KEYWORD (FTS5)" id 1 fts_results [])
      ∙ ||-comm (listed id vector_results) (listed id fts_results)
