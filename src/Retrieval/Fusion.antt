-- ===== src/Retrieval/Fusion.antt =====
-- agent/hybrid_search.py: what `search` returns.
use continuous_agent.Prelude.{
  ℕ, ◌+◌, ◌≡◌, ◌≢◌, refl, ap, sym, subst, ◌∙◌, min, String, Bool, true, false, Bool-cases, ◌||◌,
  List, [], ◌∷◌, ◌++◌, length, length-take, take, drop, ◌==◌, if◌then◌else◌, inl, inr, arith,
}
use continuous_agent.Prelude.Sort.{
  Each, Each-both, Each-weaken, Ordered, Ordered-take, take-Ordered, Each-sort_by, Ordered-sort_by,
  sort_by,
}
use continuous_agent.Retrieval.Documents.{
  Apart, listed, entered, entered-append, entered-sort_by, take-drop, sort_by-Apart, entered-fuse,
}
use continuous_agent.Retrieval.{Summary, Entry, Scores, hit, tally, fuse, scores_more, search}

module _ {S : Type 0} (scores : Scores S) (rrf_k : ℕ) where
  -- A document's score by its ranks in one list, added to what it had.
  abbrev pub ranked : ℕ → ℕ → List Summary → S → S
  ranked id rank [] had = had
  ranked id rank (item ∷ items) had =
      ranked id (rank + 1) items
        (if item.id == id then scores.add had (scores.reciprocal (rrf_k + rank)) else had)

  -- `rrf_scores.get(id, 0.0)`
  score_of : ℕ → List (Entry S) → S
  score_of id [] = scores.none_yet
  score_of id (e ∷ table) =
      let rest = score_of id table in if e.doc_id == id then e.rrf_score else rest

  score_of-hit :
      (overwrite : Bool) (source : String) (id rank : ℕ) (item : Summary) (table : List (Entry S))
      → score_of id (hit scores rrf_k overwrite source rank item table) ≡ (
          if item.id == id
          then scores.add (score_of id table) (scores.reciprocal (rrf_k + rank))
          else score_of id table)
  unfolding score_of hit
  score_of-hit overwrite source id rank item [] = refl
  score_of-hit overwrite source id rank item (e ∷ table) = elim (Bool-cases (e.doc_id == item.id)) [
    | inl here ↦ elim (Bool-cases (e.doc_id == id)) [
      | inl same ↦ let also : (item.id == id) ≡ true = ground arith in rw (here, same, also) refl
      | inr apart ↦ let also : (item.id == id) ≡ false = ground arith in rw (here, apart, also) refl
    ]
    | inr there ↦ elim (Bool-cases (e.doc_id == id)) [
      | inl same ↦ let also : (item.id == id) ≡ false = ground arith in rw (there, same, also) refl
      | inr apart ↦ rw (there, apart) (score_of-hit overwrite source id rank item table)
    ]
  ]

  score_of-tally :
      (overwrite : Bool) (source : String) (id rank : ℕ) (items : List Summary)
      (table : List (Entry S))
      → score_of id (tally scores rrf_k overwrite source rank items table)
        ≡ ranked id rank items (score_of id table)
  unfolding tally
  score_of-tally overwrite source id rank [] table = refl
  score_of-tally overwrite source id rank (item ∷ items) table =
      score_of-tally overwrite source id (rank + 1) items _
      ∙ ap (ranked id (rank + 1) items) (score_of-hit overwrite source id rank item table)

  Each-hit :
      (x : ℕ) (overwrite : Bool) (source : String) (rank : ℕ) (item : Summary)
      (table : List (Entry S))
      → x ≢ item.id
      → Each (λ b. x ≢ b.doc_id) table
      → Each (λ b. x ≢ b.doc_id) (hit scores rrf_k overwrite source rank item table)
  unfolding hit
  Each-hit x overwrite source rank item [] n h = (n, tt)
  Each-hit x overwrite source rank item (e ∷ table) n (h, hs) =
      elim (Bool-cases (e.doc_id == item.id)) [
        | inl here ↦ rw here (h, hs)
        | inr there ↦ rw there (h, Each-hit x overwrite source rank item table n hs)
      ]

  hit-Apart :
      (overwrite : Bool) (source : String) (rank : ℕ) (item : Summary) (table : List (Entry S))
      → Apart table
      → Apart (hit scores rrf_k overwrite source rank item table)
  unfolding hit
  hit-Apart overwrite source rank item [] h = (tt, tt)
  hit-Apart overwrite source rank item (e ∷ table) (h, hs) =
      elim (Bool-cases (e.doc_id == item.id)) [
        | inl here ↦ rw here (h, hs)
        | inr there ↦
            let apart : e.doc_id ≢ item.id = λ same. ground arith in
            rw there (
              Each-hit e.doc_id overwrite source rank item table apart h,
              hit-Apart overwrite source rank item table hs,
            )
      ]

  tally-Apart :
      (overwrite : Bool) (source : String) (rank : ℕ) (items : List Summary)
      (table : List (Entry S))
      → Apart table
      → Apart (tally scores rrf_k overwrite source rank items table)
  unfolding tally
  tally-Apart overwrite source rank [] table h = h
  tally-Apart overwrite source rank (item ∷ items) table h =
      tally-Apart overwrite source (rank + 1) items _ (hit-Apart overwrite source rank item table h)

  fuse-Apart :
      (fts_results vector_results : List Summary)
      → Apart (fuse scores rrf_k fts_results vector_results)
  unfolding fuse
  fuse-Apart fts_results vector_results =
      tally-Apart false "SEMANTIC (ChromaDB)" 1 vector_results
        (tally scores rrf_k true "KEYWORD (FTS5)" 1 fts_results [])
        (tally-Apart true "KEYWORD (FTS5)" 1 fts_results [] tt)

  own_score :
      (table : List (Entry S))
      → Apart table
      → Each (λ e. score_of e.doc_id table ≡ e.rrf_score) table
  unfolding score_of
  own_score [] h = tt
  own_score (e ∷ table) (h, hs) = (
    let here : (e.doc_id == e.doc_id) ≡ true = ground arith in rw here refl,
    Each-weaken table
        (λ f (n, own). let there : (e.doc_id == f.doc_id) ≡ false = ground arith in rw there own)
        (Each-both _ _ table h (own_score table hs)),
  )

  -- The score of an entry of the table, by the two lists alone.
  abbrev pub fused : List Summary → List Summary → ℕ → S
  fused fts_results vector_results id =
      ranked id 1 vector_results (ranked id 1 fts_results scores.none_yet)

  fuse-fused :
      (fts_results vector_results : List Summary)
      → Each
          (λ e. e.rrf_score ≡ fused fts_results vector_results e.doc_id)
          (fuse scores rrf_k fts_results vector_results)
  unfolding fuse score_of
  fuse-fused fts_results vector_results =
      let first = tally scores rrf_k true "KEYWORD (FTS5)" 1 fts_results [] in
      Each-weaken (tally scores rrf_k false "SEMANTIC (ChromaDB)" 1 vector_results first)
        (λ e own.
          sym own
          ∙ score_of-tally false "SEMANTIC (ChromaDB)" e.doc_id 1 vector_results first
          ∙ ap (ranked e.doc_id 1 vector_results)
              (score_of-tally true "KEYWORD (FTS5)" e.doc_id 1 fts_results []))
        (own_score (tally scores rrf_k false "SEMANTIC (ChromaDB)" 1 vector_results first) (
          tally-Apart false "SEMANTIC (ChromaDB)" 1 vector_results first
            (tally-Apart true "KEYWORD (FTS5)" 1 fts_results [] tt)))

-- Python's `<=` on scores: any two compare, and it is transitive.
pub record IsTotal {S : Type 0} (scores : Scores S) : Type 0 where
  pub flips : (a b : S) → scores.leb a b ≡ false → scores.leb b a ≡ true
  pub trans : (a b c : S) → scores.leb a b ≡ true → scores.leb b c ≡ true → scores.leb a c ≡ true

-- `search` returns different documents, all from the two lists: `top_k` of them or, if the lists have
-- fewer, all, in falling order of score. Each has the score that its ranks in the two lists give; a
-- document of either list is returned or left out, and none that is left out has a higher score than
-- any that is returned.
pub search-fused :
    {S : Type 0} (scores : Scores S) (rrf_k top_k : ℕ) (fts_results vector_results : List Summary)
    → IsTotal scores
    → let results = search scores rrf_k top_k fts_results vector_results in
      (left_out : List (Entry S)) × ((id : ℕ)
        → (entered id results || entered id left_out)
          ≡ (listed id fts_results || listed id vector_results))
      × Apart (results ++ left_out)
      × (length results ≡ min top_k (length (results ++ left_out)))
      × Ordered (λ a b. scores.leb b.rrf_score a.rrf_score ≡ true) results
      × Each
          (λ e. e.rrf_score ≡ fused scores rrf_k fts_results vector_results e.doc_id)
          (results ++ left_out)
      × Each (λ e. Each (λ f. scores.leb f.rrf_score e.rrf_score ≡ true) left_out) results
unfolding search
search-fused scores rrf_k top_k fts_results vector_results total =
    let table = fuse scores rrf_k fts_results vector_results in
    let more = scores_more scores rrf_k in
    let sorted = sort_by more table in
    let whole = take-drop top_k sorted in
    let ordered =
      Ordered-sort_by more (λ a b. scores.leb b.rrf_score a.rrf_score ≡ true) (λ a b h. h)
        (λ a b h. total.flips b.rrf_score a.rrf_score h)
        (λ a b c h k. total.trans c.rrf_score b.rrf_score a.rrf_score k h) table in
    (
      drop top_k sorted,
      λ id.
          sym (entered-append id (take top_k sorted) (drop top_k sorted))
          ∙ ap (entered id) whole
          ∙ entered-sort_by more id table
          ∙ entered-fuse scores rrf_k id fts_results vector_results,
      subst Apart (sym whole)
          (sort_by-Apart more table (fuse-Apart scores rrf_k fts_results vector_results)),
      length-take top_k sorted ∙ ap (λ xs. min top_k (length xs)) (sym whole),
      take-Ordered _ top_k sorted ordered,
      subst (Each (λ e. e.rrf_score ≡ fused scores rrf_k fts_results vector_results e.doc_id))
          (sym whole)
          (Each-sort_by more _ table (fuse-fused scores rrf_k fts_results vector_results)),
      Ordered-take _ top_k sorted ordered,
    )
