-- ===== src/Retrieval.antt =====
-- agent/hybrid_search.py: `HybridEpisodicRetriever.search`, reciprocal rank fusion. The answers of the
-- keyword and of the vector query are arguments, empty where a query failed, and so are the numbers
-- in which scores are counted. The three dictionaries of the code have the same keys in the same
-- order and are one table.
pub mod Documents
pub mod Fusion
mod Examples
use continuous_agent.Prelude.{
  ℕ, zero, suc, ◌+◌, String, Bool, true, false, Option, none, some, List, [], ◌∷◌, ◌++◌, take, ◌==◌,
  if◌then◌else◌,
}
use continuous_agent.Prelude.Sort.{sort_by}

-- A row of `episodic_summaries`.
pub record Summary : Type 0 where
  pub id : ℕ
  pub start_iteration : ℕ
  pub end_iteration : ℕ
  pub dense_summary : String

pub record Entry (S : Type 0) : Type 0 where
  pub doc_id : ℕ
  pub rrf_score : S
  pub doc : Summary
  pub matched_by : List String

-- 0.0, addition, `1.0 / n`, and Python's `<=`.
pub record Scores (S : Type 0) : Type 0 where
  pub none_yet : S
  pub add : S → S → S
  pub reciprocal : ℕ → S
  pub leb : S → S → Bool

module _ {S : Type 0} (scores : Scores S) (rrf_k : ℕ) where
  abbrev pub new_entry : String → ℕ → Summary → Entry S
  new_entry source rank item = record {
    doc_id = item.id;
    rrf_score = scores.add scores.none_yet (scores.reciprocal (rrf_k + rank));
    doc = item;
    matched_by = source ∷ [];
  }

  -- `doc_map[doc_id] = item`, which the second loop makes only for a new id.
  abbrev pub hit_entry : Bool → String → ℕ → Summary → Entry S → Entry S
  hit_entry overwrite source rank item e = record {
    doc_id = e.doc_id;
    rrf_score = scores.add e.rrf_score (scores.reciprocal (rrf_k + rank));
    doc = if overwrite then item else e.doc;
    matched_by = e.matched_by ++ source ∷ [];
  }

  -- The body of either loop.
  unfoldable pub hit : Bool → String → ℕ → Summary → List (Entry S) → List (Entry S)
  hit overwrite source rank item [] = new_entry source rank item ∷ []
  hit overwrite source rank item (e ∷ table) =
      let rest = hit overwrite source rank item table in
      if e.doc_id == item.id then hit_entry overwrite source rank item e ∷ table else e ∷ rest

  -- `for rank, item in enumerate(results, start=1)`
  unfoldable pub tally : Bool → String → ℕ → List Summary → List (Entry S) → List (Entry S)
  unfolding hit
  tally overwrite source rank [] table = table
  tally overwrite source rank (item ∷ items) table =
      tally overwrite source (rank + 1) items (hit overwrite source rank item table)

  unfoldable pub fuse : List Summary → List Summary → List (Entry S)
  unfolding tally
  fuse fts_results vector_results =
      tally false "SEMANTIC (ChromaDB)" 1 vector_results
        (tally true "KEYWORD (FTS5)" 1 fts_results [])

  -- `sorted(rrf_scores.keys(), key=score, reverse=True)`
  abbrev pub scores_more : Entry S → Entry S → Bool
  scores_more a b = scores.leb b.rrf_score a.rrf_score

  unfoldable pub search : ℕ → List Summary → List Summary → List (Entry S)
  unfolding fuse sort_by
  search top_k fts_results vector_results =
      take top_k (sort_by scores_more (fuse fts_results vector_results))
