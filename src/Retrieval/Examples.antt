-- ===== src/Retrieval/Examples.antt =====
-- A search over three summaries, with scores in thousandths.
use continuous_agent.Prelude.{
  ℕ, ◌+◌, ◌/◌, ◌≡◌, refl, min, true, ◌||◌, leb, List, [], ◌∷◌, ◌++◌, length, map, arith,
}
use continuous_agent.Prelude.Sort.{Each, Ordered, sort_by, insert_by}
use continuous_agent.Retrieval.{Summary, Entry, Scores, hit, tally, fuse, search}
use continuous_agent.Retrieval.Fusion.{IsTotal, fused, search-fused}
use continuous_agent.Retrieval.Documents.{Apart, listed, entered}

abbrev summary : ℕ → Summary
summary id = record {
  id = id;
  start_iteration = id;
  end_iteration = id + 1;
  dense_summary = "milestone";
}

abbrev thousandths : Scores ℕ
thousandths = record {
  none_yet = 0;
  add = λ a b. a + b;
  reciprocal = λ n. 1000 / n;
  leb = λ a b. leb a b;
}

thousandths-IsTotal : IsTotal thousandths
thousandths-IsTotal = record { flips = λ a b h. ground arith; trans = λ a b c h k. ground arith }

abbrev by_words : List Summary
by_words = summary 7 ∷ summary 8 ∷ []

abbrev by_meaning : List Summary
by_meaning = summary 8 ∷ summary 9 ∷ []

abbrev id_of : Entry ℕ → ℕ
id_of e = e.doc_id

both_first : map id_of (search thousandths 60 2 by_words by_meaning) ≡ 8 ∷ 7 ∷ []
unfolding search fuse tally hit sort_by insert_by
both_first = refl

search-fused_example :
    let results = search thousandths 60 2 by_words by_meaning in
    (left_out : List (Entry ℕ)) × ((id : ℕ)
      → (entered id results || entered id left_out) ≡ (listed id by_words || listed id by_meaning))
    × Apart (results ++ left_out)
    × (length results ≡ min 2 (length (results ++ left_out)))
    × Ordered (λ a b. leb b.rrf_score a.rrf_score ≡ true) results
    × Each
        (λ e. e.rrf_score ≡ fused thousandths 60 by_words by_meaning e.doc_id)
        (results ++ left_out)
    × Each (λ e. Each (λ f. leb f.rrf_score e.rrf_score ≡ true) left_out) results
search-fused_example = search-fused thousandths 60 2 by_words by_meaning thousandths-IsTotal
