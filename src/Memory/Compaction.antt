-- ===== src/Memory/Compaction.antt =====
-- agent/cognitive_memory.py: the episodes that `maybe_compact` writes.
use continuous_agent.Prelude.{
  ℕ, ◌-◌, ◌≤◌, ◌<◌, ◌≡◌, refl, sym, ◌∙◌, subst, max, String, Bool, true, false, Bool-cases, Option,
  none, some, List, [], ◌∷◌, ◌++◌, length, length-drop, ltb, inl, inr, arith,
}
use continuous_agent.Prelude.Sort.{
  Each, Each-weaken, Each-snoc, Ordered, Ordered-snoc, Ordered-sort_by, Each-sort_by, filter,
  filter-true, filter-Each, sort_by, sort_by-Each, length-sort_by,
}
use continuous_agent.Memory.{
  Log, Episode, Memory, Call, to_record, to_compact, to_update, to_delete, prune, record_cycle,
  update_core_memory, delete_core_memory, last_compacted, uncompacted, earlier, last_iteration,
  add_episode, compact_with, maybe_compact, handle, handle_calls, history_limit,
}

-- The episodes are intervals of iterations, one after the other, and the history is bounded.
abbrev pub IsOrderly : Memory → Type 0
IsOrderly s =
    Ordered (λ a b. a.end_iteration < b.start_iteration) s.episodic_summaries
    × Each (λ e. e.start_iteration ≤ e.end_iteration) s.episodic_summaries
    × (length s.execution_logs ≤ 500)

le_trans : {a b c : ℕ} → a ≤ b → b ≤ c → a ≤ c
le_trans h k = omega arith

le_lt_trans : {a b c : ℕ} → a ≤ b → b < c → a < c
le_lt_trans h k = omega arith

last_compacted-Each :
    (episodes : List Episode) → Each (λ e. e.end_iteration ≤ last_compacted episodes) episodes
unfolding last_compacted
last_compacted-Each [] = tt
last_compacted-Each (e ∷ episodes) = (
  ground arith,
  Each-weaken episodes (λ x h. le_max x.end_iteration (last_compacted episodes) e.end_iteration h)
      (last_compacted-Each episodes),
)
  where
    le_max : (a b c : ℕ) → a ≤ b → a ≤ max c b
    le_max a b c h = ground arith

last_compacted-snoc :
    (episodes : List Episode) (e : Episode)
    → (e.end_iteration ≤ last_compacted (episodes ++ e ∷ []))
      × (last_compacted episodes ≤ last_compacted (episodes ++ e ∷ []))
unfolding last_compacted
last_compacted-snoc [] e = (ground arith, ground arith)
last_compacted-snoc (x ∷ episodes) e =
    let (h, k) = last_compacted-snoc episodes e in (ground arith, ground arith)

-- In rows ordered by iteration, the last has the greatest.
last_iteration-Each :
    (l : Log) (ls : List Log)
    → Ordered (λ a b. a.iteration ≤ b.iteration) (l ∷ ls)
    → Each (λ x. x.iteration ≤ last_iteration l ls) (l ∷ ls)
last_iteration-Each l [] h = (omega arith, tt)
last_iteration-Each l (k ∷ ks) ((lk, lks), h) =
    let (at_k, rest) = last_iteration-Each k ks h in (le_trans lk at_k, (at_k, rest))

sorted_rows : (logs : List Log) → Ordered (λ a b. a.iteration ≤ b.iteration) (sort_by earlier logs)
sorted_rows logs =
    Ordered-sort_by earlier _ (λ a b h. before a b h) (λ a b h. after a b h)
      (λ a b c h k. le_trans h k) logs
  where
    before : (a b : Log) → earlier a b ≡ true → a.iteration ≤ b.iteration
    before a b h = ground arith

    after : (a b : Log) → earlier a b ≡ false → b.iteration ≤ a.iteration
    after a b h = ground arith

newer_than :
    (last : ℕ) (logs : List Log)
    → Each (λ x. last < x.iteration) (filter (λ log. ltb last log.iteration) logs)
newer_than last logs = filter-true _ _ logs (λ x e. newer last x e)
  where
    newer : (last : ℕ) (x : Log) → ltb last x.iteration ≡ true → last < x.iteration
    newer last x e = ground arith

add_episode-IsOrderly :
    (text : String) (rows : List Log) (s : Memory)
    → Ordered (λ a b. a.iteration ≤ b.iteration) rows
    → Each (λ x. last_compacted s.episodic_summaries < x.iteration) rows
    → IsOrderly s
    → IsOrderly (add_episode text rows s)
add_episode-IsOrderly text [] s ordered new h = h
add_episode-IsOrderly text (l ∷ ls) s ordered (new, news) (apart, spans, few) = (
  Ordered-snoc _ s.episodic_summaries _ apart (
      Each-weaken s.episodic_summaries (λ e h. le_lt_trans h new)
        (last_compacted-Each s.episodic_summaries)),
  Each-snoc _ s.episodic_summaries _ spans (last_iteration-Each l ls ordered).0,
  few,
)

maybe_compact-IsOrderly :
    (client : Bool) (threshold : ℕ) (text : Option String) (s : Memory)
    → IsOrderly s
    → IsOrderly (maybe_compact client threshold text s)
unfolding maybe_compact
maybe_compact-IsOrderly false threshold text s h = h
maybe_compact-IsOrderly true threshold text s h =
    elim (Bool-cases (ltb (length (uncompacted s)) threshold)) [
      | inl e ↦ rw e h
      | inr e ↦ rw e (compacted text)
    ]
  where
    compacted : (text : Option String) → IsOrderly (compact_with text s)
    compacted none = h
    compacted (some text) =
        add_episode-IsOrderly text (sort_by earlier (uncompacted s)) s (sorted_rows (uncompacted s))
          (Each-sort_by earlier _ (uncompacted s) (newer_than _ s.execution_logs)) h

handle-IsOrderly :
    (client : Bool) (threshold : ℕ) (c : Call) (s : Memory)
    → IsOrderly s
    → IsOrderly (handle client threshold c s)
unfolding record_cycle update_core_memory delete_core_memory
handle-IsOrderly client threshold (to_record log) s (apart, spans, few) =
    (apart, spans, bounded (s.execution_logs ++ log ∷ []))
  where
    bounded : (logs : List Log) → length (prune logs) ≤ 500
    bounded logs =
        subst (λ n. n ≤ 500) (sym (length-drop (length logs - history_limit) logs))
          (left (length logs))
      where
        left : (n : ℕ) → n - (n - 500) ≤ 500
        left n = omega arith
handle-IsOrderly client threshold (to_compact text) s h =
    maybe_compact-IsOrderly client threshold text s h
handle-IsOrderly client threshold (to_update key value) s h = h
handle-IsOrderly client threshold (to_delete key) s h = h

calls-IsOrderly :
    (client : Bool) (threshold : ℕ) (calls : List Call) (s : Memory)
    → IsOrderly s
    → IsOrderly (handle_calls client threshold calls s)
unfolding handle_calls
calls-IsOrderly client threshold [] s h = h
calls-IsOrderly client threshold (c ∷ calls) s h =
    calls-IsOrderly client threshold calls (handle client threshold c s)
      (handle-IsOrderly client threshold c s h)

-- No iteration of the history is later than the last that is compacted.
Covered : Memory → Type 0
Covered s = Each (λ x. x.iteration ≤ last_compacted s.episodic_summaries) s.execution_logs

add_episode-Covered :
    (text : String) (rows : List Log) (s : Memory)
    → Ordered (λ a b. a.iteration ≤ b.iteration) rows
    → (length rows ≡ 0 → ⊥)
    → Each (λ x. x.iteration ≤ last_compacted (add_episode text rows s).episodic_summaries) rows
      × (last_compacted s.episodic_summaries
          ≤ last_compacted (add_episode text rows s).episodic_summaries)
add_episode-Covered text [] s ordered some_row = absurd (some_row refl)
add_episode-Covered text (l ∷ ls) s ordered some_row =
    let e : Episode = record {
      start_iteration = l.iteration;
      end_iteration = last_iteration l ls;
      dense_summary = text;
    } in
    let (here, before) = last_compacted-snoc s.episodic_summaries e in
    (Each-weaken (l ∷ ls) (λ x h. le_trans h here) (last_iteration-Each l ls ordered), before)

none_newer :
    (last : ℕ) (logs : List Log)
    → Each (λ x. x.iteration ≤ last) logs
    → length (filter (λ log. ltb last log.iteration) logs) ≡ 0
unfolding filter
none_newer last [] h = refl
none_newer last (x ∷ xs) (h, hs) = rw (not_newer last x h) (none_newer last xs hs)
  where
    not_newer : (last : ℕ) (x : Log) → x.iteration ≤ last → ltb last x.iteration ≡ false
    not_newer last x h = ground arith

same_logs :
    (text : String) (rows : List Log) (s : Memory)
    → (add_episode text rows s).execution_logs ≡ s.execution_logs
same_logs text [] s = refl
same_logs text (l ∷ ls) s = refl

compact_with-Covered :
    (text : String) (s : Memory)
    → (length (uncompacted s) ≡ 0 → ⊥)
    → Covered (compact_with (some text) s)
unfolding Covered
compact_with-Covered text s some_row =
    let rows = sort_by earlier (uncompacted s) in
    let after = add_episode text rows s in
    let (covered, grown) =
      add_episode-Covered text rows s (sorted_rows (uncompacted s))
        (λ e. some_row (sym (length-sort_by earlier (uncompacted s)) ∙ e)) in
    subst (Each (λ x. x.iteration ≤ last_compacted after.episodic_summaries))
      (sym (same_logs text rows s))
      (filter-Each (λ log. ltb (last_compacted s.episodic_summaries) log.iteration) _
        s.execution_logs (sort_by-Each earlier _ (uncompacted s) covered)
        (λ x e. le_trans (older (last_compacted s.episodic_summaries) x e) grown))
  where
    older : (last : ℕ) (x : Log) → ltb last x.iteration ≡ false → x.iteration ≤ last
    older last x e = ground arith

maybe_compact-few :
    (threshold : ℕ) (text : String) (s : Memory)
    → 1 ≤ threshold
    → length (uncompacted (maybe_compact true threshold (some text) s)) < threshold
unfolding maybe_compact Covered
maybe_compact-few threshold text s positive =
    elim (Bool-cases (ltb (length (uncompacted s)) threshold)) [
      | inl e ↦ rw e (below (length (uncompacted s)) threshold e)
      | inr e ↦ rw e (
          subst (λ n. n < threshold)
            (sym (
              none_newer _ _ (
                compact_with-Covered text s
                  (nonempty (length (uncompacted s)) threshold positive e))))
            positive)
    ]
  where
    below : (n k : ℕ) → ltb n k ≡ true → n < k
    below n k e = ground arith

    nonempty : (n k : ℕ) → 1 ≤ k → ltb n k ≡ false → n ≡ 0 → ⊥
    nonempty n k h e z = ground arith

-- Whatever calls are made of a store that starts out orderly, its episodes are intervals of
-- iterations, each after the one before, and its history has at most 500 rows. A compaction that the
-- model answers then keeps this and leaves fewer rows than the threshold, which is positive, past
-- the last episode.
pub handle_calls-IsOrderly :
    (client : Bool) (threshold : ℕ) (calls : List Call) (s : Memory) (text : String)
    → IsOrderly s
    → 1 ≤ threshold
    → let reached = handle_calls client threshold calls s in
      let compacted = maybe_compact true threshold (some text) reached in
      IsOrderly reached × IsOrderly compacted × (length (uncompacted compacted) < threshold)
handle_calls-IsOrderly client threshold calls s text h positive =
    let reached = handle_calls client threshold calls s in
    let orderly = calls-IsOrderly client threshold calls s h in
    (
      orderly,
      maybe_compact-IsOrderly true threshold (some text) reached orderly,
      maybe_compact-few threshold text reached positive,
    )
