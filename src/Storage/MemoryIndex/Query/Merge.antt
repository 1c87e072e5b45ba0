-- ===== src/Storage/MemoryIndex/Query/Merge.antt =====
-- What `query` and `count` of src/storage/memory-index.ts return.
use nostr_js.Base.{
  ◌≡◌, refl, Bool, true, ◌&&◌, ◌||◌, not, none, some, List, [], ◌∷◌, arith, Text, ◌==◌, text_eq,
  eq_iff, any, any-append, All, All-map, All-append, Bool-cases, inl, inr, ◌∙◌, sym, length,
  length-append, ap, if_elim,
}
use nostr_js.Runtime.Map
use nostr_js.Runtime.Map.{Map}
use nostr_js.Runtime.Set
use nostr_js.Runtime.Set.{Set}
use nostr_js.Runtime.Sort
use nostr_js.Core.Event.{Event, sort_events}
use nostr_js.Core.Event.Order.{NewestFirst, sort_events-NewestFirst}
use nostr_js.Core.Filter.{Filter, match_filters}
use nostr_js.Storage.Deletion.{covers}
use nostr_js.Storage.MemoryIndex.{MemoryIndex}
use nostr_js.Storage.MemoryIndex.Keys.{stored}
use nostr_js.Storage.MemoryIndex.Writes.{Fits}
use nostr_js.Storage.MemoryIndex.Reach.{Reachable, Reachable-IsIndexed}
use nostr_js.Storage.MemoryIndex.Query.{
  Visits, no_visits, is_match, matched_events, merge_event, merge_events, merge_filters, query,
  add_ids, count_filters, count,
}
use nostr_js.Storage.MemoryIndex.Query.Loops.{has_id, IsDistinct-concat}
use nostr_js.Storage.MemoryIndex.Query.Answer.{
  IsAnswer, matched_events-IsAnswer, matched_events_complete, IsDistinct-sort_events,
}

-- The visits of `query`: the seen ids are those of the events, each once.
record IsMerged (s : MemoryIndex) (p : Event → Bool) (v : Visits) : Type 0 where
  pub seen_ids : (j : Text) → has_id j v.visited ≡ Set.has v.seen j
  pub size : length v.visited ≡ length v.seen
  pub answer : IsAnswer s p v.visited

module _ (s : MemoryIndex) (p : Event → Bool) where
  merge_event-IsMerged :
      (x : Event) (v : Visits)
      → IsMerged s p v
      → (Map.get s.by_id x.id ≡ some x) × (p x ≡ true)
      → IsMerged s p (merge_event x v)
  unfolding merge_event any
  merge_event-IsMerged x v m h =
      if_elim (IsMerged s p) (Set.has v.seen x.id) (λ _. m)
        (λ new. record {
          seen_ids = λ j. ground (
            arith,
            any-append (λ z. z.id == j) v.visited (x ∷ []),
            m.seen_ids j,
            Set.has-add v.seen x.id j,
          );
          size =
              omega
                (arith, length-append v.visited (x ∷ []), Set.length-add v.seen x.id new, m.size);
          answer = record {
            sound = All-append _ v.visited (x ∷ []) m.answer.sound (h, tt);
            distinct = IsDistinct-concat v.visited x m.answer.distinct (m.seen_ids x.id ∙ new);
          };
        })

  merge_events-IsMerged :
      (es : List Event) (v : Visits)
      → IsMerged s p v
      → All (λ x. (Map.get s.by_id x.id ≡ some x) × (p x ≡ true)) es
      → IsMerged s p (merge_events es v)
  unfolding merge_events
  merge_events-IsMerged [] v m h = m
  merge_events-IsMerged (x ∷ es) v m h =
      merge_events-IsMerged es (merge_event x v) (merge_event-IsMerged x v m h.0) h.1

  merge_filters-IsMerged :
      (i : Fits s) (fs : List Filter) (v : Visits)
      → IsMerged s p v
      → All (λ f. (x : Event) → is_match s f x ≡ true → p x ≡ true) fs
      → IsMerged s p (merge_filters s fs v)
  unfolding merge_filters
  merge_filters-IsMerged i [] v m h = m
  merge_filters-IsMerged i (f ∷ fs) v m h =
      merge_filters-IsMerged i fs (merge_events (matched_events s f) v)
        (merge_events-IsMerged (matched_events s f) v m (
          All-map _ _ (matched_events s f) (λ x q. (q.0, h.0 x q.1))
            (matched_events-IsAnswer s i f).sound))
        h.1

seen-merge_event :
    (x : Event) (v : Visits) (j : Text)
    → Set.has (merge_event x v).seen j ≡ (x.id == j || Set.has v.seen j)
unfolding merge_event
seen-merge_event x v j = ground (arith, Set.has-add v.seen x.id j, eq_iff x.id j)

seen-merge_events :
    (es : List Event) (v : Visits) (j : Text)
    → Set.has (merge_events es v).seen j ≡ (has_id j es || Set.has v.seen j)
unfolding merge_events any
seen-merge_events [] v j = refl
seen-merge_events (x ∷ es) v j =
    ground (arith, seen-merge_events es (merge_event x v) j, seen-merge_event x v j)

seen-merge_filters :
    (s : MemoryIndex) (fs : List Filter) (v : Visits) (j : Text)
    → Set.has (merge_filters s fs v).seen j
      ≡ (any (λ f. has_id j (matched_events s f)) fs || Set.has v.seen j)
unfolding merge_filters any
seen-merge_filters s [] v j = refl
seen-merge_filters s (f ∷ fs) v j = ground (
  arith,
  seen-merge_filters s fs (merge_events (matched_events s f) v) j,
  seen-merge_events (matched_events s f) v j,
)

-- All filters without a limit: the union of the answers is what the filters match.
stored-match_filters :
    (s : MemoryIndex) (i : Fits s) (fs : List Filter) (j : Text)
    → All (λ f. f.limit ≡ none) fs
    → any (λ f. has_id j (matched_events s f)) fs
      ≡ stored (λ x. not (covers s.deletion x) && match_filters fs x) (Map.get s.by_id j)
unfolding any match_filters stored is_match
stored-match_filters s i [] j u = ground arith
stored-match_filters s i (f ∷ fs) j u =
    ground (arith, matched_events_complete s i f j u.0, stored-match_filters s i fs j u.1)

-- each filter of a list is one of its matches
each_matches :
    (s : MemoryIndex) (fs : List Filter)
    → All
        (λ f.
          (x : Event)
          → is_match s f x ≡ true
          → (not (covers s.deletion x) && match_filters fs x) ≡ true)
        fs
unfolding match_filters any is_match
each_matches s [] = tt
each_matches s (f ∷ fs) =
    (λ x h. ground arith, All-map _ _ fs (λ g h x q. ground (arith, h x q)) (each_matches s fs))

merged :
    (s : MemoryIndex) (fs : List Filter)
    → Fits s
    → IsMerged s
        (λ x. not (covers s.deletion x) && match_filters fs x)
        (merge_filters s fs no_visits)
unfolding any Set.has
merged s fs i =
    merge_filters-IsMerged s (λ x. not (covers s.deletion x) && match_filters fs x) i fs no_visits
      (record { seen_ids = λ j. refl; size = refl; answer = record { sound = tt; distinct = tt } })
      (each_matches s fs)

-- In every reachable state `query`, with any filters and limits, returns events that are stored
-- and not deleted and match one of the filters, each once, newest first.
pub query_sound :
    {s : MemoryIndex} (fs : List Filter)
    → Reachable s
    → IsAnswer s (λ x. not (covers s.deletion x) && match_filters fs x) (query s fs)
      × NewestFirst (query s fs)
unfolding query sort_events
query_sound {s} fs r =
    let m = merged s fs (Reachable-IsIndexed r) in
    (
      record {
        sound = Sort.sort-All _ _ (merge_filters s fs no_visits).visited m.answer.sound;
        distinct = IsDistinct-sort_events (merge_filters s fs no_visits).visited m.answer.distinct;
      },
      (sort_events-NewestFirst (merge_filters s fs no_visits).visited).0,
    )

-- In every reachable state, for filters without a limit, `query` returns an event under an id
-- exactly when an event is stored under that id that is not deleted and matches one of the filters:
-- the choice of an index by `#eachCandidate` gives what a scan of all stored events would.
pub query_exact :
    {s : MemoryIndex} (fs : List Filter) (id : Text)
    → Reachable s
    → All (λ f. f.limit ≡ none) fs
    → has_id id (query s fs)
      ≡ stored (λ x. not (covers s.deletion x) && match_filters fs x) (Map.get s.by_id id)
unfolding query sort_events Set.has
query_exact {s} fs id r u =
    let i = Reachable-IsIndexed r in
    let m = merged s fs i in
    Sort.any-sort _ (λ x. x.id == id) (merge_filters s fs no_visits).visited
    ∙ m.seen_ids id
    ∙ seen-merge_filters s fs no_visits id
    ∙ rw (stored-match_filters s i fs id u) (ground arith)

-- `count` collects the same set of ids as `query`.
seen-add_ids : (es : List Event) (v : Visits) → (merge_events es v).seen ≡ add_ids es v.seen
unfolding merge_events merge_event add_ids
seen-add_ids [] v = refl
seen-add_ids (x ∷ es) v =
    seen-add_ids es (merge_event x v)
    ∙ ap (add_ids es) (elim (Bool-cases (Set.has v.seen x.id)) [
      | inl old ↦ rw (old, Set.add_present v.seen x.id old) refl
      | inr new ↦ rw new refl
    ])

seen-count_filters :
    (s : MemoryIndex) (fs : List Filter) (v : Visits)
    → (merge_filters s fs v).seen ≡ count_filters s fs v.seen
unfolding merge_filters count_filters
seen-count_filters s [] v = refl
seen-count_filters s (f ∷ fs) v =
    seen-count_filters s fs (merge_events (matched_events s f) v)
    ∙ ap (count_filters s fs) (seen-add_ids (matched_events s f) v)

-- In every reachable state `count` is the number of events that `query` returns for the same
-- filters, limits included.
pub count-eq-length-query :
    {s : MemoryIndex} (fs : List Filter) → Reachable s → count s fs ≡ length (query s fs)
unfolding count query sort_events
count-eq-length-query {s} fs r =
    let m = merged s fs (Reachable-IsIndexed r) in
    ap length (sym (seen-count_filters s fs no_visits))
    ∙ sym m.size
    ∙ sym (Sort.length-sort _ (merge_filters s fs no_visits).visited)
