-- ===== src/Storage/MemoryIndex/Query.antt =====
-- The reads of src/storage/memory-index.ts: candidates from the indexes, `query`, `count` and
-- `negentropyItems`. The visits of `#eachCandidate` are the list of the visited events, in order;
-- the visitors only read the index.
pub mod Loops
pub mod Reached
pub mod Complete
pub mod Answer
pub mod Merge
use nostr_js.Base.{
  ◌≡◌, Bool, true, false, ◌&&◌, ◌||◌, not, Option, none, some, List, [], ◌∷◌, ◌++◌, ℕ, nat_beq,
  if◌then◌else◌, Text, text, ◌==◌, text_eq, nat_eq, is_some, length, map, filter, take, Eq,
}
use nostr_js.Runtime.Map
use nostr_js.Runtime.Map.{Map}
use nostr_js.Runtime.Set
use nostr_js.Runtime.Set.{Set}
use nostr_js.Runtime.Sort.{sort}
use nostr_js.Runtime.Str.{to_lower_case}
use nostr_js.Core.Event.{Event, Stamp, stamp, sort_events, item_compare, compare_events_desc}
use nostr_js.Core.Filter.{Filter, match_filter, tag_filter}
use nostr_js.Storage.Deletion.{covers}
use nostr_js.Storage.MemoryIndex.{Tables, MemoryIndex, kind_pubkey_key, ep_key}

-- `seen`, and the events visited so far
pub record Visits : Type 0 where
  pub seen : Set Text
  pub visited : List Event

abbrev pub no_visits : Visits
no_visits = record { seen = []; visited = [] }

abbrev pub visit_found : Option Event → Visits → Visits
visit_found none v = v
visit_found (some event) v = record v { visited = v.visited ++ event ∷ [] }

-- the keys of the loops over `filter.authors` and `filter.kinds`
unfoldable pub author_kind_keys : List Text → List ℕ → List Text
author_kind_keys [] kinds = []
author_kind_keys (pk ∷ pks) kinds =
    map (λ kind. kind_pubkey_key kind (to_lower_case pk)) kinds ++ author_kind_keys pks kinds

module _ (t : Tables) where
  -- `if (seen.has(id)) continue; seen.add(id); ... visit(event)`
  unfoldable pub visit_id : Text → Visits → Visits
  visit_id id v =
      if Set.has v.seen id
      then v
      else visit_found (Map.get t.by_id id) (record v { seen = Set.add v.seen id })

  unfoldable pub visit_ids : List Text → Visits → Visits
  visit_ids [] v = v
  visit_ids (id ∷ ids) v = visit_ids ids (visit_id id v)

  -- `const ids = index.get(key); if (!ids) continue; for (const id of ids) ...`
  unfoldable pub visit_key {ℓ} : {K : Type ℓ} ⦃e : Eq K⦄ → Map K (Set Text) → K → Visits → Visits
  visit_key index key v = elim (Map.get index key) [ none ↦ v | some ids ↦ visit_ids ids v ]

  unfoldable pub visit_keys {ℓ} :
      {K : Type ℓ} ⦃e : Eq K⦄ → Map K (Set Text) → List K → Visits → Visits
  visit_keys index [] v = v
  visit_keys index (key ∷ keys) v = visit_keys index keys (visit_key index key v)

  -- the loop over `filter.ids`, which looks the event up first
  visit_event : Option Event → Visits → Visits
  visit_event none v = v
  visit_event (some event) v =
      if Set.has v.seen event.id
      then v
      else record { seen = Set.add v.seen event.id; visited = v.visited ++ event ∷ [] }

  unfoldable pub visit_raw_ids : List Text → Visits → Visits
  unfolding visit_event
  visit_raw_ids [] v = v
  visit_raw_ids (raw ∷ raws) v =
      visit_raw_ids raws (visit_event (Map.get t.by_id (to_lower_case raw)) v)

  -- `visitEpTagIds`
  unfoldable pub visit_ep_tags : Text → Option (List Text) → Visits → Visits
  visit_ep_tags name none v = v
  visit_ep_tags name (some vs) v = visit_keys t.by_ep_tag (map (ep_key name) vs) v

  unfoldable pub by_tags : Option (List Text) → Option (List Text) → List Event
  by_tags none none = Map.values t.by_id
  by_tags e_tags p_tags =
      (visit_ep_tags (text "p") p_tags (visit_ep_tags (text "e") e_tags no_visits)).visited

  unfoldable pub by_authors_kinds : Option (List Text) → Option (List ℕ) → List Event → List Event
  by_authors_kinds (some authors) (some kinds) rest =
      (visit_keys t.by_kind_pubkey (author_kind_keys authors kinds) no_visits).visited
  by_authors_kinds (some authors) none rest =
      (visit_keys t.by_pubkey (map to_lower_case authors) no_visits).visited
  by_authors_kinds none (some kinds) rest = (visit_keys t.by_kind kinds no_visits).visited
  by_authors_kinds none none rest = rest

  unfoldable pub by_ids : Option (List Text) → List Event → List Event
  by_ids (some ids) rest = (visit_raw_ids ids no_visits).visited
  by_ids none rest = rest

  -- `#eachCandidate`
  unfoldable pub candidates : Filter → List Event
  unfolding visit_ep_tags by_tags by_authors_kinds by_ids tag_filter
  candidates f = by_ids f.ids (
      by_authors_kinds f.authors f.kinds
        (by_tags (tag_filter f (text "e")) (tag_filter f (text "p"))))

-- the two tests of the visitors
unfoldable pub is_match : MemoryIndex → Filter → Event → Bool
is_match s f event = not (covers s.deletion event) && match_filter f event

abbrev pub is_zero_limit : Option ℕ → Bool
is_zero_limit none = false
is_zero_limit (some n) = nat_beq n 0

-- `matched.slice(0, limit)`, and the whole list without a limit
abbrev pub limited {ℓ} : {A : Type ℓ} → Option ℕ → List A → List A
limited none l = l
limited (some n) l = take n l

-- `#matchedEvents`
unfoldable pub matched_events : MemoryIndex → Filter → List Event
matched_events s f =
    if is_zero_limit f.limit
    then []
    else limited f.limit (sort_events (filter (is_match s f) (candidates s.tables f)))

-- one round of the inner loop of `query`
unfoldable pub merge_event : Event → Visits → Visits
merge_event event v =
    if Set.has v.seen event.id
    then v
    else record { seen = Set.add v.seen event.id; visited = v.visited ++ event ∷ [] }

unfoldable pub merge_events : List Event → Visits → Visits
merge_events [] v = v
merge_events (event ∷ events) v = merge_events events (merge_event event v)

unfoldable pub merge_filters : MemoryIndex → List Filter → Visits → Visits
merge_filters s [] v = v
merge_filters s (f ∷ fs) v = merge_filters s fs (merge_events (matched_events s f) v)

-- `query`
unfoldable pub query : MemoryIndex → List Filter → List Event
query s filters = sort_events (merge_filters s filters no_visits).visited

-- the inner loop of `count`
unfoldable pub add_ids : List Event → Set Text → Set Text
add_ids [] seen = seen
add_ids (event ∷ events) seen = add_ids events (Set.add seen event.id)

unfoldable pub count_filters : MemoryIndex → List Filter → Set Text → Set Text
count_filters s [] seen = seen
count_filters s (f ∷ fs) seen = count_filters s fs (add_ids (matched_events s f) seen)

-- `count`
unfoldable pub count : MemoryIndex → List Filter → ℕ
count s filters = length (count_filters s filters [])

newest_items : Option ℕ → List Stamp → List Stamp
newest_items none items = items
newest_items (some n) items = take n (sort compare_events_desc items)

-- `negentropyItems`
unfoldable pub negentropy_items : MemoryIndex → Filter → List Stamp
unfolding newest_items
negentropy_items s f =
    if is_zero_limit f.limit
    then []
    else sort item_compare
        (newest_items f.limit (map stamp (filter (is_match s f) (candidates s.tables f))))
