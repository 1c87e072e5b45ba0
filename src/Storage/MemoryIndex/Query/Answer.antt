-- ===== src/Storage/MemoryIndex/Query/Answer.antt =====
-- The answer to one filter (`#matchedEvents` of src/storage/memory-index.ts).
use nostr_js.Base.{
  ◌≡◌, refl, Bool, true, false, Option, none, some, List, [], ◌∷◌, arith, ℕ, zero, suc, Text, ◌==◌,
  text_eq, eq_iff, any, All, All-map, filter, Option-cases, inl, inr, ◌∙◌, take, ap, if_elim,
}
use nostr_js.Runtime.Map
use nostr_js.Runtime.Map.{Map}
use nostr_js.Runtime.Sort
use nostr_js.Core.Event.{Event, stamp, sort_events, compare_events_desc}
use nostr_js.Core.Filter.{Filter, match_filter}
use nostr_js.Storage.MemoryIndex.{MemoryIndex}
use nostr_js.Storage.MemoryIndex.Keys.{stored}
use nostr_js.Storage.MemoryIndex.Writes.{Fits}
use nostr_js.Storage.MemoryIndex.Query.{
  candidates, is_match, is_zero_limit, limited, matched_events,
}
use nostr_js.Storage.MemoryIndex.Query.Loops.{has_id, IsDistinct, IsGenuine}
use nostr_js.Storage.MemoryIndex.Query.Complete.{
  candidates-IsListing, candidates_complete, has_id-filter,
}

-- Sorting, filtering and cutting off keep a list free of duplicates.
IsDistinct-insert :
    (cmp : Event → Event → _) (x : Event) (ys : List Event)
    → IsDistinct ys
    → has_id x.id ys ≡ false
    → IsDistinct (Sort.insert cmp x ys)
unfolding Sort.insert any
IsDistinct-insert cmp x [] d h = (refl, tt)
IsDistinct-insert cmp x (y ∷ ys) d h = ground (
  arith,
  IsDistinct-insert cmp x ys d.1,
  eq_iff x.id y.id,
  eq_iff y.id x.id,
  Sort.any-insert cmp (λ z. z.id == y.id) x ys,
)

pub IsDistinct-sort_events : (xs : List Event) → IsDistinct xs → IsDistinct (sort_events xs)
unfolding sort_events Sort.sort
IsDistinct-sort_events [] d = tt
IsDistinct-sort_events (x ∷ xs) d =
    IsDistinct-insert _ x (sort_events xs) (IsDistinct-sort_events xs d.1)
      (Sort.any-sort (λ a b. compare_events_desc (stamp a) (stamp b)) (λ z. z.id == x.id) xs ∙ d.0)

has_id-filter-le :
    (p : Event → Bool) (xs : List Event) (j : Text)
    → has_id j xs ≡ false
    → has_id j (filter p xs) ≡ false
unfolding any filter
has_id-filter-le p [] j h = refl
has_id-filter-le p (x ∷ xs) j h = ground (arith, has_id-filter-le p xs j)

IsDistinct-filter : (p : Event → Bool) (xs : List Event) → IsDistinct xs → IsDistinct (filter p xs)
unfolding filter
IsDistinct-filter p [] d = tt
IsDistinct-filter p (x ∷ xs) d =
    ground (arith, IsDistinct-filter p xs d.1, has_id-filter-le p xs x.id d.0)

has_id-take-le :
    (n : ℕ) (xs : List Event) (j : Text) → has_id j xs ≡ false → has_id j (take n xs) ≡ false
unfolding any
has_id-take-le zero xs j h = refl
has_id-take-le (suc n) [] j h = refl
has_id-take-le (suc n) (x ∷ xs) j h = ground (arith, has_id-take-le n xs j)

IsDistinct-take : (n : ℕ) (xs : List Event) → IsDistinct xs → IsDistinct (take n xs)
IsDistinct-take zero xs d = tt
IsDistinct-take (suc n) [] d = tt
IsDistinct-take (suc n) (x ∷ xs) d = (has_id-take-le n xs x.id d.0, IsDistinct-take n xs d.1)

module _ (P : Event → Type 0) where
  All-take : (n : ℕ) (xs : List Event) → All P xs → All P (take n xs)
  All-take zero xs h = tt
  All-take (suc n) [] h = tt
  All-take (suc n) (x ∷ xs) h = (h.0, All-take n xs h.1)

  All-filter_test :
      (p : Event → Bool) (xs : List Event) → All (λ x. p x ≡ true → P x) xs → All P (filter p xs)
  unfolding filter
  All-filter_test p [] h = tt
  All-filter_test p (x ∷ xs) h = ground (arith, All-filter_test p xs h.1, h.0)

has_id_absent :
    (by_id : Map Text Event) (es : List Event) (j : Text)
    → All (λ y. Map.get by_id y.id ≡ some y) es
    → Map.get by_id j ≡ none
    → has_id j es ≡ false
unfolding any
has_id_absent by_id [] j g e = refl
has_id_absent by_id (y ∷ es) j g e =
    let other : y.id ≡ j → ⊥ = λ q. cc (g.0, e, ap (λ k. Map.get by_id k) q) in
    ground (arith, has_id_absent by_id es j g.1 e, eq_iff y.id j, other)

match_of_is_match :
    (s : MemoryIndex) (f : Filter) (x : Event) → is_match s f x ≡ true → match_filter f x ≡ true
unfolding is_match
match_of_is_match s f x h = ground arith

-- Listed events are stored and pass the test, and each stands once.
pub record IsAnswer (s : MemoryIndex) (p : Event → Bool) (es : List Event) : Type 0 where
  pub sound : All (λ x. (Map.get s.by_id x.id ≡ some x) × (p x ≡ true)) es
  pub distinct : IsDistinct es

filter-All :
    (s : MemoryIndex) (p : Event → Bool) (es : List Event)
    → All (IsGenuine s.tables) es
    → All (λ x. (Map.get s.by_id x.id ≡ some x) × (p x ≡ true)) (filter p es)
filter-All s p es g =
    All-filter_test (λ x. (Map.get s.by_id x.id ≡ some x) × (p x ≡ true)) p es
      (All-map (IsGenuine s.tables) _ es (λ x h q. (h, q)) g)

module _ (s : MemoryIndex) (i : Fits s) where
  abbrev full_match : Filter → List Event
  full_match f = sort_events (filter (is_match s f) (candidates s.tables f))

  full_match-IsAnswer : (f : Filter) → IsAnswer s (is_match s f) (full_match f)
  unfolding sort_events
  full_match-IsAnswer f =
      let l = candidates-IsListing s.tables i f in
      record {
        sound =
            Sort.sort-All _ _ (filter (is_match s f) (candidates s.tables f))
              (filter-All s (is_match s f) (candidates s.tables f) l.genuine);
        distinct =
            IsDistinct-sort_events (filter (is_match s f) (candidates s.tables f))
              (IsDistinct-filter (is_match s f) (candidates s.tables f) l.distinct);
      }

  limited-IsAnswer :
      (o : Option ℕ) (p : Event → Bool) (es : List Event)
      → IsAnswer s p es
      → IsAnswer s p (limited o es)
  limited-IsAnswer none p es a = a
  limited-IsAnswer (some n) p es a = record {
    sound = All-take _ n es a.sound;
    distinct = IsDistinct-take n es a.distinct;
  }

  pub matched_events-IsAnswer : (f : Filter) → IsAnswer s (is_match s f) (matched_events s f)
  unfolding matched_events
  matched_events-IsAnswer f =
      if_elim (IsAnswer s (is_match s f)) (is_zero_limit f.limit)
        (λ _. record { sound = tt; distinct = tt })
        (λ _. limited-IsAnswer f.limit (is_match s f) (full_match f) (full_match-IsAnswer f))

  full_match_complete :
      (f : Filter) (j : Text) → has_id j (full_match f) ≡ stored (is_match s f) (Map.get s.by_id j)
  unfolding sort_events stored
  full_match_complete f j =
      Sort.any-sort _ (λ x. x.id == j) (filter (is_match s f) (candidates s.tables f))
      ∙ elim (Option-cases (Map.get s.by_id j)) [
        | inl absent ↦
            rw (absent, stored)
              (has_id-filter-le (is_match s f) (candidates s.tables f) j (
                has_id_absent s.by_id (candidates s.tables f) j
                  (candidates-IsListing s.tables i f).genuine absent))
        | inr (x, found) ↦
            rw (found, stored)
              (has_id-filter s.by_id (is_match s f) (candidates s.tables f) j x
                  (candidates-IsListing s.tables i f).genuine found
                ∙ ground
                    (arith, match_of_is_match s f x, candidates_complete s.tables i f x j found))
      ]

  -- Without a limit the answer to one filter is every stored event that it matches.
  pub matched_events_complete :
      (f : Filter) (j : Text)
      → f.limit ≡ none
      → has_id j (matched_events s f) ≡ stored (is_match s f) (Map.get s.by_id j)
  unfolding matched_events is_match candidates match_filter
  matched_events_complete f j e = rw e (full_match_complete f j)
