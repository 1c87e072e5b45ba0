-- ===== src/Storage/MemoryIndex/Query/Complete.antt =====
-- The index-driven reads of src/storage/memory-index.ts find exactly the matching stored events.
use nostr_js.Base.{
  ◌≡◌, refl, Bool, true, ◌&&◌, Option, none, some, List, [], ◌∷◌, arith, ℕ, Text, text, ◌==◌,
  text_eq, nat_eq, eq_iff, any, All, All-map, filter, is_some, ◌∙◌, sym, map, subst, text_beq,
}
use nostr_js.Runtime.Map
use nostr_js.Runtime.Map.{Map}
use nostr_js.Runtime.Set
use nostr_js.Runtime.Str.{to_lower_case}
use nostr_js.Core.Event.{Event}
use nostr_js.Core.Filter.{
  Filter, match_filter, match_ids, match_kinds, match_authors, some_lower, match_tags, tag_filter,
  is_hex_tag,
}
use nostr_js.Storage.MemoryIndex.{Tables, ep_key}
use nostr_js.Storage.MemoryIndex.Invariant.{IsIndexed, IsKeyed, id_of_get}
use nostr_js.Storage.MemoryIndex.Query.{
  Visits, no_visits, visit_ep_tags, by_tags, by_authors_kinds, by_ids, candidates, author_kind_keys,
}
use nostr_js.Storage.MemoryIndex.Query.Loops.{
  has_id, IsDistinct, IsGenuine, IsVisit, no_visits-IsVisit, visit_keys-IsVisit, seen-visit_keys,
  visit_raw_ids-IsVisit, seen-visit_raw_ids,
}
use nostr_js.Storage.MemoryIndex.Query.Reached.{
  tags_reach, authors_kinds_reach, authors_reach, kinds_reach,
}

-- A scan of all values lists each stored event once.
has_id-values :
    (m : Map Text Event) (j : Text) → IsKeyed m → has_id j (Map.values m) ≡ is_some (Map.get m j)
unfolding any Map.get
has_id-values [] j k = refl
has_id-values ((i, x) ∷ m) j k = ground (arith, has_id-values m j k.1, eq_iff x.id j, eq_iff i j)

values-genuine :
    (m : Map Text Event)
    → IsKeyed m
    → Map.IsUnique m
    → All (λ x. Map.get m x.id ≡ some x) (Map.values m)
unfolding Map.get
values-genuine [] k u = tt
values-genuine ((i, x) ∷ m) k u = (
  ground (arith, eq_iff i x.id),
  All-map (λ y. Map.get m y.id ≡ some y) _ (Map.values m) (λ y h. ground (arith, eq_iff i y.id))
      (values-genuine m k.1 u.1),
)

values-IsDistinct : (m : Map Text Event) → IsKeyed m → Map.IsUnique m → IsDistinct (Map.values m)
values-IsDistinct [] k u = tt
values-IsDistinct ((i, x) ∷ m) k u =
    (ground (arith, has_id-values m x.id k.1), values-IsDistinct m k.1 u.1)

get_of_tag_filter :
    (f : Filter) (name : Text) (vs : List Text)
    → tag_filter f name ≡ some vs
    → Map.get f.tags name ≡ some (some vs)
unfolding tag_filter
get_of_tag_filter f name vs e = ground arith

some_inj : {a b : Event} → some a ≡ some b → a ≡ b
some_inj h = ground arith

module _ (t : Tables) (i : IsIndexed t) where
  -- The list holds stored events, each once.
  pub record IsListing (es : List Event) : Type 0 where
    pub genuine : All (IsGenuine t) es
    pub distinct : IsDistinct es

  Visit-IsListing : (v : Visits) → IsVisit t v → IsListing v.visited
  Visit-IsListing v w = record { genuine = w.genuine; distinct = w.distinct }

  visit_ep_tags-IsVisit :
      (name : Text) (o : Option (List Text)) (v : Visits)
      → IsVisit t v
      → IsVisit t (visit_ep_tags t name o v)
  unfolding visit_ep_tags
  visit_ep_tags-IsVisit name none v w = w
  visit_ep_tags-IsVisit name (some vs) v w =
      visit_keys-IsVisit t i.keyed t.by_ep_tag (map (ep_key name) vs) v w

  both-IsListing :
      (e p : Option (List Text))
      → IsListing (visit_ep_tags t (text "p") p (visit_ep_tags t (text "e") e no_visits)).visited
  both-IsListing e p = Visit-IsListing _ (
      visit_ep_tags-IsVisit (text "p") p _
        (visit_ep_tags-IsVisit (text "e") e no_visits (no_visits-IsVisit t)))

  by_tags-IsListing : (e p : Option (List Text)) → IsListing (by_tags t e p)
  unfolding by_tags
  by_tags-IsListing none none = record {
    genuine = values-genuine t.by_id i.keyed i.unique;
    distinct = values-IsDistinct t.by_id i.keyed i.unique;
  }
  by_tags-IsListing none (some p) = both-IsListing none (some p)
  by_tags-IsListing (some e) p = both-IsListing (some e) p

  by_authors_kinds-IsListing :
      (a : Option (List Text)) (k : Option (List ℕ)) (rest : List Event)
      → IsListing rest
      → IsListing (by_authors_kinds t a k rest)
  unfolding by_authors_kinds
  by_authors_kinds-IsListing (some a) (some k) rest h = Visit-IsListing _ (
      visit_keys-IsVisit t i.keyed t.by_kind_pubkey (author_kind_keys a k) no_visits
        (no_visits-IsVisit t))
  by_authors_kinds-IsListing (some a) none rest h = Visit-IsListing _ (
      visit_keys-IsVisit t i.keyed t.by_pubkey (map to_lower_case a) no_visits
        (no_visits-IsVisit t))
  by_authors_kinds-IsListing none (some k) rest h =
      Visit-IsListing _ (visit_keys-IsVisit t i.keyed t.by_kind k no_visits (no_visits-IsVisit t))
  by_authors_kinds-IsListing none none rest h = h

  by_ids-IsListing :
      (o : Option (List Text)) (rest : List Event) → IsListing rest → IsListing (by_ids t o rest)
  unfolding by_ids
  by_ids-IsListing (some ids) rest h =
      Visit-IsListing _ (visit_raw_ids-IsVisit t i.keyed ids no_visits (no_visits-IsVisit t))
  by_ids-IsListing none rest h = h

  pub candidates-IsListing : (f : Filter) → IsListing (candidates t f)
  unfolding candidates
  candidates-IsListing f = by_ids-IsListing f.ids _ (
      by_authors_kinds-IsListing f.authors f.kinds _
        (by_tags-IsListing (tag_filter f (text "e")) (tag_filter f (text "p"))))

  -- A stored event that the filter matches is a candidate.
  module _ (f : Filter) (x : Event) (id : Text) (found : Map.get t.by_id id ≡ some x)
      (m : match_filter f x ≡ true) where
    visited_of_seen :
        (v : Visits) → IsVisit t v → Set.has v.seen id ≡ true → has_id id v.visited ≡ true
    visited_of_seen v w seen = w.ids id ∙ rw (seen, found) refl

    matches_tags : match_tags f.tags x ≡ true
    unfolding match_filter
    matches_tags = ground arith

    reached_tags :
        (name : Text) (vs : List Text) (v : Visits)
        → is_hex_tag name ≡ true
        → tag_filter f name ≡ some vs
        → Set.has (visit_ep_tags t name (some vs) v).seen id ≡ true
    unfolding visit_ep_tags
    reached_tags name vs v hex e =
        seen-visit_keys t i.keyed t.by_ep_tag (map (ep_key name) vs) v id
        ∙ rw
            (tags_reach t.by_ep_tag t.by_id x id name vs f.tags i.ep_tags found hex matches_tags
              (get_of_tag_filter f name vs e))
            refl

    kept_tags :
        (name : Text) (o : Option (List Text)) (v : Visits)
        → Set.has v.seen id ≡ true
        → Set.has (visit_ep_tags t name o v).seen id ≡ true
    unfolding visit_ep_tags
    kept_tags name none v h = h
    kept_tags name (some vs) v h =
        ground (arith, seen-visit_keys t i.keyed t.by_ep_tag (map (ep_key name) vs) v id)

    both_complete :
        (e p : Option (List Text))
        → Set.has (visit_ep_tags t (text "p") p (visit_ep_tags t (text "e") e no_visits)).seen id
          ≡ true
        → has_id id (visit_ep_tags t (text "p") p (visit_ep_tags t (text "e") e no_visits)).visited
          ≡ true
    both_complete e p h =
        visited_of_seen _
          (visit_ep_tags-IsVisit (text "p") p _
            (visit_ep_tags-IsVisit (text "e") e no_visits (no_visits-IsVisit t)))
          h

    by_tags_complete :
        (e p : Option (List Text))
        → tag_filter f (text "e") ≡ e
        → tag_filter f (text "p") ≡ p
        → has_id id (by_tags t e p) ≡ true
    unfolding by_tags text_beq
    by_tags_complete none none he hp = has_id-values t.by_id id i.keyed ∙ rw found refl
    by_tags_complete none (some p) he hp =
        both_complete none (some p) (reached_tags (text "p") p _ refl hp)
    by_tags_complete (some e) p he hp =
        both_complete (some e) p (kept_tags (text "p") p _ (reached_tags (text "e") e _ refl he))

    by_authors_kinds_complete :
        (a : Option (List Text)) (k : Option (List ℕ)) (rest : List Event)
        → match_authors a x ≡ true
        → match_kinds k x ≡ true
        → has_id id rest ≡ true
        → has_id id (by_authors_kinds t a k rest) ≡ true
    unfolding by_authors_kinds match_authors match_kinds
    by_authors_kinds_complete (some a) (some k) rest ha hk h =
        visited_of_seen _
          (visit_keys-IsVisit t i.keyed t.by_kind_pubkey (author_kind_keys a k) no_visits
            (no_visits-IsVisit t))
          (seen-visit_keys t i.keyed t.by_kind_pubkey (author_kind_keys a k) no_visits id
            ∙ rw (authors_kinds_reach t i x id found a k ha hk) refl)
    by_authors_kinds_complete (some a) none rest ha hk h =
        visited_of_seen _
          (visit_keys-IsVisit t i.keyed t.by_pubkey (map to_lower_case a) no_visits
            (no_visits-IsVisit t))
          (seen-visit_keys t i.keyed t.by_pubkey (map to_lower_case a) no_visits id
            ∙ rw (authors_reach t i x id found a ha) refl)
    by_authors_kinds_complete none (some k) rest ha hk h =
        visited_of_seen _ (visit_keys-IsVisit t i.keyed t.by_kind k no_visits (no_visits-IsVisit t))
          (seen-visit_keys t i.keyed t.by_kind k no_visits id
            ∙ rw (kinds_reach t i x id found k hk) refl)
    by_authors_kinds_complete none none rest ha hk h = h

    by_ids_complete :
        (o : Option (List Text)) (rest : List Event)
        → match_ids o x ≡ true
        → has_id id rest ≡ true
        → has_id id (by_ids t o rest) ≡ true
    unfolding by_ids match_ids some_lower
    by_ids_complete (some ids) rest h r =
        visited_of_seen _ (visit_raw_ids-IsVisit t i.keyed ids no_visits (no_visits-IsVisit t)) (
          seen-visit_raw_ids t i.keyed ids no_visits id
          ∙ rw
              (
                subst (λ j. any (λ raw. to_lower_case raw == j) ids ≡ true)
                    (id_of_get t.by_id id x i.keyed found) h,
                found,
              )
              refl)
    by_ids_complete none rest h r = r

    pub candidates_complete : has_id id (candidates t f) ≡ true
    unfolding candidates match_filter
    candidates_complete = by_ids_complete f.ids _ (ground arith) (
        by_authors_kinds_complete f.authors f.kinds _ (ground arith) (ground arith)
          (by_tags_complete (tag_filter f (text "e")) (tag_filter f (text "p")) refl refl))

-- Filtering genuine events keeps an id exactly if its stored event passes.
pub has_id-filter :
    (by_id : Map Text Event) (p : Event → Bool) (es : List Event) (j : Text) (x : Event)
    → All (λ y. Map.get by_id y.id ≡ some y) es
    → Map.get by_id j ≡ some x
    → has_id j (filter p es) ≡ (p x && has_id j es)
unfolding any filter
has_id-filter by_id p [] j x g e = ground arith
has_id-filter by_id p (y ∷ es) j x g e =
    let same : y.id ≡ j → y ≡ x = λ q. some_inj (sym (g.0) ∙ rw q e) in
    ground (arith, has_id-filter by_id p es j x g.1 e, eq_iff y.id j, same)
