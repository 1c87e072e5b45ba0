-- ===== src/Storage/MemoryIndex/Query/Loops.antt =====
-- What the loops of `#eachCandidate` (src/storage/memory-index.ts) visit: stored events, each once.
use nostr_js.Base.{
  ◌≡◌, refl, Bool, false, ◌&&◌, ◌||◌, some, List, [], ◌∷◌, ◌++◌, arith, Text, ◌==◌, text_eq, eq_iff,
  Eq, any, any-append, All, All-append, is_some, Option-cases, Bool-cases, inl, inr, sym, subst,
}
use nostr_js.Runtime.Map
use nostr_js.Runtime.Map.{Map}
use nostr_js.Runtime.Set
use nostr_js.Runtime.Set.{Set}
use nostr_js.Runtime.Str.{to_lower_case}
use nostr_js.Core.Collections.{holds}
use nostr_js.Core.Event.{Event}
use nostr_js.Storage.MemoryIndex.{Tables}
use nostr_js.Storage.MemoryIndex.Invariant.{IsKeyed, id_of_get}
use nostr_js.Storage.MemoryIndex.Query.{
  Visits, no_visits, visit_id, visit_ids, visit_key, visit_keys, visit_event, visit_raw_ids,
}

abbrev pub has_id : Text → List Event → Bool
has_id j = any (λ x. x.id == j)

abbrev pub IsDistinct : List Event → Type 0
IsDistinct [] = Unit
IsDistinct (x ∷ xs) = (has_id x.id xs ≡ false) × IsDistinct xs

pub IsDistinct-concat :
    (xs : List Event) (y : Event)
    → IsDistinct xs
    → has_id y.id xs ≡ false
    → IsDistinct (xs ++ y ∷ [])
unfolding any
IsDistinct-concat [] y d h = (refl, tt)
IsDistinct-concat (x ∷ xs) y d h = ground (
  arith,
  any-append (λ z. z.id == x.id) xs (y ∷ []),
  eq_iff x.id y.id,
  eq_iff y.id x.id,
  IsDistinct-concat xs y d.1,
)

module _ (t : Tables) where
  abbrev pub IsGenuine : Event → Type 0
  IsGenuine x = Map.get t.by_id x.id ≡ some x

  -- The visited events are those of the seen ids that are stored, each once.
  pub record IsVisit (v : Visits) : Type 0 where
    pub ids : (j : Text) → has_id j v.visited ≡ (Set.has v.seen j && is_some (Map.get t.by_id j))
    pub genuine : All IsGenuine v.visited
    pub distinct : IsDistinct v.visited

  pub no_visits-IsVisit : IsVisit no_visits
  unfolding any Set.has
  no_visits-IsVisit = record { ids = λ j. refl; genuine = tt; distinct = tt }

  -- A stored event whose id was not seen is visited.
  found-IsVisit :
      (id : Text) (x : Event) (v : Visits)
      → IsVisit v
      → x.id ≡ id
      → Map.get t.by_id id ≡ some x
      → Set.has v.seen id ≡ false
      → IsVisit (record { seen = Set.add v.seen id; visited = v.visited ++ x ∷ [] })
  unfolding any
  found-IsVisit id x v i same found new = record {
    ids = λ j. ground (
      arith,
      any-append (λ z. z.id == j) v.visited (x ∷ []),
      i.ids j,
      Set.has-add v.seen id j,
      eq_iff x.id j,
      eq_iff id j,
    );
    genuine =
        All-append IsGenuine v.visited (x ∷ []) i.genuine
          (subst (λ j. Map.get t.by_id j ≡ some x) (sym same) found, tt);
    distinct = IsDistinct-concat v.visited x i.distinct (ground (arith, i.ids x.id));
  }

  module _ (k : IsKeyed t.by_id) where
    visit_id-IsVisit : (id : Text) (v : Visits) → IsVisit v → IsVisit (visit_id t id v)
    unfolding visit_id
    visit_id-IsVisit id v i = elim (Bool-cases (Set.has v.seen id)) [
      | inl seen ↦ rw seen i
      | inr new ↦ elim (Option-cases (Map.get t.by_id id)) [
        | inl absent ↦
            rw (new, absent)
              (record {
                ids = λ j. ground (arith, i.ids j, Set.has-add v.seen id j, eq_iff id j);
                genuine = i.genuine;
                distinct = i.distinct;
              })
        | inr (x, found) ↦
            rw (new, found) (found-IsVisit id x v i (id_of_get t.by_id id x k found) found new)
      ]
    ]

    seen-visit_id :
        (id : Text) (v : Visits) (j : Text)
        → Set.has (visit_id t id v).seen j ≡ (id == j || Set.has v.seen j)
    unfolding visit_id
    seen-visit_id id v j = elim (Bool-cases (Set.has v.seen id)) [
      | inl seen ↦ rw seen (ground (arith, eq_iff id j))
      | inr new ↦ elim (Option-cases (Map.get t.by_id id)) [
        | inl absent ↦ rw (new, absent) (Set.has-add v.seen id j)
        | inr (x, found) ↦ rw (new, found) (Set.has-add v.seen id j)
      ]
    ]

    visit_ids-IsVisit : (ids : List Text) (v : Visits) → IsVisit v → IsVisit (visit_ids t ids v)
    unfolding visit_ids
    visit_ids-IsVisit [] v i = i
    visit_ids-IsVisit (id ∷ ids) v i =
        visit_ids-IsVisit ids (visit_id t id v) (visit_id-IsVisit id v i)

    seen-visit_ids :
        (ids : List Text) (v : Visits) (j : Text)
        → Set.has (visit_ids t ids v).seen j ≡ (Set.has ids j || Set.has v.seen j)
    unfolding visit_ids Set.has
    seen-visit_ids [] v j = refl
    seen-visit_ids (id ∷ ids) v j =
        ground (arith, seen-visit_ids ids (visit_id t id v) j, seen-visit_id id v j)

    module _ {ℓ} {K : Type ℓ} ⦃e : Eq K⦄ (index : Map K (Set Text)) where
      visit_key-IsVisit : (key : K) (v : Visits) → IsVisit v → IsVisit (visit_key t index key v)
      unfolding visit_key
      visit_key-IsVisit key v i = elim (Option-cases (Map.get index key)) [
        | inl absent ↦ rw (absent, visit_key) i
        | inr (ids, found) ↦ rw (found, visit_key) (visit_ids-IsVisit ids v i)
      ]

      seen-visit_key :
          (key : K) (v : Visits) (j : Text)
          → Set.has (visit_key t index key v).seen j ≡ (holds index key j || Set.has v.seen j)
      unfolding visit_key holds
      seen-visit_key key v j = elim (Option-cases (Map.get index key)) [
        | inl absent ↦ rw (absent, visit_key, holds) refl
        | inr (ids, found) ↦ rw (found, visit_key, holds) (seen-visit_ids ids v j)
      ]

      pub visit_keys-IsVisit :
          (keys : List K) (v : Visits) → IsVisit v → IsVisit (visit_keys t index keys v)
      unfolding visit_keys
      visit_keys-IsVisit [] v i = i
      visit_keys-IsVisit (key ∷ keys) v i =
          visit_keys-IsVisit keys (visit_key t index key v) (visit_key-IsVisit key v i)

      pub seen-visit_keys :
          (keys : List K) (v : Visits) (j : Text)
          → Set.has (visit_keys t index keys v).seen j
            ≡ (any (λ key. holds index key j) keys || Set.has v.seen j)
      unfolding visit_keys any
      seen-visit_keys [] v j = refl
      seen-visit_keys (key ∷ keys) v j =
          ground (arith, seen-visit_keys keys (visit_key t index key v) j, seen-visit_key key v j)

    -- The loop over `filter.ids` visits the stored events whose ids it finds, each once.
    abbrev lowered : List Text → Text → Bool
    lowered raws j = any (λ raw. to_lower_case raw == j) raws

    visit_event-IsVisit :
        (id : Text) (v : Visits) → IsVisit v → IsVisit (visit_event t (Map.get t.by_id id) v)
    unfolding visit_event
    visit_event-IsVisit id v i = elim (Option-cases (Map.get t.by_id id)) [
      | inl absent ↦ rw (absent, visit_event) i
      | inr (x, found) ↦
          let same : x.id ≡ id = id_of_get t.by_id id x k found in
          rw (found, visit_event)
            (elim (Bool-cases (Set.has v.seen x.id)) [
              | inl seen ↦ rw seen i
              | inr new ↦ rw new (
                  found-IsVisit x.id x v i refl
                    (subst (λ j. Map.get t.by_id j ≡ some x) (sym same) found) new)
            ])
    ]

    seen-visit_event :
        (id : Text) (v : Visits) (j : Text)
        → Set.has (visit_event t (Map.get t.by_id id) v).seen j
          ≡ ((id == j && is_some (Map.get t.by_id j)) || Set.has v.seen j)
    unfolding visit_event
    seen-visit_event id v j = elim (Option-cases (Map.get t.by_id id)) [
      | inl absent ↦ rw (absent, visit_event) (ground (arith, eq_iff id j))
      | inr (x, found) ↦
          rw (found, visit_event)
            (ground (
              arith,
              eq_iff id j,
              eq_iff x.id j,
              Set.has-add v.seen x.id j,
              id_of_get t.by_id id x k found,
            ))
    ]

    pub visit_raw_ids-IsVisit :
        (raws : List Text) (v : Visits) → IsVisit v → IsVisit (visit_raw_ids t raws v)
    unfolding visit_raw_ids
    visit_raw_ids-IsVisit [] v i = i
    visit_raw_ids-IsVisit (raw ∷ raws) v i =
        visit_raw_ids-IsVisit raws (visit_event t (Map.get t.by_id (to_lower_case raw)) v)
          (visit_event-IsVisit (to_lower_case raw) v i)

    pub seen-visit_raw_ids :
        (raws : List Text) (v : Visits) (j : Text)
        → Set.has (visit_raw_ids t raws v).seen j
          ≡ ((lowered raws j && is_some (Map.get t.by_id j)) || Set.has v.seen j)
    unfolding visit_raw_ids any
    seen-visit_raw_ids [] v j = refl
    seen-visit_raw_ids (raw ∷ raws) v j = ground (
      arith,
      seen-visit_raw_ids raws (visit_event t (Map.get t.by_id (to_lower_case raw)) v) j,
      seen-visit_event (to_lower_case raw) v j,
    )
