-- ===== src/Storage/Deletion/Own.antt =====
-- What a plan of `planDeletion` (src/storage/deletion.ts) may touch.
use nostr_js.Base.{
  ◌≡◌, refl, false, ◌&&◌, Option, none, some, List, [], ◌∷◌, ◌++◌, nat_beq, Text, text, ◌==◌,
  text_eq, eq_iff, Bool-cases, inl, inr, All, All-append,
}
use nostr_js.Base.Int.{ℤ}
use nostr_js.Runtime.Set
use nostr_js.Runtime.Str.{to_lower_case}
use nostr_js.Runtime.Str.Decimal.{to_text}
use nostr_js.Core.Hex.{is_hex32}
use nostr_js.Core.Kind.{event_deletion}
use nostr_js.Core.Tag.{Tag, EventAddress, parse_event_address}
use nostr_js.Core.Event.{Event}
use nostr_js.Storage.Deletion.{
  Pending, Marker, DeletionPlan, Planning, plan_target, plan_id, coordinate_key, plan_coordinate,
  plan_tag, plan_tags, plan_deletion,
}

module _ (pubkey : Text) (created_at : ℤ) (get_by_id : Text → Option Event) where
  -- the id names a stored event of the author that is no deletion itself
  abbrev pub IsOwnEvent : Text → Type 0
  IsOwnEvent id =
      (e : Event) × (get_by_id id ≡ some e)
      × (e.pubkey ≡ pubkey)
      × (nat_beq e.kind event_deletion ≡ false)

  abbrev pub IsOwnPending : Pending → Type 0
  IsOwnPending p = (p.pubkey ≡ pubkey) × (get_by_id p.id ≡ none)

  abbrev pub IsOwnMarker : Marker → Type 0
  IsOwnMarker c =
      (coord : EventAddress) × (coord.pubkey ≡ pubkey)
      × (c.key ≡ to_text coord.kind ++ (b':' ∷ (coord.pubkey ++ (b':' ∷ coord.identifier))))
      × (c.until ≡ created_at)

  pub record IsOwn (p : DeletionPlan) : Type 0 where
    pub removed : All IsOwnEvent p.remove_ids
    pub pending : All IsOwnPending p.pending_ids
    pub marked : All IsOwnMarker p.coordinates

  plan_target-IsOwn :
      (id : Text) (o : Option Event) (p : DeletionPlan)
      → get_by_id id ≡ o
      → IsOwn p
      → IsOwn (plan_target pubkey created_at get_by_id id o p)
  unfolding plan_target
  plan_target-IsOwn id none p found own = record {
    removed = own.removed;
    pending = All-append IsOwnPending p.pending_ids _ own.pending ((refl, found), tt);
    marked = own.marked;
  }
  plan_target-IsOwn id (some x) p found own = elim (Bool-cases (nat_beq x.kind event_deletion)) [
    | inl deletion ↦ rw deletion own
    | inr other ↦ elim (Bool-cases (x.pubkey == pubkey)) [
      | inl same ↦
          rw (other, same)
            (record {
              pending = own.pending;
              marked = own.marked;
              removed =
                  All-append IsOwnEvent p.remove_ids _ own.removed
                    ((x, found, (eq_iff x.pubkey pubkey).0 same, other), tt);
            })
      | inr foreign ↦ rw (other, foreign) own
    ]
  ]

  plan_id-IsOwn :
      (id : Text) (s : Planning)
      → IsOwn s.plan
      → IsOwn (plan_id pubkey created_at get_by_id id s).plan
  unfolding plan_id
  plan_id-IsOwn id s own = elim (Bool-cases (Set.has s.seen_ids id)) [
    | inl seen ↦ rw seen own
    | inr new ↦ rw new (plan_target-IsOwn id (get_by_id id) s.plan refl own)
  ]

  plan_coordinate-IsOwn :
      (o : Option EventAddress) (s : Planning)
      → IsOwn s.plan
      → IsOwn (plan_coordinate pubkey created_at get_by_id o s).plan
  unfolding plan_coordinate coordinate_key
  plan_coordinate-IsOwn none s own = own
  plan_coordinate-IsOwn (some c) s own = elim (Bool-cases (c.pubkey == pubkey)) [
    | inr foreign ↦ rw foreign own
    | inl same ↦
        let key = to_text c.kind ++ (b':' ∷ (c.pubkey ++ (b':' ∷ c.identifier))) in
        elim (Bool-cases (Set.has s.seen_coords key)) [
          | inl seen ↦ rw (same, seen) own
          | inr new ↦
              rw (same, new)
                (record {
                  removed = own.removed;
                  pending = own.pending;
                  marked =
                      All-append IsOwnMarker s.plan.coordinates _ own.marked
                        ((c, (eq_iff c.pubkey pubkey).0 same, refl, refl), tt);
                })
        ]
  ]

  plan_tag-IsOwn :
      (tag : Tag) (s : Planning)
      → IsOwn s.plan
      → IsOwn (plan_tag pubkey created_at get_by_id tag s).plan
  unfolding plan_tag
  plan_tag-IsOwn [] s own = own
  plan_tag-IsOwn (name ∷ []) s own = own
  plan_tag-IsOwn (name ∷ value ∷ rest) s own =
      elim (Bool-cases (name == text "e" && is_hex32 (to_lower_case value))) [
        | inl e ↦ rw e (plan_id-IsOwn (to_lower_case value) s own)
        | inr other ↦ elim (Bool-cases (name == text "a")) [
          | inl a ↦ rw (other, a) (plan_coordinate-IsOwn (parse_event_address value) s own)
          | inr rest ↦ rw (other, rest) own
        ]
      ]

  plan_tags-IsOwn :
      (tags : List Tag) (s : Planning)
      → IsOwn s.plan
      → IsOwn (plan_tags pubkey created_at get_by_id tags s).plan
  unfolding plan_tags
  plan_tags-IsOwn [] s own = own
  plan_tags-IsOwn (tag ∷ tags) s own = plan_tags-IsOwn tags _ (plan_tag-IsOwn tag s own)

-- A deletion plan touches nothing of other authors: each id to be removed is the id of a stored
-- event of the deletion's author that is no deletion, each pending id is not stored and waits for
-- the same author, and each coordinate has that author as its key's author and the deletion's time.
pub plan_deletion-IsOwn :
    (deletion : Event) (get_by_id : Text → Option Event)
    → IsOwn deletion.pubkey deletion.created_at get_by_id (plan_deletion deletion get_by_id)
unfolding plan_deletion
plan_deletion-IsOwn deletion get_by_id =
    plan_tags-IsOwn deletion.pubkey deletion.created_at get_by_id deletion.tags _
      (record { removed = tt; pending = tt; marked = tt })
