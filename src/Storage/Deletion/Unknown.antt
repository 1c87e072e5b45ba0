-- ===== src/Storage/Deletion/Unknown.antt =====
-- Deletions of events that the store does not have yet (src/storage/deletion.ts).
use nostr_js.Base.{◌≡◌, refl, true, false, [], ◌∷◌, nat_beq, Text, ◌==◌, text_eq, eq_self}
use nostr_js.Runtime.Map
use nostr_js.Runtime.Set
use nostr_js.Core.Kind.{event_deletion}
use nostr_js.Core.Event.{Event}
use nostr_js.Storage.Deletion.{
  DeletionPlan, DeletionState, absorb, absorb_removed, absorb_pending, absorb_markers, covers,
  covered_by_pending, covered_by_marker, address_of,
}

-- the plan of a deletion by this author of one id that is not stored
abbrev pub plan_of_unknown : Text → Text → DeletionPlan
plan_of_unknown id pubkey = record {
  remove_ids = [];
  pending_ids = record { id = id; pubkey = pubkey } ∷ [];
  coordinates = [];
}

-- A deletion of an unknown event covers the event if it is of the deletion's author. But it also
-- takes the place of an earlier deletion of the same id: after deletions by two authors, in this
-- order, an event of the first author (of another kind than 5, with no tombstone) is covered only
-- if a coordinate covers it, though its own author deleted it.
pub absorb-overwrites :
    (s : DeletionState) (e : Event) (other : Text)
    → Set.has s.ids e.id ≡ false
    → nat_beq e.kind event_deletion ≡ false
    → (e.pubkey == other) ≡ false
    → (covers (absorb s (plan_of_unknown e.id e.pubkey)) e ≡ true)
      × (covers (absorb (absorb s (plan_of_unknown e.id e.pubkey)) (plan_of_unknown e.id other)) e
          ≡ covered_by_marker s.coordinates e.created_at (address_of e))
unfolding covers absorb absorb_removed absorb_pending absorb_markers covered_by_pending
absorb-overwrites s e other absent kind foreign = (
  rw
      (
        absent,
        kind,
        Map.get-set s.pending e.id e.pubkey e.id,
        eq_self e.id,
        covered_by_pending,
        eq_self e.pubkey,
      )
      refl,
  rw
      (
        absent,
        kind,
        Map.get-set (Map.set s.pending e.id e.pubkey) e.id other e.id,
        eq_self e.id,
        covered_by_pending,
        foreign,
      )
      refl,
)
