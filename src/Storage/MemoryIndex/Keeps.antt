-- ===== src/Storage/MemoryIndex/Keeps.antt =====
-- What `#indexInsert` and `#indexRemove` of src/storage/memory-index.ts keep, whatever the deletion
-- state and the watermarks, every method but `clear` keeps.
use nostr_js.Base.{Bool, true, false, Option, none, some, List, [], ◌∷◌, Text, text_eq}
use nostr_js.Runtime.Map
use nostr_js.Runtime.Map.{Map}
use nostr_js.Runtime.Str.{to_lower_case}
use nostr_js.Core.Event.{Event, Stamp}
use nostr_js.Storage.Deletion.{DeletionState, address_of}
use nostr_js.Storage.Put.{
  PutDecision, skip, tombstone, delete, insert, apply_put_memory, remove_all, tombstone_all,
  remove_replaced, decide_put,
}
use nostr_js.Storage.MemoryIndex.{
  MemoryIndex, Watermarks, OutboxBound, index_insert, index_remove, target, apply_decision, put,
  lookup_of, is_winner,
}
use nostr_js.Storage.MemoryIndex.Methods.{remove, remove_ids, evict, evict_event, mark_winner}

module _ (P : MemoryIndex → Type 0)
    (on_insert : (e : Event) (s : MemoryIndex) → P s → P (index_insert e s))
    (on_remove : (id : Text) (s : MemoryIndex) → P s → P (index_remove id s).1)
    (on_rest : (s : MemoryIndex) (w : Watermarks) (d : DeletionState) (b : Map Text OutboxBound)
      → P s
      → P (record s { marks = w; deletion = d; outbox_bounds = b })) where
  remove_all-keeps : (ids : List Text) (s : MemoryIndex) → P s → P (remove_all target ids s)
  unfolding remove_all
  remove_all-keeps [] s p = p
  remove_all-keeps (id ∷ ids) s p = remove_all-keeps ids _ (on_remove id s p)

  tombstone_all-keeps : (ids : List Text) (s : MemoryIndex) → P s → P (tombstone_all target ids s)
  unfolding tombstone_all
  tombstone_all-keeps [] s p = p
  tombstone_all-keeps (id ∷ ids) s p =
      tombstone_all-keeps ids _ (on_remove id _ (on_rest s s.marks _ s.outbox_bounds p))

  remove_replaced-keeps :
      (rid : Option Text) (s : MemoryIndex) → P s → P (remove_replaced target rid s)
  unfolding remove_replaced
  remove_replaced-keeps none s p = p
  remove_replaced-keeps (some id) s p = on_remove id s p

  trimmed-keeps : (s : MemoryIndex) (d : DeletionState) → P s → P (record s { deletion = d })
  trimmed-keeps s d p = on_rest s s.marks d s.outbox_bounds p

  apply_decision-keeps : (d : PutDecision) (s : MemoryIndex) → P s → P (apply_decision d s).1
  unfolding apply_decision apply_put_memory
  apply_decision-keeps (skip r e) s p = trimmed-keeps s _ p
  apply_decision-keeps (tombstone e) s p = trimmed-keeps s _ p
  apply_decision-keeps (delete e plan ids) s p = trimmed-keeps _ _ (
      on_insert e _ (
        tombstone_all-keeps ids _
          (remove_all-keeps plan.remove_ids _ (on_rest s _ _ s.outbox_bounds p))))
  apply_decision-keeps (insert r e address rid) s p =
      trimmed-keeps _ _ (on_insert e _ (remove_replaced-keeps rid s p))

  pub put-keeps : (marked : Bool) (e : Event) (s : MemoryIndex) → P s → P (put marked e s).1
  unfolding put
  put-keeps marked e s p = apply_decision-keeps (decide_put marked e (lookup_of s)) s p

  mark_winner-keeps :
      (b : Bool) (o : Option Text) (mark : Stamp) (s : MemoryIndex)
      → P s
      → P (mark_winner b o mark s)
  unfolding mark_winner
  mark_winner-keeps true (some addr) mark s p = on_rest s _ s.deletion s.outbox_bounds p
  mark_winner-keeps true none mark s p = p
  mark_winner-keeps false o mark s p = p

  evict_event-keeps :
      (id : Text) (o : Option Event) (s : MemoryIndex) → P s → P (evict_event id o s).1
  unfolding evict_event
  evict_event-keeps id none s p = p
  evict_event-keeps id (some e) s p =
      mark_winner-keeps (is_winner s.replaceable (address_of e) id) (address_of e) _ _
        (on_remove id s p)

  pub evict-keeps : (raws : List Text) (s : MemoryIndex) → P s → P (evict raws s).1
  unfolding evict
  evict-keeps [] s p = p
  evict-keeps (raw ∷ raws) s p =
      evict-keeps raws _
        (evict_event-keeps (to_lower_case raw) (Map.get s.by_id (to_lower_case raw)) s p)

  remove_ids-keeps : (raws : List Text) (s : MemoryIndex) → P s → P (remove_ids raws s).1
  unfolding remove_ids
  remove_ids-keeps [] s p = p
  remove_ids-keeps (raw ∷ raws) s p =
      remove_ids-keeps raws _ (trimmed-keeps _ _ (on_remove (to_lower_case raw) s p))

  pub remove-keeps : (raws : List Text) (s : MemoryIndex) → P s → P (remove raws s).1
  unfolding remove
  remove-keeps raws s p = trimmed-keeps _ _ (remove_ids-keeps raws s p)
