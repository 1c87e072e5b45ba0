-- ===== src/Storage/MemoryIndex/Writes.antt =====
-- Every write of src/storage/memory-index.ts keeps the invariant of the tables.
use nostr_js.Base.{
  ◌≡◌, refl, Bool, false, Option, none, some, List, [], ◌∷◌, arith, Text, text_eq, eq_self,
  Option-cases, inl, inr,
}
use nostr_js.Runtime.Map
use nostr_js.Runtime.Map.{Map}
use nostr_js.Core.Kind.{is_addressable_kind, is_replaceable_kind, event_deletion}
use nostr_js.Core.Tag.{event_address}
use nostr_js.Core.Event.{Event, Stamp, stamp}
use nostr_js.Storage.Deletion.{address_of}
use nostr_js.Storage.Put.{
  PutDecision, decide_put, apply_put_memory, remove_all, tombstone_all, remove_replaced,
}
use nostr_js.Storage.Put.Decision.{
  Frees, IsSound, skipped, tombstoned, deleting, inserting, decide_put-IsSound,
}
use nostr_js.Storage.MemoryIndex.{
  MemoryIndex, clear_address, remove_tables, index_insert, index_remove, remove_found,
  get_incumbent, evicted_mark, incumbent_event, found_event, lookup_of, target, apply_decision, put,
}
use nostr_js.Storage.MemoryIndex.Invariant.{
  IsIndexed, id_of_get, insert_tables-IsIndexed, remove_tables-IsIndexed, winner_stored,
  is_winner_of_get,
}

abbrev pub Fits : MemoryIndex → Type 0
Fits s = IsIndexed s.tables

abbrev Lacks : Text → MemoryIndex → Type 0
Lacks id s = Map.get s.by_id id ≡ none

-- `#indexRemove` of any id keeps the invariant, and stores nothing.
pub index_remove-Fits : (id : Text) (s : MemoryIndex) → Fits s → Fits (index_remove id s).1
unfolding index_remove
index_remove-Fits id s i = elim (Option-cases (Map.get s.by_id id)) [
  | inl absent ↦ rw absent i
  | inr (x, found) ↦ rw found (remove_tables-IsIndexed id x s.tables i found)
]

index_remove-Lacks : (id w : Text) (s : MemoryIndex) → Lacks w s → Lacks w (index_remove id s).1
unfolding index_remove remove_tables
index_remove-Lacks id w s absent = elim (Option-cases (Map.get s.by_id id)) [
  | inl none_there ↦ rw none_there absent
  | inr (x, found) ↦ rw (found, remove_found, Map.get-delete s.by_id id w) (ground arith)
]

module _ (w : Text) where
  abbrev Ready : MemoryIndex → Type 0
  Ready s = Fits s × Lacks w s

  index_remove-Ready : (id : Text) (s : MemoryIndex) → Ready s → Ready (index_remove id s).1
  index_remove-Ready id s r = (index_remove-Fits id s r.0, index_remove-Lacks id w s r.1)

  remove_all-Ready : (ids : List Text) (s : MemoryIndex) → Ready s → Ready (remove_all target ids s)
  unfolding remove_all
  remove_all-Ready [] s r = r
  remove_all-Ready (id ∷ ids) s r = remove_all-Ready ids _ (index_remove-Ready id s r)

  tombstone_all-Ready :
      (ids : List Text) (s : MemoryIndex) → Ready s → Ready (tombstone_all target ids s)
  unfolding tombstone_all
  tombstone_all-Ready [] s r = r
  tombstone_all-Ready (id ∷ ids) s r =
      tombstone_all-Ready ids _ (index_remove-Ready id (record s { deletion = _ }) r)

  remove_replaced-Ready :
      (rid : Option Text) (s : MemoryIndex) → Ready s → Ready (remove_replaced target rid s)
  unfolding remove_replaced
  remove_replaced-Ready none s r = r
  remove_replaced-Ready (some id) s r = index_remove-Ready id s r

-- A watermark is not replaced.
none_of_Frees : (m : Option Stamp) (rid : Option Text) → Frees (evicted_mark m) rid → rid ≡ none
none_of_Frees none rid f = f
none_of_Frees (some m) rid f = ground arith

-- A winner is removed, and leaves its address free.
winner_removed :
    (s : MemoryIndex) (a w : Text) (x : Event)
    → Map.get s.replaceable a ≡ some w
    → Map.get s.by_id w ≡ some x
    → address_of x ≡ some a
    → Map.get (index_remove w s).1.replaceable a ≡ none
unfolding index_remove remove_tables
winner_removed s a w x e found at =
    let wins = is_winner_of_get s.replaceable a w e in
    rw (found, remove_found, at, clear_address, wins, Map.get-delete s.replaceable a a, eq_self a)
      refl

-- After the incumbent is removed the address is free.
remove_replaced-free :
    (s : MemoryIndex) (a : Text) (rid o : Option Text)
    → Fits s
    → Map.get s.replaceable a ≡ o
    → Frees (incumbent_event s.marks a (found_event s.by_id o)) rid
    → Map.get (remove_replaced target rid s).replaceable a ≡ none
unfolding remove_replaced incumbent_event
remove_replaced-free s a rid none i e f =
    rw (none_of_Frees (Map.get s.watermarks a) rid f, remove_replaced) e
remove_replaced-free s a rid (some w) i e f =
    let (x, found, at) = winner_stored s.tables a w i e in
    let f' : Frees (some (record { mark = stamp x; evicted = false })) rid = rw found at f in
    let same : rid ≡ some w = ground (arith, id_of_get s.by_id w x i.keyed found) in
    rw (same, remove_replaced) (winner_removed s a w x e found at)

-- A deletion event has no coordinate.
address_of-deletion : (e : Event) → e.kind ≡ event_deletion → address_of e ≡ none
unfolding event_address is_addressable_kind is_replaceable_kind
address_of-deletion e h = rw h refl

index_insert-Fits :
    (e : Event) (s : MemoryIndex)
    → Ready e.id s
    → ((a : Text) → address_of e ≡ some a → Map.get s.replaceable a ≡ none)
    → Fits (index_insert e s)
unfolding index_insert
index_insert-Fits e s r free = insert_tables-IsIndexed e s.tables r.0 r.1 free

apply_decision-Fits :
    (e : Event) (s : MemoryIndex) (d : PutDecision)
    → IsSound (lookup_of s) e d
    → Fits s
    → Fits (apply_decision d s).1
unfolding apply_decision apply_put_memory
apply_decision-Fits e s _ (skipped r) i = i
apply_decision-Fits e s _ tombstoned i = i
apply_decision-Fits e s _ (deleting plan ids fresh five) i =
    index_insert-Fits e _
      (tombstone_all-Ready e.id ids _
        (remove_all-Ready e.id plan.remove_ids (record s { marks = _; deletion = _ }) (i, fresh)))
      (λ a at. cc (at, address_of-deletion e five))
apply_decision-Fits e s _ (inserting r address rid fresh frees) i =
    index_insert-Fits e _ (remove_replaced-Ready e.id rid s (i, fresh))
      (λ a at. remove_replaced-free s a rid _ i refl (unfold get_incumbent in frees a at))

-- `put` keeps the invariant, whatever the event and whether or not it was verified.
pub put-Fits : (marked : Bool) (e : Event) (s : MemoryIndex) → Fits s → Fits (put marked e s).1
unfolding put
put-Fits marked e s i =
    apply_decision-Fits e s (decide_put marked e (lookup_of s))
      (decide_put-IsSound marked e (lookup_of s)) i
