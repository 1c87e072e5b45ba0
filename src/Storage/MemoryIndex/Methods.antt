-- ===== src/Storage/MemoryIndex/Methods.antt =====
-- The other methods of src/storage/memory-index.ts: lookups, `remove`, `evict`, `isDeleted`, the
-- outbox bounds and `clear`.
use nostr_js.Base.{
  Bool, true, false, ◌||◌, not, Option, none, some, List, [], ◌∷◌, ◌++◌, ℕ, suc, if◌then◌else◌,
  Text, text_eq, nat_eq, length, map,
}
use nostr_js.Base.Int.{ℤ, leb_ℤ, ltb_ℤ}
use nostr_js.Runtime.Map
use nostr_js.Runtime.Map.{Map}
use nostr_js.Runtime.Set
use nostr_js.Runtime.Set.{Set}
use nostr_js.Runtime.Str.{to_lower_case}
use nostr_js.Core.Tag.{EventAddress, parse_event_address, format_event_address}
use nostr_js.Core.Event.{Event, Stamp}
use nostr_js.Storage.Deletion.{DeletionState, no_deletions, address_of, covers}
use nostr_js.Storage.Put.{outbox_bound_key}
use nostr_js.Storage.MemoryIndex.{
  MemoryIndex, OutboxBound, removed, no_tables, no_marks, index_remove, set_watermark, is_winner,
  trimmed,
}

-- `get`
unfoldable pub get : MemoryIndex → Text → Option Event
get s id =
    let key = to_lower_case id in if Set.has s.deletion.ids key then none else Map.get s.by_id key

address_text : EventAddress → Text
address_text c = format_event_address c.kind c.pubkey c.identifier

get_winner : MemoryIndex → Option Text → Option Event
get_winner s none = none
get_winner s (some id) = if Set.has s.deletion.ids id then none else Map.get s.by_id id

get_coordinate : MemoryIndex → Option EventAddress → Option Event
unfolding address_text get_winner
get_coordinate s none = none
get_coordinate s (some c) = get_winner s (Map.get s.replaceable (address_text c))

-- `getByAddress`
unfoldable pub get_by_address : MemoryIndex → Text → Option Event
unfolding get_coordinate
get_by_address s address = get_coordinate s (parse_event_address address)

unfoldable pub tombstone_id : Text → DeletionState → DeletionState
tombstone_id id d = record d { ids = Set.add d.ids id; pending = Map.delete d.pending id }

-- the loop of `remove`
unfoldable pub remove_ids : List Text → MemoryIndex → ℕ × MemoryIndex
unfolding tombstone_id
remove_ids [] s = (0, s)
remove_ids (raw ∷ raws) s =
    let (done, s') = index_remove (to_lower_case raw) s in
    let (n, s'') =
      remove_ids raws (record s' { deletion = tombstone_id (to_lower_case raw) s'.deletion }) in
    (if done then suc n else n, s'')

-- `remove`
unfoldable pub remove : List Text → MemoryIndex → ℕ × MemoryIndex
remove ids s = let (n, s') = remove_ids ids s in (n, trimmed s')

unfoldable pub mark_winner : Bool → Option Text → Stamp → MemoryIndex → MemoryIndex
mark_winner true (some addr) mark s = record s {
  marks = set_watermark s.max_watermarks addr mark s.marks;
}
mark_winner _ _ mark s = s

-- one round of `evict`, on the event that the id names
unfoldable pub evict_event : Text → Option Event → MemoryIndex → Bool × MemoryIndex
unfolding mark_winner
evict_event id none s = (false, s)
evict_event id (some event) s =
    let winner = is_winner s.replaceable (address_of event) id in
    let (done, s') = index_remove id s in
    (
      done,
      mark_winner winner (address_of event) (record { id = id; created_at = event.created_at }) s',
    )

-- `evict`
unfoldable pub evict : List Text → MemoryIndex → ℕ × MemoryIndex
unfolding evict_event
evict [] s = (0, s)
evict (raw ∷ raws) s =
    let (done, s') = evict_event (to_lower_case raw) (Map.get s.by_id (to_lower_case raw)) s in
    let (n, s'') = evict raws s' in (if done then suc n else n, s'')

-- whether the current event at the address is not newer than the marker
winner_is_old : ℤ → Map Text Event → Option Text → Bool
winner_is_old until by_id none = true
winner_is_old until by_id (some id) = elim (Map.get by_id id) [
  | none ↦ true
  | some event ↦ leb_ℤ event.created_at until
]

coordinate_is_deleted : MemoryIndex → Option EventAddress → Bool
unfolding winner_is_old address_text
coordinate_is_deleted s none = false
coordinate_is_deleted s (some c) = elim (Map.get s.deletion.coordinates (address_text c)) [
  | none ↦ false
  | some until ↦ winner_is_old until s.by_id (Map.get s.replaceable (address_text c))
]

-- `isDeleted`
unfoldable pub is_deleted : MemoryIndex → Text → Bool
unfolding coordinate_is_deleted
is_deleted s id_or_address =
    if Set.has s.deletion.ids (to_lower_case id_or_address)
    then true
    else coordinate_is_deleted s (parse_event_address id_or_address)

-- `oldest` and `newest` of `#deriveOutboxBound`, which are set together
unfoldable pub widen : Option OutboxBound → ℤ → Option OutboxBound
widen none at = some (record { oldest = at; newest = at })
widen (some b) at = some (record {
  oldest = if ltb_ℤ at b.oldest then at else b.oldest;
  newest = if ltb_ℤ b.newest at then at else b.newest;
})

widen_event : MemoryIndex → Option Event → Option OutboxBound → Option OutboxBound
widen_event s none b = b
widen_event s (some event) b = if covers s.deletion event then b else widen b event.created_at

unfoldable pub derive_loop :
    MemoryIndex → Set Text → List Text → Option OutboxBound → Option OutboxBound
unfolding widen_event
derive_loop s kind_ids [] b = b
derive_loop s kind_ids (id ∷ ids) b = derive_loop s kind_ids ids (
    if not (Set.has kind_ids id) || Set.has s.deletion.ids id
    then b
    else widen_event s (Map.get s.by_id id) b)

derive_found : MemoryIndex → Option (Set Text) → Option (Set Text) → Option OutboxBound
derive_found s (some pk_ids) (some kind_ids) = derive_loop s kind_ids pk_ids none
derive_found s _ _ = none

-- `#deriveOutboxBound`
unfoldable pub derive_outbox_bound : MemoryIndex → Text → ℕ → Option OutboxBound
unfolding derive_found
derive_outbox_bound s pubkey kind =
    derive_found s (Map.get s.by_pubkey (to_lower_case pubkey)) (Map.get s.by_kind kind)

-- `getOutboxBound`
unfoldable pub get_outbox_bound : MemoryIndex → Text → ℕ → Option OutboxBound
get_outbox_bound s pubkey kind = elim (Map.get s.outbox_bounds (outbox_bound_key pubkey kind)) [
  | some bound ↦ some bound
  | none ↦ derive_outbox_bound s pubkey kind
]

-- `setOutboxBound`
unfoldable pub set_outbox_bound : Text → ℕ → OutboxBound → MemoryIndex → MemoryIndex
set_outbox_bound pubkey kind bound s = record s {
  outbox_bounds = Map.set s.outbox_bounds (outbox_bound_key pubkey kind) bound;
}

-- `clear`
unfoldable pub clear : MemoryIndex → MemoryIndex
clear s = record s {
  tables = no_tables;
  marks = no_marks;
  deletion = no_deletions;
  outbox_bounds = [];
  notices = s.notices ++ map removed (Map.values s.by_id);
}

-- `size`
pub size : MemoryIndex → ℕ
size s = length s.by_id
