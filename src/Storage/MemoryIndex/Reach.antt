-- ===== src/Storage/MemoryIndex/Reach.antt =====
-- The states that the methods of src/storage/memory-index.ts reach, and their invariant.
use nostr_js.Base.{Bool, true, false, Option, none, some, List, [], ◌∷◌, ℕ, Text, text_eq}
use nostr_js.Runtime.Map
use nostr_js.Runtime.Str.{to_lower_case}
use nostr_js.Core.Event.{Event, Stamp}
use nostr_js.Storage.Deletion.{address_of}
use nostr_js.Storage.MemoryIndex.{MemoryIndex, OutboxBound, new_index, put, put_many, is_winner}
use nostr_js.Storage.MemoryIndex.Invariant.{no_tables-IsIndexed}
use nostr_js.Storage.MemoryIndex.Methods.{
  remove, remove_ids, evict, evict_event, mark_winner, clear, set_outbox_bound,
}
use nostr_js.Storage.MemoryIndex.Writes.{Fits, index_remove-Fits, put-Fits}

mark_winner-Fits :
    (b : Bool) (o : Option Text) (mark : Stamp) (s : MemoryIndex)
    → Fits s
    → Fits (mark_winner b o mark s)
unfolding mark_winner
mark_winner-Fits true (some addr) mark s i = i
mark_winner-Fits true none mark s i = i
mark_winner-Fits false o mark s i = i

evict_event-Fits :
    (id : Text) (o : Option Event) (s : MemoryIndex) → Fits s → Fits (evict_event id o s).1
unfolding evict_event
evict_event-Fits id none s i = i
evict_event-Fits id (some e) s i =
    mark_winner-Fits (is_winner s.replaceable (address_of e) id) (address_of e) _ _
      (index_remove-Fits id s i)

evict-Fits : (raws : List Text) (s : MemoryIndex) → Fits s → Fits (evict raws s).1
unfolding evict
evict-Fits [] s i = i
evict-Fits (raw ∷ raws) s i =
    evict-Fits raws _
      (evict_event-Fits (to_lower_case raw) (Map.get s.by_id (to_lower_case raw)) s i)

remove_ids-Fits : (raws : List Text) (s : MemoryIndex) → Fits s → Fits (remove_ids raws s).1
unfolding remove_ids
remove_ids-Fits [] s i = i
remove_ids-Fits (raw ∷ raws) s i =
    remove_ids-Fits raws _ (index_remove-Fits (to_lower_case raw) s i)

remove-Fits : (raws : List Text) (s : MemoryIndex) → Fits s → Fits (remove raws s).1
unfolding remove
remove-Fits raws s i = remove_ids-Fits raws s i

-- One call of a method that writes.
pub data Step (s : MemoryIndex) : MemoryIndex → Type 0 where
  put_step : (marked : Bool) (e : Event) → Step s (put marked e s).1
  remove_step : (ids : List Text) → Step s (remove ids s).1
  evict_step : (ids : List Text) → Step s (evict ids s).1
  bound_step :
      (pubkey : Text) (kind : ℕ) (bound : OutboxBound)
      → Step s (set_outbox_bound pubkey kind bound s)
  clear_step : Step s (clear s)

-- The states that calls from a new index reach.
pub data Reachable : MemoryIndex → Type 0 where
  start :
      (max_tombstones : Option ℕ) (max_watermarks : ℕ)
      → Reachable (new_index max_tombstones max_watermarks)
  next : {s u : MemoryIndex} → Reachable s → Step s u → Reachable u

Step-Fits : {s u : MemoryIndex} → Step s u → Fits s → Fits u
unfolding clear set_outbox_bound
Step-Fits {s} (put_step marked e) i = put-Fits marked e s i
Step-Fits {s} (remove_step ids) i = remove-Fits ids s i
Step-Fits {s} (evict_step ids) i = evict-Fits ids s i
Step-Fits (bound_step pubkey kind bound) i = i
Step-Fits clear_step i = no_tables-IsIndexed

-- After any sequence of `put`, `remove`, `evict`, `setOutboxBound` and `clear` on a new index, with
-- any events and whatever the caps: the ids are unique and are those of their events, each of the
-- four indexes holds exactly the pairs of a key and the id of a stored event that has that key, and
-- the winner of an address is exactly the one stored event that has the address.
pub Reachable-IsIndexed : {s : MemoryIndex} → Reachable s → Fits s
Reachable-IsIndexed (start a b) = no_tables-IsIndexed
Reachable-IsIndexed (next r step) = Step-Fits step (Reachable-IsIndexed r)

-- `putMany` is a sequence of such calls.
put_many-Reachable :
    (es : List (Bool × Event)) {s : MemoryIndex} → Reachable s → Reachable (put_many es s).1
unfolding put_many
put_many-Reachable [] r = r
put_many-Reachable ((marked, e) ∷ es) r = put_many-Reachable es (next r (put_step marked e))
