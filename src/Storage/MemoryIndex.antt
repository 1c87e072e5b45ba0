-- ===== src/Storage/MemoryIndex.antt =====
-- src/storage/memory-index.ts: the state of `MemoryIndex`, its writes, and `put`.
-- `tables` are the events and their indexes, `marks` the watermarks of evicted winners. The calls of
-- `onInsert` and `onRemove` are the list `notices`, oldest first; what the callbacks do is not
-- modelled. A method of the source that changes the index returns the new state.
pub mod Query
pub mod Methods
pub mod Keys
pub mod Invariant
pub mod Writes
pub mod Reach
pub mod Winner
pub mod Keeps
pub mod Notices
use nostr_js.Base.{
  ◌≡◌, Bool, true, false, ◌&&◌, ◌||◌, not, Option, none, some, List, [], ◌∷◌, ◌++◌, ℕ, suc, ◌+◌,
  nat_beq, if◌then◌else◌, Text, text, ◌==◌, text_eq, nat_eq, is_some, length, map, Eq,
}
use nostr_js.Base.Int.{ℤ, leb_ℤ}
use nostr_js.Runtime.Map
use nostr_js.Runtime.Map.{Map}
use nostr_js.Runtime.Set
use nostr_js.Runtime.Set.{Set}
use nostr_js.Runtime.Str.{to_lower_case}
use nostr_js.Runtime.Str.Decimal.{to_text}
use nostr_js.Core.Collections.{add_to_set_map, remove_from_set_map, trim_keys, trim_oldest}
use nostr_js.Core.Tag.{Tag, EventAddress, parse_event_address, format_event_address}
use nostr_js.Core.Event.{Event, Stamp, stamp}
use nostr_js.Storage.Deletion.{
  DeletionState, DeletionPlan, Pending, Marker, no_deletions, address_of,
}
use nostr_js.Storage.Put.{
  PutResult, PutDecision, PutLookup, PutTarget, Incumbent, decide_put, apply_put_memory,
}

pub record Tables : Type 0 where
  pub by_id : Map Text Event
  pub by_pubkey : Map Text (Set Text)
  pub by_kind : Map ℕ (Set Text)
  pub by_kind_pubkey : Map Text (Set Text)
  pub by_ep_tag : Map Text (Set Text)
  pub replaceable : Map Text Text

pub record Watermarks : Type 0 where
  pub watermarks : Map Text Stamp
  pub watermark_ids : Map Text Text

pub record OutboxBound : Type 0 where
  pub oldest : ℤ
  pub newest : ℤ

pub data Notice : Type 0 where
  inserted : Event → Notice
  removed : Event → Notice

pub record MemoryIndex : Type 0 where
  pub tables : Tables
  pub open tables use *
  pub marks : Watermarks
  pub open marks use *
  pub deletion : DeletionState
  pub outbox_bounds : Map Text OutboxBound
  pub max_tombstones : Option ℕ
  pub max_watermarks : ℕ
  pub notices : List Notice

abbrev pub no_tables : Tables
no_tables = record {
  by_id = [];
  by_pubkey = [];
  by_kind = [];
  by_kind_pubkey = [];
  by_ep_tag = [];
  replaceable = [];
}

abbrev pub no_marks : Watermarks
no_marks = record { watermarks = []; watermark_ids = [] }

-- `new MemoryIndex(opts)`
abbrev pub new_index : Option ℕ → ℕ → MemoryIndex
new_index max_tombstones max_watermarks = record {
  tables = no_tables;
  marks = no_marks;
  deletion = no_deletions;
  outbox_bounds = [];
  max_tombstones = max_tombstones;
  max_watermarks = max_watermarks;
  notices = [];
}

-- `${kind}:${pubkey}`
unfoldable pub kind_pubkey_key : ℕ → Text → Text
kind_pubkey_key kind pubkey = to_text kind ++ (b':' ∷ pubkey)

-- `${name}:${value.toLowerCase()}`
unfoldable pub ep_key : Text → Text → Text
ep_key name value = name ++ (b':' ∷ to_lower_case value)

-- the keys under which the `e` and `p` tags of an event are indexed
unfoldable pub ep_keys : List Tag → List Text
ep_keys [] = []
ep_keys ((name ∷ value ∷ _) ∷ tags) =
    let rest = ep_keys tags in
    if name == text "e" || name == text "p" then ep_key name value ∷ rest else rest
ep_keys (_ ∷ tags) = ep_keys tags

unfoldable pub add_keys {ℓ} :
    {K : Type ℓ} ⦃e : Eq K⦄ → Map K (Set Text) → List K → Text → Map K (Set Text)
add_keys m [] id = m
add_keys m (k ∷ ks) id = add_keys (add_to_set_map m k id) ks id

unfoldable pub remove_keys {ℓ} :
    {K : Type ℓ} ⦃e : Eq K⦄ → Map K (Set Text) → List K → Text → Map K (Set Text)
remove_keys m [] id = m
remove_keys m (k ∷ ks) id = remove_keys (remove_from_set_map m k id) ks id

set_address : Map Text Text → Option Text → Text → Map Text Text
set_address replaceable none id = replaceable
set_address replaceable (some addr) id = Map.set replaceable addr id

-- `addr !== undefined && this.#replaceable.get(addr) === id`
unfoldable pub is_winner : Map Text Text → Option Text → Text → Bool
is_winner replaceable none id = false
is_winner replaceable (some addr) id = elim (Map.get replaceable addr) [
  | none ↦ false
  | some winner ↦ winner == id
]

clear_address : Map Text Text → Option Text → Text → Map Text Text
clear_address replaceable none id = replaceable
clear_address replaceable (some addr) id =
    if is_winner replaceable (some addr) id then Map.delete replaceable addr else replaceable

-- The tables' part of `#indexInsert` and of `#indexRemove`.
unfoldable pub insert_tables : Event → Tables → Tables
unfolding set_address
insert_tables e t = record {
  by_id = Map.set t.by_id e.id e;
  by_pubkey = add_keys t.by_pubkey (e.pubkey ∷ []) e.id;
  by_kind = add_keys t.by_kind (e.kind ∷ []) e.id;
  by_kind_pubkey = add_keys t.by_kind_pubkey (kind_pubkey_key e.kind e.pubkey ∷ []) e.id;
  by_ep_tag = add_keys t.by_ep_tag (ep_keys e.tags) e.id;
  replaceable = set_address t.replaceable (address_of e) e.id;
}

unfoldable pub remove_tables : Text → Event → Tables → Tables
unfolding clear_address
remove_tables id e t = record {
  by_id = Map.delete t.by_id id;
  by_pubkey = remove_keys t.by_pubkey (e.pubkey ∷ []) id;
  by_kind = remove_keys t.by_kind (e.kind ∷ []) id;
  by_kind_pubkey = remove_keys t.by_kind_pubkey (kind_pubkey_key e.kind e.pubkey ∷ []) id;
  by_ep_tag = remove_keys t.by_ep_tag (ep_keys e.tags) id;
  replaceable = clear_address t.replaceable (address_of e) id;
}

-- `#dropWatermark`
unfoldable pub drop_watermark : Text → Watermarks → Watermarks
drop_watermark addr w = elim (Map.get w.watermarks addr) [
  | none ↦ w
  | some mark ↦ record {
    watermarks = Map.delete w.watermarks addr;
    watermark_ids = Map.delete w.watermark_ids mark.id;
  }
]

-- `#dropWatermarkId`
unfoldable pub drop_watermark_id : Text → Watermarks → Watermarks
drop_watermark_id id w = elim (Map.get w.watermark_ids id) [
  | none ↦ w
  | some addr ↦ record {
    watermarks = Map.delete w.watermarks addr;
    watermark_ids = Map.delete w.watermark_ids id;
  }
]

drop_address : Option Text → Watermarks → Watermarks
drop_address none w = w
drop_address (some addr) w = drop_watermark addr w

-- `onEvict` is `#dropWatermark`, and then `trimOldest` deletes the key itself.
evict_watermark : Text → Watermarks → Watermarks
evict_watermark addr w =
    let w' = drop_watermark addr w in record w' { watermarks = Map.delete w'.watermarks addr }

add_watermark : Text → Stamp → Watermarks → Watermarks
add_watermark addr mark w = record {
  watermarks = Map.set w.watermarks addr mark;
  watermark_ids = Map.set w.watermark_ids mark.id addr;
}

trim_watermarks : ℕ → Watermarks → Watermarks
unfolding evict_watermark
trim_watermarks max w =
    trim_keys (λ w. length w.watermarks) evict_watermark max (Map.keys w.watermarks) w

-- `#setWatermark`
unfoldable pub set_watermark : ℕ → Text → Stamp → Watermarks → Watermarks
unfolding add_watermark trim_watermarks
set_watermark max addr mark w =
    if nat_beq max 0
    then w
    else trim_watermarks max (add_watermark addr mark (drop_watermark addr w))

-- `#indexInsert`
unfoldable pub index_insert : Event → MemoryIndex → MemoryIndex
unfolding drop_address
index_insert e s = record s {
  tables = insert_tables e s.tables;
  marks = drop_address (address_of e) s.marks;
  notices = s.notices ++ inserted e ∷ [];
}

remove_found : Text → Option Event → MemoryIndex → Bool × MemoryIndex
remove_found id none s = (false, s)
remove_found id (some e) s =
    (true, record s { tables = remove_tables id e s.tables; notices = s.notices ++ removed e ∷ [] })

-- `#indexRemove`
unfoldable pub index_remove : Text → MemoryIndex → Bool × MemoryIndex
unfolding remove_found
index_remove id s =
    remove_found id (Map.get s.by_id id) (record s { marks = drop_watermark_id id s.marks })

-- `onEvict` drops the pending entry of a trimmed tombstone.
evict_tombstone : Text → DeletionState → DeletionState
evict_tombstone id d = record d { ids = Set.delete d.ids id; pending = Map.delete d.pending id }

trim_deletion : ℕ → DeletionState → DeletionState
unfolding evict_tombstone
trim_deletion cap d =
    let d' = trim_keys (λ d. length d.ids) evict_tombstone cap d.ids d in
    record d' { pending = trim_oldest d'.pending cap; coordinates = trim_oldest d'.coordinates cap }

-- `#trimTombstones`
unfoldable pub trim_tombstones : Option ℕ → DeletionState → DeletionState
unfolding trim_deletion
trim_tombstones none d = d
trim_tombstones (some cap) d = trim_deletion cap d

abbrev trimmed : MemoryIndex → MemoryIndex
trimmed s = record s { deletion = trim_tombstones s.max_tombstones s.deletion }

abbrev evicted_mark : Option Stamp → Option Incumbent
evicted_mark none = none
evicted_mark (some mark) = some (record { mark = mark; evicted = true })

incumbent_event : Watermarks → Text → Option Event → Option Incumbent
incumbent_event w addr (some e) = some (record { mark = stamp e; evicted = false })
incumbent_event w addr none = evicted_mark (Map.get w.watermarks addr)

-- the event that a winner's id names
abbrev found_event : Map Text Event → Option Text → Option Event
found_event by_id none = none
found_event by_id (some id) = Map.get by_id id

unfoldable pub get_incumbent : MemoryIndex → Text → Option Incumbent
unfolding incumbent_event
get_incumbent s addr =
    incumbent_event s.marks addr (found_event s.by_id (Map.get s.replaceable addr))

-- the `lookup` of `put`
abbrev pub lookup_of : MemoryIndex → PutLookup
lookup_of s = record {
  deletion = s.deletion;
  get_by_id = λ id. Map.get s.by_id id;
  get_replaceable = λ addr. get_incumbent s addr;
}

abbrev pub target : PutTarget MemoryIndex
target = record {
  deletion = λ s. s.deletion;
  set_deletion = λ d s. record s { deletion = d };
  index_insert = index_insert;
  index_remove = λ id s. (index_remove id s).1;
}

drop_pending_marks : List Pending → Watermarks → Watermarks
drop_pending_marks [] w = w
drop_pending_marks (p ∷ ps) w = drop_pending_marks ps (drop_watermark_id p.id w)

drop_marker_marks : List Marker → Watermarks → Watermarks
drop_marker_marks [] w = w
drop_marker_marks (c ∷ cs) w = drop_marker_marks cs (drop_watermark c.key w)

-- Pending targets and coordinates of a deletion lose their watermarks.
drop_planned : PutDecision → Watermarks → Watermarks
drop_planned (PutDecision.delete event plan coord_ids) w =
    drop_marker_marks plan.coordinates (drop_pending_marks plan.pending_ids w)
drop_planned _ w = w

apply_decision : PutDecision → MemoryIndex → PutResult × MemoryIndex
unfolding drop_planned drop_pending_marks drop_marker_marks
apply_decision decision s =
    let (result, s') =
      apply_put_memory target decision (record s { marks = drop_planned decision s.marks }) in
    (result, trimmed s')

-- `put`
unfoldable pub put : Bool → Event → MemoryIndex → PutResult × MemoryIndex
unfolding apply_decision
put marked raw s = apply_decision (decide_put marked raw (lookup_of s)) s

-- `putMany`
pub put_many : List (Bool × Event) → MemoryIndex → List PutResult × MemoryIndex
put_many [] s = ([], s)
put_many ((marked, e) ∷ es) s =
    let (r, s') = put marked e s in let (rs, s'') = put_many es s' in (r ∷ rs, s'')
