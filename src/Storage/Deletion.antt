-- ===== src/Storage/Deletion.antt =====
-- src/storage/deletion.ts: the plan of a kind-5 event, and the tombstones.
pub mod Own
pub mod Unknown
use nostr_js.Base.{
  ◌≡◌, Bool, true, false, ◌&&◌, ◌||◌, not, Option, none, some, List, [], ◌∷◌, ◌++◌, ℕ, nat_beq,
  if◌then◌else◌, Text, text, ◌==◌, text_eq, is_some,
}
use nostr_js.Base.Int.{ℤ, leb_ℤ, max_ℤ}
use nostr_js.Runtime.Map
use nostr_js.Runtime.Map.{Map}
use nostr_js.Runtime.Set
use nostr_js.Runtime.Set.{Set}
use nostr_js.Runtime.Str.{to_lower_case}
use nostr_js.Runtime.Str.Decimal.{to_text}
use nostr_js.Core.Hex.{is_hex32}
use nostr_js.Core.Kind.{event_deletion}
use nostr_js.Core.Tag.{Tag, EventAddress, parse_event_address, event_address}
use nostr_js.Core.Event.{Event, Stamp}

-- a referenced id that is not in the store, with the author of the deletion
pub record Pending : Type 0 where
  pub id : Text
  pub pubkey : Text

-- a coordinate that is deleted up to a time
pub record Marker : Type 0 where
  pub key : Text
  pub until : ℤ

pub record DeletionPlan : Type 0 where
  pub remove_ids : List Text
  pub pending_ids : List Pending
  pub coordinates : List Marker

-- The variables of `planDeletion`: the plan, and the two sets of what was seen.
pub record Planning : Type 0 where
  pub plan : DeletionPlan
  pub open plan use *
  pub seen_ids : Set Text
  pub seen_coords : Set Text

abbrev add_remove : Text → DeletionPlan → DeletionPlan
add_remove id p = record p { remove_ids = p.remove_ids ++ id ∷ [] }

abbrev add_pending : Pending → DeletionPlan → DeletionPlan
add_pending x p = record p { pending_ids = p.pending_ids ++ x ∷ [] }

abbrev add_marker : Marker → DeletionPlan → DeletionPlan
add_marker x p = record p { coordinates = p.coordinates ++ x ∷ [] }

module _ (pubkey : Text) (created_at : ℤ) (get_by_id : Text → Option Event) where
  -- what an `e` tag does to the plan, by the stored target
  plan_target : Text → Option Event → DeletionPlan → DeletionPlan
  plan_target id none p = add_pending (record { id = id; pubkey = pubkey }) p
  plan_target id (some existing) p =
      if nat_beq existing.kind event_deletion
      then p
      else if not (existing.pubkey == pubkey)
      then p
      else add_remove id p

  plan_id : Text → Planning → Planning
  unfolding plan_target
  plan_id id s = if Set.has s.seen_ids id then s else record s {
    plan = plan_target id (get_by_id id) s.plan;
    seen_ids = Set.add s.seen_ids id;
  }

  coordinate_key : EventAddress → Text
  coordinate_key coord = to_text coord.kind ++ (b':' ∷ (coord.pubkey ++ (b':' ∷ coord.identifier)))

  plan_coordinate : Option EventAddress → Planning → Planning
  unfolding coordinate_key
  plan_coordinate none s = s
  plan_coordinate (some coord) s =
      if not (coord.pubkey == pubkey) || Set.has s.seen_coords (coordinate_key coord)
      then s
      else record s {
        plan = add_marker (record { key = coordinate_key coord; until = created_at }) s.plan;
        seen_coords = Set.add s.seen_coords (coordinate_key coord);
      }

  -- one round of the loop over the tags
  plan_tag : Tag → Planning → Planning
  unfolding plan_id plan_coordinate
  plan_tag (name ∷ value ∷ _) s =
      if name == text "e" && is_hex32 (to_lower_case value)
      then plan_id (to_lower_case value) s
      else if name == text "a"
      then plan_coordinate (parse_event_address value) s
      else s
  plan_tag _ s = s

  plan_tags : List Tag → Planning → Planning
  unfolding plan_tag
  plan_tags [] s = s
  plan_tags (tag ∷ tags) s = plan_tags tags (plan_tag tag s)

abbrev pub empty_plan : DeletionPlan
empty_plan = record { remove_ids = []; pending_ids = []; coordinates = [] }

-- `planDeletion`
unfoldable pub plan_deletion : Event → (Text → Option Event) → DeletionPlan
unfolding plan_tags
plan_deletion deletion get_by_id =
    (plan_tags deletion.pubkey deletion.created_at get_by_id deletion.tags
      (record { plan = empty_plan; seen_ids = []; seen_coords = [] })).plan

pub record DeletionState : Type 0 where
  pub ids : Set Text
  pub pending : Map Text Text
  pub coordinates : Map Text ℤ

-- a new state, and `DeletionState.clear`
abbrev pub no_deletions : DeletionState
no_deletions = record { ids = []; pending = []; coordinates = [] }

abbrev pub address_of : Event → Option Text
address_of e = event_address e.kind e.pubkey e.tags

unfoldable pub covered_by_marker : Map Text ℤ → ℤ → Option Text → Bool
covered_by_marker coordinates created_at none = false
covered_by_marker coordinates created_at (some addr) = elim (Map.get coordinates addr) [
  | none ↦ false
  | some until ↦ leb_ℤ created_at until
]

-- `pendingPk !== undefined && event.pubkey === pendingPk`
covered_by_pending : Map Text Text → Event → Bool
covered_by_pending pending event = elim (Map.get pending event.id) [
  | none ↦ false
  | some pubkey ↦ event.pubkey == pubkey
]

-- `DeletionState.covers`
unfoldable pub covers : DeletionState → Event → Bool
unfolding covered_by_marker covered_by_pending
covers s event =
    if Set.has s.ids event.id
    then true
    else if nat_beq event.kind event_deletion
    then false
    else if covered_by_pending s.pending event
    then true
    else covered_by_marker s.coordinates event.created_at (address_of event)

-- the three loops of `DeletionState.absorb`
absorb_removed : List Text → DeletionState → DeletionState
absorb_removed [] s = s
absorb_removed (id ∷ ids) s =
    absorb_removed ids (record s { ids = Set.add s.ids id; pending = Map.delete s.pending id })

absorb_pending : List Pending → DeletionState → DeletionState
absorb_pending [] s = s
absorb_pending (p ∷ ps) s = absorb_pending ps (record s {
  pending = if not (Set.has s.ids p.id) then Map.set s.pending p.id p.pubkey else s.pending;
})

-- `Math.max(prev, until)`, where a missing `prev` is minus infinity
abbrev max_found : Option ℤ → ℤ → ℤ
max_found none until = until
max_found (some prev) until = max_ℤ prev until

absorb_marker : Marker → Map Text ℤ → Map Text ℤ
absorb_marker c m = Map.set (Map.delete m c.key) c.key (max_found (Map.get m c.key) c.until)

absorb_markers : List Marker → DeletionState → DeletionState
unfolding absorb_marker
absorb_markers [] s = s
absorb_markers (c ∷ cs) s =
    absorb_markers cs (record s { coordinates = absorb_marker c s.coordinates })

-- `DeletionState.absorb`
unfoldable pub absorb : DeletionState → DeletionPlan → DeletionState
unfolding absorb_removed absorb_pending absorb_markers
absorb s plan =
    absorb_markers plan.coordinates
      (absorb_pending plan.pending_ids (absorb_removed plan.remove_ids s))

-- `coordinateRemovals`, on what it reads of the current winner
removal : Marker → Option Stamp → List Text
removal c none = []
removal c (some current) = if leb_ℤ current.created_at c.until then current.id ∷ [] else []

unfoldable pub coordinate_removals : List Marker → (Text → Option Stamp) → List Text
unfolding removal
coordinate_removals [] get_current = []
coordinate_removals (c ∷ cs) get_current =
    removal c (get_current c.key) ++ coordinate_removals cs get_current
