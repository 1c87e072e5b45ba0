-- ===== src/Storage/Put.antt =====
-- src/storage/put.ts: what putting an event does, decided first and applied after.
pub mod Decision
use nostr_js.Base.{
  ◌≡◌, Bool, true, false, ◌&&◌, ◌||◌, not, Option, none, some, List, [], ◌∷◌, ◌++◌, ℕ, nat_beq,
  if◌then◌else◌, Text, text, ◌==◌, text_eq, is_some,
}
use nostr_js.Base.Int.{ℤ}
use nostr_js.Runtime.Map
use nostr_js.Runtime.Set
use nostr_js.Runtime.Str.{to_lower_case}
use nostr_js.Runtime.Str.Decimal.{to_text}
use nostr_js.Core.Kind.{event_deletion, is_ephemeral_kind}
use nostr_js.Core.Event.{Event, Stamp, stamp, validate_signed_event, is_replaceable_winner}
use nostr_js.Storage.Deletion.{
  DeletionPlan, DeletionState, plan_deletion, coordinate_removals, covers, address_of, absorb,
}

-- `outboxBoundKey`
unfoldable pub outbox_bound_key : Text → ℕ → Text
outbox_bound_key pubkey kind = to_lower_case pubkey ++ (b':' ∷ to_text kind)

pub data PutResult : Type 0 where
  accepted duplicate replaced rejected ephemeral deleted invalid : PutResult

pub data PutDecision : Type 0 where
  skip : PutResult → Event → PutDecision
  tombstone : Event → PutDecision
  delete : Event → DeletionPlan → List Text → PutDecision
  insert : PutResult → Event → (address replace_id : Option Text) → PutDecision

-- the current winner at an address, or the watermark of an evicted one
pub record Incumbent : Type 0 where
  pub mark : Stamp
  pub evicted : Bool

pub record PutLookup : Type 0 where
  pub deletion : DeletionState
  pub get_by_id : Text → Option Event
  pub get_replaceable : Text → Option Incumbent

abbrev pub mark_of : Option Incumbent → Option Stamp
mark_of none = none
mark_of (some i) = some i.mark

-- the last part, for an event with an address
unfoldable pub decide_address : Event → Text → Option Incumbent → PutDecision
decide_address event address none = insert accepted event (some address) none
decide_address event address (some prev) =
    if not (prev.mark.id == event.id) && not (is_replaceable_winner (stamp event) prev.mark)
    then skip rejected event
    else if not prev.evicted
    then insert replaced event (some address) (some prev.mark.id)
    else insert accepted event (some address) none

unfoldable pub decide_stored : Event → PutLookup → Option Text → PutDecision
unfolding decide_address
decide_stored event lookup none = insert accepted event none none
decide_stored event lookup (some address) =
    decide_address event address (lookup.get_replaceable address)

unfoldable pub decide_deletion : Event → PutLookup → DeletionPlan → PutDecision
decide_deletion event lookup plan =
    delete event plan
      (coordinate_removals plan.coordinates (λ key. mark_of (lookup.get_replaceable key)))

-- `decidePut`; `marked` is `isMarkedVerified(raw)`, which the set of verified objects decides
unfoldable pub decide_put : Bool → Event → PutLookup → PutDecision
unfolding decide_stored decide_deletion
decide_put marked event lookup =
    if not marked && not (validate_signed_event event)
    then skip invalid event
    else if Set.has lookup.deletion.ids event.id || is_some (lookup.get_by_id event.id)
    then skip duplicate event
    else if nat_beq event.kind event_deletion
    then decide_deletion event lookup (plan_deletion event lookup.get_by_id)
    else if covers lookup.deletion event
    then tombstone event
    else if is_ephemeral_kind event.kind
    then skip ephemeral event
    else decide_stored event lookup (address_of event)

-- what `applyPutMemory` is given: the store's deletion state and its two index operations
pub record PutTarget (S : Type 0) : Type 0 where
  pub deletion : S → DeletionState
  pub set_deletion : DeletionState → S → S
  pub index_insert : Event → S → S
  pub index_remove : Text → S → S

module _ {S : Type 0} (t : PutTarget S) where
  abbrev pub on_deletion : (DeletionState → DeletionState) → S → S
  on_deletion f s = t.set_deletion (f (t.deletion s)) s

  abbrev pub forget_pending : Text → DeletionState → DeletionState
  forget_pending id d = record d { pending = Map.delete d.pending id }

  abbrev pub add_tombstone : Text → DeletionState → DeletionState
  add_tombstone id d = record d { ids = Set.add d.ids id }

  unfoldable pub remove_all : List Text → S → S
  remove_all [] s = s
  remove_all (id ∷ ids) s = remove_all ids (t.index_remove id s)

  unfoldable pub tombstone_all : List Text → S → S
  tombstone_all [] s = s
  tombstone_all (id ∷ ids) s =
      tombstone_all ids (t.index_remove id (on_deletion (add_tombstone id) s))

  unfoldable pub remove_replaced : Option Text → S → S
  remove_replaced none s = s
  remove_replaced (some id) s = t.index_remove id s

  -- `applyPutMemory`
  unfoldable pub apply_put_memory : PutDecision → S → PutResult × S
  unfolding remove_all tombstone_all remove_replaced
  apply_put_memory (skip result event) s = (result, s)
  apply_put_memory (tombstone event) s =
      (duplicate, on_deletion (λ d. forget_pending event.id (add_tombstone event.id d)) s)
  apply_put_memory (delete event plan coord_ids) s = (
    deleted,
    t.index_insert event (
        tombstone_all coord_ids (
          remove_all plan.remove_ids
            (on_deletion (λ d. absorb (forget_pending event.id d) plan) s))),
  )
  apply_put_memory (insert result event address replace_id) s =
      (result, t.index_insert event (remove_replaced replace_id s))
