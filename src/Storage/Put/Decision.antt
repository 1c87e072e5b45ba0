-- ===== src/Storage/Put/Decision.antt =====
-- What `decidePut` of src/storage/put.ts decides.
use nostr_js.Base.{
  ◌≡◌, refl, Bool, true, false, ◌&&◌, ◌||◌, not, Option, none, some, List, arith, nat_beq,
  nat_beq_iff, Text, ◌==◌, text_eq, is_some, if_elim, ◌⊎◌, inl, inr, subst, sym, ◌∙◌,
}
use nostr_js.Runtime.Set
use nostr_js.Core.Kind.{event_deletion, is_ephemeral_kind}
use nostr_js.Core.Event.{Event, stamp, validate_signed_event, is_replaceable_winner}
use nostr_js.Storage.Deletion.{DeletionPlan, plan_deletion, address_of, covers}
use nostr_js.Storage.Put.{
  PutResult, accepted, duplicate, replaced, rejected, ephemeral, invalid, PutDecision, skip,
  tombstone, delete, insert, PutLookup, Incumbent, decide_put, decide_stored, decide_address,
  decide_deletion,
}

-- The decision replaces the incumbent, if there is one that was not evicted.
abbrev pub Frees : Option Incumbent → Option Text → Type 0
Frees none rid = rid ≡ none
Frees (some i) rid =
    ((i.evicted ≡ true) × (rid ≡ none)) ⊎ ((i.evicted ≡ false) × (rid ≡ some i.mark.id))

Option_injective : {a b : Text} → some a ≡ some b → a ≡ b
Option_injective h = ground arith

-- What the index needs of a decision: the event's id is new, and its address is made free.
pub data IsSound (l : PutLookup) (e : Event) : PutDecision → Type 0 where
  skipped : (r : PutResult) → IsSound l e (skip r e)
  tombstoned : IsSound l e (tombstone e)
  deleting :
      (plan : DeletionPlan) (ids : List Text)
      → l.get_by_id e.id ≡ none
      → e.kind ≡ event_deletion
      → IsSound l e (delete e plan ids)
  inserting :
      (r : PutResult) (address rid : Option Text)
      → l.get_by_id e.id ≡ none
      → ((a : Text) → address_of e ≡ some a → Frees (l.get_replaceable a) rid)
      → IsSound l e (insert r e address rid)

module _ (l : PutLookup) (e : Event) (fresh : l.get_by_id e.id ≡ none) where
  insert-IsSound :
      (r : PutResult) (a : Text) (rid : Option Text)
      → address_of e ≡ some a
      → Frees (l.get_replaceable a) rid
      → IsSound l e (insert r e (some a) rid)
  insert-IsSound r a rid at free =
      inserting r (some a) rid fresh
        λ b q. subst (λ c. Frees (l.get_replaceable c) rid) (Option_injective (sym at ∙ q)) free

  decide_address-IsSound :
      (a : Text) (i : Option Incumbent)
      → address_of e ≡ some a
      → l.get_replaceable a ≡ i
      → IsSound l e (decide_address e a i)
  unfolding decide_address
  decide_address-IsSound a none at found = insert-IsSound accepted a none at (rw found refl)
  decide_address-IsSound a (some i) at found =
      if_elim (IsSound l e)
        (not (i.mark.id == e.id) && not (is_replaceable_winner (stamp e) i.mark))
        (λ _. skipped rejected)
        (λ _.
          if_elim (IsSound l e) (not i.evicted)
            (λ stays.
              insert-IsSound replaced a (some i.mark.id) at (rw found (inr (ground arith, refl))))
            (λ gone. insert-IsSound accepted a none at (rw found (inl (ground arith, refl)))))

  decide_deletion-IsSound :
      (plan : DeletionPlan) → e.kind ≡ event_deletion → IsSound l e (decide_deletion e l plan)
  unfolding decide_deletion
  decide_deletion-IsSound plan five = deleting plan _ fresh five

  decide_stored-IsSound : (o : Option Text) → address_of e ≡ o → IsSound l e (decide_stored e l o)
  unfolding decide_stored
  decide_stored-IsSound none at = inserting accepted none none fresh (λ a q. ground arith)
  decide_stored-IsSound (some a) at = decide_address-IsSound a (l.get_replaceable a) at refl

pub decide_put-IsSound :
    (marked : Bool) (e : Event) (l : PutLookup) → IsSound l e (decide_put marked e l)
unfolding decide_put
decide_put-IsSound marked e l =
    if_elim (IsSound l e) (not marked && not (validate_signed_event e)) (λ _. skipped invalid)
      (λ _.
        if_elim (IsSound l e) (Set.has l.deletion.ids e.id || is_some (l.get_by_id e.id))
          (λ _. skipped duplicate)
          (λ new.
            let fresh : l.get_by_id e.id ≡ none = ground arith in
            if_elim (IsSound l e) (nat_beq e.kind event_deletion)
              (λ five.
                decide_deletion-IsSound l e fresh (plan_deletion e l.get_by_id)
                  ((nat_beq_iff _ _).0 five))
              (λ _.
                if_elim (IsSound l e) (covers l.deletion e) (λ _. tombstoned)
                  (λ _.
                    if_elim (IsSound l e) (is_ephemeral_kind e.kind) (λ _. skipped ephemeral)
                      (λ _. decide_stored-IsSound l e fresh (address_of e) refl)))))
