-- ===== src/Storage/MemoryIndex/Winner.antt =====
-- The winner of an address after a `put` (src/storage/put.ts, src/storage/memory-index.ts).
use nostr_js.Base.{
  ◌≡◌, refl, ◌≢◌, Bool, true, false, not, ◌&&◌, ◌||◌, Option, none, some, arith, nat_beq,
  if◌then◌else◌, Text, ◌==◌, text_eq, eq_iff, eq_self, Bool-cases, inl, inr, sym, ◌∙◌, ap,
}
use nostr_js.Runtime.Map
use nostr_js.Runtime.Set
use nostr_js.Core.Kind.{event_deletion, is_ephemeral_kind}
use nostr_js.Core.Event.{Event, stamp, validate_signed_event, is_replaceable_winner}
use nostr_js.Core.Event.Order.{is_replaceable_winner_total, is_replaceable_winner_trans}
use nostr_js.Storage.Deletion.{covers, address_of}
use nostr_js.Storage.Put.{
  PutResult, Incumbent, skip, insert, accepted, replaced, rejected, decide_put, decide_stored,
  decide_address, apply_put_memory,
}
use nostr_js.Storage.MemoryIndex.{
  MemoryIndex, put, apply_decision, get_incumbent, incumbent_event, lookup_of, index_insert,
  insert_tables, set_address, trimmed,
}

-- What `put` lets through to the address rule: a well-formed event that is new, not deleted, and
-- of no kind with a treatment of its own.
pub record IsAdmissible (s : MemoryIndex) (marked : Bool) (e : Event) : Type 0 where
  pub valid : (marked || validate_signed_event e) ≡ true
  pub no_tombstone : Set.has s.deletion.ids e.id ≡ false
  pub new : Map.get s.by_id e.id ≡ none
  pub not_deletion : nat_beq e.kind event_deletion ≡ false
  pub not_covered : covers s.deletion e ≡ false
  pub not_ephemeral : is_ephemeral_kind e.kind ≡ false

decide_put-admissible :
    (s : MemoryIndex) (marked : Bool) (e : Event)
    → IsAdmissible s marked e
    → decide_put marked e (lookup_of s) ≡ decide_stored e (lookup_of s) (address_of e)
unfolding decide_put
decide_put-admissible s marked e a =
    rw (a.no_tombstone, a.new, a.not_deletion, a.not_covered, a.not_ephemeral)
      (ground (arith, a.valid))

-- The event takes the address from this incumbent.
abbrev pub takes_over : Event → Option Incumbent → Bool
takes_over e none = true
takes_over e (some i) = i.mark.id == e.id || is_replaceable_winner (stamp e) i.mark

incumbent-index_insert :
    (e : Event) (a : Text) (s : MemoryIndex)
    → address_of e ≡ some a
    → get_incumbent (index_insert e s) a ≡ some (record { mark = stamp e; evicted = false })
unfolding get_incumbent index_insert insert_tables incumbent_event
incumbent-index_insert e a s at =
    rw
      (
        at,
        set_address,
        Map.get-set s.replaceable a e.id a,
        eq_self a,
        Map.get-set s.by_id e.id e e.id,
        eq_self e.id,
        incumbent_event,
      )
      refl

-- only the deletion state is trimmed
incumbent-trimmed : (s : MemoryIndex) (a : Text) → get_incumbent (trimmed s) a ≡ get_incumbent s a
unfolding get_incumbent
incumbent-trimmed s a = refl

incumbent-insert :
    (s : MemoryIndex) (e : Event) (a : Text) (r : PutResult) (rid : Option Text)
    → address_of e ≡ some a
    → get_incumbent (apply_decision (insert r e (some a) rid) s).1 a
      ≡ some (record { mark = stamp e; evicted = false })
unfolding apply_decision apply_put_memory
incumbent-insert s e a r rid at = incumbent-trimmed _ a ∙ incumbent-index_insert e a _ at

incumbent-skip :
    (s : MemoryIndex) (e : Event) (a : Text) (r : PutResult)
    → get_incumbent (apply_decision (skip r e) s).1 a ≡ get_incumbent s a
unfolding apply_decision apply_put_memory
incumbent-skip s e a r = incumbent-trimmed _ a

apply_address :
    (s : MemoryIndex) (e : Event) (a : Text) (o : Option Incumbent)
    → address_of e ≡ some a
    → get_incumbent s a ≡ o
    → get_incumbent (apply_decision (decide_address e a o) s).1 a
      ≡ (if takes_over e o then some (record { mark = stamp e; evicted = false }) else o)
unfolding decide_address
apply_address s e a none at found = incumbent-insert s e a accepted none at
apply_address s e a (some i) at found = elim (Bool-cases (takes_over e (some i))) [
  | inl wins ↦
      let kept : (not (i.mark.id == e.id) && not (is_replaceable_winner (stamp e) i.mark)) ≡ false =
        ground arith in
      elim (Bool-cases i.evicted) [
        | inl gone ↦ rw (kept, gone, wins) (incumbent-insert s e a accepted none at)
        | inr live ↦ rw (kept, live, wins) (incumbent-insert s e a replaced (some i.mark.id) at)
      ]
  | inr loses ↦
      let stale : (not (i.mark.id == e.id) && not (is_replaceable_winner (stamp e) i.mark)) ≡ true =
        ground arith in
      rw (stale, loses) (incumbent-skip s e a rejected ∙ found)
]

-- An admissible event with an address takes the address over, with its own id and time, if there is
-- no incumbent, if the incumbent has its id (a watermark that is put again) or if it wins against
-- the incumbent; otherwise the incumbent stays, live or evicted as it was.
pub put_winner :
    (s : MemoryIndex) (marked : Bool) (e : Event) (a : Text)
    → IsAdmissible s marked e
    → address_of e ≡ some a
    → get_incumbent (put marked e s).1 a ≡ (
        if takes_over e (get_incumbent s a)
        then some (record { mark = stamp e; evicted = false })
        else get_incumbent s a)
unfolding put decide_stored
put_winner s marked e a ok at =
    rw (decide_put-admissible s marked e ok, at, decide_stored)
      (apply_address s e a (get_incumbent s a) at refl)

-- The incumbent, if any, has another id than the event.
abbrev pub IsOther : Event → Option Incumbent → Type 0
IsOther e none = Unit
IsOther e (some i) = i.mark.id ≢ e.id

abbrev live_mark : Event → Option Incumbent
live_mark e = some (record { mark = stamp e; evicted = false })

abbrev after : Event → Option Incumbent → Option Incumbent
after e o = if takes_over e o then live_mark e else o

after_comm :
    (x y : Event) (o : Option Incumbent)
    → x.id ≢ y.id
    → IsOther x o
    → IsOther y o
    → after y (after x o) ≡ after x (after y o)
after_comm x y none d hx hy =
    ground
      (arith, is_replaceable_winner_total (stamp x) (stamp y) d, eq_iff x.id y.id, eq_iff y.id x.id)
after_comm x y (some i) d hx hy = ground (
  arith,
  is_replaceable_winner_total (stamp x) (stamp y) d,
  is_replaceable_winner_total (stamp x) i.mark (λ q. hx (sym q)),
  is_replaceable_winner_total (stamp y) i.mark (λ q. hy (sym q)),
  is_replaceable_winner_trans (stamp x) (stamp y) i.mark,
  is_replaceable_winner_trans (stamp y) (stamp x) i.mark,
  eq_iff x.id y.id,
  eq_iff y.id x.id,
  eq_iff i.mark.id x.id,
  eq_iff i.mark.id y.id,
)

-- Two versions of a replaceable or addressable event converge: put in either order, they leave the
-- same winner at their address, provided that their ids differ from one another and from the
-- incumbent's, and that each is admissible when it is put.
pub put_converges :
    (s : MemoryIndex) (mx my : Bool) (x y : Event) (a : Text)
    → address_of x ≡ some a
    → address_of y ≡ some a
    → x.id ≢ y.id
    → IsOther x (get_incumbent s a)
    → IsOther y (get_incumbent s a)
    → IsAdmissible s mx x
    → IsAdmissible s my y
    → IsAdmissible (put mx x s).1 my y
    → IsAdmissible (put my y s).1 mx x
    → get_incumbent (put my y (put mx x s).1).1 a ≡ get_incumbent (put mx x (put my y s).1).1 a
put_converges s mx my x y a ax ay d ox oy hx hy hxy hyx =
    put_winner (put mx x s).1 my y a hxy ay
    ∙ ap (after y) (put_winner s mx x a hx ax)
    ∙ after_comm x y (get_incumbent s a) d ox oy
    ∙ sym (put_winner (put my y s).1 mx x a hyx ax ∙ ap (after x) (put_winner s my y a hy ay))
