-- ===== src/Relay/CountTracker/Reuse.antt =====
-- Replies of src/relay/count-tracker.ts, and what becomes of one when an id is used again.
use nostr_js.Base.{◌≡◌, refl, none, some, List, arith, suc, Text, text_eq, eq_iff}
use nostr_js.Runtime.Map
use nostr_js.Core.Filter.{Filter}
use nostr_js.Core.Message.{CountResult}
use nostr_js.Relay.CountTracker.{
  pending, resolved, CountTracker, deliver, clear_timer, finish, settle, register, track,
  on_timeout, on_count,
}

tracked_entry :
    (id : Text) (filters : List Filter) (error : Text) (s : CountTracker)
    → Map.get (track id filters error none s).entries id ≡ some s.next
unfolding track register
tracked_entry id filters error s = ground (arith, Map.get-set s.entries id s.next id, eq_iff id id)

-- A reply to a request that was sent, and whose id is not used again before, resolves its promise.
pub on_count-track :
    (id : Text) (filters : List Filter) (error : Text) (result : CountResult) (s : CountTracker)
    → ((on_count id result (track id filters error none s)).waiters s.next).promise
      ≡ resolved result
unfolding on_count track register settle finish clear_timer deliver
on_count-track id filters error result s =
    rw (tracked_entry id filters error s, on_count) (ground arith)

module _ (id : Text) (filters others : List Filter) (error other : Text) (s : CountTracker) where
  -- both requests were sent, and the first has timed out
  abbrev pub reused : CountTracker
  reused = on_timeout s.next (track id others other none (track id filters error none s))

  no_entry : Map.get reused.entries id ≡ none
  unfolding track register on_timeout settle finish clear_timer
  no_entry = ground (
    arith,
    Map.get-delete (Map.set (Map.set s.entries id s.next) id (suc s.next)) id id,
    eq_iff id id,
  )

  -- Two COUNT requests of the same id, sent one after the other: when the first times out next, the
  -- entry of the second is deleted, so that its promise is pending and the relay's reply to it
  -- changes nothing.
  pub timeout_drops_reply :
      (result : CountResult)
      → ((reused.waiters (suc s.next)).promise ≡ pending) × (on_count id result reused ≡ reused)
  unfolding on_count track register on_timeout settle finish clear_timer deliver
  timeout_drops_reply result = (ground arith, rw (no_entry, on_count) refl)
