-- ===== src/Relay/Subscription.antt =====
-- src/relay/subscription.ts: the state of one REQ, and the dispatch of an event to it in
-- src/relay/subscription-registry.ts. `calls` lists the calls of the handlers and of `onLocalClose`, the
-- last one first.
pub mod Watermark
use nostr_js.Base.{
  ◌≡◌, Bool, true, false, ◌&&◌, ◌||◌, not, Option, none, some, List, [], ◌∷◌, ℕ, map, if◌then◌else◌,
  Text, text, text_eq, ◌==◌,
}
use nostr_js.Base.Int.{ℤ, leb_ℤ, ltb_ℤ, max_ℤ, int_eq}
use nostr_js.Runtime.Set
use nostr_js.Runtime.Set.{Set}
use nostr_js.Core.Event.{Event}
use nostr_js.Core.Filter.{Filter, match_filters}

pub data Call : Type 0 where
  oneose : Call
  onclose : Text → Call
  onevent : Event → Call
  received : Text → Call
  local_close : Call

pub record Subscription : Type 0 where
  pub id : Text
  pub filters : List Filter
  pub close_on_eose : Bool
  pub closed : Bool
  pub eosed : Bool
  pub auth_retried : Bool
  pub eose_timer : Bool
  pub last_created_at : Option ℤ
  pub ids_at_watermark : Set Text
  pub calls : List Call

-- the constructor, with a signal that is not aborted
abbrev pub new_subscription : Text → List Filter → Bool → Bool → Subscription
new_subscription id filters close_on_eose has_timeout = record {
  id = id;
  filters = filters;
  close_on_eose = close_on_eose;
  closed = false;
  eosed = false;
  auth_retried = false;
  eose_timer = has_timeout;
  last_created_at = none;
  ids_at_watermark = [];
  calls = [];
}

abbrev call : Call → Subscription → Subscription
call c s = record s { calls = c ∷ s.calls }

-- `#teardown`
abbrev pub teardown : Subscription → Subscription
teardown s = record s { eose_timer = false }

unfoldable pub close : Text → Subscription → Subscription
close reason s =
    if s.closed
    then s
    else call (onclose reason) (call local_close (teardown (record s { closed = true })))

unfoldable pub end : Text → Subscription → Subscription
end reason s = if s.closed then s else call (onclose reason) (teardown (record s { closed = true }))

-- `markEose`
unfoldable pub mark_eose : Subscription → Subscription
unfolding close
mark_eose s =
    let marked = call oneose (record s { eosed = true; eose_timer = false }) in
    if s.closed || s.eosed
    then s
    else if s.close_on_eose
    then close (text "eose") marked
    else marked

abbrev pub rearm : Subscription → Subscription
rearm s = record s { eosed = false }

-- `beginAuthRetry`
abbrev pub begin_auth_retry : Subscription → Bool × Subscription
begin_auth_retry s = if s.auth_retried then (false, s) else (true, record s { auth_retried = true })

abbrev pub reset_auth_retry : Subscription → Subscription
reset_auth_retry s = record s { auth_retried = false }

-- `notifyReceived`
abbrev pub notify_received : Text → Subscription → Subscription
notify_received id s = call (received id) s

-- `isAtWatermark`
abbrev pub is_at_watermark : Text → Subscription → Bool
is_at_watermark id s = Set.has s.ids_at_watermark id

-- `Math.min(event.created_at, nowSeconds())`
abbrev pub clamp : Event → ℤ → ℤ
clamp event now = if leb_ℤ event.created_at now then event.created_at else now

abbrev pub is_later : ℤ → Option ℤ → Bool
is_later ts none = true
is_later ts (some last) = ltb_ℤ last ts

abbrev pub is_same : ℤ → Option ℤ → Bool
is_same ts none = false
is_same ts (some last) = ts == last

-- `noteVerified`, with the clock
unfoldable pub note_verified : Event → ℤ → Subscription → Subscription
unfolding Set.add
note_verified event now s =
    let ts = clamp event now in
    if is_later ts s.last_created_at
    then record s { last_created_at = some ts; ids_at_watermark = event.id ∷ [] }
    else if is_same ts s.last_created_at
    then record s { ids_at_watermark = Set.add s.ids_at_watermark event.id }
    else s

unfoldable pub deliver : Event → ℤ → Subscription → Subscription
unfolding note_verified Set.add
deliver event now s = call (onevent event) (note_verified event now s)

abbrev pub since_of : ℤ → Option ℤ → ℤ
since_of since none = since
since_of since (some own) = max_ℤ own since

abbrev pub replay : Option ℤ → List Filter → List Filter
replay none filters = filters
replay (some since) filters =
    map (λ (f : Filter). record f { since = some (since_of since f.since) }) filters

-- `replayFilters`
abbrev pub replay_filters : Subscription → List Filter
replay_filters s = replay s.last_created_at s.filters

-- `handleEvent` for a subscription with its own REQ: whether the user has the event, and whether the
-- verifier accepts it
unfoldable pub handle_event : Event → Bool → Bool → ℤ → Subscription → Subscription
unfolding deliver note_verified Set.has Set.add
handle_event event have accepted now s =
    let noted = notify_received event.id s in
    if s.closed
    then s
    else if is_at_watermark event.id s
        || have
        || not (match_filters s.filters event)
        || not accepted
    then noted
    else deliver event now noted
