-- ===== src/Relay/FanIn.antt =====
-- src/relay/fan-in.ts: one subscription over the relays of many jobs.
-- An attempt of the loop is a `Url`: a job, a relay key and a phase. The pool and the relays are what
-- may happen next: a connection succeeds or fails, a subscription gets an event, an EOSE or its end.
-- A relay that the pool gives for a key has that key as its url. `calls` lists the calls of the
-- user's callbacks, the last one first; a callback does not call back into the fan-in, and a
-- `subscribe` that throws leaves no subscription that calls back.
pub mod Sound
pub mod Steps
pub mod Reports
pub mod Closing
pub mod Reach
pub mod Heard
pub mod HeardSteps
pub mod Apart
pub mod Ends
pub mod Drain
use nostr_js.Base.{
  ◌≡◌, Bool, true, false, ◌&&◌, ◌||◌, not, Option, none, some, List, [], ◌∷◌, ◌++◌, ℕ, zero, suc,
  ◌+◌, ◌-◌, arith, nat_beq, leb, if◌then◌else◌, length, get_elem?, Text, text, text_eq, nat_eq, Eq,
  ◌==◌, ◌↔◌, eq_iff,
}
use nostr_js.Base.Maybe.{or_else}
use nostr_js.Runtime.Set
use nostr_js.Runtime.Set.{Set}
use nostr_js.Core.Event.{Event}

-- the string `${jobIndex}:${url}`
abbrev pub Key : Type 0
Key = ℕ × Text

abbrev pub same_key : Key → Key → Bool
same_key j k = j.0 == k.0 && j.1 == k.1

pub same_key_iff : (j k : Key) → (same_key j k ≡ true) ↔ (j ≡ k)
same_key_iff (a, s) (b, t) = ground (arith, eq_iff a b, eq_iff s t)

instance abbrev pub key_eq : Eq Key
key_eq = record { same = same_key; same_is_equal = same_key_iff }

-- `ensureRelay` is pending, the subscription is open, or neither
pub data Phase : Type 0 where
  connecting attached ended : Phase

abbrev pub is_attached : Phase → Bool
is_attached attached = true
is_attached _ = false

pub record Url : Type 0 where
  pub job : ℕ
  pub key : Text
  pub phase : Phase

abbrev pub eose_key : Url → Key
eose_key u = (u.job, u.key)

pub data Call : Type 0 where
  oneose : Call
  onclose : Text → Call
  onevent : Event → Text → Call
  received : Text → Text → Call

pub record FanIn : Type 0 where
  pub urls : List Url
  pub closers : List ℕ
  pub seen : Set Text
  pub closed : Bool
  pub eose_fired : Bool
  pub saw_eose : Bool
  pub eose_timer : Bool
  pub eose_done : Set Key
  pub eose_attempted : Set Key
  pub pending_eose : ℕ
  pub pending : ℕ
  pub last_reason : Option Text
  pub calls : List Call

abbrev pub new_fan_in : FanIn
new_fan_in = record {
  urls = [];
  closers = [];
  seen = [];
  closed = false;
  eose_fired = false;
  saw_eose = false;
  eose_timer = false;
  eose_done = [];
  eose_attempted = [];
  pending_eose = 0;
  pending = 0;
  last_reason = none;
  calls = [];
}

-- one round of the loop over the urls of a job, as far as it runs at once
unfoldable pub attempt : ℕ → Text → FanIn → FanIn
attempt job key s =
    let again = Set.has s.eose_attempted (job, key) in
    record s {
      urls = record { job = job; key = key; phase = connecting } ∷ s.urls;
      pending = suc s.pending;
      eose_attempted = Set.add s.eose_attempted (job, key);
      pending_eose = if again then s.pending_eose else suc s.pending_eose;
    }

unfoldable pub attempt_urls : ℕ → List Text → FanIn → FanIn
unfolding attempt
attempt_urls job [] s = s
attempt_urls job (key ∷ keys) s = attempt_urls job keys (attempt job key s)

-- `relayUrlKey` is a parameter: a normalized url, or the string itself
unfoldable pub unique_urls : (Text → Text) → Set Text → List Text → List Text
unfolding Set.has
unique_urls relay_url_key seen [] = []
unique_urls relay_url_key seen (url ∷ urls) =
    let key = relay_url_key url in
    let fresh = key ∷ unique_urls relay_url_key (key ∷ seen) urls in
    let known = unique_urls relay_url_key seen urls in
    elim (Set.has seen key) [ true ↦ known | false ↦ fresh ]

-- `uniqueRelayUrls`
abbrev pub unique_relay_urls : (Text → Text) → List Text → List Text
unique_relay_urls relay_url_key urls = unique_urls relay_url_key [] urls

unfoldable pub attempt_jobs : (Text → Text) → ℕ → List (List Text) → FanIn → FanIn
unfolding attempt_urls attempt unique_urls Set.has
attempt_jobs relay_url_key index [] s = s
attempt_jobs relay_url_key index (urls ∷ jobs) s =
    attempt_jobs relay_url_key (suc index) jobs
      (attempt_urls index (unique_relay_urls relay_url_key urls) s)

-- the call of `fanIn`, with a signal that is not aborted
unfoldable pub fan_in : (Text → Text) → List (List Text) → Bool → FanIn
unfolding attempt_jobs attempt_urls attempt unique_urls Set.has
fan_in relay_url_key jobs has_timeout =
    let s = attempt_jobs relay_url_key 0 jobs new_fan_in in
    record s { eose_timer = has_timeout && not (nat_beq s.pending 0) }

abbrev pub call : Call → FanIn → FanIn
call c s = record s { calls = c ∷ s.calls }

-- `fireEose`
unfoldable pub fire_eose : FanIn → FanIn
fire_eose s =
    if s.closed || s.eose_fired
    then s
    else call oneose (record s { eose_fired = true; eose_timer = false })

-- `settleEose`
unfoldable pub settle_eose : Key → Bool → FanIn → FanIn
unfolding fire_eose Set.has
settle_eose key eosed s =
    let u : FanIn = record s {
      eose_done = Set.add s.eose_done key;
      saw_eose = s.saw_eose || eosed;
      pending_eose = s.pending_eose - 1;
    } in
    if Set.has s.eose_done key
    then s
    else if nat_beq u.pending_eose 0 && u.saw_eose
    then fire_eose u
    else u

-- `settleClose`
abbrev pub settle_close : FanIn → FanIn
settle_close s = record s { closed = true; eose_timer = false }

-- `finish`
unfoldable pub finish : FanIn → FanIn
finish s =
    if leb s.pending 0 && not s.closed
    then call (onclose (or_else s.last_reason (text "all relays failed"))) (settle_close s)
    else s

abbrev pub less_pending : FanIn → FanIn
less_pending s = record s { pending = s.pending - 1 }

-- `failUrl`
unfoldable pub fail_url : Key → FanIn → FanIn
unfolding settle_eose finish fire_eose Set.has
fail_url key s = finish (less_pending (settle_eose key false s))

abbrev pub set_phase : ℕ → Phase → List Url → List Url
set_phase n phase [] = []
set_phase zero phase (u ∷ urls) = record u { phase = phase } ∷ urls
set_phase (suc n) phase (u ∷ urls) = u ∷ set_phase n phase urls

abbrev pub move : ℕ → Phase → FanIn → FanIn
move n phase s = record s { urls = set_phase n phase s.urls }

-- What `ensureRelay` leads to: a relay, given or known, that `subscribe` accepts; one at which it
-- throws; no relay.
pub data Connection : Type 0 where
  subscribed throws unreachable : Connection

-- `tryAttach` or `failUrl`, when the call of `ensureRelay` for an attempt is over
unfoldable pub connect : ℕ → Url → Connection → FanIn → FanIn
unfolding fail_url settle_eose finish fire_eose Set.has
connect n u unreachable s = fail_url (eose_key u) (move n ended s)
connect n u throws s = if s.closed then move n ended s else fail_url (eose_key u) (move n ended s)
connect n u subscribed s =
    if s.closed
    then move n ended s
    else record (move n attached s) { closers = s.closers ++ (n ∷ []) }

-- the callback `onclose` of a subscription
unfoldable pub on_close : Key → Text → FanIn → FanIn
unfolding settle_eose finish fire_eose Set.has
on_close key reason s =
    let u = settle_eose key false s in
    finish (less_pending (record u { last_reason = some reason }))

-- the end of a subscription, by the relay or by its `close`, which does nothing the second time
unfoldable pub end_sub : ℕ → Option Url → Text → FanIn → FanIn
unfolding on_close settle_eose finish fire_eose Set.has
end_sub n none reason s = s
end_sub n (some u) reason s =
    if is_attached u.phase then on_close (eose_key u) reason (move n ended s) else s

unfoldable pub close_each : List ℕ → Text → FanIn → FanIn
unfolding end_sub on_close settle_eose finish fire_eose Set.has
close_each [] reason s = s
close_each (n ∷ ns) reason s = close_each ns reason (end_sub n (get_elem? s.urls n) reason s)

-- `closeAll`; a subscription has the same default reason
unfoldable pub close_all : Option Text → FanIn → FanIn
unfolding close_each end_sub on_close settle_eose finish fire_eose Set.has
close_all reason s =
    let why = or_else reason (text "closed by client") in
    if s.closed then s else call (onclose why) (close_each s.closers why (settle_close s))

-- an EVENT at a subscription: whether the user has it, and whether it fits the filters and is valid
unfoldable pub on_event : Url → Event → Bool → Bool → FanIn → FanIn
unfolding Set.has Set.add
on_event u event have valid s =
    let noted = call (received event.id u.key) s in
    if Set.has s.seen event.id || have || not valid
    then noted
    else call (onevent event u.key) (record noted { seen = Set.add s.seen event.id })

-- the callback of the EOSE timer
unfoldable pub on_eose_timer : FanIn → FanIn
unfolding fire_eose
on_eose_timer s = fire_eose (record s { eose_timer = false })

-- the microtask where there is no url
unfoldable pub no_relays : FanIn → FanIn
no_relays s = if s.closed then s else call (onclose (text "no relays")) (settle_close s)
