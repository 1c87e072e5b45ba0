-- ===== src/Relay/OkTracker.antt =====
-- src/relay/ok-tracker.ts: the waiters for OK replies, with the calls of src/relay/relay.ts.
-- A waiter is an object that timers and suspended calls hold too, so it stands in a heap: a `Ref` is
-- its place there. The timers that are armed and the calls of `authRetry` that await
-- `ensureAuthed` stand beside the tracker; any of them may go on next. Errors are their messages.
pub mod Sound
pub mod Steps
pub mod Settles
pub mod Drains
pub mod Replies
pub mod Displaced
pub mod Lost
use nostr_js.Base.{
  ◌≡◌, Bool, true, false, ◌&&◌, ◌||◌, not, Option, none, some, List, [], ◌∷◌, ◌++◌, ℕ, zero, suc,
  ◌+◌, nat_beq, if◌then◌else◌, filter, length, Text, text, text_eq, is_some,
}
use nostr_js.Runtime.Map
use nostr_js.Runtime.Map.{Map}
use nostr_js.Core.Event.{Event}

abbrev pub Ref : Type 0
Ref = ℕ

-- the handle of `setTimeout`: a number, and the waiter that its callback holds
abbrev pub Timer : Type 0
Timer = ℕ × Ref

-- a call of `authRetry` that awaits: its waiter and the message of the relay
abbrev pub Window : Type 0
Window = Ref × Text

pub record PublishResult : Type 0 where
  pub accepted : Bool
  pub message : Text

pub data Promise : Type 0 where
  pending : Promise
  resolved : PublishResult → Promise
  rejected : Text → Promise

pub record OkWaiter : Type 0 where
  pub id : Text
  pub timer : Option Timer
  pub event : Option Event
  pub auth_retried : Bool
  pub timeout_error : Text
  pub promise : Promise

pub record OkTracker : Type 0 where
  pub entries : Map Text Ref
  pub waiters : Ref → OkWaiter
  pub next : Ref
  pub timers : List Timer
  pub next_timer : ℕ
  pub windows : List Window

abbrev no_waiter : OkWaiter
no_waiter = record {
  id = [];
  timer = none;
  event = none;
  auth_retried = false;
  timeout_error = [];
  promise = pending;
}

abbrev pub new_tracker : OkTracker
new_tracker = record {
  entries = [];
  waiters = λ r. no_waiter;
  next = 0;
  timers = [];
  next_timer = 0;
  windows = [];
}

abbrev pub write : Ref → OkWaiter → OkTracker → OkTracker
write r w s = record s { waiters = λ q. if nat_beq r q then w else s.waiters q }

abbrev pub same_timer : Timer → Timer → Bool
same_timer t u = nat_beq t.0 u.0 && nat_beq t.1 u.1

-- whether the entry of an id is the waiter: `this.#entries.get(id) === waiter`
abbrev pub is_ref : Option Ref → Ref → Bool
is_ref none r = false
is_ref (some q) r = nat_beq q r

abbrev pub owns : OkTracker → Ref → Bool
owns s r = is_ref (Map.get s.entries (s.waiters r).id) r

-- The first call of a promise's functions settles it, the later ones do nothing.
unfoldable pub deliver : Promise → Promise → Promise
deliver outcome pending = outcome
deliver outcome (resolved result) = resolved result
deliver outcome (rejected error) = rejected error

unfoldable pub settle_promise : Ref → Promise → OkTracker → OkTracker
settle_promise r outcome s =
    let w = s.waiters r in write r (record w { promise = deliver outcome w.promise }) s

abbrev pub clear_timeout : Option Timer → List Timer → List Timer
clear_timeout none timers = timers
clear_timeout (some t) timers = filter (λ u. not (same_timer t u)) timers

-- `clearTimer`
unfoldable pub clear_timer : Ref → OkTracker → OkTracker
clear_timer r s =
    let w = s.waiters r in
    record (write r (record w { timer = none }) s) { timers = clear_timeout w.timer s.timers }

-- deletes the entry that the waiter still owns
unfoldable pub drop_entry : Ref → OkTracker → OkTracker
drop_entry r s = record s {
  entries = if owns s r then Map.delete s.entries (s.waiters r).id else s.entries;
}

-- `#finish`
unfoldable pub finish : Ref → OkTracker → OkTracker
unfolding clear_timer drop_entry
finish r s = drop_entry r (clear_timer r s)

-- `settle`, with the result or the error of the `reject` that follows a `#finish`
unfoldable pub settle : Ref → Promise → OkTracker → OkTracker
unfolding finish settle_promise clear_timer drop_entry
settle r outcome s = settle_promise r outcome (finish r s)

abbrev pub refusal : Text → Promise
refusal message = resolved (record { accepted = false; message = message })

-- what `send` does: nothing that shows here, or it throws
abbrev pub Sent : Type 0
Sent = Option Text

unfoldable pub catch_send : Ref → Sent → OkTracker → OkTracker
unfolding settle finish settle_promise clear_timer drop_entry
catch_send r none s = s
catch_send r (some error) s = settle r (rejected error) s

unfoldable pub register : Text → Option Event → Text → OkTracker → OkTracker
register id event timeout_error s =
    let timer : Timer = (s.next_timer, s.next) in
    let waiter : OkWaiter = record {
      id = id;
      timer = some timer;
      event = event;
      auth_retried = false;
      timeout_error = timeout_error;
      promise = pending;
    } in
    record (write s.next waiter s) {
      entries = Map.set s.entries id s.next;
      next = suc s.next;
      timers = timer ∷ s.timers;
      next_timer = suc s.next_timer;
    }

-- `track`: the waiter is at `s.next`
unfoldable pub track : Text → Option Event → Text → Sent → OkTracker → OkTracker
unfolding catch_send register settle finish settle_promise clear_timer drop_entry
track id event timeout_error sent s = catch_send s.next sent (register id event timeout_error s)

-- the callback of a timer, which is no longer armed
unfoldable pub on_timeout : Ref → OkTracker → OkTracker
unfolding settle_promise drop_entry
on_timeout r s =
    if owns s r then settle_promise r (rejected (s.waiters r).timeout_error) (drop_entry r s) else s

unfoldable pub arm : Ref → OkTracker → OkTracker
arm r s =
    let timer : Timer = (s.next_timer, r) in
    record (write r (record (s.waiters r) { timer = some timer }) s) {
      timers = timer ∷ s.timers;
      next_timer = suc s.next_timer;
    }

-- `restartTimer`
unfoldable pub restart_timer : Text → OkTracker → OkTracker
unfolding arm
restart_timer id s = elim (Map.get s.entries id) [ none ↦ s | some r ↦ arm r s ]

-- the part of `authRetry` before the `await`
unfoldable pub auth_retry : Ref → Text → OkTracker → OkTracker
unfolding settle finish settle_promise clear_timer drop_entry
auth_retry r message s = elim (s.waiters r).event [
  | none ↦ settle r (refusal message) (clear_timer r s)
  | some _ ↦
      let paused = clear_timer r s in
      record paused { windows = paused.windows ++ ((r, message) ∷ []) }
]

-- what the `await` gives: the answer of `ensureAuthed`, whether the socket is open then and what
-- sending does; or `ensureAuthed` rejects
pub data AuthAnswer : Type 0 where
  answered : Bool → Bool → Sent → AuthAnswer
  failed : AuthAnswer

-- the `catch` of `authRetry`
unfoldable pub catch_retry : Ref → Text → OkTracker → OkTracker
unfolding settle finish settle_promise clear_timer drop_entry
catch_retry r message s =
    if is_some (Map.get s.entries (s.waiters r).id) then settle r (refusal message) s else s

unfoldable pub resend : Ref → Text → Sent → OkTracker → OkTracker
unfolding catch_retry restart_timer settle finish settle_promise clear_timer drop_entry
resend r message none s = restart_timer (s.waiters r).id s
resend r message (some _) s = catch_retry r message (restart_timer (s.waiters r).id s)

-- the part of `authRetry` after the `await`
unfoldable pub resume : Ref → Text → AuthAnswer → OkTracker → OkTracker
unfolding resend catch_retry restart_timer settle finish settle_promise clear_timer drop_entry
resume r message failed s = catch_retry r message s
resume r message (answered authed is_open sent) s =
    if not (owns s r)
    then s
    else if not authed || not is_open
    then settle r (refusal message) s
    else resend r message sent s

-- `handleOk` with the policy of `Relay`, and what `Relay` does with a waiter that it keeps
unfoldable pub on_ok : Text → Bool → Text → (Text → Bool) → Bool → OkTracker → OkTracker
unfolding auth_retry settle finish settle_promise clear_timer drop_entry
on_ok id accepted message is_auth_required has_signer s = elim (Map.get s.entries id) [
  | none ↦ s
  | some r ↦
      let w = s.waiters r in
      if not accepted
        && is_auth_required message
        && is_some w.event
        && not w.auth_retried
        && has_signer
      then auth_retry r message (write r (record w { auth_retried = true }) s)
      else settle r (resolved (record { accepted = accepted; message = message })) s
]

-- `inFlight`: the promise that a joiner shares
unfoldable pub in_flight : Text → OkTracker → Option Ref
in_flight id s = elim (Map.get s.entries id) [
  | none ↦ none
  | some r ↦ if is_some (s.waiters r).event then some r else none
]

-- `Relay.publish` on an open socket: the promise, and the state
unfoldable pub publish : Event → Text → Sent → OkTracker → Ref × OkTracker
unfolding in_flight track catch_send register settle finish settle_promise clear_timer drop_entry
publish event timeout_error sent s = elim (in_flight event.id s) [
  | some r ↦ (r, s)
  | none ↦ (s.next, track event.id (some event) timeout_error sent s)
]

-- `rejectAll`
unfoldable pub reject_each : Text → List Ref → OkTracker → OkTracker
unfolding settle_promise clear_timer
reject_each error [] s = s
reject_each error (r ∷ refs) s =
    reject_each error refs (settle_promise r (rejected error) (clear_timer r s))

unfoldable pub reject_all : Text → OkTracker → OkTracker
unfolding reject_each settle_promise clear_timer
reject_all error s = record (reject_each error (Map.values s.entries) s) { entries = [] }

-- takes an item out of a list
unfoldable pub pick {ℓ} : {A : Type ℓ} → ℕ → List A → Option (A × List A)
pick n [] = none
pick zero (x ∷ xs) = some (x, xs)
pick (suc n) (x ∷ xs) = elim (pick n xs) [ none ↦ none | some (y, rest) ↦ some (y, x ∷ rest) ]

-- one of the armed timers goes off
unfoldable pub fire : ℕ → OkTracker → OkTracker
unfolding on_timeout settle_promise drop_entry pick
fire n s = elim (pick n s.timers) [
  | none ↦ s
  | some (t, rest) ↦ on_timeout t.1 (record s { timers = rest })
]

-- one of the calls that await goes on
unfoldable pub wake : ℕ → AuthAnswer → OkTracker → OkTracker
unfolding resume resend catch_retry restart_timer settle finish settle_promise clear_timer
    drop_entry pick
wake n answer s = elim (pick n s.windows) [
  | none ↦ s
  | some (w, rest) ↦ resume w.0 w.1 answer (record s { windows = rest })
]
