-- ===== src/Relay/CountTracker.antt =====
-- src/relay/count-tracker.ts: the waiters for COUNT replies, with the COUNT branch of
-- src/relay/relay.ts. The state has the parts of that of OkTracker. An abort of the caller's signal is
-- a call of `settle` with its reason.
pub mod Reuse
use nostr_js.Base.{
  ◌≡◌, Bool, true, false, ◌&&◌, ◌||◌, not, Option, none, some, List, [], ◌∷◌, ◌++◌, ℕ, suc, nat_beq,
  if◌then◌else◌, Text, text_eq, is_some,
}
use nostr_js.Runtime.Map
use nostr_js.Runtime.Map.{Map}
use nostr_js.Core.Filter.{Filter}
use nostr_js.Core.Message.{CountResult}
use nostr_js.Relay.OkTracker.{Ref, Timer, Sent, is_ref, clear_timeout}

pub data Promise : Type 0 where
  pending : Promise
  resolved : CountResult → Promise
  rejected : Text → Promise

pub record CountWaiter : Type 0 where
  pub id : Text
  pub timer : Option Timer
  pub filters : List Filter
  pub auth_retried : Bool
  pub timeout_error : Text
  pub promise : Promise

pub record CountTracker : Type 0 where
  pub entries : Map Text Ref
  pub waiters : Ref → CountWaiter
  pub next : Ref
  pub timers : List Timer
  pub next_timer : ℕ
  pub windows : List Ref

abbrev no_waiter : CountWaiter
no_waiter = record {
  id = [];
  timer = none;
  filters = [];
  auth_retried = false;
  timeout_error = [];
  promise = pending;
}

abbrev pub new_tracker : CountTracker
new_tracker = record {
  entries = [];
  waiters = λ r. no_waiter;
  next = 0;
  timers = [];
  next_timer = 0;
  windows = [];
}

abbrev pub write : Ref → CountWaiter → CountTracker → CountTracker
write r w s = record s { waiters = λ q. if nat_beq r q then w else s.waiters q }

unfoldable pub deliver : Promise → Promise → Promise
deliver outcome pending = outcome
deliver outcome (resolved result) = resolved result
deliver outcome (rejected error) = rejected error

-- `clearTimer`
unfoldable pub clear_timer : Ref → CountTracker → CountTracker
clear_timer r s =
    let w = s.waiters r in
    record (write r (record w { timer = none }) s) { timers = clear_timeout w.timer s.timers }

-- `#finish`
unfoldable pub finish : Ref → CountTracker → CountTracker
unfolding clear_timer
finish r s = let t = clear_timer r s in record t { entries = Map.delete t.entries (t.waiters r).id }

-- the functions `resolve` and `reject` of a waiter
unfoldable pub settle : Ref → Promise → CountTracker → CountTracker
unfolding finish clear_timer deliver
settle r outcome s =
    let t = finish r s in
    let w = t.waiters r in write r (record w { promise = deliver outcome w.promise }) t

unfoldable pub register : Text → List Filter → Text → CountTracker → CountTracker
register id filters timeout_error s =
    let timer : Timer = (s.next_timer, s.next) in
    let waiter : CountWaiter = record {
      id = id;
      timer = some timer;
      filters = filters;
      auth_retried = false;
      timeout_error = timeout_error;
      promise = pending;
    } in
    record (write s.next waiter s) {
      entries = Map.set s.entries id s.next;
      next = suc s.next;
      timers = timer ∷ s.timers;
      next_timer = suc s.next_timer;
    }

-- `track`: the waiter is at `s.next`
unfoldable pub track : Text → List Filter → Text → Sent → CountTracker → CountTracker
unfolding register settle finish clear_timer deliver
track id filters timeout_error none s = register id filters timeout_error s
track id filters timeout_error (some error) s =
    settle s.next (rejected error) (register id filters timeout_error s)

-- the callback of a timer
unfoldable pub on_timeout : Ref → CountTracker → CountTracker
unfolding settle finish clear_timer deliver
on_timeout r s = settle r (rejected (s.waiters r).timeout_error) s

-- `restartTimer`
unfoldable pub restart_timer : Text → CountTracker → CountTracker
restart_timer id s = elim (Map.get s.entries id) [
  | none ↦ s
  | some r ↦
      let timer : Timer = (s.next_timer, r) in
      record (write r (record (s.waiters r) { timer = some timer }) s) {
        timers = timer ∷ s.timers;
        next_timer = suc s.next_timer;
      }
]

-- the part of `authRetry` before the `await`
unfoldable pub auth_retry : Ref → CountTracker → CountTracker
unfolding clear_timer
auth_retry r s = let t = clear_timer r s in record t { windows = t.windows ++ (r ∷ []) }

-- the `catch` of `authRetry`
unfoldable pub catch_retry : Ref → Text → CountTracker → CountTracker
unfolding settle finish clear_timer deliver
catch_retry r error s =
    if is_some (Map.get s.entries (s.waiters r).id) then settle r (rejected error) s else s

-- what the `await` gives: the answer of `ensureAuthed`, whether the socket is open then and what
-- sending does; or the error with which `ensureAuthed` rejects
pub data RetryAnswer : Type 0 where
  answered : Bool → Bool → Sent → RetryAnswer
  failed : Text → RetryAnswer

-- the part of `authRetry` after the `await`; `error` is that of `failError`
unfoldable pub resume : Ref → Text → RetryAnswer → CountTracker → CountTracker
unfolding catch_retry restart_timer settle finish clear_timer deliver
resume r error (failed thrown) s = catch_retry r thrown s
resume r error (answered authed is_open none) s =
    if not (is_ref (Map.get s.entries (s.waiters r).id) r)
    then s
    else if not authed || not is_open
    then settle r (rejected error) s
    else restart_timer (s.waiters r).id s
resume r error (answered authed is_open (some thrown)) s =
    if not (is_ref (Map.get s.entries (s.waiters r).id) r)
    then s
    else if not authed || not is_open
    then settle r (rejected error) s
    else catch_retry r thrown (restart_timer (s.waiters r).id s)

unfoldable pub reject_each : Text → List Ref → CountTracker → CountTracker
unfolding settle finish clear_timer deliver
reject_each error [] s = s
reject_each error (r ∷ refs) s =
    reject_each error refs (settle r (rejected error) (clear_timer r s))

-- `rejectAll`
unfoldable pub reject_all : Text → CountTracker → CountTracker
unfolding reject_each settle finish clear_timer deliver
reject_all error s = record (reject_each error (Map.values s.entries) s) { entries = [] }

-- a COUNT message of the relay
unfoldable pub on_count : Text → CountResult → CountTracker → CountTracker
unfolding settle finish clear_timer deliver
on_count id result s = elim (Map.get s.entries id) [
  | none ↦ s
  | some r ↦ settle r (resolved result) s
]
