-- ===== src/Tests/Relay.antt =====
-- Events, trackers and fan-ins at which the theorems on a relay connection are applied.
use nostr_js.Base.{
  ◌≡◌, refl, ◌≢◌, true, false, none, List, [], ◌∷◌, arith, ◌≤◌, length, if◌then◌else◌, Text, text,
  text_beq, text_eq, ◌==◌,
}
use nostr_js.Base.Int.{pos}
use nostr_js.Runtime.Map
use nostr_js.Core.Event.{Event}
use nostr_js.Relay.OkTracker.{
  pending, resolved, OkTracker, new_tracker, deliver, answered, on_ok, publish,
}
use nostr_js.Relay.OkTracker.Sound.{IsSound, IsLatest}
use nostr_js.Relay.OkTracker.Settles.{
  act, publishing, answering, firing, losing, Reachable, start, next, Reachable-IsSound,
}
use nostr_js.Relay.OkTracker.Drains.{drain, drain-Settled}
use nostr_js.Relay.OkTracker.Replies.{on_ok_lem}
use nostr_js.Relay.OkTracker.Lost.{run, retracked, retracked-hangs}
use nostr_js.Core.Message.{CountResult}
use nostr_js.Relay.CountTracker
use nostr_js.Relay.CountTracker.Reuse.{timeout_drops_reply}
use nostr_js.Runtime.Set
use nostr_js.Relay.FanIn.{
  Url, eose_key, connecting, attached, FanIn, subscribed, unreachable, connect, settle_eose, fan_in,
  close_all,
}
use nostr_js.Relay.FanIn.Reports.{times, is_oneose, is_onclose, is_closed_log}
use nostr_js.Relay.FanIn.Reach
use nostr_js.Relay.FanIn.Reach.{close_step}
use nostr_js.Relay.FanIn.Ends.{calls_in_order}
use nostr_js.Relay.FanIn.Drain.{give_up_all, give_up_all-closed}

abbrev event : Event
event = record {
  id = text "e1";
  pubkey = text "aa";
  created_at = pos 5;
  kind = 1;
  tags = [];
  content = text "hello";
  sig = text "ff";
}

abbrev published : OkTracker
published = act (publishing event (text "publish timed out") none) new_tracker

published-Reachable : Reachable published
unfolding Map.get
published-Reachable = next start (publishing event (text "publish timed out") none)

-- the relay has asked for AUTH, and the retry awaits
abbrev retried : OkTracker
retried = act (answering event.id false (text "auth-required: x") (λ t. true) true) published

retried-Reachable : Reachable retried
retried-Reachable =
    next published-Reachable (answering event.id false (text "auth-required: x") (λ t. true) true)

Reachable-IsSound_example : IsSound none published
Reachable-IsSound_example = Reachable-IsSound published-Reachable

only_waiter : IsLatest retried 0
unfolding act on_ok Map.get publish Map.set Map.delete text_beq deliver
only_waiter p k b e = absurd (omega (arith, k, b))

drain-Settled_example : ((drain (answered true true none ∷ []) retried).waiters 0).promise ≢ pending
unfolding act on_ok Map.get publish Map.set Map.delete text_beq deliver
drain-Settled_example =
    drain-Settled retried-Reachable (answered true true none ∷ []) 0 (omega arith) (omega arith)
      only_waiter

retracked-hangs_example :
    ((run
        (answering (text "a1") true (text "") (λ t. false) true
          ∷ firing 0
          ∷ losing (text "connection closed")
          ∷ [])
        (retracked (text "a1") (text "auth timed out") (text "auth timed out") new_tracker)).waiters
      0).promise
    ≡ pending
retracked-hangs_example =
    retracked-hangs start (text "a1") (text "auth timed out") (text "auth timed out") (
      answering (text "a1") true (text "") (λ t. false) true
      ∷ firing 0
      ∷ losing (text "connection closed")
      ∷ [])

on_ok_lem_example :
    (((on_ok (text "e1") true (text "saved") (λ t. false) true published).waiters 0).promise
      ≡ resolved (record { accepted = true; message = text "saved" }))
    × ((k : Text)
        → Map.get (on_ok (text "e1") true (text "saved") (λ t. false) true published).entries k
          ≡ (if text "e1" == k then none else Map.get published.entries k))
unfolding act on_ok Map.get publish Map.set Map.delete text_beq deliver
on_ok_lem_example =
    on_ok_lem published-Reachable event.id 0 true (text "saved") (λ t. false) true refl refl

abbrev jobs : List (List Text)
jobs = (text "wss://a/" ∷ text "wss://b/" ∷ []) ∷ (text "wss://a/" ∷ []) ∷ []

abbrev started : FanIn
started = fan_in (λ t. t) jobs false

abbrev given_up : FanIn
given_up = close_all none started

calls_in_order_example :
    (times is_oneose given_up.calls ≤ 1)
    × (given_up.closed ≡ false → times is_onclose given_up.calls ≡ 0)
    × (given_up.closed ≡ true → is_closed_log given_up.calls ≡ true)
calls_in_order_example =
    calls_in_order (λ t. t) jobs false (Reach.next Reach.start (close_step none))

-- one of two attempts has its relay, which sends its EOSE, and the other fails
abbrev pair : FanIn
pair = fan_in (λ t. t) ((text "wss://a/" ∷ text "wss://b/" ∷ []) ∷ []) false

abbrev answer_b : Url
answer_b = record { job = 0; key = text "wss://b/"; phase = connecting }

abbrev answer_a : Url
answer_a = record { job = 0; key = text "wss://a/"; phase = connecting }

abbrev attached_b : Url
attached_b = record { job = 0; key = text "wss://b/"; phase = attached }

abbrev opened : FanIn
opened = connect 0 answer_b subscribed pair

abbrev eosed : FanIn
eosed = settle_eose (eose_key attached_b) true opened

abbrev finished : FanIn
finished = connect 1 answer_a unreachable eosed

finished_calls : times is_oneose finished.calls ≡ 1
unfolding fan_in text_beq connect settle_eose Set.has Set.add
finished_calls = refl

give_up_all-closed_example :
    ((give_up_all (text "x") (length started.urls) started).closed ≡ true)
    × (times is_onclose (give_up_all (text "x") (length started.urls) started).calls ≡ 1)
unfolding fan_in text_beq
give_up_all-closed_example = give_up_all-closed (λ t. t) jobs false Reach.start (text "x") (λ e. cc)

abbrev seven : CountResult
seven = record { total = 7; approximate = none; hll = none }

timeout_drops_reply_example :
    ((CountTracker.Reuse.reused
          (text "x")
          []
          []
          (text "timeout")
          (text "timeout")
          CountTracker.new_tracker).waiters
        1).promise
      ≡ CountTracker.pending
    × (CountTracker.on_count (text "x") seven (
          CountTracker.Reuse.reused
            (text "x")
            []
            []
            (text "timeout")
            (text "timeout")
            CountTracker.new_tracker)
        ≡ CountTracker.Reuse.reused
            (text "x")
            []
            []
            (text "timeout")
            (text "timeout")
            CountTracker.new_tracker)
timeout_drops_reply_example =
    timeout_drops_reply (text "x") [] [] (text "timeout") (text "timeout") CountTracker.new_tracker
      seven
