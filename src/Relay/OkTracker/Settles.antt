-- ===== src/Relay/OkTracker/Settles.antt =====
-- What may happen to a tracker of src/relay/ok-tracker.ts, in any order, keeps the invariant.
use nostr_js.Base.{
  ◌≡◌, refl, sym, ◌∙◌, ap, Bool, true, false, none, some, List, [], ◌∷◌, arith, ℕ, ◌<◌, nat_beq,
  any, Text, text_eq,
}
use nostr_js.Runtime.Map
use nostr_js.Runtime.Map.{Map}
use nostr_js.Core.Event.{Event}
use nostr_js.Relay.OkTracker.{
  Ref, Timer, Window, Sent, pending, rejected, OkTracker, settle_promise, clear_timer, deliver,
  new_tracker, track, AuthAnswer, on_ok, publish, reject_each, reject_all, fire, wake,
}
use nostr_js.Relay.OkTracker.Sound.{
  IsSound, IsLatest, still_owner, is_ref→some, new_tracker-IsSound,
}
use nostr_js.Relay.OkTracker.Steps.{
  track-IsSound, publish-IsSound, on_ok-IsSound, fire-IsSound, wake-IsSound,
}

abbrev IsRejectedOnce : Text → Ref → List Ref → OkTracker → Type 0
IsRejectedOnce error q refs s =
    ((reject_each error refs s).next ≡ s.next)
    × ((reject_each error refs s).windows ≡ s.windows)
    × (((reject_each error refs s).waiters q).promise ≡ pending
        → ((s.waiters q).promise ≡ pending) × (any (λ r. nat_beq r q) refs ≡ false))
    × ((t : Timer)
        → ((reject_each error refs s).waiters q).timer ≡ some t
        → (s.waiters q).timer ≡ some t)
    × (((reject_each error refs s).waiters q).id ≡ (s.waiters q).id)

reject_each_lem :
    (error : Text) (q : Ref) (refs : List Ref) (s : OkTracker) → IsRejectedOnce error q refs s
unfolding reject_each any settle_promise clear_timer deliver
reject_each_lem error q [] s = (refl, refl, λ p. (p, refl), λ t e. e, refl)
reject_each_lem error q (r ∷ refs) s =
    let after = settle_promise r (rejected error) (clear_timer r s) in
    let (n, w, p, t, id) = reject_each_lem error q refs after in
    (n, w, λ h. ground (arith, p h), λ u h. ground (arith, t u h), id ∙ ground arith)

held :
    (entries : Map Text Ref) (id : Text) (q : Ref)
    → Map.get entries id ≡ some q
    → any (λ r. nat_beq r q) (Map.values entries) ≡ true
unfolding any Map.get
held [] id q e = cc
held ((k, r) ∷ entries) id q e = ground (arith, held entries id q)

rejected_all_of :
    (error : Text) (s : OkTracker)
    → IsSound none s
    → (q : Ref) → q < (reject_all error s).next
    → ((reject_all error s).waiters q).promise ≡ pending
    → IsLatest (reject_all error s) q
    → true ≡ false
unfolding reject_all
rejected_all_of error s i q h p l =
    let (n, w, rest, t, id) = reject_each_lem error q (Map.values s.entries) s in
    let (before, absent) = rest p in
    let same = λ (r : Ref). (reject_each_lem error r (Map.values s.entries) s).4 in
    let mine = still_owner s (reject_all error s) i same n q (omega (arith, h, n)) l before in
    sym (held s.entries (s.waiters q).id q (is_ref→some _ q mine)) ∙ absent

reject_all-IsSound :
    (error : Text) (s : OkTracker) → IsSound none s → IsSound none (reject_all error s)
unfolding reject_all Map.get
reject_all-IsSound error s i = record {
  owner = λ q h p l. cc (rejected_all_of error s i q h p l);
  owned = λ id q e. cc (e);
  unique = tt;
  awaited = λ q e.
      let (n, w, p, t, id) = reject_each_lem error q (Map.values s.entries) s in
      omega (arith, n, i.awaited q (ap (any (λ (v : Window). nat_beq v.0 q)) (sym w) ∙ e));
  keeper = λ q t e. i.keeper q t ((reject_each_lem error q (Map.values s.entries) s).3 t e);
  awake = λ q h p o x. cc (o);
}

-- What may happen to the tracker of a relay. In `answering` the test of the message and the signer
-- are those of the policy.
pub data Action : Type 0 where
  publishing : Event → Text → Sent → Action
  authenticating : Text → Text → Sent → Action
  answering : Text → Bool → Text → (Text → Bool) → Bool → Action
  firing : ℕ → Action
  waking : ℕ → AuthAnswer → Action
  losing : Text → Action

unfoldable pub act : Action → OkTracker → OkTracker
act (publishing event error sent) s = (publish event error sent s).1
act (authenticating id error sent) s = track id none error sent s
act (answering id accepted message test signer) s = on_ok id accepted message test signer s
act (firing n) s = fire n s
act (waking n answer) s = wake n answer s
act (losing error) s = reject_all error s

-- the states after any sequence of actions
pub data Reachable : OkTracker → Type 0 where
  start : Reachable new_tracker
  next : {s : OkTracker} → Reachable s → (a : Action) → Reachable (act a s)

act-IsSound : (a : Action) (s : OkTracker) → IsSound none s → IsSound none (act a s)
unfolding act
act-IsSound (publishing event error sent) s i = publish-IsSound event error sent s i
act-IsSound (authenticating id error sent) s i = track-IsSound id none error sent s i
act-IsSound (answering id accepted message test signer) s i =
    on_ok-IsSound id accepted message test signer s i
act-IsSound (firing n) s i = fire-IsSound n s i
act-IsSound (waking n answer) s i = wake-IsSound n answer s i
act-IsSound (losing error) s i = reject_all-IsSound error s i

-- After any sequence of actions: a waiter whose promise is pending, and whose id no later waiter has, owns
-- the entry of its id; an entry is of a waiter of that id whose promise is pending; for a waiter that owns
-- its entry a timer is armed or an AUTH retry awaits; no id has two entries, a timer that a waiter holds
-- calls back that waiter, and what an AUTH retry awaits for is a registered waiter.
pub Reachable-IsSound : {s : OkTracker} → Reachable s → IsSound none s
Reachable-IsSound start = new_tracker-IsSound
Reachable-IsSound (next {s} r a) = act-IsSound a s (Reachable-IsSound r)
