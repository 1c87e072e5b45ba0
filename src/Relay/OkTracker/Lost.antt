-- ===== src/Relay/OkTracker/Lost.antt =====
-- What becomes of a waiter of src/relay/ok-tracker.ts whose id is tracked again. The calls of `auth` in
-- src/relay/auth.ts sign the same event when the challenges are A, B and A within a second.
use nostr_js.Base.{
  ◌≡◌, refl, ◌≢◌, Bool, true, false, not, ◌&&◌, none, some, List, [], ◌∷◌, ◌++◌, arith, suc,
  nat_beq, any, any-append, Text, text_eq, is_some, if_elim, Option-cases, inl, inr, eq_iff,
}
use nostr_js.Runtime.Map
use nostr_js.Runtime.Map.{Map}
use nostr_js.Relay.OkTracker.{
  Ref, Window, pending, resolved, rejected, OkTracker, write, settle_promise, clear_timer, refusal,
  register, catch_send, track, auth_retry, on_ok, reject_each, reject_all,
}
use nostr_js.Relay.OkTracker.Sound.{IsSound}
use nostr_js.Relay.OkTracker.Settles.{
  Action, publishing, authenticating, answering, firing, waking, losing, act, Reachable,
  Reachable-IsSound,
}
use nostr_js.Relay.OkTracker.Displaced.{
  IsLost, clear_timer-IsLost, settle-IsLost, track-IsLost, publish-IsLost, wake-IsLost, fire-IsLost,
}

module _ (r : Ref) where
  paused-IsLost :
      (q : Ref) (message : Text) (s : OkTracker)
      → nat_beq q r ≡ false
      → IsLost r s
      → IsLost r (record s { windows = s.windows ++ ((q, message) ∷ []) })
  unfolding any
  paused-IsLost q message s h i = record {
    below = i.below;
    hangs = i.hangs;
    gone = i.gone;
    unique = i.unique;
    alone = ground (
      arith,
      h,
      i.alone,
      any-append (λ (w : Window). nat_beq w.0 r) s.windows ((q, message) ∷ []),
    );
  }

  auth_retry-IsLost :
      (q : Ref) (message : Text) (s : OkTracker)
      → nat_beq q r ≡ false
      → IsLost r s
      → IsLost r (auth_retry q message s)
  unfolding auth_retry
  auth_retry-IsLost q message s h i = elim (Option-cases (s.waiters q).event) [
    | inl e ↦
        rw (e, auth_retry)
          (settle-IsLost r q (refusal message) (clear_timer q s) h (clear_timer-IsLost r q s i))
    | inr (event, e) ↦
        rw (e, auth_retry)
          (paused-IsLost q message (clear_timer q s) h (clear_timer-IsLost r q s i))
  ]

  mark-IsLost :
      (q : Ref) (s : OkTracker)
      → IsLost r s
      → IsLost r (write q (record (s.waiters q) { auth_retried = true }) s)
  mark-IsLost q s i = record {
    below = i.below;
    hangs = ground (arith, i.hangs);
    gone = i.gone;
    unique = i.unique;
    alone = i.alone;
  }

  on_ok-IsLost :
      (id : Text) (accepted : Bool) (message : Text) (test : Text → Bool) (signer : Bool)
      (s : OkTracker)
      → IsLost r s
      → IsLost r (on_ok id accepted message test signer s)
  unfolding on_ok
  on_ok-IsLost id accepted message test signer s i = elim (Option-cases (Map.get s.entries id)) [
    | inl e ↦ rw (e, on_ok) i
    | inr (q, e) ↦
        let h : nat_beq q r ≡ false = ground (arith, e, i.gone id) in
        rw (e, on_ok)
          (if_elim (IsLost r)
            (not accepted
              && test message
              && is_some (s.waiters q).event
              && not (s.waiters q).auth_retried
              && signer)
            (λ k. auth_retry-IsLost q message _ h (mark-IsLost q s i))
            (λ k.
              settle-IsLost r q (resolved (record { accepted = accepted; message = message })) s h
                i))
  ]

  one_rejected-IsLost :
      (error : Text) (q : Ref) (s : OkTracker)
      → nat_beq q r ≡ false
      → IsLost r s
      → IsLost r (settle_promise q (rejected error) (clear_timer q s))
  unfolding settle_promise clear_timer
  one_rejected-IsLost error q s h i = record {
    below = i.below;
    hangs = ground (arith, h, i.hangs);
    gone = i.gone;
    unique = i.unique;
    alone = i.alone;
  }

  reject_each-IsLost :
      (error : Text) (refs : List Ref) (s : OkTracker)
      → any (λ q. nat_beq q r) refs ≡ false
      → IsLost r s
      → IsLost r (reject_each error refs s)
  unfolding reject_each any
  reject_each-IsLost error [] s h i = i
  reject_each-IsLost error (q ∷ refs) s h i =
      reject_each-IsLost error refs _ (ground (arith, h))
        (one_rejected-IsLost error q s (ground (arith, h)) i)

  none_held :
      (entries : Map Text Ref)
      → Map.IsUnique entries
      → ((id : Text) → Map.get entries id ≢ some r)
      → any (λ q. nat_beq q r) (Map.values entries) ≡ false
  unfolding any Map.get
  none_held [] u h = refl
  none_held ((k, q) ∷ entries) u h = ground (
    arith,
    h k,
    eq_iff k k,
    none_held entries u.1 (λ id e. h id (ground (arith, e, u.0, eq_iff k id))),
  )

  reject_all-IsLost : (error : Text) (s : OkTracker) → IsLost r s → IsLost r (reject_all error s)
  unfolding reject_all Map.get
  reject_all-IsLost error s i =
      let j =
        reject_each-IsLost error (Map.values s.entries) s (none_held s.entries i.unique i.gone) i in
      record {
        below = j.below;
        hangs = j.hangs;
        gone = λ id e. cc (e);
        unique = tt;
        alone = j.alone;
      }

  act-IsLost : (a : Action) (s : OkTracker) → IsLost r s → IsLost r (act a s)
  unfolding act
  act-IsLost (publishing event error sent) s i = publish-IsLost r event error sent s i
  act-IsLost (authenticating id error sent) s i = track-IsLost r id none error sent s i
  act-IsLost (answering id accepted message test signer) s i =
      on_ok-IsLost id accepted message test signer s i
  act-IsLost (firing n) s i = fire-IsLost r n s i
  act-IsLost (waking n answer) s i = wake-IsLost r n answer s i
  act-IsLost (losing error) s i = reject_all-IsLost error s i

-- the state after a list of actions
unfoldable pub run : List Action → OkTracker → OkTracker
unfolding act
run [] s = s
run (a ∷ actions) s = run actions (act a s)

run-IsLost :
    (r : Ref) (actions : List Action) (s : OkTracker) → IsLost r s → IsLost r (run actions s)
unfolding run
run-IsLost r [] s i = i
run-IsLost r (a ∷ actions) s i = run-IsLost r actions (act a s) (act-IsLost r a s i)

-- two AUTH events of one id
abbrev pub retracked : Text → Text → Text → OkTracker → OkTracker
retracked id first_error second_error s =
    track id none second_error none (track id none first_error none s)

retracked-IsLost :
    (id first_error second_error : Text) (s : OkTracker)
    → IsSound none s
    → IsLost s.next (retracked id first_error second_error s)
unfolding track catch_send register any
retracked-IsLost id first_error second_error s i = record {
  below = omega arith;
  hangs = ground arith;
  gone = λ k e. ground (
    arith,
    e,
    i.owned k s.next,
    Map.get-set s.entries id s.next k,
    Map.get-set (Map.set s.entries id s.next) id (suc s.next) k,
  );
  unique =
      Map.set-IsUnique (Map.set s.entries id s.next) id (suc s.next)
        (Map.set-IsUnique s.entries id s.next i.unique);
  alone = ground (arith, i.awaited s.next);
}

-- In every reachable state: if an AUTH event of an id is tracked and then at once another one of the same
-- id, the promise of the first stays pending whatever happens next: replies, timeouts, answers to AUTH
-- retries, further events, or the loss of the connection.
pub retracked-hangs :
    {s : OkTracker} (reached : Reachable s) (id first_error second_error : Text)
    (actions : List Action)
    → ((run actions (retracked id first_error second_error s)).waiters s.next).promise ≡ pending
retracked-hangs {s} reached id first_error second_error actions =
    (run-IsLost s.next actions _
      (retracked-IsLost id first_error second_error s (Reachable-IsSound reached))).hangs
