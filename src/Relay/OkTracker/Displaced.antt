-- ===== src/Relay/OkTracker/Displaced.antt =====
-- A waiter of src/relay/ok-tracker.ts that has lost its entry, and the changes that leave it so.
use nostr_js.Base.{
  ◌≡◌, ◌≢◌, false, not, ◌||◌, Option, none, some, arith, ℕ, ◌<◌, nat_beq, Text, text_eq, is_some,
  if_elim, Option-cases, inl, inr,
}
use nostr_js.Runtime.Map
use nostr_js.Runtime.Map.{Map}
use nostr_js.Core.Event.{Event}
use nostr_js.Relay.OkTracker.{
  Ref, Window, Sent, Promise, pending, rejected, OkTracker, owns, settle_promise, clear_timer,
  drop_entry, finish, settle, refusal, register, catch_send, track, arm, restart_timer, on_timeout,
  AuthAnswer, answered, failed, catch_retry, resend, resume, in_flight, publish, pick, fire, wake,
}
use nostr_js.Relay.OkTracker.Sound.{has_window}
use nostr_js.Relay.OkTracker.Steps.{any-pick}

-- A waiter that is pending, that no entry names and on whose behalf nothing awaits.
pub record IsLost (r : Ref) (s : OkTracker) : Type 0 where
  pub below : r < s.next
  pub hangs : (s.waiters r).promise ≡ pending
  pub gone : (id : Text) → Map.get s.entries id ≢ some r
  pub unique : Map.IsUnique s.entries
  pub alone : has_window s r ≡ false

module _ (r : Ref) where
  pub clear_timer-IsLost : (q : Ref) (s : OkTracker) → IsLost r s → IsLost r (clear_timer q s)
  unfolding clear_timer
  clear_timer-IsLost q s i = record {
    below = i.below;
    hangs = ground (arith, i.hangs);
    gone = i.gone;
    unique = i.unique;
    alone = i.alone;
  }

  pub close-IsLost :
      (q : Ref) (outcome : Promise) (s : OkTracker)
      → nat_beq q r ≡ false
      → IsLost r s
      → IsLost r (settle_promise q outcome (drop_entry q s))
  unfolding settle_promise drop_entry
  close-IsLost q outcome s h i = record {
    below = i.below;
    hangs = ground (arith, h, i.hangs);
    gone = λ id e. ground (
      arith,
      λ (g : Map.get s.entries id ≡ some r). i.gone id g,
      Map.get-delete s.entries (s.waiters q).id id,
    );
    unique =
        if_elim (Map.IsUnique {V = Ref}) (owns s q)
          (λ o. Map.delete-IsUnique s.entries (s.waiters q).id i.unique) (λ o. i.unique);
    alone = i.alone;
  }

  pub settle-IsLost :
      (q : Ref) (outcome : Promise) (s : OkTracker)
      → nat_beq q r ≡ false
      → IsLost r s
      → IsLost r (settle q outcome s)
  unfolding settle finish
  settle-IsLost q outcome s h i =
      close-IsLost q outcome (clear_timer q s) h (clear_timer-IsLost q s i)

  pub register-IsLost :
      (id : Text) (event : Option Event) (error : Text) (s : OkTracker)
      → IsLost r s
      → IsLost r (register id event error s)
  unfolding register
  register-IsLost id event error s i = record {
    below = omega (arith, i.below);
    hangs = ground (arith, i.below, i.hangs);
    gone = λ k e. ground (
      arith,
      i.below,
      λ (g : Map.get s.entries k ≡ some r). i.gone k g,
      Map.get-set s.entries id s.next k,
    );
    unique = Map.set-IsUnique s.entries id s.next i.unique;
    alone = i.alone;
  }

  pub track-IsLost :
      (id : Text) (event : Option Event) (error : Text) (sent : Sent) (s : OkTracker)
      → IsLost r s
      → IsLost r (track id event error sent s)
  unfolding track catch_send
  track-IsLost id event error none s i = register-IsLost id event error s i
  track-IsLost id event error (some e) s i =
      settle-IsLost s.next (rejected e) _ (ground (arith, i.below))
        (register-IsLost id event error s i)

  pub publish-IsLost :
      (event : Event) (error : Text) (sent : Sent) (s : OkTracker)
      → IsLost r s
      → IsLost r (publish event error sent s).1
  unfolding publish
  publish-IsLost event error sent s i = elim (Option-cases (in_flight event.id s)) [
    | inl e ↦ rw (e, publish) (track-IsLost event.id (some event) error sent s i)
    | inr (q, e) ↦ rw (e, publish) i
  ]

  pub arm-IsLost : (q : Ref) (s : OkTracker) → IsLost r s → IsLost r (arm q s)
  unfolding arm
  arm-IsLost q s i = record {
    below = i.below;
    hangs = ground (arith, i.hangs);
    gone = i.gone;
    unique = i.unique;
    alone = i.alone;
  }

  pub restart_timer-IsLost :
      (id : Text) (s : OkTracker) → IsLost r s → IsLost r (restart_timer id s)
  unfolding restart_timer
  restart_timer-IsLost id s i = elim (Option-cases (Map.get s.entries id)) [
    | inl e ↦ rw (e, restart_timer) i
    | inr (q, e) ↦ rw (e, restart_timer) (arm-IsLost q s i)
  ]

  pub catch_retry-IsLost :
      (q : Ref) (message : Text) (s : OkTracker)
      → nat_beq q r ≡ false
      → IsLost r s
      → IsLost r (catch_retry q message s)
  unfolding catch_retry
  catch_retry-IsLost q message s h i =
      if_elim (IsLost r) (is_some (Map.get s.entries (s.waiters q).id))
        (λ e. settle-IsLost q (refusal message) s h i) (λ e. i)

  pub resend-IsLost :
      (q : Ref) (message : Text) (sent : Sent) (s : OkTracker)
      → nat_beq q r ≡ false
      → IsLost r s
      → IsLost r (resend q message sent s)
  unfolding resend
  resend-IsLost q message none s h i = restart_timer-IsLost (s.waiters q).id s i
  resend-IsLost q message (some e) s h i =
      catch_retry-IsLost q message _ h (restart_timer-IsLost (s.waiters q).id s i)

  pub resume-IsLost :
      (q : Ref) (message : Text) (answer : AuthAnswer) (s : OkTracker)
      → nat_beq q r ≡ false
      → IsLost r s
      → IsLost r (resume q message answer s)
  unfolding resume
  resume-IsLost q message failed s h i = catch_retry-IsLost q message s h i
  resume-IsLost q message (answered authed is_open sent) s h i =
      if_elim (IsLost r) (not (owns s q)) (λ e. i)
        (λ e.
          if_elim (IsLost r) (not authed || not is_open)
            (λ k. settle-IsLost q (refusal message) s h i)
            (λ k. resend-IsLost q message sent s h i))

  pub wake-IsLost :
      (n : ℕ) (answer : AuthAnswer) (s : OkTracker) → IsLost r s → IsLost r (wake n answer s)
  unfolding wake
  wake-IsLost n answer s i = elim (Option-cases (pick n s.windows)) [
    | inl e ↦ rw (e, wake) i
    | inr ((w, rest), e) ↦
        let split = any-pick (λ (w : Window). nat_beq w.0 r) n s.windows w rest e in
        rw (e, wake)
          (resume-IsLost w.0 w.1 answer (record s { windows = rest })
            (ground (arith, i.alone, split))
            (record {
              below = i.below;
              hangs = i.hangs;
              gone = i.gone;
              unique = i.unique;
              alone = ground (arith, i.alone, split);
            }))
  ]

  pub fire-IsLost : (n : ℕ) (s : OkTracker) → IsLost r s → IsLost r (fire n s)
  unfolding fire on_timeout
  fire-IsLost n s i = elim (Option-cases (pick n s.timers)) [
    | inl e ↦ rw (e, fire) i
    | inr ((t, rest), e) ↦
        let u = record s { timers = rest } in
        let j : IsLost r u = record {
          below = i.below;
          hangs = i.hangs;
          gone = i.gone;
          unique = i.unique;
          alone = i.alone;
        } in
        rw (e, fire)
          (if_elim (IsLost r) (owns u t.1)
            (λ o. close-IsLost t.1 _ u (ground (arith, o, i.gone (s.waiters t.1).id)) j) (λ o. j))
  ]
