-- ===== src/Relay/OkTracker/Steps.antt =====
-- The operations of src/relay/ok-tracker.ts keep the invariant.
use nostr_js.Base.{
  ◌≡◌, refl, Bool, true, ◌&&◌, ◌||◌, not, Option, none, some, List, [], ◌∷◌, ◌++◌, arith, ℕ, zero,
  suc, nat_beq, any, any-append, ◌<◌, Text, text_eq, is_some, Bool-cases, Option-cases, inl, inr,
  if_elim,
}
use nostr_js.Runtime.Map
use nostr_js.Core.Event.{Event}
use nostr_js.Relay.OkTracker.{
  Ref, Sent, resolved, rejected, OkTracker, refusal, owns, write, clear_timer, arm, catch_send,
  track, on_timeout, auth_retry, AuthAnswer, answered, failed, catch_retry, resend, resume, on_ok,
  in_flight, publish, pick, fire, wake,
}
use nostr_js.Relay.OkTracker.Sound.{
  IsSound, still_owner, weaken, disowned, clear_timer-IsSound, close-IsSound, settle-IsSound,
  register-IsSound, arm-IsSound, restart-arm,
}

pub track-IsSound :
    (id : Text) (event : Option Event) (error : Text) (sent : Sent) (s : OkTracker)
    → IsSound none s
    → IsSound none (track id event error sent s)
unfolding track catch_send
track-IsSound id event error none s i = register-IsSound id event error s i
track-IsSound id event error (some e) s i =
    settle-IsSound s.next (rejected e) _ (λ h. cc)
      (weaken s.next (register-IsSound id event error s i))

pub publish-IsSound :
    (event : Event) (error : Text) (sent : Sent) (s : OkTracker)
    → IsSound none s
    → IsSound none (publish event error sent s).1
unfolding publish
publish-IsSound event error sent s i = elim (Option-cases (in_flight event.id s)) [
  | inl e ↦ rw (e, publish) (track-IsSound event.id (some event) error sent s i)
  | inr (r, e) ↦ rw (e, publish) i
]

pub catch_retry-IsSound :
    (r : Ref) (message : Text) (s : OkTracker)
    → IsSound (some r) s
    → IsSound none (catch_retry r message s)
unfolding catch_retry
catch_retry-IsSound r message s i =
    if_elim (IsSound none) (is_some (Map.get s.entries (s.waiters r).id))
      (λ e. settle-IsSound r (refusal message) s (λ h. cc) i) (λ e. disowned r s i (ground arith))

resend-IsSound :
    (r : Ref) (message : Text) (sent : Sent) (s : OkTracker)
    → IsSound (some r) s
    → owns s r ≡ true
    → IsSound none (resend r message sent s)
unfolding resend
resend-IsSound r message none s i e = rw (restart-arm r s e) (arm-IsSound r s i)
resend-IsSound r message (some error) s i e =
    rw (restart-arm r s e) (catch_retry-IsSound r message (arm r s) (weaken r (arm-IsSound r s i)))

resume-IsSound :
    (r : Ref) (message : Text) (answer : AuthAnswer) (s : OkTracker)
    → IsSound (some r) s
    → IsSound none (resume r message answer s)
unfolding resume
resume-IsSound r message failed s i = catch_retry-IsSound r message s i
resume-IsSound r message (answered authed is_open sent) s i = elim (Bool-cases (owns s r)) [
  | inl e ↦ rw e (
      if_elim (IsSound none) (not authed || not is_open)
        (λ h. settle-IsSound r (refusal message) s (λ h. cc) i)
        (λ h. resend-IsSound r message sent s i e))
  | inr e ↦ rw e (disowned r s i e)
]

pub any-pick {ℓ} :
    {A : Type ℓ} (p : A → Bool) (n : ℕ) (l : List A) (x : A) (rest : List A)
    → pick n l ≡ some (x, rest)
    → any p l ≡ (p x || any p rest)
unfolding pick any
any-pick p n [] x rest e = ground arith
any-pick p zero (y ∷ l) x rest e = ground arith
any-pick p (suc n) (y ∷ l) x rest e = elim (Option-cases (pick n l)) [
  | inl g ↦ ground arith
  | inr ((z, other), g) ↦ ground (arith, any-pick p n l z other g)
]

on_timeout-IsSound : (r : Ref) (s : OkTracker) → IsSound (some r) s → IsSound none (on_timeout r s)
unfolding on_timeout
on_timeout-IsSound r s i =
    if_elim (IsSound none) (owns s r) (λ e. close-IsSound r _ s (λ h. cc) i) (λ e. disowned r s i e)

pub fire-IsSound : (n : ℕ) (s : OkTracker) → IsSound none s → IsSound none (fire n s)
unfolding fire
fire-IsSound n s i = elim (Option-cases (pick n s.timers)) [
  | inl e ↦ rw (e, fire) i
  | inr ((t, rest), e) ↦
      rw (e, fire)
        (on_timeout-IsSound t.1 (record s { timers = rest })
          (record {
            owner = i.owner;
            owned = i.owned;
            unique = i.unique;
            awaited = i.awaited;
            keeper = i.keeper;
            awake = λ q h p o x.
                ground
                  (arith, i.awake q h p o refl, any-pick (λ t. nat_beq t.1 q) n s.timers t rest e);
          }))
]

pub wake-IsSound :
    (n : ℕ) (answer : AuthAnswer) (s : OkTracker) → IsSound none s → IsSound none (wake n answer s)
unfolding wake
wake-IsSound n answer s i = elim (Option-cases (pick n s.windows)) [
  | inl e ↦ rw (e, wake) i
  | inr ((w, rest), e) ↦
      rw (e, wake)
        (resume-IsSound w.0 w.1 answer (record s { windows = rest })
          (record {
            owner = i.owner;
            owned = i.owned;
            unique = i.unique;
            awaited = λ q h.
                ground (arith, i.awaited q, any-pick (λ w. nat_beq w.0 q) n s.windows w rest e);
            keeper = i.keeper;
            awake = λ q h p o x.
                ground
                  (arith, i.awake q h p o refl, any-pick (λ w. nat_beq w.0 q) n s.windows w rest e);
          }))
]

paused-IsSound :
    (r : Ref) (message : Text) (s : OkTracker)
    → r < s.next
    → IsSound (some r) s
    → IsSound none (record s { windows = s.windows ++ ((r, message) ∷ []) })
unfolding any
paused-IsSound r message s b i = record {
  owner = i.owner;
  owned = i.owned;
  unique = i.unique;
  awaited = λ q h.
      ground (arith, b, i.awaited q, any-append (λ w. nat_beq w.0 q) s.windows ((r, message) ∷ []));
  keeper = i.keeper;
  awake = λ q h p o x.
      ground
        (arith, i.awake q h p o, any-append (λ w. nat_beq w.0 q) s.windows ((r, message) ∷ []));
}

auth_retry-IsSound :
    (r : Ref) (message : Text) (s : OkTracker)
    → r < s.next
    → IsSound none s
    → IsSound none (auth_retry r message s)
unfolding auth_retry
auth_retry-IsSound r message s b i = elim (Option-cases (s.waiters r).event) [
  | inl e ↦
      rw (e, auth_retry)
        (settle-IsSound r (refusal message) _ (λ h. cc) (clear_timer-IsSound r s (weaken r i)))
  | inr (event, e) ↦
      rw (e, auth_retry)
        (paused-IsSound r message (clear_timer r s) b (clear_timer-IsSound r s (weaken r i)))
]

abbrev mark : Ref → OkTracker → OkTracker
mark r s = write r (record (s.waiters r) { auth_retried = true }) s

mark-IsSound : (r : Ref) (s : OkTracker) → IsSound none s → IsSound none (mark r s)
mark-IsSound r s i = record {
  owner = λ q h p l. ground (arith, still_owner s (mark r s) i (λ p. ground arith) refl q h l);
  owned = λ id q g. ground (arith, i.owned id q g);
  unique = i.unique;
  awaited = i.awaited;
  keeper = λ q u g. ground (arith, i.keeper q u);
  awake = λ q h p o x. ground (arith, i.awake q h);
}

pub on_ok-IsSound :
    (id : Text) (accepted : Bool) (message : Text) (is_auth_required : Text → Bool) (signer : Bool)
    (s : OkTracker)
    → IsSound none s
    → IsSound none (on_ok id accepted message is_auth_required signer s)
unfolding on_ok
on_ok-IsSound id accepted message is_auth_required signer s i =
    elim (Option-cases (Map.get s.entries id)) [
      | inl e ↦ rw (e, on_ok) i
      | inr (r, e) ↦
          rw (e, on_ok)
            (if_elim (IsSound none)
              (not accepted
                && is_auth_required message
                && is_some (s.waiters r).event
                && not (s.waiters r).auth_retried
                && signer)
              (λ h. auth_retry-IsSound r message (mark r s) (i.owned id r e).0 (mark-IsSound r s i))
              (λ h.
                settle-IsSound r (resolved (record { accepted = accepted; message = message })) s
                  (λ k. cc) (weaken r i)))
    ]
