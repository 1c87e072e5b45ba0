-- ===== src/Relay/OkTracker/Drains.antt =====
-- The calls of `authRetry` of src/relay/ok-tracker.ts get their answers and the timers go off.
use nostr_js.Base.{
  ◌≡◌, refl, sym, ◌∙◌, ◌≢◌, not, ◌||◌, Option, none, some, List, [], ◌∷◌, arith, ℕ, zero, suc, ◌<◌,
  any, length, is_some, Text, text_eq, if_elim, Option-cases, inl, inr,
}
use nostr_js.Runtime.Map
use nostr_js.Relay.OkTracker.{
  Ref, Timer, Window, Promise, pending, refusal, OkTracker, owns, settle_promise, clear_timer,
  drop_entry, finish, settle, arm, restart_timer, on_timeout, AuthAnswer, answered, failed,
  catch_retry, resend, resume, pick, fire, wake,
}
use nostr_js.Relay.OkTracker.Sound.{IsSound, IsLatest}
use nostr_js.Relay.OkTracker.Steps.{fire-IsSound, wake-IsSound}
use nostr_js.Relay.OkTracker.Settles.{Reachable, Reachable-IsSound}

-- the calls that await get these answers, the oldest call first
unfoldable pub conclude : List AuthAnswer → OkTracker → OkTracker
unfolding wake
conclude [] s = s
conclude (answer ∷ answers) s = conclude answers (wake 0 answer s)

-- as many timers go off
unfoldable pub elapse : ℕ → OkTracker → OkTracker
unfolding fire
elapse zero s = s
elapse (suc n) s = elapse n (fire 0 s)

abbrev SameIds : OkTracker → OkTracker → Type 0
SameIds s u = (q : Ref) → (u.waiters q).id ≡ (s.waiters q).id

-- no waiter is new, and the same calls await
abbrev Keeps : OkTracker → OkTracker → Type 0
Keeps s u = (u.next ≡ s.next) × (u.windows ≡ s.windows) × SameIds s u

settle-Keeps : (r : Ref) (outcome : Promise) (s : OkTracker) → Keeps s (settle r outcome s)
unfolding settle finish settle_promise drop_entry clear_timer
settle-Keeps r outcome s = (refl, refl, λ q. ground arith)

catch_retry-Keeps : (r : Ref) (message : Text) (s : OkTracker) → Keeps s (catch_retry r message s)
unfolding catch_retry
catch_retry-Keeps r message s =
    if_elim (Keeps s) (is_some (Map.get s.entries (s.waiters r).id))
      (λ e. settle-Keeps r (refusal message) s) (λ e. (refl, refl, λ q. refl))

restart_timer-Keeps : (id : Text) (s : OkTracker) → Keeps s (restart_timer id s)
unfolding restart_timer arm
restart_timer-Keeps id s = elim (Option-cases (Map.get s.entries id)) [
  | inl e ↦ rw (e, restart_timer) (refl, refl, λ q. refl)
  | inr (r, e) ↦ rw (e, restart_timer) (refl, refl, λ q. ground arith)
]

resend-Keeps :
    (r : Ref) (message : Text) (sent : Option Text) (s : OkTracker)
    → Keeps s (resend r message sent s)
unfolding resend
resend-Keeps r message none s = restart_timer-Keeps (s.waiters r).id s
resend-Keeps r message (some e) s =
    let (n, w, d) = restart_timer-Keeps (s.waiters r).id s in
    let (n', w', d') = catch_retry-Keeps r message (restart_timer (s.waiters r).id s) in
    (n' ∙ n, w' ∙ w, λ q. d' q ∙ d q)

resume-Keeps :
    (r : Ref) (message : Text) (answer : AuthAnswer) (s : OkTracker)
    → Keeps s (resume r message answer s)
unfolding resume
resume-Keeps r message failed s = catch_retry-Keeps r message s
resume-Keeps r message (answered authed is_open sent) s =
    if_elim (Keeps s) (not (owns s r)) (λ e. (refl, refl, λ q. refl))
      (λ e.
        if_elim (Keeps s) (not authed || not is_open) (λ h. settle-Keeps r (refusal message) s)
          (λ h. resend-Keeps r message sent s))

abbrev tail {ℓ} : {A : Type ℓ} → List A → List A
tail [] = []
tail (x ∷ xs) = xs

wake-tail :
    (answer : AuthAnswer) (s : OkTracker) (windows : List Window)
    → s.windows ≡ windows
    → ((wake 0 answer s).next ≡ s.next)
      × ((wake 0 answer s).windows ≡ tail windows)
      × SameIds s (wake 0 answer s)
unfolding wake pick
wake-tail answer s [] e = rw (e, wake) (refl, e, λ q. refl)
wake-tail answer s (w ∷ rest) e =
    rw (e, wake) (resume-Keeps w.0 w.1 answer (record s { windows = rest }))

on_timeout-Keeps : (r : Ref) (s : OkTracker) → Keeps s (on_timeout r s)
unfolding on_timeout settle_promise drop_entry
on_timeout-Keeps r s =
    if_elim (Keeps s) (owns s r) (λ h. (refl, refl, λ q. ground arith))
      (λ h. (refl, refl, λ q. refl))

on_timeout-timers : (r : Ref) (s : OkTracker) → (on_timeout r s).timers ≡ s.timers
unfolding on_timeout settle_promise drop_entry
on_timeout-timers r s =
    if_elim (λ (u : OkTracker). u.timers ≡ s.timers) (owns s r) (λ h. refl) (λ h. refl)

fire-tail :
    (s : OkTracker) (timers : List Timer)
    → s.timers ≡ timers
    → Keeps s (fire 0 s) × ((fire 0 s).timers ≡ tail timers)
unfolding fire pick
fire-tail s [] e = rw (e, fire) ((refl, refl, λ q. refl), e)
fire-tail s (t ∷ rest) e =
    let u = record s { timers = rest } in
    rw (e, fire) (on_timeout-Keeps t.1 u, on_timeout-timers t.1 u)

abbrev Settled : OkTracker → Ref → Type 0
Settled s r = (s.waiters r).promise ≢ pending

still-IsLatest : (s u : OkTracker) (r : Ref) → Keeps s u → IsLatest s r → IsLatest u r
still-IsLatest s u r (n, w, same) l =
    λ p k b e. l p k (omega (arith, b, n)) (sym (same p) ∙ e ∙ same r)

asleep :
    (s : OkTracker) (r : Ref)
    → IsSound none s
    → s.windows ≡ []
    → s.timers ≡ []
    → r < s.next
    → IsLatest s r
    → Settled s r
unfolding any
asleep s r i w t h l p = ground (arith, i.awake r h p (i.owner r h p l) refl)

elapse-Settled :
    (timers : List Timer) (s : OkTracker) (r : Ref)
    → IsSound none s
    → s.windows ≡ []
    → s.timers ≡ timers
    → r < s.next
    → IsLatest s r
    → Settled (elapse (length timers) s) r
unfolding elapse
elapse-Settled [] s r i w t h l = asleep s r i w t h l
elapse-Settled (t ∷ rest) s r i w e h l =
    let (kept, timers) = fire-tail s (t ∷ rest) e in
    elapse-Settled rest (fire 0 s) r (fire-IsSound 0 s i) (kept.1 ∙ w) timers
      (omega (arith, h, kept.0)) (still-IsLatest s (fire 0 s) r kept l)

conclude_lem :
    (answers : List AuthAnswer) (windows : List Window) (s : OkTracker)
    → IsSound none s
    → s.windows ≡ windows
    → length answers ≡ length windows
    → IsSound none (conclude answers s)
      × ((conclude answers s).next ≡ s.next)
      × ((conclude answers s).windows ≡ [])
      × SameIds s (conclude answers s)
unfolding conclude
conclude_lem [] [] s i w h = (i, refl, w, λ q. refl)
conclude_lem [] (w ∷ rest) s i e h = cc
conclude_lem (answer ∷ answers) [] s i e h = cc
conclude_lem (answer ∷ answers) (w ∷ rest) s i e h =
    let (next, windows, same) = wake-tail answer s (w ∷ rest) e in
    let (j, n, done, ids) =
      conclude_lem answers rest (wake 0 answer s) (wake-IsSound 0 answer s i) windows
        (omega (arith, h)) in
    (j, n ∙ next, done, λ q. ids q ∙ same q)

abbrev pub drain : List AuthAnswer → OkTracker → OkTracker
drain answers s = let u = conclude answers s in elapse (length u.timers) u

-- After any sequence of actions: when each of the AUTH retries that await has got an answer, whichever,
-- and then each armed timer has gone off, the promise of a registered waiter is not pending, provided
-- that no later waiter has its id.
pub drain-Settled :
    {s : OkTracker} (reached : Reachable s) (answers : List AuthAnswer) (r : Ref)
    → length answers ≡ length s.windows
    → r < s.next
    → IsLatest s r
    → ((drain answers s).waiters r).promise ≢ pending
drain-Settled {s} reached answers r h k l =
    let (i, n, w, same) = conclude_lem answers s.windows s (Reachable-IsSound reached) refl h in
    elapse-Settled (conclude answers s).timers (conclude answers s) r i w refl (omega (arith, k, n))
      (λ p a b e. l p a (omega (arith, b, n)) (sym (same p) ∙ e ∙ same r))
