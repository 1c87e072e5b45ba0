-- ===== src/Relay/FanIn/HeardSteps.antt =====
-- The steps of src/relay/fan-in.ts, as to the EOSE messages that it has had.
use nostr_js.Base.{
  ◌≡◌, refl, sym, ◌∙◌, ap, Bool, true, false, ◌&&◌, ◌||◌, not, some, List, [], ◌∷◌, ◌++◌, arith, ℕ,
  ◌-◌, leb, get_elem?, Text, text_eq, nat_eq, if_elim,
}
use nostr_js.Runtime.Set
use nostr_js.Runtime.Set.{Set}
use nostr_js.Core.Event.{Event}
use nostr_js.Relay.FanIn.{
  Key, key_eq, is_attached, connecting, attached, ended, Url, eose_key, FanIn, fire_eose,
  settle_eose, finish, less_pending, move, fail_url, Connection, subscribed, throws, unreachable,
  connect, on_close, end_sub, on_event, on_eose_timer, no_relays,
}
use nostr_js.Relay.FanIn.Closing.{close_all_closed}
use nostr_js.Relay.FanIn.Reach.{
  Step, connection_step, event_step, eose_step, end_step, close_step, timer_step, microtask_step,
}
use nostr_js.Relay.FanIn.Heard.{
  heard_in, is_some_key, IsHeard, Hears, end_attempt-IsHeard, attaching-IsHeard,
  settle_eose-IsMarked,
}

-- an attempt that is over settles its key
settle_over-Hears :
    (k : Key) (h : Set Key) (s : FanIn)
    → (s.closed ≡ false → IsHeard (some k) h s)
    → Hears h (settle_eose k false s)
settle_over-Hears k h s before c =
    let m = settle_eose-IsMarked k false s in
    let i = before (sym m.closed ∙ c) in
    record {
      apart = rw m.urls i.apart;
      spread = λ d. rw (m.attempted, m.urls) (i.spread d);
      saw = ground (arith, m.saw, i.saw);
      done = λ n u g. ground (
        arith,
        m.done (eose_key u),
        i.done n u (ap (λ (us : List Url). get_elem? us n) (sym m.urls) ∙ g),
      );
    }

settle_eose-Hears :
    (h : Set Key) (s : FanIn) (n : ℕ) (u : Url)
    → get_elem? s.urls n ≡ some u
    → u.phase ≡ attached
    → Hears h s
    → Hears (eose_key u ∷ h) (settle_eose (eose_key u) true s)
unfolding Set.has
settle_eose-Hears h s n u g e before c =
    let m = settle_eose-IsMarked (eose_key u) true s in
    let i = before (sym m.closed ∙ c) in
    record {
      apart = rw m.urls i.apart;
      spread = λ d. rw (m.attempted, m.urls) (i.spread d);
      saw = ground (arith, m.saw, i.saw, i.done n u g, e, some_key h (eose_key u));
      done = λ l v f. ground (
        arith,
        m.done (eose_key v),
        i.done l v (ap (λ (us : List Url). get_elem? us l) (sym m.urls) ∙ f),
      );
    }
  where
    some_key : (h : Set Key) (k : Key) → Set.has h k ≡ true → is_some_key h ≡ true
    some_key [] k e = cc
    some_key (j ∷ h) k e = refl

lowered-Hears : (h : Set Key) (s : FanIn) → Hears h s → Hears h (finish (less_pending s))
unfolding finish
lowered-Hears h s before =
    if_elim (Hears h) (leb (s.pending - 1) 0 && not s.closed) (λ e c. cc)
      (λ e c.
        let i = before c in
        record { apart = i.apart; spread = i.spread; saw = i.saw; done = i.done })

connect-Hears :
    (h : Set Key) (n : ℕ) (u : Url) (c : Connection) (s : FanIn)
    → get_elem? s.urls n ≡ some u
    → u.phase ≡ connecting
    → Hears h s
    → Hears h (connect n u c s)
unfolding connect fail_url
connect-Hears h n u unreachable s g e before = lowered-Hears h _ (
    settle_over-Hears (eose_key u) h (move n ended s)
      (λ c. end_attempt-IsHeard h s n u (before c) g))
connect-Hears h n u throws s g e before =
    if_elim (Hears h) s.closed (λ closed c. cc)
      (λ o. lowered-Hears h _ (
        settle_over-Hears (eose_key u) h (move n ended s)
          (λ c. end_attempt-IsHeard h s n u (before c) g)))
connect-Hears h n u subscribed s g e before =
    if_elim (Hears h) s.closed (λ closed c. cc)
      (λ o c. attaching-IsHeard h s n u (s.closers ++ (n ∷ [])) (before c) g e)

end_sub-Hears :
    (h : Set Key) (n : ℕ) (u : Url) (reason : Text) (s : FanIn)
    → get_elem? s.urls n ≡ some u
    → Hears h s
    → Hears h (end_sub n (some u) reason s)
unfolding end_sub on_close
end_sub-Hears h n u reason s g before =
    if_elim (Hears h) (is_attached u.phase)
      (λ e.
        lowered-Hears h
          (record (settle_eose (eose_key u) false (move n ended s)) { last_reason = some reason })
          (λ c.
            let i =
              settle_over-Hears (eose_key u) h (move n ended s)
                (λ c. end_attempt-IsHeard h s n u (before c) g) c in
            record { apart = i.apart; spread = i.spread; saw = i.saw; done = i.done }))
      (λ e. before)

on_event-Hears :
    (h : Set Key) (u : Url) (event : Event) (have valid : Bool) (s : FanIn)
    → Hears h s
    → Hears h (on_event u event have valid s)
unfolding on_event
on_event-Hears h u event have valid s before =
    if_elim (Hears h) (Set.has s.seen event.id || have || not valid)
      (λ e c.
        let i = before c in
        record { apart = i.apart; spread = i.spread; saw = i.saw; done = i.done })
      (λ e c.
        let i = before c in
        record { apart = i.apart; spread = i.spread; saw = i.saw; done = i.done })

on_eose_timer-Hears : (h : Set Key) (s : FanIn) → Hears h s → Hears h (on_eose_timer s)
unfolding on_eose_timer fire_eose
on_eose_timer-Hears h s before =
    if_elim (Hears h) (s.closed || s.eose_fired)
      (λ e c.
        let i = before c in
        record { apart = i.apart; spread = i.spread; saw = i.saw; done = i.done })
      (λ e c.
        let i = before c in
        record { apart = i.apart; spread = i.spread; saw = i.saw; done = i.done })

no_relays-Hears : (h : Set Key) (s : FanIn) → Hears h s → Hears h (no_relays s)
unfolding no_relays
no_relays-Hears h s before = if_elim (Hears h) s.closed (λ e. before) (λ e c. cc)

pub Step-Hears :
    {s t : FanIn} (step : Step s t) (h : Set Key) → Hears h s → Hears (heard_in step h) t
Step-Hears {s} (connection_step n u c g e) h i = connect-Hears h n u c s g e i
Step-Hears {s} (event_step n u event have valid g e) h i = on_event-Hears h u event have valid s i
Step-Hears {s} (eose_step n u g e) h i = settle_eose-Hears h s n u g e i
Step-Hears {s} (end_step n u reason g) h i = end_sub-Hears h n u reason s g i
Step-Hears {s} (close_step reason) h i = λ c. cc (c, close_all_closed reason s)
Step-Hears {s} (timer_step armed) h i = on_eose_timer-Hears h s i
Step-Hears {s} (microtask_step empty) h i = no_relays-Hears h s i
