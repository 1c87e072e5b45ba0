-- ===== src/Relay/FanIn/Reach.antt =====
-- The states that src/relay/fan-in.ts reaches, what they report, and that a fan-in comes to its end.
use nostr_js.Base.{
  ◌≡◌, refl, sym, ◌∙◌, ap, ◌≢◌, ◌⊎◌, Bool, true, false, ◌&&◌, ◌||◌, not, Option, none, some, List,
  [], arith, ℕ, ◌-◌, ◌≤◌, nat_beq, leb, get_elem?, Text, text_eq, nat_eq, Bool-cases, inl, inr,
  if_elim,
}
use nostr_js.Runtime.Set
use nostr_js.Core.Event.{Event}
use nostr_js.Relay.FanIn.{
  Key, key_eq, is_attached, connecting, attached, ended, Url, eose_key, FanIn, fan_in, fire_eose,
  settle_eose, finish, less_pending, set_phase, move, fail_url, Connection, subscribed, throws,
  unreachable, connect, on_close, end_sub, close_all, on_event, on_eose_timer, no_relays,
}
use nostr_js.Relay.FanIn.Sound.{IsCounted}
use nostr_js.Relay.FanIn.Steps.{
  close_all-IsCounted, connect-IsCounted, on_event-IsCounted, on_eose-IsCounted,
  on_eose_timer-IsCounted, no_relays-IsCounted, end_sub-IsCounted,
}
use nostr_js.Relay.FanIn.Reports.{
  IsReported, connect-IsReported, end_sub-IsReported, on_event-IsReported, on_eose_timer-IsReported,
  no_relays-IsReported, settle_eose-IsReported,
}
use nostr_js.Relay.FanIn.Closing.{close_all-IsReported, close_all_closed}

-- What may happen next.
pub data Step (s : FanIn) : FanIn → Type 0 where
  connection_step :
      (n : ℕ) (u : Url) (c : Connection)
      → get_elem? s.urls n ≡ some u
      → u.phase ≡ connecting
      → Step s (connect n u c s)
  event_step :
      (n : ℕ) (u : Url) (event : Event) (have valid : Bool)
      → get_elem? s.urls n ≡ some u
      → u.phase ≡ attached
      → Step s (on_event u event have valid s)
  eose_step :
      (n : ℕ) (u : Url)
      → get_elem? s.urls n ≡ some u
      → u.phase ≡ attached
      → Step s (settle_eose (eose_key u) true s)
  end_step :
      (n : ℕ) (u : Url) (reason : Text)
      → get_elem? s.urls n ≡ some u
      → Step s (end_sub n (some u) reason s)
  close_step : (reason : Option Text) → Step s (close_all reason s)
  timer_step : s.eose_timer ≡ true → Step s (on_eose_timer s)
  microtask_step : s.urls ≡ [] → Step s (no_relays s)

-- The states that a call of `fanIn` reaches, for lists of urls and with an EOSE timeout or without.
pub data Reachable (relay_url_key : Text → Text) (jobs : List (List Text)) (has_timeout : Bool)
    : FanIn → Type 0 where
  start : Reachable relay_url_key jobs has_timeout (fan_in relay_url_key jobs has_timeout)
  next :
      {s t : FanIn}
      → Reachable relay_url_key jobs has_timeout s
      → Step s t
      → Reachable relay_url_key jobs has_timeout t

-- an open fan-in with an attempt has one that counts
abbrev pub IsRunning : FanIn → Type 0
IsRunning s = s.closed ≡ false → s.urls ≢ [] → 1 ≤ s.pending

finish-IsRunning : (s : FanIn) → IsRunning (finish s)
unfolding finish
finish-IsRunning s =
    if_elim IsRunning (leb s.pending 0 && not s.closed) (λ e c. cc) (λ e c ne. ground arith)

-- a change that leaves the attempts as they are
pub record IsAside (s t : FanIn) : Type 0 where
  pub urls : t.urls ≡ s.urls
  pub pending : t.pending ≡ s.pending
  pub closed : (t.closed ≡ true) ⊎ (t.closed ≡ s.closed)

aside : {s t : FanIn} → IsAside s t → IsRunning s → IsRunning t
aside {s} {t} k r c ne = elim k.closed [
  | inl e ↦ cc
  | inr e ↦ omega (arith, r (sym e ∙ c) (λ h. ne (k.urls ∙ h)), k.pending)
]

pub settle_eose-IsAside : (k : Key) (eosed : Bool) (s : FanIn) → IsAside s (settle_eose k eosed s)
unfolding settle_eose fire_eose
settle_eose-IsAside k eosed s =
    if_elim (IsAside s) (Set.has s.eose_done k)
      (λ e. record { urls = refl; pending = refl; closed = inr refl })
      (λ e.
        if_elim (IsAside s) (nat_beq (s.pending_eose - 1) 0 && (s.saw_eose || eosed))
          (λ all.
            if_elim (IsAside s) (s.closed || s.eose_fired)
              (λ h. record { urls = refl; pending = refl; closed = inr refl })
              (λ h. record { urls = refl; pending = refl; closed = inr refl }))
          (λ w. record { urls = refl; pending = refl; closed = inr refl }))

on_event-IsAside :
    (u : Url) (event : Event) (have valid : Bool) (s : FanIn)
    → IsAside s (on_event u event have valid s)
unfolding on_event
on_event-IsAside u event have valid s =
    if_elim (IsAside s) (Set.has s.seen event.id || have || not valid)
      (λ h. record { urls = refl; pending = refl; closed = inr refl })
      (λ h. record { urls = refl; pending = refl; closed = inr refl })

on_eose_timer-IsAside : (s : FanIn) → IsAside s (on_eose_timer s)
unfolding on_eose_timer fire_eose
on_eose_timer-IsAside s =
    if_elim (IsAside s) (s.closed || s.eose_fired)
      (λ h. record { urls = refl; pending = refl; closed = inr refl })
      (λ h. record { urls = refl; pending = refl; closed = inr refl })

no_relays-IsAside : (s : FanIn) → IsAside s (no_relays s)
unfolding no_relays
no_relays-IsAside s =
    if_elim (IsAside s) s.closed (λ h. record { urls = refl; pending = refl; closed = inr refl })
      (λ h. record { urls = refl; pending = refl; closed = inl refl })

connect-IsRunning :
    (n : ℕ) (u : Url) (c : Connection) (s : FanIn)
    → get_elem? s.urls n ≡ some u
    → IsRunning s
    → IsRunning (connect n u c s)
unfolding connect fail_url
connect-IsRunning n u unreachable s g r =
    finish-IsRunning (less_pending (settle_eose (eose_key u) false (move n ended s)))
connect-IsRunning n u throws s g r =
    if_elim IsRunning s.closed (λ h c. cc)
      (λ h. finish-IsRunning (less_pending (settle_eose (eose_key u) false (move n ended s))))
connect-IsRunning n u subscribed s g r =
    if_elim IsRunning s.closed (λ h c. cc) (λ h c ne. r c (λ e. ne (ap (set_phase n attached) e)))

end_sub-IsRunning :
    (n : ℕ) (u : Url) (reason : Text) (s : FanIn)
    → IsRunning s
    → IsRunning (end_sub n (some u) reason s)
unfolding end_sub on_close
end_sub-IsRunning n u reason s r =
    if_elim IsRunning (is_attached u.phase)
      (λ e. finish-IsRunning (
        less_pending
          (record (settle_eose (eose_key u) false (move n ended s)) { last_reason = some reason })))
      (λ e. r)

pub record Holds (T : Bool) (s : FanIn) : Type 0 where
  pub counted : IsCounted 0 none s
  pub reported : IsReported T s
  pub running : IsRunning s

module _ (T : Bool) where
  pub Step-Holds : {s t : FanIn} → Step s t → Holds T s → Holds T t
  Step-Holds {s} (connection_step n u c g e) h = record {
    counted = connect-IsCounted n u c s g e h.counted;
    reported = connect-IsReported T n u c s g e h.counted h.reported;
    running = connect-IsRunning n u c s g h.running;
  }
  Step-Holds {s} (event_step n u event have valid g e) h = record {
    counted = on_event-IsCounted u event have valid s h.counted;
    reported =
        on_event-IsReported T u event have valid s
          (elim (Bool-cases s.closed) [ inl c ↦ absurd (h.reported.idle c n u g e) | inr c ↦ c ])
          h.reported;
    running = aside (on_event-IsAside u event have valid s) h.running;
  }
  Step-Holds {s} (eose_step n u g e) h = record {
    counted = on_eose-IsCounted n u s g h.counted;
    reported = settle_eose-IsReported T (eose_key u) true s h.reported;
    running = aside (settle_eose-IsAside (eose_key u) true s) h.running;
  }
  Step-Holds {s} (end_step n u reason g) h = record {
    counted = end_sub-IsCounted n (some u) reason s g h.counted;
    reported = end_sub-IsReported T n (some u) reason s g h.counted h.reported;
    running = end_sub-IsRunning n u reason s h.running;
  }
  Step-Holds {s} (close_step reason) h = record {
    counted = close_all-IsCounted reason s h.counted;
    reported = close_all-IsReported T reason s h.reported;
    running = λ c ne. cc (close_all_closed reason s);
  }
  Step-Holds {s} (timer_step armed) h = record {
    counted = on_eose_timer-IsCounted s h.counted;
    reported = on_eose_timer-IsReported T s armed h.reported;
    running = aside (on_eose_timer-IsAside s) h.running;
  }
  Step-Holds {s} (microtask_step empty) h = record {
    counted = no_relays-IsCounted s h.counted;
    reported = no_relays-IsReported T s empty h.reported;
    running = aside (no_relays-IsAside s) h.running;
  }
