-- ===== src/Relay/FanIn/Reports.antt =====
-- What src/relay/fan-in.ts reports to the user: the order and the number of its callbacks.
use nostr_js.Base.{
  ◌≡◌, refl, ◌≢◌, Bool, true, false, ◌&&◌, ◌||◌, not, Option, none, some, List, [], ◌∷◌, arith, ℕ,
  zero, suc, ◌+◌, ◌-◌, ◌≤◌, nat_beq, leb, get_elem?, any, any-append, Text, text_eq, nat_eq,
  Bool-cases, inl, inr, if_elim,
}
use nostr_js.Runtime.Set
use nostr_js.Core.Event.{Event}
use nostr_js.Relay.FanIn.{
  Key, key_eq, is_attached, connecting, attached, ended, Url, eose_key, Call, oneose, onclose,
  FanIn, fire_eose, settle_eose, finish, less_pending, move, fail_url, Connection, subscribed,
  throws, unreachable, connect, on_close, end_sub, on_event, on_eose_timer, no_relays,
}
use nostr_js.Relay.FanIn.Sound.{
  IsCounted, live, one, get-set_phase, settle_eose-IsCounted, end_attempt,
}

abbrev pub is_oneose : Call → Bool
is_oneose oneose = true
is_oneose _ = false

abbrev pub is_onclose : Call → Bool
is_onclose (onclose reason) = true
is_onclose _ = false

abbrev pub times : (Call → Bool) → List Call → ℕ
times p [] = 0
times p (c ∷ calls) = one (p c) + times p calls

-- the last call is `onclose`, and it is the only one
abbrev pub is_closed_log : List Call → Bool
is_closed_log [] = false
is_closed_log (c ∷ calls) = is_onclose c && nat_beq (times is_onclose calls) 0

abbrev pub all_settled : FanIn → Bool
all_settled s = nat_beq s.pending_eose 0 && s.saw_eose

-- `T` is whether an EOSE timeout is set.
pub record IsReported (T : Bool) (s : FanIn) : Type 0 where
  pub eosed_once : times is_oneose s.calls ≡ one s.eose_fired
  pub open_calls : s.closed ≡ false → times is_onclose s.calls ≡ 0
  pub closed_calls : s.closed ≡ true → is_closed_log s.calls ≡ true
  pub timeless : (s.closed ≡ true → s.eose_timer ≡ false) × (T ≡ false → s.eose_timer ≡ false)
  pub reason : T ≡ false → s.eose_fired ≡ true → all_settled s ≡ true
  pub idle : s.closed ≡ true → (n : ℕ) (u : Url) → get_elem? s.urls n ≡ some u → u.phase ≢ attached
  pub held :
      (n : ℕ) (u : Url)
      → get_elem? s.urls n ≡ some u
      → u.phase ≡ attached
      → any (nat_beq n) s.closers ≡ true

module _ (T : Bool) where
  pub settle_eose-IsReported :
      (k : Key) (eosed : Bool) (s : FanIn) → IsReported T s → IsReported T (settle_eose k eosed s)
  unfolding settle_eose fire_eose
  settle_eose-IsReported k eosed s i = elim (Bool-cases (Set.has s.eose_done k)) [
    | inl e ↦ rw e i
    | inr e ↦ rw e (
        if_elim (IsReported T) (nat_beq (s.pending_eose - 1) 0 && (s.saw_eose || eosed))
          (λ all.
            if_elim (IsReported T) (s.closed || s.eose_fired)
              (λ over. record {
                eosed_once = i.eosed_once;
                open_calls = i.open_calls;
                closed_calls = i.closed_calls;
                timeless = i.timeless;
                reason = λ t f. all;
                idle = i.idle;
                held = i.held;
              })
              (λ fresh. record {
                eosed_once = ground (arith, i.eosed_once);
                open_calls = λ c. omega (arith, i.open_calls c);
                closed_calls = λ c. ground arith;
                timeless = (λ c. refl, λ c. refl);
                reason = λ t f. all;
                idle = i.idle;
                held = i.held;
              }))
          (λ waits. record {
            eosed_once = i.eosed_once;
            open_calls = i.open_calls;
            closed_calls = i.closed_calls;
            timeless = i.timeless;
            reason = λ t f. ground (arith, i.reason t f);
            idle = i.idle;
            held = i.held;
          }))
  ]

  move-IsReported :
      (n : ℕ) (u : Url) (s : FanIn)
      → get_elem? s.urls n ≡ some u
      → IsReported T s
      → IsReported T (move n ended s)
  move-IsReported n u s g i = record {
    eosed_once = i.eosed_once;
    open_calls = i.open_calls;
    closed_calls = i.closed_calls;
    timeless = i.timeless;
    reason = i.reason;
    idle = λ c m v e. ground (arith, i.idle c m v, get-set_phase s.urls n ended u m g);
    held = λ m v e p. ground (arith, i.held m v, get-set_phase s.urls n ended u m g);
  }

  reasoned :
      (reason : Text) (s : FanIn)
      → IsReported T s
      → IsReported T (record s { last_reason = some reason })
  reasoned reason s i = record {
    eosed_once = i.eosed_once;
    open_calls = i.open_calls;
    closed_calls = i.closed_calls;
    timeless = i.timeless;
    reason = i.reason;
    idle = i.idle;
    held = i.held;
  }

  live_of :
      (urls : List Url) (n : ℕ) (u : Url)
      → get_elem? urls n ≡ some u
      → u.phase ≡ attached
      → 1 ≤ live urls
  live_of [] n u e h = ground arith
  live_of (v ∷ urls) zero u e h = ground arith
  live_of (v ∷ urls) (suc n) u e h = omega (arith, live_of urls n u e h)

  finish-IsReported :
      (s : FanIn) → IsCounted 1 none s → IsReported T s → IsReported T (finish (less_pending s))
  unfolding finish
  finish-IsReported s k i =
      if_elim (IsReported T) (leb (s.pending - 1) 0 && not s.closed)
        (λ e. record {
          eosed_once = omega (arith, i.eosed_once);
          open_calls = λ c. cc;
          closed_calls = λ c. ground (arith, i.open_calls);
          timeless = (λ c. refl, λ c. refl);
          reason = i.reason;
          idle = λ c n u g p. ground (arith, live_of s.urls n u g p, k.covered);
          held = i.held;
        })
        (λ e. record {
          eosed_once = i.eosed_once;
          open_calls = i.open_calls;
          closed_calls = i.closed_calls;
          timeless = i.timeless;
          reason = i.reason;
          idle = i.idle;
          held = i.held;
        })

  fail_url-IsReported :
      (k : Key) (s : FanIn)
      → IsCounted 1 (some k) s
      → Set.has s.eose_attempted k ≡ true
      → IsReported T s
      → IsReported T (fail_url k s)
  unfolding fail_url
  fail_url-IsReported k s c h i =
      finish-IsReported (settle_eose k false s) (settle_eose-IsCounted 1 k s c false h)
        (settle_eose-IsReported k false s i)

  on_close-IsReported :
      (k : Key) (reason : Text) (s : FanIn)
      → IsCounted 1 (some k) s
      → Set.has s.eose_attempted k ≡ true
      → IsReported T s
      → IsReported T (on_close k reason s)
  unfolding on_close
  on_close-IsReported k reason s c h i =
      let settled = settle_eose-IsCounted 1 k s c false h in
      finish-IsReported _
        (record {
          distinct = settled.distinct;
          eoses = settled.eoses;
          covered = settled.covered;
          exact = settled.exact;
          known = settled.known;
          settled = settled.settled;
          fires = settled.fires;
        })
        (reasoned reason _ (settle_eose-IsReported k false s i))

  pub end_sub-IsReported :
      (n : ℕ) (o : Option Url) (reason : Text) (s : FanIn)
      → get_elem? s.urls n ≡ o
      → IsCounted 0 none s
      → IsReported T s
      → IsReported T (end_sub n o reason s)
  unfolding end_sub
  end_sub-IsReported n none reason s g c i = i
  end_sub-IsReported n (some u) reason s g c i =
      if_elim (IsReported T) (is_attached u.phase)
        (λ e.
          on_close-IsReported (eose_key u) reason (move n ended s)
            (end_attempt s n u c g (ground arith)) (c.known n u g) (move-IsReported n u s g i))
        (λ e. i)

  pub connect-IsReported :
      (n : ℕ) (u : Url) (connection : Connection) (s : FanIn)
      → get_elem? s.urls n ≡ some u
      → u.phase ≡ connecting
      → IsCounted 0 none s
      → IsReported T s
      → IsReported T (connect n u connection s)
  unfolding connect any
  connect-IsReported n u unreachable s g e c i =
      fail_url-IsReported (eose_key u) (move n ended s) (end_attempt s n u c g (rw e refl))
        (c.known n u g) (move-IsReported n u s g i)
  connect-IsReported n u throws s g e c i =
      if_elim (IsReported T) s.closed (λ h. move-IsReported n u s g i)
        (λ h.
          fail_url-IsReported (eose_key u) (move n ended s) (end_attempt s n u c g (rw e refl))
            (c.known n u g) (move-IsReported n u s g i))
  connect-IsReported n u subscribed s g e c i =
      if_elim (IsReported T) s.closed (λ h. move-IsReported n u s g i)
        (λ h. record {
          eosed_once = i.eosed_once;
          open_calls = i.open_calls;
          closed_calls = i.closed_calls;
          timeless = i.timeless;
          reason = i.reason;
          idle = λ k. cc;
          held = λ m v f p. ground (
            arith,
            i.held m v,
            get-set_phase s.urls n attached u m g,
            any-append (nat_beq m) s.closers (n ∷ []),
          );
        })

  pub on_event-IsReported :
      (u : Url) (event : Event) (have valid : Bool) (s : FanIn)
      → s.closed ≡ false
      → IsReported T s
      → IsReported T (on_event u event have valid s)
  unfolding on_event
  on_event-IsReported u event have valid s c i =
      if_elim (IsReported T) (Set.has s.seen event.id || have || not valid)
        (λ e. record {
          eosed_once = omega (arith, i.eosed_once);
          open_calls = λ o. omega (arith, i.open_calls o);
          closed_calls = λ k. cc;
          timeless = i.timeless;
          reason = i.reason;
          idle = i.idle;
          held = i.held;
        })
        (λ e. record {
          eosed_once = omega (arith, i.eosed_once);
          open_calls = λ o. omega (arith, i.open_calls o);
          closed_calls = λ k. cc;
          timeless = i.timeless;
          reason = i.reason;
          idle = i.idle;
          held = i.held;
        })

  pub on_eose_timer-IsReported :
      (s : FanIn) → s.eose_timer ≡ true → IsReported T s → IsReported T (on_eose_timer s)
  unfolding on_eose_timer fire_eose
  on_eose_timer-IsReported s armed i =
      if_elim (IsReported T) (s.closed || s.eose_fired)
        (λ e. record {
          eosed_once = i.eosed_once;
          open_calls = i.open_calls;
          closed_calls = i.closed_calls;
          timeless = (λ c. refl, λ c. refl);
          reason = i.reason;
          idle = i.idle;
          held = i.held;
        })
        (λ e. record {
          eosed_once = ground (arith, i.eosed_once);
          open_calls = λ o. omega (arith, i.open_calls o);
          closed_calls = λ c. ground arith;
          timeless = (λ c. refl, λ c. refl);
          reason = λ t f. ground (arith, i.timeless);
          idle = i.idle;
          held = i.held;
        })

  pub no_relays-IsReported : (s : FanIn) → s.urls ≡ [] → IsReported T s → IsReported T (no_relays s)
  unfolding no_relays
  no_relays-IsReported s empty i =
      if_elim (IsReported T) s.closed (λ e. i)
        (λ e. record {
          eosed_once = omega (arith, i.eosed_once);
          open_calls = λ c. cc;
          closed_calls = λ c. ground (arith, i.open_calls);
          timeless = (λ c. refl, λ c. refl);
          reason = i.reason;
          idle = λ c n u g p. ground (arith, empty);
          held = i.held;
        })
