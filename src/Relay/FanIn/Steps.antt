-- ===== src/Relay/FanIn/Steps.antt =====
-- The steps of src/relay/fan-in.ts keep the counts.
use nostr_js.Base.{
  ◌≡◌, refl, Bool, true, false, ◌||◌, not, Option, none, some, List, [], ◌∷◌, ◌++◌, arith, ℕ, zero,
  suc, get_elem?, Text, text, text_eq, nat_eq, eq_iff, if_elim,
}
use nostr_js.Base.Maybe.{or_else}
use nostr_js.Runtime.Set
use nostr_js.Runtime.Set.{Set}
use nostr_js.Core.Event.{Event}
use nostr_js.Relay.FanIn.{
  Key, key_eq, is_attached, connecting, attached, ended, Url, eose_key, Call, received, FanIn,
  attempt, call, fire_eose, settle_eose, settle_close, move, fail_url, Connection, subscribed,
  throws, unreachable, connect, on_close, end_sub, close_each, close_all, on_event, on_eose_timer,
  no_relays,
}
use nostr_js.Relay.FanIn.Sound.{
  IsCounted, one, is_live, get-set_phase, live-set_phase, is_key, settle_eose-IsCounted,
  end_attempt, lowered, IsDistinct-add, unsettled-attempt,
}

fail_url-IsCounted :
    (k : Key) (s : FanIn)
    → IsCounted 1 (some k) s
    → Set.has s.eose_attempted k ≡ true
    → IsCounted 0 none (fail_url k s)
unfolding fail_url
fail_url-IsCounted k s i h = lowered (settle_eose k false s) (settle_eose-IsCounted 1 k s i false h)

reasoned :
    (reason : Text) (s : FanIn)
    → IsCounted 1 none s
    → IsCounted 1 none (record s { last_reason = some reason })
reasoned reason s i = record {
  distinct = i.distinct;
  eoses = i.eoses;
  covered = i.covered;
  exact = i.exact;
  known = i.known;
  settled = i.settled;
  fires = i.fires;
}

on_close-IsCounted :
    (k : Key) (reason : Text) (s : FanIn)
    → IsCounted 1 (some k) s
    → Set.has s.eose_attempted k ≡ true
    → IsCounted 0 none (on_close k reason s)
unfolding on_close
on_close-IsCounted k reason s i h =
    lowered _ (reasoned reason (settle_eose k false s) (settle_eose-IsCounted 1 k s i false h))

pub end_sub-IsCounted :
    (n : ℕ) (o : Option Url) (reason : Text) (s : FanIn)
    → get_elem? s.urls n ≡ o
    → IsCounted 0 none s
    → IsCounted 0 none (end_sub n o reason s)
unfolding end_sub
end_sub-IsCounted n none reason s g i = i
end_sub-IsCounted n (some u) reason s g i =
    if_elim (IsCounted 0 none) (is_attached u.phase)
      (λ e.
        on_close-IsCounted (eose_key u) reason (move n ended s)
          (end_attempt s n u i g (ground arith)) (i.known n u g))
      (λ e. i)

pub close_each-IsCounted :
    (ns : List ℕ) (reason : Text) (s : FanIn)
    → IsCounted 0 none s
    → IsCounted 0 none (close_each ns reason s)
unfolding close_each
close_each-IsCounted [] reason s i = i
close_each-IsCounted (n ∷ ns) reason s i =
    close_each-IsCounted ns reason _ (end_sub-IsCounted n (get_elem? s.urls n) reason s refl i)

-- a change that the counts do not see
pub closing : (s : FanIn) → IsCounted 0 none s → IsCounted 0 none (settle_close s)
closing s i = record {
  distinct = i.distinct;
  eoses = i.eoses;
  covered = i.covered;
  exact = λ open_. cc;
  known = i.known;
  settled = λ n u g open_ e. cc;
  fires = λ open_ quiet. cc;
}

pub calling : (c : Call) (s : FanIn) → IsCounted 0 none s → IsCounted 0 none (call c s)
calling c s i = record {
  distinct = i.distinct;
  eoses = i.eoses;
  covered = i.covered;
  exact = i.exact;
  known = i.known;
  settled = i.settled;
  fires = i.fires;
}

pub close_all-IsCounted :
    (reason : Option Text) (s : FanIn) → IsCounted 0 none s → IsCounted 0 none (close_all reason s)
unfolding close_all
close_all-IsCounted reason s i =
    if_elim (IsCounted 0 none) s.closed (λ e. i)
      (λ e. calling _ _ (
        close_each-IsCounted s.closers (or_else reason (text "closed by client")) (settle_close s)
          (closing s i)))

attaching :
    (n : ℕ) (u : Url) (s : FanIn)
    → get_elem? s.urls n ≡ some u
    → u.phase ≡ connecting
    → IsCounted 0 none s
    → IsCounted 0 none (record (move n attached s) { closers = s.closers ++ (n ∷ []) })
attaching n u s g c i = record {
  distinct = i.distinct;
  eoses = i.eoses;
  covered = omega (arith, i.covered, live-set_phase s.urls n attached u g, one_live);
  exact = λ open_. omega (arith, i.exact open_, live-set_phase s.urls n attached u g, one_live);
  known =
      λ m v e. ground (arith, i.known m v, i.known n u g, get-set_phase s.urls n attached u m g);
  settled = λ m v e open_ h. ground (arith, i.settled m v, get-set_phase s.urls n attached u m g);
  fires = i.fires;
}
  where
    one_live : one (is_live u.phase) ≡ 1
    one_live = rw c refl

-- the attempt is dropped, where the fan-in is closed
ending :
    (n : ℕ) (u : Url) (s : FanIn)
    → get_elem? s.urls n ≡ some u
    → s.closed ≡ true
    → IsCounted 0 none s
    → IsCounted 0 none (move n ended s)
ending n u s g c i = record {
  distinct = i.distinct;
  eoses = i.eoses;
  covered = omega (arith, i.covered, live-set_phase s.urls n ended u g);
  exact = λ open_. cc;
  known = λ m v e. ground (arith, i.known m v, i.known n u g, get-set_phase s.urls n ended u m g);
  settled = λ m v e open_ h. cc;
  fires = i.fires;
}

pub connect-IsCounted :
    (n : ℕ) (u : Url) (c : Connection) (s : FanIn)
    → get_elem? s.urls n ≡ some u
    → u.phase ≡ connecting
    → IsCounted 0 none s
    → IsCounted 0 none (connect n u c s)
unfolding connect
connect-IsCounted n u unreachable s g e i =
    fail_url-IsCounted (eose_key u) (move n ended s) (end_attempt s n u i g (rw e refl))
      (i.known n u g)
connect-IsCounted n u throws s g e i =
    if_elim (IsCounted 0 none) s.closed (λ c. ending n u s g c i)
      (λ c.
        fail_url-IsCounted (eose_key u) (move n ended s) (end_attempt s n u i g (rw e refl))
          (i.known n u g))
connect-IsCounted n u subscribed s g e i =
    if_elim (IsCounted 0 none) s.closed (λ c. ending n u s g c i) (λ c. attaching n u s g e i)

pub on_event-IsCounted :
    (u : Url) (event : Event) (have valid : Bool) (s : FanIn)
    → IsCounted 0 none s
    → IsCounted 0 none (on_event u event have valid s)
unfolding on_event
on_event-IsCounted u event have valid s i =
    if_elim (IsCounted 0 none) (Set.has s.seen event.id || have || not valid)
      (λ e. calling (received event.id u.key) s i)
      (λ e. record {
        distinct = i.distinct;
        eoses = i.eoses;
        covered = i.covered;
        exact = i.exact;
        known = i.known;
        settled = i.settled;
        fires = i.fires;
      })

pub on_eose-IsCounted :
    (n : ℕ) (u : Url) (s : FanIn)
    → get_elem? s.urls n ≡ some u
    → IsCounted 0 none s
    → IsCounted 0 none (settle_eose (eose_key u) true s)
on_eose-IsCounted n u s g i = settle_eose-IsCounted 0 (eose_key u) s weak true (i.known n u g)
  where
    weak : IsCounted 0 (some (eose_key u)) s
    weak = record {
      distinct = i.distinct;
      eoses = i.eoses;
      covered = i.covered;
      exact = i.exact;
      known = i.known;
      settled = λ m v e open_ h. ground (arith, i.settled m v e open_ h);
      fires = i.fires;
    }

pub on_eose_timer-IsCounted : (s : FanIn) → IsCounted 0 none s → IsCounted 0 none (on_eose_timer s)
unfolding on_eose_timer fire_eose
on_eose_timer-IsCounted s i =
    if_elim (IsCounted 0 none) (s.closed || s.eose_fired)
      (λ e. record {
        distinct = i.distinct;
        eoses = i.eoses;
        covered = i.covered;
        exact = i.exact;
        known = i.known;
        settled = i.settled;
        fires = i.fires;
      })
      (λ e. record {
        distinct = i.distinct;
        eoses = i.eoses;
        covered = i.covered;
        exact = i.exact;
        known = i.known;
        settled = i.settled;
        fires = λ open_ quiet. cc;
      })

pub no_relays-IsCounted : (s : FanIn) → IsCounted 0 none s → IsCounted 0 none (no_relays s)
unfolding no_relays
no_relays-IsCounted s i =
    if_elim (IsCounted 0 none) s.closed (λ e. i) (λ e. calling _ _ (closing s i))

-- an attempt of the loop, where the timer is not set and no attempt has ended
pub attempt-IsCounted :
    (job : ℕ) (key : Text) (s : FanIn)
    → s.eose_done ≡ []
    → s.saw_eose ≡ false
    → IsCounted 0 none s
    → IsCounted 0 none (attempt job key s)
unfolding attempt Set.has
attempt-IsCounted job key s d w i = record {
  distinct = IsDistinct-add s.eose_attempted (job, key) i.distinct;
  eoses = ground (
    arith,
    i.eoses,
    Set.add_present s.eose_attempted (job, key),
    unsettled-attempt s.eose_done (job, key) s.eose_attempted,
  );
  covered = omega (arith, i.covered);
  exact = λ open_. omega (arith, i.exact open_);
  known = known;
  settled = settled;
  fires = λ open_ quiet. ground arith;
}
  where
    known :
        (n : ℕ) (u : Url)
        → get_elem? (attempt job key s).urls n ≡ some u
        → Set.has (attempt job key s).eose_attempted (eose_key u) ≡ true
    known zero u e = ground (
      arith,
      Set.has-add s.eose_attempted (job, key) (eose_key u),
      eq_iff (job, key) (eose_key u),
    )
    known (suc n) u e =
        ground (arith, i.known n u e, Set.has-add s.eose_attempted (job, key) (eose_key u))

    settled :
        (n : ℕ) (u : Url)
        → get_elem? (attempt job key s).urls n ≡ some u
        → s.closed ≡ false
        → u.phase ≡ ended
        → (Set.has s.eose_done (eose_key u) || is_key none (eose_key u)) ≡ true
    settled zero u e open_ h = ground arith
    settled (suc n) u e open_ h = i.settled n u e open_ h
