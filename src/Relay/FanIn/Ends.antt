-- ===== src/Relay/FanIn/Ends.antt =====
-- What src/relay/fan-in.ts reports in every state that it reaches, and that it comes to its end.
use nostr_js.Base.{
  ◌≡◌, refl, ◌≢◌, Bool, true, false, none, some, List, [], ◌∷◌, arith, ℕ, zero, suc, ◌≤◌, get_elem?,
  Text, text_eq, nat_eq,
}
use nostr_js.Runtime.Set
use nostr_js.Runtime.Set.{Set}
use nostr_js.Relay.FanIn.{
  key_eq, connecting, Url, FanIn, new_fan_in, attempt, attempt_urls, attempt_jobs,
  unique_relay_urls, fan_in,
}
use nostr_js.Relay.FanIn.Sound.{IsCounted, live}
use nostr_js.Relay.FanIn.Steps.{attempt-IsCounted}
use nostr_js.Relay.FanIn.Reports.{is_onclose, is_oneose, times, is_closed_log}
use nostr_js.Relay.FanIn.Reach.{Holds, Step-Holds, Reachable, start, next}

-- the state before anything has happened
pub record IsFresh (s : FanIn) : Type 0 where
  pub counted : IsCounted 0 none s
  pub none_done : s.eose_done ≡ []
  pub no_eose : s.saw_eose ≡ false
  pub open_ : s.closed ≡ false
  pub quiet : s.eose_fired ≡ false
  pub silent : s.calls ≡ []
  pub no_timer : s.eose_timer ≡ false
  pub waiting : (n : ℕ) (u : Url) → get_elem? s.urls n ≡ some u → u.phase ≡ connecting

attempt-IsFresh : (job : ℕ) (key : Text) (s : FanIn) → IsFresh s → IsFresh (attempt job key s)
unfolding attempt
attempt-IsFresh job key s f = record {
  counted = attempt-IsCounted job key s f.none_done f.no_eose f.counted;
  none_done = f.none_done;
  no_eose = f.no_eose;
  open_ = f.open_;
  quiet = f.quiet;
  silent = f.silent;
  no_timer = f.no_timer;
  waiting = waits;
}
  where
    waits : (n : ℕ) (u : Url) → get_elem? (attempt job key s).urls n ≡ some u → u.phase ≡ connecting
    waits zero u e = ground arith
    waits (suc n) u e = f.waiting n u e

attempt_urls-IsFresh :
    (job : ℕ) (keys : List Text) (s : FanIn) → IsFresh s → IsFresh (attempt_urls job keys s)
unfolding attempt_urls
attempt_urls-IsFresh job [] s f = f
attempt_urls-IsFresh job (key ∷ keys) s f =
    attempt_urls-IsFresh job keys _ (attempt-IsFresh job key s f)

attempt_jobs-IsFresh :
    (relay_url_key : Text → Text) (index : ℕ) (jobs : List (List Text)) (s : FanIn)
    → IsFresh s
    → IsFresh (attempt_jobs relay_url_key index jobs s)
unfolding attempt_jobs
attempt_jobs-IsFresh relay_url_key index [] s f = f
attempt_jobs-IsFresh relay_url_key index (urls ∷ jobs) s f =
    attempt_jobs-IsFresh relay_url_key (suc index) jobs _
      (attempt_urls-IsFresh index (unique_relay_urls relay_url_key urls) s f)

new-IsFresh : IsFresh new_fan_in
new-IsFresh = record {
  counted = record {
    distinct = tt;
    eoses = refl;
    covered = omega arith;
    exact = λ o. omega arith;
    known = λ n u e. ground arith;
    settled = λ n u e o h. ground arith;
    fires = λ o q. refl;
  };
  none_done = refl;
  no_eose = refl;
  open_ = refl;
  quiet = refl;
  silent = refl;
  no_timer = refl;
  waiting = λ n u e. ground arith;
}

attempt_counts :
    (urls : List Url)
    → ((n : ℕ) (u : Url) → get_elem? urls n ≡ some u → u.phase ≡ connecting)
    → urls ≢ []
    → 1 ≤ live urls
attempt_counts [] h ne = absurd (ne refl)
attempt_counts (u ∷ urls) h ne = ground (arith, h 0 u refl)

module _ (relay_url_key : Text → Text) (jobs : List (List Text)) (T : Bool) where
  fan_in-Holds : Holds T (fan_in relay_url_key jobs T)
  unfolding fan_in
  fan_in-Holds =
      let f = attempt_jobs-IsFresh relay_url_key 0 jobs new_fan_in new-IsFresh in
      let c = f.counted in
      record {
        counted = record {
          distinct = c.distinct;
          eoses = c.eoses;
          covered = c.covered;
          exact = c.exact;
          known = c.known;
          settled = c.settled;
          fires = c.fires;
        };
        reported = record {
          eosed_once = ground (arith, f.silent, f.quiet);
          open_calls = λ o. ground (arith, f.silent);
          closed_calls = λ h. cc (f.open_);
          timeless = (λ h. cc (f.open_), λ h. ground arith);
          reason = λ t h. cc (f.quiet);
          idle = λ h. cc (f.open_);
          held = λ n u e p. ground (arith, f.waiting n u e);
        };
        running = λ o ne. omega (arith, c.exact o, attempt_counts _ f.waiting ne);
      }

  pub Reachable-Holds : {s : FanIn} → Reachable relay_url_key jobs T s → Holds T s
  Reachable-Holds start = fan_in-Holds
  Reachable-Holds (next r step) = Step-Holds T step (Reachable-Holds r)

  -- In every reachable state oneose was called at most once; onclose was not called while the fan-in is
  -- open, and once it is closed onclose was called once, after every other call.
  pub calls_in_order :
      {s : FanIn} (reached : Reachable relay_url_key jobs T s)
      → (times is_oneose s.calls ≤ 1)
        × (s.closed ≡ false → times is_onclose s.calls ≡ 0)
        × (s.closed ≡ true → is_closed_log s.calls ≡ true)
  calls_in_order {s} reached =
      let i = (Reachable-Holds reached).reported in
      (ground (arith, i.eosed_once), i.open_calls, i.closed_calls)
