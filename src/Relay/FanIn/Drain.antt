-- ===== src/Relay/FanIn/Drain.antt =====
-- When every relay of a fan-in of src/relay/fan-in.ts has failed or ended, the fan-in is closed.
use nostr_js.Base.{
  ◌≡◌, refl, sym, ◌∙◌, ap, ◌≢◌, ◌⊎◌, Bool, true, false, ◌&&◌, not, Option, none, some, List, [],
  ◌∷◌, arith, ℕ, zero, suc, ◌≤◌, leb, if◌then◌else◌, length, get_elem?, Text, text_eq, nat_eq,
  Bool-cases, inl, inr, if_elim,
}
use nostr_js.Relay.FanIn.{
  Key, key_eq, is_attached, ended, Url, eose_key, Call, FanIn, settle_eose, finish, less_pending,
  set_phase, move, fail_url, unreachable, connect, on_close, end_sub,
}
use nostr_js.Relay.FanIn.Sound.{live, is_live, get-set_phase}
use nostr_js.Relay.FanIn.Reports.{is_onclose, times, is_closed_log}
use nostr_js.Relay.FanIn.Reach.{
  Holds, Step-Holds, Reachable, settle_eose-IsAside, end_step, connection_step,
}
use nostr_js.Relay.FanIn.Ends.{Reachable-Holds}

-- An attempt ends: its subscription by the relay, or the connection fails.
unfoldable pub give_up : Text → ℕ → Option Url → FanIn → FanIn
unfolding end_sub connect
give_up reason n none s = s
give_up reason n (some u) s =
    if is_attached u.phase
    then end_sub n (some u) reason s
    else if is_live u.phase
    then connect n u unreachable s
    else s

-- all of the first attempts end, the last one first
unfoldable pub give_up_all : Text → ℕ → FanIn → FanIn
unfolding give_up
give_up_all reason zero s = s
give_up_all reason (suc n) s = give_up_all reason n (give_up reason n (get_elem? s.urls n) s)

finish_urls : (s : FanIn) → (finish s).urls ≡ s.urls
unfolding finish
finish_urls s =
    if_elim (λ (t : FanIn). t.urls ≡ s.urls) (leb s.pending 0 && not s.closed) (λ e. refl)
      (λ e. refl)

ended_urls :
    (n : ℕ) (k : Key) (s : FanIn)
    → (settle_eose k false (move n ended s)).urls ≡ set_phase n ended s.urls
ended_urls n k s = (settle_eose-IsAside k false (move n ended s)).urls

give_up_urls :
    (reason : Text) (n : ℕ) (u : Url) (s : FanIn)
    → ((give_up reason n (some u) s).urls ≡ set_phase n ended s.urls)
      ⊎ (((give_up reason n (some u) s).urls ≡ s.urls) × (u.phase ≡ ended))
unfolding give_up end_sub on_close connect fail_url
give_up_urls reason n (u) s = elim (Bool-cases (is_attached u.phase)) [
  | inl e ↦ inl (
      rw e (
        finish_urls (
          less_pending (record (settle_eose (eose_key u) false (move n ended s)) {
            last_reason = some reason;
          }))
        ∙ ended_urls n (eose_key u) s))
  | inr e ↦ elim (Bool-cases (is_live u.phase)) [
    | inl l ↦ inl (
        rw e (
          rw l (
            finish_urls (less_pending (settle_eose (eose_key u) false (move n ended s)))
            ∙ ended_urls n (eose_key u) s)))
    | inr l ↦ inr (rw e (rw l (refl, ground arith)))
  ]
]

give_up-Holds :
    (T : Bool) (reason : Text) (n : ℕ) (o : Option Url) (s : FanIn)
    → get_elem? s.urls n ≡ o
    → Holds T s
    → Holds T (give_up reason n o s)
unfolding give_up
give_up-Holds T reason n none s g h = h
give_up-Holds T reason n (some u) s g h =
    if_elim (Holds T) (is_attached u.phase) (λ e. Step-Holds T (end_step n u reason g) h)
      (λ e.
        if_elim (Holds T) (is_live u.phase)
          (λ l. Step-Holds T (connection_step n u unreachable g (ground arith)) h) (λ l. h))

-- from the k-th on every attempt has ended
abbrev IsDone : ℕ → List Url → Type 0
IsDone k urls = (m : ℕ) (v : Url) → get_elem? urls m ≡ some v → k ≤ m → v.phase ≡ ended

give_up-IsDone :
    (reason : Text) (n : ℕ) (o : Option Url) (s : FanIn)
    → get_elem? s.urls n ≡ o
    → IsDone (suc n) s.urls
    → IsDone n (give_up reason n o s).urls × ((give_up reason n o s).urls ≡ [] → s.urls ≡ [])
unfolding give_up
give_up-IsDone reason n none s g d =
    (λ m v f h. ground (arith, d m v, ap (get_elem? s.urls) {x = m} {y = n}), λ h. h)
give_up-IsDone reason n (some u) s g d = elim (give_up_urls reason n u s) [
  | inl e ↦ (
    λ m v f h. ground (arith, d m v, get-set_phase s.urls n ended u m g, e),
    λ h. ground (arith, e),
  )
  | inr (e, p) ↦ (λ m v f h. ground (arith, d m v, e), λ h. sym e ∙ h)
]

give_up_all_lem :
    (T : Bool) (reason : Text) (k : ℕ) (s : FanIn)
    → Holds T s
    → IsDone k s.urls
    → Holds T (give_up_all reason k s)
      × IsDone 0 (give_up_all reason k s).urls
      × ((give_up_all reason k s).urls ≡ [] → s.urls ≡ [])
unfolding give_up_all
give_up_all_lem T reason zero s h d = (h, d, λ e. e)
give_up_all_lem T reason (suc n) s h d =
    let (done, same) = give_up-IsDone reason n (get_elem? s.urls n) s refl d in
    let (held, all, kept) =
      give_up_all_lem T reason n _ (give_up-Holds T reason n (get_elem? s.urls n) s refl h) done in
    (held, all, λ e. same (kept e))

beyond : (urls : List Url) → IsDone (length urls) urls
beyond [] m v e h = ground arith
beyond (u ∷ urls) zero v e h = ground arith
beyond (u ∷ urls) (suc m) v e h = beyond urls m v e (omega (arith, h))

none_live : (urls : List Url) → IsDone 0 urls → live urls ≡ 0
none_live [] d = refl
none_live (u ∷ urls) d =
    ground
      (arith, d 0 u refl (omega arith), none_live urls (λ m v e h. d (suc m) v e (omega arith)))

one_close : (calls : List Call) → is_closed_log calls ≡ true → times is_onclose calls ≡ 1
one_close [] h = ground arith
one_close (c ∷ calls) h = ground arith

-- From every reachable state of a fan-in with an attempt: when each attempt that is not over has come to its
-- end, the fan-in is closed, and onclose was called exactly once.
pub give_up_all-closed :
    (relay_url_key : Text → Text) (jobs : List (List Text)) (T : Bool) {s : FanIn}
    (reached : Reachable relay_url_key jobs T s) (reason : Text)
    → s.urls ≢ []
    → ((give_up_all reason (length s.urls) s).closed ≡ true)
      × (times is_onclose (give_up_all reason (length s.urls) s).calls ≡ 1)
give_up_all-closed relay_url_key jobs T {s} reached reason ne =
    let (h, d, kept) =
      give_up_all_lem T reason (length s.urls) s (Reachable-Holds relay_url_key jobs T reached)
        (beyond s.urls) in
    let idle : (give_up_all reason (length s.urls) s).closed ≡ false → ⊥ =
      λ o. omega (arith, h.running o (λ e. ne (kept e)), h.counted.exact o, none_live _ d) in
    let over : (give_up_all reason (length s.urls) s).closed ≡ true =
      elim (Bool-cases (give_up_all reason (length s.urls) s).closed) [
        | inl c ↦ c
        | inr o ↦ absurd (idle o)
      ] in
    (over, one_close _ (h.reported.closed_calls over))
