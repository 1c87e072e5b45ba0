-- ===== src/Relay/FanIn/Heard.antt =====
-- Which EOSE messages a fan-in of src/relay/fan-in.ts has had, and what its fields hold of them.
use nostr_js.Base.{
  ◌≡◌, refl, sym, ◌∙◌, ap, Bool, true, false, ◌&&◌, ◌||◌, not, Option, none, some, List, [], ◌∷◌,
  arith, ℕ, zero, suc, ◌-◌, nat_beq, get_elem?, Text, text_eq, nat_eq, ◌==◌, eq_iff, if_elim,
}
use nostr_js.Runtime.Set
use nostr_js.Runtime.Set.{Set}
use nostr_js.Relay.FanIn.{
  Key, key_eq, Phase, connecting, attached, ended, Url, eose_key, FanIn, fire_eose, settle_eose,
  set_phase, move,
}
use nostr_js.Relay.FanIn.Sound.{is_live, unsettled, IsDistinct, get-set_phase, is_key}
use nostr_js.Relay.FanIn.Reach.{Step, eose_step, Reachable, start, next}

-- the keys of the attempts that have had an EOSE message, by the steps that led to a state
abbrev pub heard_in : {s t : FanIn} → Step s t → Set Key → Set Key
heard_in (eose_step n u g e) h = eose_key u ∷ h
heard_in _ h = h

abbrev pub heard :
    {relay_url_key : Text → Text} {jobs : List (List Text)} {T : Bool} {s : FanIn}
    → Reachable relay_url_key jobs T s
    → Set Key
heard start = []
heard (next reached step) = heard_in step (heard reached)

abbrev pub is_some_key : Set Key → Bool
is_some_key [] = false
is_some_key (k ∷ h) = true

-- each attempt has had its EOSE message, or is over
abbrev pub all_over : Set Key → List Url → Bool
all_over h [] = true
all_over h (u ∷ urls) = (not (is_live u.phase) || Set.has h (eose_key u)) && all_over h urls

abbrev pub job_keys : List Url → List Key
job_keys [] = []
job_keys (u ∷ urls) = eose_key u ∷ job_keys urls

job_keys-set_phase :
    (n : ℕ) (phase : Phase) (urls : List Url) → job_keys (set_phase n phase urls) ≡ job_keys urls
job_keys-set_phase n phase [] = refl
job_keys-set_phase zero phase (u ∷ urls) = refl
job_keys-set_phase (suc n) phase (u ∷ urls) =
    ap (λ (ks : List Key). eose_key u ∷ ks) (job_keys-set_phase n phase urls)

has-job_keys :
    (urls : List Url) (n : ℕ) (u : Url)
    → get_elem? urls n ≡ some u
    → Set.has (job_keys urls) (eose_key u) ≡ true
unfolding Set.has
has-job_keys [] n u e = ground arith
has-job_keys (v ∷ urls) zero u e = ground (arith, eq_iff (eose_key v) (eose_key u))
has-job_keys (v ∷ urls) (suc n) u e = ground (arith, has-job_keys urls n u e)

-- two attempts have different keys
one_place :
    (urls : List Url) (n m : ℕ) (u v : Url)
    → IsDistinct (job_keys urls)
    → get_elem? urls n ≡ some u
    → get_elem? urls m ≡ some v
    → nat_beq n m ≡ false
    → (eose_key u == eose_key v) ≡ false
one_place [] n m u v d e f h = ground arith
one_place (w ∷ urls) zero zero u v d e f h = ground arith
one_place (w ∷ urls) zero (suc m) u v d e f h =
    ground (arith, d.0, has-job_keys urls m v f, eq_iff (eose_key u) (eose_key v))
one_place (w ∷ urls) (suc n) zero u v d e f h =
    ground (arith, d.0, has-job_keys urls n u e, eq_iff (eose_key u) (eose_key v))
one_place (w ∷ urls) (suc n) (suc m) u v d e f h =
    one_place urls n m u v d.1 e f (ground (arith, h))

-- The fields of an open fan-in hold what was heard, where `x` may name a key that is not settled though
-- its attempt is over.
pub record IsHeard (x : Option Key) (h : Set Key) (s : FanIn) : Type 0 where
  pub apart : IsDistinct (job_keys s.urls)
  pub spread : (done : Set Key) → unsettled done s.eose_attempted ≡ unsettled done (job_keys s.urls)
  pub saw : s.saw_eose ≡ is_some_key h
  pub done :
      (n : ℕ) (u : Url)
      → get_elem? s.urls n ≡ some u
      → (Set.has s.eose_done (eose_key u) || is_key x (eose_key u))
        ≡ (not (is_live u.phase) || Set.has h (eose_key u))

abbrev pub Hears : Set Key → FanIn → Type 0
Hears h s = s.closed ≡ false → IsHeard none h s

pub end_attempt-IsHeard :
    (h : Set Key) (s : FanIn) (n : ℕ) (u : Url)
    → IsHeard none h s
    → get_elem? s.urls n ≡ some u
    → IsHeard (some (eose_key u)) h (move n ended s)
end_attempt-IsHeard h s n u i g = record {
  apart = rw (job_keys-set_phase n ended s.urls) i.apart;
  spread = λ d. i.spread d ∙ ap (unsettled d) (sym (job_keys-set_phase n ended s.urls));
  saw = i.saw;
  done = λ m v e. ground (
    arith,
    i.done m v,
    get-set_phase s.urls n ended u m g,
    one_place s.urls n m u v i.apart g,
    eq_iff (eose_key u) (eose_key v),
  );
}

pub attaching-IsHeard :
    (h : Set Key) (s : FanIn) (n : ℕ) (u : Url) (closers : List ℕ)
    → IsHeard none h s
    → get_elem? s.urls n ≡ some u
    → u.phase ≡ connecting
    → IsHeard none h (record (move n attached s) { closers = closers })
attaching-IsHeard h s n u closers i g c = record {
  apart = rw (job_keys-set_phase n attached s.urls) i.apart;
  spread = λ d. i.spread d ∙ ap (unsettled d) (sym (job_keys-set_phase n attached s.urls));
  saw = i.saw;
  done =
      λ m v e. ground (arith, i.done m v, i.done n u g, get-set_phase s.urls n attached u m g, c);
}

-- what `settleEose` does with the fields
pub record IsMarked (k : Key) (eosed : Bool) (s t : FanIn) : Type 0 where
  pub urls : t.urls ≡ s.urls
  pub closed : t.closed ≡ s.closed
  pub attempted : t.eose_attempted ≡ s.eose_attempted
  pub done : (j : Key) → Set.has t.eose_done j ≡ (k == j || Set.has s.eose_done j)
  pub saw : t.saw_eose ≡ (s.saw_eose || (eosed && not (Set.has s.eose_done k)))

pub settle_eose-IsMarked :
    (k : Key) (eosed : Bool) (s : FanIn) → IsMarked k eosed s (settle_eose k eosed s)
unfolding settle_eose fire_eose
settle_eose-IsMarked k eosed s =
    if_elim (IsMarked k eosed s) (Set.has s.eose_done k)
      (λ e. record {
        urls = refl;
        closed = refl;
        attempted = refl;
        done = λ j. ground (arith, e, eq_iff k j);
        saw = ground (arith, e);
      })
      (λ e.
        if_elim (IsMarked k eosed s) (nat_beq (s.pending_eose - 1) 0 && (s.saw_eose || eosed))
          (λ all.
            if_elim (IsMarked k eosed s) (s.closed || s.eose_fired) (λ over. marked e)
              (λ fresh. record {
                urls = refl;
                closed = refl;
                attempted = refl;
                done = λ j. Set.has-add s.eose_done k j;
                saw = ground (arith, e);
              }))
          (λ waits. marked e))
  where
    marked :
        Set.has s.eose_done k ≡ false
        → IsMarked k eosed s (record s {
          eose_done = Set.add s.eose_done k;
          saw_eose = s.saw_eose || eosed;
          pending_eose = s.pending_eose - 1;
        })
    marked e = record {
      urls = refl;
      closed = refl;
      attempted = refl;
      done = λ j. Set.has-add s.eose_done k j;
      saw = ground (arith, e);
    }
