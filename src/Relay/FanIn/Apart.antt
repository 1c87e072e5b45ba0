-- ===== src/Relay/FanIn/Apart.antt =====
-- The attempts that src/relay/fan-in.ts makes at first: `uniqueRelayUrls` leaves no key twice in a job.
use nostr_js.Base.{
  ◌≡◌, refl, sym, ◌∙◌, true, false, not, List, [], ◌∷◌, arith, ℕ, suc, ◌+◌, ◌<◌, Text, text_eq,
  nat_eq, eq_iff, Bool-cases, inl, inr,
}
use nostr_js.Runtime.Set
use nostr_js.Runtime.Set.{Set}
use nostr_js.Relay.FanIn.{
  Key, key_eq, FanIn, new_fan_in, attempt, attempt_urls, attempt_jobs, unique_urls,
  unique_relay_urls,
}
use nostr_js.Relay.FanIn.Sound.{one, unsettled, IsDistinct}
use nostr_js.Relay.FanIn.Heard.{job_keys}

abbrev IsUnique : List Text → Type 0
IsUnique [] = Unit
IsUnique (k ∷ keys) = (Set.has keys k ≡ false) × IsUnique keys

unique_urls-new :
    (relay_url_key : Text → Text) (seen : Set Text) (urls : List Text) (k : Text)
    → Set.has seen k ≡ true
    → Set.has (unique_urls relay_url_key seen urls) k ≡ false
unfolding unique_urls Set.has
unique_urls-new relay_url_key seen [] k h = refl
unique_urls-new relay_url_key seen (url ∷ urls) k h = ground (
  arith,
  unique_urls-new relay_url_key seen urls k h,
  unique_urls-new relay_url_key (relay_url_key url ∷ seen) urls k,
  eq_iff (relay_url_key url) k,
)

unique_urls-IsUnique :
    (relay_url_key : Text → Text) (seen : Set Text) (urls : List Text)
    → IsUnique (unique_urls relay_url_key seen urls)
unfolding unique_urls Set.has
unique_urls-IsUnique relay_url_key seen [] = tt
unique_urls-IsUnique relay_url_key seen (url ∷ urls) =
    let key = relay_url_key url in
    elim (Bool-cases (Set.has seen key)) [
      | inl e ↦ rw (e, unique_urls) (unique_urls-IsUnique relay_url_key seen urls)
      | inr e ↦
          rw (e, unique_urls)
            (
              unique_urls-new relay_url_key (key ∷ seen) urls key (ground (arith, eq_iff key key)),
              unique_urls-IsUnique relay_url_key (key ∷ seen) urls,
            )
    ]

-- The keys that were attempted are those of the attempts, each once, and of jobs before `job`.
pub record IsApart (job : ℕ) (s : FanIn) : Type 0 where
  pub distinct : IsDistinct (job_keys s.urls)
  pub spread : (done : Set Key) → unsettled done s.eose_attempted ≡ unsettled done (job_keys s.urls)
  pub same : (k : Key) → Set.has s.eose_attempted k ≡ Set.has (job_keys s.urls) k
  pub below : (k : Key) → Set.has s.eose_attempted k ≡ true → k.0 < job

unsettled_added :
    (done : Set Key) (keys : List Key) (k : Key)
    → Set.has keys k ≡ false
    → unsettled done (Set.add keys k) ≡ one (not (Set.has done k)) + unsettled done keys
unfolding Set.has Set.add
unsettled_added done [] k h = refl
unsettled_added done (j ∷ keys) k h = ground (arith, unsettled_added done keys k)

attempt-IsApart :
    (job : ℕ) (key : Text) (s : FanIn)
    → Set.has s.eose_attempted (job, key) ≡ false
    → IsApart (suc job) s
    → IsApart (suc job) (attempt job key s)
unfolding attempt Set.has
attempt-IsApart job key s h i = record {
  distinct = (sym (i.same (job, key)) ∙ h, i.distinct);
  spread = λ d. ground (arith, i.spread d, unsettled_added d s.eose_attempted (job, key) h);
  same = λ k. ground (arith, i.same k, Set.has-add s.eose_attempted (job, key) k);
  below = λ k e.
      ground (arith, i.below k, Set.has-add s.eose_attempted (job, key) k, eq_iff (job, key) k);
}

attempt_urls-IsApart :
    (job : ℕ) (keys : List Text) (s : FanIn)
    → IsUnique keys
    → ((k : Text) → Set.has keys k ≡ true → Set.has s.eose_attempted (job, k) ≡ false)
    → IsApart (suc job) s
    → IsApart (suc job) (attempt_urls job keys s)
unfolding attempt_urls attempt Set.has
attempt_urls-IsApart job [] s d f i = i
attempt_urls-IsApart job (key ∷ keys) s d f i =
    attempt_urls-IsApart job keys (attempt job key s) d.1
      (λ k e. ground (
        arith,
        d.0,
        e,
        f k,
        Set.has-add s.eose_attempted (job, key) (job, k),
        eq_iff key k,
        eq_iff job job,
      ))
      (attempt-IsApart job key s (f key (ground (arith, eq_iff key key))) i)

new_job : {job : ℕ} (s : FanIn) → IsApart job s → IsApart (suc job) s
new_job s i = record {
  distinct = i.distinct;
  spread = i.spread;
  same = i.same;
  below = λ k e. omega (arith, i.below k e);
}

unused :
    {job : ℕ} (s : FanIn) (k : Text) → IsApart job s → Set.has s.eose_attempted (job, k) ≡ false
unused {job} s k i = ground (arith, i.below (job, k))

attempt_jobs-IsApart :
    (relay_url_key : Text → Text) (index : ℕ) (jobs : List (List Text)) (s : FanIn)
    → IsApart index s
    → (n : ℕ) × IsApart n (attempt_jobs relay_url_key index jobs s)
unfolding attempt_jobs
attempt_jobs-IsApart relay_url_key index [] s i = (index, i)
attempt_jobs-IsApart relay_url_key index (urls ∷ jobs) s i =
    attempt_jobs-IsApart relay_url_key (suc index) jobs _ (
      attempt_urls-IsApart index (unique_relay_urls relay_url_key urls) s
        (unique_urls-IsUnique relay_url_key [] urls) (λ k e. unused s k i) (new_job s i))

-- the attempts of a call of `fanIn`
pub attempts-IsApart :
    (relay_url_key : Text → Text) (jobs : List (List Text))
    → (n : ℕ) × (IsApart n (attempt_jobs relay_url_key 0 jobs new_fan_in))
unfolding Set.has
attempts-IsApart relay_url_key jobs =
    attempt_jobs-IsApart relay_url_key 0 jobs new_fan_in
      (record { distinct = tt; spread = λ d. refl; same = λ k. refl; below = λ k e. cc })
