-- ===== src/Relay/FanIn/Sound.antt =====
-- The invariant of src/relay/fan-in.ts: what its counters count, and which callbacks were called.
use nostr_js.Base.{
  ◌≡◌, refl, Bool, true, false, ◌&&◌, ◌||◌, not, Option, none, some, List, [], ◌∷◌, arith, ℕ, zero,
  suc, ◌+◌, ◌-◌, ◌≤◌, nat_beq, leb, if◌then◌else◌, get_elem?, text_eq, nat_eq, ◌==◌, eq_iff,
  Bool-cases, inl, inr, if_elim,
}
use nostr_js.Runtime.Set
use nostr_js.Runtime.Set.{Set}
use nostr_js.Relay.FanIn.{
  Key, key_eq, Phase, ended, Url, eose_key, FanIn, fire_eose, settle_eose, finish, less_pending,
  set_phase, move,
}

abbrev pub one : Bool → ℕ
one true = 1
one false = 0

abbrev pub is_live : Phase → Bool
is_live ended = false
is_live _ = true

abbrev pub live : List Url → ℕ
live [] = 0
live (u ∷ urls) = one (is_live u.phase) + live urls

-- how many of the keys are not settled
abbrev pub unsettled : Set Key → List Key → ℕ
unsettled done [] = 0
unsettled done (k ∷ keys) = one (not (Set.has done k)) + unsettled done keys

abbrev pub IsDistinct : List Key → Type 0
IsDistinct [] = Unit
IsDistinct (k ∷ keys) = (Set.has keys k ≡ false) × IsDistinct keys

unsettled_same :
    (done : Set Key) (k : Key) (keys : List Key)
    → Set.has keys k ≡ false
    → unsettled (Set.add done k) keys ≡ unsettled done keys
unfolding Set.has
unsettled_same done k [] h = refl
unsettled_same done k (j ∷ keys) h =
    ground (arith, unsettled_same done k keys, Set.has-add done k j, eq_iff j k, eq_iff k j)

-- Settling a key that was attempted, and not settled, lowers the count by one.
pub unsettled-add :
    (done : Set Key) (k : Key) (keys : List Key)
    → IsDistinct keys
    → Set.has keys k ≡ true
    → Set.has done k ≡ false
    → suc (unsettled (Set.add done k) keys) ≡ unsettled done keys
unfolding Set.has
unsettled-add done k [] d h n = cc
unsettled-add done k (j ∷ keys) d h n = ground (
  arith,
  unsettled-add done k keys d.1,
  unsettled_same done j keys d.0,
  Set.has-add done k j,
  eq_iff j k,
  eq_iff k j,
)

pub IsDistinct-add : (keys : List Key) (k : Key) → IsDistinct keys → IsDistinct (Set.add keys k)
unfolding Set.has Set.add
IsDistinct-add [] k d = (refl, tt)
IsDistinct-add (j ∷ keys) k d =
    ground (arith, IsDistinct-add keys k d.1, Set.has-add keys k j, eq_iff j k, eq_iff k j)

pub unsettled-attempt :
    (done : Set Key) (k : Key) (keys : List Key)
    → Set.has keys k ≡ false
    → Set.has done k ≡ false
    → unsettled done (Set.add keys k) ≡ suc (unsettled done keys)
unfolding Set.has Set.add
unsettled-attempt done k [] h n = ground arith
unsettled-attempt done k (j ∷ keys) h n = ground (arith, unsettled-attempt done k keys)

pub get-set_phase :
    (urls : List Url) (n : ℕ) (phase : Phase) (u : Url) (m : ℕ)
    → get_elem? urls n ≡ some u
    → get_elem? (set_phase n phase urls) m
      ≡ (if nat_beq n m then some (record u { phase = phase }) else get_elem? urls m)
get-set_phase [] n phase u m e = ground arith
get-set_phase (v ∷ urls) zero phase u zero e = ground arith
get-set_phase (v ∷ urls) zero phase u (suc m) e = ground arith
get-set_phase (v ∷ urls) (suc n) phase u zero e = ground arith
get-set_phase (v ∷ urls) (suc n) phase u (suc m) e =
    ground (arith, get-set_phase urls n phase u m e)

pub live-set_phase :
    (urls : List Url) (n : ℕ) (phase : Phase) (u : Url)
    → get_elem? urls n ≡ some u
    → live (set_phase n phase urls) + one (is_live u.phase) ≡ live urls + one (is_live phase)
live-set_phase [] n phase u e = ground arith
live-set_phase (v ∷ urls) zero phase u e = ground arith
live-set_phase (v ∷ urls) (suc n) phase u e = ground (arith, live-set_phase urls n phase u e)

abbrev pub is_key : Option Key → Key → Bool
is_key none k = false
is_key (some j) k = j == k

-- The counters count the attempts and the keys, where `d` attempts are over that `pending` still
-- counts, and `x` may name a key that is not settled though its attempt is over.
pub record IsCounted (d : ℕ) (x : Option Key) (s : FanIn) : Type 0 where
  pub distinct : IsDistinct s.eose_attempted
  pub eoses : s.pending_eose ≡ unsettled s.eose_done s.eose_attempted
  pub covered : live s.urls + d ≤ s.pending
  pub exact : s.closed ≡ false → s.pending ≡ live s.urls + d
  pub known :
      (n : ℕ) (u : Url) → get_elem? s.urls n ≡ some u → Set.has s.eose_attempted (eose_key u) ≡ true
  pub settled :
      (n : ℕ) (u : Url)
      → get_elem? s.urls n ≡ some u
      → s.closed ≡ false
      → u.phase ≡ ended
      → (Set.has s.eose_done (eose_key u) || is_key x (eose_key u)) ≡ true
  pub fires :
      s.closed ≡ false → s.eose_fired ≡ false → (nat_beq s.pending_eose 0 && s.saw_eose) ≡ false

module _ (d : ℕ) (k : Key) (s : FanIn) (i : IsCounted d (some k) s) where
  settled_key : Set.has s.eose_done k ≡ true → IsCounted d none s
  settled_key h = record {
    distinct = i.distinct;
    eoses = i.eoses;
    covered = i.covered;
    exact = i.exact;
    known = i.known;
    settled = λ n u g open_ e. ground (arith, i.settled n u g open_ e, eq_iff k (eose_key u));
    fires = i.fires;
  }

  pub settle_eose-IsCounted :
      (eosed : Bool) → Set.has s.eose_attempted k ≡ true → IsCounted d none (settle_eose k eosed s)
  unfolding settle_eose fire_eose
  settle_eose-IsCounted eosed h = elim (Bool-cases (Set.has s.eose_done k)) [
    | inl e ↦ rw e (settled_key e)
    | inr e ↦ rw e (
        if_elim (IsCounted d none) (nat_beq (s.pending_eose - 1) 0 && (s.saw_eose || eosed))
          (λ all.
            if_elim (IsCounted d none) (s.closed || s.eose_fired)
              (λ over. record {
                distinct = i.distinct;
                eoses = counted e;
                covered = i.covered;
                exact = i.exact;
                known = i.known;
                settled = marked;
                fires = λ open_ quiet. ground arith;
              })
              (λ fresh. record {
                distinct = i.distinct;
                eoses = counted e;
                covered = i.covered;
                exact = i.exact;
                known = i.known;
                settled = marked;
                fires = λ open_ quiet. cc;
              }))
          (λ waits. record {
            distinct = i.distinct;
            eoses = counted e;
            covered = i.covered;
            exact = i.exact;
            known = i.known;
            settled = marked;
            fires = λ open_ quiet. waits;
          }))
  ]
    where
      counted :
          Set.has s.eose_done k ≡ false
          → s.pending_eose - 1 ≡ unsettled (Set.add s.eose_done k) s.eose_attempted
      counted e =
          omega (arith, i.eoses, unsettled-add s.eose_done k s.eose_attempted i.distinct h e)

      marked :
          (n : ℕ) (u : Url)
          → get_elem? s.urls n ≡ some u
          → s.closed ≡ false
          → u.phase ≡ ended
          → (Set.has (Set.add s.eose_done k) (eose_key u) || is_key none (eose_key u)) ≡ true
      marked n u g open_ e = ground (
        arith,
        i.settled n u g open_ e,
        eq_iff k (eose_key u),
        Set.has-add s.eose_done k (eose_key u),
      )

-- An attempt ends: its key is settled first, `pending` is lowered next.
pub end_attempt :
    (s : FanIn) (n : ℕ) (u : Url)
    → IsCounted 0 none s
    → get_elem? s.urls n ≡ some u
    → is_live u.phase ≡ true
    → IsCounted 1 (some (eose_key u)) (move n ended s)
end_attempt s n u i g l = record {
  distinct = i.distinct;
  eoses = i.eoses;
  covered = omega (arith, i.covered, live-set_phase s.urls n ended u g, one_live);
  exact = λ open_. omega (arith, i.exact open_, live-set_phase s.urls n ended u g, one_live);
  known = λ m v e. ground (arith, i.known m v, i.known n u g, get-set_phase s.urls n ended u m g);
  settled = λ m v e open_ h.
      ground (
        arith,
        i.settled m v,
        get-set_phase s.urls n ended u m g,
        eq_iff (eose_key u) (eose_key v),
      );
  fires = i.fires;
}
  where
    one_live : one (is_live u.phase) ≡ 1
    one_live = rw l refl

pub lowered : (s : FanIn) → IsCounted 1 none s → IsCounted 0 none (finish (less_pending s))
unfolding finish
lowered s i =
    if_elim (IsCounted 0 none) (leb (s.pending - 1) 0 && not s.closed)
      (λ e. record {
        distinct = i.distinct;
        eoses = i.eoses;
        covered = omega (arith, i.covered);
        exact = λ open_. ground arith;
        known = i.known;
        settled = λ n u g open_ e. ground arith;
        fires = λ open_ quiet. ground arith;
      })
      (λ e. record {
        distinct = i.distinct;
        eoses = i.eoses;
        covered = omega (arith, i.covered);
        exact = λ open_. omega (arith, i.exact open_);
        known = i.known;
        settled = i.settled;
        fires = i.fires;
      })
