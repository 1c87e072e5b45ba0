-- ===== src/Relay/OkTracker/Sound.antt =====
-- The invariant of src/relay/ok-tracker.ts. `track` overwrites the entry of its id, so a waiter can lose
-- its entry to a later one of the same id.
use nostr_js.Base.{
  ◌≡◌, refl, sym, ◌∙◌, ◌≢◌, Bool, true, false, ◌||◌, not, Option, none, some, List, [], ◌∷◌, arith,
  ◌<◌, nat_beq, any, filter, Text, text_eq, eq_iff, if_elim,
}
use nostr_js.Runtime.Map
use nostr_js.Core.Event.{Event}
use nostr_js.Relay.OkTracker.{
  Ref, Timer, Promise, pending, OkTracker, same_timer, clear_timeout, is_ref, owns, deliver,
  settle_promise, clear_timer, drop_entry, finish, settle, register, restart_timer, arm,
  new_tracker,
}

abbrev pub has_timer : OkTracker → Ref → Bool
has_timer s q = any (λ t. nat_beq t.1 q) s.timers

abbrev pub has_window : OkTracker → Ref → Bool
has_window s q = any (λ w. nat_beq w.0 q) s.windows

-- no later waiter has the id
abbrev pub IsLatest : OkTracker → Ref → Type 0
IsLatest s q = (p : Ref) → q < p → p < s.next → (s.waiters p).id ≢ (s.waiters q).id

-- The invariant, where `x` may name a waiter for which no timer needs to be armed.
pub record IsSound (x : Option Ref) (s : OkTracker) : Type 0 where
  pub owner :
      (q : Ref) → q < s.next → (s.waiters q).promise ≡ pending → IsLatest s q → owns s q ≡ true
  pub owned :
      (id : Text) (q : Ref)
      → Map.get s.entries id ≡ some q
      → (q < s.next) × ((s.waiters q).id ≡ id) × ((s.waiters q).promise ≡ pending)
  pub unique : Map.IsUnique s.entries
  pub awaited : (q : Ref) → has_window s q ≡ true → q < s.next
  pub keeper : (q : Ref) (t : Timer) → (s.waiters q).timer ≡ some t → t.1 ≡ q
  pub awake :
      (q : Ref)
      → q < s.next
      → (s.waiters q).promise ≡ pending
      → owns s q ≡ true
      → is_ref x q ≡ false
      → (has_timer s q || has_window s q) ≡ true

-- a waiter that is the latest of its id after a step without a new waiter was so before
pub still_owner :
    {x : Option Ref} (s u : OkTracker)
    → IsSound x s
    → ((p : Ref) → (u.waiters p).id ≡ (s.waiters p).id)
    → u.next ≡ s.next
    → (q : Ref) → q < s.next
    → IsLatest u q
    → (s.waiters q).promise ≡ pending
    → owns s q ≡ true
still_owner s u i same n q h l e =
    i.owner q h e (λ p k b f. l p k (omega (arith, b, n)) (same p ∙ f ∙ sym (same q)))

pub new_tracker-IsSound : IsSound none new_tracker
unfolding Map.get any
new_tracker-IsSound = record {
  owner = λ q h p l. ground arith;
  owned = λ id q e. ground arith;
  unique = tt;
  awaited = λ q e. cc (e);
  keeper = λ q t e. ground arith;
  awake = λ q h p o x. ground arith;
}

pub weaken : {s : OkTracker} (r : Ref) → IsSound none s → IsSound (some r) s
weaken r i = record {
  owner = i.owner;
  owned = i.owned;
  unique = i.unique;
  awaited = i.awaited;
  keeper = i.keeper;
  awake = λ q h p o x. i.awake q h p o refl;
}

pub disowned : (r : Ref) (s : OkTracker) → IsSound (some r) s → owns s r ≡ false → IsSound none s
disowned r s i e = record {
  owner = i.owner;
  owned = i.owned;
  unique = i.unique;
  awaited = i.awaited;
  keeper = i.keeper;
  awake = λ q h p o x. ground (arith, i.awake q h p o);
}

kept_timers :
    (t : Timer) (q : Ref) (timers : List Timer)
    → t.1 ≢ q
    → any (λ u. nat_beq u.1 q) (filter (λ u. not (same_timer t u)) timers)
      ≡ any (λ u. nat_beq u.1 q) timers
unfolding any filter
kept_timers t q [] h = refl
kept_timers t q (u ∷ timers) h = ground (arith, kept_timers t q timers h)

any_clear :
    (o : Option Timer) (r q : Ref) (timers : List Timer)
    → ((t : Timer) → o ≡ some t → t.1 ≡ r)
    → r ≢ q
    → any (λ u. nat_beq u.1 q) (clear_timeout o timers) ≡ any (λ u. nat_beq u.1 q) timers
any_clear none r q timers k h = refl
any_clear (some t) r q timers k h = kept_timers t q timers (λ e. h (sym (k t refl) ∙ e))

pub clear_timer-IsSound :
    (r : Ref) (s : OkTracker) → IsSound (some r) s → IsSound (some r) (clear_timer r s)
unfolding clear_timer
clear_timer-IsSound r s i = record {
  owner =
      λ q h p l. ground (arith, still_owner s (clear_timer r s) i (λ p. ground arith) refl q h l);
  owned = λ id q g. ground (arith, i.owned id q g);
  unique = i.unique;
  awaited = i.awaited;
  keeper = λ q u g. ground (arith, i.keeper q u);
  awake = λ q h p o x.
      ground (arith, i.awake q h, any_clear (s.waiters r).timer r q s.timers (i.keeper r));
}

abbrev pub close : Ref → Promise → OkTracker → OkTracker
close r outcome s = settle_promise r outcome (drop_entry r s)

pub close-IsSound :
    (r : Ref) (outcome : Promise) (s : OkTracker)
    → outcome ≢ pending
    → IsSound (some r) s
    → IsSound none (close r outcome s)
unfolding settle_promise drop_entry deliver
close-IsSound r outcome s done i = record {
  owner = λ q h p l. ground (
    arith,
    still_owner s (close r outcome s) i (λ p. ground arith) refl q h l,
    Map.get-delete s.entries (s.waiters r).id (s.waiters q).id,
    eq_iff (s.waiters r).id (s.waiters q).id,
  );
  owned = λ id q g. ground (
    arith,
    i.owned id q,
    Map.get-delete s.entries (s.waiters r).id id,
    eq_iff (s.waiters r).id id,
  );
  unique =
      if_elim (Map.IsUnique {V = Ref}) (owns s r)
        (λ o. Map.delete-IsUnique s.entries (s.waiters r).id i.unique) (λ o. i.unique);
  awaited = i.awaited;
  keeper = λ q u g. ground (arith, i.keeper q u);
  awake = λ q h p o x. ground (
    arith,
    i.awake q h,
    Map.get-delete s.entries (s.waiters r).id (s.waiters q).id,
    eq_iff (s.waiters r).id (s.waiters q).id,
  );
}

pub settle-IsSound :
    (r : Ref) (outcome : Promise) (s : OkTracker)
    → outcome ≢ pending
    → IsSound (some r) s
    → IsSound none (settle r outcome s)
unfolding settle finish
settle-IsSound r outcome s done i =
    close-IsSound r outcome (clear_timer r s) done (clear_timer-IsSound r s i)

earlier_owner :
    (id : Text) (event : Option Event) (error : Text) (s : OkTracker)
    → IsSound none s
    → (q : Ref) → q < s.next
    → IsLatest (register id event error s) q
    → (s.waiters q).promise ≡ pending
    → (owns s q ≡ true) × (id ≢ (s.waiters q).id)
unfolding register
earlier_owner id event error s i q h l e = (
  i.owner q h e (λ p k b f. l p k (omega (arith, b)) (ground (arith, f))),
  λ f. l s.next h (omega arith) (ground (arith, f)),
)

pub register-IsSound :
    (id : Text) (event : Option Event) (error : Text) (s : OkTracker)
    → IsSound none s
    → IsSound none (register id event error s)
unfolding register any
register-IsSound id event error s i = record {
  owner = λ q h p l. ground (
    arith,
    λ (b : q < s.next). earlier_owner id event error s i q b l,
    Map.get-set s.entries id s.next (s.waiters q).id,
    Map.get-set s.entries id s.next id,
    eq_iff id (s.waiters q).id,
    eq_iff id id,
  );
  owned = λ k q g. ground (arith, i.owned k q, Map.get-set s.entries id s.next k, eq_iff id k);
  unique = Map.set-IsUnique s.entries id s.next i.unique;
  awaited = λ q e. omega (arith, i.awaited q e);
  keeper = λ q u g. ground (arith, i.keeper q u);
  awake = λ q h p o x. ground (
    arith,
    i.awake q,
    Map.get-set s.entries id s.next (s.waiters q).id,
    eq_iff id (s.waiters q).id,
  );
}

pub arm-IsSound : (r : Ref) (s : OkTracker) → IsSound (some r) s → IsSound none (arm r s)
unfolding arm any
arm-IsSound r s i = record {
  owner = λ q h p l. ground (arith, still_owner s (arm r s) i (λ p. ground arith) refl q h l);
  owned = λ id q g. ground (arith, i.owned id q g);
  unique = i.unique;
  awaited = i.awaited;
  keeper = λ q u g. ground (arith, i.keeper q u);
  awake = λ q h p o x. ground (arith, i.awake q h);
}

pub is_ref→some : (o : Option Ref) (r : Ref) → is_ref o r ≡ true → o ≡ some r
is_ref→some o r e = ground arith

pub restart-arm :
    (r : Ref) (s : OkTracker) → owns s r ≡ true → restart_timer (s.waiters r).id s ≡ arm r s
unfolding restart_timer
restart-arm r s e = rw (is_ref→some (Map.get s.entries (s.waiters r).id) r e, restart_timer) refl
