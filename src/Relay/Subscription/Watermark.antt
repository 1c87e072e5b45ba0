-- ===== src/Relay/Subscription/Watermark.antt =====
-- The watermark of src/relay/subscription.ts, and what a replayed REQ asks for.
use nostr_js.Base.{
  ◌≡◌, refl, Bool, true, false, ◌&&◌, not, Option, none, some, List, [], ◌∷◌, arith, map, any, all,
  Text, text_eq, ◌==◌, if_elim,
}
use nostr_js.Base.Int.{ℤ, ltb_ℤ, int_eq}
use nostr_js.Runtime.Set
use nostr_js.Core.Event.{Event}
use nostr_js.Core.Filter.{Filter, match_filter, match_filters, match_since}
use nostr_js.Relay.Subscription.{
  Subscription, clamp, is_later, is_same, since_of, note_verified, deliver, new_subscription,
  is_at_watermark, replay, replay_filters,
}

abbrev pub later : ℤ → Filter → Filter
later since f = record f { since = some (since_of since f.since) }

match_since_lem :
    (since : ℤ) (own : Option ℤ) (e : Event)
    → match_since (some (since_of since own)) e
      ≡ (match_since own e && not (ltb_ℤ e.created_at since))
unfolding match_since
match_since_lem since none e = refl
match_since_lem since (some t) e = ground arith

match_later :
    (since : ℤ) (f : Filter) (e : Event)
    → match_filter (later since f) e ≡ (match_filter f e && not (ltb_ℤ e.created_at since))
unfolding match_filter
match_later since f e = ground (arith, match_since_lem since f.since e)

match_all_later :
    (since : ℤ) (filters : List Filter) (e : Event)
    → match_filters (map (later since) filters) e
      ≡ (match_filters filters e && not (ltb_ℤ e.created_at since))
unfolding match_filters any
match_all_later since [] e = refl
match_all_later since (f ∷ filters) e =
    ground (arith, match_later since f e, match_all_later since filters e)

-- whether a time is not before the watermark
abbrev pub is_due : Option ℤ → ℤ → Bool
is_due none time = true
is_due (some since) time = not (ltb_ℤ time since)

replay_lem :
    (mark : Option ℤ) (filters : List Filter) (e : Event)
    → match_filters (replay mark filters) e ≡ (match_filters filters e && is_due mark e.created_at)
replay_lem none filters e = ground arith
replay_lem (some since) filters e = match_all_later since filters e

-- The replayed filters match exactly the events that the filters match and that are not older than the
-- watermark, or all that the filters match if there is none.
pub match_filters-replay_filters :
    (s : Subscription) (e : Event)
    → match_filters (replay_filters s) e
      ≡ (match_filters s.filters e && is_due s.last_created_at e.created_at)
match_filters-replay_filters s e = replay_lem s.last_created_at s.filters e

-- an event with the time of the clock when it was verified
abbrev pub Receipt : Type 0
Receipt = Event × ℤ

abbrev pub time_of : Receipt → ℤ
time_of r = clamp r.0 r.1

-- the state after verified events, the last one first
unfoldable pub deliver_all : List Receipt → Subscription → Subscription
unfolding deliver
deliver_all [] s = s
deliver_all (r ∷ receipts) s = deliver r.0 r.1 (deliver_all receipts s)

-- whether a receipt has the id and the time of the watermark
abbrev pub is_marked : Text → Option ℤ → Receipt → Bool
is_marked id mark r = r.0.id == id && is_same (time_of r) mark

abbrev pub is_covered : Option ℤ → Receipt → Bool
is_covered mark r = not (is_later (time_of r) mark)

overtaken :
    (mark : Option ℤ) (ts : ℤ) (id : Text) (receipts : List Receipt)
    → all (is_covered mark) receipts ≡ true
    → is_later ts mark ≡ true
    → (all (is_covered (some ts)) receipts ≡ true) × (any (is_marked id (some ts)) receipts ≡ false)
unfolding all any
overtaken mark ts id [] h k = (refl, refl)
overtaken none ts id (r ∷ receipts) h k = ground arith
overtaken (some last) ts id (r ∷ receipts) h k =
    ground (arith, overtaken (some last) ts id receipts)

abbrev IsMarked : List Receipt → Subscription → Type 0
IsMarked receipts s =
    (all (is_covered s.last_created_at) receipts ≡ true)
    × ((i : Text) → is_at_watermark i s ≡ any (is_marked i s.last_created_at) receipts)

note_verified-IsMarked :
    (r : Receipt) (receipts : List Receipt) (s : Subscription)
    → IsMarked receipts s
    → IsMarked (r ∷ receipts) (note_verified r.0 r.1 s)
unfolding note_verified all any Set.has
note_verified-IsMarked r receipts s (covered, at) =
    if_elim (IsMarked (r ∷ receipts)) (is_later (time_of r) s.last_created_at)
      (λ e. (
        ground (arith, overtaken s.last_created_at (time_of r) [] receipts covered e),
        λ i. ground (arith, overtaken s.last_created_at (time_of r) i receipts covered e),
      ))
      (λ e.
        if_elim (IsMarked (r ∷ receipts)) (is_same (time_of r) s.last_created_at)
          (λ q. (
            ground (arith, covered, e),
            λ i. ground (arith, at i, q, Set.has-add s.ids_at_watermark r.0.id i),
          ))
          (λ q. (ground (arith, covered, e), λ i. ground (arith, at i, q))))

module _ (id : Text) (filters : List Filter) (close_on_eose has_timeout : Bool) where
  abbrev pub after : List Receipt → Subscription
  after receipts = deliver_all receipts (new_subscription id filters close_on_eose has_timeout)

  -- After any verified events, whose times count as at most the clock's, no event is later than the
  -- watermark, and the ids at the watermark are exactly those of the events whose time is its.
  pub watermark_lem :
      (receipts : List Receipt)
      → (all (is_covered (after receipts).last_created_at) receipts ≡ true)
        × ((i : Text)
            → is_at_watermark i (after receipts)
              ≡ any (is_marked i (after receipts).last_created_at) receipts)
  unfolding deliver_all deliver all any Set.has
  watermark_lem [] = (refl, λ i. refl)
  watermark_lem (r ∷ receipts) =
      note_verified-IsMarked r receipts (after receipts) (watermark_lem receipts)
