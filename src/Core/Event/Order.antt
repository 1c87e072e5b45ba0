-- ===== src/Core/Event/Order.antt =====
-- The orders of src/core/event.ts are strict total orders, so a winner and a sorted list are unique.
use nostr_js.Base.{
  ◌≡◌, ◌≢◌, sym, ◌∙◌, Bool, true, false, not, ◌&&◌, ◌||◌, List, [], ◌∷◌, arith, ◌==◌, text_eq, All,
  All-map,
}
use nostr_js.Base.Int.{ℤ, pos, leb_ℤ, ltb_ℤ, int_eq}
use nostr_js.Runtime.Sort
use nostr_js.Runtime.Str.Order.{
  text_ltb, text_ltb_irrefl, text_ltb_trans, text_ltb_asymm, text_ltb_total, text_le_trans,
}
use nostr_js.Core.Event.{
  Event, Stamp, stamp, compare_events_desc, item_compare, is_replaceable_winner, sort_events,
}

-- The winner is decided in the same way whichever event comes first: of two events with different
-- ids exactly one wins against the other.
pub is_replaceable_winner_total :
    (a b : Stamp) → a.id ≢ b.id → is_replaceable_winner a b ≡ not (is_replaceable_winner b a)
unfolding is_replaceable_winner
is_replaceable_winner_total a b h = ground (
  arith,
  text_ltb_asymm a.id b.id,
  text_ltb_asymm b.id a.id,
  text_ltb_total a.id b.id,
  text_ltb_total b.id a.id,
)

-- Winning is transitive.
pub is_replaceable_winner_trans :
    (a b c : Stamp)
    → is_replaceable_winner a b ≡ true
    → is_replaceable_winner b c ≡ true
    → is_replaceable_winner a c ≡ true
unfolding is_replaceable_winner
is_replaceable_winner_trans a b c h k = ground (arith, text_ltb_trans a.id b.id c.id)

pub is_replaceable_winner_irrefl : (a : Stamp) → is_replaceable_winner a a ≡ false
unfolding is_replaceable_winner
is_replaceable_winner_irrefl a = ground (arith, text_ltb_irrefl a.id)

module _ (a b : Stamp) where
  pub compare_events_desc_total :
      leb_ℤ (compare_events_desc a b) (pos 0) ≡ false
      → leb_ℤ (compare_events_desc b a) (pos 0) ≡ true
  unfolding compare_events_desc
  compare_events_desc_total h = ground (arith, text_ltb_asymm a.id b.id)

  pub item_compare_total :
      leb_ℤ (item_compare a b) (pos 0) ≡ false → leb_ℤ (item_compare b a) (pos 0) ≡ true
  unfolding item_compare
  item_compare_total h = ground (arith, text_ltb_asymm a.id b.id)

  desc_in_order : leb_ℤ (compare_events_desc a b) (pos 0) ≡ (
      ltb_ℤ b.created_at a.created_at || (a.created_at == b.created_at && not (text_ltb b.id a.id)))
  unfolding compare_events_desc
  desc_in_order = ground (arith, text_ltb_asymm a.id b.id)

  item_in_order : leb_ℤ (item_compare a b) (pos 0) ≡ (
      ltb_ℤ a.created_at b.created_at || (a.created_at == b.created_at && not (text_ltb b.id a.id)))
  unfolding item_compare
  item_in_order = ground (arith, text_ltb_asymm a.id b.id)

  -- Of two events with different ids the winner is the one that `compareEventsDesc` puts first.
  pub winner-iff-first :
      a.id ≢ b.id → is_replaceable_winner a b ≡ leb_ℤ (compare_events_desc a b) (pos 0)
  unfolding is_replaceable_winner compare_events_desc
  winner-iff-first h = ground (arith, text_ltb_total a.id b.id, text_ltb_asymm a.id b.id)

pub compare_events_desc_trans :
    (a b c : Stamp)
    → leb_ℤ (compare_events_desc a b) (pos 0) ≡ true
    → leb_ℤ (compare_events_desc b c) (pos 0) ≡ true
    → leb_ℤ (compare_events_desc a c) (pos 0) ≡ true
compare_events_desc_trans a b c h k =
    ground
      (arith, desc_in_order a b, desc_in_order b c, desc_in_order a c, text_le_trans a.id b.id c.id)

pub item_compare_trans :
    (a b c : Stamp)
    → leb_ℤ (item_compare a b) (pos 0) ≡ true
    → leb_ℤ (item_compare b c) (pos 0) ≡ true
    → leb_ℤ (item_compare a c) (pos 0) ≡ true
item_compare_trans a b c h k =
    ground
      (arith, item_in_order a b, item_in_order b c, item_in_order a c, text_le_trans a.id b.id c.id)

-- Newer, or of the same time and with no greater id.
abbrev pub comes_before : Event → Event → Bool
comes_before a b =
    ltb_ℤ b.created_at a.created_at || (a.created_at == b.created_at && not (text_ltb b.id a.id))

-- Each event comes before all that follow it.
abbrev pub NewestFirst : List Event → Type 0
NewestFirst [] = Unit
NewestFirst (e ∷ events) = All (λ f. comes_before e f ≡ true) events × NewestFirst events

abbrev desc : Event → Event → ℤ
desc a b = compare_events_desc (stamp a) (stamp b)

newest_of_sorted : (events : List Event) → Sort.IsSorted desc events → NewestFirst events
newest_of_sorted [] h = tt
newest_of_sorted (e ∷ events) h = (
  All-map _ _ events (λ f k. sym (desc_in_order (stamp e) (stamp f)) ∙ k) h.0,
  newest_of_sorted events h.1,
)

-- `sortEvents` returns its events newest first, by ascending id at the same time; for any test of an
-- event, as many events pass it as in the list that was given.
pub sort_events-NewestFirst :
    (events : List Event)
    → NewestFirst (sort_events events)
      × ((p : Event → Bool) → Sort.tally p (sort_events events) ≡ Sort.tally p events)
unfolding sort_events
sort_events-NewestFirst events = (
  newest_of_sorted _ (
      Sort.sort-IsSorted desc (λ a b h. compare_events_desc_total (stamp a) (stamp b) h)
        (λ a b c h k. compare_events_desc_trans (stamp a) (stamp b) (stamp c) h k) events),
  λ p. Sort.tally-sort desc p events,
)
