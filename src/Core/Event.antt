-- ===== src/Core/Event.antt =====
-- src/core/event.ts: events, their structural validation, and the orders on them.
-- The fields have the types that `typeof` tests for; `kind` is a natural number.
pub mod Order
use nostr_js.Base.{
  ◌≡◌, Bool, true, false, ◌&&◌, ◌||◌, not, List, [], ◌∷◌, ℕ, leb, if◌then◌else◌, all, Text, ◌==◌,
  text_eq,
}
use nostr_js.Base.Int.{ℤ, pos, negsuc, ◌-ℤ◌, ltb_ℤ, int_eq}
use nostr_js.Runtime.Sort.{sort}
use nostr_js.Runtime.Str.{to_lower_case}
use nostr_js.Runtime.Str.Order.{text_ltb}
use nostr_js.Core.Hex.{is_hex32, is_hex64}
use nostr_js.Core.Tag.{Tag, is_tag}

pub record Event : Type 0 where
  pub id : Text
  pub pubkey : Text
  pub created_at : ℤ
  pub kind : ℕ
  pub tags : List Tag
  pub content : Text
  pub sig : Text

-- `validateEvent`
unfoldable pub validate_event : Event → Bool
validate_event event = leb event.kind 65535 && is_hex32 event.pubkey && all is_tag event.tags

-- `validateSignedEvent`
unfoldable pub validate_signed_event : Event → Bool
unfolding validate_event
validate_signed_event event = validate_event event && is_hex32 event.id && is_hex64 event.sig

-- what the orders and the watermarks read of an event
pub record Stamp : Type 0 where
  pub id : Text
  pub created_at : ℤ

abbrev pub stamp : Event → Stamp
stamp e = record { id = e.id; created_at = e.created_at }

-- `compareIds`
unfoldable pub compare_ids : Text → Text → ℤ
compare_ids a b = if text_ltb a b then negsuc 0 else if text_ltb b a then pos 1 else pos 0

-- `compareEventsDesc`
unfoldable pub compare_events_desc : Stamp → Stamp → ℤ
unfolding compare_ids ◌-ℤ◌
compare_events_desc a b =
    if not (a.created_at == b.created_at)
    then b.created_at -ℤ a.created_at
    else compare_ids a.id b.id

-- `itemCompare`
unfoldable pub item_compare : Stamp → Stamp → ℤ
unfolding compare_ids ◌-ℤ◌
item_compare a b =
    if not (a.created_at == b.created_at)
    then a.created_at -ℤ b.created_at
    else compare_ids a.id b.id

-- `sortEvents`
unfoldable pub sort_events : List Event → List Event
sort_events = sort (λ a b. compare_events_desc (stamp a) (stamp b))

-- `isReplaceableWinner`
unfoldable pub is_replaceable_winner : Stamp → Stamp → Bool
is_replaceable_winner candidate incumbent =
    if not (candidate.created_at == incumbent.created_at)
    then ltb_ℤ incumbent.created_at candidate.created_at
    else text_ltb candidate.id incumbent.id
