-- ===== src/Core/Filter.antt =====
-- src/core/filter.ts: the NIP-01 filter, its local match, and its intrinsic limit.
-- A key `#name` of the source is the entry `name` of `tags`, in the order of `Object.keys`; its
-- value may be `undefined`. Limits and kinds are natural numbers, times are integers.
pub mod Limit
use nostr_js.Base.{
  ◌≡◌, Bool, true, false, ◌&&◌, ◌||◌, not, Option, none, some, List, [], ◌∷◌, ℕ, ◌*◌, nat_beq,
  if◌then◌else◌, any, all, length, Text, text, ◌==◌, text_eq, nat_eq, min, leb, ltb,
}
use nostr_js.Base.Int.{ℤ, ltb_ℤ}
use nostr_js.Runtime.Map
use nostr_js.Runtime.Map.{Map}
use nostr_js.Runtime.Str.{to_lower_case}
use nostr_js.Core.Kind.{is_addressable_kind, is_replaceable_kind}
use nostr_js.Core.Tag.{Tag}
use nostr_js.Core.Event.{Event}

pub record Filter : Type 0 where
  pub ids : Option (List Text)
  pub kinds : Option (List ℕ)
  pub authors : Option (List Text)
  pub since : Option ℤ
  pub until : Option ℤ
  pub limit : Option ℕ
  pub search : Option Text
  pub tags : Map Text (Option (List Text))

-- `filter["#name"]`
unfoldable pub tag_filter : Filter → Text → Option (List Text)
tag_filter filter name = elim (Map.get filter.tags name) [ none ↦ none | some values ↦ values ]

-- `list.some((v) => v.toLowerCase() === value)`
unfoldable pub some_lower : Text → List Text → Bool
some_lower value = any (λ v. to_lower_case v == value)

unfoldable pub match_ids : Option (List Text) → Event → Bool
match_ids none event = true
match_ids (some ids) event = some_lower event.id ids

unfoldable pub match_kinds : Option (List ℕ) → Event → Bool
match_kinds none event = true
match_kinds (some kinds) event = any (λ k. k == event.kind) kinds

unfoldable pub match_authors : Option (List Text) → Event → Bool
match_authors none event = true
match_authors (some authors) event = some_lower event.pubkey authors

abbrev pub is_hex_tag : Text → Bool
is_hex_tag name = name == text "e" || name == text "p"

-- whether a tag of the event has the name and one of the values
unfoldable pub tag_hit : Text → List Text → Tag → Bool
tag_hit name values (key ∷ value ∷ _) =
    key == name
    && (if is_hex_tag name
        then some_lower (to_lower_case value) values
        else any (λ v. v == value) values)
tag_hit name values _ = false

-- one round of the loop over the tag keys
unfoldable pub match_tag_key : Event → Text × Option (List Text) → Bool
match_tag_key event (name, none) = true
match_tag_key event (name, some values) = any (tag_hit name values) event.tags

unfoldable pub match_tags : Map Text (Option (List Text)) → Event → Bool
match_tags tags event = all (match_tag_key event) tags

unfoldable pub match_since : Option ℤ → Event → Bool
match_since none event = true
match_since (some since) event = not (ltb_ℤ event.created_at since)

unfoldable pub match_until : Option ℤ → Event → Bool
match_until none event = true
match_until (some until) event = not (ltb_ℤ until event.created_at)

-- `matchFilter`
unfoldable pub match_filter : Filter → Event → Bool
match_filter filter event =
    match_ids filter.ids event
    && match_kinds filter.kinds event
    && match_authors filter.authors event
    && match_tags filter.tags event
    && match_since filter.since event
    && match_until filter.until event

-- `matchFilters`
unfoldable pub match_filters : List Filter → Event → Bool
match_filters filters event = any (λ filter. match_filter filter event) filters

abbrev pub is_empty_list {ℓ} : {A : Type ℓ} → Option (List A) → Bool
is_empty_list (some []) = true
is_empty_list _ = false

-- `Math.min(limit, n)`, where `none` is `Infinity`
abbrev pub min_limit : Option ℕ → ℕ → Option ℕ
min_limit none n = some n
min_limit (some m) n = some (min m n)

abbrev per_author : Option (List Text) → ℕ
per_author (some (d ∷ ds)) = length (d ∷ ds)
per_author _ = 1

limit_of_ids : Option ℕ → Option (List Text) → Option ℕ
limit_of_ids limit none = limit
limit_of_ids limit (some ids) = min_limit limit (length ids)

limit_of_limit : Option ℕ → Option ℕ → Option ℕ
limit_of_limit limit none = limit
limit_of_limit limit (some n) = min_limit limit n

limit_of_addresses : Option ℕ → Option (List ℕ) → Option (List Text) → Option (List Text) → Option ℕ
limit_of_addresses limit (some kinds) (some authors) d_tags =
    if all (λ k. is_replaceable_kind k || is_addressable_kind k) kinds
    then min_limit limit (length authors * length kinds * per_author d_tags)
    else limit
limit_of_addresses limit _ _ d_tags = limit

-- `getFilterLimit`, with `none` for `Infinity`
pub get_filter_limit : Filter → Option ℕ
unfolding limit_of_ids limit_of_limit limit_of_addresses tag_filter
get_filter_limit filter =
    if is_empty_list filter.ids || is_empty_list filter.kinds || is_empty_list filter.authors
    then some 0
    else limit_of_addresses (limit_of_limit (limit_of_ids none filter.ids) filter.limit)
        filter.kinds filter.authors (tag_filter filter (text "d"))
