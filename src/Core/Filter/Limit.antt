-- ===== src/Core/Filter/Limit.antt =====
-- `getFilterLimit` of src/core/filter.ts on addressable kinds.
use nostr_js.Base.{
  ◌≡◌, refl, Bool, true, ◌||◌, none, some, [], ◌∷◌, ℕ, all, any, Text, text_eq, nat_eq, eq_self,
  arith,
}
use nostr_js.Runtime.Map
use nostr_js.Runtime.Str.{to_lower_case}
use nostr_js.Core.Kind.{is_addressable_kind, is_replaceable_kind}
use nostr_js.Core.Event.{Event}
use nostr_js.Core.Filter.{
  Filter, match_filter, match_ids, match_kinds, match_authors, match_tags, match_since, match_until,
  some_lower, get_filter_limit, limit_of_ids, limit_of_limit, limit_of_addresses, tag_filter,
}

-- the filter of one kind of one author
abbrev pub of_kind_author : ℕ → Text → Filter
of_kind_author kind author = record {
  ids = none;
  kinds = some (kind ∷ []);
  authors = some (author ∷ []);
  since = none;
  until = none;
  limit = none;
  search = none;
  tags = [];
}

or_true : (b : Bool) → (b || true) ≡ true
or_true b = ground arith

-- With a filter of one addressable kind and one author `getFilterLimit` allows one event, though
-- every event of that kind and author matches, whatever the identifier in its `d` tag.
pub get_filter_limit-addressable :
    (kind : ℕ) (author : Text) (e : Event)
    → is_addressable_kind kind ≡ true
    → e.kind ≡ kind
    → e.pubkey ≡ to_lower_case author
    → (get_filter_limit (of_kind_author kind author) ≡ some 1)
      × (match_filter (of_kind_author kind author) e ≡ true)
unfolding get_filter_limit limit_of_ids limit_of_limit limit_of_addresses tag_filter match_filter
    match_ids match_kinds match_authors match_tags match_since match_until some_lower all any
    Map.get
get_filter_limit-addressable kind author e addressable same_kind same_author = (
  rw (addressable, or_true (is_replaceable_kind kind)) refl,
  rw (same_kind, same_author, eq_self kind, eq_self (to_lower_case author)) refl,
)
