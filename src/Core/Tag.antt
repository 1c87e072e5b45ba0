-- ===== src/Core/Tag.antt =====
-- src/core/tag.ts: tags, and the coordinates of replaceable and addressable events.
pub mod Address
use nostr_js.Base.{
  ◌≡◌, Bool, true, false, ◌&&◌, not, Option, none, some, List, [], ◌∷◌, ◌++◌, ℕ, suc, leb, ltb,
  nat_beq, if◌then◌else◌, length, all, get_elem?, Text, text, ◌==◌, text_eq, is_some,
}
use nostr_js.Base.Maybe.{◌>>=◌, ◌>>◌, guard, or_else}
use nostr_js.Runtime.Str.{to_lower_case, index_of, index_of_from, slice, slice_from}
use nostr_js.Runtime.Str.Decimal.{is_digit, number, to_text}
use nostr_js.Core.Hex.{is_hex32}
use nostr_js.Core.Kind.{is_addressable_kind, is_replaceable_kind}

abbrev pub Tag : Type 0
Tag = List Text

-- `isTag`, on an array of strings
abbrev pub is_tag : Tag → Bool
is_tag [] = false
is_tag (_ ∷ _) = true

-- `tagName`, `tagValue`
pub tag_name : Tag → Text
tag_name tag = or_else (get_elem? tag 0) (text "")

pub tag_value : Tag → Option Text
tag_value tag = get_elem? tag 1

abbrev push_some : List Text → Option Text → List Text
push_some t none = t
push_some t (some v) = t ++ v ∷ []

abbrev lower_some : Option Text → Option Text
lower_some none = none
lower_some (some v) = some (to_lower_case v)

-- `Tag.e`, `Tag.p`, `Tag.a`, `Tag.d`
pub e_tag : Text → Option Text → Option Text → Option Text → Tag
e_tag id relay marker pubkey =
    push_some (push_some (push_some (text "e" ∷ to_lower_case id ∷ []) relay) marker)
      (lower_some pubkey)

pub p_tag : Text → Option Text → Option Text → Tag
p_tag pubkey relay petname =
    push_some (push_some (text "p" ∷ to_lower_case pubkey ∷ []) relay) petname

pub a_tag : Text → Option Text → Tag
a_tag coordinate relay = push_some (text "a" ∷ coordinate ∷ []) relay

unfoldable pub d_tag : Text → Tag
d_tag identifier = text "d" ∷ identifier ∷ []

-- the value of a tag with this name, if the tag has one
unfoldable pub value_of : Text → Tag → Option Text
value_of name (key ∷ value ∷ _) = if key == name then some value else none
value_of name _ = none

-- `firstTagValue`
unfoldable pub first_tag_value : List Tag → Text → Option Text
unfolding value_of
first_tag_value [] name = none
first_tag_value (tag ∷ tags) name = elim (value_of name tag) [
  | some value ↦ some value
  | none ↦ first_tag_value tags name
]

-- `getDTag`
unfoldable pub get_d_tag : List Tag → Option Text
get_d_tag tags = first_tag_value tags (text "d")

pub record EventAddress : Type 0 where
  pub kind : ℕ
  pub pubkey : Text
  pub identifier : Text

-- `/^\d{1,5}$/`
abbrev pub is_kind_text : Text → Bool
is_kind_text s = leb 1 (length s) && leb (length s) 5 && all is_digit s

-- `parseEventAddress`
unfoldable pub parse_event_address : Text → Option EventAddress
parse_event_address value = do
  first ← index_of value b':'
  guard (not (nat_beq first 0))
  second ← index_of_from value b':' (suc first)
  let kind_text = slice value 0 first
  guard (is_kind_text kind_text)
  let kind = number kind_text
  guard (leb kind 65535)
  let pubkey = to_lower_case (slice value (suc first) second)
  guard (is_hex32 pubkey)
  some (record { kind = kind; pubkey = pubkey; identifier = slice_from value (suc second) })

-- `formatEventAddress`
unfoldable pub format_event_address : ℕ → Text → Text → Text
format_event_address kind pubkey identifier =
    to_text kind ++ (b':' ∷ (to_lower_case pubkey ++ (b':' ∷ identifier)))

-- `eventAddress`, on the fields that it reads
unfoldable pub event_address : ℕ → Text → List Tag → Option Text
event_address kind pubkey tags =
    if is_addressable_kind kind
    then some (format_event_address kind pubkey (or_else (get_d_tag tags) (text "")))
    else if is_replaceable_kind kind
    then some (format_event_address kind pubkey (text ""))
    else none
