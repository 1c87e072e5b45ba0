-- ===== src/Core/Json.antt =====
-- The values that `JSON.parse` gives, and the guards of src/core/event.ts, src/core/tag.ts and
-- src/core/util.ts on values of no known type.
use nostr_js.Base.{
  ◌≡◌, refl, Bool, true, false, ◌&&◌, Option, none, some, List, [], ◌∷◌, Text, text, text_eq, ◌==◌,
  if◌then◌else◌,
}
use nostr_js.Base.Int.{ℤ, pos, leb_ℤ}
use nostr_js.Core.Hex.{is_hex32, is_hex64}

-- A number is an integer or, where no code asks further, its decimal writing.
pub data Number : Type 0 where
  integer : ℤ → Number
  fraction : Text → Number

-- Items are those of an array, fields those of an object.
mutual
  pub data Json : Type 0 where
    null : Json
    boolean : Bool → Json
    number : Number → Json
    string : Text → Json
    array : Items → Json
    object : Fields → Json

  pub data Items : Type 0 where
    nil : Items
    cons : Json → Items → Items

  pub data Fields : Type 0 where
    end : Fields
    field : Text → Json → Fields → Fields

unfoldable pub to_list : Items → List Json
to_list nil = []
to_list (cons j items) = j ∷ to_list items

unfoldable pub of_list : List Json → Items
of_list [] = nil
of_list (j ∷ js) = cons j (of_list js)

pub to_list-of_list : (js : List Json) → to_list (of_list js) ≡ js
unfolding to_list of_list
to_list-of_list [] = refl
to_list-of_list (j ∷ js) = λ i. j ∷ to_list-of_list js i

-- `isRecord`
abbrev pub is_record : Json → Bool
is_record (object fields) = true
is_record _ = false

unfoldable pub find_field : Fields → Text → Option Json
find_field end name = none
find_field (field key j fields) name =
    let rest = find_field fields name in if key == name then some j else rest

-- `value[name]`, for a value that is a record
unfoldable pub property : Json → Text → Option Json
unfolding find_field
property (object fields) name = find_field fields name
property _ name = none

-- `typeof value === "string"` with a test of the string
unfoldable pub is_string_that : (Text → Bool) → Option Json → Bool
is_string_that test (some (string t)) = test t
is_string_that test _ = false

-- a number that is an integer, with a test of it
unfoldable pub is_integer_that : (ℤ → Bool) → Option Json → Bool
is_integer_that test (some (number (integer n))) = test n
is_integer_that test _ = false

unfoldable pub all_strings : Items → Bool
all_strings nil = true
all_strings (cons (string t) items) = all_strings items
all_strings (cons _ items) = false

-- `isTag`
unfoldable pub is_tag_value : Json → Bool
unfolding all_strings
is_tag_value (array (cons j items)) = all_strings (cons j items)
is_tag_value _ = false

unfoldable pub all_tags : Items → Bool
unfolding is_tag_value
all_tags nil = true
all_tags (cons j items) = is_tag_value j && all_tags items

unfoldable pub is_tag_list : Option Json → Bool
unfolding all_tags
is_tag_list (some (array items)) = all_tags items
is_tag_list _ = false

-- `validateEvent`
unfoldable pub is_event : Json → Bool
unfolding is_integer_that is_string_that is_tag_list property
is_event event =
    is_record event
    && is_integer_that (λ n. leb_ℤ (pos 0) n && leb_ℤ n (pos 65535)) (property event (text "kind"))
    && is_string_that (λ t. true) (property event (text "content"))
    && is_integer_that (λ n. true) (property event (text "created_at"))
    && is_string_that is_hex32 (property event (text "pubkey"))
    && is_tag_list (property event (text "tags"))

-- `validateSignedEvent`
unfoldable pub is_signed_event : Json → Bool
unfolding is_event is_string_that property
is_signed_event event =
    is_event event
    && is_string_that is_hex32 (property event (text "id"))
    && is_string_that is_hex64 (property event (text "sig"))
