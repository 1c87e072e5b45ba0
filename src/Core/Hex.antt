-- ===== src/Core/Hex.antt =====
-- src/core/util.ts: the hex shapes of ids, keys and signatures.
use nostr_js.Base.{
  ◌≡◌, refl, Bool, true, ◌&&◌, ◌||◌, ℕ, leb, nat_beq, arith, [], ◌∷◌, length, all, Text,
  if◌then◌else◌, Result, ok, err, All, ◌≢◌,
}
use nostr_js.Runtime.Str.{to_lower_case}

-- `[0-9a-f]`
abbrev pub is_hex_digit : ℕ → Bool
is_hex_digit c = (leb b'0' c && leb c b'9') || (leb b'a' c && leb c b'f')

-- `isHex32`: `/^[0-9a-f]{64}$/`
unfoldable pub is_hex32 : Text → Bool
is_hex32 value = nat_beq (length value) 64 && all is_hex_digit value

-- `isHex64`: `/^[0-9a-f]{128}$/`
unfoldable pub is_hex64 : Text → Bool
is_hex64 value = nat_beq (length value) 128 && all is_hex_digit value

-- The errors that `assertHex32` and `assertByteLength` throw, with the label of the message.
pub data HexError : Type 0 where
  invalid_hex32 : Text → HexError
  invalid_length : Text → ℕ → HexError

unfoldable pub assert_hex32 : Text → Text → Result HexError Text
assert_hex32 value label =
    let normalized = to_lower_case value in
    if is_hex32 normalized then ok normalized else err (invalid_hex32 label)

-- Canonical hex holds no colon, and no capital letter.
pub All-hex : (s : Text) → all is_hex_digit s ≡ true → All (λ c. c ≢ b':') s
unfolding all
All-hex [] h = tt
All-hex (c ∷ s) h = (λ e. ground arith, All-hex s (ground arith))

pub to_lower_case-hex : (s : Text) → all is_hex_digit s ≡ true → to_lower_case s ≡ s
unfolding all to_lower_case
to_lower_case-hex [] h = refl
to_lower_case-hex (c ∷ s) h = ground (arith, to_lower_case-hex s)
