-- ===== src/Nips/Nip44.antt =====
-- src/nips/nip44.ts: versioned encryption, with its padding.
-- What the code calls of other packages and of the runtime is the record `Primitives`; `Math.log2`
-- rounded down is the position of the highest bit, as it is for the lengths that `pad` lets through.
pub mod Length
pub mod Unpad
pub mod RoundTrip
use nostr_js.Base.{
  ◌≡◌, Bool, true, false, ◌&&◌, ◌||◌, not, Option, none, some, List, [], ◌∷◌, ◌++◌, ℕ, zero, suc,
  ◌+◌, ◌-◌, ◌*◌, ◌/◌, ◌%◌, ◌^◌, ltb, leb, nat_beq, if◌then◌else◌, length, take, drop, replicate,
  Text, text, Result, ok, err, require, ◌>>=◌, ◌>>◌,
}
use nostr_js.Runtime.Str.{to_lower_case}
use nostr_js.Core.Hex.{HexError, assert_hex32}
use nostr_js.Nips.Negentropy.{Bytes}

pub record Primitives : Type 0 where
  pub utf8_encode : Text → Bytes
  pub utf8_decode : Bytes → Text
  pub hex_to_bytes : Text → Option Bytes
  pub base64_encode : Bytes → Text
  pub base64_decode : Text → Option Bytes
  pub shared_secret : Bytes → Bytes → Option Bytes
  pub hkdf_extract : Bytes → Bytes → Bytes
  pub hkdf_expand : Bytes → Bytes → ℕ → Bytes
  pub hmac : Bytes → Bytes → Bytes
  pub chacha20 : Bytes → Bytes → Bytes → Bytes
  pub equal_bytes : Bytes → Bytes → Bool

-- The errors, by the messages of `CryptoError`; `out_of_range` is the `RangeError` of a `DataView`,
-- and `foreign` an error that a primitive throws.
pub data CryptoError : Type 0 where
  not_32_bytes : Text → CryptoError
  not_positive invalid_size invalid_padding aad_not_32 unknown_version : CryptoError
  invalid_payload_length invalid_base64 invalid_data_length invalid_mac : CryptoError
  out_of_range foreign : CryptoError
  hex : HexError → CryptoError

abbrev pub min_plaintext_size : ℕ
min_plaintext_size = 1

abbrev pub max_plaintext_size : ℕ
max_plaintext_size = 4294967295

abbrev pub extended_prefix_threshold : ℕ
extended_prefix_threshold = 65536

-- `Math.floor(Math.log2(n))`; a safe integer has less than 53 halvings
unfoldable pub floor_log2 : ℕ → ℕ → ℕ
floor_log2 zero n = 0
floor_log2 (suc fuel) n = let rest = floor_log2 fuel (n / 2) in if ltb n 2 then 0 else suc rest

abbrev pub next_power : ℕ → ℕ
next_power len = 2 ^ suc (floor_log2 53 (len - 1))

abbrev pub chunk_of : ℕ → ℕ
chunk_of power = if leb power 256 then 32 else power / 8

-- the value of `calcPaddedLen` for a length of at least 1
unfoldable pub padded_len : ℕ → ℕ
padded_len len =
    if leb len 32
    then 32
    else chunk_of (next_power len) * ((len - 1) / chunk_of (next_power len) + 1)

-- `calcPaddedLen`
unfoldable pub calc_padded_len : ℕ → Result CryptoError ℕ
calc_padded_len len = do
  require (leb 1 len && leb len 9007199254740991) not_positive
  ok (padded_len len)

-- `writeU16BE` and `writeU32BE`
unfoldable pub write_u16 : ℕ → Result CryptoError Bytes
write_u16 num = do
  require (leb min_plaintext_size num && leb num 65535) invalid_size
  ok ((num / 256) ∷ (num % 256) ∷ [])

unfoldable pub write_u32 : ℕ → Result CryptoError Bytes
write_u32 num = do
  require (leb extended_prefix_threshold num && leb num max_plaintext_size) invalid_size
  ok ((num / 16777216) ∷ (num / 65536 % 256) ∷ (num / 256 % 256) ∷ (num % 256) ∷ [])

-- the length before the padded bytes
unfoldable pub prefix_of : ℕ → Result CryptoError Bytes
prefix_of len =
    if leb extended_prefix_threshold len
    then (write_u32 len >>= λ size. ok (0 ∷ 0 ∷ size))
    else write_u16 len

-- `pad`, on the bytes of the text
unfoldable pub pad_bytes : Bytes → Result CryptoError Bytes
pad_bytes unpadded = do
  require (leb min_plaintext_size (length unpadded) && leb (length unpadded) max_plaintext_size)
      invalid_size
  prefix ← prefix_of (length unpadded)
  padded ← calc_padded_len (length unpadded)
  ok (prefix ++ (unpadded ++ replicate (padded - length unpadded) 0))

-- `DataView.getUint16` and `getUint32`, big-endian, at the start of a list
abbrev pub get_u16 : Bytes → Result CryptoError ℕ
get_u16 (a ∷ b ∷ _) = ok (256 * a + b)
get_u16 _ = err out_of_range

abbrev pub get_u32 : Bytes → Result CryptoError ℕ
get_u32 (a ∷ b ∷ c ∷ d ∷ _) = ok (16777216 * a + 65536 * b + 256 * c + d)
get_u32 _ = err out_of_range

-- what `firstTwo` says of the length: the length, and that of its prefix
unfoldable pub read_len : Bytes → ℕ → Result CryptoError (ℕ × ℕ)
read_len padded zero = do
  len ← get_u32 (drop 2 padded)
  require (not (ltb len extended_prefix_threshold)) invalid_padding
  ok (len, 6)
read_len padded (suc n) = ok (suc n, 2)

-- `unpad`, to the bytes of the text
unfoldable pub unpad_bytes : Bytes → Result CryptoError Bytes
unpad_bytes padded = do
  first_two ← get_u16 padded
  len ← read_len padded first_two
  let unpadded = take len.0 (drop len.1 padded)
  require
      (leb min_plaintext_size len.0
        && leb len.0 max_plaintext_size
        && nat_beq (length unpadded) len.0)
      invalid_padding
  expected ← calc_padded_len len.0
  require (nat_beq (length padded) (len.1 + expected)) invalid_padding
  ok unpadded

-- `DEFAULT_MAX_PAYLOAD_CHARS`; `Math.ceil` of a third
abbrev pub default_max_payload_chars : ℕ
default_max_payload_chars = (71 + padded_len 1048576 + 2) / 3 * 4

pub record MessageKeys : Type 0 where
  pub chacha_key : Bytes
  pub chacha_nonce : Bytes
  pub hmac_key : Bytes

pub record Payload : Type 0 where
  pub nonce : Bytes
  pub ciphertext : Bytes
  pub mac : Bytes

-- `assert32`
abbrev pub assert_32 : Bytes → Text → Result CryptoError (Unit {0})
assert_32 bytes label = require (nat_beq (length bytes) 32) (not_32_bytes label)

abbrev pub starts_with_hash : Text → Bool
starts_with_hash [] = false
starts_with_hash (c ∷ _) = nat_beq c b'#'

abbrev pub version_of : Bytes → Option ℕ
version_of [] = none
version_of (v ∷ _) = some v

abbrev pub check_version : Option ℕ → Result CryptoError (Unit {0})
check_version none = err invalid_data_length
check_version (some v) = require (nat_beq v 2) unknown_version

module _ (lib : Primitives) where
  abbrev pub or_throw : Option Bytes → CryptoError → Result CryptoError Bytes
  or_throw none e = err e
  or_throw (some bytes) e = ok bytes

  -- `getConversationKey`
  pub get_conversation_key : Bytes → Text → Result CryptoError Bytes
  get_conversation_key privkey_a pubkey_b = do
    require (nat_beq (length privkey_a) 32)
        (hex (HexError.invalid_length (text "secret key") (length privkey_a)))
    assert_key (assert_hex32 pubkey_b (text "public key"))
    point ← or_throw (lib.hex_to_bytes (text "02" ++ to_lower_case pubkey_b)) foreign
    shared ← or_throw (lib.shared_secret privkey_a point) foreign
    ok (lib.hkdf_extract (take 32 (drop 1 shared)) (lib.utf8_encode (text "nip44-v2")))
    where
      assert_key : Result HexError Text → Result CryptoError (Unit {0})
      assert_key (ok _) = ok tt
      assert_key (err e) = err (hex e)

  -- `getMessageKeys`
  unfoldable pub get_message_keys : Bytes → Bytes → Result CryptoError MessageKeys
  get_message_keys conversation_key nonce = do
    assert_32 conversation_key (text "conversation_key")
    assert_32 nonce (text "nonce")
    let keys = lib.hkdf_expand conversation_key nonce 76
    ok (record {
      chacha_key = take 32 keys;
      chacha_nonce = take 12 (drop 32 keys);
      hmac_key = take 32 (drop 44 keys);
    })

  -- `hmacAad`
  unfoldable pub hmac_aad : Bytes → Bytes → Bytes → Result CryptoError Bytes
  hmac_aad key message aad = do
    require (nat_beq (length aad) 32) aad_not_32
    ok (lib.hmac key (aad ++ message))

  -- `decodePayload`
  unfoldable pub decode_payload : Text → ℕ → Result CryptoError Payload
  decode_payload payload max_payload_chars = do
    require (not (starts_with_hash payload)) unknown_version
    require (leb 132 (length payload) && leb (length payload) max_payload_chars)
        invalid_payload_length
    dat ← or_throw (lib.base64_decode payload) invalid_base64
    require (leb 99 (length dat)) invalid_data_length
    check_version (version_of dat)
    ok (record {
      nonce = take 32 (drop 1 dat);
      ciphertext = take (length dat - 65) (drop 33 dat);
      mac = drop (length dat - 32) dat;
    })

  -- `encrypt`, with its nonce
  unfoldable pub encrypt : Text → Bytes → Bytes → Result CryptoError Text
  encrypt plaintext conversation_key nonce = do
    keys ← get_message_keys conversation_key nonce
    padded ← pad_bytes (lib.utf8_encode plaintext)
    let ciphertext = lib.chacha20 keys.chacha_key keys.chacha_nonce padded
    mac ← hmac_aad keys.hmac_key ciphertext nonce
    ok (lib.base64_encode (2 ∷ (nonce ++ (ciphertext ++ mac))))

  -- `decrypt`
  unfoldable pub decrypt : Text → Bytes → ℕ → Result CryptoError Text
  decrypt payload conversation_key max_payload_chars = do
    p ← decode_payload payload max_payload_chars
    keys ← get_message_keys conversation_key p.nonce
    calculated ← hmac_aad keys.hmac_key p.ciphertext p.nonce
    require (lib.equal_bytes calculated p.mac) invalid_mac
    plain ← unpad_bytes (lib.chacha20 keys.chacha_key keys.chacha_nonce p.ciphertext)
    ok (lib.utf8_decode plain)

  -- `encryptToPubkey` and `decryptFromPubkey`
  pub encrypt_to_pubkey : Text → Bytes → Text → Bytes → Result CryptoError Text
  encrypt_to_pubkey plaintext secret_key peer nonce =
      get_conversation_key secret_key peer >>= λ key. encrypt plaintext key nonce

  pub decrypt_from_pubkey : Text → Bytes → Text → ℕ → Result CryptoError Text
  decrypt_from_pubkey payload secret_key peer max_payload_chars =
      get_conversation_key secret_key peer >>= λ key. decrypt payload key max_payload_chars
