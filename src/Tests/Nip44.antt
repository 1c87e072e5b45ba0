-- ===== src/Tests/Nip44.antt =====
-- Primitives, keys and texts at which the theorems on NIP-44 are applied. The base64 here is one
-- of the same lengths, not the real one.
use nostr_js.Base.{
  ◌≡◌, refl, true, false, Option, some, [], ◌∷◌, ◌++◌, arith, ℕ, suc, ◌+◌, ◌-◌, ◌*◌, ◌/◌, ◌≤◌, max,
  length, drop, replicate, length-append, length-replicate, drop-append, Text, text, text_beq,
  text_beq_iff, ok, ◌>>=◌, ◌∙◌, ap,
}
use nostr_js.Nips.Negentropy.{Bytes}
use nostr_js.Nips.Nip44.{
  Primitives, padded_len, pad_bytes, unpad_bytes, encrypt, decrypt, starts_with_hash,
}
use nostr_js.Nips.Nip44.Length.{padded_len_bounds}
use nostr_js.Nips.Nip44.Unpad.{unpad_bytes-pad_bytes}
use nostr_js.Nips.Nip44.RoundTrip.{AreDocumented, decrypt-encrypt}

-- the number of characters that the coding adds
extra : ℕ → ℕ
extra n = (n + 2) / 3 * 4 - n

abbrev to_base64 : Bytes → Text
to_base64 [] = []
to_base64 (b ∷ bytes) =
    (extra (suc (length bytes)) + 100)
    ∷ (replicate (extra (suc (length bytes)) - 1) 0 ++ (b ∷ bytes))

abbrev of_base64 : Text → Option Bytes
of_base64 [] = some []
of_base64 (e ∷ rest) = some (drop (e - 101) rest)

abbrev primitives : Primitives
primitives = record {
  utf8_encode = λ t. t;
  utf8_decode = λ bytes. bytes;
  hex_to_bytes = λ t. some t;
  base64_encode = to_base64;
  base64_decode = of_base64;
  shared_secret = λ key point. some point;
  hkdf_extract = λ ikm salt. replicate 32 1;
  hkdf_expand = λ key info n. replicate n 1;
  hmac = λ key bytes. replicate 32 0;
  chacha20 = λ key nonce bytes. bytes;
  equal_bytes = text_beq;
}

extra_positive : (n : ℕ) → 1 ≤ extra (suc n) × n + extra (suc n) + 1 ≡ (suc n + 2) / 3 * 4
unfolding extra
extra_positive n = (omega arith, omega arith)

of_base64-to_base64 : (bytes : Bytes) → of_base64 (to_base64 bytes) ≡ some bytes
of_base64-to_base64 [] = refl
of_base64-to_base64 (b ∷ bytes) =
    let added = extra (suc (length bytes)) in
    let pad : Bytes = replicate (added - 1) 0 in
    ap (λ (k : ℕ). some (drop k (pad ++ (b ∷ bytes)))) {x = added + 100 - 101} {y = length pad}
      (omega (arith, extra_positive (length bytes), length-replicate {A = ℕ} (added - 1) 0))
    ∙ ap some (drop-append pad (b ∷ bytes))

length-to_base64 : (bytes : Bytes) → length (to_base64 bytes) ≡ (length bytes + 2) / 3 * 4
length-to_base64 [] = refl
length-to_base64 (b ∷ bytes) =
    let added = extra (suc (length bytes)) in
    omega (
      arith,
      length-append (replicate (added - 1) 0) (b ∷ bytes),
      length-replicate {A = ℕ} (added - 1) 0,
      extra_positive (length bytes),
    )

to_base64_digit : (bytes : Bytes) → starts_with_hash (to_base64 bytes) ≡ false
to_base64_digit [] = refl
to_base64_digit (b ∷ bytes) = ground arith

text_beq_self : (bytes : Bytes) → text_beq bytes bytes ≡ true
text_beq_self bytes = (text_beq_iff bytes bytes).1 refl

primitives-AreDocumented : AreDocumented primitives
primitives-AreDocumented = record {
  chacha20_twice = λ key nonce bytes. refl;
  length-chacha20 = λ key nonce bytes. refl;
  length-hmac = λ key bytes. refl;
  equal_bytes_self = text_beq_self;
  base64_decode-base64_encode = of_base64-to_base64;
  length-base64_encode = length-to_base64;
  base64_encode_digit = to_base64_digit;
}

abbrev key : Bytes
key = replicate 32 7

abbrev nonce : Bytes
nonce = replicate 32 9

padded_len_bounds_example :
    (33 ≤ padded_len 33) × (padded_len 33 ≤ 33 + max 32 (33 / 4)) × (32 ≤ padded_len 33)
padded_len_bounds_example = padded_len_bounds 33 (omega arith) (omega arith)

unpad_bytes-pad_bytes_example :
    (pad_bytes (text "hello") >>= λ padded. unpad_bytes padded) ≡ ok (text "hello")
unpad_bytes-pad_bytes_example = unpad_bytes-pad_bytes (text "hello") (omega arith) (omega arith)

decrypt-encrypt_example :
    (encrypt primitives (text "hello") key nonce >>= λ payload. decrypt primitives payload key 1000)
    ≡ ok (text "hello")
unfolding padded_len
decrypt-encrypt_example =
    decrypt-encrypt primitives primitives-AreDocumented (text "hello") key nonce 1000 (omega arith)
      (omega arith) refl refl refl (omega arith)
