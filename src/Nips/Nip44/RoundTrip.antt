-- ===== src/Nips/Nip44/RoundTrip.antt =====
-- `decrypt` of src/nips/nip44.ts reads what `encrypt` writes, for primitives that do what their
-- packages say.
use nostr_js.Base.{
  ◌≡◌, refl, true, false, ◌&&◌, some, ◌∷◌, ◌++◌, arith, ℕ, ◌+◌, ◌-◌, ◌*◌, ◌/◌, ◌≤◌, leb, nat_beq,
  length, take, drop, length-append, take-append, drop-append, drop-add, Text, ok, ◌>>=◌, ◌∙◌, ap,
  sym, le→leb,
}
use nostr_js.Nips.Negentropy.{Bytes}
use nostr_js.Nips.Nip44.{
  Primitives, padded_len, hmac_aad, get_message_keys, decode_payload, encrypt, decrypt,
  starts_with_hash, version_of, max_plaintext_size,
}
use nostr_js.Nips.Nip44.Unpad.{pad_result}

-- What the packages document: a stream cipher that undoes itself and keeps the length, a MAC of 32
-- bytes, a comparison, and base64 with padding.
pub record AreDocumented (lib : Primitives) : Type 0 where
  pub chacha20_twice :
      (key nonce bytes : Bytes) → lib.chacha20 key nonce (lib.chacha20 key nonce bytes) ≡ bytes
  pub length-chacha20 :
      (key nonce bytes : Bytes) → length (lib.chacha20 key nonce bytes) ≡ length bytes
  pub length-hmac : (key bytes : Bytes) → length (lib.hmac key bytes) ≡ 32
  pub equal_bytes_self : (bytes : Bytes) → lib.equal_bytes bytes bytes ≡ true
  pub base64_decode-base64_encode :
      (bytes : Bytes) → lib.base64_decode (lib.base64_encode bytes) ≡ some bytes
  pub length-base64_encode :
      (bytes : Bytes) → length (lib.base64_encode bytes) ≡ (length bytes + 2) / 3 * 4
  pub base64_encode_digit : (bytes : Bytes) → starts_with_hash (lib.base64_encode bytes) ≡ false

-- the bytes of a payload, before base64
dat : (nonce ciphertext mac : Bytes) → Bytes
dat n c m = 2 ∷ (n ++ (c ++ m))

version-dat : (n c m : Bytes) → version_of (dat n c m) ≡ some 2
unfolding dat
version-dat n c m = refl

module _ (n c m : Bytes) (hn : length n ≡ 32) (hm : length m ≡ 32) where
  length-dat : length (dat n c m) ≡ 65 + length c
  unfolding dat
  length-dat = omega (arith, length-append n (c ++ m), length-append c m)

  nonce_part : take 32 (drop 1 (dat n c m)) ≡ n
  unfolding dat
  nonce_part =
      ap (λ (k : ℕ). take k (n ++ (c ++ m))) {x = 32} {y = length n} (sym hn)
      ∙ take-append n (c ++ m)

  after_nonce : drop 33 (dat n c m) ≡ c ++ m
  unfolding dat
  after_nonce =
      ap (λ (k : ℕ). drop k (n ++ (c ++ m))) {x = 32} {y = length n} (sym hn)
      ∙ drop-append n (c ++ m)

  ciphertext_part : take (length (dat n c m) - 65) (drop 33 (dat n c m)) ≡ c
  ciphertext_part =
      ap (take (length (dat n c m) - 65)) after_nonce
      ∙ ap (λ (k : ℕ). take k (c ++ m)) {x = length (dat n c m) - 65} {y = length c}
          (omega (arith, length-dat))
      ∙ take-append c m

  mac_part : drop (length (dat n c m) - 32) (dat n c m) ≡ m
  mac_part =
      ap (λ (k : ℕ). drop k (dat n c m)) {x = length (dat n c m) - 32} {y = 33 + length c}
        (omega (arith, length-dat))
      ∙ drop-add 33 (length c) (dat n c m)
      ∙ ap (drop (length c)) after_nonce
      ∙ drop-append c m

module _ (lib : Primitives) (doc : AreDocumented lib) where
  decode_encoded :
      (n c m : Bytes) (most : ℕ)
      → length n ≡ 32
      → length m ≡ 32
      → 34 ≤ length c
      → (67 + length c) / 3 * 4 ≤ most
      → decode_payload lib (lib.base64_encode (dat n c m)) most
        ≡ ok (record { nonce = n; ciphertext = c; mac = m })
  unfolding decode_payload
  decode_encoded n c m most hn hm hc hmost =
      let size : length (lib.base64_encode (dat n c m)) ≡ (67 + length c) / 3 * 4 =
        doc.length-base64_encode (dat n c m)
        ∙ ap (λ (k : ℕ). k / 3 * 4) {x = length (dat n c m) + 2} {y = 67 + length c}
            (omega (arith, length-dat n c m hn hm)) in
      let fits : (leb 132 ((67 + length c) / 3 * 4) && leb ((67 + length c) / 3 * 4) most) ≡ true =
        ground arith in
      let long : leb 99 (length (dat n c m)) ≡ true =
        le→leb _ _ (omega (arith, length-dat n c m hn hm)) in
      rw
        (
          doc.base64_encode_digit (dat n c m),
          size,
          fits,
          doc.base64_decode-base64_encode (dat n c m),
          long,
          version-dat n c m,
          nonce_part n c m hn hm,
          ciphertext_part n c m hn hm,
          mac_part n c m hn hm,
        )
        refl

  -- For primitives that do what their packages document: a text of 1 to 4294967295 UTF-8 bytes that
  -- the decoder gives back as it is, under keys and a nonce of 32 bytes, is encrypted without an
  -- error, and decrypt with the same key, and a cap that admits the padded length, gives the text.
  pub decrypt-encrypt :
      (plaintext : Text) (key nonce : Bytes) (most : ℕ)
      → 1 ≤ length (lib.utf8_encode plaintext)
      → length (lib.utf8_encode plaintext) ≤ max_plaintext_size
      → lib.utf8_decode (lib.utf8_encode plaintext) ≡ plaintext
      → length key ≡ 32
      → length nonce ≡ 32
      → (73 + padded_len (length (lib.utf8_encode plaintext))) / 3 * 4 ≤ most
      → (encrypt lib plaintext key nonce >>= λ payload. decrypt lib payload key most) ≡ ok plaintext
  unfolding encrypt decrypt get_message_keys hmac_aad dat
  decrypt-encrypt plaintext key nonce most h k plain hk hn hmost =
      let (p, hp, hu, least, size) = pad_result (lib.utf8_encode plaintext) h k in
      let keys = lib.hkdf_expand key nonce 76 in
      let c = lib.chacha20 (take 32 keys) (take 12 (drop 32 keys)) p in
      let m = lib.hmac (take 32 (drop 44 keys)) (nonce ++ c) in
      let same = doc.length-chacha20 (take 32 keys) (take 12 (drop 32 keys)) p in
      let keyed : nat_beq (length key) 32 ≡ true = ground arith in
      let nonced : nat_beq (length nonce) 32 ≡ true = ground arith in
      let read =
        decode_encoded nonce c m most hn (doc.length-hmac (take 32 (drop 44 keys)) (nonce ++ c))
          (omega (arith, same)) (omega (arith, same, size, hmost)) in
      rw (keyed, nonced, hp, read)
        (rw
          (
            nonced,
            doc.equal_bytes_self m,
            doc.chacha20_twice (take 32 keys) (take 12 (drop 32 keys)) p,
            hu,
            plain,
          )
          refl)
