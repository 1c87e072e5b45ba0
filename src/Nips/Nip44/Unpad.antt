-- ===== src/Nips/Nip44/Unpad.antt =====
-- `unpad` of src/nips/nip44.ts takes off what `pad` puts on.
use nostr_js.Base.{
  ◌≡◌, refl, true, false, ◌&&◌, ◌∷◌, ◌++◌, arith, ℕ, zero, suc, ◌+◌, ◌-◌, ◌*◌, ◌/◌, ◌%◌, ◌≤◌, ltb,
  leb, nat_beq, length, take, drop, replicate, length-append, length-replicate, take-append, ok,
  ◌>>=◌, Bool-cases, inl, inr, ap,
}
use nostr_js.Nips.Negentropy.{Bytes}
use nostr_js.Nips.Nip44.{
  calc_padded_len, padded_len, write_u16, write_u32, prefix_of, pad_bytes, get_u16, read_len,
  unpad_bytes, min_plaintext_size, max_plaintext_size, extended_prefix_threshold,
}
use nostr_js.Nips.Nip44.Length.{padded_len_bounds}

calc_padded_len-ok :
    (n : ℕ) → 1 ≤ n → n ≤ max_plaintext_size → calc_padded_len n ≡ ok (padded_len n)
unfolding calc_padded_len
calc_padded_len-ok n h k =
    let fits : (leb 1 n && leb n 9007199254740991) ≡ true = ground arith in rw fits refl

-- the padding of a text
abbrev pub zeros : Bytes → Bytes
zeros m = replicate (padded_len (length m) - length m) 0

unpad_of :
    (padded m : Bytes) (first pre : ℕ)
    → get_u16 padded ≡ ok first
    → read_len padded first ≡ ok (length m, pre)
    → take (length m) (drop pre padded) ≡ m
    → 1 ≤ length m
    → length m ≤ max_plaintext_size
    → length padded ≡ pre + padded_len (length m)
    → unpad_bytes padded ≡ ok m
unfolding unpad_bytes
unpad_of padded m first pre hf hl ht h k hp =
    let fits : (leb min_plaintext_size (length m)
          && leb (length m) max_plaintext_size
          && nat_beq (length m) (length m))
        ≡ true =
      ground arith in
    let all : nat_beq (pre + padded_len (length m)) (pre + padded_len (length m)) ≡ true =
      ground arith in
    rw (hf, hl, ht, fits, calc_padded_len-ok (length m) h k, hp, all) refl

read_short : (padded : Bytes) (n : ℕ) → 1 ≤ n → read_len padded n ≡ ok (n, 2)
unfolding read_len
read_short padded zero z = ground arith
read_short padded (suc n) z = refl

module _ (m : Bytes) (h : 1 ≤ length m) (k : length m ≤ max_plaintext_size) where
  body_length : length (m ++ zeros m) ≡ padded_len (length m)
  body_length = omega (
    arith,
    length-append m (zeros m),
    length-replicate {A = ℕ} (padded_len (length m) - length m) 0,
    padded_len_bounds (length m) h (omega arith),
  )

  pad_short :
      length m ≤ 65535 → pad_bytes m ≡ ok ((length m / 256) ∷ (length m % 256) ∷ (m ++ zeros m))
  unfolding pad_bytes prefix_of write_u16
  pad_short short =
      let fits : (leb min_plaintext_size (length m) && leb (length m) max_plaintext_size) ≡ true =
        ground arith in
      let small : leb extended_prefix_threshold (length m) ≡ false = ground arith in
      let two : (leb min_plaintext_size (length m) && leb (length m) 65535) ≡ true = ground arith in
      rw (fits, small, two, calc_padded_len-ok (length m) h k) refl

  unpad_short :
      length m ≤ 65535 → unpad_bytes ((length m / 256) ∷ (length m % 256) ∷ (m ++ zeros m)) ≡ ok m
  unpad_short short =
      unpad_of _ m (length m) 2 (ap ok (omega arith)) (read_short _ (length m) h)
        (take-append m (zeros m)) h k (omega (arith, body_length))

  long_bytes : Bytes
  long_bytes =
      0
      ∷ 0
      ∷ (length m / 16777216)
      ∷ (length m / 65536 % 256)
      ∷ (length m / 256 % 256)
      ∷ (length m % 256)
      ∷ (m ++ zeros m)

  pad_long : 65536 ≤ length m → pad_bytes m ≡ ok long_bytes
  unfolding pad_bytes prefix_of write_u32 long_bytes
  pad_long long =
      let fits : (leb min_plaintext_size (length m) && leb (length m) max_plaintext_size) ≡ true =
        ground arith in
      let large : leb extended_prefix_threshold (length m) ≡ true = ground arith in
      let four : leb (length m) max_plaintext_size ≡ true = ground arith in
      rw (fits, large, four, calc_padded_len-ok (length m) h k) refl

  read_long : 65536 ≤ length m → read_len long_bytes 0 ≡ ok (length m, 6)
  unfolding read_len long_bytes
  read_long long =
      let value : 16777216 * (length m / 16777216)
            + 65536 * (length m / 65536 % 256)
            + 256 * (length m / 256 % 256)
            + length m % 256
          ≡ length m =
        omega arith in
      let large : ltb (length m) extended_prefix_threshold ≡ false = ground arith in
      rw (value, large) refl

  unpad_long : 65536 ≤ length m → unpad_bytes long_bytes ≡ ok m
  unfolding long_bytes
  unpad_long long =
      unpad_of long_bytes m 0 6 refl (read_long long) (take-append m (zeros m)) h k
        (omega (arith, body_length))

  -- Every text of 1 to 4294967295 bytes is padded without an error, and unpadding gives its bytes
  -- back, with the prefix of two bytes and with that of six.
  pub unpad_bytes-pad_bytes : (pad_bytes m >>= unpad_bytes) ≡ ok m
  unpad_bytes-pad_bytes = elim (Bool-cases (leb (length m) 65535)) [
    | inl short ↦ let e : length m ≤ 65535 = ground arith in rw (pad_short e) (unpad_short e)
    | inr long ↦ let e : 65536 ≤ length m = ground arith in rw (pad_long e) (unpad_long e)
  ]

  -- the padded bytes, with their length
  pub pad_result :
      (p : Bytes) × (pad_bytes m ≡ ok p)
      × (unpad_bytes p ≡ ok m)
      × (34 ≤ length p)
      × (length p ≤ 6 + padded_len (length m))
  unfolding long_bytes
  pad_result = elim (Bool-cases (leb (length m) 65535)) [
    | inl short ↦
        let e : length m ≤ 65535 = ground arith in
        (
          _,
          pad_short e,
          unpad_short e,
          omega (arith, body_length, padded_len_bounds (length m) h (omega arith)),
          omega (arith, body_length),
        )
    | inr long ↦
        let e : 65536 ≤ length m = ground arith in
        (
          long_bytes,
          pad_long e,
          unpad_long e,
          omega (arith, body_length, padded_len_bounds (length m) h (omega arith)),
          omega (arith, body_length),
        )
  ]
