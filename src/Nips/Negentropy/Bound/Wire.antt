-- ===== src/Nips/Negentropy/Bound/Wire.antt =====
-- What `#encodeBound` of src/nips/nip77.ts writes, `#decodeBound` reads.
use nostr_js.Base.{
  ◌≡◌, refl, true, false, ◌++◌, arith, ℕ, suc, ◌≤◌, ◌<◌, ltb, length, take-append, drop-append,
  append_assoc, length-append, ok, ◌>>=◌, ap, ◌∙◌, le→leb,
}
use nostr_js.Base.Int.{pos, negsuc, ◌-ℤ◌, ◌≤ℤ◌, pos_part, eq_of_parts}
use nostr_js.Nips.Negentropy.{Bytes, Time, finite, infinity, NegItem, read_n, id_size}
use nostr_js.Nips.Negentropy.VarInt.{
  max_safe, encode_digits, decode-encode_digits, encode_var_int-ok,
}
use nostr_js.Nips.Negentropy.Bound.{encode_timestamp_out, encode_bound, decode_bound, timestamp_in}

-- A time can be written after another if it is infinite, or not before it and less than the greatest
-- safe integer after it.
abbrev pub IsNext : Time → Time → Type 0
IsNext infinity last = Unit
IsNext (finite t) (finite last) = (last ≤ℤ t) × (pos_part (t -ℤ last) < max_safe)
IsNext (finite t) infinity = true ≡ false

-- the number that stands for a time
abbrev code_of : Time → Time → ℕ
code_of infinity last = 0
code_of (finite t) (finite last) = suc (pos_part (t -ℤ last))
code_of (finite t) infinity = 0

read_n-append : (id rest : Bytes) → read_n (length id) (id ++ rest) ≡ ok (id, rest)
unfolding read_n
read_n-append id rest =
    let enough : ltb (length (id ++ rest)) (length id) ≡ false =
      ground (arith, length-append id rest) in
    rw (enough, take-append id rest, drop-append id rest) refl

decode_parts :
    (n : ℕ) (id rest : Bytes) (last : Time)
    → n ≤ max_safe
    → length id ≤ id_size
    → decode_bound ((encode_digits n ++ (encode_digits (length id) ++ id)) ++ rest) last
      ≡ ok (record { timestamp = timestamp_in n last; id = id }, rest)
unfolding decode_bound
decode_parts n id rest last small short =
    rw
      (
        append_assoc (encode_digits n) (encode_digits (length id) ++ id) rest,
        decode-encode_digits n ((encode_digits (length id) ++ id) ++ rest) small,
        append_assoc (encode_digits (length id)) id rest,
        decode-encode_digits (length id) (id ++ rest) (omega arith),
        le→leb _ _ short,
        read_n-append id rest,
      )
      refl

code_of-timestamp_in : (t last : Time) → IsNext t last → timestamp_in (code_of t last) last ≡ t
unfolding ◌-ℤ◌
code_of-timestamp_in infinity last h = refl
code_of-timestamp_in (finite t) (finite last) h = ap finite (eq_of_parts _ t (ground arith))
code_of-timestamp_in (finite t) infinity h = cc

encode_time :
    (t last : Time)
    → IsNext t last
    → encode_timestamp_out t last ≡ ok (encode_digits (code_of t last), t)
unfolding encode_timestamp_out ◌-ℤ◌
encode_time infinity last h = rw (encode_var_int-ok 0 (omega arith)) refl
encode_time (finite t) (finite last) h =
    let delta : (t -ℤ last -ℤ negsuc 0) ≡ pos (suc (pos_part (t -ℤ last))) =
      eq_of_parts _ _ (ground arith) in
    rw (delta, encode_var_int-ok (suc (pos_part (t -ℤ last))) (omega arith)) refl
encode_time (finite t) infinity h = cc

code_of-le : (t last : Time) → IsNext t last → code_of t last ≤ max_safe
code_of-le infinity last h = omega arith
code_of-le (finite t) (finite last) h = omega (arith, h.1)
code_of-le (finite t) infinity h = cc

-- A bound whose key has at most 32 bytes, and whose time is infinite or comes after the last one, or
-- with it, by less than the greatest safe integer, is written without an error, and what is written
-- is read back as that bound, with the bytes behind it left.
pub decode_bound-encode_bound :
    (key : NegItem) (last : Time) (rest : Bytes)
    → IsNext key.timestamp last
    → length key.id ≤ id_size
    → (encode_bound key last >>= λ out. decode_bound (out.0 ++ rest) last) ≡ ok (key, rest)
unfolding encode_bound
decode_bound-encode_bound key last rest next short =
    rw (encode_time key.timestamp last next, encode_var_int-ok (length key.id) (omega arith))
      (decode_parts (code_of key.timestamp last) key.id rest last
          (code_of-le key.timestamp last next) short
        ∙ ap (λ t. ok (record { timestamp = t; id = key.id }, rest))
            (code_of-timestamp_in key.timestamp last next))
