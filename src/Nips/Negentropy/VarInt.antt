-- ===== src/Nips/Negentropy/VarInt.antt =====
-- The variable-length integers of src/nips/nip77.ts, most significant digit first, in base 128.
-- A digit `d` is less than 128, so `d | 0x80` is `d + 128`.
use nostr_js.Base.{
  ◌≡◌, refl, true, false, List, [], ◌∷◌, ◌++◌, arith, ℕ, zero, suc, ◌+◌, ◌*◌, ◌/◌, ◌%◌, ◌≤◌, ◌<◌,
  ltb, leb, nat_beq, if◌then◌else◌, Result, ok, err, ◌>>=◌, Bool-cases, inl, inr, ◌∙◌, ap,
}
use nostr_js.Base.Int.{ℤ, pos, negsuc}
use nostr_js.Nips.Negentropy.{Bytes, Nip77Error, premature_end, varint_too_large, varint_unsafe}

-- `Number.MAX_SAFE_INTEGER`
abbrev pub max_safe : ℕ
max_safe = 9007199254740991

-- the loop of `decodeVarInt`, with `res`
unfoldable pub decode_from : ℕ → Bytes → Result Nip77Error (ℕ × Bytes)
decode_from res [] = err premature_end
decode_from res (byte ∷ buf) =
    let next = res * 128 + byte % 128 in
    let rest = decode_from next buf in
    if ltb max_safe next
    then err varint_too_large
    else if nat_beq (byte / 128 % 2) 0
    then ok (next, buf)
    else rest

-- `decodeVarInt`
unfoldable pub decode_var_int : Bytes → Result Nip77Error (ℕ × Bytes)
decode_var_int = decode_from 0

-- The digits of `value` before `acc`: pushing each digit and reversing the array at the end.
unfoldable pub to_digits : ℕ → ℕ → List ℕ → List ℕ
to_digits zero value acc = acc
to_digits (suc fuel) value acc =
    let rest = to_digits fuel (value / 128) ((value % 128) ∷ acc) in
    if nat_beq value 0 then acc else rest

-- every digit but the last is marked
unfoldable pub mark_digits : List ℕ → Bytes
mark_digits [] = []
mark_digits (d ∷ []) = d ∷ []
mark_digits (d ∷ e ∷ ds) = (d + 128) ∷ mark_digits (e ∷ ds)

-- A safe integer has at most 8 digits: 2 ^ 53 is less than 128 ^ 8.
unfoldable pub encode_digits : ℕ → Bytes
encode_digits n = if nat_beq n 0 then 0 ∷ [] else mark_digits (to_digits 8 n [])

-- `encodeVarInt`
unfoldable pub encode_var_int : ℤ → Result Nip77Error Bytes
encode_var_int (negsuc _) = err varint_unsafe
encode_var_int (pos n) = if leb n max_safe then ok (encode_digits n) else err varint_unsafe

power_128 : ℕ → ℕ
power_128 zero = 1
power_128 (suc n) = 128 * power_128 n

decode_marked :
    (n a : ℕ) (ds : List ℕ) (rest : Bytes)
    → n ≤ max_safe
    → decode_from (n / 128) (mark_digits ((n % 128) ∷ a ∷ ds) ++ rest)
      ≡ decode_from n (mark_digits (a ∷ ds) ++ rest)
unfolding decode_from mark_digits
decode_marked n a ds rest h =
    let value : n / 128 * 128 + (n % 128 + 128) % 128 ≡ n = omega arith in
    let small : ltb max_safe n ≡ false = ground arith in
    let more : nat_beq ((n % 128 + 128) / 128 % 2) 0 ≡ false = ground arith in
    rw (value, small, more) refl

decode-to_digits :
    (fuel n a : ℕ) (ds : List ℕ) (rest : Bytes)
    → n < power_128 fuel
    → n ≤ max_safe
    → decode_from 0 (mark_digits (to_digits fuel n (a ∷ ds)) ++ rest)
      ≡ decode_from n (mark_digits (a ∷ ds) ++ rest)
unfolding to_digits power_128
decode-to_digits zero n a ds rest h k =
    ap (λ (m : ℕ). decode_from m (mark_digits (a ∷ ds) ++ rest)) {x = 0} {y = n} (omega arith)
decode-to_digits (suc fuel) n a ds rest h k = elim (Bool-cases (nat_beq n 0)) [
  | inl none ↦
      rw none (
        ap (λ (m : ℕ). decode_from m (mark_digits (a ∷ ds) ++ rest)) {x = 0} {y = n} (ground arith))
  | inr some ↦ rw some (
      decode-to_digits fuel (n / 128) (n % 128) (a ∷ ds) rest (omega arith) (omega arith)
      ∙ decode_marked n a ds rest k)
]

decode_last :
    (n : ℕ) (rest : Bytes)
    → n ≤ max_safe
    → decode_from (n / 128) (mark_digits ((n % 128) ∷ []) ++ rest) ≡ ok (n, rest)
unfolding decode_from mark_digits
decode_last n rest h =
    let value : n / 128 * 128 + n % 128 % 128 ≡ n = omega arith in
    let small : ltb max_safe n ≡ false = ground arith in
    let last : nat_beq (n % 128 / 128 % 2) 0 ≡ true = ground arith in rw (value, small, last) refl

pub decode-encode_digits :
    (n : ℕ) (rest : Bytes) → n ≤ max_safe → decode_var_int (encode_digits n ++ rest) ≡ ok (n, rest)
unfolding decode_var_int encode_digits decode_from to_digits power_128
decode-encode_digits n rest h = elim (Bool-cases (nat_beq n 0)) [
  | inl none ↦ rw none (ap (λ (m : ℕ). ok (m, rest)) {x = 0} {y = n} (ground arith))
  | inr some ↦ rw some (
      decode-to_digits 7 (n / 128) (n % 128) [] rest (omega arith) (omega arith)
      ∙ decode_last n rest h)
]

-- `encodeVarInt` encodes every safe integer from 0, and `decodeVarInt` reads the number back and
-- leaves the bytes behind it.
pub decode_var_int-encode_var_int :
    (n : ℕ) (rest : Bytes)
    → n ≤ max_safe
    → (encode_var_int (pos n) >>= λ bytes. decode_var_int (bytes ++ rest)) ≡ ok (n, rest)
unfolding encode_var_int
decode_var_int-encode_var_int n rest h =
    let safe : leb n max_safe ≡ true = ground arith in rw safe (decode-encode_digits n rest h)

pub encode_var_int-ok : (n : ℕ) → n ≤ max_safe → encode_var_int (pos n) ≡ ok (encode_digits n)
unfolding encode_var_int
encode_var_int-ok n h = let safe : leb n max_safe ≡ true = ground arith in rw safe refl
