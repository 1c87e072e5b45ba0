-- ===== src/Nips/Negentropy.antt =====
-- src/nips/nip77.ts: the data of negentropy, range-based set reconciliation.
-- Bytes are numbers. `EncodedBuf` is the list of its bytes ahead of the cursor: `extend` is `++`, and
-- reading returns what is left. `Infinity` of the source is `infinity`; other times are integers.
pub mod VarInt
pub mod Vector
pub mod Bound
pub mod Range
pub mod Reconcile
use nostr_js.Base.{
  ◌≡◌, Bool, true, false, ◌&&◌, not, Option, none, some, List, [], ◌∷◌, ℕ, ltb, length, take, drop,
  Text, Result, ok, err, require, ◌>>=◌, ◌>>◌, if◌then◌else◌,
}
use nostr_js.Base.Int.{ℤ, pos, negsuc, ◌-ℤ◌, int_beq}
use nostr_js.Core.Hex.{HexError}

abbrev pub Bytes : Type 0
Bytes = List ℕ

pub data Nip77Error : Type 0 where
  premature_end varint_too_large varint_unsafe already_sealed not_sealed reserved_infinity :
      Nip77Error
  duplicate_item bad_range limit_too_small invalid_version missing_bound_items : Nip77Error
  key_too_long unexpected_mode too_many_rounds : Nip77Error
  unsupported_version : ℕ → Nip77Error
  hex : HexError → Nip77Error
  invalid_hex : ℕ → Nip77Error

-- The functions of other packages: `sha256`, and the hex coding under `bytesToHex` and `hexToBytes`.
pub record Codec : Type 0 where
  pub sha256 : Bytes → Bytes
  pub bytes_to_hex : Bytes → Text
  pub hex_to_bytes : Text → Option Bytes

-- `hexToBytes`, which throws
pub bytes_of_hex : Codec → Text → Result Nip77Error Bytes
bytes_of_hex codec text = elim (codec.hex_to_bytes text) [
  | none ↦ err (invalid_hex (length text))
  | some bytes ↦ ok bytes
]

abbrev pub id_size : ℕ
id_size = 32

abbrev pub fingerprint_size : ℕ
fingerprint_size = 16

pub data Time : Type 0 where
  finite : ℤ → Time
  infinity : Time

-- `NegItem`, and `Bound`
pub record NegItem : Type 0 where
  pub timestamp : Time
  pub id : Bytes

-- `compareBytes`
unfoldable pub compare_bytes : Bytes → Bytes → ℤ
compare_bytes [] [] = pos 0
compare_bytes [] (_ ∷ _) = negsuc 0
compare_bytes (_ ∷ _) [] = pos 1
compare_bytes (x ∷ a) (y ∷ b) =
    let rest = compare_bytes a b in if ltb x y then negsuc 0 else if ltb y x then pos 1 else rest

abbrev pub compare_times : Time → Time → ℤ → ℤ
compare_times (finite s) (finite t) ids = if not (int_beq s t) then s -ℤ t else ids
compare_times (finite s) infinity ids = negsuc 0
compare_times infinity (finite t) ids = pos 1
compare_times infinity infinity ids = ids

-- `compareNegItems`; with `Infinity` only the sign of the difference is kept
unfoldable pub compare_neg_items : NegItem → NegItem → ℤ
compare_neg_items a b = compare_times a.timestamp b.timestamp (compare_bytes a.id b.id)

-- `EncodedBuf.read`, `EncodedBuf.readN` and `getBytes`
unfoldable pub read : Bytes → Result Nip77Error (ℕ × Bytes)
read [] = err premature_end
read (first ∷ rest) = ok (first, rest)

unfoldable pub read_n : ℕ → Bytes → Result Nip77Error (Bytes × Bytes)
read_n n buf = if ltb (length buf) n then err premature_end else ok (take n buf, drop n buf)
