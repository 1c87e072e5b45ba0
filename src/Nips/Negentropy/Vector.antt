-- ===== src/Nips/Negentropy/Vector.antt =====
-- `NegentropyStorageVector` and `Accumulator` of src/nips/nip77.ts.
pub mod Bisect
pub mod Seal
pub mod Sum
use nostr_js.Base.{
  ◌≡◌, Bool, true, false, ◌&&◌, ◌||◌, not, Option, none, some, List, [], ◌∷◌, ◌++◌, ℕ, zero, suc,
  ◌+◌, ◌-◌, ◌*◌, ◌/◌, ◌%◌, ◌^◌, ltb, leb, nat_beq, if◌then◌else◌, length, get_elem?, take, drop,
  replicate, Text, text, ◌==◌, text_eq, Result, ok, err, require, ◌>>=◌, ◌>>◌,
}
use nostr_js.Base.Int.{ℤ, pos, ltb_ℤ, int_beq}
use nostr_js.Runtime.Set
use nostr_js.Runtime.Set.{Set}
use nostr_js.Runtime.Sort.{sort}
use nostr_js.Runtime.Str.{to_lower_case}
use nostr_js.Core.Event.{Stamp}
use nostr_js.Core.Hex.{assert_hex32, HexError}
use nostr_js.Nips.Negentropy.{
  Bytes, Nip77Error, already_sealed, not_sealed, reserved_infinity, duplicate_item, bad_range, hex,
  Codec, bytes_of_hex, Time, finite, infinity, NegItem, compare_neg_items, id_size,
  fingerprint_size,
}
use nostr_js.Nips.Negentropy.VarInt.{encode_var_int}

pub record StorageVector : Type 0 where
  pub items : List NegItem
  pub sealed : Bool

abbrev pub new_vector : StorageVector
new_vector = record { items = []; sealed = false }

abbrev is_infinite : Time → Bool
is_infinite infinity = true
is_infinite (finite _) = false

abbrev checked_id : Text → Result Nip77Error Text
checked_id id = elim (assert_hex32 id (text "event id")) [ err e ↦ err (hex e) | ok key ↦ ok key ]

-- `insert`
pub insert : Codec → Time → Text → StorageVector → Result Nip77Error StorageVector
unfolding bytes_of_hex
insert codec timestamp id s = do
  require (not s.sealed) already_sealed
  require (not (is_infinite timestamp)) reserved_infinity
  key ← checked_id id
  bytes ← bytes_of_hex codec key
  ok (record s { items = s.items ++ record { timestamp = timestamp; id = bytes } ∷ [] })

-- whether two neighbours compare as equal
unfoldable pub has_twins : List NegItem → Bool
has_twins [] = false
has_twins (item ∷ []) = false
has_twins (prev ∷ item ∷ items) =
    int_beq (compare_neg_items prev item) (pos 0) || has_twins (item ∷ items)

-- `seal`
unfoldable pub seal : StorageVector → Result Nip77Error StorageVector
seal s = do
  require (not s.sealed) already_sealed
  let sorted = sort compare_neg_items s.items
  require (not (has_twins sorted)) duplicate_item
  ok (record { items = sorted; sealed = true })

-- `size`
unfoldable pub size : StorageVector → Result Nip77Error ℕ
size s = do require s.sealed not_sealed; ok (length s.items)

-- `#checkSealed` and `#checkBounds`
unfoldable pub check_range : ℕ → ℕ → StorageVector → Result Nip77Error (Unit {0})
check_range begin end s = do
  require s.sealed not_sealed
  require (leb begin end && leb end (length s.items)) bad_range

-- `iterate` with a callback that goes on to the end: the items it is called on
unfoldable pub iterate : ℕ → ℕ → StorageVector → Result Nip77Error (List NegItem)
iterate begin end s = do check_range begin end s; ok (take (end - begin) (drop begin s.items))

abbrev pub is_below : NegItem → NegItem → Bool
is_below bound item = ltb_ℤ (compare_neg_items item bound) (pos 0)

-- The loop of `findLowerBound` on the items. Each round makes `count` smaller, so fuel `count` is
-- enough.
unfoldable pub bisect : ℕ → List NegItem → NegItem → (first count : ℕ) → ℕ
bisect zero items bound first count = first
bisect (suc fuel) items bound first zero = first
bisect (suc fuel) items bound first (suc n) =
    let step = suc n / 2 in
    elim (get_elem? items (first + step)) [
      | none ↦ first
      | some item ↦
          bisect fuel items bound (if is_below bound item then first + step + 1 else first)
            (if is_below bound item then suc n - (step + 1) else step)
    ]

-- `findLowerBound`
unfoldable pub find_lower_bound : ℕ → ℕ → NegItem → StorageVector → Result Nip77Error ℕ
unfolding check_range
find_lower_bound begin end bound s = do
  check_range begin end s
  ok (bisect (end - begin) s.items bound begin (end - begin))

-- a little-endian 32-bit word
abbrev pub word : (a b c d : ℕ) → ℕ
word a b c d = a + 256 * b + 65536 * c + 16777216 * d

abbrev pub word_bytes : ℕ → Bytes
word_bytes n = (n % 256) ∷ (n / 256 % 256) ∷ (n / 65536 % 256) ∷ (n / 16777216 % 256) ∷ []

-- `Accumulator.add` from one word on, with the carry; `next >>> 0` is `next % 2 ^ 32`
unfoldable pub add_words : ℕ → Bytes → Bytes → Bytes
add_words carry (a ∷ b ∷ c ∷ d ∷ buf) (w ∷ x ∷ y ∷ z ∷ other) =
    let next = word a b c d + carry + word w x y z in
    word_bytes (next % 2 ^ 32) ++ add_words (if ltb 4294967295 next then 1 else 0) buf other
add_words carry buf other = buf

unfoldable pub sum_ids : Bytes → List NegItem → Bytes
unfolding add_words
sum_ids buf [] = buf
sum_ids buf (item ∷ items) = sum_ids (add_words 0 buf item.id) items

-- `fingerprint`, and that of the accumulator
unfoldable pub fingerprint : Codec → ℕ → ℕ → StorageVector → Result Nip77Error Bytes
unfolding sum_ids
fingerprint codec begin end s = do
  items ← iterate begin end s
  n ← encode_var_int (pos (end - begin))
  ok (take fingerprint_size (codec.sha256 (sum_ids (replicate id_size 0) items ++ n)))

-- the loop of `storageFromItems`
insert_items : Codec → List Stamp → Set Text → StorageVector → Result Nip77Error StorageVector
unfolding insert
insert_items codec [] seen s = ok s
insert_items codec (item ∷ items) seen s =
    let id = to_lower_case item.id in
    if Set.has seen id
    then insert_items codec items seen s
    else insert codec (finite item.created_at) id s >>= λ s'.
        insert_items codec items (Set.add seen id) s'

-- `storageFromItems`
pub storage_from_items : Codec → List Stamp → Result Nip77Error StorageVector
unfolding insert_items
storage_from_items codec items = insert_items codec items [] new_vector >>= seal
