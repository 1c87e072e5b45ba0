-- ===== src/Nips/Negentropy/Bound.antt =====
-- The bounds of src/nips/nip77.ts on the wire: times as differences, and prefixes of ids.
-- What writes returns its bytes and the new `#lastTimestampOut`.
pub mod Wire
use nostr_js.Base.{
  ◌≡◌, Bool, true, false, ◌&&◌, ◌||◌, not, Option, none, some, List, [], ◌∷◌, ◌++◌, ℕ, zero, suc,
  ◌+◌, ◌-◌, ◌/◌, ◌%◌, ltb, leb, nat_beq, if◌then◌else◌, length, take, Text, ◌==◌, text_eq, nat_eq,
  Result, ok, err, require, ◌>>=◌, ◌>>◌, map,
}
use nostr_js.Base.Int.{ℤ, pos, negsuc, ◌-ℤ◌, int_eq, pos_part}
use nostr_js.Runtime.Map
use nostr_js.Runtime.Map.{Map}
use nostr_js.Nips.Negentropy.{
  Bytes, Nip77Error, limit_too_small, invalid_version, missing_bound_items, key_too_long,
  unexpected_mode, unsupported_version, varint_unsafe, Codec, bytes_of_hex, Time, finite, infinity,
  NegItem, compare_bytes, read, read_n, id_size, fingerprint_size,
}
use nostr_js.Nips.Negentropy.VarInt.{encode_var_int, decode_var_int}
use nostr_js.Nips.Negentropy.Vector
use nostr_js.Nips.Negentropy.Vector.{StorageVector, iterate, fingerprint, find_lower_bound}

abbrev pub bound : Time → Bytes → NegItem
bound timestamp id = record { timestamp = timestamp; id = id }

-- a difference with `Infinity` is no safe integer
abbrev pub encode_delta : Time → ℤ → Result Nip77Error Bytes
encode_delta (finite last) t = encode_var_int (t -ℤ last -ℤ negsuc 0)
encode_delta infinity t = err varint_unsafe

-- `#encodeTimestampOut`
unfoldable pub encode_timestamp_out : Time → Time → Result Nip77Error (Bytes × Time)
encode_timestamp_out infinity last = encode_var_int (pos 0) >>= λ bytes. ok (bytes, infinity)
encode_timestamp_out (finite t) last = encode_delta last t >>= λ bytes. ok (bytes, finite t)

-- `#encodeBound`
unfoldable pub encode_bound : NegItem → Time → Result Nip77Error (Bytes × Time)
unfolding encode_timestamp_out
encode_bound key last = do
  stamp ← encode_timestamp_out key.timestamp last
  size ← encode_var_int (pos (length key.id))
  ok (stamp.0 ++ (size ++ key.id), stamp.1)

-- `#encodeSkipInto`
unfoldable pub encode_skip : NegItem → Time → Result Nip77Error (Bytes × Time)
encode_skip key last = do
  head ← encode_bound key last
  mode ← encode_var_int (pos 0)
  ok (head.0 ++ mode, head.1)

-- `#decodeTimestampIn`, after the integer is read, from `#lastTimestampIn`
abbrev pub timestamp_in : ℕ → Time → Time
timestamp_in zero last = infinity
timestamp_in (suc n) infinity = infinity
timestamp_in (suc n) (finite last) = finite (pos n -ℤ (pos 0 -ℤ last))

-- `#decodeBound`; the time is also the new `#lastTimestampIn`
unfoldable pub decode_bound : Bytes → Time → Result Nip77Error (NegItem × Bytes)
decode_bound buf last = do
  stamp ← decode_var_int buf
  size ← decode_var_int stamp.1
  require (leb size.0 id_size) key_too_long
  key ← read_n size.0 size.1
  ok (record { timestamp = timestamp_in stamp.0 last; id = key.0 }, key.1)

-- The loop of `#minimalBound`; bytes past the end are `undefined` and equal.
unfoldable pub shared_bytes : ℕ → Bytes → Bytes → ℕ
shared_bytes zero curr prev = 0
shared_bytes (suc n) [] [] = suc (shared_bytes n [] [])
shared_bytes (suc n) [] (_ ∷ _) = 0
shared_bytes (suc n) (_ ∷ _) [] = 0
shared_bytes (suc n) (x ∷ curr) (y ∷ prev) =
    let rest = shared_bytes n curr prev in if x == y then suc rest else 0

same_time : Time → Time → Bool
same_time (finite s) (finite t) = s == t
same_time infinity infinity = true
same_time _ _ = false

-- `#minimalBound`
unfoldable pub minimal_bound : NegItem → NegItem → NegItem
unfolding same_time shared_bytes
minimal_bound prev curr =
    if not (same_time curr.timestamp prev.timestamp)
    then bound curr.timestamp []
    else bound curr.timestamp (take (shared_bytes id_size curr.id prev.id + 1) curr.id)

concat_ids : List NegItem → Bytes
concat_ids [] = []
concat_ids (item ∷ items) = item.id ++ concat_ids items

-- an id list under a bound
unfoldable pub encode_ids : NegItem → List NegItem → Time → Result Nip77Error (Bytes × Time)
unfolding concat_ids
encode_ids key items last = do
  head ← encode_bound key last
  mode ← encode_var_int (pos 2)
  n ← encode_var_int (pos (length items))
  ok (head.0 ++ (mode ++ (n ++ concat_ids items)), head.1)

unfoldable pub encode_fingerprint : NegItem → Bytes → Time → Result Nip77Error (Bytes × Time)
encode_fingerprint key print last = do
  head ← encode_bound key last
  mode ← encode_var_int (pos 1)
  ok (head.0 ++ (mode ++ print), head.1)
