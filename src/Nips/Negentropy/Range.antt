-- ===== src/Nips/Negentropy/Range.antt =====
-- `#splitRange` of src/nips/nip77.ts: a short range as ids, a long one as sixteen fingerprints.
use nostr_js.Base.{
  List, [], ◌∷◌, ◌++◌, ℕ, zero, suc, ◌+◌, ◌-◌, ◌/◌, ◌%◌, ltb, if◌then◌else◌, ◌==◌, text_eq, nat_eq,
  Result, ok, err, ◌>>=◌,
}
use nostr_js.Base.Int.{int_eq}
use nostr_js.Nips.Negentropy.{Bytes, Nip77Error, missing_bound_items, Codec, Time, NegItem}
use nostr_js.Nips.Negentropy.Vector.{StorageVector, iterate, fingerprint}
use nostr_js.Nips.Negentropy.Bound.{minimal_bound, encode_ids, encode_fingerprint}

abbrev buckets : ℕ
buckets = 16

abbrev id_list_threshold : ℕ
id_list_threshold = 32

between : List NegItem → Result Nip77Error NegItem
between (prev ∷ curr ∷ _) = ok (minimal_bound prev curr)
between _ = err missing_bound_items

module _ (codec : Codec) (s : StorageVector) where
  -- `nextBound` of a bucket that ends before `curr`
  next_bound : ℕ → ℕ → NegItem → Result Nip77Error NegItem
  unfolding between
  next_bound curr upper upper_bound =
      if curr == upper then ok upper_bound else iterate (curr - 1) (curr - 1 + 2) s >>= between

  -- the loop of `#splitRange` over the buckets from `i`, `left` of them
  split_buckets :
      (left i per_bucket extra curr upper : ℕ) → NegItem → Time → Result Nip77Error (Bytes × Time)
  unfolding next_bound
  split_buckets zero i per_bucket extra curr upper upper_bound last = ok ([], last)
  split_buckets (suc left) i per_bucket extra curr upper upper_bound last = do
    let end = curr + (per_bucket + (if ltb i extra then 1 else 0))
    print ← fingerprint codec curr end s
    key ← next_bound end upper upper_bound
    head ← encode_fingerprint key print last
    rest ← split_buckets left (suc i) per_bucket extra end upper upper_bound head.1
    ok (head.0 ++ rest.0, rest.1)

  -- `#splitRange`
  unfoldable pub split_range : (lower upper : ℕ) → NegItem → Time → Result Nip77Error (Bytes × Time)
  unfolding encode_ids split_buckets encode_fingerprint
  split_range lower upper upper_bound last =
      if ltb (upper - lower) id_list_threshold
      then (iterate lower upper s >>= λ items. encode_ids upper_bound items last)
      else split_buckets buckets 0 ((upper - lower) / buckets) ((upper - lower) % buckets) lower
          upper upper_bound last
