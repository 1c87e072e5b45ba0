-- ===== src/Tests/Negentropy.antt =====
-- Items and bounds at which the theorems on negentropy are applied.
use nostr_js.Base.{
  ◌≡◌, refl, Bool, true, false, not, ◌&&◌, List, [], ◌∷◌, ◌++◌, ◌⊎◌, arith, ℕ, ◌+◌, replicate, any,
  Text, text_eq, nat_eq, ◌==◌, some, Result, ok, ◌>>=◌,
}
use nostr_js.Base.Int.{pos, ◌-ℤ◌}
use nostr_js.Runtime.Map
use nostr_js.Runtime.Map.{Map}
use nostr_js.Runtime.Sort
use nostr_js.Nips.Negentropy.{Bytes, Codec, finite, infinity, NegItem, compare_neg_items}
use nostr_js.Nips.Negentropy.VarInt.{encode_var_int, decode_var_int, decode_var_int-encode_var_int}
use nostr_js.Nips.Negentropy.Bound.{encode_bound, decode_bound}
use nostr_js.Nips.Negentropy.Bound.Wire.{decode_bound-encode_bound}
use nostr_js.Nips.Negentropy.Vector.{StorageVector, find_lower_bound, add_words}
use nostr_js.Nips.Negentropy.Vector.Sum.{value, range, end_of_words, next_word, add_words_lem}
use nostr_js.Nips.Negentropy.Vector.Bisect.{IsLowerBound, find_lower_bound-IsLowerBound}
use nostr_js.Nips.Negentropy.Reconcile.{partition_ids, Negentropy, Session, rounds}
use nostr_js.Nips.Negentropy.Reconcile.Rounds.{rounds_enough}
use nostr_js.Nips.Negentropy.Reconcile.Partition.{names, partition_ids_lem}

-- stands for the functions of other packages
abbrev codec : Codec
codec = record {
  sha256 = λ bytes. replicate 32 0;
  bytes_to_hex = λ bytes. bytes;
  hex_to_bytes = λ text. some text;
}

abbrev item : ℕ → ℕ → NegItem
item at byte = record { timestamp = finite (pos at); id = replicate 32 byte }

abbrev open_vector : StorageVector
open_vector = record { items = item 30 3 ∷ item 10 1 ∷ item 20 2 ∷ []; sealed = false }

abbrev sealed_vector : StorageVector
sealed_vector = record { items = item 10 1 ∷ item 20 2 ∷ item 30 3 ∷ []; sealed = true }

decode_var_int-encode_var_int_example :
    (encode_var_int (pos 1700000000) >>= λ bytes. decode_var_int (bytes ++ 7 ∷ []))
    ≡ ok (1700000000, 7 ∷ [])
decode_var_int-encode_var_int_example =
    decode_var_int-encode_var_int 1700000000 (7 ∷ []) (omega arith)

decode_bound-encode_bound_example :
    (encode_bound (item 30 3) (finite (pos 10)) >>= λ out.
    decode_bound (out.0 ++ 7 ∷ []) (finite (pos 10)))
    ≡ ok (item 30 3, 7 ∷ [])
unfolding ◌-ℤ◌
decode_bound-encode_bound_example =
    decode_bound-encode_bound (item 30 3) (finite (pos 10)) (7 ∷ []) (omega arith, omega arith)
      (omega arith)

abbrev is_late : NegItem → Bool
is_late x = any (λ byte. byte == 3) x.id

find_lower_bound-IsLowerBound_example :
    (r : ℕ) × (find_lower_bound 0 3 (item 20 2) sealed_vector ≡ ok r)
    × IsLowerBound sealed_vector.items (item 20 2) 0 3 r
unfolding compare_neg_items ◌-ℤ◌
find_lower_bound-IsLowerBound_example =
    find_lower_bound-IsLowerBound 0 3 (item 20 2) sealed_vector refl
      ((refl, (refl, tt)), ((refl, tt), (tt, tt))) (omega arith) (omega arith)

abbrev theirs : Map Text Bytes
theirs = (replicate 32 2, replicate 32 2) ∷ (replicate 32 9, replicate 32 9) ∷ []

partition_ids_lem_example :
    (any (λ id. id == replicate 32 1) (partition_ids codec sealed_vector.items theirs).0
      ≡ (names codec sealed_vector.items (replicate 32 1) && not (Map.has theirs (replicate 32 1))))
    × (Map.has (partition_ids codec sealed_vector.items theirs).1 (replicate 32 1) ≡ (
        Map.has theirs (replicate 32 1) && not (names codec sealed_vector.items (replicate 32 1))))
unfolding any nostr_js.Base.text_beq
partition_ids_lem_example =
    partition_ids_lem codec sealed_vector.items theirs (replicate 32 1) (refl, (refl, (refl, tt)))

abbrev responder : Negentropy
responder = record {
  storage = sealed_vector;
  frame_size_limit = 0;
  initiator = false;
  last_timestamp_in = finite (pos 0);
  last_timestamp_out = finite (pos 0);
}

-- an id list of no ids up to infinity
abbrev empty_list : Bytes
empty_list = 0 ∷ 0 ∷ 2 ∷ 0 ∷ []

abbrev started : Session
started = record {
  query = empty_list;
  last_in = finite (pos 0);
  last_out = finite (pos 0);
  prev_bound = record { timestamp = finite (pos 0); id = [] };
  prev_index = 0;
  skip = false;
  output = 97 ∷ [];
  have = [];
  need = [];
}

rounds_enough_example : rounds 10 codec responder 3 started ≡ rounds 4 codec responder 3 started
rounds_enough_example = rounds_enough 10 codec responder 3 started (omega arith)

-- the answer: a bound at infinity, the mode of an id list, and the three ids
abbrev finished : Session
finished = record started {
  query = [];
  last_in = infinity;
  last_out = infinity;
  prev_bound = record { timestamp = infinity; id = [] };
  prev_index = 3;
  output = 97 ∷ 0 ∷ 0 ∷ 2 ∷ 3 ∷ (replicate 32 1 ++ (replicate 32 2 ++ (replicate 32 3 ++ [])));
}

started_run : rounds 4 codec responder 3 started ≡ ok finished
unfolding rounds decode_bound decode_var_int nostr_js.Nips.Negentropy.VarInt.decode_from
    nostr_js.Nips.Negentropy.read_n find_lower_bound nostr_js.Nips.Negentropy.Vector.iterate
    nostr_js.Nips.Negentropy.Vector.bisect compare_neg_items encode_bound encode_var_int
    nostr_js.Nips.Negentropy.VarInt.encode_digits nostr_js.Nips.Negentropy.VarInt.mark_digits
    nostr_js.Nips.Negentropy.VarInt.to_digits
started_run = refl

add_words_lem_example :
    (value (add_words 0 (replicate 4 255) (replicate 4 1))
      ≡ value (replicate 4 255) + value (replicate 4 1))
    ⊎ (value (add_words 0 (replicate 4 255) (replicate 4 1)) + range (replicate 4 255)
        ≡ value (replicate 4 255) + value (replicate 4 1))
add_words_lem_example =
    add_words_lem (replicate 4 255) (replicate 4 1)
      (next_word 255 255 255 255 1 1 1 1 [] [] (omega arith) (omega arith) end_of_words)
