-- ===== src/Nips/Negentropy/Reconcile.antt =====
-- `Negentropy` of src/nips/nip77.ts: `initiate`, and `reconcile`.
pub mod Partition
pub mod Rounds
use nostr_js.Base.{
  ◌≡◌, Bool, true, false, ◌&&◌, ◌||◌, not, Option, none, some, List, [], ◌∷◌, ◌++◌, ℕ, zero, suc,
  ◌+◌, ◌-◌, ◌/◌, ◌%◌, ltb, leb, nat_beq, if◌then◌else◌, length, take, Text, ◌==◌, text_eq, nat_eq,
  Result, ok, err, require, ◌>>=◌, ◌>>◌, map,
}
use nostr_js.Base.Int.{ℤ, pos, negsuc, ◌-ℤ◌, int_eq, pos_part}
use nostr_js.Runtime.Map
use nostr_js.Runtime.Map.{Map}
use nostr_js.Nips.Negentropy.{
  Bytes, Nip77Error, limit_too_small, invalid_version, missing_bound_items, key_too_long,
  unexpected_mode, unsupported_version, varint_unsafe, Codec, bytes_of_hex, Time, finite, infinity,
  NegItem, compare_bytes, read, read_n, id_size, fingerprint_size,
}
use nostr_js.Nips.Negentropy.VarInt.{encode_var_int, decode_var_int}
use nostr_js.Nips.Negentropy.Vector
use nostr_js.Nips.Negentropy.Vector.{StorageVector, iterate, fingerprint, find_lower_bound}
use nostr_js.Nips.Negentropy.Bound.{
  bound, encode_bound, decode_bound, encode_skip, encode_ids, encode_fingerprint,
}
use nostr_js.Nips.Negentropy.Range.{split_range}

abbrev protocol_version : ℕ
protocol_version = 97

pub record Negentropy : Type 0 where
  pub storage : StorageVector
  pub frame_size_limit : ℕ
  pub initiator : Bool
  pub last_timestamp_in : Time
  pub last_timestamp_out : Time

-- the constructor
pub new_negentropy : StorageVector → ℕ → Result Nip77Error Negentropy
new_negentropy storage frame_size_limit = do
  require (nat_beq frame_size_limit 0 || leb 4096 frame_size_limit) limit_too_small
  ok (record {
    storage = storage;
    frame_size_limit = frame_size_limit;
    initiator = false;
    last_timestamp_in = finite (pos 0);
    last_timestamp_out = finite (pos 0);
  })

-- `#exceededFrameSizeLimit`
exceeded_frame_size_limit : ℕ → ℕ → Bool
exceeded_frame_size_limit limit n = if nat_beq limit 0 then false else ltb (limit - 200) n

-- `initiate`
pub initiate : Codec → Negentropy → Result Nip77Error (Text × Negentropy)
unfolding split_range
initiate codec n = do
  size ← Vector.size n.storage
  body ← split_range codec n.storage 0 size (bound infinity []) n.last_timestamp_out
  ok (
    codec.bytes_to_hex (protocol_version ∷ body.0),
    record n { initiator = true; last_timestamp_out = body.1 },
  )

-- The variables of the loop of `reconcile`.
pub record Session : Type 0 where
  pub query : Bytes
  pub last_in : Time
  pub last_out : Time
  pub prev_bound : NegItem
  pub prev_index : ℕ
  pub skip : Bool
  pub output : Bytes
  pub have : List Text
  pub need : List Text

-- What one range adds: the answer `o`, and the variables after it.
pub record Answer : Type 0 where
  pub reply : Bytes
  pub session : Session

-- the pending skip, before an answer is written
flush_skip : Session → Result Nip77Error (Bytes × Session)
unfolding encode_skip
flush_skip v =
    if v.skip
    then (encode_skip v.prev_bound v.last_out >>= λ o.
        ok (o.0, record v { skip = false; last_out = o.1 }))
    else ok ([], v)

-- the loop that fills `theirElems`
read_ids : Codec → ℕ → Bytes → Map Text Bytes → Result Nip77Error (Map Text Bytes × Bytes)
read_ids codec zero buf elems = ok (elems, buf)
read_ids codec (suc n) buf elems = do
  e ← read_n id_size buf
  read_ids codec n e.1 (Map.set elems (codec.bytes_to_hex e.0) e.0)

-- the callback of the initiator: own ids that the peer has not are `have`, the rest is left
unfoldable pub partition_ids : Codec → List NegItem → Map Text Bytes → List Text × Map Text Bytes
partition_ids codec [] elems = ([], elems)
partition_ids codec (item ∷ items) elems =
    let id = codec.bytes_to_hex item.id in
    if Map.has elems id
    then partition_ids codec items (Map.delete elems id)
    else let (have, left) = partition_ids codec items elems in (id ∷ have, left)

module _ (codec : Codec) (n : Negentropy) (key : NegItem) (lower upper : ℕ) where
  -- whether the fingerprints agree, and the answer to it
  on_compared : Bool → Session → Result Nip77Error Answer
  unfolding flush_skip
  on_compared true v = ok (record { reply = []; session = record v { skip = true } })
  on_compared false v = do
    o ← flush_skip v
    body ← split_range codec n.storage lower upper key o.1.last_out
    ok (record { reply = o.0 ++ body.0; session = record o.1 { last_out = body.1 } })

  on_fingerprint : Session → Result Nip77Error Answer
  unfolding on_compared
  on_fingerprint v = do
    theirs ← read_n fingerprint_size v.query
    ours ← fingerprint codec lower upper n.storage
    on_compared (compare_bytes theirs.0 ours == pos 0) (record v { query = theirs.1 })

  on_ids_initiator : Map Text Bytes → Session → Result Nip77Error Answer
  unfolding partition_ids
  on_ids_initiator elems v = do
    items ← iterate lower upper n.storage
    let split = partition_ids codec items elems
    ok (record {
      reply = [];
      session = record v {
        skip = true;
        have = v.have ++ split.0;
        need = v.need ++ Map.keys split.1;
      };
    })

  on_ids_responder : Session → Result Nip77Error Answer
  unfolding flush_skip encode_ids
  on_ids_responder v = do
    o ← flush_skip v
    items ← iterate lower upper n.storage
    body ← encode_ids key items o.1.last_out
    ok (record { reply = o.0 ++ body.0; session = record o.1 { last_out = body.1 } })

  -- by whether this side is the initiator
  on_elems : Bool → Map Text Bytes → Session → Result Nip77Error Answer
  unfolding on_ids_initiator on_ids_responder
  on_elems true elems v = on_ids_initiator elems v
  on_elems false elems v = on_ids_responder v

  on_ids : Session → Result Nip77Error Answer
  unfolding read_ids on_elems
  on_ids v = do
    count ← decode_var_int v.query
    elems ← read_ids codec count.0 count.1 []
    on_elems n.initiator elems.0 (record v { query = elems.1 })

  -- the three modes
  on_mode : ℕ → Session → Result Nip77Error Answer
  unfolding on_fingerprint on_ids
  on_mode zero v = ok (record { reply = []; session = record v { skip = true } })
  on_mode (suc zero) v = on_fingerprint v
  on_mode (suc (suc zero)) v = on_ids v
  on_mode (suc (suc (suc _))) v = err unexpected_mode

-- the end of a round: the answer is appended, or the rest is answered by one fingerprint
close_round : Codec → Negentropy → NegItem → (upper size : ℕ) → Answer → Result Nip77Error Session
unfolding exceeded_frame_size_limit encode_fingerprint
close_round codec n key upper size a =
    if exceeded_frame_size_limit n.frame_size_limit (length a.session.output + length a.reply)
    then (fingerprint codec upper size n.storage >>= λ print.
        encode_fingerprint (bound infinity []) print a.session.last_out >>= λ o.
        ok (record a.session { query = []; output = a.session.output ++ o.0; last_out = o.1 }))
    else ok (record a.session {
      output = a.session.output ++ a.reply;
      prev_index = upper;
      prev_bound = key;
    })

-- One round of the loop. Breaking off leaves no query.
unfoldable pub round : Codec → Negentropy → ℕ → Session → Result Nip77Error Session
unfolding on_mode close_round
round codec n size v = do
  key ← decode_bound v.query v.last_in
  mode ← decode_var_int key.1
  upper ← find_lower_bound v.prev_index size key.0 n.storage
  a ←
      on_mode codec n key.0 v.prev_index upper mode.0
        (record v { query = mode.1; last_in = key.0.timestamp })
  close_round codec n key.0 upper size a

abbrev is_empty : Bytes → Bool
is_empty [] = true
is_empty (_ ∷ _) = false

-- The loop. A round reads at least one byte, so fuel is the length of the query.
unfoldable pub rounds : ℕ → Codec → Negentropy → ℕ → Session → Result Nip77Error Session
unfolding round
rounds zero codec n size v = ok v
rounds (suc fuel) codec n size v =
    if is_empty v.query then ok v else round codec n size v >>= rounds fuel codec n size

pub record ReconcileOutcome : Type 0 where
  pub have : List Text
  pub need : List Text
  pub next_message : Option Text

abbrev first_session : Bytes → Session
first_session query = record {
  query = query;
  last_in = finite (pos 0);
  last_out = finite (pos 0);
  prev_bound = bound (finite (pos 0)) [];
  prev_index = 0;
  skip = false;
  output = protocol_version ∷ [];
  have = [];
  need = [];
}

abbrev message : Codec → Bytes → Option Text
message codec output = if nat_beq (length output) 1 then none else some (codec.bytes_to_hex output)

run_rounds : Codec → Negentropy → Bytes → Result Nip77Error (ReconcileOutcome × Negentropy)
unfolding rounds
run_rounds codec n query = do
  size ← Vector.size n.storage
  v ← rounds (length query) codec n size (first_session query)
  ok (
    record { have = v.have; need = v.need; next_message = message codec v.output },
    record n { last_timestamp_in = v.last_in; last_timestamp_out = v.last_out },
  )

answer_version : Codec → Negentropy → ℕ → Result Nip77Error (ReconcileOutcome × Negentropy)
answer_version codec n version =
    if n.initiator
    then err (unsupported_version version)
    else ok (
      record {
        have = [];
        need = [];
        next_message = some (codec.bytes_to_hex (protocol_version ∷ []));
      },
      record n { last_timestamp_in = finite (pos 0); last_timestamp_out = finite (pos 0) },
    )

-- `reconcile`
unfoldable pub reconcile :
    Codec → Negentropy → Text → Result Nip77Error (ReconcileOutcome × Negentropy)
unfolding run_rounds answer_version
reconcile codec n query_msg = do
  query ← bytes_of_hex codec query_msg
  first ← read query
  require (leb 96 first.0 && leb first.0 111) invalid_version
  if first.0 == protocol_version then run_rounds codec n first.1 else answer_version codec n first.0
