-- ===== src/Core/Message.antt =====
-- src/core/message.ts: the messages between client and relay, and their JSON form.
-- `JSON.parse` and `JSON.stringify` are the record `JsonText`. An event and a filter stay the JSON
-- values that were read, as in the code.
pub mod RoundTrip
pub mod Rules
pub mod Replies
pub mod Accepted
use nostr_js.Base.{
  ◌≡◌, Bool, true, false, ◌&&◌, ◌||◌, not, Option, none, some, List, [], ◌∷◌, ◌++◌, ℕ, ◌%◌, nat_beq,
  ltb, leb, all, map, length, if◌then◌else◌, Text, text, text_eq, ◌==◌, Result, ok, err, require,
  ◌>>=◌, ◌>>◌,
}
use nostr_js.Base.Int.{ℤ, pos, negsuc}
use nostr_js.Runtime.Str.{to_lower_case}
use nostr_js.Core.Json.{
  Json, Items, Fields, Number, null, boolean, number, string, array, object, integer, field, end,
  to_list, of_list, is_record, property, is_signed_event,
}

pub record JsonText : Type 0 where
  pub parse : Text → Option Json
  pub stringify : Json → Text

-- The errors, by their messages; `invalid` and `invalid_filter` have the type of the message.
pub data MessageError : Type 0 where
  bad_subscription_id not_json not_array obsolete_neg_open : MessageError
  invalid invalid_filter unknown_type : Text → MessageError

abbrev pub subscription_id_max_chars : ℕ
subscription_id_max_chars = 64

-- `assertSubscriptionId`
unfoldable pub assert_subscription_id : Text → Result MessageError Text
assert_subscription_id id = do
  require (not (nat_beq (length id) 0 || ltb subscription_id_max_chars (length id)))
      bad_subscription_id
  ok id

-- `createSubscriptionId`, with the random id that it may mint
abbrev pub create_subscription_id : Option Text → Text → Result MessageError Text
create_subscription_id (some id) minted = assert_subscription_id id
create_subscription_id none minted = ok minted

pub data ClientMessage : Type 0 where
  event : Json → ClientMessage
  req : Text → List Json → ClientMessage
  close : Text → ClientMessage
  auth : Json → ClientMessage
  count : Text → List Json → ClientMessage
  neg_open : Text → Json → Text → ClientMessage
  neg_msg : Text → Text → ClientMessage
  neg_close : Text → ClientMessage

-- `CountResult`
pub record CountResult : Type 0 where
  pub total : ℕ
  pub approximate : Option Bool
  pub hll : Option Text

pub data RelayMessage : Type 0 where
  event : Text → Json → RelayMessage
  accepted : Text → Bool → Text → RelayMessage
  eose : Text → RelayMessage
  closed : Text → Text → RelayMessage
  notice : Text → RelayMessage
  auth : Text → RelayMessage
  count : Text → CountResult → RelayMessage
  neg_msg : Text → Text → RelayMessage
  neg_err : Text → Text → RelayMessage

abbrev pub hll_hex_len : ℕ
hll_hex_len = 512

-- `HEX_RE` on a string that is not empty: `[0-9a-fA-F]`
abbrev pub is_any_hex_digit : ℕ → Bool
is_any_hex_digit c =
    (leb b'0' c && leb c b'9') || (leb b'a' c && leb c b'f') || (leb b'A' c && leb c b'F')

-- the test of `isNegHex` on a string
unfoldable pub is_neg_hex : Text → Bool
is_neg_hex value =
    not (nat_beq (length value) 0) && nat_beq (length value % 2) 0 && all is_any_hex_digit value

-- a message as the array that `JSON.stringify` writes
unfoldable pub client_items : ClientMessage → List Json
client_items (ClientMessage.event e) = string (text "EVENT") ∷ e ∷ []
client_items (req id filters) = string (text "REQ") ∷ string id ∷ filters
client_items (close id) = string (text "CLOSE") ∷ string id ∷ []
client_items (ClientMessage.auth e) = string (text "AUTH") ∷ e ∷ []
client_items (ClientMessage.count id filters) = string (text "COUNT") ∷ string id ∷ filters
client_items (neg_open id filter hex) =
    string (text "NEG-OPEN") ∷ string id ∷ filter ∷ string hex ∷ []
client_items (ClientMessage.neg_msg id hex) = string (text "NEG-MSG") ∷ string id ∷ string hex ∷ []
client_items (neg_close id) = string (text "NEG-CLOSE") ∷ string id ∷ []

abbrev pub optional_field : Text → Option Json → Fields → Fields
optional_field name none fields = fields
optional_field name (some j) fields = field name j fields

abbrev pub some_boolean : Option Bool → Option Json
some_boolean none = none
some_boolean (some b) = some (boolean b)

abbrev pub some_string : Option Text → Option Json
some_string none = none
some_string (some t) = some (string t)

abbrev pub count_json : CountResult → Json
count_json r = object (
    field (text "count") (number (integer (pos r.total))) (
      optional_field (text "approximate") (some_boolean r.approximate)
        (optional_field (text "hll") (some_string r.hll) end)))

unfoldable pub relay_items : RelayMessage → List Json
relay_items (RelayMessage.event id e) = string (text "EVENT") ∷ string id ∷ e ∷ []
relay_items (accepted id done message) =
    string (text "OK") ∷ string id ∷ boolean done ∷ string message ∷ []
relay_items (eose id) = string (text "EOSE") ∷ string id ∷ []
relay_items (closed id reason) = string (text "CLOSED") ∷ string id ∷ string reason ∷ []
relay_items (notice message) = string (text "NOTICE") ∷ string message ∷ []
relay_items (RelayMessage.auth challenge) = string (text "AUTH") ∷ string challenge ∷ []
relay_items (RelayMessage.count id result) =
    string (text "COUNT") ∷ string id ∷ count_json result ∷ []
relay_items (RelayMessage.neg_msg id hex) = string (text "NEG-MSG") ∷ string id ∷ string hex ∷ []
relay_items (neg_err id reason) = string (text "NEG-ERR") ∷ string id ∷ string reason ∷ []

-- `typeof value !== "string"`, `"boolean"`: throws, or goes on with the value
abbrev pub with_string {ℓ} :
    {A : Type ℓ} → Json → MessageError → (Text → Result MessageError A) → Result MessageError A
with_string (string t) e go = go t
with_string _ e go = err e

abbrev pub with_boolean {ℓ} :
    {A : Type ℓ} → Json → MessageError → (Bool → Result MessageError A) → Result MessageError A
with_boolean (boolean b) e go = go b
with_boolean _ e go = err e

-- `isNegHex`: throws, or goes on with the lower-case string
abbrev pub with_neg_hex {ℓ} :
    {A : Type ℓ} → Json → MessageError → (Text → Result MessageError A) → Result MessageError A
with_neg_hex value e go =
    with_string value e (λ hex. require (is_neg_hex hex) e >> go (to_lower_case hex))

-- `parseWireFilters`
unfoldable pub parse_wire_filters : List Json → Text → Result MessageError (List Json)
parse_wire_filters [] kind = ok []
parse_wire_filters (item ∷ items) kind = do
  require (is_record item) (invalid_filter kind)
  filters ← parse_wire_filters items kind
  ok (item ∷ filters)

unfoldable pub client_event :
    (Json → ClientMessage) → Text → List Json → Result MessageError ClientMessage
client_event make kind (e ∷ []) = require (is_signed_event e) (invalid kind) >> ok (make e)
client_event make kind _ = err (invalid kind)

unfoldable pub client_filters :
    (Text → List Json → ClientMessage) → Text → List Json → Result MessageError ClientMessage
unfolding parse_wire_filters
client_filters make kind (id ∷ filter ∷ filters) =
    with_string id (invalid kind)
      (λ id. parse_wire_filters (filter ∷ filters) kind >>= λ parsed. ok (make id parsed))
client_filters make kind _ = err (invalid kind)

unfoldable pub client_id :
    (Text → ClientMessage) → Text → List Json → Result MessageError ClientMessage
client_id make kind (id ∷ []) = with_string id (invalid kind) (λ id. ok (make id))
client_id make kind _ = err (invalid kind)

unfoldable pub client_neg_open : List Json → Result MessageError ClientMessage
unfolding is_neg_hex
client_neg_open (a ∷ b ∷ c ∷ d ∷ []) = err obsolete_neg_open
client_neg_open (id ∷ filter ∷ hex ∷ []) = with_string id (invalid (text "NEG-OPEN")) (λ id.
    require (is_record filter) (invalid (text "NEG-OPEN"))
    >> with_neg_hex hex (invalid (text "NEG-OPEN")) (λ hex. ok (neg_open id filter hex)))
client_neg_open _ = err (invalid (text "NEG-OPEN"))

unfoldable pub client_neg_msg : List Json → Result MessageError ClientMessage
unfolding is_neg_hex
client_neg_msg (id ∷ hex ∷ []) =
    with_string id (invalid (text "NEG-MSG"))
      (λ id. with_neg_hex hex (invalid (text "NEG-MSG")) (λ hex. ok (ClientMessage.neg_msg id hex)))
client_neg_msg _ = err (invalid (text "NEG-MSG"))

-- the `switch` of `parseClientMessage`, on the items after the type
unfoldable pub client_message : Text → List Json → Result MessageError ClientMessage
unfolding client_event client_filters client_id client_neg_open client_neg_msg
client_message type rest =
    if type == text "EVENT"
    then client_event ClientMessage.event type rest
    else if type == text "REQ"
    then client_filters req type rest
    else if type == text "CLOSE"
    then client_id close type rest
    else if type == text "AUTH"
    then client_event ClientMessage.auth type rest
    else if type == text "COUNT"
    then client_filters ClientMessage.count type rest
    else if type == text "NEG-OPEN"
    then client_neg_open rest
    else if type == text "NEG-MSG"
    then client_neg_msg rest
    else if type == text "NEG-CLOSE"
    then client_id neg_close type rest
    else err (unknown_type type)

unfoldable pub relay_event : List Json → Result MessageError RelayMessage
relay_event (id ∷ e ∷ []) =
    with_string id (invalid (text "EVENT"))
      (λ id. require (is_signed_event e) (invalid (text "EVENT")) >> ok (RelayMessage.event id e))
relay_event _ = err (invalid (text "EVENT"))

unfoldable pub relay_ok : List Json → Result MessageError RelayMessage
relay_ok (id ∷ done ∷ message ∷ []) = with_string id (invalid (text "OK")) (λ id.
    with_boolean done (invalid (text "OK")) (λ done.
      with_string message (invalid (text "OK")) (λ message. ok (accepted id done message))))
relay_ok _ = err (invalid (text "OK"))

unfoldable pub relay_text :
    (Text → RelayMessage) → Text → List Json → Result MessageError RelayMessage
relay_text make kind (t ∷ []) = with_string t (invalid kind) (λ t. ok (make t))
relay_text make kind _ = err (invalid kind)

unfoldable pub relay_closed : List Json → Result MessageError RelayMessage
relay_closed (id ∷ reason ∷ []) =
    with_string id (invalid (text "CLOSED"))
      (λ id. with_string reason (invalid (text "CLOSED")) (λ reason. ok (closed id reason)))
relay_closed _ = err (invalid (text "CLOSED"))

-- `parseCountHll`
unfoldable pub parse_count_hll : Option Json → Option Text
parse_count_hll (some (string value)) =
    if nat_beq (length value) hll_hex_len && all is_any_hex_digit value
    then some (to_lower_case value)
    else none
parse_count_hll _ = none

abbrev pub read_boolean : Option Json → Option Bool
read_boolean (some (boolean b)) = some b
read_boolean _ = none

-- a safe integer that is not negative
abbrev pub read_count : Option Json → Option ℕ
read_count (some (number (integer (pos n)))) = if leb n 9007199254740991 then some n else none
read_count _ = none

abbrev pub count_message : Text → Json → Option ℕ → Result MessageError RelayMessage
count_message id payload none = err (invalid (text "COUNT"))
count_message id payload (some n) = ok (
    RelayMessage.count id (record {
      total = n;
      approximate = read_boolean (property payload (text "approximate"));
      hll = parse_count_hll (property payload (text "hll"));
    }))

unfoldable pub relay_count : List Json → Result MessageError RelayMessage
unfolding property parse_count_hll
relay_count (id ∷ payload ∷ []) =
    with_string id (invalid (text "COUNT"))
      (λ id. count_message id payload (read_count (property payload (text "count"))))
relay_count _ = err (invalid (text "COUNT"))

unfoldable pub relay_neg_msg : List Json → Result MessageError RelayMessage
unfolding is_neg_hex
relay_neg_msg (id ∷ hex ∷ []) =
    with_string id (invalid (text "NEG-MSG"))
      (λ id. with_neg_hex hex (invalid (text "NEG-MSG")) (λ hex. ok (RelayMessage.neg_msg id hex)))
relay_neg_msg _ = err (invalid (text "NEG-MSG"))

abbrev pub neg_err_of : Json → Json → Result MessageError RelayMessage
neg_err_of id reason =
    with_string id (invalid (text "NEG-ERR"))
      (λ id. with_string reason (invalid (text "NEG-ERR")) (λ reason. ok (neg_err id reason)))

unfoldable pub relay_neg_err : List Json → Result MessageError RelayMessage
relay_neg_err (id ∷ reason ∷ []) = neg_err_of id reason
relay_neg_err (id ∷ reason ∷ extra ∷ []) = neg_err_of id reason
relay_neg_err _ = err (invalid (text "NEG-ERR"))

-- the `switch` of `parseRelayMessage`, on the items after the type
unfoldable pub relay_message : Text → List Json → Result MessageError RelayMessage
unfolding relay_event relay_ok relay_text relay_closed relay_count relay_neg_msg relay_neg_err
relay_message type rest =
    if type == text "EVENT"
    then relay_event rest
    else if type == text "OK"
    then relay_ok rest
    else if type == text "EOSE"
    then relay_text eose type rest
    else if type == text "CLOSED"
    then relay_closed rest
    else if type == text "NOTICE"
    then relay_text notice type rest
    else if type == text "AUTH"
    then relay_text RelayMessage.auth type rest
    else if type == text "COUNT"
    then relay_count rest
    else if type == text "NEG-MSG"
    then relay_neg_msg rest
    else if type == text "NEG-ERR"
    then relay_neg_err rest
    else err (unknown_type type)

-- the checks before the `switch`
abbrev pub with_items {ℓ} :
    {A : Type ℓ}
    → (Text → List Json → Result MessageError A)
    → Option (List Json)
    → Result MessageError A
with_items go (some (string type ∷ rest)) = go type rest
with_items go _ = err not_array

abbrev pub array_items : Json → Option (List Json)
array_items (array items) = some (to_list items)
array_items _ = none

abbrev pub with_json {ℓ} :
    {A : Type ℓ} → (Text → List Json → Result MessageError A) → Option Json → Result MessageError A
with_json go none = err not_json
with_json go (some j) = with_items go (array_items j)

module _ (lib : JsonText) where
  -- `encodeClientMessage` and `encodeRelayMessage`
  abbrev pub encode_client_message : ClientMessage → Text
  encode_client_message message = lib.stringify (array (of_list (client_items message)))

  abbrev pub encode_relay_message : RelayMessage → Text
  encode_relay_message message = lib.stringify (array (of_list (relay_items message)))

  -- `parseClientMessage` and `parseRelayMessage`
  abbrev pub parse_client_message : Text → Result MessageError ClientMessage
  parse_client_message raw = with_json client_message (lib.parse raw)

  abbrev pub parse_relay_message : Text → Result MessageError RelayMessage
  parse_relay_message raw = with_json relay_message (lib.parse raw)
