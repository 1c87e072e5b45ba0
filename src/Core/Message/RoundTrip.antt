-- ===== src/Core/Message/RoundTrip.antt =====
-- What is written of a message of src/core/message.ts is read back.
use nostr_js.Base.{
  ◌≡◌, refl, Bool, true, ◌&&◌, Option, none, some, List, [], ◌∷◌, arith, ℕ, ◌≤◌, nat_beq, all,
  length, Text, text, text_eq, text_beq, ok,
}
use nostr_js.Runtime.Str.{to_lower_case}
use nostr_js.Core.Json.{
  Json, array, of_list, to_list-of_list, is_record, is_signed_event, property, find_field,
}
use nostr_js.Core.Message

-- What `parse` gives for a message: a signed event or filters where they belong, and canonical hex.
pub record IsCanonical (hex : Text) : Type 0 where
  pub digits : Message.is_neg_hex hex ≡ true
  pub lower : to_lower_case hex ≡ hex

abbrev pub IsClientMessage : Message.ClientMessage → Type 0
IsClientMessage (Message.ClientMessage.event e) = is_signed_event e ≡ true
IsClientMessage (Message.req id filters) = (1 ≤ length filters) × (all is_record filters ≡ true)
IsClientMessage (Message.close id) = Unit
IsClientMessage (Message.ClientMessage.auth e) = is_signed_event e ≡ true
IsClientMessage (Message.ClientMessage.count id filters) =
    (1 ≤ length filters) × (all is_record filters ≡ true)
IsClientMessage (Message.neg_open id filter hex) = (is_record filter ≡ true) × IsCanonical hex
IsClientMessage (Message.ClientMessage.neg_msg id hex) = IsCanonical hex
IsClientMessage (Message.neg_close id) = Unit

parse_wire_filters_lem :
    (filters : List Json) (kind : Text)
    → all is_record filters ≡ true
    → Message.parse_wire_filters filters kind ≡ ok filters
unfolding Message.parse_wire_filters all
parse_wire_filters_lem [] kind h = refl
parse_wire_filters_lem (f ∷ filters) kind h = ground (arith, parse_wire_filters_lem filters kind)

client_items_lem :
    (m : Message.ClientMessage)
    → IsClientMessage m
    → Message.with_items Message.client_message (some (Message.client_items m)) ≡ ok m
unfolding Message.client_items Message.client_message Message.client_event Message.client_filters
    Message.client_id Message.client_neg_open Message.client_neg_msg text_beq
client_items_lem (Message.ClientMessage.event e) h = rw h refl
client_items_lem (Message.req id []) h = ground arith
client_items_lem (Message.req id (f ∷ filters)) h =
    rw (parse_wire_filters_lem (f ∷ filters) (text "REQ") h.1) refl
client_items_lem (Message.close id) h = refl
client_items_lem (Message.ClientMessage.auth e) h = rw h refl
client_items_lem (Message.ClientMessage.count id []) h = ground arith
client_items_lem (Message.ClientMessage.count id (f ∷ filters)) h =
    rw (parse_wire_filters_lem (f ∷ filters) (text "COUNT") h.1) refl
client_items_lem (Message.neg_open id filter hex) h = rw (h.0, h.1.digits, h.1.lower) refl
client_items_lem (Message.ClientMessage.neg_msg id hex) h = rw (h.digits, h.lower) refl
client_items_lem (Message.neg_close id) h = refl

-- the sketch of a COUNT reply, if there is one
abbrev pub IsSketch : Option Text → Type 0
IsSketch none = Unit
IsSketch (some t) =
    ((nat_beq (length t) Message.hll_hex_len && all Message.is_any_hex_digit t) ≡ true)
    × (to_lower_case t ≡ t)

abbrev pub IsRelayMessage : Message.RelayMessage → Type 0
IsRelayMessage (Message.RelayMessage.event id e) = is_signed_event e ≡ true
IsRelayMessage (Message.accepted id done message) = Unit
IsRelayMessage (Message.eose id) = Unit
IsRelayMessage (Message.closed id reason) = Unit
IsRelayMessage (Message.notice message) = Unit
IsRelayMessage (Message.RelayMessage.auth challenge) = Unit
IsRelayMessage (Message.RelayMessage.count id result) =
    (result.total ≤ 9007199254740991) × IsSketch result.hll
IsRelayMessage (Message.RelayMessage.neg_msg id hex) = IsCanonical hex
IsRelayMessage (Message.neg_err id reason) = Unit

approximate_lem :
    (n : ℕ) (b : Option Bool) (t : Option Text)
    → Message.read_boolean (
        property
          (Message.count_json (record { total = n; approximate = b; hll = t }))
          (text "approximate"))
      ≡ b
unfolding property find_field text_beq
approximate_lem n none none = refl
approximate_lem n none (some t) = refl
approximate_lem n (some b) none = refl
approximate_lem n (some b) (some t) = refl

hll_lem :
    (n : ℕ) (b : Option Bool) (t : Option Text)
    → IsSketch t
    → Message.parse_count_hll (
        property (Message.count_json (record { total = n; approximate = b; hll = t })) (text "hll"))
      ≡ t
unfolding property find_field text_beq Message.parse_count_hll
hll_lem n none none h = refl
hll_lem n none (some t) h = rw (h.0, h.1) refl
hll_lem n (some b) none h = refl
hll_lem n (some b) (some t) h = rw (h.0, h.1) refl

total_lem :
    (r : Message.CountResult)
    → r.total ≤ 9007199254740991
    → Message.read_count (property (Message.count_json r) (text "count")) ≡ some r.total
unfolding property find_field text_beq
total_lem r h = ground arith

relay_items_lem :
    (m : Message.RelayMessage)
    → IsRelayMessage m
    → Message.with_items Message.relay_message (some (Message.relay_items m)) ≡ ok m
unfolding Message.relay_items Message.relay_message Message.relay_event Message.relay_ok
    Message.relay_text Message.relay_closed Message.relay_count Message.relay_neg_msg
    Message.relay_neg_err text_beq
relay_items_lem (Message.RelayMessage.event id e) h = rw h refl
relay_items_lem (Message.accepted id done message) h = refl
relay_items_lem (Message.eose id) h = refl
relay_items_lem (Message.closed id reason) h = refl
relay_items_lem (Message.notice message) h = refl
relay_items_lem (Message.RelayMessage.auth challenge) h = refl
relay_items_lem (Message.RelayMessage.count id r) h =
    rw
      (
        total_lem r h.0,
        approximate_lem r.total r.approximate r.hll,
        hll_lem r.total r.approximate r.hll h.1,
      )
      refl
relay_items_lem (Message.RelayMessage.neg_msg id hex) h = rw (h.digits, h.lower) refl
relay_items_lem (Message.neg_err id reason) h = refl

module _ (lib : Message.JsonText) where
  -- Where JSON.parse reads the array of the message that JSON.stringify writes, parseClientMessage gives
  -- back every client message that encodeClientMessage writes whose events are signed events, whose
  -- filters, at least one, are objects and whose negentropy payload is canonical hex.
  pub parse_client_message-encode_client_message :
      (m : Message.ClientMessage)
      → lib.parse (Message.encode_client_message lib m)
        ≡ some (array (of_list (Message.client_items m)))
      → IsClientMessage m
      → Message.parse_client_message lib (Message.encode_client_message lib m) ≡ ok m
  parse_client_message-encode_client_message m doc h =
      rw (doc, to_list-of_list (Message.client_items m)) (client_items_lem m h)

  -- Where JSON.parse reads the array of the message that JSON.stringify writes, parseRelayMessage gives
  -- back every relay message that encodeRelayMessage writes whose event is a signed event, whose count is
  -- a safe integer, with a sketch in canonical hex or none, and whose negentropy payload is canonical hex.
  pub parse_relay_message-encode_relay_message :
      (m : Message.RelayMessage)
      → lib.parse (Message.encode_relay_message lib m)
        ≡ some (array (of_list (Message.relay_items m)))
      → IsRelayMessage m
      → Message.parse_relay_message lib (Message.encode_relay_message lib m) ≡ ok m
  parse_relay_message-encode_relay_message m doc h =
      rw (doc, to_list-of_list (Message.relay_items m)) (relay_items_lem m h)
