-- ===== src/Tests/Message.antt =====
-- Messages at which the theorems on the wire format are applied.
use nostr_js.Base.{◌≡◌, refl, true, none, some, [], arith, text, all, ok}
use nostr_js.Runtime.Str.{to_lower_case}
use nostr_js.Core.Json.{array, object, end, of_list}
use nostr_js.Core.Message
use nostr_js.Core.Message.RoundTrip.{
  IsClientMessage, IsRelayMessage, parse_client_message-encode_client_message,
  parse_relay_message-encode_relay_message,
}
use nostr_js.Core.Message.Accepted.{
  parse_client_message-IsClientMessage, parse_relay_message-IsRelayMessage,
}

abbrev opening : Message.ClientMessage
opening = Message.neg_open (text "s") (object end) (text "61")

abbrev counted : Message.RelayMessage
counted =
    Message.RelayMessage.count (text "s")
      (record { total = 7; approximate = some true; hll = none })

-- stand for the parser of the runtime, at one text each
abbrev client_json : Message.JsonText
client_json = record {
  parse = λ t. some (array (of_list (Message.client_items opening)));
  stringify = λ j. [];
}

abbrev relay_json : Message.JsonText
relay_json = record {
  parse = λ t. some (array (of_list (Message.relay_items counted)));
  stringify = λ j. [];
}

opening-IsClientMessage : IsClientMessage opening
unfolding Message.is_neg_hex all to_lower_case
opening-IsClientMessage = (refl, record { digits = refl; lower = refl })

parse_client_message-encode_client_message_example :
    Message.parse_client_message client_json (Message.encode_client_message client_json opening)
    ≡ ok opening
parse_client_message-encode_client_message_example =
    parse_client_message-encode_client_message client_json opening refl opening-IsClientMessage

parse_relay_message-encode_relay_message_example :
    Message.parse_relay_message relay_json (Message.encode_relay_message relay_json counted)
    ≡ ok counted
parse_relay_message-encode_relay_message_example =
    parse_relay_message-encode_relay_message relay_json counted refl (omega arith, tt)

parse_client_message-IsClientMessage_example : IsClientMessage opening
parse_client_message-IsClientMessage_example =
    parse_client_message-IsClientMessage client_json [] opening
      (parse_client_message-encode_client_message client_json opening refl opening-IsClientMessage)

parse_relay_message-IsRelayMessage_example : IsRelayMessage counted
parse_relay_message-IsRelayMessage_example =
    parse_relay_message-IsRelayMessage relay_json [] counted
      (parse_relay_message-encode_relay_message relay_json counted refl (omega arith, tt))
