-- ===== src/Core/Message/Accepted.antt =====
-- What src/core/message.ts accepts: every message that a parser gives is well-formed.
use nostr_js.Base.{
  ◌≡◌, refl, subst, true, List, [], ◌∷◌, arith, ◌≤◌, all, length, Text, text, text_eq, ◌==◌, ok,
  if_elim,
}
use nostr_js.Core.Json.{Json, is_record, is_signed_event}
use nostr_js.Core.Message
use nostr_js.Core.Message.RoundTrip.{IsClientMessage, IsRelayMessage}
use nostr_js.Core.Message.Rules.{
  Ensures, after_require, after_bind, after_string, after_neg_hex, after_json,
}
use nostr_js.Core.Message.Replies.{relay_message_lem}

wire_filters :
    (filters : List Json) (kind : Text)
    → Ensures
        (λ parsed. (length parsed ≡ length filters) × (all is_record parsed ≡ true))
        (Message.parse_wire_filters filters kind)
unfolding Message.parse_wire_filters all
wire_filters [] kind = (refl, refl)
wire_filters (f ∷ filters) kind =
    after_require _ (is_record f) (Message.invalid_filter kind) _ (λ e.
      after_bind _ _ (Message.parse_wire_filters filters kind) _ (wire_filters filters kind)
        (λ parsed h. (omega (arith, h.0), ground (arith, h.1))))

client_event_lem :
    (make : Json → Message.ClientMessage) (kind : Text) (rest : List Json)
    → ((e : Json) → is_signed_event e ≡ true → IsClientMessage (make e))
    → Ensures IsClientMessage (Message.client_event make kind rest)
unfolding Message.client_event
client_event_lem make kind [] h = tt
client_event_lem make kind (e ∷ []) h =
    after_require IsClientMessage (is_signed_event e) (Message.invalid kind) (ok (make e))
      (λ q. h e q)
client_event_lem make kind (e ∷ f ∷ rest) h = tt

client_id_lem :
    (make : Text → Message.ClientMessage) (kind : Text) (rest : List Json)
    → ((id : Text) → IsClientMessage (make id))
    → Ensures IsClientMessage (Message.client_id make kind rest)
unfolding Message.client_id
client_id_lem make kind [] h = tt
client_id_lem make kind (j ∷ []) h =
    after_string IsClientMessage j (Message.invalid kind) (λ id. ok (make id)) h
client_id_lem make kind (j ∷ k ∷ rest) h = tt

client_filters_lem :
    (make : Text → List Json → Message.ClientMessage) (kind : Text) (rest : List Json)
    → ((id : Text) (filters : List Json)
        → 1 ≤ length filters
        → all is_record filters ≡ true
        → IsClientMessage (make id filters))
    → Ensures IsClientMessage (Message.client_filters make kind rest)
unfolding Message.client_filters
client_filters_lem make kind [] h = tt
client_filters_lem make kind (j ∷ []) h = tt
client_filters_lem make kind (j ∷ f ∷ filters) h =
    after_string IsClientMessage j (Message.invalid kind) _ (λ id.
      after_bind IsClientMessage _ (Message.parse_wire_filters (f ∷ filters) kind)
        (λ parsed. ok (make id parsed)) (wire_filters (f ∷ filters) kind)
        (λ parsed k. h id parsed (omega (arith, k.0)) k.1))

client_neg_open_lem : (rest : List Json) → Ensures IsClientMessage (Message.client_neg_open rest)
unfolding Message.client_neg_open
client_neg_open_lem [] = tt
client_neg_open_lem (a ∷ []) = tt
client_neg_open_lem (a ∷ b ∷ []) = tt
client_neg_open_lem (id ∷ filter ∷ hex ∷ []) = after_string IsClientMessage id _ _ (λ id.
    after_require IsClientMessage (is_record filter) _ _ (λ r.
      after_neg_hex IsClientMessage hex _ (λ hex. ok (Message.neg_open id filter hex))
        (λ t c. (r, c))))
client_neg_open_lem (a ∷ b ∷ c ∷ d ∷ []) = tt
client_neg_open_lem (a ∷ b ∷ c ∷ d ∷ e ∷ rest) = tt

client_neg_msg_lem : (rest : List Json) → Ensures IsClientMessage (Message.client_neg_msg rest)
unfolding Message.client_neg_msg
client_neg_msg_lem [] = tt
client_neg_msg_lem (a ∷ []) = tt
client_neg_msg_lem (id ∷ hex ∷ []) = after_string IsClientMessage id _ _ (λ id.
    after_neg_hex IsClientMessage hex _ (λ hex. ok (Message.ClientMessage.neg_msg id hex))
      (λ t c. c))
client_neg_msg_lem (a ∷ b ∷ c ∷ rest) = tt

client_message_lem :
    (type : Text) (rest : List Json) → Ensures IsClientMessage (Message.client_message type rest)
unfolding Message.client_message
client_message_lem type rest =
    if_elim (Ensures IsClientMessage) (type == text "EVENT")
      (λ e. client_event_lem Message.ClientMessage.event type rest (λ e h. h))
      (λ e.
        if_elim (Ensures IsClientMessage) (type == text "REQ")
          (λ e. client_filters_lem Message.req type rest (λ id filters h k. (h, k)))
          (λ e.
            if_elim (Ensures IsClientMessage) (type == text "CLOSE")
              (λ e. client_id_lem Message.close type rest (λ id. tt))
              (λ e.
                if_elim (Ensures IsClientMessage) (type == text "AUTH")
                  (λ e. client_event_lem Message.ClientMessage.auth type rest (λ e h. h))
                  (λ e.
                    if_elim (Ensures IsClientMessage) (type == text "COUNT")
                      (λ e.
                        client_filters_lem Message.ClientMessage.count type rest
                          (λ id filters h k. (h, k)))
                      (λ e.
                        if_elim (Ensures IsClientMessage) (type == text "NEG-OPEN")
                          (λ e. client_neg_open_lem rest)
                          (λ e.
                            if_elim (Ensures IsClientMessage) (type == text "NEG-MSG")
                              (λ e. client_neg_msg_lem rest)
                              (λ e.
                                if_elim (Ensures IsClientMessage) (type == text "NEG-CLOSE")
                                  (λ e. client_id_lem Message.neg_close type rest (λ id. tt))
                                  (λ e. tt))))))))

module _ (lib : Message.JsonText) where
  -- Whatever the text, and whatever JSON.parse makes of it: a client message that parseClientMessage gives
  -- has signed events, at least one filter, each of them an object, and canonical hex.
  pub parse_client_message-IsClientMessage :
      (raw : Text) (m : Message.ClientMessage)
      → Message.parse_client_message lib raw ≡ ok m
      → IsClientMessage m
  parse_client_message-IsClientMessage raw m e =
      subst (Ensures IsClientMessage) e
        (after_json IsClientMessage Message.client_message client_message_lem (lib.parse raw))

  -- Whatever the text, and whatever JSON.parse makes of it: a relay message that parseRelayMessage gives has
  -- a signed event, a count that is a safe integer, with a sketch of 512 canonical hex digits or none, and
  -- canonical hex.
  pub parse_relay_message-IsRelayMessage :
      (raw : Text) (m : Message.RelayMessage)
      → Message.parse_relay_message lib raw ≡ ok m
      → IsRelayMessage m
  parse_relay_message-IsRelayMessage raw m e =
      subst (Ensures IsRelayMessage) e
        (after_json IsRelayMessage Message.relay_message relay_message_lem (lib.parse raw))
