-- ===== src/Core/Message/Replies.antt =====
-- What the branches of `parseRelayMessage` of src/core/message.ts accept.
use nostr_js.Base.{
  ◌≡◌, refl, ◌&&◌, Option, none, some, List, [], ◌∷◌, arith, ℕ, ◌≤◌, nat_beq, all, length, Text,
  text, text_eq, ◌==◌, ok, if_elim,
}
use nostr_js.Runtime.Str.{to_lower_case_idem}
use nostr_js.Core.Json.{
  Json, string, array, object, null, boolean, number, is_signed_event, property,
}
use nostr_js.Core.Message
use nostr_js.Core.Message.RoundTrip.{IsRelayMessage, IsSketch}
use nostr_js.Core.Message.Rules.{
  Ensures, length-to_lower_case, hex-to_lower_case, after_require, after_string, after_boolean,
  after_neg_hex,
}

relay_text_lem :
    (make : Text → Message.RelayMessage) (kind : Text) (rest : List Json)
    → ((t : Text) → IsRelayMessage (make t))
    → Ensures IsRelayMessage (Message.relay_text make kind rest)
unfolding Message.relay_text
relay_text_lem make kind [] h = tt
relay_text_lem make kind (j ∷ []) h =
    after_string IsRelayMessage j (Message.invalid kind) (λ t. ok (make t)) h
relay_text_lem make kind (j ∷ k ∷ rest) h = tt

relay_event_lem : (rest : List Json) → Ensures IsRelayMessage (Message.relay_event rest)
unfolding Message.relay_event
relay_event_lem [] = tt
relay_event_lem (a ∷ []) = tt
relay_event_lem (id ∷ e ∷ []) = after_string IsRelayMessage id _ _ (λ id.
    after_require IsRelayMessage (is_signed_event e) _ (ok (Message.RelayMessage.event id e))
      (λ h. h))
relay_event_lem (a ∷ b ∷ c ∷ rest) = tt

relay_ok_lem : (rest : List Json) → Ensures IsRelayMessage (Message.relay_ok rest)
unfolding Message.relay_ok
relay_ok_lem [] = tt
relay_ok_lem (a ∷ []) = tt
relay_ok_lem (a ∷ b ∷ []) = tt
relay_ok_lem (id ∷ done ∷ message ∷ []) = after_string IsRelayMessage id _ _ (λ id.
    after_boolean IsRelayMessage done _ _ (λ done.
      after_string IsRelayMessage message _ (λ message. ok (Message.accepted id done message))
        (λ message. tt)))
relay_ok_lem (a ∷ b ∷ c ∷ d ∷ rest) = tt

two_texts :
    (make : Text → Text → Message.RelayMessage) (e : Message.MessageError) (id reason : Json)
    → ((s t : Text) → IsRelayMessage (make s t))
    → Ensures IsRelayMessage (
        Message.with_string id e
          (λ id. Message.with_string reason e (λ reason. ok (make id reason))))
two_texts make e id reason h =
    after_string IsRelayMessage id e _
      (λ id. after_string IsRelayMessage reason e (λ reason. ok (make id reason)) (λ t. h id t))

relay_closed_lem : (rest : List Json) → Ensures IsRelayMessage (Message.relay_closed rest)
unfolding Message.relay_closed
relay_closed_lem [] = tt
relay_closed_lem (a ∷ []) = tt
relay_closed_lem (id ∷ reason ∷ []) = two_texts Message.closed _ id reason (λ s t. tt)
relay_closed_lem (a ∷ b ∷ c ∷ rest) = tt

relay_neg_err_lem : (rest : List Json) → Ensures IsRelayMessage (Message.relay_neg_err rest)
unfolding Message.relay_neg_err
relay_neg_err_lem [] = tt
relay_neg_err_lem (a ∷ []) = tt
relay_neg_err_lem (id ∷ reason ∷ []) = two_texts Message.neg_err _ id reason (λ s t. tt)
relay_neg_err_lem (id ∷ reason ∷ extra ∷ []) = two_texts Message.neg_err _ id reason (λ s t. tt)
relay_neg_err_lem (a ∷ b ∷ c ∷ d ∷ rest) = tt

relay_neg_msg_lem : (rest : List Json) → Ensures IsRelayMessage (Message.relay_neg_msg rest)
unfolding Message.relay_neg_msg
relay_neg_msg_lem [] = tt
relay_neg_msg_lem (a ∷ []) = tt
relay_neg_msg_lem (id ∷ hex ∷ []) = after_string IsRelayMessage id _ _ (λ id.
    after_neg_hex IsRelayMessage hex _ (λ hex. ok (Message.RelayMessage.neg_msg id hex)) (λ t c. c))
relay_neg_msg_lem (a ∷ b ∷ c ∷ rest) = tt

string-IsSketch : (value : Text) → IsSketch (Message.parse_count_hll (some (string value)))
unfolding Message.parse_count_hll
string-IsSketch value =
    if_elim IsSketch
      (nat_beq (length value) Message.hll_hex_len && all Message.is_any_hex_digit value)
      (λ h. (
        ground (arith, length-to_lower_case value, hex-to_lower_case value, h),
        to_lower_case_idem value,
      ))
      (λ h. tt)

sketch : (o : Option Json) → IsSketch (Message.parse_count_hll o)
unfolding Message.parse_count_hll
sketch none = tt
sketch (some (string value)) = string-IsSketch value
sketch (some null) = tt
sketch (some (boolean b)) = tt
sketch (some (number n)) = tt
sketch (some (array items)) = tt
sketch (some (object fields)) = tt

safe_count : (o : Option Json) (n : ℕ) → Message.read_count o ≡ some n → n ≤ 9007199254740991
safe_count o n h = ground arith

count_message_lem :
    (id : Text) (payload : Json) (o : Option ℕ)
    → ((n : ℕ) → o ≡ some n → n ≤ 9007199254740991)
    → Ensures IsRelayMessage (Message.count_message id payload o)
count_message_lem id payload none h = tt
count_message_lem id payload (some n) h = (h n refl, sketch (property payload (text "hll")))

relay_count_lem : (rest : List Json) → Ensures IsRelayMessage (Message.relay_count rest)
unfolding Message.relay_count
relay_count_lem [] = tt
relay_count_lem (a ∷ []) = tt
relay_count_lem (id ∷ payload ∷ []) = after_string IsRelayMessage id _ _ (λ id.
    count_message_lem id payload (Message.read_count (property payload (text "count")))
      (safe_count (property payload (text "count"))))
relay_count_lem (a ∷ b ∷ c ∷ rest) = tt

pub relay_message_lem :
    (type : Text) (rest : List Json) → Ensures IsRelayMessage (Message.relay_message type rest)
unfolding Message.relay_message
relay_message_lem type rest =
    if_elim (Ensures IsRelayMessage) (type == text "EVENT") (λ e. relay_event_lem rest)
      (λ e.
        if_elim (Ensures IsRelayMessage) (type == text "OK") (λ e. relay_ok_lem rest)
          (λ e.
            if_elim (Ensures IsRelayMessage) (type == text "EOSE")
              (λ e. relay_text_lem Message.eose type rest (λ t. tt))
              (λ e.
                if_elim (Ensures IsRelayMessage) (type == text "CLOSED")
                  (λ e. relay_closed_lem rest)
                  (λ e.
                    if_elim (Ensures IsRelayMessage) (type == text "NOTICE")
                      (λ e. relay_text_lem Message.notice type rest (λ t. tt))
                      (λ e.
                        if_elim (Ensures IsRelayMessage) (type == text "AUTH")
                          (λ e. relay_text_lem Message.RelayMessage.auth type rest (λ t. tt))
                          (λ e.
                            if_elim (Ensures IsRelayMessage) (type == text "COUNT")
                              (λ e. relay_count_lem rest)
                              (λ e.
                                if_elim (Ensures IsRelayMessage) (type == text "NEG-MSG")
                                  (λ e. relay_neg_msg_lem rest)
                                  (λ e.
                                    if_elim (Ensures IsRelayMessage) (type == text "NEG-ERR")
                                      (λ e. relay_neg_err_lem rest) (λ e. tt)))))))))
