-- ===== src/Core/Message/Rules.antt =====
-- Rules for what a step of a parser of src/core/message.ts ensures of its value.
use nostr_js.Base.{
  ◌≡◌, refl, Bool, true, false, Option, none, some, List, [], ◌∷◌, arith, all, length, Text,
  text_eq, Result, ok, err, require, ◌>>=◌, ◌>>◌,
}
use nostr_js.Runtime.Str.{to_lower_case, to_lower_case_idem}
use nostr_js.Core.Json.{Json, string, array, object, null, boolean, number}
use nostr_js.Core.Message
use nostr_js.Core.Message.RoundTrip.{IsCanonical}

-- what holds of the value, if there is one
abbrev pub Ensures {ℓ κ} : {A : Type ℓ} → (A → Type κ) → Result Message.MessageError A → Type κ
Ensures P (err e) = Unit
Ensures P (ok a) = P a

pub length-to_lower_case : (s : Text) → length (to_lower_case s) ≡ length s
unfolding to_lower_case
length-to_lower_case [] = refl
length-to_lower_case (c ∷ s) = omega (arith, length-to_lower_case s)

pub hex-to_lower_case :
    (s : Text)
    → all Message.is_any_hex_digit s ≡ true
    → all Message.is_any_hex_digit (to_lower_case s) ≡ true
unfolding to_lower_case all
hex-to_lower_case [] h = refl
hex-to_lower_case (c ∷ s) h = ground (arith, hex-to_lower_case s)

pub canonical : (s : Text) → Message.is_neg_hex s ≡ true → IsCanonical (to_lower_case s)
unfolding Message.is_neg_hex
canonical s h = record {
  digits = ground (arith, length-to_lower_case s, hex-to_lower_case s, h);
  lower = to_lower_case_idem s;
}

module _ {ℓ κ} {A : Type ℓ} (P : A → Type κ) where
  pub after_require :
      (b : Bool) (e : Message.MessageError) (r : Result Message.MessageError A)
      → (b ≡ true → Ensures P r)
      → Ensures P (require b e >> r)
  after_require true e r h = h refl
  after_require false e r h = tt

  pub after_bind {μ ν} :
      {B : Type μ} (Q : B → Type ν) (r : Result Message.MessageError B)
      (f : B → Result Message.MessageError A)
      → Ensures Q r
      → ((b : B) → Q b → Ensures P (f b))
      → Ensures P (r >>= f)
  after_bind Q (err e) f q h = tt
  after_bind Q (ok b) f q h = h b q

  pub after_string :
      (j : Json) (e : Message.MessageError) (go : Text → Result Message.MessageError A)
      → ((t : Text) → Ensures P (go t))
      → Ensures P (Message.with_string j e go)
  after_string (string t) e go h = h t
  after_string null e go h = tt
  after_string (boolean b) e go h = tt
  after_string (number n) e go h = tt
  after_string (array items) e go h = tt
  after_string (object fields) e go h = tt

  pub after_boolean :
      (j : Json) (e : Message.MessageError) (go : Bool → Result Message.MessageError A)
      → ((b : Bool) → Ensures P (go b))
      → Ensures P (Message.with_boolean j e go)
  after_boolean (boolean b) e go h = h b
  after_boolean null e go h = tt
  after_boolean (string t) e go h = tt
  after_boolean (number n) e go h = tt
  after_boolean (array items) e go h = tt
  after_boolean (object fields) e go h = tt

  pub after_neg_hex :
      (j : Json) (e : Message.MessageError) (go : Text → Result Message.MessageError A)
      → ((t : Text) → IsCanonical t → Ensures P (go t))
      → Ensures P (Message.with_neg_hex j e go)
  after_neg_hex j e go h = after_string j e _ (λ t.
      after_require (Message.is_neg_hex t) e (go (to_lower_case t))
        (λ q. h (to_lower_case t) (canonical t q)))

module _ {ℓ κ} {A : Type ℓ} (P : A → Type κ) (go : Text → List Json → Result Message.MessageError A)
    (h : (type : Text) (rest : List Json) → Ensures P (go type rest)) where
  after_items : (o : Option (List Json)) → Ensures P (Message.with_items go o)
  after_items none = tt
  after_items (some []) = tt
  after_items (some (string t ∷ rest)) = h t rest
  after_items (some (null ∷ rest)) = tt
  after_items (some (boolean b ∷ rest)) = tt
  after_items (some (number n ∷ rest)) = tt
  after_items (some (array items ∷ rest)) = tt
  after_items (some (object fields ∷ rest)) = tt

  pub after_json : (o : Option Json) → Ensures P (Message.with_json go o)
  after_json none = tt
  after_json (some j) = after_items (Message.array_items j)
