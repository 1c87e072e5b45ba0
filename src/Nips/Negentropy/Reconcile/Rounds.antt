-- ===== src/Nips/Negentropy/Reconcile/Rounds.antt =====
-- The loop of `reconcile` (src/nips/nip77.ts) ends by itself: its fuel never runs out.
use nostr_js.Base.{
  ◌≡◌, refl, Bool, true, false, [], ◌∷◌, arith, ℕ, zero, suc, ◌+◌, ◌*◌, ◌%◌, ◌≤◌, ◌<◌, leb, length,
  drop, Text, Result, ok, err, require, ◌>>=◌, Bool-cases, inl, inr, ap, sym, ◌∙◌,
}
use nostr_js.Runtime.Map.{Map}
use nostr_js.Nips.Negentropy.{Bytes, Nip77Error, Codec, Time, infinity, NegItem, read_n}
use nostr_js.Nips.Negentropy.VarInt.{decode_from, decode_var_int}
use nostr_js.Nips.Negentropy.Bound.{decode_bound, encode_skip, encode_ids, encode_fingerprint}
use nostr_js.Nips.Negentropy.Range.{split_range}
use nostr_js.Nips.Negentropy.Vector.{iterate, fingerprint, find_lower_bound}
use nostr_js.Nips.Negentropy.Reconcile.{
  Negentropy, Session, Answer, flush_skip, read_ids, on_compared, on_fingerprint, on_ids_initiator,
  on_ids_responder, on_elems, on_ids, on_mode, exceeded_frame_size_limit, close_round, round,
  rounds, is_empty,
}

-- what a step that succeeded was made of
bind-ok {ℓ κ} :
    {A : Type ℓ} {B : Type κ} (m : Result Nip77Error A) (f : A → Result Nip77Error B) {b : B}
    → (m >>= f) ≡ ok b
    → (a : A) × (m ≡ ok a) × (f a ≡ ok b)
bind-ok (err e) f h = cc
bind-ok (ok a) f h = (a, refl, h)

length-drop-le : (n : ℕ) (buf : Bytes) → length (drop n buf) ≤ length buf
length-drop-le zero buf = omega arith
length-drop-le (suc n) [] = omega arith
length-drop-le (suc n) (x ∷ buf) = omega (arith, length-drop-le n buf)

decode_from_shorter :
    (res : ℕ) (buf : Bytes) (p : ℕ × Bytes) → decode_from res buf ≡ ok p → length p.1 < length buf
unfolding decode_from
decode_from_shorter res [] p h = cc
decode_from_shorter res (byte ∷ buf) p h =
    ground (arith, decode_from_shorter (res * 128 + byte % 128) buf p)

decode_var_int_shorter :
    (buf : Bytes) (p : ℕ × Bytes) → decode_var_int buf ≡ ok p → length p.1 < length buf
unfolding decode_var_int
decode_var_int_shorter buf p h = decode_from_shorter 0 buf p h

read_n_shorter :
    (n : ℕ) (buf : Bytes) (p : Bytes × Bytes) → read_n n buf ≡ ok p → length p.1 ≤ length buf
unfolding read_n
read_n_shorter n buf p h = ground (arith, length-drop-le n buf)

decode_bound_shorter :
    (buf : Bytes) (last : Time) (p : NegItem × Bytes)
    → decode_bound buf last ≡ ok p
    → length p.1 < length buf
unfolding decode_bound
decode_bound_shorter buf last p h =
    let (stamp, hs, h1) = bind-ok (decode_var_int buf) _ h in
    let (size, hz, h2) = bind-ok (decode_var_int stamp.1) _ h1 in
    let (u, hu, h3) = bind-ok (require (leb size.0 32) _) _ h2 in
    let (key, hk, h4) = bind-ok (read_n size.0 size.1) _ h3 in
    let a = decode_var_int_shorter buf stamp hs in
    let b = decode_var_int_shorter stamp.1 size hz in
    let c = read_n_shorter size.0 size.1 key hk in ground (arith, a, b, c, h4)

ok_injective {ℓ} : {A : Type ℓ} {a b : A} → ◌≡◌ {A = Result Nip77Error A} (ok a) (ok b) → a ≡ b
ok_injective h = cc

flush_skip_query : (v : Session) (o : Bytes × Session) → flush_skip v ≡ ok o → o.1.query ≡ v.query
unfolding flush_skip
flush_skip_query v o h = elim (Bool-cases v.skip) [
  | inl pending ↦
      let (x, hx, h1) = bind-ok (encode_skip v.prev_bound v.last_out) _ (rw pending at h) in
      ap (λ p. p.1.query) (sym (ok_injective h1))
  | inr clear ↦ ap (λ p. p.1.query) (sym (ok_injective (rw clear at h)))
]

read_ids_shorter :
    (codec : Codec) (n : ℕ) (buf : Bytes) (elems : Map Text Bytes) (p : Map Text Bytes × Bytes)
    → read_ids codec n buf elems ≡ ok p
    → length p.1 ≤ length buf
unfolding read_ids
read_ids_shorter codec zero buf elems p h =
    omega (arith, ap (λ (q : Map Text Bytes × Bytes). length q.1) (ok_injective h))
read_ids_shorter codec (suc n) buf elems p h =
    let (e, he, h1) = bind-ok (read_n 32 buf) _ h in
    let short = read_n_shorter 32 buf e he in omega (arith, read_ids_shorter codec n e.1 _ p h1)

module _ (codec : Codec) (n : Negentropy) (key : NegItem) (lower upper : ℕ) where
  on_compared_query :
      (same : Bool) (v : Session) (a : Answer)
      → on_compared codec n key lower upper same v ≡ ok a
      → a.session.query ≡ v.query
  unfolding on_compared
  on_compared_query true v a h = ap (λ b. b.session.query) (sym (ok_injective h))
  on_compared_query false v a h =
      let (o, ho, h1) = bind-ok (flush_skip v) _ h in
      let (body, hb, h2) =
        bind-ok (split_range codec n.storage lower upper key o.1.last_out) _ h1 in
      ap (λ b. b.session.query) (sym (ok_injective h2)) ∙ flush_skip_query v o ho

  on_fingerprint_shorter :
      (v : Session) (a : Answer)
      → on_fingerprint codec n key lower upper v ≡ ok a
      → length a.session.query ≤ length v.query
  unfolding on_fingerprint
  on_fingerprint_shorter v a h =
      let (theirs, ht, h1) = bind-ok (read_n 16 v.query) _ h in
      let (ours, hu, h2) = bind-ok (fingerprint codec lower upper n.storage) _ h1 in
      let kept = on_compared_query _ (record v { query = theirs.1 }) a h2 in
      let short = read_n_shorter 16 v.query theirs ht in
      omega (arith, ap (λ (b : Bytes). length b) kept)

  on_ids_initiator_query :
      (elems : Map Text Bytes) (v : Session) (a : Answer)
      → on_ids_initiator codec n key lower upper elems v ≡ ok a
      → a.session.query ≡ v.query
  unfolding on_ids_initiator
  on_ids_initiator_query elems v a h =
      let (items, hi, h1) = bind-ok (iterate lower upper n.storage) _ h in
      ap (λ b. b.session.query) (sym (ok_injective h1))

  on_ids_responder_query :
      (v : Session) (a : Answer)
      → on_ids_responder codec n key lower upper v ≡ ok a
      → a.session.query ≡ v.query
  unfolding on_ids_responder
  on_ids_responder_query v a h =
      let (o, ho, h1) = bind-ok (flush_skip v) _ h in
      let (items, hi, h2) = bind-ok (iterate lower upper n.storage) _ h1 in
      let (body, hb, h3) = bind-ok (encode_ids key items o.1.last_out) _ h2 in
      ap (λ b. b.session.query) (sym (ok_injective h3)) ∙ flush_skip_query v o ho

  on_elems_query :
      (first : Bool) (elems : Map Text Bytes) (v : Session) (a : Answer)
      → on_elems codec n key lower upper first elems v ≡ ok a
      → a.session.query ≡ v.query
  unfolding on_elems
  on_elems_query true elems v a h = on_ids_initiator_query elems v a h
  on_elems_query false elems v a h = on_ids_responder_query v a h

  on_ids_shorter :
      (v : Session) (a : Answer)
      → on_ids codec n key lower upper v ≡ ok a
      → length a.session.query ≤ length v.query
  unfolding on_ids
  on_ids_shorter v a h =
      let (count, hc, h1) = bind-ok (decode_var_int v.query) _ h in
      let (elems, he, h2) = bind-ok (read_ids codec count.0 count.1 []) _ h1 in
      let fewer = decode_var_int_shorter v.query count hc in
      let short = read_ids_shorter codec count.0 count.1 [] elems he in
      let kept = on_elems_query n.initiator elems.0 (record v { query = elems.1 }) a h2 in
      omega (arith, ap (λ (b : Bytes). length b) kept)

  on_mode_shorter :
      (mode : ℕ) (v : Session) (a : Answer)
      → on_mode codec n key lower upper mode v ≡ ok a
      → length a.session.query ≤ length v.query
  unfolding on_mode
  on_mode_shorter zero v a h =
      omega (arith, ap (λ (b : Answer). length b.session.query) (ok_injective h))
  on_mode_shorter (suc zero) v a h = on_fingerprint_shorter v a h
  on_mode_shorter (suc (suc zero)) v a h = on_ids_shorter v a h
  on_mode_shorter (suc (suc (suc m))) v a h = cc

close_round_shorter :
    (codec : Codec) (n : Negentropy) (key : NegItem) (upper size : ℕ) (a : Answer) (u : Session)
    → close_round codec n key upper size a ≡ ok u
    → length u.query ≤ length a.session.query
unfolding close_round
close_round_shorter codec n key upper size a u h =
    elim (Bool-cases
      (exceeded_frame_size_limit n.frame_size_limit (length a.session.output + length a.reply))) [
        | inl full ↦
            let (print, hp, h1) =
              bind-ok (fingerprint codec upper size n.storage) _ (rw full at h) in
            let (o, ho, h2) =
              bind-ok
                (encode_fingerprint (record { timestamp = infinity; id = [] }) print
                  a.session.last_out)
                _ h1 in
            omega (arith, ap (λ (w : Session). length w.query) (ok_injective h2))
        | inr room ↦
            omega (arith, ap (λ (w : Session). length w.query) (ok_injective (rw room at h)))
      ]

round_shorter :
    (codec : Codec) (n : Negentropy) (size : ℕ) (v u : Session)
    → round codec n size v ≡ ok u
    → length u.query < length v.query
unfolding round
round_shorter codec n size v u h =
    let (key, hk, h1) = bind-ok (decode_bound v.query v.last_in) _ h in
    let (mode, hm, h2) = bind-ok (decode_var_int key.1) _ h1 in
    let (upper, hu, h3) = bind-ok (find_lower_bound v.prev_index size key.0 n.storage) _ h2 in
    let (a, ha, h4) =
      bind-ok
        (on_mode codec n key.0 v.prev_index upper mode.0
          (record v { query = mode.1; last_in = key.0.timestamp }))
        _ h3 in
    let shorter = decode_bound_shorter v.query v.last_in key hk in
    let fewer = decode_var_int_shorter key.1 mode hm in
    let kept =
      on_mode_shorter codec n key.0 v.prev_index upper mode.0
        (record v { query = mode.1; last_in = key.0.timestamp }) a ha in
    omega (arith, close_round_shorter codec n key.0 upper size a u h4)

bind_same {ℓ κ} :
    {A : Type ℓ} {B : Type κ} (m : Result Nip77Error A) (f g : A → Result Nip77Error B)
    → ((a : A) → m ≡ ok a → f a ≡ g a)
    → (m >>= f) ≡ (m >>= g)
bind_same (err e) f g h = refl
bind_same (ok a) f g h = h a refl

is_empty_of_length : (buf : Bytes) → length buf ≤ 0 → is_empty buf ≡ true
is_empty_of_length [] h = refl
is_empty_of_length (x ∷ buf) h = ground arith

rounds_same :
    (f g : ℕ) (codec : Codec) (n : Negentropy) (size : ℕ) (v : Session)
    → length v.query ≤ f
    → length v.query ≤ g
    → rounds f codec n size v ≡ rounds g codec n size v
unfolding rounds
rounds_same zero zero codec n size v h k = refl
rounds_same zero (suc g) codec n size v h k = rw (is_empty_of_length v.query h) refl
rounds_same (suc f) zero codec n size v h k = rw (is_empty_of_length v.query k) refl
rounds_same (suc f) (suc g) codec n size v h k = elim (Bool-cases (is_empty v.query)) [
  | inl done ↦ rw done refl
  | inr more ↦ rw more (
      bind_same (round codec n size v) (rounds f codec n size) (rounds g codec n size) (λ w hw.
        let shorter = round_shorter codec n size v w hw in
        rounds_same f g codec n size w (omega arith) (omega arith)))
]

-- The loop of `reconcile` ends within as many rounds as its message has bytes: any more fuel gives
-- the same result, errors included.
pub rounds_enough :
    (fuel : ℕ) (codec : Codec) (n : Negentropy) (size : ℕ) (v : Session)
    → length v.query ≤ fuel
    → rounds fuel codec n size v ≡ rounds (length v.query) codec n size v
rounds_enough fuel codec n size v enough =
    rounds_same fuel (length v.query) codec n size v enough (omega arith)
