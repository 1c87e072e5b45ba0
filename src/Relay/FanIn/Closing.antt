-- ===== src/Relay/FanIn/Closing.antt =====
-- `closeAll` of src/relay/fan-in.ts.
use nostr_js.Base.{
  ◌≡◌, refl, sym, ◌∙◌, Bool, true, false, Option, none, some, List, [], ◌∷◌, arith, ℕ, zero, suc,
  nat_beq, get_elem?, any, Text, text, text_eq, nat_eq, if_elim,
}
use nostr_js.Base.Maybe.{or_else}
use nostr_js.Relay.FanIn.{
  key_eq, is_attached, attached, ended, Url, eose_key, FanIn, fire_eose, settle_eose, settle_close,
  finish, move, on_close, end_sub, close_each, close_all,
}
use nostr_js.Relay.FanIn.Sound.{get-set_phase}
use nostr_js.Relay.FanIn.Reports.{IsReported, all_settled}

-- What closing the subscriptions leaves, when the fan-in is closed already.
record IsClosing (ns : List ℕ) (s t : FanIn) : Type 0 where
  calls : t.calls ≡ s.calls
  closed : t.closed ≡ true
  timer : t.eose_timer ≡ s.eose_timer
  fired : t.eose_fired ≡ s.eose_fired
  settled : all_settled s ≡ true → all_settled t ≡ true
  closers : t.closers ≡ s.closers
  left :
      (m : ℕ) (v : Url)
      → get_elem? t.urls m ≡ some v
      → v.phase ≡ attached
      → (get_elem? s.urls m ≡ some v) × (any (nat_beq m) ns ≡ false)

on_close-IsClosing :
    (n : ℕ) (u : Url) (reason : Text) (s : FanIn)
    → s.closed ≡ true
    → get_elem? s.urls n ≡ some u
    → IsClosing (n ∷ []) s (on_close (eose_key u) reason (move n ended s))
unfolding on_close settle_eose fire_eose finish any
on_close-IsClosing n u reason s c g = record {
  calls = ground arith;
  closed = ground arith;
  timer = ground arith;
  fired = ground arith;
  settled = λ h. ground arith;
  closers = ground arith;
  left = λ m v e p. ground (arith, get-set_phase s.urls n ended u m g);
}

-- an attempt that is attached is not one that is not
apart :
    (urls : List Url) (m n : ℕ) (u v : Url)
    → get_elem? urls n ≡ some u
    → get_elem? urls m ≡ some v
    → v.phase ≡ attached
    → is_attached u.phase ≡ false
    → nat_beq m n ≡ false
apart [] m n u v g e p h = ground arith
apart (w ∷ urls) zero zero u v g e p h = ground arith
apart (w ∷ urls) zero (suc n) u v g e p h = ground arith
apart (w ∷ urls) (suc m) zero u v g e p h = ground arith
apart (w ∷ urls) (suc m) (suc n) u v g e p h = ground (arith, apart urls m n u v g e p h)

end_sub-IsClosing :
    (n : ℕ) (o : Option Url) (reason : Text) (s : FanIn)
    → s.closed ≡ true
    → get_elem? s.urls n ≡ o
    → IsClosing (n ∷ []) s (end_sub n o reason s)
unfolding end_sub any
end_sub-IsClosing n none reason s c g = record {
  calls = refl;
  closed = c;
  timer = refl;
  fired = refl;
  settled = λ h. h;
  closers = refl;
  left = λ m v e p. (e, ground arith);
}
end_sub-IsClosing n (some u) reason s c g =
    if_elim (IsClosing (n ∷ []) s) (is_attached u.phase) (λ e. on_close-IsClosing n u reason s c g)
      (λ e. record {
        calls = refl;
        closed = c;
        timer = refl;
        fired = refl;
        settled = λ h. h;
        closers = refl;
        left = λ m v f p. (f, ground (arith, apart s.urls m n u v g f p e));
      })

close_each-IsClosing :
    (ns : List ℕ) (reason : Text) (s : FanIn)
    → s.closed ≡ true
    → IsClosing ns s (close_each ns reason s)
unfolding close_each any
close_each-IsClosing [] reason s c = record {
  calls = refl;
  closed = c;
  timer = refl;
  fired = refl;
  settled = λ h. h;
  closers = refl;
  left = λ m v e p. (e, refl);
}
close_each-IsClosing (n ∷ ns) reason s c =
    let first = end_sub-IsClosing n (get_elem? s.urls n) reason s c refl in
    let rest = close_each-IsClosing ns reason _ first.closed in
    record {
      calls = rest.calls ∙ first.calls;
      closed = rest.closed;
      timer = rest.timer ∙ first.timer;
      fired = rest.fired ∙ first.fired;
      settled = λ h. rest.settled (first.settled h);
      closers = rest.closers ∙ first.closers;
      left = λ m v e p.
          let (before, absent) = rest.left m v e p in
          let (there, other) = first.left m v before p in (there, ground arith);
    }

module _ (T : Bool) where
  pub close_all-IsReported :
      (reason : Option Text) (s : FanIn) → IsReported T s → IsReported T (close_all reason s)
  unfolding close_all
  close_all-IsReported reason s i =
      if_elim (IsReported T) s.closed (λ e. i)
        (λ e.
          let why = or_else reason (text "closed by client") in
          let t = close_each-IsClosing s.closers why (settle_close s) refl in
          record {
            eosed_once = ground (arith, i.eosed_once, t.calls, t.fired);
            open_calls = λ c. cc (t.closed);
            closed_calls = λ c. ground (arith, i.open_calls e, t.calls);
            timeless = (λ c. t.timer, λ c. t.timer);
            reason = λ h f. t.settled (i.reason h (sym t.fired ∙ f));
            idle = λ c n u g p.
                let (there, absent) = t.left n u g p in ground (arith, i.held n u there p);
            held = λ n u g p.
                let (there, absent) = t.left n u g p in ground (arith, i.held n u there p);
          })

pub close_all_closed : (reason : Option Text) (s : FanIn) → (close_all reason s).closed ≡ true
unfolding close_all
close_all_closed reason s =
    if_elim (λ (t : FanIn). t.closed ≡ true) s.closed (λ e. e)
      (λ e.
        (close_each-IsClosing s.closers (or_else reason (text "closed by client")) (settle_close s)
          refl).closed)
