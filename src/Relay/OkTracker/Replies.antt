-- ===== src/Relay/OkTracker/Replies.antt =====
-- What an OK reply does to a waiter of src/relay/ok-tracker.ts.
use nostr_js.Base.{
  ◌≡◌, Bool, false, not, ◌&&◌, none, some, arith, if◌then◌else◌, Text, text_eq, ◌==◌, is_some,
}
use nostr_js.Runtime.Map
use nostr_js.Relay.OkTracker.{
  Ref, resolved, OkTracker, deliver, settle_promise, clear_timer, drop_entry, finish, settle, on_ok,
}
use nostr_js.Relay.OkTracker.Settles.{Reachable, Reachable-IsSound}

abbrev pub wants_retry : OkTracker → Ref → Bool → Text → (Text → Bool) → Bool → Bool
wants_retry s r accepted message is_auth_required signer =
    not accepted
    && is_auth_required message
    && is_some (s.waiters r).event
    && not (s.waiters r).auth_retried
    && signer

-- In a reachable state an OK reply for an id that has an entry, and no AUTH retry to make, resolves
-- the promise of that entry with the reply, removes the entry and leaves the other ones.
pub on_ok_lem :
    {s : OkTracker} (reached : Reachable s) (id : Text) (r : Ref) (accepted : Bool) (message : Text)
    (is_auth_required : Text → Bool) (signer : Bool)
    → Map.get s.entries id ≡ some r
    → wants_retry s r accepted message is_auth_required signer ≡ false
    → (((on_ok id accepted message is_auth_required signer s).waiters r).promise
        ≡ resolved (record { accepted = accepted; message = message }))
      × ((k : Text)
          → Map.get (on_ok id accepted message is_auth_required signer s).entries k
            ≡ (if id == k then none else Map.get s.entries k))
unfolding on_ok settle finish settle_promise drop_entry clear_timer deliver
on_ok_lem {s} reached id r accepted message is_auth_required signer e h =
    let (below, same, open_promise) = (Reachable-IsSound reached).owned id r e in
    rw (e, on_ok)
      (rw h
        (ground (arith, open_promise), λ k. ground (arith, same, e, Map.get-delete s.entries id k)))
