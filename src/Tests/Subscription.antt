-- ===== src/Tests/Subscription.antt =====
-- A subscription at which the theorems on the watermark are applied.
use nostr_js.Base.{◌≡◌, true, false, ◌&&◌, none, some, List, [], ◌∷◌, all, any, Text, text}
use nostr_js.Base.Int.{pos}
use nostr_js.Core.Event.{Event}
use nostr_js.Core.Filter.{Filter, match_filters}
use nostr_js.Relay.Subscription.{Subscription, is_at_watermark, replay_filters}
use nostr_js.Relay.Subscription.Watermark.{
  Receipt, is_due, is_covered, is_marked, after, match_filters-replay_filters, watermark_lem,
}

abbrev note : Event
note = record {
  id = text "e1";
  pubkey = text "aa";
  created_at = pos 5;
  kind = 1;
  tags = [];
  content = text "hello";
  sig = text "ff";
}

abbrev notes : Filter
notes = record {
  ids = none;
  kinds = some (1 ∷ []);
  authors = none;
  since = none;
  until = none;
  limit = none;
  search = none;
  tags = [];
}

-- the second event has a time after the clock's
abbrev receipts : List Receipt
receipts = (record note { id = text "e2"; created_at = pos 90 }, pos 7) ∷ (note, pos 6) ∷ []

abbrev sub : Subscription
sub = after (text "s") (notes ∷ []) false false receipts

match_filters-replay_filters_example :
    match_filters (replay_filters sub) note
    ≡ (match_filters sub.filters note && is_due sub.last_created_at note.created_at)
match_filters-replay_filters_example = match_filters-replay_filters sub note

watermark_lem_example :
    (all (is_covered sub.last_created_at) receipts ≡ true)
    × ((i : Text) → is_at_watermark i sub ≡ any (is_marked i sub.last_created_at) receipts)
watermark_lem_example = watermark_lem (text "s") (notes ∷ []) false false receipts
