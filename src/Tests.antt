-- ===== src/Tests.antt =====
-- Events and states at which the theorems are applied.
pub mod Message
pub mod Negentropy
pub mod Nip44
pub mod Relay
pub mod Subscription
use nostr_js.Base.{
  ◌≡◌, refl, ◌≢◌, Bool, true, false, not, ◌&&◌, ◌||◌, Option, none, some, List, [], ◌∷◌, ◌↔◌, ◌⊎◌,
  ◌≤◌, ◌<◌, arith, ℕ, all, replicate, length, All, Text, text, text_eq, nat_eq, ◌==◌, if◌then◌else◌,
}
use nostr_js.Base.Int.{ℤ, pos, leb_ℤ}
use nostr_js.Runtime.Map
use nostr_js.Runtime.Map.{Map}
use nostr_js.Runtime.Set
use nostr_js.Runtime.Set.{Set}
use nostr_js.Runtime.Sort
use nostr_js.Core.Collections.{
  add_to_set_map, remove_from_set_map, holds, holds-add_to_set_map, holds-remove_from_set_map,
}
use nostr_js.Core.Hex.{is_hex32, is_hex64}
use nostr_js.Core.Kind.{
  is_addressable_kind, is_replaceable_kind, is_ephemeral_kind, classify_kind, is_regular_kind,
  regular, replaceable, ephemeral, addressable, classify_kind_lem,
}
use nostr_js.Core.Tag.{event_address, parse_event_address, format_event_address}
use nostr_js.Core.Tag.Address.{parse_event_address-format_event_address}
use nostr_js.Core.Event.{
  Event, validate_signed_event, stamp, is_replaceable_winner, compare_events_desc, sort_events,
}
use nostr_js.Core.Event.Order.{
  is_replaceable_winner_total, is_replaceable_winner_trans, winner-iff-first, NewestFirst,
  sort_events-NewestFirst,
}
use nostr_js.Core.Filter.{Filter, match_filter, match_filters, get_filter_limit}
use nostr_js.Core.Filter.Limit.{of_kind_author, get_filter_limit-addressable}
use nostr_js.Storage.Deletion.{
  plan_deletion, covers, absorb, no_deletions, covered_by_marker, address_of,
}
use nostr_js.Storage.Deletion.Own.{IsOwn, plan_deletion-IsOwn}
use nostr_js.Storage.Deletion.Unknown.{plan_of_unknown, absorb-overwrites}
use nostr_js.Storage.MemoryIndex.{MemoryIndex, new_index, put, get_incumbent}
use nostr_js.Storage.MemoryIndex.Keys.{stored}
use nostr_js.Storage.MemoryIndex.Writes.{Fits}
use nostr_js.Storage.MemoryIndex.Reach.{
  Reachable, start, next, put_step, remove_step, Reachable-IsIndexed,
}
use nostr_js.Storage.MemoryIndex.Methods.{remove}
use nostr_js.Storage.MemoryIndex.Query.{query, count}
use nostr_js.Storage.MemoryIndex.Query.Answer.{IsAnswer}
use nostr_js.Storage.MemoryIndex.Query.Loops.{has_id}
use nostr_js.Storage.MemoryIndex.Query.Merge.{query_sound, query_exact, count-eq-length-query}
use nostr_js.Storage.MemoryIndex.Winner.{IsAdmissible, takes_over, put_winner, put_converges}
use nostr_js.Storage.MemoryIndex.Notices.{follow, follow-notices}

abbrev author : Text
author = replicate 64 b'a'

abbrev other_author : Text
other_author = replicate 64 b'b'

abbrev id_one : Text
id_one = replicate 64 b'1'

abbrev id_two : Text
id_two = replicate 64 b'2'

abbrev profile : Text → ℤ → Event
profile id at = record {
  id = id;
  pubkey = author;
  created_at = at;
  kind = 0;
  tags = [];
  content = text "{}";
  sig = replicate 128 b'c';
}

-- two versions of a profile, at the same time and at different ones
abbrev first : Event
first = profile id_one (pos 100)

abbrev second : Event
second = profile id_two (pos 200)

abbrev deletion : Event
deletion = record {
  id = replicate 64 b'3';
  pubkey = author;
  created_at = pos 300;
  kind = 5;
  tags = (text "e" ∷ id_one ∷ []) ∷ (text "a" ∷ format_event_address 0 author (text "") ∷ []) ∷ [];
  content = [];
  sig = replicate 128 b'c';
}

abbrev article : Event
article = record first { kind = 30023; tags = (text "d" ∷ text "x" ∷ []) ∷ [] }

abbrev fresh : MemoryIndex
fresh = new_index (some 100) 10

abbrev busy : MemoryIndex
busy = (remove (id_two ∷ []) (put true deletion (put true second (put true first fresh).1).1).1).1

busy-Reachable : Reachable busy
busy-Reachable =
    next
      (next (next (next (start (some 100) 10) (put_step true first)) (put_step true second))
        (put_step true deletion))
      (remove_step (id_two ∷ []))

abbrev profiles : List Filter
profiles = of_kind_author 0 author ∷ []

query_exact_example :
    has_id id_two (query busy profiles)
    ≡ stored
        (λ x. not (covers busy.deletion x) && match_filters profiles x)
        (Map.get busy.by_id id_two)
query_exact_example = query_exact profiles id_two busy-Reachable (refl, tt)

query_sound_example :
    IsAnswer busy
      (λ x. not (covers busy.deletion x) && match_filters profiles x)
      (query busy profiles)
    × NewestFirst (query busy profiles)
query_sound_example = query_sound profiles busy-Reachable

count-eq-length-query_example : count busy profiles ≡ length (query busy profiles)
count-eq-length-query_example = count-eq-length-query profiles busy-Reachable

Reachable-IsIndexed_example : Fits busy
Reachable-IsIndexed_example = Reachable-IsIndexed busy-Reachable

follow-notices_example : follow [] busy.notices ≡ busy.by_id
follow-notices_example = follow-notices busy-Reachable

abbrev address : Text
address = format_event_address 0 author (text "")

first-IsAdmissible : IsAdmissible fresh false first
unfolding Set.has validate_signed_event is_hex32 is_hex64 all Map.get covers event_address
    is_addressable_kind is_replaceable_kind is_ephemeral_kind
first-IsAdmissible = record {
  valid = refl;
  no_tombstone = refl;
  new = refl;
  not_deletion = refl;
  not_covered = refl;
  not_ephemeral = refl;
}

put_winner_example : get_incumbent (put false first fresh).1 address ≡ (
    if takes_over first (get_incumbent fresh address)
    then some (record { mark = stamp first; evicted = false })
    else get_incumbent fresh address)
unfolding event_address is_addressable_kind is_replaceable_kind
put_winner_example = put_winner fresh false first address first-IsAdmissible refl

parse_event_address-format_event_address_example :
    parse_event_address (format_event_address 30023 author (text "a:b"))
    ≡ some (record { kind = 30023; pubkey = author; identifier = text "a:b" })
unfolding is_hex32 nostr_js.Runtime.Str.to_lower_case all
parse_event_address-format_event_address_example =
    parse_event_address-format_event_address 30023 author (text "a:b") (omega arith) refl

is_replaceable_winner_total_example :
    is_replaceable_winner (stamp first) (stamp second)
    ≡ not (is_replaceable_winner (stamp second) (stamp first))
is_replaceable_winner_total_example =
    is_replaceable_winner_total (stamp first) (stamp second) (λ e. ground arith)

second-IsAdmissible : IsAdmissible fresh false second
unfolding Set.has validate_signed_event is_hex32 is_hex64 all Map.get covers event_address
    is_addressable_kind is_replaceable_kind is_ephemeral_kind
second-IsAdmissible = record {
  valid = refl;
  no_tombstone = refl;
  new = refl;
  not_deletion = refl;
  not_covered = refl;
  not_ephemeral = refl;
}

second_after-IsAdmissible : IsAdmissible (put false first fresh).1 false second
unfolding Set.has validate_signed_event is_hex32 is_hex64 all Map.get covers event_address
    is_addressable_kind is_replaceable_kind is_ephemeral_kind put
    nostr_js.Storage.MemoryIndex.trim_tombstones nostr_js.Storage.Put.apply_put_memory
    nostr_js.Storage.Put.decide_put get_incumbent nostr_js.Storage.MemoryIndex.index_insert
    nostr_js.Core.Collections.trim_keys nostr_js.Storage.MemoryIndex.insert_tables Map.set
    nostr_js.Base.text_beq nostr_js.Core.Collections.trim_oldest
second_after-IsAdmissible = record {
  valid = refl;
  no_tombstone = refl;
  new = refl;
  not_deletion = refl;
  not_covered = refl;
  not_ephemeral = refl;
}

first_after-IsAdmissible : IsAdmissible (put false second fresh).1 false first
unfolding Set.has validate_signed_event is_hex32 is_hex64 all Map.get covers event_address
    is_addressable_kind is_replaceable_kind is_ephemeral_kind put
    nostr_js.Storage.MemoryIndex.trim_tombstones nostr_js.Storage.Put.apply_put_memory
    nostr_js.Storage.Put.decide_put get_incumbent nostr_js.Storage.MemoryIndex.index_insert
    nostr_js.Core.Collections.trim_keys nostr_js.Storage.MemoryIndex.insert_tables Map.set
    nostr_js.Base.text_beq nostr_js.Core.Collections.trim_oldest
first_after-IsAdmissible = record {
  valid = refl;
  no_tombstone = refl;
  new = refl;
  not_deletion = refl;
  not_covered = refl;
  not_ephemeral = refl;
}

put_converges_example :
    get_incumbent (put false second (put false first fresh).1).1 address
    ≡ get_incumbent (put false first (put false second fresh).1).1 address
unfolding event_address is_addressable_kind is_replaceable_kind get_incumbent Map.get
put_converges_example =
    put_converges fresh false false first second address refl refl (λ e. ground arith) tt tt
      first-IsAdmissible second-IsAdmissible second_after-IsAdmissible first_after-IsAdmissible

winner-iff-first_example :
    is_replaceable_winner (stamp first) (stamp second)
    ≡ leb_ℤ (compare_events_desc (stamp first) (stamp second)) (pos 0)
winner-iff-first_example = winner-iff-first (stamp first) (stamp second) (λ e. ground arith)

sort_events-NewestFirst_example :
    NewestFirst (sort_events (first ∷ second ∷ deletion ∷ []))
    × ((p : Event → Bool)
        → Sort.tally p (sort_events (first ∷ second ∷ deletion ∷ []))
          ≡ Sort.tally p (first ∷ second ∷ deletion ∷ []))
sort_events-NewestFirst_example = sort_events-NewestFirst (first ∷ second ∷ deletion ∷ [])

plan_deletion-IsOwn_example :
    IsOwn author
      (pos 300)
      (λ id. Map.get ((id_one, first) ∷ []) id)
      (plan_deletion deletion (λ id. Map.get ((id_one, first) ∷ []) id))
plan_deletion-IsOwn_example = plan_deletion-IsOwn deletion (λ id. Map.get ((id_one, first) ∷ []) id)

absorb-overwrites_example :
    (covers (absorb no_deletions (plan_of_unknown id_one author)) first ≡ true)
    × (covers
          (absorb
            (absorb no_deletions (plan_of_unknown id_one author))
            (plan_of_unknown id_one other_author))
          first
        ≡ covered_by_marker [] (pos 100) (address_of first))
unfolding Set.has nostr_js.Base.text_beq
absorb-overwrites_example = absorb-overwrites no_deletions first other_author refl refl refl

get_filter_limit-addressable_example :
    (get_filter_limit (of_kind_author 30023 author) ≡ some 1)
    × (match_filter (of_kind_author 30023 author) article ≡ true)
unfolding is_addressable_kind nostr_js.Runtime.Str.to_lower_case
get_filter_limit-addressable_example =
    get_filter_limit-addressable 30023 author article refl refl refl

classify_kind_lem_example :
    ((classify_kind 30023 ≡ replaceable)
      ↔ ((article.kind ≡ 0) ⊎ (article.kind ≡ 3) ⊎ ((10000 ≤ 30023) × (30023 < 20000))))
    × ((classify_kind 30023 ≡ ephemeral) ↔ ((20000 ≤ 30023) × (30023 < 30000)))
    × ((classify_kind 30023 ≡ addressable) ↔ ((30000 ≤ 30023) × (30023 < 40000)))
    × (is_regular_kind 30023 ≡ true → classify_kind 30023 ≡ regular)
classify_kind_lem_example = classify_kind_lem 30023

abbrev members : Map Text (Set Text)
members = (author, id_one ∷ []) ∷ []
