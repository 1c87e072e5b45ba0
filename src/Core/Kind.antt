-- ===== src/Core/Kind.antt =====
-- src/core/kind.ts: the kind ranges of NIP-01 and the storage class of a kind.
use nostr_js.Base.{
  ◌≡◌, Bool, true, false, ◌&&◌, ◌||◌, ℕ, leb, ltb, nat_beq, if◌then◌else◌, arith, ◌↔◌, ◌≤◌, ◌<◌,
  ◌⊎◌,
}

pub is_regular_kind : ℕ → Bool
is_regular_kind kind =
    nat_beq kind 1
    || nat_beq kind 2
    || (leb 4 kind && ltb kind 45)
    || (leb 1000 kind && ltb kind 10000)

unfoldable pub is_replaceable_kind : ℕ → Bool
is_replaceable_kind kind = nat_beq kind 0 || nat_beq kind 3 || (leb 10000 kind && ltb kind 20000)

unfoldable pub is_ephemeral_kind : ℕ → Bool
is_ephemeral_kind kind = leb 20000 kind && ltb kind 30000

unfoldable pub is_addressable_kind : ℕ → Bool
is_addressable_kind kind = leb 30000 kind && ltb kind 40000

pub data KindClassification : Type 0 where
  regular replaceable ephemeral addressable : KindClassification

pub classify_kind : ℕ → KindClassification
classify_kind kind =
    if is_replaceable_kind kind
    then replaceable
    else if is_ephemeral_kind kind
    then ephemeral
    else if is_addressable_kind kind
    then addressable
    else regular

-- `Kind.EventDeletion`
abbrev pub event_deletion : ℕ
event_deletion = 5

-- The class of a kind is the one range of NIP-01 that holds it: replaceable for 0, 3 and 10000 to
-- 19999, ephemeral for 20000 to 29999, addressable for 30000 to 39999, and regular for every other
-- kind, which includes every kind that `isRegularKind` accepts.
pub classify_kind_lem :
    (kind : ℕ)
    → ((classify_kind kind ≡ replaceable)
        ↔ ((kind ≡ 0) ⊎ (kind ≡ 3) ⊎ ((10000 ≤ kind) × (kind < 20000))))
      × ((classify_kind kind ≡ ephemeral) ↔ ((20000 ≤ kind) × (kind < 30000)))
      × ((classify_kind kind ≡ addressable) ↔ ((30000 ≤ kind) × (kind < 40000)))
      × (is_regular_kind kind ≡ true → classify_kind kind ≡ regular)
unfolding classify_kind is_regular_kind is_replaceable_kind is_ephemeral_kind is_addressable_kind
classify_kind_lem kind = ground arith

-- No kind has two classes.
pub replaceable-not-addressable :
    (kind : ℕ) → is_replaceable_kind kind ≡ true → is_addressable_kind kind ≡ false
unfolding is_replaceable_kind is_addressable_kind
replaceable-not-addressable kind h = ground arith
