-- ===== src/Storage/MemoryIndex/Query/Reached.antt =====
-- An event that a filter matches is among the candidates of the index that `#eachCandidate`
-- (src/storage/memory-index.ts) chooses for the filter.
use nostr_js.Base.{
  ◌≡◌, refl, Bool, true, Option, some, List, [], ◌∷◌, ◌++◌, arith, ℕ, Text, ◌==◌, text_eq, nat_eq,
  eq_iff, eq_self, Eq, any, any-append, all, Bool-cases, inl, inr, ◌∙◌, map,
}
use nostr_js.Runtime.Map
use nostr_js.Runtime.Map.{Map}
use nostr_js.Runtime.Set.{Set}
use nostr_js.Runtime.Str.{to_lower_case}
use nostr_js.Core.Collections.{holds}
use nostr_js.Core.Tag.{Tag}
use nostr_js.Core.Event.{Event}
use nostr_js.Core.Filter.{some_lower, tag_hit, match_tag_key, match_tags, is_hex_tag}
use nostr_js.Storage.MemoryIndex.{Tables, kind_pubkey_key, ep_key, ep_keys}
use nostr_js.Storage.MemoryIndex.Invariant.{IsIndexed, pubkey_keys, kind_keys, kind_pubkey_keys}
use nostr_js.Storage.MemoryIndex.Keys.{among, Indexes, stored}
use nostr_js.Storage.MemoryIndex.Query.{author_kind_keys}

-- Keys of the event reach its id.
module _ {ℓ} {K : Type ℓ} ⦃e : Eq K⦄ (index : Map K (Set Text)) (by_id : Map Text Event)
    (keys_of : Event → List K) (h : Indexes index by_id keys_of) (x : Event) (id : Text)
    (found : Map.get by_id id ≡ some x) where
  pub holds_key : (k : K) → holds index k id ≡ among (keys_of x) k
  unfolding stored
  holds_key k = h k id ∙ rw found

any-map {ℓ κ} :
    {A : Type ℓ} {B : Type κ} (p : B → Bool) (f : A → B) (xs : List A)
    → any p (map f xs) ≡ any (λ a. p (f a)) xs
unfolding any
any-map p f [] = refl
any-map p f (x ∷ xs) = ground (arith, any-map p f xs)

-- `any` of a weaker test
any_mono {ℓ} :
    {A : Type ℓ} (p q : A → Bool) (xs : List A)
    → ((a : A) → p a ≡ true → q a ≡ true)
    → any p xs ≡ true
    → any q xs ≡ true
unfolding any
any_mono p q [] h k = k
any_mono p q (x ∷ xs) h k = ground (arith, h x, any_mono p q xs h)

-- The loops over authors and kinds reach the key of a matched author and kind.
author_kind_keys_reach :
    (q : Text → Bool) (pubkey : Text) (kind : ℕ) (authors : List Text) (kinds : List ℕ)
    → q (kind_pubkey_key kind pubkey) ≡ true
    → some_lower pubkey authors ≡ true
    → any (λ k. k == kind) kinds ≡ true
    → any q (author_kind_keys authors kinds) ≡ true
unfolding author_kind_keys some_lower any
author_kind_keys_reach q pubkey kind [] kinds hit a k = cc
author_kind_keys_reach q pubkey kind (pk ∷ pks) kinds hit a k =
    let here : to_lower_case pk ≡ pubkey
        → any q (map (λ n. kind_pubkey_key n (to_lower_case pk)) kinds) ≡ true =
      λ same.
        any-map q (λ n. kind_pubkey_key n (to_lower_case pk)) kinds
        ∙ any_mono (λ n. n == kind) (λ n. q (kind_pubkey_key n (to_lower_case pk))) kinds
            (λ n e. rw (same, (eq_iff n kind).0 e) hit) k in
    ground (
      arith,
      eq_iff (to_lower_case pk) pubkey,
      here,
      any-append q (map (λ n. kind_pubkey_key n (to_lower_case pk)) kinds)
          (author_kind_keys pks kinds),
      author_kind_keys_reach q pubkey kind pks kinds hit,
    )

-- the same value, up to case, makes the same key
ep_key_same :
    (key name value v : Text)
    → key ≡ name
    → to_lower_case v ≡ to_lower_case value
    → (ep_key key value == ep_key name v) ≡ true
unfolding ep_key
ep_key_same key name value v same low =
    rw (same, low) (eq_self (name ++ (b':' ∷ to_lower_case value)))

-- An `e` or `p` tag adds its key, and every tag keeps the keys of those behind it.
among-ep_keys-tail :
    (key value : Text) (more : List Text) (tags : List Tag) (k : Text)
    → among (ep_keys tags) k ≡ true
    → among (ep_keys ((key ∷ value ∷ more) ∷ tags)) k ≡ true
unfolding ep_keys any
among-ep_keys-tail key value more tags k h = ground arith

among-ep_keys-head :
    (key value : Text) (more : List Text) (tags : List Tag) (name v : Text)
    → is_hex_tag name ≡ true
    → key ≡ name
    → to_lower_case v ≡ to_lower_case value
    → among (ep_keys ((key ∷ value ∷ more) ∷ tags)) (ep_key name v) ≡ true
unfolding ep_keys any
among-ep_keys-head key value more tags name v hex same low =
    let hex' : is_hex_tag key ≡ true = rw same hex in
    rw hex' (ground (arith, ep_key_same key name value v same low))

module _ (name : Text) (values : List Text) (key value : Text) (more : List Text)
    (hit : tag_hit name values (key ∷ value ∷ more) ≡ true) where
  hit_name : key ≡ name
  unfolding tag_hit
  hit_name = ground (arith, eq_iff key name)

  hit_value : is_hex_tag name ≡ true → some_lower (to_lower_case value) values ≡ true
  unfolding tag_hit
  hit_value hex = ground arith

-- A value of an `e` or `p` tag of the event reaches it.
pub tag_hit_key :
    (name : Text) (values : List Text) (tags : List Tag)
    → is_hex_tag name ≡ true
    → any (tag_hit name values) tags ≡ true
    → any (λ v. among (ep_keys tags) (ep_key name v)) values ≡ true
unfolding any tag_hit ep_keys some_lower
tag_hit_key name values [] hex h = cc
tag_hit_key name values ([] ∷ tags) hex h = tag_hit_key name values tags hex h
tag_hit_key name values ((key ∷ []) ∷ tags) hex h = tag_hit_key name values tags hex h
tag_hit_key name values ((key ∷ value ∷ more) ∷ tags) hex h =
    elim (Bool-cases (tag_hit name values (key ∷ value ∷ more))) [
      | inl hit ↦
          any_mono (λ v. to_lower_case v == to_lower_case value)
            (λ v. among (ep_keys ((key ∷ value ∷ more) ∷ tags)) (ep_key name v)) values
            (λ v low.
              among-ep_keys-head key value more tags name v hex
                (hit_name name values key value more hit) ((eq_iff _ _).0 low))
            (hit_value name values key value more hit hex)
      | inr miss ↦
          any_mono (λ v. among (ep_keys tags) (ep_key name v))
            (λ v. among (ep_keys ((key ∷ value ∷ more) ∷ tags)) (ep_key name v)) values
            (λ v k. among-ep_keys-tail key value more tags (ep_key name v) k)
            (tag_hit_key name values tags hex (ground arith))
    ]

all-get {ℓ} :
    {V : Type ℓ} (p : Text × V → Bool) (m : Map Text V) (k : Text) (v : V)
    → all p m ≡ true
    → Map.get m k ≡ some v
    → p (k, v) ≡ true
unfolding all Map.get
all-get p [] k v h e = cc
all-get p ((j, w) ∷ m) k v h e = ground (arith, eq_iff j k, all-get p m k v)

-- A tag list of the filter that the event matches reaches it through the tag index.
pub tags_reach :
    (by_ep_tag : Map Text (Set Text)) (by_id : Map Text Event) (x : Event) (id name : Text)
    (values : List Text) (tags : Map Text (Option (List Text)))
    → Indexes by_ep_tag by_id (λ y. ep_keys y.tags)
    → Map.get by_id id ≡ some x
    → is_hex_tag name ≡ true
    → match_tags tags x ≡ true
    → Map.get tags name ≡ some (some values)
    → any (λ key. holds by_ep_tag key id) (map (ep_key name) values) ≡ true
unfolding match_tags match_tag_key
tags_reach by_ep_tag by_id x id name values tags h found hex m e =
    any-map (λ key. holds by_ep_tag key id) (ep_key name) values
    ∙ any_mono (λ v. among (ep_keys x.tags) (ep_key name v))
        (λ v. holds by_ep_tag (ep_key name v) id) values
        (λ v k. holds_key by_ep_tag by_id (λ y. ep_keys y.tags) h x id found (ep_key name v) ∙ k)
        (tag_hit_key name values x.tags hex (all-get (match_tag_key x) tags name (some values) m e))

-- So do a matched author and kind, an author alone, and a kind alone.
module _ (t : Tables) (i : IsIndexed t) (x : Event) (id : Text)
    (found : Map.get t.by_id id ≡ some x) where
  pub authors_kinds_reach :
      (authors : List Text) (kinds : List ℕ)
      → some_lower x.pubkey authors ≡ true
      → any (λ k. k == x.kind) kinds ≡ true
      → any (λ key. holds t.by_kind_pubkey key id) (author_kind_keys authors kinds) ≡ true
  unfolding any
  authors_kinds_reach authors kinds a k =
      author_kind_keys_reach (λ key. holds t.by_kind_pubkey key id) x.pubkey x.kind authors kinds
        (holds_key t.by_kind_pubkey t.by_id kind_pubkey_keys i.kind_pubkeys x id found _
          ∙ ground (arith, eq_self (kind_pubkey_key x.kind x.pubkey)))
        a k

  pub authors_reach :
      (authors : List Text)
      → some_lower x.pubkey authors ≡ true
      → any (λ key. holds t.by_pubkey key id) (map to_lower_case authors) ≡ true
  unfolding any some_lower
  authors_reach authors a =
      any-map (λ key. holds t.by_pubkey key id) to_lower_case authors
      ∙ any_mono (λ v. to_lower_case v == x.pubkey) (λ v. holds t.by_pubkey (to_lower_case v) id)
          authors
          (λ v e.
            holds_key t.by_pubkey t.by_id pubkey_keys i.pubkeys x id found (to_lower_case v)
            ∙ ground (arith, eq_iff (to_lower_case v) x.pubkey, eq_iff x.pubkey (to_lower_case v)))
          a

  pub kinds_reach :
      (kinds : List ℕ)
      → any (λ k. k == x.kind) kinds ≡ true
      → any (λ key. holds t.by_kind key id) kinds ≡ true
  unfolding any
  kinds_reach kinds k =
      any_mono (λ n. n == x.kind) (λ n. holds t.by_kind n id) kinds
        (λ n e. holds_key t.by_kind t.by_id kind_keys i.kinds x id found n ∙ ground arith) k
