-- ===== src/Storage/MemoryIndex/Invariant.antt =====
-- The invariant of the tables of src/storage/memory-index.ts: every index agrees with the stored
-- events. `#indexInsert` of an unknown id at a free address and `#indexRemove` keep it.
use nostr_js.Base.{
  ◌≡◌, refl, Bool, true, false, ◌&&◌, Option, none, some, List, [], ◌∷◌, arith, ℕ, if◌then◌else◌,
  Text, ◌==◌, text_eq, nat_eq, eq_iff, eq_self, Bool-cases, Option-cases, inl, inr, sym, ap, ◌∙◌,
}
use nostr_js.Runtime.Map
use nostr_js.Runtime.Map.{Map}
use nostr_js.Core.Collections.{holds}
use nostr_js.Core.Event.{Event}
use nostr_js.Storage.Deletion.{address_of}
use nostr_js.Storage.MemoryIndex.{
  Tables, no_tables, kind_pubkey_key, ep_keys, set_address, clear_address, is_winner, insert_tables,
  remove_tables,
}
use nostr_js.Storage.MemoryIndex.Keys.{
  stored, stored-set, stored-delete, stored-some, stored-none, Indexes, add_keys-Indexes,
  remove_keys-Indexes,
}

abbrev pub pubkey_keys : Event → List Text
pubkey_keys e = e.pubkey ∷ []

abbrev pub kind_keys : Event → List ℕ
kind_keys e = e.kind ∷ []

abbrev pub kind_pubkey_keys : Event → List Text
kind_pubkey_keys e = kind_pubkey_key e.kind e.pubkey ∷ []

abbrev pub tag_keys : Event → List Text
tag_keys e = ep_keys e.tags

abbrev pub is_at : Option Text → Text → Bool
is_at none a = false
is_at (some b) a = b == a

-- The winner of an address is exactly the stored event that has it.
abbrev pub IsAddressed : Map Text Text → Map Text Event → Type 0
IsAddressed replaceable by_id =
    (a w : Text)
    → is_winner replaceable (some a) w ≡ stored (λ x. is_at (address_of x) a) (Map.get by_id w)

abbrev pub IsKeyed : Map Text Event → Type 0
IsKeyed [] = Unit
IsKeyed ((k, x) ∷ m) = (x.id ≡ k) × IsKeyed m

pub record IsIndexed (t : Tables) : Type 0 where
  pub keyed : IsKeyed t.by_id
  pub unique : Map.IsUnique t.by_id
  pub pubkeys : Indexes t.by_pubkey t.by_id pubkey_keys
  pub kinds : Indexes t.by_kind t.by_id kind_keys
  pub kind_pubkeys : Indexes t.by_kind_pubkey t.by_id kind_pubkey_keys
  pub ep_tags : Indexes t.by_ep_tag t.by_id tag_keys
  pub addresses : IsAddressed t.replaceable t.by_id

pub id_of_get :
    (m : Map Text Event) (k : Text) (x : Event) → IsKeyed m → Map.get m k ≡ some x → x.id ≡ k
unfolding Map.get
id_of_get [] k x h e = cc
id_of_get ((j, y) ∷ m) k x h e = ground (arith, eq_iff j k, id_of_get m k x h.1)

pub set-IsKeyed : (m : Map Text Event) (x : Event) → IsKeyed m → IsKeyed (Map.set m x.id x)
unfolding Map.set
set-IsKeyed [] x h = (refl, tt)
set-IsKeyed ((j, y) ∷ m) x h = ground (arith, eq_iff j x.id, set-IsKeyed m x h.1)

pub delete-IsKeyed : (m : Map Text Event) (k : Text) → IsKeyed m → IsKeyed (Map.delete m k)
unfolding Map.delete
delete-IsKeyed [] k h = tt
delete-IsKeyed ((j, y) ∷ m) k h = ground (arith, delete-IsKeyed m k h.1)

is_winner-set :
    (m : Map Text Text) (b v a w : Text)
    → is_winner (Map.set m b v) (some a) w ≡ (if b == a then v == w else is_winner m (some a) w)
unfolding is_winner
is_winner-set m b v a w = ground (arith, Map.get-set m b v a)

is_winner-delete :
    (m : Map Text Text) (b a w : Text)
    → is_winner (Map.delete m b) (some a) w ≡ (if b == a then false else is_winner m (some a) w)
unfolding is_winner
is_winner-delete m b a w = ground (arith, Map.get-delete m b a)

is_winner-none :
    (m : Map Text Text) (a w : Text) → Map.get m a ≡ none → is_winner m (some a) w ≡ false
unfolding is_winner
is_winner-none m a w e = rw (e, is_winner) refl

-- an address has one winner at most
is_winner_unique :
    (m : Map Text Text) (a v w : Text)
    → is_winner m (some a) v ≡ true
    → is_winner m (some a) w ≡ true
    → v ≡ w
unfolding is_winner
is_winner_unique m a v w h k = elim (Option-cases (Map.get m a)) [
  | inl absent ↦ ground arith
  | inr (x, there) ↦ ground (arith, eq_iff x v, eq_iff x w)
]

eq_of_is_at : (o : Option Text) (a : Text) → is_at o a ≡ true → o ≡ some a
eq_of_is_at none a h = cc
eq_of_is_at (some b) a h = ap some ((eq_iff b a).0 h)

is_winner-set_address :
    (m : Map Text Text) (o : Option Text) (v a w : Text)
    → is_winner (set_address m o v) (some a) w
      ≡ (if is_at o a then v == w else is_winner m (some a) w)
unfolding set_address
is_winner-set_address m none v a w = refl
is_winner-set_address m (some b) v a w = is_winner-set m b v a w

is_winner-clear_address :
    (m : Map Text Text) (o : Option Text) (id a w : Text)
    → is_winner (clear_address m o id) (some a) w
      ≡ (if is_at o a && is_winner m (some a) id then false else is_winner m (some a) w)
unfolding clear_address
is_winner-clear_address m none id a w = refl
is_winner-clear_address m (some b) id a w = elim (Bool-cases (is_winner m (some b) id)) [
  | inl wins ↦ rw (wins, is_winner-delete m b a w) (ground (arith, eq_iff b a))
  | inr loses ↦ rw loses (ground (arith, eq_iff b a))
]

module _ (m : Map Text Text) (by_id : Map Text Event) (h : IsAddressed m by_id) where
  set_address-IsAddressed :
      (x : Event)
      → Map.get by_id x.id ≡ none
      → ((a : Text) → address_of x ≡ some a → Map.get m a ≡ none)
      → IsAddressed (set_address m (address_of x) x.id) (Map.set by_id x.id x)
  set_address-IsAddressed x fresh free a w =
      rw (is_winner-set_address m (address_of x) x.id a w, stored-set _ by_id x.id x w)
        (ground (
          arith,
          h a w,
          eq_iff x.id w,
          stored-none (λ y. is_at (address_of y) a) by_id x.id w fresh,
          eq_of_is_at (address_of x) a,
          free a,
          is_winner-none m a w,
        ))

  clear_address-IsAddressed :
      (id : Text) (x : Event)
      → Map.get by_id id ≡ some x
      → IsAddressed (clear_address m (address_of x) id) (Map.delete by_id id)
  clear_address-IsAddressed id x found a w =
      rw (is_winner-clear_address m (address_of x) id a w, stored-delete _ by_id id w)
        (ground (
          arith,
          h a w,
          h a id,
          eq_iff id w,
          stored-some (λ y. is_at (address_of y) a) by_id id w x found,
          stored-some (λ y. is_at (address_of y) a) by_id id id x found,
          is_winner_unique m a id w,
        ))

pub no_tables-IsIndexed : IsIndexed no_tables
unfolding Map.get stored is_winner holds
no_tables-IsIndexed = record {
  keyed = tt;
  unique = tt;
  pubkeys = λ k w. refl;
  kinds = λ k w. refl;
  kind_pubkeys = λ k w. refl;
  ep_tags = λ k w. refl;
  addresses = λ a w. refl;
}

-- Inserting an event with a new id, at an address that has no winner, keeps every index.
pub insert_tables-IsIndexed :
    (x : Event) (t : Tables)
    → IsIndexed t
    → Map.get t.by_id x.id ≡ none
    → ((a : Text) → address_of x ≡ some a → Map.get t.replaceable a ≡ none)
    → IsIndexed (insert_tables x t)
unfolding insert_tables
insert_tables-IsIndexed x t i fresh free = record {
  keyed = set-IsKeyed t.by_id x i.keyed;
  unique = Map.set-IsUnique t.by_id x.id x i.unique;
  pubkeys = add_keys-Indexes t.by_pubkey t.by_id pubkey_keys i.pubkeys x fresh;
  kinds = add_keys-Indexes t.by_kind t.by_id kind_keys i.kinds x fresh;
  kind_pubkeys = add_keys-Indexes t.by_kind_pubkey t.by_id kind_pubkey_keys i.kind_pubkeys x fresh;
  ep_tags = add_keys-Indexes t.by_ep_tag t.by_id tag_keys i.ep_tags x fresh;
  addresses = set_address-IsAddressed t.replaceable t.by_id i.addresses x fresh free;
}

-- Removing a stored event keeps every index.
pub remove_tables-IsIndexed :
    (id : Text) (x : Event) (t : Tables)
    → IsIndexed t
    → Map.get t.by_id id ≡ some x
    → IsIndexed (remove_tables id x t)
unfolding remove_tables
remove_tables-IsIndexed id x t i found = record {
  keyed = delete-IsKeyed t.by_id id i.keyed;
  unique = Map.delete-IsUnique t.by_id id i.unique;
  pubkeys = remove_keys-Indexes t.by_pubkey t.by_id pubkey_keys i.pubkeys id x found;
  kinds = remove_keys-Indexes t.by_kind t.by_id kind_keys i.kinds id x found;
  kind_pubkeys =
      remove_keys-Indexes t.by_kind_pubkey t.by_id kind_pubkey_keys i.kind_pubkeys id x found;
  ep_tags = remove_keys-Indexes t.by_ep_tag t.by_id tag_keys i.ep_tags id x found;
  addresses = clear_address-IsAddressed t.replaceable t.by_id i.addresses id x found;
}

pub is_winner_of_get :
    (m : Map Text Text) (a w : Text) → Map.get m a ≡ some w → is_winner m (some a) w ≡ true
unfolding is_winner
is_winner_of_get m a w e = rw (e, is_winner) (eq_self w)

-- A winner's id names a stored event that has the address.
pub winner_stored :
    (t : Tables) (a w : Text)
    → IsIndexed t
    → Map.get t.replaceable a ≡ some w
    → (x : Event) × (Map.get t.by_id w ≡ some x) × (address_of x ≡ some a)
unfolding stored is_winner
winner_stored t a w i e =
    let wins : is_winner t.replaceable (some a) w ≡ true = is_winner_of_get t.replaceable a w e in
    elim (Option-cases (Map.get t.by_id w)) [
      | inl absent ↦ cc (i.addresses a w, wins, absent)
      | inr (x, found) ↦
          (x, found, eq_of_is_at (address_of x) a (sym (rw found at (i.addresses a w)) ∙ wins))
    ]
