-- ===== src/Storage/MemoryIndex/Keys.antt =====
-- One index of src/storage/memory-index.ts, from keys to ids, against the events that it indexes.
use nostr_js.Base.{
  ◌≡◌, refl, Bool, false, ◌&&◌, ◌||◌, not, Option, none, some, List, [], ◌∷◌, arith, if◌then◌else◌,
  Text, ◌==◌, text_eq, eq_iff, Eq, any,
}
use nostr_js.Runtime.Map
use nostr_js.Runtime.Map.{Map}
use nostr_js.Runtime.Set.{Set}
use nostr_js.Core.Collections.{
  add_to_set_map, remove_from_set_map, holds, holds-add_to_set_map, holds-remove_from_set_map,
}
use nostr_js.Core.Event.{Event}
use nostr_js.Storage.MemoryIndex.{add_keys, remove_keys}

-- a test of a stored event, false where none is stored
unfoldable pub stored : (Event → Bool) → Option Event → Bool
stored p none = false
stored p (some e) = p e

pub stored-set :
    (p : Event → Bool) (m : Map Text Event) (k : Text) (x : Event) (w : Text)
    → stored p (Map.get (Map.set m k x) w) ≡ (if k == w then p x else stored p (Map.get m w))
unfolding stored
stored-set p m k x w = rw (Map.get-set m k x w) (ground arith)

pub stored-delete :
    (p : Event → Bool) (m : Map Text Event) (k w : Text)
    → stored p (Map.get (Map.delete m k) w) ≡ (if k == w then false else stored p (Map.get m w))
unfolding stored
stored-delete p m k w = rw (Map.get-delete m k w) (ground arith)

pub stored-some :
    (p : Event → Bool) (m : Map Text Event) (k w : Text) (x : Event)
    → Map.get m k ≡ some x
    → k ≡ w
    → stored p (Map.get m w) ≡ p x
unfolding stored
stored-some p m k w x e same = rw (← same, e) refl

pub stored-none :
    (p : Event → Bool) (m : Map Text Event) (k w : Text)
    → Map.get m k ≡ none
    → k ≡ w
    → stored p (Map.get m w) ≡ false
unfolding stored
stored-none p m k w e same = rw (← same, e) refl

module _ {ℓ} {K : Type ℓ} ⦃e : Eq K⦄ where
  abbrev pub among : List K → K → Bool
  among ks k = any (λ j. j == k) ks

  holds-add_keys :
      (m : Map K (Set Text)) (ks : List K) (v : Text) (k : K) (w : Text)
      → holds (add_keys m ks v) k w ≡ ((among ks k && v == w) || holds m k w)
  unfolding add_keys any
  holds-add_keys m [] v k w = refl
  holds-add_keys m (j ∷ js) v k w =
      ground (arith, holds-add_keys (add_to_set_map m j v) js v k w, holds-add_to_set_map m j v k w)

  holds-remove_keys :
      (m : Map K (Set Text)) (ks : List K) (v : Text) (k : K) (w : Text)
      → holds (remove_keys m ks v) k w ≡ (not (among ks k && v == w) && holds m k w)
  unfolding remove_keys any
  holds-remove_keys m [] v k w = ground arith
  holds-remove_keys m (j ∷ js) v k w = ground (
    arith,
    holds-remove_keys (remove_from_set_map m j v) js v k w,
    holds-remove_from_set_map m j v k w,
  )

  -- The index holds an id under a key exactly when the stored event of that id has the key.
  abbrev pub Indexes : Map K (Set Text) → Map Text Event → (Event → List K) → Type ℓ
  Indexes m by_id keys_of =
      (k : K) (w : Text) → holds m k w ≡ stored (λ x. among (keys_of x) k) (Map.get by_id w)

  module _ (m : Map K (Set Text)) (by_id : Map Text Event) (keys_of : Event → List K)
      (h : Indexes m by_id keys_of) where
    pub add_keys-Indexes :
        (x : Event)
        → Map.get by_id x.id ≡ none
        → Indexes (add_keys m (keys_of x) x.id) (Map.set by_id x.id x) keys_of
    add_keys-Indexes x fresh k w =
        rw (holds-add_keys m (keys_of x) x.id k w, stored-set _ by_id x.id x w)
          (ground (
            arith,
            h k w,
            eq_iff x.id w,
            stored-none (λ y. among (keys_of y) k) by_id x.id w fresh,
          ))

    pub remove_keys-Indexes :
        (id : Text) (x : Event)
        → Map.get by_id id ≡ some x
        → Indexes (remove_keys m (keys_of x) id) (Map.delete by_id id) keys_of
    remove_keys-Indexes id x found k w =
        rw (holds-remove_keys m (keys_of x) id k w, stored-delete _ by_id id w)
          (ground
            (arith, h k w, eq_iff id w, stored-some (λ y. among (keys_of y) k) by_id id w x found))
