-- ===== src/Core/Collections.antt =====
-- src/core/collections.ts: helpers on maps and sets in insertion order.
use nostr_js.Base.{
  ◌≡◌, refl, Bool, true, false, not, ◌&&◌, ◌||◌, Option, none, some, List, [], ◌∷◌, arith, ℕ, leb,
  if◌then◌else◌, Eq, ◌==◌, eq_iff, length, Option-cases, inl, inr,
}
use nostr_js.Runtime.Map
use nostr_js.Runtime.Map.{Map}
use nostr_js.Runtime.Set
use nostr_js.Runtime.Set.{Set}

-- `touchKey`
unfoldable pub touch_key {ℓ κ} : {K : Type ℓ} {V : Type κ} ⦃e : Eq K⦄ → Map K V → K → V → Map K V
touch_key m k v = Map.set (Map.delete m k) k v

-- The loop of `trimOldest` over the keys in insertion order: `size` reads the collection's size off
-- the caller's state, and `evict` is `onEvict?.(key)` followed by `collection.delete(key)`.
unfoldable pub trim_keys {ℓ κ} :
    {K : Type ℓ} {S : Type κ} → (S → ℕ) → (K → S → S) → ℕ → List K → S → S
trim_keys size evict max [] s = s
trim_keys size evict max (k ∷ ks) s =
    let rest = trim_keys size evict max ks (evict k s) in if leb (size s) max then s else rest

-- `trimOldest` of a map, and of a set, with no callback
unfoldable pub trim_oldest {ℓ κ} : {K : Type ℓ} {V : Type κ} ⦃e : Eq K⦄ → Map K V → ℕ → Map K V
unfolding trim_keys
trim_oldest m max = trim_keys length (λ k m. Map.delete m k) max (Map.keys m) m

abbrev is_empty {ℓ} : {V : Type ℓ} → Set V → Bool
is_empty [] = true
is_empty (_ ∷ _) = false

has-empty {ℓ} :
    {V : Type ℓ} ⦃d : Eq V⦄ (s : Set V) (w : V) → is_empty s ≡ true → Set.has s w ≡ false
unfolding Set.has
has-empty [] w h = refl
has-empty (x ∷ s) w h = cc

module _ {ℓ κ} {K : Type ℓ} {V : Type κ} ⦃e : Eq K⦄ ⦃d : Eq V⦄ where
  add_to_found : Map K (Set V) → K → V → Option (Set V) → Map K (Set V)
  add_to_found m k v none = Map.set m k (Set.add [] v)
  add_to_found m k v (some s) = Map.set m k (Set.add s v)

  -- `addToSetMap`; the set that the source changes in place is written back
  unfoldable pub add_to_set_map : Map K (Set V) → K → V → Map K (Set V)
  unfolding add_to_found
  add_to_set_map m k v = add_to_found m k v (Map.get m k)

  remove_from_found : Map K (Set V) → K → V → Option (Set V) → Map K (Set V)
  remove_from_found m k v none = m
  remove_from_found m k v (some s) =
      let s' = Set.delete s v in if is_empty s' then Map.delete m k else Map.set m k s'

  -- `removeFromSetMap`
  unfoldable pub remove_from_set_map : Map K (Set V) → K → V → Map K (Set V)
  unfolding remove_from_found
  remove_from_set_map m k v = remove_from_found m k v (Map.get m k)

  -- `map.get(key)?.has(value)`
  unfoldable pub holds : Map K (Set V) → K → V → Bool
  holds m k v = elim (Map.get m k) [ none ↦ false | some s ↦ Set.has s v ]

  -- Adding makes that pair a member, and changes no other membership.
  pub holds-add_to_set_map :
      (m : Map K (Set V)) (k : K) (v : V) (j : K) (w : V)
      → holds (add_to_set_map m k v) j w ≡ ((k == j && v == w) || holds m j w)
  unfolding holds add_to_set_map Set.has
  holds-add_to_set_map m k v j w = elim (Option-cases (Map.get m k)) [
    | inl absent ↦
        rw (absent, add_to_found)
          (ground (arith, Map.get-set m k (Set.add [] v) j, Set.has-add [] v w, eq_iff k j))
    | inr (s, found) ↦
        rw (found, add_to_found)
          (ground (arith, Map.get-set m k (Set.add s v) j, Set.has-add s v w, eq_iff k j))
  ]

  -- Removing takes that pair away, and changes no other membership.
  pub holds-remove_from_set_map :
      (m : Map K (Set V)) (k : K) (v : V) (j : K) (w : V)
      → holds (remove_from_set_map m k v) j w ≡ (not (k == j && v == w) && holds m j w)
  unfolding holds remove_from_set_map
  holds-remove_from_set_map m k v j w = elim (Option-cases (Map.get m k)) [
    | inl absent ↦ rw (absent, remove_from_found) (ground (arith, eq_iff k j))
    | inr (s, found) ↦
        rw (found, remove_from_found)
          (ground (
            arith,
            Map.get-set m k (Set.delete s v) j,
            Map.get-delete m k j,
            Set.has-delete s v w,
            has-empty (Set.delete s v) w,
            eq_iff k j,
          ))
  ]
