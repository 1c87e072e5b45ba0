-- ===== src/Nips/Negentropy/Vector/Bisect.antt =====
-- `findLowerBound` of src/nips/nip77.ts splits a sorted range at the bound.
use nostr_js.Base.{
  ◌≡◌, refl, Bool, true, false, none, some, List, [], ◌∷◌, arith, ℕ, zero, suc, ◌+◌, ◌-◌, ◌/◌, ◌≤◌,
  ◌<◌, length, get_elem?, All, ok, Bool-cases, Option-cases, inl, inr, le→leb,
}
use nostr_js.Base.Int.{ltb_ℤ, pos}
use nostr_js.Nips.Negentropy.{NegItem, compare_neg_items}
use nostr_js.Nips.Negentropy.Vector.Seal.{IsAscending, before_trans}
use nostr_js.Nips.Negentropy.Vector.{StorageVector, bisect, find_lower_bound, is_below, check_range}

-- whether there is an item at the index, and it is below the bound
abbrev pub below_at : List NegItem → NegItem → ℕ → Bool
below_at items bound i = elim (get_elem? items i) [ none ↦ false | some item ↦ is_below bound item ]

-- The index splits the range: items before it are below the bound, and from it on none is.
pub record IsLowerBound (items : List NegItem) (bound : NegItem) (begin end r : ℕ) : Type 0 where
  pub at_least : begin ≤ r
  pub at_most : r ≤ end
  pub below : (i : ℕ) → begin ≤ i → i < r → below_at items bound i ≡ true
  pub above : (i : ℕ) → r ≤ i → i < end → below_at items bound i ≡ false

-- What the loop keeps: the items outside of the open range are decided.
record IsOpen (items : List NegItem) (bound : NegItem) (begin end first count : ℕ) : Type 0 where
  at_least : begin ≤ first
  at_most : first + count ≤ end
  below : (i : ℕ) → begin ≤ i → i < first → below_at items bound i ≡ true
  above : (i : ℕ) → first + count ≤ i → i < end → below_at items bound i ≡ false

length-get_elem? : (items : List NegItem) (i : ℕ) → get_elem? items i ≡ none → length items ≤ i
length-get_elem? [] i h = omega arith
length-get_elem? (x ∷ items) zero h = cc
length-get_elem? (x ∷ items) (suc i) h = omega (arith, length-get_elem? items i h)

module _ (items : List NegItem) (bound : NegItem)
    (mono : (i j : ℕ) → i ≤ j → below_at items bound j ≡ true → below_at items bound i ≡ true)
    (begin end : ℕ) (inside : end ≤ length items) where
  closed :
      (first count : ℕ)
      → count ≡ 0
      → IsOpen items bound begin end first count
      → IsLowerBound items bound begin end first
  closed first count z o = record {
    at_least = o.at_least;
    at_most = omega (arith, o.at_most);
    below = o.below;
    above = λ i h k. o.above i (omega arith) k;
  }

  lower :
      (first count step : ℕ) (item : NegItem)
      → step < count
      → get_elem? items (first + step) ≡ some item
      → IsOpen items bound begin end first count
      → is_below bound item ≡ true
      → IsOpen items bound begin end (first + step + 1) (count - (step + 1))
  lower first count step item s found o under = record {
    at_least = omega (arith, o.at_least);
    at_most = omega (arith, o.at_most);
    below = λ i h k. mono i (first + step) (omega arith) (rw (found, below_at) under);
    above = λ i h k. o.above i (omega arith) k;
  }

  upper :
      (first count step : ℕ) (item : NegItem)
      → step < count
      → get_elem? items (first + step) ≡ some item
      → IsOpen items bound begin end first count
      → is_below bound item ≡ false
      → IsOpen items bound begin end first step
  upper first count step item s found o over =
      let at : below_at items bound (first + step) ≡ false = rw (found, below_at) over in
      record {
        at_least = o.at_least;
        at_most = omega (arith, o.at_most);
        below = o.below;
        above = λ i h k. ground (arith, mono (first + step) i h, at);
      }

  bisect-IsLowerBound :
      (fuel first count : ℕ)
      → count ≤ fuel
      → IsOpen items bound begin end first count
      → IsLowerBound items bound begin end (bisect fuel items bound first count)
  unfolding bisect
  bisect-IsLowerBound zero first count h o = closed first count (omega arith) o
  bisect-IsLowerBound (suc fuel) first zero h o = closed first zero refl o
  bisect-IsLowerBound (suc fuel) first (suc n) h o =
      let step = suc n / 2 in
      elim (Option-cases (get_elem? items (first + step))) [
        | inl absent ↦
            let short = length-get_elem? items (first + step) absent in
            let bad : true ≡ false = ground (arith, o.at_most, short) in cc
        | inr (item, found) ↦ elim (Bool-cases (is_below bound item)) [
          | inl under ↦
              rw (found, bisect, under)
                (bisect-IsLowerBound fuel (first + step + 1) (suc n - (step + 1)) (omega arith)
                  (lower first (suc n) step item (omega arith) found o under))
          | inr over ↦
              rw (found, bisect, over)
                (bisect-IsLowerBound fuel first step (omega arith)
                  (upper first (suc n) step item (omega arith) found o over))
        ]
      ]

before_bound :
    (x bound : NegItem) (xs : List NegItem) (j : ℕ)
    → All (λ y. ltb_ℤ (compare_neg_items x y) (pos 0) ≡ true) xs
    → below_at xs bound j ≡ true
    → is_below bound x ≡ true
before_bound x bound [] j h k = cc
before_bound x bound (y ∷ xs) zero h k = before_trans x y bound h.0 k
before_bound x bound (y ∷ xs) (suc j) h k = before_bound x bound xs j h.1 k

below_at_mono :
    (items : List NegItem) (bound : NegItem)
    → IsAscending items
    → (i j : ℕ) → i ≤ j
    → below_at items bound j ≡ true
    → below_at items bound i ≡ true
below_at_mono [] bound s i j h k = cc
below_at_mono (x ∷ items) bound s zero zero h k = k
below_at_mono (x ∷ items) bound s zero (suc j) h k = before_bound x bound items j s.0 k
below_at_mono (x ∷ items) bound s (suc i) zero h k = let bad : true ≡ false = ground arith in cc
below_at_mono (x ∷ items) bound s (suc i) (suc j) h k =
    below_at_mono items bound s.1 i j (omega arith) k

-- On a sealed vector in ascending order, and a range inside of it, `findLowerBound` returns the index
-- that splits the range: every item of the range before it is below the bound, and none from it on.
pub find_lower_bound-IsLowerBound :
    (begin end : ℕ) (bound : NegItem) (s : StorageVector)
    → s.sealed ≡ true
    → IsAscending s.items
    → begin ≤ end
    → end ≤ length s.items
    → (r : ℕ) × (find_lower_bound begin end bound s ≡ ok r) × IsLowerBound s.items bound begin end r
unfolding find_lower_bound check_range
find_lower_bound-IsLowerBound begin end bound s sealed up small inside = (
  bisect (end - begin) s.items bound begin (end - begin),
  rw (sealed, le→leb _ _ small, le→leb _ _ inside) refl,
  bisect-IsLowerBound s.items bound (below_at_mono s.items bound up) begin end inside (end - begin)
      begin (end - begin) (omega arith)
      (record {
        at_least = omega arith;
        at_most = omega arith;
        below = λ i h k. ground arith;
        above = λ i h k. ground arith;
      }),
)
