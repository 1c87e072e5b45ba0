-- ===== src/Runtime/Sort.antt =====
-- `Array.prototype.sort(compare)`, which is stable: `compare a b <= 0` keeps `a` before `b`.
-- A stable sort has one result, and this is it by insertion from the right.
use nostr_js.Base.{
  ◌≡◌, refl, Bool, true, false, ◌||◌, List, [], ◌∷◌, ℕ, ◌+◌, arith, if◌then◌else◌, length, any, All,
  Bool-cases, inl, inr,
}
use nostr_js.Base.Int.{ℤ, pos, leb_ℤ}

-- how many items pass the test
abbrev pub tally {ℓ} : {A : Type ℓ} → (A → Bool) → List A → ℕ
tally p [] = 0
tally p (x ∷ xs) = (if p x then 1 else 0) + tally p xs

module _ {ℓ} {A : Type ℓ} (compare : A → A → ℤ) where
  abbrev pub in_order : A → A → Bool
  in_order a b = leb_ℤ (compare a b) (pos 0)

  unfoldable pub insert : A → List A → List A
  insert x [] = x ∷ []
  insert x (y ∷ ys) = if in_order x y then x ∷ y ∷ ys else y ∷ insert x ys

  unfoldable pub sort : List A → List A
  sort [] = []
  sort (x ∷ xs) = insert x (sort xs)

  -- Sorting keeps the members, whatever they are tested by.
  pub any-insert : (p : A → Bool) (x : A) (ys : List A) → any p (insert x ys) ≡ (p x || any p ys)
  unfolding insert any
  any-insert p x [] = refl
  any-insert p x (y ∷ ys) = ground (arith, any-insert p x ys)

  pub any-sort : (p : A → Bool) (xs : List A) → any p (sort xs) ≡ any p xs
  unfolding sort any
  any-sort p [] = refl
  any-sort p (x ∷ xs) = ground (arith, any-insert p x (sort xs), any-sort p xs)

  pub tally-insert : (p : A → Bool) (x : A) (ys : List A) → tally p (insert x ys) ≡ tally p (x ∷ ys)
  unfolding insert
  tally-insert p x [] = refl
  tally-insert p x (y ∷ ys) = ground (arith, tally-insert p x ys)

  -- Sorting keeps every item, as often as it is there.
  pub tally-sort : (p : A → Bool) (xs : List A) → tally p (sort xs) ≡ tally p xs
  unfolding sort
  tally-sort p [] = refl
  tally-sort p (x ∷ xs) = ground (arith, tally-insert p x (sort xs), tally-sort p xs)

  pub length-insert : (x : A) (ys : List A) → length (insert x ys) ≡ length (x ∷ ys)
  unfolding insert
  length-insert x [] = refl
  length-insert x (y ∷ ys) = ground (arith, length-insert x ys)

  pub length-sort : (xs : List A) → length (sort xs) ≡ length xs
  unfolding sort
  length-sort [] = refl
  length-sort (x ∷ xs) = ground (arith, length-insert x (sort xs), length-sort xs)

  module _ {κ} (P : A → Type κ) where
    insert-All : (x : A) (ys : List A) → P x → All P ys → All P (insert x ys)
    unfolding insert
    insert-All x [] h k = (h, tt)
    insert-All x (y ∷ ys) h k = ground (arith, insert-All x ys h k.1)

    pub sort-All : (xs : List A) → All P xs → All P (sort xs)
    unfolding sort
    sort-All [] h = tt
    sort-All (x ∷ xs) h = insert-All x (sort xs) h.0 (sort-All xs h.1)

  -- Each item stands in order before all that follow it.
  abbrev pub IsSorted : List A → Type ℓ
  IsSorted [] = Unit
  IsSorted (x ∷ xs) = All (λ y. in_order x y ≡ true) xs × IsSorted xs

module _ {ℓ} {A : Type ℓ} (compare : A → A → ℤ)
    (total : (a b : A) → in_order compare a b ≡ false → in_order compare b a ≡ true)
    (trans : (a b c : A)
      → in_order compare a b ≡ true
      → in_order compare b c ≡ true
      → in_order compare a c ≡ true) where
  All-in_order :
      (x y : A) (zs : List A)
      → in_order compare x y ≡ true
      → All (λ z. in_order compare y z ≡ true) zs
      → All (λ z. in_order compare x z ≡ true) zs
  All-in_order x y [] h k = tt
  All-in_order x y (z ∷ zs) h k = (trans x y z h k.0, All-in_order x y zs h k.1)

  insert-IsSorted :
      (x : A) (ys : List A) → IsSorted compare ys → IsSorted compare (insert compare x ys)
  unfolding insert
  insert-IsSorted x [] s = (tt, tt)
  insert-IsSorted x (y ∷ ys) s = elim (Bool-cases (in_order compare x y)) [
    | inl before ↦ rw before ((before, All-in_order x y ys before s.0), s)
    | inr after ↦ rw after (
      insert-All compare (λ z. in_order compare y z ≡ true) x ys (total x y after) s.0,
      insert-IsSorted x ys s.1,
    )
  ]

  pub sort-IsSorted : (xs : List A) → IsSorted compare (sort compare xs)
  unfolding sort
  sort-IsSorted [] = tt
  sort-IsSorted (x ∷ xs) = insert-IsSorted x (sort compare xs) (sort-IsSorted xs)
