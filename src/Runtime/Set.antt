-- ===== src/Runtime/Set.antt =====
-- `Set` of the JavaScript runtime: members in insertion order.
use nostr_js.Base.{
  ◌≡◌, refl, Bool, true, false, not, ◌&&◌, ◌||◌, List, [], ◌∷◌, arith, if◌then◌else◌, Eq, ◌==◌,
  eq_iff, length, suc,
}

abbrev pub Set {ℓ} : Type ℓ → Type ℓ
Set A = List A

module _ {ℓ} {A : Type ℓ} ⦃e : Eq A⦄ where
  unfoldable pub has : Set A → A → Bool
  has [] a = false
  has (x ∷ s) a = x == a || has s a

  unfoldable pub add : Set A → A → Set A
  add [] a = a ∷ []
  add (x ∷ s) a = if x == a then x ∷ s else x ∷ add s a

  unfoldable pub delete : Set A → A → Set A
  delete [] a = []
  delete (x ∷ s) a = let rest = delete s a in if x == a then rest else x ∷ rest

  pub has-add : (s : Set A) (a b : A) → has (add s a) b ≡ (a == b || has s b)
  unfolding has add
  has-add [] a b = refl
  has-add (x ∷ s) a b = ground (arith, eq_iff x a, eq_iff x b, eq_iff a b, has-add s a b)

  pub has-delete : (s : Set A) (a b : A) → has (delete s a) b ≡ (not (a == b) && has s b)
  unfolding has delete
  has-delete [] a b = ground arith
  has-delete (x ∷ s) a b = ground (arith, eq_iff x a, eq_iff x b, eq_iff a b, has-delete s a b)

  pub add_present : (s : Set A) (a : A) → has s a ≡ true → add s a ≡ s
  unfolding has add
  add_present [] a h = cc
  add_present (x ∷ s) a h = ground (arith, add_present s a)

  pub length-add : (s : Set A) (a : A) → has s a ≡ false → length (add s a) ≡ suc (length s)
  unfolding has add
  length-add [] a h = refl
  length-add (x ∷ s) a h = ground (arith, length-add s a)
