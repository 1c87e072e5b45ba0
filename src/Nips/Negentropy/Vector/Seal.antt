-- ===== src/Nips/Negentropy/Vector/Seal.antt =====
-- `compareNegItems` of src/nips/nip77.ts is a total order, so a sealed vector is strictly sorted.
use nostr_js.Base.{
  ◌≡◌, refl, Bool, true, false, not, ◌&&◌, ◌||◌, List, [], ◌∷◌, arith, All, ◌∙◌, sym,
}
use nostr_js.Base.Int.{ℤ, pos, leb_ℤ, ltb_ℤ, int_beq, ◌-ℤ◌}
use nostr_js.Runtime.Sort
use nostr_js.Runtime.Str.Order.{text_ltb, text_ltb_asymm, text_le_trans}
use nostr_js.Nips.Negentropy.{
  Bytes, Time, finite, infinity, NegItem, compare_bytes, compare_times, compare_neg_items,
}

-- at most: not after
bytes_in_order : (a b : Bytes) → leb_ℤ (compare_bytes a b) (pos 0) ≡ not (text_ltb b a)
unfolding compare_bytes text_ltb
bytes_in_order [] [] = refl
bytes_in_order [] (y ∷ b) = refl
bytes_in_order (x ∷ a) [] = refl
bytes_in_order (x ∷ a) (y ∷ b) = ground (arith, bytes_in_order a b)

times_total :
    (s t : Time) (a b : Bytes)
    → leb_ℤ (compare_times s t (compare_bytes a b)) (pos 0) ≡ false
    → leb_ℤ (compare_times t s (compare_bytes b a)) (pos 0) ≡ true
unfolding ◌-ℤ◌
times_total (finite s) (finite t) a b h =
    ground (arith, bytes_in_order a b, bytes_in_order b a, text_ltb_asymm a b, text_ltb_asymm b a)
times_total (finite s) infinity a b h = cc
times_total infinity (finite t) a b h = refl
times_total infinity infinity a b h =
    ground (arith, bytes_in_order a b, bytes_in_order b a, text_ltb_asymm a b, text_ltb_asymm b a)

finite_in_order :
    (s t ids : ℤ)
    → leb_ℤ (compare_times (finite s) (finite t) ids) (pos 0)
      ≡ (ltb_ℤ s t || (int_beq s t && leb_ℤ ids (pos 0)))
unfolding ◌-ℤ◌
finite_in_order s t ids = ground arith

bytes_trans :
    (a b c : Bytes)
    → leb_ℤ (compare_bytes a b) (pos 0) ≡ true
    → leb_ℤ (compare_bytes b c) (pos 0) ≡ true
    → leb_ℤ (compare_bytes a c) (pos 0) ≡ true
bytes_trans a b c h k =
    ground (arith, bytes_in_order a b, bytes_in_order b c, bytes_in_order a c, text_le_trans a b c)

finite_trans :
    (s t u : ℤ) (p q r : Bool)
    → (p ≡ true → q ≡ true → r ≡ true)
    → (ltb_ℤ s t || (int_beq s t && p)) ≡ true
    → (ltb_ℤ t u || (int_beq t u && q)) ≡ true
    → (ltb_ℤ s u || (int_beq s u && r)) ≡ true
finite_trans s t u p q r f h k = ground (arith, f)

times_trans :
    (s t u : Time) (a b c : Bytes)
    → leb_ℤ (compare_times s t (compare_bytes a b)) (pos 0) ≡ true
    → leb_ℤ (compare_times t u (compare_bytes b c)) (pos 0) ≡ true
    → leb_ℤ (compare_times s u (compare_bytes a c)) (pos 0) ≡ true
unfolding ◌-ℤ◌
times_trans (finite s) (finite t) (finite u) a b c h k =
    finite_in_order s u (compare_bytes a c)
    ∙ finite_trans s t u _ _ _ (bytes_trans a b c)
        (sym (finite_in_order s t (compare_bytes a b)) ∙ h)
        (sym (finite_in_order t u (compare_bytes b c)) ∙ k)
times_trans (finite s) t infinity a b c h k = refl
times_trans (finite s) infinity (finite u) a b c h k = cc
times_trans infinity (finite t) u a b c h k = cc
times_trans infinity infinity (finite u) a b c h k = cc
times_trans infinity infinity infinity a b c h k = bytes_trans a b c h k

pub neg_items_total :
    (x y : NegItem)
    → Sort.in_order compare_neg_items x y ≡ false
    → Sort.in_order compare_neg_items y x ≡ true
unfolding compare_neg_items
neg_items_total x y h = times_total x.timestamp y.timestamp x.id y.id h

pub neg_items_trans :
    (x y z : NegItem)
    → Sort.in_order compare_neg_items x y ≡ true
    → Sort.in_order compare_neg_items y z ≡ true
    → Sort.in_order compare_neg_items x z ≡ true
unfolding compare_neg_items
neg_items_trans x y z h k = times_trans x.timestamp y.timestamp z.timestamp x.id y.id z.id h k

-- Each item is strictly before all that follow it.
abbrev pub IsAscending : List NegItem → Type 0
IsAscending [] = Unit
IsAscending (x ∷ xs) = All (λ y. ltb_ℤ (compare_neg_items x y) (pos 0) ≡ true) xs × IsAscending xs

-- strictly before: the other is not at most this
bytes_strict : (a b : Bytes) → ltb_ℤ (compare_bytes a b) (pos 0) ≡ text_ltb a b
unfolding compare_bytes text_ltb
bytes_strict [] [] = refl
bytes_strict [] (y ∷ b) = refl
bytes_strict (x ∷ a) [] = refl
bytes_strict (x ∷ a) (y ∷ b) = ground (arith, bytes_strict a b)

times_strict :
    (s t : Time) (a b : Bytes)
    → ltb_ℤ (compare_times s t (compare_bytes a b)) (pos 0)
      ≡ not (leb_ℤ (compare_times t s (compare_bytes b a)) (pos 0))
unfolding ◌-ℤ◌
times_strict (finite s) (finite t) a b = ground (arith, bytes_strict a b, bytes_in_order b a)
times_strict (finite s) infinity a b = refl
times_strict infinity (finite t) a b = refl
times_strict infinity infinity a b = ground (arith, bytes_strict a b, bytes_in_order b a)

-- the Boolean part of the next lemma
trans_of :
    (yx zy zx xy p q r : Bool)
    → p ≡ not yx
    → q ≡ not zy
    → r ≡ not zx
    → (yx ≡ false → xy ≡ true)
    → (zx ≡ true → xy ≡ true → zy ≡ true)
    → p ≡ true
    → q ≡ true
    → r ≡ true
trans_of yx zy zx xy p q r hp hq hr total trans h k = ground (arith, total, trans)

before_iff :
    (x y : NegItem)
    → ltb_ℤ (compare_neg_items x y) (pos 0) ≡ not (Sort.in_order compare_neg_items y x)
unfolding compare_neg_items
before_iff x y = times_strict x.timestamp y.timestamp x.id y.id

pub before_trans :
    (x y z : NegItem)
    → ltb_ℤ (compare_neg_items x y) (pos 0) ≡ true
    → ltb_ℤ (compare_neg_items y z) (pos 0) ≡ true
    → ltb_ℤ (compare_neg_items x z) (pos 0) ≡ true
before_trans x y z h k =
    trans_of (Sort.in_order compare_neg_items y x) (Sort.in_order compare_neg_items z y)
      (Sort.in_order compare_neg_items z x) (Sort.in_order compare_neg_items x y) _ _ _
      (before_iff x y) (before_iff y z) (before_iff x z) (neg_items_total y x)
      (λ p q. neg_items_trans z x y p q) h k
