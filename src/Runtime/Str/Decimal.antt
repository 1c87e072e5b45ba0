-- ===== src/Runtime/Str/Decimal.antt =====
-- `String(n)` of a natural number, and `Number(s)` of decimal digits.
use nostr_js.Base.{
  ◌≡◌, refl, Bool, true, ◌&&◌, [], ◌∷◌, ◌++◌, arith, ℕ, zero, suc, ◌+◌, ◌-◌, ◌*◌, ◌/◌, ◌%◌, ◌≤◌,
  ◌<◌, if◌then◌else◌, length, all, leb, ltb, Text, Bool-cases, inl, inr, length-append, All,
  All-append,
}

abbrev pub is_digit : ℕ → Bool
is_digit c = leb b'0' c && leb c b'9'

-- The digits, most significant first; `n` rounds are enough.
unfoldable pub digits : ℕ → ℕ → Text
digits zero n = (48 + n % 10) ∷ []
digits (suc f) n =
    let more = digits f (n / 10) ++ (48 + n % 10) ∷ [] in if ltb n 10 then (48 + n) ∷ [] else more

-- `String(n)`
unfoldable pub to_text : ℕ → Text
unfolding digits
to_text n = digits n n

-- `Number(s)`, where `s` is all digits
unfoldable pub number_from : ℕ → Text → ℕ
number_from acc [] = acc
number_from acc (c ∷ s) = number_from (acc * 10 + (c - 48)) s

unfoldable pub number : Text → ℕ
unfolding number_from
number s = number_from 0 s

number_from-append :
    (acc : ℕ) (s t : Text) → number_from acc (s ++ t) ≡ number_from (number_from acc s) t
unfolding number_from
number_from-append acc [] t = refl
number_from-append acc (c ∷ s) t = number_from-append (acc * 10 + (c - 48)) s t

number-digits : (f n : ℕ) → n ≤ f → number_from 0 (digits f n) ≡ n
unfolding digits number_from
number-digits zero n h = omega arith
number-digits (suc f) n h = elim (Bool-cases (ltb n 10)) [
  | inl small ↦ rw small (omega arith)
  | inr large ↦
      rw (large, number_from-append 0 (digits f (n / 10)) ((48 + n % 10) ∷ []))
        (rw (number-digits f (n / 10) (ground arith)) (omega arith))
]

pub number-to_text : (n : ℕ) → number (to_text n) ≡ n
unfolding number to_text
number-to_text n = number-digits n n (omega arith)

abbrev pub IsDigit : ℕ → Type 0
IsDigit c = (48 ≤ c) × (c ≤ 57)

All-digits : (f n : ℕ) → All IsDigit (digits f n)
unfolding digits
All-digits zero n = ((omega arith, omega arith), tt)
All-digits (suc f) n = elim (Bool-cases (ltb n 10)) [
  | inl small ↦ rw small ((omega arith, ground arith), tt)
  | inr large ↦ rw large (
      All-append IsDigit (digits f (n / 10)) _ (All-digits f (n / 10))
        ((omega arith, omega arith), tt))
]

pub to_text-All-digits : (n : ℕ) → All IsDigit (to_text n)
unfolding to_text
to_text-All-digits n = All-digits n n

pub all-digits : (s : Text) → All IsDigit s → all is_digit s ≡ true
unfolding all
all-digits [] h = refl
all-digits (c ∷ s) h = ground (arith, all-digits s h.1)

-- A number below 10 ^ k has at most k digits, and at least one.
digits-pos : (f n : ℕ) → 0 < length (digits f n)
unfolding digits
digits-pos zero n = omega arith
digits-pos (suc f) n = elim (Bool-cases (ltb n 10)) [
  | inl small ↦ rw small (omega arith)
  | inr large ↦ rw large (omega (arith, length-append (digits f (n / 10)) ((48 + n % 10) ∷ [])))
]

pub to_text-pos : (n : ℕ) → 0 < length (to_text n)
unfolding to_text
to_text-pos n = digits-pos n n

-- one more digit for each factor of ten
digits-step :
    (k b f n : ℕ)
    → ((m : ℕ) → m < b → length (digits f m) ≤ k)
    → n < 10 * b
    → length (digits (suc f) n) ≤ suc k
unfolding digits
digits-step k b f n h lt = elim (Bool-cases (ltb n 10)) [
  | inl small ↦ rw small (omega arith)
  | inr large ↦ rw large (
      omega
        (arith, length-append (digits f (n / 10)) ((48 + n % 10) ∷ []), h (n / 10) (omega arith)))
]

digits-1 : (f n : ℕ) → n < 10 → length (digits f n) ≤ 1
unfolding digits
digits-1 zero n h = omega arith
digits-1 (suc f) n h = ground arith

Bounded : ℕ → ℕ → Type 0
Bounded k b = (f n : ℕ) → n < b → length (digits f n) ≤ k

Bounded-suc : (k b : ℕ) → Bounded k b → Bounded (suc k) (10 * b)
unfolding Bounded
Bounded-suc k b h zero n lt = unfold digits in omega arith
Bounded-suc k b h (suc f) n lt = digits-step k b f n (h f) lt

pub length-to_text-le_five : (n : ℕ) → n < 100000 → length (to_text n) ≤ 5
unfolding to_text Bounded
length-to_text-le_five n h =
    Bounded-suc 4 10000 (Bounded-suc 3 1000 (Bounded-suc 2 100 (Bounded-suc 1 10 digits-1))) n n h
