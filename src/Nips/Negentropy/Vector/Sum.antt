-- ===== src/Nips/Negentropy/Vector/Sum.antt =====
-- `Accumulator.add` of src/nips/nip77.ts adds little-endian numbers, and drops the last carry.
use nostr_js.Base.{
  ◌≡◌, refl, [], ◌∷◌, ◌++◌, arith, ℕ, ◌+◌, ◌*◌, ◌%◌, ◌^◌, ◌≤◌, ◌<◌, ltb, nat_beq, ◌⊎◌, inl, inr,
  if◌then◌else◌, Bool-cases,
}
use nostr_js.Nips.Negentropy.{Bytes}
use nostr_js.Nips.Negentropy.Vector.{word, word_bytes, add_words}

-- the number that the bytes write, least significant first
abbrev pub value : Bytes → ℕ
value [] = 0
value (b ∷ buf) = b + 256 * value buf

-- the least number that needs more bytes
abbrev pub range : Bytes → ℕ
range [] = 1
range (b ∷ buf) = 256 * range buf

-- Two buffers of as many 32-bit words.
pub data AreWords : Bytes → Bytes → Type 0 where
  end_of_words : AreWords [] []
  next_word :
      (a b c d w x y z : ℕ) (buf other : Bytes)
      → word a b c d < 4294967296
      → word w x y z < 4294967296
      → AreWords buf other
      → AreWords (a ∷ b ∷ c ∷ d ∷ buf) (w ∷ x ∷ y ∷ z ∷ other)

value-word_bytes :
    (n : ℕ) (buf : Bytes)
    → n < 4294967296
    → value (word_bytes n ++ buf) ≡ n + 4294967296 * value buf
value-word_bytes n buf h = omega arith

abbrev IsSum : (sum total limit : ℕ) → Type 0
IsSum sum total limit = (sum ≡ total) ⊎ (sum + limit ≡ total)

step_IsSum :
    (next rest carry va vb limit x y c : ℕ)
    → next ≡ x + c + y
    → next ≡ next % 4294967296 + 4294967296 * carry
    → IsSum rest (va + vb + carry) limit
    → IsSum
        (next % 4294967296 + 4294967296 * rest)
        (x + 4294967296 * va + (y + 4294967296 * vb) + c)
        (4294967296 * limit)
step_IsSum next rest carry va vb limit x y c hn hc (inl h) = inl (omega arith)
step_IsSum next rest carry va vb limit x y c hn hc (inr h) = inr (omega arith)

same_IsSum :
    (sum sum' total total' limit limit' : ℕ)
    → sum ≡ sum'
    → total ≡ total'
    → limit ≡ limit'
    → IsSum sum' total' limit'
    → IsSum sum total limit
same_IsSum sum sum' total total' limit limit' e f g (inl h) = inl (omega arith)
same_IsSum sum sum' total total' limit limit' e f g (inr h) = inr (omega arith)

-- the carry is what is above 32 bits
carry_of :
    (n : ℕ) → n < 8589934592 → n ≡ n % 4294967296 + 4294967296 * (if ltb 4294967295 n then 1 else 0)
carry_of n h = elim (Bool-cases (ltb 4294967295 n)) [
  | inl over ↦ rw over (let large : 4294967295 < n = ground arith in omega arith)
  | inr under ↦ rw under (let small : n < 4294967296 = ground arith in omega arith)
]

add_words-IsSum :
    (c : ℕ) {a b : Bytes}
    → c ≤ 1
    → AreWords a b
    → IsSum (value (add_words c a b)) (value a + value b + c) (range a)
unfolding add_words
add_words-IsSum c h end_of_words = elim (Bool-cases (nat_beq c 0)) [
  | inl none ↦ inl (ground arith)
  | inr one ↦ inr (ground arith)
]
add_words-IsSum c h (next_word i j k l w x y z buf other small less words) =
    let next = word i j k l + c + word w x y z in
    let carry = if ltb 4294967295 next then 1 else 0 in
    let carried : carry ≤ 1 = ground arith in
    let rest = add_words carry buf other in
    let step =
      step_IsSum next (value rest) carry (value buf) (value other) (range buf) (word i j k l)
        (word w x y z) c refl (carry_of next (omega arith)) (add_words-IsSum carry carried words) in
    let bytes = value-word_bytes (next % 2 ^ 32) rest (omega arith) in
    same_IsSum _ (next % 4294967296 + 4294967296 * value rest) _
      (word i j k l + 4294967296 * value buf + (word w x y z + 4294967296 * value other) + c) _
      (4294967296 * range buf) bytes (omega arith) (omega arith) step

-- Adding an id of as many 32-bit words to the buffer gives the sum of the two numbers, or that sum
-- less the first number that the buffer has no room for: the sum of the ids wraps around.
pub add_words_lem :
    (buf other : Bytes)
    → AreWords buf other
    → (value (add_words 0 buf other) ≡ value buf + value other)
      ⊎ (value (add_words 0 buf other) + range buf ≡ value buf + value other)
add_words_lem buf other words =
    same_IsSum _ _ _ (value buf + value other + 0) _ _ refl (omega arith) refl
      (add_words-IsSum 0 {a = buf} {b = other} (omega arith) words)
