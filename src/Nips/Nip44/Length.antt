-- ===== src/Nips/Nip44/Length.antt =====
-- The padded length of src/nips/nip44.ts.
use native.Mathlib.Nat.{two-pow-succ, lt-mul-div-succ, mul-div-le, mul-suc}
use nostr_js.Base.{
  ℕ, zero, suc, ◌+◌, ◌-◌, ◌*◌, ◌/◌, ◌^◌, ◌≤◌, ◌<◌, max, arith, ltb, leb, Bool-cases, inl, inr,
}
use nostr_js.Nips.Nip44.{floor_log2, next_power, chunk_of, padded_len}

-- the highest power of two up to a number
floor_log2_le : (fuel n : ℕ) → 1 ≤ n → n < 2 ^ fuel → 2 ^ floor_log2 fuel n ≤ n
unfolding floor_log2
floor_log2_le zero n h k = ground arith
floor_log2_le (suc fuel) n h k = elim (Bool-cases (ltb n 2)) [
  | inl small ↦ rw small h
  | inr large ↦
      let two : 2 ≤ n = ground arith in
      let half : n / 2 < 2 ^ fuel = omega (arith, two-pow-succ fuel) in
      rw large (
        omega (
          arith,
          two-pow-succ (floor_log2 fuel (n / 2)),
          floor_log2_le fuel (n / 2) (omega arith) half,
        ))
]

next_power_le : (len : ℕ) → 33 ≤ len → len ≤ 9007199254740991 → next_power len ≤ 2 * (len - 1)
next_power_le len h k = omega (
  arith,
  two-pow-succ (floor_log2 53 (len - 1)),
  floor_log2_le 53 (len - 1) (omega arith) (omega arith),
)

module _ (len : ℕ) where
  chunk_pos : 0 < chunk_of (next_power len)
  chunk_pos = elim (Bool-cases (leb (next_power len) 256)) [
    | inl small ↦ rw small (omega arith)
    | inr large ↦ let above : 256 < next_power len = ground arith in rw large (omega arith)
  ]

  chunk_le : 33 ≤ len → len ≤ 9007199254740991 → chunk_of (next_power len) ≤ max 32 (len / 4)
  chunk_le h k = elim (Bool-cases (leb (next_power len) 256)) [
    | inl small ↦ rw small (omega arith)
    | inr large ↦ rw large (omega (arith, next_power_le len h k))
  ]

  -- The padded length of a text of at least one byte, and at most a safe integer, has room for the
  -- text, adds at most 32 bytes to it or a quarter of its length, and is at least 32.
  pub padded_len_bounds :
      1 ≤ len
      → len ≤ 9007199254740991
      → (len ≤ padded_len len) × (padded_len len ≤ len + max 32 (len / 4)) × (32 ≤ padded_len len)
  unfolding padded_len
  padded_len_bounds h k = elim (Bool-cases (leb len 32)) [
    | inl small ↦ let short : len ≤ 32 = ground arith in rw small (omega arith)
    | inr large ↦
        let long : 33 ≤ len = ground arith in
        let c = chunk_of (next_power len) in
        let room = lt-mul-div-succ (len - 1) chunk_pos in
        let floor = mul-div-le (len - 1) c in
        let step = mul-suc c ((len - 1) / c) in rw large (omega (arith, chunk_le long k))
  ]
