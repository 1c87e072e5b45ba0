-- ===== src/Runtime/Str.antt =====
-- What the source uses of JavaScript strings: `toLowerCase`, `indexOf`, `slice`, `<`, `String(n)`
-- and `Number(s)` on decimal digits. `toLowerCase` acts on the letters A to Z and leaves every
-- other code unit as it is.
pub mod Decimal
pub mod Order
use nostr_js.Base.{
  ◌≡◌, refl, ap, Bool, true, false, ◌&&◌, Option, none, some, List, [], ◌∷◌, ◌++◌, arith, ℕ, suc,
  ◌+◌, ◌-◌, ◌≢◌, if◌then◌else◌, length, take, drop, all, map, leb, ltb, nat_beq, Text, All,
}
use mathlib.Core.Option

abbrev pub is_upper : ℕ → Bool
is_upper c = leb b'A' c && leb c b'Z'

abbrev pub lower_unit : ℕ → ℕ
lower_unit c = if is_upper c then c + 32 else c

unfoldable pub to_lower_case : Text → Text
to_lower_case [] = []
to_lower_case (c ∷ s) = lower_unit c ∷ to_lower_case s

pub to_lower_case_idem : (s : Text) → to_lower_case (to_lower_case s) ≡ to_lower_case s
unfolding to_lower_case
to_lower_case_idem [] = refl
to_lower_case_idem (c ∷ s) = ground (arith, to_lower_case_idem s)

-- `s.indexOf(c)`, with `none` for -1
unfoldable pub index_of : Text → ℕ → Option ℕ
index_of [] c = none
index_of (x ∷ s) c = if nat_beq x c then some 0 else Option.map suc (index_of s c)

-- `s.indexOf(c, from)`
unfoldable pub index_of_from : Text → ℕ → ℕ → Option ℕ
unfolding index_of
index_of_from s c from = Option.map (λ i. from + i) (index_of (drop from s) c)

-- `s.slice(from, to)` and `s.slice(from)`
abbrev pub slice : Text → ℕ → ℕ → Text
slice s from to = take (to - from) (drop from s)

abbrev pub slice_from : Text → ℕ → Text
slice_from s from = drop from s

-- The first separator stands after a prefix that is free of it.
pub index_of-append :
    (s t : Text) (c : ℕ) → All (λ x. x ≢ c) s → index_of (s ++ c ∷ t) c ≡ some (length s)
unfolding index_of
index_of-append [] t c h = ground arith
index_of-append (x ∷ s) t c h = ground (arith, index_of-append s t c h.1)
