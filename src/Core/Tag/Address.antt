-- ===== src/Core/Tag/Address.antt =====
-- Coordinates of src/core/tag.ts: what `formatEventAddress` writes, `parseEventAddress` reads.
use nostr_js.Base.{
  ◌≡◌, refl, ◌≢◌, true, false, some, [], ◌∷◌, ◌++◌, ℕ, suc, ◌+◌, ◌-◌, ◌≤◌, ◌<◌, arith, nat_beq,
  length, take, drop, Text, take-append, drop-add, All, ap, ◌∙◌, le→leb,
}
use nostr_js.Runtime.Str.{
  to_lower_case, to_lower_case_idem, index_of, index_of_from, index_of-append, slice, slice_from,
}
use nostr_js.Runtime.Str.Decimal.{
  IsDigit, number, to_text, number-to_text, to_text-All-digits, all-digits, to_text-pos,
  length-to_text-le_five,
}
use nostr_js.Core.Hex.{is_hex32, All-hex}
use nostr_js.Core.Tag.{is_kind_text, parse_event_address, format_event_address}

no_colon : (s : Text) → All IsDigit s → All (λ c. c ≢ b':') s
no_colon [] h = tt
no_colon (c ∷ s) h = (omega arith, no_colon s h.1)

drop_past : (s t : Text) (c : ℕ) → drop (suc (length s)) (s ++ c ∷ t) ≡ t
drop_past [] t c = refl
drop_past (x ∷ s) t c = drop_past s t c

-- the three parts of a coordinate
module _ (k p d : Text) where
  whole : Text
  whole = k ++ (b':' ∷ (p ++ (b':' ∷ d)))

  second_colon :
      All (λ c. c ≢ b':') p
      → index_of_from whole b':' (suc (length k)) ≡ some (suc (length k) + length p)
  unfolding whole index_of_from
  second_colon h = rw (drop_past k _ b':', index_of-append p d b':' h)

  middle : slice whole (suc (length k)) (suc (length k) + length p) ≡ p
  unfolding whole
  middle =
      ap (λ (n : ℕ). take n (drop (suc (length k)) whole))
        {x = suc (length k) + length p - suc (length k)} {y = length p} (omega arith)
      ∙ ap (take (length p)) (drop_past k _ b':')
      ∙ take-append p _

  last : slice_from whole (suc (suc (length k) + length p)) ≡ d
  unfolding whole
  last =
      ap (λ (n : ℕ). drop n whole) {x = suc (suc (length k) + length p)}
        {y = suc (length k) + suc (length p)} (omega arith)
      ∙ drop-add (suc (length k)) (suc (length p)) whole
      ∙ ap (drop (suc (length p))) (drop_past k _ b':')
      ∙ drop_past p d b':'

  first_colon : All (λ c. c ≢ b':') k → index_of whole b':' ≡ some (length k)
  unfolding whole
  first_colon h = index_of-append k _ b':' h

  start : slice whole 0 (length k) ≡ k
  unfolding whole
  start =
      ap (λ (n : ℕ). take n whole) {x = length k - 0} {y = length k} (omega arith) ∙ take-append k _

kind_text_ok : (k : Text) → All IsDigit k → 0 < length k → length k ≤ 5 → is_kind_text k ≡ true
kind_text_ok k hd pos short = ground (arith, all-digits k hd)

parse_whole :
    (k p d : Text)
    → All IsDigit k
    → 0 < length k
    → length k ≤ 5
    → number k ≤ 65535
    → is_hex32 p ≡ true
    → to_lower_case p ≡ p
    → All (λ c. c ≢ b':') p
    → parse_event_address (whole k p d)
      ≡ some (record { kind = number k; pubkey = p; identifier = d })
unfolding parse_event_address
parse_whole k p d hd pos short small hex low colonless =
    let positive : nat_beq (length k) 0 ≡ false = ground arith in
    rw (first_colon k p d (no_colon k hd), positive, second_colon k p d colonless, start k p d)
      (rw (kind_text_ok k hd pos short, le→leb _ _ small, middle k p d, low, hex, last k p d) refl)

-- The coordinate that `formatEventAddress` writes for a kind up to 65535 and a 64-digit hex public
-- key, in either case and with any identifier (colons included), is read back by
-- `parseEventAddress` as that kind, the key in lower case, and that identifier.
pub parse_event_address-format_event_address :
    (kind : ℕ) (pubkey identifier : Text)
    → kind ≤ 65535
    → is_hex32 (to_lower_case pubkey) ≡ true
    → parse_event_address (format_event_address kind pubkey identifier)
      ≡ some (record { kind = kind; pubkey = to_lower_case pubkey; identifier = identifier })
unfolding format_event_address whole is_hex32
parse_event_address-format_event_address kind pubkey identifier small hex =
    parse_whole (to_text kind) (to_lower_case pubkey) identifier (to_text-All-digits kind)
      (to_text-pos kind) (length-to_text-le_five kind (omega arith)) (rw number-to_text small) hex
      (to_lower_case_idem pubkey) (All-hex (to_lower_case pubkey) (ground arith))
    ∙ ap
        (λ (n : ℕ).
          some (record { kind = n; pubkey = to_lower_case pubkey; identifier = identifier }))
        (number-to_text kind)
