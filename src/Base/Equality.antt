-- ===== src/Base/Equality.antt =====
-- Boolean equality as an interface, and its instances for numbers and for texts.
use Prim.Native.Nat.{ℕ}
use Prim.Native.Char.{code}
use Prim.Native.String.{String}
use mathlib.Core.Path.{◌≡◌, refl}
use mathlib.Core.Logic.{◌↔◌}
use mathlib.Core.Bool.{Bool, true, false, ◌&&◌}
use mathlib.Core.List.{List, [], ◌∷◌}
use native.Mathlib.Omega.{arith}
use nostr_js.Base.Tests.{nat_beq, nat_beq_iff}

-- A JavaScript string, as the list of its UTF-16 code units.
abbrev pub Text : Type 0
Text = List ℕ

unfoldable pub text_beq : Text → Text → Bool
text_beq [] [] = true
text_beq [] (_ ∷ _) = false
text_beq (_ ∷ _) [] = false
text_beq (a ∷ s) (b ∷ t) = nat_beq a b && text_beq s t

text_beq→eq : (s t : Text) → text_beq s t ≡ true → s ≡ t
unfolding text_beq
text_beq→eq [] [] h = refl
text_beq→eq [] (b ∷ t) h = cc
text_beq→eq (a ∷ s) [] h = cc
text_beq→eq (a ∷ s) (b ∷ t) h = ground (arith, text_beq→eq s t)

text_beq_self : (s : Text) → text_beq s s ≡ true
unfolding text_beq
text_beq_self [] = refl
text_beq_self (a ∷ s) = ground (arith, text_beq_self s)

pub text_beq_iff : (s t : Text) → (text_beq s t ≡ true) ↔ (s ≡ t)
text_beq_iff s t = (text_beq→eq s t, λ e. rw e (text_beq_self t))

-- The comparison `===` of a type, decided.
pub record Eq {κ} (K : Type κ) : Type κ where
  pub same : K → K → Bool
  pub same_is_equal : (x y : K) → (same x y ≡ true) ↔ (x ≡ y)

instance abbrev pub text_eq : Eq Text
text_eq = record { same = text_beq; same_is_equal = text_beq_iff }

instance abbrev pub nat_eq : Eq ℕ
nat_eq = record { same = nat_beq; same_is_equal = nat_beq_iff }

abbrev pub ◌==◌ {κ} : {K : Type κ} ⦃c : Eq K⦄ → K → K → Bool

infix 50 ◌==◌
◌==◌ ⦃c⦄ x y = c.same x y

-- One equation, in the form that the tactics take at each pair.
pub eq_iff {κ} : {K : Type κ} ⦃c : Eq K⦄ (x y : K) → ((x == y) ≡ true) ↔ (x ≡ y)
eq_iff ⦃c⦄ x y = c.same_is_equal x y

pub eq_self {κ} : {K : Type κ} ⦃c : Eq K⦄ (x : K) → (x == x) ≡ true
eq_self x = (eq_iff x x).1 refl

-- A literal of the source.
abbrev pub text : String → Text
text String.[] = []
text (String.◌∷◌ c s) = code c ∷ text s
