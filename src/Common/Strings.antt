-- ===== src/Common/Strings.antt =====
-- Go strings as lists of code points: equality, the lexicographic order and `strings.TrimSpace`.
-- Comparing the UTF-8 bytes of two valid texts gives the order of their code points.
use Prim.Native.Nat.{ℕ}
use mathlib.Core.Path.{◌≡◌, refl}
use mathlib.Core.Bool.{Bool, true, false, ◌&&◌, ◌||◌}
use mathlib.Core.List.{List, [], ◌∷◌}
use native.Mathlib.Omega.{arith}
use native.Mathlib.Decide.{ℕ_discrete}
use package.hydra_umc_job_dispatcher.Common.Tests.{ltb, leb, ◌==◌}

abbrev pub Text : Type 0
Text = List ℕ

unfoldable pub text_dec : Discrete Text
text_dec = hlevel ℕ_discrete

-- a == b
abbrev pub eqt : Text → Text → Bool
eqt a b = elim (text_dec a b) [ yes _ ↦ true | no _ ↦ false ]

-- s == ""
abbrev pub is_empty : Text → Bool
is_empty [] = true
is_empty (c ∷ s) = false

-- a < b
unfoldable pub ltt : Text → Text → Bool
ltt a [] = false
ltt [] (d ∷ b) = true
ltt (c ∷ a) (d ∷ b) = ltb c d || (c == d && ltt a b)

-- unicode.IsSpace
unfoldable pub is_space : ℕ → Bool
is_space c =
    (leb 9 c && leb c 13)
    || c == 32
    || c == 0x85
    || c == 0xa0
    || c == 0x1680
    || (leb 0x2000 c && leb c 0x200a)
    || c == 0x2028
    || c == 0x2029
    || c == 0x202f
    || c == 0x205f
    || c == 0x3000

-- strings.TrimSpace(s) == ""
unfoldable pub is_blank : Text → Bool
unfolding is_space
is_blank [] = true
is_blank (c ∷ s) = is_space c && is_blank s

pub is_blank_nil : is_blank [] ≡ true
unfolding is_blank
is_blank_nil = refl

pub ltt_irrefl : (a : Text) → ltt a a ≡ false
unfolding ltt
ltt_irrefl [] = refl
ltt_irrefl (c ∷ a) = ground (arith, ltt_irrefl a)

pub ltt_trans : (a b c : Text) → ltt a b ≡ true → ltt b c ≡ true → ltt a c ≡ true
unfolding ltt
ltt_trans a b [] p q = q
ltt_trans a [] (z ∷ c) p q = ground arith
ltt_trans [] (y ∷ b) (z ∷ c) p q = refl
ltt_trans (x ∷ a) (y ∷ b) (z ∷ c) p q = ground (arith, ltt_trans a b c)

-- Two texts of which neither is before the other are one text.
pub ltt_connex : (a b : Text) → ltt a b ≡ false → ltt b a ≡ false → a ≡ b
unfolding ltt
ltt_connex [] [] p q = refl
ltt_connex [] (y ∷ b) p q = ground arith
ltt_connex (x ∷ a) [] p q = ground arith
ltt_connex (x ∷ a) (y ∷ b) p q = ground (arith, ltt_connex a b)

text_test : eqt (1 ∷ 2 ∷ []) (1 ∷ 2 ∷ []) ≡ true
unfolding text_dec ℕ_discrete
text_test = refl
