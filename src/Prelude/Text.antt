-- ===== src/Prelude/Text.antt =====
-- The order of Python's `str`: by code points, a prefix first. It is total.
use Prim.Native.Nat.{Ordering}
use Prim.Native.Char.{Char, code}
use Prim.Native.String.{String, [], ◌∷◌, ◌++◌, compare}
use Prim.Native.String.compare
use mathlib.Core.Path.{◌≡◌, refl, ap₂}
use mathlib.Core.Bool.{Bool, true, false}
use native.Mathlib.Omega.{arith}
use text.Mathlib.TextEquality.{codes_equal}
use mihomo_proxy_management.Prelude.Tests.{ltb, ◌==◌, if◌then◌else◌}

-- `a <= b`
unfoldable pub str_le : String → String → Bool
str_le a b = elim (compare a b) [ Ordering.gt ↦ false | _ ↦ true ]

str_le-nil : (t : String) → str_le [] t ≡ true
unfolding str_le
str_le-nil [] = refl
str_le-nil (d ∷ t) = rw (compare.nil-cons d t, str_le)

str_le-cons-nil : (c : Char) (s : String) → str_le (c ∷ s) [] ≡ false
unfolding str_le
str_le-cons-nil c s = rw (compare.cons-nil c s, str_le)

str_le-cons :
    (c d : Char) (s t : String)
    → str_le (c ∷ s) (d ∷ t)
      ≡ (if ltb (code c) (code d) then true else if code c == code d then str_le s t else false)
unfolding str_le
str_le-cons c d s t = rw (compare.cons-cons c d s t, str_le) (ground arith)

pub str_le_refl : (a : String) → str_le a a ≡ true
str_le_refl [] = str_le-nil []
str_le_refl (c ∷ s) = rw (str_le-cons c c s s) (ground (arith, str_le_refl s))

pub str_le_total : (a b : String) → str_le a b ≡ false → str_le b a ≡ true
str_le_total [] b h = ground (arith, str_le-nil b)
str_le_total (c ∷ s) [] h = str_le-nil (c ∷ s)
str_le_total (c ∷ s) (d ∷ t) h =
    ground (arith, str_le-cons c d s t, str_le-cons d c t s, str_le_total s t)

pub str_le_trans : (a b c : String) → str_le a b ≡ true → str_le b c ≡ true → str_le a c ≡ true
str_le_trans [] b c h k = str_le-nil c
str_le_trans (x ∷ a) [] c h k = ground (arith, str_le-cons-nil x a)
str_le_trans (x ∷ a) (y ∷ b) [] h k = ground (arith, str_le-cons-nil y b)
str_le_trans (x ∷ a) (y ∷ b) (z ∷ c) h k =
    ground
      (arith, str_le-cons x y a b, str_le-cons y z b c, str_le-cons x z a c, str_le_trans a b c)

pub str_le_antisymm : (a b : String) → str_le a b ≡ true → str_le b a ≡ true → a ≡ b
str_le_antisymm [] [] h k = refl
str_le_antisymm [] (d ∷ t) h k = ground (arith, str_le-cons-nil d t)
str_le_antisymm (c ∷ s) [] h k = ground (arith, str_le-cons-nil c s)
str_le_antisymm (c ∷ s) (d ∷ t) h k =
    ap₂ ◌∷◌ (codes_equal c d (ground (arith, str_le-cons c d s t, str_le-cons d c t s))) (
      str_le_antisymm s t (ground (arith, str_le-cons c d s t, str_le-cons d c t s))
        (ground (arith, str_le-cons c d s t, str_le-cons d c t s)))

-- `a + b`; a text has its own `++`
abbrev pub append : String → String → String
append s t = s ++ t
