-- ===== src/Prelude/Strings.antt =====
-- Python's operations on texts: startswith, split, rsplit, partition, `in`, slices.
use Prim.Native.Nat.{ℕ, zero, suc}
use Prim.Native.Char.{Char, code}
use Prim.Native.String.{String, [], ◌∷◌}
use mathlib.Core.Path.{◌≡◌}
use mathlib.Core.Bool.{Bool, true, false}
use mathlib.Core.Option.{Option, none, some}
use mathlib.Core.List.{List, [] as nil, ◌∷◌ as cons}
use native.Mathlib.Omega.{arith}
use text.Mathlib.TextLemmas.{nil-append, cons-append}
use text.Mathlib.TextEquality.{codes_equal}
use mihomo_proxy_management.Prelude.Tests.{◌==◌, if◌then◌else◌, is_some}
use mihomo_proxy_management.Prelude.Text.{append}

-- s[len(p):] where s.startswith(p)
unfoldable pub drop_prefix : String → String → Option String
drop_prefix [] s = some s
drop_prefix (a ∷ p) [] = none
drop_prefix (a ∷ p) (c ∷ s) = let rest = drop_prefix p s in if code a == code c then rest else none

-- what is found here, what is found later on, and the character between
abbrev here_or_later : Char → Option String → Option (String × String) → Option (String × String)
here_or_later c (some rest) later = some ([], rest)
here_or_later c none none = none
here_or_later c none (some (t, rest)) = some (c ∷ t, rest)

abbrev later_or_here : Char → Option (String × String) → Option String → Option (String × String)
later_or_here c (some (t, rest)) found = some (c ∷ t, rest)
later_or_here c none none = none
later_or_here c none (some rest) = some ([], rest)

-- s.split(sep, 1), `none` where `sep` is not in `s`
unfoldable pub cut : String → String → Option (String × String)
cut sep [] = none
cut sep (c ∷ s) = here_or_later c (drop_prefix sep (c ∷ s)) (cut sep s)

-- s.rsplit(sep, 1), `none` where `sep` is not in `s`
unfoldable pub cut_last : String → String → Option (String × String)
cut_last sep [] = none
cut_last sep (c ∷ s) = later_or_here c (cut_last sep s) (drop_prefix sep (c ∷ s))

-- s.split(",")
abbrev onto_first : Char → List String → List String
onto_first c nil = cons (c ∷ []) nil
onto_first c (cons t ts) = cons (c ∷ t) ts

unfoldable pub split_commas : String → List String
split_commas [] = cons "" nil
split_commas (c ∷ s) =
    let rest = split_commas s in if code c == 44 then cons "" rest else onto_first c rest

-- `sep in s`
unfoldable pub occurs : String → String → Bool
occurs sep s = is_some (cut sep s)

drop_prefix-append : (p s rest : String) → drop_prefix p s ≡ some rest → s ≡ append p rest
unfolding drop_prefix
drop_prefix-append [] s rest h = ground (arith, nil-append rest)
drop_prefix-append (a ∷ p) [] rest h = ground arith
drop_prefix-append (a ∷ p) (c ∷ s) rest h =
    ground (arith, cons-append a p rest, codes_equal c a, drop_prefix-append p s rest)

here_or_later-append :
    (sep s : String) (c : Char) (found : Option String) (later : Option (String × String))
    → (a b : String) → ((rest : String) → found ≡ some rest → c ∷ s ≡ append sep rest)
    → ((t rest : String) → later ≡ some (t, rest) → s ≡ append t (append sep rest))
    → here_or_later c found later ≡ some (a, b)
    → c ∷ s ≡ append a (append sep b)
here_or_later-append sep s c (some rest) later a b f l h =
    ground (arith, f rest, nil-append (append sep rest))
here_or_later-append sep s c none none a b f l h = ground arith
here_or_later-append sep s c none (some (t, rest)) a b f l h =
    ground (arith, l t rest, cons-append c t (append sep rest))

later_or_here-append :
    (sep s : String) (c : Char) (later : Option (String × String)) (found : Option String)
    → (a b : String) → ((rest : String) → found ≡ some rest → c ∷ s ≡ append sep rest)
    → ((t rest : String) → later ≡ some (t, rest) → s ≡ append t (append sep rest))
    → later_or_here c later found ≡ some (a, b)
    → c ∷ s ≡ append a (append sep b)
later_or_here-append sep s c none (some rest) a b f l h =
    ground (arith, f rest, nil-append (append sep rest))
later_or_here-append sep s c none none a b f l h = ground arith
later_or_here-append sep s c (some (t, rest)) found a b f l h =
    ground (arith, l t rest, cons-append c t (append sep rest))

-- The parts around the separator are the text.
pub cut-append : (sep s a b : String) → cut sep s ≡ some (a, b) → s ≡ append a (append sep b)
unfolding cut
cut-append sep [] a b h = ground arith
cut-append sep (c ∷ s) a b h =
    here_or_later-append sep s c (drop_prefix sep (c ∷ s)) (cut sep s) a b
      (drop_prefix-append sep (c ∷ s)) (cut-append sep s) h

pub cut_last-append :
    (sep s a b : String) → cut_last sep s ≡ some (a, b) → s ≡ append a (append sep b)
unfolding cut_last
cut_last-append sep [] a b h = ground arith
cut_last-append sep (c ∷ s) a b h =
    later_or_here-append sep s c (cut_last sep s) (drop_prefix sep (c ∷ s)) a b
      (drop_prefix-append sep (c ∷ s)) (cut_last-append sep s) h

-- every character passes a test of its code point
unfoldable pub all_codes : (ℕ → Bool) → String → Bool
all_codes p [] = true
all_codes p (c ∷ s) = let rest = all_codes p s in if p (code c) then rest else false

-- s.lstrip of one character
unfoldable pub lstrip_code : ℕ → String → String
lstrip_code n [] = []
lstrip_code n (c ∷ s) = let rest = lstrip_code n s in if code c == n then rest else c ∷ s

-- s[:-1] and s[-1]
unfoldable pub unsnoc : String → Option (String × ℕ)
unsnoc [] = none
unsnoc (c ∷ s) = elim (unsnoc s) [ none ↦ some ([], code c) | some (t, n) ↦ some (c ∷ t, n) ]

-- s[0] and s[1:]
unfoldable pub uncons : String → Option (ℕ × String)
uncons [] = none
uncons (c ∷ s) = some (code c, s)

-- s[n:]
unfoldable pub drop_chars : ℕ → String → String
drop_chars zero s = s
drop_chars (suc n) [] = []
drop_chars (suc n) (c ∷ s) = drop_chars n s
