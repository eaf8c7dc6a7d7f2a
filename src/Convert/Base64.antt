-- ===== src/Convert/Base64.antt =====
-- `_b64decode` of scripts/convert_sub.py, on the decoders of Python.
use mihomo_proxy_management.Prelude.{
  ℕ, zero, suc, ◌-◌, ◌%◌, String, none, some, true, false, ◌≡◌, arith, str_eq,
}
use mihomo_proxy_management.Prelude.Text.{append}
use mihomo_proxy_management.Convert.Library.{Library}
use mihomo_proxy_management.Convert.Result.{Result, ok, err, bad_input}
use Prim.Native.String.{count}
use text.Mathlib.TextLemmas.{length-append}

-- "=" * n
unfoldable pub equals_signs : ℕ → String
equals_signs zero = ""
equals_signs (suc n) = append "=" (equals_signs n)

unfoldable pub padded : String → String
padded compact = append compact (equals_signs ((4 - count compact % 4) % 4))

module _ (lib : Library) where
  -- the standard alphabet, then the one of URLs
  unfoldable pub b64decode : String → Result String
  b64decode s = elim (str_eq (lib.compact s) "") [
    | true ↦ err bad_input
    | false ↦ elim (lib.b64_text (padded (lib.compact s))) [
      | some t ↦ ok t
      | none ↦ elim (lib.urlsafe_b64_text (padded (lib.compact s))) [
        | some t ↦ ok t
        | none ↦ err bad_input
      ]
    ]
  ]

pub count-equals_signs : (n : ℕ) → count (equals_signs n) ≡ n
unfolding equals_signs
count-equals_signs zero = omega arith
count-equals_signs (suc n) = omega (arith, length-append "=" (equals_signs n), count-equals_signs n)

pub count-padded : (s : String) → count (padded s) % 4 ≡ 0
unfolding padded
count-padded s = omega (
  arith,
  length-append s (equals_signs ((4 - count s % 4) % 4)),
  count-equals_signs ((4 - count s % 4) % 4),
)
