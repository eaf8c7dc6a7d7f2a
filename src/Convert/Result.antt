-- ===== src/Convert/Result.antt =====
-- The errors of scripts/convert_sub.py: ConvertError by its exit code, its subclass, and other exceptions.
use mihomo_proxy_management.Prelude.{ℕ, Bool, true, false, ◌≡◌, ◌⊎◌, inl, inr, refl, arith}

pub data Error : Type 0 where
  -- EXIT_EMPTY, EXIT_USAGE, EXIT_BAD_INPUT, EXIT_NETWORK
  empty usage bad_input network : Error
  -- UnsupportedOutbound
  unsupported : Error
  -- an exception of Python's own
  raised : Error

-- EXIT_OK and EXIT_PARTIAL are 0 and 5
unfoldable pub exit_code : Error → ℕ
exit_code empty = 1
exit_code usage = 2
exit_code bad_input = 3
exit_code network = 4
exit_code unsupported = 3
exit_code raised = 3

pub data Result {ℓ} (A : Type ℓ) : Type ℓ where
  ok : A → Result A
  err : Error → Result A

infixl 5 ◌>>=◌
abbrev pub ◌>>=◌ {ℓ κ} : {A : Type ℓ} {B : Type κ} → Result A → (A → Result B) → Result B
ok a >>= f = f a
err e >>= f = err e

abbrev pub is_ok {ℓ} : {A : Type ℓ} → Result A → Bool
is_ok (ok a) = true
is_ok (err e) = false

-- To split on a computed result and keep the equation.
pub Result-cases {ℓ} :
    {A : Type ℓ} (r : Result A) → ((a : A) × (r ≡ ok a)) ⊎ ((e : Error) × (r ≡ err e))
Result-cases (ok a) = inl (a, refl)
Result-cases (err e) = inr (e, refl)

-- What returns in a do block has returned at each of its steps.
pub bind-ok {ℓ κ} :
    {A : Type ℓ} {B : Type κ} (r : Result A) (f : A → Result B) (b : B)
    → (r >>= f) ≡ ok b
    → (a : A) × (r ≡ ok a) × (f a ≡ ok b)
bind-ok (ok a) f b h = (a, refl, h)
bind-ok (err e) f b h = absurd (ground arith)

-- Not an exception other than ConvertError.
abbrev pub is_caught {ℓ} : {A : Type ℓ} → Result A → Bool
is_caught (ok a) = true
is_caught (err raised) = false
is_caught (err _) = true

pub bind-is_caught {ℓ κ} :
    {A : Type ℓ} {B : Type κ} (r : Result A) (f : A → Result B)
    → is_caught r ≡ true
    → ((a : A) → is_caught (f a) ≡ true)
    → is_caught (r >>= f) ≡ true
bind-is_caught (ok a) f h k = k a
bind-is_caught (err raised) f h k = cc
bind-is_caught (err empty) f h k = refl
bind-is_caught (err usage) f h k = refl
bind-is_caught (err bad_input) f h k = refl
bind-is_caught (err network) f h k = refl
bind-is_caught (err unsupported) f h k = refl
