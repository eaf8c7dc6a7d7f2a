-- ===== src/Failover/Library.antt =====
-- What scripts/proxy-auto-switch.py takes from Python's `re`, `datetime`, `str` and `int`.
-- A naive datetime is a number of microseconds since 0001-01-01.
use mihomo_proxy_management.Prelude.{ℕ, ◌*◌, String, Bool, Option}
use mihomo_proxy_management.Json.{ℤ}

-- `datetime.fromisoformat`: a naive time, or an aware one with what `astimezone().replace(tzinfo=None)`
-- makes of it (`none` where that raises).
pub data Moment : Type 0 where
  naive : ℕ → Moment
  aware : Option ℕ → Moment

pub record Library : Type 0 where
  -- SG_PATTERN.search(name), US_PATTERN.search(name)
  pub search_sg : String → Bool
  pub search_us : String → Bool
  pub strip : String → String
  -- `none` is a ValueError
  pub fromisoformat : String → Option Moment
  pub isoformat : ℕ → String
  pub int_of : String → Option ℤ

abbrev pub microseconds : ℕ
microseconds = 1000000

-- 60 seconds
abbrev pub minute : ℕ
minute = 60 * microseconds

abbrev pub hours : ℕ → ℕ
hours h = h * 3600 * microseconds
