-- ===== src/Failover/Region.antt =====
-- `region_of` and `tier_of` of scripts/proxy-auto-switch.py, and its constants.
use mihomo_proxy_management.Prelude.{ℕ, ◌^◌, String, Option, none, some, if◌then◌else◌}
use mihomo_proxy_management.Failover.Library.{Library}

pub data Region : Type 0 where
  sg us : Region

-- SWITCH_GROUPS
pub data Group : Type 0 where
  gpt muse us_fast : Group

abbrev pub tier_us : ℕ
tier_us = 3

abbrev pub tier_sg : ℕ
tier_sg = 2

abbrev pub tier_other : ℕ
tier_other = 1

-- MISSING_SMOOTHED
abbrev pub missing_smoothed : ℕ
missing_smoothed = 10 ^ 12

module _ (lib : Library) where
  unfoldable pub region_of : String → Option Region
  region_of name =
      if lib.search_sg name then some sg else if lib.search_us name then some us else none

  unfoldable pub tier_of : String → ℕ
  unfolding region_of
  tier_of name = elim (region_of name) [
    | none ↦ tier_other
    | some r ↦ elim r [ us ↦ tier_us | sg ↦ tier_sg ]
  ]
