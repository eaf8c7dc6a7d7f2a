-- ===== src/Tests/Decisions.antt =====
-- The decision for one group, on a node that answers and on one that is no member.
use mihomo_proxy_management.Prelude.{
  String, none, some, true, false, ◌≡◌, ◌≢◌, refl, contains, ◌≤◌, ap, str_eq, ◌*◌, ◌-◌, ◌/◌, [],
  ◌∷◌,
}
use mihomo_proxy_management.Failover.Region.{gpt, muse, tier_of, tier_us}
use mihomo_proxy_management.Failover.Decide.{alive_round_of, cur_tier}
use mihomo_proxy_management.Failover.Decide.Safety.{
  decide_group_sound, decide_group-keeps_tier, decide_group-muse_us,
}
use mihomo_proxy_management.Prelude.Dict.{get}
use mihomo_proxy_management.Failover.Decide.Tiers.{decide_group-forced}
use mihomo_proxy_management.Failover.Decide.Gates.{IsEarned, decide_group-IsEarned}
use mihomo_proxy_management.Failover.Library.{minute, microseconds}
use mihomo_proxy_management.Failover.Decide.{name_or_empty}
use mihomo_proxy_management.Failover.State.Advance.{no_early_margin_switch}
use mihomo_proxy_management.Tests.Fixtures.{
  before, round, proposed_twice, demo-IsLawful, settled_decisions, demo, members, stats, settled,
  later, params, decided, decisions, inputs,
}

decide_group_sound_example :
    (contains members "US 2" ≡ true)
    × (alive_round_of (get stats "US 2") ≡ true)
    × ¬ (settled.current ≡ some "US 2")
decide_group_sound_example =
    decide_group_sound demo gpt (some "US 1") members stats settled later params "US 2" inputs.0
      inputs.1 decisions.0

decide_group-keeps_tier_example :
    cur_tier demo gpt (some "US 1") members stats settled later params ≤ tier_of demo "US 2"
decide_group-keeps_tier_example =
    decide_group-keeps_tier demo gpt (some "US 1") members stats settled later params "US 2"
      decisions.5 decisions.0

decide_group-muse_us_example : tier_of demo "US 2" ≡ tier_us
decide_group-muse_us_example =
    decide_group-muse_us demo muse (some "US 1") members stats settled later params "US 2" refl
      inputs.2 decisions.2

decide_group-forced_example : (t : String) × ((decided gpt (some "US 9")).target ≡ some t)
decide_group-forced_example =
    decide_group-forced demo gpt (some "US 9") members stats settled later params "SG 1" inputs.3
      inputs.4

decide_group-IsEarned_example :
    IsEarned demo gpt (some "US 1") members stats settled later params "US 2"
decide_group-IsEarned_example =
    decide_group-IsEarned demo gpt (some "US 1") members stats settled later params "US 2"
      decisions.0 decisions.1

no_early_margin_switch_example : 30 * minute ≤ later - 0 / microseconds * microseconds
no_early_margin_switch_example =
    no_early_margin_switch demo before proposed_twice (some "US 1") 0 none (round ∷ round ∷ []) gpt
      (some "US 1") members stats later params "US 2" demo-IsLawful refl refl settled_decisions.0
      settled_decisions.1

other_candidate : settled.cand ≢ some "SG 1"
other_candidate e = let same_name : false ≡ true = ap (λ o. str_eq (name_or_empty o) "SG 1") e in cc
