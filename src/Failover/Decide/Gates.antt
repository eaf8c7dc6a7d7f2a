-- ===== src/Failover/Decide/Gates.antt =====
-- The thresholds that a voluntary move inside a tier has to pass, and how the parts of an outcome of
-- `decide_group` agree.
use mihomo_proxy_management.Prelude.{
  ℕ, ◌+◌, ◌≤◌, String, List, [], Option, none, some, true, false, ◌≡◌, ◌≢◌, ◌↔◌, inl, inr, refl,
  arith, is_some, Option-cases,
}
use mihomo_proxy_management.Prelude.Dict.{Dict, get, keys_where}
use mihomo_proxy_management.Failover.Library.{Library}
use mihomo_proxy_management.Failover.Region.{Group}
use mihomo_proxy_management.Failover.Samples.{
  SwitchParams, NodeStat, smoothed_of, need_margin_ms, alive_within, pick_best,
}
use mihomo_proxy_management.Failover.Decide.Safety.{margin_target}
use mihomo_proxy_management.Failover.Decide.{
  same, below_margin, dwell_short, GroupState, switch_margin, switch, freeze, next_candidate_state,
  dwell_minutes, history_of, cur_smooth_now, forced_reason, decide_forced, decide_margin,
  decide_same, decide_alive, decide_group,
}

module _ (lib : Library) (group : Group) (current : Option String) (members : List String)
    (node_stats : Dict NodeStat) (gs : GroupState) (now : ℕ) (params : SwitchParams) where
  -- The candidate is faster by the margin, answered in two of its last three rounds, has been the
  -- candidate long enough, and the group has been on its node long enough.
  pub record IsEarned (t : String) : Type 0 where
    pub margin :
        (cur cand : ℕ) × (cur_smooth_now lib group current members node_stats gs now params
          ≡ some cur)
        × (smoothed_of lib t node_stats now ≡ some cand)
        × (need_margin_ms cur params + cand ≤ cur)
    pub stable : alive_within (history_of (get node_stats t)) 3 2 ≡ true
    pub streak : params.switch_streak ≤ (next_candidate_state gs (some t)).1
    pub dwelt :
        (dwell : ℕ) × (dwell_minutes lib gs now ≡ some dwell) × (params.min_dwell_min ≤ dwell)

  margin_known :
      (c b : Option ℕ)
      → below_margin lib group current members node_stats gs now params c b ≡ false
      → (cur cand : ℕ) × (c ≡ some cur) × (b ≡ some cand) × (need_margin_ms cur params + cand ≤ cur)
  margin_known none b h = cc
  margin_known (some c) none h = cc
  margin_known (some c) (some b) h = (c, b, refl, refl, ground arith)

  dwell_known :
      (d : Option ℕ)
      → dwell_short lib group current members node_stats gs now params d ≡ false
      → (dwell : ℕ) × (d ≡ some dwell) × (params.min_dwell_min ≤ dwell)
  dwell_known none h = cc
  dwell_known (some d) h = (d, refl, ground arith)

  margin-IsEarned :
      (t : String)
      → (decide_margin lib group current members node_stats gs now params t).target ≡ some t
      → IsEarned t
  unfolding decide_margin
  margin-IsEarned t h = record {
    margin =
        margin_known (cur_smooth_now lib group current members node_stats gs now params)
          (smoothed_of lib t node_stats now) (ground arith);
    stable = ground arith;
    streak = ground arith;
    dwelt = dwell_known (dwell_minutes lib gs now) (ground arith);
  }

  same-IsEarned :
      (t : String)
      → (decide_same lib group current members node_stats gs now params).target ≡ some t
      → (decide_margin lib group current members node_stats gs now params t).target ≡ some t
  unfolding decide_same
  same-IsEarned t h =
      elim (Option-cases
        (pick_best lib (same lib group current members node_stats gs now params) node_stats now)) [
          | inl e ↦ ground arith
          | inr (best, e) ↦
              ground
                (arith, margin_target lib group current members node_stats gs now params best t)
        ]

  -- A switch with the reason `switch_margin` has passed every threshold.
  pub decide_group-IsEarned :
      (t : String)
      → (decide_group lib group current members node_stats gs now params).target ≡ some t
      → (decide_group lib group current members node_stats gs now params).reason ≡ switch_margin
      → IsEarned t
  unfolding decide_group decide_alive decide_forced forced_reason
  decide_group-IsEarned t h r = margin-IsEarned t (same-IsEarned t (ground arith))

  margin_agrees :
      (best : String)
      → let o = decide_margin lib group current members node_stats gs now params best in
        ((o.decision ≡ switch) ↔ (is_some o.target ≡ true)) × (o.decision ≢ freeze)
  unfolding decide_margin
  margin_agrees best = ground arith

  same_agrees :
      let o = decide_same lib group current members node_stats gs now params in
      ((o.decision ≡ switch) ↔ (is_some o.target ≡ true)) × (o.decision ≢ freeze)
  unfolding decide_same
  same_agrees =
      elim (Option-cases
        (pick_best lib (same lib group current members node_stats gs now params) node_stats now)) [
          | inl e ↦ ground arith
          | inr (best, e) ↦ ground (arith, margin_agrees best)
        ]

  -- The decision is `switch` exactly when there is a target, and `freeze` exactly when no probed
  -- node answered in the round.
  pub decide_group-decision :
      let o = decide_group lib group current members node_stats gs now params in
      ((o.decision ≡ switch) ↔ (is_some o.target ≡ true))
      × ((o.decision ≡ freeze) ↔ (keys_where (λ node. node.alive_round) node_stats ≡ []))
  unfolding decide_group decide_alive decide_forced
  decide_group-decision = ground (arith, same_agrees)
