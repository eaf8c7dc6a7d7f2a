-- ===== src/Failover/Decide.antt =====
-- `decide_group` of scripts/proxy-auto-switch.py with `dwell_minutes` and `next_candidate_state`.
pub mod Safety
pub mod Tiers
pub mod Gates
use mihomo_proxy_management.Prelude.{
  ℕ, suc, ◌+◌, ◌-◌, ◌*◌, ◌/◌, max, String, List, [], ◌∷◌, Option, none, some, Bool, true, false,
  not, ◌&&◌, ◌||◌, ltb, leb, ◌==◌, str_eq, is_some, contains, filter, if◌then◌else◌,
}
use mihomo_proxy_management.Prelude.Dict.{Dict, get, keys_where}
use mihomo_proxy_management.Json.{Value, text}
use mihomo_proxy_management.Failover.Library.{Library, microseconds}
use mihomo_proxy_management.Failover.Region.{Group, gpt, muse, us_fast, tier_us, tier_of}
use mihomo_proxy_management.Failover.Coerce.{parse_ts}
use mihomo_proxy_management.Failover.Samples.{
  SwitchParams, NodeStat, smoothed_of, pick_best, alive_within, consecutive_alive, need_margin_ms,
}

-- The state of one group, as `migrate_state` types it.
pub record GroupState : Type 0 where
  pub current : Option String
  pub since : String
  pub cand : Option String
  pub cand_streak : ℕ
  pub last_switch_ts : Option String
  pub last_switch_reason : Option String
  pub switch_ts_24h : List String

pub data Reason : Type 0 where
  hold_probe_suspect hold_muse_frozen hold_no_alive_member hold_cand_unstable hold_ok : Reason
  hold_margin hold_streak hold_dwell : Reason
  switch_downgrade switch_upgrade switch_missing switch_dead switch_margin : Reason

pub data Decision : Type 0 where
  hold freeze switch : Decision

-- The dict `details`, which ends as a round record.
pub record Details : Type 0 where
  pub cur_ms : Option ℕ
  pub cur_smooth : Option ℕ
  pub dwell_min : Option ℕ
  pub best : Option String
  pub best_ms : Option ℕ
  pub best_smooth : Option ℕ
  pub need_margin : Option ℕ
  pub cand : Option String
  pub cand_streak : ℕ
  pub muse_frozen_dead : Bool

pub record Outcome : Type 0 where
  pub target : Option String
  pub reason : Reason
  pub decision : Decision
  pub details : Details

abbrev pub is_muse : Group → Bool
is_muse muse = true
is_muse _ = false

-- `name` of a group's `now`: None and "" are both false.
abbrev pub name_or_empty : Option String → String
name_or_empty none = ""
name_or_empty (some n) = n

abbrev pub delay_of : Option NodeStat → Option ℕ
delay_of none = none
delay_of (some node) = node.delay

abbrev pub alive_round_of : Option NodeStat → Bool
alive_round_of none = false
alive_round_of (some node) = node.alive_round

abbrev pub history_of : Option NodeStat → Dict Value
history_of none = []
history_of (some node) = node.history

abbrev same_name : Option String → String → Bool
same_name none n = false
same_name (some m) n = str_eq m n

unfoldable pub next_candidate_state : GroupState → Option String → Option String × ℕ
next_candidate_state gs none = (none, 0)
next_candidate_state gs (some proposed) =
    if same_name gs.cand proposed then (some proposed, gs.cand_streak + 1) else (some proposed, 1)

abbrev minutes_since : ℕ → Option ℕ → Option ℕ
minutes_since now none = none
minutes_since now (some since) = some ((now - since) / (60 * microseconds))

module _ (lib : Library) where
  unfoldable pub dwell_minutes : GroupState → ℕ → Option ℕ
  dwell_minutes gs now = minutes_since now (parse_ts lib (text gs.since))

  -- max(tier_of(n) for n in names)
  unfoldable pub top_tier : List String → ℕ
  top_tier [] = 0
  top_tier (n ∷ ns) = max (tier_of lib n) (top_tier ns)

  unfoldable pub of_tier : ℕ → List String → List String
  of_tier t names = filter (λ n. tier_of lib n == t) names

module _ (lib : Library) (group : Group) (current : Option String) (members : List String)
    (node_stats : Dict NodeStat) (gs : GroupState) (now : ℕ) (params : SwitchParams) where
  abbrev name : String
  name = name_or_empty current

  abbrev pub alive_all : List String
  alive_all = keys_where (λ node. node.alive_round) node_stats

  abbrev pub alive : List String
  alive = filter (contains members) alive_all

  abbrev pub cur_valid : Bool
  cur_valid = not (str_eq name "") && contains members name

  abbrev pub cur_alive : Bool
  cur_alive = cur_valid && alive_round_of (get node_stats name)

  abbrev pub cur_tier : ℕ
  cur_tier = if cur_valid then tier_of lib name else 0

  abbrev pub cur_smooth_now : Option ℕ
  cur_smooth_now = if str_eq name "" then none else smoothed_of lib name node_stats now

  abbrev base : Details
  base =
      let ms = if str_eq name "" then none else delay_of (get node_stats name) in
      record {
        cur_ms = ms;
        cur_smooth = cur_smooth_now;
        dwell_min = dwell_minutes lib gs now;
        best = none;
        best_ms = ms;
        best_smooth = cur_smooth_now;
        need_margin = none;
        cand = none;
        cand_streak = 0;
        muse_frozen_dead = false;
      }

  abbrev hold_for : Details → Reason → Outcome
  hold_for det reason = record { target = none; reason = reason; decision = hold; details = det }

  abbrev go : Details → String → Reason → Outcome
  go det target reason = record {
    target = some target;
    reason = reason;
    decision = switch;
    details = det;
  }

  abbrev note : Details → String → Details
  note det target = record det {
    best = some target;
    best_ms = delay_of (get node_stats target);
    best_smooth = smoothed_of lib target node_stats now;
  }

  -- the reason of a forced switch to a node
  unfoldable pub forced_reason : String → Reason
  forced_reason target =
      if cur_valid && ltb (tier_of lib target) cur_tier
      then switch_downgrade
      else if cur_valid && ltb cur_tier (tier_of lib target)
      then switch_upgrade
      else if cur_valid
      then switch_dead
      else switch_missing

  unfoldable pub forced_pool : List String
  forced_pool = if cur_valid && is_muse group then of_tier lib tier_us alive else alive

  -- `if not cur_alive`: the pool is not empty where `pick_best` returns a node
  unfoldable pub decide_forced : Outcome
  decide_forced =
      elim (pick_best lib (of_tier lib (top_tier lib forced_pool) forced_pool) node_stats now) [
        | some target ↦ go (note base target) target (forced_reason target)
        | none ↦
            if cur_valid && is_muse group
            then hold_for (record base { muse_frozen_dead = true }) hold_muse_frozen
            else hold_for base hold_no_alive_member
      ]

  unfoldable pub higher : List String
  higher =
      filter
        (λ n. ltb cur_tier (tier_of lib n) && (not (is_muse group) || tier_of lib n == tier_us))
        alive

  -- `same.add(current)`
  unfoldable pub same : List String
  same =
      let peers = of_tier lib cur_tier alive in if contains peers name then peers else name ∷ peers

  -- the margin: `cur_smooth - cand_smooth < need`
  abbrev pub below_margin : Option ℕ → Option ℕ → Bool
  below_margin none _ = true
  below_margin (some c) none = true
  below_margin (some c) (some b) = ltb c (need_margin_ms c params + b)

  abbrev need_of : Option ℕ → Option ℕ
  need_of none = none
  need_of (some c) = some (need_margin_ms c params)

  abbrev dwell_short : Option ℕ → Bool
  dwell_short none = true
  dwell_short (some d) = ltb d params.min_dwell_min

  -- from `cand_smooth = …` on: `best` is a peer other than the current node
  unfoldable pub decide_margin : String → Outcome
  decide_margin best =
      let noted = record (note base best) { need_margin = need_of cur_smooth_now } in
      let (cand, streak) = next_candidate_state gs (some best) in
      let det = record noted { cand = cand; cand_streak = streak } in
      if below_margin cur_smooth_now (smoothed_of lib best node_stats now)
      then hold_for noted hold_margin
      else if not (alive_within (history_of (get node_stats best)) 3 2)
      then hold_for det hold_cand_unstable
      else if ltb streak params.switch_streak
      then hold_for det hold_streak
      else if dwell_short (dwell_minutes lib gs now)
      then hold_for det hold_dwell
      else go det best switch_margin

  unfoldable pub decide_same : Outcome
  decide_same = elim (pick_best lib same node_stats now) [
    | none ↦ hold_for base hold_ok
    | some best ↦
        if str_eq best name
        then hold_for (note base best) hold_ok
        else if is_muse group && not (cur_tier == tier_us)
        then hold_for (note base best) hold_muse_frozen
        else decide_margin best
  ]

  unfoldable pub decide_alive : Outcome
  decide_alive = elim (pick_best lib (of_tier lib (top_tier lib higher) higher) node_stats now) [
    | none ↦ decide_same
    | some target ↦
        if consecutive_alive (history_of (get node_stats target)) 2
        then go (note base target) target switch_upgrade
        else hold_for (note base target) hold_cand_unstable
  ]

  unfoldable pub decide_group : Outcome
  decide_group = elim alive_all [
    | [] ↦ record { target = none; reason = hold_probe_suspect; decision = freeze; details = base }
    | _ ↦ if cur_alive then decide_alive else decide_forced
  ]
