-- ===== src/Failover/Round/Payload.antt =====
-- The state that a run of scripts/proxy-auto-switch.py saves, and its JSON object.
use mihomo_proxy_management.Prelude.{ℕ, String, [], ◌∷◌, Option, none, some}
use mihomo_proxy_management.Prelude.Dict.{Dict}
use mihomo_proxy_management.Json.{pos, Value, int, text, object, of_dict}
use mihomo_proxy_management.Failover.Region.{Group, gpt, muse, us_fast}
use mihomo_proxy_management.Failover.Decide.{
  GroupState, Reason, hold_probe_suspect, hold_muse_frozen, hold_no_alive_member,
  hold_cand_unstable, hold_ok, hold_margin, hold_streak, hold_dwell, switch_downgrade,
  switch_upgrade, switch_missing, switch_dead, switch_margin,
}
use mihomo_proxy_management.Failover.State.{opt_text, texts}
use mihomo_proxy_management.Failover.Plan.{Mode}
use mihomo_proxy_management.Failover.Round.Alert.{mode_text}

abbrev pub reason_text : Reason → String
reason_text hold_probe_suspect = "hold_probe_suspect"
reason_text hold_muse_frozen = "hold_muse_frozen"
reason_text hold_no_alive_member = "hold_no_alive_member"
reason_text hold_cand_unstable = "hold_cand_unstable"
reason_text hold_ok = "hold_ok"
reason_text hold_margin = "hold_margin"
reason_text hold_streak = "hold_streak"
reason_text hold_dwell = "hold_dwell"
reason_text switch_downgrade = "switch_downgrade"
reason_text switch_upgrade = "switch_upgrade"
reason_text switch_missing = "switch_missing"
reason_text switch_dead = "switch_dead"
reason_text switch_margin = "switch_margin"

-- what shadow and hysteresis save beside the rest
pub record History : Type 0 where
  pub round_ts : String
  pub all_dead_streak : ℕ
  pub groups : Group → GroupState
  pub nodes : Dict (Dict Value)

pub record Saved : Type 0 where
  pub mode : Mode
  pub selected : Group → Option String
  pub planned : Group → Option String
  pub alive_us : ℕ
  pub alive_sg : ℕ
  pub alive_any : ℕ
  pub alerted_mode : Value
  pub updated : String
  pub history : Option History

abbrev number : ℕ → Value
number n = int (pos n)

unfoldable pub group_object : GroupState → Value
group_object gs = object (
    of_dict (
      ("current", opt_text gs.current)
      ∷ ("since", text gs.since)
      ∷ ("cand", opt_text gs.cand)
      ∷ ("cand_streak", number gs.cand_streak)
      ∷ ("last_switch_ts", opt_text gs.last_switch_ts)
      ∷ ("last_switch_reason", opt_text gs.last_switch_reason)
      ∷ ("switch_ts_24h", texts gs.switch_ts_24h)
      ∷ []))

unfoldable pub by_groups : (Group → Value) → Value
by_groups f = object (of_dict (("GPT", f gpt) ∷ ("MUSE", f muse) ∷ ("US-FAST", f us_fast) ∷ []))

unfoldable pub node_objects : Dict (Dict Value) → Dict Value
node_objects [] = []
node_objects ((n, node) ∷ nodes) = (n, object (of_dict node)) ∷ node_objects nodes

unfoldable pub history_entries : Option History → Dict Value
history_entries none = []
history_entries (some h) =
    ("version", number 2)
    ∷ ("round_ts", text h.round_ts)
    ∷ ("all_dead_streak", number h.all_dead_streak)
    ∷ ("groups", by_groups (λ g. group_object (h.groups g)))
    ∷ ("nodes", object (of_dict (node_objects h.nodes)))
    ∷ []

-- The dict `state`; its key "decisions", which nothing reads, is left out.
unfoldable pub payload : Saved → Dict Value
payload s =
    ("mode", text (mode_text s.mode))
    ∷ ("selected", by_groups (λ g. opt_text (s.selected g)))
    ∷ ("planned", by_groups (λ g. opt_text (s.planned g)))
    ∷ ("alive_us", number s.alive_us)
    ∷ ("alive_sg", number s.alive_sg)
    ∷ ("alive_any", number s.alive_any)
    ∷ ("alerted_mode", s.alerted_mode)
    ∷ ("updated", text s.updated)
    ∷ history_entries s.history
