-- ===== src/Failover/Nodes.antt =====
-- `update_nodes` and `build_node_stats` of scripts/proxy-auto-switch.py: the sample history of the
-- nodes, and what a round adds to it.
pub mod Laws
pub mod Update
pub mod Stats
use mihomo_proxy_management.Prelude.{
  ℕ, zero, suc, ◌+◌, String, List, [], ◌∷◌, ◌++◌, Option, none, some, Bool, true, false, not, ◌&&◌,
  ◌||◌, ◌>>=◌, str_eq, leb, take_last, is_some, if◌then◌else◌,
}
use mihomo_proxy_management.Prelude.Dict.{Dict, get, put, keys}
use mihomo_proxy_management.Json.{
  pos, Value, null, int, text, list, object, Items, cons, nil, at, to_dict, of_list,
}
use mihomo_proxy_management.Failover.Library.{Library, hours}
use mihomo_proxy_management.Failover.Coerce.{parse_ts}
use mihomo_proxy_management.Failover.Samples.{NodeStat, node_samples}
use mihomo_proxy_management.Failover.State.{count_of, only_dicts}

-- SAMPLE_KEEP, NODE_PRUNE_AGE_H
abbrev pub sample_keep : ℕ
sample_keep = 6

abbrev pub node_prune_age_h : ℕ
node_prune_age_h = 24

-- `ms if _is_ms(ms) else None`
abbrev pub valid_ms : Option ℕ → Option ℕ
valid_ms none = none
valid_ms (some zero) = none
valid_ms (some (suc n)) = some (suc n)

abbrev pub ms_value : Option ℕ → Value
ms_value none = null
ms_value (some n) = int (pos n)

abbrev sample_value : Value × Value → Value
sample_value (ts, ms) = list (cons ts (cons ms nil))

unfoldable pub sample_values : List (Value × Value) → List Value
sample_values [] = []
sample_values (s ∷ ss) = sample_value s ∷ sample_values ss

abbrev is_text : String → Value → Bool
is_text t (text s) = str_eq s t
is_text t _ = false

-- [s for s in samples if s[0] != round_ts]
unfoldable pub other_rounds : String → List (Value × Value) → List (Value × Value)
other_rounds round_ts [] = []
other_rounds round_ts ((ts, ms) ∷ ss) =
    let rest = other_rounds round_ts ss in if is_text round_ts ts then rest else (ts, ms) ∷ rest

abbrev pub dict_or_empty : Option (Dict Value) → Dict Value
dict_or_empty none = []
dict_or_empty (some d) = d

-- The samples that a node has after the round.
unfoldable pub next_samples : Dict Value → Option ℕ → String → List (Value × Value)
next_samples node ms round_ts =
    take_last sample_keep
      (other_rounds round_ts (node_samples node) ++ (text round_ts, ms_value (valid_ms ms)) ∷ [])

abbrev last_ts : List (Value × Value) → Value
last_ts [] = null
last_ts ((ts, ms) ∷ []) = ts
last_ts (s ∷ t ∷ ss) = last_ts (t ∷ ss)

module _ (lib : Library) where
  -- the body of the loop over `delays`; `none` is the OverflowError of `as_int`
  unfoldable pub update_node : Dict Value → Option ℕ → String → Option (Dict Value)
  update_node node ms round_ts =
      let sampled =
        put node "samples" (list (of_list (sample_values (next_samples node ms round_ts)))) in
      elim (valid_ms ms) [
        | some n ↦ some (put (put sampled "fail_streak" (int (pos 0))) "last_ok_ts" (text round_ts))
        | none ↦ do
          fails ← count_of lib (at sampled "fail_streak")
          some (put sampled "fail_streak" (int (pos (fails + 1))))
      ]

  unfoldable pub update_probed :
      Dict (Dict Value) → Dict (Option ℕ) → String → Option (Dict (Dict Value))
  update_probed out [] round_ts = some out
  update_probed out ((name, ms) ∷ delays) round_ts = do
    node ← update_node (dict_or_empty (get out name)) ms round_ts
    update_probed (put out name node) delays round_ts

  abbrev is_seen : ℕ → Option ℕ → Bool
  is_seen now none = false
  is_seen now (some when) = leb now (when + hours node_prune_age_h)

  -- `samples[-1][0]` parses, and is at most 24 hours old
  unfoldable pub is_kept : Dict Value → ℕ → Bool
  is_kept node now = is_seen now (parse_ts lib (last_ts (node_samples node)))

  unfoldable pub prune : Dict (Dict Value) → ℕ → Dict (Dict Value)
  prune [] now = []
  prune ((name, node) ∷ out) now =
      let rest = prune out now in if is_kept node now then (name, node) ∷ rest else rest

  unfoldable pub update_nodes :
      Dict Value → Dict (Option ℕ) → String → ℕ → Option (Dict (Dict Value))
  update_nodes nodes delays round_ts now = do
    out ← update_probed (only_dicts nodes) delays round_ts
    some (prune out now)

abbrev pub delay_at : Option (Option ℕ) → Option ℕ
delay_at none = none
delay_at (some ms) = valid_ms ms

unfoldable pub node_stat : Dict (Dict Value) → Dict (Option ℕ) → String → NodeStat
node_stat nodes delays name =
    let ms = delay_at (get delays name) in
    record { history = dict_or_empty (get nodes name); delay = ms; alive_round = is_some ms }

unfoldable pub stats_of : Dict (Dict Value) → Dict (Option ℕ) → List String → Dict NodeStat
stats_of nodes delays [] = []
stats_of nodes delays (n ∷ ns) = put (stats_of nodes delays ns) n (node_stat nodes delays n)

-- over the set of both dicts' keys
unfoldable pub build_node_stats : Dict (Dict Value) → Dict (Option ℕ) → Dict NodeStat
build_node_stats nodes delays = stats_of nodes delays (keys nodes ++ keys delays)
