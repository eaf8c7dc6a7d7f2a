-- ===== src/Failover/Samples.antt =====
-- The sample history of a node and what is computed from it: `node_samples` to `need_margin_ms` and
-- `pick_fastest` of scripts/proxy-auto-switch.py.
use mihomo_proxy_management.Prelude.{
  ℕ, zero, suc, ◌+◌, ◌-◌, ◌*◌, ◌/◌, ◌%◌, max, String, List, [], ◌∷◌, Option, none, some, Bool, true,
  false, ◌&&◌, ltb, leb, ◌==◌, is_some, length, take_last, all, if◌then◌else◌,
}
use mihomo_proxy_management.Prelude.Dict.{Dict, get}
use mihomo_proxy_management.Prelude.Text.{str_le}
use mihomo_proxy_management.Prelude.Sort.{sort, first}
use mihomo_proxy_management.Json
use mihomo_proxy_management.Json.{pos, Value, int, list, Items, cons, nil, at, to_list}
use mihomo_proxy_management.Failover.Library.{Library, hours}
use mihomo_proxy_management.Failover.Region.{missing_smoothed}
use mihomo_proxy_management.Failover.Coerce.{parse_ts}

-- SAMPLE_SMOOTH_MAX, SAMPLE_MAX_AGE_H
abbrev pub sample_smooth_max : ℕ
sample_smooth_max = 5

abbrev pub sample_max_age_h : ℕ
sample_max_age_h = 6

pub record SwitchParams : Type 0 where
  pub switch_margin_ms : ℕ
  pub switch_margin_pct : ℕ
  pub switch_streak : ℕ
  pub min_dwell_min : ℕ
  pub retry_current : ℕ

-- An entry of `build_node_stats`: the stored node, with the keys `delay` and `alive_round` set anew.
pub record NodeStat : Type 0 where
  pub history : Dict Value
  pub delay : Option ℕ
  pub alive_round : Bool

-- `_is_ms`, with the number; `True` is the integer 1
unfoldable pub ms_of : Value → Option ℕ
ms_of (int (pos (suc n))) = some (suc n)
ms_of Json.true = some 1
ms_of _ = none

abbrev is_ms : Value → Bool
is_ms v = is_some (ms_of v)

-- the items that are lists of length 2
unfoldable pub sample_pairs : List Value → List (Value × Value)
sample_pairs [] = []
sample_pairs (list (cons ts (cons ms nil)) ∷ vs) = (ts, ms) ∷ sample_pairs vs
sample_pairs (_ ∷ vs) = sample_pairs vs

abbrev samples_in : Value → List (Value × Value)
samples_in (list vs) = sample_pairs (to_list vs)
samples_in _ = []

unfoldable pub node_samples : Dict Value → List (Value × Value)
node_samples node = samples_in (at node "samples")

-- `statistics.median` of integers, through `int`
elem_or_zero : List ℕ → ℕ → ℕ
elem_or_zero [] i = 0
elem_or_zero (x ∷ xs) zero = x
elem_or_zero (x ∷ xs) (suc i) = elem_or_zero xs i

unfoldable pub median : List ℕ → ℕ
unfolding elem_or_zero sort
median values =
    let ordered = sort leb values in
    let n = length values in
    if n % 2 == 1
    then elem_or_zero ordered (n / 2)
    else (elem_or_zero ordered (n / 2 - 1) + elem_or_zero ordered (n / 2)) / 2

unfoldable pub alive_count : List (Value × Value) → ℕ
alive_count [] = 0
alive_count ((ts, ms) ∷ rest) = if is_ms ms then suc (alive_count rest) else alive_count rest

-- sum(...) >= need over the last `rounds` samples
unfoldable pub alive_within : Dict Value → ℕ → ℕ → Bool
alive_within node rounds need = leb need (alive_count (take_last rounds (node_samples node)))

unfoldable pub consecutive_alive : Dict Value → ℕ → Bool
consecutive_alive node rounds =
    let recent = take_last rounds (node_samples node) in
    length recent == rounds && all (λ s. is_ms s.1) recent

unfoldable pub need_margin_ms : ℕ → SwitchParams → ℕ
need_margin_ms cur_smooth params =
    max params.switch_margin_ms (cur_smooth * params.switch_margin_pct / 100)

-- The tuple order of Python on (delay, name).
abbrev pub pair_le : ℕ × String → ℕ × String → Bool
pair_le (d, n) (e, m) = if ltb d e then true else if d == e then str_le n m else false

-- The key of a candidate of `pick_fastest` is its delay, where that is known and not 0.
unfoldable pub scored : List String → Dict (Option ℕ) → List (ℕ × String)
scored [] delays = []
scored (n ∷ ns) delays = elim (get delays n) [
  | none ↦ scored ns delays
  | some delay ↦ elim delay [
    | none ↦ scored ns delays
    | some d ↦ elim d [ zero ↦ scored ns delays | suc e ↦ (suc e, n) ∷ scored ns delays ]
  ]
]

abbrev name_of : Option (ℕ × String) → Option String
name_of none = none
name_of (some (d, n)) = some n

unfoldable pub pick_fastest : List String → Dict (Option ℕ) → Option String
pick_fastest candidates delays = name_of (first pair_le (scored candidates delays))

module _ (lib : Library) where
  abbrev in_window : ℕ → Option ℕ → Bool
  in_window now none = false
  in_window now (some when) = leb now (when + hours sample_max_age_h)

  unfoldable pub windowed : List (Value × Value) → ℕ → List ℕ
  windowed [] now = []
  windowed ((ts, ms) ∷ rest) now = elim (ms_of ms) [
    | none ↦ windowed rest now
    | some n ↦ if in_window now (parse_ts lib ts) then n ∷ windowed rest now else windowed rest now
  ]

  unfoldable pub valid_samples : Dict Value → ℕ → List ℕ
  valid_samples node now = take_last sample_smooth_max (windowed (node_samples node) now)

  unfoldable pub smoothed_ms : Dict Value → ℕ → Option ℕ
  smoothed_ms node now = elim (valid_samples node now) [
    | [] ↦ none
    | v ∷ vs ↦ some (median (v ∷ vs))
  ]

  unfoldable pub smoothed_of : String → Dict NodeStat → ℕ → Option ℕ
  smoothed_of name node_stats now = elim (get node_stats name) [
    | none ↦ none
    | some node ↦ elim (smoothed_ms node.history now) [ none ↦ node.delay | some v ↦ some v ]
  ]

  abbrev pub or_missing : Option ℕ → ℕ
  or_missing none = missing_smoothed
  or_missing (some v) = v

  unfoldable pub rank_key : Dict NodeStat → ℕ → String → ℕ × String
  rank_key node_stats now name = (or_missing (smoothed_of name node_stats now), name)

  abbrev pub rank_le : Dict NodeStat → ℕ → String → String → Bool
  rank_le node_stats now a b = pair_le (rank_key node_stats now a) (rank_key node_stats now b)

  unfoldable pub pick_best : List String → Dict NodeStat → ℕ → Option String
  pick_best names node_stats now = first (rank_le node_stats now) names
