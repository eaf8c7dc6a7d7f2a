-- ===== src/Tests/Fixtures.antt =====
-- A concrete `Library`, and the nodes, states and runs that the tests of the failover use.
use mihomo_proxy_management.Prelude.{
  ℕ, zero, suc, ◌*◌, ◌/◌, String, List, [], ◌∷◌, Option, none, some, true, false, ◌||◌, ◌≡◌, refl,
  ap, str_eq, arith, eq_iff, inl, inr, Bool-cases,
}
use mihomo_proxy_management.Prelude.{contains, filter, take_last, all}
use mihomo_proxy_management.Prelude.Dict.{keys, is_unique, Dict, get, keys_where}
use mihomo_proxy_management.Prelude.Sort.{first, sort, insert}
use mihomo_proxy_management.Json.{Value, pos, int, text, list, cons, nil, at, to_list}
use mihomo_proxy_management.Failover.Region.{Group, gpt, muse, region_of, tier_of}
use mihomo_proxy_management.Failover.Samples.{
  SwitchParams, NodeStat, ms_of, sample_pairs, node_samples, median, alive_count, alive_within,
  consecutive_alive, need_margin_ms, windowed, valid_samples, smoothed_ms, smoothed_of, rank_key,
  pick_best,
}
use mihomo_proxy_management.Failover.Decide.{
  cur_valid, GroupState, next_candidate_state, dwell_minutes, top_tier, of_tier, higher, same,
  decide_margin, decide_same, decide_alive, decide_group, Outcome, switch_margin, decide_forced,
  forced_pool, cur_alive,
}
use mihomo_proxy_management.Failover.Library.{Library, Moment, naive, microseconds}
use mihomo_proxy_management.Failover.Coerce.{recent_ts, recent_items, replace_z, parse_ts}
use mihomo_proxy_management.Failover.State.{advance_group_state}
use mihomo_proxy_management.Failover.State.Advance.{settled_rounds, IsLawful}

-- A time is written as a mark and one digit for each second.
abbrev digits : ℕ → String
digits zero = ""
digits (suc n) = String.◌∷◌ "1" (digits n)

abbrev iso : ℕ → String
iso t = String.◌∷◌ "T" (digits (t / microseconds))

abbrev seconds_in : String → ℕ
seconds_in String.[] = 0
seconds_in (String.◌∷◌ c s) = suc (seconds_in s)

abbrev from_iso : String → Option Moment
from_iso String.[] = none
from_iso (String.◌∷◌ c s) = some (naive (seconds_in s * microseconds))

abbrev pub demo : Library
demo = record {
  search_sg = λ n. str_eq n "SG 1" || str_eq n "SG 2";
  search_us = λ n. str_eq n "US 1" || str_eq n "US 2";
  strip = λ s. s;
  fromisoformat = from_iso;
  isoformat = iso;
  int_of = λ s. none;
}

replace_z-digits : (n : ℕ) → replace_z (String.◌∷◌ "1" (digits n)) ≡ String.◌∷◌ "1" (digits n)
unfolding replace_z
replace_z-digits zero = refl
replace_z-digits (suc n) = ap (String.◌∷◌ "1") (replace_z-digits n)

replace_z-iso : (n : ℕ) → replace_z (String.◌∷◌ "T" (digits n)) ≡ String.◌∷◌ "T" (digits n)
unfolding replace_z
replace_z-iso zero = refl
replace_z-iso (suc n) = ap (String.◌∷◌ "T") (replace_z-digits n)

seconds_in-digits : (n : ℕ) → seconds_in (digits n) ≡ n
seconds_in-digits zero = refl
seconds_in-digits (suc n) = ap suc (seconds_in-digits n)

str_eq-nonempty : (s : String) → str_eq (String.◌∷◌ "T" s) "" ≡ false
str_eq-nonempty s = elim (Bool-cases (str_eq (String.◌∷◌ "T" s) "")) [
  | inl h ↦
      let e = (eq_iff (String.◌∷◌ "T" s) "").0 h in
      let absurd_length : suc (seconds_in s) ≡ 0 = ap seconds_in e in ground (arith, absurd_length)
  | inr h ↦ h
]

pub demo-IsLawful : IsLawful demo
unfolding parse_ts
demo-IsLawful = record {
  nonempty = λ t. str_eq-nonempty (digits (t / microseconds));
  read_back = λ t. ground (
    arith,
    str_eq-nonempty (digits (t / microseconds)),
    replace_z-iso (t / microseconds),
    seconds_in-digits (t / microseconds),
  );
}

abbrev pub sample : ℕ → Value
sample ms = list (cons (text "T") (cons (int (pos ms)) nil))

-- a node that answered in the last two rounds and in this one
abbrev pub node : ℕ → NodeStat
node ms = record {
  history = ("samples", list (cons (sample ms) (cons (sample ms) nil))) ∷ [];
  delay = some ms;
  alive_round = true;
}

abbrev pub stats : Dict NodeStat
stats = ("US 1", node 300) ∷ ("US 2", node 100) ∷ ("SG 1", node 50) ∷ []

abbrev pub members : List String
members = "US 1" ∷ "US 2" ∷ "SG 1" ∷ []

abbrev pub params : SwitchParams
params = record {
  switch_margin_ms = 100;
  switch_margin_pct = 30;
  switch_streak = 3;
  min_dwell_min = 30;
  retry_current = 0;
}

-- half an hour
abbrev pub later : ℕ
later = 1800 * microseconds

-- a group that has been on US 1 since 0, with a candidate of two rounds
abbrev pub settled : GroupState
settled = record {
  current = some "US 1";
  since = "T";
  cand = some "US 2";
  cand_streak = 2;
  last_switch_ts = none;
  last_switch_reason = none;
  switch_ts_24h = [];
}

abbrev pub decided : Group → Option String → Outcome
decided g current = decide_group demo g current members stats settled later params

-- The faster node of the tier has earned the switch; MUSE makes it too; a group on a node that is
-- no member is moved.
pub decisions :
    ((decided gpt (some "US 1")).target ≡ some "US 2")
    × ((decided gpt (some "US 1")).reason ≡ switch_margin)
    × ((decided muse (some "US 1")).target ≡ some "US 2")
    × ((decided gpt (some "US 9")).target ≡ some "US 2")
    × (forced_pool demo gpt (some "US 9") members stats settled later params ≡ members)
    × (cur_alive demo gpt (some "US 1") members stats settled later params ≡ true)
unfolding decide_group decide_alive decide_same decide_margin higher same top_tier of_tier pick_best
    first tier_of region_of smoothed_of smoothed_ms valid_samples windowed node_samples sample_pairs
    median sort insert rank_key get contains filter keys_where ms_of parse_ts replace_z
    need_margin_ms alive_within alive_count next_candidate_state dwell_minutes at take_last to_list
    consecutive_alive all decide_forced forced_pool
decisions = (refl, refl, refl, refl, refl, refl)

pub inputs :
    (is_unique stats ≡ true)
    × (contains members "" ≡ false)
    × (cur_valid demo muse (some "US 1") members stats settled later params ≡ true)
    × (cur_alive demo gpt (some "US 9") members stats settled later params ≡ false)
    × (contains (forced_pool demo gpt (some "US 9") members stats settled later params) "SG 1"
        ≡ true)
unfolding is_unique contains keys get filter keys_where forced_pool
inputs = (refl, refl, refl, refl, refl)

abbrev pub round : ℕ × Option String
round = (microseconds, some "US 2")

abbrev pub before : GroupState
before = record settled { current = some "SG 1"; cand = none; cand_streak = 0 }

-- a group that moved to US 1 at 0, and proposed US 2 in two rounds since
abbrev pub proposed_twice : GroupState
proposed_twice =
    settled_rounds demo (advance_group_state demo before (some "US 1") 0 none none)
      (round ∷ round ∷ [])

abbrev settled_decision : Outcome
settled_decision = decide_group demo gpt (some "US 1") members stats proposed_twice later params

-- The switch is earned after these rounds too.
pub settled_decisions :
    (settled_decision.target ≡ some "US 2") × (settled_decision.reason ≡ switch_margin)
unfolding decide_group decide_alive decide_same decide_margin higher same top_tier of_tier pick_best
    first tier_of region_of smoothed_of smoothed_ms valid_samples windowed node_samples sample_pairs
    median sort insert rank_key get contains filter keys_where ms_of parse_ts replace_z
    need_margin_ms alive_within alive_count next_candidate_state dwell_minutes at take_last to_list
    consecutive_alive all settled_rounds advance_group_state recent_ts recent_items
settled_decisions = (refl, refl)
