-- ===== src/Failover/State.antt =====
-- `migrate_state` and `advance_group_state` of scripts/proxy-auto-switch.py: the state of the groups
-- between two runs.
pub mod Advance
pub mod Migrate
use mihomo_proxy_management.Prelude.{
  ℕ, String, List, [], ◌∷◌, ◌++◌, Option, none, some, Bool, true, false, not, ◌&&◌, ◌||◌, ◌>>=◌,
  str_eq, is_some, take_last, if◌then◌else◌, map,
}
use mihomo_proxy_management.Prelude.Dict.{Dict}
use mihomo_proxy_management.Json.{
  pos, pos_part, Value, null, text, list, of_list, object, at, to_dict,
}
use mihomo_proxy_management.Failover.Library.{Library}
use mihomo_proxy_management.Failover.Region.{Group, gpt, muse, us_fast}
use mihomo_proxy_management.Failover.Coerce.{as_dict, as_str, as_int, keep_ts, recent_ts}
use mihomo_proxy_management.Failover.Decide.{GroupState, next_candidate_state}

abbrev pub group_key : Group → String
group_key gpt = "GPT"
group_key muse = "MUSE"
group_key us_fast = "US-FAST"

abbrev pub opt_text : Option String → Value
opt_text none = null
opt_text (some s) = text s

abbrev pub same_opt : Option String → Option String → Bool
same_opt none none = true
same_opt none (some t) = false
same_opt (some s) none = false
same_opt (some s) (some t) = str_eq s t

abbrev pub first_of_two : Option String → Option String → Option String
first_of_two none t = t
first_of_two (some s) t = some s

abbrev pub or_text : Option String → String → String
or_text none t = t
or_text (some s) t = s

abbrev pub texts : List String → Value
texts ts = list (of_list (map text ts))

-- an entry of `alive_us`, `cand_streak` and the like: max(0, as_int(v))
unfoldable pub count_of : Library → Value → Option ℕ
count_of lib v = do n ← as_int lib v (pos 0); some (pos_part n)

-- The state of version 2.
pub record State : Type 0 where
  pub mode : Option String
  pub selected : Dict Value
  pub planned : Dict Value
  pub alive_us : ℕ
  pub alive_sg : ℕ
  pub alive_any : ℕ
  pub alerted_mode : Option String
  pub updated : Option String
  pub round_ts : Option String
  pub all_dead_streak : ℕ
  pub groups : Group → GroupState
  pub nodes : Dict (Dict Value)

unfoldable pub only_dicts : Dict Value → Dict (Dict Value)
only_dicts [] = []
only_dicts ((n, object fs) ∷ d) = (n, to_dict fs) ∷ only_dicts d
only_dicts ((n, _) ∷ d) = only_dicts d

module _ (lib : Library) where
  -- `if current is None or (real is not None and current != real)`
  abbrev pub is_stale : Option String → Option String → Bool
  is_stale none real = true
  is_stale (some c) none = false
  is_stale (some c) (some r) = not (str_eq c r)

  -- the branch `if old`; `now` is the time of the round
  unfoldable pub migrate_old : Dict Value → Option String → ℕ → Option GroupState
  migrate_old old real now = do
    cand_streak ← count_of lib (at old "cand_streak")
    let ts = lib.isoformat now
    let stale = is_stale (as_str (at old "current")) real
    some (record {
      current = if stale then real else as_str (at old "current");
      since = if stale then ts else or_text (keep_ts lib (at old "since") none) ts;
      cand = if stale then none else as_str (at old "cand");
      cand_streak = if stale then 0 else cand_streak;
      last_switch_ts = keep_ts lib (at old "last_switch_ts") none;
      last_switch_reason = as_str (at old "last_switch_reason");
      switch_ts_24h = recent_ts lib (at old "switch_ts_24h") now 24;
    })

  -- the cold start, and the migration of version 1
  unfoldable pub migrate_cold : Dict Value → Group → Option String → ℕ → GroupState
  migrate_cold raw g real now = record {
    current = first_of_two (as_str (at (as_dict (at raw "selected")) (group_key g))) real;
    since = or_text (keep_ts lib (at raw "updated") none) (lib.isoformat now);
    cand = none;
    cand_streak = 0;
    last_switch_ts = none;
    last_switch_reason = none;
    switch_ts_24h = [];
  }

  unfoldable pub migrate_group : Dict Value → Group → Option String → ℕ → Option GroupState
  migrate_group raw g now_of_group now =
      let real = as_str (opt_text now_of_group) in
      elim (as_dict (at (as_dict (at raw "groups")) (group_key g))) [
        | [] ↦ some (migrate_cold raw g real now)
        | kv ∷ rest ↦ migrate_old (kv ∷ rest) real now
      ]

  abbrev by_group : GroupState → GroupState → GroupState → Group → GroupState
  by_group a b c gpt = a
  by_group a b c muse = b
  by_group a b c us_fast = c

  unfoldable pub migrate_state : Dict Value → (Group → Option String) → ℕ → Option State
  migrate_state raw group_nows now = do
    for_gpt ← migrate_group raw gpt (group_nows gpt) now
    for_muse ← migrate_group raw muse (group_nows muse) now
    for_us_fast ← migrate_group raw us_fast (group_nows us_fast) now
    alive_us ← count_of lib (at raw "alive_us")
    alive_sg ← count_of lib (at raw "alive_sg")
    alive_any ← count_of lib (at raw "alive_any")
    all_dead_streak ← count_of lib (at raw "all_dead_streak")
    some (record {
      mode = as_str (at raw "mode");
      selected = as_dict (at raw "selected");
      planned = as_dict (at raw "planned");
      alive_us = alive_us;
      alive_sg = alive_sg;
      alive_any = alive_any;
      alerted_mode = as_str (at raw "alerted_mode");
      updated = keep_ts lib (at raw "updated") none;
      round_ts = keep_ts lib (at raw "round_ts") none;
      all_dead_streak = all_dead_streak;
      groups = by_group for_gpt for_muse for_us_fast;
      nodes = only_dicts (as_dict (at raw "nodes"));
    })

  -- `if proposed`: neither None nor ""
  abbrev pub is_given : Option String → Bool
  is_given none = false
  is_given (some p) = not (str_eq p "")

  unfoldable pub advance_group_state :
      GroupState → Option String → ℕ → Option String → Option String → GroupState
  advance_group_state gs real_current now proposed switch_reason =
      let ts = lib.isoformat now in
      let dated = record gs { since = if str_eq gs.since "" then ts else gs.since } in
      let (cand, cand_streak) = next_candidate_state gs proposed in
      if not (same_opt gs.current real_current)
      then record {
        current = real_current;
        since = ts;
        cand = none;
        cand_streak = 0;
        last_switch_ts = some ts;
        last_switch_reason = if is_given switch_reason then switch_reason else some "external";
        switch_ts_24h = take_last 20 (recent_ts lib (texts gs.switch_ts_24h) now 24 ++ ts ∷ []);
      }
      else if is_given proposed
      then record dated { cand = cand; cand_streak = cand_streak }
      else record dated { cand = none; cand_streak = 0 }
