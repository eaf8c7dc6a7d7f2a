-- ===== src/Failover/Round.antt =====
-- One run of scripts/proxy-auto-switch.py: `main` behind the parsed arguments, with
-- `reprobe_dead_currents` and `switch_group`. What the run meets outside is a `World`.
pub mod Alert
pub mod Payload
pub mod Puts
pub mod Modes
pub mod Debounce
pub mod Readable
pub mod Codec
pub mod Restart
use mihomo_proxy_management.Prelude.{
  ℕ, zero, suc, ◌+◌, String, List, [], ◌∷◌, ◌++◌, Option, none, some, Bool, true, false, not, ◌&&◌,
  ◌||◌, ◌>>=◌, ltb, ◌==◌, str_eq, contains, filter, is_some, length, if◌then◌else◌,
}
use mihomo_proxy_management.Prelude.Dict.{Dict, get, put, keys_where}
use mihomo_proxy_management.Prelude.Sort.{sort}
use mihomo_proxy_management.Prelude.Text.{str_le}
use mihomo_proxy_management.Json.{Value, null, text, list, object, of_dict, to_dict, at}
use mihomo_proxy_management.Failover.Library.{Library}
use mihomo_proxy_management.Failover.Region.{Region, us, sg, Group, gpt, muse, us_fast, region_of}
use mihomo_proxy_management.Failover.Coerce.{as_dict}
use mihomo_proxy_management.Failover.Samples.{SwitchParams, NodeStat}
use mihomo_proxy_management.Failover.Decide.{GroupState, Outcome, name_or_empty, decide_group}
use mihomo_proxy_management.Failover.State.{
  State, group_key, same_opt, first_of_two, count_of, migrate_state, advance_group_state,
}
use mihomo_proxy_management.Failover.Nodes.{update_nodes, build_node_stats}
use mihomo_proxy_management.Failover.Plan.{
  Mode, mode_a, mode_b, mode_c, decide_mode, Proxy, group_all, collect_candidates,
  group_leaf_members, plan_switches,
}
use Alert.{should_alert, all_dead_after, is_suppressed, alerted_after}
use Payload.{History, Saved, reason_text}

pub data DecisionMode : Type 0 where
  legacy shadow hysteresis : DecisionMode

abbrev pub is_legacy : DecisionMode → Bool
is_legacy legacy = true
is_legacy _ = false

abbrev is_mode_a : Mode → Bool
is_mode_a mode_a = true
is_mode_a _ = false

abbrev pub is_hysteresis : DecisionMode → Bool
is_hysteresis hysteresis = true
is_hysteresis _ = false

pub record Args : Type 0 where
  pub decision_mode : DecisionMode
  pub params : SwitchParams
  pub dry_run : Bool

pub record World : Type 0 where
  -- the first GET /proxies; `none` where the controller is unreachable
  pub proxies : Option (Dict Proxy)
  -- `request_delay` of a node: the measurement of the round is try 0, the retries follow
  pub request_delay : String → ℕ → Option ℕ
  pub now : ℕ
  -- `load_state`: the state file, `none` where it is missing or no JSON
  pub stored : Option Value
  -- the answer to PUT /proxies/<group>
  pub put_ok : Group → String → Bool
  -- the last GET /proxies, by group; `none` where it raises
  pub fresh : Option (Group → Option String)
  -- the clock at the end
  pub finished : ℕ
  -- `resolve_receive_id` does not raise; it is called for an alert
  pub receiver_ok : Bool
  -- `save_state` does not raise
  pub save_ok : Bool

abbrev pub switch_groups : List Group
switch_groups = gpt ∷ muse ∷ us_fast ∷ []

-- `if d`: neither None nor 0
abbrev pub is_delay : Option ℕ → Bool
is_delay none = false
is_delay (some zero) = false
is_delay (some (suc d)) = true

abbrev pub has_delay : Option (Option ℕ) → Bool
has_delay none = false
has_delay (some d) = is_delay d

unfoldable pub load_state : Option Value → Dict Value
load_state none = []
load_state (some v) = as_dict v

unfoldable pub measure : (String → ℕ → Option ℕ) → List String → Dict (Option ℕ)
measure request_delay [] = []
measure request_delay (n ∷ ns) = put (measure request_delay ns) n (request_delay n 0)

-- the retries of one node, from a try on; `none` is "still_dead"
unfoldable pub retry : (String → ℕ → Option ℕ) → String → ℕ → ℕ → Option ℕ
retry request_delay n zero try = none
retry request_delay n (suc retries) try =
    let later = retry request_delay n retries (try + 1) in
    if is_delay (request_delay n try) then request_delay n try else later

-- `probe.update(reprobe_dead_currents(...))`
unfoldable pub reprobe :
    (String → ℕ → Option ℕ) → List String → Dict (Option ℕ) → ℕ → Dict (Option ℕ)
reprobe request_delay [] delays retries = delays
reprobe request_delay (n ∷ ns) delays retries =
    let rest = reprobe request_delay ns delays retries in
    if has_delay (get delays n)
    then rest
    else elim (retry request_delay n retries 1) [ none ↦ rest | some ms ↦ put rest n (some ms) ]

abbrev now_of : Option Proxy → Option String
now_of none = none
now_of (some p) = p.now

-- groups[g].get("now")
unfoldable pub group_now : Dict Proxy → Group → Option String
group_now proxies g = now_of (get proxies (group_key g))

abbrev given : Option String → List String
given none = []
given (some n) = if str_eq n "" then [] else n ∷ []

unfoldable pub currents_of : Dict Proxy → List Group → List String
currents_of proxies [] = []
currents_of proxies (g ∷ gs) =
    let rest = currents_of proxies gs in
    elim (given (group_now proxies g)) [
      | [] ↦ rest
      | n ∷ _ ↦ if contains rest n then rest else n ∷ rest
    ]

-- the delays of the first measurement
unfoldable pub measured_round : World → Dict Proxy → Dict (Option ℕ)
measured_round w proxies =
    let groups = group_all proxies gpt ∷ group_all proxies muse ∷ group_all proxies us_fast ∷ [] in
    measure w.request_delay (collect_candidates proxies groups)

unfoldable pub dead_currents : World → Dict Proxy → List String
dead_currents w proxies = sort str_le (
    filter (λ n. not (has_delay (get (measured_round w proxies) n)))
      (currents_of proxies switch_groups))

-- the delays of the round: legacy never probes again
unfoldable pub probe_round : Args → World → Dict Proxy → Dict (Option ℕ)
probe_round args w proxies =
    let delays = measured_round w proxies in
    if is_legacy args.decision_mode
    then delays
    else reprobe w.request_delay (dead_currents w proxies) delays args.params.retry_current

abbrev is_region : Region → Option Region → Bool
is_region us (some us) = true
is_region sg (some sg) = true
is_region _ _ = false

unfoldable pub alive_any_of : Dict (Option ℕ) → List String
alive_any_of probe = keys_where is_delay probe

unfoldable pub alive_in : Library → Region → Dict (Option ℕ) → List String
alive_in lib r probe = filter (λ n. is_region r (region_of lib n)) (alive_any_of probe)

unfoldable pub mode_of : Library → Dict (Option ℕ) → Mode
mode_of lib probe = decide_mode (alive_in lib us probe) (alive_in lib sg probe)

unfoldable pub plan_of : Library → Dict Proxy → Dict (Option ℕ) → Group → Option String
plan_of lib proxies probe =
    plan_switches proxies probe (mode_of lib probe) (alive_in lib us probe) (alive_in lib sg probe)
      (alive_any_of probe)

-- What the thresholded decision of a round rests on, and what it gives for each group.
pub record Decided : Type 0 where
  pub nodes : Dict (Dict Value)
  pub groups : Group → GroupState
  pub streak : ℕ
  pub outcome : Group → Outcome

unfoldable pub decided_of :
    Library → Args → World → Dict Proxy → Dict (Option ℕ) → Dict (Dict Value) → State → Decided
decided_of lib args w proxies probe nodes state = record {
  nodes = nodes;
  groups = state.groups;
  streak = state.all_dead_streak;
  outcome = λ g.
      decide_group lib g (group_now proxies g) (group_leaf_members proxies g)
        (build_node_stats nodes probe) (state.groups g) w.now args.params;
}

-- `if not is_legacy`: `none` is the OverflowError of a stored count
unfoldable pub decide_round : Library → Args → World → Dict Proxy → Dict (Option ℕ) → Option Decided
decide_round lib args w proxies probe = do
  let prev = load_state w.stored
  nodes ← update_nodes lib (as_dict (at prev "nodes")) probe (lib.isoformat w.now) w.now
  state ← migrate_state lib prev (group_now proxies) w.now
  some (decided_of lib args w proxies probe nodes state)

-- legacy and shadow execute the plan, hysteresis the decision
unfoldable pub executed :
    DecisionMode → (Group → Option String) → (Group → Outcome) → Group → Option String
executed hysteresis plan outcome g = (outcome g).target
executed _ plan outcome g = plan g

-- A PUT is sent for a node other than the one that the group runs on, and not in a dry run.
unfoldable pub put_for : Bool → Option String → Option String → Option String
put_for dry_run current none = none
put_for dry_run current (some desired) =
    if same_opt current (some desired) || dry_run then none else some desired

-- `applied[g]`
unfoldable pub applied : Bool → (String → Bool) → Option String → Option String → Option String
applied dry_run put_ok current none = none
applied dry_run put_ok current (some desired) =
    if same_opt current (some desired) || (dry_run || put_ok desired) then some desired else none

-- `nows[g]`: the read-back, or what was applied where there is none
unfoldable pub now_after :
    Bool → Option (Group → Option String) → Group → Option String → Option String → Option String
now_after true fresh g result current = first_of_two result current
now_after false none g result current = first_of_two result current
now_after false (some fresh) g result current = fresh g

pub data Failure : Type 0 where
  controller_unreachable : Failure
  missing_group : Group → Failure
  -- raised with these PUTs already sent
  overflow_error : (Group → Option String) → Failure
  -- raised behind the switches: these PUTs were sent
  interrupted : (Group → Option String) → Failure

-- What a run that ends with 0 has done: its PUTs, whether it alerted, and the state it saved
-- (none in a dry run).
pub record Report : Type 0 where
  pub mode : Mode
  pub puts : Group → Option String
  pub nows : Group → Option String
  pub alerted : Bool
  pub saved : Option Saved

pub data Run : Type 0 where
  failed : Failure → Run
  done : Report → Run

unfoldable pub puts_of : Args → Dict Proxy → (Group → Option String) → Group → Option String
puts_of args proxies chosen g = put_for args.dry_run (group_now proxies g) (chosen g)

-- the state of the groups and of the nodes behind the switches
unfoldable pub history_after :
    Library → World → String → ℕ → (Group → Option String) → Decided → History
history_after lib w round_ts streak nows d = record {
  round_ts = round_ts;
  all_dead_streak = streak;
  groups = λ g.
      let changed = not (same_opt (d.groups g).current (nows g)) in
      advance_group_state lib (d.groups g) (nows g) w.now
        (if changed then none else (d.outcome g).details.cand)
        (some (reason_text (d.outcome g).reason));
  nodes = d.nodes;
}

abbrev history_of_run :
    Library → World → ℕ → (Group → Option String) → Option Decided → Option History
history_of_run lib w streak nows none = none
history_of_run lib w streak nows (some d) =
    some (history_after lib w (lib.isoformat w.now) streak nows d)

-- the end of `main`, behind the switches: the alert, and the state that is written
unfoldable pub finish :
    Library
    → Args
    → World
    → Dict Proxy
    → Dict (Option ℕ)
    → ℕ
    → Option Decided
    → (Group → Option String)
    → Report
finish lib args w proxies probe prev_streak decided chosen =
    let prev = load_state w.stored in
    let mode = mode_of lib probe in
    let current = group_now proxies in
    let done_for = λ (g : Group). applied args.dry_run (w.put_ok g) (current g) (chosen g) in
    let nows = λ (g : Group). now_after args.dry_run w.fresh g (done_for g) (current g) in
    let none_alive = length (alive_any_of probe) == 0 in
    let streak = all_dead_after (is_legacy args.decision_mode) none_alive prev_streak in
    let wanted = should_alert mode (at prev "mode") (at prev "alerted_mode") in
    let hidden = is_suppressed (is_hysteresis args.decision_mode) none_alive streak in
    let alert = wanted && (not hidden && not args.dry_run) in
    let saved : Saved = record {
      mode = mode;
      selected = nows;
      planned = chosen;
      alive_us = length (alive_in lib us probe);
      alive_sg = length (alive_in lib sg probe);
      alive_any = length (alive_any_of probe);
      alerted_mode = alerted_after alert mode (at prev "alerted_mode");
      updated = lib.isoformat w.finished;
      history = history_of_run lib w streak nows decided;
    } in
    record {
      mode = mode;
      puts = puts_of args proxies chosen;
      nows = nows;
      alerted = alert;
      saved = if args.dry_run then none else some saved;
    }

-- a list or an object, which is in no set: TypeError
abbrev is_unhashable : Value → Bool
is_unhashable (list vs) = true
is_unhashable (object fs) = true
is_unhashable _ = false

-- The end raises: at `prev_mode in {"B", "C"}` in mode A, at the receiver of the alert, or at the write of the state.
unfoldable pub is_interrupted : Args → World → Report → Bool
is_interrupted args w r =
    (is_mode_a r.mode && is_unhashable (at (load_state w.stored) "mode"))
    || (r.alerted && not w.receiver_ok)
    || (not args.dry_run && not w.save_ok)

unfoldable pub concluded : Args → World → Report → Run
concluded args w r = if is_interrupted args w r then failed (interrupted r.puts) else done r

-- legacy reads the state behind its switches, with only `all_dead_streak` to convert
unfoldable pub run_legacy : Library → Args → World → Dict Proxy → Run
run_legacy lib args w proxies =
    let probe = probe_round args w proxies in
    let chosen = plan_of lib proxies probe in
    elim (count_of lib (at (load_state w.stored) "all_dead_streak")) [
      | none ↦ failed (overflow_error (puts_of args proxies chosen))
      | some streak ↦ concluded args w (finish lib args w proxies probe streak none chosen)
    ]

-- The others read it before: what raises has sent no PUT. (`migrate_state` has converted the streak.)
unfoldable pub run_thresholds : Library → Args → World → Dict Proxy → Run
run_thresholds lib args w proxies =
    let probe = probe_round args w proxies in
    elim (decide_round lib args w proxies probe) [
      | none ↦ failed (overflow_error (λ g. none))
      | some decided ↦
          let chosen = executed args.decision_mode (plan_of lib proxies probe) decided.outcome in
          concluded args w (finish lib args w proxies probe decided.streak (some decided) chosen)
    ]

unfoldable pub run_main : Library → Args → World → Run
run_main lib args w = elim w.proxies [
  | none ↦ failed controller_unreachable
  | some proxies ↦
      if not (is_some (get proxies "GPT"))
      then failed (missing_group gpt)
      else if not (is_some (get proxies "MUSE"))
      then failed (missing_group muse)
      else if not (is_some (get proxies "US-FAST"))
      then failed (missing_group us_fast)
      else if is_legacy args.decision_mode
      then run_legacy lib args w proxies
      else run_thresholds lib args w proxies
]
