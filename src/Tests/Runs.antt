-- ===== src/Tests/Runs.antt =====
-- Runs of scripts/proxy-auto-switch.py: in a world where the nodes answer, and in one where none does.
use mihomo_proxy_management.Prelude.{
  arith, ℕ, String, [], ◌∷◌, Option, none, some, Bool, true, false, ◌≡◌, refl, contains, str_eq,
  if◌then◌else◌, filter, take_last, all, any, head?,
}
use mihomo_proxy_management.Prelude.Dict.{Dict, get, put, keys, keys_where, is_unique}
use mihomo_proxy_management.Prelude.Text.{str_le}
use mihomo_proxy_management.Prelude.Sort.{first, sort, insert}
use mihomo_proxy_management.Json.{Value, null, at, to_list, of_list, to_dict, of_dict}
use mihomo_proxy_management.Failover.Region.{gpt, region_of, tier_of}
use mihomo_proxy_management.Failover.Coerce.{
  as_dict, as_str, replace_z, as_int, parse_ts, keep_ts, recent_items, recent_ts,
}
use mihomo_proxy_management.Failover.Samples.{
  ms_of, sample_pairs, node_samples, median, alive_count, alive_within, consecutive_alive,
  need_margin_ms, windowed, valid_samples, smoothed_ms, smoothed_of, rank_key, pick_best, scored,
  pick_fastest,
}
use mihomo_proxy_management.Failover.Decide.{
  next_candidate_state, dwell_minutes, top_tier, of_tier, higher, same, decide_margin, decide_same,
  decide_alive, decide_group, forced_reason, forced_pool, decide_forced,
}
use mihomo_proxy_management.Failover.State.{
  count_of, only_dicts, migrate_old, migrate_cold, migrate_group, migrate_state,
  advance_group_state,
}
use mihomo_proxy_management.Failover.Nodes.{
  sample_values, other_rounds, next_samples, update_node, update_probed, is_kept, prune,
  update_nodes, node_stat, stats_of, build_node_stats,
}
use mihomo_proxy_management.Failover.Plan.{
  Proxy, decide_mode, texts_of, group_all, is_leaf, add_name, add_names, leaves_of, collect_leaves,
  collect_candidates, group_leaf_members, pick_from, plan_switches, mode_a, mode_c,
}
use mihomo_proxy_management.Failover.Round.{
  Args, World, Report, Run, failed, done, legacy, shadow, hysteresis, DecisionMode, load_state,
  measure, retry, reprobe, group_now, currents_of, measured_round, dead_currents, probe_round,
  alive_any_of, alive_in, mode_of, plan_of, decided_of, decide_round, executed, put_for, applied,
  now_after, puts_of, history_after, finish, run_legacy, run_thresholds, run_main, is_interrupted,
  concluded,
}
use mihomo_proxy_management.Failover.Round.Alert.{
  should_alert, all_dead_after, is_suppressed, alerted_after,
}
use mihomo_proxy_management.Failover.Round.Payload.{
  Saved, group_object, by_groups, node_objects, history_entries, payload,
}
use mihomo_proxy_management.Failover.Round.Debounce.{file_of}
use mihomo_proxy_management.Tests.Fixtures.{demo, params, later}

abbrev selector : Option String → Proxy
selector now = record {
  type = "selector";
  now = now;
  all = some "US 1" ∷ some "US 2" ∷ some "SG 1" ∷ some "DIRECT" ∷ [];
}

-- GPT runs on a node that is gone.
abbrev pub proxies : Dict Proxy
proxies =
    ("GPT", selector (some "US 9"))
    ∷ ("MUSE", selector (some "US 1"))
    ∷ ("US-FAST", selector (some "US 1"))
    ∷ []

abbrev delays : String → ℕ → Option ℕ
delays n try =
    if str_eq n "US 1"
    then some 120
    else if str_eq n "US 2"
    then some 100
    else if str_eq n "SG 1"
    then some 50
    else none

abbrev pub world : (String → ℕ → Option ℕ) → Option Value → World
world request_delay stored = record {
  proxies = some proxies;
  request_delay = request_delay;
  now = later;
  stored = stored;
  put_ok = λ g n. true;
  fresh = none;
  finished = later;
  receiver_ok = true;
  save_ok = true;
}

abbrev pub answering : Option Value → World
answering stored = world delays stored

abbrev pub silent : Option Value → World
silent stored = world (λ n try. none) stored

abbrev pub args : DecisionMode → Bool → Args
args mode dry = record { decision_mode = mode; params = params; dry_run = dry }

abbrev nothing : Report
nothing = record {
  mode = mode_c;
  puts = λ g. none;
  nows = λ g. none;
  alerted = false;
  saved = none;
}

abbrev report_of : Run → Report
report_of (failed f) = nothing
report_of (done r) = r

abbrev is_done : Run → Bool
is_done (failed f) = false
is_done (done r) = true

done-report_of : (run : Run) → is_done run ≡ true → run ≡ done (report_of run)
done-report_of (failed f) h = absurd (ground arith)
done-report_of (done r) h = refl

abbrev pub report : Args → World → Report
report a w = report_of (run_main demo a w)

abbrev pub no_state : Saved
no_state = record {
  mode = mode_c;
  selected = λ g. none;
  planned = λ g. none;
  alive_us = 0;
  alive_sg = 0;
  alive_any = 0;
  alerted_mode = null;
  updated = "";
  history = none;
}

abbrev saved_or_none : Option Saved → Saved
saved_or_none none = no_state
saved_or_none (some s) = s

-- the state that a run saved
abbrev pub saved_by : Report → Saved
saved_by r = saved_or_none r.saved

-- hysteresis on answering nodes
abbrev pub first_report : Report
first_report = report (args hysteresis false) (answering none)

-- a dry run, and shadow and legacy, on answering nodes
abbrev pub dry_report : Report
dry_report = report (args hysteresis true) (answering none)

abbrev pub shadow_report : Report
shadow_report = report (args shadow false) (answering none)

abbrev pub legacy_report : Report
legacy_report = report (args legacy false) (answering none)

-- two runs of legacy without an answer
abbrev pub outage : Report
outage = report (args legacy false) (silent none)

abbrev pub still_silent : World
still_silent = silent (some (file_of (saved_by outage)))

abbrev pub long_outage : Report
long_outage = report (args legacy false) still_silent

-- one of hysteresis without an answer, and one with answers behind it
abbrev pub blip : Report
blip = report (args hysteresis false) (silent none)

abbrev pub back : World
back = answering (some (file_of (saved_by blip)))

abbrev pub recovery : Report
recovery = report (args hysteresis false) back

-- Each run ends, and reports this.
pub runs :
    (run_main demo (args hysteresis false) (answering none) ≡ done first_report)
    × (first_report.puts gpt ≡ some "US 2")
    × (contains (group_leaf_members proxies gpt) "" ≡ false)
    × (run_main demo (args hysteresis true) (answering none) ≡ done dry_report)
    × (run_main demo (args shadow false) (answering none) ≡ done shadow_report)
    × (run_main demo (args legacy false) (answering none) ≡ done legacy_report)
unfolding get put keys keys_where is_unique contains filter take_last all any head? first sort
    insert str_le at to_list of_list to_dict of_dict region_of tier_of as_dict as_str replace_z
    as_int parse_ts keep_ts recent_items recent_ts ms_of sample_pairs node_samples median
    alive_count alive_within consecutive_alive need_margin_ms windowed valid_samples smoothed_ms
    smoothed_of rank_key pick_best scored pick_fastest next_candidate_state dwell_minutes top_tier
    of_tier higher same decide_margin decide_same decide_alive decide_group forced_reason
    forced_pool decide_forced count_of only_dicts migrate_old migrate_cold migrate_group
    migrate_state advance_group_state sample_values other_rounds next_samples update_node
    update_probed is_kept prune update_nodes node_stat stats_of build_node_stats decide_mode
    texts_of group_all is_leaf add_name add_names leaves_of collect_leaves collect_candidates
    group_leaf_members pick_from plan_switches load_state measure retry reprobe group_now
    currents_of measured_round dead_currents probe_round alive_any_of alive_in mode_of plan_of
    decided_of decide_round executed put_for applied now_after puts_of history_after finish
    run_legacy run_thresholds run_main is_interrupted concluded should_alert all_dead_after
    is_suppressed alerted_after group_object by_groups node_objects history_entries payload
runs = (refl, refl, refl, refl, refl, refl)

-- The first run saves its state, with GPT on US 2.
pub first_saved :
    (first_report.saved ≡ some (saved_by first_report)) × (first_report.nows gpt ≡ some "US 2")
unfolding get put keys keys_where is_unique contains filter take_last all any head? first sort
    insert str_le at to_list of_list to_dict of_dict region_of tier_of as_dict as_str replace_z
    as_int parse_ts keep_ts recent_items recent_ts ms_of sample_pairs node_samples median
    alive_count alive_within consecutive_alive need_margin_ms windowed valid_samples smoothed_ms
    smoothed_of rank_key pick_best scored pick_fastest next_candidate_state dwell_minutes top_tier
    of_tier higher same decide_margin decide_same decide_alive decide_group forced_reason
    forced_pool decide_forced count_of only_dicts migrate_old migrate_cold migrate_group
    migrate_state advance_group_state sample_values other_rounds next_samples update_node
    update_probed is_kept prune update_nodes node_stat stats_of build_node_stats decide_mode
    texts_of group_all is_leaf add_name add_names leaves_of collect_leaves collect_candidates
    group_leaf_members pick_from plan_switches load_state measure retry reprobe group_now
    currents_of measured_round dead_currents probe_round alive_any_of alive_in mode_of plan_of
    decided_of decide_round executed put_for applied now_after puts_of history_after finish
    run_legacy run_thresholds run_main is_interrupted concluded should_alert all_dead_after
    is_suppressed alerted_after group_object by_groups node_objects history_entries payload
first_saved = (refl, refl)

-- two runs of legacy in a row: the first
pub outage_alerts :
    (run_main demo (args legacy false) (silent none) ≡ done outage)
    × (outage.saved ≡ some (saved_by outage))
    × (outage.alerted ≡ true)
unfolding get put keys keys_where is_unique contains filter take_last all any head? first sort
    insert str_le at to_list of_list to_dict of_dict region_of tier_of as_dict as_str replace_z
    as_int parse_ts keep_ts recent_items recent_ts ms_of sample_pairs node_samples median
    alive_count alive_within consecutive_alive need_margin_ms windowed valid_samples smoothed_ms
    smoothed_of rank_key pick_best scored pick_fastest next_candidate_state dwell_minutes top_tier
    of_tier higher same decide_margin decide_same decide_alive decide_group forced_reason
    forced_pool decide_forced count_of only_dicts migrate_old migrate_cold migrate_group
    migrate_state advance_group_state sample_values other_rounds next_samples update_node
    update_probed is_kept prune update_nodes node_stat stats_of build_node_stats decide_mode
    texts_of group_all is_leaf add_name add_names leaves_of collect_leaves collect_candidates
    group_leaf_members pick_from plan_switches load_state measure retry reprobe group_now
    currents_of measured_round dead_currents probe_round alive_any_of alive_in mode_of plan_of
    decided_of decide_round executed put_for applied now_after puts_of history_after finish
    run_legacy run_thresholds run_main is_interrupted concluded should_alert all_dead_after
    is_suppressed alerted_after group_object by_groups node_objects history_entries payload
outage_alerts = (refl, refl, refl)

-- the second
pub long_outage_alerts :
    (run_main demo (args legacy false) still_silent ≡ done long_outage)
    × (long_outage.mode ≡ outage.mode)
unfolding get put keys keys_where is_unique contains filter take_last all any head? first sort
    insert str_le at to_list of_list to_dict of_dict region_of tier_of as_dict as_str replace_z
    as_int parse_ts keep_ts recent_items recent_ts ms_of sample_pairs node_samples median
    alive_count alive_within consecutive_alive need_margin_ms windowed valid_samples smoothed_ms
    smoothed_of rank_key pick_best scored pick_fastest next_candidate_state dwell_minutes top_tier
    of_tier higher same decide_margin decide_same decide_alive decide_group forced_reason
    forced_pool decide_forced count_of only_dicts migrate_old migrate_cold migrate_group
    migrate_state advance_group_state sample_values other_rounds next_samples update_node
    update_probed is_kept prune update_nodes node_stat stats_of build_node_stats decide_mode
    texts_of group_all is_leaf add_name add_names leaves_of collect_leaves collect_candidates
    group_leaf_members pick_from plan_switches load_state measure retry reprobe group_now
    currents_of measured_round dead_currents probe_round alive_any_of alive_in mode_of plan_of
    decided_of decide_round executed put_for applied now_after puts_of history_after finish
    run_legacy run_thresholds run_main is_interrupted concluded should_alert all_dead_after
    is_suppressed alerted_after group_object by_groups node_objects history_entries payload
long_outage_alerts = (done-report_of (run_main demo (args legacy false) still_silent) refl, refl)

-- two of hysteresis: the first
pub blip_alerts :
    (run_main demo (args hysteresis false) (silent none) ≡ done blip)
    × (blip.mode ≡ mode_c)
    × (blip.alerted ≡ false)
    × (blip.saved ≡ some (saved_by blip))
unfolding get put keys keys_where is_unique contains filter take_last all any head? first sort
    insert str_le at to_list of_list to_dict of_dict region_of tier_of as_dict as_str replace_z
    as_int parse_ts keep_ts recent_items recent_ts ms_of sample_pairs node_samples median
    alive_count alive_within consecutive_alive need_margin_ms windowed valid_samples smoothed_ms
    smoothed_of rank_key pick_best scored pick_fastest next_candidate_state dwell_minutes top_tier
    of_tier higher same decide_margin decide_same decide_alive decide_group forced_reason
    forced_pool decide_forced count_of only_dicts migrate_old migrate_cold migrate_group
    migrate_state advance_group_state sample_values other_rounds next_samples update_node
    update_probed is_kept prune update_nodes node_stat stats_of build_node_stats decide_mode
    texts_of group_all is_leaf add_name add_names leaves_of collect_leaves collect_candidates
    group_leaf_members pick_from plan_switches load_state measure retry reprobe group_now
    currents_of measured_round dead_currents probe_round alive_any_of alive_in mode_of plan_of
    decided_of decide_round executed put_for applied now_after puts_of history_after finish
    run_legacy run_thresholds run_main is_interrupted concluded should_alert all_dead_after
    is_suppressed alerted_after group_object by_groups node_objects history_entries payload
blip_alerts = (refl, refl, refl, refl)

-- the second
pub recovery_alerts :
    (run_main demo (args hysteresis false) back ≡ done recovery) × (recovery.mode ≡ mode_a)
unfolding get put keys keys_where is_unique contains filter take_last all any head? first sort
    insert str_le at to_list of_list to_dict of_dict region_of tier_of as_dict as_str replace_z
    as_int parse_ts keep_ts recent_items recent_ts ms_of sample_pairs node_samples median
    alive_count alive_within consecutive_alive need_margin_ms windowed valid_samples smoothed_ms
    smoothed_of rank_key pick_best scored pick_fastest next_candidate_state dwell_minutes top_tier
    of_tier higher same decide_margin decide_same decide_alive decide_group forced_reason
    forced_pool decide_forced count_of only_dicts migrate_old migrate_cold migrate_group
    migrate_state advance_group_state sample_values other_rounds next_samples update_node
    update_probed is_kept prune update_nodes node_stat stats_of build_node_stats decide_mode
    texts_of group_all is_leaf add_name add_names leaves_of collect_leaves collect_candidates
    group_leaf_members pick_from plan_switches load_state measure retry reprobe group_now
    currents_of measured_round dead_currents probe_round alive_any_of alive_in mode_of plan_of
    decided_of decide_round executed put_for applied now_after puts_of history_after finish
    run_legacy run_thresholds run_main is_interrupted concluded should_alert all_dead_after
    is_suppressed alerted_after group_object by_groups node_objects history_entries payload
recovery_alerts = (done-report_of (run_main demo (args hysteresis false) back) refl, refl)
