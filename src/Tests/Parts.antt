-- ===== src/Tests/Parts.antt =====
-- The theorems on the nodes, the plan and the stored state, at concrete inputs.
use mihomo_proxy_management.Prelude.{
  ℕ, String, List, [], ◌∷◌, ◌++◌, Option, none, some, true, false, ◌≡◌, refl, contains, is_some,
  ◌&&◌, arith, suc, take_last, filter,
}
use mihomo_proxy_management.Prelude.Dict.{Dict, get, put, keys, is_unique}
use mihomo_proxy_management.Prelude.Sort.{first, sort, insert}
use mihomo_proxy_management.Failover.Coerce.{parse_ts, replace_z}
use mihomo_proxy_management.Failover.Samples.{
  node_samples, sample_pairs, scored, pick_fastest, pair_le,
}
use mihomo_proxy_management.Failover.State.{only_dicts}
use mihomo_proxy_management.Failover.Plan.{pick_from}
use mihomo_proxy_management.Failover.Nodes.{update_probed, update_node, sample_values, prune}
use mihomo_proxy_management.Failover.State.Migrate.{migrate_state-returns, is_finite, stored_streak}
use mihomo_proxy_management.Json.{to_list, of_list, to_dict, at}
use mihomo_proxy_management.Json.{Value, float, infinity, text, object, of_dict}
use mihomo_proxy_management.Failover.Region.{gpt, muse, us_fast}
use mihomo_proxy_management.Failover.Nodes.{
  update_node, update_probed, update_nodes, dict_or_empty, next_samples, is_kept, valid_ms,
  ms_value, other_rounds,
}
use mihomo_proxy_management.Failover.Nodes.Update.{update_nodes-probed}
use mihomo_proxy_management.Failover.Plan.{
  pick_from, plan_switches, texts_of, group_all, decide_mode,
}
use mihomo_proxy_management.Failover.Plan.Laws.{
  plan_switches_sound, plan_switches-fastest, is_empty,
}
use mihomo_proxy_management.Failover.State.{only_dicts, migrate_state}
use mihomo_proxy_management.Tests.Fixtures.{demo, later, node}
use mihomo_proxy_management.Tests.Runs.{proxies}

abbrev stored_nodes : Dict Value
stored_nodes = ("SG 1", object (of_dict (node 50).history)) ∷ []

abbrev delays : Dict (Option ℕ)
delays = ("US 1", some 120) ∷ ("US 2", some 100) ∷ []

abbrev or_no_nodes : Option (Dict (Dict Value)) → Dict (Dict Value)
or_no_nodes none = []
or_no_nodes (some out) = out

abbrev updated : Dict (Dict Value)
updated = or_no_nodes (update_nodes demo stored_nodes delays "T" later)

update_runs :
    (update_nodes demo stored_nodes delays "T" later ≡ some updated)
    × (is_unique stored_nodes ≡ true)
    × (is_unique delays ≡ true)
    × (contains (keys delays) "SG 1" ≡ false)
    × (get delays "US 1" ≡ some (some 120))
    × (parse_ts demo (text "T") ≡ some 0)
unfolding update_nodes update_probed update_node next_samples node_samples other_rounds
    sample_values sample_pairs take_last prune is_kept only_dicts get put keys contains is_unique
    to_list of_list to_dict of_dict at parse_ts replace_z
update_runs = (refl, refl, refl, refl, refl, refl)

update_nodes-probed_example :
    (fields : Dict Value) × (get updated "US 1" ≡ some fields)
    × (node_samples fields
        ≡ take_last 5
            (other_rounds "T" (node_samples (dict_or_empty (get (only_dicts stored_nodes) "US 1"))))
          ++ (text "T", ms_value (valid_ms (some 120))) ∷ [])
update_nodes-probed_example =
    update_nodes-probed demo stored_nodes delays "T" later updated "US 1" (some 120) 0 update_runs.0
      update_runs.1 update_runs.2 update_runs.4 update_runs.5 (omega arith)

abbrev us_names : List String
us_names = "US 1" ∷ "US 2" ∷ []

plan_runs :
    (plan_switches proxies delays (decide_mode us_names []) us_names [] us_names gpt ≡ some "US 2")
    × (get delays "US 2" ≡ some (some 100))
    × (contains (texts_of (group_all proxies gpt)) "US 1" ≡ true)
    × (contains us_names "US 1" ≡ true)
unfolding decide_mode plan_switches pick_from pick_fastest scored first filter contains texts_of
    group_all get sort insert
plan_runs = (refl, refl, refl, refl)

plan_switches_sound_example :
    (contains (texts_of (group_all proxies gpt)) "US 2" ≡ true)
    × (contains us_names "US 2" ≡ true)
    × (is_empty us_names && false ≡ false)
    × ((d : ℕ) × (get delays "US 2" ≡ some (some (suc d))))
plan_switches_sound_example =
    plan_switches_sound proxies delays us_names [] us_names gpt "US 2" plan_runs.0

plan_switches-fastest_example : pair_le (100, "US 2") (120, "US 1") ≡ true
plan_switches-fastest_example =
    plan_switches-fastest proxies delays us_names [] us_names gpt "US 2" "US 1" 100 119 plan_runs.0
      plan_runs.1 plan_runs.2 plan_runs.3 update_runs.4

-- a state file with `"alive_us": Infinity`
abbrev broken_file : Dict Value
broken_file = ("alive_us", float infinity) ∷ []

migrate_state-returns_example :
    is_some (migrate_state demo broken_file (λ g. none) later)
    ≡ is_finite (stored_streak broken_file gpt)
      && (is_finite (stored_streak broken_file muse)
          && (is_finite (stored_streak broken_file us_fast)
              && (is_finite (at broken_file "alive_us")
                  && (is_finite (at broken_file "alive_sg")
                      && (is_finite (at broken_file "alive_any")
                          && is_finite (at broken_file "all_dead_streak"))))))
migrate_state-returns_example = migrate_state-returns demo broken_file later (λ g. none)
