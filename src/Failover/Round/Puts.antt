-- ===== src/Failover/Round/Puts.antt =====
-- The PUTs that a run of scripts/proxy-auto-switch.py sends.
use mihomo_proxy_management.Prelude.{
  ℕ, String, Option, none, some, Bool, true, false, ◌≡◌, ◌≢◌, inl, inr, arith, refl, ap, sym, ◌∙◌,
  subst, contains, is_some, Option-cases,
}
use mihomo_proxy_management.Prelude.Dict.{Dict, get}
use mihomo_proxy_management.Json.{Value, at}
use mihomo_proxy_management.Failover.Library.{Library}
use mihomo_proxy_management.Failover.Region.{Group}
use mihomo_proxy_management.Failover.Decide.{Outcome, decide_group}
use mihomo_proxy_management.Failover.Decide.Safety.{decide_group_sound}
use mihomo_proxy_management.Failover.Coerce.{as_dict}
use mihomo_proxy_management.Failover.State.{State, same_opt, migrate_state}
use mihomo_proxy_management.Failover.Nodes.{build_node_stats, delay_at, update_nodes}
use mihomo_proxy_management.Failover.Nodes.Stats.{build_node_stats_unique, build_node_stats-alive}
use mihomo_proxy_management.Failover.Plan.{Proxy, group_leaf_members}
use mihomo_proxy_management.Failover.Round.{
  legacy, hysteresis, Args, World, has_delay, group_now, probe_round, plan_of, Decided,
  decide_round, decided_of, load_state, executed, put_for, puts_of, finish, Report, done,
  run_legacy, run_thresholds, run_main, concluded,
}

delay_at-has_delay : (o : Option (Option ℕ)) → is_some (delay_at o) ≡ has_delay o
delay_at-has_delay o = ground arith

-- A PUT is one of the chosen nodes, not the current one, in no dry run.
put_for_inv :
    (dry : Bool) (current chosen : Option String) (t : String)
    → put_for dry current chosen ≡ some t
    → (chosen ≡ some t) × (dry ≡ false) × (same_opt current (some t) ≡ false)
unfolding put_for
put_for_inv dry current none t h = cc
put_for_inv dry current (some d) t h = ground arith

module _ (lib : Library) (args : Args) (w : World) (proxies : Dict Proxy) (r : Report) where
  pub main_legacy :
      run_main lib args w ≡ done r
      → w.proxies ≡ some proxies
      → args.decision_mode ≡ legacy
      → run_legacy lib args w proxies ≡ done r
  unfolding run_main
  main_legacy h p m = ground arith

  pub main_thresholds :
      run_main lib args w ≡ done r
      → w.proxies ≡ some proxies
      → args.decision_mode ≢ legacy
      → run_thresholds lib args w proxies ≡ done r
  unfolding run_main
  main_thresholds h p m = ground arith

  pub concluded-done : (x : Report) → concluded args w x ≡ done r → x ≡ r
  unfolding concluded
  concluded-done x h = ground arith

  pub thresholds_report :
      run_thresholds lib args w proxies ≡ done r
      → (d : Decided) × (decide_round lib args w proxies (probe_round args w proxies) ≡ some d)
        × (finish lib args w proxies (probe_round args w proxies) d.streak (some d) (
              executed args.decision_mode
                (plan_of lib proxies (probe_round args w proxies))
                d.outcome)
            ≡ r)
  unfolding run_thresholds
  thresholds_report h =
      elim (Option-cases (decide_round lib args w proxies (probe_round args w proxies))) [
        | inl e ↦ absurd (ground arith)
        | inr (d, e) ↦ (d, e, concluded-done _ (cc (rw (e, run_thresholds) at h)))
      ]

  finish_puts :
      (probe : Dict (Option ℕ)) (streak : ℕ) (d : Option Decided) (chosen : Group → Option String)
      → (finish lib args w proxies probe streak d chosen).puts ≡ puts_of args proxies chosen
  unfolding finish
  finish_puts probe streak d chosen = refl

  round_parts :
      (probe : Dict (Option ℕ)) (d : Decided)
      → decide_round lib args w proxies probe ≡ some d
      → (nodes : Dict (Dict Value)) × ((state : State) × (decided_of lib args w proxies probe nodes
              state
            ≡ d))
  unfolding decide_round
  round_parts probe d h =
      let prev = load_state w.stored in
      elim (Option-cases
        (update_nodes lib (as_dict (at prev "nodes")) probe (lib.isoformat w.now) w.now)) [
          | inl e ↦ absurd (ground arith)
          | inr (nodes, e) ↦
              elim (Option-cases (migrate_state lib prev (group_now proxies) w.now)) [
                | inl f ↦ absurd (ground arith)
                | inr (state, f) ↦ (nodes, (state, cc (rw (e, f, decide_round) at h)))
              ]
        ]

  -- The outcome of each group is that of `decide_group` on this round's nodes.
  pub decided_outcome :
      (d : Decided) (g : Group)
      → decide_round lib args w proxies (probe_round args w proxies) ≡ some d
      → (nodes : Dict (Dict Value)) × (d.outcome g
          ≡ decide_group lib g
              (group_now proxies g)
              (group_leaf_members proxies g)
              (build_node_stats nodes (probe_round args w proxies))
              (d.groups g)
              w.now
              args.params)
  unfolding decided_of
  decided_outcome d g h =
      let (nodes, rest) = round_parts (probe_round args w proxies) d h in
      (
        nodes,
        subst
            (λ (x : Decided).
              x.outcome g
              ≡ decide_group lib g (group_now proxies g) (group_leaf_members proxies g)
                  (build_node_stats nodes (probe_round args w proxies)) (x.groups g) w.now
                  args.params)
            rest.1 refl,
      )

  -- In a run of hysteresis mode that ends, where no leaf member of a group has the empty name, a PUT
  -- moves the group to a leaf member of it that answered in this round and is not the node that the
  -- group runs on.
  pub hysteresis_puts :
      (g : Group) (t : String)
      → run_main lib args w ≡ done r
      → w.proxies ≡ some proxies
      → args.decision_mode ≡ hysteresis
      → contains (group_leaf_members proxies g) "" ≡ false
      → r.puts g ≡ some t
      → (contains (group_leaf_members proxies g) t ≡ true)
        × (has_delay (get (probe_round args w proxies) t) ≡ true)
        × ¬ (group_now proxies g ≡ some t)
  unfolding puts_of executed
  hysteresis_puts g t h p m e put =
      let (d, decided, report) = thresholds_report (main_thresholds h p (λ l. cc (m, l))) in
      let (nodes, outcome) = decided_outcome d g decided in
      let probe = probe_round args w proxies in
      let chosen = executed args.decision_mode (plan_of lib proxies probe) d.outcome in
      let sent : puts_of args proxies chosen g ≡ some t =
        sym (ap (λ (f : Group → Option String). f g) (finish_puts probe d.streak (some d) chosen))
        ∙ ap (λ (x : Report). x.puts g) report
        ∙ put in
      let (target, dry, other) = put_for_inv args.dry_run (group_now proxies g) (chosen g) t sent in
      let picked : (d.outcome g).target ≡ some t = ground (arith, target, m) in
      let sound =
        decide_group_sound lib g (group_now proxies g) (group_leaf_members proxies g)
          (build_node_stats nodes probe) (d.groups g) w.now args.params t
          (build_node_stats_unique nodes probe) e
          (sym (ap (λ (o : Outcome). o.target) outcome) ∙ picked) in
      (
        sound.0,
        sym (delay_at-has_delay (get probe t))
            ∙ sym (build_node_stats-alive nodes probe t)
            ∙ sound.1,
        sound.2,
      )
