-- ===== src/Failover/Round/Modes.antt =====
-- The decision modes of scripts/proxy-auto-switch.py, and its dry run.
use mihomo_proxy_management.Prelude.{
  ℕ, String, List, [], ◌∷◌, Option, none, some, true, false, ◌≡◌, ◌≢◌, arith, refl, ap, sym, ◌∙◌,
  Option-cases, inl, inr,
}
use mihomo_proxy_management.Prelude.Dict.{Dict}
use mihomo_proxy_management.Json.{at}
use mihomo_proxy_management.Failover.Library.{Library}
use mihomo_proxy_management.Failover.Region.{Group}
use mihomo_proxy_management.Failover.Decide.{Outcome}
use mihomo_proxy_management.Failover.State.{count_of}
use mihomo_proxy_management.Failover.Plan.{Proxy}
use mihomo_proxy_management.Failover.Round.{
  DecisionMode, legacy, shadow, hysteresis, Args, World, group_now, retry, reprobe, measured_round,
  dead_currents, probe_round, plan_of, Decided, load_state, executed, put_for, puts_of, finish,
  Report, done, run_legacy, run_thresholds, run_main,
}
use mihomo_proxy_management.Failover.Round.Puts.{
  concluded-done, main_legacy, main_thresholds, thresholds_report,
}

put_for-dry : (current chosen : Option String) → put_for true current chosen ≡ none
unfolding put_for
put_for-dry current none = refl
put_for-dry current (some d) = ground arith

module _ (lib : Library) (args : Args) (w : World) (proxies : Dict Proxy) (r : Report) where
  -- What a run that ends with 0 did: it chose a node for each group, by the plan but in hysteresis
  -- mode, and finished with that choice.
  pub record Finished : Type 0 where
    pub streak : ℕ
    pub decided : Option Decided
    pub chosen : Group → Option String
    pub report : finish lib args w proxies (probe_round args w proxies) streak decided chosen ≡ r
    pub by_plan :
        args.decision_mode ≢ hysteresis → chosen ≡ plan_of lib proxies (probe_round args w proxies)

  legacy_finished : run_legacy lib args w proxies ≡ done r → Finished
  unfolding run_legacy
  legacy_finished h =
      elim (Option-cases (count_of lib (at (load_state w.stored) "all_dead_streak"))) [
        | inl e ↦ absurd (ground arith)
        | inr (n, e) ↦ record {
          streak = n;
          decided = none;
          chosen = plan_of lib proxies (probe_round args w proxies);
          report = concluded-done lib args w proxies r _ (cc (rw (e, run_legacy) at h));
          by_plan = λ _. refl;
        }
      ]

  executed-plan :
      (m : DecisionMode) (plan : Group → Option String) (outcome : Group → Outcome)
      → m ≢ hysteresis
      → executed m plan outcome ≡ plan
  unfolding executed
  executed-plan legacy plan outcome h = refl
  executed-plan shadow plan outcome h = refl
  executed-plan hysteresis plan outcome h = absurd (h refl)

  thresholds_finished : run_thresholds lib args w proxies ≡ done r → Finished
  thresholds_finished h =
      let (d, _, report) = thresholds_report lib args w proxies r h in
      let plan = plan_of lib proxies (probe_round args w proxies) in
      record {
        streak = d.streak;
        decided = some d;
        chosen = executed args.decision_mode plan d.outcome;
        report = report;
        by_plan = λ m. executed-plan args.decision_mode plan d.outcome m;
      }

  main_finished_in :
      (m : DecisionMode)
      → args.decision_mode ≡ m
      → run_main lib args w ≡ done r
      → w.proxies ≡ some proxies
      → Finished
  main_finished_in legacy m h p = legacy_finished (main_legacy lib args w proxies r h p m)
  main_finished_in _ m h p =
      thresholds_finished (main_thresholds lib args w proxies r h p (λ l. cc (m, l)))

  pub main_finished : run_main lib args w ≡ done r → w.proxies ≡ some proxies → Finished
  main_finished = main_finished_in args.decision_mode refl

  -- A dry run that ends sends no PUT, alerts nobody and saves no state.
  pub dry_run_inert :
      run_main lib args w ≡ done r
      → w.proxies ≡ some proxies
      → args.dry_run ≡ true
      → ((g : Group) → r.puts g ≡ none) × (r.alerted ≡ false) × (r.saved ≡ none)
  unfolding finish puts_of
  dry_run_inert h p dry =
      let f = main_finished h p in
      (
        λ g.
            sym (ap (λ (x : Report). x.puts g) f.report)
            ∙ ap (λ b. put_for b (group_now proxies g) (f.chosen g)) dry
            ∙ put_for-dry (group_now proxies g) (f.chosen g),
        sym (ap (λ (x : Report). x.alerted) f.report) ∙ ground arith,
        sym (ap (λ (x : Report). x.saved) f.report) ∙ ground arith,
      )

reprobe-zero :
    (request_delay : String → ℕ → Option ℕ) (ns : List String) (delays : Dict (Option ℕ))
    → reprobe request_delay ns delays 0 ≡ delays
unfolding reprobe retry
reprobe-zero request_delay [] delays = refl
reprobe-zero request_delay (n ∷ ns) delays = ground (arith, reprobe-zero request_delay ns delays)

probe_round-no_retry :
    (args : Args) (w : World) (proxies : Dict Proxy)
    → args.params.retry_current ≡ 0
    → probe_round args w proxies ≡ measured_round w proxies
unfolding probe_round
probe_round-no_retry args w proxies h = rw h (
    rw (reprobe-zero w.request_delay (dead_currents w proxies) (measured_round w proxies))
      (ground arith))

planned_puts :
    (lib : Library) (args : Args) (w : World) (proxies : Dict Proxy) (r : Report) (g : Group)
    → run_main lib args w ≡ done r
    → w.proxies ≡ some proxies
    → args.decision_mode ≢ hysteresis
    → args.params.retry_current ≡ 0
    → r.puts g
      ≡ put_for args.dry_run
          (group_now proxies g)
          (plan_of lib proxies (measured_round w proxies) g)
unfolding puts_of finish
planned_puts lib args w proxies r g h p m n =
    let f = main_finished lib args w proxies r h p in
    sym (ap (λ (x : Report). x.puts g) f.report)
    ∙ ap (λ (c : Group → Option String). put_for args.dry_run (group_now proxies g) (c g))
        (f.by_plan m)
    ∙ ap
        (λ (d : Dict (Option ℕ)).
          put_for args.dry_run (group_now proxies g) (plan_of lib proxies d g))
        (probe_round-no_retry args w proxies n)

-- With no retries of dead current nodes, shadow mode sends the PUTs that legacy mode sends in the same
-- world, where both runs end and both are dry runs or neither is.
pub shadow-eq-legacy :
    (lib : Library) (args other : Args) (w : World) (proxies : Dict Proxy) (r s : Report)
    → w.proxies ≡ some proxies
    → args.decision_mode ≡ shadow
    → other.decision_mode ≡ legacy
    → args.params.retry_current ≡ 0
    → other.params.retry_current ≡ 0
    → args.dry_run ≡ other.dry_run
    → run_main lib args w ≡ done r
    → run_main lib other w ≡ done s
    → (g : Group) → r.puts g ≡ s.puts g
shadow-eq-legacy lib args other w proxies r s p ms ml rs rl dry hr hs g =
    planned_puts lib args w proxies r g hr p (λ e. cc (e, ms)) rs
    ∙ ap (λ b. put_for b (group_now proxies g) (plan_of lib proxies (measured_round w proxies) g))
        dry
    ∙ sym (planned_puts lib other w proxies s g hs p (λ e. cc (e, ml)) rl)
