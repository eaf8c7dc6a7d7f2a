-- ===== src/Tests/Rounds.antt =====
-- The theorems on whole runs, at the runs of Runs.antt.
use mihomo_proxy_management.Prelude.{arith, none, some, true, false, ◌≡◌, refl, contains}
use mihomo_proxy_management.Prelude.Dict.{get}
use mihomo_proxy_management.Failover.Region.{Group, gpt, us_fast}
use mihomo_proxy_management.Failover.Plan.{group_leaf_members}
use mihomo_proxy_management.Failover.Round.{
  legacy, shadow, hysteresis, has_delay, probe_round, group_now, load_state,
}
use mihomo_proxy_management.Failover.Round.Puts.{hysteresis_puts}
use mihomo_proxy_management.Failover.Round.Modes.{dry_run_inert, shadow-eq-legacy}
use mihomo_proxy_management.Failover.Round.Debounce.{file_of, alert_once, unannounced_recovery}
use mihomo_proxy_management.Failover.Round.Payload.{History}
use mihomo_proxy_management.Failover.Round.Restart.{run_main-migrate_group}
use mihomo_proxy_management.Failover.Coerce.{recent_ts}
use mihomo_proxy_management.Failover.State.{texts, migrate_group}
use mihomo_proxy_management.Tests.Fixtures.{demo, demo-IsLawful, later}
use mihomo_proxy_management.Tests.Runs.{
  proxies, args, answering, silent, first_report, dry_report, shadow_report, legacy_report, outage,
  long_outage, still_silent, blip, back, recovery, saved_by, runs, outage_alerts,
  long_outage_alerts, blip_alerts, recovery_alerts, first_saved,
}

hysteresis_puts_example :
    (contains (group_leaf_members proxies gpt) "US 2" ≡ true)
    × (has_delay (get (probe_round (args hysteresis false) (answering none) proxies) "US 2") ≡ true)
    × ¬ (group_now proxies gpt ≡ some "US 2")
hysteresis_puts_example =
    hysteresis_puts demo (args hysteresis false) (answering none) proxies first_report gpt "US 2"
      runs.0 refl refl runs.2 runs.1

dry_run_inert_example :
    ((g : Group) → dry_report.puts g ≡ none)
    × (dry_report.alerted ≡ false)
    × (dry_report.saved ≡ none)
dry_run_inert_example =
    dry_run_inert demo (args hysteresis true) (answering none) proxies dry_report runs.3 refl refl

shadow-eq-legacy_example : shadow_report.puts us_fast ≡ legacy_report.puts us_fast
shadow-eq-legacy_example =
    shadow-eq-legacy demo (args shadow false) (args legacy false) (answering none) proxies
      shadow_report legacy_report refl refl refl refl refl refl runs.4 runs.5 us_fast

alert_once_example : long_outage.alerted ≡ false
alert_once_example =
    alert_once demo (args legacy false) (args legacy false) (silent none) still_silent proxies
      proxies outage long_outage (saved_by outage) refl refl outage_alerts.0 outage_alerts.1 refl
      long_outage_alerts.0 long_outage_alerts.1 outage_alerts.2

unannounced_recovery_example : recovery.alerted ≡ true
unannounced_recovery_example =
    unannounced_recovery demo (args hysteresis false) (args hysteresis false) (silent none) back
      proxies proxies blip recovery (saved_by blip) refl refl refl blip_alerts.0 blip_alerts.1
      blip_alerts.2 blip_alerts.3 refl recovery_alerts.0 refl recovery_alerts.1

-- The run moved GPT to US 2, and the controller runs it when the next run starts.
run_main-migrate_group_example :
    (h : History) × ((saved_by first_report).history ≡ some h)
    × (migrate_group demo
          (load_state (some (file_of (saved_by first_report))))
          gpt
          (some "US 2")
          later
        ≡ some (record (h.groups gpt) {
          switch_ts_24h = recent_ts demo (texts (h.groups gpt).switch_ts_24h) later 24;
        }))
run_main-migrate_group_example =
    run_main-migrate_group demo (args hysteresis false) (answering none) proxies first_report
      (saved_by first_report) gpt "US 2" later demo-IsLawful refl (λ e. absurd (ground (arith, e)))
      runs.0 first_saved.0 first_saved.1 refl
