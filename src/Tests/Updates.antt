-- ===== src/Tests/Updates.antt =====
-- A refresh of two subscriptions, with a live CN node behind a recorded DEGRADED.
use mihomo_proxy_management.Prelude.{
  String, List, [], ◌∷◌, none, some, Bool, true, false, not, ◌||◌, ◌≡◌, refl, contains,
}
use mihomo_proxy_management.Prelude.Dict.{Dict, get}
use mihomo_proxy_management.Manager.Health
use mihomo_proxy_management.Manager.Health.{
  Degraded, cn_provider, cn_health, cn_reason, record_cn_health, record_ok, record_degraded,
}
use mihomo_proxy_management.Manager.Update.{
  Session, finished, foreign_provider, configured_targets, targets_of, refresh_all, failures_in,
  check_cn, sync_after, finish_update, update_subscription,
}
use mihomo_proxy_management.Manager.Update.Laws.{is_live, update_subscription-refreshed}
use mihomo_proxy_management.Tests.Hosts.{summary, was_degraded}
use mihomo_proxy_management.Tests.Installs.{setup}

-- There is no config.yaml yet, so that the changed state is not rendered.
abbrev session : Session
session = record {
  readable = true;
  has_secret = true;
  cn_configured = true;
  provider = none;
  refreshes = λ name. true;
  cn_summary = some summary;
  stored = some was_degraded;
  has_config = false;
  setup = λ d. setup;
}

abbrev providers : List String
providers = foreign_provider ∷ cn_provider ∷ []

abbrev all_refreshed : Dict Bool
all_refreshed = (foreign_provider, true) ∷ (cn_provider, true) ∷ []

abbrev recovered : Degraded
recovered = record was_degraded { cn = Health.ok; cn_details = [] }

refreshed :
    (targets_of session ≡ some providers)
    × (update_subscription session ≡ finished true all_refreshed (some recovered) [])
unfolding targets_of configured_targets update_subscription refresh_all finish_update failures_in
    check_cn sync_after record_cn_health cn_health cn_reason record_ok get
refreshed = (refl, refl)

update_subscription-refreshed_example :
    (session.refreshes cn_provider ≡ true)
    × (not session.cn_configured || is_live session.cn_summary ≡ true)
unfolding contains
update_subscription-refreshed_example =
    update_subscription-refreshed session providers cn_provider all_refreshed (some recovered) []
      refreshed.0 refl refreshed.1
