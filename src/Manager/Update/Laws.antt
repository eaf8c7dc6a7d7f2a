-- ===== src/Manager/Update/Laws.antt =====
-- A refresh of linux/python/mpm/lifecycle.py that reports success has refreshed.
use mihomo_proxy_management.Prelude.{
  ℕ, String, List, [], ◌∷◌, Option, none, some, Bool, true, false, not, ◌||◌, ◌≡◌, arith, inl, inr,
  Bool-cases, Option-cases, contains, eq_iff,
}
use mihomo_proxy_management.Prelude.Dict.{Dict}
use mihomo_proxy_management.Manager.Health.{
  Summary, Degraded, is_degraded, cn_health, record_cn_health, record_disabled, record_degraded,
  record_ok,
}
use mihomo_proxy_management.Manager.Configure.{Action, sync_cn_routing}
use mihomo_proxy_management.Manager.Update.{
  Session, finished, targets_of, refresh_all, failures_in, check_cn, record_now, count_unsynced,
  sync_after, finish_update, update_subscription,
}

failures_in-zero :
    (session : Session) (names : List String) (name : String)
    → failures_in (refresh_all session names) ≡ 0
    → contains names name ≡ true
    → session.refreshes name ≡ true
unfolding failures_in refresh_all contains
failures_in-zero session [] name h m = ground arith
failures_in-zero session (n ∷ ns) name h m =
    ground (arith, failures_in-zero session ns name, eq_iff n name)

count_unsynced-le :
    (synced : List Action × Bool) (failures : ℕ)
    → (count_unsynced synced failures).1 ≡ 0
    → (failures ≡ 0) × (synced.1 ≡ true)
count_unsynced-le (actions, true) failures h = ground arith
count_unsynced-le (actions, false) failures h = ground arith

record_cn_health-live :
    (summary : Dict Summary) (stored : Degraded)
    → is_degraded (record_cn_health true summary stored).state
      ≡ is_degraded (cn_health true summary)
unfolding record_cn_health record_degraded record_ok record_disabled
record_cn_health-live summary stored = ground arith

-- The controller shows a CN provider with a live node.
abbrev pub is_live : Option (Dict Summary) → Bool
is_live none = false
is_live (some summary) = not (is_degraded (cn_health true summary))

check_cn-live :
    (session : Session) (stored : Degraded)
    → (check_cn session stored).0 ≡ 0
    → is_live session.cn_summary ≡ true
unfolding check_cn
check_cn-live session stored h = elim (Option-cases session.cn_summary) [
  | inl e ↦ absurd (ground arith)
  | inr (summary, e) ↦ ground (arith, record_cn_health-live summary stored)
]

sync_after-zero :
    (session : Session) (stored : Degraded) (checked : ℕ × Option Degraded × Bool)
    → (sync_after session stored checked).1 ≡ 0
    → checked.0 ≡ 0
unfolding sync_after
sync_after-zero session stored (failures, saved, changed) h =
    ground (
      arith,
      count_unsynced-le (sync_cn_routing (session.setup (record_now saved stored))) failures,
    )

finish_update-true :
    (session : Session) (refreshed results : Dict Bool) (saved : Option Degraded)
    → (actions : List Action)
    → finish_update session refreshed ≡ finished true results saved actions
    → (failures_in refreshed ≡ 0) × (not session.cn_configured || is_live session.cn_summary ≡ true)
unfolding finish_update
finish_update-true session refreshed results saved actions h =
    elim (Bool-cases session.cn_configured) [
      | inr c ↦ ground arith
      | inl c ↦ elim (Option-cases session.stored) [
        | inl e ↦ absurd (ground arith)
        | inr (stored, e) ↦ ground (
          arith,
          sync_after-zero session stored (check_cn session stored),
          check_cn-live session stored,
        )
      ]
    ]

-- An update that ends in success has refreshed each of its providers, and where a CN subscription is
-- configured the controller shows a live node of its provider.
pub update_subscription-refreshed :
    (session : Session) (targets : List String) (name : String) (results : Dict Bool)
    → (saved : Option Degraded) (actions : List Action) → targets_of session ≡ some targets
    → contains targets name ≡ true
    → update_subscription session ≡ finished true results saved actions
    → (session.refreshes name ≡ true)
      × (not session.cn_configured || is_live session.cn_summary ≡ true)
unfolding update_subscription
update_subscription-refreshed session targets name results saved actions t m h =
    elim (Bool-cases (not session.readable || not session.has_secret)) [
      | inl r ↦ absurd (ground arith)
      | inr r ↦ ground (
        arith,
        failures_in-zero session targets name,
        finish_update-true session (refresh_all session targets) results saved actions,
      )
    ]
