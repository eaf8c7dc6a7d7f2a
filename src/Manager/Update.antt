-- ===== src/Manager/Update.antt =====
-- `update_subscription` of linux/python/mpm/lifecycle.py, on the answers of the controller.
pub mod Laws
use mihomo_proxy_management.Prelude.{
  ℕ, suc, ◌+◌, String, List, [], ◌∷◌, ◌++◌, Option, none, some, Bool, true, false, not, ◌&&◌, ◌||◌,
  ◌==◌, contains, if◌then◌else◌,
}
use mihomo_proxy_management.Prelude.Dict.{Dict}
use mihomo_proxy_management.Manager.Health.{
  Summary, Degraded, degraded, is_degraded, other, cn_provider, Recorded, record_cn_health,
}
use mihomo_proxy_management.Manager.Configure.{Action, Setup, sync_cn_routing}

-- What the operation meets.
pub record Session : Type 0 where
  -- _can_read_secrets
  pub readable : Bool
  -- the stored secret is not empty
  pub has_secret : Bool
  pub cn_configured : Bool
  -- the provider that is asked for
  pub provider : Option String
  -- refresh_provider and healthcheck do not raise
  pub refreshes : String → Bool
  -- the summary of the CN provider, `none` where the controller fails
  pub cn_summary : Option (Dict Summary)
  -- `load_degraded`; `none` where it raises FailClosed
  pub stored : Option Degraded
  pub has_config : Bool
  -- what `configure` meets, with the record that is stored by then
  pub setup : Degraded → Setup

-- FOREIGN_PROVIDER
abbrev pub foreign_provider : String
foreign_provider = "subscription-foreign"

-- A FailClosed before anything was refreshed, or the end: whether it succeeded, what became of each
-- provider, the record that was saved, and the actions of `configure`. `broken_state` is the FailClosed of
-- `load_degraded`, which the handler of the CN check calls once more.
pub data Update : Type 0 where
  refused : Update
  broken_state : Dict Bool → Update
  finished : Bool → Dict Bool → Option Degraded → List Action → Update

unfoldable pub configured_targets : Bool → List String
configured_targets cn_configured =
    foreign_provider ∷ (if cn_configured then cn_provider ∷ [] else [])

-- the providers to refresh; `none` is the FailClosed of an unknown one
unfoldable pub targets_of : Session → Option (List String)
targets_of session = elim session.provider [
  | none ↦ some (configured_targets session.cn_configured)
  | some name ↦
      if contains (configured_targets session.cn_configured) name then some (name ∷ []) else none
]

-- the loop over the targets: the results
unfoldable pub refresh_all : Session → List String → Dict Bool
refresh_all session [] = []
refresh_all session (name ∷ names) = (name, session.refreshes name) ∷ refresh_all session names

unfoldable pub failures_in : Dict Bool → ℕ
failures_in [] = 0
failures_in ((name, refreshed) ∷ results) =
    let rest = failures_in results in if refreshed then rest else suc rest

-- The CN state after the refresh: the failures, the record saved, and whether the state changed.
unfoldable pub check_cn : Session → Degraded → ℕ × Option Degraded × Bool
check_cn session stored = elim session.cn_summary [
  | none ↦ (
    1,
    some (record stored {
      cn = degraded;
      cn_details =
          other
            "CN provider liveness unreadable after refresh; CN-EXIT does not fall back to DIRECT or a foreign node"
          ∷ [];
    }),
    not (is_degraded stored.cn),
  )
  | some summary ↦
      let recorded = record_cn_health true summary stored in
      (if is_degraded recorded.state then 1 else 0, recorded.saved, recorded.changed)
]

abbrev record_now : Option Degraded → Degraded → Degraded
record_now none stored = stored
record_now (some saved) stored = saved

abbrev count_unsynced : List Action × Bool → ℕ → List Action × ℕ
count_unsynced (actions, true) failures = (actions, failures)
count_unsynced (actions, false) failures = (actions, suc failures)

-- the CN rules follow a changed state
unfoldable pub sync_after : Session → Degraded → ℕ × Option Degraded × Bool → List Action × ℕ
sync_after session stored (failures, saved, changed) =
    if changed && session.has_config
    then count_unsynced (sync_cn_routing (session.setup (record_now saved stored))) failures
    else ([], failures)

unfoldable pub finish_update : Session → Dict Bool → Update
finish_update session results =
    if session.cn_configured
    then elim session.stored [
      | none ↦ broken_state results
      | some stored ↦
          let (actions, failures) = sync_after session stored (check_cn session stored) in
          finished (failures_in results + failures == 0) results (check_cn session stored).1 actions
    ]
    else finished (failures_in results == 0) results none []

unfoldable pub update_subscription : Session → Update
update_subscription session =
    if not session.readable || not session.has_secret then refused else elim (targets_of session) [
      | none ↦ refused
      | some targets ↦ finish_update session (refresh_all session targets)
    ]
