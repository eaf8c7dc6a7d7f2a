-- ===== src/Manager/Service.antt =====
-- `start`, `stop` and `restart` of linux/python/mpm/lifecycle.py, with `wait_active` and `wait_stopped` of
-- linux/python/mpm/systemdctl.py. What an operation meets is a `Host`, what it does to the unit the list of its actions.
pub mod Laws
use mihomo_proxy_management.Prelude.{
  ℕ, zero, suc, ◌+◌, String, List, [], ◌∷◌, ◌++◌, Option, none, some, Bool, true, false, not, ◌&&◌,
  str_eq, if◌then◌else◌,
}
use mihomo_proxy_management.Manager.Health.{Degraded, is_reported}

pub record Host : Type 0 where
  -- whether the unit is active, each time that systemd is asked
  pub polls : ℕ → Bool
  pub unit_installed : Bool
  pub config_present : Bool
  -- `check_output_mode` does not raise
  pub config_mode_ok : Bool
  -- `port_occupants` of the three ports
  pub occupants : List (ℕ × String)
  -- the exit codes of `systemctl start` and `systemctl stop`
  pub start_ok : Bool
  pub stop_ok : Bool
  -- `_read_controller_secret` returns a text that is not empty
  pub has_secret : Bool
  -- whether GET /version answers with a version, at each try
  pub versions : ℕ → Bool
  -- `load_degraded`; `none` where it raises FailClosed
  pub degraded : Option Degraded

-- The calls of systemctl that change the unit. Those that only ask, `systemctl show` and `list-unit-files`, are the
-- answers `polls` and `unit_installed` of the host.
pub data Action : Type 0 where
  systemctl_start systemctl_stop : Action

pub data Status : Type 0 where
  ok unchanged degraded : Status

pub data Failure : Type 0 where
  unit_missing config_missing config_mode ports_held start_failed stop_failed no_secret
        broken_state :
      Failure
  not_active still_active not_answering : Failure

pub data Result : Type 0 where
  failed : Failure → Result
  done : Status → Result

pub record Operation : Type 0 where
  pub actions : List Action
  pub result : Result
  -- how often systemd was asked until then
  pub asked : ℕ

abbrev pub same_bool : Bool → Bool → Bool
same_bool true b = b
same_bool false b = not b

-- Poll until the answer is the wanted one: so many times, and once more.
unfoldable pub wait_for : Bool → (ℕ → Bool) → ℕ → ℕ → Bool × ℕ
wait_for wanted polls zero i = (same_bool wanted (polls i), i + 1)
wait_for wanted polls (suc attempts) i =
    let later = wait_for wanted polls attempts (i + 1) in
    if same_bool wanted (polls i) then (true, i + 1) else later

abbrev pub wait_active : (ℕ → Bool) → ℕ → Bool × ℕ
wait_active polls i = wait_for true polls 40 i

abbrev pub wait_stopped : (ℕ → Bool) → ℕ → Bool × ℕ
wait_stopped polls i = wait_for false polls 20 i

abbrev pub unit_name : String
unit_name = "mihomo-proxy-management.service"

-- the blockers of `_assert_ports_free`
unfoldable pub blockers : List (ℕ × String) → List (ℕ × String)
blockers [] = []
blockers ((port, owner) ∷ occupants) =
    let rest = blockers occupants in if str_eq owner unit_name then rest else (port, owner) ∷ rest

abbrev pub is_free : List (ℕ × String) → Bool
is_free [] = true
is_free (b ∷ bs) = false

-- the loop of `_ready`, over the tries that are left
unfoldable pub answers : (ℕ → Bool) → ℕ → ℕ → Bool
answers versions zero i = false
answers versions (suc attempts) i =
    let later = answers versions attempts (i + 1) in if versions i then true else later

unfoldable pub ready : Host → Option Failure
ready host =
    if not host.has_secret
    then some no_secret
    else if answers host.versions 20 0
    then none
    else some not_answering

-- the status at the end, by the recorded degradation
unfoldable pub status_or : Host → Status → Result
status_or host status = elim host.degraded [
  | none ↦ failed broken_state
  | some d ↦ done (if is_reported d then degraded else status)
]

-- what holds a start back before `systemctl start`
unfoldable pub obstacle : Host → Option Failure
obstacle host =
    if not host.unit_installed
    then some unit_missing
    else if not host.config_present
    then some config_missing
    else if not host.config_mode_ok
    then some config_mode
    else if is_free (blockers host.occupants)
    then none
    else some ports_held

-- behind `systemd.start()`
unfoldable pub started : Host → ℕ → Operation
started host i =
    let (active, asked) = wait_active host.polls i in
    record {
      actions = systemctl_start ∷ [];
      result =
          if not host.start_ok
          then failed start_failed
          else if not active
          then failed not_active
          else elim (ready host) [ none ↦ status_or host ok | some f ↦ failed f ];
      asked = asked;
    }

-- `i` is how often systemd was asked before
unfoldable pub start : Host → ℕ → Operation
start host i =
    if host.polls i
    then record { actions = []; result = status_or host unchanged; asked = i + 1 }
    else elim (obstacle host) [
      | none ↦ started host (i + 1)
      | some f ↦ record { actions = []; result = failed f; asked = i + 1 }
    ]

unfoldable pub stop : Host → ℕ → Operation
stop host i =
    if not (host.polls i)
    then record { actions = []; result = done unchanged; asked = i + 1 }
    else let (stopped, asked) = wait_stopped host.polls (i + 1) in
      record {
        actions = systemctl_stop ∷ [];
        result =
            if not host.stop_ok
            then failed stop_failed
            else if stopped
            then done ok
            else failed still_active;
        asked = asked;
      }

-- stop, and start where that returns
unfoldable pub restart : Host → ℕ → Operation
restart host i =
    let stopping = stop host i in
    let starting = start host stopping.asked in
    elim stopping.result [
      | failed f ↦ stopping
      | done s ↦ record starting { actions = stopping.actions ++ starting.actions }
    ]
