-- ===== src/Manager/Configure.antt =====
-- `configure` of linux/python/mpm/lifecycle.py, as what it does to the files. A rendered text ends in one newline, as the
-- file that is written does.
pub mod Laws
use mihomo_proxy_management.Prelude.{
  String, List, [], ◌∷◌, ◌++◌, Option, none, some, Bool, true, false, not, ◌&&◌, ◌||◌, str_eq,
  if◌then◌else◌, ◌>>=◌, filter,
}
use mihomo_proxy_management.Manager.Preflight.{Preflight}
use mihomo_proxy_management.Manager.Health.{Cn, disabled, Degraded, is_degraded, degraded_record}

-- What `configure` meets; what is `none` raises.
pub record Setup : Type 0 where
  pub check_only : Bool
  -- `ctx.preflight(strict=not check_only)`
  pub preflight : Option Preflight
  -- `resolve_secrets`: whether there is a CN subscription
  pub has_cn : Option Bool
  -- `load_degraded`
  pub existing : Option Degraded
  -- `_render`, for the health of CN
  pub render : Preflight → Cn → Option String
  -- `audit` of a text, with cn_configured and cn_live, does not raise
  pub audit : String → Bool → Bool → Bool
  -- the text of the live config.yaml, where there is one
  pub current : Option String
  -- `check_output_mode` of the live file does not raise
  pub mode_ok : Bool
  -- the mode of the live file is 0600
  pub mode_exact : Bool
  -- the mihomo binary, where it is installed: whether it accepts the candidate
  pub accepts : Option (String → Bool)

pub data Action : Type 0 where
  write_candidate replace_config : String → Action
  backup save_plan : Action
  save_degraded : Degraded → Action

pub data Status : Type 0 where
  unchanged changed failed : Status

abbrev is_current : Option String → String → Bool
is_current none rendered = false
is_current (some text) rendered = str_eq text rendered

-- `is_noop` of atomicio.py for the live file, at mode 0600
abbrev pub is_noop : Setup → String → Bool
is_noop setup rendered = is_current setup.current rendered && setup.mode_exact

-- `_validate_with_mihomo`, where only the refusal of a binary stops the run
abbrev pub is_rejected : Option (String → Bool) → String → Bool
is_rejected none candidate = false
is_rejected (some accepts) candidate = not (accepts candidate)

-- with `check_only`: nothing is written
unfoldable pub checked : Setup → String → List Action × Status
checked setup rendered =
    ([], if is_current setup.current rendered && setup.mode_ok then unchanged else failed)

-- the temporary file, its test, and the replacement of the live file
unfoldable pub replaced : Setup → String → Degraded → List Action × Status
replaced setup rendered record_ =
    if is_rejected setup.accepts rendered then (write_candidate rendered ∷ [], failed) else (
      write_candidate rendered
          ∷ backup
          ∷ replace_config rendered
          ∷ save_plan
          ∷ save_degraded record_
          ∷ [],
      changed,
    )

-- from the rendered text on
unfoldable pub installed : Setup → Preflight → Bool → Degraded → String → List Action × Status
installed setup preflight has_cn existing rendered =
    let saved = degraded_record has_cn preflight existing in
    if not (setup.audit rendered has_cn (not (is_degraded existing.cn)))
    then ([], failed)
    else if setup.check_only
    then checked setup rendered
    else if is_noop setup rendered
    then (save_plan ∷ save_degraded saved ∷ [], unchanged)
    else replaced setup rendered saved

abbrev or_failed : Option (List Action × Status) → List Action × Status
or_failed none = ([], failed)
or_failed (some r) = r

unfoldable pub configure : Setup → List Action × Status
configure setup = or_failed (do
  preflight ← setup.preflight
  has_cn ← setup.has_cn
  existing ← setup.existing
  rendered ← setup.render preflight (if has_cn then existing.cn else disabled)
  some (installed setup preflight has_cn existing rendered))

abbrev is_failed : Status → Bool
is_failed failed = true
is_failed _ = false

-- What `_sync_cn_routing` does and whether it succeeds. Unsupported, which the source lets through and which ends an
-- update without success, is a failure here.
unfoldable pub sync_cn_routing : Setup → List Action × Bool
sync_cn_routing setup = let (actions, status) = configure setup in (actions, not (is_failed status))
