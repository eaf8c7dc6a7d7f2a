-- ===== src/Manager/Uninstall.antt =====
-- `uninstall` of linux/python/mpm/lifecycle.py, as what it does to the unit and the files.
pub mod Laws
use mihomo_proxy_management.Prelude.{
  String, List, [], ◌∷◌, ◌++◌, Option, none, some, Bool, true, false, not, ◌&&◌, if◌then◌else◌, map,
}

pub record Layout : Type 0 where
  pub unit : String
  pub unit_dropin_dir : String
  pub cli_entry : String
  pub libexec : String
  pub share : String
  pub etc : String
  pub var_lib : String
  pub run : String
  -- `_secrets_laid_out`
  pub secrets : List String
  pub is_project_path : String → Bool

pub record Request : Type 0 where
  pub purge : Bool
  pub assume_yes : Bool
  pub dry_run : Bool
  -- the unit file is there
  pub unit_present : Bool
  -- the exit codes of `systemctl disable --now` and `systemctl daemon-reload`
  pub disable_ok : Bool
  pub reload_ok : Bool

pub data Action : Type 0 where
  disable_now daemon_reload : Action
  remove : String → Action

abbrev pub Steps : Type 0
Steps = List Action × Bool

unfoldable pub discard : Bool → List String → List Action
discard dry_run [] = []
discard dry_run (p ∷ ps) =
    let rest = discard dry_run ps in if dry_run then rest else remove p ∷ rest

-- Each path is tested before it is removed; `false` is the FailClosed that ends the loop.
unfoldable pub discard_checked : (String → Bool) → Bool → List String → Steps
discard_checked is_project dry_run [] = ([], true)
discard_checked is_project dry_run (p ∷ ps) =
    let (rest, ends) = discard_checked is_project dry_run ps in
    if is_project p then (discard dry_run (p ∷ []) ++ rest, ends) else ([], false)

-- `canonical` is normpath of abspath
unfoldable pub purge_targets : (String → String) → Layout → List String
purge_targets canonical layout = map canonical (
    layout.cli_entry ∷ layout.libexec ∷ layout.share ∷ layout.etc ∷ layout.var_lib ∷ layout.run
    ∷ [])

unfoldable pub removals : (String → String) → Layout → Request → Steps
removals canonical layout request =
    if request.purge
    then discard_checked layout.is_project_path request.dry_run (purge_targets canonical layout)
    else let (actions, ends) =
        discard_checked layout.is_project_path request.dry_run layout.secrets in
      (
        actions
            ++ (if ends
                then discard request.dry_run (layout.cli_entry ∷ layout.libexec ∷ layout.share ∷ [])
                else []),
        ends,
      )

-- behind `disable_now`
unfoldable pub remove_files : (String → String) → Layout → Request → Steps
remove_files canonical layout request =
    let units = discard request.dry_run (layout.unit ∷ layout.unit_dropin_dir ∷ []) in
    let (actions, ends) = removals canonical layout request in
    if request.dry_run
    then (units ++ actions, ends)
    else if request.reload_ok
    then (units ++ daemon_reload ∷ actions, ends)
    else (units ++ daemon_reload ∷ [], false)

unfoldable pub uninstall : (String → String) → Layout → Request → Steps
uninstall canonical layout request =
    let (actions, ends) = remove_files canonical layout request in
    if request.purge && not request.assume_yes
    then ([], false)
    else if not request.unit_present
    then (actions, ends)
    else if request.disable_ok
    then (disable_now ∷ actions, ends)
    else (disable_now ∷ [], false)
