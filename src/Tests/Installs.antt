-- ===== src/Tests/Installs.antt =====
-- A first configuration, an uninstall, and the receiver of the alerts.
use mihomo_proxy_management.Prelude.{
  [], ◌∷◌, none, some, Bool, true, false, not, ◌||◌, ◌≡◌, refl, contains, if◌then◌else◌, str_eq,
}
use mihomo_proxy_management.Document.{Node, text, mapping, entry, end}
use mihomo_proxy_management.Manager.Preflight.{Preflight, tun}
use mihomo_proxy_management.Manager.Health.{
  Degraded, degraded, disabled, is_degraded, degraded_record,
}
use mihomo_proxy_management.Manager.Configure.{
  Setup, is_rejected, configure, installed, checked, replaced,
}
use mihomo_proxy_management.Manager.Configure.Laws.{
  saved_record, replacement, configure-replaces, configure-keeps,
}
use mihomo_proxy_management.Manager.Uninstall.{
  Layout, Request, disable_now, uninstall, remove_files, removals, discard, discard_checked,
}
use mihomo_proxy_management.Manager.Uninstall.Laws.{
  removes, fixed_paths, uninstall-removes, uninstall-dry,
}

abbrev host : Preflight
host = record {
  supported = true;
  reasons = [];
  mode = tun;
  degraded_reasons = [];
  arch = "x86_64";
  asset_suffix = "amd64-v3";
  distro = "debian";
  distro_version = "12";
  root = true;
  systemd = true;
}

abbrev dead_cn : Degraded
dead_cn = record { active = false; mode = tun; reasons = []; cn = degraded; cn_details = [] }

abbrev pub setup : Setup
setup = record {
  check_only = false;
  preflight = some host;
  has_cn = some true;
  existing = some dead_cn;
  render = λ p cn. some (if is_degraded cn then "refuse cn" else "route cn");
  audit = λ t has_cn live. true;
  current = none;
  mode_ok = true;
  mode_exact = true;
  accepts = some (λ t. true);
}

configured :
    (replacement (configure setup).0 ≡ some "refuse cn")
    × (saved_record (configure setup).0 ≡ some (degraded_record true host dead_cn))
unfolding configure installed checked replaced degraded_record
configured = (refl, refl)

configure-replaces_example :
    (setup.check_only ≡ false)
    × (is_rejected setup.accepts "refuse cn" ≡ false)
    × ((preflight : Preflight) × (has_cn : Bool) × (existing : Degraded) × (setup.preflight
          ≡ some preflight)
        × (setup.has_cn ≡ some has_cn)
        × (setup.existing ≡ some existing)
        × (setup.render preflight (if has_cn then existing.cn else disabled) ≡ some "refuse cn")
        × (setup.audit "refuse cn" has_cn (not (is_degraded existing.cn)) ≡ true))
configure-replaces_example = configure-replaces setup "refuse cn" configured.0

configure-keeps_example : is_degraded (degraded_record true host dead_cn).cn ≡ true
configure-keeps_example =
    configure-keeps setup dead_cn (degraded_record true host dead_cn) refl refl refl configured.1

abbrev layout : Layout
layout = record {
  unit = "/unit";
  unit_dropin_dir = "/unit.d";
  cli_entry = "/bin/cli";
  libexec = "/libexec";
  share = "/share";
  etc = "/etc/p";
  var_lib = "/var/p";
  run = "/run/p";
  secrets = "/etc/p/env" ∷ [];
  is_project_path = λ p. str_eq p "/etc/p/env" || str_eq p "/etc/p";
}

abbrev request : Bool → Request
request dry = record {
  purge = false;
  assume_yes = false;
  dry_run = dry;
  unit_present = true;
  disable_ok = true;
  reload_ok = true;
}

removed : removes (uninstall (λ p. p) layout (request false)).0 "/etc/p/env" ≡ true
unfolding uninstall remove_files removals discard discard_checked
removed = refl

uninstall-removes_example :
    layout.is_project_path "/etc/p/env" || contains (fixed_paths layout) "/etc/p/env" ≡ true
uninstall-removes_example = uninstall-removes (λ p. p) layout (request false) "/etc/p/env" removed

uninstall-dry_example :
    (uninstall (λ p. p) layout (request true)).0 ≡ (if true then disable_now ∷ [] else [])
uninstall-dry_example = uninstall-dry (λ p. p) layout (request true) refl refl

abbrev target : Node
target = mapping (entry "chat_id" (text "oc_1") end)
