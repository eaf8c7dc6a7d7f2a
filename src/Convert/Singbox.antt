-- ===== src/Convert/Singbox.antt =====
-- `convert_singbox_node` of scripts/convert_sub.py: an outbound of sing-box becomes a proxy.
pub mod Options
pub mod Tables
pub mod Tls
pub mod Transport
pub mod Keeps
pub mod Agreement
pub mod Credentials
pub mod Laws
use mihomo_proxy_management.Prelude.{
  ℕ, ◌+◌, String, List, [], ◌∷◌, Option, none, some, Bool, not, ◌&&◌, str_eq, all, if◌then◌else◌,
}
use mihomo_proxy_management.Prelude.Text.{append}
use mihomo_proxy_management.Prelude.Dict.{Dict, get, put}
use mihomo_proxy_management.Json.{Value, ℤ, text, int, at}
use mihomo_proxy_management.Json
use mihomo_proxy_management.Convert.Library.{Library}
use mihomo_proxy_management.Convert.Result.{Result, ok, err, bad_input, unsupported, ◌>>=◌}
use mihomo_proxy_management.Convert.Uri.{in_port_range}
use mihomo_proxy_management.Convert.Proxies.{Kind, kind_name}
use Options.{truthy_value, copy_options, check_fields}
use Tables.{fields_of, durations_of, scale_of, dial_fields, allowed_of, required_of}
use Tls.{apply_tls}
use Transport.{apply_transport, apply_obfs, apply_multiplex}

-- if any(not proxy.get(key) for key in required): raise
unfoldable pub require : List String → Dict Value → Result (Dict Value)
require names proxy =
    if all (λ key. truthy_value (at proxy key)) names then ok proxy else err bad_input

module _ (lib : Library) where
  unfoldable pub duration_in : Option (String × String) → ℕ → Result ℤ
  duration_in none scale = err bad_input
  duration_in (some (number, unit)) scale = elim (lib.duration_product number unit scale) [
    | none ↦ err unsupported
    | some z ↦ ok z
  ]

  -- `_duration`
  unfoldable pub duration : Value → ℕ → Result ℤ
  duration (text s) scale = duration_in (lib.duration_groups s) scale
  duration _ scale = err bad_input

  unfoldable pub copy_durations :
      List (String × String) → ℕ → Dict Value → Dict Value → Result (Dict Value)
  copy_durations [] scale node proxy = ok proxy
  copy_durations ((source, target) ∷ ds) scale node proxy = elim (get node source) [
    | none ↦ copy_durations ds scale node proxy
    | some v ↦ do z ← duration v scale; copy_durations ds scale node (put proxy target (int z))
  ]

  -- node.get("tag") or f"node#{index + 1}", which must be a text
  unfoldable pub tag_name : Value → ℕ → Result String
  tag_name (text s) index = ok (if str_eq s "" then append "node#" (lib.show (index + 1)) else s)
  tag_name v index =
      if truthy_value v then err bad_input else ok (append "node#" (lib.show (index + 1)))

  unfoldable pub start_proxy : Kind → Value → Value → Value → ℕ → Result (Dict Value)
  start_proxy kind (text server) (int port) tag index =
      elim (not (str_eq (lib.strip server) "") && in_port_range port) [
        | Bool.false ↦ err bad_input
        | Bool.true ↦ do
          name ← tag_name tag index
          ok (
              ("name", text name)
              ∷ ("type", text (kind_name kind))
              ∷ ("server", text server)
              ∷ ("port", int port)
              ∷ ("udp", Json.true)
              ∷ [])
      ]
  start_proxy kind _ _ tag index = err bad_input

  -- the options that the type and the dialling have, up to the check of the credentials
  unfoldable pub fill_proxy : Kind → Dict Value → Dict Value → Result (Dict Value)
  fill_proxy kind node started = do
    dialled ← copy_options dial_fields node started
    filled ← copy_options (fields_of kind) node dialled
    require (required_of kind) filled

  -- the rest of the options
  unfoldable pub finish_proxy : Kind → Dict Value → Dict Value → Result (Dict Value)
  finish_proxy kind node checked = do
    timed ← copy_durations (durations_of kind) (scale_of kind) node checked
    secured ← apply_tls kind node timed
    carried ← apply_transport node secured
    obscured ← apply_obfs node carried
    apply_multiplex kind node obscured

  -- The outbound `node` of a type of SINGBOX_TYPES.
  unfoldable pub convert_singbox_node : Kind → Dict Value → ℕ → Result (Dict Value)
  convert_singbox_node kind outbound index = do
    node ← check_fields outbound (allowed_of kind)
    started ← start_proxy kind (at node "server") (at node "server_port") (at node "tag") index
    checked ← fill_proxy kind node started
    finish_proxy kind node checked
