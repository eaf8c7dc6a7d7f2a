-- ===== src/Convert/Singbox/Tls.antt =====
-- The part of `convert_singbox_node` that maps `tls`.
use mihomo_proxy_management.Prelude.{
  String, [], ◌∷◌, Option, none, some, Bool, true, false, str_eq, if◌then◌else◌,
}
use mihomo_proxy_management.Prelude.Dict.{Dict, get, put}
use mihomo_proxy_management.Json.{Value, text, object, field, end}
use mihomo_proxy_management.Json
use mihomo_proxy_management.Convert.Result.{Result, ok, err, bad_input, unsupported, ◌>>=◌}
use mihomo_proxy_management.Convert.Proxies.{Kind, anytls, ss, trojan, vless, tuic, hysteria2}
use mihomo_proxy_management.Convert.Singbox.Options.{
  copy_options, check_fields, table_at, enabled_in,
}
use mihomo_proxy_management.Convert.Singbox.Tables.{tls_fields}

abbrev filled_of : Option Value → Result String
filled_of (some (text s)) = if str_eq s "" then err bad_input else ok s
filled_of _ = err bad_input

-- the option where it is a text that is not empty
unfoldable pub filled_at : Dict Value → String → Result String
filled_at d key = filled_of (get d key)

abbrev text_of : Option Value → Result String
text_of none = ok ""
text_of (some (text s)) = ok s
text_of (some _) = err bad_input

-- the option where it is a text, an empty one where it is missing
unfoldable pub text_at : Dict Value → String → Result String
text_at d key = text_of (get d key)

unfoldable pub enable_tls : Kind → Dict Value → Result (Dict Value)
enable_tls ss proxy = err unsupported
enable_tls vless proxy = ok (put proxy "tls" Json.true)
enable_tls _ proxy = ok proxy

unfoldable pub maps_utls : Kind → Bool
maps_utls vless = true
maps_utls trojan = true
maps_utls anytls = true
maps_utls _ = false

unfoldable pub maps_reality : Kind → Bool
maps_reality vless = true
maps_reality _ = false

-- the protocols that are nothing without TLS
unfoldable pub always_tls : Kind → Bool
always_tls trojan = true
always_tls anytls = true
always_tls tuic = true
always_tls hysteria2 = true
always_tls _ = false

unfoldable pub put_fingerprint : Bool → Dict Value → Dict Value → Result (Dict Value)
put_fingerprint false option proxy = err unsupported
put_fingerprint true option proxy = do
  fingerprint ← filled_at option "fingerprint"
  ok (put proxy "client-fingerprint" (text fingerprint))

unfoldable pub apply_utls : Kind → Dict Value → Dict Value → Result (Dict Value)
apply_utls kind tls proxy = do
  table ← table_at tls "utls"
  enabled ← enabled_in table
  option ← check_fields table ("enabled" ∷ "fingerprint" ∷ [])
  if enabled then put_fingerprint (maps_utls kind) option proxy else ok proxy

unfoldable pub put_reality : Bool → Dict Value → Dict Value → Result (Dict Value)
put_reality false option proxy = err unsupported
put_reality true option proxy = do
  key ← filled_at option "public_key"
  id ← text_at option "short_id"
  ok (
      put proxy "reality-opts"
        (object (field "public-key" (text key) (field "short-id" (text id) end))))

unfoldable pub apply_reality : Kind → Dict Value → Dict Value → Result (Dict Value)
apply_reality kind tls proxy = do
  table ← table_at tls "reality"
  enabled ← enabled_in table
  option ← check_fields table ("enabled" ∷ "public_key" ∷ "short_id" ∷ [])
  if enabled then put_reality (maps_reality kind) option proxy else ok proxy

unfoldable pub apply_enabled : Kind → Dict Value → Dict Value → Result (Dict Value)
apply_enabled kind tls proxy = do
  flagged ← enable_tls kind proxy
  copied ← copy_options (tls_fields kind) tls flagged
  imitated ← apply_utls kind tls copied
  apply_reality kind tls imitated

-- An option that is there and not enabled.
unfoldable pub apply_disabled : Kind → Dict Value → Dict Value → Result (Dict Value)
apply_disabled kind [] proxy = ok proxy
apply_disabled kind (kv ∷ tls) proxy = if always_tls kind then err unsupported else ok proxy

unfoldable pub apply_tls : Kind → Dict Value → Dict Value → Result (Dict Value)
apply_tls kind node proxy = do
  table ← table_at node "tls"
  tls ←
      check_fields table ("enabled" ∷ "server_name" ∷ "insecure" ∷ "alpn" ∷ "utls" ∷ "reality" ∷ [])
  enabled ← enabled_in tls
  if enabled then apply_enabled kind tls proxy else apply_disabled kind tls proxy
