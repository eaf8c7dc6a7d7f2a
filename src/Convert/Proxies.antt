-- ===== src/Convert/Proxies.antt =====
-- The proxies that the URI parsers of scripts/convert_sub.py build from the parts of a URI.
pub mod Agreement
use mihomo_proxy_management.Prelude.{
  ℕ, ◌+◌, String, List, [], ◌∷◌, ◌++◌, Option, none, some, Bool, true, false, not, ◌&&◌, ◌||◌,
  str_eq, any, is_some, contains, if◌then◌else◌,
}
use mihomo_proxy_management.Prelude.Text.{append}
use mihomo_proxy_management.Prelude.Dict.{Dict, put}
use mihomo_proxy_management.Json.{Value, ℤ, pos, int, text, object, field, end}
use mihomo_proxy_management.Json
use mihomo_proxy_management.Convert.Library.{Library}
use mihomo_proxy_management.Convert.Result.{Result, ok, err, bad_input, ◌>>=◌}
use mihomo_proxy_management.Prelude.Strings.{cut, cut_last}
use mihomo_proxy_management.Convert.Base64.{b64decode}
use mihomo_proxy_management.Convert.Uri.{
  Parts, param, text_or, or_else, truthy, split_optional, split_uri, split_authority,
  split_host_port, params_of, alpn_list,
}
use mihomo_proxy_management.Convert.Fields.{put_truthy, put_flag, put_texts, put_number}

-- The types that URI_SCHEMES maps to, each with its parser.
pub data Kind : Type 0 where
  anytls ss trojan vless tuic hysteria2 : Kind

unfoldable pub kind_name : Kind → String
kind_name anytls = "anytls"
kind_name ss = "ss"
kind_name trojan = "trojan"
kind_name vless = "vless"
kind_name tuic = "tuic"
kind_name hysteria2 = "hysteria2"

-- parts["port"] or 443
unfoldable pub port_or_443 : Option ℕ → ℕ
port_or_443 none = 443
port_or_443 (some port) = port

-- `_apply_ws_opts`
unfoldable pub apply_ws_opts : Dict Value → Parts → Dict Value
apply_ws_opts proxy parts =
    let path = text_or (or_else (param parts.params "path") (some parts.path)) "/" in
    let host = text_or (param parts.params "host") parts.host in
    put proxy "ws-opts" (
      object
        (field "path" (text path) (field "headers" (object (field "Host" (text host) end)) end)))

-- `_apply_grpc_opts`
unfoldable pub apply_grpc_opts : Dict Value → Parts → Dict Value
apply_grpc_opts proxy parts =
    let service =
      text_or (or_else (param parts.params "serviceName") (param parts.params "servicename")) "" in
    put proxy "grpc-opts" (object (field "grpc-service-name" (text service) end))

-- the options of the network, without the field "network"
unfoldable pub network_opts : Dict Value → Parts → String → Dict Value
network_opts proxy parts network =
    if str_eq network "ws"
    then apply_ws_opts proxy parts
    else if str_eq network "grpc"
    then apply_grpc_opts proxy parts
    else proxy

unfoldable pub sni_of : Parts → String
sni_of parts = text_or (or_else (param parts.params "sni") (param parts.params "peer")) parts.host

-- A rate that is no number stops the assignments, after "up" perhaps.
unfoldable pub put_rates : Dict Value → Option ℤ → Option ℤ → Dict Value
put_rates proxy none down = proxy
put_rates proxy (some up) none = put proxy "up" (int up)
put_rates proxy (some up) (some down) = put (put proxy "up" (int up)) "down" (int down)

module _ (lib : Library) where
  -- name or f"{kind}-{host}:{port}"
  unfoldable pub node_name : String → Kind → String → ℕ → String
  node_name name kind host port =
      if str_eq name ""
      then append (kind_name kind) (append "-" (append host (append ":" (lib.show port))))
      else name

  -- the fields that every proxy starts with
  unfoldable pub endpoint : String → Kind → String → ℕ → Dict Value
  endpoint name kind host port =
      ("name", text (node_name name kind host port))
      ∷ ("type", text (kind_name kind))
      ∷ ("server", text host)
      ∷ ("port", int (pos port))
      ∷ []

  unfoldable pub endpoint_of : String → Kind → Parts → Dict Value
  endpoint_of name kind parts = endpoint name kind parts.host (port_or_443 parts.port)

  -- one of the parameters is set to a true word
  unfoldable pub any_truthy : Parts → List String → Bool
  any_truthy parts names = any (λ k. truthy lib (param parts.params k)) names

  unfoldable pub anytls_proxy : String → Parts → Dict Value
  anytls_proxy name parts =
      let proxy =
        endpoint_of name anytls parts
        ++ (("password", text parts.userinfo) ∷ ("udp", Json.true) ∷ []) in
      let proxy = put proxy "sni" (text (sni_of parts)) in
      let proxy =
        put_flag proxy "skip-cert-verify"
          (any_truthy parts ("insecure" ∷ "allowInsecure" ∷ "skip-cert-verify" ∷ [])) in
      let proxy =
        put_truthy proxy "client-fingerprint"
          (or_else (param parts.params "fp") (param parts.params "client-fingerprint")) in
      let proxy = put_texts proxy "alpn" (alpn_list lib parts.params) in
      let check = param parts.params "idle-session-check-interval" in
      let proxy = put_number proxy "idle-session-check-interval" check lib.int_of in
      let timeout = param parts.params "idle-session-timeout" in
      let proxy = put_number proxy "idle-session-timeout" timeout lib.int_of in
      put_number proxy "min-idle-session" (param parts.params "min-idle-session") lib.int_of

  unfoldable pub trojan_proxy : String → Parts → Dict Value
  trojan_proxy name parts =
      let proxy =
        endpoint_of name trojan parts
        ++ (("password", text parts.userinfo) ∷ ("udp", Json.true) ∷ []) in
      let proxy = put proxy "sni" (text (sni_of parts)) in
      let proxy =
        put_flag proxy "skip-cert-verify"
          (any_truthy parts ("insecure" ∷ "allowInsecure" ∷ "skip-cert-verify" ∷ [])) in
      let proxy = put_texts proxy "alpn" (alpn_list lib parts.params) in
      let network = text_or (param parts.params "type") "tcp" in
      if str_eq network "ws" || str_eq network "grpc"
      then network_opts (put proxy "network" (text network)) parts network
      else proxy

  unfoldable pub vless_proxy : String → Parts → Dict Value
  vless_proxy name parts =
      let network = text_or (param parts.params "type") "tcp" in
      let proxy =
        endpoint_of name vless parts
        ++ (("uuid", text parts.userinfo) ∷ ("network", text network) ∷ ("udp", Json.true) ∷ []) in
      let security = lib.lower (text_or (param parts.params "security") "") in
      let tls = contains ("tls" ∷ "reality" ∷ "xtls" ∷ []) security in
      let names =
        or_else (param parts.params "sni")
          (or_else (param parts.params "servername") (param parts.params "peer")) in
      let proxy = put_flag proxy "tls" tls in
      let proxy = if tls then put proxy "servername" (text (text_or names parts.host)) else proxy in
      let proxy = put_truthy proxy "client-fingerprint" (param parts.params "fp") in
      let proxy = put_truthy proxy "flow" (param parts.params "flow") in
      let proxy = put_texts proxy "alpn" (alpn_list lib parts.params) in
      let proxy =
        put_flag proxy "skip-cert-verify" (any_truthy parts ("insecure" ∷ "allowInsecure" ∷ [])) in
      let proxy = network_opts proxy parts network in
      let reality = object (
        field "public-key" (text (text_or (param parts.params "pbk") ""))
          (field "short-id" (text (text_or (param parts.params "sid") "")) end)) in
      if str_eq security "reality" then put proxy "reality-opts" reality else proxy

  unfoldable pub tuic_proxy : String → Parts → String → String → Dict Value
  tuic_proxy name parts uuid password =
      let proxy =
        endpoint_of name tuic parts
        ++ (("uuid", text uuid) ∷ ("password", text password) ∷ ("udp", Json.true) ∷ []) in
      let proxy = put proxy "sni" (text (sni_of parts)) in
      let proxy =
        put_truthy proxy "udp-relay-mode"
          (or_else (param parts.params "udp_relay_mode") (param parts.params "udp-relay-mode")) in
      let congestion =
        or_else (param parts.params "congestion_control")
          (param parts.params "congestion-controller") in
      let proxy = put_truthy proxy "congestion-controller" congestion in
      let proxy = put_texts proxy "alpn" (alpn_list lib parts.params) in
      put_flag proxy "skip-cert-verify"
        (any_truthy parts ("insecure" ∷ "allow_insecure" ∷ "allowInsecure" ∷ []))

  unfoldable pub hysteria2_proxy : String → Parts → Dict Value
  hysteria2_proxy name parts =
      let proxy =
        endpoint_of name hysteria2 parts
        ++ (("password", text parts.userinfo) ∷ ("udp", Json.true) ∷ []) in
      let proxy = put proxy "sni" (text (sni_of parts)) in
      let proxy =
        put_flag proxy "skip-cert-verify"
          (any_truthy parts ("insecure" ∷ "allowInsecure" ∷ "skip-cert-verify" ∷ [])) in
      let proxy = put_texts proxy "alpn" (alpn_list lib parts.params) in
      let obfs = text_or (param parts.params "obfs") "" in
      let obfs_password =
        text_or (or_else (param parts.params "obfs-password") (param parts.params "obfs_password"))
          "" in
      let proxy =
        if str_eq obfs ""
        then proxy
        else put (put proxy "obfs" (text obfs)) "obfs-password" (text obfs_password) in
      let proxy = put_flag proxy "fast-open" (truthy lib (param parts.params "fast-open")) in
      let up = text_or (param parts.params "up") "" in
      let down = text_or (param parts.params "down") "" in
      if str_eq up "" || str_eq down ""
      then proxy
      else put_rates proxy (lib.int_of up) (lib.int_of down)

  unfoldable pub ss_proxy : String → String → ℕ → String → String → Dict (List String) → Dict Value
  ss_proxy name host port cipher password params =
      let proxy =
        endpoint name ss host port
        ++ (("cipher", text cipher) ∷ ("password", text password) ∷ ("udp", Json.true) ∷ []) in
      let plugin = text_or (param params "plugin") "" in
      let plugin_opts = or_else (param params "plugin-opts") (param params "plugin_opts") in
      if str_eq plugin ""
      then proxy
      else put_truthy (put proxy "plugin" (text plugin)) "plugin-opts" plugin_opts
