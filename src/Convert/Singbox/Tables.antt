-- ===== src/Convert/Singbox/Tables.antt =====
-- The tables of `convert_singbox_node`: which option of an outbound becomes which option of a proxy.
use mihomo_proxy_management.Prelude.{ℕ, String, List, [], ◌∷◌, ◌++◌, map}
use mihomo_proxy_management.Convert.Proxies.{Kind, anytls, ss, trojan, vless, tuic, hysteria2}
use mihomo_proxy_management.Convert.Singbox.Options.{
  Mapping, source_of, word, count, whole, flag, words,
}

-- SINGBOX_TYPES
unfoldable pub singbox_types : List (String × Kind)
singbox_types =
    ("shadowsocks", ss)
    ∷ ("trojan", trojan)
    ∷ ("vless", vless)
    ∷ ("tuic", tuic)
    ∷ ("hysteria2", hysteria2)
    ∷ ("anytls", anytls)
    ∷ []

unfoldable pub fields_of : Kind → List Mapping
fields_of ss = ("method", "cipher", word) ∷ ("password", "password", word) ∷ []
fields_of trojan = ("password", "password", word) ∷ []
fields_of vless =
    ("uuid", "uuid", word)
    ∷ ("flow", "flow", word)
    ∷ ("packet_encoding", "packet-encoding", word)
    ∷ []
fields_of tuic =
    ("uuid", "uuid", word)
    ∷ ("password", "password", word)
    ∷ ("congestion_control", "congestion-controller", word)
    ∷ ("udp_relay_mode", "udp-relay-mode", word)
    ∷ ("zero_rtt_handshake", "reduce-rtt", flag)
    ∷ []
fields_of hysteria2 =
    ("password", "password", word) ∷ ("up_mbps", "up", count) ∷ ("down_mbps", "down", count) ∷ []
fields_of anytls =
    ("password", "password", word) ∷ ("min_idle_session", "min-idle-session", count) ∷ []

unfoldable pub durations_of : Kind → List (String × String)
durations_of anytls =
    ("idle_session_check_interval", "idle-session-check-interval")
    ∷ ("idle_session_timeout", "idle-session-timeout")
    ∷ []
durations_of tuic = ("heartbeat", "heartbeat-interval") ∷ []
durations_of _ = []

-- 1000 if ptype == "tuic" else 1
unfoldable pub scale_of : Kind → ℕ
scale_of tuic = 1000
scale_of _ = 1

unfoldable pub dial_fields : List Mapping
dial_fields =
    ("bind_interface", "interface-name", word)
    ∷ ("routing_mark", "routing-mark", count)
    ∷ ("tcp_fast_open", "tfo", flag)
    ∷ ("tcp_multi_path", "mptcp", flag)
    ∷ []

abbrev extra_fields : Kind → List String
extra_fields vless = "transport" ∷ []
extra_fields trojan = "transport" ∷ []
extra_fields hysteria2 = "obfs" ∷ []
extra_fields _ = []

abbrev duration_source : String × String → String
duration_source (source, target) = source

unfoldable pub allowed_of : Kind → List String
allowed_of kind =
    "type"
    ∷ "tag"
    ∷ "server"
    ∷ "server_port"
    ∷ "tls"
    ∷ "multiplex"
    ∷ (map source_of (fields_of kind)
        ++ (map duration_source (durations_of kind)
            ++ (map source_of dial_fields ++ extra_fields kind)))

unfoldable pub required_of : Kind → List String
required_of vless = "uuid" ∷ []
required_of tuic = "password" ∷ "uuid" ∷ []
required_of ss = "password" ∷ "cipher" ∷ []
required_of _ = "password" ∷ []

-- the options of an enabled `tls`
unfoldable pub tls_fields : Kind → List Mapping
tls_fields vless =
    ("server_name", "servername", word)
    ∷ ("insecure", "skip-cert-verify", flag)
    ∷ ("alpn", "alpn", words)
    ∷ []
tls_fields _ =
    ("server_name", "sni", word)
    ∷ ("insecure", "skip-cert-verify", flag)
    ∷ ("alpn", "alpn", words)
    ∷ []

-- The options of `multiplex`; their counts may be negative.
unfoldable pub mux_fields : List Mapping
mux_fields =
    ("enabled", "enabled", flag)
    ∷ ("protocol", "protocol", word)
    ∷ ("max_connections", "max-connections", whole)
    ∷ ("min_streams", "min-streams", whole)
    ∷ ("max_streams", "max-streams", whole)
    ∷ ("padding", "padding", flag)
    ∷ []
