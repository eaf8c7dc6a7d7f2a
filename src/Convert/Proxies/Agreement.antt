-- ===== src/Convert/Proxies/Agreement.antt =====
-- The options of a URI leave the address and the credentials of a proxy as they are.
use mihomo_proxy_management.Prelude.{
  ℕ, String, List, [], ◌∷◌, ◌++◌, Option, none, some, Bool, true, false, refl, str_eq,
  if◌then◌else◌, contains,
}
use mihomo_proxy_management.Prelude.Dict.{Dict}
use mihomo_proxy_management.Json.{Value, ℤ, text, int}
use mihomo_proxy_management.Json
use mihomo_proxy_management.Convert.Library.{Library}
use mihomo_proxy_management.Convert.Uri.{Parts, param, text_or}
use mihomo_proxy_management.Convert.Fields.{
  protected, Agrees, Agrees-refl, put-Agrees, put_truthy-Agrees, put_flag-Agrees, put_texts-Agrees,
  put_number-Agrees,
}
use mihomo_proxy_management.Convert.Proxies.{
  anytls, ss, trojan, vless, tuic, hysteria2, endpoint, endpoint_of, anytls_proxy, trojan_proxy,
  vless_proxy, tuic_proxy, hysteria2_proxy, ss_proxy, apply_ws_opts, apply_grpc_opts, network_opts,
  put_rates,
}

-- A branch agrees where both sides do.
if-Agrees :
    {d e f : Dict Value} (b : Bool)
    → Agrees protected d e
    → Agrees protected d f
    → Agrees protected d (if b then e else f)
if-Agrees true h k = h
if-Agrees false h k = k

apply_ws_opts-Agrees :
    {d e : Dict Value} (parts : Parts)
    → Agrees protected d e
    → Agrees protected d (apply_ws_opts e parts)
unfolding apply_ws_opts contains protected
apply_ws_opts-Agrees parts a = put-Agrees "ws-opts" _ refl a

apply_grpc_opts-Agrees :
    {d e : Dict Value} (parts : Parts)
    → Agrees protected d e
    → Agrees protected d (apply_grpc_opts e parts)
unfolding apply_grpc_opts contains protected
apply_grpc_opts-Agrees parts a = put-Agrees "grpc-opts" _ refl a

network_opts-Agrees :
    {d e : Dict Value} (parts : Parts) (network : String)
    → Agrees protected d e
    → Agrees protected d (network_opts e parts network)
unfolding network_opts
network_opts-Agrees parts network a =
    if-Agrees (str_eq network "ws") (apply_ws_opts-Agrees parts a)
      (if-Agrees (str_eq network "grpc") (apply_grpc_opts-Agrees parts a) a)

put_rates-Agrees :
    {d e : Dict Value} (up down : Option ℤ)
    → Agrees protected d e
    → Agrees protected d (put_rates e up down)
unfolding put_rates contains protected
put_rates-Agrees none down a = a
put_rates-Agrees (some u) none a = put-Agrees "up" _ refl a
put_rates-Agrees (some u) (some v) a = put-Agrees "down" _ refl (put-Agrees "up" _ refl a)

module _ (lib : Library) (name : String) (parts : Parts) where
  pub anytls_proxy-Agrees :
      Agrees protected
        (endpoint_of lib name anytls parts
          ++ (("password", text parts.userinfo) ∷ ("udp", Json.true) ∷ []))
        (anytls_proxy lib name parts)
  unfolding anytls_proxy contains protected
  anytls_proxy-Agrees = put_number-Agrees "min-idle-session" _ _ refl (
      put_number-Agrees "idle-session-timeout" _ _ refl (
        put_number-Agrees "idle-session-check-interval" _ _ refl (
          put_texts-Agrees "alpn" _ refl (
            put_truthy-Agrees "client-fingerprint" _ refl (
              put_flag-Agrees "skip-cert-verify" _ refl
                (put-Agrees "sni" _ refl (Agrees-refl _)))))))

  pub trojan_proxy-Agrees :
      Agrees protected
        (endpoint_of lib name trojan parts
          ++ (("password", text parts.userinfo) ∷ ("udp", Json.true) ∷ []))
        (trojan_proxy lib name parts)
  unfolding trojan_proxy contains protected
  trojan_proxy-Agrees =
      let a =
        put_texts-Agrees "alpn" _ refl
          (put_flag-Agrees "skip-cert-verify" _ refl (put-Agrees "sni" _ refl (Agrees-refl _))) in
      if-Agrees _ (network_opts-Agrees parts _ (put-Agrees "network" _ refl a)) a

  pub vless_proxy-Agrees :
      Agrees protected
        (endpoint_of lib name vless parts
          ++ (("uuid", text parts.userinfo)
              ∷ ("network", text (text_or (param parts.params "type") "tcp"))
              ∷ ("udp", Json.true)
              ∷ []))
        (vless_proxy lib name parts)
  unfolding vless_proxy contains protected
  vless_proxy-Agrees =
      let a = put_flag-Agrees "tls" _ refl (Agrees-refl _) in
      let b = if-Agrees _ (put-Agrees "servername" _ refl a) a in
      let c = put_flag-Agrees "skip-cert-verify" _ refl (
        put_texts-Agrees "alpn" _ refl
          (put_truthy-Agrees "flow" _ refl (put_truthy-Agrees "client-fingerprint" _ refl b))) in
      let d = network_opts-Agrees parts _ c in if-Agrees _ (put-Agrees "reality-opts" _ refl d) d

  pub tuic_proxy-Agrees :
      (uuid password : String)
      → Agrees protected
          (endpoint_of lib name tuic parts
            ++ (("uuid", text uuid) ∷ ("password", text password) ∷ ("udp", Json.true) ∷ []))
          (tuic_proxy lib name parts uuid password)
  unfolding tuic_proxy contains protected
  tuic_proxy-Agrees uuid password = put_flag-Agrees "skip-cert-verify" _ refl (
      put_texts-Agrees "alpn" _ refl (
        put_truthy-Agrees "congestion-controller" _ refl
          (put_truthy-Agrees "udp-relay-mode" _ refl (put-Agrees "sni" _ refl (Agrees-refl _)))))

  pub hysteria2_proxy-Agrees :
      Agrees protected
        (endpoint_of lib name hysteria2 parts
          ++ (("password", text parts.userinfo) ∷ ("udp", Json.true) ∷ []))
        (hysteria2_proxy lib name parts)
  unfolding hysteria2_proxy contains protected
  hysteria2_proxy-Agrees =
      let a =
        put_texts-Agrees "alpn" _ refl
          (put_flag-Agrees "skip-cert-verify" _ refl (put-Agrees "sni" _ refl (Agrees-refl _))) in
      let b = if-Agrees _ a (put-Agrees "obfs-password" _ refl (put-Agrees "obfs" _ refl a)) in
      let c = put_flag-Agrees "fast-open" _ refl b in if-Agrees _ c (put_rates-Agrees _ _ c)

module _ (lib : Library) (name : String) where
  pub ss_proxy-Agrees :
      (host : String) (port : ℕ) (cipher password : String) (params : Dict (List String))
      → Agrees protected
          (endpoint lib name ss host port
            ++ (("cipher", text cipher) ∷ ("password", text password) ∷ ("udp", Json.true) ∷ []))
          (ss_proxy lib name host port cipher password params)
  unfolding ss_proxy contains protected
  ss_proxy-Agrees host port cipher password params =
      if-Agrees _ (Agrees-refl _)
        (put_truthy-Agrees "plugin-opts" _ refl (put-Agrees "plugin" _ refl (Agrees-refl _)))
