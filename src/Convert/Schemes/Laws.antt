-- ===== src/Convert/Schemes/Laws.antt =====
-- What the parsers of the share URIs return: a node of the scheme's own type, that can be reached.
use mihomo_proxy_management.Prelude.{
  ℕ, String, List, [], ◌∷◌, ◌++◌, Option, none, some, Bool, true, false, not, ◌&&◌, ◌≡◌, refl,
  arith, str_eq, eq_refl, inl, inr, Option-cases, contains,
}
use mihomo_proxy_management.Prelude.Dict.{Dict, get}
use mihomo_proxy_management.Json.{Value, ℤ, pos, negsuc, int, text, at}
use mihomo_proxy_management.Json
use mihomo_proxy_management.Convert.Library.{Library}
use mihomo_proxy_management.Convert.Result.{ok, Result-cases}
use mihomo_proxy_management.Prelude.Strings.{cut}
use mihomo_proxy_management.Convert.Uri.{
  Parts, param, text_or, in_port_range, split_optional, split_uri, split_authority, split_host_port,
  split_userinfo, split_path, params_of,
}
use mihomo_proxy_management.Convert.Fields.{protected, Agrees}
use mihomo_proxy_management.Convert.Proxies.{
  Kind, anytls, ss, trojan, vless, tuic, hysteria2, kind_name, port_or_443, endpoint, endpoint_of,
  anytls_proxy, trojan_proxy, vless_proxy,
}
use mihomo_proxy_management.Convert.Proxies.Agreement.{
  anytls_proxy-Agrees, trojan_proxy-Agrees, vless_proxy-Agrees, tuic_proxy-Agrees,
  hysteria2_proxy-Agrees, ss_proxy-Agrees,
}
use mihomo_proxy_management.Convert.Schemes.{
  uri_parts, with_userinfo, parse_anytls_uri, parse_trojan_uri, parse_vless_uri, parse_tuic_uri,
  parse_hysteria2_uri, parse_ss_uri, parse_uri, tuic_of, ss_of, ss_credentials,
}
use mihomo_proxy_management.Convert.Schemes.Endpoint.{is_port, split_host_port-range}

abbrev is_text : Value → String → Bool
is_text (text s) t = str_eq s t
is_text _ t = false

abbrev is_any_text : Value → Bool
is_any_text (text s) = true
is_any_text _ = false

abbrev is_filled : Value → Bool
is_filled (text s) = not (str_eq s "")
is_filled _ = false

abbrev pub is_valid_port : Value → Bool
is_valid_port (int z) = in_port_range z
is_valid_port _ = false

-- the credentials of the scheme
abbrev has_credentials : Kind → Dict Value → Bool
has_credentials anytls p = is_filled (at p "password")
has_credentials ss p = is_any_text (at p "cipher") && is_any_text (at p "password")
has_credentials trojan p = is_filled (at p "password")
has_credentials vless p = is_filled (at p "uuid")
has_credentials tuic p = is_filled (at p "uuid") && is_filled (at p "password")
has_credentials hysteria2 p = is_any_text (at p "password")

-- The type of the scheme, a server, a port from 1 to 65535 and the credentials.
unfoldable pub is_node : Kind → Dict Value → Bool
is_node kind p =
    is_text (at p "type") (kind_name kind)
    && is_filled (at p "server")
    && is_valid_port (at p "port")
    && has_credentials kind p

has_credentials-eq :
    (kind : Kind) (d e : Dict Value)
    → at e "password" ≡ at d "password"
    → at e "uuid" ≡ at d "uuid"
    → at e "cipher" ≡ at d "cipher"
    → has_credentials kind e ≡ has_credentials kind d
has_credentials-eq anytls d e p u c = cc
has_credentials-eq ss d e p u c = cc
has_credentials-eq trojan d e p u c = cc
has_credentials-eq vless d e p u c = cc
has_credentials-eq tuic d e p u c = cc
has_credentials-eq hysteria2 d e p u c = cc

is_node-Agrees :
    (kind : Kind) {d e : Dict Value}
    → Agrees protected d e
    → is_node kind d ≡ true
    → is_node kind e ≡ true
unfolding is_node protected contains
is_node-Agrees kind {d} {e} a h =
    let p = a.equal "password" refl in
    let u = a.equal "uuid" refl in
    let c = a.equal "cipher" refl in
    cc (
      a.equal "type" refl,
      a.equal "server" refl,
      a.equal "port" refl,
      has_credentials-eq kind d e p u c,
    )

-- the parts of an endpoint alone
abbrev at_port : String → ℕ → Parts
at_port host port = record { userinfo = ""; host = host; port = some port; path = ""; params = [] }

module _ (lib : Library) where
  authority-range :
      (rest : String) (parts : Parts)
      → split_authority lib rest ≡ ok parts
      → (str_eq parts.host "" ≡ false) × (is_port parts.port ≡ true)
  unfolding split_authority
  authority-range rest parts h =
      let hostpart = (split_path (split_userinfo (split_optional "?" rest).0).1).0 in
      elim (Result-cases (split_host_port lib hostpart)) [
        | inr (e, q) ↦ absurd (ground (arith, q))
        | inl ((host, port), q) ↦ ground (arith, q, split_host_port-range lib hostpart host port q)
      ]

  uri_parts-range :
      (uri name : String) (parts : Parts)
      → uri_parts lib uri ≡ ok (name, parts)
      → (str_eq parts.host "" ≡ false) × (is_port parts.port ≡ true)
  unfolding uri_parts
  uri_parts-range uri name parts h = elim (Result-cases (split_uri lib uri)) [
    | inr (e, q) ↦ absurd (ground arith)
    | inl ((scheme, rest, n), q) ↦
        authority-range rest parts (elim (Result-cases (split_authority lib rest)) [
          | inr (e, r) ↦ absurd (ground arith)
          | inl (ps, r) ↦ ground arith
        ])
  ]

  start :
      (name : String) (kind : Kind) (parts : Parts) (rest : Dict Value)
      → str_eq parts.host "" ≡ false
      → is_port parts.port ≡ true
      → has_credentials kind (endpoint_of lib name kind parts ++ rest) ≡ true
      → is_node kind (endpoint_of lib name kind parts ++ rest) ≡ true
  unfolding is_node endpoint_of endpoint at get port_or_443 in_port_range
  start name kind parts rest h p c = elim (Option-cases parts.port) [
    | inl e ↦ ground (arith, eq_refl (kind_name kind))
    | inr (n, e) ↦ ground (arith, eq_refl (kind_name kind))
  ]

  -- The parsers that ask for nothing but a user.
  with_userinfo-is_node :
      (kind : Kind) (proxy : String → Parts → Dict Value) (rest : Parts → Dict Value)
      → ((name : String) (parts : Parts)
          → Agrees protected (endpoint_of lib name kind parts ++ rest parts) (proxy name parts))
      → ((name : String) (parts : Parts)
          → str_eq parts.userinfo "" ≡ false
          → has_credentials kind (endpoint_of lib name kind parts ++ rest parts) ≡ true)
      → (found : String × Parts) (uri : String) (p : Dict Value) → uri_parts lib uri ≡ ok found
      → with_userinfo lib proxy found.0 found.1 ≡ ok p
      → is_node kind p ≡ true
  unfolding with_userinfo
  with_userinfo-is_node kind proxy rest agrees filled (name, parts) uri p q h =
      let (r, s) = uri_parts-range uri name parts q in
      ground (
        arith,
        start name kind parts (rest parts) r s,
        filled name parts,
        is_node-Agrees kind (agrees name parts),
      )

  anytls-is_node :
      (uri : String) (p : Dict Value) → parse_anytls_uri lib uri ≡ ok p → is_node anytls p ≡ true
  unfolding parse_anytls_uri endpoint_of endpoint at get
  anytls-is_node uri p h = elim (Result-cases (uri_parts lib uri)) [
    | inr (e, q) ↦ absurd (ground arith)
    | inl (found, q) ↦
        with_userinfo-is_node anytls (anytls_proxy lib)
          (λ parts. ("password", text parts.userinfo) ∷ ("udp", Json.true) ∷ [])
          (anytls_proxy-Agrees lib) (λ name parts u. ground arith) found uri p q (ground arith)
  ]

  trojan-is_node :
      (uri : String) (p : Dict Value) → parse_trojan_uri lib uri ≡ ok p → is_node trojan p ≡ true
  unfolding parse_trojan_uri endpoint_of endpoint at get
  trojan-is_node uri p h = elim (Result-cases (uri_parts lib uri)) [
    | inr (e, q) ↦ absurd (ground arith)
    | inl (found, q) ↦
        with_userinfo-is_node trojan (trojan_proxy lib)
          (λ parts. ("password", text parts.userinfo) ∷ ("udp", Json.true) ∷ [])
          (trojan_proxy-Agrees lib) (λ name parts u. ground arith) found uri p q (ground arith)
  ]

  vless-is_node :
      (uri : String) (p : Dict Value) → parse_vless_uri lib uri ≡ ok p → is_node vless p ≡ true
  unfolding parse_vless_uri endpoint_of endpoint at get
  vless-is_node uri p h = elim (Result-cases (uri_parts lib uri)) [
    | inr (e, q) ↦ absurd (ground arith)
    | inl (found, q) ↦
        with_userinfo-is_node vless (vless_proxy lib)
          (λ parts.
            ("uuid", text parts.userinfo)
            ∷ ("network", text (text_or (param parts.params "type") "tcp"))
            ∷ ("udp", Json.true)
            ∷ [])
          (vless_proxy-Agrees lib) (λ name parts u. ground arith) found uri p q (ground arith)
  ]

  tuic-is_node :
      (uri : String) (p : Dict Value) → parse_tuic_uri lib uri ≡ ok p → is_node tuic p ≡ true
  unfolding parse_tuic_uri tuic_of endpoint_of endpoint at get
  tuic-is_node uri p h = elim (Result-cases (uri_parts lib uri)) [
    | inr (e, q) ↦ absurd (ground arith)
    | inl ((name, parts), q) ↦
        let (r, s) = uri_parts-range uri name parts q in
        elim (Option-cases (cut ":" parts.userinfo)) [
          | inl c ↦ absurd (ground arith)
          | inr ((uuid, password), c) ↦ ground (
            arith,
            start name tuic parts
                (("uuid", text uuid) ∷ ("password", text password) ∷ ("udp", Json.true) ∷ []) r s,
            is_node-Agrees tuic (tuic_proxy-Agrees lib name parts uuid password),
          )
        ]
  ]

  hysteria2-is_node :
      (uri : String) (p : Dict Value)
      → parse_hysteria2_uri lib uri ≡ ok p
      → is_node hysteria2 p ≡ true
  unfolding parse_hysteria2_uri endpoint_of endpoint at get
  hysteria2-is_node uri p h = elim (Result-cases (uri_parts lib uri)) [
    | inr (e, q) ↦ absurd (ground arith)
    | inl ((name, parts), q) ↦
        let (r, s) = uri_parts-range uri name parts q in
        ground (
          arith,
          start name hysteria2 parts (("password", text parts.userinfo) ∷ ("udp", Json.true) ∷ []) r
              s refl,
          is_node-Agrees hysteria2 (hysteria2_proxy-Agrees lib name parts),
        )
  ]

  ss_of-is_node :
      (name : String) (params : Dict (List String)) (method password host : String)
      → (port : Option ℕ) (p : Dict Value) → str_eq host "" ≡ false
      → is_port port ≡ true
      → ss_of lib name params method password (host, port) ≡ ok p
      → is_node ss p ≡ true
  unfolding ss_of endpoint_of endpoint port_or_443 at get
  ss_of-is_node name params method password host none p r s h = absurd (ground arith)
  ss_of-is_node name params method password host (some port) p r s h = ground (
    arith,
    start name ss (at_port host port)
        (("cipher", text method) ∷ ("password", text password) ∷ ("udp", Json.true) ∷ []) r s refl,
    is_node-Agrees ss (ss_proxy-Agrees lib name host port method password params),
  )

  ss-is_node : (uri : String) (p : Dict Value) → parse_ss_uri lib uri ≡ ok p → is_node ss p ≡ true
  unfolding parse_ss_uri
  ss-is_node uri p h = elim (Result-cases (split_uri lib uri)) [
    | inr (e, q) ↦ absurd (ground arith)
    | inl ((scheme, rest, name), q) ↦
        elim (Result-cases (ss_credentials lib (split_optional "?" rest).0)) [
          | inr (e, r) ↦ absurd (ground arith)
          | inl ((method, password, hostpart), r) ↦
              let place = (split_optional "/" hostpart).0 in
              elim (Result-cases (split_host_port lib place)) [
                | inr (e, s) ↦ absurd (ground arith)
                | inl ((host, port), s) ↦
                    let (a, b) = split_host_port-range lib place host port s in
                    ss_of-is_node name (params_of lib (split_optional "?" rest).1) method password
                      host port p a b (ground arith)
              ]
        ]
  ]

  -- The parser of a scheme returns a node of that scheme's own type, whose server is a text that is not
  -- empty, whose port is from 1 to 65535, and that has the scheme's credentials: for anytls and trojan a
  -- password, for vless a uuid, for tuic both, none of them empty; for hysteria2 a password and for ss a cipher
  -- and a password, which may be empty.
  pub parse_uri-is_node :
      (kind : Kind) (uri : String) (p : Dict Value)
      → parse_uri lib kind uri ≡ ok p
      → is_node kind p ≡ true
  unfolding parse_uri
  parse_uri-is_node anytls uri p h = anytls-is_node uri p h
  parse_uri-is_node ss uri p h = ss-is_node uri p h
  parse_uri-is_node trojan uri p h = trojan-is_node uri p h
  parse_uri-is_node vless uri p h = vless-is_node uri p h
  parse_uri-is_node tuic uri p h = tuic-is_node uri p h
  parse_uri-is_node hysteria2 uri p h = hysteria2-is_node uri p h
