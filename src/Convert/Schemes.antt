-- ===== src/Convert/Schemes.antt =====
-- The parsers of the share URIs of scripts/convert_sub.py: the guards, and `_URI_PARSERS`.
pub mod Endpoint
pub mod Laws
use mihomo_proxy_management.Prelude.{
  ℕ, ◌+◌, String, List, [], ◌∷◌, ◌++◌, Option, none, some, Bool, true, false, not, ◌&&◌, ◌||◌,
  str_eq, any, is_some, contains, if◌then◌else◌,
}
use mihomo_proxy_management.Prelude.Text.{append}
use mihomo_proxy_management.Prelude.Dict.{Dict, put}
use mihomo_proxy_management.Json.{Value, ℤ, pos, int, text, object, field, end}
use mihomo_proxy_management.Json
use mihomo_proxy_management.Convert.Library.{Library}
use mihomo_proxy_management.Convert.Result.{Result, ok, err, bad_input, ◌>>=◌}
use mihomo_proxy_management.Prelude.Strings.{cut, cut_last}
use mihomo_proxy_management.Convert.Base64.{b64decode}
use mihomo_proxy_management.Convert.Uri.{
  Parts, param, text_or, or_else, truthy, split_optional, split_uri, split_authority,
  split_host_port, params_of, alpn_list,
}
use mihomo_proxy_management.Convert.Proxies.{
  Kind, anytls, ss, trojan, vless, tuic, hysteria2, anytls_proxy, trojan_proxy, vless_proxy,
  tuic_proxy, hysteria2_proxy, ss_proxy,
}

module _ (lib : Library) where
  -- the two first steps of the parsers: the name, and the parts after the scheme
  unfoldable pub uri_parts : String → Result (String × Parts)
  uri_parts uri = do
    (_, rest, name) ← split_uri lib uri
    parts ← split_authority lib rest
    ok (name, parts)

  -- the guard `if not userinfo: raise ConvertError`
  unfoldable pub with_userinfo :
      (String → Parts → Dict Value) → String → Parts → Result (Dict Value)
  with_userinfo proxy name parts =
      if str_eq parts.userinfo "" then err bad_input else ok (proxy name parts)

  unfoldable pub parse_anytls_uri : String → Result (Dict Value)
  parse_anytls_uri uri = do
    (name, parts) ← uri_parts uri
    with_userinfo (anytls_proxy lib) name parts

  unfoldable pub parse_trojan_uri : String → Result (Dict Value)
  parse_trojan_uri uri = do
    (name, parts) ← uri_parts uri
    with_userinfo (trojan_proxy lib) name parts

  unfoldable pub parse_vless_uri : String → Result (Dict Value)
  parse_vless_uri uri = do (name, parts) ← uri_parts uri; with_userinfo (vless_proxy lib) name parts

  unfoldable pub tuic_of : String → Parts → Result (Dict Value)
  tuic_of name parts = elim (cut ":" parts.userinfo) [
    | none ↦ err bad_input
    | some (uuid, password) ↦
        if str_eq uuid "" || str_eq password ""
        then err bad_input
        else ok (tuic_proxy lib name parts uuid password)
  ]

  unfoldable pub parse_tuic_uri : String → Result (Dict Value)
  parse_tuic_uri uri = do (name, parts) ← uri_parts uri; tuic_of name parts

  unfoldable pub parse_hysteria2_uri : String → Result (Dict Value)
  parse_hysteria2_uri uri = do (name, parts) ← uri_parts uri; ok (hysteria2_proxy lib name parts)

  unfoldable pub method_or_error : String × String → Result (String × String)
  method_or_error (method, password) =
      if str_eq method "" then err bad_input else ok (method, password)

  -- `_decode_ss_userinfo`
  unfoldable pub decode_ss_userinfo : String → Result (String × String)
  decode_ss_userinfo userinfo = elim (cut ":" userinfo) [
    | some (method, password) ↦ ok (method, password)
    | none ↦ do decoded ← b64decode lib userinfo; method_or_error (split_optional ":" decoded)
  ]

  -- the method, the password and the host part of the part without the query
  unfoldable pub ss_credentials : String → Result (String × String × String)
  ss_credentials rest = elim (cut_last "@" rest) [
    | some (userinfo, hostpart) ↦ do
      (method, password) ← decode_ss_userinfo (lib.unquote userinfo)
      ok (method, password, hostpart)
    | none ↦ do
      decoded ← b64decode lib rest
      elim (cut_last "@" decoded) [
        | none ↦ err bad_input
        | some (creds, hostpart) ↦
            let (method, password) = split_optional ":" creds in ok (method, password, hostpart)
      ]
  ]

  unfoldable pub ss_of :
      String → Dict (List String) → String → String → String × Option ℕ → Result (Dict Value)
  ss_of name params method password (host, none) = err bad_input
  ss_of name params method password (host, some port) =
      ok (ss_proxy lib name host port method password params)

  unfoldable pub parse_ss_uri : String → Result (Dict Value)
  parse_ss_uri uri = do
    (_, rest, name) ← split_uri lib uri
    (method, password, hostpart) ← ss_credentials (split_optional "?" rest).0
    endpoint ← split_host_port lib (split_optional "/" hostpart).0
    ss_of name (params_of lib (split_optional "?" rest).1) method password endpoint

  -- _URI_PARSERS
  unfoldable pub parse_uri : Kind → String → Result (Dict Value)
  parse_uri anytls uri = parse_anytls_uri uri
  parse_uri ss uri = parse_ss_uri uri
  parse_uri trojan uri = parse_trojan_uri uri
  parse_uri vless uri = parse_vless_uri uri
  parse_uri tuic uri = parse_tuic_uri uri
  parse_uri hysteria2 uri = parse_hysteria2_uri uri
