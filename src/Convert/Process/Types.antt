-- ===== src/Convert/Process/Types.antt =====
-- Which nodes the `process_` functions of scripts/convert_sub.py let through.
use mihomo_proxy_management.Prelude.{
  ℕ, String, List, Bool, true, false, ◌||◌, ◌≡◌, refl, arith, contains, all, inl, inr, Bool-cases,
  Option-cases,
}
use mihomo_proxy_management.Prelude.Dict.{Dict, get}
use mihomo_proxy_management.Json.{Value, text, object, to_dict, at}
use mihomo_proxy_management.Convert.Library.{Library}
use mihomo_proxy_management.Convert.Result.{Result-cases}
use mihomo_proxy_management.Convert.Proxies.{Kind, anytls, ss, trojan, vless, tuic, hysteria2}
use mihomo_proxy_management.Convert.Schemes.{parse_uri}
use mihomo_proxy_management.Convert.Schemes.Laws.{is_node, parse_uri-is_node}
use mihomo_proxy_management.Convert.Process.{
  Stats, kept, known_proxy_types, typed_outcome, mapping_outcome, yaml_outcome,
  process_yaml_proxies, uri_schemes, scheme_of, uri_outcome, process_uris,
}
use mihomo_proxy_management.Convert.Process.Accounts.{process-all}

abbrev is_known : Value → Bool
is_known (text ptype) = contains known_proxy_types ptype
is_known _ = false

abbrev pub has_known_type : Dict Value → Bool
has_known_type p = is_known (at p "type")

-- a node of one of the kinds that the URI schemes have
unfoldable pub is_uri_node : Dict Value → Bool
is_uri_node p =
    is_node anytls p
    || is_node ss p
    || is_node trojan p
    || is_node vless p
    || is_node tuic p
    || is_node hysteria2 p

is_uri_node_of : (kind : Kind) (p : Dict Value) → is_node kind p ≡ true → is_uri_node p ≡ true
unfolding is_uri_node
is_uri_node_of anytls p h = ground (arith, h)
is_uri_node_of ss p h = ground (arith, h)
is_uri_node_of trojan p h = ground (arith, h)
is_uri_node_of vless p h = ground (arith, h)
is_uri_node_of tuic p h = ground (arith, h)
is_uri_node_of hysteria2 p h = ground (arith, h)

typed_outcome-known :
    (ptype : String) (p : Dict Value)
    → at p "type" ≡ text ptype
    → all has_known_type (kept (typed_outcome true ptype p)) ≡ true
unfolding typed_outcome kept all
typed_outcome-known ptype p h = elim (Bool-cases (contains known_proxy_types ptype)) [
  | inl k ↦ ground (arith, h)
  | inr k ↦ ground (arith, h)
]

mapping_outcome-known :
    (v : Value) (p : Dict Value)
    → at p "type" ≡ v
    → all has_known_type (kept (mapping_outcome true v p)) ≡ true
unfolding kept all
mapping_outcome-known (text ptype) p h = typed_outcome-known ptype p h
mapping_outcome-known _ p h = refl

yaml_outcome-known :
    (index : ℕ) (v : Value) → all has_known_type (kept (yaml_outcome true index v)) ≡ true
unfolding yaml_outcome kept all
yaml_outcome-known index (object fs) =
    mapping_outcome-known (at (to_dict fs) "type") (to_dict fs) refl
yaml_outcome-known index _ = refl

module _ (lib : Library) where
  uri_outcome-is_uri_node :
      (index : ℕ) (uri : String) → all is_uri_node (kept (uri_outcome lib index uri)) ≡ true
  unfolding uri_outcome kept all
  uri_outcome-is_uri_node index uri = elim (Option-cases (get uri_schemes (scheme_of lib uri))) [
    | inl e ↦ ground arith
    | inr (kind, e) ↦ elim (Result-cases (parse_uri lib kind uri)) [
      | inr (x, q) ↦ ground arith
      | inl (p, q) ↦ ground (arith, is_uri_node_of kind p (parse_uri-is_node lib kind uri p q))
    ]
  ]

  -- Every node that process_uris returns has the type of one of the schemes, a server, a port from 1 to
  -- 65535, and the credentials of its type.
  pub process_uris-is_node :
      (uris : List String) (stats : Stats) → all is_uri_node (process_uris lib uris stats).1 ≡ true
  unfolding process_uris
  process_uris-is_node uris stats =
      process-all (uri_outcome lib) is_uri_node 0 uris stats uri_outcome-is_uri_node

-- With --skip-unknown, every node that process_yaml_proxies returns has a type of KNOWN_PROXY_TYPES.
pub process_yaml-known :
    (proxies : List Value) (stats : Stats)
    → all has_known_type (process_yaml_proxies proxies stats true).1 ≡ true
unfolding process_yaml_proxies
process_yaml-known proxies stats =
    process-all (yaml_outcome true) has_known_type 0 proxies stats yaml_outcome-known
