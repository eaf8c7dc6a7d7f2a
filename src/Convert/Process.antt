-- ===== src/Convert/Process.antt =====
-- The counts of scripts/convert_sub.py, and the three `process_` functions that keep them. Their warnings are
-- not modelled.
pub mod Accounts
pub mod Types
use mihomo_proxy_management.Prelude.{
  ℕ, ◌+◌, String, List, [], ◌∷◌, ◌++◌, Option, none, some, Bool, true, false, not, ◌||◌, ◌&&◌,
  str_eq, contains, if◌then◌else◌,
}
use mihomo_proxy_management.Prelude.Dict.{Dict, get}
use mihomo_proxy_management.Json.{Value, text, object, to_dict, at}
use mihomo_proxy_management.Convert.Library.{Library}
use mihomo_proxy_management.Convert.Result.{Result, ok, err, Error, unsupported}
use mihomo_proxy_management.Prelude.Strings.{cut}
use mihomo_proxy_management.Convert.Proxies.{Kind, anytls, ss, trojan, vless, tuic, hysteria2}
use mihomo_proxy_management.Convert.Schemes.{parse_uri}
use mihomo_proxy_management.Convert.Singbox.Tables.{singbox_types}
use mihomo_proxy_management.Convert.Singbox.{convert_singbox_node}

pub record Stats : Type 0 where
  pub input_nodes : ℕ
  pub output_nodes : ℕ
  pub skipped_malformed : ℕ
  pub unknown_type : ℕ
  pub skipped_unknown : ℕ
  pub skipped_non_uri : ℕ
  pub skipped_non_node : ℕ
  pub skipped_unsupported : ℕ
  pub failed : ℕ
  pub input_format : String

abbrev pub zero_stats : Stats
zero_stats = record {
  input_nodes = 0;
  output_nodes = 0;
  skipped_malformed = 0;
  unknown_type = 0;
  skipped_unknown = 0;
  skipped_non_uri = 0;
  skipped_non_node = 0;
  skipped_unsupported = 0;
  failed = 0;
  input_format = "unrecognised";
}

-- KNOWN_PROXY_TYPES
unfoldable pub known_proxy_types : List String
known_proxy_types =
    "ss" ∷ "ssr" ∷ "vmess" ∷ "vless" ∷ "trojan" ∷ "hysteria" ∷ "hysteria2" ∷ "tuic" ∷ "anytls"
    ∷ "snell" ∷ "http" ∷ "socks5" ∷ []

-- What becomes of an entry of a subscription: a node, or the count that it goes to. A node of an unknown
-- type is counted and kept.
pub data Outcome : Type 0 where
  node : Dict Value → Outcome
  unknown_node : Dict Value → Outcome
  malformed unknown non_node unmapped : Outcome

-- the proxies, and the counts
unfoldable pub count_outcome : Outcome → Stats → Stats
count_outcome outcome stats =
    let stats = record stats { input_nodes = stats.input_nodes + 1 } in
    elim outcome [
      | node p ↦ stats
      | unknown_node p ↦ record stats { unknown_type = stats.unknown_type + 1 }
      | malformed ↦ record stats { skipped_malformed = stats.skipped_malformed + 1 }
      | unknown ↦ record stats {
        unknown_type = stats.unknown_type + 1;
        skipped_unknown = stats.skipped_unknown + 1;
      }
      | non_node ↦ record stats { skipped_non_node = stats.skipped_non_node + 1 }
      | unmapped ↦ record stats { skipped_unsupported = stats.skipped_unsupported + 1 }
    ]

-- what is appended to `output`
unfoldable pub kept : Outcome → List (Dict Value)
kept (node p) = p ∷ []
kept (unknown_node p) = p ∷ []
kept _ = []

-- The loop of the three functions: the counts, and the nodes.
unfoldable pub process {ℓ} :
    {A : Type ℓ} → (ℕ → A → Outcome) → ℕ → List A → Stats → Stats × List (Dict Value)
process outcome index [] stats = (stats, [])
process outcome index (x ∷ xs) stats =
    let (counted, rest) = process outcome (index + 1) xs (count_outcome (outcome index x) stats) in
    (counted, kept (outcome index x) ++ rest)

-- an entry of the type `ptype`
unfoldable pub typed_outcome : Bool → String → Dict Value → Outcome
typed_outcome skip_unknown ptype p =
    if str_eq ptype ""
    then malformed
    else if contains known_proxy_types ptype
    then node p
    else if skip_unknown
    then unknown
    else unknown_node p

abbrev pub mapping_outcome : Bool → Value → Dict Value → Outcome
mapping_outcome skip_unknown (text ptype) p = typed_outcome skip_unknown ptype p
mapping_outcome skip_unknown _ p = malformed

unfoldable pub yaml_outcome : Bool → ℕ → Value → Outcome
yaml_outcome skip_unknown index (object fs) =
    mapping_outcome skip_unknown (at (to_dict fs) "type") (to_dict fs)
yaml_outcome skip_unknown index _ = malformed

unfoldable pub process_yaml_proxies : List Value → Stats → Bool → Stats × List (Dict Value)
process_yaml_proxies proxies stats skip_unknown =
    process (yaml_outcome skip_unknown) 0 proxies stats

-- URI_SCHEMES
unfoldable pub uri_schemes : Dict Kind
uri_schemes =
    ("anytls", anytls)
    ∷ ("ss", ss)
    ∷ ("trojan", trojan)
    ∷ ("vless", vless)
    ∷ ("tuic", tuic)
    ∷ ("hysteria2", hysteria2)
    ∷ ("hy2", hysteria2)
    ∷ []

-- NON_NODE_TYPES
unfoldable pub non_node_types : List String
non_node_types = "selector" ∷ "urltest" ∷ "direct" ∷ "block" ∷ "dns" ∷ []

abbrev parsed_outcome : Result (Dict Value) → Outcome
parsed_outcome (ok p) = node p
parsed_outcome (err e) = malformed

abbrev converted_outcome : Result (Dict Value) → Outcome
converted_outcome (ok p) = node p
converted_outcome (err unsupported) = unmapped
converted_outcome (err _) = malformed

module _ (lib : Library) where
  -- uri.split("://", 1)[0].lower()
  unfoldable pub scheme_of : String → String
  scheme_of uri = elim (cut "://" uri) [ none ↦ "" | some (scheme, rest) ↦ lib.lower scheme ]

  unfoldable pub uri_outcome : ℕ → String → Outcome
  uri_outcome index uri = elim (get uri_schemes (scheme_of uri)) [
    | none ↦ unknown
    | some kind ↦ parsed_outcome (parse_uri lib kind uri)
  ]

  unfoldable pub process_uris : List String → Stats → Stats × List (Dict Value)
  process_uris uris stats = process uri_outcome 0 uris stats

  unfoldable pub outbound_outcome : ℕ → Value → Dict Value → Outcome
  outbound_outcome index (text kind) p =
      if contains non_node_types kind then non_node else elim (get singbox_types kind) [
        | none ↦ unknown
        | some k ↦ converted_outcome (convert_singbox_node lib k p index)
      ]
  outbound_outcome index _ p = malformed

  unfoldable pub singbox_outcome : ℕ → Value → Outcome
  singbox_outcome index (object fs) = outbound_outcome index (at (to_dict fs) "type") (to_dict fs)
  singbox_outcome index _ = malformed

  unfoldable pub process_singbox_outbounds : List Value → Stats → Stats × List (Dict Value)
  process_singbox_outbounds outbounds stats = process singbox_outcome 0 outbounds stats
