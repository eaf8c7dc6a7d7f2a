-- ===== src/Convert/Content.antt =====
-- `convert_content` of scripts/convert_sub.py.
pub mod Laws
use mihomo_proxy_management.Prelude.{ℕ, ◌+◌, String, List, [], ◌∷◌, Bool, length, is_some}
use mihomo_proxy_management.Prelude.Dict.{Dict}
use mihomo_proxy_management.Json.{Value}
use mihomo_proxy_management.Convert.Library.{Library}
use mihomo_proxy_management.Convert.Result.{Result, ok, err, ◌>>=◌}
use mihomo_proxy_management.Convert.Detect.{Payload, yaml, singbox, uris, detect_input}
use mihomo_proxy_management.Convert.Process.{
  Stats, zero_stats, process_yaml_proxies, process_uris, process_singbox_outbounds,
}
use mihomo_proxy_management.Convert.Merge.{semantic_key}

unfoldable pub mode_name : Payload → String
mode_name (yaml vs) = "yaml"
mode_name (singbox vs) = "sing-box"
mode_name (uris us) = "uris"

module _ (lib : Library) where
  unfoldable pub process_payload : Payload → Stats → Bool → Stats × List (Dict Value)
  process_payload (yaml vs) stats skip_unknown = process_yaml_proxies vs stats skip_unknown
  process_payload (singbox vs) stats skip_unknown = process_singbox_outbounds lib vs stats
  process_payload (uris us) stats skip_unknown = process_uris lib us stats

  -- The nodes that have a key, and the count of the others.
  unfoldable pub drop_invalid : List (Dict Value) → Stats → Stats × List (Dict Value)
  drop_invalid [] stats = (stats, [])
  drop_invalid (p ∷ ps) stats = elim (semantic_key lib p) [
    | ok key ↦ let (counted, valid) = drop_invalid ps stats in (counted, p ∷ valid)
    | err e ↦ drop_invalid ps (record stats { skipped_malformed = stats.skipped_malformed + 1 })
  ]

  unfoldable pub convert_payload : Payload × ℕ → Bool → List (Dict Value) × Stats
  convert_payload (payload, dropped) skip_unknown =
      let stats = record zero_stats {
        input_format = mode_name payload;
        skipped_non_uri = dropped;
      } in
      let (counted, proxies) = process_payload payload stats skip_unknown in
      let (final, valid) = drop_invalid proxies counted in
      (valid, record final { output_nodes = length valid })

  unfoldable pub convert_content : String → Bool → Result (List (Dict Value) × Stats)
  convert_content content skip_unknown = do
    found ← detect_input lib content
    ok (convert_payload found skip_unknown)
