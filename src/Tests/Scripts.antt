-- ===== src/Tests/Scripts.antt =====
-- A whole run of the conversion, on one link.
use mihomo_proxy_management.Prelude.{
  ℕ, ◌+◌, ◌≤◌, String, List, [], ◌∷◌, none, some, true, false, ◌≡◌, refl, contains, length, ltb,
  if◌then◌else◌,
}
use mihomo_proxy_management.Prelude.Dict.{Dict, get, put}
use mihomo_proxy_management.Json.{
  Value, text, list, object, field, end, cons, nil, to_dict, to_list,
}
use mihomo_proxy_management.Convert.Result.{ok}
use mihomo_proxy_management.Prelude.Strings.{drop_prefix, cut, occurs, lstrip_code}
use mihomo_proxy_management.Convert.Detect.{
  uris, opens_json, split_lines, stripped_lines, split_uri_lines, detect_stripped, detect_input,
}
use mihomo_proxy_management.Convert.Process.{
  Stats, scheme_of, uri_schemes, uri_outcome, count_outcome, kept, process, process_uris,
}
use mihomo_proxy_management.Convert.Process.Accounts.{skipped}
use mihomo_proxy_management.Convert.Merge.{
  without_name, name_of, reserved_names, semantic_key, keys_of, fresh_name, base_name, merge_from,
  merge_proxies,
}
use mihomo_proxy_management.Convert.Merge.Names.{firsts, has_own_names}
use mihomo_proxy_management.Convert.Content.{
  mode_name, process_payload, drop_invalid, convert_payload, convert_content,
}
use mihomo_proxy_management.Convert.Content.Laws.{size_of, convert_content-accounts}
use mihomo_proxy_management.Convert.Sources.{Network, collect_sources, resolve_min_nodes}
use mihomo_proxy_management.Convert.Sources.Laws.{collect_sources-total}
use mihomo_proxy_management.Convert.Command.{
  Args, uri, check_args, multi_source, settings_of, minimum_text, content_of, gather_single, gather,
  suffixed, to_yaml, render, emit, produce, success_code, write_result, main, existing_list,
  mappings, count_new, merge_into,
}
use mihomo_proxy_management.Convert.Command.Laws.{merge_into-keys, main-written}
use mihomo_proxy_management.Tests.Conversions.{library, unary, named_node}
use mihomo_proxy_management.Tests.Commands.{link, trojan_node, link-parsed}

abbrev network : Network
network = record {
  url_scheme = λ u. some "https";
  is_request = λ u. true;
  fetch = λ u agent. some link;
}

collect_sources-total_example :
    (merged : List (Dict Value)) × (failed : ℕ) × (collect_sources library network
        (("SUBSCRIPTION_URL_2", "https://host") ∷ [])
        false
      ≡ ok (merged, failed))
    × (has_own_names [] merged ≡ true)
    × (failed ≤ 3)
collect_sources-total_example =
    collect_sources-total library network unary (("SUBSCRIPTION_URL_2", "https://host") ∷ []) false

detected : detect_input library link ≡ ok (uris (link ∷ []), 0)
unfolding detect_input detect_stripped lstrip_code opens_json split_uri_lines split_lines
    stripped_lines occurs cut drop_prefix
detected = refl

abbrev link_stats : Stats
link_stats = record {
  input_nodes = 1;
  output_nodes = 1;
  skipped_malformed = 0;
  unknown_type = 0;
  skipped_unknown = 0;
  skipped_non_uri = 0;
  skipped_non_node = 0;
  skipped_unsupported = 0;
  failed = 0;
  input_format = "uris";
}

converted : convert_content library link false ≡ ok (trojan_node ∷ [], link_stats)
unfolding convert_content convert_payload mode_name process_payload process_uris process uri_outcome
    scheme_of uri_schemes get count_outcome kept drop_invalid semantic_key without_name cut
    drop_prefix
converted = rw (detected, link-parsed) refl

convert_content-accounts_example :
    (link_stats.input_nodes ≡ size_of (uris (link ∷ [])))
    × (link_stats.output_nodes ≡ length (trojan_node ∷ []))
    × (link_stats.input_nodes ≡ link_stats.output_nodes + skipped link_stats)
convert_content-accounts_example =
    convert_content-accounts library link false (uris (link ∷ [])) 0 (trojan_node ∷ []) link_stats
      detected converted

-- A configuration with one node, to which another and the same one are merged.
abbrev target : Dict Value
target =
    ("proxies", list (cons (object (field "name" (text "a") (field "server" (text "x") end))) nil))
    ∷ []

abbrev new_nodes : List (Dict Value)
new_nodes = named_node "b" "x" ∷ named_node "a" "y" ∷ []

merge_parts :
    (existing_list (get target "proxies") ≡ ok (named_node "a" "x" ∷ []))
    × (keys_of library (named_node "a" "x" ∷ []) ≡ ok ("server=x;" ∷ []))
    × (keys_of library new_nodes ≡ ok ("server=x;" ∷ "server=y;" ∷ []))
unfolding mappings keys_of semantic_key without_name get to_list to_dict
merge_parts = (refl, refl, refl)

merge_into-keys_example :
    (merged : List (Dict Value)) × (merge_into library target new_nodes
      ≡ ok (
        merged,
        count_new ("server=x;" ∷ []) (firsts [] ("server=x;" ∷ "server=x;" ∷ "server=y;" ∷ [])),
      ))
    × (keys_of library merged ≡ ok (firsts [] ("server=x;" ∷ "server=x;" ∷ "server=y;" ∷ [])))
merge_into-keys_example =
    merge_into-keys library unary target (named_node "a" "x" ∷ []) new_nodes ("server=x;" ∷ [])
      ("server=x;" ∷ "server=y;" ∷ []) merge_parts.0 merge_parts.1 merge_parts.2

abbrev arguments : Args
arguments = record {
  input = uri link;
  min_nodes = none;
  output = true;
  target = none;
  listing = false;
  suffix = "";
  user_agent = none;
  environment_agent = none;
  skip_unknown = false;
}

abbrev success : ℕ
success = 0

run : main library network arguments true ≡ (success, some "proxies")
unfolding main produce write_result check_args multi_source settings_of resolve_min_nodes gather
    gather_single content_of emit suffixed render to_yaml success_code merge_proxies merge_from
    reserved_names name_of semantic_key without_name fresh_name base_name get put contains
run = rw converted refl

main-written_example :
    (settings : Dict String) × (minimum : ℕ) × (proxies : List (Dict Value)) × (failed : ℕ)
    × (settings_of library arguments.input ≡ ok settings)
    × (resolve_min_nodes library
          (minimum_text arguments.min_nodes (get settings "MIN_CANDIDATE_NODES"))
        ≡ ok minimum)
    × (gather library network arguments settings ≡ ok (proxies, failed))
    × (minimum ≤ length proxies)
    × (arguments.output ≡ true)
    × (success ≡ (if ltb 0 failed then 5 else 0))
main-written_example = main-written library network arguments true success "proxies" run
