-- ===== src/Convert/Command.antt =====
-- The command line of scripts/convert_sub.py: `_resolve_url`, `resolve_user_agent`, `to_yaml`, `merge_into_yaml` and
-- `main`. Its messages are not modelled.
pub mod Laws
use mihomo_proxy_management.Prelude.{
  ℕ, suc, ◌+◌, String, List, [], ◌∷◌, ◌++◌, Option, none, some, Bool, true, false, not, ◌&&◌, ◌||◌,
  str_eq, contains, length, ltb, map, is_some, if◌then◌else◌,
}
use mihomo_proxy_management.Prelude.Text.{append}
use mihomo_proxy_management.Prelude.Dict.{Dict, get, put}
use mihomo_proxy_management.Json.{
  Value, null, text, list, object, to_list, of_list, to_dict, of_dict,
}
use mihomo_proxy_management.Convert.Library.{Library}
use mihomo_proxy_management.Convert.Result.{
  Result, ok, err, Error, empty, usage, bad_input, raised, exit_code, ◌>>=◌,
}
use mihomo_proxy_management.Convert.Uri.{text_or}
use mihomo_proxy_management.Convert.Merge.{name_of, keys_of, merge_proxies}
use mihomo_proxy_management.Convert.Content.{convert_content}
use mihomo_proxy_management.Convert.Sources.{
  Network, read_sources_env, resolve_min_nodes, fetch_subscription, collect_sources,
}

-- The option of the exclusive group that is given, with what it is read from. No text is empty but that of a
-- variable or of the standard input.
pub data Input : Type 0 where
  -- the lines of the file, `none` where it cannot be read
  sources_env_file : Option (List String) → Input
  -- the variables of SOURCE_KEYS that are set
  sources_env : Dict String → Input
  url url_env url_stdin : String → Input
  -- the text of the file
  file : Option String → Input
  uri : String → Input

pub record Args : Type 0 where
  pub input : Input
  pub min_nodes : Option String
  -- --output is given
  pub output : Bool
  -- --merge is given, with the text of its file
  pub target : Option (Option String)
  -- --list
  pub listing : Bool
  pub suffix : String
  pub user_agent : Option String
  -- CONVERT_SUB_UA
  pub environment_agent : Option String
  pub skip_unknown : Bool

unfoldable pub multi_source : Input → Bool
multi_source (sources_env_file lines) = true
multi_source (sources_env variables) = true
multi_source _ = false

abbrev pub is_given : Option String → Bool
is_given value = not (str_eq (text_or value "") "")

-- {**proxy, "name": proxy["name"] + suffix}
abbrev renamed : Option String → String → Dict Value → Result (Dict Value)
renamed none suffix proxy = err raised
renamed (some name) suffix proxy = ok (put proxy "name" (text (append name suffix)))

unfoldable pub add_suffix : String → List (Dict Value) → Result (List (Dict Value))
add_suffix suffix [] = ok []
add_suffix suffix (p ∷ ps) = do
  q ← renamed (name_of p) suffix p
  rest ← add_suffix suffix ps
  ok (q ∷ rest)

unfoldable pub suffixed : String → List (Dict Value) → Result (List (Dict Value))
suffixed suffix ps = if str_eq suffix "" then ok ps else add_suffix suffix ps

unfoldable pub as_value : List (Dict Value) → Value
as_value ps = list (of_list (map (λ p. object (of_dict p)) ps))

-- the mappings of a list, all of which must be some
unfoldable pub mappings : List Value → Result (List (Dict Value))
mappings [] = ok []
mappings (object fs ∷ vs) = do rest ← mappings vs; ok (to_dict fs ∷ rest)
mappings (v ∷ vs) = err bad_input

abbrev pub existing_list : Option Value → Result (List (Dict Value))
existing_list none = ok []
existing_list (some (list vs)) = mappings (to_list vs)
existing_list (some _) = err bad_input

-- the merge target
abbrev target_of : Option Value → Result (Dict Value)
target_of none = err bad_input
target_of (some null) = ok []
target_of (some (object fs)) = ok (to_dict fs)
target_of (some _) = err bad_input

-- sum(key not in known for key in keys)
unfoldable pub count_new : List String → List String → ℕ
count_new known [] = 0
count_new known (k ∷ ks) =
    let rest = count_new known ks in if contains known k then rest else suc rest

unfoldable pub success_code : ℕ → ℕ
success_code failed = if ltb 0 failed then 5 else 0

-- `write_output_safely` replaces the file as a whole or raises an OSError.
unfoldable pub write_result : Args → Bool → Result (Option String × ℕ) → ℕ × Option String
write_result args replaces (err e) = (exit_code e, none)
write_result args replaces (ok (none, failed)) = (success_code failed, none)
write_result args replaces (ok (some output, failed)) =
    if not args.output
    then (success_code failed, none)
    else if replaces
    then (success_code failed, some output)
    else (3, none)

abbrev pub minimum_text : Option String → Option String → Option String
minimum_text none setting = setting
minimum_text (some value) setting = some value

abbrev dumped : Option String → Result String
dumped none = err raised
dumped (some s) = ok s

module _ (lib : Library) where
  unfoldable pub to_yaml : List (Dict Value) → Result String
  to_yaml proxies =
      if lib.has_yaml
      then dumped (lib.safe_dump (object (of_dict (("proxies", as_value proxies) ∷ []))))
      else err usage

  -- the nodes of the target and the new ones, and how many were added
  unfoldable pub merge_into : Dict Value → List (Dict Value) → Result (List (Dict Value) × ℕ)
  merge_into target proxies = do
    existing ← existing_list (get target "proxies")
    known ← keys_of lib existing
    merged ← merge_proxies lib (existing ++ proxies)
    keys ← keys_of lib merged
    ok (merged, count_new known keys)

  unfoldable pub merge_into_yaml : List (Dict Value) → Option String → Result (String × ℕ)
  merge_into_yaml proxies none = err usage
  merge_into_yaml proxies (some content) = do
    target ← target_of (lib.safe_load content)
    (merged, added) ← merge_into target proxies
    output ← dumped (lib.safe_dump (object (of_dict (put target "proxies" (as_value merged)))))
    ok (output, added)

  -- `_resolve_url` of a variable or of the standard input
  unfoldable pub resolve_url : String → Result String
  resolve_url value = if str_eq (lib.strip value) "" then err usage else ok (lib.strip value)

  unfoldable pub resolve_user_agent : Args → String
  resolve_user_agent args =
      if is_given args.user_agent
      then text_or args.user_agent ""
      else text_or (some (lib.strip (text_or args.environment_agent ""))) "ClashMeta/1.18.0"

  -- the guards of the options
  unfoldable pub check_args : Args → Result Bool
  check_args args =
      if not lib.has_yaml
      then err usage
      else if multi_source args.input
          && ((not args.output && not args.listing) || is_given args.user_agent)
      then err usage
      else ok true

  unfoldable pub settings_of : Input → Result (Dict String)
  settings_of (sources_env_file lines) = read_sources_env lib lines
  settings_of (sources_env variables) = ok variables
  settings_of _ = ok []

  -- the text that is written to the file or the standard output; none where the nodes are only listed
  unfoldable pub render : Args → List (Dict Value) → Result (Option String)
  render args proxies = if args.listing then ok none else elim args.target [
    | none ↦ do output ← to_yaml proxies; ok (some output)
    | some content ↦ do (output, added) ← merge_into_yaml proxies content; ok (some output)
  ]

  module _ (net : Network) where
    unfoldable pub content_of : Args → Input → Result String
    content_of args (url address) = fetch_subscription lib net address (resolve_user_agent args)
    content_of args (url_env value) = do
      address ← resolve_url value
      fetch_subscription lib net address (resolve_user_agent args)
    content_of args (url_stdin value) = do
      address ← resolve_url value
      fetch_subscription lib net address (resolve_user_agent args)
    content_of args (file none) = err usage
    content_of args (file (some content)) = ok content
    content_of args (uri content) = ok content
    content_of args _ = ok ""

    -- one subscription
    unfoldable pub gather_single : Args → Result (List (Dict Value) × ℕ)
    gather_single args = do
      content ← content_of args args.input
      (proxies, stats) ← convert_content lib content args.skip_unknown
      merged ← merge_proxies lib proxies
      ok (merged, 0)

    -- the nodes, and how many sources failed
    unfoldable pub gather : Args → Dict String → Result (List (Dict Value) × ℕ)
    gather args settings =
        if multi_source args.input
        then collect_sources lib net settings args.skip_unknown
        else gather_single args

    -- What is done with the nodes.
    unfoldable pub emit : Args → ℕ → List (Dict Value) × ℕ → Result (Option String × ℕ)
    emit args minimum (proxies, failed) = if ltb (length proxies) minimum then err empty else do
      named ← suffixed args.suffix proxies
      output ← render args named
      ok (output, failed)

    -- the body of the `try`, up to the writing
    unfoldable pub produce : Args → Result (Option String × ℕ)
    produce args = do
      checked ← check_args args
      settings ← settings_of args.input
      minimum ←
          resolve_min_nodes lib (minimum_text args.min_nodes (get settings "MIN_CANDIDATE_NODES"))
      gathered ← gather args settings
      emit args minimum gathered

    -- The exit code, and the new content of the output file where it is replaced.
    unfoldable pub main : Args → Bool → ℕ × Option String
    main args replaces = write_result args replaces (produce args)
