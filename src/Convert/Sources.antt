-- ===== src/Convert/Sources.antt =====
-- The three sources of scripts/convert_sub.py: `read_sources_env`, `resolve_min_nodes`, `fetch_subscription` and
-- `collect_sources`.
pub mod Laws
use mihomo_proxy_management.Prelude.{
  ℕ, suc, ◌+◌, String, List, [], ◌∷◌, ◌++◌, Option, none, some, Bool, true, false, not, ◌||◌, ◌&&◌,
  str_eq, contains, leb, ◌==◌, is_some, if◌then◌else◌,
}
use mihomo_proxy_management.Prelude.Text.{append}
use mihomo_proxy_management.Prelude.Dict.{Dict, get, put}
use mihomo_proxy_management.Json.{Value, ℤ, pos}
use mihomo_proxy_management.Convert.Library.{Library}
use mihomo_proxy_management.Convert.Result.{
  Result, ok, err, Error, empty, usage, network, raised, ◌>>=◌,
}
use mihomo_proxy_management.Prelude.Strings.{drop_prefix, cut, all_codes, unsnoc, uncons}
use mihomo_proxy_management.Convert.Uri.{text_or}
use mihomo_proxy_management.Convert.Process.{Stats}
use mihomo_proxy_management.Convert.Content.{convert_content}
use mihomo_proxy_management.Convert.Merge.{merge_proxies}

-- SOURCE_KEYS
unfoldable pub source_keys : List String
source_keys =
    "SUBSCRIPTION_URL_1" ∷ "SUBSCRIPTION_URL_2" ∷ "SUBSCRIPTION_URL_3" ∷ "SUBSCRIPTION_UA_1"
    ∷ "SUBSCRIPTION_UA_2" ∷ "SUBSCRIPTION_UA_3" ∷ "MIN_CANDIDATE_NODES" ∷ []

-- What the script takes from urllib.
pub record Network : Type 0 where
  -- urlsplit(url).scheme; `none` is a ValueError
  pub url_scheme : String → Option String
  -- Request(url) does not raise
  pub is_request : String → Bool
  -- the body that a URL and a user agent get, decoded; `none` is an error of any kind
  pub fetch : String → String → Option String

-- value[1:-1] where the first and the last character are the same
unfoldable pub inner : ℕ → String → Result String
inner quote rest = elim (unsnoc rest) [
  | none ↦ err usage
  | some (body, last) ↦ if last == quote then ok body else err usage
]

-- 34 and 39 are the two quotes
unfoldable pub unquoted : String → Result String
unquoted value = elim (uncons value) [
  | none ↦ ok value
  | some (first, rest) ↦ if first == 34 || first == 39 then inner first rest else ok value
]

-- [1-9][0-9]*
unfoldable pub is_positive_number : String → Bool
is_positive_number s = elim (uncons s) [
  | none ↦ false
  | some (first, rest) ↦ leb 49 first && leb first 57 && all_codes (λ n. leb 48 n && leb n 57) rest
]

abbrev pub some_nodes : List (Dict Value) × Stats → Result (List (Dict Value))
some_nodes ([], stats) = err empty
some_nodes (p ∷ ps, stats) = ok (p ∷ ps)

-- A ConvertError excludes the source; any other exception is not caught here.
abbrev pub collected :
    Result (List (Dict Value)) → Result (List (Dict Value) × ℕ) → Result (List (Dict Value) × ℕ)
collected (err raised) rest = err raised
collected (err e) rest = do (candidates, failed) ← rest; ok (candidates, failed + 1)
collected (ok nodes) rest = do (candidates, failed) ← rest; ok (nodes ++ candidates, failed)

module _ (lib : Library) where
  -- a line with a key of SOURCE_KEYS
  unfoldable pub add_setting : Dict String → String → Option String → Result (Dict String)
  add_setting values key none = err usage
  add_setting values key (some value) = elim (is_some (get values key)) [
    | true ↦ err usage
    | false ↦ do body ← unquoted (lib.strip value); ok (put values key body)
  ]

  abbrev known_setting : Dict String → String → Option String → Result (Dict String)
  known_setting values key value =
      if contains source_keys key then add_setting values key value else ok values

  -- a stripped line that is no comment
  unfoldable pub read_setting : Dict String → String → Result (Dict String)
  read_setting values line = elim (cut "=" line) [
    | none ↦ known_setting values (lib.strip line) none
    | some (key, value) ↦ known_setting values (lib.strip key) (some value)
  ]

  unfoldable pub read_line : Dict String → String → Result (Dict String)
  read_line values line =
      if str_eq line "" || is_some (drop_prefix "#" line)
      then ok values
      else read_setting values line

  unfoldable pub read_lines : Dict String → List String → Result (Dict String)
  read_lines values [] = ok values
  read_lines values (line ∷ lines) = do
    next ← read_line values (lib.strip line)
    read_lines next lines

  -- The lines of the file; `none` is an OSError or a UnicodeError.
  unfoldable pub read_sources_env : Option (List String) → Result (Dict String)
  read_sources_env none = err usage
  read_sources_env (some lines) = read_lines [] lines

  abbrev number_of : Option ℤ → Result ℕ
  number_of (some (pos n)) = ok n
  number_of _ = err usage

  unfoldable pub resolve_min_nodes : Option String → Result ℕ
  resolve_min_nodes none = ok 1
  resolve_min_nodes (some value) =
      if is_positive_number value then number_of (lib.int_of value) else err usage

  -- settings.get(key, "").strip()
  unfoldable pub setting : Dict String → String → String
  setting settings key = lib.strip (text_or (get settings key) "")

  module _ (net : Network) where
    unfoldable pub build_request : String → Result String
    build_request url = elim (net.url_scheme url) [
      | none ↦ err usage
      | some scheme ↦
          if contains ("https" ∷ "http" ∷ []) (lib.lower scheme) && net.is_request url
          then ok url
          else err usage
    ]

    unfoldable pub fetch_subscription : String → String → Result String
    fetch_subscription url user_agent = do
      request ← build_request url
      elim (net.fetch request user_agent) [ none ↦ err network | some body ↦ ok body ]

    -- the nodes of a source with a URL
    unfoldable pub read_source : String → String → Bool → Result (List (Dict Value))
    read_source url agent skip_unknown = do
      content ← fetch_subscription url agent
      found ← convert_content lib content skip_unknown
      some_nodes found

    -- the body of the `try` for one source
    unfoldable pub source_nodes : Dict String → Bool → String → Result (List (Dict Value))
    source_nodes settings skip_unknown index =
        let url = setting settings (append "SUBSCRIPTION_URL_" index) in
        let agent = setting settings (append "SUBSCRIPTION_UA_" index) in
        if str_eq url ""
        then err usage
        else read_source url (text_or (some agent) "ClashMeta/1.18.0") skip_unknown

    unfoldable pub collect_from : Dict String → Bool → List String → Result (List (Dict Value) × ℕ)
    collect_from settings skip_unknown [] = ok ([], 0)
    collect_from settings skip_unknown (index ∷ indices) =
        collected (source_nodes settings skip_unknown index)
          (collect_from settings skip_unknown indices)

    unfoldable pub collect_sources : Dict String → Bool → Result (List (Dict Value) × ℕ)
    collect_sources settings skip_unknown = do
      (candidates, failed) ← collect_from settings skip_unknown ("1" ∷ "2" ∷ "3" ∷ [])
      merged ← merge_proxies lib candidates
      ok (merged, failed)
