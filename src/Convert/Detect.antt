-- ===== src/Convert/Detect.antt =====
-- `detect_input` of scripts/convert_sub.py, with `_looks_like_base64`, `_split_uri_lines` and `_extract_proxies`.
pub mod Errors
use mihomo_proxy_management.Prelude.{
  ℕ, zero, suc, ◌+◌, String, List, [], ◌∷◌, Option, none, some, Bool, true, false, not, ◌&&◌, ◌||◌,
  str_eq, all, leb, ◌==◌, is_some, if◌then◌else◌,
}
use mihomo_proxy_management.Prelude.Dict.{Dict, get}
use mihomo_proxy_management.Json.{Value, null, list, object, to_list, to_dict}
use mihomo_proxy_management.Convert.Library.{Library}
use mihomo_proxy_management.Convert.Result.{Result, ok, err, bad_input, ◌>>=◌}
use mihomo_proxy_management.Prelude.Strings.{drop_prefix, occurs, all_codes, lstrip_code}
use mihomo_proxy_management.Convert.Base64.{b64decode}

-- The mode with its payload.
pub data Payload : Type 0 where
  yaml singbox : List Value → Payload
  uris : List String → Payload

abbrev pub proxies_of : Option Value → Result (List Value)
proxies_of (some (list vs)) = ok (to_list vs)
proxies_of _ = err bad_input

-- `_extract_proxies` of a mapping
unfoldable pub extract_proxies : Dict Value → Result (List Value)
extract_proxies d = proxies_of (get d "proxies")

-- [A-Za-z0-9+/=_-]
unfoldable pub is_base64_code : ℕ → Bool
is_base64_code n =
    (leb 65 n && leb n 90)
    || (leb 97 n && leb n 122)
    || (leb 48 n && leb n 57)
    || n == 43
    || n == 47
    || n == 61
    || n == 95
    || n == 45

abbrev pub is_object : Value → Bool
is_object (object fs) = true
is_object _ = false

-- `_split_uri_lines` of the lines, each stripped
unfoldable pub split_lines : List String → List String × ℕ
split_lines [] = ([], 0)
split_lines (stripped ∷ lines) =
    let (found, dropped) = split_lines lines in
    if str_eq stripped ""
    then (found, dropped)
    else if occurs "://" stripped
    then (stripped ∷ found, dropped)
    else (found, dropped + 1)

abbrev pub json_payload : Option Value → Dict Value → Result (Payload × ℕ)
json_payload (some (list vs)) d = ok (singbox (to_list vs), 0)
json_payload (some _) d = err bad_input
json_payload none d = do proxies ← extract_proxies d; ok (yaml proxies, 0)

abbrev pub uri_payload : List String × ℕ → Result (Payload × ℕ) → Result (Payload × ℕ)
uri_payload ([], dropped) otherwise = otherwise
uri_payload (uri ∷ found, dropped) otherwise = ok (uris (uri ∷ found), dropped)

-- A text that is no YAML is a list of URIs where every line that is not blank is one.
abbrev pub pure_uris : List String × ℕ → Result (Payload × ℕ)
pure_uris (uri ∷ found, zero) = ok (uris (uri ∷ found), 0)
pure_uris _ = err bad_input

module _ (lib : Library) where
  unfoldable pub looks_like_base64 : String → Bool
  looks_like_base64 s = not (str_eq (lib.compact s) "") && all_codes is_base64_code (lib.compact s)

  unfoldable pub stripped_lines : List String → List String
  stripped_lines [] = []
  stripped_lines (line ∷ lines) = lib.strip line ∷ stripped_lines lines

  unfoldable pub split_uri_lines : String → List String × ℕ
  split_uri_lines s = split_lines (stripped_lines (lib.splitlines s))

  -- re.match(r'^\{\s*"', content)
  unfoldable pub opens_json : String → Bool
  opens_json content = elim (drop_prefix "{" content) [
    | none ↦ false
    | some rest ↦ is_some (drop_prefix "\"" (lib.lstrip rest))
  ]

  unfoldable pub detect_json : String → Result (Payload × ℕ)
  detect_json content = elim (lib.loads content) [
    | none ↦ err bad_input
    | some d ↦ json_payload (get d "outbounds") d
  ]

  -- the text of a base64 subscription, or an empty one
  unfoldable pub decoded_text : String → String
  decoded_text content =
      if looks_like_base64 content
      then elim (b64decode lib content) [ ok s ↦ s | err e ↦ "" ]
      else ""

  -- base64, and then a plain list
  unfoldable pub detect_uris : String → Result (Payload × ℕ)
  detect_uris content =
      let plain = uri_payload (split_uri_lines content) (err bad_input) in
      if occurs "://" (decoded_text content)
      then uri_payload (split_uri_lines (decoded_text content)) plain
      else plain

  abbrev pub yaml_list : List Value → String → Result (Payload × ℕ)
  yaml_list [] content = detect_uris content
  yaml_list (v ∷ vs) content =
      if all is_object (v ∷ vs) then ok (yaml (v ∷ vs), 0) else detect_uris content

  abbrev pub yaml_payload : Option Value → String → Result (Payload × ℕ)
  yaml_payload none content = pure_uris (split_uri_lines content)
  yaml_payload (some (object fs)) content = do
    proxies ← extract_proxies (to_dict fs)
    ok (yaml proxies, 0)
  yaml_payload (some (list vs)) content = yaml_list (to_list vs) content
  yaml_payload (some _) content = detect_uris content

  unfoldable pub detect_stripped : String → Result (Payload × ℕ)
  detect_stripped content =
      if str_eq content ""
      then err bad_input
      else if opens_json content
      then detect_json content
      else if lib.has_yaml
      then yaml_payload (lib.safe_load content) content
      else detect_uris content

  -- The payload, and how many lines were no URIs. 65279 is the byte order mark.
  unfoldable pub detect_input : String → Result (Payload × ℕ)
  detect_input content = detect_stripped (lib.strip (lstrip_code 65279 content))
