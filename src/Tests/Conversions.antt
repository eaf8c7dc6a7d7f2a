-- ===== src/Tests/Conversions.antt =====
-- The conversion of subscriptions, on small ones.
use mihomo_proxy_management.Prelude.{
  ℕ, String, List, [], ◌∷◌, none, some, true, false, ◌≡◌, ◌⊎◌, refl, ap, arith, str_eq, contains,
  if◌then◌else◌,
}
use mihomo_proxy_management.Prelude.Text.{append}
use mihomo_proxy_management.Prelude.Dict.{Dict}
use mihomo_proxy_management.Json.{Value, pos, text}
use mihomo_proxy_management.Convert.Library.{Library}
use mihomo_proxy_management.Convert.Result.{ok}
use mihomo_proxy_management.Convert.Base64.{equals_signs, count-equals_signs}
use mihomo_proxy_management.Convert.Merge.{
  without_name, semantic_key, keys_of, fresh_name, merge_proxies,
}
use mihomo_proxy_management.Convert.Merge.Fresh.{fresh_name-ends}
use mihomo_proxy_management.Convert.Merge.Names.{
  firsts, has_own_names, merge_proxies-firsts, merge_proxies-own_names,
}
use Prim.Native.String.{count}

-- the text of a node: its fields that are texts
abbrev value_text : Value → String
value_text (text s) = s
value_text _ = "?"

abbrev fields_text : Dict Value → String
fields_text [] = ""
fields_text ((k, v) ∷ d) =
    append k (append "=" (append (value_text v) (append ";" (fields_text d))))

-- A library that knows the port 443, writes numbers in unary, and has a single line in every text.
abbrev pub library : Library
library = record {
  strip = λ s. s;
  lstrip = λ s. s;
  compact = λ s. s;
  lower = λ s. s;
  show = equals_signs;
  int_of = λ s. if str_eq s "443" then some (pos 443) else none;
  unquote = λ s. s;
  parse_qs = λ s. [];
  b64_text = λ s. none;
  urlsafe_b64_text = λ s. none;
  dumps = λ d. some (fields_text d);
  loads = λ s. none;
  has_yaml = true;
  safe_load = λ s. none;
  splitlines = λ s. s ∷ [];
  duration_groups = λ s. none;
  duration_product = λ n u k. none;
  safe_dump = λ v. some "proxies";
}

pub unary : (i j : ℕ) → equals_signs i ≡ equals_signs j → i ≡ j
unary i j e = omega (arith, count-equals_signs i, count-equals_signs j, ap count e)

abbrev pub named_node : String → String → Dict Value
named_node name server = ("name", text name) ∷ ("server", text server) ∷ []

-- The second node repeats the first under another name; the third has the first one's name.
abbrev three_nodes : List (Dict Value)
three_nodes = named_node "a" "x" ∷ named_node "b" "x" ∷ named_node "a" "y" ∷ []

abbrev three_keys : List String
three_keys = "server=x;" ∷ "server=x;" ∷ "server=y;" ∷ []

three_nodes-keys : keys_of library three_nodes ≡ ok three_keys
unfolding keys_of semantic_key without_name
three_nodes-keys = refl

fresh_name-ends_example :
    (found : String) × (fresh_name library ("a" ∷ "b" ∷ []) ("a" ∷ []) "a" ≡ some found)
    × (contains ("a" ∷ "b" ∷ []) found ≡ false)
    × ((found ≡ "a") ⊎ (contains ("a" ∷ []) found ≡ false))
fresh_name-ends_example = fresh_name-ends library unary ("a" ∷ "b" ∷ []) ("a" ∷ []) "a"

merge_proxies-firsts_example :
    (out : List (Dict Value)) × (merge_proxies library three_nodes ≡ ok out)
    × (keys_of library out ≡ ok (firsts [] three_keys))
merge_proxies-firsts_example =
    merge_proxies-firsts library unary three_nodes three_keys three_nodes-keys

merge_proxies-own_names_example :
    (out : List (Dict Value)) × (merge_proxies library three_nodes ≡ ok out)
    × (has_own_names [] out ≡ true)
merge_proxies-own_names_example =
    merge_proxies-own_names library unary three_nodes three_keys three_nodes-keys
