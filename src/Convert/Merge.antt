-- ===== src/Convert/Merge.antt =====
-- `semantic_key` and `merge_proxies` of scripts/convert_sub.py.
pub mod Fresh
pub mod Names
use mihomo_proxy_management.Prelude.{
  ℕ, zero, suc, ◌+◌, String, List, [], ◌∷◌, ◌++◌, Option, none, some, Bool, true, false, not, ◌&&◌,
  ◌||◌, str_eq, contains, length, if◌then◌else◌,
}
use mihomo_proxy_management.Prelude.Text.{append}
use mihomo_proxy_management.Prelude.Dict.{Dict, get, put}
use mihomo_proxy_management.Json.{Value, text}
use mihomo_proxy_management.Convert.Library.{Library}
use mihomo_proxy_management.Convert.Result.{Result, ok, err, bad_input, raised, ◌>>=◌}

-- {k: v for k, v in proxy.items() if k != "name"}
unfoldable pub without_name : Dict Value → Dict Value
without_name [] = []
without_name ((k, v) ∷ d) =
    let rest = without_name d in if str_eq k "name" then rest else (k, v) ∷ rest

abbrev name_text : Option Value → Option String
name_text (some (text s)) = some s
name_text _ = none

-- `proxy.get("name")` where it is a text
unfoldable pub name_of : Dict Value → Option String
name_of proxy = name_text (get proxy "name")

-- the names of `reserved`
unfoldable pub reserved_names : List (Dict Value) → List String
reserved_names [] = []
reserved_names (p ∷ ps) = elim (name_of p) [
  | none ↦ reserved_names ps
  | some n ↦ n ∷ reserved_names ps
]

module _ (lib : Library) where
  unfoldable pub semantic_key : Dict Value → Result String
  semantic_key proxy = elim (lib.dumps (without_name proxy)) [
    | none ↦ err bad_input
    | some k ↦ ok k
  ]

  -- the keys of the nodes
  unfoldable pub keys_of : List (Dict Value) → Result (List String)
  keys_of [] = ok []
  keys_of (p ∷ ps) = do key ← semantic_key p; rest ← keys_of ps; ok (key ∷ rest)

  -- f"{name} [{suffix}]"
  unfoldable pub candidate_at : String → ℕ → String
  candidate_at name suffix = append name (append " [" (append (lib.show suffix) "]"))

  -- The `while` loop from a suffix on; `none` is out of fuel.
  unfoldable pub search_name : ℕ → List String → String → ℕ → Option String
  search_name zero taken name suffix = none
  search_name (suc fuel) taken name suffix =
      let later = search_name fuel taken name (suffix + 1) in
      if contains taken (candidate_at name suffix) then later else some (candidate_at name suffix)

  -- The name that a node gets. The plain name is only compared with the used ones.
  unfoldable pub fresh_name : List String → List String → String → Option String
  fresh_name used reserved name =
      if contains used name
      then search_name (suc (length (used ++ reserved))) (used ++ reserved) name 2
      else some name

  -- a name that is no text, or blank, is the node's number
  unfoldable pub base_name : Dict Value → ℕ → String
  base_name proxy index = elim (name_of proxy) [
    | none ↦ append "node#" (lib.show (index + 1))
    | some n ↦ if str_eq (lib.strip n) "" then append "node#" (lib.show (index + 1)) else n
  ]

  abbrev named : Option String → Result String
  named none = err raised
  named (some n) = ok n

  -- the loop, with the keys seen and the names used so far
  unfoldable pub merge_from :
      List String → ℕ → List String → List String → List (Dict Value) → Result (List (Dict Value))
  merge_from reserved index seen used [] = ok []
  merge_from reserved index seen used (proxy ∷ proxies) = do
    key ← semantic_key proxy
    elim (contains seen key) [
      | true ↦ merge_from reserved (index + 1) seen used proxies
      | false ↦ do
        name ← named (fresh_name used reserved (base_name proxy index))
        rest ← merge_from reserved (index + 1) (key ∷ seen) (name ∷ used) proxies
        ok (put proxy "name" (text name) ∷ rest)
    ]

  unfoldable pub merge_proxies : List (Dict Value) → Result (List (Dict Value))
  merge_proxies proxies = merge_from (reserved_names proxies) 0 [] [] proxies
