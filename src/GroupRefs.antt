-- ===== src/GroupRefs.antt =====
-- scripts/lib/check_group_refs.py: the members of the proxy groups that name nothing.
pub mod Names
pub mod Laws
use mihomo_proxy_management.Prelude.{
  ℕ, String, List, [], ◌∷◌, ◌++◌, Option, none, some, Bool, true, false, not, ◌&&◌, ◌>>=◌, str_eq,
  contains, if◌then◌else◌,
}
use mihomo_proxy_management.Prelude.Dict.{Dict}
use mihomo_proxy_management.Document.{
  Node, null, text, sequence, mapping, items, entries, field_of, iterate, text_of,
}

-- BUILTIN_POLICIES
abbrev pub builtin_policies : List String
builtin_policies = "DIRECT" ∷ "REJECT" ∷ "COMPATIBLE" ∷ "PASS" ∷ []

abbrev pub listed_text : Option String → List String
listed_text none = []
listed_text (some s) = s ∷ []

-- what an item of `proxies:` is called
abbrev pub proxy_name : Node → Option String
proxy_name (mapping es) = text_of (field_of (entries es) "name")
proxy_name (text s) = some s
proxy_name _ = none

unfoldable pub proxy_names : List Node → List String
proxy_names [] = []
proxy_names (n ∷ ns) = listed_text (proxy_name n) ++ proxy_names ns

unfoldable pub names_from_proxies : Node → List String
names_from_proxies (sequence ns) = proxy_names (items ns)
names_from_proxies _ = []

abbrev pub is_filled : String → Bool
is_filled s = not (str_eq s "")

-- the names in one cache file, which is parsed or `none`
abbrev pub cached_names : Option Node → List String
cached_names (some (mapping es)) = names_from_proxies (field_of (entries es) "proxies")
cached_names _ = []

abbrev pub group_name : Node → Option String
group_name (mapping es) = text_of (field_of (entries es) "name")
group_name _ = none

unfoldable pub group_names : List Node → List String
group_names [] = []
group_names (g ∷ gs) = listed_text (group_name g) ++ group_names gs

abbrev pub shown_name : Option String → String
shown_name none = "<unnamed>"
shown_name (some s) = s

-- a member that is a mapping is called by its `name`
abbrev pub member_name : Node → Option String
member_name (mapping es) = text_of (field_of (entries es) "name")
member_name n = text_of n

unfoldable pub missing_members : List String → String → List Node → List (String × String)
missing_members valid gname [] = []
missing_members valid gname (member ∷ members) =
    let rest = missing_members valid gname members in
    elim (member_name member) [
      | none ↦ rest
      | some m ↦ if contains valid m then rest else (gname, m) ∷ rest
    ]

-- the loop over the groups; `none` is a TypeError of a group whose `proxies` cannot be iterated
unfoldable pub missing_in : List String → List Node → Option (List (String × String))
missing_in valid [] = some []
missing_in valid (mapping es ∷ groups) = do
  members ← iterate (field_of (entries es) "proxies")
  rest ← missing_in valid groups
  some (missing_members valid (shown_name (group_name (mapping es))) members ++ rest)
missing_in valid (_ ∷ groups) = missing_in valid groups

-- `cache` is the parsed file at a provider's `path`, resolved; `none` where there is none or it does not parse.
module _ (cache : String → Option Node) where
  abbrev pub provider_names : Node → List String
  provider_names (mapping es) = elim (text_of (field_of (entries es) "path")) [
    | none ↦ []
    | some path ↦ if is_filled path then cached_names (cache path) else []
  ]
  provider_names _ = []

  unfoldable pub providers_names : Dict Node → List String
  providers_names [] = []
  providers_names ((n, p) ∷ ps) = provider_names p ++ providers_names ps

  unfoldable pub load_provider_names : Dict Node → List String
  load_provider_names config = elim (field_of config "proxy-providers") [
    | mapping es ↦ providers_names (entries es)
    | _ ↦ []
  ]

  unfoldable pub collect_valid_names : Dict Node → Option (List String)
  collect_valid_names config = do
    groups ← iterate (field_of config "proxy-groups")
    some (
        builtin_policies
        ++ names_from_proxies (field_of config "proxies")
        ++ group_names groups
        ++ load_provider_names config)

  unfoldable pub find_missing_group_refs : Dict Node → Option (List (String × String))
  find_missing_group_refs config = do
    valid ← collect_valid_names config
    groups ← iterate (field_of config "proxy-groups")
    missing_in valid groups

-- What `load_config` meets: a parse or read error, or a document.
pub data Loaded : Type 0 where
  unreadable : Loaded
  document : Node → Loaded

-- the exit code of `main`, or the TypeError that it lets through
pub data Exit : Type 0 where
  code : ℕ → Exit
  type_error : Exit

abbrev pub code_of : Option (List (String × String)) → Exit
code_of none = type_error
code_of (some []) = code 0
code_of (some (p ∷ ps)) = code 1

unfoldable pub main : (String → Option Node) → Loaded → Exit
main cache unreadable = code 2
main cache (document null) = code_of (find_missing_group_refs cache [])
main cache (document (mapping es)) = code_of (find_missing_group_refs cache (entries es))
main cache (document _) = code 2
