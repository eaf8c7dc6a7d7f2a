-- ===== src/GroupRefs/Names.antt =====
-- What the members of the groups may be called in scripts/lib/check_group_refs.py, without the list of the names.
use mihomo_proxy_management.Prelude.{
  contains-append, String, List, [], ◌∷◌, ◌++◌, Option, none, some, Bool, false, ◌||◌, ◌≡◌, str_eq,
  contains, refl, arith, inl, inr, Option-cases, if◌then◌else◌,
}
use mihomo_proxy_management.Prelude.Dict.{Dict}
use mihomo_proxy_management.Document.{
  Node, null, scalar, text, sequence, mapping, items, entries, field_of, iterate, text_of,
}
use mihomo_proxy_management.GroupRefs.{
  builtin_policies, listed_text, proxy_name, proxy_names, names_from_proxies, cached_names,
  group_name, group_names, provider_names, providers_names, load_provider_names,
  collect_valid_names,
}

abbrev pub is_called : Option String → String → Bool
is_called none m = false
is_called (some n) m = str_eq n m

-- a group called g is there
abbrev pub has_group : List Node → String → Bool
has_group [] g = false
has_group (n ∷ ns) g = is_called (group_name n) g || has_group ns g

-- a list of proxies has one that is called m
abbrev pub has_proxy : List Node → String → Bool
has_proxy [] m = false
has_proxy (n ∷ ns) m = is_called (proxy_name n) m || has_proxy ns m

-- the value is a list of proxies, one of them called m
abbrev pub lists_proxy : Node → String → Bool
lists_proxy (sequence ns) m = has_proxy (items ns) m
lists_proxy _ m = false

-- a document with a list `proxies`, one of them called m
abbrev pub caches_proxy : Option Node → String → Bool
caches_proxy (some (mapping es)) m = lists_proxy (field_of (entries es) "proxies") m
caches_proxy _ m = false

abbrev pub cached_at : (String → Option Node) → Option String → Option Node
cached_at cache none = none
cached_at cache (some path) = if str_eq path "" then none else cache path

-- the file at the `path` of a provider has a proxy called m
abbrev pub provides : (String → Option Node) → Node → String → Bool
provides cache (mapping es) m =
    caches_proxy (cached_at cache (text_of (field_of (entries es) "path"))) m
provides cache _ m = false

abbrev pub some_provides : (String → Option Node) → Dict Node → String → Bool
some_provides cache [] m = false
some_provides cache ((n, p) ∷ ps) m = provides cache p m || some_provides cache ps m

abbrev pub providers_have : (String → Option Node) → Node → String → Bool
providers_have cache (mapping es) m = some_provides cache (entries es) m
providers_have cache _ m = false

-- A built-in policy, a proxy of the configuration, a group, or a node in the cache of a provider is called m.
unfoldable pub names_something : (String → Option Node) → Dict Node → List Node → String → Bool
names_something cache config groups m =
    (str_eq "DIRECT" m || str_eq "REJECT" m || str_eq "COMPATIBLE" m || str_eq "PASS" m)
    || lists_proxy (field_of config "proxies") m
    || has_group groups m
    || providers_have cache (field_of config "proxy-providers") m

contains-group_names : (gs : List Node) (g : String) → contains (group_names gs) g ≡ has_group gs g
unfolding contains group_names
contains-group_names [] g = refl
contains-group_names (n ∷ ns) g =
    let rest = contains-group_names ns g in
    elim (Option-cases (group_name n)) [
      | inl e ↦ ground (arith, rest)
      | inr (k, e) ↦ ground (arith, rest)
    ]

contains-listed_text : (o : Option String) (m : String) → contains (listed_text o) m ≡ is_called o m
unfolding contains
contains-listed_text none m = refl
contains-listed_text (some k) m = ground arith

contains-proxy_names : (ns : List Node) (m : String) → contains (proxy_names ns) m ≡ has_proxy ns m
unfolding contains proxy_names
contains-proxy_names [] m = refl
contains-proxy_names (n ∷ ns) m = ground (
  arith,
  contains-proxy_names ns m,
  contains-append (listed_text (proxy_name n)) (proxy_names ns) m,
  contains-listed_text (proxy_name n) m,
)

contains-names_from_proxies :
    (n : Node) (m : String) → contains (names_from_proxies n) m ≡ lists_proxy n m
unfolding contains names_from_proxies
contains-names_from_proxies (sequence ns) m = contains-proxy_names (items ns) m
contains-names_from_proxies null m = refl
contains-names_from_proxies (scalar b) m = refl
contains-names_from_proxies (text s) m = refl
contains-names_from_proxies (mapping es) m = refl

contains-cached_names :
    (o : Option Node) (m : String) → contains (cached_names o) m ≡ caches_proxy o m
unfolding contains
contains-cached_names none m = refl
contains-cached_names (some (mapping es)) m =
    contains-names_from_proxies (field_of (entries es) "proxies") m
contains-cached_names (some (sequence ns)) m = refl
contains-cached_names (some null) m = refl
contains-cached_names (some (scalar b)) m = refl
contains-cached_names (some (text s)) m = refl

module _ (cache : String → Option Node) where
  contains-provider_names :
      (p : Node) (m : String) → contains (provider_names cache p) m ≡ provides cache p m
  unfolding contains
  contains-provider_names (mapping es) m =
      elim (Option-cases (text_of (field_of (entries es) "path"))) [
        | inl e ↦ ground arith
        | inr (path, e) ↦ ground (arith, contains-cached_names (cache path) m)
      ]
  contains-provider_names null m = refl
  contains-provider_names (scalar b) m = refl
  contains-provider_names (text s) m = refl
  contains-provider_names (sequence ns) m = refl

  contains-providers_names :
      (ps : Dict Node) (m : String)
      → contains (providers_names cache ps) m ≡ some_provides cache ps m
  unfolding contains providers_names
  contains-providers_names [] m = refl
  contains-providers_names ((n, p) ∷ ps) m = ground (
    arith,
    contains-append (provider_names cache p) (providers_names cache ps) m,
    contains-provider_names p m,
    contains-providers_names ps m,
  )

  contains-load_provider_names :
      (n : Node) (m : String)
      → contains (elim n [ mapping es ↦ providers_names cache (entries es) | _ ↦ [] ]) m
        ≡ providers_have cache n m
  unfolding contains
  contains-load_provider_names (mapping es) m = contains-providers_names (entries es) m
  contains-load_provider_names null m = refl
  contains-load_provider_names (scalar b) m = refl
  contains-load_provider_names (text s) m = refl
  contains-load_provider_names (sequence ns) m = refl

  contains-builtin_policies :
      (m : String)
      → contains builtin_policies m
        ≡ str_eq "DIRECT" m || str_eq "REJECT" m || str_eq "COMPATIBLE" m || str_eq "PASS" m
  unfolding contains
  contains-builtin_policies m = ground arith

  contains-valid :
      (config : Dict Node) (groups : List Node) (m : String)
      → contains
          (builtin_policies
            ++ names_from_proxies (field_of config "proxies")
            ++ group_names groups
            ++ load_provider_names cache config)
          m
        ≡ names_something cache config groups m
  unfolding names_something load_provider_names
  contains-valid config groups m =
      let names = names_from_proxies (field_of config "proxies") in
      let cached = load_provider_names cache config in
      ground (
        arith,
        contains-append ((builtin_policies ++ names) ++ group_names groups) cached m,
        contains-append (builtin_policies ++ names) (group_names groups) m,
        contains-append builtin_policies names m,
        contains-builtin_policies m,
        contains-names_from_proxies (field_of config "proxies") m,
        contains-group_names groups m,
        contains-load_provider_names (field_of config "proxy-providers") m,
      )

  -- The valid names are those that something is called.
  pub collect_valid_names-contains :
      (config : Dict Node) (groups : List Node) (valid : List String) (m : String)
      → iterate (field_of config "proxy-groups") ≡ some groups
      → collect_valid_names cache config ≡ some valid
      → contains valid m ≡ names_something cache config groups m
  unfolding collect_valid_names
  collect_valid_names-contains config groups valid m i v =
      ground (arith, i, v, contains-valid config groups m)
