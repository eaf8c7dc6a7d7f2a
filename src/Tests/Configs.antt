-- ===== src/Tests/Configs.antt =====
-- The check of the group references, on a small configuration.
use mihomo_proxy_management.Prelude.{
  String, List, [], ◌∷◌, Option, none, some, false, not, ◌&&◌, ◌≡◌, ◌↔◌, refl, contains,
}
use mihomo_proxy_management.Prelude.Dict.{get, keys}
use mihomo_proxy_management.Document.{
  Node, text, sequence, mapping, Nodes, nil, cons, Entries, end, entry, items, entries, field_of,
  iterate,
}
use mihomo_proxy_management.GroupRefs.{
  proxy_names, names_from_proxies, providers_names, load_provider_names, group_names,
  collect_valid_names, missing_members, missing_in, find_missing_group_refs, main, document, code,
}
use mihomo_proxy_management.GroupRefs.Names.{names_something}
use mihomo_proxy_management.GroupRefs.Laws.{find_missing-reports, main-ok, has_pair, refers}

-- The group A has the members B, which is a group, and "gone", which is nothing.
abbrev group : String → Nodes → Node
group name members = mapping (entry "name" (text name) (entry "proxies" (sequence members) end))

abbrev groups : List Node
groups =
    group "A" (cons (text "B") (cons (text "gone") nil)) ∷ group "B" (cons (text "DIRECT") nil) ∷ []

abbrev config : Entries
config =
    entry "proxy-groups"
      (sequence (
        cons (group "A" (cons (text "B") (cons (text "gone") nil)))
          (cons (group "B" (cons (text "DIRECT") nil)) nil)))
      end

abbrev no_cache : String → Option Node
no_cache path = none

abbrev valid : List String
valid = "DIRECT" ∷ "REJECT" ∷ "COMPATIBLE" ∷ "PASS" ∷ "A" ∷ "B" ∷ []

abbrev missing : List (String × String)
missing = ("A", "gone") ∷ []

checked :
    (iterate (field_of (entries config) "proxy-groups") ≡ some groups)
    × (collect_valid_names no_cache (entries config) ≡ some valid)
    × (find_missing_group_refs no_cache (entries config) ≡ some missing)
unfolding iterate field_of get keys items entries collect_valid_names names_from_proxies proxy_names
    group_names load_provider_names providers_names find_missing_group_refs missing_in
    missing_members contains
checked = (refl, refl, refl)

find_missing-reports_example :
    has_pair missing "A" "gone"
    ≡ refers groups "A" "gone" && not (names_something no_cache (entries config) groups "gone")
find_missing-reports_example =
    find_missing-reports no_cache (entries config) groups missing "A" "gone" checked.0 checked.2

main-ok_example :
    (main no_cache (document (mapping config)) ≡ code 0)
    ↔ ((g m : String) → refers groups g m && not (contains valid m) ≡ false)
main-ok_example = main-ok no_cache config groups valid missing checked.0 checked.1 checked.2
