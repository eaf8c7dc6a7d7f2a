-- ===== src/GroupRefs/Laws.antt =====
-- What the report of scripts/lib/check_group_refs.py holds.
use mihomo_proxy_management.Prelude.{
  eq_refl, String, List, [], ◌∷◌, ◌++◌, Option, none, some, Bool, true, false, not, ◌&&◌, ◌||◌, ◌≡◌,
  ◌↔◌, str_eq, contains, refl, arith, eq_iff, inl, inr, Option-cases,
}
use mihomo_proxy_management.Prelude.Dict.{Dict}
use mihomo_proxy_management.Document.{
  Entries, Node, null, scalar, text, sequence, mapping, entries, field_of, iterate,
}
use mihomo_proxy_management.GroupRefs.Names.{
  is_called, has_group, names_something, collect_valid_names-contains,
}
use mihomo_proxy_management.GroupRefs.{
  code, document, main, shown_name, group_name, member_name, missing_members, missing_in,
  find_missing_group_refs, collect_valid_names,
}

abbrev pub has_pair : List (String × String) → String → String → Bool
has_pair [] g m = false
has_pair ((h, n) ∷ ps) g m = (str_eq h g && str_eq n m) || has_pair ps g m

-- a member of the list is called m
abbrev pub has_member : List Node → String → Bool
has_member [] m = false
has_member (n ∷ ns) m = is_called (member_name n) m || has_member ns m

abbrev or_empty : Option (List Node) → List Node
or_empty none = []
or_empty (some ns) = ns

-- a group called g has a member called m
abbrev pub refers : List Node → String → String → Bool
refers [] g m = false
refers (mapping es ∷ gs) g m =
    (str_eq (shown_name (group_name (mapping es))) g
      && has_member (or_empty (iterate (field_of (entries es) "proxies"))) m)
    || refers gs g m
refers (_ ∷ gs) g m = refers gs g m

has_pair-append :
    (ps qs : List (String × String)) (g m : String)
    → has_pair (ps ++ qs) g m ≡ has_pair ps g m || has_pair qs g m
has_pair-append [] qs g m = refl
has_pair-append ((h, n) ∷ ps) qs g m = ground (arith, has_pair-append ps qs g m)

missing_members-has_pair :
    (valid : List String) (h : String) (ns : List Node) (g m : String)
    → has_pair (missing_members valid h ns) g m
      ≡ (str_eq h g && has_member ns m) && not (contains valid m)
unfolding missing_members
missing_members-has_pair valid h [] g m = ground arith
missing_members-has_pair valid h (n ∷ ns) g m =
    let rest = missing_members-has_pair valid h ns g m in
    elim (Option-cases (member_name n)) [
      | inl e ↦ ground (arith, rest)
      | inr (k, e) ↦ ground (arith, rest, eq_iff k m)
    ]

-- A list of missing references holds a pair exactly when a group of the first name has a member of
-- the second that is no valid name.
missing_in-has_pair :
    (valid : List String) (gs : List Node) (ps : List (String × String)) (g m : String)
    → missing_in valid gs ≡ some ps
    → has_pair ps g m ≡ refers gs g m && not (contains valid m)
unfolding missing_in
missing_in-has_pair valid [] ps g m e = ground arith
missing_in-has_pair valid (mapping es ∷ gs) ps g m e =
    elim (Option-cases (iterate (field_of (entries es) "proxies"))) [
      | inl i ↦ ground (arith, i)
      | inr (ms, i) ↦ elim (Option-cases (missing_in valid gs)) [
        | inl r ↦ ground (arith, i, r)
        | inr (rest, r) ↦
            let name = shown_name (group_name (mapping es)) in
            ground (
              arith,
              i,
              r,
              has_pair-append (missing_members valid name ms) rest g m,
              missing_members-has_pair valid name ms g m,
              missing_in-has_pair valid gs rest g m r,
            )
      ]
    ]
missing_in-has_pair valid (null ∷ gs) ps g m e = missing_in-has_pair valid gs ps g m e
missing_in-has_pair valid (scalar b ∷ gs) ps g m e = missing_in-has_pair valid gs ps g m e
missing_in-has_pair valid (text s ∷ gs) ps g m e = missing_in-has_pair valid gs ps g m e
missing_in-has_pair valid (sequence ns ∷ gs) ps g m e = missing_in-has_pair valid gs ps g m e

-- Where the check returns, it reports a pair exactly when a group of the first name has a member of the
-- second that is none of the valid names.
find_missing-has_pair :
    (cache : String → Option Node) (config : Dict Node) (groups : List Node) (valid : List String)
    (ps : List (String × String)) (g m : String)
    → iterate (field_of config "proxy-groups") ≡ some groups
    → collect_valid_names cache config ≡ some valid
    → find_missing_group_refs cache config ≡ some ps
    → has_pair ps g m ≡ refers groups g m && not (contains valid m)
unfolding find_missing_group_refs
find_missing-has_pair cache config groups valid ps g m i v h =
    missing_in-has_pair valid groups ps g m (ground (arith, i, v, h))

-- Where the check returns, it reports a pair exactly when a group of the first name has a member of the
-- second, and nothing is called that: no built-in policy, no proxy of `proxies`, no group, and no proxy in the
-- cache file of a provider.
pub find_missing-reports :
    (cache : String → Option Node) (config : Dict Node) (groups : List Node)
    (ps : List (String × String)) (g m : String)
    → iterate (field_of config "proxy-groups") ≡ some groups
    → find_missing_group_refs cache config ≡ some ps
    → has_pair ps g m ≡ refers groups g m && not (names_something cache config groups m)
unfolding find_missing_group_refs
find_missing-reports cache config groups ps g m i h =
    elim (Option-cases (collect_valid_names cache config)) [
      | inl n ↦ absurd (ground (arith, n))
      | inr (valid, v) ↦ ground (
        arith,
        collect_valid_names-contains cache config groups valid m i v,
        find_missing-has_pair cache config groups valid ps g m i v h,
      )
    ]

-- Groups may be members of groups: the name of a group is never reported.
pub find_missing-has_group :
    (cache : String → Option Node) (config : Dict Node) (groups : List Node)
    (ps : List (String × String)) (g m : String)
    → iterate (field_of config "proxy-groups") ≡ some groups
    → find_missing_group_refs cache config ≡ some ps
    → has_group groups m ≡ true
    → has_pair ps g m ≡ false
unfolding names_something
find_missing-has_group cache config groups ps g m i h c =
    ground (arith, c, find_missing-reports cache config groups ps g m i h)

none_reported : (ps : List (String × String)) → ((g m : String) → has_pair ps g m ≡ false) → ps ≡ []
none_reported [] h = refl
none_reported ((g, m) ∷ ps) h = ground (arith, h g m, eq_refl g, eq_refl m)

-- Where the check of a configuration returns, it ends with 0 exactly when no group has a member that is not valid.
pub main-ok :
    (cache : String → Option Node) (es : Entries) (groups : List Node) (valid : List String)
    (ps : List (String × String))
    → iterate (field_of (entries es) "proxy-groups") ≡ some groups
    → collect_valid_names cache (entries es) ≡ some valid
    → find_missing_group_refs cache (entries es) ≡ some ps
    → (main cache (document (mapping es)) ≡ code 0)
      ↔ ((g m : String) → refers groups g m && not (contains valid m) ≡ false)
unfolding main
main-ok cache es groups valid ps i v h =
    let reports : (g m : String) → has_pair ps g m ≡ refers groups g m && not (contains valid m) =
      λ g m. find_missing-has_pair cache (entries es) groups valid ps g m i v h in
    (
      λ z g m. ground (arith, h, z, reports g m),
      λ clean.
          let empty = none_reported ps (λ g m. ground (arith, reports g m, clean g m)) in
          ground (arith, h, empty),
    )
