-- ===== src/Convert/Merge/Names.antt =====
-- What `merge_proxies` of scripts/convert_sub.py keeps: one node for each key, under a name of its own.
use mihomo_proxy_management.Prelude.{
  ℕ, ◌+◌, String, List, [], ◌∷◌, ◌++◌, none, some, Bool, true, false, not, ◌&&◌, ◌≡◌, refl, arith,
  inl, inr, Bool-cases, contains, if◌then◌else◌,
}
use mihomo_proxy_management.Prelude.Dict.{Dict, put, get-put_self}
use mihomo_proxy_management.Json.{Value, text}
use mihomo_proxy_management.Convert.Library.{Library}
use mihomo_proxy_management.Convert.Result.{ok, Result-cases}
use mihomo_proxy_management.Convert.Merge.{
  without_name, name_of, reserved_names, semantic_key, keys_of, base_name, merge_from,
  merge_proxies,
}
use mihomo_proxy_management.Convert.Merge.Fresh.{fresh_name-ends}

-- The name takes no part in the key.
without_name-put : (d : Dict Value) (v : Value) → without_name (put d "name" v) ≡ without_name d
unfolding without_name put
without_name-put [] v = refl
without_name-put ((k, w) ∷ d) v = ground (arith, without_name-put d v)

-- The first occurrences of the keys, those in `seen` left out.
unfoldable pub firsts : List String → List String → List String
firsts seen [] = []
firsts seen (k ∷ ks) =
    let rest = firsts seen ks in
    let new = firsts (k ∷ seen) ks in if contains seen k then rest else k ∷ new

-- Every node has a name, that is not in `used` and that no later node has.
unfoldable pub has_own_names : List String → List (Dict Value) → Bool
has_own_names used [] = true
has_own_names used (p ∷ ps) = elim (name_of p) [
  | none ↦ false
  | some n ↦ not (contains used n) && has_own_names (n ∷ used) ps
]

module _ (lib : Library) where
  pub keys_of-append :
      (ps qs : List (Dict Value)) (ks ls : List String)
      → keys_of lib ps ≡ ok ks
      → keys_of lib qs ≡ ok ls
      → keys_of lib (ps ++ qs) ≡ ok (ks ++ ls)
  unfolding keys_of
  keys_of-append [] qs ks ls h k = ground arith
  keys_of-append (p ∷ ps) qs ks ls h k = elim (Result-cases (semantic_key lib p)) [
    | inr (e, q) ↦ absurd (ground arith)
    | inl (key, q) ↦ elim (Result-cases (keys_of lib ps)) [
      | inr (e, r) ↦ absurd (ground arith)
      | inl (ms, r) ↦ ground (arith, keys_of-append ps qs ms ls r k)
    ]
  ]

  semantic_key-put :
      (d : Dict Value) (v : Value) → semantic_key lib (put d "name" v) ≡ semantic_key lib d
  unfolding semantic_key
  semantic_key-put d v = ground (arith, without_name-put d v)

  name_of-put : (d : Dict Value) (n : String) → name_of (put d "name" (text n)) ≡ some n
  unfolding name_of
  name_of-put d n = ground (arith, get-put_self d "name" (text n))

  merge_from-firsts :
      ((i j : ℕ) → lib.show i ≡ lib.show j → i ≡ j)
      → (reserved : List String) (index : ℕ) (seen used : List String)
      → (proxies : List (Dict Value)) (ks : List String) → keys_of lib proxies ≡ ok ks
      → (out : List (Dict Value)) × (merge_from lib reserved index seen used proxies ≡ ok out)
        × (keys_of lib out ≡ ok (firsts seen ks))
        × (has_own_names used out ≡ true)
  unfolding merge_from keys_of firsts has_own_names
  merge_from-firsts inj reserved index seen used [] ks h = ([], refl, ground arith, refl)
  merge_from-firsts inj reserved index seen used (p ∷ ps) ks h =
      elim (Result-cases (semantic_key lib p)) [
        | inr (e, q) ↦ absurd (ground (arith, q))
        | inl (k, q) ↦ elim (Result-cases (keys_of lib ps)) [
          | inr (e, r) ↦ absurd (ground (arith, q, r))
          | inl (rest, r) ↦ elim (Bool-cases (contains seen k)) [
            | inl known ↦
                let (out, a, b, c) =
                  merge_from-firsts inj reserved (index + 1) seen used ps rest r in
                (out, ground arith, ground arith, c)
            | inr new ↦
                let (n, e, free, _) =
                  fresh_name-ends lib inj used reserved (base_name lib p index) in
                let (out, a, b, c) =
                  merge_from-firsts inj reserved (index + 1) (k ∷ seen) (n ∷ used) ps rest r in
                (
                  put p "name" (text n) ∷ out,
                  ground arith,
                  ground (arith, semantic_key-put p (text n)),
                  ground (arith, name_of-put p n),
                )
          ]
        ]
      ]

  -- When `str` gives different numbers different texts and every node has a key, merge_proxies returns a
  -- list, and the keys of its nodes are the keys of the input in their order, each at its first occurrence.
  pub merge_proxies-firsts :
      ((i j : ℕ) → lib.show i ≡ lib.show j → i ≡ j)
      → (proxies : List (Dict Value)) (ks : List String) → keys_of lib proxies ≡ ok ks
      → (out : List (Dict Value)) × (merge_proxies lib proxies ≡ ok out)
        × (keys_of lib out ≡ ok (firsts [] ks))
  unfolding merge_proxies
  merge_proxies-firsts inj proxies ks h =
      let (out, a, b, _) = merge_from-firsts inj (reserved_names proxies) 0 [] [] proxies ks h in
      (out, a, b)

  -- When `str` gives different numbers different texts and every node has a key, merge_proxies returns a
  -- list in which every node has a name, and no two nodes have the same.
  pub merge_proxies-own_names :
      ((i j : ℕ) → lib.show i ≡ lib.show j → i ≡ j)
      → (proxies : List (Dict Value)) (ks : List String) → keys_of lib proxies ≡ ok ks
      → (out : List (Dict Value)) × (merge_proxies lib proxies ≡ ok out)
        × (has_own_names [] out ≡ true)
  unfolding merge_proxies
  merge_proxies-own_names inj proxies ks h =
      let (out, a, _, c) = merge_from-firsts inj (reserved_names proxies) 0 [] [] proxies ks h in
      (out, a, c)
