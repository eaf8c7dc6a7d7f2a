-- ===== src/Convert/Sources/Laws.antt =====
-- The sources of scripts/convert_sub.py fail one by one: a source that fails is counted, and the others are
-- merged.
use mihomo_proxy_management.Prelude.{
  ℕ, ◌+◌, ◌≤◌, String, List, [], ◌∷◌, ◌++◌, some, Bool, true, ◌≡◌, refl, arith, str_eq, inl, inr,
  Bool-cases, Option-cases, length,
}
use mihomo_proxy_management.Prelude.Text.{append}
use mihomo_proxy_management.Prelude.Dict.{Dict}
use mihomo_proxy_management.Convert.Uri.{text_or}
use mihomo_proxy_management.Json.{Value}
use mihomo_proxy_management.Convert.Library.{Library}
use mihomo_proxy_management.Convert.Result.{
  Result, ok, err, Error, empty, usage, bad_input, network, unsupported, raised, Result-cases,
  is_caught, bind-is_caught,
}
use mihomo_proxy_management.Convert.Detect.{detect_input}
use mihomo_proxy_management.Convert.Detect.Errors.{detect_input-is_caught}
use mihomo_proxy_management.Convert.Process.{Stats}
use mihomo_proxy_management.Convert.Content.{convert_content}
use mihomo_proxy_management.Convert.Content.Laws.{convert_content-keys}
use mihomo_proxy_management.Convert.Merge.{keys_of}
use mihomo_proxy_management.Convert.Merge.Names.{
  keys_of-append, has_own_names, merge_proxies-own_names,
}
use mihomo_proxy_management.Convert.Sources.{
  Network, build_request, fetch_subscription, some_nodes, setting, read_source, source_nodes,
  collected, collect_from, collect_sources,
}

some_nodes-is_caught : (found : List (Dict Value) × Stats) → is_caught (some_nodes found) ≡ true
some_nodes-is_caught ([], stats) = refl
some_nodes-is_caught (p ∷ ps, stats) = refl

some_nodes-eq :
    (found : List (Dict Value)) (stats : Stats) (nodes : List (Dict Value))
    → some_nodes (found, stats) ≡ ok nodes
    → found ≡ nodes
some_nodes-eq [] stats nodes h = ground arith
some_nodes-eq (p ∷ ps) stats nodes h = ground arith

collected-err :
    (e : Error) (rest : Result (List (Dict Value) × ℕ)) (nodes : List (Dict Value)) (failed : ℕ)
    → is_caught {A = List (Dict Value)} (err e) ≡ true
    → rest ≡ ok (nodes, failed)
    → collected (err e) rest ≡ ok (nodes, failed + 1)
collected-err raised rest nodes failed c h = cc
collected-err empty rest nodes failed c h = ground arith
collected-err usage rest nodes failed c h = ground arith
collected-err bad_input rest nodes failed c h = ground arith
collected-err network rest nodes failed c h = ground arith
collected-err unsupported rest nodes failed c h = ground arith

module _ (lib : Library) where
  convert_content-is_caught :
      (content : String) (skip_unknown : Bool)
      → is_caught (convert_content lib content skip_unknown) ≡ true
  unfolding convert_content
  convert_content-is_caught content skip =
      bind-is_caught (detect_input lib content) _ (detect_input-is_caught lib content) λ found. refl

  module _ (net : Network) where
    build_request-is_caught : (url : String) → is_caught (build_request lib net url) ≡ true
    unfolding build_request
    build_request-is_caught url = elim (Option-cases (net.url_scheme url)) [
      | inl e ↦ ground arith
      | inr (scheme, e) ↦ ground arith
    ]

    fetch_subscription-is_caught :
        (url agent : String) → is_caught (fetch_subscription lib net url agent) ≡ true
    unfolding fetch_subscription
    fetch_subscription-is_caught url agent =
        bind-is_caught (build_request lib net url) _ (build_request-is_caught url) λ request.
          elim (Option-cases (net.fetch request agent)) [
            | inl e ↦ ground arith
            | inr (body, e) ↦ ground arith
          ]

    read_source-is_caught :
        (url agent : String) (skip_unknown : Bool)
        → is_caught (read_source lib net url agent skip_unknown) ≡ true
    unfolding read_source
    read_source-is_caught url agent skip =
        bind-is_caught (fetch_subscription lib net url agent) _
          (fetch_subscription-is_caught url agent)
          λ content.
            bind-is_caught (convert_content lib content skip) _
              (convert_content-is_caught content skip) some_nodes-is_caught

    source_nodes-is_caught :
        (settings : Dict String) (skip_unknown : Bool) (index : String)
        → is_caught (source_nodes lib net settings skip_unknown index) ≡ true
    unfolding source_nodes
    source_nodes-is_caught settings skip index = ground (
      arith,
      read_source-is_caught (setting lib settings (append "SUBSCRIPTION_URL_" index))
          (text_or (some (setting lib settings (append "SUBSCRIPTION_UA_" index)))
            "ClashMeta/1.18.0")
          skip,
    )

    read_source-keys :
        (url agent : String) (skip_unknown : Bool) (nodes : List (Dict Value))
        → read_source lib net url agent skip_unknown ≡ ok nodes
        → (ks : List String) × (keys_of lib nodes ≡ ok ks)
    unfolding read_source
    read_source-keys url agent skip nodes h =
        elim (Result-cases (fetch_subscription lib net url agent)) [
          | inr (e, q) ↦ absurd (ground arith)
          | inl (content, q) ↦ elim (Result-cases (convert_content lib content skip)) [
            | inr (e, r) ↦ absurd (ground arith)
            | inl ((found, stats), r) ↦
                let (ks, k) = convert_content-keys lib content skip found stats r in
                (ks, ground (arith, k, some_nodes-eq found stats nodes))
          ]
        ]

    source_nodes-keys :
        (settings : Dict String) (skip_unknown : Bool) (index : String) (nodes : List (Dict Value))
        → source_nodes lib net settings skip_unknown index ≡ ok nodes
        → (ks : List String) × (keys_of lib nodes ≡ ok ks)
    unfolding source_nodes
    source_nodes-keys settings skip index nodes h =
        elim (Bool-cases (str_eq (setting lib settings (append "SUBSCRIPTION_URL_" index)) "")) [
          | inl e ↦ absurd (ground arith)
          | inr e ↦
              read_source-keys (setting lib settings (append "SUBSCRIPTION_URL_" index))
                (text_or (some (setting lib settings (append "SUBSCRIPTION_UA_" index)))
                  "ClashMeta/1.18.0")
                skip nodes (ground arith)
        ]

    collect_from-keys :
        (settings : Dict String) (skip_unknown : Bool) (indices : List String)
        → (nodes : List (Dict Value)) × (failed : ℕ) × (ks : List String) × (collect_from lib net
              settings skip_unknown indices
            ≡ ok (nodes, failed))
          × (keys_of lib nodes ≡ ok ks)
          × (failed ≤ length indices)
    unfolding collect_from keys_of
    collect_from-keys settings skip [] = ([], 0, [], refl, refl, omega arith)
    collect_from-keys settings skip (index ∷ indices) =
        let (nodes, failed, ks, a, b, c) = collect_from-keys settings skip indices in
        elim (Result-cases (source_nodes lib net settings skip index)) [
          | inl (found, q) ↦
              let (ls, k) = source_nodes-keys settings skip index found q in
              (
                found ++ nodes,
                failed,
                ls ++ ks,
                ground arith,
                keys_of-append lib found nodes ls ks k b,
                omega arith,
              )
          | inr (e, q) ↦ (
            nodes,
            failed + 1,
            ks,
            ground (
              arith,
              q,
              source_nodes-is_caught settings skip index,
              collected-err e (collect_from lib net settings skip indices) nodes failed,
            ),
            b,
            omega arith,
          )
        ]

    -- When `str` gives different numbers different texts, collect_sources returns for any settings and
    -- whatever the network does: it counts at most three failed sources, and merges the nodes of the others
    -- into a list in which every node has a name of its own.
    pub collect_sources-total :
        ((i j : ℕ) → lib.show i ≡ lib.show j → i ≡ j)
        → (settings : Dict String) (skip_unknown : Bool)
        → (merged : List (Dict Value)) × (failed : ℕ) × (collect_sources lib net settings
              skip_unknown
            ≡ ok (merged, failed))
          × (has_own_names [] merged ≡ true)
          × (failed ≤ 3)
    unfolding collect_sources
    collect_sources-total inj settings skip =
        let (nodes, failed, ks, a, b, c) = collect_from-keys settings skip ("1" ∷ "2" ∷ "3" ∷ []) in
        let (merged, d, e) = merge_proxies-own_names lib inj nodes ks b in
        (merged, failed, ground (arith, a, d), e, omega arith)
