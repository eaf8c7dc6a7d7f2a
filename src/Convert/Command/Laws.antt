-- ===== src/Convert/Command/Laws.antt =====
-- When scripts/convert_sub.py replaces its output file, and what it merges into a configuration.
use mihomo_proxy_management.Prelude.{
  ℕ, ◌≤◌, String, List, [], ◌++◌, Option, none, some, Bool, true, ◌≡◌, arith, inl, inr, length, ltb,
  Bool-cases, if◌then◌else◌,
}
use mihomo_proxy_management.Prelude.Dict.{Dict, get}
use mihomo_proxy_management.Json.{Value}
use mihomo_proxy_management.Convert.Library.{Library}
use mihomo_proxy_management.Convert.Result.{ok, Result-cases}
use mihomo_proxy_management.Convert.Merge.{keys_of}
use mihomo_proxy_management.Convert.Merge.Names.{firsts, keys_of-append, merge_proxies-firsts}
use mihomo_proxy_management.Convert.Sources.{Network, resolve_min_nodes}
use mihomo_proxy_management.Convert.Command.{
  Args, check_args, settings_of, minimum_text, suffixed, render, gather, emit, produce,
  success_code, write_result, main, existing_list, count_new, merge_into,
}

write_result-written :
    (args : Args) (replaces : Bool) (rendered : Option String) (failed code : ℕ) (output : String)
    → write_result args replaces (ok (rendered, failed)) ≡ (code, some output)
    → (args.output ≡ true) × (code ≡ (if ltb 0 failed then 5 else 0))
unfolding write_result success_code
write_result-written args replaces none failed code output h = absurd (ground arith)
write_result-written args replaces (some s) failed code output h = elim (Bool-cases args.output) [
  | inr e ↦ absurd (ground arith)
  | inl e ↦ ground arith
]

module _ (lib : Library) where
  -- When `str` gives different numbers different texts, the target's list of nodes and the new nodes all have
  -- a key: merge_into returns the nodes whose keys are those of the target, followed by those of the new
  -- nodes, each at its first occurrence, and counts the keys that the target did not have.
  pub merge_into-keys :
      ((i j : ℕ) → lib.show i ≡ lib.show j → i ≡ j)
      → (target : Dict Value) (existing proxies : List (Dict Value)) (ks ls : List String)
      → existing_list (get target "proxies") ≡ ok existing
      → keys_of lib existing ≡ ok ks
      → keys_of lib proxies ≡ ok ls
      → (merged : List (Dict Value)) × (merge_into lib target proxies
          ≡ ok (merged, count_new ks (firsts [] (ks ++ ls))))
        × (keys_of lib merged ≡ ok (firsts [] (ks ++ ls)))
  unfolding merge_into
  merge_into-keys inj target existing proxies ks ls h k l =
      let (merged, a, b) =
        merge_proxies-firsts lib inj (existing ++ proxies) (ks ++ ls)
          (keys_of-append lib existing proxies ks ls k l) in
      (merged, ground (arith, h, k, a, b), b)

  module _ (net : Network) where
    emit-minimum :
        (args : Args) (minimum : ℕ) (proxies : List (Dict Value)) (failed count : ℕ)
        → (output : Option String)
        → emit lib net args minimum (proxies, failed) ≡ ok (output, count)
        → (minimum ≤ length proxies) × (count ≡ failed)
    unfolding emit
    emit-minimum args minimum proxies failed count output h =
        elim (Bool-cases (ltb (length proxies) minimum)) [
          | inl e ↦ absurd (ground arith)
          | inr e ↦ elim (Result-cases (suffixed args.suffix proxies)) [
            | inr (x, q) ↦ absurd (ground arith)
            | inl (named, q) ↦ elim (Result-cases (render lib args named)) [
              | inr (x, r) ↦ absurd (ground arith)
              | inl (o, r) ↦ ground arith
            ]
          ]
        ]

    -- What returns a text had enough nodes.
    produce-minimum :
        (args : Args) (output : Option String) (count : ℕ)
        → produce lib net args ≡ ok (output, count)
        → (settings : Dict String) × (minimum : ℕ) × (proxies : List (Dict Value)) × (settings_of
              lib args.input
            ≡ ok settings)
          × (resolve_min_nodes lib
                (minimum_text args.min_nodes (get settings "MIN_CANDIDATE_NODES"))
              ≡ ok minimum)
          × (gather lib net args settings ≡ ok (proxies, count))
          × (minimum ≤ length proxies)
    unfolding produce
    produce-minimum args output count h = elim (Result-cases (check_args lib args)) [
      | inr (x, q) ↦ absurd (ground arith)
      | inl (c, q) ↦ elim (Result-cases (settings_of lib args.input)) [
        | inr (x, r) ↦ absurd (ground arith)
        | inl (settings, r) ↦
            elim (Result-cases (
              resolve_min_nodes lib
                (minimum_text args.min_nodes (get settings "MIN_CANDIDATE_NODES")))) [
                  | inr (x, s) ↦ absurd (ground arith)
                  | inl (minimum, s) ↦ elim (Result-cases (gather lib net args settings)) [
                    | inr (x, t) ↦ absurd (ground arith)
                    | inl ((proxies, failed), t) ↦
                        let (a, b) =
                          emit-minimum args minimum proxies failed count output (ground arith) in
                        (settings, minimum, proxies, r, s, ground (arith, t, b), a)
                  ]
                ]
      ]
    ]

    -- A run that replaces the output file was asked to write it, gathered at least as many nodes as the
    -- minimum that it resolved, and exits with 5 where a source failed, else with 0.
    pub main-written :
        (args : Args) (replaces : Bool) (code : ℕ) (output : String)
        → main lib net args replaces ≡ (code, some output)
        → (settings : Dict String) × (minimum : ℕ) × (proxies : List (Dict Value)) × (failed : ℕ)
          × (settings_of lib args.input ≡ ok settings)
          × (resolve_min_nodes lib
                (minimum_text args.min_nodes (get settings "MIN_CANDIDATE_NODES"))
              ≡ ok minimum)
          × (gather lib net args settings ≡ ok (proxies, failed))
          × (minimum ≤ length proxies)
          × (args.output ≡ true)
          × (code ≡ (if ltb 0 failed then 5 else 0))
    unfolding main write_result
    main-written args replaces code output h = elim (Result-cases (produce lib net args)) [
      | inr (x, q) ↦ absurd (ground arith)
      | inl ((text, failed), q) ↦
          let (settings, minimum, proxies, r, s, t, a) = produce-minimum args text failed q in
          let (b, c) = write_result-written args replaces text failed code output (ground arith) in
          (settings, minimum, proxies, failed, r, s, t, a, b, c)
    ]
