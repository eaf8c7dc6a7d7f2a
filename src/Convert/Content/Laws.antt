-- ===== src/Convert/Content/Laws.antt =====
-- The counts of `convert_content` of scripts/convert_sub.py, and the nodes that it returns.
use mihomo_proxy_management.Prelude.{
  ℕ, ◌+◌, String, List, [], ◌∷◌, Bool, ◌≡◌, refl, subst, arith, length, inl, inr,
}
use mihomo_proxy_management.Prelude.Dict.{Dict}
use mihomo_proxy_management.Json.{Value}
use mihomo_proxy_management.Convert.Library.{Library}
use mihomo_proxy_management.Convert.Result.{ok, Result-cases}
use mihomo_proxy_management.Convert.Detect.{Payload, yaml, singbox, uris, detect_input}
use mihomo_proxy_management.Convert.Process.{
  Stats, zero_stats, yaml_outcome, uri_outcome, singbox_outcome, process_yaml_proxies, process_uris,
  process_singbox_outbounds,
}
use mihomo_proxy_management.Convert.Process.Accounts.{skipped, process-accounts}
use mihomo_proxy_management.Convert.Merge.{semantic_key, keys_of}
use mihomo_proxy_management.Convert.Content.{
  mode_name, process_payload, drop_invalid, convert_payload, convert_content,
}

-- how many entries the payload has
abbrev pub size_of : Payload → ℕ
size_of (yaml vs) = length vs
size_of (singbox vs) = length vs
size_of (uris us) = length us

module _ (lib : Library) where
  process_payload-accounts :
      (payload : Payload) (stats : Stats) (skip_unknown : Bool)
      → ((process_payload lib payload stats skip_unknown).0.input_nodes
          ≡ stats.input_nodes + size_of payload)
        × (skipped (process_payload lib payload stats skip_unknown).0
              + length (process_payload lib payload stats skip_unknown).1
            ≡ skipped stats + size_of payload)
  unfolding process_payload process_yaml_proxies process_uris process_singbox_outbounds
  process_payload-accounts (yaml vs) stats skip = process-accounts (yaml_outcome skip) 0 vs stats
  process_payload-accounts (singbox vs) stats skip =
      process-accounts (singbox_outcome lib) 0 vs stats
  process_payload-accounts (uris us) stats skip = process-accounts (uri_outcome lib) 0 us stats

  drop_invalid-accounts :
      (ps : List (Dict Value)) (stats : Stats)
      → ((drop_invalid lib ps stats).0.input_nodes ≡ stats.input_nodes)
        × (skipped (drop_invalid lib ps stats).0 + length (drop_invalid lib ps stats).1
            ≡ skipped stats + length ps)
  unfolding drop_invalid
  drop_invalid-accounts [] stats = (refl, refl)
  drop_invalid-accounts (p ∷ ps) stats = elim (Result-cases (semantic_key lib p)) [
    | inl (key, q) ↦ ground (arith, drop_invalid-accounts ps stats)
    | inr (e, q) ↦ ground (
      arith,
      drop_invalid-accounts ps (record stats { skipped_malformed = stats.skipped_malformed + 1 }),
    )
  ]

  drop_invalid-keys :
      (ps : List (Dict Value)) (stats : Stats)
      → (ks : List String) × (keys_of lib (drop_invalid lib ps stats).1 ≡ ok ks)
  unfolding drop_invalid keys_of
  drop_invalid-keys [] stats = ([], refl)
  drop_invalid-keys (p ∷ ps) stats = elim (Result-cases (semantic_key lib p)) [
    | inl (key, q) ↦ let (ks, r) = drop_invalid-keys ps stats in (key ∷ ks, ground arith)
    | inr (e, q) ↦
        let (ks, r) =
          drop_invalid-keys ps (record stats { skipped_malformed = stats.skipped_malformed + 1 }) in
        (ks, ground arith)
  ]

  convert_payload-accounts :
      (payload : Payload) (dropped : ℕ) (skip_unknown : Bool)
      → ((convert_payload lib (payload, dropped) skip_unknown).1.input_nodes ≡ size_of payload)
        × ((convert_payload lib (payload, dropped) skip_unknown).1.output_nodes
            ≡ length (convert_payload lib (payload, dropped) skip_unknown).0)
        × ((convert_payload lib (payload, dropped) skip_unknown).1.input_nodes
            ≡ (convert_payload lib (payload, dropped) skip_unknown).1.output_nodes
              + skipped (convert_payload lib (payload, dropped) skip_unknown).1)
  unfolding convert_payload
  convert_payload-accounts payload dropped skip =
      let stats = record zero_stats {
        input_format = mode_name payload;
        skipped_non_uri = dropped;
      } in
      let processed = process_payload lib payload stats skip in
      omega (
        arith,
        process_payload-accounts payload stats skip,
        drop_invalid-accounts processed.1 processed.0,
      )

  -- The counts of convert_content for a payload that detect_input found: the input is the number of the
  -- payload's entries, the output that of the nodes returned, and every entry of the input is a node of the
  -- output or counted as skipped.
  pub convert_content-accounts :
      (content : String) (skip_unknown : Bool) (payload : Payload) (dropped : ℕ)
      → (nodes : List (Dict Value)) (stats : Stats)
      → detect_input lib content ≡ ok (payload, dropped)
      → convert_content lib content skip_unknown ≡ ok (nodes, stats)
      → (stats.input_nodes ≡ size_of payload)
        × (stats.output_nodes ≡ length nodes)
        × (stats.input_nodes ≡ stats.output_nodes + skipped stats)
  unfolding convert_content
  convert_content-accounts content skip payload dropped nodes stats h k =
      subst
        (λ (r : List (Dict Value) × Stats).
          (r.1.input_nodes ≡ size_of payload)
          × (r.1.output_nodes ≡ length r.0)
          × (r.1.input_nodes ≡ r.1.output_nodes + skipped r.1))
        {x = convert_payload lib (payload, dropped) skip} {y = (nodes, stats)} (ground (arith, h))
        (convert_payload-accounts payload dropped skip)

  -- Every node that convert_content returns can be written as a key, as merge_proxies needs it.
  pub convert_content-keys :
      (content : String) (skip_unknown : Bool) (nodes : List (Dict Value)) (stats : Stats)
      → convert_content lib content skip_unknown ≡ ok (nodes, stats)
      → (ks : List String) × (keys_of lib nodes ≡ ok ks)
  unfolding convert_content convert_payload
  convert_content-keys content skip nodes stats k = elim (Result-cases (detect_input lib content)) [
    | inr (e, q) ↦ absurd (ground arith)
    | inl ((payload, dropped), q) ↦
        let counted =
          process_payload lib payload
            (record zero_stats { input_format = mode_name payload; skipped_non_uri = dropped })
            skip in
        let (ks, r) = drop_invalid-keys counted.1 counted.0 in (ks, ground arith)
  ]
