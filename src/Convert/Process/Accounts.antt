-- ===== src/Convert/Process/Accounts.antt =====
-- The counts of scripts/convert_sub.py add up: no entry of a subscription is dropped silently.
use mihomo_proxy_management.Prelude.{
  ℕ, ◌+◌, List, [], ◌∷◌, Bool, true, ◌≡◌, refl, arith, length, length-append, all, all-append,
}
use mihomo_proxy_management.Prelude.Dict.{Dict}
use mihomo_proxy_management.Json.{Value}
use mihomo_proxy_management.Convert.Process.{
  Stats, Outcome, node, unknown_node, malformed, unknown, non_node, unmapped, count_outcome, kept,
  process,
}

-- The entries that were counted and are no nodes.
abbrev pub skipped : Stats → ℕ
skipped stats =
    stats.skipped_malformed + stats.skipped_unknown + stats.skipped_non_node
    + stats.skipped_unsupported

count_outcome-kept :
    (o : Outcome) (stats : Stats)
    → ((count_outcome o stats).input_nodes ≡ stats.input_nodes + 1)
      × (skipped (count_outcome o stats) + length (kept o) ≡ skipped stats + 1)
      × ((count_outcome o stats).skipped_non_uri ≡ stats.skipped_non_uri)
unfolding count_outcome kept
count_outcome-kept (node p) stats = ground arith
count_outcome-kept (unknown_node p) stats = ground arith
count_outcome-kept malformed stats = ground arith
count_outcome-kept unknown stats = ground arith
count_outcome-kept non_node stats = ground arith
count_outcome-kept unmapped stats = ground arith

module _ {ℓ} {A : Type ℓ} (outcome : ℕ → A → Outcome) where
  pub process-accounts :
      (index : ℕ) (xs : List A) (stats : Stats)
      → ((process outcome index xs stats).0.input_nodes ≡ stats.input_nodes + length xs)
        × (skipped (process outcome index xs stats).0 + length (process outcome index xs stats).1
            ≡ skipped stats + length xs)
  unfolding process
  process-accounts index [] stats = ground arith
  process-accounts index (x ∷ xs) stats =
      let (a, b, _) = count_outcome-kept (outcome index x) stats in
      let counted = count_outcome (outcome index x) stats in
      let (c, d) = process-accounts (index + 1) xs counted in
      ground
        (arith, length-append (kept (outcome index x)) (process outcome (index + 1) xs counted).1)

  -- A test that every kept node passes holds of the whole output.
  pub process-all :
      (test : Dict Value → Bool) (index : ℕ) (xs : List A) (stats : Stats)
      → ((i : ℕ) (x : A) → all test (kept (outcome i x)) ≡ true)
      → all test (process outcome index xs stats).1 ≡ true
  unfolding process all
  process-all test index [] stats h = refl
  process-all test index (x ∷ xs) stats h =
      let counted = count_outcome (outcome index x) stats in
      ground (
        arith,
        h index x,
        process-all test (index + 1) xs counted h,
        all-append test (kept (outcome index x)) (process outcome (index + 1) xs counted).1,
      )
