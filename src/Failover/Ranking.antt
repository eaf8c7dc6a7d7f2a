-- ===== src/Failover/Ranking.antt =====
-- The orders by which scripts/proxy-auto-switch.py picks a node: (delay, name) and `rank_key`.
use mihomo_proxy_management.Prelude.{
  ℕ, String, List, [], Option, none, some, true, false, ◌≡◌, refl, sym, ap, ◌∙◌, arith, contains,
  all-contains, all_of_contains, nil_of_contains, contains-nil,
}
use mihomo_proxy_management.Prelude.Text.{str_le_refl, str_le_total, str_le_trans, str_le_antisymm}
use mihomo_proxy_management.Prelude.Dict.{Dict}
use mihomo_proxy_management.Prelude.Sort.{first-all, first-none, first-least}
use mihomo_proxy_management.Failover.Library.{Library}
use mihomo_proxy_management.Failover.Samples.{
  NodeStat, pair_le, smoothed_of, or_missing, rank_le, rank_key, pick_best,
}

pub pair_le_refl : (p : ℕ × String) → pair_le p p ≡ true
pair_le_refl (d, n) = ground (arith, str_le_refl n)

pub pair_le_total : (p q : ℕ × String) → pair_le p q ≡ false → pair_le q p ≡ true
pair_le_total (d, n) (e, m) h = ground (arith, str_le_total n m)

pub pair_le_trans :
    (p q r : ℕ × String) → pair_le p q ≡ true → pair_le q r ≡ true → pair_le p r ≡ true
pair_le_trans (d, n) (e, m) (f, k) h g = ground (arith, str_le_trans n m k)

pub pair_le_antisymm :
    (d e : ℕ) (n m : String) → pair_le (d, n) (e, m) ≡ true → pair_le (e, m) (d, n) ≡ true → n ≡ m
pair_le_antisymm d e n m h g = ground (arith, str_le_antisymm n m)

module _ (lib : Library) (node_stats : Dict NodeStat) (now : ℕ) where
  rank_le_antisymm :
      (a b : String)
      → rank_le lib node_stats now a b ≡ true
      → rank_le lib node_stats now b a ≡ true
      → a ≡ b
  unfolding rank_key
  rank_le_antisymm a b =
      pair_le_antisymm (or_missing lib (smoothed_of lib a node_stats now))
        (or_missing lib (smoothed_of lib b node_stats now)) a b

  pub pick_best-contains :
      (names : List String) (t : String)
      → pick_best lib names node_stats now ≡ some t
      → contains names t ≡ true
  unfolding pick_best
  pick_best-contains names t h =
      first-all (rank_le lib node_stats now) (contains names) names t h
        (all_of_contains (contains names) names (λ a m. m))

  pub pick_best-least :
      (names : List String) (t n : String)
      → pick_best lib names node_stats now ≡ some t
      → contains names n ≡ true
      → rank_le lib node_stats now t n ≡ true
  unfolding pick_best
  pick_best-least names t n h m =
      all-contains (rank_le lib node_stats now t) names n
        (first-least (rank_le lib node_stats now)
          (λ x. pair_le_refl (rank_key lib node_stats now x))
          (λ x y. pair_le_total (rank_key lib node_stats now x) (rank_key lib node_stats now y))
          (λ x y z.
            pair_le_trans (rank_key lib node_stats now x) (rank_key lib node_stats now y)
              (rank_key lib node_stats now z))
          names t h)
        m

  pub pick_best-none :
      (names : List String) → pick_best lib names node_stats now ≡ none → names ≡ []
  unfolding pick_best
  pick_best-none names h = first-none (rank_le lib node_stats now) names h

  same_none :
      (names others : List String)
      → ((n : String) → contains names n ≡ contains others n)
      → pick_best lib names node_stats now ≡ none
      → pick_best lib others node_stats now ≡ none
  same_none names others h e =
      let empty : others ≡ [] =
        nil_of_contains others
          λ n. sym (h n) ∙ ap (λ l. contains l n) (pick_best-none names e) ∙ contains-nil n in
      ap (λ l. pick_best lib l node_stats now) (empty ∙ sym (pick_best-none names e)) ∙ e

  -- The pick depends on the set of names alone, not on the order in which the set is iterated.
  pub pick_best-order :
      (names others : List String)
      → ((n : String) → contains names n ≡ contains others n)
      → pick_best lib names node_stats now ≡ pick_best lib others node_stats now
  pick_best-order names others h =
      go (pick_best lib names node_stats now) (pick_best lib others node_stats now) refl refl
    where
      go :
          (p q : Option String)
          → pick_best lib names node_stats now ≡ p
          → pick_best lib others node_stats now ≡ q
          → p ≡ q
      go none q e f = sym (same_none names others h e) ∙ f
      go (some t) none e f = sym e ∙ same_none others names (λ n. sym (h n)) f
      go (some t) (some u) e f = ap some (
          rank_le_antisymm t u (pick_best-least names t u e (h u ∙ pick_best-contains others u f))
            (pick_best-least others u t f (sym (h t) ∙ pick_best-contains names t e)))
