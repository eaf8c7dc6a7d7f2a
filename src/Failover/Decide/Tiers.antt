-- ===== src/Failover/Decide/Tiers.antt =====
-- The tier that `decide_group` takes when it has to leave a node.
use mihomo_proxy_management.Prelude.{
  ℕ, ◌≤◌, ◌<◌, String, List, [], ◌∷◌, Option, none, some, true, false, ◌≡◌, ◌⊎◌, inl, inr, arith,
  ltb, contains, eq_iff, eq_refl, Option-cases, Bool-cases, ap, contains-filter, contains-nil,
}
use mihomo_proxy_management.Prelude.Dict.{Dict, keys_where}
use mihomo_proxy_management.Failover.Library.{Library}
use mihomo_proxy_management.Failover.Region.{Group, tier_of}
use mihomo_proxy_management.Failover.Samples.{SwitchParams, NodeStat, pick_best, rank_le}
use mihomo_proxy_management.Failover.Ranking.{pick_best-contains, pick_best-least, pick_best-none}
use mihomo_proxy_management.Failover.Decide.Safety.{contains-of_tier, forced_pool-alive}
use mihomo_proxy_management.Failover.Decide.{
  GroupState, of_tier, top_tier, cur_alive, forced_pool, decide_forced, decide_group,
}

module _ (lib : Library) where
  le-top_tier :
      (names : List String) (n : String)
      → contains names n ≡ true
      → tier_of lib n ≤ top_tier lib names
  unfolding top_tier contains
  le-top_tier [] n h = absurd (ground arith)
  le-top_tier (x ∷ xs) n h = ground (arith, le-top_tier xs n, eq_iff x n)

  -- The top tier of some names is the tier of one of them.
  top_tier_attained :
      (x : String) (xs : List String)
      → (n : String) × (contains (x ∷ xs) n ≡ true) × (tier_of lib n ≡ top_tier lib (x ∷ xs))
  unfolding top_tier contains
  top_tier_attained x [] = (x, ground (arith, eq_refl x), omega arith)
  top_tier_attained x (y ∷ ys) =
      let (n, m, e) = top_tier_attained y ys in
      elim (Bool-cases (ltb (tier_of lib n) (tier_of lib x))) [
        | inl above ↦ (x, ground (arith, eq_refl x), ground arith)
        | inr below ↦ (n, ground arith, ground arith)
      ]

  top_of_member :
      (names : List String) (n : String)
      → contains names n ≡ true
      → (m : String) × (contains names m ≡ true) × (tier_of lib m ≡ top_tier lib names)
  top_of_member [] n h = cc (contains-nil n)
  top_of_member (x ∷ xs) n h = top_tier_attained x xs

  -- The pick among the top tier exists where there is any node.
  pick_top :
      (names : List String) (n : String) (node_stats : Dict NodeStat) (now : ℕ)
      → contains names n ≡ true
      → pick_best lib (of_tier lib (top_tier lib names) names) node_stats now ≡ none
      → ⊥
  pick_top names n node_stats now h e =
      let (m, at_m, top) = top_of_member names n h in
      let none_left =
        ap (λ l. contains l m)
          (pick_best-none lib node_stats now (of_tier lib (top_tier lib names) names) e) in
      ground (arith, none_left, contains-of_tier lib (top_tier lib names) names m, contains-nil m)

module _ (lib : Library) (group : Group) (current : Option String) (members : List String)
    (node_stats : Dict NodeStat) (gs : GroupState) (now : ℕ) (params : SwitchParams) where
  abbrev pool : List String
  pool = forced_pool lib group current members node_stats gs now params

  abbrev Dead : Type 0
  Dead = cur_alive lib group current members node_stats gs now params ≡ false

  pool_alive :
      (n : String)
      → contains pool n ≡ true
      → contains (keys_where (λ node. node.alive_round) node_stats) n ≡ true
  pool_alive n h = ground (
    arith,
    forced_pool-alive lib group current members node_stats gs now params n,
    contains-filter (contains members) n (keys_where (λ node. node.alive_round) node_stats),
  )

  -- When the node that a group runs on is dead or no member, and the pool (the live members, for MUSE
  -- on one of its members those of the US) has a node, the group is switched in the same round,
  -- whatever the streak and the dwell.
  pub decide_group-forced :
      (n : String)
      → cur_alive lib group current members node_stats gs now params ≡ false
      → contains pool n ≡ true
      → (t : String) × ((decide_group lib group current members node_stats gs now params).target
          ≡ some t)
  unfolding decide_group decide_forced
  decide_group-forced n d m =
      elim (Option-cases (pick_best lib (of_tier lib (top_tier lib pool) pool) node_stats now)) [
        | inl e ↦ absurd (pick_top lib pool n node_stats now m e)
        | inr (t, e) ↦ (t, ground (arith, pool_alive n m, contains-nil n))
      ]

  -- The node of a forced switch has the best tier of the pool, and within it the least smoothed
  -- delay, then name.
  pub decide_group-forced_best :
      (t n : String)
      → cur_alive lib group current members node_stats gs now params ≡ false
      → (decide_group lib group current members node_stats gs now params).target ≡ some t
      → contains pool n ≡ true
      → (tier_of lib n < tier_of lib t)
        ⊎ ((tier_of lib n ≡ tier_of lib t) × (rank_le lib node_stats now t n ≡ true))
  unfolding decide_group decide_forced
  decide_group-forced_best t n d h m = ground (
    arith,
    pick_best-contains lib node_stats now (of_tier lib (top_tier lib pool) pool) t,
    pick_best-least lib node_stats now (of_tier lib (top_tier lib pool) pool) t n,
    contains-of_tier lib (top_tier lib pool) pool t,
    contains-of_tier lib (top_tier lib pool) pool n,
    le-top_tier lib pool n,
  )
