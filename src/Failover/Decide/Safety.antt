-- ===== src/Failover/Decide/Safety.antt =====
-- Where `decide_group` may send a group.
use mihomo_proxy_management.Prelude.{
  ℕ, ◌≤◌, String, List, Option, some, true, false, ◌≡◌, ◌⊎◌, inl, inr, arith, ltb, ◌==◌, str_eq,
  contains, contains-filter, eq_iff, eq_refl, ◌&&◌, ◌||◌, not, Option-cases,
}
use mihomo_proxy_management.Prelude.Dict.{Dict, get, keys_where, is_unique, contains-keys_where}
use mihomo_proxy_management.Failover.Library.{Library}
use mihomo_proxy_management.Failover.Region.{Group, muse, tier_us, tier_of}
use mihomo_proxy_management.Failover.Samples.{SwitchParams, NodeStat, pick_best}
use mihomo_proxy_management.Failover.Ranking.{pick_best-contains}
use mihomo_proxy_management.Failover.Decide.{
  GroupState, alive_round_of, is_muse, name_or_empty, of_tier, top_tier, alive, cur_valid,
  cur_alive, cur_tier, forced_pool, decide_forced, higher, same, decide_margin, decide_same,
  decide_alive, decide_group,
}

pub contains-of_tier :
    (lib : Library) (t : ℕ) (names : List String) (n : String)
    → contains (of_tier lib t names) n ≡ contains names n && tier_of lib n == t
unfolding of_tier
contains-of_tier lib t names n = contains-filter (λ m. tier_of lib m == t) n names

module _ (lib : Library) (group : Group) (current : Option String) (members : List String)
    (node_stats : Dict NodeStat) (gs : GroupState) (now : ℕ) (params : SwitchParams) where
  pub forced_target :
      (t : String)
      → (decide_forced lib group current members node_stats gs now params).target ≡ some t
      → contains (forced_pool lib group current members node_stats gs now params) t ≡ true
  unfolding decide_forced
  forced_target t h =
      let pool = forced_pool lib group current members node_stats gs now params in
      ground (
        arith,
        pick_best-contains lib node_stats now (of_tier lib (top_tier lib pool) pool) t,
        contains-of_tier lib (top_tier lib pool) pool t,
      )

  pub forced_pool-alive :
      (t : String)
      → contains (forced_pool lib group current members node_stats gs now params) t ≡ true
      → contains (alive lib group current members node_stats gs now params) t ≡ true
  unfolding forced_pool
  forced_pool-alive t h = ground (
    arith,
    contains-of_tier lib tier_us (alive lib group current members node_stats gs now params) t,
  )

  -- The node of a voluntary move to a higher tier, or the node that `decide_same` moves to.
  alive_target :
      (t : String)
      → (decide_alive lib group current members node_stats gs now params).target ≡ some t
      → (contains (higher lib group current members node_stats gs now params) t ≡ true)
        ⊎ ((decide_same lib group current members node_stats gs now params).target ≡ some t)
  unfolding decide_alive
  alive_target t h =
      let pool = higher lib group current members node_stats gs now params in
      ground (
        arith,
        pick_best-contains lib node_stats now (of_tier lib (top_tier lib pool) pool) t,
        contains-of_tier lib (top_tier lib pool) pool t,
      )

  contains-higher :
      (n : String)
      → contains (higher lib group current members node_stats gs now params) n
        ≡ contains (alive lib group current members node_stats gs now params) n
          && (ltb (cur_tier lib group current members node_stats gs now params) (tier_of lib n)
              && (not (is_muse group) || tier_of lib n == tier_us))
  unfolding higher
  contains-higher n =
      contains-filter
        (λ m.
          ltb (cur_tier lib group current members node_stats gs now params) (tier_of lib m)
          && (not (is_muse group) || tier_of lib m == tier_us))
        n (alive lib group current members node_stats gs now params)

  -- A move inside a tier: the node is another live member of the tier, and MUSE makes one in the US tier only.
  record IsPeerMove (t : String) : Type 0 where
    peer :
        contains
          (of_tier lib
            (cur_tier lib group current members node_stats gs now params)
            (alive lib group current members node_stats gs now params))
          t
        ≡ true
    moved : str_eq t (name_or_empty current) ≡ false
    us_only :
        is_muse group ≡ true → cur_tier lib group current members node_stats gs now params ≡ tier_us

  contains-same :
      (n : String)
      → str_eq n (name_or_empty current) ≡ false
      → contains (same lib group current members node_stats gs now params) n ≡ true
      → contains
          (of_tier lib
            (cur_tier lib group current members node_stats gs now params)
            (alive lib group current members node_stats gs now params))
          n
        ≡ true
  unfolding same contains
  contains-same n d h =
      ground (arith, eq_iff (name_or_empty current) n, eq_iff n (name_or_empty current))

  pub margin_target :
      (best t : String)
      → (decide_margin lib group current members node_stats gs now params best).target ≡ some t
      → best ≡ t
  unfolding decide_margin
  margin_target best t h = ground arith

  peer_move :
      (best t : String)
      → pick_best lib (same lib group current members node_stats gs now params) node_stats now
        ≡ some best
      → (decide_same lib group current members node_stats gs now params).target ≡ some t
      → IsPeerMove t
  unfolding decide_same
  peer_move best t e h = record {
    peer = ground (
      arith,
      margin_target best t,
      contains-same best,
      pick_best-contains lib node_stats now
          (same lib group current members node_stats gs now params) best,
    );
    moved = ground (arith, margin_target best t);
    us_only = ground (arith, margin_target best t);
  }

  same_target :
      (t : String)
      → (decide_same lib group current members node_stats gs now params).target ≡ some t
      → IsPeerMove t
  unfolding decide_same
  same_target t h =
      elim (Option-cases
        (pick_best lib (same lib group current members node_stats gs now params) node_stats now)) [
          | inl e ↦ ground arith
          | inr (best, e) ↦ peer_move best t e h
        ]

  module _ (t : String)
      (h : (decide_group lib group current members node_stats gs now params).target ≡ some t) where
    -- A target is one of the members that answered in this round.
    pub decide_group-alive :
        contains (alive lib group current members node_stats gs now params) t ≡ true
    unfolding decide_group
    decide_group-alive = ground (
      arith,
      forced_target t,
      forced_pool-alive t,
      alive_target t,
      same_target t,
      contains-higher t,
      contains-of_tier lib (cur_tier lib group current members node_stats gs now params)
          (alive lib group current members node_stats gs now params) t,
    )

    group_moves : is_unique node_stats ≡ true → contains members "" ≡ false → current ≡ some t → ⊥
    unfolding decide_group
    group_moves u e c = ground (
      arith,
      decide_group-alive,
      contains-filter (contains members) t (keys_where (λ node. node.alive_round) node_stats),
      contains-keys_where (λ node. node.alive_round) node_stats t u,
      eq_iff t "",
      eq_refl t,
      alive_target t,
      same_target t,
      contains-higher t,
    )

module _ (lib : Library) (group : Group) (current : Option String) (members : List String)
    (node_stats : Dict NodeStat) (gs : GroupState) (now : ℕ) (params : SwitchParams) where
  -- A node that `decide_group` moves a group to is a member of the group, answered in this round,
  -- and is not the node that the group runs on, where no member has the empty name and the nodes have
  -- each name once.
  pub decide_group_sound :
      (t : String)
      → is_unique node_stats ≡ true
      → contains members "" ≡ false
      → (decide_group lib group current members node_stats gs now params).target ≡ some t
      → (contains members t ≡ true)
        × (alive_round_of (get node_stats t) ≡ true)
        × ¬ (current ≡ some t)
  decide_group_sound t u e h =
      let live = decide_group-alive lib group current members node_stats gs now params t h in
      (
        ground (
          arith,
          live,
          contains-filter (contains members) t (keys_where (λ node. node.alive_round) node_stats),
        ),
        ground (
          arith,
          live,
          contains-filter (contains members) t (keys_where (λ node. node.alive_round) node_stats),
          contains-keys_where (λ node. node.alive_round) node_stats t u,
        ),
        group_moves lib group current members node_stats gs now params t h u e,
      )

  -- While the node that a group runs on answers, no decision moves the group to a lower tier.
  pub decide_group-keeps_tier :
      (t : String)
      → cur_alive lib group current members node_stats gs now params ≡ true
      → (decide_group lib group current members node_stats gs now params).target ≡ some t
      → cur_tier lib group current members node_stats gs now params ≤ tier_of lib t
  unfolding decide_group
  decide_group-keeps_tier t a h = ground (
    arith,
    alive_target lib group current members node_stats gs now params t,
    same_target lib group current members node_stats gs now params t,
    contains-higher lib group current members node_stats gs now params t,
    contains-of_tier lib (cur_tier lib group current members node_stats gs now params)
        (alive lib group current members node_stats gs now params) t,
  )

  -- MUSE, while it runs on one of its members, is only ever moved to a US node.
  pub decide_group-muse_us :
      (t : String)
      → group ≡ muse
      → cur_valid lib group current members node_stats gs now params ≡ true
      → (decide_group lib group current members node_stats gs now params).target ≡ some t
      → tier_of lib t ≡ tier_us
  unfolding decide_group forced_pool
  decide_group-muse_us t g v h = ground (
    arith,
    forced_target lib group current members node_stats gs now params t,
    contains-of_tier lib tier_us (alive lib group current members node_stats gs now params) t,
    alive_target lib group current members node_stats gs now params t,
    same_target lib group current members node_stats gs now params t,
    contains-higher lib group current members node_stats gs now params t,
    contains-of_tier lib (cur_tier lib group current members node_stats gs now params)
        (alive lib group current members node_stats gs now params) t,
  )
