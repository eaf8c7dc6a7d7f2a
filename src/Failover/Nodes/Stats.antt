-- ===== src/Failover/Nodes/Stats.antt =====
-- `build_node_stats`: what the decision reads of each node.
use mihomo_proxy_management.Prelude.{
  contains-append, ℕ, String, List, [], ◌∷◌, ◌++◌, Option, none, some, true, ◌≡◌, arith, refl,
  eq_iff, contains, if◌then◌else◌, is_some,
}
use mihomo_proxy_management.Prelude.Dict.{
  Dict, get, keys, is_unique, is_unique-put, get-put, contains-keys,
}
use mihomo_proxy_management.Json.{Value}
use mihomo_proxy_management.Failover.Decide.{alive_round_of}
use mihomo_proxy_management.Failover.Nodes.{delay_at, node_stat, stats_of, build_node_stats}

module _ (nodes : Dict (Dict Value)) (delays : Dict (Option ℕ)) where
  get-stats_of :
      (ns : List String) (n : String)
      → get (stats_of nodes delays ns) n
        ≡ (if contains ns n then some (node_stat nodes delays n) else none)
  unfolding stats_of contains get
  get-stats_of [] n = refl
  get-stats_of (m ∷ ns) n = ground (
    arith,
    get-put (stats_of nodes delays ns) m (node_stat nodes delays m) n,
    get-stats_of ns n,
    eq_iff m n,
  )

  stats_of_unique : (ns : List String) → is_unique (stats_of nodes delays ns) ≡ true
  unfolding stats_of is_unique
  stats_of_unique [] = refl
  stats_of_unique (m ∷ ns) =
      is_unique-put (stats_of nodes delays ns) m (node_stat nodes delays m) (stats_of_unique ns)

  pub build_node_stats_unique : is_unique (build_node_stats nodes delays) ≡ true
  unfolding build_node_stats
  build_node_stats_unique = stats_of_unique (keys nodes ++ keys delays)

  -- A node is alive in the round exactly when its probe returned a delay.
  pub build_node_stats-alive :
      (n : String)
      → alive_round_of (get (build_node_stats nodes delays) n) ≡ is_some (delay_at (get delays n))
  unfolding build_node_stats node_stat
  build_node_stats-alive n = ground (
    arith,
    get-stats_of (keys nodes ++ keys delays) n,
    contains-append (keys nodes) (keys delays) n,
    contains-keys delays n,
  )
