-- ===== src/Failover/Nodes/Update.antt =====
-- What `update_nodes` and `build_node_stats` make of one node.
use mihomo_proxy_management.Prelude.{
  ℕ, ◌+◌, ◌≤◌, String, List, [], ◌∷◌, ◌++◌, Option, none, some, true, false, ◌≡◌, arith, refl, ◌∙◌,
  str_eq, eq_iff, take_last, contains, Option-cases, Bool-cases, inl, inr, if◌then◌else◌,
}
use mihomo_proxy_management.Prelude.Dict.{Dict, get, put, keys, is_unique, is_unique-put, get-put}
use mihomo_proxy_management.Json.{Value, text, object}
use mihomo_proxy_management.Failover.Library.{Library, hours}
use mihomo_proxy_management.Failover.Coerce.{parse_ts}
use mihomo_proxy_management.Failover.Samples.{node_samples}
use mihomo_proxy_management.Failover.State.{only_dicts}
use mihomo_proxy_management.Failover.Nodes.{
  valid_ms, ms_value, next_samples, other_rounds, dict_or_empty, last_ts, node_prune_age_h,
  update_node, update_probed, update_nodes, is_kept,
}
use mihomo_proxy_management.Failover.Nodes.Laws.{update_node-samples, take_last-append, get-prune}

module _ (lib : Library) (round_ts : String) where
  update_probed_unique :
      (delays : Dict (Option ℕ)) (out out' : Dict (Dict Value))
      → update_probed lib out delays round_ts ≡ some out'
      → is_unique out ≡ true
      → is_unique out' ≡ true
  unfolding update_probed
  update_probed_unique [] out out' h u = ground arith
  update_probed_unique ((k, ms) ∷ delays) out out' h u =
      elim (Option-cases (update_node lib (dict_or_empty (get out k)) ms round_ts)) [
        | inl e ↦ ground arith
        | inr (node, e) ↦
            update_probed_unique delays (put out k node) out' (rw e at h)
              (is_unique-put out k node u)
      ]

  update_probed-absent :
      (delays : Dict (Option ℕ)) (out out' : Dict (Dict Value)) (n : String)
      → update_probed lib out delays round_ts ≡ some out'
      → contains (keys delays) n ≡ false
      → get out' n ≡ get out n
  unfolding update_probed keys contains
  update_probed-absent [] out out' n h a = ground arith
  update_probed-absent ((k, ms) ∷ delays) out out' n h a =
      elim (Option-cases (update_node lib (dict_or_empty (get out k)) ms round_ts)) [
        | inl e ↦ ground arith
        | inr (node, e) ↦
            ground
              (arith, update_probed-absent delays (put out k node) out' n, get-put out k node n)
      ]

  update_probed-present :
      (delays : Dict (Option ℕ)) (out out' : Dict (Dict Value)) (n : String) (ms : Option ℕ)
      → update_probed lib out delays round_ts ≡ some out'
      → is_unique delays ≡ true
      → get delays n ≡ some ms
      → (node : Dict Value) × (get out' n ≡ some node)
        × (update_node lib (dict_or_empty (get out n)) ms round_ts ≡ some node)
  unfolding update_probed is_unique get
  update_probed-present [] out out' n ms h u p = cc
  update_probed-present ((k, m) ∷ delays) out out' n ms h u p =
      elim (Option-cases (update_node lib (dict_or_empty (get out k)) m round_ts)) [
        | inl e ↦ absurd (ground arith)
        | inr (node, e) ↦ elim (Bool-cases (str_eq k n)) [
          | inl same ↦
              let at_k = (eq_iff k n).0 same in
              (
                node,
                ground (
                  arith,
                  at_k,
                  update_probed-absent delays (put out k node) out' n,
                  get-put out k node n,
                ),
                ground (arith, at_k),
              )
          | inr other ↦
              let (found, stands, updated) =
                update_probed-present delays (put out k node) out' n ms (rw e at h) (ground arith)
                  (ground arith) in
              (found, stands, ground (arith, get-put out k node n))
        ]
      ]

only_dicts-keys :
    (d : Dict Value) (k : String)
    → contains (keys d) k ≡ false
    → contains (keys (only_dicts d)) k ≡ false
unfolding only_dicts keys contains
only_dicts-keys [] k h = h
only_dicts-keys ((j, object fs) ∷ d) k h = ground (arith, only_dicts-keys d k)
only_dicts-keys ((j, _) ∷ d) k h = ground (arith, only_dicts-keys d k)

only_dicts_unique : (d : Dict Value) → is_unique d ≡ true → is_unique (only_dicts d) ≡ true
unfolding only_dicts is_unique keys
only_dicts_unique [] u = refl
only_dicts_unique ((j, object fs) ∷ d) u = ground (arith, only_dicts_unique d, only_dicts-keys d j)
only_dicts_unique ((j, _) ∷ d) u = ground (arith, only_dicts_unique d)

next_samples-eq :
    (node : Dict Value) (ms : Option ℕ) (round_ts : String)
    → next_samples node ms round_ts
      ≡ take_last 5 (other_rounds round_ts (node_samples node))
        ++ (text round_ts, ms_value (valid_ms ms)) ∷ []
unfolding next_samples
next_samples-eq node ms round_ts =
    take_last-append 5 (other_rounds round_ts (node_samples node))
      (text round_ts, ms_value (valid_ms ms))

last_ts-append : (ss : List (Value × Value)) (ts ms : Value) → last_ts (ss ++ (ts, ms) ∷ []) ≡ ts
last_ts-append [] ts ms = refl
last_ts-append ((t, m) ∷ []) ts ms = refl
last_ts-append (s ∷ t ∷ ss) ts ms = last_ts-append (t ∷ ss) ts ms

-- The prune keeps a node whose last sample is of the round.
fresh-is_kept :
    (lib : Library) (node : Dict Value) (now when : ℕ) (ss : List (Value × Value))
    (round_ts : String) (ms : Value)
    → node_samples node ≡ ss ++ (text round_ts, ms) ∷ []
    → parse_ts lib (text round_ts) ≡ some when
    → now ≤ when + hours node_prune_age_h
    → is_kept lib node now ≡ true
unfolding is_kept
fresh-is_kept lib node now when ss round_ts ms e t fresh =
    rw e (rw (last_ts-append ss (text round_ts) ms) (rw t (ground arith)))

module _ (lib : Library) (nodes : Dict Value) (delays : Dict (Option ℕ)) (round_ts : String)
    (now : ℕ) (out : Dict (Dict Value)) where
  -- A node that was probed in the round is kept, with this round's sample behind the last five that
  -- it had from other rounds, where the time of the round parses and is at most 24 hours old.
  pub update_nodes-probed :
      (n : String) (ms : Option ℕ) (when : ℕ)
      → update_nodes lib nodes delays round_ts now ≡ some out
      → is_unique nodes ≡ true
      → is_unique delays ≡ true
      → get delays n ≡ some ms
      → parse_ts lib (text round_ts) ≡ some when
      → now ≤ when + hours node_prune_age_h
      → (node : Dict Value) × (get out n ≡ some node)
        × (node_samples node
            ≡ take_last 5
                (other_rounds round_ts (node_samples (dict_or_empty (get (only_dicts nodes) n))))
              ++ (text round_ts, ms_value (valid_ms ms)) ∷ [])
  unfolding update_nodes
  update_nodes-probed n ms when h un ud p t fresh =
      elim (Option-cases (update_probed lib (only_dicts nodes) delays round_ts)) [
        | inl e ↦ absurd (ground arith)
        | inr (probed, e) ↦
            let old = dict_or_empty (get (only_dicts nodes) n) in
            let (node, at_n, updated) =
              update_probed-present lib round_ts delays (only_dicts nodes) probed n ms e ud p in
            let samples =
              update_node-samples lib old node ms round_ts updated
              ∙ next_samples-eq old ms round_ts in
            (
              node,
              ground (
                arith,
                at_n,
                update_probed_unique lib round_ts delays (only_dicts nodes) probed e,
                only_dicts_unique nodes un,
                get-prune lib now probed n,
                fresh-is_kept lib node now when
                    (take_last 5 (other_rounds round_ts (node_samples old))) round_ts
                    (ms_value (valid_ms ms)) samples t fresh,
              ),
              samples,
            )
      ]

  -- A node that was not probed keeps its history, or is dropped where that is a day old.
  pub update_nodes-unprobed :
      (n : String)
      → update_nodes lib nodes delays round_ts now ≡ some out
      → is_unique nodes ≡ true
      → contains (keys delays) n ≡ false
      → get out n ≡ elim (get (only_dicts nodes) n) [
        | none ↦ none
        | some node ↦ if is_kept lib node now then some node else none
      ]
  unfolding update_nodes
  update_nodes-unprobed n h un a =
      elim (Option-cases (update_probed lib (only_dicts nodes) delays round_ts)) [
        | inl e ↦ absurd (ground arith)
        | inr (probed, e) ↦ ground (
          arith,
          update_probed-absent lib round_ts delays (only_dicts nodes) probed n,
          update_probed_unique lib round_ts delays (only_dicts nodes) probed,
          only_dicts_unique nodes,
          get-prune lib now probed n,
        )
      ]
