-- ===== src/Failover/Nodes/Laws.antt =====
-- The histories that `update_nodes` keeps, and the table that `build_node_stats` makes of them.
use mihomo_proxy_management.Prelude.{
  ℕ, zero, suc, ◌≤◌, ◌+◌, ◌-◌, drop, length-append, String, List, [], ◌∷◌, ◌++◌, Option, none, some,
  true, false, ◌≡◌, arith, refl, ap, str_eq, eq_iff, length, length-take_last, take_last,
  Option-cases, inl, inr, if◌then◌else◌,
}
use mihomo_proxy_management.Prelude.Dict.{Dict, get, put, is_unique, contains-keys}
use mihomo_proxy_management.Json.{pos, int, Value, text, list, at, of_list, to_list-of_list, at-put}
use mihomo_proxy_management.Failover.Library.{Library}
use mihomo_proxy_management.Failover.Samples.{node_samples, sample_pairs}
use mihomo_proxy_management.Failover.State.{count_of}
use mihomo_proxy_management.Failover.Nodes.{
  sample_values, next_samples, sample_keep, update_node, prune, is_kept,
}

sample_pairs-values : (ss : List (Value × Value)) → sample_pairs (sample_values ss) ≡ ss
unfolding sample_pairs sample_values
sample_pairs-values [] = refl
sample_pairs-values ((ts, ms) ∷ ss) = ap (◌∷◌ (ts, ms)) (sample_pairs-values ss)

node_samples-put :
    (node : Dict Value) (ss : List (Value × Value))
    → node_samples (put node "samples" (list (of_list (sample_values ss)))) ≡ ss
unfolding node_samples
node_samples-put node ss =
    rw (at-put node "samples" (list (of_list (sample_values ss))) "samples")
      (rw (to_list-of_list (sample_values ss)) (sample_pairs-values ss))

node_samples-put_other :
    (node : Dict Value) (k : String) (v : Value)
    → str_eq k "samples" ≡ false
    → node_samples (put node k v) ≡ node_samples node
unfolding node_samples
node_samples-put_other node k v h = rw (at-put node k v "samples", h)

-- A node keeps at most six samples, whatever its history held.
pub next_samples-length :
    (node : Dict Value) (ms : Option ℕ) (round_ts : String)
    → length (next_samples node ms round_ts) ≤ sample_keep
unfolding next_samples
next_samples-length node ms round_ts = omega (arith, length-take_last {0} sample_keep)

-- The updated node reads back as the samples that were meant.
pub update_node-samples :
    (lib : Library) (node node' : Dict Value) (ms : Option ℕ) (round_ts : String)
    → update_node lib node ms round_ts ≡ some node'
    → node_samples node' ≡ next_samples node ms round_ts
unfolding update_node
update_node-samples lib node node' ms round_ts h =
    let ss = next_samples node ms round_ts in
    let sampled = put node "samples" (list (of_list (sample_values ss))) in
    let failed = λ (c : ℕ). node_samples-put_other sampled "fail_streak" (int (pos (c + 1))) refl in
    elim (Option-cases (count_of lib (at sampled "fail_streak"))) [
      | inl e ↦ ground (
        arith,
        node_samples-put node ss,
        node_samples-put_other sampled "fail_streak" (int (pos 0)) refl,
        node_samples-put_other (put sampled "fail_streak" (int (pos 0))) "last_ok_ts"
            (text round_ts) refl,
      )
      | inr (c, e) ↦ ground (
        arith,
        node_samples-put node ss,
        node_samples-put_other sampled "fail_streak" (int (pos 0)) refl,
        node_samples-put_other (put sampled "fail_streak" (int (pos 0))) "last_ok_ts"
            (text round_ts) refl,
        failed c,
      )
    ]

drop-append_short :
    {A : Type 0} (n : ℕ) (xs : List A) (s : A)
    → n ≤ length xs
    → drop n (xs ++ s ∷ []) ≡ drop n xs ++ s ∷ []
drop-append_short zero xs s h = refl
drop-append_short (suc n) [] s h = absurd (omega arith)
drop-append_short (suc n) (x ∷ xs) s h = drop-append_short n xs s (omega arith)

pub take_last-append :
    {A : Type 0} (n : ℕ) (xs : List A) (s : A)
    → take_last (suc n) (xs ++ s ∷ []) ≡ take_last n xs ++ s ∷ []
unfolding take_last
take_last-append n xs s =
    let count : length (xs ++ s ∷ []) - suc n ≡ length xs - n = omega (arith, length-append {0}) in
    rw count (drop-append_short (length xs - n) xs s (omega arith))

module _ (lib : Library) (now : ℕ) where
  pub get-prune :
      (out : Dict (Dict Value)) (n : String)
      → is_unique out ≡ true
      → get (prune lib out now) n ≡ elim (get out n) [
        | none ↦ none
        | some node ↦ if is_kept lib node now then some node else none
      ]
  unfolding get prune is_unique
  get-prune [] n u = refl
  get-prune ((k, node) ∷ out) n u =
      ground (arith, get-prune out n, get-prune out k, contains-keys out k, eq_iff k n)
