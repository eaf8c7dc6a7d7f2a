-- ===== src/Failover/Plan/Laws.antt =====
-- What `plan_switches` and `collect_candidates` choose.
use mihomo_proxy_management.Prelude.{
  ℕ, zero, suc, String, List, [], ◌∷◌, Option, none, some, Bool, true, false, ◌≡◌, ◌≢◌, ◌&&◌, ◌||◌,
  not, arith, refl, subst, sym, str_eq, eq_iff, eq_refl, contains, contains-filter, contains-nil,
  filter, all, if◌then◌else◌, is_some, Option-cases, inl, inr, ◌==◌,
}
use mihomo_proxy_management.Prelude.Dict.{Dict, get}
use mihomo_proxy_management.Prelude.Sort.{sort, first, first-all, first-none, first-least, all-sort}
use mihomo_proxy_management.Prelude.Text.{str_le}
use mihomo_proxy_management.Failover.Region.{Group, muse}
use mihomo_proxy_management.Failover.Ranking.{pair_le_refl, pair_le_total, pair_le_trans}
use mihomo_proxy_management.Failover.Samples.{pair_le, scored, pick_fastest}
use mihomo_proxy_management.Failover.Plan.{
  decide_mode, Proxy, texts_of, group_all, is_leaf, add_name, add_names, leaves_of, collect_leaves,
  collect_candidates, pick_from, plan_switches,
}

-- the delay of a node, where it is known and not 0
abbrev measures : Option (Option ℕ) → ℕ → Bool
measures none d = false
measures (some none) d = false
measures (some (some e)) d = e == d && not (e == 0)

module _ (delays : Dict (Option ℕ)) where
  scored-ok :
      (wider ns : List String)
      → ((n : String) → contains ns n ≡ true → contains wider n ≡ true)
      → all (λ s. contains wider s.1 && measures (get delays s.1) s.0) (scored ns delays) ≡ true
  unfolding scored all contains
  scored-ok wider [] w = refl
  scored-ok wider (n ∷ ns) w =
      ground (arith, w n, eq_refl n, scored-ok wider ns (λ m h. w m (ground arith)))

  scored-all :
      (p : ℕ × String → Bool) (ns : List String) (n : String) (d : ℕ)
      → all p (scored ns delays) ≡ true
      → contains ns n ≡ true
      → get delays n ≡ some (some (suc d))
      → p (suc d, n) ≡ true
  unfolding scored all contains
  scored-all p [] n d h m e = absurd (ground arith)
  scored-all p (k ∷ ns) n d h m e = ground (arith, eq_iff k n, scored-all p ns n d)

  fastest_pair :
      (ns : List String) (t : String)
      → pick_fastest ns delays ≡ some t
      → (d : ℕ) × (first pair_le (scored ns delays) ≡ some (d, t))
  unfolding pick_fastest
  fastest_pair ns t h = elim (Option-cases (first pair_le (scored ns delays))) [
    | inl e ↦ absurd (ground arith)
    | inr ((d, n), e) ↦ (d, ground arith)
  ]

  pick_fastest-measures :
      (ns : List String) (t : String) (d : ℕ)
      → first pair_le (scored ns delays) ≡ some (d, t)
      → contains ns t && measures (get delays t) d ≡ true
  pick_fastest-measures ns t d h =
      first-all pair_le (λ s. contains ns s.1 && measures (get delays s.1) s.0) (scored ns delays)
        (d, t) h (scored-ok ns ns (λ n m. m))

  measured :
      (o : Option (Option ℕ)) (d : ℕ)
      → measures o d ≡ true
      → (e : ℕ) × (d ≡ suc e) × (o ≡ some (some (suc e)))
  measured none d h = cc
  measured (some none) d h = cc
  measured (some (some zero)) d h = absurd (ground arith)
  measured (some (some (suc e))) d h = (e, ground arith, refl)

  -- The node that `pick_fastest` returns is a candidate with a positive delay, and no candidate with
  -- a positive delay comes before it in the order by delay, then name.
  pub pick_fastest-fastest :
      (ns : List String) (t : String)
      → pick_fastest ns delays ≡ some t
      → (contains ns t ≡ true)
        × ((d : ℕ) × (get delays t ≡ some (some (suc d)))
            × ((n : String) (e : ℕ)
                → contains ns n ≡ true
                → get delays n ≡ some (some (suc e))
                → pair_le (suc d, t) (suc e, n) ≡ true))
  pick_fastest-fastest ns t h =
      let (d, e) = fastest_pair ns t h in
      let ok = pick_fastest-measures ns t d e in
      let (k, at_k, known) = measured (get delays t) d (ground (arith, ok)) in
      (
        ground (arith, ok),
        (
          k,
          known,
          λ n j m g.
              scored-all (pair_le (suc k, t)) ns n j
                (first-least pair_le pair_le_refl pair_le_total pair_le_trans (scored ns delays)
                  (suc k, t) (rw at_k at e))
                m g,
        ),
      )

  none-scored : (ns : List String) → pick_fastest ns delays ≡ none → scored ns delays ≡ []
  unfolding pick_fastest
  none-scored ns h = elim (Option-cases (first pair_le (scored ns delays))) [
    | inl e ↦ first-none pair_le (scored ns delays) e
    | inr (s, e) ↦ absurd (ground arith)
  ]

  -- Where it returns no node, no candidate has a positive delay.
  pub pick_fastest-none :
      (ns : List String) (n : String) (d : ℕ)
      → pick_fastest ns delays ≡ none
      → contains ns n ≡ true
      → get delays n ≢ some (some (suc d))
  unfolding all
  pick_fastest-none ns n d h m e =
      let empty = none-scored ns h in
      let absurd_test = scored-all (λ s. false) ns n d (rw empty refl) m e in cc

-- The nodes that the mode stands for: the US nodes, else the SG nodes, else any.
abbrev pub best_region : List String → List String → List String → List String
best_region [] [] alive_any = alive_any
best_region [] (n ∷ ns) alive_any = n ∷ ns
best_region (n ∷ ns) alive_sg alive_any = n ∷ ns

abbrev pub is_empty : List String → Bool
is_empty [] = true
is_empty (n ∷ ns) = false

abbrev is_muse_group : Group → Bool
is_muse_group muse = true
is_muse_group _ = false

module _ (proxies : Dict Proxy) (delays : Dict (Option ℕ))
    (alive_us alive_sg alive_any : List String) where
  abbrev plan : Group → Option String
  plan = plan_switches proxies delays (decide_mode alive_us alive_sg) alive_us alive_sg alive_any

  -- The plan is the fastest of the best region's members, or nothing for MUSE without a US node.
  plan-eq :
      (g : Group)
      → plan g ≡ (
          if is_empty alive_us && is_muse_group g
          then none
          else pick_from proxies delays (best_region alive_us alive_sg alive_any) g)
  unfolding plan_switches decide_mode
  plan-eq g = ground arith

  plan-best :
      (g : Group) (t : String)
      → plan g ≡ some t
      → (contains (texts_of (group_all proxies g)) t ≡ true)
        × (contains (best_region alive_us alive_sg alive_any) t ≡ true)
        × (is_empty alive_us && is_muse_group g ≡ false)
        × ((d : ℕ) × (get delays t ≡ some (some (suc d)))
            × ((n : String) (e : ℕ)
                → contains (texts_of (group_all proxies g)) n ≡ true
                → contains (best_region alive_us alive_sg alive_any) n ≡ true
                → get delays n ≡ some (some (suc e))
                → pair_le (suc d, t) (suc e, n) ≡ true))
  unfolding pick_from
  plan-best g t h =
      let region = best_region alive_us alive_sg alive_any in
      let members = contains (texts_of (group_all proxies g)) in
      let (at_t, fastest) =
        pick_fastest-fastest delays (filter members region) t (ground (arith, plan-eq g)) in
      let (d, known, least) = fastest in
      (
        ground (arith, at_t, contains-filter members t region),
        ground (arith, at_t, contains-filter members t region),
        ground (arith, plan-eq g),
        (d, known, λ n e m r k. least n e (ground (arith, contains-filter members n region)) k),
      )

  -- A planned node is a member of the group that lies in the best region that is alive (US, else SG,
  -- else any), and has a positive delay. MUSE is planned a node only while a US node is alive.
  pub plan_switches_sound :
      (g : Group) (t : String)
      → plan g ≡ some t
      → (contains (texts_of (group_all proxies g)) t ≡ true)
        × (contains (best_region alive_us alive_sg alive_any) t ≡ true)
        × (is_empty alive_us && is_muse_group g ≡ false)
        × ((d : ℕ) × (get delays t ≡ some (some (suc d))))
  plan_switches_sound g t h =
      let (member, region, frozen, fast) = plan-best g t h in
      let (d, at_t, least) = fast in (member, region, frozen, (d, at_t))

  -- No member of the group in that region that has a positive delay is faster than the planned node,
  -- by delay and then by name.
  pub plan_switches-fastest :
      (g : Group) (t n : String) (d e : ℕ)
      → plan g ≡ some t
      → get delays t ≡ some (some d)
      → contains (texts_of (group_all proxies g)) n ≡ true
      → contains (best_region alive_us alive_sg alive_any) n ≡ true
      → get delays n ≡ some (some (suc e))
      → pair_le (d, t) (suc e, n) ≡ true
  plan_switches-fastest g t n d e h at_t m r at_n =
      let (member, region, frozen, fast) = plan-best g t h in
      let (k, at_k, least) = fast in
      let same_delay : d ≡ suc k = ground (arith, at_k) in
      subst (λ x. pair_le (x, t) (suc e, n) ≡ true) (sym same_delay) (least n e m r at_n)

  -- Where the group has a member in that region that answered, a node is planned (for MUSE: where
  -- that region is the US).
  pub plan_switches-total :
      (g : Group) (n : String) (d : ℕ)
      → is_empty alive_us && is_muse_group g ≡ false
      → contains (texts_of (group_all proxies g)) n ≡ true
      → contains (best_region alive_us alive_sg alive_any) n ≡ true
      → get delays n ≡ some (some (suc d))
      → is_some (plan g) ≡ true
  unfolding pick_from
  plan_switches-total g n d a m r k =
      let region = best_region alive_us alive_sg alive_any in
      let members = contains (texts_of (group_all proxies g)) in
      let candidates = filter members region in
      elim (Option-cases (pick_fastest candidates delays)) [
        | inl e ↦ absurd (
            pick_fastest-none delays candidates n d e
              (ground (arith, contains-filter members n region)) k)
        | inr (t, e) ↦ ground (arith, plan-eq g)
      ]

contains-not_all :
    (xs : List String) (n : String) → contains xs n ≡ not (all (λ x. not (str_eq x n)) xs)
unfolding contains all
contains-not_all [] n = refl
contains-not_all (x ∷ xs) n = ground (arith, contains-not_all xs n)

contains-sort : (xs : List String) (n : String) → contains (sort str_le xs) n ≡ contains xs n
contains-sort xs n = ground (
  arith,
  contains-not_all xs n,
  contains-not_all (sort str_le xs) n,
  all-sort str_le (λ x. not (str_eq x n)) xs,
)

contains-add_names :
    (ns names : List String) (n : String)
    → contains (add_names names ns) n ≡ contains names n || contains ns n
unfolding add_names add_name contains
contains-add_names [] names n = ground arith
contains-add_names (m ∷ ns) names n =
    ground (arith, contains-add_names ns (add_name names m) n, eq_iff m n)

-- a member of one of the groups
pub listed : List (List (Option String)) → String → Bool
listed [] n = false
listed (all ∷ rest) n = contains (texts_of all) n || listed rest n

contains-collect :
    (proxies : Dict Proxy) (groups : List (List (Option String))) (names : List String) (n : String)
    → contains (collect_leaves proxies groups names) n
      ≡ contains names n || (listed groups n && is_leaf proxies n)
unfolding collect_leaves leaves_of listed
contains-collect proxies [] names n = ground arith
contains-collect proxies (all ∷ rest) names n = ground (
  arith,
  contains-collect proxies rest (add_names names (leaves_of proxies all)) n,
  contains-add_names (leaves_of proxies all) names n,
  contains-filter (is_leaf proxies) n (texts_of all),
)

-- The candidates are the members of the groups that are neither a policy nor a group, each of them.
pub contains-collect_candidates :
    (proxies : Dict Proxy) (groups : List (List (Option String))) (n : String)
    → contains (collect_candidates proxies groups) n ≡ listed groups n && is_leaf proxies n
unfolding collect_candidates
contains-collect_candidates proxies groups n = ground (
  arith,
  contains-sort (collect_leaves proxies groups []) n,
  contains-collect proxies groups [] n,
  contains-nil n,
)
