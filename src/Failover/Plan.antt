-- ===== src/Failover/Plan.antt =====
-- The plan without thresholds of scripts/proxy-auto-switch.py: `decide_mode`, `plan_switches` and
-- `collect_candidates`.
pub mod Laws
use mihomo_proxy_management.Prelude.{
  ℕ, String, List, [], ◌∷◌, ◌++◌, Option, none, some, Bool, true, false, not, ◌&&◌, ◌||◌, str_eq,
  contains, filter, is_some, if◌then◌else◌,
}
use mihomo_proxy_management.Prelude.Dict.{Dict, get}
use mihomo_proxy_management.Prelude.Sort.{sort}
use mihomo_proxy_management.Prelude.Text.{str_le}
use mihomo_proxy_management.Failover.Region.{Group, gpt, muse, us_fast}
use mihomo_proxy_management.Failover.State.{group_key}
use mihomo_proxy_management.Failover.Samples.{pick_fastest}

pub data Mode : Type 0 where
  mode_a mode_b mode_c : Mode

unfoldable pub decide_mode : List String → List String → Mode
decide_mode [] [] = mode_c
decide_mode [] (n ∷ ns) = mode_b
decide_mode (n ∷ ns) alive_sg = mode_a

-- An entry of GET /proxies. `type` is in lower case; a member that is no text is `none`.
pub record Proxy : Type 0 where
  pub type : String
  pub now : Option String
  pub all : List (Option String)

unfoldable pub texts_of : List (Option String) → List String
texts_of [] = []
texts_of (none ∷ ms) = texts_of ms
texts_of (some m ∷ ms) = m ∷ texts_of ms

abbrev members_of : Option Proxy → List (Option String)
members_of none = []
members_of (some p) = p.all

unfoldable pub group_all : Dict Proxy → Group → List (Option String)
group_all proxies g = members_of (get proxies (group_key g))

-- SKIP_MEMBERS and `group_types`
abbrev pub skip_members : List String
skip_members = "DIRECT" ∷ "REJECT" ∷ "COMPATIBLE" ∷ "PASS" ∷ "GLOBAL" ∷ []

abbrev pub group_types : List String
group_types = "selector" ∷ "urltest" ∷ "fallback" ∷ "loadbalance" ∷ "relay" ∷ []

abbrev type_of : Option Proxy → String
type_of none = ""
type_of (some p) = p.type

-- a member that is probed: neither a policy nor another group
unfoldable pub is_leaf : Dict Proxy → String → Bool
is_leaf proxies member =
    not (contains skip_members member) && not (contains group_types (type_of (get proxies member)))

-- `names.add`
unfoldable pub add_name : List String → String → List String
add_name names n = if contains names n then names else n ∷ names

unfoldable pub add_names : List String → List String → List String
add_names names [] = names
add_names names (n ∷ ns) = add_names (add_name names n) ns

unfoldable pub leaves_of : Dict Proxy → List (Option String) → List String
leaves_of proxies all = filter (is_leaf proxies) (texts_of all)

-- the loop over the groups
unfoldable pub collect_leaves : Dict Proxy → List (List (Option String)) → List String → List String
collect_leaves proxies [] names = names
collect_leaves proxies (all ∷ rest) names =
    collect_leaves proxies rest (add_names names (leaves_of proxies all))

-- over the groups of a dict that it is given: SWITCH_GROUPS in `main`, one in `group_leaf_members`
unfoldable pub collect_candidates : Dict Proxy → List (List (Option String)) → List String
collect_candidates proxies groups = sort str_le (collect_leaves proxies groups [])

unfoldable pub group_leaf_members : Dict Proxy → Group → List String
group_leaf_members proxies g = collect_candidates proxies (group_all proxies g ∷ [])

module _ (proxies : Dict Proxy) (delays : Dict (Option ℕ)) where
  -- us_pick, sg_pick and any_pick: the fastest of a set that the group has as a member
  unfoldable pub pick_from : List String → Group → Option String
  pick_from alive g = pick_fastest (filter (contains (texts_of (group_all proxies g))) alive) delays

  -- From the nodes that are alive in the US, in SG, and anywhere; `none` leaves the group unchanged.
  unfoldable pub plan_switches :
      Mode → List String → List String → List String → Group → Option String
  plan_switches mode_a alive_us alive_sg alive_any g = pick_from alive_us g
  plan_switches mode_b alive_us alive_sg alive_any gpt = pick_from alive_sg gpt
  plan_switches mode_b alive_us alive_sg alive_any us_fast = pick_from alive_sg us_fast
  plan_switches mode_b alive_us alive_sg alive_any muse = none
  plan_switches mode_c alive_us alive_sg alive_any gpt = pick_from alive_any gpt
  plan_switches mode_c alive_us alive_sg alive_any us_fast = pick_from alive_any us_fast
  plan_switches mode_c alive_us alive_sg alive_any muse = none
