-- ===== src/Manager/Health.antt =====
-- The health of the CN provider in linux/python/mpm/lifecycle.py: `_node_alive_flags`, `_provider_nodes`,
-- `_provider_summary`, `_cn_reason`, `_cn_health`, `_record_cn_health` and `_degraded_record`, with `Degraded` of
-- linux/python/mpm/state.py.
pub mod Laws
use mihomo_proxy_management.Prelude.{
  not, ℕ, zero, suc, ◌+◌, String, List, [], ◌∷◌, ◌++◌, Option, none, some, Bool, true, false, ◌&&◌,
  ◌||◌, ◌==◌, str_eq, contains, is_some, length, if◌then◌else◌,
}
use mihomo_proxy_management.Prelude.Dict.{Dict, get, put}
use mihomo_proxy_management.Document.{
  is_true, or_node, Node, null, scalar, text, sequence, mapping, Nodes, nil, cons, Entries, end,
  entry, items, entries, field_of,
}
use mihomo_proxy_management.Manager.Preflight
use mihomo_proxy_management.Manager.Preflight.{Preflight, Degradation}

-- `str` of what is no text is the parameter `show`.
abbrev str_of : (Node → String) → Node → String
str_of show (text s) = s
str_of show n = show n

-- The answer of `controller.proxies()`: its "proxies", or `none` where it raises.
unfoldable pub alive_flags_in : Dict Node → Dict Bool
alive_flags_in [] = []
alive_flags_in ((name, mapping es) ∷ d) =
    let rest = alive_flags_in d in
    elim (get (entries es) "alive") [ none ↦ rest | some alive ↦ (name, is_true alive) ∷ rest ]
alive_flags_in ((name, _) ∷ d) = alive_flags_in d

unfoldable pub node_alive_flags : Option Node → Dict Bool
node_alive_flags (some (mapping es)) = alive_flags_in (entries es)
node_alive_flags _ = []

abbrev flag_of : Option Node → Option Bool
flag_of none = none
flag_of (some n) = some (is_true n)

-- a node of a provider: its name, and whether the provider says that it is alive
abbrev pub node_pair : (Node → String) → Node → String × Option Bool
node_pair show (mapping es) =
    let name = field_of (entries es) "name" in
    (if is_true name then str_of show name else "", flag_of (get (entries es) "alive"))
node_pair show n = (str_of show n, none)

unfoldable pub named_nodes : (Node → String) → List Node → List (String × Option Bool)
named_nodes show [] = []
named_nodes show (n ∷ ns) =
    let rest = named_nodes show ns in
    if str_eq (node_pair show n).0 "" then rest else node_pair show n ∷ rest

abbrev listed_items : Node → List Node
listed_items (sequence ns) = items ns
listed_items _ = []

unfoldable pub provider_nodes : (Node → String) → Dict Node → List (String × Option Bool)
provider_nodes show info = named_nodes show (
    listed_items
      (or_node (field_of info "all") (or_node (field_of info "vehicle") (field_of info "proxies"))))

abbrev known_list : Option Bool → List Bool
known_list none = []
known_list (some b) = b ∷ []

-- a flag of the controller comes before the provider's own
abbrev pub flag_for : Dict Bool → String × Option Bool → Option Bool
flag_for flags (name, alive) = elim (get flags name) [ none ↦ alive | some b ↦ some b ]

unfoldable pub known_flags : Dict Bool → List (String × Option Bool) → List Bool
known_flags flags [] = []
known_flags flags (n ∷ ns) = known_list (flag_for flags n) ++ known_flags flags ns

unfoldable pub str_items : (Node → String) → List Node → List String
str_items show [] = []
str_items show (n ∷ ns) = str_of show n ∷ str_items show ns

unfoldable pub named_alive : List String → List (String × Option Bool) → List Bool
named_alive names [] = []
named_alive names ((n, alive) ∷ ns) = contains names n ∷ named_alive names ns

abbrev pub listed_alive : (Node → String) → List (String × Option Bool) → Node → List Bool
listed_alive show nodes (sequence ns) = named_alive (str_items show (items ns)) nodes
listed_alive show nodes _ = []

-- where no node has a flag, the provider's list "alive" is asked
unfoldable pub liveness : (Node → String) → Dict Bool → Dict Node → List Bool
liveness show flags info = elim (known_flags flags (provider_nodes show info)) [
  | k ∷ ks ↦ k ∷ ks
  | [] ↦ listed_alive show (provider_nodes show info) (field_of info "alive")
]

unfoldable pub count_true : List Bool → ℕ
count_true [] = 0
count_true (true ∷ bs) = suc (count_true bs)
count_true (false ∷ bs) = count_true bs

abbrev pub alive_count_of : List Bool → Option ℕ
alive_count_of [] = none
alive_count_of (b ∷ bs) = some (count_true (b ∷ bs))

pub record Summary : Type 0 where
  pub node_count : ℕ
  pub alive_count : Option ℕ

unfoldable pub summary_of : (Node → String) → Dict Bool → Dict Node → Summary
summary_of show flags info = record {
  node_count = length (provider_nodes show info);
  alive_count = alive_count_of (liveness show flags info);
}

-- over the providers that are mappings
unfoldable pub provider_summary : (Node → String) → Dict Bool → Dict Node → Dict Summary
provider_summary show flags [] = []
provider_summary show flags ((name, mapping es) ∷ d) =
    (name, summary_of show flags (entries es)) ∷ provider_summary show flags d
provider_summary show flags ((name, _) ∷ d) = provider_summary show flags d

pub data Cn : Type 0 where
  ok degraded disabled : Cn

-- the texts of `_cn_reason`
pub data CnReason : Type 0 where
  not_visible no_live_nodes unknown_liveness : CnReason

-- An entry of `cn_details`: "not configured", a reason followed by what it means for CN-EXIT, the reason alone,
-- or another text.
pub data Detail : Type 0 where
  not_configured : Detail
  explained bare : CnReason → Detail
  other : String → Detail

pub record Degraded : Type 0 where
  pub active : Bool
  pub mode : Preflight.Mode
  pub reasons : List Degradation
  pub cn : Cn
  pub cn_details : List Detail

abbrev pub is_degraded : Cn → Bool
is_degraded degraded = true
is_degraded _ = false

abbrev pub is_disabled : Cn → Bool
is_disabled disabled = true
is_disabled _ = false

-- `Degraded.status` is DEGRADED
unfoldable pub is_reported : Degraded → Bool
is_reported d = d.active || is_degraded d.cn

-- the reason, and `none` for the empty one
unfoldable pub cn_reason : Option Summary → Option CnReason
cn_reason none = some not_visible
cn_reason (some info) = if info.node_count == 0 then some no_live_nodes else elim info.alive_count [
  | none ↦ some unknown_liveness
  | some n ↦ if n == 0 then some no_live_nodes else none
]

abbrev health_of : Option Summary → Cn
health_of none = degraded
health_of (some info) =
    if info.node_count == 0
    then degraded
    else elim info.alive_count [ none ↦ degraded | some n ↦ if n == 0 then degraded else ok ]

-- CN_PROVIDER
abbrev pub cn_provider : String
cn_provider = "subscription-cn"

-- by `plan.cn_configured`
unfoldable pub cn_health : Bool → Dict Summary → Cn
cn_health false summary = disabled
cn_health true summary = health_of (get summary cn_provider)

abbrev same_reason : CnReason → CnReason → Bool
same_reason not_visible not_visible = true
same_reason no_live_nodes no_live_nodes = true
same_reason unknown_liveness unknown_liveness = true
same_reason _ _ = false

-- `reason in cn_details`, which compares whole texts
unfoldable pub has_reason : List Detail → CnReason → Bool
has_reason [] r = false
has_reason (bare q ∷ ds) r = same_reason q r || has_reason ds r
has_reason (_ ∷ ds) r = has_reason ds r

-- What `_record_cn_health` returns, and the record that it saves.
pub record Recorded : Type 0 where
  pub state : Cn
  pub changed : Bool
  pub saved : Option Degraded

abbrev details_of : Option CnReason → List Detail
details_of none = []
details_of (some r) = explained r ∷ []

abbrev is_noted : Option CnReason → List Detail → Bool
is_noted none ds = false
is_noted (some r) ds = has_reason ds r

unfoldable pub record_disabled : Degraded → Recorded
record_disabled stored = record {
  state = disabled;
  changed = not (is_disabled stored.cn);
  saved =
      if is_disabled stored.cn
      then none
      else some (record stored { cn = disabled; cn_details = not_configured ∷ [] });
}

unfoldable pub record_degraded : Option CnReason → Degraded → Recorded
record_degraded reason stored = record {
  state = degraded;
  changed = not (is_degraded stored.cn);
  saved =
      if not (is_degraded stored.cn) || not (is_noted reason stored.cn_details)
      then some (record stored { cn = degraded; cn_details = details_of reason })
      else none;
}

unfoldable pub record_ok : Degraded → Recorded
record_ok stored = record {
  state = ok;
  changed = is_degraded stored.cn;
  saved = if is_degraded stored.cn then some (record stored { cn = ok; cn_details = [] }) else none;
}

unfoldable pub record_cn_health : Bool → Dict Summary → Degraded → Recorded
record_cn_health configured summary stored = elim (cn_health configured summary) [
  | disabled ↦ record_disabled stored
  | degraded ↦ record_degraded (cn_reason (get summary cn_provider)) stored
  | ok ↦ record_ok stored
]

abbrev is_mixed : Preflight.Mode → Bool
is_mixed Preflight.mixed = true
is_mixed Preflight.tun = false

-- by whether there is a CN subscription; `existing` is the record before
unfoldable pub degraded_record : Bool → Preflight → Degraded → Degraded
degraded_record has_cn preflight existing = record {
  active = is_mixed preflight.mode;
  mode = preflight.mode;
  reasons = preflight.degraded_reasons;
  cn = if has_cn then if is_degraded existing.cn then degraded else ok else disabled;
  cn_details =
      if has_cn
      then if is_degraded existing.cn then existing.cn_details else []
      else not_configured ∷ [];
}
