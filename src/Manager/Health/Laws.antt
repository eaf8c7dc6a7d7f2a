-- ===== src/Manager/Health/Laws.antt =====
-- When CN counts as healthy, and what is recorded of it.
use mihomo_proxy_management.Prelude.{
  ℕ, ◌≤◌, String, List, [], ◌∷◌, Option, none, some, Bool, true, false, ◌&&◌, ◌≡◌, ◌↔◌, arith, refl,
  length, inl, inr, Option-cases, if◌then◌else◌,
}
use mihomo_proxy_management.Prelude.Dict.{Dict, get}
use mihomo_proxy_management.Document.{Node, null, scalar, text, sequence, mapping, items, field_of}
use mihomo_proxy_management.Manager.Preflight.{Preflight}
use mihomo_proxy_management.Manager.Health.{
  Cn, disabled, Summary, Degraded, ok, known_flags, named_alive, count_true, summary_of, liveness,
  cn_health, cn_provider, record_cn_health, record_disabled, record_degraded, record_ok,
  degraded_record, is_reported, is_degraded, is_disabled, alive_count_of, listed_alive,
  provider_nodes, str_items,
}

known_flags-length :
    (flags : Dict Bool) (ns : List (String × Option Bool))
    → length (known_flags flags ns) ≤ length ns
unfolding known_flags
known_flags-length flags [] = omega arith
known_flags-length flags (n ∷ ns) = ground (arith, known_flags-length flags ns)

named_alive-length :
    (names : List String) (ns : List (String × Option Bool))
    → length (named_alive names ns) ≡ length ns
unfolding named_alive
named_alive-length names [] = refl
named_alive-length names ((n, a) ∷ ns) = ground (arith, named_alive-length names ns)

count_true-length : (bs : List Bool) → count_true bs ≤ length bs
unfolding count_true
count_true-length [] = omega arith
count_true-length (true ∷ bs) = ground (arith, count_true-length bs)
count_true-length (false ∷ bs) = ground (arith, count_true-length bs)

alive_count_of-bound : (bs : List Bool) (n : ℕ) → alive_count_of bs ≡ some n → n ≤ length bs
alive_count_of-bound [] n h = ground arith
alive_count_of-bound (b ∷ bs) n h = ground (arith, count_true-length (b ∷ bs))

listed_alive-length :
    (show : Node → String) (nodes : List (String × Option Bool)) (n : Node)
    → length (listed_alive show nodes n) ≤ length nodes
listed_alive-length show nodes (sequence ns) =
    ground (arith, named_alive-length (str_items show (items ns)) nodes)
listed_alive-length show nodes null = omega arith
listed_alive-length show nodes (scalar b) = omega arith
listed_alive-length show nodes (text s) = omega arith
listed_alive-length show nodes (mapping es) = omega arith

liveness-length :
    (show : Node → String) (flags : Dict Bool) (info : Dict Node)
    → length (liveness show flags info) ≤ length (provider_nodes show info)
unfolding liveness
liveness-length show flags info = ground (
  arith,
  known_flags-length flags (provider_nodes show info),
  listed_alive-length show (provider_nodes show info) (field_of info "alive"),
)

-- A provider never has more live nodes than nodes.
pub summary_of-bound :
    (show : Node → String) (flags : Dict Bool) (info : Dict Node) (n : ℕ)
    → (summary_of show flags info).alive_count ≡ some n
    → n ≤ (summary_of show flags info).node_count
unfolding summary_of
summary_of-bound show flags info n h =
    ground
      (arith, alive_count_of-bound (liveness show flags info) n h, liveness-length show flags info)

-- CN is healthy exactly when it is configured, and its provider has a node and a live one.
pub cn_health-ok :
    (configured : Bool) (summary : Dict Summary)
    → (cn_health configured summary ≡ ok) ↔ (
        (configured ≡ true)
        × ((info : Summary) × (get summary cn_provider ≡ some info)
            × (1 ≤ info.node_count)
            × ((n : ℕ) × (info.alive_count ≡ some n) × (1 ≤ n))))
unfolding cn_health
cn_health-ok configured summary = (
  λ h. elim (Option-cases (get summary cn_provider)) [
    | inl e ↦ absurd (ground (arith, e))
    | inr (info, e) ↦ elim (Option-cases info.alive_count) [
      | inl a ↦ absurd (ground (arith, e, a))
      | inr (n, a) ↦ (ground (arith, e), (info, e, ground (arith, e), (n, a, ground (arith, e, a))))
    ]
  ],
  λ (c, (info, e, m, (n, a, p))). ground (arith, c, e, m, a, p),
)

abbrev pub kept : Option Degraded → Degraded → Degraded
kept none stored = stored
kept (some d) stored = d

-- `changed` says whether the recorded state moved.
pub record_cn_health-changed :
    (configured : Bool) (summary : Dict Summary) (stored : Degraded)
    → let r = record_cn_health configured summary stored in
      (r.changed ≡ false) ↔ ((kept r.saved stored).cn ≡ stored.cn)
unfolding record_cn_health record_disabled record_degraded record_ok
record_cn_health-changed configured summary stored = ground arith

abbrev pub is_ok : Cn → Bool
is_ok ok = true
is_ok _ = false

-- The state that is recorded behind _record_cn_health is the one that it returns, but for a healthy
-- provider of a configured CN subscription behind a recorded DISABLED: there DISABLED stays.
pub record_cn_health-state :
    (configured : Bool) (summary : Dict Summary) (stored : Degraded)
    → (kept (record_cn_health configured summary stored).saved stored).cn ≡ (
        if is_disabled stored.cn && is_ok (cn_health configured summary)
        then disabled
        else (record_cn_health configured summary stored).state)
unfolding record_cn_health record_disabled record_degraded record_ok cn_health
record_cn_health-state configured summary stored = ground arith

-- The same summary changes nothing more.
pub record_cn_health-again :
    (configured : Bool) (summary : Dict Summary) (stored : Degraded)
    → (record_cn_health configured summary
        (kept (record_cn_health configured summary stored).saved stored)).changed
      ≡ false
unfolding record_cn_health record_disabled record_degraded record_ok
record_cn_health-again configured summary stored = ground arith

-- A plain `configure` never clears a recorded DEGRADED, while there is a CN subscription.
pub degraded_record-keeps :
    (preflight : Preflight) (existing : Degraded)
    → is_degraded existing.cn ≡ true
    → (is_reported (degraded_record true preflight existing) ≡ true)
      × ((degraded_record true preflight existing).cn_details ≡ existing.cn_details)
unfolding degraded_record is_reported
degraded_record-keeps preflight existing h = ground arith
