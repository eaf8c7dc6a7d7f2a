-- ===== src/Tests/Hosts.antt =====
-- The Linux manager on a supported host, with a CN provider, and its unit at work.
use mihomo_proxy_management.Prelude.{
  ℕ, zero, suc, ◌+◌, ◌≤◌, String, List, [], ◌∷◌, some, Bool, true, false, not, ◌&&◌, ◌≡◌, ◌↔◌, refl,
  contains, if◌then◌else◌,
}
use mihomo_proxy_management.Prelude.Dict.{Dict, get}
use mihomo_proxy_management.Document.{
  is_true, Node, scalar, text, sequence, mapping, nil, cons, end, entry, items, entries, field_of,
}
use mihomo_proxy_management.Manager.Preflight.{
  Texts, HostFacts, tun, supported_arches, is_supported_distro, is_empty, arch_of, distro_of,
  version_of, host_reasons, release_reasons, reasons_of, evaluate, preflight,
}
use mihomo_proxy_management.Manager.Preflight.Laws.{evaluate-supported}
use mihomo_proxy_management.Manager.Health.{
  Summary, Degraded, named_nodes, provider_nodes, known_flags, liveness, count_true, summary_of,
  cn_health, cn_provider, record_cn_health, degraded_record, is_reported, is_degraded, is_disabled,
}
use mihomo_proxy_management.Manager.Health
use mihomo_proxy_management.Manager.Health.Laws.{
  summary_of-bound, cn_health-ok, record_cn_health-state, kept, is_ok,
}
use mihomo_proxy_management.Manager.Service.{
  Host, done, failed, Failure, ok, wait_for, blockers, answers, ready, status_or, obstacle, started,
  start, stop, restart, unit_name,
}
use mihomo_proxy_management.Manager.Service.Laws.{starts, start-held, restart-order, start-ready}

abbrev plain : Texts
plain = record { strip = λ s. s; strip_quotes = λ s. s; lower = λ s. s }

abbrev facts : HostFacts
facts = record {
  id_like = ("ID", "debian") ∷ ("VERSION_ID", "12") ∷ [];
  machine = "x86_64";
  has_tun_device = true;
  tun_writable = false;
  avx2 = true;
  is_root = true;
  has_systemd = true;
  inside_container = false;
}

evaluate-supported_example :
    (evaluate plain facts).supported
    ≡ (contains supported_arches (arch_of plain facts) && (facts.has_systemd && facts.is_root))
      && ((not (is_empty (distro_of plain facts)) && not (is_empty (version_of plain facts)))
          && is_supported_distro (distro_of plain facts) (version_of plain facts))
evaluate-supported_example = evaluate-supported plain facts

passes : preflight plain facts true ≡ some (evaluate plain facts)
unfolding preflight evaluate reasons_of host_reasons release_reasons contains distro_of version_of
    get
passes = refl

-- a provider with two nodes, one of them alive
abbrev node_object : String → Bool → Node
node_object name alive = mapping (entry "name" (text name) (entry "alive" (scalar alive) end))

abbrev provider : Dict Node
provider = ("all", sequence (cons (node_object "n1" true) (cons (node_object "n2" false) nil))) ∷ []

abbrev show : Node → String
show n = "?"

one_alive : (summary_of show [] provider).alive_count ≡ some 1
unfolding summary_of liveness known_flags provider_nodes named_nodes field_of get items entries
    is_true count_true
one_alive = refl

summary_of-bound_example : 1 ≤ (summary_of show [] provider).node_count
summary_of-bound_example = summary_of-bound show [] provider 1 one_alive

abbrev pub summary : Dict Summary
summary = (cn_provider, record { node_count = 2; alive_count = some 1 }) ∷ []

abbrev pub was_degraded : Degraded
was_degraded = record {
  active = false;
  mode = tun;
  reasons = [];
  cn = Health.degraded;
  cn_details = Health.explained Health.no_live_nodes ∷ [];
}

cn_health-ok_example : (cn_health true summary ≡ Health.ok) ↔ (
    (true ≡ true)
    × ((info : Summary) × (get summary cn_provider ≡ some info)
        × (1 ≤ info.node_count)
        × ((n : ℕ) × (info.alive_count ≡ some n) × (1 ≤ n))))
cn_health-ok_example = cn_health-ok true summary

record_cn_health-state_example :
    (kept (record_cn_health true summary was_degraded).saved was_degraded).cn ≡ (
      if is_disabled was_degraded.cn && is_ok (cn_health true summary)
      then Health.disabled
      else (record_cn_health true summary was_degraded).state)
record_cn_health-state_example = record_cn_health-state true summary was_degraded

-- The unit is active from a poll on.
abbrev host_from : (ℕ → Bool) → List (ℕ × String) → Host
host_from polls occupants = record {
  polls = polls;
  unit_installed = true;
  config_present = true;
  config_mode_ok = true;
  occupants = occupants;
  start_ok = true;
  stop_ok = true;
  has_secret = true;
  versions = λ i. true;
  degraded = some (record was_degraded { cn = Health.ok; cn_details = [] });
}

abbrev third_on : ℕ → Bool
third_on (suc (suc n)) = true
third_on _ = false

abbrev coming_up : Host
coming_up = host_from third_on []

-- active, then stopped, then active again
abbrev cycled : ℕ → Bool
cycled (suc zero) = false
cycled (suc (suc zero)) = false
cycled _ = true

abbrev cycling : Host
cycling = host_from cycled ((7890, unit_name) ∷ [])

abbrev held : Host
held = host_from third_on ((7890, "sshd.service") ∷ [])

operations : ((start coming_up 0).result ≡ done ok) × (starts (restart cycling 0).actions ≡ true)
unfolding start started obstacle blockers wait_for ready answers status_or is_reported stop restart
operations = (refl, refl)

start-held_example :
    ((start held 0).actions ≡ []) × ((f : Failure) × ((start held 0).result ≡ failed f))
start-held_example = start-held held 0 refl refl

start-ready_example :
    (starts (start coming_up 0).actions ≡ true)
    × ((k : ℕ) × (k ≤ 40) × (coming_up.polls (0 + 1 + k) ≡ true))
    × (answers coming_up.versions 20 0 ≡ true)
start-ready_example = start-ready coming_up 0 ok refl operations.0

restart-order_example : (k : ℕ) × (k ≤ 21) × (cycling.polls (0 + k) ≡ false)
restart-order_example = restart-order cycling 0 operations.1
