-- ===== src/Failover/Round/Alert.antt =====
-- The alert of a run of scripts/proxy-auto-switch.py: when it is due, and what is remembered of it.
use mihomo_proxy_management.Prelude.{
  ℕ, ◌+◌, String, Bool, false, not, ◌&&◌, ◌||◌, ltb, str_eq, if◌then◌else◌,
}
use mihomo_proxy_management.Json.{Value, text}
use mihomo_proxy_management.Failover.Plan.{Mode, mode_a, mode_b, mode_c}

abbrev pub mode_text : Mode → String
mode_text mode_a = "A"
mode_text mode_b = "B"
mode_text mode_c = "C"

-- v == s, for a stored value
abbrev pub equals : Value → String → Bool
equals (text t) s = str_eq t s
equals _ s = false

unfoldable pub should_alert : Mode → Value → Value → Bool
should_alert mode_a prev_mode prev_alerted =
    (equals prev_mode "B" || equals prev_mode "C") && not (equals prev_alerted "A_recovered")
should_alert mode_b prev_mode prev_alerted = not (equals prev_alerted "B")
should_alert mode_c prev_mode prev_alerted = not (equals prev_alerted "C")

-- the streak of rounds without a node, which legacy leaves alone
unfoldable pub all_dead_after : Bool → Bool → ℕ → ℕ
all_dead_after legacy none_alive streak =
    if legacy then streak else if none_alive then streak + 1 else 0

-- hysteresis keeps quiet about the first such round
unfoldable pub is_suppressed : Bool → Bool → ℕ → Bool
is_suppressed hysteresis none_alive streak = hysteresis && (none_alive && ltb streak 2)

abbrev alerted_text : Mode → Value
alerted_text mode_a = text "A_recovered"
alerted_text mode_b = text "B"
alerted_text mode_c = text "C"

unfoldable pub alerted_after : Bool → Mode → Value → Value
alerted_after alert mode prev_alerted = if alert then alerted_text mode else prev_alerted
