-- ===== src/Failover/State/Advance.antt =====
-- `advance_group_state` over the rounds: the streak of a candidate, the history, and the dwell.
use mihomo_proxy_management.Prelude.{
  ℕ, suc, ◌+◌, ◌-◌, ◌*◌, ◌/◌, ◌≤◌, String, List, [], ◌∷◌, Option, none, some, true, false, ◌≡◌, ◌≢◌,
  arith, str_eq, eq_iff, eq_refl, ap, length, length-take_last, ◌++◌, refl, ◌∙◌, Option-cases, inl,
  inr,
}
use mihomo_proxy_management.Prelude.Dict.{Dict}
use mihomo_proxy_management.Json.{text}
use mihomo_proxy_management.Failover.Library.{Library, microseconds, minute}
use mihomo_proxy_management.Failover.Coerce.{parse_ts, recent_ts}
use mihomo_proxy_management.Failover.Region.{Group}
use mihomo_proxy_management.Failover.Samples.{SwitchParams, NodeStat}
use mihomo_proxy_management.Failover.Decide.{
  GroupState, next_candidate_state, dwell_minutes, decide_group, switch_margin,
}
use mihomo_proxy_management.Failover.Decide.Gates.{decide_group-IsEarned}
use mihomo_proxy_management.Failover.State.{advance_group_state, same_opt, texts}

-- What is used of `isoformat(timespec="seconds")`: it never returns "", and `parse_ts` reads the time
-- back, cut to the second.
pub record IsLawful (lib : Library) : Type 0 where
  pub nonempty : (t : ℕ) → str_eq (lib.isoformat t) "" ≡ false
  pub read_back :
      (t : ℕ) → parse_ts lib (text (lib.isoformat t)) ≡ some (t / microseconds * microseconds)

same_opt_refl : (o : Option String) → same_opt o o ≡ true
same_opt_refl none = refl
same_opt_refl (some s) = eq_refl s

same_candidate :
    (gs : GroupState) (p : String)
    → gs.cand ≡ some p
    → (next_candidate_state gs (some p)).1 ≡ gs.cand_streak + 1
unfolding next_candidate_state
same_candidate gs p h = ground (arith, eq_refl p)

new_candidate :
    (gs : GroupState) (p : String) → gs.cand ≢ some p → (next_candidate_state gs (some p)).1 ≡ 1
unfolding next_candidate_state
new_candidate gs p h = elim (Option-cases gs.cand) [
  | inl e ↦ rw e
  | inr (c, e) ↦ ground (arith, eq_iff c p, h)
]

module _ (lib : Library) where
  -- Rounds in which the controller keeps running the same node: (time, proposed candidate).
  unfoldable pub settled_rounds : GroupState → List (ℕ × Option String) → GroupState
  settled_rounds gs [] = gs
  settled_rounds gs ((now, proposed) ∷ rounds) =
      settled_rounds (advance_group_state lib gs gs.current now proposed none) rounds

  -- The history of switches never holds more than 20 entries.
  pub advance-history :
      (gs : GroupState) (real : Option String) (now : ℕ) (proposed reason : Option String)
      → length gs.switch_ts_24h ≤ 20
      → length (advance_group_state lib gs real now proposed reason).switch_ts_24h ≤ 20
  unfolding advance_group_state next_candidate_state
  advance-history gs real now proposed reason h = ground (
    arith,
    length-take_last 20 (recent_ts lib (texts gs.switch_ts_24h) now 24 ++ lib.isoformat now ∷ []),
  )

  advance_same :
      (gs : GroupState) (now : ℕ) (p : String)
      → str_eq p "" ≡ false
      → let gs' = advance_group_state lib gs gs.current now (some p) none in
        (gs'.current ≡ gs.current)
        × (gs'.cand ≡ some p)
        × (gs'.cand_streak ≡ (next_candidate_state gs (some p)).1)
  unfolding advance_group_state next_candidate_state
  advance_same gs now p h = ground (arith, same_opt_refl gs.current)

  abbrev pub proposing : String → List ℕ → List (ℕ × Option String)
  proposing p [] = []
  proposing p (t ∷ ts) = (t, some p) ∷ proposing p ts

  streak_continues :
      (gs : GroupState) (p : String) (times : List ℕ)
      → str_eq p "" ≡ false
      → gs.cand ≡ some p
      → (settled_rounds gs (proposing p times)).cand_streak ≡ gs.cand_streak + length times
  unfolding settled_rounds
  streak_continues gs p [] h c = omega arith
  streak_continues gs p (t ∷ ts) h c =
      let step = advance_same gs t p h in
      ground (
        arith,
        step,
        same_candidate gs p c,
        streak_continues (advance_group_state lib gs gs.current t (some p) none) p ts h step.1,
      )

  -- A candidate that is proposed in n + 1 rounds in a row has the streak n + 1, whichever candidate
  -- there was before; the node of the group does not change in these rounds.
  pub settled_rounds-streak :
      (gs : GroupState) (p : String) (time : ℕ) (times : List ℕ)
      → str_eq p "" ≡ false
      → gs.cand ≢ some p
      → (settled_rounds gs (proposing p (time ∷ times))).cand_streak ≡ suc (length times)
  unfolding settled_rounds
  settled_rounds-streak gs p time times h c =
      let step = advance_same gs time p h in
      ground (
        arith,
        step,
        new_candidate gs p c,
        streak_continues (advance_group_state lib gs gs.current time (some p) none) p times h
            step.1,
      )

  advance-since :
      (gs : GroupState) (now : ℕ) (p : Option String)
      → str_eq gs.since "" ≡ false
      → let gs' = advance_group_state lib gs gs.current now p none in
        (gs'.since ≡ gs.since) × (gs'.current ≡ gs.current)
  unfolding advance_group_state
  advance-since gs now p h = ground (arith, same_opt_refl gs.current)

  advance-changed :
      (gs : GroupState) (real : Option String) (now : ℕ) (p why : Option String)
      → same_opt gs.current real ≡ false
      → (advance_group_state lib gs real now p why).since ≡ lib.isoformat now
  unfolding advance_group_state
  advance-changed gs real now p why h = ground arith

  -- The rounds keep the node and the time since when the group runs on it.
  settled_rounds-since :
      (gs : GroupState) (rounds : List (ℕ × Option String))
      → str_eq gs.since "" ≡ false
      → ((settled_rounds gs rounds).since ≡ gs.since)
        × ((settled_rounds gs rounds).current ≡ gs.current)
  unfolding settled_rounds
  settled_rounds-since gs [] h = (refl, refl)
  settled_rounds-since gs ((t, p) ∷ rounds) h =
      let step = advance-since gs t p h in
      ground
        (arith, step, settled_rounds-since (advance_group_state lib gs gs.current t p none) rounds)

  dwell_of_since :
      (gs : GroupState) (now changed : ℕ)
      → IsLawful lib
      → gs.since ≡ lib.isoformat changed
      → dwell_minutes lib gs now ≡ some ((now - changed / microseconds * microseconds) / minute)
  unfolding dwell_minutes
  dwell_of_since gs now changed lawful e = rw e (rw (lawful.read_back changed))

  -- After a change of a group's node at one time, and any number of rounds without another change, a
  -- switch for speed alone comes at least `min_dwell_min` minutes later (the change counted from its
  -- full second).
  pub no_early_margin_switch :
      (before gs : GroupState) (real : Option String) (changed : ℕ) (why : Option String)
      (rounds : List (ℕ × Option String)) (group : Group) (current : Option String)
      (members : List String) (node_stats : Dict NodeStat) (now : ℕ) (params : SwitchParams)
      (t : String)
      → IsLawful lib
      → same_opt before.current real ≡ false
      → gs ≡ settled_rounds (advance_group_state lib before real changed none why) rounds
      → (decide_group lib group current members node_stats gs now params).target ≡ some t
      → (decide_group lib group current members node_stats gs now params).reason ≡ switch_margin
      → params.min_dwell_min * minute ≤ now - changed / microseconds * microseconds
  no_early_margin_switch before gs real changed why rounds group current members node_stats now
        params t lawful d e h r =
      let moved = advance_group_state lib before real changed none why in
      let dated = advance-changed before real changed none why d in
      let kept = settled_rounds-since moved rounds (rw dated (lawful.nonempty changed)) in
      let since : gs.since ≡ lib.isoformat changed = ap (λ x. x.since) e ∙ kept.0 ∙ dated in
      let (dwell, known, enough) =
        (decide_group-IsEarned lib group current members node_stats gs now params t h r).dwelt in
      ground (arith, known, enough, dwell_of_since gs now changed lawful since)
