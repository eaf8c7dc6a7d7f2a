-- ===== src/Failover/Round/Restart.antt =====
-- A state that a run of scripts/proxy-auto-switch.py saves, as the next run reads it back.
use mihomo_proxy_management.Prelude.{
  ℕ, String, Option, none, some, Bool, true, false, ◌≡◌, arith, refl, str_eq, ◌≢◌, subst, sym, ap,
  ◌∙◌, ◌>>=◌, if◌then◌else◌,
}
use mihomo_proxy_management.Prelude.Dict.{Dict}
use mihomo_proxy_management.Json.{Value, at}
use mihomo_proxy_management.Failover.Library.{Library}
use mihomo_proxy_management.Failover.Region.{Group, gpt, muse, us_fast}
use mihomo_proxy_management.Failover.Coerce.{as_dict, recent_ts}
use mihomo_proxy_management.Failover.Decide.{GroupState}
use mihomo_proxy_management.Failover.State.{
  texts, count_of, migrate_group, State, migrate_state, advance_group_state,
}
use mihomo_proxy_management.Failover.Plan.{Proxy}
use mihomo_proxy_management.Failover.Nodes.{update_nodes}
use mihomo_proxy_management.Failover.State.Advance.{IsLawful}
use mihomo_proxy_management.Failover.Round.{
  group_now, legacy, Args, World, Report, done, Decided, decide_round, decided_of, probe_round,
  history_after, finish, run_main, load_state,
}
use mihomo_proxy_management.Failover.Round.Puts.{main_thresholds, thresholds_report}
use mihomo_proxy_management.Failover.Round.Debounce.{file_of, load_state-file}
use mihomo_proxy_management.Failover.Round.Payload.{History, Saved, payload}
use mihomo_proxy_management.Failover.Round.Readable.{
  IsReadable, migrate_group-IsReadable, advance-IsReadable,
}
use mihomo_proxy_management.Failover.Round.Codec.{migrate_group-payload}

module _ (lib : Library) where
  -- what a block that returns has met
  bind-some :
      {A B C : Type 0} (o : Option A) {f : A → Option B} {b : B}
      → (o >>= f) ≡ some b
      → ((a : A) → o ≡ some a → f a ≡ some b → C)
      → C
  bind-some none h k = absurd (ground arith)
  bind-some (some a) h k = k a refl h

  abbrev groups_in : Option State → (Group → GroupState) → Group → GroupState
  groups_in none f = f
  groups_in (some state) f = state.groups

  by_cases :
      (f : Group → Option GroupState) (picks : Group → GroupState)
      → f gpt ≡ some (picks gpt)
      → f muse ≡ some (picks muse)
      → f us_fast ≡ some (picks us_fast)
      → (g : Group) → f g ≡ some (picks g)
  by_cases f picks a b c gpt = a
  by_cases f picks a b c muse = b
  by_cases f picks a b c us_fast = c

  -- A state of `migrate_state` is one of `migrate_group` for each group.
  migrate_state-group :
      (raw : Dict Value) (nows : Group → Option String) (now : ℕ) (state : State) (g : Group)
      → migrate_state lib raw nows now ≡ some state
      → migrate_group lib raw g (nows g) now ≡ some (state.groups g)
  unfolding migrate_state
  migrate_state-group raw nows now state g h =
      bind-some (migrate_group lib raw gpt (nows gpt) now) h λ a ea h.
        bind-some (migrate_group lib raw muse (nows muse) now) h λ b eb h.
          bind-some (migrate_group lib raw us_fast (nows us_fast) now) h λ c ec h.
            bind-some (count_of lib (at raw "alive_us")) h λ us _ h.
              bind-some (count_of lib (at raw "alive_sg")) h λ sg _ h.
                bind-some (count_of lib (at raw "alive_any")) h λ any _ h.
                  bind-some (count_of lib (at raw "all_dead_streak")) h λ streak _ h.
                    by_cases (λ g. migrate_group lib raw g (nows g) now) state.groups
                      (ea ∙ ap (λ o. some (groups_in o state.groups gpt)) h)
                      (eb ∙ ap (λ o. some (groups_in o state.groups muse)) h)
                      (ec ∙ ap (λ o. some (groups_in o state.groups us_fast)) h) g

  kept_history :
      (dry : Bool) (saved s : Saved)
      → (if dry then none else some saved) ≡ some s
      → saved.history ≡ s.history
  kept_history true saved s h = absurd (ground arith)
  kept_history false saved s h = ground arith

  module _ (args : Args) (w : World) (proxies : Dict Proxy) where
    abbrev decided_groups : Option Decided → (Group → GroupState) → Group → GroupState
    decided_groups none f = f
    decided_groups (some d) f = d.groups

    decided-IsReadable :
        (d : Decided) (g : Group)
        → IsLawful lib
        → decide_round lib args w proxies (probe_round args w proxies) ≡ some d
        → IsReadable lib (d.groups g)
    unfolding decide_round decided_of
    decided-IsReadable d g lawful h =
        let nows = group_now proxies in
        let prev = load_state w.stored in
        let probe = probe_round args w proxies in
        bind-some (update_nodes lib (as_dict (at prev "nodes")) probe (lib.isoformat w.now) w.now) h
          λ nodes _ h. bind-some (migrate_state lib prev nows w.now) h λ state e h.
            subst (λ o. IsReadable lib (decided_groups o d.groups g)) h
              (migrate_group-IsReadable lib lawful (load_state w.stored) g (group_now proxies g)
                w.now (state.groups g)
                (migrate_state-group (load_state w.stored) (group_now proxies) w.now state g e))

    abbrev AdvancesFrom : Decided → Report → Type 0
    AdvancesFrom d r =
        (s : Saved)
        → r.saved ≡ some s
        → (h : History) × (s.history ≡ some h)
          × ((g : Group)
              → (proposed : Option String) × (reason : Option String) × (h.groups g
                  ≡ advance_group_state lib (d.groups g) (r.nows g) w.now proposed reason))

    finish_advances :
        (d : Decided) (streak : ℕ) (chosen : Group → Option String)
        → AdvancesFrom d
            (finish lib args w proxies (probe_round args w proxies) streak (some d) chosen)
    unfolding finish history_after
    finish_advances d streak chosen s h =
        (_, sym (kept_history args.dry_run _ s h), λ g. (_, _, refl))

  -- What a run in shadow or hysteresis mode saves of a group, where the controller runs a named node at its end,
  -- the next run reads back from the state file as it was saved, but for the switches that are a day old by then,
  -- while the controller runs the same node. The time codec is that of IsLawful.
  pub run_main-migrate_group :
      (args : Args) (w : World) (proxies : Dict Proxy) (r : Report) (s : Saved) (g : Group)
      (n : String) (later : ℕ)
      → IsLawful lib
      → w.proxies ≡ some proxies
      → args.decision_mode ≢ legacy
      → run_main lib args w ≡ done r
      → r.saved ≡ some s
      → r.nows g ≡ some n
      → str_eq n "" ≡ false
      → (h : History) × (s.history ≡ some h)
        × (migrate_group lib (load_state (some (file_of s))) g (some n) later
            ≡ some (record (h.groups g) {
              switch_ts_24h = recent_ts lib (texts (h.groups g).switch_ts_24h) later 24;
            }))
  run_main-migrate_group args w proxies r s g n later lawful p m h saved now e =
      let (d, decided, report) =
        thresholds_report lib args w proxies r (main_thresholds lib args w proxies r h p m) in
      let (history, kept, advanced) =
        subst (AdvancesFrom args w proxies d) report (finish_advances args w proxies d d.streak _) s
          saved in
      let (proposed, reason, q) = advanced g in
      let (readable, runs) =
        advance-IsReadable lib lawful (d.groups g) n w.now proposed reason
          (decided-IsReadable args w proxies d g lawful decided) e in
      let step : history.groups g
          ≡ advance_group_state lib (d.groups g) (some n) w.now proposed reason =
        q ∙ ap (λ o. advance_group_state lib (d.groups g) o w.now proposed reason) now in
      let running : (history.groups g).current ≡ some n =
        ap (λ (gs : GroupState). gs.current) step ∙ runs in
      (
        history,
        kept,
        ap (λ file. migrate_group lib file g (some n) later) (load_state-file s)
            ∙ ap (λ c. migrate_group lib (payload s) g c later) (sym running)
            ∙ migrate_group-payload lib s history g later kept
                (subst (IsReadable lib) (sym step) readable) (n, running),
      )
