-- ===== src/Failover/Round/Codec.antt =====
-- A group of a state that scripts/proxy-auto-switch.py saves, as `migrate_group` reads it back.
use mihomo_proxy_management.Prelude.{
  ℕ, String, Option, none, some, true, false, ◌≡◌, arith, refl, eq_refl,
}
use mihomo_proxy_management.Prelude.Dict.{Dict, get}
use mihomo_proxy_management.Json.{Value, of_dict, at, to_dict}
use mihomo_proxy_management.Failover.Library.{Library}
use mihomo_proxy_management.Failover.Region.{Group, gpt, muse, us_fast}
use mihomo_proxy_management.Failover.Coerce.{as_dict, as_str, as_int, keep_ts, recent_ts}
use mihomo_proxy_management.Failover.Decide.{GroupState}
use mihomo_proxy_management.Failover.State.{
  opt_text, texts, is_stale, count_of, migrate_old, migrate_group,
}
use mihomo_proxy_management.Failover.Round.Payload.{
  History, Saved, payload, group_object, by_groups, history_entries,
}
use mihomo_proxy_management.Failover.Round.Readable.{is_stamp, is_name, IsReadable}

module _ (lib : Library) where
  as_str-opt_text : (o : Option String) → is_name o ≡ true → as_str (opt_text o) ≡ o
  unfolding as_str
  as_str-opt_text none h = refl
  as_str-opt_text (some s) h = ground arith

  keep_ts-opt_text : (o : Option String) → is_stamp lib o ≡ true → keep_ts lib (opt_text o) none ≡ o
  unfolding keep_ts as_str
  keep_ts-opt_text none h = refl
  keep_ts-opt_text (some s) h = ground arith

  not_stale : (o : Option String) → (n : String) × (o ≡ some n) → is_stale lib o o ≡ false
  not_stale none r = cc r.1
  not_stale (some n) r = ground (arith, eq_refl n)

  abbrev stored : GroupState → Dict Value
  stored gs = as_dict (group_object gs)

  -- The group is read back as it was saved, but for the switches that are a day old by then, while
  -- the controller runs the saved node.
  migrate_old-group_object :
      (gs : GroupState) (now : ℕ)
      → IsReadable lib gs
      → (n : String) × (gs.current ≡ some n)
      → migrate_old lib (stored gs) gs.current now
        ≡ some (record gs { switch_ts_24h = recent_ts lib (texts gs.switch_ts_24h) now 24 })
  unfolding migrate_old group_object as_dict at get to_dict of_dict count_of as_int
  migrate_old-group_object gs now h runs = ground (
    arith,
    h.current,
    h.since,
    h.cand,
    h.last_switch_ts,
    h.last_switch_reason,
    as_str-opt_text gs.current,
    keep_ts-opt_text (some gs.since),
    as_str-opt_text gs.cand,
    keep_ts-opt_text gs.last_switch_ts,
    as_str-opt_text gs.last_switch_reason,
    not_stale gs.current runs,
  )

  -- A readable group of a saved state is read back as it was saved, but for the switches that are a
  -- day old by then, while the controller runs the saved node.
  pub migrate_group-payload :
      (s : Saved) (h : History) (g : Group) (now : ℕ)
      → s.history ≡ some h
      → IsReadable lib (h.groups g)
      → (n : String) × ((h.groups g).current ≡ some n)
      → migrate_group lib (payload s) g (h.groups g).current now
        ≡ some (record (h.groups g) {
          switch_ts_24h = recent_ts lib (texts (h.groups g).switch_ts_24h) now 24;
        })
  unfolding migrate_group payload history_entries by_groups group_object as_dict at get to_dict
      of_dict
  migrate_group-payload s h gpt now e r runs = ground (
    arith,
    e,
    as_str-opt_text (h.groups gpt).current r.current,
    migrate_old-group_object (h.groups gpt) now r runs,
  )
  migrate_group-payload s h muse now e r runs = ground (
    arith,
    e,
    as_str-opt_text (h.groups muse).current r.current,
    migrate_old-group_object (h.groups muse) now r runs,
  )
  migrate_group-payload s h us_fast now e r runs = ground (
    arith,
    e,
    as_str-opt_text (h.groups us_fast).current r.current,
    migrate_old-group_object (h.groups us_fast) now r runs,
  )
