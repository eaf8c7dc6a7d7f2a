-- ===== src/Failover/State/Migrate.antt =====
-- `migrate_state` on a state file of any shape: when it raises, and what it makes of a group.
use mihomo_proxy_management.Prelude.{
  ℕ, String, [], ◌∷◌, Option, none, some, Bool, true, false, ◌≡◌, ◌>>=◌, ◌&&◌, arith, is_some, refl,
}
use mihomo_proxy_management.Prelude.Dict.{Dict, get}
use mihomo_proxy_management.Json.{Value, float, infinity, at}
use mihomo_proxy_management.Failover.Library.{Library}
use mihomo_proxy_management.Failover.Region.{Group, gpt, muse, us_fast}
use mihomo_proxy_management.Failover.Coerce.{as_dict, as_str, as_int}
use mihomo_proxy_management.Failover.Decide.{GroupState}
use mihomo_proxy_management.Failover.State.{
  group_key, opt_text, count_of, migrate_old, migrate_cold, migrate_group, migrate_state,
}

abbrev pub is_finite : Value → Bool
is_finite (float infinity) = false
is_finite _ = true

-- the stored streak of a group
abbrev pub stored_streak : Dict Value → Group → Value
stored_streak raw g = at (as_dict (at (as_dict (at raw "groups")) (group_key g))) "cand_streak"

-- A block returns exactly when its first step and the rest do.
bind_returns {ℓ κ} :
    {A : Type ℓ} {B : Type κ} (m : Option A) (f : A → Option B) {b c : Bool}
    → is_some m ≡ c
    → ((a : A) → is_some (f a) ≡ b)
    → is_some (m >>= f) ≡ c && b
bind_returns none f h k = ground arith
bind_returns (some a) f h k = ground (arith, k a)

count_of-finite : (lib : Library) (v : Value) → is_some (count_of lib v) ≡ is_finite v
unfolding count_of as_int
count_of-finite lib v = ground arith

module _ (lib : Library) (raw : Dict Value) (now : ℕ) where
  old_finite :
      (g : Group) (old : Dict Value) (real : Option String)
      → is_some (elim old as (λ _. Option GroupState) [
        | [] ↦ some (migrate_cold lib raw g real now)
        | kv ∷ rest ↦ migrate_old lib (kv ∷ rest) real now
      ])
        ≡ is_finite (at old "cand_streak")
  unfolding migrate_old at get
  old_finite g [] real = refl
  old_finite g (kv ∷ rest) real = ground (arith, count_of-finite lib (at (kv ∷ rest) "cand_streak"))

  migrate_group-finite :
      (g : Group) (real : Option String)
      → is_some (migrate_group lib raw g real now) ≡ is_finite (stored_streak raw g)
  unfolding migrate_group
  migrate_group-finite g real =
      old_finite g (as_dict (at (as_dict (at raw "groups")) (group_key g))) (as_str (opt_text real))

  -- `migrate_state` returns for every JSON object, but for one that holds an infinite float in a
  -- count: there `int` raises OverflowError.
  pub migrate_state-returns :
      (group_nows : Group → Option String)
      → is_some (migrate_state lib raw group_nows now)
        ≡ is_finite (stored_streak raw gpt)
          && (is_finite (stored_streak raw muse)
              && (is_finite (stored_streak raw us_fast)
                  && (is_finite (at raw "alive_us")
                      && (is_finite (at raw "alive_sg")
                          && (is_finite (at raw "alive_any")
                              && is_finite (at raw "all_dead_streak"))))))
  unfolding migrate_state
  migrate_state-returns nows = bind_returns _ _ (migrate_group-finite gpt (nows gpt)) λ _.
      bind_returns _ _ (migrate_group-finite muse (nows muse)) λ _.
        bind_returns _ _ (migrate_group-finite us_fast (nows us_fast)) λ _.
          bind_returns _ _ (count_of-finite lib (at raw "alive_us")) λ _.
            bind_returns _ _ (count_of-finite lib (at raw "alive_sg")) λ _.
              bind_returns _ _ (count_of-finite lib (at raw "alive_any"))
                λ _. ground (arith, count_of-finite lib (at raw "all_dead_streak"))
