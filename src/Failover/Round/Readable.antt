-- ===== src/Failover/Round/Readable.antt =====
-- The state of a group that a run of scripts/proxy-auto-switch.py makes from any stored JSON can be read back.
use mihomo_proxy_management.Prelude.{
  ℕ, String, List, [], ◌∷◌, Option, none, some, Bool, true, false, not, ◌&&◌, ◌≡◌, arith, refl,
  str_eq, eq_iff, is_some, subst, ◌⊎◌, inl, inr, Option-cases,
}
use mihomo_proxy_management.Prelude.Dict.{Dict}
use mihomo_proxy_management.Json.{Value, text, at}
use mihomo_proxy_management.Failover.Library.{Library}
use mihomo_proxy_management.Failover.Region.{Group}
use mihomo_proxy_management.Failover.Coerce.{as_dict, as_str, parse_ts, keep_ts}
use mihomo_proxy_management.Failover.Decide.{GroupState, next_candidate_state}
use mihomo_proxy_management.Failover.State.{
  opt_text, or_text, first_of_two, same_opt, count_of, group_key, migrate_old, migrate_cold,
  migrate_group, advance_group_state,
}
use mihomo_proxy_management.Failover.State.Advance.{IsLawful}

abbrev pub is_name : Option String → Bool
is_name none = true
is_name (some s) = not (str_eq s "")

first_of_two-is_name :
    (o p : Option String) → is_name o ≡ true → is_name p ≡ true → is_name (first_of_two o p) ≡ true
first_of_two-is_name none p h k = k
first_of_two-is_name (some s) p h k = h

as_str-is_name : (v : Value) → is_name (as_str v) ≡ true
unfolding as_str
as_str-is_name (text s) = ground arith
as_str-is_name _ = refl

List-cases {ℓ} : {A : Type ℓ} (xs : List A) → (xs ≡ []) ⊎ ((x : A) × (ys : List A) × (xs ≡ x ∷ ys))
List-cases [] = inl refl
List-cases (x ∷ ys) = inr (x, ys, refl)

same_opt-eq : (o : Option String) (n : String) → same_opt o (some n) ≡ true → o ≡ some n
same_opt-eq none n h = absurd (ground arith)
same_opt-eq (some s) n h = ground (arith, eq_iff s n)

next_candidate_state-is_name :
    (gs : GroupState) (p : Option String)
    → is_name p ≡ true
    → is_name (next_candidate_state gs p).0 ≡ true
unfolding next_candidate_state
next_candidate_state-is_name gs none h = refl
next_candidate_state-is_name gs (some p) h = ground arith

module _ (lib : Library) where
  abbrev pub is_stamp : Option String → Bool
  is_stamp none = true
  is_stamp (some s) = not (str_eq s "") && is_some (parse_ts lib (text s))

  -- Names are not empty, and time stamps parse.
  pub record IsReadable (gs : GroupState) : Type 0 where
    pub current : is_name gs.current ≡ true
    pub since : is_stamp (some gs.since) ≡ true
    pub cand : is_name gs.cand ≡ true
    pub last_switch_ts : is_stamp gs.last_switch_ts ≡ true
    pub last_switch_reason : is_name gs.last_switch_reason ≡ true

  keep_ts-is_stamp : (v : Value) → is_stamp (keep_ts lib v none) ≡ true
  unfolding keep_ts as_str
  keep_ts-is_stamp (text s) = ground arith
  keep_ts-is_stamp _ = refl

  module _ (lawful : IsLawful lib) where
    isoformat-is_stamp : (t : ℕ) → is_stamp (some (lib.isoformat t)) ≡ true
    isoformat-is_stamp t = ground (arith, lawful.nonempty t, lawful.read_back t)

    or_now-is_stamp :
        (o : Option String) (t : ℕ)
        → is_stamp o ≡ true
        → is_stamp (some (or_text o (lib.isoformat t))) ≡ true
    or_now-is_stamp none t h = isoformat-is_stamp t
    or_now-is_stamp (some s) t h = h

    migrate_cold-IsReadable :
        (raw : Dict Value) (g : Group) (real : Option String) (now : ℕ)
        → is_name real ≡ true
        → IsReadable (migrate_cold lib raw g real now)
    unfolding migrate_cold
    migrate_cold-IsReadable raw g real now h = record {
      current =
          first_of_two-is_name (as_str (at (as_dict (at raw "selected")) (group_key g))) real
            (as_str-is_name (at (as_dict (at raw "selected")) (group_key g))) h;
      since =
          or_now-is_stamp (keep_ts lib (at raw "updated") none) now
            (keep_ts-is_stamp (at raw "updated"));
      cand = refl;
      last_switch_ts = refl;
      last_switch_reason = refl;
    }

    migrate_old-IsReadable :
        (old : Dict Value) (real : Option String) (now : ℕ) (gs : GroupState)
        → is_name real ≡ true
        → migrate_old lib old real now ≡ some gs
        → IsReadable gs
    unfolding migrate_old
    migrate_old-IsReadable old real now gs h q =
        elim (Option-cases (count_of lib (at old "cand_streak"))) [
          | inl e ↦ absurd (ground arith)
          | inr (streak, e) ↦
              let since =
                or_now-is_stamp (keep_ts lib (at old "since") none) now
                  (keep_ts-is_stamp (at old "since")) in
              record {
                current = ground (arith, as_str-is_name (at old "current"));
                since = ground (arith, since, isoformat-is_stamp now);
                cand = ground (arith, as_str-is_name (at old "cand"));
                last_switch_ts = ground (arith, keep_ts-is_stamp (at old "last_switch_ts"));
                last_switch_reason = ground (arith, as_str-is_name (at old "last_switch_reason"));
              }
        ]

    pub migrate_group-IsReadable :
        (raw : Dict Value) (g : Group) (now_of_group : Option String) (now : ℕ) (gs : GroupState)
        → migrate_group lib raw g now_of_group now ≡ some gs
        → IsReadable gs
    unfolding migrate_group
    migrate_group-IsReadable raw g now_of_group now gs q =
        let named = as_str-is_name (opt_text now_of_group) in
        elim (List-cases (as_dict (at (as_dict (at raw "groups")) (group_key g)))) [
          | inl e ↦
              subst IsReadable (ground arith)
                (migrate_cold-IsReadable raw g (as_str (opt_text now_of_group)) now named)
          | inr (kv, rest, e) ↦
              migrate_old-IsReadable (kv ∷ rest) (as_str (opt_text now_of_group)) now gs named
                (ground arith)
        ]

    -- A round makes it readable again, where the controller runs a node.
    pub advance-IsReadable :
        (gs : GroupState) (n : String) (now : ℕ) (proposed reason : Option String)
        → IsReadable gs
        → str_eq n "" ≡ false
        → IsReadable (advance_group_state lib gs (some n) now proposed reason)
          × ((advance_group_state lib gs (some n) now proposed reason).current ≡ some n)
    unfolding advance_group_state
    advance-IsReadable gs n now proposed reason r h = (
      record {
        current = ground (arith, r.current);
        since = ground (arith, r.since, isoformat-is_stamp now);
        cand = ground (arith, next_candidate_state-is_name gs proposed);
        last_switch_ts = ground (arith, r.last_switch_ts, isoformat-is_stamp now);
        last_switch_reason = ground (arith, r.last_switch_reason);
      },
      ground (arith, same_opt-eq gs.current n),
    )
