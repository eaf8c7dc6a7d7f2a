-- ===== src/Failover/Coerce.antt =====
-- The coercions of scripts/proxy-auto-switch.py: `as_dict`, `as_str`, `as_int`, `parse_ts`, `keep_ts`,
-- `recent_ts`. A state field can be any JSON value.
use Prim.Native.Char.{code}
use mihomo_proxy_management.Prelude.{
  ℕ, ◌+◌, String, List, [], ◌∷◌, Option, none, some, Bool, false, ◌&&◌, ◌||◌, leb, str_eq, ◌==◌,
  is_some, if◌then◌else◌,
}
use mihomo_proxy_management.Prelude.Dict.{Dict}
use mihomo_proxy_management.Json
use mihomo_proxy_management.Json.{
  ℤ, pos, Float, nan, infinity, finite, Value, null, int, float, text, list, object, to_list,
  to_dict,
}
use mihomo_proxy_management.Failover.Library.{Library, Moment, naive, aware, hours}

unfoldable pub as_dict : Value → Dict Value
unfolding to_dict
as_dict (object fs) = to_dict fs
as_dict _ = []

unfoldable pub as_str : Value → Option String
as_str (text s) = if str_eq s "" then none else some s
as_str _ = none

abbrev or_else : Option ℤ → ℤ → ℤ
or_else none d = d
or_else (some z) d = z

-- text[:-1] + "+00:00" where the text ends in Z or z
unfoldable pub replace_z : String → String
replace_z String.[] = String.[]
replace_z (String.◌∷◌ c String.[]) =
    if code c == b'Z' || code c == b'z' then "+00:00" else String.◌∷◌ c String.[]
replace_z (String.◌∷◌ c (String.◌∷◌ d s)) = String.◌∷◌ c (replace_z (String.◌∷◌ d s))

module _ (lib : Library) where
  -- `none` is the OverflowError of `int(inf)`, which nothing catches.
  unfoldable pub as_int : Value → ℤ → Option ℤ
  as_int Json.true d = some (pos 1)
  as_int Json.false d = some (pos 0)
  as_int (int z) d = some z
  as_int (float nan) d = some d
  as_int (float infinity) d = none
  as_int (float (finite z repr)) d = some z
  as_int (text s) d = some (or_else (lib.int_of (lib.strip s)) d)
  as_int _ d = some d

  abbrev local : Option Moment → Option ℕ
  local none = none
  local (some (naive t)) = some t
  local (some (aware o)) = o

  unfoldable pub parse_ts : Value → Option ℕ
  unfolding replace_z
  parse_ts (text s) =
      let stripped = lib.strip s in
      if str_eq stripped "" then none else local (lib.fromisoformat (replace_z stripped))
  parse_ts _ = none

  unfoldable pub keep_ts : Value → Option String → Option String
  unfolding as_str parse_ts
  keep_ts v fallback = elim (as_str v) [
    | none ↦ fallback
    | some original ↦ if is_some (parse_ts v) then some original else fallback
  ]

  -- 0 <= now - when <= max_age_h hours
  abbrev is_recent : ℕ → ℕ → Option ℕ → Bool
  is_recent now max_age_h none = false
  is_recent now max_age_h (some when) = leb when now && leb now (when + hours max_age_h)

  -- what parses is a text
  unfoldable pub recent_items : List Value → ℕ → ℕ → List String
  unfolding parse_ts
  recent_items [] now max_age_h = []
  recent_items (text s ∷ vs) now max_age_h =
      let rest = recent_items vs now max_age_h in
      if is_recent now max_age_h (parse_ts (text s)) then s ∷ rest else rest
  recent_items (_ ∷ vs) now max_age_h = recent_items vs now max_age_h

  unfoldable pub recent_ts : Value → ℕ → ℕ → List String
  unfolding recent_items to_list
  recent_ts (list vs) now max_age_h = recent_items (to_list vs) now max_age_h
  recent_ts _ now max_age_h = []
