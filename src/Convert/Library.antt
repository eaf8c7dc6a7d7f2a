-- ===== src/Convert/Library.antt =====
-- What scripts/convert_sub.py takes from Python: `str`, `int`, `urllib.parse`, `base64`, `json` and `yaml`.
use mihomo_proxy_management.Prelude.{ℕ, String, List, Bool, Option}
use mihomo_proxy_management.Prelude.Dict.{Dict}
use mihomo_proxy_management.Json.{ℤ, Value}

pub record Library : Type 0 where
  pub strip : String → String
  pub lstrip : String → String
  -- "".join(s.split())
  pub compact : String → String
  pub lower : String → String
  -- str of a number that is not negative
  pub show : ℕ → String
  -- int of a text; `none` is a ValueError
  pub int_of : String → Option ℤ
  pub unquote : String → String
  -- parse_qs with keep_blank_values
  pub parse_qs : String → Dict (List String)
  -- base64.b64decode and base64.urlsafe_b64decode, then utf-8; `none` where either raises
  pub b64_text : String → Option String
  pub urlsafe_b64_text : String → Option String
  -- json.dumps with sorted keys and allow_nan=False; `none` where it raises
  pub dumps : Dict Value → Option String
  -- json.loads of a text that starts with a brace; `none` where it raises
  pub loads : String → Option (Dict Value)
  -- HAS_YAML, and yaml.safe_load; `none` where it raises
  pub has_yaml : Bool
  pub safe_load : String → Option Value
  -- str.splitlines
  pub splitlines : String → List String
  -- re.fullmatch of a duration: its number and its unit
  pub duration_groups : String → Option (String × String)
  -- float(number) times the unit's seconds times the scale; `none` where that is no integer
  pub duration_product : String → String → ℕ → Option ℤ
  -- yaml.safe_dump; `none` where it raises
  pub safe_dump : Value → Option String
