-- ===== src/Manager/Secrets.antt =====
-- linux/python/mpm/secrets_io.py: the secrets from a file and the environment, with `check_secret_input` of
-- atomicio.py. `none` is a FailClosed, whose text is not modelled.
pub mod Laws
use mihomo_proxy_management.Prelude.{
  ℕ, ◌%◌, String, List, [], ◌∷◌, Option, none, some, Bool, true, false, not, ◌&&◌, ◌||◌, ◌==◌,
  ◌>>=◌, str_eq, is_some, if◌then◌else◌,
}
use mihomo_proxy_management.Prelude.Dict.{Dict, get, put}
use mihomo_proxy_management.Prelude.Strings.{drop_prefix, drop_chars, cut, occurs, uncons, unsnoc}

-- What is used of Python's `str` and `re`.
pub record Texts : Type 0 where
  pub strip : String → String
  pub lstrip : String → String
  pub lower : String → String
  pub splitlines : String → List String
  -- _INTERVAL_RE.match
  pub is_interval : String → Bool

-- What is found at a path: links are followed by `exists` and `is_file`, not by the mode and the owner.
pub record File : Type 0 where
  pub exists : Bool
  pub is_link : Bool
  pub is_file : Bool
  pub mode : ℕ
  pub uid : ℕ
  pub gid : ℕ
  -- read_text_strict
  pub content : Option String

pub record SecretInputs : Type 0 where
  pub foreign_url : String
  pub cn_url : String
  pub controller_secret : String
  pub cn_healthcheck_url : String
  pub interval : String
  pub origins : Dict String
  pub generated_secret : Bool

-- No raise of `check_secret_input`; the bits of the group and of others are the last six.
unfoldable pub check_secret_input : Bool → File → Bool
check_secret_input require_root_owned f =
    (f.exists || f.is_link)
    && not f.is_link
    && f.is_file
    && f.mode % 64 == 0
    && (not require_root_owned || (f.uid == 0 && f.gid == 0))

-- the value without a pair of quotes: 39 and 34
unfoldable pub bare : String → String
bare value = elim (uncons value) [
  | none ↦ value
  | some (first, rest) ↦ elim (unsnoc rest) [
    | none ↦ value
    | some (body, last) ↦ if first == last && (first == 39 || first == 34) then body else value
  ]
]

-- `_merge`: the value and its origin
unfoldable pub merge_sources : Option String → Option String → Option (String × String)
merge_sources (some f) (some e) = if str_eq f e then some (f, "file+env") else none
merge_sources none (some e) = some (e, "env")
merge_sources (some f) none = some (f, "file")
merge_sources none none = some ("", "absent")

-- the value of a key in the two sources
unfoldable pub merged_at : Dict String → Dict String → String → Option (String × String)
merged_at file_map env key = merge_sources (get file_map key) (get env key)

unfoldable pub merge_inputs : Dict String → Dict String → Option SecretInputs
merge_inputs file_map env = do
  (foreign, foreign_origin) ← merged_at file_map env "MPM_SUBSCRIPTION_URL"
  (cn, cn_origin) ← merged_at file_map env "MPM_CN_SUBSCRIPTION_URL"
  (secret, secret_origin) ← merged_at file_map env "MPM_CONTROLLER_SECRET"
  (health, health_origin) ← merged_at file_map env "MPM_CN_HEALTHCHECK_URL"
  (interval, interval_origin) ← merged_at file_map env "MPM_SUBSCRIPTION_INTERVAL"
  some (record {
    foreign_url = foreign;
    cn_url = cn;
    controller_secret = secret;
    cn_healthcheck_url = health;
    interval = if str_eq interval "" then "60" else interval;
    origins =
        ("MPM_SUBSCRIPTION_URL", foreign_origin)
        ∷ ("MPM_CN_SUBSCRIPTION_URL", cn_origin)
        ∷ ("MPM_CONTROLLER_SECRET", secret_origin)
        ∷ ("MPM_CN_HEALTHCHECK_URL", health_origin)
        ∷ ("MPM_SUBSCRIPTION_INTERVAL", interval_origin)
        ∷ [];
    generated_secret = false;
  })

-- the controller secret: the given one, the stored one, or the token of `generate_controller_secret`
unfoldable pub with_secret : SecretInputs → String → String → SecretInputs
with_secret inputs existing token =
    if not (str_eq inputs.controller_secret "")
    then inputs
    else if not (str_eq existing "")
    then record inputs {
      controller_secret = existing;
      origins = put inputs.origins "MPM_CONTROLLER_SECRET" "stored";
    }
    else record inputs {
      controller_secret = token;
      origins = put inputs.origins "MPM_CONTROLLER_SECRET" "generated";
      generated_secret = true;
    }

-- what the secret file holds after the call
unfoldable pub stored_after : String → String → String
stored_after existing secret = if str_eq secret existing then existing else secret

module _ (texts : Texts) where
  unfoldable pub without_export : String → String
  without_export line =
      if is_some (drop_prefix "export " (texts.lower line))
      then texts.lstrip (drop_chars 7 line)
      else line

  unfoldable pub put_pair : Dict String → Option (String × String) → Dict String
  put_pair result none = result
  put_pair result (some (key, value)) =
      if str_eq (texts.strip key) ""
      then result
      else put result (texts.strip key) (bare (texts.strip value))

  -- a stripped line
  unfoldable pub parse_line : Dict String → String → Dict String
  parse_line result line =
      if str_eq line "" || is_some (drop_prefix "#" line)
      then result
      else put_pair result (cut "=" (without_export line))

  unfoldable pub parse_lines : Dict String → List String → Dict String
  parse_lines result [] = result
  parse_lines result (raw ∷ lines) = parse_lines (parse_line result (texts.strip raw)) lines

  unfoldable pub parse_env_file : String → Dict String
  parse_env_file text = parse_lines [] (texts.splitlines text)

  unfoldable pub load_secret_file : Bool → File → Option (Dict String)
  load_secret_file system f =
      if check_secret_input system f
      then (do text ← f.content; some (parse_env_file text))
      else none

  -- No raise of `_validate_url`.
  unfoldable pub is_valid_url : String → Bool
  is_valid_url value =
      str_eq value ""
      || ((is_some (drop_prefix "http://" (texts.lower value))
            || is_some (drop_prefix "https://" (texts.lower value)))
          && not (occurs "\n" value || occurs "\r" value))

  -- `_read_existing_secret`
  unfoldable pub read_existing_secret : Bool → File → Option String
  read_existing_secret system f =
      if not f.is_file || f.is_link
      then some ""
      else if check_secret_input system f
      then (do text ← f.content; some (texts.strip text))
      else none

  -- the guards of `resolve` on the merged inputs
  unfoldable pub is_valid : SecretInputs → Bool
  is_valid inputs =
      not (str_eq inputs.foreign_url "")
      && texts.is_interval inputs.interval
      && is_valid_url inputs.foreign_url
      && is_valid_url inputs.cn_url
      && is_valid_url inputs.cn_healthcheck_url
      && (str_eq inputs.cn_url "" || not (str_eq inputs.cn_healthcheck_url ""))

  unfoldable pub file_map_of : Bool → File → Option (Dict String)
  file_map_of system f = if f.exists then load_secret_file system f else some []

  -- The inputs, and the secret that was read from its file or written to it.
  unfoldable pub resolve :
      Bool → File → Dict String → File → String → Option (SecretInputs × String)
  resolve system env_file env secret_file token = do
    file_map ← file_map_of system env_file
    inputs ← merge_inputs file_map env
    valid ← if is_valid inputs then some inputs else none
    existing ← read_existing_secret system secret_file
    some (
      with_secret valid existing token,
      stored_after existing (with_secret valid existing token).controller_secret,
    )
