-- ===== src/Manager/Preflight.antt =====
-- linux/python/mpm/preflight.py: the support matrix, and the degradation from TUN to the mixed port.
pub mod Laws
use mihomo_proxy_management.Prelude.{
  ℕ, String, List, [], ◌∷◌, ◌++◌, Option, none, some, Bool, true, false, not, ◌&&◌, ◌||◌, str_eq,
  contains, if◌then◌else◌,
}
use mihomo_proxy_management.Prelude.Dict.{Dict, get}

-- What is used of Python's `str`.
pub record Texts : Type 0 where
  pub strip : String → String
  pub strip_quotes : String → String
  pub lower : String → String

pub record HostFacts : Type 0 where
  pub id_like : Dict String
  pub machine : String
  pub has_tun_device : Bool
  pub tun_writable : Bool
  pub avx2 : Bool
  pub is_root : Bool
  pub has_systemd : Bool
  pub inside_container : Bool

-- the texts of `reasons` and `degraded`
pub data Reason : Type 0 where
  unsupported_architecture : String → Reason
  container_without_systemd no_systemd no_root unknown_release : Reason
  untested_release : String → String → Reason

pub data Degradation : Type 0 where
  tun_absent tun_not_writable : Degradation

pub data Mode : Type 0 where
  tun mixed : Mode

pub record Preflight : Type 0 where
  pub supported : Bool
  pub reasons : List Reason
  pub mode : Mode
  pub degraded_reasons : List Degradation
  pub arch : String
  pub asset_suffix : String
  pub distro : String
  pub distro_version : String
  pub root : Bool
  pub systemd : Bool

abbrev pub supported_arches : List String
supported_arches = "x86_64" ∷ "aarch64" ∷ []

-- SUPPORTED_DISTROS
abbrev pub is_supported_distro : String → String → Bool
is_supported_distro distro release =
    (str_eq distro "ubuntu" && (str_eq release "22.04" || str_eq release "24.04"))
    || (str_eq distro "debian" && str_eq release "12")

abbrev pub is_empty : String → Bool
is_empty s = str_eq s ""

unfoldable pub asset_suffix_of : String → Bool → String
asset_suffix_of arch avx2 =
    if str_eq arch "aarch64"
    then "arm64"
    else if str_eq arch "x86_64"
    then if avx2 then "amd64-v3" else "amd64-compatible"
    else ""

abbrev or_empty : Option String → String
or_empty none = ""
or_empty (some s) = s

module _ (texts : Texts) (facts : HostFacts) where
  unfoldable pub distro_of : String
  distro_of = texts.lower (texts.strip (or_empty (get facts.id_like "ID")))

  unfoldable pub version_of : String
  version_of = texts.strip_quotes (texts.strip (or_empty (get facts.id_like "VERSION_ID")))

  abbrev pub arch_of : String
  arch_of = if is_empty facts.machine then "unknown" else facts.machine

  -- the four tests that come first
  unfoldable pub host_reasons : List Reason
  host_reasons =
      (if contains supported_arches arch_of then [] else unsupported_architecture arch_of ∷ [])
      ++ ((if facts.inside_container && not facts.has_systemd
            then container_without_systemd ∷ []
            else [])
          ++ ((if facts.has_systemd then [] else no_systemd ∷ [])
              ++ (if facts.is_root then [] else no_root ∷ [])))

  abbrev pub is_unknown_release : Bool
  is_unknown_release = is_empty distro_of || is_empty version_of

  -- An empty `id_like` has an empty distro.
  unfoldable pub release_reasons : List Reason
  release_reasons =
      if is_unknown_release
      then unknown_release ∷ []
      else if is_supported_distro distro_of version_of
      then []
      else untested_release distro_of version_of ∷ []

  -- the release is looked at on a host that passed the other tests
  unfoldable pub reasons_of : List Reason
  reasons_of = elim host_reasons [ [] ↦ release_reasons | r ∷ rs ↦ r ∷ rs ]

  abbrev pub is_none : List Reason → Bool
  is_none [] = true
  is_none (r ∷ rs) = false

  unfoldable pub degradations : List Degradation
  degradations =
      if is_none reasons_of
      then if not facts.has_tun_device
        then tun_absent ∷ []
        else if not facts.tun_writable
        then tun_not_writable ∷ []
        else []
      else []

  abbrev mode_for : Bool → List Degradation → Mode
  mode_for true [] = tun
  mode_for _ _ = mixed

  unfoldable pub evaluate : Preflight
  evaluate = record {
    supported = is_none reasons_of;
    reasons = reasons_of;
    mode = mode_for (is_none reasons_of) degradations;
    degraded_reasons = degradations;
    arch = arch_of;
    asset_suffix = asset_suffix_of arch_of facts.avx2;
    distro = distro_of;
    distro_version = version_of;
    root = facts.is_root;
    systemd = facts.has_systemd;
  }

  -- `none` is the exception Unsupported
  unfoldable pub preflight : Bool → Option Preflight
  preflight strict = if strict && not evaluate.supported then none else some evaluate
