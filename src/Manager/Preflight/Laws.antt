-- ===== src/Manager/Preflight/Laws.antt =====
-- When a host is supported, and when it runs on TUN.
use mihomo_proxy_management.Prelude.{
  String, [], none, some, Bool, true, false, not, ◌&&◌, ◌||◌, ◌≡◌, ◌↔◌, contains, arith, str_eq,
  eq_iff, refl, if◌then◌else◌,
}
use mihomo_proxy_management.Manager.Preflight.{
  Texts, HostFacts, Preflight, tun, supported_arches, is_supported_distro, is_empty, arch_of,
  distro_of, version_of, host_reasons, release_reasons, reasons_of, degradations, asset_suffix_of,
  evaluate, preflight,
}

asset_of_tests :
    (arm x86 avx2 : Bool)
    → arm || x86 ≡ true
    → is_empty (
        if arm
        then "arm64"
        else if x86
        then if avx2 then "amd64-v3" else "amd64-compatible"
        else "")
      ≡ false
asset_of_tests true x86 avx2 h = refl
asset_of_tests false true true h = refl
asset_of_tests false true false h = refl
asset_of_tests false false avx2 h = absurd (ground arith)

asset_of_arch :
    (arch : String) (avx2 : Bool)
    → contains supported_arches arch ≡ true
    → is_empty (asset_suffix_of arch avx2) ≡ false
unfolding asset_suffix_of contains
asset_of_arch arch avx2 h = asset_of_tests (str_eq arch "aarch64") (str_eq arch "x86_64") avx2 (
    ground (
      arith,
      eq_iff "aarch64" arch,
      eq_iff arch "aarch64",
      eq_iff "x86_64" arch,
      eq_iff arch "x86_64",
    ))

module _ (texts : Texts) (facts : HostFacts) where
  -- A host is supported exactly when its architecture, its distribution and its release are in the
  -- support matrix, and it has systemd and root.
  pub evaluate-supported :
      (evaluate texts facts).supported
      ≡ (contains supported_arches (arch_of texts facts) && (facts.has_systemd && facts.is_root))
        && ((not (is_empty (distro_of texts facts)) && not (is_empty (version_of texts facts)))
            && is_supported_distro (distro_of texts facts) (version_of texts facts))
  unfolding evaluate reasons_of host_reasons release_reasons
  evaluate-supported = ground arith

  -- The mode is TUN exactly when the host is supported and its TUN device is there and writable;
  -- a supported host in another mode has a reason for it.
  pub evaluate-mode :
      (((evaluate texts facts).mode ≡ tun) ↔ (
        ((evaluate texts facts).supported ≡ true)
        × (facts.has_tun_device && facts.tun_writable ≡ true)))
      × (((evaluate texts facts).degraded_reasons ≡ []) ↔ (
          (evaluate texts facts).supported && not (facts.has_tun_device && facts.tun_writable)
          ≡ false))
  unfolding evaluate degradations
  evaluate-mode = ground arith

  -- A strict preflight raises exactly where there is a reason against the host.
  pub preflight-raises :
      (preflight texts facts true ≡ none) ↔ ¬ ((evaluate texts facts).reasons ≡ [])
  unfolding preflight evaluate
  preflight-raises = ground arith

  -- A host that a strict preflight lets pass has an asset to download.
  pub preflight-asset :
      (p : Preflight) → preflight texts facts true ≡ some p → is_empty p.asset_suffix ≡ false
  unfolding preflight evaluate reasons_of host_reasons
  preflight-asset p h = ground (arith, asset_of_arch (arch_of texts facts) facts.avx2)
