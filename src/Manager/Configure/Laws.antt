-- ===== src/Manager/Configure/Laws.antt =====
-- When `configure` replaces the live configuration.
use mihomo_proxy_management.Prelude.{
  String, List, [], ◌∷◌, Option, none, some, Bool, true, false, not, ◌≡◌, arith, inl, inr,
  Option-cases, if◌then◌else◌,
}
use mihomo_proxy_management.Manager.Preflight.{Preflight}
use mihomo_proxy_management.Manager.Health.{Degraded, disabled, is_degraded, degraded_record}
use mihomo_proxy_management.Manager.Configure.{
  Setup, Action, replace_config, save_degraded, is_rejected, checked, replaced, installed,
  configure,
}

-- the text that the actions put into the place of the live file
abbrev pub replacement : List Action → Option String
replacement [] = none
replacement (replace_config text ∷ rest) = some text
replacement (_ ∷ rest) = replacement rest

-- the record that they save
abbrev pub saved_record : List Action → Option Degraded
saved_record [] = none
saved_record (save_degraded d ∷ rest) = some d
saved_record (_ ∷ rest) = saved_record rest

-- What the live configuration is replaced by was rendered from the preflight of the run, for the recorded health of
-- CN where the secrets have a CN subscription and for DISABLED where they have none, passed the audit for these, and
-- was not refused by the mihomo binary; a check replaces nothing.
pub configure-replaces :
    (setup : Setup) (text : String)
    → replacement (configure setup).0 ≡ some text
    → (setup.check_only ≡ false)
      × (is_rejected setup.accepts text ≡ false)
      × ((preflight : Preflight) × (has_cn : Bool) × (existing : Degraded) × (setup.preflight
            ≡ some preflight)
          × (setup.has_cn ≡ some has_cn)
          × (setup.existing ≡ some existing)
          × (setup.render preflight (if has_cn then existing.cn else disabled) ≡ some text)
          × (setup.audit text has_cn (not (is_degraded existing.cn)) ≡ true))
unfolding configure installed checked replaced
configure-replaces setup text h = elim (Option-cases setup.preflight) [
  | inl e ↦ absurd (ground (arith, e))
  | inr (preflight, e) ↦ elim (Option-cases setup.has_cn) [
    | inl c ↦ absurd (ground (arith, e, c))
    | inr (has_cn, c) ↦ elim (Option-cases setup.existing) [
      | inl x ↦ absurd (ground (arith, e, c, x))
      | inr (existing, x) ↦
          elim (Option-cases (setup.render preflight (if has_cn then existing.cn else disabled))) [
            | inl r ↦ absurd (ground (arith, e, c, x, r))
            | inr (rendered, r) ↦ (
              ground (arith, e, c, x, r),
              ground (arith, e, c, x, r),
              (
                preflight,
                has_cn,
                existing,
                e,
                c,
                x,
                ground (arith, e, c, x, r),
                ground (arith, e, c, x, r),
              ),
            )
          ]
    ]
  ]
]

-- A `configure` with a CN subscription, behind a record that says DEGRADED, saves no other CN state.
pub configure-keeps :
    (setup : Setup) (existing d : Degraded)
    → setup.has_cn ≡ some true
    → setup.existing ≡ some existing
    → is_degraded existing.cn ≡ true
    → saved_record (configure setup).0 ≡ some d
    → is_degraded d.cn ≡ true
unfolding configure installed checked replaced degraded_record
configure-keeps setup existing d c x g h = elim (Option-cases setup.preflight) [
  | inl e ↦ absurd (ground (arith, e))
  | inr (preflight, e) ↦ elim (Option-cases (setup.render preflight existing.cn)) [
    | inl r ↦ absurd (ground (arith, e, c, x, r))
    | inr (rendered, r) ↦ ground (arith, e, c, x, r, g, h)
  ]
]
