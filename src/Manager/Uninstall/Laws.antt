-- ===== src/Manager/Uninstall/Laws.antt =====
-- Which paths `uninstall` removes, and what a dry run does.
use mihomo_proxy_management.Prelude.{
  String, List, [], ◌∷◌, ◌++◌, Bool, true, false, not, ◌&&◌, ◌||◌, ◌≡◌, arith, refl, str_eq, eq_iff,
  contains, if◌then◌else◌,
}
use mihomo_proxy_management.Manager.Uninstall.{
  Layout, Request, Action, disable_now, daemon_reload, remove, discard, discard_checked,
  purge_targets, removals, remove_files, uninstall,
}

-- the actions remove the path
abbrev pub removes : List Action → String → Bool
removes [] p = false
removes (remove q ∷ rest) p = str_eq q p || removes rest p
removes (disable_now ∷ rest) p = removes rest p
removes (daemon_reload ∷ rest) p = removes rest p

removes-append :
    (xs ys : List Action) (p : String) → removes (xs ++ ys) p ≡ removes xs p || removes ys p
removes-append [] ys p = refl
removes-append (remove q ∷ xs) ys p = ground (arith, removes-append xs ys p)
removes-append (disable_now ∷ xs) ys p = removes-append xs ys p
removes-append (daemon_reload ∷ xs) ys p = removes-append xs ys p

discard-dry : (ps : List String) → discard true ps ≡ []
unfolding discard
discard-dry [] = refl
discard-dry (p ∷ ps) = ground (arith, discard-dry ps)

discard_checked-dry :
    (is_project : String → Bool) (ps : List String) → (discard_checked is_project true ps).0 ≡ []
unfolding discard_checked
discard_checked-dry is_project [] = refl
discard_checked-dry is_project (p ∷ ps) =
    ground (arith, discard_checked-dry is_project ps, discard-dry (p ∷ []))

removals-dry :
    (canonical : String → String) (layout : Layout) (request : Request)
    → request.dry_run ≡ true
    → (removals canonical layout request).0 ≡ []
unfolding removals
removals-dry canonical layout request d = ground (
  arith,
  d,
  discard_checked-dry layout.is_project_path (purge_targets canonical layout),
  discard_checked-dry layout.is_project_path layout.secrets,
  discard-dry (layout.cli_entry ∷ layout.libexec ∷ layout.share ∷ []),
)

-- A confirmed dry run removes nothing, but disables and stops the unit where its file is there.
pub uninstall-dry :
    (canonical : String → String) (layout : Layout) (request : Request)
    → request.dry_run ≡ true
    → request.purge && not request.assume_yes ≡ false
    → (uninstall canonical layout request).0
      ≡ (if request.unit_present then disable_now ∷ [] else [])
unfolding uninstall remove_files
uninstall-dry canonical layout request d c = ground (
  arith,
  d,
  c,
  removals-dry canonical layout request d,
  discard-dry (layout.unit ∷ layout.unit_dropin_dir ∷ []),
)

-- the paths that are removed without a test
abbrev pub fixed_paths : Layout → List String
fixed_paths layout =
    layout.unit ∷ layout.unit_dropin_dir ∷ layout.cli_entry ∷ layout.libexec ∷ layout.share ∷ []

discard-removes :
    (dry_run : Bool) (ps : List String) (p : String)
    → removes (discard dry_run ps) p ≡ true
    → contains ps p ≡ true
unfolding discard contains
discard-removes dry_run [] p h = ground arith
discard-removes dry_run (q ∷ ps) p h = ground (arith, discard-removes dry_run ps p)

discard_checked-removes :
    (is_project : String → Bool) (dry_run : Bool) (ps : List String) (p : String)
    → removes (discard_checked is_project dry_run ps).0 p ≡ true
    → is_project p ≡ true
unfolding discard_checked discard
discard_checked-removes is_project dry_run [] p h = ground arith
discard_checked-removes is_project dry_run (q ∷ ps) p h =
    ground (arith, discard_checked-removes is_project dry_run ps p, eq_iff q p)

-- A path that is removed lies under the project's prefixes, or is one of the unit, its drop-in directory, the entry of
-- the command line, and the two installed directories.
pub uninstall-removes :
    (canonical : String → String) (layout : Layout) (request : Request) (p : String)
    → removes (uninstall canonical layout request).0 p ≡ true
    → layout.is_project_path p || contains (fixed_paths layout) p ≡ true
unfolding uninstall remove_files removals contains
uninstall-removes canonical layout request p h =
    let dry = request.dry_run in
    let is_project = layout.is_project_path in
    let entries = layout.cli_entry ∷ layout.libexec ∷ layout.share ∷ [] in
    let secrets = (discard_checked is_project dry layout.secrets).0 in
    let files = (removals canonical layout request).0 in
    let units = discard dry (layout.unit ∷ layout.unit_dropin_dir ∷ []) in
    ground (
      arith,
      h,
      discard-removes dry (layout.unit ∷ layout.unit_dropin_dir ∷ []) p,
      discard-removes dry entries p,
      discard_checked-removes is_project dry layout.secrets p,
      discard_checked-removes is_project dry (purge_targets canonical layout) p,
      removes-append secrets (discard dry entries) p,
      removes-append secrets [] p,
      removes-append units files p,
      removes-append units (daemon_reload ∷ files) p,
      removes-append units (daemon_reload ∷ []) p,
    )
