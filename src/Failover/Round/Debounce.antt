-- ===== src/Failover/Round/Debounce.antt =====
-- The alerts of successive runs, each of which reads the state that the one before it saved.
use mihomo_proxy_management.Prelude.{
  ℕ, String, List, [], ◌∷◌, Option, none, some, Bool, true, false, ◌≡◌, arith, refl, ap, ◌∙◌, subst,
  ◌==◌, Bool-cases, inl, inr, length, filter,
}
use mihomo_proxy_management.Prelude.Dict.{Dict, get}
use mihomo_proxy_management.Json.{Value, null, text, object, of_dict, at, to_dict-of_dict}
use mihomo_proxy_management.Failover.Library.{Library}
use mihomo_proxy_management.Failover.Region.{Group, us, sg, region_of}
use mihomo_proxy_management.Failover.Coerce.{as_dict}
use mihomo_proxy_management.Failover.Round.{
  Args, World, Report, done, load_state, run_main, finish, Decided, mode_of, is_region, alive_in,
  alive_any_of, probe_round,
}
use mihomo_proxy_management.Failover.Round.Modes.{main_finished}
use mihomo_proxy_management.Failover.Plan.{Proxy, decide_mode, Mode, mode_a, mode_b, mode_c}
use mihomo_proxy_management.Failover.Round.Alert.{
  mode_text, equals, should_alert, is_suppressed, alerted_after,
}
use mihomo_proxy_management.Failover.Round.Payload.{Saved, payload}

-- what the next run reads of the state for its alert
saved-mode : (s : Saved) → at (payload s) "mode" ≡ text (mode_text s.mode)
unfolding payload at get
saved-mode s = refl

saved-alerted : (s : Saved) → at (payload s) "alerted_mode" ≡ s.alerted_mode
unfolding payload at get
saved-alerted s = refl

-- the state file as a run leaves it
abbrev pub file_of : Saved → Value
file_of s = object (of_dict (payload s))

pub load_state-file : (s : Saved) → load_state (some (file_of s)) ≡ payload s
unfolding load_state as_dict
load_state-file s = to_dict-of_dict (payload s)

no_state : at (load_state none) "alerted_mode" ≡ null
unfolding load_state at get
no_state = refl

-- The mode that has been alerted is not alerted again.
debounced :
    (m : Mode) (prev_alerted : Value)
    → should_alert m (text (mode_text m)) (alerted_after true m prev_alerted) ≡ false
unfolding should_alert alerted_after
debounced mode_a p = refl
debounced mode_b p = refl
debounced mode_c p = refl

module _ (lib : Library) (args : Args) (w : World) (proxies : Dict Proxy) where
  abbrev wanted : Report → Bool
  wanted r =
      should_alert r.mode (at (load_state w.stored) "mode")
        (at (load_state w.stored) "alerted_mode")

  abbrev IsMarked : Report → Type 0
  IsMarked r =
      (s : Saved)
      → r.saved ≡ some s
      → (s.mode ≡ r.mode)
        × (s.alerted_mode
            ≡ alerted_after r.alerted r.mode (at (load_state w.stored) "alerted_mode"))

  module _ (streak : ℕ) (d : Option Decided) (chosen : Group → Option String) where
    finish-wanted :
        let r = finish lib args w proxies (probe_round args w proxies) streak d chosen in
        r.alerted ≡ true → wanted r ≡ true
    unfolding finish
    finish-wanted h = ground arith

    finish_marks : IsMarked (finish lib args w proxies (probe_round args w proxies) streak d chosen)
    unfolding finish
    finish_marks s h = ground arith

  module _ (r : Report) (h : run_main lib args w ≡ done r) (p : w.proxies ≡ some proxies) where
    alerted_wanted : r.alerted ≡ true → wanted r ≡ true
    alerted_wanted =
        let f = main_finished lib args w proxies r h p in
        subst (λ (x : Report). x.alerted ≡ true → wanted x ≡ true) f.report
          (finish-wanted f.streak f.decided f.chosen)

    saved_marks : IsMarked r
    saved_marks =
        let f = main_finished lib args w proxies r h p in
        subst IsMarked f.report (finish_marks f.streak f.decided f.chosen)

-- Of two runs one after the other that end in the same mode, where the first alerts and saves its state,
-- the second does not alert.
pub alert_once :
    (lib : Library) (args args' : Args) (w w' : World) (proxies proxies' : Dict Proxy)
    (r r' : Report) (s : Saved)
    → w.proxies ≡ some proxies
    → w'.proxies ≡ some proxies'
    → run_main lib args w ≡ done r
    → r.saved ≡ some s
    → w'.stored ≡ some (file_of s)
    → run_main lib args' w' ≡ done r'
    → r'.mode ≡ r.mode
    → r.alerted ≡ true
    → r'.alerted ≡ false
alert_once lib args args' w w' proxies proxies' r r' s p p' h saved file h' same a =
    let (mode, marked) = saved_marks lib args w proxies r h p s saved in
    let read : load_state w'.stored ≡ payload s = ap load_state file ∙ load_state-file s in
    ground (
      arith,
      alerted_wanted lib args' w' proxies' r' h' p',
      ap (λ (d : Dict Value). at d "mode") read,
      ap (λ (d : Dict Value). at d "alerted_mode") read,
      saved-mode s,
      saved-alerted s,
      mode,
      marked,
      debounced r.mode (at (load_state w.stored) "alerted_mode"),
    )

filter-nil : (p : String → Bool) (xs : List String) → xs ≡ [] → filter p xs ≡ []
filter-nil p xs e = ap (filter p) e ∙ unfold filter in refl

nil_of_length : (xs : List String) → (length xs == 0) ≡ true → xs ≡ []
nil_of_length [] h = refl
nil_of_length (x ∷ xs) h = absurd (ground arith)

module _ (lib : Library) (probe : Dict (Option ℕ)) where
  alive_of_mode_a : mode_of lib probe ≡ mode_a → (length (alive_any_of probe) == 0) ≡ false
  unfolding mode_of alive_in decide_mode
  alive_of_mode_a h = elim (Bool-cases (length (alive_any_of probe) == 0)) [
    | inl e ↦
        let empty = nil_of_length (alive_any_of probe) e in
        let no_us = filter-nil (λ n. is_region us (region_of lib n)) (alive_any_of probe) empty in
        let no_sg = filter-nil (λ n. is_region sg (region_of lib n)) (alive_any_of probe) empty in
        ground (arith, no_us, no_sg)
    | inr e ↦ e
  ]

module _ (lib : Library) (args : Args) (w : World) (proxies : Dict Proxy) (r : Report) where
  finish_recovery :
      (streak : ℕ) (d : Option Decided) (chosen : Group → Option String)
      → args.dry_run ≡ false
      → equals (at (load_state w.stored) "mode") "C" ≡ true
      → equals (at (load_state w.stored) "alerted_mode") "A_recovered" ≡ false
      → let x = finish lib args w proxies (probe_round args w proxies) streak d chosen in
        x.mode ≡ mode_a → x.alerted ≡ true
  unfolding finish should_alert is_suppressed
  finish_recovery streak d chosen dry c a m =
      ground (arith, alive_of_mode_a lib (probe_round args w proxies))

  -- A run in mode A alerts where the state before it is of mode C and no recovery was alerted.
  recovery_alerts :
      run_main lib args w ≡ done r
      → w.proxies ≡ some proxies
      → args.dry_run ≡ false
      → r.mode ≡ mode_a
      → equals (at (load_state w.stored) "mode") "C" ≡ true
      → equals (at (load_state w.stored) "alerted_mode") "A_recovered" ≡ false
      → r.alerted ≡ true
  recovery_alerts h p dry m c a =
      let f = main_finished lib args w proxies r h p in
      subst (λ (x : Report). x.mode ≡ mode_a → x.alerted ≡ true) f.report
        (finish_recovery f.streak f.decided f.chosen dry c a) m

-- A run that found no state, ended in mode C and stayed silent is followed, when the next run is in
-- mode A and no dry run, by a recovery alert, although no outage was ever alerted.
pub unannounced_recovery :
    (lib : Library) (args args' : Args) (w w' : World) (proxies proxies' : Dict Proxy)
    (r r' : Report) (s : Saved)
    → w.proxies ≡ some proxies
    → w'.proxies ≡ some proxies'
    → w.stored ≡ none
    → run_main lib args w ≡ done r
    → r.mode ≡ mode_c
    → r.alerted ≡ false
    → r.saved ≡ some s
    → w'.stored ≡ some (file_of s)
    → run_main lib args' w' ≡ done r'
    → args'.dry_run ≡ false
    → r'.mode ≡ mode_a
    → r'.alerted ≡ true
unfolding alerted_after
unannounced_recovery lib args args' w w' proxies proxies' r r' s p p' fresh h m silent saved file h'
      dry m' =
    let (mode, marked) = saved_marks lib args w proxies r h p s saved in
    let read : load_state w'.stored ≡ payload s = ap load_state file ∙ load_state-file s in
    let no_alert : at (load_state w.stored) "alerted_mode" ≡ null =
      ap (λ o. at (load_state o) "alerted_mode") fresh ∙ no_state in
    let kept : s.alerted_mode ≡ null = ground (arith, marked, silent, no_alert) in
    recovery_alerts lib args' w' proxies' r' h' p' dry m'
      (ap (λ d. equals (at d "mode") "C") read
        ∙ ap (λ v. equals v "C") (saved-mode s)
        ∙ ap (λ x. equals (text (mode_text x)) "C") (mode ∙ m))
      (ap (λ d. equals (at d "alerted_mode") "A_recovered") read
        ∙ ap (λ v. equals v "A_recovered") (saved-alerted s ∙ kept))
