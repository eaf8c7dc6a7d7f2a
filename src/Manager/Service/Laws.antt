-- ===== src/Manager/Service/Laws.antt =====
-- What `start`, `stop` and `restart` do to the unit.
use mihomo_proxy_management.Prelude.{
  ℕ, zero, suc, ◌+◌, ◌≤◌, String, List, [], ◌∷◌, none, Bool, true, false, not, ◌||◌, ◌≡◌, arith,
  refl, subst, inl, inr, Bool-cases, Option-cases, str_eq,
}
use mihomo_proxy_management.Manager.Service.{
  same_bool, Host, Action, systemctl_start, systemctl_stop, Status, done, failed, Failure, wait_for,
  wait_active, wait_stopped, unit_name, blockers, is_free, answers, ready, obstacle, started, start,
  stop, restart,
}

abbrev pub starts : List Action → Bool
starts [] = false
starts (systemctl_start ∷ rest) = true
starts (systemctl_stop ∷ rest) = starts rest

-- a port is held by another owner than the unit
abbrev pub is_held : List (ℕ × String) → Bool
is_held [] = false
is_held ((port, owner) ∷ occupants) = not (str_eq owner unit_name) || is_held occupants

blockers-is_held : (os : List (ℕ × String)) → is_free (blockers os) ≡ not (is_held os)
unfolding blockers
blockers-is_held [] = refl
blockers-is_held ((p, o) ∷ os) = ground (arith, blockers-is_held os)

-- While another owner holds one of the ports, a start of a unit that was found inactive fails, and it has sent
-- neither `systemctl start` nor `systemctl stop`. (It may have asked for the state of the unit.)
pub start-held :
    (host : Host) (i : ℕ)
    → host.polls i ≡ false
    → is_held host.occupants ≡ true
    → ((start host i).actions ≡ []) × ((f : Failure) × ((start host i).result ≡ failed f))
unfolding start obstacle
start-held host i h b = elim (Option-cases (obstacle host)) [
  | inl e ↦ absurd (ground (arith, e, blockers-is_held host.occupants))
  | inr (f, e) ↦ (ground (arith, e), (f, ground (arith, e)))
]

here : (polls : ℕ → Bool) (i : ℕ) (b : Bool) → polls i ≡ b → polls (i + 0) ≡ b
here polls i b e = let same : i ≡ i + 0 = omega arith in subst (λ j. polls j ≡ b) same e

next : (polls : ℕ → Bool) (i k : ℕ) (b : Bool) → polls (i + 1 + k) ≡ b → polls (i + suc k) ≡ b
next polls i k b e =
    let same : i + 1 + k ≡ i + suc k = omega arith in subst (λ j. polls j ≡ b) same e

-- Where polling finds the wanted answer, one of the polls gave it: there is one more than attempts.
wait_for-found :
    (wanted : Bool) (polls : ℕ → Bool) (n i : ℕ)
    → (wait_for wanted polls n i).0 ≡ true
    → (k : ℕ) × (k ≤ n) × (polls (i + k) ≡ wanted)
unfolding wait_for
wait_for-found wanted polls zero i h = (0, omega arith, here polls i wanted (ground arith))
wait_for-found wanted polls (suc n) i h = elim (Bool-cases (same_bool wanted (polls i))) [
  | inl e ↦ (0, omega arith, here polls i wanted (ground arith))
  | inr e ↦
      let (k, le, p) = wait_for-found wanted polls n (i + 1) (ground (arith, e)) in
      (suc k, omega arith, next polls i k wanted p)
]

-- A restart starts the unit only where the unit was inactive at the first poll, or systemd said so after the stop.
pub restart-order :
    (host : Host) (i : ℕ)
    → starts (restart host i).actions ≡ true
    → (k : ℕ) × (k ≤ 21) × (host.polls (i + k) ≡ false)
unfolding restart stop
restart-order host i h = elim (Bool-cases (host.polls i)) [
  | inr e ↦ (0, omega arith, here host.polls i false e)
  | inl e ↦ elim (Bool-cases (wait_stopped host.polls (i + 1)).0) [
    | inl w ↦
        let (k, le, p) = wait_for-found false host.polls 20 (i + 1) w in
        (suc k, omega arith, next host.polls i k false p)
    | inr w ↦ absurd (ground (arith, e, w))
  ]
]

-- A start that ends well and found the unit inactive has called `systemctl start`, saw the unit become active, and got
-- an answer from its controller.
pub start-ready :
    (host : Host) (i : ℕ) (s : Status)
    → host.polls i ≡ false
    → (start host i).result ≡ done s
    → (starts (start host i).actions ≡ true)
      × ((k : ℕ) × (k ≤ 40) × (host.polls (i + 1 + k) ≡ true))
      × (answers host.versions 20 0 ≡ true)
unfolding start started ready
start-ready host i s h d =
    let free : obstacle host ≡ none = elim (Option-cases (obstacle host)) [
      | inl e ↦ e
      | inr (f, e) ↦ absurd (ground (arith, e))
    ] in
    let active : (wait_active host.polls (i + 1)).0 ≡ true = ground (arith, free) in
    (
      ground (arith, free),
      wait_for-found true host.polls 40 (i + 1) active,
      ground (arith, free, active),
    )
