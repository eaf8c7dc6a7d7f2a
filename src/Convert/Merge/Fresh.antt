-- ===== src/Convert/Merge/Fresh.antt =====
-- The search of `merge_proxies` for a name that no node has: it ends, and finds one.
use mihomo_proxy_management.Prelude.{
  contains-append, ℕ, zero, suc, ◌+◌, ◌≤◌, ◌<◌, String, List, [], ◌∷◌, ◌++◌, none, some, Bool, true,
  false, not, ◌≡◌, ◌≢◌, ◌⊎◌, refl, Option-cases, arith, str_eq, eq_iff, contains, contains-filter,
  filter, length, inl, inr, Bool-cases,
}
use mihomo_proxy_management.Prelude.Text.{append}
use mihomo_proxy_management.Convert.Library.{Library}
use mihomo_proxy_management.Convert.Merge.{candidate_at, search_name, fresh_name}
use text.Mathlib.TextLemmas.{append_cancel_left, append_cancel_right}

abbrev differs : String → String → Bool
differs a b = not (str_eq b a)

length-filter : (p : String → Bool) (xs : List String) → length (filter p xs) ≤ length xs
unfolding filter
length-filter p [] = omega arith
length-filter p (x ∷ xs) = ground (arith, length-filter p xs)

length-filter-differs :
    (a : String) (xs : List String)
    → contains xs a ≡ true
    → length (filter (differs a) xs) < length xs
unfolding filter contains
length-filter-differs a [] h = cc
length-filter-differs a (x ∷ xs) h =
    ground (arith, length-filter-differs a xs, length-filter (differs a) xs, eq_iff x a)

-- The pigeonhole principle: a list that has `n` different texts is at least that long.
pub length-contains :
    (f : ℕ → String) (n : ℕ) (xs : List String)
    → ((i j : ℕ) → f i ≡ f j → i ≡ j)
    → ((i : ℕ) → i < n → contains xs (f i) ≡ true)
    → n ≤ length xs
length-contains f zero xs inj h = omega arith
length-contains f (suc n) xs inj h = omega (
  arith,
  length-filter-differs (f n) xs (h n (omega arith)),
  length-contains f n (filter (differs (f n)) xs) inj λ i l.
      ground (arith, h i, contains-filter (differs (f n)) (f i) xs, eq_iff (f i) (f n), inj i n),
)

module _ (lib : Library) where
  candidate_at-eq :
      ((i j : ℕ) → lib.show i ≡ lib.show j → i ≡ j)
      → (name : String) (i j : ℕ) → candidate_at lib name i ≡ candidate_at lib name j
      → i ≡ j
  unfolding candidate_at
  candidate_at-eq inj name i j e = inj i j (
      append_cancel_right (lib.show i) (lib.show j) "]" (
        append_cancel_left " [" (append (lib.show i) "]") (append (lib.show j) "]") (
          append_cancel_left name (append " [" (append (lib.show i) "]"))
            (append " [" (append (lib.show j) "]")) e)))

  search_name-none :
      (fuel : ℕ) (taken : List String) (name : String) (suffix : ℕ)
      → search_name lib fuel taken name suffix ≡ none
      → (i : ℕ) → i < fuel
      → contains taken (candidate_at lib name (suffix + i)) ≡ true
  unfolding search_name
  search_name-none zero taken name suffix h i l = ground arith
  search_name-none (suc fuel) taken name suffix h zero l = ground arith
  search_name-none (suc fuel) taken name suffix h (suc i) l =
      ground (arith, search_name-none fuel taken name (suffix + 1) (ground arith) i (omega arith))

  search_name-some :
      (fuel : ℕ) (taken : List String) (name : String) (suffix : ℕ) (found : String)
      → search_name lib fuel taken name suffix ≡ some found
      → contains taken found ≡ false
  unfolding search_name
  search_name-some zero taken name suffix found h = cc
  search_name-some (suc fuel) taken name suffix found h =
      ground (arith, search_name-some fuel taken name (suffix + 1) found)

  -- With enough fuel: one candidate more than there are names taken.
  search_name-ends :
      ((i j : ℕ) → lib.show i ≡ lib.show j → i ≡ j)
      → (fuel : ℕ) (taken : List String) (name : String) (suffix : ℕ) → length taken < fuel
      → search_name lib fuel taken name suffix ≢ none
  search_name-ends inj fuel taken name suffix l h = ground (
    arith,
    length-contains (λ i. candidate_at lib name (suffix + i)) fuel taken
        (λ i j e. omega (arith, candidate_at-eq inj name (suffix + i) (suffix + j) e))
        (search_name-none fuel taken name suffix h),
  )

  -- When `str` gives different numbers different texts, the search of fresh_name ends within its fuel, for
  -- any names used and reserved: it returns a name that was not used before, and that is the node's own name
  -- or no name of the input.
  pub fresh_name-ends :
      ((i j : ℕ) → lib.show i ≡ lib.show j → i ≡ j)
      → (used reserved : List String) (name : String)
      → (found : String) × (fresh_name lib used reserved name ≡ some found)
        × (contains used found ≡ false)
        × ((found ≡ name) ⊎ (contains reserved found ≡ false))
  unfolding fresh_name
  fresh_name-ends inj used reserved name = elim (Bool-cases (contains used name)) [
    | inr free ↦ (name, ground arith, free, inl refl)
    | inl taken ↦
        elim (Option-cases
          (search_name lib (suc (length (used ++ reserved))) (used ++ reserved) name 2)) [
            | inl e ↦ absurd (
                search_name-ends inj (suc (length (used ++ reserved))) (used ++ reserved) name 2
                  (omega arith) e)
            | inr (found, e) ↦ (
              found,
              ground arith,
              ground (
                arith,
                search_name-some (suc (length (used ++ reserved))) (used ++ reserved) name 2 found
                    e,
                contains-append used reserved found,
              ),
              inr (
                  ground (
                    arith,
                    search_name-some (suc (length (used ++ reserved))) (used ++ reserved) name 2
                        found e,
                    contains-append used reserved found,
                  )),
            )
          ]
  ]
