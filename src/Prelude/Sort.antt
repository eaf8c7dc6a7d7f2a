-- ===== src/Prelude/Sort.antt =====
-- `sorted(items, key=…)`: a stable sort, as insertion, and what its first item is.
use mathlib.Core.Path.{◌≡◌, refl}
use mathlib.Core.Bool.{Bool, true, false, ◌&&◌}
use mathlib.Core.List.{List, [], ◌∷◌}
use mathlib.Core.Option.{Option, none, some}
use native.Mathlib.Omega.{arith}
use mathlib.Core.Logic.{inl, inr}
use mihomo_proxy_management.Prelude.Tests.{if◌then◌else◌, Option-cases}
use mihomo_proxy_management.Prelude.Lists.{all, head?}

module _ {ℓ} {A : Type ℓ} (le : A → A → Bool) where
  unfoldable pub insert : A → List A → List A
  insert x [] = x ∷ []
  insert x (y ∷ ys) = if le x y then x ∷ y ∷ ys else y ∷ insert x ys

  unfoldable pub sort : List A → List A
  sort [] = []
  sort (x ∷ xs) = insert x (sort xs)

  -- `sorted(items)[0]`, with `none` where the list is empty
  unfoldable pub first : List A → Option A
  unfolding head?
  first xs = head? (sort xs)

  all-insert : (p : A → Bool) (x : A) (xs : List A) → all p (insert x xs) ≡ p x && all p xs
  unfolding all insert
  all-insert p x [] = refl
  all-insert p x (y ∷ ys) = ground (arith, all-insert p x ys)

  pub all-sort : (p : A → Bool) (xs : List A) → all p (sort xs) ≡ all p xs
  unfolding sort all
  all-sort p [] = refl
  all-sort p (x ∷ xs) = ground (arith, all-insert p x (sort xs), all-sort p xs)

  -- The first item is one of the list: it passes each test that all of them pass.
  pub first-all :
      (p : A → Bool) (xs : List A) (y : A) → first xs ≡ some y → all p xs ≡ true → p y ≡ true
  unfolding first all
  first-all p xs y h a = ground (arith, all-sort p xs)

  insert-ne-nil : (x : A) (xs : List A) → insert x xs ≡ [] → ⊥
  unfolding insert
  insert-ne-nil x [] h = ground arith
  insert-ne-nil x (y ∷ ys) h = ground arith

  pub first-none : (xs : List A) → first xs ≡ none → xs ≡ []
  unfolding first sort
  first-none [] h = refl
  first-none (x ∷ xs) h = ground (arith, insert-ne-nil x (sort xs))

  pub first-cons : (x : A) (xs : List A) → (y : A) × (first (x ∷ xs) ≡ some y)
  first-cons x xs = elim (Option-cases (first (x ∷ xs))) [
    | inl e ↦ absurd (ground (arith, first-none (x ∷ xs) e))
    | inr w ↦ w
  ]

  all_mono :
      (p q : A → Bool)
      → ((x : A) → p x ≡ true → q x ≡ true)
      → (xs : List A) → all p xs ≡ true
      → all q xs ≡ true
  unfolding all
  all_mono p q f [] h = refl
  all_mono p q f (x ∷ xs) h = ground (arith, f x, all_mono p q f xs)

  -- Each item is at most those behind it.
  is_sorted : List A → Bool
  is_sorted [] = true
  is_sorted (x ∷ xs) = all (le x) xs && is_sorted xs

  module _ (refl_le : (x : A) → le x x ≡ true)
      (total_le : (x y : A) → le x y ≡ false → le y x ≡ true)
      (trans_le : (x y z : A) → le x y ≡ true → le y z ≡ true → le x z ≡ true) where
    insert-sorted : (x : A) (xs : List A) → is_sorted xs ≡ true → is_sorted (insert x xs) ≡ true
    unfolding is_sorted insert all
    insert-sorted x [] h = refl
    insert-sorted x (y ∷ ys) h = ground (
      arith,
      total_le x y,
      insert-sorted x ys,
      all-insert (le y) x ys,
      λ (e : le x y ≡ true). all_mono (le y) (le x) (λ z. trans_le x y z e) ys,
    )

    sort-sorted : (xs : List A) → is_sorted (sort xs) ≡ true
    unfolding sort is_sorted
    sort-sorted [] = refl
    sort-sorted (x ∷ xs) = insert-sorted x (sort xs) (sort-sorted xs)

    -- The first item is a least one.
    pub first-least : (xs : List A) (y : A) → first xs ≡ some y → all (le y) xs ≡ true
    unfolding first is_sorted all
    first-least xs y h = ground (arith, sort-sorted xs, all-sort (le y) xs, refl_le y)
