-- ===== src/Prelude/Dict.antt =====
-- Python's `dict` with text keys, as an association list in insertion order.
use Prim.Native.String.{String}
use mathlib.Core.Path.{◌≡◌, refl}
use mathlib.Core.Bool.{Bool, true, false, not, ◌&&◌}
use mathlib.Core.Option.{Option, none, some}
use mathlib.Core.List.{List, [], ◌∷◌}
use native.Mathlib.Omega.{arith}
use text.Mathlib.TextEquality.{eq_iff}
use text.Mathlib.TextPositions.{eq_refl}
use mihomo_proxy_management.Prelude.Tests.{str_eq, is_some, if◌then◌else◌}
use mihomo_proxy_management.Prelude.Lists.{contains}

abbrev pub Dict {ℓ} : Type ℓ → Type ℓ
Dict V = List (String × V)

module _ {ℓ} {V : Type ℓ} where
  -- d.get(k)
  unfoldable pub get : Dict V → String → Option V
  get [] k = none
  get ((j, v) ∷ d) k = if str_eq j k then some v else get d k

  -- d[k] = v
  unfoldable pub put : Dict V → String → V → Dict V
  put [] k v = (k, v) ∷ []
  put ((j, w) ∷ d) k v = let rest = put d k v in if str_eq j k then (j, v) ∷ d else (j, w) ∷ rest

  -- [k for k in d]
  unfoldable pub keys : Dict V → List String
  keys [] = []
  keys ((j, v) ∷ d) = j ∷ keys d

  -- the keys whose value passes a test: [k for k, v in d.items() if p(v)]
  unfoldable pub keys_where : (V → Bool) → Dict V → List String
  keys_where p [] = []
  keys_where p ((j, v) ∷ d) = let rest = keys_where p d in if p v then j ∷ rest else rest

  -- a dict has each key once
  unfoldable pub is_unique : Dict V → Bool
  is_unique [] = true
  is_unique ((j, v) ∷ d) = not (contains (keys d) j) && is_unique d

  pub get-put :
      (d : Dict V) (k : String) (v : V) (j : String)
      → get (put d k v) j ≡ (if str_eq k j then some v else get d j)
  unfolding get put
  get-put [] k v j = refl
  get-put ((i, w) ∷ d) k v j = ground (arith, eq_iff k j, eq_iff i k, eq_iff i j, get-put d k v j)

  pub get-put_self : (d : Dict V) (k : String) (v : V) → get (put d k v) k ≡ some v
  get-put_self d k v = simp (get-put, eq_refl)

  pub contains-keys : (d : Dict V) (k : String) → contains (keys d) k ≡ is_some (get d k)
  unfolding contains keys get
  contains-keys [] k = refl
  contains-keys ((j, v) ∷ d) k = ground (arith, contains-keys d k)

  abbrev passes : (V → Bool) → Option V → Bool
  passes p none = false
  passes p (some v) = p v

  keys_where_sub :
      (p : V → Bool) (d : Dict V) (k : String)
      → contains (keys_where p d) k ≡ true
      → contains (keys d) k ≡ true
  unfolding contains keys keys_where
  keys_where_sub p [] k h = h
  keys_where_sub p ((j, v) ∷ d) k h = ground (arith, keys_where_sub p d k)

  -- In a dict a key is listed exactly when the value that it has passes the test.
  pub contains-keys_where :
      (p : V → Bool) (d : Dict V) (k : String)
      → is_unique d ≡ true
      → contains (keys_where p d) k ≡ passes p (get d k)
  unfolding contains keys_where is_unique get
  contains-keys_where p [] k u = refl
  contains-keys_where p ((j, v) ∷ d) k u =
      ground (arith, contains-keys_where p d k, keys_where_sub p d k, eq_iff j k)

  pub is_unique-put :
      (d : Dict V) (k : String) (v : V) → is_unique d ≡ true → is_unique (put d k v) ≡ true
  unfolding is_unique put keys contains
  is_unique-put [] k v u = refl
  is_unique-put ((j, w) ∷ d) k v u = ground (
    arith,
    is_unique-put d k v,
    contains-keys (put d k v) j,
    contains-keys d j,
    get-put d k v j,
    eq_iff j k,
    eq_iff k j,
  )
