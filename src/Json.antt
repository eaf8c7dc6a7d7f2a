-- ===== src/Json.antt =====
-- What `json.loads` returns, with Python's numbers. scripts/proxy-auto-switch.py reads its state file
-- through it, and trusts no field to have the type that it wrote.
use mihomo_proxy_management.Prelude.{
  ℕ, String, List, [], ◌∷◌, none, some, ◌≡◌, refl, ap, arith, str_eq, if◌then◌else◌,
}
use mihomo_proxy_management.Prelude.Dict.{Dict, get, put, get-put}

-- Python's `int`; `negsuc n` is -(n + 1).
pub data ℤ : Type 0 where
  pos negsuc : ℕ → ℤ

-- max(0, z)
abbrev pub pos_part : ℤ → ℕ
pos_part (pos n) = n
pos_part (negsuc n) = 0

-- A finite float has its integer part, which `int(value)` takes from it, and its text.
pub data Float : Type 0 where
  nan infinity : Float
  finite : ℤ → String → Float

mutual
  pub data Value : Type 0 where
    null true false : Value
    int : ℤ → Value
    float : Float → Value
    text : String → Value
    list : Items → Value
    object : Fields → Value

  pub data Items : Type 0 where
    nil : Items
    cons : Value → Items → Items

  pub data Fields : Type 0 where
    end : Fields
    field : String → Value → Fields → Fields

unfoldable pub to_list : Items → List Value
to_list nil = []
to_list (cons v vs) = v ∷ to_list vs

unfoldable pub of_list : List Value → Items
of_list [] = nil
of_list (v ∷ vs) = cons v (of_list vs)

unfoldable pub to_dict : Fields → Dict Value
to_dict end = []
to_dict (field k v fs) = (k, v) ∷ to_dict fs

unfoldable pub of_dict : Dict Value → Fields
of_dict [] = end
of_dict ((k, v) ∷ d) = field k v (of_dict d)

-- d.get(k), where a missing key reads as None
unfoldable pub at : Dict Value → String → Value
at d k = elim (get d k) [ none ↦ null | some v ↦ v ]

pub to_list-of_list : (vs : List Value) → to_list (of_list vs) ≡ vs
unfolding to_list of_list
to_list-of_list [] = refl
to_list-of_list (v ∷ vs) = ap (◌∷◌ v) (to_list-of_list vs)

pub at-put :
    (d : Dict Value) (k : String) (v : Value) (j : String)
    → at (put d k v) j ≡ (if str_eq k j then v else at d j)
unfolding at
at-put d k v j = ground (arith, get-put d k v j)

pub to_dict-of_dict : (d : Dict Value) → to_dict (of_dict d) ≡ d
unfolding to_dict of_dict
to_dict-of_dict [] = refl
to_dict-of_dict ((k, v) ∷ d) = ap (◌∷◌ (k, v)) (to_dict-of_dict d)
