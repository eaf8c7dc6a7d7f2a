-- ===== src/Convert/Fields.antt =====
-- The assignments to a proxy of scripts/convert_sub.py, and the fields that they leave as they are.
use mihomo_proxy_management.Prelude.{
  String, List, [], ◌∷◌, Option, none, some, Bool, ◌≡◌, refl, arith, str_eq, eq_iff, contains, map,
  Bool-cases, inl, inr, if◌then◌else◌,
}
use mihomo_proxy_management.Prelude.Dict.{Dict, put}
use mihomo_proxy_management.Json.{
  Value, ℤ, pos, int, text, list, object, Fields, field, end, of_list, at, at-put,
}
use mihomo_proxy_management.Json

-- if value: proxy[key] = value
unfoldable pub put_truthy : Dict Value → String → Option String → Dict Value
put_truthy d key none = d
put_truthy d key (some s) = if str_eq s "" then d else put d key (text s)

-- if flag: proxy[key] = True
unfoldable pub put_flag : Dict Value → String → Bool → Dict Value
put_flag d key flag = if flag then put d key Json.true else d

-- proxy[key] = the texts, where there are any
unfoldable pub put_texts : Dict Value → String → List String → Dict Value
put_texts d key [] = d
put_texts d key (s ∷ ss) = put d key (list (of_list (map text (s ∷ ss))))

-- proxy[key] = int(value), or the text where that is a ValueError
unfoldable pub put_number : Dict Value → String → Option String → (String → Option ℤ) → Dict Value
put_number d key none int_of = d
put_number d key (some s) int_of = put d key (elim (int_of s) [ none ↦ text s | some z ↦ int z ])

-- The fields that say where a node is and how to log in.
unfoldable pub protected : List String
protected = "type" ∷ "server" ∷ "port" ∷ "password" ∷ "uuid" ∷ "cipher" ∷ []

-- `e` has the fields `ks` as `d` has them.
pub record Agrees (ks : List String) (d e : Dict Value) : Type 0 where
  pub equal : (j : String) → contains ks j ≡ Bool.true → at e j ≡ at d j

pub Agrees-refl : {ks : List String} (d : Dict Value) → Agrees ks d d
Agrees-refl d = record { equal = λ j h. refl }

module _ {ks : List String} {d e : Dict Value} (key : String) where
  pub put-Agrees :
      (v : Value) → contains ks key ≡ Bool.false → Agrees ks d e → Agrees ks d (put e key v)
  put-Agrees v h a = record {
    equal = λ j m. ground (arith, at-put e key v j, eq_iff key j, a.equal j);
  }

  pub put_truthy-Agrees :
      (value : Option String)
      → contains ks key ≡ Bool.false
      → Agrees ks d e
      → Agrees ks d (put_truthy e key value)
  unfolding put_truthy
  put_truthy-Agrees none h a = a
  put_truthy-Agrees (some s) h a = elim (Bool-cases (str_eq s "")) [
    | inl q ↦ rw q a
    | inr q ↦ rw q (put-Agrees (text s) h a)
  ]

  pub put_flag-Agrees :
      (flag : Bool)
      → contains ks key ≡ Bool.false
      → Agrees ks d e
      → Agrees ks d (put_flag e key flag)
  unfolding put_flag
  put_flag-Agrees Bool.true h a = put-Agrees Json.true h a
  put_flag-Agrees Bool.false h a = a

  pub put_texts-Agrees :
      (ts : List String)
      → contains ks key ≡ Bool.false
      → Agrees ks d e
      → Agrees ks d (put_texts e key ts)
  unfolding put_texts
  put_texts-Agrees [] h a = a
  put_texts-Agrees (t ∷ ts) h a = put-Agrees (list (of_list (map text (t ∷ ts)))) h a

  pub put_number-Agrees :
      (value : Option String) (int_of : String → Option ℤ)
      → contains ks key ≡ Bool.false
      → Agrees ks d e
      → Agrees ks d (put_number e key value int_of)
  unfolding put_number
  put_number-Agrees none int_of h a = a
  put_number-Agrees (some s) int_of h a =
      put-Agrees (elim (int_of s) [ none ↦ text s | some z ↦ int z ]) h a
