-- ===== src/Convert/Singbox/Keeps.antt =====
-- What a step of `convert_singbox_node` leaves in the proxy, where it does not raise.
use mihomo_proxy_management.Prelude.{
  String, List, Bool, true, false, not, ◌≡◌, refl, subst, arith, if◌then◌else◌, contains, all,
}
use mihomo_proxy_management.Prelude.Dict.{Dict}
use mihomo_proxy_management.Json.{Value}
use mihomo_proxy_management.Convert.Result.{Result, ok, err, Error, ◌>>=◌}
use mihomo_proxy_management.Convert.Fields.{Agrees}
use mihomo_proxy_management.Convert.Singbox.Options.{
  Mapping, target_of, copy_options, copy_options-Agrees,
}

-- The result raises, or has the fields `ks` as `d` has them.
pub data Keeps (ks : List String) (d : Dict Value) : Result (Dict Value) → Type 0 where
  keeps : {e : Dict Value} → Agrees ks d e → Keeps ks d (ok e)
  fails : {x : Error} → Keeps ks d (err x)

module _ {ks : List String} {d : Dict Value} where
  pub bind-Keeps :
      {A : Type 0} (r : Result A) {g : A → Result (Dict Value)}
      → ((a : A) → Keeps ks d (g a))
      → Keeps ks d (r >>= g)
  bind-Keeps (ok a) h = h a
  bind-Keeps (err e) h = fails

  infixl 1 ◌⟫◌
  pub ◌⟫◌ :
      {r : Result (Dict Value)} {g : Dict Value → Result (Dict Value)}
      → Keeps ks d r
      → ((e : Dict Value) → Agrees ks d e → Keeps ks d (g e))
      → Keeps ks d (r >>= g)
  keeps {e} a ⟫ h = h e a
  fails ⟫ h = fails

  pub if-Keeps :
      {r s : Result (Dict Value)} (b : Bool)
      → Keeps ks d r
      → Keeps ks d s
      → Keeps ks d (if b then r else s)
  if-Keeps true k l = k
  if-Keeps false k l = l

  pub Keeps-ok :
      (r : Result (Dict Value)) (e : Dict Value) → Keeps ks d r → r ≡ ok e → Agrees ks d e
  Keeps-ok (ok f) e (keeps a) h = subst (Agrees ks d) (ground arith) a
  Keeps-ok (err x) e fails h = absurd (ground arith)

  pub Keeps-of :
      (r : Result (Dict Value)) → ((e : Dict Value) → r ≡ ok e → Agrees ks d e) → Keeps ks d r
  Keeps-of (ok e) h = keeps (h e refl)
  Keeps-of (err x) h = fails

  pub copy_options-Keeps :
      (ms : List Mapping) (node e : Dict Value)
      → all (λ m. not (contains ks (target_of m))) ms ≡ true
      → Agrees ks d e
      → Keeps ks d (copy_options ms node e)
  copy_options-Keeps ms node e h a =
      Keeps-of (copy_options ms node e) λ f q. copy_options-Agrees ms node e f h a q
