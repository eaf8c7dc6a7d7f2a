-- ===== src/Convert/Detect/Errors.antt =====
-- `convert_content` of scripts/convert_sub.py raises no exception but ConvertError.
use mihomo_proxy_management.Prelude.{
  ℕ, zero, suc, String, List, [], ◌∷◌, Option, none, some, true, ◌≡◌, refl, arith, inl, inr,
  Option-cases,
}
use mihomo_proxy_management.Prelude.Dict.{Dict, get}
use mihomo_proxy_management.Json.{Value, list, object, to_dict, to_list}
use mihomo_proxy_management.Convert.Library.{Library}
use mihomo_proxy_management.Convert.Result.{Result, err, bad_input, is_caught, bind-is_caught}
use mihomo_proxy_management.Convert.Detect.{
  Payload, extract_proxies, proxies_of, json_payload, uri_payload, pure_uris, yaml_list,
  yaml_payload, split_uri_lines, detect_json, detect_uris, decoded_text, detect_stripped,
  detect_input,
}

proxies_of-is_caught : (v : Option Value) → is_caught (proxies_of v) ≡ true
proxies_of-is_caught (some (list vs)) = refl
proxies_of-is_caught none = refl
proxies_of-is_caught (some _) = refl

json_payload-is_caught : (v : Option Value) (d : Dict Value) → is_caught (json_payload v d) ≡ true
unfolding extract_proxies
json_payload-is_caught (some (list vs)) d = refl
json_payload-is_caught none d =
    bind-is_caught (extract_proxies d) _ (proxies_of-is_caught (get d "proxies")) λ ps. refl
json_payload-is_caught (some _) d = refl

module _ (lib : Library) where
  uri_payload-is_caught :
      (found : List String × ℕ) (otherwise : Result (Payload × ℕ))
      → is_caught otherwise ≡ true
      → is_caught (uri_payload found otherwise) ≡ true
  uri_payload-is_caught ([], dropped) otherwise h = h
  uri_payload-is_caught (u ∷ us, dropped) otherwise h = refl

  detect_uris-is_caught : (content : String) → is_caught (detect_uris lib content) ≡ true
  unfolding detect_uris
  detect_uris-is_caught content =
      let plain = uri_payload-is_caught (split_uri_lines lib content) (err bad_input) refl in
      ground (
        arith,
        plain,
        uri_payload-is_caught (split_uri_lines lib (decoded_text lib content)) _ plain,
      )

  pure_uris-is_caught : (found : List String × ℕ) → is_caught (pure_uris found) ≡ true
  pure_uris-is_caught (u ∷ us, zero) = refl
  pure_uris-is_caught (u ∷ us, suc n) = refl
  pure_uris-is_caught ([], n) = refl

  yaml_list-is_caught :
      (vs : List Value) (content : String) → is_caught (yaml_list lib vs content) ≡ true
  yaml_list-is_caught [] content = detect_uris-is_caught content
  yaml_list-is_caught (v ∷ vs) content = ground (arith, detect_uris-is_caught content)

  yaml_payload-is_caught :
      (v : Option Value) (content : String) → is_caught (yaml_payload lib v content) ≡ true
  unfolding extract_proxies
  yaml_payload-is_caught none content = pure_uris-is_caught (split_uri_lines lib content)
  yaml_payload-is_caught (some (object fs)) content =
      bind-is_caught (extract_proxies (to_dict fs)) _
        (proxies_of-is_caught (get (to_dict fs) "proxies")) λ ps. refl
  yaml_payload-is_caught (some (list vs)) content = yaml_list-is_caught (to_list vs) content
  yaml_payload-is_caught (some _) content = detect_uris-is_caught content

  detect_json-is_caught : (content : String) → is_caught (detect_json lib content) ≡ true
  unfolding detect_json
  detect_json-is_caught content = elim (Option-cases (lib.loads content)) [
    | inl e ↦ ground arith
    | inr (d, e) ↦ ground (arith, json_payload-is_caught (get d "outbounds") d)
  ]

  detect_stripped-is_caught : (content : String) → is_caught (detect_stripped lib content) ≡ true
  unfolding detect_stripped
  detect_stripped-is_caught content = ground (
    arith,
    detect_json-is_caught content,
    yaml_payload-is_caught (lib.safe_load content) content,
    detect_uris-is_caught content,
  )

  pub detect_input-is_caught : (content : String) → is_caught (detect_input lib content) ≡ true
  unfolding detect_input
  detect_input-is_caught content = detect_stripped-is_caught _
