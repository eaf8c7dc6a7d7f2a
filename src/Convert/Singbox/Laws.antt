-- ===== src/Convert/Singbox/Laws.antt =====
-- What `convert_singbox_node` of scripts/convert_sub.py guarantees of the proxy that it returns.
use mihomo_proxy_management.Prelude.{
  ℕ, String, List, [], ◌∷◌, Bool, true, not, ◌&&◌, ◌≡◌, refl, ap, ◌∙◌, subst, arith, str_eq,
  contains, all, inl, inr, Bool-cases,
}
use mihomo_proxy_management.Prelude.Dict.{Dict, get, keys}
use mihomo_proxy_management.Json.{Value, int, text, at}
use mihomo_proxy_management.Convert.Library.{Library}
use mihomo_proxy_management.Convert.Result.{ok, Result-cases}
use mihomo_proxy_management.Convert.Fields.{protected, Agrees, Agrees-refl}
use mihomo_proxy_management.Convert.Uri.{in_port_range}
use mihomo_proxy_management.Convert.Schemes.Laws.{is_valid_port}
use mihomo_proxy_management.Convert.Proxies.{
  Kind, anytls, ss, trojan, vless, tuic, hysteria2, kind_name,
}
use mihomo_proxy_management.Convert.Singbox.Options.{
  truthy_value, target_of, copy_options, copy_options-Agrees, check_fields,
}
use mihomo_proxy_management.Convert.Singbox.Tables.{
  fields_of, scale_of, dial_fields, allowed_of, required_of,
}
use mihomo_proxy_management.Convert.Singbox.{
  require, tag_name, start_proxy, fill_proxy, finish_proxy, convert_singbox_node,
}
use mihomo_proxy_management.Convert.Singbox.Keeps.{◌⟫◌, Keeps-ok}
use mihomo_proxy_management.Convert.Singbox.Credentials.{
  HasCredentials, HasCredentials-Agrees, fill_proxy-HasCredentials,
}
use mihomo_proxy_management.Convert.Singbox.Agreement.{
  durations_of-Keeps, apply_tls-Keeps, apply_transport-Keeps, apply_obfs-Keeps,
  apply_multiplex-Keeps,
}

abbrev endpoint_fields : List String
endpoint_fields = "type" ∷ "server" ∷ "port" ∷ []

abbrev pub are_filled : List String → Dict Value → Bool
are_filled names p = all (λ key. truthy_value (at p key)) names

fields_of-targets :
    (kind : Kind) → all (λ m. not (contains endpoint_fields (target_of m))) (fields_of kind) ≡ true
unfolding all contains target_of fields_of
fields_of-targets anytls = refl
fields_of-targets ss = refl
fields_of-targets trojan = refl
fields_of-targets vless = refl
fields_of-targets tuic = refl
fields_of-targets hysteria2 = refl

dial_fields-targets : all (λ m. not (contains endpoint_fields (target_of m))) dial_fields ≡ true
unfolding all contains target_of dial_fields
dial_fields-targets = refl

are_filled-eq :
    (kind : Kind) {d e : Dict Value}
    → Agrees protected d e
    → are_filled (required_of kind) d ≡ true
    → are_filled (required_of kind) e ≡ true
unfolding all required_of contains protected
are_filled-eq anytls a h = cc (a.equal "password" refl)
are_filled-eq ss a h = cc (a.equal "password" refl, a.equal "cipher" refl)
are_filled-eq trojan a h = cc (a.equal "password" refl)
are_filled-eq vless a h = cc (a.equal "uuid" refl)
are_filled-eq tuic a h = cc (a.equal "password" refl, a.equal "uuid" refl)
are_filled-eq hysteria2 a h = cc (a.equal "password" refl)

module _ (lib : Library) where
  start_proxy-endpoint :
      (kind : Kind) (server port tag : Value) (index : ℕ) (p : Dict Value)
      → start_proxy lib kind server port tag index ≡ ok p
      → (at p "type" ≡ text (kind_name kind))
        × (at p "server" ≡ server)
        × (at p "port" ≡ port)
        × (is_valid_port port ≡ true)
  unfolding start_proxy at get
  start_proxy-endpoint kind (text server) (int port) tag index p h =
      elim (Bool-cases (not (str_eq (lib.strip server) "") && in_port_range port)) [
        | inr c ↦ absurd (ground arith)
        | inl c ↦ elim (Result-cases (tag_name lib tag index)) [
          | inr (e, q) ↦ absurd (ground arith)
          | inl (name, q) ↦ ground arith
        ]
      ]
  start_proxy-endpoint kind _ _ tag index p h = absurd (ground arith)

  fill_proxy-Agrees :
      (kind : Kind) (node started checked : Dict Value)
      → fill_proxy lib kind node started ≡ ok checked
      → Agrees endpoint_fields started checked × (are_filled (required_of kind) checked ≡ true)
  unfolding fill_proxy require
  fill_proxy-Agrees kind node started checked h =
      elim (Result-cases (copy_options dial_fields node started)) [
        | inr (e, q) ↦ absurd (ground arith)
        | inl (dialled, q) ↦ elim (Result-cases (copy_options (fields_of kind) node dialled)) [
          | inr (e, r) ↦ absurd (ground arith)
          | inl (filled, r) ↦
              let a =
                copy_options-Agrees dial_fields node started dialled dial_fields-targets
                  (Agrees-refl started) q in
              let b =
                copy_options-Agrees (fields_of kind) node dialled filled (fields_of-targets kind) a
                  r in
              (subst (Agrees endpoint_fields started) (ground arith) b, ground arith)
        ]
      ]

  finish_proxy-Agrees :
      (kind : Kind) (node checked p : Dict Value)
      → finish_proxy lib kind node checked ≡ ok p
      → Agrees protected checked p
  unfolding finish_proxy
  finish_proxy-Agrees kind node checked p h =
      Keeps-ok _ p
        (durations_of-Keeps lib kind (scale_of kind) node checked (Agrees-refl checked) ⟫ λ t z.
          (apply_tls-Keeps kind node t z ⟫ λ f a.
          (apply_transport-Keeps node f a ⟫ λ g b.
          (apply_obfs-Keeps node g b ⟫ λ i c. apply_multiplex-Keeps kind node i c))))
        h

  -- An outbound that convert_singbox_node accepts has no option but those mapped for its type, and becomes
  -- a proxy of the type's own mihomo name, at the outbound's server and port, the port from 1 to 65535.
  -- The credentials that the type requires are there, not empty, and the outbound's own: the cipher is its
  -- `method`, the password its `password`, the uuid its `uuid`.
  pub convert_singbox_node-is_node :
      (kind : Kind) (node p : Dict Value) (index : ℕ)
      → convert_singbox_node lib kind node index ≡ ok p
      → (all (contains (allowed_of kind)) (keys node) ≡ true)
        × (at p "type" ≡ text (kind_name kind))
        × (at p "server" ≡ at node "server")
        × (at p "port" ≡ at node "server_port")
        × (is_valid_port (at p "port") ≡ true)
        × (are_filled (required_of kind) p ≡ true)
        × HasCredentials kind node p
  unfolding convert_singbox_node check_fields contains protected
  convert_singbox_node-is_node kind node p index h =
      elim (Bool-cases (all (contains (allowed_of kind)) (keys node))) [
        | inr n ↦ absurd (ground arith)
        | inl n ↦
            elim (Result-cases (
              start_proxy lib kind (at node "server") (at node "server_port") (at node "tag")
                index)) [
                  | inr (e, q) ↦ absurd (ground arith)
                  | inl (started, q) ↦ elim (Result-cases (fill_proxy lib kind node started)) [
                    | inr (e, r) ↦ absurd (ground arith)
                    | inl (checked, r) ↦
                        let (a, filled) = fill_proxy-Agrees kind node started checked r in
                        let b = finish_proxy-Agrees kind node checked p (ground arith) in
                        let (t, s, l, range) =
                          start_proxy-endpoint kind (at node "server") (at node "server_port")
                            (at node "tag") index started q in
                        (
                          n,
                          b.equal "type" refl ∙ a.equal "type" refl ∙ t,
                          b.equal "server" refl ∙ a.equal "server" refl ∙ s,
                          b.equal "port" refl ∙ a.equal "port" refl ∙ l,
                          ap is_valid_port (b.equal "port" refl ∙ a.equal "port" refl ∙ l) ∙ range,
                          are_filled-eq kind b filled,
                          HasCredentials-Agrees kind node b (
                              fill_proxy-HasCredentials lib kind (at node "server")
                                (at node "server_port") (at node "tag") index node started checked q
                                r),
                        )
                  ]
                ]
      ]
