-- ===== src/Convert/Singbox/Credentials.antt =====
-- Where `convert_singbox_node` of scripts/convert_sub.py takes the credentials of a proxy from.
use mihomo_proxy_management.Prelude.{
  ℕ, String, List, [], ◌∷◌, Option, none, some, Bool, true, false, not, ◌&&◌, ◌≡◌, refl, ◌∙◌, subst,
  arith, str_eq, eq_iff, contains, all, inl, inr, Bool-cases, Option-cases, if◌then◌else◌,
}
use mihomo_proxy_management.Prelude.Dict.{Dict, get}
use mihomo_proxy_management.Json.{Value, null, int, text, at, at-put}
use mihomo_proxy_management.Convert.Library.{Library}
use mihomo_proxy_management.Convert.Result.{ok, Error, Result-cases, bind-ok}
use mihomo_proxy_management.Convert.Uri.{in_port_range}
use mihomo_proxy_management.Convert.Fields.{protected, Agrees, Agrees-refl}
use mihomo_proxy_management.Convert.Proxies.{Kind, anytls, ss, trojan, vless, tuic, hysteria2}
use mihomo_proxy_management.Convert.Singbox.Options.{
  Mapping, target_of, put_checked, copy_option, copy_options, copy_options-Agrees,
}
use mihomo_proxy_management.Convert.Singbox.Tables.{fields_of, dial_fields}
use mihomo_proxy_management.Convert.Singbox.{tag_name, start_proxy, fill_proxy, require}

abbrev pub credential_fields : List String
credential_fields = "password" ∷ "uuid" ∷ "cipher" ∷ []

-- The credentials that mihomo reads for the type are the values of sing-box's own options.
unfoldable pub HasCredentials : Kind → Dict Value → Dict Value → Type 0
HasCredentials ss node p =
    (at p "cipher" ≡ at node "method") × (at p "password" ≡ at node "password")
HasCredentials vless node p = at p "uuid" ≡ at node "uuid"
HasCredentials tuic node p = (at p "uuid" ≡ at node "uuid") × (at p "password" ≡ at node "password")
HasCredentials anytls node p = at p "password" ≡ at node "password"
HasCredentials trojan node p = at p "password" ≡ at node "password"
HasCredentials hysteria2 node p = at p "password" ≡ at node "password"

-- no mapping has this target
abbrev spares : String → List Mapping → Bool
spares target ms = all (λ m. not (contains (target ∷ []) (target_of m))) ms

-- one mapping has this target, and that from this source
abbrev maps_once : String → String → List Mapping → Bool
maps_once source target [] = false
maps_once source target ((s, t, check) ∷ ms) =
    let rest = maps_once source target ms in
    if str_eq t target then str_eq s source && spares target ms else rest

put_checked-at :
    (error : Option Error) (e f : Dict Value) (target : String) (v : Value)
    → put_checked error e target v ≡ ok f
    → at f target ≡ v
unfolding put_checked
put_checked-at none e f target v q = ground (arith, at-put e target v target, eq_iff target target)
put_checked-at (some x) e f target v q = absurd (ground arith)

copy_option-at :
    (m : Mapping) (node e f : Dict Value) (source target : String)
    → copy_option m node e ≡ ok f
    → at e target ≡ null
    → m.0 ≡ source
    → m.1 ≡ target
    → at f target ≡ at node source
unfolding copy_option at
copy_option-at (s, t, check) node e f source target q n a b = elim (Option-cases (get node s)) [
  | inl g ↦ ground arith
  | inr (v, g) ↦ ground (arith, put_checked-at (check v) e f t v)
]

copy_option-spares :
    (m : Mapping) (node e f : Dict Value) (target : String)
    → copy_option m node e ≡ ok f
    → str_eq m.1 target ≡ false
    → at f target ≡ at e target
unfolding copy_options contains target_of all
copy_option-spares m node e f target q d =
    (copy_options-Agrees {ks = target ∷ []} (m ∷ []) node e f
        (ground (arith, eq_iff target m.1, eq_iff m.1 target)) (Agrees-refl e) (ground arith)).equal
      target (ground (arith, eq_iff target target))

-- An option that is mapped once is copied.
pub copy_options-at :
    (ms : List Mapping) (node e f : Dict Value) (source target : String)
    → maps_once source target ms ≡ true
    → at e target ≡ null
    → copy_options ms node e ≡ ok f
    → at f target ≡ at node source
unfolding copy_options contains
copy_options-at [] node e f source target o n q = absurd (ground arith)
copy_options-at ((s, t, check) ∷ ms) node e f source target o n q =
    let (g, r, rest) = bind-ok (copy_option (s, t, check) node e) _ f q in
    elim (Bool-cases (str_eq t target)) [
      | inr d ↦
          copy_options-at ms node g f source target (ground arith)
            (copy_option-spares (s, t, check) node e g target r d ∙ n) rest
      | inl d ↦
          (copy_options-Agrees {ks = target ∷ []} ms node g f (ground arith) (Agrees-refl g)
              rest).equal
            target (ground (arith, eq_iff target target))
          ∙ copy_option-at (s, t, check) node e g source target r n
              (ground (arith, eq_iff s source)) (ground (arith, eq_iff t target))
    ]

-- A proxy without credentials yet.
record IsBlank (p : Dict Value) : Type 0 where
  pub blank : (key : String) → contains credential_fields key ≡ true → at p key ≡ null

dial_fields-spare : all (λ m. not (contains credential_fields (target_of m))) dial_fields ≡ true
unfolding all contains target_of dial_fields
dial_fields-spare = refl

fields_of-HasCredentials :
    (kind : Kind) (node e f : Dict Value)
    → IsBlank e
    → copy_options (fields_of kind) node e ≡ ok f
    → HasCredentials kind node f
unfolding HasCredentials fields_of all contains target_of
fields_of-HasCredentials ss node e f b q = (
  copy_options-at (fields_of ss) node e f "method" "cipher" refl (b.blank "cipher" refl) q,
  copy_options-at (fields_of ss) node e f "password" "password" refl (b.blank "password" refl) q,
)
fields_of-HasCredentials tuic node e f b q = (
  copy_options-at (fields_of tuic) node e f "uuid" "uuid" refl (b.blank "uuid" refl) q,
  copy_options-at (fields_of tuic) node e f "password" "password" refl (b.blank "password" refl) q,
)
fields_of-HasCredentials vless node e f b q =
    copy_options-at (fields_of vless) node e f "uuid" "uuid" refl (b.blank "uuid" refl) q
fields_of-HasCredentials anytls node e f b q =
    copy_options-at (fields_of anytls) node e f "password" "password" refl (b.blank "password" refl)
      q
fields_of-HasCredentials trojan node e f b q =
    copy_options-at (fields_of trojan) node e f "password" "password" refl (b.blank "password" refl)
      q
fields_of-HasCredentials hysteria2 node e f b q =
    copy_options-at (fields_of hysteria2) node e f "password" "password" refl
      (b.blank "password" refl) q

-- Steps that leave the protected fields as they are leave the credentials as they are.
pub HasCredentials-Agrees :
    (kind : Kind) (node : Dict Value) {d e : Dict Value}
    → Agrees protected d e
    → HasCredentials kind node d
    → HasCredentials kind node e
unfolding HasCredentials contains protected
HasCredentials-Agrees ss node a (c, p) = (a.equal "cipher" refl ∙ c, a.equal "password" refl ∙ p)
HasCredentials-Agrees tuic node a (u, p) = (a.equal "uuid" refl ∙ u, a.equal "password" refl ∙ p)
HasCredentials-Agrees vless node a u = a.equal "uuid" refl ∙ u
HasCredentials-Agrees anytls node a p = a.equal "password" refl ∙ p
HasCredentials-Agrees trojan node a p = a.equal "password" refl ∙ p
HasCredentials-Agrees hysteria2 node a p = a.equal "password" refl ∙ p

module _ (lib : Library) where
  start_proxy-blank :
      (kind : Kind) (server port tag : Value) (index : ℕ) (p : Dict Value)
      → start_proxy lib kind server port tag index ≡ ok p
      → (at p "password" ≡ null) × (at p "uuid" ≡ null) × (at p "cipher" ≡ null)
  unfolding start_proxy at get
  start_proxy-blank kind (text server) (int port) tag index p h =
      elim (Bool-cases (not (str_eq (lib.strip server) "") && in_port_range port)) [
        | inr c ↦ absurd (ground arith)
        | inl c ↦ elim (Result-cases (tag_name lib tag index)) [
          | inr (e, q) ↦ absurd (ground arith)
          | inl (name, q) ↦ ground arith
        ]
      ]
  start_proxy-blank kind _ _ tag index p h = absurd (ground arith)

  start_proxy-IsBlank :
      (kind : Kind) (server port tag : Value) (index : ℕ) (p : Dict Value)
      → start_proxy lib kind server port tag index ≡ ok p
      → IsBlank p
  unfolding contains
  start_proxy-IsBlank kind server port tag index p h =
      let (a, b, c) = start_proxy-blank kind server port tag index p h in
      record {
        blank = λ key m.
            ground (arith, a, b, c, eq_iff "password" key, eq_iff "uuid" key, eq_iff "cipher" key);
      }

  pub fill_proxy-HasCredentials :
      (kind : Kind) (server port tag : Value) (index : ℕ) (node started checked : Dict Value)
      → start_proxy lib kind server port tag index ≡ ok started
      → fill_proxy lib kind node started ≡ ok checked
      → HasCredentials kind node checked
  unfolding fill_proxy require
  fill_proxy-HasCredentials kind server port tag index node started checked s h =
      let b = start_proxy-IsBlank kind server port tag index started s in
      elim (Result-cases (copy_options dial_fields node started)) [
        | inr (e, q) ↦ absurd (ground arith)
        | inl (dialled, q) ↦ elim (Result-cases (copy_options (fields_of kind) node dialled)) [
          | inr (e, r) ↦ absurd (ground arith)
          | inl (filled, r) ↦
              let a =
                copy_options-Agrees dial_fields node started dialled dial_fields-spare
                  (Agrees-refl started) q in
              let blank : IsBlank dialled = record {
                blank = λ key m. a.equal key m ∙ b.blank key m;
              } in
              let same : filled ≡ checked = ground arith in
              subst (HasCredentials kind node) same
                (fields_of-HasCredentials kind node dialled filled blank r)
        ]
      ]
