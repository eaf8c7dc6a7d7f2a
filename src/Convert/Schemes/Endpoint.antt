-- ===== src/Convert/Schemes/Endpoint.antt =====
-- Where the nodes of the share URIs stand: scripts/convert_sub.py checks the host and the port of every one.
use mihomo_proxy_management.Prelude.{
  ℕ, String, Option, none, some, Bool, true, false, ◌≡◌, arith, str_eq, inl, inr, Bool-cases,
}
use mihomo_proxy_management.Json.{ℤ, pos, negsuc}
use mihomo_proxy_management.Convert.Library.{Library}
use mihomo_proxy_management.Convert.Result.{ok, Result-cases}
use mihomo_proxy_management.Convert.Uri.{
  in_port_range, port_of_parsed, port_of_text, split_port, host_port, split_host_port,
}

abbrev pub is_port : Option ℕ → Bool
is_port none = true
is_port (some n) = in_port_range (pos n)

port_of_parsed-is_port :
    (z : Option ℤ) (port : Option ℕ) → port_of_parsed z ≡ ok port → is_port port ≡ true
port_of_parsed-is_port none port h = ground arith
port_of_parsed-is_port (some (pos n)) port h = ground arith
port_of_parsed-is_port (some (negsuc n)) port h = ground arith

module _ (lib : Library) where
  port_of_text-is_port :
      (s : String) (port : Option ℕ) → port_of_text lib s ≡ ok port → is_port port ≡ true
  unfolding port_of_text
  port_of_text-is_port s port h = ground (arith, port_of_parsed-is_port (lib.int_of s) port)

  host_port-range :
      (quoted port_text host : String) (port : Option ℕ)
      → host_port lib quoted port_text ≡ ok (host, port)
      → (str_eq host "" ≡ false) × (is_port port ≡ true)
  unfolding host_port
  host_port-range quoted port_text host port h =
      elim (Bool-cases (str_eq (lib.unquote quoted) "")) [
        | inl q ↦ absurd (ground arith)
        | inr q ↦ elim (Result-cases (port_of_text lib port_text)) [
          | inr (e, r) ↦ absurd (ground arith)
          | inl (p, r) ↦ ground (arith, port_of_text-is_port port_text p r)
        ]
      ]

  pub split_host_port-range :
      (hostpart host : String) (port : Option ℕ)
      → split_host_port lib hostpart ≡ ok (host, port)
      → (str_eq host "" ≡ false) × (is_port port ≡ true)
  unfolding split_host_port
  split_host_port-range hostpart host port h = elim (Bool-cases (str_eq (lib.strip hostpart) "")) [
    | inl q ↦ absurd (ground arith)
    | inr q ↦ elim (Result-cases (split_port (lib.strip hostpart))) [
      | inr (e, r) ↦ absurd (ground arith)
      | inl ((quoted, port_text), r) ↦ host_port-range quoted port_text host port (ground arith)
    ]
  ]
