-- ===== src/Convert/Singbox/Agreement.antt =====
-- The steps of `convert_singbox_node` leave the address and the credentials of the proxy as they are.
use mihomo_proxy_management.Prelude.{
  ℕ, String, List, [], ◌∷◌, Option, none, some, Bool, true, false, not, ◌≡◌, refl, str_eq, contains,
  all, arith,
}
use mihomo_proxy_management.Prelude.Dict.{Dict, get, put}
use mihomo_proxy_management.Json.{Value, ℤ, null, int, text, object, to_dict, at}
use mihomo_proxy_management.Convert.Library.{Library}
use mihomo_proxy_management.Convert.Result.{Result, ◌>>=◌}
use mihomo_proxy_management.Convert.Fields.{protected, Agrees, put-Agrees}
use mihomo_proxy_management.Convert.Proxies.{Kind, anytls, ss, trojan, vless, tuic, hysteria2}
use mihomo_proxy_management.Convert.Singbox.Options.{
  target_of, copy_options, table_at, enabled_in, check_fields,
}
use mihomo_proxy_management.Convert.Singbox.Tables.{tls_fields, durations_of}
use mihomo_proxy_management.Convert.Singbox.Tls.{
  enable_tls, maps_utls, maps_reality, put_fingerprint, put_reality, apply_utls, apply_reality,
  apply_enabled, apply_disabled, apply_tls, always_tls, filled_at, text_at,
}
use mihomo_proxy_management.Convert.Singbox.Transport.{
  apply_ws, apply_grpc, apply_network, apply_transport_value, apply_transport, apply_obfs_value,
  apply_obfs, apply_multiplex_value, apply_multiplex, maps_multiplex, ws_fields, mux_opts, put_smux,
  check_salamander,
}
use mihomo_proxy_management.Convert.Singbox.{copy_durations, duration}
use mihomo_proxy_management.Convert.Singbox.Keeps.{
  Keeps, keeps, fails, bind-Keeps, ◌⟫◌, if-Keeps, copy_options-Keeps,
}

-- `tls` goes to fields of its own.
tls_fields-protected :
    (kind : Kind) → all (λ m. not (contains protected (target_of m))) (tls_fields kind) ≡ true
unfolding all tls_fields target_of contains protected
tls_fields-protected vless = refl
tls_fields-protected ss = refl
tls_fields-protected trojan = refl
tls_fields-protected anytls = refl
tls_fields-protected tuic = refl
tls_fields-protected hysteria2 = refl

module _ {d : Dict Value} where
  enable_tls-Keeps :
      (kind : Kind) (e : Dict Value) → Agrees protected d e → Keeps protected d (enable_tls kind e)
  unfolding enable_tls contains protected
  enable_tls-Keeps ss e a = fails
  enable_tls-Keeps vless e a = keeps (put-Agrees "tls" _ refl a)
  enable_tls-Keeps trojan e a = keeps a
  enable_tls-Keeps anytls e a = keeps a
  enable_tls-Keeps tuic e a = keeps a
  enable_tls-Keeps hysteria2 e a = keeps a

  put_fingerprint-Keeps :
      (mapped : Bool) (option e : Dict Value)
      → Agrees protected d e
      → Keeps protected d (put_fingerprint mapped option e)
  unfolding put_fingerprint contains protected
  put_fingerprint-Keeps false option e a = fails
  put_fingerprint-Keeps true option e a =
      bind-Keeps (filled_at option "fingerprint")
        λ fingerprint. keeps (put-Agrees "client-fingerprint" _ refl a)

  apply_utls-Keeps :
      (kind : Kind) (tls e : Dict Value)
      → Agrees protected d e
      → Keeps protected d (apply_utls kind tls e)
  unfolding apply_utls
  apply_utls-Keeps kind tls e a = bind-Keeps (table_at tls "utls") λ table.
      bind-Keeps (enabled_in table) λ enabled.
        bind-Keeps (check_fields table ("enabled" ∷ "fingerprint" ∷ []))
          λ option. if-Keeps enabled (put_fingerprint-Keeps (maps_utls kind) option e a) (keeps a)

  put_reality-Keeps :
      (mapped : Bool) (option e : Dict Value)
      → Agrees protected d e
      → Keeps protected d (put_reality mapped option e)
  unfolding put_reality contains protected
  put_reality-Keeps false option e a = fails
  put_reality-Keeps true option e a =
      bind-Keeps (filled_at option "public_key") λ key.
        bind-Keeps (text_at option "short_id") λ id. keeps (put-Agrees "reality-opts" _ refl a)

  apply_reality-Keeps :
      (kind : Kind) (tls e : Dict Value)
      → Agrees protected d e
      → Keeps protected d (apply_reality kind tls e)
  unfolding apply_reality
  apply_reality-Keeps kind tls e a = bind-Keeps (table_at tls "reality") λ table.
      bind-Keeps (enabled_in table) λ enabled.
        bind-Keeps (check_fields table ("enabled" ∷ "public_key" ∷ "short_id" ∷ []))
          λ option. if-Keeps enabled (put_reality-Keeps (maps_reality kind) option e a) (keeps a)

  apply_enabled-Keeps :
      (kind : Kind) (tls e : Dict Value)
      → Agrees protected d e
      → Keeps protected d (apply_enabled kind tls e)
  unfolding apply_enabled
  apply_enabled-Keeps kind tls e a = enable_tls-Keeps kind e a ⟫ λ f b.
      (copy_options-Keeps (tls_fields kind) tls f (tls_fields-protected kind) b ⟫ λ g c.
      (apply_utls-Keeps kind tls g c ⟫ λ h k. apply_reality-Keeps kind tls h k))

  apply_disabled-Keeps :
      (kind : Kind) (tls e : Dict Value)
      → Agrees protected d e
      → Keeps protected d (apply_disabled kind tls e)
  unfolding apply_disabled
  apply_disabled-Keeps kind [] e a = keeps a
  apply_disabled-Keeps kind (kv ∷ tls) e a = if-Keeps (always_tls kind) fails (keeps a)

  pub apply_tls-Keeps :
      (kind : Kind) (node e : Dict Value)
      → Agrees protected d e
      → Keeps protected d (apply_tls kind node e)
  unfolding apply_tls
  apply_tls-Keeps kind node e a = bind-Keeps (table_at node "tls") λ table.
      bind-Keeps
        (check_fields table
          ("enabled" ∷ "server_name" ∷ "insecure" ∷ "alpn" ∷ "utls" ∷ "reality" ∷ []))
        λ tls. bind-Keeps (enabled_in tls) λ enabled.
          if-Keeps enabled (apply_enabled-Keeps kind tls e a) (apply_disabled-Keeps kind tls e a)

  apply_ws-Keeps :
      (transport e : Dict Value) → Agrees protected d e → Keeps protected d (apply_ws transport e)
  unfolding apply_ws contains protected
  apply_ws-Keeps transport e a = bind-Keeps (check_fields transport _) λ option.
      bind-Keeps (copy_options ws_fields option [])
        λ opts. keeps (put-Agrees "ws-opts" _ refl (put-Agrees "network" _ refl a))

  apply_grpc-Keeps :
      (transport e : Dict Value) → Agrees protected d e → Keeps protected d (apply_grpc transport e)
  unfolding apply_grpc contains protected
  apply_grpc-Keeps transport e a = bind-Keeps (check_fields transport _) λ option.
      bind-Keeps (text_at option "service_name")
        λ name. keeps (put-Agrees "grpc-opts" _ refl (put-Agrees "network" _ refl a))

  apply_network-Keeps :
      (network : Value) (transport e : Dict Value)
      → Agrees protected d e
      → Keeps protected d (apply_network network transport e)
  unfolding apply_network
  apply_network-Keeps (text network) transport e a =
      if-Keeps (str_eq network "ws") (apply_ws-Keeps transport e a)
        (if-Keeps (str_eq network "grpc") (apply_grpc-Keeps transport e a) fails)
  apply_network-Keeps _ transport e a = fails

  apply_transport_value-Keeps :
      (v : Value) (e : Dict Value)
      → Agrees protected d e
      → Keeps protected d (apply_transport_value v e)
  unfolding apply_transport_value
  apply_transport_value-Keeps null e a = keeps a
  apply_transport_value-Keeps (object fs) e a =
      apply_network-Keeps (at (to_dict fs) "type") (to_dict fs) e a
  apply_transport_value-Keeps _ e a = fails

  pub apply_transport-Keeps :
      (node e : Dict Value) → Agrees protected d e → Keeps protected d (apply_transport node e)
  unfolding apply_transport
  apply_transport-Keeps node e a = apply_transport_value-Keeps (at node "transport") e a

  apply_obfs_value-Keeps :
      (v : Option Value) (e : Dict Value)
      → Agrees protected d e
      → Keeps protected d (apply_obfs_value v e)
  unfolding apply_obfs_value contains protected
  apply_obfs_value-Keeps none e a = keeps a
  apply_obfs_value-Keeps (some (object fs)) e a = bind-Keeps (check_fields (to_dict fs) _) λ obfs.
      bind-Keeps (check_salamander (at obfs "type")) λ kind.
        bind-Keeps (filled_at obfs "password")
          λ password. keeps (put-Agrees "obfs-password" _ refl (put-Agrees "obfs" _ refl a))
  apply_obfs_value-Keeps (some _) e a = fails

  pub apply_obfs-Keeps :
      (node e : Dict Value) → Agrees protected d e → Keeps protected d (apply_obfs node e)
  unfolding apply_obfs
  apply_obfs-Keeps node e a = apply_obfs_value-Keeps (get node "obfs") e a

  put_smux-Keeps :
      (mapped : Bool) (mux e : Dict Value)
      → Agrees protected d e
      → Keeps protected d (put_smux mapped mux e)
  unfolding put_smux contains protected
  put_smux-Keeps false mux e a = fails
  put_smux-Keeps true mux e a =
      bind-Keeps (mux_opts mux []) λ opts. keeps (put-Agrees "smux" _ refl a)

  apply_multiplex_value-Keeps :
      (kind : Kind) (v : Option Value) (e : Dict Value)
      → Agrees protected d e
      → Keeps protected d (apply_multiplex_value kind v e)
  unfolding apply_multiplex_value contains protected
  apply_multiplex_value-Keeps kind none e a = keeps a
  apply_multiplex_value-Keeps kind (some (object fs)) e a =
      bind-Keeps (check_fields (to_dict fs) _) λ mux.
        bind-Keeps (enabled_in mux)
          λ enabled. if-Keeps enabled (put_smux-Keeps (maps_multiplex kind) mux e a) (keeps a)
  apply_multiplex_value-Keeps kind (some _) e a = fails

  pub apply_multiplex-Keeps :
      (kind : Kind) (node e : Dict Value)
      → Agrees protected d e
      → Keeps protected d (apply_multiplex kind node e)
  unfolding apply_multiplex
  apply_multiplex-Keeps kind node e a = apply_multiplex_value-Keeps kind (get node "multiplex") e a

  copy_duration-Keeps :
      (lib : Library) (target : String) (scale : ℕ) (v : Option Value)
      → {r : Result (Dict Value)} {next : ℤ → Result (Dict Value)} → Keeps protected d r
      → ((z : ℤ) → Keeps protected d (next z))
      → Keeps protected d (elim v [ none ↦ r | some w ↦ duration lib w scale >>= next ])
  copy_duration-Keeps lib target scale none k l = k
  copy_duration-Keeps lib target scale (some w) k l = bind-Keeps (duration lib w scale) l

  copy_durations-Keeps :
      (lib : Library) (ds : List (String × String)) (scale : ℕ) (node e : Dict Value)
      → all (λ source_target. not (contains protected source_target.1)) ds ≡ true
      → Agrees protected d e
      → Keeps protected d (copy_durations lib ds scale node e)
  unfolding copy_durations all
  copy_durations-Keeps lib [] scale node e h a = keeps a
  copy_durations-Keeps lib ((source, target) ∷ ds) scale node e h a =
      copy_duration-Keeps lib target scale (get node source)
        (copy_durations-Keeps lib ds scale node e (ground arith) a)
        λ z.
          copy_durations-Keeps lib ds scale node (put e target (int z)) (ground arith)
            (put-Agrees target (int z) (ground arith) a)

  pub durations_of-Keeps :
      (lib : Library) (kind : Kind) (scale : ℕ) (node e : Dict Value)
      → Agrees protected d e
      → Keeps protected d (copy_durations lib (durations_of kind) scale node e)
  unfolding durations_of all contains protected
  durations_of-Keeps lib anytls scale node e a = copy_durations-Keeps lib _ scale node e refl a
  durations_of-Keeps lib tuic scale node e a = copy_durations-Keeps lib _ scale node e refl a
  durations_of-Keeps lib _ scale node e a = copy_durations-Keeps lib [] scale node e refl a
