-- ===== src/Convert/Singbox/Transport.antt =====
-- The parts of `convert_singbox_node` that map `transport`, `obfs` and `multiplex`.
use mihomo_proxy_management.Prelude.{
  String, List, [], ◌∷◌, Option, none, some, Bool, true, false, str_eq, map, if◌then◌else◌,
}
use mihomo_proxy_management.Prelude.Dict.{Dict, get, put}
use mihomo_proxy_management.Json.{Value, null, text, object, field, end, of_dict, to_dict, at}
use mihomo_proxy_management.Convert.Result.{Result, ok, err, bad_input, unsupported, ◌>>=◌}
use mihomo_proxy_management.Convert.Proxies.{Kind, ss, trojan, vless}
use mihomo_proxy_management.Convert.Singbox.Options.{
  Mapping, copy_option, copy_options, check_fields, source_of, enabled_in, word, whole, headers,
}
use mihomo_proxy_management.Convert.Singbox.Tables.{mux_fields}
use mihomo_proxy_management.Convert.Singbox.Tls.{filled_at, text_at}

unfoldable pub ws_fields : List Mapping
ws_fields =
    ("path", "path", word)
    ∷ ("headers", "headers", headers)
    ∷ ("max_early_data", "max-early-data", whole)
    ∷ ("early_data_header_name", "early-data-header-name", word)
    ∷ []

unfoldable pub apply_ws : Dict Value → Dict Value → Result (Dict Value)
apply_ws transport proxy = do
  option ←
      check_fields transport
        ("type" ∷ "path" ∷ "headers" ∷ "max_early_data" ∷ "early_data_header_name" ∷ [])
  opts ← copy_options ws_fields option []
  ok (put (put proxy "network" (text "ws")) "ws-opts" (object (of_dict opts)))

unfoldable pub apply_grpc : Dict Value → Dict Value → Result (Dict Value)
apply_grpc transport proxy = do
  option ← check_fields transport ("type" ∷ "service_name" ∷ [])
  name ← text_at option "service_name"
  ok (
      put (put proxy "network" (text "grpc")) "grpc-opts"
        (object (field "grpc-service-name" (text name) end)))

unfoldable pub apply_network : Value → Dict Value → Dict Value → Result (Dict Value)
apply_network (text network) transport proxy =
    if str_eq network "ws"
    then apply_ws transport proxy
    else if str_eq network "grpc"
    then apply_grpc transport proxy
    else err unsupported
apply_network _ transport proxy = err unsupported

unfoldable pub apply_transport_value : Value → Dict Value → Result (Dict Value)
apply_transport_value null proxy = ok proxy
apply_transport_value (object fs) proxy = apply_network (at (to_dict fs) "type") (to_dict fs) proxy
apply_transport_value _ proxy = err bad_input

unfoldable pub apply_transport : Dict Value → Dict Value → Result (Dict Value)
apply_transport node proxy = apply_transport_value (at node "transport") proxy

abbrev pub check_salamander : Value → Result String
check_salamander (text kind) = if str_eq kind "salamander" then ok kind else err unsupported
check_salamander _ = err unsupported

unfoldable pub apply_obfs_value : Option Value → Dict Value → Result (Dict Value)
apply_obfs_value none proxy = ok proxy
apply_obfs_value (some (object fs)) proxy = do
  obfs ← check_fields (to_dict fs) ("type" ∷ "password" ∷ [])
  kind ← check_salamander (at obfs "type")
  password ← filled_at obfs "password"
  ok (put (put proxy "obfs" (text kind)) "obfs-password" (text password))
apply_obfs_value (some _) proxy = err bad_input

unfoldable pub apply_obfs : Dict Value → Dict Value → Result (Dict Value)
apply_obfs node proxy = apply_obfs_value (get node "obfs") proxy

unfoldable pub maps_multiplex : Kind → Bool
maps_multiplex ss = true
maps_multiplex vless = true
maps_multiplex trojan = true
maps_multiplex _ = false

-- the mapping of an option of `multiplex`
unfoldable pub mux_field : List Mapping → String → Option Mapping
mux_field [] source = none
mux_field (m ∷ ms) source = if str_eq (source_of m) source then some m else mux_field ms source

-- for source, value in mux.items(), which were all checked to be mapped
unfoldable pub mux_opts : Dict Value → Dict Value → Result (Dict Value)
mux_opts [] opts = ok opts
mux_opts ((source, value) ∷ mux) opts = elim (mux_field mux_fields source) [
  | none ↦ err unsupported
  | some m ↦ do next ← copy_option m ((source, value) ∷ []) opts; mux_opts mux next
]

unfoldable pub put_smux : Bool → Dict Value → Dict Value → Result (Dict Value)
put_smux false mux proxy = err unsupported
put_smux true mux proxy = do opts ← mux_opts mux []; ok (put proxy "smux" (object (of_dict opts)))

unfoldable pub apply_multiplex_value : Kind → Option Value → Dict Value → Result (Dict Value)
apply_multiplex_value kind none proxy = ok proxy
apply_multiplex_value kind (some (object fs)) proxy = do
  mux ← check_fields (to_dict fs) (map source_of mux_fields)
  enabled ← enabled_in mux
  if enabled then put_smux (maps_multiplex kind) mux proxy else ok proxy
apply_multiplex_value kind (some _) proxy = err bad_input

unfoldable pub apply_multiplex : Kind → Dict Value → Dict Value → Result (Dict Value)
apply_multiplex kind node proxy = apply_multiplex_value kind (get node "multiplex") proxy
