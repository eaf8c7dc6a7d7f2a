-- ===== src/Tests/Commands.antt =====
-- The parsers and the command line of the conversion, on small inputs.
use mihomo_proxy_management.Prelude.{String, List, [], ◌∷◌, true, ◌≡◌, refl, all, any, contains}
use mihomo_proxy_management.Prelude.Dict.{Dict, get, put, keys}
use mihomo_proxy_management.Json.{
  Value, ℤ, pos, int, text, list, object, field, end, cons, nil, to_dict, to_list, at,
}
use mihomo_proxy_management.Json
use mihomo_proxy_management.Convert.Result.{ok}
use mihomo_proxy_management.Prelude.Strings.{drop_prefix, cut, cut_last, occurs}
use mihomo_proxy_management.Convert.Uri.{
  param, text_or, or_else, truthy, in_port_range, port_of_text, host_port, split_port,
  split_host_port, split_scheme, split_uri, split_optional, split_userinfo, split_path, params_of,
  split_authority, alpn_list,
}
use mihomo_proxy_management.Convert.Fields.{put_flag, put_texts}
use mihomo_proxy_management.Convert.Proxies.{
  ss, trojan, kind_name, port_or_443, node_name, endpoint, endpoint_of, sni_of, any_truthy,
  trojan_proxy,
}
use mihomo_proxy_management.Convert.Schemes.{uri_parts, with_userinfo, parse_trojan_uri, parse_uri}
use mihomo_proxy_management.Convert.Schemes.Laws.{is_node, is_valid_port, parse_uri-is_node}
use mihomo_proxy_management.Convert.Singbox.Options.{
  truthy_value, check_fields, copy_options, copy_option, put_checked, source_of, table_at,
  enabled_in,
}
use mihomo_proxy_management.Convert.Singbox.Tables.{
  fields_of, durations_of, scale_of, dial_fields, allowed_of, required_of,
}
use mihomo_proxy_management.Convert.Singbox.Tls.{apply_disabled, apply_tls}
use mihomo_proxy_management.Convert.Singbox.Transport.{
  apply_transport, apply_transport_value, apply_obfs, apply_obfs_value, apply_multiplex,
  apply_multiplex_value,
}
use mihomo_proxy_management.Convert.Singbox.{
  require, copy_durations, tag_name, start_proxy, fill_proxy, finish_proxy, convert_singbox_node,
}
use mihomo_proxy_management.Convert.Singbox.Credentials.{HasCredentials}
use mihomo_proxy_management.Convert.Singbox.Laws.{convert_singbox_node-is_node, are_filled}
use mihomo_proxy_management.Tests.Conversions.{library}

abbrev pub link : String
link = "trojan://pw@host:443#node"

-- the node of the link
abbrev pub trojan_node : Dict Value
trojan_node =
    ("name", text "node")
    ∷ ("type", text "trojan")
    ∷ ("server", text "host")
    ∷ ("port", int (pos 443))
    ∷ ("password", text "pw")
    ∷ ("udp", Json.true)
    ∷ ("sni", text "host")
    ∷ []

pub link-parsed : parse_uri library trojan link ≡ ok trojan_node
unfolding parse_uri parse_trojan_uri uri_parts with_userinfo split_uri split_scheme split_authority
    split_optional split_userinfo split_path split_host_port split_port host_port port_of_text
    params_of occurs cut cut_last drop_prefix trojan_proxy endpoint_of endpoint node_name kind_name
    port_or_443 sni_of any_truthy truthy param get put text_or or_else put_flag put_texts alpn_list
    in_port_range any
link-parsed = refl

parse_uri-is_node_example : is_node trojan trojan_node ≡ true
parse_uri-is_node_example = parse_uri-is_node library trojan link trojan_node link-parsed

abbrev outbound : Dict Value
outbound =
    ("type", text "shadowsocks")
    ∷ ("tag", text "node")
    ∷ ("server", text "host")
    ∷ ("server_port", int (pos 443))
    ∷ ("method", text "aes-128-gcm")
    ∷ ("password", text "pw")
    ∷ []

abbrev outbound_node : Dict Value
outbound_node =
    ("name", text "node")
    ∷ ("type", text "ss")
    ∷ ("server", text "host")
    ∷ ("port", int (pos 443))
    ∷ ("udp", Json.true)
    ∷ ("cipher", text "aes-128-gcm")
    ∷ ("password", text "pw")
    ∷ []

outbound-converted : convert_singbox_node library ss outbound 0 ≡ ok outbound_node
unfolding convert_singbox_node check_fields allowed_of fields_of durations_of scale_of dial_fields
    required_of start_proxy tag_name fill_proxy finish_proxy copy_options copy_option put_checked
    require truthy_value copy_durations apply_tls apply_disabled table_at enabled_in apply_transport
    apply_transport_value apply_obfs apply_obfs_value apply_multiplex apply_multiplex_value
    source_of at get put keys all contains to_dict kind_name in_port_range
outbound-converted = refl

convert_singbox_node-is_node_example :
    (all (contains (allowed_of ss)) (keys outbound) ≡ true)
    × (at outbound_node "type" ≡ text (kind_name ss))
    × (at outbound_node "server" ≡ at outbound "server")
    × (at outbound_node "port" ≡ at outbound "server_port")
    × (is_valid_port (at outbound_node "port") ≡ true)
    × (are_filled (required_of ss) outbound_node ≡ true)
    × HasCredentials ss outbound outbound_node
convert_singbox_node-is_node_example =
    convert_singbox_node-is_node library ss outbound outbound_node 0 outbound-converted

abbrev two_proxies : List Value
two_proxies =
    object (field "type" (text "ss") end) ∷ object (field "type" (text "wireguard") end) ∷ []
