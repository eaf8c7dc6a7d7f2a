-- ===== src/Convert/Uri.antt =====
-- The helpers of scripts/convert_sub.py that take a share URI apart: from `_truthy` to `_alpn_list`.
use mihomo_proxy_management.Prelude.{
  ℕ, String, List, [], ◌∷◌, Option, none, some, Bool, true, false, not, ◌&&◌, str_eq, contains,
  filter, map, ltb, if◌then◌else◌,
}
use mihomo_proxy_management.Prelude.Text.{append}
use mihomo_proxy_management.Prelude.Dict.{Dict, get}
use mihomo_proxy_management.Json.{ℤ, pos, negsuc}
use mihomo_proxy_management.Convert.Library.{Library}
use mihomo_proxy_management.Convert.Result.{Result, ok, err, bad_input, raised, ◌>>=◌}
use mihomo_proxy_management.Prelude.Strings.{drop_prefix, cut, cut_last, split_commas, occurs}

abbrev first_value : Option (List String) → Option String
first_value none = none
first_value (some []) = none
first_value (some (v ∷ vs)) = some v

-- `_p(params, key)`
unfoldable pub param : Dict (List String) → String → Option String
param params key = first_value (get params key)

-- `value or default`
unfoldable pub text_or : Option String → String → String
text_or none default = default
text_or (some s) default = if str_eq s "" then default else s

-- `value or other`
unfoldable pub or_else : Option String → Option String → Option String
or_else none other = other
or_else (some s) other = if str_eq s "" then other else some s

-- `0 < port < 65536`
unfoldable pub in_port_range : ℤ → Bool
in_port_range (pos n) = ltb 0 n && ltb n 65536
in_port_range (negsuc n) = false

abbrev port_of_int : ℤ → Result (Option ℕ)
port_of_int (pos n) = if in_port_range (pos n) then ok (some n) else err bad_input
port_of_int (negsuc n) = err bad_input

abbrev pub port_of_parsed : Option ℤ → Result (Option ℕ)
port_of_parsed none = err bad_input
port_of_parsed (some z) = port_of_int z

-- what stands after the bracket of an IPv6 host
unfoldable pub bracketed_port : String → String → Result (String × String)
bracketed_port host rest = elim (drop_prefix ":" rest) [
  | some port ↦ ok (host, port)
  | none ↦ if str_eq rest "" then ok (host, "") else err bad_input
]

-- the host and the text of the port
unfoldable pub split_port : String → Result (String × String)
split_port hostpart = elim (drop_prefix "[" hostpart) [
  | some inner ↦ elim (cut "]" inner) [
    | none ↦ err bad_input
    | some (host, rest) ↦ bracketed_port host rest
  ]
  | none ↦ elim (cut_last ":" hostpart) [
    | none ↦ ok (hostpart, "")
    | some (host, port) ↦ ok (host, port)
  ]
]

-- parts.split("#", 1): the text before, the text after or an empty one
unfoldable pub split_optional : String → String → String × String
split_optional sep s = elim (cut sep s) [ none ↦ (s, "") | some (a, b) ↦ (a, b) ]

-- userinfo and hostpart
unfoldable pub split_userinfo : String → String × String
split_userinfo rest = elim (cut_last "@" rest) [ none ↦ ("", rest) | some (a, b) ↦ (a, b) ]

-- hostpart and path
unfoldable pub split_path : String → String × String
split_path hostpart = elim (cut "/" hostpart) [
  | none ↦ (hostpart, "")
  | some (host, tail) ↦ (host, append "/" tail)
]

-- What `_split_authority` returns.
pub record Parts : Type 0 where
  pub userinfo : String
  pub host : String
  pub port : Option ℕ
  pub path : String
  pub params : Dict (List String)

module _ (lib : Library) where
  unfoldable pub truthy : Option String → Bool
  truthy none = false
  truthy (some s) = contains ("1" ∷ "true" ∷ "yes" ∷ "on" ∷ []) (lib.lower (lib.strip s))

  unfoldable pub port_of_text : String → Result (Option ℕ)
  port_of_text s = if str_eq s "" then ok none else port_of_parsed (lib.int_of s)

  -- the part of `_split_host_port` after the brackets and the colon
  unfoldable pub host_port : String → String → Result (String × Option ℕ)
  host_port quoted port_text = elim (str_eq (lib.unquote quoted) "") [
    | true ↦ err bad_input
    | false ↦ do port ← port_of_text port_text; ok (lib.unquote quoted, port)
  ]

  unfoldable pub split_host_port : String → Result (String × Option ℕ)
  split_host_port hostpart = elim (str_eq (lib.strip hostpart) "") [
    | true ↦ err bad_input
    | false ↦ do (quoted, port_text) ← split_port (lib.strip hostpart); host_port quoted port_text
  ]

  -- The scheme, the rest and the name. A base without "://" does not unpack.
  unfoldable pub split_scheme : String → String → Result (String × String × String)
  split_scheme base name = elim (cut "://" base) [
    | none ↦ err raised
    | some (scheme, rest) ↦ ok (lib.lower scheme, rest, name)
  ]

  unfoldable pub split_uri : String → Result (String × String × String)
  split_uri uri = elim (occurs "://" (lib.strip uri)) [
    | false ↦ err bad_input
    | true ↦ elim (cut "#" (lib.strip uri)) [
      | none ↦ split_scheme (lib.strip uri) ""
      | some (base, frag) ↦ split_scheme base (lib.unquote frag)
    ]
  ]

  unfoldable pub params_of : String → Dict (List String)
  params_of query = if str_eq query "" then [] else lib.parse_qs query

  unfoldable pub split_authority : String → Result Parts
  split_authority rest =
      let (rest, query) = split_optional "?" rest in
      let (userinfo, hostpart) = split_userinfo rest in
      let (hostpart, path) = split_path hostpart in
      do
        (host, port) ← split_host_port hostpart
        ok (record {
          userinfo = lib.unquote userinfo;
          host = host;
          port = port;
          path = path;
          params = params_of query;
        })

  unfoldable pub alpn_list : Dict (List String) → List String
  alpn_list params =
      let raw = text_or (param params "alpn") "" in
      if str_eq raw ""
      then []
      else filter (λ token. not (str_eq token "")) (map lib.strip (split_commas raw))
