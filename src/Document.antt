-- ===== src/Document.antt =====
-- What `yaml.safe_load` and the controller's `json.loads` return, as far as scripts/lib/check_group_refs.py and
-- linux/python/mpm/lifecycle.py look at it. The keys of a mapping are texts.
use mihomo_proxy_management.Prelude.{
  String, List, [], ◌∷◌, Option, none, some, Bool, true, false, not, str_eq, if◌then◌else◌,
}
use mihomo_proxy_management.Prelude.Dict.{Dict, get, keys}

mutual
  pub data Node : Type 0 where
    null : Node
    -- a number, a Boolean or a date, by its truth value
    scalar : Bool → Node
    text : String → Node
    sequence : Nodes → Node
    mapping : Entries → Node

  pub data Nodes : Type 0 where
    nil : Nodes
    cons : Node → Nodes → Nodes

  pub data Entries : Type 0 where
    end : Entries
    entry : String → Node → Entries → Entries

unfoldable pub items : Nodes → List Node
items nil = []
items (cons n ns) = n ∷ items ns

unfoldable pub entries : Entries → Dict Node
entries end = []
entries (entry k n es) = (k, n) ∷ entries es

-- d.get(k), where a missing key reads as None
unfoldable pub field_of : Dict Node → String → Node
field_of d k = elim (get d k) [ none ↦ null | some n ↦ n ]

-- the characters of a text, as texts
unfoldable pub characters : String → List Node
characters String.[] = []
characters (String.◌∷◌ c s) = text (String.◌∷◌ c String.[]) ∷ characters s

unfoldable pub key_nodes : List String → List Node
key_nodes [] = []
key_nodes (k ∷ ks) = text k ∷ key_nodes ks

-- `for item in node or []`; `none` is a TypeError
unfoldable pub iterate : Node → Option (List Node)
iterate null = some []
iterate (scalar false) = some []
iterate (scalar true) = none
iterate (text s) = some (characters s)
iterate (sequence ns) = some (items ns)
iterate (mapping es) = some (key_nodes (keys (entries es)))

-- the value where it is a text
abbrev pub text_of : Node → Option String
text_of (text s) = some s
text_of _ = none

-- bool(node)
unfoldable pub is_true : Node → Bool
is_true null = false
is_true (scalar b) = b
is_true (text s) = not (str_eq s "")
is_true (sequence nil) = false
is_true (sequence (cons n ns)) = true
is_true (mapping end) = false
is_true (mapping (entry k n es)) = true

-- `a or b`
abbrev pub or_node : Node → Node → Node
or_node a b = if is_true a then a else b
