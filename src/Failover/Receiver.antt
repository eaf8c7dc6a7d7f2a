-- ===== src/Failover/Receiver.antt =====
-- `resolve_receive_id` of scripts/proxy-auto-switch.py: who gets the alerts.
use Prim.Native.Char.{code}
use mihomo_proxy_management.Prelude.{
  not, String, Option, none, some, Bool, true, false, ◌&&◌, ◌≡◌, ◌==◌, str_eq, refl, inl, inr,
  Option-cases, if◌then◌else◌, arith,
}
use mihomo_proxy_management.Prelude.Dict.{Dict, get}
use mihomo_proxy_management.Document.{Node, text, mapping, entries, field_of, or_node}

-- text.startswith(prefix)
unfoldable pub starts_with : String → String → Bool
starts_with s String.[] = true
starts_with String.[] (String.◌∷◌ d prefix) = false
starts_with (String.◌∷◌ c s) (String.◌∷◌ d prefix) =
    let rest = starts_with s prefix in code c == code d && rest

-- the receive_id_type; `named` is one that the target file gives
pub data IdType : Type 0 where
  open_id chat_id union_id user_id : IdType
  named : String → IdType

pub data Receiver : Type 0 where
  found : String → IdType → Receiver
  nobody attribute_error : Receiver

abbrev or_empty : Option String → String
or_empty none = ""
or_empty (some s) = s

unfoldable pub id_type : String → IdType
id_type value =
    if starts_with value "ou_"
    then open_id
    else if starts_with value "oc_"
    then chat_id
    else if starts_with value "on_"
    then union_id
    else chat_id

-- (data.get(a) or data.get(b) or "").strip(); `none` is an AttributeError
unfoldable pub stripped_field : (String → String) → Node → String → String → Option String
stripped_field strip (mapping es) a b =
    elim (or_node (field_of (entries es) a) (or_node (field_of (entries es) b) (text ""))) [
      | text s ↦ some (strip s)
      | _ ↦ none
    ]
stripped_field strip _ a b = none

abbrev typed : String → String → Receiver
typed rid rtype =
    if str_eq rid ""
    then nobody
    else if not (str_eq rtype "")
    then found rid (named rtype)
    else if starts_with rid "oc_"
    then found rid chat_id
    else found rid open_id

-- the target file, `none` where it cannot be read or is no JSON
unfoldable pub from_file : (String → String) → Option Node → Receiver
from_file strip none = nobody
from_file strip (some data_) = elim (stripped_field strip data_ "receive_id" "chat_id") [
  | none ↦ attribute_error
  | some rid ↦ elim (stripped_field strip data_ "receive_id_type" "id_type") [
    | none ↦ attribute_error
    | some rtype ↦ typed rid rtype
  ]
]

abbrev pub given : (String → String) → Dict String → String → String
given strip env key = strip (or_empty (get env key))

unfoldable pub resolve_receive_id : (String → String) → Dict String → Option Node → Receiver
resolve_receive_id strip env target =
    if not (str_eq (given strip env "FEISHU_RECEIVE_ID") "")
    then found (given strip env "FEISHU_RECEIVE_ID") (id_type (given strip env "FEISHU_RECEIVE_ID"))
    else if not (str_eq (given strip env "FEISHU_CHAT_ID") "")
    then found (given strip env "FEISHU_CHAT_ID") chat_id
    else if not (str_eq (given strip env "FEISHU_OPEN_ID") "")
    then found (given strip env "FEISHU_OPEN_ID") open_id
    else if not (str_eq (given strip env "FEISHU_USER_ID") "")
    then found (given strip env "FEISHU_USER_ID") user_id
    else from_file strip target

abbrev pub is_complete : Receiver → Bool
is_complete (found rid (named rtype)) = not (str_eq rid "") && not (str_eq rtype "")
is_complete (found rid _) = not (str_eq rid "")
is_complete nobody = true
is_complete attribute_error = true

typed-is_complete : (rid rtype : String) → is_complete (typed rid rtype) ≡ true
typed-is_complete rid rtype = ground arith

from_file-is_complete :
    (strip : String → String) (target : Option Node) → is_complete (from_file strip target) ≡ true
unfolding from_file
from_file-is_complete strip none = refl
from_file-is_complete strip (some n) =
    elim (Option-cases (stripped_field strip n "receive_id" "chat_id")) [
      | inl e ↦ ground (arith, e)
      | inr (rid, e) ↦ elim (Option-cases (stripped_field strip n "receive_id_type" "id_type")) [
        | inl f ↦ ground (arith, e, f)
        | inr (rtype, f) ↦ ground (arith, e, f, typed-is_complete rid rtype)
      ]
    ]

-- A receiver that is found has an id, and where its type is read from the target file, a type.
pub resolve_receive_id-is_complete :
    (strip : String → String) (env : Dict String) (target : Option Node)
    → is_complete (resolve_receive_id strip env target) ≡ true
unfolding resolve_receive_id id_type
resolve_receive_id-is_complete strip env target = ground (arith, from_file-is_complete strip target)
