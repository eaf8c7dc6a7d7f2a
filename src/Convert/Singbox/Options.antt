-- ===== src/Convert/Singbox/Options.antt =====
-- The options of an outbound: the checks of their types, and the assignments to the proxy.
use mihomo_proxy_management.Prelude.{
  ℕ, String, List, [], ◌∷◌, Option, none, some, Bool, not, ◌||◌, ◌&&◌, str_eq, all, contains,
  if◌then◌else◌, ◌≡◌, subst, arith, Option-cases, inl, inr,
}
use mihomo_proxy_management.Prelude.Dict.{Dict, get, put, keys}
use mihomo_proxy_management.Json.{
  Value, null, int, float, text, list, object, ℤ, pos, negsuc, Float, nan, infinity, finite, Items,
  nil, cons, Fields, field, end, at, to_dict,
}
use mihomo_proxy_management.Json
use mihomo_proxy_management.Convert.Result.{
  Result, ok, err, Error, bad_input, unsupported, ◌>>=◌, bind-ok,
}
use mihomo_proxy_management.Convert.Fields.{Agrees, put-Agrees}

-- bool(value); the text of a float zero is "0.0" or "-0.0"
unfoldable pub truthy_value : Value → Bool
truthy_value null = Bool.false
truthy_value Json.true = Bool.true
truthy_value Json.false = Bool.false
truthy_value (int (pos n)) = elim n [ ℕ.zero ↦ Bool.false | ℕ.suc m ↦ Bool.true ]
truthy_value (int (negsuc n)) = Bool.true
truthy_value (float nan) = Bool.true
truthy_value (float infinity) = Bool.true
truthy_value (float (finite z s)) = not (str_eq s "0.0" || str_eq s "-0.0")
truthy_value (text s) = not (str_eq s "")
truthy_value (list nil) = Bool.false
truthy_value (list (cons v vs)) = Bool.true
truthy_value (object end) = Bool.false
truthy_value (object (field k v fs)) = Bool.true

abbrev is_word : Value → Bool
is_word (text s) = Bool.true
is_word _ = Bool.false

abbrev is_whole : Value → Bool
is_whole (int z) = Bool.true
is_whole _ = Bool.false

abbrev is_count : Value → Bool
is_count (int (pos n)) = Bool.true
is_count _ = Bool.false

abbrev is_flag : Value → Bool
is_flag Json.true = Bool.true
is_flag Json.false = Bool.true
is_flag _ = Bool.false

abbrev are_words : Items → Bool
are_words nil = Bool.true
are_words (cons v vs) = is_word v && are_words vs

abbrev is_words : Value → Bool
is_words (list vs) = are_words vs
is_words _ = Bool.false

abbrev have_words : Fields → Bool
have_words end = Bool.true
have_words (field k v fs) = is_word v && have_words fs

-- The check of the value of an option: `none`, or the error that it raises.
abbrev Check : Type 0
Check = Value → Option Error

abbrev expects : (Value → Bool) → Check
expects passes v = if passes v then none else some bad_input

abbrev pub word : Check
word = expects is_word

-- `expected is int and value < 0` is an error
abbrev pub count : Check
count = expects is_count

abbrev pub whole : Check
whole = expects is_whole

abbrev pub flag : Check
flag = expects is_flag

abbrev pub words : Check
words = expects is_words

abbrev pub headers : Check
headers (object fs) = if have_words fs then none else some unsupported
headers _ = some bad_input

-- An option of the outbound, the option of the proxy, and the check.
abbrev pub Mapping : Type 0
Mapping = String × String × Check

unfoldable pub target_of : Mapping → String
target_of (source, target, check) = target

unfoldable pub source_of : Mapping → String
source_of (source, target, check) = source

unfoldable pub put_checked : Option Error → Dict Value → String → Value → Result (Dict Value)
put_checked none proxy target v = ok (put proxy target v)
put_checked (some e) proxy target v = err e

unfoldable pub copy_option : Mapping → Dict Value → Dict Value → Result (Dict Value)
copy_option (source, target, check) node proxy = elim (get node source) [
  | none ↦ ok proxy
  | some v ↦ put_checked (check v) proxy target v
]

-- for source, target in ...: the options that are there
unfoldable pub copy_options : List Mapping → Dict Value → Dict Value → Result (Dict Value)
copy_options [] node proxy = ok proxy
copy_options (m ∷ ms) node proxy = do copied ← copy_option m node proxy; copy_options ms node copied

-- `_check_fields`; the table where nothing is raised
unfoldable pub check_fields : Dict Value → List String → Result (Dict Value)
check_fields d allowed = if all (contains allowed) (keys d) then ok d else err unsupported

abbrev table_of : Value → Result (Dict Value)
table_of (object fs) = ok (to_dict fs)
table_of _ = err bad_input

abbrev flag_of : Value → Result Bool
flag_of Json.true = ok Bool.true
flag_of Json.false = ok Bool.false
flag_of _ = err bad_input

-- the option where it is an object, an empty one where it is missing
unfoldable pub table_at : Dict Value → String → Result (Dict Value)
table_at d key = elim (get d key) [ none ↦ ok [] | some v ↦ table_of v ]

-- `enabled` of a table
unfoldable pub enabled_in : Dict Value → Result Bool
enabled_in d = elim (get d "enabled") [ none ↦ ok Bool.false | some v ↦ flag_of v ]

module _ {ks : List String} {d : Dict Value} where
  put_checked-Agrees :
      (error : Option Error) (e f : Dict Value) (target : String) (v : Value)
      → contains ks target ≡ Bool.false
      → Agrees ks d e
      → put_checked error e target v ≡ ok f
      → Agrees ks d f
  unfolding put_checked
  put_checked-Agrees none e f target v h a q =
      subst (Agrees ks d) (ground arith) (put-Agrees target v h a)
  put_checked-Agrees (some x) e f target v h a q = absurd (ground arith)

  copy_option-Agrees :
      (m : Mapping) (node e f : Dict Value)
      → contains ks (target_of m) ≡ Bool.false
      → Agrees ks d e
      → copy_option m node e ≡ ok f
      → Agrees ks d f
  unfolding copy_option target_of
  copy_option-Agrees (source, target, check) node e f h a q =
      elim (Option-cases (get node source)) [
        | inl n ↦ subst (Agrees ks d) (ground arith) a
        | inr (v, n) ↦ put_checked-Agrees (check v) e f target v h a (ground arith)
      ]

  -- Options copied to other fields leave the fields `ks` as they are.
  pub copy_options-Agrees :
      (ms : List Mapping) (node e f : Dict Value)
      → all (λ m. not (contains ks (target_of m))) ms ≡ Bool.true
      → Agrees ks d e
      → copy_options ms node e ≡ ok f
      → Agrees ks d f
  unfolding copy_options all
  copy_options-Agrees [] node e f h a q = subst (Agrees ks d) (ground arith) a
  copy_options-Agrees (m ∷ ms) node e f h a q =
      let (g, r, s) = bind-ok (copy_option m node e) _ f q in
      copy_options-Agrees ms node g f (ground arith)
        (copy_option-Agrees m node e g (ground arith) a r) s
