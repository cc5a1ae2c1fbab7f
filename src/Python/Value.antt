-- ===== src/Python/Value.antt =====
-- The values that JSON documents hold: `None`, `bool`, `int`, `str`, `list` and `dict` with text keys,
-- in insertion order. Floats are left out.
use context_control_plane.Base.{
  ℕ, zero, suc, ◌+◌, ◌-◌, ◌*◌, code, String, ◌<>◌, Bool, true, false, ◌&&◌, Option, none, some,
  List, [], ◌∷◌, ◌==◌, leb, eqb, if◌then◌else◌,
}
use context_control_plane.Python.Error.{Result, ok, err, value_error, type_error}
use context_control_plane.Python.Text.{strip, is_empty, decimal, repr}

-- `negsuc n` is -(n + 1).
pub data ℤ : Type 0 where
  pos : ℕ → ℤ
  negsuc : ℕ → ℤ

-- `str(n)`
unfoldable pub show : ℤ → String
unfolding decimal
show (pos n) = decimal n
show (negsuc n) = "-" <> decimal (suc n)

mutual
  pub data Value : Type 0 where
    null : Value
    bool : Bool → Value
    num : ℤ → Value
    str : String → Value
    obj : Fields → Value
    arr : Items → Value

  pub data Items : Type 0 where
    nil : Items
    cons : Value → Items → Items

  -- A `dict`: each key once.
  pub data Fields : Type 0 where
    end : Fields
    field : String → Value → Fields → Fields

-- `bool(v)`
unfoldable pub truthy : Value → Bool
truthy null = false
truthy (bool b) = b
truthy (num (pos zero)) = false
truthy (num _) = true
truthy (str String.[]) = false
truthy (str _) = true
truthy (arr nil) = false
truthy (arr _) = true
truthy (obj end) = false
truthy (obj _) = true

-- `v in (None, "")`
unfoldable pub is_blank : Value → Bool
unfolding is_empty
is_blank null = true
is_blank (str s) = is_empty s
is_blank _ = false

-- `repr(v)`: a container is written with the `repr` of its parts.
unfoldable mutual
  unfolding show repr

  pub repr_value : Value → String
  repr_value null = "None"
  repr_value (bool true) = "True"
  repr_value (bool false) = "False"
  repr_value (num n) = show n
  repr_value (str s) = repr s
  repr_value (arr xs) = "[" <> repr_items true xs <> "]"
  repr_value (obj fs) = "{" <> repr_fields true fs <> "}"

  repr_items : Bool → Items → String
  repr_items first nil = ""
  repr_items first (cons v xs) = (if first then "" else ", ") <> repr_value v <> repr_items false xs

  repr_fields : Bool → Fields → String
  repr_fields first end = ""
  repr_fields first (field k v fs) =
      (if first then "" else ", ") <> repr k <> ": " <> repr_value v <> repr_fields false fs

-- `str(v)`
unfoldable pub text : Value → String
unfolding repr_value
text (str s) = s
text v = repr_value v

-- `str(v or d)`
unfoldable pub text_or : Value → String → String
unfolding truthy text
text_or v d = if truthy v then text v else d

-- `d.get(k)`, with `none` on a missing key.
unfoldable pub find : Fields → String → Option Value
find end k = none
find (field j v fs) k = if j == k then some v else find fs k

-- `d.get(k, default)`
unfoldable pub get_or : Fields → String → Value → Value
unfolding find
get_or fs k default = elim (find fs k) [ some v ↦ v | none ↦ default ]

-- `d.get(k)`
abbrev pub get : Fields → String → Value
get fs k = get_or fs k null

-- `k in d`
unfoldable pub has_key : Fields → String → Bool
unfolding find
has_key fs k = elim (find fs k) [ some v ↦ true | none ↦ false ]

-- `d[k] = v`
unfoldable pub put : Fields → String → Value → Fields
put end k v = field k v end
put (field j w fs) k v = if j == k then field j v fs else field j w (put fs k v)

-- `d.pop(k, None)`
unfoldable pub pop : Fields → String → Fields
pop end k = end
pop (field j w fs) k = if j == k then fs else field j w (pop fs k)

unfoldable pub items : List Value → Items
items [] = nil
items (v ∷ vs) = cons v (items vs)

-- A tuple of texts as a JSON array.
unfoldable pub texts : List String → Items
texts [] = nil
texts (s ∷ ss) = cons (str s) (texts ss)

-- The digits of a text, with single underscores between them; `none` at anything else.
parse_digits : ℕ → Bool → String → Option ℕ
parse_digits n after_digit String.[] = if after_digit then some n else none
parse_digits n after_digit (String.◌∷◌ c s) =
    let digit = parse_digits (n * 10 + (code c - 48)) true s in
    let underscore = parse_digits n false s in
    if leb 48 (code c) && leb (code c) 57
    then digit
    else if eqb (code c) 95 && after_digit
    then underscore
    else none

negate : ℕ → ℤ
negate zero = pos zero
negate (suc n) = negsuc n

parse_sign : String → Option ℤ
unfolding parse_digits negate
parse_sign String.[] = none
parse_sign (String.◌∷◌ c s) =
    if eqb (code c) 45
    then elim (parse_digits 0 false s) [ some n ↦ some (negate n) | none ↦ none ]
    else elim (if eqb (code c) 43
        then parse_digits 0 false s
        else parse_digits 0 false (String.◌∷◌ c s)) [ some n ↦ some (pos n) | none ↦ none ]

-- `int(v)`
unfoldable pub int : Value → Result ℤ
unfolding parse_sign strip repr
int null = err (
    type_error
      "int() argument must be a string, a bytes-like object or a real number, not 'NoneType'")
int (bool true) = ok (pos 1)
int (bool false) = ok (pos 0)
int (num n) = ok n
int (str s) = elim (parse_sign (strip s)) [
  | some n ↦ ok n
  | none ↦ err (value_error ("invalid literal for int() with base 10: " <> repr s))
]
int (arr xs) =
    err (
      type_error
        "int() argument must be a string, a bytes-like object or a real number, not 'list'")
int (obj fs) =
    err (
      type_error
        "int() argument must be a string, a bytes-like object or a real number, not 'dict'")

-- A `dict` that is written out, with different keys.
abbrev pub dict : List (String × Value) → Fields
dict [] = end
dict ((k, v) ∷ rest) = field k v (dict rest)

-- A list of `dict`s as a JSON array.
unfoldable pub objects : List Fields → Items
objects [] = nil
objects (fs ∷ rest) = cons (obj fs) (objects rest)
