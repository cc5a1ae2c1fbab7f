-- ===== src/Python/Json.antt =====
-- `json.dumps(value, sort_keys=True, separators=(",", ":"), ensure_ascii=True)`.
use Prim.Native.Nat.{Ordering}
use Prim.Native.String.{compare}
use context_control_plane.Base.{
  ℕ, ◌+◌, ◌-◌, ◌/◌, ◌%◌, Char, code, String, ◌<>◌, Bool, true, false, ◌||◌, ◌&&◌, List, [], ◌∷◌,
  leb, eqb, if◌then◌else◌,
}
use context_control_plane.Python.Text.{digit_text, join}
use context_control_plane.Python.Value.{
  Value, null, bool, num, str, arr, obj, Items, nil, cons, Fields, end, field, show,
}

-- `\uXXXX`
unit_escape : ℕ → String
unfolding digit_text
unit_escape n =
    "\\u"
    <> digit_text (n / 4096)
    <> digit_text (n / 256 % 16)
    <> digit_text (n / 16 % 16)
    <> digit_text (n % 16)

-- A character inside a JSON text; above 65535 as two surrogates.
escape_char : Char → String
unfolding unit_escape
escape_char c =
    let n = code c in
    if eqb n 34 || eqb n 92
    then String.◌∷◌ "\\" (String.◌∷◌ c "")
    else if eqb n 10
    then "\\n"
    else if eqb n 13
    then "\\r"
    else if eqb n 9
    then "\\t"
    else if eqb n 8
    then "\\b"
    else if eqb n 12
    then "\\f"
    else if leb 32 n && leb n 126
    then String.◌∷◌ c ""
    else if leb n 65535
    then unit_escape n
    else unit_escape (55296 + (n - 65536) / 1024) <> unit_escape (56320 + (n - 65536) % 1024)

escape : String → String
unfolding escape_char
escape String.[] = ""
escape (String.◌∷◌ c s) = escape_char c <> escape s

-- `"…"`
unfoldable pub quoted : String → String
unfolding escape
quoted s = "\"" <> escape s <> "\""

-- `a <= b`, by code points.
unfoldable pub text_le : String → String → Bool
text_le a b = elim (compare a b) [ Ordering.gt ↦ false | _ ↦ true ]

-- A written pair, put before the pairs with a larger key.
insert_pair : String → String → List (String × String) → List (String × String)
unfolding text_le
insert_pair k v [] = (k, v) ∷ []
insert_pair k v ((j, w) ∷ rest) =
    if text_le k j then (k, v) ∷ (j, w) ∷ rest else (j, w) ∷ insert_pair k v rest

pair_texts : List (String × String) → List String
unfolding quoted
pair_texts [] = []
pair_texts ((k, v) ∷ rest) = (quoted k <> ":" <> v) ∷ pair_texts rest

unfoldable mutual
  unfolding insert_pair pair_texts quoted join show

  pub dumps : Value → String
  dumps null = "null"
  dumps (bool true) = "true"
  dumps (bool false) = "false"
  dumps (num n) = show n
  dumps (str s) = quoted s
  dumps (arr xs) = "[" <> join "," (dumps_items xs) <> "]"
  dumps (obj fs) = "{" <> join "," (pair_texts (dumps_fields fs)) <> "}"

  pub dumps_items : Items → List String
  dumps_items nil = []
  dumps_items (cons v xs) = dumps v ∷ dumps_items xs

  -- The written values by key, in the order of the keys.
  pub dumps_fields : Fields → List (String × String)
  dumps_fields end = []
  dumps_fields (field k v fs) = insert_pair k (dumps v) (dumps_fields fs)
