-- ===== src/Python/Text.antt =====
-- The `str` methods that the sources call. `lower` is that of the ASCII letters: a letter of another
-- script stays as it is. `strip` removes what `str.isspace` accepts.
pub mod Laws
pub mod Case
pub mod Decimal
pub mod Order
use Prim.Native.String
use context_control_plane.Base.{
  ℕ, zero, suc, ◌+◌, ◌-◌, ◌*◌, ◌/◌, ◌%◌, Char, code, String, ◌<>◌, Bool, true, false, not, ◌&&◌,
  ◌||◌, Option, none, some, List, [], ◌∷◌, ◌==◌, ltb, leb, eqb, if◌then◌else◌,
}

-- The character at the place of `c` in the first text, taken from the second; else `c`.
unfoldable pub translate : String → String → Char → Char
translate (String.◌∷◌ u us) (String.◌∷◌ l ls) c =
    if eqb (code c) (code u) then l else translate us ls c
translate _ _ c = c

unfoldable pub map_char : (Char → Char) → String → String
map_char f String.[] = ""
map_char f (String.◌∷◌ c s) = String.◌∷◌ (f c) (map_char f s)

abbrev pub upper_letters : String
upper_letters = "ABCDEFGHIJKLMNOPQRSTUVWXYZ"

abbrev pub lower_letters : String
lower_letters = "abcdefghijklmnopqrstuvwxyz"

unfoldable pub lower_char : Char → Char
unfolding translate
lower_char = translate upper_letters lower_letters

-- `s.lower()`
unfoldable pub lower : String → String
unfolding map_char
lower = map_char lower_char

-- `c.isspace()`, by the number of the character; the `\s` of a pattern too.
unfoldable pub is_space_code : ℕ → Bool
is_space_code n =
    (leb 9 n && leb n 13)
    || (leb 28 n && leb n 32)
    || eqb n 133
    || eqb n 160
    || eqb n 5760
    || (leb 8192 n && leb n 8202)
    || eqb n 8232
    || eqb n 8233
    || eqb n 8239
    || eqb n 8287
    || eqb n 12288

unfoldable pub is_space : Char → Bool
unfolding is_space_code
is_space c = is_space_code (code c)

unfoldable pub is_empty : String → Bool
is_empty String.[] = true
is_empty (String.◌∷◌ c s) = false

-- `s.lstrip()`
unfoldable pub lstrip : String → String
lstrip String.[] = ""
lstrip (String.◌∷◌ c s) = if is_space c then lstrip s else String.◌∷◌ c s

-- `s.rstrip()`
unfoldable pub rstrip : String → String
rstrip String.[] = ""
rstrip (String.◌∷◌ c s) =
    let r = rstrip s in if is_empty r && is_space c then "" else String.◌∷◌ c r

-- `s.strip()`
unfoldable pub strip : String → String
unfolding is_space is_empty lstrip rstrip
strip s = rstrip (lstrip s)

-- `s.isascii()`
unfoldable pub is_ascii : String → Bool
is_ascii String.[] = true
is_ascii (String.◌∷◌ c s) = if ltb (code c) 128 then is_ascii s else false

-- `s or d`
unfoldable pub or_else : String → String → String
unfolding is_empty
or_else s d = if is_empty s then d else s

-- `s.startswith(p)`
unfoldable pub starts_with : String → String → Bool
starts_with s String.[] = true
starts_with String.[] (String.◌∷◌ d p) = false
starts_with (String.◌∷◌ c s) (String.◌∷◌ d p) =
    if eqb (code c) (code d) then starts_with s p else false

-- `needle in s`
unfoldable pub has_part : String → String → Bool
unfolding starts_with is_empty
has_part needle String.[] = is_empty needle
has_part needle (String.◌∷◌ c s) =
    let rest = has_part needle s in if starts_with (String.◌∷◌ c s) needle then true else rest

-- `len(s)`, in characters
unfoldable pub text_length : String → ℕ
text_length String.[] = 0
text_length (String.◌∷◌ c s) = suc (text_length s)

-- `", ".join(parts)` and the like
unfoldable pub join : String → List String → String
join sep [] = ""
join sep (x ∷ []) = x
join sep (x ∷ y ∷ rest) = x <> sep <> join sep (y ∷ rest)

-- One hexadecimal or decimal digit.
unfoldable pub digit_text : ℕ → String
digit_text n = pick "0123456789abcdef" n
  where
    pick : String → ℕ → String
    pick String.[] k = ""
    pick (String.◌∷◌ c s) zero = String.◌∷◌ c ""
    pick (String.◌∷◌ c s) (suc k) = pick s k

decimal_loop : ℕ → ℕ → String → String
decimal_loop zero n acc = acc
decimal_loop (suc fuel) n acc =
    let more = decimal_loop fuel (n / 10) (digit_text (n % 10) <> acc) in
    if ltb n 10 then digit_text n <> acc else more

-- `str(n)` of a number that is not negative: `n` has at most `n + 1` digits.
unfoldable pub decimal : ℕ → String
unfolding decimal_loop digit_text
decimal n = decimal_loop (suc n) n ""

-- One character inside `repr(s)`. A character above 126 that is printable stays, as all but the control
-- characters are taken to be.
repr_char : Char → Char → String
repr_char quote c =
    let n = code c in
    if eqb n 92 || eqb n (code quote)
    then String.◌∷◌ "\\" (String.◌∷◌ c "")
    else if eqb n 10
    then "\\n"
    else if eqb n 13
    then "\\r"
    else if eqb n 9
    then "\\t"
    else if ltb n 32 || (leb 127 n && leb n 160)
    then "\\x" <> digit_text (n / 16) <> digit_text (n % 16)
    else String.◌∷◌ c ""

repr_body : Char → String → String
repr_body quote String.[] = ""
repr_body quote (String.◌∷◌ c s) = repr_char quote c <> repr_body quote s

-- `repr(s)`, the `!r` of a format: double quotes only around a text that has single ones and no double.
unfoldable pub repr : String → String
unfolding repr_char repr_body has_part digit_text
repr s =
    if has_part "'" s && not (has_part "\"" s)
    then "\"" <> repr_body "\"" s <> "\""
    else "'" <> repr_body "'" s <> "'"
