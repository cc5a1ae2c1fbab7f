-- ===== src/Upgrade/Versions.antt =====
-- kernel/upgrade.py: the comparison of versions, and the ranges that a version satisfies.

use context_control_plane.Base.{
  ℕ, zero, suc, ◌-◌, Char, code, String, Bool, true, false, not, List, [], ◌∷◌, ◌++◌, ltb, leb, eqb,
  length, if◌then◌else◌,
}
use context_control_plane.Python.Error.{Result, ok, ◌>>=◌}
use context_control_plane.Python.Text.{strip, is_empty, is_space, starts_with}
use context_control_plane.Python.Value.{ℤ, pos, negsuc, str, int}

-- The pieces of a text between the characters that the test accepts, empty ones included: a piece is
-- put before the others when the text goes on with a separator.
unfoldable pub pieces : (Char → Bool) → String → List String
pieces cut String.[] = "" ∷ []
pieces cut (String.◌∷◌ c s) =
    let rest = pieces cut s in
    if cut c
    then "" ∷ rest
    else elim rest [ [] ↦ String.◌∷◌ c "" ∷ [] | p ∷ ps ↦ String.◌∷◌ c p ∷ ps ]

unfoldable pub non_empty : List String → List String
non_empty [] = []
non_empty (s ∷ ss) = let rest = non_empty ss in if is_empty s then rest else s ∷ rest

unfoldable pub is_dot : Char → Bool
is_dot c = eqb (code c) 46

unfoldable pub int_parts : List String → Result (List ℤ)
int_parts [] = ok []
int_parts (s ∷ ss) = do n ← int (str s); rest ← int_parts ss; ok (n ∷ rest)

-- `tuple(int(part) for part in parts)`, or `(0,)` where there are none.
unfoldable pub tuple_of : List String → Result (List ℤ)
tuple_of [] = ok (pos 0 ∷ [])
tuple_of (s ∷ ss) = int_parts (s ∷ ss)

-- `_version_tuple`
unfoldable pub version_tuple : String → Result (List ℤ)
version_tuple raw = tuple_of (non_empty (pieces is_dot (strip raw)))

unfoldable pub ℤ_lt : ℤ → ℤ → Bool
ℤ_lt (pos m) (pos n) = ltb m n
ℤ_lt (pos m) (negsuc n) = false
ℤ_lt (negsuc m) (pos n) = true
ℤ_lt (negsuc m) (negsuc n) = ltb n m

-- `a < b` on tuples.
unfoldable pub tuple_lt : List ℤ → List ℤ → Bool
tuple_lt xs [] = false
tuple_lt [] (y ∷ ys) = true
tuple_lt (x ∷ xs) (y ∷ ys) =
    let rest = tuple_lt xs ys in if ℤ_lt x y then true else if ℤ_lt y x then false else rest

-- `(0,) * n`
unfoldable pub zeros : ℕ → List ℤ
zeros zero = []
zeros (suc n) = pos 0 ∷ zeros n

unfoldable pub max : ℕ → ℕ → ℕ
max m n = if leb m n then n else m

-- `left_tuple + (0,) * (size - len(left_tuple))`
unfoldable pub padded : List ℤ → ℕ → List ℤ
padded xs size = xs ++ zeros (size - length xs)

-- What `_compare_versions` returns: -1, 0 and 1.
pub data Comparison : Type 0 where
  less equal greater : Comparison

unfoldable pub compare_padded : List ℤ → List ℤ → Comparison
compare_padded left right =
    if tuple_lt left right then less else if tuple_lt right left then greater else equal

unfoldable pub compare_tuples : List ℤ → List ℤ → Comparison
compare_tuples left right =
    let size = max (length left) (length right) in
    compare_padded (padded left size) (padded right size)

-- `_compare_versions`
unfoldable pub compare_versions : String → String → Result Comparison
compare_versions left right = do
  left_tuple ← version_tuple left
  right_tuple ← version_tuple right
  ok (compare_tuples left_tuple right_tuple)

-- `s[n:]`
unfoldable pub drop : ℕ → String → String
drop zero s = s
drop (suc n) String.[] = ""
drop (suc n) (String.◌∷◌ c s) = drop n s

-- The operator of a token of a requirement.
pub data Operator : Type 0 where
  at_least at_most above below exactly : Operator

-- The comparisons with which the operator is content.
unfoldable pub accepts : Operator → Comparison → Bool
accepts at_least less = false
accepts at_least _ = true
accepts at_most greater = false
accepts at_most _ = true
accepts above greater = true
accepts above _ = false
accepts below less = true
accepts below _ = false
accepts exactly equal = true
accepts exactly _ = false

unfoldable pub accepted : Operator → String → String → Result Bool
accepted op version bound = do c ← compare_versions version bound; ok (accepts op c)

-- The tests of the body of the loop of `_satisfies_range`, for one token.
unfoldable pub token_holds : String → String → Result Bool
token_holds version token =
    if starts_with token ">="
    then accepted at_least version (drop 2 token)
    else if starts_with token "<="
    then accepted at_most version (drop 2 token)
    else if starts_with token ">"
    then accepted above version (drop 1 token)
    else if starts_with token "<"
    then accepted below version (drop 1 token)
    else if starts_with token "=="
    then accepted exactly version (drop 2 token)
    else ok false

unfoldable pub tokens_hold : String → List String → Result Bool
tokens_hold version [] = ok true
tokens_hold version (t ∷ ts) = do
  holds ← token_holds version t
  let rest = tokens_hold version ts in if not holds then ok false else rest

-- `s.split()`
unfoldable pub split : String → List String
split s = non_empty (pieces is_space s)

-- `_satisfies_range`
unfoldable pub satisfies_range : String → String → Result Bool
satisfies_range version requirement =
    let text = strip requirement in
    if is_empty text then ok true else tokens_hold version (split text)
