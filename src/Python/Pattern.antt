-- ===== src/Python/Pattern.antt =====
-- `pattern.search(text)` for patterns that are rows of character classes, repetitions and word
-- boundaries. Whether a repetition is greedy does not change whether there is a match. A word
-- character is one of ASCII.
use context_control_plane.Base.{
  ℕ, zero, suc, code, String, Bool, true, false, not, ◌&&◌, ◌||◌, List, [], ◌∷◌, ◌++◌, leb, eqb,
  if◌then◌else◌,
}

pub data Atom : Type 0 where
  -- a character of the class
  one : (ℕ → Bool) → Atom
  -- any number of characters of the class
  many : (ℕ → Bool) → Atom
  -- `\b`
  boundary : Atom

-- `[A-Za-z0-9_]`
unfoldable pub is_word : ℕ → Bool
is_word n =
    (leb b'A' n && leb n b'Z')
    || (leb b'a' n && leb n b'z')
    || (leb b'0' n && leb n b'9')
    || eqb n b'_'

-- Whether a word begins or ends between the last character (a word character or not) and the text.
unfoldable pub at_boundary : Bool → String → Bool
unfolding is_word
at_boundary last String.[] = last
at_boundary last (String.◌∷◌ c s) = if last then not (is_word (code c)) else is_word (code c)

-- The atoms match at the front of the text.
unfoldable pub match_here : List Atom → Bool → String → Bool
unfolding at_boundary
match_here [] last s = true
match_here (one test ∷ atoms) last String.[] = false
match_here (one test ∷ atoms) last (String.◌∷◌ c s) =
    let rest = match_here atoms (is_word (code c)) s in if test (code c) then rest else false
match_here (many test ∷ atoms) last String.[] = match_here atoms last ""
match_here (many test ∷ atoms) last (String.◌∷◌ c s) =
    let further = match_here (many test ∷ atoms) (is_word (code c)) s in
    let stop = match_here atoms last (String.◌∷◌ c s) in
    if stop then true else (if test (code c) then further else false)
match_here (boundary ∷ atoms) last s =
    let rest = match_here atoms last s in if at_boundary last s then rest else false

search_from : List Atom → Bool → String → Bool
unfolding match_here
search_from atoms last String.[] = match_here atoms last ""
search_from atoms last (String.◌∷◌ c s) =
    let later = search_from atoms (is_word (code c)) s in
    if match_here atoms last (String.◌∷◌ c s) then true else later

unfoldable pub pattern_search : List Atom → String → Bool
unfolding search_from
pattern_search atoms s = search_from atoms false s

-- The characters of a text, one by one.
unfoldable pub literal : String → List Atom
literal String.[] = []
literal (String.◌∷◌ c s) = one (λ n. eqb n (code c)) ∷ literal s

-- `x{n}`
unfoldable pub times : ℕ → (ℕ → Bool) → List Atom
times zero test = []
times (suc n) test = one test ∷ times n test

-- `x{n,}`
unfoldable pub at_least : ℕ → (ℕ → Bool) → List Atom
unfolding times
at_least n test = times n test ++ (many test ∷ [])
