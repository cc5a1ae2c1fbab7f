-- ===== src/Python/Text/Order.antt =====
-- `a < b` on texts, by code points.
use text.Mathlib.TextEquality.{Char-path}
use context_control_plane.Base.{
  Char, code, String, ◌≡◌, refl, Bool, true, false, arith, ltb, eqb, if◌then◌else◌,
}

unfoldable pub text_lt : String → String → Bool
text_lt s String.[] = false
text_lt String.[] (String.◌∷◌ d t) = true
text_lt (String.◌∷◌ c s) (String.◌∷◌ d t) =
    let rest = text_lt s t in
    if ltb (code c) (code d) then true else if eqb (code c) (code d) then rest else false

pub text_lt_asymm : (s t : String) → text_lt s t ≡ true → text_lt t s ≡ false
unfolding text_lt
text_lt_asymm s String.[] h = cc
text_lt_asymm String.[] (String.◌∷◌ d t) h = refl
text_lt_asymm (String.◌∷◌ c s) (String.◌∷◌ d t) h = ground (arith, text_lt_asymm s t)

pub text_lt_weak : (s a b : String) → text_lt s a ≡ true → text_lt s b ≡ false → text_lt b a ≡ true
unfolding text_lt
text_lt_weak s String.[] b h k = cc
text_lt_weak s (String.◌∷◌ d a) String.[] h k = refl
text_lt_weak String.[] (String.◌∷◌ d a) (String.◌∷◌ e b) h k = cc
text_lt_weak (String.◌∷◌ c s) (String.◌∷◌ d a) (String.◌∷◌ e b) h k =
    ground (arith, text_lt_weak s a b)

text_lt-heads :
    (c d : Char) (s t : String)
    → text_lt (String.◌∷◌ c s) (String.◌∷◌ d t) ≡ false
    → text_lt (String.◌∷◌ d t) (String.◌∷◌ c s) ≡ false
    → (code c ≡ code d) × (text_lt s t ≡ false) × (text_lt t s ≡ false)
unfolding text_lt
text_lt-heads c d s t h k = ground arith

-- Of two different texts, one is smaller.
pub text_lt_connected : (s t : String) → text_lt s t ≡ false → text_lt t s ≡ false → s ≡ t
unfolding text_lt
text_lt_connected String.[] String.[] h k = refl
text_lt_connected String.[] (String.◌∷◌ d t) h k = cc
text_lt_connected (String.◌∷◌ c s) String.[] h k = cc
text_lt_connected (String.◌∷◌ c s) (String.◌∷◌ d t) h k =
    let same = text_lt-heads c d s t h k in
    λ i. String.◌∷◌ (Char-path c d same.0 i) (text_lt_connected s t same.1 same.2 i)
