-- ===== src/Python/Text/Laws.antt =====
-- The laws of `strip` and `lower`.

use context_control_plane.Base.{String, ◌≡◌, refl, false, arith}
use context_control_plane.Python.Text.{strip, is_space, is_empty, lstrip, rstrip}

rstrip_idem : (s : String) → rstrip (rstrip s) ≡ rstrip s
unfolding rstrip is_empty
rstrip_idem String.[] = refl
rstrip_idem (String.◌∷◌ c s) = ground (arith, rstrip_idem s)

-- A text with no space in front.
abbrev IsTight : String → Type 0
IsTight String.[] = Unit {0}
IsTight (String.◌∷◌ c s) = is_space c ≡ false

lstrip-IsTight : (s : String) → IsTight (lstrip s)
unfolding lstrip
lstrip-IsTight String.[] = tt
lstrip-IsTight (String.◌∷◌ c s) = ground (arith, lstrip-IsTight s)

rstrip-IsTight : (s : String) → IsTight s → IsTight (rstrip s)
unfolding rstrip
rstrip-IsTight String.[] h = tt
rstrip-IsTight (String.◌∷◌ c s) h = ground arith

lstrip_of_IsTight : (s : String) → IsTight s → lstrip s ≡ s
unfolding lstrip
lstrip_of_IsTight String.[] h = refl
lstrip_of_IsTight (String.◌∷◌ c s) h = ground arith

-- A stripped text has nothing left to strip.
pub strip_idem : (s : String) → strip (strip s) ≡ strip s
unfolding strip
strip_idem s = simp (
  lstrip_of_IsTight (rstrip (lstrip s)) (rstrip-IsTight (lstrip s) (lstrip-IsTight s)),
  rstrip_idem,
)
