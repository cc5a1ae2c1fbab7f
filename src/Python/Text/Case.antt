-- ===== src/Python/Text/Case.antt =====
-- `lower` against `strip`, and twice.
use text.Mathlib.TextEquality.{Char-path}
use context_control_plane.Base.{
  Char, code, String, ◌≡◌, refl, ap, sym, Bool, true, false, not, ◌&&◌, inl, inr, ◌⊎◌, arith, eqb,
  Bool-cases,
}
use context_control_plane.Python.Text.{
  lower, lower_char, strip, translate, upper_letters, lower_letters, is_space, is_empty, lstrip,
  rstrip,
}
use context_control_plane.Python.Text.Laws.{strip_idem}

-- No pair of the table has a space.
spaceless : String → String → Bool
spaceless (String.◌∷◌ u us) (String.◌∷◌ l ls) =
    not (is_space u) && not (is_space l) && spaceless us ls
spaceless _ _ = true

spaceless-cons :
    (u l : Char) (us ls : String)
    → spaceless (String.◌∷◌ u us) (String.◌∷◌ l ls) ≡ true
    → (is_space u ≡ false) × (is_space l ≡ false) × (spaceless us ls ≡ true)
unfolding spaceless
spaceless-cons u l us ls h = ground arith

eqb→eq : (c u : Char) → eqb (code c) (code u) ≡ true → c ≡ u
eqb→eq c u h = Char-path c u (ground arith)

is_space-translate :
    (us ls : String) (c : Char) → spaceless us ls ≡ true → is_space (translate us ls c) ≡ is_space c
unfolding translate
is_space-translate String.[] ls c h = refl
is_space-translate (String.◌∷◌ u us) String.[] c h = refl
is_space-translate (String.◌∷◌ u us) (String.◌∷◌ l ls) c h =
    let (hu, hl, rest) = spaceless-cons u l us ls h in
    elim (Bool-cases (eqb (code c) (code u))) [
      | inl hit ↦ rw hit (rw hl (rw (eqb→eq c u hit) (sym hu)))
      | inr miss ↦ rw miss (is_space-translate us ls c rest)
    ]

-- Each character of the text stays as it is.
all_fixed : (Char → Char) → String → Bool
all_fixed f String.[] = true
all_fixed f (String.◌∷◌ c s) = eqb (code (f c)) (code c) && all_fixed f s

all_fixed-cons :
    (f : Char → Char) (l : Char) (ls : String)
    → all_fixed f (String.◌∷◌ l ls) ≡ true
    → (f l ≡ l) × (all_fixed f ls ≡ true)
unfolding all_fixed
all_fixed-cons f l ls h =
    let parts : (eqb (code (f l)) (code l) ≡ true) × (all_fixed f ls ≡ true) = ground arith in
    (eqb→eq (f l) l parts.0, parts.1)

translate-fixed :
    (f : Char → Char) (us ls : String) (c : Char)
    → all_fixed f ls ≡ true
    → (translate us ls c ≡ c) ⊎ (f (translate us ls c) ≡ translate us ls c)
unfolding translate
translate-fixed f String.[] ls c h = inl refl
translate-fixed f (String.◌∷◌ u us) String.[] c h = inl refl
translate-fixed f (String.◌∷◌ u us) (String.◌∷◌ l ls) c h =
    let (hl, rest) = all_fixed-cons f l ls h in
    elim (Bool-cases (eqb (code c) (code u))) [
      | inl hit ↦ rw hit (inr hl)
      | inr miss ↦ rw miss (translate-fixed f us ls c rest)
    ]

lower_char_idem : (c : Char) → lower_char (lower_char c) ≡ lower_char c
unfolding all_fixed lower_char
lower_char_idem c =
    elim (translate-fixed (translate upper_letters lower_letters) upper_letters lower_letters c
      refl) [ inl same ↦ ap (translate upper_letters lower_letters) same | inr fixed ↦ fixed ]

is_space-lower_char : (c : Char) → is_space (lower_char c) ≡ is_space c
unfolding spaceless is_space lower_char
is_space-lower_char c = is_space-translate upper_letters lower_letters c refl

pub lower_idem : (s : String) → lower (lower s) ≡ lower s
unfolding lower
lower_idem String.[] = refl
lower_idem (String.◌∷◌ c s) = cc (lower_char_idem c, lower_idem s)

lstrip-lower : (s : String) → lstrip (lower s) ≡ lower (lstrip s)
unfolding lstrip lower
lstrip-lower String.[] = refl
lstrip-lower (String.◌∷◌ c s) = ground (arith, is_space-lower_char c, lstrip-lower s)

pub is_empty-lower : (s : String) → is_empty (lower s) ≡ is_empty s
unfolding is_empty lower
is_empty-lower String.[] = refl
is_empty-lower (String.◌∷◌ c s) = refl

rstrip-lower : (s : String) → rstrip (lower s) ≡ lower (rstrip s)
unfolding rstrip lower
rstrip-lower String.[] = refl
rstrip-lower (String.◌∷◌ c s) =
    rw (rstrip-lower s, is_empty-lower (rstrip s), is_space-lower_char c)
      (elim (Bool-cases (is_empty (rstrip s) && is_space c)) [
        | inl gone ↦ rw gone
        | inr kept ↦ rw kept
      ])

pub strip-lower : (s : String) → strip (lower s) ≡ lower (strip s)
unfolding strip
strip-lower s = simp (lstrip-lower, rstrip-lower)

-- What is lowered and stripped stays as it is under both.
pub lower-strip_idem : (s : String) → lower (strip (lower (strip s))) ≡ lower (strip s)
lower-strip_idem s = simp (strip-lower, strip_idem, lower_idem)
