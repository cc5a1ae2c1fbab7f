-- ===== src/Sorting/Members.antt =====
-- `x in xs`, and that sorting keeps it.
use context_control_plane.Base.{◌≡◌, ◌⊎◌, inl, inr, Bool, List, [], ◌∷◌, ◌++◌, Bool-cases}
use context_control_plane.Sorting.{insert, sort}

abbrev pub Has : {A : Type 0} → A → List A → Type 0
Has x [] = ⊥
Has x (y ∷ ys) = (x ≡ y) ⊎ Has x ys

Has-insert :
    {A : Type 0} (lt : A → A → Bool) (x y : A) (ys : List A)
    → Has x (y ∷ ys)
    → Has x (insert lt y ys)
unfolding insert
Has-insert lt x y [] h = h
Has-insert lt x y (z ∷ zs) h = elim (Bool-cases (lt z y)) [
  | inl e ↦ rw e (elim h [
    | inl same ↦ inr (Has-insert lt x y zs (inl same))
    | inr (inl same) ↦ inl same
    | inr (inr later) ↦ inr (Has-insert lt x y zs (inr later))
  ])
  | inr e ↦ rw e h
]

-- Sorting loses nothing.
pub Has-sort :
    {A : Type 0} (lt : A → A → Bool) (x : A) (xs : List A) → Has x xs → Has x (sort lt xs)
unfolding sort
Has-sort lt x [] h = absurd h
Has-sort lt x (y ∷ ys) (inl e) = Has-insert lt x y (sort lt ys) (inl e)
Has-sort lt x (y ∷ ys) (inr h) = Has-insert lt x y (sort lt ys) (inr (Has-sort lt x ys h))

-- One list after the other holds what either holds.
pub Has-left : {A : Type 0} (x : A) (xs ys : List A) → Has x xs → Has x (xs ++ ys)
Has-left x [] ys h = absurd h
Has-left x (y ∷ xs) ys (inl e) = inl e
Has-left x (y ∷ xs) ys (inr h) = inr (Has-left x xs ys h)

pub Has-right : {A : Type 0} (x : A) (xs ys : List A) → Has x ys → Has x (xs ++ ys)
Has-right x [] ys h = h
Has-right x (y ∷ xs) ys h = inr (Has-right x xs ys h)
