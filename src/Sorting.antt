-- ===== src/Sorting.antt =====
-- `sorted(xs, key=…)`: a stable sort, by the strict order of the keys.
pub mod Members
use context_control_plane.Base.{
  ◌≡◌, refl, ap, ◌∙◌, ◌⊎◌, inl, inr, Bool, true, false, List, [], ◌∷◌, ◌++◌, arith, Bool-cases,
  if◌then◌else◌,
}

-- What the order of the keys has to satisfy: `b` stands below all that is above something that is
-- not above `b`.
pub record IsWeakOrder {ℓ} {A : Type ℓ} (lt : A → A → Bool) : Type ℓ where
  pub asymm : (a b : A) → lt a b ≡ true → lt b a ≡ false
  pub weak : (y a b : A) → lt y a ≡ true → lt y b ≡ false → lt b a ≡ true

-- The same items, in another order.
pub data Reordering {ℓ} {A : Type ℓ} : List A → List A → Type ℓ where
  nil : Reordering [] []
  keep : {xs ys : List A} (x : A) → Reordering xs ys → Reordering (x ∷ xs) (x ∷ ys)
  swap : (x y : A) (xs : List A) → Reordering (x ∷ y ∷ xs) (y ∷ x ∷ xs)
  trans : {xs ys zs : List A} → Reordering xs ys → Reordering ys zs → Reordering xs zs

module _ {ℓ} {A : Type ℓ} (lt : A → A → Bool) where
  -- Before the first item that is not smaller.
  unfoldable pub insert : A → List A → List A
  insert x [] = x ∷ []
  insert x (y ∷ ys) = let after = insert x ys in if lt y x then y ∷ after else x ∷ y ∷ ys

  unfoldable pub sort : List A → List A
  unfolding insert
  sort [] = []
  sort (x ∷ xs) = insert x (sort xs)

  -- One of the two keys is smaller.
  abbrev pub Apart : A → A → Type 0
  Apart a b = (lt a b ≡ true) ⊎ (lt b a ≡ true)

  abbrev pub AllApart : A → List A → Type 0
  AllApart a [] = Unit
  AllApart a (x ∷ xs) = Apart a x × AllApart a xs

  -- No two items have keys that tie.
  abbrev pub NoTies : List A → Type 0
  NoTies [] = Unit
  NoTies (x ∷ xs) = AllApart x xs × NoTies xs

module _ {ℓ} {A : Type ℓ} (lt : A → A → Bool) (w : IsWeakOrder lt) where
  insert_comm :
      (a b : A) (xs : List A)
      → Apart lt a b
      → insert lt a (insert lt b xs) ≡ insert lt b (insert lt a xs)
  unfolding insert
  insert_comm a b [] (inl h) = ground (arith, w.asymm a b h)
  insert_comm a b [] (inr h) = ground (arith, w.asymm b a h)
  insert_comm a b (y ∷ ys) (inl h) =
      ground (arith, h, w.asymm a b h, w.weak y a b, w.weak y b a, insert_comm a b ys (inl h))
  insert_comm a b (y ∷ ys) (inr h) =
      ground (arith, h, w.asymm b a h, w.weak y a b, w.weak y b a, insert_comm a b ys (inr h))

AllApart-Reordering {ℓ} :
    {A : Type ℓ} (lt : A → A → Bool) (a : A) {xs ys : List A}
    → Reordering xs ys
    → AllApart lt a xs
    → AllApart lt a ys
AllApart-Reordering lt a nil h = h
AllApart-Reordering lt a (keep x r) h = (h.0, AllApart-Reordering lt a r h.1)
AllApart-Reordering lt a (swap x y xs) h = (h.1.0, (h.0, h.1.1))
AllApart-Reordering lt a (trans r s) h = AllApart-Reordering lt a s (AllApart-Reordering lt a r h)

Apart-symm {ℓ} : {A : Type ℓ} (lt : A → A → Bool) (a b : A) → Apart lt a b → Apart lt b a
Apart-symm lt a b (inl h) = inr h
Apart-symm lt a b (inr h) = inl h

NoTies-Reordering {ℓ} :
    {A : Type ℓ} (lt : A → A → Bool) {xs ys : List A}
    → Reordering xs ys
    → NoTies lt xs
    → NoTies lt ys
NoTies-Reordering lt nil h = h
NoTies-Reordering lt (keep x r) h = (AllApart-Reordering lt x r h.0, NoTies-Reordering lt r h.1)
NoTies-Reordering lt (swap x y xs) h = ((Apart-symm lt x y h.0.0, h.1.0), (h.0.1, h.1.1))
NoTies-Reordering lt (trans r s) h = NoTies-Reordering lt s (NoTies-Reordering lt r h)

-- Where no two keys tie, the sorted list does not depend on the order of the items.
pub sort-Reordering {ℓ} :
    {A : Type ℓ} (lt : A → A → Bool)
    → IsWeakOrder lt
    → {xs ys : List A} → Reordering xs ys
    → NoTies lt xs
    → sort lt xs ≡ sort lt ys
unfolding sort
sort-Reordering lt w nil h = refl
sort-Reordering lt w (keep x r) h = ap (insert lt x) (sort-Reordering lt w r h.1)
sort-Reordering lt w (swap x y xs) h = insert_comm lt w x y (sort lt xs) h.0.0
sort-Reordering lt w (trans r s) h =
    sort-Reordering lt w r h ∙ sort-Reordering lt w s (NoTies-Reordering lt r h)

abbrev pub All {ℓ κ} : {A : Type ℓ} → (A → Type κ) → List A → Type κ
All P [] = Unit
All P (x ∷ xs) = P x × All P xs

pub All-map {ℓ κ μ} :
    {A : Type ℓ} {P : A → Type κ} {Q : A → Type μ}
    → ((x : A) → P x → Q x)
    → (xs : List A) → All P xs
    → All Q xs
All-map f [] h = tt
All-map f (x ∷ xs) h = (f x h.0, All-map f xs h.1)

All-insert {ℓ κ} :
    {A : Type ℓ} (lt : A → A → Bool) (P : A → Type κ) (x : A) (xs : List A)
    → P x
    → All P xs
    → All P (insert lt x xs)
unfolding insert
All-insert lt P x [] p h = (p, tt)
All-insert lt P x (y ∷ ys) p h = elim (Bool-cases (lt y x)) [
  | inl e ↦ rw e (h.0, All-insert lt P x ys p h.1)
  | inr e ↦ rw e (p, h)
]

pub All-sort {ℓ κ} :
    {A : Type ℓ} (lt : A → A → Bool) (P : A → Type κ) (xs : List A) → All P xs → All P (sort lt xs)
unfolding sort
All-sort lt P [] h = tt
All-sort lt P (x ∷ xs) h = All-insert lt P x (sort lt xs) h.0 (All-sort lt P xs h.1)

-- Nothing stands after something larger.
abbrev pub Ordered {ℓ} : {A : Type ℓ} → (A → A → Bool) → List A → Type 0
Ordered lt [] = Unit
Ordered lt (x ∷ xs) = All (λ y. lt y x ≡ false) xs × Ordered lt xs

module _ {ℓ} {A : Type ℓ} (lt : A → A → Bool) (w : IsWeakOrder lt) where
  not_below : (z y x : A) → lt y x ≡ false → lt z y ≡ false → lt z x ≡ false
  not_below z y x h k = ground (arith, w.weak z x y)

  insert-Ordered : (x : A) (xs : List A) → Ordered lt xs → Ordered lt (insert lt x xs)
  unfolding insert
  insert-Ordered x [] h = (tt, tt)
  insert-Ordered x (y ∷ ys) h = elim (Bool-cases (lt y x)) [
    | inl e ↦
        rw e (All-insert lt (λ z. lt z y ≡ false) x ys (w.asymm y x e) h.0, insert-Ordered x ys h.1)
    | inr e ↦ rw e ((e, All-map (λ z. not_below z y x e) ys h.0), h)
  ]

  pub sort-Ordered : (xs : List A) → Ordered lt (sort lt xs)
  unfolding sort
  sort-Ordered [] = tt
  sort-Ordered (x ∷ xs) = insert-Ordered x (sort lt xs) (sort-Ordered xs)

-- The larger item stays at the end.
insert_before {ℓ} :
    {A : Type ℓ} (lt : A → A → Bool)
    → IsWeakOrder lt
    → (d x : A) (ys : List A) → lt x d ≡ true
    → (zs : List A) × (insert lt x (ys ++ (d ∷ [])) ≡ zs ++ (d ∷ []))
unfolding insert
insert_before lt w d x [] h = (x ∷ [], rw (w.asymm x d h) refl)
insert_before lt w d x (y ∷ ys) h = elim (Bool-cases (lt y x)) [
  | inl e ↦ let r = insert_before lt w d x ys h in (y ∷ r.0, rw e (ap (λ zs. y ∷ zs) r.1))
  | inr e ↦ (x ∷ y ∷ ys, rw e refl)
]

insert_last {ℓ} :
    {A : Type ℓ} (lt : A → A → Bool) (d : A) (xs : List A)
    → All (λ x. lt x d ≡ true) xs
    → insert lt d xs ≡ xs ++ (d ∷ [])
unfolding insert
insert_last lt d [] h = refl
insert_last lt d (x ∷ xs) h = rw h.0 (ap (λ zs. x ∷ zs) (insert_last lt d xs h.1))

-- An item that is larger than all others is sorted to the end.
pub sort_last {ℓ} :
    {A : Type ℓ} (lt : A → A → Bool)
    → IsWeakOrder lt
    → (before : List A) (d : A) (after : List A) → All (λ x. lt x d ≡ true) before
    → All (λ x. lt x d ≡ true) after
    → (zs : List A) × (sort lt (before ++ (d ∷ after)) ≡ zs ++ (d ∷ []))
unfolding sort
sort_last lt w [] d after h k =
    (sort lt after, insert_last lt d (sort lt after) (All-sort lt (λ x. lt x d ≡ true) after k))
sort_last lt w (x ∷ before) d after h k =
    let r = sort_last lt w before d after h.1 k in
    let s = insert_before lt w d x r.0 h.0 in (s.0, ap (insert lt x) r.1 ∙ s.1)
