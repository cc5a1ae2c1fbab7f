-- ===== src/Upgrade/Order.antt =====
-- kernel/upgrade.py: the comparison of versions is a total order.
use context_control_plane.Base.{
  ℕ, zero, suc, ◌+◌, ◌-◌, ◌≤◌, ◌≡◌, refl, ap, sym, ◌∙◌, true, false, List, [], ◌∷◌, length, arith,
}
use context_control_plane.Python.Value.{ℤ, pos, negsuc}
use context_control_plane.Sorting.{IsWeakOrder}
use context_control_plane.Upgrade.Versions.{
  ℤ_lt, tuple_lt, zeros, max, padded, compare_padded, compare_tuples,
}

ℤ_lt_asymm : (a b : ℤ) → ℤ_lt a b ≡ true → ℤ_lt b a ≡ false
unfolding ℤ_lt
ℤ_lt_asymm (pos m) (pos n) h = ground arith
ℤ_lt_asymm (pos m) (negsuc n) h = cc
ℤ_lt_asymm (negsuc m) (pos n) h = refl
ℤ_lt_asymm (negsuc m) (negsuc n) h = ground arith

ℤ_lt_weak : (y a b : ℤ) → ℤ_lt y a ≡ true → ℤ_lt y b ≡ false → ℤ_lt b a ≡ true
unfolding ℤ_lt
ℤ_lt_weak (pos m) (pos n) (pos k) h l = ground arith
ℤ_lt_weak (pos m) (pos n) (negsuc k) h l = refl
ℤ_lt_weak (pos m) (negsuc n) b h l = cc
ℤ_lt_weak (negsuc m) (pos n) (pos k) h l = cc
ℤ_lt_weak (negsuc m) (pos n) (negsuc k) h l = refl
ℤ_lt_weak (negsuc m) (negsuc n) (pos k) h l = cc
ℤ_lt_weak (negsuc m) (negsuc n) (negsuc k) h l = ground arith

tuple_lt_asymm : (a b : List ℤ) → tuple_lt a b ≡ true → tuple_lt b a ≡ false
unfolding tuple_lt
tuple_lt_asymm a [] h = cc
tuple_lt_asymm [] (y ∷ b) h = refl
tuple_lt_asymm (x ∷ a) (y ∷ b) h = ground (arith, ℤ_lt_asymm x y, tuple_lt_asymm a b)

tuple_lt_weak : (y a b : List ℤ) → tuple_lt y a ≡ true → tuple_lt y b ≡ false → tuple_lt b a ≡ true
unfolding tuple_lt
tuple_lt_weak y [] b h k = cc
tuple_lt_weak y (u ∷ a) [] h k = refl
tuple_lt_weak [] (u ∷ a) (v ∷ b) h k = cc
tuple_lt_weak (x ∷ y) (u ∷ a) (v ∷ b) h k = ground (
  arith,
  tuple_lt_weak y a b,
  ℤ_lt_weak x u v,
  ℤ_lt_weak u x v,
  ℤ_lt_weak u v x,
  ℤ_lt_weak x v u,
  ℤ_lt_weak v u x,
  ℤ_lt_weak v x u,
  ℤ_lt_asymm x u,
  ℤ_lt_asymm x v,
  ℤ_lt_asymm v x,
  ℤ_lt_asymm v u,
  ℤ_lt_asymm u v,
)

tuple_lt_irrefl : (a : List ℤ) → tuple_lt a a ≡ false
tuple_lt_irrefl a = ground (arith, tuple_lt_asymm a a)

pub tuple_lt-IsWeakOrder : IsWeakOrder tuple_lt
tuple_lt-IsWeakOrder = record { asymm = tuple_lt_asymm; weak = tuple_lt_weak }

sub_suc : (m n : ℕ) → suc m - suc n ≡ m - n
sub_suc m n = omega arith

sub_zero : (n : ℕ) → n - 0 ≡ n
sub_zero n = omega arith

padded_nil : (n : ℕ) → padded [] n ≡ zeros n
unfolding padded
padded_nil n = ap zeros (sub_zero n)

padded_cons : (x : ℤ) (xs : List ℤ) (n : ℕ) → padded (x ∷ xs) (suc n) ≡ x ∷ padded xs n
unfolding padded
padded_cons x xs n = rw (sub_suc n (length xs)) refl

padded_nil_suc : (n : ℕ) → padded [] (suc n) ≡ pos 0 ∷ padded [] n
unfolding zeros
padded_nil_suc n = padded_nil (suc n) ∙ ap (λ zs. pos 0 ∷ zs) (sym (padded_nil n))

-- The comparison goes on where the heads are the same on both sides.
tuple_lt_step :
    (x y : ℤ) (a b c d a1 b1 c1 d1 : List ℤ)
    → a1 ≡ x ∷ a
    → b1 ≡ y ∷ b
    → c1 ≡ x ∷ c
    → d1 ≡ y ∷ d
    → tuple_lt a b ≡ tuple_lt c d
    → tuple_lt a1 b1 ≡ tuple_lt c1 d1
tuple_lt_step x y a b c d a1 b1 c1 d1 p q r s h = rw (p, q, r, s) (unfold tuple_lt in rw h refl)

-- One more zero on both sides changes nothing.
tuple_lt-padded-suc :
    (n : ℕ) (xs ys : List ℤ)
    → length xs ≤ n
    → length ys ≤ n
    → tuple_lt (padded xs (suc n)) (padded ys (suc n)) ≡ tuple_lt (padded xs n) (padded ys n)
tuple_lt-padded-suc n [] [] h k =
    tuple_lt_irrefl (padded [] (suc n)) ∙ sym (tuple_lt_irrefl (padded [] n))
tuple_lt-padded-suc zero (x ∷ xs) ys h k = absurd (omega arith)
tuple_lt-padded-suc zero [] (y ∷ ys) h k = absurd (omega arith)
tuple_lt-padded-suc (suc n) (x ∷ xs) [] h k =
    tuple_lt_step x (pos 0) _ _ _ _ _ _ _ _ (padded_cons x xs (suc n)) (padded_nil_suc (suc n))
      (padded_cons x xs n) (padded_nil_suc n)
      (tuple_lt-padded-suc n xs [] (omega arith) (omega arith))
tuple_lt-padded-suc (suc n) [] (y ∷ ys) h k =
    tuple_lt_step (pos 0) y _ _ _ _ _ _ _ _ (padded_nil_suc (suc n)) (padded_cons y ys (suc n))
      (padded_nil_suc n) (padded_cons y ys n)
      (tuple_lt-padded-suc n [] ys (omega arith) (omega arith))
tuple_lt-padded-suc (suc n) (x ∷ xs) (y ∷ ys) h k =
    tuple_lt_step x y _ _ _ _ _ _ _ _ (padded_cons x xs (suc n)) (padded_cons y ys (suc n))
      (padded_cons x xs n) (padded_cons y ys n)
      (tuple_lt-padded-suc n xs ys (omega arith) (omega arith))

compare_padded-suc :
    (n : ℕ) (xs ys : List ℤ)
    → length xs ≤ n
    → length ys ≤ n
    → compare_padded (padded xs (suc n)) (padded ys (suc n))
      ≡ compare_padded (padded xs n) (padded ys n)
unfolding compare_padded
compare_padded-suc n xs ys h l =
    rw (tuple_lt-padded-suc n xs ys h l, tuple_lt-padded-suc n ys xs l h) refl

compare_padded_grow :
    (k m : ℕ) (xs ys : List ℤ)
    → length xs ≤ m
    → length ys ≤ m
    → compare_padded (padded xs (k + m)) (padded ys (k + m))
      ≡ compare_padded (padded xs m) (padded ys m)
compare_padded_grow zero m xs ys h l = let same : zero + m ≡ m = omega arith in rw same refl
compare_padded_grow (suc k) m xs ys h l =
    let same : suc k + m ≡ suc (k + m) = omega arith in
    rw same (
      compare_padded-suc (k + m) xs ys (omega arith) (omega arith)
      ∙ compare_padded_grow k m xs ys h l)

-- Zeros at the end are not seen: the comparison is the same at every size that has room for both.
pub compare_tuples-padded :
    (left right : List ℤ) (n : ℕ)
    → length left ≤ n
    → length right ≤ n
    → compare_tuples left right ≡ compare_padded (padded left n) (padded right n)
unfolding compare_tuples max
compare_tuples-padded left right n h l =
    let m = max (length left) (length right) in
    let room : (n - m) + m ≡ n = ground arith in
    sym (compare_padded_grow (n - m) m left right (ground arith) (ground arith)) ∙ rw room refl
