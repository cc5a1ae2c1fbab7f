-- ===== src/Registry/Merge/Paths.antt =====
-- kernel/registry.py: what a merged object holds at any depth.
use context_control_plane.Base.{
  String, ◌≡◌, refl, ap, sym, ◌∙◌, inl, inr, Option, none, some, List, [], ◌∷◌, ◌==◌, Bool-cases,
  some_injective,
}
use mathlib.Core.Path.{subst}
use context_control_plane.Python.Value.{
  Value, null, bool, num, str, arr, obj, Fields, end, field, find,
}
use context_control_plane.Registry.Merge.{deep_merge}
use context_control_plane.Registry.Merge.Laws.{IsDict, IsPlain, found_value, find-deep_merge}

-- Each object in the dictionary, and the dictionary itself, has each key once.
unfoldable mutual
  pub IsDeep : Fields → Type 0
  IsDeep end = Unit
  IsDeep (field k v fs) = (find fs k ≡ none) × (IsDeepValue v × IsDeep fs)

  pub IsDeepValue : Value → Type 0
  IsDeepValue (obj fs) = IsDeep fs
  IsDeepValue v = Unit

abbrev IsDeepFound : Option Value → Type 0
IsDeepFound none = Unit
IsDeepFound (some v) = IsDeepValue v

IsDeep-IsDict : (fs : Fields) → IsDeep fs → IsDict fs
unfolding IsDeep
IsDeep-IsDict end h = tt
IsDeep-IsDict (field k v fs) h = (h.0, IsDeep-IsDict fs h.1.1)

IsDeep-find : (fs : Fields) (k : String) → IsDeep fs → IsDeepFound (find fs k)
unfolding IsDeep find
IsDeep-find end k h = tt
IsDeep-find (field j v fs) k h = elim (Bool-cases (j == k)) [
  | inl e ↦ rw e h.1.0
  | inr e ↦ rw e (IsDeep-find fs k h.1.1)
]

-- What stands at the end of a path of keys, below a value.
unfoldable pub below : Option Value → List String → Option Value
below o [] = o
below none (k ∷ ks) = none
below (some (obj fs)) (k ∷ ks) = below (find fs k) ks
below (some v) (k ∷ ks) = none

-- No value stands at the end of the path, and none that is not an object on the way to it.
unfoldable pub IsUntouched : Option Value → List String → Type 0
IsUntouched none ks = Unit
IsUntouched (some v) [] = ⊥
IsUntouched (some (obj fs)) (k ∷ ks) = IsUntouched (find fs k) ks
IsUntouched (some v) (k ∷ ks) = ⊥

found_value-IsPlain : (b : Option Value) (v : Value) → IsPlain v → found_value b (some v) ≡ some v
found_value-IsPlain none v p = refl
found_value-IsPlain (some (obj b)) (obj o) p = absurd p
found_value-IsPlain (some (obj b)) null p = refl
found_value-IsPlain (some (obj b)) (bool x) p = refl
found_value-IsPlain (some (obj b)) (num x) p = refl
found_value-IsPlain (some (obj b)) (str x) p = refl
found_value-IsPlain (some (obj b)) (arr x) p = refl
found_value-IsPlain (some null) v p = refl
found_value-IsPlain (some (bool x)) v p = refl
found_value-IsPlain (some (num x)) v p = refl
found_value-IsPlain (some (str x)) v p = refl
found_value-IsPlain (some (arr x)) v p = refl

below-found :
    (path : List String) (b o : Option Value) (v : Value)
    → IsDeepFound o
    → IsPlain v
    → below o path ≡ some v
    → below (found_value b o) path ≡ some v
unfolding below IsDeep
below-found [] b none v x p h = cc
below-found [] b (some w) v x p h =
    found_value-IsPlain b w (subst IsPlain (sym (some_injective h)) p) ∙ h
below-found (k ∷ ks) b none v x p h = cc
below-found (k ∷ ks) none (some (obj fo)) v x p h = h
below-found (k ∷ ks) (some (obj fb)) (some (obj fo)) v x p h =
    ap (λ found. below found ks) (find-deep_merge fo fb k (IsDeep-IsDict fo x))
    ∙ below-found ks (find fb k) (find fo k) v (IsDeep-find fo k x) p h
below-found (k ∷ ks) (some null) (some (obj fo)) v x p h = h
below-found (k ∷ ks) (some (bool y)) (some (obj fo)) v x p h = h
below-found (k ∷ ks) (some (num y)) (some (obj fo)) v x p h = h
below-found (k ∷ ks) (some (str y)) (some (obj fo)) v x p h = h
below-found (k ∷ ks) (some (arr y)) (some (obj fo)) v x p h = h
below-found (k ∷ ks) b (some null) v x p h = cc
below-found (k ∷ ks) b (some (bool y)) v x p h = cc
below-found (k ∷ ks) b (some (num y)) v x p h = cc
below-found (k ∷ ks) b (some (str y)) v x p h = cc
below-found (k ∷ ks) b (some (arr y)) v x p h = cc

IsUntouched-none :
    (path : List String) (o : Option Value) → IsUntouched o path → below o path ≡ none
unfolding below IsUntouched
IsUntouched-none [] none u = refl
IsUntouched-none [] (some v) u = absurd u
IsUntouched-none (k ∷ ks) none u = refl
IsUntouched-none (k ∷ ks) (some (obj fs)) u = IsUntouched-none ks (find fs k) u
IsUntouched-none (k ∷ ks) (some null) u = absurd u
IsUntouched-none (k ∷ ks) (some (bool x)) u = absurd u
IsUntouched-none (k ∷ ks) (some (num x)) u = absurd u
IsUntouched-none (k ∷ ks) (some (str x)) u = absurd u
IsUntouched-none (k ∷ ks) (some (arr x)) u = absurd u

below-untouched :
    (path : List String) (b o : Option Value)
    → IsDeepFound o
    → IsUntouched o path
    → below (found_value b o) path ≡ below b path
unfolding below IsUntouched IsDeep
below-untouched path b none x u = refl
below-untouched [] b (some v) x u = absurd u
below-untouched (k ∷ ks) none (some (obj fo)) x u = IsUntouched-none ks (find fo k) u
below-untouched (k ∷ ks) (some (obj fb)) (some (obj fo)) x u =
    ap (λ found. below found ks) (find-deep_merge fo fb k (IsDeep-IsDict fo x))
    ∙ below-untouched ks (find fb k) (find fo k) (IsDeep-find fo k x) u
below-untouched (k ∷ ks) (some null) (some (obj fo)) x u = IsUntouched-none ks (find fo k) u
below-untouched (k ∷ ks) (some (bool y)) (some (obj fo)) x u = IsUntouched-none ks (find fo k) u
below-untouched (k ∷ ks) (some (num y)) (some (obj fo)) x u = IsUntouched-none ks (find fo k) u
below-untouched (k ∷ ks) (some (str y)) (some (obj fo)) x u = IsUntouched-none ks (find fo k) u
below-untouched (k ∷ ks) (some (arr y)) (some (obj fo)) x u = IsUntouched-none ks (find fo k) u
below-untouched (k ∷ ks) b (some null) x u = absurd u
below-untouched (k ∷ ks) b (some (bool y)) x u = absurd u
below-untouched (k ∷ ks) b (some (num y)) x u = absurd u
below-untouched (k ∷ ks) b (some (str y)) x u = absurd u
below-untouched (k ∷ ks) b (some (arr y)) x u = absurd u

-- Merging goes to any depth: a value of the overlay that is not an object stands at its own path in the
-- merged object, and at a path that the overlay neither reaches nor cuts off with such a value the
-- merged object has what the base has. Each object of the overlay has each key once.
pub below-deep_merge :
    (base overlay : Fields) (path : List String)
    → IsDeep overlay
    → ((v : Value)
        → IsPlain v
        → below (some (obj overlay)) path ≡ some v
        → below (some (obj (deep_merge base overlay))) path ≡ some v)
      × (IsUntouched (some (obj overlay)) path
          → below (some (obj (deep_merge base overlay))) path ≡ below (some (obj base)) path)
unfolding IsDeep
below-deep_merge base overlay path x = (
  λ v p h. below-found path (some (obj base)) (some (obj overlay)) v x p h,
  λ u. below-untouched path (some (obj base)) (some (obj overlay)) x u,
)
