-- ===== src/Registry/Merge/Laws.antt =====
-- kernel/registry.py: what a merged object holds under a key.
use context_control_plane.Base.{
  String, ◌≡◌, refl, sym, ◌∙◌, inl, inr, Option, none, some, arith, Bool-cases, if◌then◌else◌, ◌==◌,
  eq_iff,
}
use context_control_plane.Python.Value.{
  Value, null, bool, num, str, arr, obj, Fields, end, field, find, put,
}
use context_control_plane.Registry.Merge.{merge_value, deep_merge}

pub find-put :
    (fs : Fields) (j k : String) (v : Value)
    → find (put fs j v) k ≡ (if j == k then some v else find fs k)
unfolding find put
find-put end j k v = refl
find-put (field i w fs) j k v =
    ground (arith, find-put fs j k v, eq_iff i j, eq_iff i k, eq_iff j k)

-- Each key of the dictionary stands in it once.
abbrev pub IsDict : Fields → Type 0
IsDict end = Unit
IsDict (field k v fs) = (find fs k ≡ none) × IsDict fs

-- Not a JSON object.
abbrev pub IsPlain : Value → Type 0
IsPlain (obj fs) = ⊥
IsPlain _ = Unit

-- What stands under a key of the merged object: the value of the overlay, unless only the base has
-- one, or both values are objects, which are merged in their turn.
abbrev pub found_value : Option Value → Option Value → Option Value
found_value base none = base
found_value (some (obj base)) (some (obj overlay)) = some (obj (deep_merge base overlay))
found_value base (some v) = some v

pub merge_value-found :
    (base : Option Value) (v : Value) → some (merge_value base v) ≡ found_value base (some v)
unfolding merge_value
merge_value-found none v = refl
merge_value-found (some (obj b)) (obj o) = refl
merge_value-found (some (obj b)) null = refl
merge_value-found (some (obj b)) (bool x) = refl
merge_value-found (some (obj b)) (num n) = refl
merge_value-found (some (obj b)) (str x) = refl
merge_value-found (some (obj b)) (arr x) = refl
merge_value-found (some null) v = refl
merge_value-found (some (bool x)) v = refl
merge_value-found (some (num n)) v = refl
merge_value-found (some (str x)) v = refl
merge_value-found (some (arr x)) v = refl

-- What a merged object holds under a key.
pub find-deep_merge :
    (overlay base : Fields) (k : String)
    → IsDict overlay
    → find (deep_merge base overlay) k ≡ found_value (find base k) (find overlay k)
unfolding deep_merge find
find-deep_merge end base k x = refl
find-deep_merge (field j v rest) base k x =
    find-deep_merge rest (put base j (merge_value (find base j) v)) k x.1
    ∙ rw (find-put base j k (merge_value (find base j) v)) (elim (Bool-cases (j == k)) [
      | inl e ↦
          let j≡k = (eq_iff j k).0 e in rw (e, sym j≡k, x.0) (merge_value-found (find base j) v)
      | inr e ↦ rw e refl
    ])
