-- ===== src/Redaction/Allowlist.antt =====
-- kernel/secrets.py: what a response allowlist lets through.
use mathlib.Core.Option.{map}
use context_control_plane.Base.{
  String, ◌≡◌, refl, ◌∙◌, ap, inl, inr, Bool, true, false, not, ◌&&◌, Option, none, some, List, [],
  ◌∷◌, arith, contains, Bool-cases, if◌then◌else◌, ◌==◌, eq_iff,
}
use context_control_plane.Python.Text.{is_empty}
use context_control_plane.Python.Value.{Value, Fields, end, field, find}
use context_control_plane.Redaction.{
  keep_allowed, nonempty_texts, apply_response_allowlist, sanitize_secret_value,
  sanitize_secret_fields, sanitize_adapter_payload,
}

-- An empty list lets every key through; any other, the keys that it names, but not the empty key.
abbrev pub lets_through : List String → String → Bool
lets_through [] k = true
lets_through (f ∷ fs) k = contains (f ∷ fs) k && not (is_empty k)

contains-nonempty_texts :
    (ss : List String) (k : String)
    → contains (nonempty_texts ss) k ≡ (contains ss k && not (is_empty k))
unfolding contains nonempty_texts
contains-nonempty_texts [] k = refl
contains-nonempty_texts (s ∷ ss) k =
    let rest = contains-nonempty_texts ss k in
    elim (Bool-cases (s == k)) [
      | inl same ↦ let e = ap is_empty ((eq_iff s k).0 same) in ground (arith, rest, same, e)
      | inr other ↦ elim (Bool-cases (is_empty s)) [
        | inl blank ↦ rw (blank, other) rest
        | inr given ↦ rw (given, other) rest
      ]
    ]

find-keep_allowed :
    (allowed : List String) (fs : Fields) (k : String)
    → find (keep_allowed allowed fs) k ≡ (if contains allowed k then find fs k else none)
unfolding find keep_allowed
find-keep_allowed allowed end k = ground arith
find-keep_allowed allowed (field j v fs) k =
    let rest = find-keep_allowed allowed fs k in
    elim (Bool-cases (j == k)) [
      | inl same ↦
          let e = ap (contains allowed) ((eq_iff j k).0 same) in ground (arith, rest, same, e)
      | inr other ↦ elim (Bool-cases (contains allowed j)) [
        | inl listed ↦ rw (listed, other) rest
        | inr absent ↦ rw (absent, other) rest
      ]
    ]

find-sanitize_secret_fields :
    (fs : Fields) (k : String)
    → find (sanitize_secret_fields fs) k ≡ map (sanitize_secret_value k) (find fs k)
unfolding find sanitize_secret_fields
find-sanitize_secret_fields end k = refl
find-sanitize_secret_fields (field j v fs) k = elim (Bool-cases (j == k)) [
  | inl same ↦ rw same (ap (λ n. some (sanitize_secret_value n v)) ((eq_iff j k).0 same))
  | inr other ↦ rw other (find-sanitize_secret_fields fs k)
]

find-apply_response_allowlist :
    (allowed : List String) (fs : Fields) (k : String)
    → find (apply_response_allowlist allowed fs) k
      ≡ (if lets_through allowed k then find fs k else none)
unfolding apply_response_allowlist
find-apply_response_allowlist [] fs k = refl
find-apply_response_allowlist (f ∷ rest) fs k =
    find-keep_allowed (nonempty_texts (f ∷ rest)) fs k
    ∙ ap (λ b. if b then find fs k else none) (contains-nonempty_texts (f ∷ rest) k)

map-if :
    (b : Bool) (f : Value → Value) (o : Option Value)
    → map f (if b then o else none) ≡ (if b then map f o else none)
map-if true f o = refl
map-if false f o = refl

-- What the client of an adapter reads under a key: nothing, if the allowlist does not let the key
-- through; else what the adapter answered under it, redacted under that name.
pub find-sanitize_adapter_payload :
    (allowed : List String) (payload : Fields) (k : String)
    → find (sanitize_adapter_payload allowed payload) k
      ≡ (if lets_through allowed k then map (sanitize_secret_value k) (find payload k) else none)
unfolding sanitize_adapter_payload
find-sanitize_adapter_payload allowed payload k =
    find-sanitize_secret_fields (apply_response_allowlist allowed payload) k
    ∙ (ap (map (sanitize_secret_value k)) (find-apply_response_allowlist allowed payload k)
        ∙ map-if (lets_through allowed k) (sanitize_secret_value k) (find payload k))
