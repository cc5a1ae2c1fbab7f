-- ===== src/Redaction/Traces.antt =====
-- kernel/tracing.py: a redacted trace is redacted once and for all.
use context_control_plane.Base.{String, ◌≡◌, refl, ap, inl, inr, Bool-cases}
use context_control_plane.Python.Value.{
  Value, null, bool, num, str, arr, obj, Items, nil, cons, Fields, end, field,
}
use context_control_plane.Redaction.{
  looks_sensitive, names_secret, redacted, sanitize_trace_value, sanitize_trace_items,
  sanitize_trace_fields,
}

sanitize_mark : (n : String) → sanitize_trace_value n redacted ≡ redacted
unfolding sanitize_trace_value
sanitize_mark n = elim (Bool-cases (names_secret looks_sensitive n)) [
  | inl hit ↦ rw hit refl
  | inr free ↦ rw free refl
]

mutual
  unfolding sanitize_trace_value sanitize_trace_items sanitize_trace_fields

  sanitize_trace_idem :
      (n : String) (v : Value)
      → sanitize_trace_value n (sanitize_trace_value n v) ≡ sanitize_trace_value n v
  sanitize_trace_idem n (obj fs) = elim (Bool-cases (names_secret looks_sensitive n)) [
    | inl hit ↦ rw hit (sanitize_mark n)
    | inr free ↦ rw free (rw free (ap obj (sanitize_trace_fields_idem fs)))
  ]
  sanitize_trace_idem n (arr xs) = elim (Bool-cases (names_secret looks_sensitive n)) [
    | inl hit ↦ rw hit (sanitize_mark n)
    | inr free ↦ rw free (rw free (ap arr (sanitize_trace_items_idem xs)))
  ]
  sanitize_trace_idem n (str s) = elim (Bool-cases (names_secret looks_sensitive n)) [
    | inl hit ↦ rw hit (sanitize_mark n)
    | inr free ↦ rw free (rw free refl)
  ]
  sanitize_trace_idem n (num x) = elim (Bool-cases (names_secret looks_sensitive n)) [
    | inl hit ↦ rw hit (sanitize_mark n)
    | inr free ↦ rw free (rw free refl)
  ]
  sanitize_trace_idem n (bool b) = elim (Bool-cases (names_secret looks_sensitive n)) [
    | inl hit ↦ rw hit (sanitize_mark n)
    | inr free ↦ rw free (rw free refl)
  ]
  sanitize_trace_idem n null = elim (Bool-cases (names_secret looks_sensitive n)) [
    | inl hit ↦ rw hit (sanitize_mark n)
    | inr free ↦ rw free (rw free refl)
  ]

  sanitize_trace_items_idem :
      (xs : Items) → sanitize_trace_items (sanitize_trace_items xs) ≡ sanitize_trace_items xs
  sanitize_trace_items_idem nil = refl
  sanitize_trace_items_idem (cons v xs) =
      cc (sanitize_trace_idem "" v, sanitize_trace_items_idem xs)

  pub sanitize_trace_fields_idem :
      (fs : Fields) → sanitize_trace_fields (sanitize_trace_fields fs) ≡ sanitize_trace_fields fs
  sanitize_trace_fields_idem end = refl
  sanitize_trace_fields_idem (field k v fs) =
      cc (sanitize_trace_idem k v, sanitize_trace_fields_idem fs)
