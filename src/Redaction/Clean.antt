-- ===== src/Redaction/Clean.antt =====
-- kernel/secrets.py and kernel/tracing.py: what is left of a payload after a redaction.
use context_control_plane.Base.{
  String, ◌≡◌, refl, sym, ap, inl, inr, Bool, true, false, false≢true, Bool-cases, if_true, ◌↔◌,
}
use mathlib.Core.Path.{subst}
use context_control_plane.Python.Text.{is_empty, strip, text_length}
use context_control_plane.Python.Value.{
  Value, null, bool, num, str, arr, obj, Items, nil, cons, Fields, end, field,
}
use context_control_plane.Redaction.{
  is_sensitive_key, looks_like_secret_value, names_secret, redacted, sanitize_secret_value,
  sanitize_secret_items, sanitize_secret_fields,
}

module _ (key_test text_test : String → Bool) where
  -- At every depth, a field whose name the first test picks holds the mark, and no text is one that the
  -- second test picks.
  unfoldable mutual
    pub IsClean : Value → Type 0
    IsClean (obj fs) = IsCleanFields fs
    IsClean (arr xs) = IsCleanItems xs
    IsClean (str s) = text_test s ≡ false
    IsClean _ = Unit

    pub IsCleanItems : Items → Type 0
    IsCleanItems nil = Unit
    IsCleanItems (cons v xs) = IsClean v × IsCleanItems xs

    pub IsCleanFields : Fields → Type 0
    IsCleanFields end = Unit
    IsCleanFields (field k v fs) =
        ((names_secret key_test k ≡ true → v ≡ redacted) × IsClean v) × IsCleanFields fs

-- The mark is too short to look like a secret.
looks_like_secret_value-mark : looks_like_secret_value "[redacted]" ≡ false
unfolding looks_like_secret_value text_length strip
looks_like_secret_value-mark = refl

sanitize_secret-marked :
    (n : String) (v : Value)
    → names_secret is_sensitive_key n ≡ true
    → sanitize_secret_value n v ≡ redacted
unfolding sanitize_secret_value
sanitize_secret-marked n (obj fs) h = if_true _ h
sanitize_secret-marked n (arr xs) h = if_true _ h
sanitize_secret-marked n (str s) h = if_true _ h
sanitize_secret-marked n (num x) h = if_true _ h
sanitize_secret-marked n (bool b) h = if_true _ h
sanitize_secret-marked n null h = if_true _ h

mutual
  unfolding sanitize_secret_value sanitize_secret_items sanitize_secret_fields IsClean IsCleanItems
      IsCleanFields

  sanitize_secret-IsClean :
      (n : String) (v : Value)
      → IsClean is_sensitive_key looks_like_secret_value (sanitize_secret_value n v)
  sanitize_secret-IsClean n (obj fs) = elim (Bool-cases (names_secret is_sensitive_key n)) [
    | inl secret ↦ rw secret looks_like_secret_value-mark
    | inr free ↦ rw free (sanitize_secret_fields-IsClean fs)
  ]
  sanitize_secret-IsClean n (arr xs) = elim (Bool-cases (names_secret is_sensitive_key n)) [
    | inl secret ↦ rw secret looks_like_secret_value-mark
    | inr free ↦ rw free (sanitize_secret_items-IsClean xs)
  ]
  sanitize_secret-IsClean n (str s) = elim (Bool-cases (names_secret is_sensitive_key n)) [
    | inl secret ↦ rw secret looks_like_secret_value-mark
    | inr free ↦ rw free (elim (Bool-cases (looks_like_secret_value s)) [
      | inl looks ↦ rw looks looks_like_secret_value-mark
      | inr plain ↦ rw plain plain
    ])
  ]
  sanitize_secret-IsClean n (num x) = elim (Bool-cases (names_secret is_sensitive_key n)) [
    | inl secret ↦ rw secret looks_like_secret_value-mark
    | inr free ↦ rw free tt
  ]
  sanitize_secret-IsClean n (bool b) = elim (Bool-cases (names_secret is_sensitive_key n)) [
    | inl secret ↦ rw secret looks_like_secret_value-mark
    | inr free ↦ rw free tt
  ]
  sanitize_secret-IsClean n null = elim (Bool-cases (names_secret is_sensitive_key n)) [
    | inl secret ↦ rw secret looks_like_secret_value-mark
    | inr free ↦ rw free tt
  ]

  sanitize_secret_items-IsClean :
      (xs : Items)
      → IsCleanItems is_sensitive_key looks_like_secret_value (sanitize_secret_items xs)
  sanitize_secret_items-IsClean nil = tt
  sanitize_secret_items-IsClean (cons v xs) =
      (sanitize_secret-IsClean "" v, sanitize_secret_items-IsClean xs)

  pub sanitize_secret_fields-IsClean :
      (fs : Fields)
      → IsCleanFields is_sensitive_key looks_like_secret_value (sanitize_secret_fields fs)
  sanitize_secret_fields-IsClean end = tt
  sanitize_secret_fields-IsClean (field k v fs) =
      ((sanitize_secret-marked k v, sanitize_secret-IsClean k v), sanitize_secret_fields-IsClean fs)

mutual
  unfolding sanitize_secret_value sanitize_secret_items sanitize_secret_fields IsClean IsCleanItems
      IsCleanFields names_secret is_empty

  IsClean-sanitize_secret :
      (n : String) (v : Value)
      → IsClean is_sensitive_key looks_like_secret_value v
      → (names_secret is_sensitive_key n ≡ true → v ≡ redacted)
      → sanitize_secret_value n v ≡ v
  IsClean-sanitize_secret n (obj fs) c h = elim (Bool-cases (names_secret is_sensitive_key n)) [
    | inl secret ↦ absurd (cc (h secret))
    | inr free ↦ rw free (ap obj (IsCleanFields-sanitize_secret fs c))
  ]
  IsClean-sanitize_secret n (arr xs) c h = elim (Bool-cases (names_secret is_sensitive_key n)) [
    | inl secret ↦ absurd (cc (h secret))
    | inr free ↦ rw free (ap arr (IsCleanItems-sanitize_secret xs c))
  ]
  IsClean-sanitize_secret n (str s) c h = elim (Bool-cases (names_secret is_sensitive_key n)) [
    | inl secret ↦ rw secret (sym (h secret))
    | inr free ↦ rw (free, c) refl
  ]
  IsClean-sanitize_secret n (num x) c h = elim (Bool-cases (names_secret is_sensitive_key n)) [
    | inl secret ↦ absurd (cc (h secret))
    | inr free ↦ rw free refl
  ]
  IsClean-sanitize_secret n (bool b) c h = elim (Bool-cases (names_secret is_sensitive_key n)) [
    | inl secret ↦ absurd (cc (h secret))
    | inr free ↦ rw free refl
  ]
  IsClean-sanitize_secret n null c h = elim (Bool-cases (names_secret is_sensitive_key n)) [
    | inl secret ↦ absurd (cc (h secret))
    | inr free ↦ rw free refl
  ]

  IsCleanItems-sanitize_secret :
      (xs : Items)
      → IsCleanItems is_sensitive_key looks_like_secret_value xs
      → sanitize_secret_items xs ≡ xs
  IsCleanItems-sanitize_secret nil c = refl
  IsCleanItems-sanitize_secret (cons v xs) c = cc (
    IsClean-sanitize_secret "" v c.0 (λ h. absurd (false≢true h)),
    IsCleanItems-sanitize_secret xs c.1,
  )

  IsCleanFields-sanitize_secret :
      (fs : Fields)
      → IsCleanFields is_sensitive_key looks_like_secret_value fs
      → sanitize_secret_fields fs ≡ fs
  IsCleanFields-sanitize_secret end c = refl
  IsCleanFields-sanitize_secret (field k v fs) c =
      cc (IsClean-sanitize_secret k v c.0.1 c.0.0, IsCleanFields-sanitize_secret fs c.1)

-- What the redaction of secrets returns is clean: at every depth, a field of a sensitive name holds the
-- mark, and no text looks like a secret. And the redaction leaves an object as it is exactly when the
-- object is clean.
pub sanitize_secret_fields-clean_iff :
    (fs : Fields)
    → IsCleanFields is_sensitive_key looks_like_secret_value (sanitize_secret_fields fs)
      × ((sanitize_secret_fields fs ≡ fs)
          ↔ IsCleanFields is_sensitive_key looks_like_secret_value fs)
sanitize_secret_fields-clean_iff fs = (
  sanitize_secret_fields-IsClean fs,
  (
    λ h.
        subst (IsCleanFields is_sensitive_key looks_like_secret_value) h
          (sanitize_secret_fields-IsClean fs),
    IsCleanFields-sanitize_secret fs,
  ),
)
