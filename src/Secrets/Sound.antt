-- ===== src/Secrets/Sound.antt =====
-- kernel/secrets.py: what the resolved secret controls of a connection guarantee.
use context_control_plane.Base.{
  Char, code, zero, suc, ◌≤◌, ◌⊎◌, false≢true, ℕ, ◌+◌, String, ◌<>◌, ◌≡◌, refl, inl, inr, true,
  false, not, Option, List, [], ◌∷◌, ◌==◌, arith, Bool-cases, if_true, if_false, sym, ◌∙◌, ap,
}
use context_control_plane.Python.Error.{ok, >>=-eq-ok, ok_injective}
use context_control_plane.Python.Text.{decimal, text_length}
use context_control_plane.Python.Value.{ℤ, pos, negsuc, Value, str, obj, truthy, get, int}
use context_control_plane.Resource.{ResourceDocument, ResourceRegistry}
use context_control_plane.Secrets.Backend.{
  mapping, string_list, is_alphanumeric, is_ref_char, all_ref_chars, is_secret_ref,
  normalize_secret_ref, parse_delivery,
}
use context_control_plane.Secrets.Resolve.{
  MaterializationPolicy, ConnectionSecretControls, resolve_backend_ref,
}
use context_control_plane.Secrets.Controls.{
  response_allowlist, allowlist_names, not_positive, resolve_materialization_policy, normalize_refs,
  resolve_connection_secret_controls,
}

-- An ASCII letter or digit, by its code.
abbrev pub IsAlphanumeric : Char → Type 0
IsAlphanumeric c =
    ((65 ≤ code c) × (code c ≤ 90))
    ⊎ (((97 ≤ code c) × (code c ≤ 122)) ⊎ ((48 ≤ code c) × (code c ≤ 57)))

-- A letter, a digit, a dot, an underscore or a dash.
abbrev pub IsRefChar : Char → Type 0
IsRefChar c = IsAlphanumeric c ⊎ ((code c ≡ 46) ⊎ ((code c ≡ 95) ⊎ (code c ≡ 45)))

abbrev pub AllRefChars : String → Type 0
AllRefChars String.[] = Unit
AllRefChars (String.◌∷◌ c s) = IsRefChar c × AllRefChars s

-- A letter or digit, and at most 127 characters after it.
abbrev pub IsRef : String → Type 0
IsRef String.[] = ⊥
IsRef (String.◌∷◌ c s) = IsAlphanumeric c × (AllRefChars s × (text_length s ≤ 127))

abbrev pub AllRefs : List String → Type 0
AllRefs [] = Unit
AllRefs (ref ∷ refs) = IsRef ref × AllRefs refs

-- Lifetimes are at least a second, and every reference has the form of a name.
pub record IsSound (c : ConnectionSecretControls) : Type 0 where
  pub refs : AllRefs c.secret_refs
  pub lifetime : (n : ℕ) × (c.materialization.ttl_seconds ≡ pos n) × (1 ≤ n)

is_alphanumeric-IsAlphanumeric : (c : Char) → is_alphanumeric c ≡ true → IsAlphanumeric c
unfolding is_alphanumeric
is_alphanumeric-IsAlphanumeric c h = ground arith

is_ref_char-IsRefChar : (c : Char) → is_ref_char c ≡ true → IsRefChar c
unfolding is_ref_char
is_ref_char-IsRefChar c h = elim (Bool-cases (is_alphanumeric c)) [
  | inl e ↦ inl (is_alphanumeric-IsAlphanumeric c e)
  | inr e ↦ ground arith
]

all_ref_chars-AllRefChars : (s : String) → all_ref_chars s ≡ true → AllRefChars s
unfolding all_ref_chars
all_ref_chars-AllRefChars String.[] h = tt
all_ref_chars-AllRefChars (String.◌∷◌ c s) h = elim (Bool-cases (is_ref_char c)) [
  | inl e ↦ (is_ref_char-IsRefChar c e, all_ref_chars-AllRefChars s (sym (if_true _ e) ∙ h))
  | inr e ↦ absurd (false≢true (sym (if_false _ e) ∙ h))
]

is_secret_ref-IsRef : (s : String) → is_secret_ref s ≡ true → IsRef s
unfolding is_secret_ref
is_secret_ref-IsRef String.[] h = absurd (false≢true h)
is_secret_ref-IsRef (String.◌∷◌ c s) h =
    let parts : (is_alphanumeric c ≡ true) × ((all_ref_chars s ≡ true) × (text_length s ≤ 127)) =
      ground arith in
    (is_alphanumeric-IsAlphanumeric c parts.0, (all_ref_chars-AllRefChars s parts.1.0, parts.1.1))

positive : (z : ℤ) → not_positive z ≡ false → (n : ℕ) × (z ≡ pos n) × (1 ≤ n)
unfolding not_positive
positive (pos zero) h = cc
positive (pos (suc n)) h = (suc n, refl, omega arith)
positive (negsuc n) h = cc

normalize_secret_ref-is_secret_ref :
    (v : Value) (field_name ref : String)
    → normalize_secret_ref v field_name ≡ ok ref
    → is_secret_ref ref ≡ true
unfolding normalize_secret_ref
normalize_secret_ref-is_secret_ref v field_name ref h = ground arith

normalize_refs-AllRefs :
    (i : ℕ) (raw refs : List String) → normalize_refs i raw ≡ ok refs → AllRefs refs
unfolding normalize_refs
normalize_refs-AllRefs i [] refs h = rw (← ok_injective h) tt
normalize_refs-AllRefs i (r ∷ raw) refs h =
    let (name, hn, h₁) =
      >>=-eq-ok (normalize_secret_ref (str r) ("secretRefs[" <> decimal i <> "]")) _ h in
    let (rest, hr, h₂) = >>=-eq-ok (normalize_refs (i + 1) raw) _ h₁ in
    rw (← ok_injective h₂) (
      is_secret_ref-IsRef name (normalize_secret_ref-is_secret_ref _ _ name hn),
      normalize_refs-AllRefs (i + 1) raw rest hr,
    )

resolve_materialization_policy-positive :
    (document : ResourceDocument) (m : MaterializationPolicy)
    → resolve_materialization_policy document ≡ ok m
    → not_positive m.ttl_seconds ≡ false
unfolding resolve_materialization_policy not_positive
resolve_materialization_policy-positive document m h =
    let (raw, _, h₁) =
      >>=-eq-ok (mapping (get document.spec "materialization") "materialization") _ h in
    elim (Bool-cases (truthy (obj raw))) [
      | inr blank ↦ rw (← ok_injective (sym (if_true _ (ap not blank)) ∙ h₁)) refl
      | inl given ↦
          let h₂ = sym (if_false _ (ap not given)) ∙ h₁ in
          let (ttl, _, h₃) = >>=-eq-ok (int _) _ h₂ in
          elim (Bool-cases (not_positive ttl)) [
            | inl bad ↦ absurd (cc (sym (if_true _ bad) ∙ h₃))
            | inr good ↦
                let (delivery, _, h₄) =
                  >>=-eq-ok (parse_delivery (get raw "delivery")) _ (sym (if_false _ good) ∙ h₃) in
                rw (← ok_injective h₄) good
          ]
    ]

-- The secret controls that a connection resolves to name secrets by an ASCII letter or digit and at
-- most 127 letters, digits, dots, underscores and dashes, and give what they materialize a lifetime of
-- at least one second.
pub resolve_connection_secret_controls-IsSound :
    (document : ResourceDocument) (registry : Option ResourceRegistry)
    (c : ConnectionSecretControls)
    → resolve_connection_secret_controls document registry ≡ ok c
    → IsSound c
unfolding resolve_connection_secret_controls
resolve_connection_secret_controls-IsSound document registry c h =
    elim (Bool-cases (document.identifier.kind == "ConnectionProfile")) [
      | inr other ↦ absurd (cc (sym (if_true _ (ap not other)) ∙ h))
      | inl same ↦
          let h₁ = sym (if_false _ (ap not same)) ∙ h in
          let (raw, _, h₂) = >>=-eq-ok (string_list _) _ h₁ in
          let (refs, valid, h₃) = >>=-eq-ok (normalize_refs 0 raw) _ h₂ in
          let (backend, _, h₄) = >>=-eq-ok (resolve_backend_ref document registry) _ h₃ in
          let (allowed, _, h₅) =
            >>=-eq-ok (response_allowlist document.spec allowlist_names) _ h₄ in
          let (policy, lasting, h₆) = >>=-eq-ok (resolve_materialization_policy document) _ h₅ in
          rw (← ok_injective h₆) (record {
            refs = normalize_refs-AllRefs 0 raw refs valid;
            lifetime =
                positive policy.ttl_seconds
                  (resolve_materialization_policy-positive document policy lasting);
          })
    ]
