-- ===== src/Approvals/Binding.antt =====
-- kernel/approvals.py: what a receipt is for.
use mathlib.Core.Path.{subst}
use context_control_plane.Base.{
  ℕ, ◌≢◌, ◌⊎◌, inl, inr, ◌==◌, eq_iff, Bool-cases, String, ◌≡◌, refl, sym, ◌∙◌, ap, true, false,
  false≢true,
}
use context_control_plane.Python.Error.{ok, >>=-eq-ok, ok_injective}
use context_control_plane.Python.Text.{strip, lower, or_else, is_empty}
use context_control_plane.Python.Value.{ℤ, Fields, end, field}
use context_control_plane.Python.Runtime.{Runtime}
use context_control_plane.Approvals.{
  ApprovalReceiptRecord, binding_digest_of, canonical_json, sign_receipt,
}
use context_control_plane.Approvals.Receipt.{
  Action, issue_approval_receipt, validate_approval_receipt,
}
use context_control_plane.Approvals.Issue.{at, sign_receipt-signing_key, issued-Names}
use context_control_plane.Approvals.Validity.{Names, validate-Approves}

-- What is assumed of `hashlib.sha256`: a digest is not the empty text.
abbrev pub HasDigests : Runtime → Type 0
HasDigests rt = (x : String) → is_empty (rt.sha256_hex x) ≡ false

-- Two texts with one digest.
pub record IsCollision (rt : Runtime) (x y : String) : Type 0 where
  pub different : x ≢ y
  pub digest : rt.sha256_hex x ≡ rt.sha256_hex y

-- Two actions that differ at most in the case and the space of their names, and have one binding,
-- unless the canonical texts of their bindings are a collision.
pub record IsSameAction (rt : Runtime) (a b : Action) : Type 0 where
  pub kind : strip a.subject_kind ≡ strip b.subject_kind
  pub name : strip a.subject_name ≡ strip b.subject_name
  pub namespace : strip (or_else a.namespace "default") ≡ strip (or_else b.namespace "default")
  pub access : lower (strip a.access) ≡ lower (strip b.access)
  pub mode : lower (strip a.mode) ≡ lower (strip b.mode)
  pub operation : strip a.operation ≡ strip b.operation
  pub binding :
      (canonical_json a.binding ≡ canonical_json b.binding)
      ⊎ IsCollision rt (canonical_json a.binding) (canonical_json b.binding)

same-or-IsCollision :
    (rt : Runtime) (x y : String) → rt.sha256_hex x ≡ rt.sha256_hex y → (x ≡ y) ⊎ IsCollision rt x y
same-or-IsCollision rt x y h = elim (Bool-cases (x == y)) [
  | inl e ↦ inl ((eq_iff x y).0 e)
  | inr e ↦
      inr (record { different = λ same. false≢true (sym e ∙ (eq_iff x y).1 same); digest = h })
]

binding_digest_of-canonical_json :
    (rt : Runtime)
    → HasDigests rt
    → (x y : Fields) → binding_digest_of rt x ≡ binding_digest_of rt y
    → (canonical_json x ≡ canonical_json y) ⊎ IsCollision rt (canonical_json x) (canonical_json y)
unfolding binding_digest_of is_empty
binding_digest_of-canonical_json rt c end end h = inl refl
binding_digest_of-canonical_json rt c end (field k v fs) h =
    absurd (false≢true (sym (c _) ∙ ap is_empty (sym h)))
binding_digest_of-canonical_json rt c (field k v fs) end h =
    absurd (false≢true (sym (c _) ∙ ap is_empty h))
binding_digest_of-canonical_json rt c (field k v fs) (field j w gs) h = same-or-IsCollision rt _ _ h

Names-IsSameAction :
    (rt : Runtime) (r : ApprovalReceiptRecord) (a b : Action)
    → HasDigests rt
    → Names rt r a
    → Names rt r b
    → IsSameAction rt a b
Names-IsSameAction rt r a b c m n = record {
  kind = sym m.kind ∙ n.kind;
  name = sym m.name ∙ n.name;
  namespace = sym m.namespace ∙ n.namespace;
  access = sym m.access ∙ n.access;
  mode = sym m.mode ∙ n.mode;
  operation = sym m.operation ∙ n.operation;
  binding = binding_digest_of-canonical_json rt c a.binding b.binding (sym m.binding ∙ n.binding);
}

-- A receipt that was issued for an action is accepted, at whatever time, for no other action: whatever
-- it is accepted for has the same subject, namespace, access, mode and operation, once normalized, and
-- a binding with the same canonical text, unless the two texts are a collision of SHA-256. The
-- namespace of the first action must not be blank, and no digest may be empty.
pub issue-IsSameAction :
    (rt : Runtime) (a b : Action) (approved_by why : String) (ttl_minutes : ℤ) (metadata : Fields)
    (r : ApprovalReceiptRecord) (t : ℕ) (reason : String)
    → HasDigests rt
    → is_empty (strip (or_else a.namespace "default")) ≡ false
    → issue_approval_receipt rt a approved_by why ttl_minutes metadata ≡ ok r
    → validate_approval_receipt (at rt t) r b ≡ ok (true, reason)
    → IsSameAction (at rt t) a b
unfolding issue_approval_receipt
issue-IsSameAction rt a b approved_by why ttl_minutes metadata r t reason digests named issues
      accepted =
    let (signature, signs, same) = >>=-eq-ok (sign_receipt rt _) _ issues in
    let (key, found) = sign_receipt-signing_key rt _ signature signs in
    let names =
      issued-Names rt a approved_by why ttl_minutes metadata t signature key found named in
    Names-IsSameAction (at rt t) r a b digests
      (subst (λ r. Names (at rt t) r a) (ok_injective same) names)
      (validate-Approves (at rt t) r b reason accepted).names
