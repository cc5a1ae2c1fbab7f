-- ===== src/Approvals/Validity.antt =====
-- kernel/approvals.py: what a receipt has to be for `validate_approval_receipt` to accept it.
use context_control_plane.Base.{
  ℕ, ◌<◌, String, ◌≡◌, refl, sym, ◌∙◌, ◌↔◌, Bool, true, false, not, Option, none, some, inl, inr,
  ◌==◌, arith, eq_iff, Bool-cases, Option-cases, false≢true, if◌then◌else◌, if_true, if_false, ap,
  ◌&&◌,
}
use context_control_plane.Python.Error.{Result, ok, err, type_error, ◌>>=◌, >>=-eq-ok, ok_injective}
use context_control_plane.Python.Text.{strip, lower, or_else, is_empty, is_ascii}
use context_control_plane.Python.Runtime.{Runtime}
use context_control_plane.Approvals.{
  ApprovalReceiptRecord, parse_timestamp, binding_digest_of, canonical_json,
  receipt_signing_payload, signing_key, sign_receipt, compare_signature, verify_signature,
}
use context_control_plane.Approvals.Receipt.{
  Action, expiry_answer, field_mismatch, check_signature_and_time, validate_approval_receipt,
}

-- A chain of tests that finds nothing has passed its first test.
passed_test :
    (b : Bool) (s : String) (rest : Option String)
    → (if not b then some s else rest) ≡ none
    → (b ≡ true) × (rest ≡ none)
passed_test true s rest h = (refl, h)
passed_test false s rest h = cc

passed_last : (b : Bool) (s : String) → (if b then some s else none) ≡ none → b ≡ false
passed_last true s h = cc
passed_last false s h = refl

-- An answer that is positive has come past the test of the signature.
passed_signature :
    (valid : Bool) (why : String) (rest : Result (Bool × String)) (reason : String)
    → (if not valid then ok (false, why) else rest) ≡ ok (true, reason)
    → (valid ≡ true) × (rest ≡ ok (true, reason))
passed_signature true why rest reason h = (refl, h)
passed_signature false why rest reason h = absurd (false≢true (cc h))

module _ (rt : Runtime) where
  -- The receipt names the action.
  pub record Names (r : ApprovalReceiptRecord) (a : Action) : Type 0 where
    pub kind : r.subject_kind ≡ strip a.subject_kind
    pub name : r.subject_name ≡ strip a.subject_name
    pub namespace : r.namespace ≡ strip (or_else a.namespace "default")
    pub access : r.access ≡ lower (strip a.access)
    pub mode : r.mode ≡ lower (strip a.mode)
    pub operation : r.operation ≡ strip a.operation
    pub binding : r.binding_digest ≡ binding_digest_of rt a.binding
    pub issuer : is_empty r.issuer ≡ false

  -- The receipt carries the signature of its own fields under the key of this machine.
  pub record IsSigned (r : ApprovalReceiptRecord) : Type 0 where
    pub key : String
    pub found : signing_key rt ≡ ok key
    pub present : is_empty r.signature ≡ false
    pub ascii : is_ascii r.signature ≡ true
    pub signature : r.signature ≡ rt.hmac_hex key (canonical_json (receipt_signing_payload r))

  -- The receipt ends after this moment.
  pub record IsCurrent (r : ApprovalReceiptRecord) : Type 0 where
    pub end : ℕ
    pub parsed : parse_timestamp rt r.expires_at ≡ ok end
    pub later : rt.now < end

  pub record Approves (r : ApprovalReceiptRecord) (a : Action) : Type 0 where
    pub names : Names r a
    pub signed : IsSigned r
    pub current : IsCurrent r

  field_mismatch-none :
      (r : ApprovalReceiptRecord) (a : Action) → field_mismatch rt r a ≡ none → Names r a
  unfolding field_mismatch
  field_mismatch-none r a h =
      let (kind, h₁) = passed_test (r.subject_kind == strip a.subject_kind) _ _ h in
      let (name, h₂) = passed_test (r.subject_name == strip a.subject_name) _ _ h₁ in
      let (namespace, h₃) =
        passed_test (r.namespace == strip (or_else a.namespace "default")) _ _ h₂ in
      let (access, h₄) = passed_test (r.access == lower (strip a.access)) _ _ h₃ in
      let (mode, h₅) = passed_test (r.mode == lower (strip a.mode)) _ _ h₄ in
      let (operation, h₆) = passed_test (r.operation == strip a.operation) _ _ h₅ in
      let (binding, h₇) = passed_test (r.binding_digest == binding_digest_of rt a.binding) _ _ h₆ in
      record {
        kind = (eq_iff _ _).0 kind;
        name = (eq_iff _ _).0 name;
        namespace = (eq_iff _ _).0 namespace;
        access = (eq_iff _ _).0 access;
        mode = (eq_iff _ _).0 mode;
        operation = (eq_iff _ _).0 operation;
        binding = (eq_iff _ _).0 binding;
        issuer = passed_last (is_empty r.issuer) _ h₇;
      }

  pub Names-field_mismatch :
      (r : ApprovalReceiptRecord) (a : Action) → Names r a → field_mismatch rt r a ≡ none
  unfolding field_mismatch
  Names-field_mismatch r a n = rw (
    (eq_iff _ _).1 n.kind,
    (eq_iff _ _).1 n.name,
    (eq_iff _ _).1 n.namespace,
    (eq_iff _ _).1 n.access,
    (eq_iff _ _).1 n.mode,
    (eq_iff _ _).1 n.operation,
    (eq_iff _ _).1 n.binding,
    n.issuer,
  )

  -- The answer on a receipt whose signature is present.
  compare_signature-true :
      (s : String) (expected : Result String) {reason : String}
      → compare_signature rt s expected ≡ ok (true, reason)
      → (expected ≡ ok s) × (is_ascii s ≡ true)
  unfolding compare_signature
  compare_signature-true s (ok e) h = elim (Bool-cases (is_ascii s && is_ascii e)) [
    | inr other ↦ absurd (cc (sym (if_true _ (ap not other)) ∙ h))
    | inl plain ↦
        let h₁ = sym (if_false _ (ap not plain)) ∙ h in
        elim (Bool-cases (s == e)) [
          | inl same ↦ (cc ((eq_iff s e).0 same), ground (arith, plain))
          | inr other ↦ absurd (cc (sym (if_false _ other) ∙ h₁))
        ]
  ]
  compare_signature-true s (err (type_error m)) h = cc
  compare_signature-true s (err _) h = cc

  verify_signature-IsSigned :
      (r : ApprovalReceiptRecord) {reason : String}
      → verify_signature rt r ≡ ok (true, reason)
      → IsSigned r
  unfolding verify_signature sign_receipt
  verify_signature-IsSigned r h = elim (Bool-cases (is_empty r.signature)) [
    | inl missing ↦ absurd (cc (rw missing at h))
    | inr present ↦
        let (signed, ascii) =
          compare_signature-true r.signature (sign_receipt rt r) (rw present at h) in
        let (key, found, e) = >>=-eq-ok (signing_key rt) _ signed in
        record {
          key = key;
          found = found;
          present = present;
          signature = sym (ok_injective e);
          ascii = ascii;
        }
  ]

  compare_signature-same :
      (s : String)
      → is_ascii s ≡ true
      → compare_signature rt s (ok s) ≡ ok (true, "approval receipt signature is valid")
  unfolding compare_signature
  compare_signature-same s ascii = rw (ascii, (eq_iff s s).1 refl) refl

  pub IsSigned-verify_signature :
      (r : ApprovalReceiptRecord)
      → IsSigned r
      → verify_signature rt r ≡ ok (true, "approval receipt signature is valid")
  unfolding verify_signature sign_receipt
  IsSigned-verify_signature r s =
      rw (s.present, s.found) (rw (← s.signature) (compare_signature-same r.signature s.ascii))

  expiry_sound :
      (m : Result ℕ) (reason : String)
      → ◌>>=◌ {B = Bool × String} m (λ end. ok (expiry_answer rt.now end)) ≡ ok (true, reason)
      → (end : ℕ) × (m ≡ ok end) × (rt.now < end)
  expiry_sound (ok end) reason h = (end, refl, ground arith)
  expiry_sound (err e) reason h = cc

  check_sound :
      (r : ApprovalReceiptRecord) (reason : String)
      → check_signature_and_time rt r ≡ ok (true, reason)
      → IsSigned r × IsCurrent r
  unfolding check_signature_and_time
  check_sound r reason h =
      let (answer, verified, h₁) = >>=-eq-ok (verify_signature rt r) _ h in
      let (valid, h₂) = passed_signature answer.0 answer.1 _ reason h₁ in
      let (end, parsed, later) = expiry_sound (parse_timestamp rt r.expires_at) reason h₂ in
      (
        verify_signature-IsSigned r {reason = answer.1} (verified ∙ cc valid),
        record { end = end; parsed = parsed; later = later },
      )

  check_complete :
      (r : ApprovalReceiptRecord)
      → IsSigned r
      → IsCurrent r
      → check_signature_and_time rt r ≡ ok (true, "approval receipt is valid")
  unfolding check_signature_and_time
  check_complete r s c = rw (IsSigned-verify_signature r s, c.parsed) (ground (arith, c.later))

  pub validate-Approves :
      (r : ApprovalReceiptRecord) (a : Action) (reason : String)
      → validate_approval_receipt rt r a ≡ ok (true, reason)
      → Approves r a
  unfolding validate_approval_receipt
  validate-Approves r a reason h = elim (Option-cases (field_mismatch rt r a)) [
    | inr (why, found) ↦ absurd (false≢true (cc (rw (found, validate_approval_receipt) at h)))
    | inl passed ↦
        let (signed, current) =
          check_sound r reason (rw (passed, validate_approval_receipt) at h) in
        record { names = field_mismatch-none r a passed; signed = signed; current = current }
  ]

  -- A receipt is accepted for an action exactly when it names the action, with the digest of its
  -- binding, carries the signature of its fields under the key of this machine, and has not ended.
  pub validate_iff :
      (r : ApprovalReceiptRecord) (a : Action)
      → (validate_approval_receipt rt r a ≡ ok (true, "approval receipt is valid")) ↔ Approves r a
  unfolding validate_approval_receipt
  validate_iff r a = (
    validate-Approves r a _,
    λ v.
        rw (Names-field_mismatch r a v.names, validate_approval_receipt)
          (check_complete r v.signed v.current),
  )
