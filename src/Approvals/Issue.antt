-- ===== src/Approvals/Issue.antt =====
-- kernel/approvals.py: a receipt that is issued for an action, validated for it at a later time.
use context_control_plane.Base.{
  ℕ, ◌+◌, ◌*◌, ◌/◌, String, ◌≡◌, refl, sym, ◌∙◌, true, false, inl, inr, Bool-cases,
}
use context_control_plane.Python.Error.{ok, >>=-eq-ok, ok_injective}
use context_control_plane.Python.Text.{strip, or_else, is_empty, is_ascii}
use context_control_plane.Python.Value.{ℤ, Fields, end, field}
use context_control_plane.Python.Runtime.{Runtime}
use context_control_plane.Approvals.{
  ApprovalReceiptRecord, environ_text, format_timestamp, parse_timestamp, binding_digest_of,
  receipt_signing_payload, signing_key, approval_issuer, sign_receipt,
}
use context_control_plane.Approvals.Receipt.{
  Action, at_least_one, expiry_answer, check_signature_and_time, unsigned_receipt,
  issue_approval_receipt, validate_approval_receipt,
}
use context_control_plane.Approvals.Validity.{
  Names, IsSigned, Names-field_mismatch, IsSigned-verify_signature,
}

-- The behaviour of `datetime` and `hmac` that approvals rely on: a timestamp that is written in
-- whole seconds is read back, and a signature is a text of ASCII
-- characters, and not the empty one.
pub record IsLawful (rt : Runtime) : Type 0 where
  pub timestamps : (t : ℕ) → parse_timestamp rt (format_timestamp rt t) ≡ ok (t / 1000000 * 1000000)
  pub signatures : (key payload : String) → is_empty (rt.hmac_hex key payload) ≡ false
  pub ascii : (key payload : String) → is_ascii (rt.hmac_hex key payload) ≡ true

-- The same machine at another time.
abbrev pub at : Runtime → ℕ → Runtime
at rt t = record rt { now = t }

not-signing_key :
    (rt : Runtime) (key : String)
    → is_empty (environ_text rt "CCP_APPROVAL_SIGNING_KEY") ≡ true
    → is_empty (environ_text rt "CCP_APPROVAL_SIGNING_KEY_FILE") ≡ true
    → is_empty (environ_text rt "CCP_APPROVAL_SIGNING_KEY_PATH") ≡ true
    → ¬ (signing_key rt ≡ ok key)
unfolding signing_key
not-signing_key rt key no_key no_file no_path h = cc (rw (no_key, no_file, no_path) at h)

-- Where there is a key, there is a name for its issuer.
signing_key-issuer :
    (rt : Runtime) (key : String) → signing_key rt ≡ ok key → is_empty (approval_issuer rt) ≡ false
unfolding approval_issuer is_empty
signing_key-issuer rt key h =
    elim (Bool-cases (is_empty (environ_text rt "CCP_APPROVAL_SIGNING_ISSUER"))) [
      | inr named ↦ rw named named
      | inl unnamed ↦
          rw unnamed (elim (Bool-cases (is_empty (environ_text rt "CCP_APPROVAL_SIGNING_KEY"))) [
            | inr inline ↦ rw inline
            | inl no_key ↦
                rw no_key
                  (elim (Bool-cases (is_empty (environ_text rt "CCP_APPROVAL_SIGNING_KEY_FILE"))) [
                    | inr file ↦ rw file
                    | inl no_file ↦
                        rw no_file
                          (elim (Bool-cases
                            (is_empty (environ_text rt "CCP_APPROVAL_SIGNING_KEY_PATH"))) [
                              | inr path ↦ rw path
                              | inl no_path ↦
                                  absurd (not-signing_key rt key no_key no_file no_path h)
                            ])
                  ])
          ])
    ]

pub sign_receipt-signing_key :
    (rt : Runtime) (r : ApprovalReceiptRecord) (signature : String)
    → sign_receipt rt r ≡ ok signature
    → (key : String) × (signing_key rt ≡ ok key)
unfolding sign_receipt
sign_receipt-signing_key rt r signature h =
    let (key, found, _) = >>=-eq-ok (signing_key rt) _ h in (key, found)

-- What the time does not change.
module _ (rt : Runtime) (t : ℕ) where
  binding_digest_of-at :
      (binding : Fields) → binding_digest_of rt binding ≡ binding_digest_of (at rt t) binding
  unfolding binding_digest_of
  binding_digest_of-at end = refl
  binding_digest_of-at (field k v fs) = refl

  signing_key-at : signing_key (at rt t) ≡ signing_key rt
  unfolding signing_key environ_text
  signing_key-at = refl

  parse_timestamp-at : (s : String) → parse_timestamp (at rt t) s ≡ parse_timestamp rt s
  unfolding parse_timestamp
  parse_timestamp-at s = refl

module _ (rt : Runtime) (a : Action) (approved_by reason : String) (ttl_minutes : ℤ)
    (metadata : Fields) (t : ℕ) (signature key : String) (found : signing_key rt ≡ ok key) where
  abbrev pub issued : ApprovalReceiptRecord
  issued = record (unsigned_receipt rt a approved_by reason ttl_minutes metadata) {
    signature = signature;
  }

  pub issued-Names :
      is_empty (strip (or_else a.namespace "default")) ≡ false → Names (at rt t) issued a
  unfolding unsigned_receipt or_else
  issued-Names named = record {
    kind = refl;
    name = refl;
    namespace = rw named;
    access = refl;
    mode = refl;
    operation = refl;
    binding = binding_digest_of-at rt t a.binding;
    issuer = signing_key-issuer rt key found;
  }

  issued-IsSigned :
      IsLawful rt
      → sign_receipt rt (unsigned_receipt rt a approved_by reason ttl_minutes metadata)
        ≡ ok signature
      → IsSigned (at rt t) issued
  unfolding sign_receipt receipt_signing_payload
  issued-IsSigned lawful h =
      let signed = ok_injective (rw found at h) in
      record {
        key = key;
        found = signing_key-at rt t ∙ found;
        present = rw (← signed) (lawful.signatures key _);
        ascii = rw (← signed) (lawful.ascii key _);
        signature = sym signed;
      }

  issued-end :
      IsLawful rt
      → parse_timestamp (at rt t) issued.expires_at
        ≡ ok ((rt.now + at_least_one ttl_minutes * 60000000) / 1000000 * 1000000)
  unfolding unsigned_receipt
  issued-end lawful =
      parse_timestamp-at rt t _ ∙ lawful.timestamps (rt.now + at_least_one ttl_minutes * 60000000)

  check-issued :
      IsLawful rt
      → IsSigned (at rt t) issued
      → check_signature_and_time (at rt t) issued
        ≡ ok (expiry_answer t ((rt.now + at_least_one ttl_minutes * 60000000) / 1000000 * 1000000))
  unfolding check_signature_and_time
  check-issued lawful signed =
      rw (IsSigned-verify_signature (at rt t) issued signed) (rw (issued-end lawful))

-- A receipt that was issued for an action is accepted for that action until it ends, and from then on
-- refused as expired; it ends the given minutes after the issue, at least one, in whole seconds. The
-- namespace of the action must not be blank.
pub issue-validate :
    (rt : Runtime) (a : Action) (approved_by reason : String) (ttl_minutes : ℤ) (metadata : Fields)
    (r : ApprovalReceiptRecord) (t : ℕ)
    → IsLawful rt
    → is_empty (strip (or_else a.namespace "default")) ≡ false
    → issue_approval_receipt rt a approved_by reason ttl_minutes metadata ≡ ok r
    → validate_approval_receipt (at rt t) r a
      ≡ ok (expiry_answer t ((rt.now + at_least_one ttl_minutes * 60000000) / 1000000 * 1000000))
unfolding issue_approval_receipt validate_approval_receipt
issue-validate rt a approved_by reason ttl_minutes metadata r t lawful named h =
    let (signature, signs, same) = >>=-eq-ok (sign_receipt rt _) _ h in
    let (key, found) = sign_receipt-signing_key rt _ signature signs in
    rw (← ok_injective same) (
      rw
        (
          Names-field_mismatch (at rt t) _ a (
              issued-Names rt a approved_by reason ttl_minutes metadata t signature key found
                named),
          validate_approval_receipt,
        )
        (check-issued rt a approved_by reason ttl_minutes metadata t signature key found lawful (
          issued-IsSigned rt a approved_by reason ttl_minutes metadata t signature key found lawful
            signs)))
