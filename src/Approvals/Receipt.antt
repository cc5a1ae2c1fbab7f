-- ===== src/Approvals/Receipt.antt =====
-- kernel/approvals.py: reading, issuing and validating a receipt.
use Prim.Native.Nat.{max}
use context_control_plane.Base.{
  ℕ, ◌+◌, ◌*◌, String, ◌<>◌, Bool, true, false, not, ◌||◌, Option, none, some, ◌==◌, leb,
  if◌then◌else◌,
}
use context_control_plane.Python.Error.{Result, ok, err, value_error, ◌>>=◌}
use context_control_plane.Python.Text.{strip, lower, or_else, is_empty}
use context_control_plane.Python.Value.{
  ℤ, pos, negsuc, Value, str, obj, Fields, end, is_blank, text_or, get_or,
}
use context_control_plane.Python.Runtime.{Runtime}
use context_control_plane.Approvals.{
  ApprovalReceiptRecord, approval_api_version, approval_kind, format_timestamp, parse_timestamp,
  binding_digest_of, approval_issuer, sign_receipt, verify_signature,
}

-- `str(m.get(k, "") or "").strip()`
unfoldable pub stripped : Fields → String → String
stripped m k = strip (text_or (get_or m k (str "")) "")

-- An argument that must be a JSON object.
unfoldable pub object_of : Value → String → Result Fields
object_of (obj fs) problem = ok fs
object_of _ problem = err (value_error problem)

-- `if not test: raise ValueError(problem)`
unfoldable pub require : Bool → String → Result (Unit {0})
require true problem = ok tt
require false problem = err (value_error problem)

infixl 5 ◌>>◌
abbrev pub ◌>>◌ {ℓ} : {B : Type ℓ} → Result (Unit {0}) → Result B → Result B
m >> k = m >>= λ _. k

-- The fields of the receipt, read before the tests on them.
unfoldable pub read_receipt :
    String → Fields → Fields → String → String → Fields → ApprovalReceiptRecord
unfolding stripped
read_receipt source spec subject approval_id namespace metadata = record {
  approval_id = approval_id;
  subject_kind = stripped subject "kind";
  subject_name = stripped subject "name";
  namespace =
      or_else (strip (text_or (get_or subject "namespace" (str namespace)) namespace)) namespace;
  access = lower (stripped spec "access");
  mode = lower (stripped spec "mode");
  operation = stripped spec "operation";
  approved_by = stripped spec "approvedBy";
  issued_at = stripped spec "issuedAt";
  expires_at = stripped spec "expiresAt";
  binding_digest = stripped spec "bindingDigest";
  issuer = stripped spec "issuer";
  signature = stripped spec "signature";
  reason = stripped spec "reason";
  metadata = metadata;
  source = source;
}

-- The metadata of a spec: an object, or left out.
unfoldable pub receipt_metadata : Value → Result Fields
unfolding object_of is_blank
receipt_metadata raw =
    if is_blank raw
    then ok end
    else object_of raw "approval receipt spec.metadata must be a JSON object when provided"

-- The action that an approval is for: the keyword arguments of the two functions below.
pub record Action : Type 0 where
  pub subject_kind : String
  pub subject_name : String
  pub namespace : String
  pub access : String
  pub mode : String
  pub operation : String
  pub binding : Fields

-- The last test, and the answer of a receipt that passes all.
abbrev pub expiry_answer : ℕ → ℕ → Bool × String
expiry_answer now expires =
    if leb expires now
    then (false, "approval receipt has expired")
    else (true, "approval receipt is valid")

-- `max(int(ttl_minutes), 1)`
unfoldable pub at_least_one : ℤ → ℕ
at_least_one (pos n) = max n 1
at_least_one (negsuc n) = 1

module _ (rt : Runtime) where
  -- The tests on the fields, in order.
  unfoldable pub check_receipt : ApprovalReceiptRecord → Result ApprovalReceiptRecord
  unfolding require
  check_receipt r = do
    require (not (is_empty r.subject_kind || is_empty r.subject_name))
        "approval receipt subject.kind and subject.name are required"
    require (not (is_empty r.access)) "approval receipt spec.access is required"
    require (not (is_empty r.mode)) "approval receipt spec.mode is required"
    require (not (is_empty r.operation)) "approval receipt spec.operation is required"
    require (not (is_empty r.approved_by)) "approval receipt spec.approvedBy is required"
    require (not (is_empty r.issued_at)) "approval receipt spec.issuedAt is required"
    require (not (is_empty r.expires_at)) "approval receipt spec.expiresAt is required"
    issued ← parse_timestamp rt r.issued_at
    expires ← parse_timestamp rt r.expires_at
    ok r

  -- `build_approval_receipt`
  unfoldable pub build_approval_receipt : Value → String → Result ApprovalReceiptRecord
  build_approval_receipt raw source = do
    payload ← object_of raw "approval receipt must be a JSON object"
    require (stripped payload "apiVersion" == approval_api_version)
        "approval receipt must declare apiVersion 'ccp.io/runtime/v1beta1'"
    require (stripped payload "kind" == approval_kind)
        "approval receipt must declare kind 'ApprovalReceipt'"
    metadata ←
        object_of (get_or payload "metadata" (obj end))
          "approval receipt metadata must be a JSON object"
    let approval_id = stripped metadata "name"
    let namespace =
        or_else (strip (text_or (get_or metadata "namespace" (str "default")) "default")) "default"
    require (not (is_empty approval_id)) "approval receipt metadata.name is required"
    spec ← object_of (get_or payload "spec" (obj end)) "approval receipt spec must be a JSON object"
    subject ←
        object_of (get_or spec "subject" (obj end))
          "approval receipt spec.subject must be a JSON object"
    own ← receipt_metadata (get_or spec "metadata" (obj end))
    check_receipt (read_receipt source spec subject approval_id namespace own)

  -- The receipt of `issue_approval_receipt`, before it is signed.
  unfoldable pub unsigned_receipt : Action → String → String → ℤ → Fields → ApprovalReceiptRecord
  unfolding at_least_one
  unsigned_receipt a approved_by reason ttl_minutes metadata = record {
    approval_id = "apr_" <> rt.uuid_hex 0;
    subject_kind = strip a.subject_kind;
    subject_name = strip a.subject_name;
    namespace = or_else (strip (or_else a.namespace "default")) "default";
    access = lower (strip a.access);
    mode = lower (strip a.mode);
    operation = strip a.operation;
    approved_by = strip approved_by;
    issued_at = format_timestamp rt rt.now;
    expires_at = format_timestamp rt (rt.now + at_least_one ttl_minutes * 60000000);
    binding_digest = binding_digest_of rt a.binding;
    issuer = approval_issuer rt;
    signature = "";
    reason = strip reason;
    metadata = metadata;
    source = "";
  }

  -- `issue_approval_receipt`
  unfoldable pub issue_approval_receipt :
      Action → String → String → ℤ → Fields → Result ApprovalReceiptRecord
  unfolding unsigned_receipt
  issue_approval_receipt a approved_by reason ttl_minutes metadata = do
    let receipt = unsigned_receipt a approved_by reason ttl_minutes metadata
    signature ← sign_receipt rt receipt
    ok (record receipt { signature = signature })

  -- The tests of `validate_approval_receipt` on the fields: the reason of the first that fails.
  unfoldable pub field_mismatch : ApprovalReceiptRecord → Action → Option String
  field_mismatch r a =
      if not (r.subject_kind == strip a.subject_kind)
      then some "approval receipt subject kind does not match the requested resource"
      else if not (r.subject_name == strip a.subject_name)
      then some "approval receipt subject name does not match the requested resource"
      else if not (r.namespace == strip (or_else a.namespace "default"))
      then some "approval receipt namespace does not match the requested resource"
      else if not (r.access == lower (strip a.access))
      then some "approval receipt access does not match the requested access level"
      else if not (r.mode == lower (strip a.mode))
      then some "approval receipt mode does not match the requested connection mode"
      else if not (r.operation == strip a.operation)
      then some "approval receipt operation does not match the requested execution plan"
      else if not (r.binding_digest == binding_digest_of rt a.binding)
      then some "approval receipt binding does not match the requested connection context"
      else if is_empty r.issuer
      then some "approval receipt issuer is missing"
      else none

  -- The last two tests: the signature, then the time.
  unfoldable pub check_signature_and_time : ApprovalReceiptRecord → Result (Bool × String)
  check_signature_and_time r = do
    (signature_valid, signature_reason) ← verify_signature rt r
    if not signature_valid then ok (false, signature_reason) else do
      expires ← parse_timestamp rt r.expires_at
      ok (
          if leb expires rt.now
          then (false, "approval receipt has expired")
          else (true, "approval receipt is valid"))

  -- `validate_approval_receipt`
  unfoldable pub validate_approval_receipt : ApprovalReceiptRecord → Action → Result (Bool × String)
  validate_approval_receipt r a = elim (field_mismatch r a) [
    | some reason ↦ ok (false, reason)
    | none ↦ check_signature_and_time r
  ]
