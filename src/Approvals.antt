-- ===== src/Approvals.antt =====
-- kernel/approvals.py: approval receipts, how they are issued, signed, written, read and validated.
pub mod Receipt
pub mod Validity
pub mod Issue
pub mod Written
pub mod Binding
use Prim.Native.Nat.{max}
use context_control_plane.Base.{
  ℕ, ◌+◌, ◌*◌, ◌/◌, String, ◌<>◌, Bool, true, false, not, ◌&&◌, ◌||◌, Option, none, some, ◌==◌, leb,
  if◌then◌else◌,
}
use context_control_plane.Python.Error.{Result, ok, err, value_error, type_error, message, ◌>>=◌}
use context_control_plane.Python.Text.{strip, lower, or_else, is_empty, is_ascii, repr}
use context_control_plane.Python.Value.{
  ℤ, pos, negsuc, Value, str, obj, Fields, end, field, is_blank, truthy, text_or, get_or, get,
}
use context_control_plane.Python.Json.{dumps}
use context_control_plane.Python.Runtime.{Runtime, replace}

pub record ApprovalReceiptRecord : Type 0 where
  pub approval_id : String
  pub subject_kind : String
  pub subject_name : String
  pub namespace : String
  pub access : String
  pub mode : String
  pub operation : String
  pub approved_by : String
  pub issued_at : String
  pub expires_at : String
  pub binding_digest : String
  pub issuer : String
  pub signature : String
  pub reason : String
  pub metadata : Fields
  pub source : String

abbrev pub approval_api_version : String
approval_api_version = "ccp.io/runtime/v1beta1"

abbrev pub approval_kind : String
approval_kind = "ApprovalReceipt"

-- `_canonical_json`
unfoldable pub canonical_json : Fields → String
canonical_json value = dumps (obj value)

-- `_receipt_signing_payload`: all that the signature covers.
unfoldable pub receipt_signing_payload : ApprovalReceiptRecord → Fields
receipt_signing_payload r = field "approvalId" (str r.approval_id) (
    field "subject"
      (obj (
        field "kind" (str r.subject_kind)
          (field "name" (str r.subject_name) (field "namespace" (str r.namespace) end))))
      (field "access" (str r.access) (
        field "mode" (str r.mode) (
          field "operation" (str r.operation) (
            field "approvedBy" (str r.approved_by) (
              field "issuedAt" (str r.issued_at) (
                field "expiresAt" (str r.expires_at) (
                  field "reason" (str r.reason) (
                    field "metadata" (obj r.metadata) (
                      field "bindingDigest" (str r.binding_digest)
                        (field "issuer" (str r.issuer) end)))))))))))

-- `ApprovalReceiptRecord.to_dict`
unfoldable pub receipt_to_dict : ApprovalReceiptRecord → Fields
receipt_to_dict r = field "apiVersion" (str approval_api_version) (
    field "kind" (str approval_kind) (
      field "metadata"
        (obj (field "name" (str r.approval_id) (field "namespace" (str r.namespace) end)))
        (field "spec"
          (obj (
            field "subject"
              (obj (
                field "kind" (str r.subject_kind)
                  (field "name" (str r.subject_name) (field "namespace" (str r.namespace) end))))
              (field "access" (str r.access) (
                field "mode" (str r.mode) (
                  field "operation" (str r.operation) (
                    field "approvedBy" (str r.approved_by) (
                      field "issuedAt" (str r.issued_at) (
                        field "expiresAt" (str r.expires_at) (
                          field "bindingDigest" (str r.binding_digest) (
                            field "issuer" (str r.issuer) (
                              field "signature" (str r.signature) (
                                field "reason" (str r.reason)
                                  (field "metadata" (obj r.metadata) end)))))))))))))
          (field "source" (str r.source) end))))

module _ (rt : Runtime) where
  -- `str(os.environ.get(name, "") or "").strip()`
  unfoldable pub environ_text : String → String
  environ_text name = elim (rt.environ name) [ some s ↦ strip s | none ↦ "" ]

  -- `_format_timestamp`
  unfoldable pub format_timestamp : ℕ → String
  format_timestamp value = replace "+00:00" "Z" (rt.isoformat (value / 1000000))

  -- `_parse_timestamp`
  unfoldable pub parse_timestamp : String → Result ℕ
  parse_timestamp value =
      let normalized = strip value in
      if is_empty normalized
      then err (value_error "approval receipt timestamp is required")
      else rt.fromisoformat (replace "Z" "+00:00" normalized)

  -- `_approval_key_path`
  unfoldable pub approval_key_path : Result String
  approval_key_path =
      let configured = environ_text "CCP_APPROVAL_SIGNING_KEY_PATH" in
      if is_empty configured
      then err (
          value_error
            "approval signing key is not configured; set CCP_APPROVAL_SIGNING_KEY, CCP_APPROVAL_SIGNING_KEY_FILE, or CCP_APPROVAL_SIGNING_KEY_PATH before issuing or validating approval receipts")
      else ok (rt.expand_user configured)

  -- `_binding_digest`
  unfoldable pub binding_digest_of : Fields → String
  binding_digest_of end = ""
  binding_digest_of (field k v fs) = rt.sha256_hex (canonical_json (field k v fs))

  -- What `_signing_key` does with the file at the path.
  key_of_file : String → Option String → Result String
  key_of_file key_path none = err (
      value_error (
        "approval signing key file does not exist: " <> key_path
        <> ". Provision the signer explicitly before issuing or validating approval receipts."))
  key_of_file key_path (some content) =
      let key_value = strip content in
      if is_empty key_value
      then err (value_error ("approval signing key file is empty: " <> key_path))
      else ok key_value

  -- `_signing_key`, whose argument the source does not read.
  unfoldable pub signing_key : Result String
  unfolding key_of_file approval_key_path
  signing_key =
      let inline = environ_text "CCP_APPROVAL_SIGNING_KEY" in
      if not (is_empty inline) then ok inline else do
        let file_override = environ_text "CCP_APPROVAL_SIGNING_KEY_FILE"
        key_path ←
            if is_empty file_override then approval_key_path else ok (rt.expand_user file_override)
        key_of_file key_path (rt.read_text key_path)

  -- `_approval_issuer`
  unfoldable pub approval_issuer : String
  approval_issuer =
      let configured = environ_text "CCP_APPROVAL_SIGNING_ISSUER" in
      if not (is_empty configured)
      then configured
      else if not (is_empty (environ_text "CCP_APPROVAL_SIGNING_KEY"))
      then "env-hmac"
      else if not (is_empty (environ_text "CCP_APPROVAL_SIGNING_KEY_FILE"))
      then "file-hmac"
      else if not (is_empty (environ_text "CCP_APPROVAL_SIGNING_KEY_PATH"))
      then "path-hmac"
      else ""

  -- `_sign_receipt`
  unfoldable pub sign_receipt : ApprovalReceiptRecord → Result String
  sign_receipt receipt = do
    key ← signing_key
    ok (rt.hmac_hex key (canonical_json (receipt_signing_payload receipt)))

  -- The comparison of `_verify_signature` with the signature that is expected: `compare_digest` raises
  -- a `TypeError` on two texts that are not both ASCII.
  compare_signature : String → Result String → Result (Bool × String)
  compare_signature signature (err (type_error m)) = err (type_error m)
  compare_signature signature (err e) = ok (false, message e)
  compare_signature signature (ok expected) =
      if not (is_ascii signature && is_ascii expected)
      then err (type_error "comparing strings with non-ASCII characters is not supported")
      else if signature == expected
      then ok (true, "approval receipt signature is valid")
      else ok (false, "approval receipt signature is invalid")

  -- `_verify_signature`
  unfoldable pub verify_signature : ApprovalReceiptRecord → Result (Bool × String)
  unfolding compare_signature
  verify_signature receipt =
      if is_empty receipt.signature
      then ok (false, "approval receipt signature is missing")
      else compare_signature receipt.signature (sign_receipt receipt)
