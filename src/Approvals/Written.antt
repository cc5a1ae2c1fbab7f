-- ===== src/Approvals/Written.antt =====
-- kernel/approvals.py: a receipt that is written as a resource, and read again.
use context_control_plane.Base.{ℕ, String, ◌≡◌, refl, ◌∙◌, ap, some, if_false, false}
use context_control_plane.Python.Error.{ok}
use context_control_plane.Python.Text.{strip, lower, or_else, is_empty}
use context_control_plane.Python.Value.{
  str, obj, Fields, end, field, is_blank, get_or, text_or, truthy, text, find,
}
use context_control_plane.Python.Runtime.{Runtime}
use context_control_plane.Approvals.{
  ApprovalReceiptRecord, approval_api_version, approval_kind, receipt_to_dict, parse_timestamp,
}
use context_control_plane.Approvals.Receipt.{
  stripped, object_of, require, receipt_metadata, read_receipt, check_receipt,
  build_approval_receipt,
}

-- A text with no space around it, that is not empty.
pub record IsTight (s : String) : Type 0 where
  pub tight : strip s ≡ s
  pub given : is_empty s ≡ false

-- A receipt that can be read.
pub record IsReadable (rt : Runtime) (r : ApprovalReceiptRecord) : Type 0 where
  pub approval_id : IsTight r.approval_id
  pub subject_kind : IsTight r.subject_kind
  pub subject_name : IsTight r.subject_name
  pub namespace : IsTight r.namespace
  pub access : IsTight r.access
  pub small_access : lower r.access ≡ r.access
  pub mode : IsTight r.mode
  pub small_mode : lower r.mode ≡ r.mode
  pub operation : IsTight r.operation
  pub approved_by : IsTight r.approved_by
  pub issued_at : IsTight r.issued_at
  pub expires_at : IsTight r.expires_at
  pub binding_digest : strip r.binding_digest ≡ r.binding_digest
  pub issuer : strip r.issuer ≡ r.issuer
  pub signature : strip r.signature ≡ r.signature
  pub reason : strip r.reason ≡ r.reason
  pub issued : ℕ
  pub issued_parsed : parse_timestamp rt r.issued_at ≡ ok issued
  pub expires : ℕ
  pub expires_parsed : parse_timestamp rt r.expires_at ≡ ok expires

text_or-str : (s d : String) → is_empty s ≡ false → text_or (str s) d ≡ s
unfolding text_or is_empty truthy text
text_or-str String.[] d h = cc
text_or-str (String.◌∷◌ c s) d h = refl

text_or-empty : (s : String) → text_or (str s) "" ≡ s
unfolding text_or truthy text
text_or-empty String.[] = refl
text_or-empty (String.◌∷◌ c s) = refl

check_receipt-readable :
    (rt : Runtime) (r : ApprovalReceiptRecord) → IsReadable rt r → check_receipt rt r ≡ ok r
unfolding check_receipt
check_receipt-readable rt r x =
    rw
      (
        x.subject_kind.given, x.subject_name.given, x.access.given, x.mode.given, x.operation.given,
        x.approved_by.given, x.issued_at.given, x.expires_at.given,
      )
      (rw (x.issued_parsed, x.expires_parsed) refl)

stripped-tight :
    (m : Fields) (k s : String) → find m k ≡ some (str s) → strip s ≡ s → stripped m k ≡ s
unfolding stripped get_or
stripped-tight m k s h e = rw (h, get_or) (ap strip (text_or-empty s) ∙ e)

abbrev written_subject : ApprovalReceiptRecord → Fields
written_subject r =
    field "kind" (str r.subject_kind)
      (field "name" (str r.subject_name) (field "namespace" (str r.namespace) end))

abbrev written_spec : ApprovalReceiptRecord → Fields
written_spec r = field "subject" (obj (written_subject r)) (
    field "access" (str r.access) (
      field "mode" (str r.mode) (
        field "operation" (str r.operation) (
          field "approvedBy" (str r.approved_by) (
            field "issuedAt" (str r.issued_at) (
              field "expiresAt" (str r.expires_at) (
                field "bindingDigest" (str r.binding_digest) (
                  field "issuer" (str r.issuer) (
                    field "signature" (str r.signature) (
                      field "reason" (str r.reason)
                        (field "metadata" (obj r.metadata) end)))))))))))

namespace-written : (s d : String) → IsTight s → or_else (strip (text_or (str s) d)) d ≡ s
unfolding or_else
namespace-written s d x = rw (text_or-str s d x.given) (rw x.tight (if_false _ x.given))

module _ (rt : Runtime) (r : ApprovalReceiptRecord) (x : IsReadable rt r) where
  read_receipt-written :
      read_receipt r.source
        (written_spec r)
        (written_subject r)
        r.approval_id
        r.namespace
        r.metadata
      ≡ r
  unfolding read_receipt find get_or
  read_receipt-written =
      let subject = stripped-tight (written_subject r) in
      let spec = stripped-tight (written_spec r) in
      cc (
        subject "kind" r.subject_kind refl x.subject_kind.tight,
        subject "name" r.subject_name refl x.subject_name.tight,
        namespace-written r.namespace r.namespace x.namespace,
        ap lower (spec "access" r.access refl x.access.tight) ∙ x.small_access,
        ap lower (spec "mode" r.mode refl x.mode.tight) ∙ x.small_mode,
        spec "operation" r.operation refl x.operation.tight,
        spec "approvedBy" r.approved_by refl x.approved_by.tight,
        spec "issuedAt" r.issued_at refl x.issued_at.tight,
        spec "expiresAt" r.expires_at refl x.expires_at.tight,
        spec "bindingDigest" r.binding_digest refl x.binding_digest,
        spec "issuer" r.issuer refl x.issuer,
        spec "signature" r.signature refl x.signature,
        spec "reason" r.reason refl x.reason,
      )

  -- A receipt that is written as a resource is read back as the same receipt: where no text of it has
  -- space around it, the access and the mode are in lower case, none of the required texts is empty,
  -- and both timestamps are ones that can be parsed.
  pub build_approval_receipt-receipt_to_dict :
      build_approval_receipt rt (obj (receipt_to_dict r)) r.source ≡ ok r
  unfolding build_approval_receipt receipt_to_dict object_of require receipt_metadata get_or find
      is_blank
  build_approval_receipt-receipt_to_dict =
      rw
        (
          stripped-tight (receipt_to_dict r) "apiVersion" approval_api_version refl
              (unfold strip in refl),
          stripped-tight (receipt_to_dict r) "kind" approval_kind refl (unfold strip in refl),
          stripped-tight
              (field "name" (str r.approval_id) (field "namespace" (str r.namespace) end)) "name"
              r.approval_id refl x.approval_id.tight,
          x.approval_id.given,
          namespace-written r.namespace "default" x.namespace,
          read_receipt-written,
        )
        (check_receipt-readable rt r x)
