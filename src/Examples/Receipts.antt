-- ===== src/Examples/Receipts.antt =====
-- A receipt for a plan of the example, issued, validated, written and read.
use context_control_plane.Base.{◌+◌, ◌*◌, ◌/◌, ◌↔◌, String, ◌≡◌, refl, ◌∙◌, true, false, some}
use context_control_plane.Python.Error.{ok}
use context_control_plane.Python.Text.{strip, lower, lower_char, or_else, is_empty}
use context_control_plane.Python.Value.{pos, obj, end, pop}
use context_control_plane.Approvals.{
  ApprovalReceiptRecord, canonical_json, receipt_signing_payload, receipt_to_dict, environ_text,
  signing_key, sign_receipt, format_timestamp, binding_digest_of, approval_issuer,
}
use context_control_plane.Approvals.Receipt.{
  Action, at_least_one, expiry_answer, field_mismatch, unsigned_receipt, issue_approval_receipt,
  validate_approval_receipt, build_approval_receipt,
}
use context_control_plane.Approvals.Validity.{Approves, validate_iff}
use context_control_plane.Approvals.Issue.{at, issue-validate}
use context_control_plane.Approvals.Binding.{IsSameAction, issue-IsSameAction}
use context_control_plane.Approvals.Written.{
  IsTight, IsReadable, build_approval_receipt-receipt_to_dict,
}
use context_control_plane.Execution.Plan.{action_of, build_connection_approval_binding}
use context_control_plane.Security.Profile.{access_text, mode_text, classification_text}
use context_control_plane.Python.Json.{dumps}
use context_control_plane.Resource.{document_to_dict}
use context_control_plane.Python.Runtime.{replace}
use context_control_plane.Examples.Machine.{
  machine, strokes, format_timestamp-IsTight, machine-IsLawful, machine-HasDigests,
}
use context_control_plane.Examples.Data.{connection}
use context_control_plane.Examples.Requests.{decision}

abbrev pub action : Action
action = action_of decision "update" (some connection)

-- The same action, spelled otherwise.
abbrev other_action : Action
other_action = record action { access = " WRITE "; operation = "update " }

abbrev unsigned : ApprovalReceiptRecord
unsigned = unsigned_receipt machine action " alice " "a change" (pos 1) end

abbrev pub receipt : ApprovalReceiptRecord
receipt = record unsigned {
  signature = machine.hmac_hex "key" (canonical_json (receipt_signing_payload unsigned));
}

receipt-issued : issue_approval_receipt machine action " alice " "a change" (pos 1) end ≡ ok receipt
unfolding issue_approval_receipt sign_receipt signing_key environ_text is_empty strip
receipt-issued = refl

issue-validate_example :
    validate_approval_receipt (at machine 10000000) receipt action
    ≡ ok (
        expiry_answer 10000000
          ((machine.now + at_least_one (pos 1) * 60000000) / 1000000 * 1000000))
unfolding action_of or_else
issue-validate_example =
    issue-validate machine action " alice " "a change" (pos 1) end receipt 10000000 machine-IsLawful
      (unfold strip or_else is_empty in refl) receipt-issued

-- Within its minute the receipt is accepted.
pub receipt-accepted :
    validate_approval_receipt (at machine 10000000) receipt action
    ≡ ok (true, "approval receipt is valid")
unfolding at_least_one
receipt-accepted =
    issue-validate machine action " alice " "a change" (pos 1) end receipt 10000000 machine-IsLawful
      (unfold strip or_else is_empty action_of in refl) receipt-issued

validate_iff_example :
    (validate_approval_receipt (at machine 10000000) receipt action
      ≡ ok (true, "approval receipt is valid"))
    ↔ Approves (at machine 10000000) receipt action
validate_iff_example = validate_iff (at machine 10000000) receipt action

other-same :
    validate_approval_receipt (at machine 10000000) receipt other_action
    ≡ validate_approval_receipt (at machine 10000000) receipt action
unfolding validate_approval_receipt field_mismatch strip lower lower_char action_of access_text
other-same = refl

issue-IsSameAction_example : IsSameAction (at machine 10000000) action other_action
issue-IsSameAction_example =
    issue-IsSameAction machine action other_action " alice " "a change" (pos 1) end receipt 10000000
      "approval receipt is valid" machine-HasDigests
      (unfold strip or_else is_empty action_of in refl) receipt-issued
      (other-same ∙ receipt-accepted)

tight : (s : String) → strip s ≡ s → is_empty s ≡ false → IsTight s
tight s stripped given = record { tight = stripped; given = given }

receipt-IsReadable : IsReadable machine receipt
unfolding strip lower lower_char is_empty unsigned_receipt action_of at_least_one or_else
    approval_issuer environ_text binding_digest_of canonical_json receipt_signing_payload
    build_connection_approval_binding access_text mode_text classification_text dumps pop
    document_to_dict format_timestamp replace strokes
receipt-IsReadable = record {
  approval_id = tight receipt.approval_id refl refl;
  subject_kind = tight receipt.subject_kind refl refl;
  subject_name = tight receipt.subject_name refl refl;
  namespace = tight receipt.namespace refl refl;
  access = tight receipt.access refl refl;
  small_access = refl;
  mode = tight receipt.mode refl refl;
  small_mode = refl;
  operation = tight receipt.operation refl refl;
  approved_by = tight receipt.approved_by refl refl;
  issued_at = format_timestamp-IsTight 2500000;
  expires_at = format_timestamp-IsTight 62500000;
  binding_digest = refl;
  issuer = refl;
  signature = refl;
  reason = refl;
  issued = machine.now / 1000000 * 1000000;
  issued_parsed = machine-IsLawful.timestamps machine.now;
  expires = (machine.now + 1 * 60000000) / 1000000 * 1000000;
  expires_parsed = machine-IsLawful.timestamps (machine.now + 1 * 60000000);
}

build_approval_receipt-receipt_to_dict_example :
    build_approval_receipt machine (obj (receipt_to_dict receipt)) receipt.source ≡ ok receipt
build_approval_receipt-receipt_to_dict_example =
    build_approval_receipt-receipt_to_dict machine receipt receipt-IsReadable
