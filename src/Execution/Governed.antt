-- ===== src/Execution/Governed.antt =====
-- kernel/execution.py: when a plan is made.
use context_control_plane.Base.{
  String, ◌<>◌, Bool, true, false, not, Option, none, some, if◌then◌else◌,
}
use context_control_plane.Python.Error.{Result, err, value_error, ◌>>=◌}
use context_control_plane.Python.Text.{strip, is_empty}
use context_control_plane.Python.Runtime.{Runtime}
use context_control_plane.Resource.{ResourceDocument}
use context_control_plane.Secrets.Controls.{
  MaterializationLease, backend_to_dict, materialization_to_dict, issue_materialization_lease,
}
use context_control_plane.Security.Profile.{
  ConnectionSafetyDecision, access_text, mode_text, classification_text,
}
use context_control_plane.Security.Policy.{is_materialize}
use context_control_plane.Approvals.{ApprovalReceiptRecord}
use context_control_plane.Approvals.Receipt.{validate_approval_receipt}
use context_control_plane.Execution.Plan.{
  CommandStatus, ExecutionPlan, GovernedExecutionDecision, credential_delivery, secret_exposure,
  notes_for_plan, extract_connection_settings, action_of,
}

-- One of the three returns without a plan.
unfoldable pub refused :
    CommandStatus
    → String
    → ConnectionSafetyDecision
    → String
    → Bool
    → Option ApprovalReceiptRecord
    → GovernedExecutionDecision
refused status reason d operation required receipt = record {
  status = status;
  reason = reason;
  connection = d;
  operation = operation;
  approval_required = required;
  approval_satisfied = false;
  approval_receipt = receipt;
  plan = none;
}

receipt_id : Option ApprovalReceiptRecord → String
receipt_id none = ""
receipt_id (some r) = r.approval_id

has_receipt : Option ApprovalReceiptRecord → Bool
has_receipt none = false
has_receipt (some r) = true

module _ (rt : Runtime) (d : ConnectionSafetyDecision) where
  -- The lease of a materialization.
  lease_of : Option MaterializationLease
  lease_of =
      if is_materialize d.requested_mode
      then some (
          issue_materialization_lease rt d.secret_controls.backend
            d.secret_controls.materialization)
      else none

  -- The `ExecutionPlan` that `build_connection_execution_plan` fills.
  unfoldable pub execution_plan :
      String → Option ApprovalReceiptRecord → Option ResourceDocument → ExecutionPlan
  unfolding lease_of receipt_id
  execution_plan operation receipt document = record {
    execution_id = "exe_" <> rt.uuid_hex 1;
    trace_id = "trc_" <> rt.uuid_hex 2;
    operation = operation;
    connection_name = d.connection_name;
    namespace = d.namespace;
    adapter = d.adapter;
    endpoint = d.endpoint;
    access = access_text d.requested_access;
    mode = mode_text d.requested_mode;
    classification = classification_text d.classification;
    brokered = d.secret_handling.brokered;
    sanitize_input = d.secret_handling.sanitize_input;
    sanitize_output = d.secret_handling.sanitize_output;
    credential_delivery = credential_delivery d;
    secret_exposure = secret_exposure d;
    env_var_injection = false;
    secret_backend = backend_to_dict d.secret_controls.backend;
    secret_refs = d.secret_controls.secret_refs;
    response_allowlist = d.secret_controls.allow_fields;
    materialization = materialization_to_dict d.secret_controls.materialization;
    materialization_lease = lease_of;
    approval_id = receipt_id receipt;
    notes = notes_for_plan d;
    secret_backend_profile = some d.secret_controls.backend;
    connection_settings = extract_connection_settings document d;
  }

  -- The last return.
  unfoldable pub ready :
      String → Option ApprovalReceiptRecord → Option ResourceDocument → GovernedExecutionDecision
  unfolding has_receipt
  ready operation receipt document = record {
    status = CommandStatus.ok;
    reason = "execution plan is ready";
    connection = d;
    operation = operation;
    approval_required = d.approval_required;
    approval_satisfied = if d.approval_required then has_receipt receipt else true;
    approval_receipt = receipt;
    plan = some (execution_plan operation receipt document);
  }

  -- The branch of a decision that requires an approval.
  unfoldable pub approve :
      String
      → Option ApprovalReceiptRecord
      → Option ResourceDocument
      → Result GovernedExecutionDecision
  approve operation none document = Result.ok (
      refused CommandStatus.approval_required
        "one explicit approval receipt is required before governed execution" d operation true none)
  approve operation (some receipt) document = do
    (valid, reason) ← validate_approval_receipt rt receipt (action_of d operation document)
    Result.ok (
        if valid
        then ready operation (some receipt) document
        else refused CommandStatus.denied reason d operation true (some receipt))

  -- `build_connection_execution_plan`
  unfoldable pub build_connection_execution_plan :
      String
      → Option ApprovalReceiptRecord
      → Option ResourceDocument
      → Result GovernedExecutionDecision
  build_connection_execution_plan operation receipt document =
      let requested_operation = strip operation in
      if is_empty requested_operation
      then err (value_error "execution operation is required")
      else if not d.allowed
      then Result.ok (refused CommandStatus.denied d.reason d requested_operation false none)
      else if d.approval_required
      then approve requested_operation receipt document
      else Result.ok (ready requested_operation receipt document)
