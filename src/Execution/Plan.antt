-- ===== src/Execution/Plan.antt =====
-- kernel/execution.py: execution plans, and the binding of an approval.
use context_control_plane.Base.{
  String, ◌<>◌, Bool, true, false, Option, none, some, List, [], ◌∷◌, ◌++◌, if◌then◌else◌,
}
use context_control_plane.Python.Text.{strip}
use context_control_plane.Python.Value.{Value, str, obj, Fields, end, field, pop, get, show}
use context_control_plane.Resource.{ResourceDocument, document_to_dict}
use context_control_plane.Secrets.Backend.{SecretBackendProfile, delivery_text}
use context_control_plane.Secrets.Controls.{MaterializationLease}
use context_control_plane.Security.Profile.{
  ConnectionSafetyDecision, connect, materialize, reveal, access_text, mode_text,
  classification_text,
}
use context_control_plane.Security.Policy.{is_materialize, is_reveal}
use context_control_plane.Approvals.{ApprovalReceiptRecord}
use context_control_plane.Approvals.Receipt.{Action}

-- kernel/command_api.py
pub data CommandStatus : Type 0 where
  ok denied approval_required accepted error : CommandStatus

pub record ExecutionPlan : Type 0 where
  pub execution_id : String
  pub trace_id : String
  pub operation : String
  pub connection_name : String
  pub namespace : String
  pub adapter : String
  pub endpoint : String
  pub access : String
  pub mode : String
  pub classification : String
  pub brokered : Bool
  pub sanitize_input : Bool
  pub sanitize_output : Bool
  pub credential_delivery : String
  pub secret_exposure : String
  pub env_var_injection : Bool
  pub secret_backend : Fields
  pub secret_refs : List String
  pub response_allowlist : List String
  pub materialization : Fields
  pub materialization_lease : Option MaterializationLease
  pub approval_id : String
  pub notes : List String
  pub secret_backend_profile : Option SecretBackendProfile
  pub connection_settings : Fields

pub record GovernedExecutionDecision : Type 0 where
  pub status : CommandStatus
  pub reason : String
  pub connection : ConnectionSafetyDecision
  pub operation : String
  pub approval_required : Bool
  pub approval_satisfied : Bool
  pub approval_receipt : Option ApprovalReceiptRecord
  pub plan : Option ExecutionPlan

-- The document in a binding, without its provenance.
document_payload : Option ResourceDocument → Fields
document_payload none = end
document_payload (some document) = pop (document_to_dict document) "provenance"

-- `build_connection_approval_binding`
unfoldable pub build_connection_approval_binding :
    ConnectionSafetyDecision → String → Option ResourceDocument → Fields
unfolding document_payload
build_connection_approval_binding d operation document =
    field "subject"
      (obj (
        field "kind" (str "ConnectionProfile")
          (field "name" (str d.connection_name) (field "namespace" (str d.namespace) end))))
      (field "operation" (str (strip operation)) (
        field "access" (str (access_text d.requested_access)) (
          field "mode" (str (mode_text d.requested_mode)) (
            field "connection"
              (obj (
                field "adapter" (str d.adapter) (
                  field "endpoint" (str d.endpoint)
                    (field "classification" (str (classification_text d.classification)) end))))
              (field "gateway"
                (obj (
                  field "policyName" (str d.gateway_policy_name) (
                    field "decision" (str d.gateway_decision)
                      (field "reason" (str d.gateway_reason) end))))
                (field "resource" (obj (document_payload document)) end))))))

-- `_credential_delivery`
unfoldable pub credential_delivery : ConnectionSafetyDecision → String
credential_delivery d = elim d.requested_mode [
  | connect ↦ "brokered"
  | materialize ↦ delivery_text d.secret_controls.materialization.delivery
  | reveal ↦ "explicit-reveal"
]

-- `_secret_exposure`
unfoldable pub secret_exposure : ConnectionSafetyDecision → String
secret_exposure d = elim d.requested_mode [
  | connect ↦ "sanitized-result-only"
  | materialize ↦ "ephemeral-materialization-no-chat-secret"
  | reveal ↦ "explicit-reveal"
]

when : Bool → List String → List String
when test notes = if test then notes else []

has_any : List String → Bool
has_any [] = false
has_any (s ∷ ss) = true

-- `_notes_for_plan`
unfoldable pub notes_for_plan : ConnectionSafetyDecision → List String
unfolding when has_any
notes_for_plan d =
    let controls = d.secret_controls in
    "governed execution must record a trace for this request"
    ∷ (when d.secret_handling.brokered
          ("credentials stay brokered and should not be copied into chat or shell history" ∷ [])
        ++ (when (is_materialize d.requested_mode) (
              "materialized credentials should stay ephemeral and avoid environment-variable sprawl"
              ∷ ("materialization TTL is "
                  <> show controls.materialization.ttl_seconds
                  <> "s via "
                  <> delivery_text controls.materialization.delivery)
              ∷ [])
            ++ (when (has_any controls.secret_refs) (
                  "secret_refs are resolved inside ccp-core and should never be copied into chat, stdout, or broad shell state"
                  ∷ [])
                ++ (when (is_reveal d.requested_mode)
                      ("explicit reveal should be exceptional and tightly scoped" ∷ [])
                    ++ d.warnings))))

-- `dict(spec.get(k, {})) if isinstance(spec.get(k), Mapping) else {}`
object_or_empty : Value → Fields
object_or_empty (obj fs) = fs
object_or_empty _ = end

-- `_extract_connection_settings`
unfoldable pub extract_connection_settings :
    Option ResourceDocument → ConnectionSafetyDecision → Fields
unfolding object_or_empty
extract_connection_settings none d =
    field "endpoint" (str d.endpoint) (field "adapter" (str d.adapter) end)
extract_connection_settings (some document) d =
    let section = λ (k : String). obj (object_or_empty (get document.spec k)) in
    field "endpoint" (str d.endpoint) (
      field "adapter" (str d.adapter) (
        field "auth" (section "auth") (
          field "headers" (section "headers") (
            field "timeouts" (section "timeouts") (
              field "request" (section "request")
                (field "mode" (str (mode_text d.requested_mode)) end))))))

-- The action that a receipt has to be for.
unfoldable pub action_of : ConnectionSafetyDecision → String → Option ResourceDocument → Action
action_of d operation document = record {
  subject_kind = "ConnectionProfile";
  subject_name = d.connection_name;
  namespace = d.namespace;
  access = access_text d.requested_access;
  mode = mode_text d.requested_mode;
  operation = operation;
  binding = build_connection_approval_binding d operation document;
}
