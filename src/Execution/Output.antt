-- ===== src/Execution/Output.antt =====
-- kernel/execution.py: plans and governed decisions as they are written.
use context_control_plane.Base.{String, Option, none, some, [], ◌∷◌}
use context_control_plane.Python.Value.{Value, null, bool, str, arr, obj, Fields, dict, texts}
use context_control_plane.Secrets.Output.{lease_to_dict}
use context_control_plane.Security.Output.{safety_to_dict}
use context_control_plane.Approvals.{receipt_to_dict}
use context_control_plane.Execution.Plan.{CommandStatus, ExecutionPlan, GovernedExecutionDecision}

-- `None if x is None else x.to_dict()`
optional {ℓ} : {A : Type ℓ} → (A → Fields) → Option A → Value
optional to_dict none = null
optional to_dict (some a) = obj (to_dict a)

-- `ExecutionPlan.to_dict`
unfoldable pub plan_to_dict : ExecutionPlan → Fields
unfolding optional
plan_to_dict p = dict (
    ("executionId", str p.execution_id)
    ∷ ("traceId", str p.trace_id)
    ∷ ("operation", str p.operation)
    ∷ (
      "connection",
      obj (
          dict (
            ("name", str p.connection_name)
            ∷ ("namespace", str p.namespace)
            ∷ ("adapter", str p.adapter)
            ∷ ("endpoint", str p.endpoint)
            ∷ [])),
    )
    ∷ ("access", str p.access)
    ∷ ("mode", str p.mode)
    ∷ ("classification", str p.classification)
    ∷ ("brokered", bool p.brokered)
    ∷ ("sanitizeInput", bool p.sanitize_input)
    ∷ ("sanitizeOutput", bool p.sanitize_output)
    ∷ ("credentialDelivery", str p.credential_delivery)
    ∷ ("secretExposure", str p.secret_exposure)
    ∷ ("envVarInjection", bool p.env_var_injection)
    ∷ ("secretBackend", obj p.secret_backend)
    ∷ ("secretRefs", arr (texts p.secret_refs))
    ∷ ("responseAllowlist", arr (texts p.response_allowlist))
    ∷ ("materialization", obj p.materialization)
    ∷ ("materializationLease", optional lease_to_dict p.materialization_lease)
    ∷ ("approvalId", str p.approval_id)
    ∷ ("notes", arr (texts p.notes))
    ∷ [])

unfoldable pub status_text : CommandStatus → String
status_text CommandStatus.ok = "ok"
status_text CommandStatus.denied = "denied"
status_text CommandStatus.approval_required = "approval_required"
status_text CommandStatus.accepted = "accepted"
status_text CommandStatus.error = "error"

-- `GovernedExecutionDecision.to_dict`
unfoldable pub governed_to_dict : GovernedExecutionDecision → Fields
unfolding optional
governed_to_dict g = dict (
    ("status", str (status_text g.status))
    ∷ ("reason", str g.reason)
    ∷ ("operation", str g.operation)
    ∷ ("approvalRequired", bool g.approval_required)
    ∷ ("approvalSatisfied", bool g.approval_satisfied)
    ∷ ("connection", obj (safety_to_dict g.connection))
    ∷ ("approvalReceipt", optional receipt_to_dict g.approval_receipt)
    ∷ ("plan", optional plan_to_dict g.plan)
    ∷ [])
