-- ===== src/Execution/Policy.antt =====
-- kernel/security.py and kernel/execution.py together: what a plan says of the request it was made for.
use context_control_plane.Base.{String, ◌≡◌, ◌≢◌, sym, ◌∙◌, inl, inr, Option, some, false≢true}
use context_control_plane.Python.Error.{ok}
use context_control_plane.Python.Text.{strip}
use context_control_plane.Python.Runtime.{Runtime}
use context_control_plane.Resource.{ResourceDocument, ResourceRegistry}
use context_control_plane.Approvals.{ApprovalReceiptRecord}
use context_control_plane.Security.Profile.{ConnectionSafetyDecision}
use context_control_plane.Security.Evaluate.{evaluate_connection_profile}
use context_control_plane.Security.Access.{Granted, evaluate-allowed_iff}
use context_control_plane.Security.Approval.{Triggered, IsSettled, evaluate-IsSettled}
use context_control_plane.Execution.Plan.{ExecutionPlan, GovernedExecutionDecision}
use context_control_plane.Execution.Governed.{build_connection_execution_plan}
use context_control_plane.Execution.Authorization.{
  IsApproved, IsAuthorized, Answer, without_plan, with_plan, build-Answer,
}

-- What a plan for an operation says of the decision and of the receipt behind it.
pub record IsPermitted (rt : Runtime) (d : ConnectionSafetyDecision)
    (resource : Option ResourceDocument) (operation : String)
    (receipt : Option ApprovalReceiptRecord) : Type 0 where
  pub granted : Granted d
  pub not_denied : d.gateway_decision ≢ "deny"
  pub approved : Triggered d → IsApproved rt d resource operation receipt

IsAuthorized-IsApproved :
    (rt : Runtime) (d : ConnectionSafetyDecision) (resource : Option ResourceDocument)
    (operation : String) (receipt : Option ApprovalReceiptRecord)
    → IsSettled d
    → IsAuthorized rt d resource operation receipt
    → Triggered d
    → IsApproved rt d resource operation receipt
IsAuthorized-IsApproved rt d resource operation receipt settled a t = elim a.approved [
  | inr approval ↦ approval
  | inl free ↦ elim settled.if_allowed [
    | inl refused ↦ absurd (false≢true (sym refused ∙ a.allowed))
    | inr requires ↦ absurd (false≢true (sym free ∙ requires.1 t))
  ]
]

-- Wherever the evaluation of a request and the building of an execution end in a plan, the profile
-- grants the access level and the mode of the request, no gateway policy decided "deny", and, if
-- anything about the request triggers an approval, a receipt was presented that approves this action.
pub plan-IsPermitted :
    (rt : Runtime) (document : ResourceDocument)
    (requested_access requested_mode requested_operation : String)
    (registry : Option ResourceRegistry) (d : ConnectionSafetyDecision)
    (resource : Option ResourceDocument) (operation : String)
    (receipt : Option ApprovalReceiptRecord) (g : GovernedExecutionDecision) (plan : ExecutionPlan)
    → evaluate_connection_profile document requested_access requested_mode requested_operation
        registry
      ≡ ok d
    → build_connection_execution_plan rt d operation receipt resource ≡ ok g
    → g.plan ≡ some plan
    → IsPermitted rt d resource (strip operation) receipt
plan-IsPermitted rt document requested_access requested_mode requested_operation registry d resource
      operation receipt g plan evaluated built planned =
    go (build-Answer rt d resource operation receipt g built)
  where
    go :
        Answer rt d resource (strip operation) receipt g
        → IsPermitted rt d resource (strip operation) receipt
    go (without_plan no_plan _) = cc
    go (with_plan a _) =
        let allowed =
          evaluate-allowed_iff document requested_access requested_mode requested_operation registry
            d evaluated in
        let settled =
          evaluate-IsSettled document requested_access requested_mode requested_operation registry d
            evaluated in
        let (granted, not_denied) = allowed.0 a.allowed in
        record {
          granted = granted;
          not_denied = not_denied;
          approved = IsAuthorized-IsApproved rt d resource (strip operation) receipt settled a;
        }
