-- ===== src/Security/Evaluate.antt =====
-- kernel/security.py: the safety decision for a request.
use context_control_plane.Base.{
  String, ◌<>◌, true, false, not, Option, none, some, List, [], ◌∷◌, ◌++◌, ◌==◌, if◌then◌else◌,
}
use context_control_plane.Python.Error.{
  Result, ok, err, value_error, secret_as_value, any_value, ◌>>=◌,
}
use context_control_plane.Python.Text.{strip, or_else, repr}
use context_control_plane.Python.Value.{str, arr, texts, text_or, get_or}
use context_control_plane.Resource.{ResourceDocument, ResourceRegistry}
use context_control_plane.Gateway.Profile.{GatewayPolicyProfile}
use context_control_plane.Gateway.Evaluate.{GatewayDecision, evaluate_gateway_policy}
use context_control_plane.Secrets.Resolve.{ConnectionSecretControls}
use context_control_plane.Secrets.Controls.{resolve_connection_secret_controls}
use context_control_plane.Security.Profile.{
  DataClassification, classification_text, ConnectionMode, mode_text, AccessLevel, access_text,
  normalize_string_set, parse_classification, parse_mode, parse_access, SecretHandlingPolicy,
  ApprovalPolicy, ConnectionSafetyDecision, parse_secret_handling, parse_approval_policy, connect,
}
use context_control_plane.Security.Policy.{
  resolve_gateway_policy, denial_reason, needs_approval, profile_warnings,
}

-- What `evaluate_connection_profile` reads before its first test.
pub record Parsed : Type 0 where
  pub classification : DataClassification
  pub allowed_access : List String
  pub allowed_modes : List String
  pub default_mode : ConnectionMode
  pub mode : ConnectionMode
  pub access : AccessLevel
  pub secret_handling : SecretHandlingPolicy
  pub approval_policy : ApprovalPolicy
  pub secret_controls : ConnectionSecretControls

head_or : List String → String → String
head_or [] d = d
head_or (x ∷ xs) d = x

unfoldable pub parse_request :
    ResourceDocument → String → String → Option ResourceRegistry → Result Parsed
unfolding head_or
parse_request document requested_access requested_mode registry = do
  let spec = document.spec
  classification ← parse_classification (get_or spec "classification" (str "internal"))
  allowed_access ←
      normalize_string_set (get_or spec "allowedAccess" (arr (texts ("read" ∷ [])))) ("read" ∷ [])
  allowed_modes ←
      normalize_string_set (get_or spec "allowedModes" (arr (texts ("connect" ∷ []))))
        ("connect" ∷ [])
  default_mode ←
      parse_mode (get_or spec "defaultMode" (str (head_or allowed_modes "connect"))) connect
  mode ← parse_mode (str requested_mode) default_mode
  access ← parse_access requested_access
  secret_handling ← parse_secret_handling spec
  approval_policy ← parse_approval_policy spec
  secret_controls ← secret_as_value (resolve_connection_secret_controls document registry)
  ok (record {
    classification = classification;
    allowed_access = allowed_access;
    allowed_modes = allowed_modes;
    default_mode = default_mode;
    mode = mode;
    access = access;
    secret_handling = secret_handling;
    approval_policy = approval_policy;
    secret_controls = secret_controls;
  })

-- The decision of one of the three returns on a failed test.
unfoldable pub denied : ResourceDocument → Parsed → String → ConnectionSafetyDecision
denied document p reason = record {
  connection_name = document.identifier.name;
  namespace = document.identifier.namespace;
  adapter = strip (text_or (get_or document.spec "adapter" (str "")) "");
  endpoint = strip (text_or (get_or document.spec "endpoint" (str "")) "");
  classification = p.classification;
  requested_access = p.access;
  requested_mode = p.mode;
  effective_mode = p.default_mode;
  allowed_access = p.allowed_access;
  allowed_modes = p.allowed_modes;
  secret_handling = p.secret_handling;
  secret_controls = p.secret_controls;
  approval_policy = p.approval_policy;
  approval_required = false;
  allowed = false;
  reason = reason;
  gateway_policy_name = "";
  gateway_decision = "";
  gateway_reason = "";
  warnings = [];
}

-- The decision of the profile alone, once the three tests have passed.
unfoldable pub permitted : ResourceDocument → Parsed → String → ConnectionSafetyDecision
unfolding denied
permitted document p requested_mode =
    let approval = needs_approval p.access p.mode p.classification p.approval_policy in
    record (denied document p "") {
      effective_mode = p.mode;
      approval_required = approval;
      allowed = true;
      reason =
          if approval
          then "requested connection usage requires one explicit approval receipt"
          else "connection request is allowed";
      warnings = profile_warnings p.mode requested_mode p.secret_handling p.secret_controls;
    }

-- The three `replace` calls at the end: deny, approval, and the rest.
unfoldable pub apply_gateway :
    ConnectionSafetyDecision → GatewayPolicyProfile → GatewayDecision → ConnectionSafetyDecision
apply_gateway decision profile gateway =
    if gateway.decision == "deny"
    then record decision {
      approval_required = false;
      allowed = false;
      reason = gateway.reason;
      gateway_policy_name = profile.name;
      gateway_decision = gateway.decision;
      gateway_reason = gateway.reason;
      warnings = decision.warnings ++ gateway.warnings;
    }
    else if gateway.decision == "approval_required"
    then record decision {
      approval_required = true;
      reason = or_else gateway.reason decision.reason;
      gateway_policy_name = profile.name;
      gateway_decision = gateway.decision;
      gateway_reason = gateway.reason;
      warnings = decision.warnings ++ gateway.warnings;
    }
    else record decision {
      gateway_policy_name = profile.name;
      gateway_decision = gateway.decision;
      gateway_reason = gateway.reason;
      warnings = decision.warnings ++ gateway.warnings;
    }

-- The decision under the policy that was found, if one was.
unfoldable pub govern :
    ConnectionSafetyDecision
    → String
    → Option GatewayPolicyProfile
    → Result ConnectionSafetyDecision
govern decision operation none = ok decision
govern decision operation (some profile) = do
  gateway ← evaluate_gateway_policy profile (record {
    access = access_text decision.requested_access;
    classification = classification_text decision.classification;
    mode = mode_text decision.requested_mode;
    operation = operation;
  })
  ok (apply_gateway decision profile gateway)

-- What follows the parsing.
unfoldable pub decide :
    ResourceDocument
    → Parsed
    → String
    → String
    → Option ResourceRegistry
    → Result ConnectionSafetyDecision
decide document p requested_mode operation registry =
    elim (denial_reason p.access p.mode p.allowed_access p.allowed_modes p.secret_handling) [
      | some reason ↦ ok (denied document p reason)
      | none ↦ do
        policy ← any_value (resolve_gateway_policy document registry)
        govern (permitted document p requested_mode) operation policy
    ]

-- `evaluate_connection_profile`
unfoldable pub evaluate_connection_profile :
    ResourceDocument
    → String
    → String
    → String
    → Option ResourceRegistry
    → Result ConnectionSafetyDecision
evaluate_connection_profile document requested_access requested_mode operation registry =
    if not (document.identifier.kind == "ConnectionProfile")
    then err (
        value_error ("resource " <> repr document.identifier.name <> " is not a ConnectionProfile"))
    else do
      p ← parse_request document requested_access requested_mode registry
      decide document p requested_mode operation registry
