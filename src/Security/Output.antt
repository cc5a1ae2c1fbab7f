-- ===== src/Security/Output.antt =====
-- kernel/security.py: a decision as it is written.
use context_control_plane.Base.{[], ◌∷◌}
use context_control_plane.Python.Value.{bool, str, arr, obj, Fields, dict, texts}
use context_control_plane.Secrets.Output.{controls_to_dict}
use context_control_plane.Security.Profile.{
  SecretHandlingPolicy, ApprovalPolicy, ConnectionSafetyDecision, classification_text, access_text,
  mode_text,
}

-- `SecretHandlingPolicy.to_dict`
unfoldable pub handling_to_dict : SecretHandlingPolicy → Fields
handling_to_dict h = dict (
    ("brokered", bool h.brokered)
    ∷ ("sanitizeInput", bool h.sanitize_input)
    ∷ ("sanitizeOutput", bool h.sanitize_output)
    ∷ ("allowRawSecretReveal", bool h.allow_raw_secret_reveal)
    ∷ [])

-- `ApprovalPolicy.to_dict`
unfoldable pub approval_policy_to_dict : ApprovalPolicy → Fields
approval_policy_to_dict p = dict (
    ("requiredForAccess", arr (texts p.required_for_access))
    ∷ ("requiredForModes", arr (texts p.required_for_modes))
    ∷ [])

-- `ConnectionSafetyDecision.to_dict`
unfoldable pub safety_to_dict : ConnectionSafetyDecision → Fields
safety_to_dict d = dict (
    (
      "connection",
      obj (
          dict (
            ("name", str d.connection_name)
            ∷ ("namespace", str d.namespace)
            ∷ ("adapter", str d.adapter)
            ∷ ("endpoint", str d.endpoint)
            ∷ [])),
    )
    ∷ ("classification", str (classification_text d.classification))
    ∷ ("requestedAccess", str (access_text d.requested_access))
    ∷ ("requestedMode", str (mode_text d.requested_mode))
    ∷ ("effectiveMode", str (mode_text d.effective_mode))
    ∷ ("allowedAccess", arr (texts d.allowed_access))
    ∷ ("allowedModes", arr (texts d.allowed_modes))
    ∷ ("secretHandling", obj (handling_to_dict d.secret_handling))
    ∷ ("secretControls", obj (controls_to_dict d.secret_controls))
    ∷ (
      "approval",
      obj (
          dict (
            ("required", bool d.approval_required)
            ∷ ("policy", obj (approval_policy_to_dict d.approval_policy))
            ∷ [])),
    )
    ∷ (
      "gateway",
      obj (
          dict (
            ("policyName", str d.gateway_policy_name)
            ∷ ("decision", str d.gateway_decision)
            ∷ ("reason", str d.gateway_reason)
            ∷ [])),
    )
    ∷ ("allowed", bool d.allowed)
    ∷ ("reason", str d.reason)
    ∷ ("warnings", arr (texts d.warnings))
    ∷ [])
