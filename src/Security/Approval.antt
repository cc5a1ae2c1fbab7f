-- ===== src/Security/Approval.antt =====
-- kernel/security.py: when an allowed request needs an approval.
use context_control_plane.Base.{
  String, ◌≡◌, ◌≢◌, refl, sym, ◌∙◌, ◌↔◌, ◌⊎◌, inl, inr, true, false, ◌&&◌, ◌||◌, Option, ◌==◌,
  arith, contains, eq_iff, false≢true, Bool-cases,
}
use context_control_plane.Python.Error.{ok}
use context_control_plane.Resource.{ResourceDocument, ResourceRegistry}
use context_control_plane.Gateway.Profile.{GatewayPolicyProfile}
use context_control_plane.Gateway.Evaluate.{GatewayDecision}
use context_control_plane.Security.Profile.{
  ConnectionSafetyDecision, ConnectionMode, materialize, reveal, AccessLevel, read,
  DataClassification, public, confidential, restricted, ApprovalPolicy, access_text, mode_text,
}
use context_control_plane.Security.Policy.{
  needs_approval, is_guarded, is_private, is_mutating, is_materialize, is_reveal,
}
use context_control_plane.Security.Evaluate.{
  Parsed, denied, permitted, apply_gateway, evaluate_connection_profile,
}
use context_control_plane.Security.Cases.{
  Outcome, by_profile, without_gateway, by_gateway, evaluate-Outcome,
}

-- What makes a request need an approval, apart from the gateway.
pub data Trigger (access : AccessLevel) (mode : ConnectionMode)
    (classification : DataClassification) (policy : ApprovalPolicy) : Type 0 where
  listed_access :
      contains policy.required_for_access (access_text access) ≡ true
      → Trigger access mode classification policy
  listed_mode :
      contains policy.required_for_modes (mode_text mode) ≡ true
      → Trigger access mode classification policy
  guarded_materialization :
      mode ≡ materialize
      → (classification ≡ confidential) ⊎ (classification ≡ restricted)
      → Trigger access mode classification policy
  raw_reveal : mode ≡ reveal → Trigger access mode classification policy
  private_change :
      access ≢ read → classification ≢ public → Trigger access mode classification policy

-- The triggers that are built in.
fixed-Trigger :
    (access : AccessLevel) (mode : ConnectionMode) (classification : DataClassification)
    (policy : ApprovalPolicy)
    → ((is_materialize mode && is_guarded classification)
        || is_reveal mode
        || (is_mutating access && is_private classification))
      ≡ true
    → Trigger access mode classification policy
unfolding needs_approval
fixed-Trigger access reveal c policy h = raw_reveal refl
fixed-Trigger access materialize confidential policy h = guarded_materialization refl (inl refl)
fixed-Trigger access materialize restricted policy h = guarded_materialization refl (inr refl)
fixed-Trigger access _ _ policy h = private_change (ground arith) (ground arith)

module _ (access : AccessLevel) (mode : ConnectionMode) (classification : DataClassification)
    (policy : ApprovalPolicy) where
  needs_approval-true :
      needs_approval access mode classification policy ≡ true
      → Trigger access mode classification policy
  unfolding needs_approval
  needs_approval-true h =
      elim (Bool-cases (contains policy.required_for_access (access_text access))) [
        | inl by_access ↦ listed_access by_access
        | inr not_access ↦ elim (Bool-cases (contains policy.required_for_modes (mode_text mode))) [
          | inl by_mode ↦ listed_mode by_mode
          | inr not_mode ↦
              fixed-Trigger access mode classification policy (rw (not_access, not_mode) at h)
        ]
      ]

  Trigger-needs_approval :
      Trigger access mode classification policy
      → needs_approval access mode classification policy ≡ true
  unfolding needs_approval
  Trigger-needs_approval (listed_access e) = ground arith
  Trigger-needs_approval (listed_mode e) = ground arith
  Trigger-needs_approval (guarded_materialization e f) = ground arith
  Trigger-needs_approval (raw_reveal e) = ground arith
  Trigger-needs_approval (private_change e f) = ground arith

-- The triggers of a decision, the gateway's among them.
abbrev pub Triggered : ConnectionSafetyDecision → Type 0
Triggered d =
    Trigger d.requested_access d.requested_mode d.classification d.approval_policy
    ⊎ (d.gateway_decision ≡ "approval_required")

-- Of an allowed decision: it requires an approval exactly when something triggers it. Of one that is
-- not allowed: it requires none.
pub record IsSettled (d : ConnectionSafetyDecision) : Type 0 where
  pub if_allowed : (d.allowed ≡ false) ⊎ ((d.approval_required ≡ true) ↔ Triggered d)
  pub if_denied : (d.allowed ≡ true) ⊎ (d.approval_required ≡ false)

module _ (document : ResourceDocument) (p : Parsed) (requested_mode : String) where
  permitted-IsSettled : IsSettled (permitted document p requested_mode)
  unfolding permitted
  permitted-IsSettled = record {
    if_allowed = inr (
      λ h. inl (needs_approval-true _ _ _ _ h),
      elim [
        | inl t ↦ Trigger-needs_approval _ _ _ _ t
        | inr e ↦ absurd (false≢true ((eq_iff "" "approval_required").1 e))
      ],
    );
    if_denied = inl refl;
  }

  apply_gateway-IsSettled :
      (profile : GatewayPolicyProfile) (g : GatewayDecision)
      → IsSettled (apply_gateway (permitted document p requested_mode) profile g)
  unfolding permitted apply_gateway
  apply_gateway-IsSettled profile g = elim (Bool-cases (g.decision == "deny")) [
    | inl hit ↦ rw hit (record { if_allowed = inl refl; if_denied = inr refl })
    | inr miss ↦ elim (Bool-cases (g.decision == "approval_required")) [
      | inl asks ↦
          rw (miss, asks)
            (record {
              if_allowed =
                  inr (λ h. inr ((eq_iff g.decision "approval_required").0 asks), λ t. refl);
              if_denied = inl refl;
            })
      | inr plain ↦
          rw (miss, plain)
            (record {
              if_allowed = inr (
                λ h. inl (needs_approval-true _ _ _ _ h),
                elim [
                  | inl t ↦ Trigger-needs_approval _ _ _ _ t
                  | inr e ↦
                      absurd (false≢true (sym plain ∙ (eq_iff g.decision "approval_required").1 e))
                ],
              );
              if_denied = inl refl;
            })
    ]
  ]

Outcome-IsSettled :
    {document : ResourceDocument} {p : Parsed} {requested_mode operation : String}
    {registry : Option ResourceRegistry} {d : ConnectionSafetyDecision}
    → Outcome document p requested_mode operation registry d
    → IsSettled d
Outcome-IsSettled {document} {p} {requested_mode} (by_profile reason failed e) =
    rw (← e) (unfold denied in record { if_allowed = inl refl; if_denied = inr refl })
Outcome-IsSettled {document} {p} {requested_mode} (without_gateway passed _ e) =
    rw (← e) (permitted-IsSettled document p requested_mode)
Outcome-IsSettled {document} {p} {requested_mode} (by_gateway profile g passed _ _ e) =
    rw (← e) (apply_gateway-IsSettled document p requested_mode profile g)

-- An allowed decision requires an approval exactly when the profile lists the access level or the
-- mode for approval, confidential or restricted data is to be materialized, the mode is reveal,
-- something is to be changed under data that is not public, or the gateway decided
-- "approval_required". A decision that is not allowed requires none.
pub evaluate-IsSettled :
    (document : ResourceDocument) (requested_access requested_mode operation : String)
    (registry : Option ResourceRegistry) (d : ConnectionSafetyDecision)
    → evaluate_connection_profile document requested_access requested_mode operation registry ≡ ok d
    → IsSettled d
evaluate-IsSettled document requested_access requested_mode operation registry d h =
    let (p, _, outcome) =
      evaluate-Outcome document requested_access requested_mode operation registry d h in
    Outcome-IsSettled outcome
