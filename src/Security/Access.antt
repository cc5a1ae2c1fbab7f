-- ===== src/Security/Access.antt =====
-- kernel/security.py: which requests a connection profile allows.
use context_control_plane.Base.{
  String, ◌≡◌, ◌≢◌, refl, ◌↔◌, ◌⊎◌, inl, inr, true, false, Option, none, some, List, ◌==◌, arith,
  contains, eq_iff, false≢true, sym, ◌∙◌, Bool-cases,
}
use context_control_plane.Python.Error.{ok}
use context_control_plane.Resource.{ResourceDocument, ResourceRegistry}
use context_control_plane.Gateway.Profile.{GatewayPolicyProfile}
use context_control_plane.Gateway.Evaluate.{GatewayDecision}
use context_control_plane.Security.Profile.{
  ConnectionSafetyDecision, ConnectionMode, reveal, AccessLevel, access_text, mode_text,
  SecretHandlingPolicy,
}
use context_control_plane.Security.Policy.{denial_reason}
use context_control_plane.Security.Evaluate.{
  Parsed, denied, permitted, apply_gateway, evaluate_connection_profile,
}
use context_control_plane.Security.Cases.{
  Outcome, by_profile, without_gateway, by_gateway, evaluate-Outcome,
}

-- What a profile has to say for a request to pass.
pub record IsGranted (access : AccessLevel) (mode : ConnectionMode)
    (allowed_access allowed_modes : List String) (handling : SecretHandlingPolicy) : Type 0 where
  pub access_listed : contains allowed_access (access_text access) ≡ true
  pub mode_listed : contains allowed_modes (mode_text mode) ≡ true
  pub reveal_enabled : (mode ≢ reveal) ⊎ (handling.allow_raw_secret_reveal ≡ true)

module _ (access : AccessLevel) (mode : ConnectionMode) (allowed_access allowed_modes : List String)
    (handling : SecretHandlingPolicy) where
  denial_reason-none :
      denial_reason access mode allowed_access allowed_modes handling ≡ none
      → IsGranted access mode allowed_access allowed_modes handling
  unfolding denial_reason
  denial_reason-none h = record {
    access_listed = ground arith;
    mode_listed = ground arith;
    reveal_enabled = ground arith;
  }

  not-denial_reason-some :
      (reason : String)
      → denial_reason access mode allowed_access allowed_modes handling ≡ some reason
      → ¬ IsGranted access mode allowed_access allowed_modes handling
  unfolding denial_reason
  not-denial_reason-some reason h g =
      ground (arith, g.access_listed, g.mode_listed, g.reveal_enabled)

abbrev pub Granted : ConnectionSafetyDecision → Type 0
Granted d =
    IsGranted d.requested_access d.requested_mode d.allowed_access d.allowed_modes d.secret_handling

module _ (document : ResourceDocument) (p : Parsed) (requested_mode : String) where
  denied-not_allowed :
      (reason : String)
      → denial_reason p.access p.mode p.allowed_access p.allowed_modes p.secret_handling
        ≡ some reason
      → let d = denied document p reason in
        (d.allowed ≡ true) ↔ (Granted d × (d.gateway_decision ≢ "deny"))
  unfolding denied
  denied-not_allowed reason failed =
      (λ h. absurd (false≢true h), λ g. absurd (not-denial_reason-some _ _ _ _ _ reason failed g.0))

  permitted-allowed :
      denial_reason p.access p.mode p.allowed_access p.allowed_modes p.secret_handling ≡ none
      → let d = permitted document p requested_mode in
        (d.allowed ≡ true) ↔ (Granted d × (d.gateway_decision ≢ "deny"))
  unfolding permitted
  permitted-allowed passed = (
    λ h. (denial_reason-none _ _ _ _ _ passed, λ e. absurd (false≢true ((eq_iff "" "deny").1 e))),
    λ g. refl,
  )

  apply_gateway-allowed :
      (profile : GatewayPolicyProfile) (g : GatewayDecision)
      → denial_reason p.access p.mode p.allowed_access p.allowed_modes p.secret_handling ≡ none
      → let d = apply_gateway (permitted document p requested_mode) profile g in
        (d.allowed ≡ true) ↔ (Granted d × (d.gateway_decision ≢ "deny"))
  unfolding permitted apply_gateway
  apply_gateway-allowed profile g passed =
      let granted = denial_reason-none _ _ _ _ _ passed in
      let not_deny = λ (miss : (g.decision == "deny") ≡ false) (e : g.decision ≡ "deny").
        false≢true (sym miss ∙ (eq_iff g.decision "deny").1 e) in
      elim (Bool-cases (g.decision == "deny")) [
        | inl hit ↦
            rw hit
              (λ h. absurd (false≢true h), λ x. absurd (x.1 ((eq_iff g.decision "deny").0 hit)))
        | inr miss ↦ elim (Bool-cases (g.decision == "approval_required")) [
          | inl asks ↦ rw (miss, asks) (λ h. (granted, not_deny miss), λ x. refl)
          | inr plain ↦ rw (miss, plain) (λ h. (granted, not_deny miss), λ x. refl)
        ]
      ]

-- A request is allowed exactly when the profile lists its access level and its mode, enables raw
-- reveal if that is the mode, and no gateway policy decided "deny".
pub evaluate-allowed_iff :
    (document : ResourceDocument) (requested_access requested_mode operation : String)
    (registry : Option ResourceRegistry) (d : ConnectionSafetyDecision)
    → evaluate_connection_profile document requested_access requested_mode operation registry ≡ ok d
    → (d.allowed ≡ true) ↔ (Granted d × (d.gateway_decision ≢ "deny"))
evaluate-allowed_iff document requested_access requested_mode operation registry d h =
    let (p, _, outcome) =
      evaluate-Outcome document requested_access requested_mode operation registry d h in
    go p outcome
  where
    go :
        (p : Parsed)
        → Outcome document p requested_mode operation registry d
        → (d.allowed ≡ true) ↔ (Granted d × (d.gateway_decision ≢ "deny"))
    go p (by_profile reason failed e) =
        rw (← e) (denied-not_allowed document p requested_mode reason failed)
    go p (without_gateway passed _ e) =
        rw (← e) (permitted-allowed document p requested_mode passed)
    go p (by_gateway profile g passed _ _ e) =
        rw (← e) (apply_gateway-allowed document p requested_mode profile g passed)
