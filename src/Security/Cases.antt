-- ===== src/Security/Cases.antt =====
-- kernel/security.py: the ways in which an evaluation of a connection profile can return.
use context_control_plane.Base.{
  String, ◌≡◌, Option, none, some, inl, inr, ◌==◌, Bool-cases, Option-cases,
}
use context_control_plane.Python.Error.{
  Result, ok, err, type_error, any_value, >>=-eq-ok, ok_injective,
}
use context_control_plane.Resource.{ResourceDocument, ResourceRegistry}
use context_control_plane.Gateway.Profile.{GatewayPolicyProfile}
use context_control_plane.Gateway.Evaluate.{GatewayDecision, Request, evaluate_gateway_policy}
use context_control_plane.Security.Profile.{
  ConnectionSafetyDecision, access_text, mode_text, classification_text,
}
use context_control_plane.Security.Policy.{resolve_gateway_policy, denial_reason}
use context_control_plane.Security.Evaluate.{
  Parsed, parse_request, denied, permitted, apply_gateway, govern, decide,
  evaluate_connection_profile,
}

any_value-eq-ok {ℓ} : {A : Type ℓ} (m : Result A) (a : A) → any_value m ≡ ok a → m ≡ ok a
any_value-eq-ok (ok b) a h = h
any_value-eq-ok (err (type_error m)) a h = cc
any_value-eq-ok (err _) a h = cc

-- What the gateway is asked.
abbrev pub gateway_request : ConnectionSafetyDecision → String → Request
gateway_request d operation = record {
  access = access_text d.requested_access;
  classification = classification_text d.classification;
  mode = mode_text d.requested_mode;
  operation = operation;
}

-- The three ways to a decision, each with what led to it.
pub data Outcome (document : ResourceDocument) (p : Parsed) (requested_mode operation : String)
    (registry : Option ResourceRegistry) (d : ConnectionSafetyDecision) : Type 0 where
  by_profile :
      (reason : String)
      → denial_reason p.access p.mode p.allowed_access p.allowed_modes p.secret_handling
        ≡ some reason
      → denied document p reason ≡ d
      → Outcome document p requested_mode operation registry d
  without_gateway :
      denial_reason p.access p.mode p.allowed_access p.allowed_modes p.secret_handling ≡ none
      → resolve_gateway_policy document registry ≡ ok none
      → permitted document p requested_mode ≡ d
      → Outcome document p requested_mode operation registry d
  by_gateway :
      (profile : GatewayPolicyProfile) (g : GatewayDecision)
      → denial_reason p.access p.mode p.allowed_access p.allowed_modes p.secret_handling ≡ none
      → resolve_gateway_policy document registry ≡ ok (some profile)
      → evaluate_gateway_policy profile
          (gateway_request (permitted document p requested_mode) operation)
        ≡ ok g
      → apply_gateway (permitted document p requested_mode) profile g ≡ d
      → Outcome document p requested_mode operation registry d

module _ (document : ResourceDocument) (p : Parsed) (requested_mode operation : String)
    (registry : Option ResourceRegistry) (d : ConnectionSafetyDecision) where
  govern-Outcome :
      (policy : Option GatewayPolicyProfile)
      → denial_reason p.access p.mode p.allowed_access p.allowed_modes p.secret_handling ≡ none
      → resolve_gateway_policy document registry ≡ ok policy
      → govern (permitted document p requested_mode) operation policy ≡ ok d
      → Outcome document p requested_mode operation registry d
  unfolding govern
  govern-Outcome none passed found h = without_gateway passed found (ok_injective h)
  govern-Outcome (some profile) passed found h =
      let (g, hg, hd) = >>=-eq-ok (evaluate_gateway_policy profile _) _ h in
      by_gateway profile g passed found hg (ok_injective hd)

  decide-Outcome :
      decide document p requested_mode operation registry ≡ ok d
      → Outcome document p requested_mode operation registry d
  unfolding decide
  decide-Outcome h =
      elim (Option-cases
        (denial_reason p.access p.mode p.allowed_access p.allowed_modes p.secret_handling)) [
          | inr (reason, failed) ↦
              by_profile reason failed (ok_injective (rw (failed, decide) at h))
          | inl passed ↦
              let (policy, hp, hd) =
                >>=-eq-ok (any_value (resolve_gateway_policy document registry)) _
                  (rw (passed, decide) at h) in
              govern-Outcome policy passed (any_value-eq-ok _ policy hp) hd
        ]

pub evaluate-Outcome :
    (document : ResourceDocument) (requested_access requested_mode operation : String)
    (registry : Option ResourceRegistry) (d : ConnectionSafetyDecision)
    → evaluate_connection_profile document requested_access requested_mode operation registry ≡ ok d
    → (p : Parsed) × (parse_request document requested_access requested_mode registry ≡ ok p)
      × Outcome document p requested_mode operation registry d
unfolding evaluate_connection_profile
evaluate-Outcome document requested_access requested_mode operation registry d h =
    elim (Bool-cases (document.identifier.kind == "ConnectionProfile")) [
      | inr other ↦ absurd (cc (rw other at h))
      | inl same ↦
          let (p, hp, hd) =
            >>=-eq-ok (parse_request document requested_access requested_mode registry) _
              (rw same at h) in
          (p, hp, decide-Outcome document p requested_mode operation registry d hd)
    ]
