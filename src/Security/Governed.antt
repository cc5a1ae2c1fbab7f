-- ===== src/Security/Governed.antt =====
-- kernel/security.py: an allowed request has passed the gateway policy of its connection.
use mathlib.Core.Path.{subst}
use context_control_plane.Base.{
  String, ◌≡◌, refl, sym, ◌∙◌, ap, inl, inr, true, Option, some, ◌==◌, false≢true, Bool-cases,
}
use context_control_plane.Python.Error.{ok, ok_injective}
use context_control_plane.Resource.{ResourceDocument, ResourceRegistry}
use context_control_plane.Gateway.Profile.{GatewayPolicyProfile}
use context_control_plane.Gateway.Evaluate.{GatewayDecision, evaluate_gateway_policy}
use context_control_plane.Security.Profile.{ConnectionSafetyDecision}
use context_control_plane.Security.Policy.{resolve_gateway_policy}
use context_control_plane.Security.Evaluate.{
  Parsed, denied, apply_gateway, evaluate_connection_profile,
}
use context_control_plane.Security.Cases.{
  Outcome, by_profile, without_gateway, by_gateway, gateway_request, evaluate-Outcome,
}

-- The answer of the gateway that stands behind a decision.
pub record IsGoverned (profile : GatewayPolicyProfile) (operation : String)
    (d : ConnectionSafetyDecision) : Type 0 where
  pub answer : GatewayDecision
  pub asked : evaluate_gateway_policy profile (gateway_request d operation) ≡ ok answer
  pub kept : d.gateway_decision ≡ answer.decision
  pub policy : d.gateway_policy_name ≡ profile.name

some_injective : {a b : GatewayPolicyProfile} → some a ≡ some b → a ≡ b
some_injective h = cc

apply_gateway-IsGoverned :
    (d : ConnectionSafetyDecision) (profile : GatewayPolicyProfile) (operation : String)
    (g : GatewayDecision)
    → evaluate_gateway_policy profile (gateway_request d operation) ≡ ok g
    → IsGoverned profile operation (apply_gateway d profile g)
unfolding apply_gateway
apply_gateway-IsGoverned d profile operation g h = elim (Bool-cases (g.decision == "deny")) [
  | inl hit ↦ rw hit (record { answer = g; asked = h; kept = refl; policy = refl })
  | inr miss ↦ elim (Bool-cases (g.decision == "approval_required")) [
    | inl asks ↦ rw (miss, asks) (record { answer = g; asked = h; kept = refl; policy = refl })
    | inr plain ↦ rw (miss, plain) (record { answer = g; asked = h; kept = refl; policy = refl })
  ]
]

Outcome-IsGoverned :
    {document : ResourceDocument} {p : Parsed} {requested_mode operation : String}
    {registry : Option ResourceRegistry} {d : ConnectionSafetyDecision}
    (profile : GatewayPolicyProfile)
    → Outcome document p requested_mode operation registry d
    → resolve_gateway_policy document registry ≡ ok (some profile)
    → d.allowed ≡ true
    → IsGoverned profile operation d
Outcome-IsGoverned profile (by_profile reason failed e) found h =
    absurd (false≢true (unfold denied in (ap (λ (x : ConnectionSafetyDecision). x.allowed) e ∙ h)))
Outcome-IsGoverned profile (without_gateway passed missing e) found h = cc
Outcome-IsGoverned {operation} {d} profile (by_gateway other g passed present asked e) found h =
    let same : other ≡ profile = some_injective (ok_injective (sym present ∙ found)) in
    subst (λ q. IsGoverned q operation d) same
      (rw (← e) (apply_gateway-IsGoverned _ other operation g asked))

-- Where a gateway policy is found for the connection, an allowed decision rests on the answer of that
-- very policy to this very request, and records the answer and the policy's name.
pub evaluate-IsGoverned :
    (document : ResourceDocument) (requested_access requested_mode operation : String)
    (registry : Option ResourceRegistry) (d : ConnectionSafetyDecision)
    (profile : GatewayPolicyProfile)
    → evaluate_connection_profile document requested_access requested_mode operation registry ≡ ok d
    → resolve_gateway_policy document registry ≡ ok (some profile)
    → d.allowed ≡ true
    → IsGoverned profile operation d
evaluate-IsGoverned document requested_access requested_mode operation registry d profile h found
      ok_d =
    let (p, _, outcome) =
      evaluate-Outcome document requested_access requested_mode operation registry d h in
    Outcome-IsGoverned profile outcome found ok_d
