-- ===== src/Gateway/Evaluate.antt =====
-- kernel/gateway.py: the decision of a policy on a request.
use context_control_plane.Base.{
  ℕ, ◌+◌, String, ◌<>◌, Option, none, some, List, [], ◌∷◌, ◌++◌, ◌==◌, if◌then◌else◌,
}
use context_control_plane.Python.Error.{Result, ok, ◌>>=◌}
use context_control_plane.Python.Text.{strip, lower, or_else, is_empty, decimal, repr}
use context_control_plane.Python.Value.{
  ℤ, pos, negsuc, str, Fields, end, text_or, get_or, get, has_key,
}
use context_control_plane.Gateway.Rule.{
  normalize_decision, GatewayRule, Context, matches, rule_to_dict,
}
use context_control_plane.Gateway.Profile.{entry_of, GatewayPolicyProfile}

pub record GatewayDecision : Type 0 where
  pub policy_name : String
  pub namespace : String
  pub decision : String
  pub reason : String
  pub matched_rule_index : ℤ
  pub matched_rule : Fields
  pub requested_access : String
  pub requested_classification : String
  pub requested_mode : String
  pub requested_operation : String
  pub warnings : List String

-- The loop over `enumerate(profile.rules)`, up to its `break`.
unfoldable pub first_match : ℕ → List GatewayRule → Context → Option (ℕ × GatewayRule)
first_match index [] c = none
first_match index (rule ∷ rest) c =
    let later = first_match (index + 1) rest c in
    if matches rule c then some (index, rule) else later

-- The four arguments of a request.
pub record Request : Type 0 where
  pub access : String
  pub classification : String
  pub mode : String
  pub operation : String

-- `str(value or default).strip().lower() or default`
unfoldable pub normalized : String → String → String
normalized value default = or_else (lower (strip (or_else value default))) default

-- The first four lines of `evaluate_gateway_policy`, with the namespace of the profile.
unfoldable pub context_of : GatewayPolicyProfile → Request → Context
unfolding normalized
context_of profile r = record {
  access = normalized r.access "read";
  classification = normalized r.classification "internal";
  mode = normalized r.mode "connect";
  operation = strip r.operation;
  namespace = profile.namespace;
}

-- The decision and the reason before the rules are read.
unfoldable pub base_decision : GatewayPolicyProfile → String → Result (String × String)
base_decision profile classification =
    let entry = entry_of profile.classifications classification in
    if has_key entry "decision"
    then (do
      decision ←
          normalize_decision (get entry "decision")
            ("classifications." <> classification <> ".decision")
      ok (decision, "classification " <> repr classification <> " overrides the default decision"))
    else ok (profile.default_decision, "gateway default decision applies")

-- The warning of the classification, if it has one.
unfoldable pub entry_warnings : GatewayPolicyProfile → String → List String
entry_warnings profile classification =
    let entry = entry_of profile.classifications classification in
    if has_key entry "warning"
    then (let warning = strip (text_or (get_or entry "warning" (str "")) "") in
        if is_empty warning then [] else warning ∷ [])
    else []

-- The fields of the decision that the search for a rule settles.
unfoldable pub conclude :
    GatewayPolicyProfile
    → Context
    → List String
    → String × String
    → Option (ℕ × GatewayRule)
    → GatewayDecision
conclude profile c warnings (effective, reason) none = record {
  policy_name = profile.name;
  namespace = profile.namespace;
  decision = effective;
  reason = reason;
  matched_rule_index = negsuc 0;
  matched_rule = end;
  requested_access = c.access;
  requested_classification = c.classification;
  requested_mode = c.mode;
  requested_operation = c.operation;
  warnings =
      if effective == "approval_required"
      then warnings
        ++ ("approval-required defaults are active; keep the governed path simple for callers" ∷ [])
      else warnings;
}
conclude profile c warnings (effective, reason) (some (index, rule)) = record {
  policy_name = profile.name;
  namespace = profile.namespace;
  decision = rule.decision;
  reason =
      or_else rule.reason ("rule " <> decimal index <> " matched the requested gateway context");
  matched_rule_index = pos index;
  matched_rule = rule_to_dict rule;
  requested_access = c.access;
  requested_classification = c.classification;
  requested_mode = c.mode;
  requested_operation = c.operation;
  warnings = warnings;
}

-- `evaluate_gateway_policy`
unfoldable pub evaluate_gateway_policy : GatewayPolicyProfile → Request → Result GatewayDecision
evaluate_gateway_policy profile r = do
  let c = context_of profile r
  base ← base_decision profile c.classification
  ok (
      conclude profile c (entry_warnings profile c.classification) base
        (first_match 0 profile.rules c))
