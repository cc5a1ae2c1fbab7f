-- ===== src/Gateway/Output.antt =====
-- kernel/gateway.py: policies and decisions as they are written, and the list of the policies.
use context_control_plane.Base.{String, List, [], ◌∷◌, length}
use context_control_plane.Python.Error.{Result, ok, ◌>>=◌}
use context_control_plane.Python.Value.{
  pos, num, str, arr, obj, Fields, end, field, dict, objects, texts,
}
use context_control_plane.Resource.{ResourceDocument, ResourceRegistry}
use context_control_plane.Gateway.Rule.{GatewayRule, rule_to_dict}
use context_control_plane.Gateway.Profile.{Classifications, GatewayPolicyProfile, from_document}
use context_control_plane.Gateway.Evaluate.{GatewayDecision}

rule_dicts : List GatewayRule → List Fields
rule_dicts [] = []
rule_dicts (rule ∷ rules) = rule_to_dict rule ∷ rule_dicts rules

classification_dict : Classifications → Fields
classification_dict [] = end
classification_dict ((k, entry) ∷ rest) = field k (obj entry) (classification_dict rest)

-- `GatewayPolicyProfile.to_dict`
unfoldable pub profile_to_dict : GatewayPolicyProfile → Fields
unfolding rule_dicts classification_dict
profile_to_dict p = dict (
    ("name", str p.name)
    ∷ ("namespace", str p.namespace)
    ∷ ("defaultDecision", str p.default_decision)
    ∷ ("rules", arr (objects (rule_dicts p.rules)))
    ∷ ("classifications", obj (classification_dict p.classifications))
    ∷ ("source", str p.source)
    ∷ [])

-- `GatewayDecision.to_dict`
unfoldable pub decision_to_dict : GatewayDecision → Fields
decision_to_dict d = dict (
    ("policy", obj (dict (("name", str d.policy_name) ∷ ("namespace", str d.namespace) ∷ [])))
    ∷ ("decision", str d.decision)
    ∷ ("reason", str d.reason)
    ∷ ("matchedRuleIndex", num d.matched_rule_index)
    ∷ ("matchedRule", obj d.matched_rule)
    ∷ ("requestedAccess", str d.requested_access)
    ∷ ("requestedClassification", str d.requested_classification)
    ∷ ("requestedMode", str d.requested_mode)
    ∷ ("requestedOperation", str d.requested_operation)
    ∷ ("warnings", arr (texts d.warnings))
    ∷ [])

-- One record of `build_gateway_status_records`.
unfoldable pub status_record : GatewayPolicyProfile → Fields
status_record p = dict (
    ("name", str p.name)
    ∷ ("namespace", str p.namespace)
    ∷ ("defaultDecision", str p.default_decision)
    ∷ ("ruleCount", num (pos (length p.rules)))
    ∷ ("classificationCount", num (pos (length p.classifications)))
    ∷ ("source", str p.source)
    ∷ [])

-- The loop of `build_gateway_status_records`.
unfoldable pub status_records : List ResourceDocument → Result (List Fields)
status_records [] = ok []
status_records (document ∷ rest) = do
  profile ← from_document document
  more ← status_records rest
  ok (status_record profile ∷ more)

-- `build_gateway_status_records`
unfoldable pub build_gateway_status_records : ResourceRegistry → String → Result (List Fields)
build_gateway_status_records registry namespace = do
  documents ← registry.list_resources "GatewayPolicy" namespace
  status_records documents
