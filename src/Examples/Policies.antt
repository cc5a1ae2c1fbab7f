-- ===== src/Examples/Policies.antt =====
-- The gateway policy of the example, on requests of three kinds.
use context_control_plane.Base.{◌↔◌, ◌≡◌, refl, true, [], contains}
use context_control_plane.Python.Error.{Error, ok, err, gateway_error}
use context_control_plane.Python.Text.{
  strip, lower, lower_char, or_else, is_empty, has_part, decimal, repr,
}
use context_control_plane.Python.Value.{
  pos, get, str, obj, end, field, get_or, find, has_key, is_blank, truthy, text, text_or,
}
use context_control_plane.Resource.{source_of}
use context_control_plane.Gateway.Rule.{
  mapping, mapping_list, normalize_decision, lowered, matches, expectations_hold, operation_holds,
  rule_to_dict,
}
use context_control_plane.Gateway.Profile.{
  from_document, load_rule, load_rules, load_classifications, put_entry, entry_of,
}
use context_control_plane.Gateway.Evaluate.{
  Request, GatewayDecision, first_match, context_of, base_decision, entry_warnings, conclude,
  evaluate_gateway_policy,
}
use context_control_plane.Gateway.Verdict.{Verdict, evaluate-Verdict}
use context_control_plane.Gateway.Decisions.{
  IsDecision, evaluate-IsDecision, IsWord, evaluate-err_iff,
}
use context_control_plane.Gateway.Spelling.{clean, evaluate-clean}
use context_control_plane.Examples.Data.{policy, profile}

pub policy-loaded : from_document policy ≡ ok profile
unfolding from_document mapping mapping_list normalize_decision lowered load_rule load_rules
    load_classifications put_entry get_or find is_blank truthy text text_or strip lower lower_char
    is_empty contains source_of
policy-loaded = refl

abbrev drop : Request
drop = record {
  access = " Write ";
  classification = "internal";
  mode = "";
  operation = " drop table";
}

abbrev update : Request
update = record {
  access = "write";
  classification = "internal";
  mode = "connect";
  operation = "update";
}

abbrev look : Request
look = record { access = ""; classification = "public"; mode = "connect"; operation = "select" }

abbrev denial : GatewayDecision
denial = record {
  policy_name = "guard";
  namespace = "dev";
  decision = "deny";
  reason = "rule 0 matched the requested gateway context";
  matched_rule_index = pos 0;
  matched_rule =
      field "match"
        (obj (field "access" (str "write") (field "operationContains" (str "DROP") end)))
        (field "decision" (str "deny") (field "reason" (str "") end));
  requested_access = "write";
  requested_classification = "internal";
  requested_mode = "connect";
  requested_operation = "drop table";
  warnings = [];
}

abbrev change : GatewayDecision
change = record {
  policy_name = "guard";
  namespace = "dev";
  decision = "approval_required";
  reason = "a change";
  matched_rule_index = pos 1;
  matched_rule =
      field "match" (obj (field "access" (str "write") end))
        (field "decision" (str "approval_required") (field "reason" (str "a change") end));
  requested_access = "write";
  requested_classification = "internal";
  requested_mode = "connect";
  requested_operation = "update";
  warnings = [];
}

drop-denied : evaluate_gateway_policy profile drop ≡ ok denial
unfolding evaluate_gateway_policy context_of base_decision entry_warnings conclude first_match
    matches expectations_hold operation_holds rule_to_dict mapping normalize_decision lowered
    has_key entry_of get_or find is_blank truthy text text_or strip lower lower_char is_empty
    contains or_else has_part decimal repr
drop-denied = refl

pub update-change : evaluate_gateway_policy profile update ≡ ok change
unfolding evaluate_gateway_policy context_of base_decision entry_warnings conclude first_match
    matches expectations_hold operation_holds rule_to_dict mapping normalize_decision lowered
    has_key entry_of get_or find is_blank truthy text text_or strip lower lower_char is_empty
    contains or_else has_part decimal repr
update-change = refl

look-err :
    evaluate_gateway_policy profile look
    ≡ err (gateway_error "unsupported gateway decision 'maybe'")
unfolding evaluate_gateway_policy context_of base_decision entry_warnings conclude first_match
    matches expectations_hold operation_holds rule_to_dict mapping normalize_decision lowered
    has_key entry_of get_or find is_blank truthy text text_or strip lower lower_char is_empty
    contains or_else has_part decimal repr
look-err = refl

evaluate-Verdict_example : Verdict profile (context_of profile update) change
evaluate-Verdict_example = evaluate-Verdict profile update change update-change

evaluate-IsDecision_example : IsDecision denial.decision
evaluate-IsDecision_example =
    evaluate-IsDecision policy profile drop denial policy-loaded drop-denied

evaluate-err_iff_example :
    let c = context_of profile look in
    let entry = entry_of profile.classifications c.classification in
    ((e : Error) × (evaluate_gateway_policy profile look ≡ err e)) ↔ (
      (has_key entry "decision" ≡ true)
      × (¬ IsWord (lower (strip (text_or (get entry "decision") "")))))
evaluate-err_iff_example = evaluate-err_iff profile look

evaluate-clean_example :
    evaluate_gateway_policy profile (clean drop) ≡ evaluate_gateway_policy profile drop
evaluate-clean_example = evaluate-clean profile drop
