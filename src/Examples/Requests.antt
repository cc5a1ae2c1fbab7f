-- ===== src/Examples/Requests.antt =====
-- A request for the connection of the example, evaluated under the policy of its registry.
use context_control_plane.Base.{◌≡◌, ◌≢◌, ◌↔◌, refl, true, false, some, [], ◌∷◌, contains}
use context_control_plane.Python.Error.{ok}
use context_control_plane.Python.Text.{
  strip, lower, lower_char, or_else, is_empty, has_part, decimal, repr, text_length,
}
use context_control_plane.Python.Value.{
  pos, end, get_or, find, has_key, is_blank, truthy, text, text_or, texts, int,
}
use context_control_plane.Resource.{source_of}
use context_control_plane.Gateway.Rule.{
  mapping, mapping_list, normalize_decision, lowered, matches, expectations_hold, operation_holds,
  rule_to_dict,
}
use context_control_plane.Gateway.Profile.{
  from_document, load_rule, load_rules, load_classifications, put_entry, entry_of,
}
use context_control_plane.Gateway.Evaluate.{
  first_match, context_of, base_decision, entry_warnings, conclude, evaluate_gateway_policy,
}
use context_control_plane.Secrets.Backend.{
  string_list, is_secret_ref, normalize_secret_ref, parse_delivery, backend_type_text,
  parse_backend_type, parse_durability, option_text, local_persistent, ephemeral_handle,
}
use context_control_plane.Secrets.Backend
use context_control_plane.Secrets.Resolve.{resolve_backend_ref, default_backend}
use context_control_plane.Secrets.Controls.{
  response_allowlist, not_positive, resolve_materialization_policy, normalize_refs,
  resolve_connection_secret_controls,
}
use context_control_plane.Security.Profile.{
  normalize_string_set, parse_classification, parse_mode, parse_access, parse_secret_handling,
  parse_approval_policy, access_text, mode_text, classification_text, ConnectionSafetyDecision,
  internal, write, materialize,
}
use context_control_plane.Security.Policy.{
  resolve_gateway_policy, denial_reason, needs_approval, profile_warnings,
}
use context_control_plane.Security.Evaluate.{
  parse_request, denied, permitted, apply_gateway, govern, decide, evaluate_connection_profile,
}
use context_control_plane.Security.Access.{Granted, evaluate-allowed_iff}
use context_control_plane.Security.Approval.{IsSettled, evaluate-IsSettled}
use context_control_plane.Security.Governed.{IsGoverned, evaluate-IsGoverned}
use context_control_plane.Secrets.Sound.{IsSound, resolve_connection_secret_controls-IsSound}
use context_control_plane.Examples.Data.{connection, registry, profile}

abbrev pub decision : ConnectionSafetyDecision
decision = record {
  connection_name = "orders";
  namespace = "dev";
  adapter = "http-json";
  endpoint = "https://orders";
  classification = internal;
  requested_access = write;
  requested_mode = materialize;
  effective_mode = materialize;
  allowed_access = "read" ∷ "write" ∷ [];
  allowed_modes = "connect" ∷ "materialize" ∷ [];
  secret_handling = record {
    brokered = true;
    sanitize_input = true;
    sanitize_output = true;
    allow_raw_secret_reveal = false;
  };
  secret_controls = record {
    backend = record {
      name = "local-secure-store";
      namespace = "dev";
      backend_type = "os-keychain";
      durability = local_persistent;
      provider = "platform-default";
      managed = false;
      config = end;
      source = "implicit-default";
    };
    allow_fields = [];
    materialization = record {
      delivery = ephemeral_handle;
      ttl_seconds = pos 60;
      cleanup_on_exit = true;
      cleanup_on_read = false;
    };
    secret_refs = "orders.key" ∷ [];
  };
  approval_policy = record { required_for_access = []; required_for_modes = [] };
  approval_required = true;
  allowed = true;
  reason = "a change";
  gateway_policy_name = "guard";
  gateway_decision = "approval_required";
  gateway_reason = "a change";
  warnings = [];
}

pub evaluated :
    evaluate_connection_profile connection "write" "materialize" "update" (some registry)
    ≡ ok decision
unfolding evaluate_connection_profile decide govern apply_gateway permitted denied parse_request
    resolve_gateway_policy denial_reason needs_approval profile_warnings normalize_string_set
    parse_classification parse_mode parse_access parse_secret_handling parse_approval_policy
    access_text mode_text classification_text response_allowlist not_positive
    resolve_materialization_policy normalize_refs resolve_connection_secret_controls
    resolve_backend_ref default_backend string_list is_secret_ref normalize_secret_ref
    parse_delivery backend_type_text parse_backend_type parse_durability option_text
    evaluate_gateway_policy context_of base_decision entry_warnings conclude first_match matches
    expectations_hold operation_holds rule_to_dict mapping normalize_decision lowered has_key
    entry_of get_or find is_blank truthy text text_or strip lower lower_char is_empty contains
    or_else has_part decimal repr from_document mapping_list load_rule load_rules
    load_classifications put_entry source_of Backend.mapping int text_length texts
evaluated = refl

policy_found : resolve_gateway_policy connection (some registry) ≡ ok (some profile)
unfolding resolve_gateway_policy get_or find is_blank from_document mapping mapping_list
    normalize_decision lowered load_rule load_rules load_classifications put_entry truthy text
    text_or strip lower lower_char is_empty contains source_of
policy_found = refl

controls :
    resolve_connection_secret_controls connection (some registry) ≡ ok decision.secret_controls
unfolding resolve_connection_secret_controls response_allowlist not_positive
    resolve_materialization_policy normalize_refs resolve_backend_ref default_backend string_list
    is_secret_ref normalize_secret_ref parse_delivery option_text Backend.mapping get_or find
    is_blank truthy text text_or strip lower lower_char is_empty or_else int text_length decimal
controls = refl

evaluate-allowed_iff_example :
    (decision.allowed ≡ true) ↔ (Granted decision × (decision.gateway_decision ≢ "deny"))
evaluate-allowed_iff_example =
    evaluate-allowed_iff connection "write" "materialize" "update" (some registry) decision
      evaluated

evaluate-IsSettled_example : IsSettled decision
evaluate-IsSettled_example =
    evaluate-IsSettled connection "write" "materialize" "update" (some registry) decision evaluated

evaluate-IsGoverned_example : IsGoverned profile "update" decision
evaluate-IsGoverned_example =
    evaluate-IsGoverned connection "write" "materialize" "update" (some registry) decision profile
      evaluated policy_found refl

resolve_connection_secret_controls-IsSound_example : IsSound decision.secret_controls
resolve_connection_secret_controls-IsSound_example =
    resolve_connection_secret_controls-IsSound connection (some registry) decision.secret_controls
      controls
