-- ===== src/Examples/Servers.antt =====
-- A server with a policy of its own name, and the files that adding such a server leaves behind.
use context_control_plane.Mcp.Proxy.Authority.{ends_with, rsplit}
use context_control_plane.Sorting.{All}
use context_control_plane.Mcp.Observed.{
  blank_report, characters, destination_matches_allowlist, each_message, ending_of, evaluate_egress,
  evaluated_mode, host_part, is_covered, is_zero, iterated, keys, launch_report, lsof_warnings,
  process_report, proxy_violations, seen_destinations, uncovered_messages, unique_loop,
  unique_preserve_order, violations_of, SandboxPlan, Launch, launched, observe_mcp_runtime,
}
use context_control_plane.Mcp.Observed.Tolerated.{IsTolerated, build_mcp_test_report-IsTolerated}
use context_control_plane.Packs.{stripped_texts}
use context_control_plane.Python.Text.{
  decimal, digit_text, has_part, is_empty, is_space, is_space_code, lower, lower_char, lstrip,
  map_char, or_else, repr, rstrip, starts_with, strip, translate,
}
use context_control_plane.Base.{contains, ◌≡◌, ◌↔◌, refl, true, false, none, some, List, [], ◌∷◌}
use context_control_plane.Python.Error.{ok}
use context_control_plane.Python.Value.{
  find, get_or, is_blank, put, repr_value, show, text, text_or, truthy, str, arr, obj, bool, Fields,
  end, field, dict, texts,
}
use context_control_plane.Resource.{source_of, ResourceDocument, ResourceRegistry}
use context_control_plane.Mcp.Profile.{
  is_http, lowered_or, mcp_items, mcp_mapping, mcp_string_list, one_of, pick,
  stringify_mapping_list, targets_server, McpServerProfile, McpPolicyProfile, policy_from_document,
}
use context_control_plane.Mcp.Profile.Known.{IsKnown, policy_from_document-IsKnown}
use context_control_plane.Mcp.Policy.{
  candidates_of, choose, choose_candidate, exact_of, ResolvedPolicy, resolve_mcp_policy,
}
use context_control_plane.Mcp.Policy.Resolved.{IsResolution, resolve_mcp_policy-IsResolution}
use context_control_plane.Mcp.Startup.{
  append_new, build_startup_report, endpoint_destinations, executable_of,
  filesystem_access_requested, http_startup, network_destinations_requested, stdio_startup,
  url_destinations, Host,
}
use context_control_plane.Mcp.Report.{
  allowed_of, blocked_by, build_posture, capability_tools, health_of, is_subset, mode_in, value_in,
  no_texts, own_warnings, posture_of, recommendations_of, tools_of, trust_warning,
  uncovered_endpoint, unsanitized, warn, Posture,
}
use context_control_plane.Mcp.Tested.{
  egress_enforcement, probe_blocks, probe_warnings, ObservedReport, TestReport, report_of, not_run,
  build_mcp_test_report,
}
use context_control_plane.Mcp.Health.{build_mcp_test_report-probed}
use context_control_plane.Mcp.Safety.{IsSafe, build_mcp_test_report-IsSafe_iff}
use context_control_plane.Mcp.Manage.{
  build_payloads, default_allow, is_stored, stored_at, transport_fields, NewServer, Stored,
  write_payload, payload_of, server_spec, policy_spec, add_mcp_resources,
}
use context_control_plane.Mcp.Manage.Added.{IsAdded, add_mcp_resources-IsAdded}
use context_control_plane.Packs.Written.{IsItem}
use context_control_plane.Examples.Data.{resource}

abbrev redact : Fields
redact = dict (("redact", arr (texts ("token" ∷ []))) ∷ [])

abbrev filesystem : Fields
filesystem = dict (("filesystem", obj (dict (("read", arr (texts ("/srv" ∷ []))) ∷ []))) ∷ [])

abbrev policy : ResourceDocument
policy = resource "McpPolicy" "files" (
    dict (
      ("trust_tier", str "Verified")
      ∷ ("sandbox_profile", obj filesystem)
      ∷ ("egress_policy", obj (field "mode" (str "deny") end))
      ∷ ("input_sanitization", obj redact)
      ∷ ("output_sanitization", obj redact)
      ∷ ("trace_redaction", obj redact)
      ∷ []))

abbrev profile : McpPolicyProfile
profile = record {
  name = "files";
  namespace = "dev";
  targets = [];
  trust_tier = "verified";
  sandbox_profile = filesystem;
  egress_policy = field "mode" (str "deny") end;
  secret_usage_mode = "brokered";
  input_sanitization = redact;
  output_sanitization = redact;
  trace_redaction = redact;
  tool_rules = [];
  source = "";
}

policy_read : policy_from_document policy ≡ ok profile
unfolding policy_from_document one_of contains lowered_or or_else lower strip text_or pick find
    lower_char mcp_mapping get_or stringify_mapping_list is_blank mcp_string_list put source_of
    mcp_items stripped_texts decimal digit_text has_part is_empty is_space is_space_code lstrip
    map_char repr rstrip starts_with translate repr_value show text truthy
policy_read = refl

policy_from_document-IsKnown_example : IsKnown profile
policy_from_document-IsKnown_example = policy_from_document-IsKnown policy profile policy_read

abbrev server : McpServerProfile
server = record {
  name = "files";
  namespace = "dev";
  transport = "stdio";
  enabled = true;
  command = "files-server";
  args = [];
  url = "";
  mode = "read";
  capabilities = [];
  declared_tools = "read_file" ∷ [];
  source = "mcp/files.server.json";
}

abbrev registry : ResourceRegistry
registry = record {
  list_resources = λ kind namespace. ok (policy ∷ []);
  get_resource = λ kind name namespace. ok none;
}

abbrev resolved : ResolvedPolicy
resolved = record { policy = some profile; warnings = [] }

resolved_run : resolve_mcp_policy server registry ≡ ok resolved
unfolding resolve_mcp_policy candidates_of policy_from_document one_of contains lowered_or or_else
    lower strip text_or pick find lower_char mcp_mapping get_or stringify_mapping_list is_blank
    choose choose_candidate exact_of mcp_items mcp_string_list targets_server stripped_texts decimal
    digit_text has_part is_empty is_space is_space_code lstrip map_char repr rstrip starts_with
    translate put repr_value show text truthy source_of
resolved_run = refl

resolve_mcp_policy-IsResolution_example : IsResolution "files" (policy ∷ []) resolved
resolve_mcp_policy-IsResolution_example =
    resolve_mcp_policy-IsResolution server registry (policy ∷ []) resolved refl resolved_run

-- A machine that has every command, and knows every URL.
abbrev host : Host
host = record {
  which = λ command. some "/usr/bin/files-server";
  existing_path = λ command. "";
  urlparse = λ url. ok (record { scheme = "https"; netloc = "example.com" });
}

abbrev posture : Posture
posture = record {
  startup = record {
    success = true;
    status = "ready";
    reason = "stdio MCP command resolved successfully";
    executable = "/usr/bin/files-server";
  };
  attached = true;
  trust_tier = "verified";
  secret_usage_mode = "brokered";
  declared_tools = "read_file" ∷ [];
  filesystem = dict (
      ("read", arr (texts ("/srv" ∷ [])))
      ∷ ("write", arr (texts []))
      ∷ ("allowTmp", bool false)
      ∷ []);
  destinations = [];
  input = true;
  output = true;
  trace = true;
  egress_policy = field "mode" (str "deny") end;
  sandbox_profile = filesystem;
  allowed = [];
}

abbrev report : TestReport
report = report_of server [] posture none

reported : build_mcp_test_report host server (some profile) [] none ≡ ok report
unfolding build_mcp_test_report build_posture build_startup_report filesystem_access_requested
    mcp_mapping get_or mcp_string_list is_blank network_destinations_requested endpoint_destinations
    is_http allowed_of posture_of stdio_startup tools_of stripped_texts truthy append_new
    executable_of no_texts texts or_else strip text contains blocked_by capability_tools health_of
    is_subset mode_in value_in own_warnings recommendations_of trust_warning uncovered_endpoint
    unsanitized warn http_startup url_destinations egress_enforcement probe_blocks probe_warnings
    report_of decimal digit_text has_part is_empty is_space is_space_code lstrip repr rstrip
    starts_with find repr_value show text_or
reported = refl

build_mcp_test_report-IsSafe_iff_example :
    (report.health ≡ "safe") ↔ IsSafe host server (some profile) []
build_mcp_test_report-IsSafe_iff_example =
    build_mcp_test_report-IsSafe_iff host server (some profile) [] report reported

-- A probe that has started the server inside a network of its own.
abbrev observed : ObservedReport
observed = record not_run {
  mode = "process-probe";
  attempted = true;
  startup_success = true;
  status = "started";
  sandbox_applied = field "egressEnforcement" (str "network-namespace") end;
}

abbrev probed : TestReport
probed = report_of server [] posture (some observed)

probed_run : build_mcp_test_report host server (some profile) [] (some observed) ≡ ok probed
unfolding build_mcp_test_report build_posture build_startup_report filesystem_access_requested
    mcp_mapping get_or mcp_string_list is_blank network_destinations_requested endpoint_destinations
    is_http allowed_of posture_of stdio_startup tools_of stripped_texts truthy append_new
    executable_of no_texts texts or_else strip text contains blocked_by capability_tools health_of
    is_subset mode_in value_in own_warnings recommendations_of trust_warning uncovered_endpoint
    unsanitized warn http_startup url_destinations egress_enforcement probe_blocks probe_warnings
    report_of decimal digit_text has_part is_empty is_space is_space_code lstrip repr rstrip
    starts_with find repr_value show text_or
probed_run = refl

probed_safe : probed.health ≡ "safe"
unfolding report_of health_of no_texts blocked_by probe_blocks warn own_warnings trust_warning
    unsanitized truthy mode_in value_in get_or contains uncovered_endpoint is_http probe_warnings
    egress_enforcement is_subset recommendations_of decimal digit_text has_part is_empty repr
    starts_with find repr_value show text text_or
probed_safe = refl

build_mcp_test_report-probed_example :
    (q : TestReport) × (build_mcp_test_report host server (some profile) [] none ≡ ok q)
    × (q.health ≡ "safe")
build_mcp_test_report-probed_example =
    build_mcp_test_report-probed host server (some profile) [] observed probed probed_run
      probed_safe

abbrev new_server : NewServer
new_server = record {
  name = "files";
  namespace = "dev";
  transport = "https";
  command = "";
  args = [];
  url = "https://example.com/mcp";
  declared_tools = "read_file" ∷ [];
  capabilities = [];
  trust_tier = "verified";
  egress_mode = "allowlist";
  egress_allow = [];
  sandbox_read = [];
  sandbox_write = [];
  allow_tmp = false;
  secret_usage_mode = "brokered";
  enabled = true;
}

abbrev added : List Stored
added =
    record {
      path = "mcp/files.server.json";
      payload =
          payload_of "McpServer" new_server
            (server_spec new_server (field "url" (str "https://example.com/mcp") end));
    }
    ∷ record {
      path = "mcp/files.policy.json";
      payload = payload_of "McpPolicy" new_server (policy_spec new_server ("example.com" ∷ []));
    }
    ∷ []

added_run :
    add_mcp_resources host [] "mcp" "mcp/files.server.json" "mcp/files.policy.json" new_server
    ≡ ok added
unfolding add_mcp_resources build_payloads one_of contains transport_fields is_http is_empty
    default_allow url_destinations is_stored stored_at write_payload
added_run = refl

name_given : IsItem "files"
unfolding strip
name_given = (refl, refl)

namespace_given : IsItem "dev"
unfolding strip
namespace_given = (refl, refl)

add_mcp_resources-IsAdded_example :
    IsAdded new_server "mcp/files.server.json" "mcp/files.policy.json" [] added
add_mcp_resources-IsAdded_example =
    add_mcp_resources-IsAdded host [] added "mcp" "mcp/files.server.json" "mcp/files.policy.json"
      new_server name_given namespace_given added_run

-- What becomes of a process that goes on, with one connection that its policy lists.
abbrev allowing : McpPolicyProfile
allowing = record profile {
  egress_policy =
      dict (("mode", str "allowlist") ∷ ("allow", arr (texts ("example.com" ∷ []))) ∷ []);
}

abbrev running : Launch
running = launched (record {
  exit_status = none;
  connections = "api.example.com:443" ∷ [];
  paths = [];
  proxied = none;
  lsof_available = true;
})

abbrev fenced : SandboxPlan
fenced = record {
  mode = "process-probe";
  sandbox_applied = field "egressEnforcement" (str "network-namespace") end;
  warnings = [];
}

abbrev seen : ObservedReport
seen = record not_run {
  mode = "process-probe";
  attempted = true;
  startup_success = true;
  status = "running";
  reason = "MCP process started and remained alive during the observation window";
  sandbox_applied = field "egressEnforcement" (str "network-namespace") end;
  network_destinations = "api.example.com:443" ∷ [];
}

seen_run : observe_mcp_runtime server (some allowing) fenced running ≡ ok seen
unfolding observe_mcp_runtime process_report evaluate_egress seen_destinations iterated get_or
    ending_of violations_of evaluated_mode lsof_warnings lower strip text_or lower_char
    uncovered_messages is_covered stripped_texts texts destination_matches_allowlist contains
    blank_report characters each_message host_part is_zero keys launch_report proxy_violations
    unique_loop unique_preserve_order ends_with rsplit decimal digit_text has_part is_empty is_space
    is_space_code lstrip map_char repr rstrip starts_with translate find repr_value show text truthy
seen_run = refl

abbrev allowing_posture : Posture
allowing_posture = record posture {
  egress_policy = allowing.egress_policy;
  destinations = "example.com" ∷ [];
}

abbrev seen_report : TestReport
seen_report = report_of server [] allowing_posture (some seen)

seen_reported : build_mcp_test_report host server (some allowing) [] (some seen) ≡ ok seen_report
unfolding build_mcp_test_report build_posture build_startup_report filesystem_access_requested
    mcp_mapping get_or mcp_string_list is_blank network_destinations_requested endpoint_destinations
    is_http allowed_of posture_of stdio_startup tools_of stripped_texts truthy append_new
    executable_of no_texts texts or_else strip text contains blocked_by capability_tools health_of
    is_subset mode_in value_in own_warnings recommendations_of trust_warning uncovered_endpoint
    unsanitized warn http_startup url_destinations egress_enforcement probe_blocks probe_warnings
    report_of decimal digit_text has_part is_empty is_space is_space_code lstrip repr rstrip
    starts_with find repr_value show text_or
seen_reported = refl

seen_safe : seen_report.health ≡ "safe"
unfolding report_of health_of no_texts blocked_by probe_blocks warn own_warnings trust_warning
    unsanitized truthy mode_in value_in get_or contains uncovered_endpoint is_http probe_warnings
    egress_enforcement is_subset recommendations_of decimal digit_text has_part is_empty repr
    starts_with find repr_value show text text_or
seen_safe = refl

build_mcp_test_report-IsTolerated_example :
    All (IsTolerated (some allowing)) ("api.example.com:443" ∷ [])
build_mcp_test_report-IsTolerated_example =
    build_mcp_test_report-IsTolerated host server (some allowing) [] fenced running seen seen_report
      seen_run seen_reported seen_safe
