-- ===== src/Mcp/Observed.antt =====
-- kernel/mcp_runtime.py: the report on what a probe has observed, without the processes themselves.
pub mod Tolerated
use context_control_plane.Base.{
  String, ◌<>◌, Bool, true, false, not, ◌&&◌, ◌||◌, Option, none, some, List, [], ◌∷◌, ◌++◌, ◌==◌,
  contains, eqb, if◌then◌else◌,
}
use context_control_plane.Python.Error.{Result, ok, err, type_error, ◌>>=◌}
use context_control_plane.Python.Text.{strip, lower, is_empty, repr}
use context_control_plane.Python.Value.{
  ℤ, pos, negsuc, show, Value, null, bool, num, str, arr, obj, Items, nil, cons, Fields, end, field,
  get_or, text_or,
}
use context_control_plane.Packs.{stripped_texts}
use context_control_plane.Mcp.Profile.{McpServerProfile, McpPolicyProfile}
use context_control_plane.Mcp.Tested.{ObservedReport}
use context_control_plane.Mcp.Proxy.Authority.{rsplit, ends_with}
use context_control_plane.Mcp.Proxy.Server.{Destinations}

unfoldable pub characters : String → Items
characters String.[] = nil
characters (String.◌∷◌ c s) = cons (str (String.◌∷◌ c String.[])) (characters s)

unfoldable pub keys : Fields → Items
keys end = nil
keys (field k v fs) = cons (str k) (keys fs)

-- The items that a `for` over a value goes through.
unfoldable pub iterated : Value → Result Items
unfolding characters keys
iterated (arr vs) = ok vs
iterated (str s) = ok (characters s)
iterated (obj fs) = ok (keys fs)
iterated null = err (type_error "'NoneType' object is not iterable")
iterated (bool b) = err (type_error "'bool' object is not iterable")
iterated (num n) = err (type_error "'int' object is not iterable")

-- `s.rsplit(":", 1)[0]`
unfoldable pub host_part : String → String
host_part s = (rsplit s).before

-- `_destination_matches_allowlist`
unfoldable pub destination_matches_allowlist : String → String → Bool
destination_matches_allowlist destination candidate =
    let destination_value = strip destination in
    let candidate_value = strip candidate in
    if is_empty destination_value || is_empty candidate_value
    then false
    else destination_value == candidate_value
      || (host_part destination_value == host_part candidate_value
          || ends_with (host_part destination_value) ("." <> host_part candidate_value))

-- `any(… for candidate in allowed)`
unfoldable pub is_covered : List String → String → Bool
is_covered [] destination = false
is_covered (c ∷ cs) destination =
    let rest = is_covered cs destination in
    if destination_matches_allowlist destination c then true else rest

-- `_evaluate_egress`, its mode
unfoldable pub evaluated_mode : McpPolicyProfile → String
evaluated_mode p =
    lower (strip (text_or (get_or p.egress_policy "mode" (str "unspecified")) "unspecified"))

unfoldable pub each_message : String → String → List String → List String
each_message before after [] = []
each_message before after (d ∷ ds) = (before <> d <> after) ∷ each_message before after ds

unfoldable pub uncovered_messages : List String → List String → List String
uncovered_messages allowed [] = []
uncovered_messages allowed (d ∷ ds) =
    let rest = uncovered_messages allowed ds in
    if not (is_covered allowed d)
    then ("observed outbound destination " <> d <> " is not covered by the egress allowlist") ∷ rest
    else rest

unfoldable pub violations_of : String → List String → List String → List String
violations_of mode allowed destinations =
    if mode == "deny"
    then each_message "observed outbound destination " " while egress mode is deny" destinations
    else if mode == "allowlist"
    then uncovered_messages allowed destinations
    else []

-- `_evaluate_egress`
unfoldable pub evaluate_egress : List String → Option McpPolicyProfile → Result (List String)
evaluate_egress [] policy = ok []
evaluate_egress (d ∷ ds) none =
    ok (each_message "observed outbound destination " " without an attached McpPolicy" (d ∷ ds))
evaluate_egress (d ∷ ds) (some p) = do
  items ← iterated (get_or p.egress_policy "allow" (arr nil))
  ok (violations_of (evaluated_mode p) (stripped_texts items) (d ∷ ds))

unfoldable pub unique_loop : List String → List String → List String
unique_loop ordered [] = ordered
unique_loop ordered (v ∷ vs) =
    unique_loop (if contains ordered v then ordered else ordered ++ (v ∷ [])) vs

-- `_unique_preserve_order`: the values seen are those that are ordered.
unfoldable pub unique_preserve_order : List String → List String
unfolding unique_loop
unique_preserve_order values = unique_loop [] values

-- What `_build_runtime_sandbox_plan` gives beside the proxy and the command line.
pub record SandboxPlan : Type 0 where
  pub mode : String
  pub sandbox_applied : Fields
  pub warnings : List String

-- What has been seen of a process when it is stopped.
pub record Observation : Type 0 where
  -- `process.poll()`
  pub exit_status : Option ℤ
  -- `_collect_network_destinations` and `_collect_filesystem_paths`
  pub connections : List String
  pub paths : List String
  -- `proxy.snapshot()`, where there is a proxy
  pub proxied : Option Destinations
  pub lsof_available : Bool

-- How `subprocess.Popen` ends.
pub data Launch : Type 0 where
  not_found : Launch
  os_error : String → Launch
  launched : Observation → Launch

unfoldable pub seen_destinations : Observation → List String
seen_destinations o = elim o.proxied [
  | none ↦ o.connections
  | some d ↦ unique_preserve_order (d.requested ++ o.connections)
]

unfoldable pub proxy_violations : Option Destinations → List String
proxy_violations none = []
proxy_violations (some d) = each_message "proxy blocked outbound destination " "" d.blocked

unfoldable pub is_zero : ℤ → Bool
is_zero (pos n) = eqb n 0
is_zero (negsuc n) = false

pub record Ending : Type 0 where
  pub status : String
  pub reason : String
  pub startup_success : Bool
  pub warnings : List String

-- The branches on `poll_result`.
unfoldable pub ending_of : Option ℤ → Ending
ending_of none = record {
  status = "running";
  reason = "MCP process started and remained alive during the observation window";
  startup_success = true;
  warnings = [];
}
ending_of (some n) =
    if is_zero n
    then record {
      status = "exited_cleanly";
      reason = "MCP process started and exited cleanly during the observation window";
      startup_success = true;
      warnings = "MCP process exited during the short observation window." ∷ [];
    }
    else record {
      status = "exited_with_error";
      reason = "MCP process exited with status " <> show n <> " during the observation window";
      startup_success = false;
      warnings = "Review the MCP command because it exited before the probe completed." ∷ [];
    }

unfoldable pub lsof_warnings : Bool → List String
lsof_warnings true = []
lsof_warnings false =
    "lsof was not available, so filesystem and network observation is limited." ∷ []

-- The report without anything observed.
unfoldable pub blank_report : String → Bool → Bool → String → String → Fields → ObservedReport
blank_report mode attempted startup_success status reason sandbox_applied = record {
  mode = mode;
  attempted = attempted;
  startup_success = startup_success;
  status = status;
  reason = reason;
  sandbox_applied = sandbox_applied;
  network_destinations = [];
  filesystem_paths = [];
  egress_violations = [];
  warnings = [];
}

-- The report on a process that has started.
unfoldable pub process_report :
    Option McpPolicyProfile → SandboxPlan → Observation → Result ObservedReport
process_report policy plan o = do
  violations ← evaluate_egress (seen_destinations o) policy
  ok (record {
    mode = plan.mode;
    attempted = true;
    startup_success = (ending_of o.exit_status).startup_success;
    status = (ending_of o.exit_status).status;
    reason = (ending_of o.exit_status).reason;
    sandbox_applied = plan.sandbox_applied;
    network_destinations = seen_destinations o;
    filesystem_paths = o.paths;
    egress_violations = violations ++ proxy_violations o.proxied;
    warnings =
        (ending_of o.exit_status).warnings ++ (plan.warnings ++ lsof_warnings o.lsof_available);
  })

unfoldable pub launch_report :
    McpServerProfile → Option McpPolicyProfile → SandboxPlan → Launch → Result ObservedReport
launch_report server policy plan not_found = ok (
    blank_report "process-probe" true false "missing_executable"
      ("stdio MCP command " <> repr server.command <> " is not available on PATH")
      plan.sandbox_applied)
launch_report server policy plan (os_error e) = ok (
    blank_report "process-probe" true false "failed_to_start" ("unable to start MCP process: " <> e)
      plan.sandbox_applied)
launch_report server policy plan (launched o) = process_report policy plan o

-- `observe_mcp_runtime`, given the plan of its sandbox and what becomes of the process.
unfoldable pub observe_mcp_runtime :
    McpServerProfile → Option McpPolicyProfile → SandboxPlan → Launch → Result ObservedReport
unfolding launch_report
observe_mcp_runtime server policy plan launch =
    if not server.enabled
    then ok (blank_report "config-only" false false "disabled" "MCP server is disabled" end)
    else if not (server.transport == "stdio")
    then ok (
        blank_report "static-endpoint" false true "not-applicable"
          "HTTP MCPs do not have a local process to probe" end)
    else launch_report server policy plan launch
