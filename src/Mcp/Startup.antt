-- ===== src/Mcp/Startup.antt =====
-- kernel/mcp.py: what a server and its policy ask for.
use context_control_plane.Base.{
  String, ◌<>◌, Bool, true, false, not, ◌&&◌, ◌||◌, Option, none, some, List, [], ◌∷◌, ◌++◌, ◌==◌,
  contains, if◌then◌else◌,
}
use context_control_plane.Python.Error.{Result, ok, ◌>>=◌}
use context_control_plane.Python.Text.{is_empty, or_else, repr}
use context_control_plane.Python.Value.{
  bool, str, arr, nil, Fields, dict, texts, get, get_or, truthy,
}
use context_control_plane.Mcp.Profile.{
  mcp_string_list, mcp_mapping, McpServerProfile, McpPolicyProfile, is_http,
}

-- The parts of `urllib.parse.urlparse` that are used.
pub record ParsedUrl : Type 0 where
  pub scheme : String
  pub netloc : String

-- What the report asks of the machine and of `urllib`.
pub record Host : Type 0 where
  -- `shutil.which(command)`
  pub which : String → Option String
  -- `str(Path(command)) if Path(command).exists() else ""`
  pub existing_path : String → String
  -- `urlparse(url)`, which raises for some addresses in brackets
  pub urlparse : String → Result ParsedUrl

-- What `_build_startup_report` returns.
pub record Startup : Type 0 where
  pub success : Bool
  pub status : String
  pub reason : String
  pub executable : String

unfoldable pub startup_to_dict : Startup → Fields
startup_to_dict s = dict (
    ("success", bool s.success)
    ∷ ("status", str s.status)
    ∷ ("mode", str "config-only")
    ∷ ("reason", str s.reason)
    ∷ ("executable", str s.executable)
    ∷ [])

unfoldable pub executable_of : Host → String → String
executable_of host command = elim (host.which command) [
  | none ↦ host.existing_path command
  | some path ↦ or_else path (host.existing_path command)
]

unfoldable pub stdio_startup : String → String → Startup
stdio_startup command executable =
    if is_empty executable
    then record {
      success = false;
      status = "missing_executable";
      reason = "stdio MCP command " <> repr command <> " is not available on PATH";
      executable = "";
    }
    else record {
      success = true;
      status = "ready";
      reason = "stdio MCP command resolved successfully";
      executable = executable;
    }

unfoldable pub http_startup : String → ParsedUrl → Startup
http_startup url parsed =
    if not (is_http parsed.scheme) || is_empty parsed.netloc
    then record {
      success = false;
      status = "invalid_url";
      reason = "MCP endpoint URL " <> repr url <> " is invalid";
      executable = "";
    }
    else record {
      success = true;
      status = "ready";
      reason = "HTTP MCP endpoint is syntactically valid";
      executable = "";
    }

-- `_build_startup_report`
unfoldable pub build_startup_report : Host → McpServerProfile → Result Startup
build_startup_report host server =
    if not server.enabled
    then ok (record {
      success = false;
      status = "disabled";
      reason = "MCP server is disabled";
      executable = "";
    })
    else if server.transport == "stdio"
    then ok (stdio_startup server.command (executable_of host server.command))
    else host.urlparse server.url >>= λ parsed. ok (http_startup server.url parsed)

-- `_filesystem_access_requested`
unfoldable pub filesystem_access_requested : Option McpPolicyProfile → Result Fields
filesystem_access_requested none =
    ok (dict (("read", arr nil) ∷ ("write", arr nil) ∷ ("allowTmp", bool false) ∷ []))
filesystem_access_requested (some policy) = do
  filesystem ← mcp_mapping (get policy.sandbox_profile "filesystem") "sandbox_profile.filesystem"
  read ← mcp_string_list (get filesystem "read")
  write ← mcp_string_list (get filesystem "write")
  ok (
      dict (
        ("read", arr (texts read))
        ∷ ("write", arr (texts write))
        ∷ ("allowTmp", bool (truthy (get_or filesystem "allowTmp" (bool false))))
        ∷ []))

-- The host of the endpoint, where the URL has one.
unfoldable pub url_destinations : Host → String → Result (List String)
url_destinations host url = do
  parsed ← host.urlparse url
  ok (if is_empty parsed.netloc then [] else parsed.netloc ∷ [])

-- The first part of `_network_destinations_requested`.
unfoldable pub endpoint_destinations : Host → McpServerProfile → Result (List String)
endpoint_destinations host server =
    if is_http server.transport && not (is_empty server.url)
    then url_destinations host server.url
    else ok []

unfoldable pub append_new : List String → List String → List String
append_new destinations [] = destinations
append_new destinations (item ∷ rest) =
    append_new (if contains destinations item then destinations else destinations ++ (item ∷ []))
      rest

-- `_network_destinations_requested`
unfoldable pub network_destinations_requested :
    Host → McpServerProfile → Option McpPolicyProfile → Result (List String)
network_destinations_requested host server none = endpoint_destinations host server
network_destinations_requested host server (some policy) = do
  destinations ← endpoint_destinations host server
  allow ← mcp_string_list (get policy.egress_policy "allow")
  ok (append_new destinations allow)
