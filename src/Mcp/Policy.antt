-- ===== src/Mcp/Policy.antt =====
-- kernel/mcp.py: the policy of a server.
pub mod Resolved
use context_control_plane.Base.{
  String, Bool, true, false, Option, none, some, List, [], ◌∷◌, ◌++◌, ◌==◌, if◌then◌else◌,
}
use context_control_plane.Python.Error.{Result, ok, ◌>>=◌}
use context_control_plane.Resource.{ResourceDocument, ResourceRegistry}
use context_control_plane.Mcp.Profile.{
  McpServerProfile, McpPolicyProfile, policy_from_document, targets_server,
}

-- The loop of `resolve_mcp_policy`.
unfoldable pub candidates_of : String → List ResourceDocument → Result (List McpPolicyProfile)
candidates_of server_name [] = ok []
candidates_of server_name (d ∷ ds) = do
  profile ← policy_from_document d
  rest ← candidates_of server_name ds
  ok (if targets_server profile server_name then profile ∷ rest else rest)

-- `[item for item in candidates if item.name == server.name]`
unfoldable pub exact_of : String → List McpPolicyProfile → List McpPolicyProfile
exact_of server_name [] = []
exact_of server_name (p ∷ ps) =
    let rest = exact_of server_name ps in if p.name == server_name then p ∷ rest else rest

pub record ResolvedPolicy : Type 0 where
  pub policy : Option McpPolicyProfile
  pub warnings : List String

-- The returns of `resolve_mcp_policy` without an exact policy.
unfoldable pub choose_candidate : List McpPolicyProfile → ResolvedPolicy
choose_candidate [] = record {
  policy = none;
  warnings = "no McpPolicy is attached; defaulting this MCP to quarantined trust" ∷ [];
}
choose_candidate (p ∷ []) = record { policy = some p; warnings = [] }
choose_candidate (p ∷ q ∷ ps) = record {
  policy = some p;
  warnings =
      "multiple McpPolicy resources target this MCP; attach one explicit policy per server" ∷ [];
}

-- The returns of `resolve_mcp_policy`, by the exact policies and the candidates.
unfoldable pub choose : List McpPolicyProfile → List McpPolicyProfile → ResolvedPolicy
choose [] candidates = choose_candidate candidates
choose (p ∷ []) candidates = record { policy = some p; warnings = [] }
choose (p ∷ q ∷ ps) candidates = record {
  policy = some p;
  warnings =
      "multiple McpPolicy resources exactly matched this MCP; using the first merged policy" ∷ [];
}

-- `resolve_mcp_policy`
unfoldable pub resolve_mcp_policy : McpServerProfile → ResourceRegistry → Result ResolvedPolicy
resolve_mcp_policy server registry = do
  documents ← registry.list_resources "McpPolicy" server.namespace
  candidates ← candidates_of server.name documents
  ok (choose (exact_of server.name candidates) candidates)
