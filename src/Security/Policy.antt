-- ===== src/Security/Policy.antt =====
-- kernel/security.py: the gateway policy of a connection, and the tests on a request.
use context_control_plane.Base.{
  String, ◌<>◌, Bool, true, false, not, ◌&&◌, ◌||◌, Option, none, some, List, [], ◌∷◌, ◌++◌, ◌==◌,
  contains, ltb, if◌then◌else◌,
}
use context_control_plane.Python.Error.{Result, ok, err, value_error, ◌>>=◌}
use context_control_plane.Python.Text.{strip, is_empty, repr}
use context_control_plane.Python.Value.{
  ℤ, pos, negsuc, Value, str, obj, is_blank, text_or, get_or, get,
}
use context_control_plane.Resource.{ResourceDocument, ResourceRegistry}
use context_control_plane.Gateway.Profile.{GatewayPolicyProfile}
use context_control_plane.Gateway.Profile
use context_control_plane.Secrets.Resolve.{ConnectionSecretControls}
use context_control_plane.Secrets.Backend.{SecretDurability, ephemeral}
use context_control_plane.Security.Profile.{
  public, confidential, restricted, DataClassification, ConnectionMode, mode_text, AccessLevel,
  access_text, SecretHandlingPolicy, ApprovalPolicy, materialize, reveal, read,
}

-- The one policy of a namespace, where the connection names none.
only_policy : List ResourceDocument → Result (Option GatewayPolicyProfile)
only_policy [] = ok none
only_policy (d ∷ []) = do profile ← Profile.from_document d; ok (some profile)
only_policy (d ∷ e ∷ rest) = err (
    value_error
      "multiple GatewayPolicy resources are available; set spec.gatewayPolicyRef on the ConnectionProfile")

policy_ref : ResourceDocument → Value → Result (String × String)
policy_ref document (str s) = ok (strip s, document.identifier.namespace)
policy_ref document (obj ref) =
    let own = document.identifier.namespace in
    ok (
      strip (text_or (get_or ref "name" (str "")) ""),
      strip (text_or (get_or ref "namespace" (str own)) own),
    )
policy_ref document _ =
    err (
      value_error
        "ConnectionProfile spec.gatewayPolicyRef must be a string or object when provided")

found_policy : String → String → Option ResourceDocument → Result (Option GatewayPolicyProfile)
found_policy name namespace none = err (
    value_error ("GatewayPolicy " <> repr name <> " was not found in namespace " <> repr namespace))
found_policy name namespace (some d) = do profile ← Profile.from_document d; ok (some profile)

-- `_resolve_gateway_policy`
unfoldable pub resolve_gateway_policy :
    ResourceDocument → Option ResourceRegistry → Result (Option GatewayPolicyProfile)
unfolding only_policy policy_ref found_policy
resolve_gateway_policy document none = ok none
resolve_gateway_policy document (some registry) =
    let raw = get document.spec "gatewayPolicyRef" in
    if is_blank raw
    then (do
      candidates ← registry.list_resources "GatewayPolicy" document.identifier.namespace
      only_policy candidates)
    else do
      (name, namespace) ← policy_ref document raw
      if is_empty name
          then err (value_error "ConnectionProfile spec.gatewayPolicyRef requires a policy name")
          else do
            found ← registry.get_resource "GatewayPolicy" name namespace
            found_policy name namespace found

-- The three tests of a profile and a request, in order: the reason of the first that fails.
unfoldable pub denial_reason :
    AccessLevel → ConnectionMode → List String → List String → SecretHandlingPolicy → Option String
denial_reason access mode allowed_access allowed_modes handling =
    if not (contains allowed_access (access_text access))
    then some (
        "access level "
        <> repr (access_text access)
        <> " is not permitted by this connection profile")
    else if not (contains allowed_modes (mode_text mode))
    then some ("connection mode " <> repr (mode_text mode) <> " is not enabled for this profile")
    else elim mode [
      | reveal ↦
          if handling.allow_raw_secret_reveal
          then none
          else some "raw secret reveal is disabled for this connection profile"
      | _ ↦ none
    ]

-- `classification in {CONFIDENTIAL, RESTRICTED}`
unfoldable pub is_guarded : DataClassification → Bool
is_guarded confidential = true
is_guarded restricted = true
is_guarded _ = false

-- `classification in {INTERNAL, CONFIDENTIAL, RESTRICTED}`
unfoldable pub is_private : DataClassification → Bool
is_private public = false
is_private _ = true

unfoldable pub is_mutating : AccessLevel → Bool
is_mutating read = false
is_mutating _ = true

unfoldable pub is_materialize : ConnectionMode → Bool
is_materialize materialize = true
is_materialize _ = false

unfoldable pub is_reveal : ConnectionMode → Bool
is_reveal reveal = true
is_reveal _ = false

-- The five tests that set `approval_required`.
unfoldable pub needs_approval :
    AccessLevel → ConnectionMode → DataClassification → ApprovalPolicy → Bool
unfolding is_guarded is_private is_mutating is_materialize is_reveal
needs_approval access mode classification policy =
    contains policy.required_for_access (access_text access)
    || contains policy.required_for_modes (mode_text mode)
    || (is_materialize mode && is_guarded classification)
    || is_reveal mode
    || (is_mutating access && is_private classification)

-- `ttl_seconds > 900`
long_ttl : ℤ → Bool
long_ttl (pos n) = ltb 900 n
long_ttl (negsuc n) = false

is_ephemeral : SecretDurability → Bool
is_ephemeral ephemeral = true
is_ephemeral _ = false

warn : Bool → String → List String
warn test warning = if test then warning ∷ [] else []

-- The warnings of a request that is allowed; the last test reads the mode as it was asked for.
unfoldable pub profile_warnings :
    ConnectionMode → String → SecretHandlingPolicy → ConnectionSecretControls → List String
unfolding long_ttl is_ephemeral warn is_reveal
profile_warnings mode requested_mode handling controls =
    warn (is_reveal mode) "raw secret reveal should stay exceptional and short-lived"
    ++ (warn (not handling.brokered)
          "connection is not brokered; review downstream secret handling carefully"
        ++ (warn (is_ephemeral controls.backend.durability)
              "secret backend is ephemeral; credentials may disappear when the backing service stops"
            ++ warn
                (requested_mode == "materialize" && long_ttl controls.materialization.ttl_seconds)
                "materialization TTL is long; keep short-lived delivery where possible"))
