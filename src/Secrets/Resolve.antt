-- ===== src/Secrets/Resolve.antt =====
-- kernel/secrets.py: how a connection finds its backend.
use context_control_plane.Base.{
  String, ◌<>◌, Bool, true, false, Option, none, some, List, if◌then◌else◌,
}
use context_control_plane.Python.Error.{Result, ok, err, secret_error, ◌>>=◌}
use context_control_plane.Python.Text.{strip, or_else, is_empty, repr}
use context_control_plane.Python.Value.{
  ℤ, pos, Value, bool, str, obj, Fields, end, is_blank, truthy, text_or, get_or, get,
}
use context_control_plane.Resource.{ResourceDocument, ResourceRegistry, source_of}
use context_control_plane.Secrets.Backend.{
  backend_type_text, MaterializationDelivery, mapping, parse_backend_type, parse_durability,
  SecretBackendProfile, from_document, local_persistent, ephemeral_handle,
}

pub record MaterializationPolicy : Type 0 where
  pub delivery : MaterializationDelivery
  pub ttl_seconds : ℤ
  pub cleanup_on_exit : Bool
  pub cleanup_on_read : Bool

-- `MaterializationPolicy()`
abbrev pub default_materialization : MaterializationPolicy
default_materialization = record {
  delivery = ephemeral_handle;
  ttl_seconds = pos 300;
  cleanup_on_exit = true;
  cleanup_on_read = false;
}

-- The fields of `allow_fields` of a `ResponseAllowlistPolicy` stand for the policy.
pub record ConnectionSecretControls : Type 0 where
  pub backend : SecretBackendProfile
  pub allow_fields : List String
  pub materialization : MaterializationPolicy
  pub secret_refs : List String

-- `_default_backend`
unfoldable pub default_backend : String → SecretBackendProfile
default_backend namespace = record {
  name = "local-secure-store";
  namespace = namespace;
  backend_type = "os-keychain";
  durability = local_persistent;
  provider = "platform-default";
  managed = false;
  config = end;
  source = "implicit-default";
}

-- The profile that `spec.secretBackend` writes out.
unfoldable pub inline_backend : ResourceDocument → Fields → Result SecretBackendProfile
inline_backend document inline = do
  let own = document.identifier.namespace
  durability ← parse_durability (get inline "durability")
  config ← mapping (get inline "config") "secretBackend.config"
  ok (record {
    name = strip (text_or (get_or inline "name" (str "inline-backend")) "inline-backend");
    namespace = or_else (strip (text_or (get_or inline "namespace" (str own)) own)) own;
    backend_type = backend_type_text (parse_backend_type (get inline "type"));
    durability = durability;
    provider = strip (text_or (get_or inline "provider" (str "")) "");
    managed = truthy (get_or inline "managed" (bool false));
    config = config;
    source = source_of document;
  })

-- Name and namespace of a `secretBackendRef`.
unfoldable pub backend_ref : ResourceDocument → Value → Result (String × String)
backend_ref document (str s) = ok (strip s, document.identifier.namespace)
backend_ref document raw = do
  let own = document.identifier.namespace
  ref ← mapping raw "secretBackendRef"
  ok (
    strip (text_or (get_or ref "name" (str "")) ""),
    strip (text_or (get_or ref "namespace" (str own)) own),
  )

found_backend : String → String → Option ResourceDocument → Result SecretBackendProfile
unfolding from_document
found_backend name namespace none = err (
    secret_error
      ("SecretBackend " <> repr name <> " was not found in namespace " <> repr namespace))
found_backend name namespace (some document) = from_document document

lookup_backend : ResourceDocument → Value → Option ResourceRegistry → Result SecretBackendProfile
unfolding found_backend backend_ref
lookup_backend document raw none =
    err (secret_error "secretBackendRef requires a registry with SecretBackend resources")
lookup_backend document raw (some registry) = do
  (name, namespace) ← backend_ref document raw
  if is_empty name then err (secret_error "secretBackendRef requires a backend name") else do
    found ← registry.get_resource "SecretBackend" name namespace
    found_backend name namespace found

-- `_resolve_backend_ref`
unfoldable pub resolve_backend_ref :
    ResourceDocument → Option ResourceRegistry → Result SecretBackendProfile
unfolding lookup_backend inline_backend
resolve_backend_ref document registry =
    let raw = get document.spec "secretBackendRef" in
    if is_blank raw
    then (do
      inline ← mapping (get document.spec "secretBackend") "secretBackend"
      if truthy (obj inline)
          then inline_backend document inline
          else ok (default_backend document.identifier.namespace))
    else lookup_backend document raw registry
