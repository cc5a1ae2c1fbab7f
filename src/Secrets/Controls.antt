-- ===== src/Secrets/Controls.antt =====
-- kernel/secrets.py: the secret controls of a connection, and the leases issued for it.
use context_control_plane.Python.Runtime.{Runtime, replace}
use context_control_plane.Redaction.{sanitize_secret_fields}
use context_control_plane.Base.{
  ◌-◌, ◌/◌, ℕ, zero, suc, ◌+◌, String, ◌<>◌, Bool, true, false, not, Option, List, [], ◌∷◌, ◌==◌,
  if◌then◌else◌,
}
use context_control_plane.Python.Error.{Result, ok, err, secret_error, ◌>>=◌}
use context_control_plane.Python.Text.{decimal, repr}
use context_control_plane.Python.Value.{
  ℤ, pos, negsuc, bool, num, str, obj, Fields, end, field, is_blank, truthy, int, get_or, get,
}
use context_control_plane.Resource.{ResourceDocument, ResourceRegistry}
use context_control_plane.Secrets.Backend.{
  durability_text, delivery_text, string_list, normalize_secret_ref, mapping, parse_delivery,
  SecretBackendProfile,
}
use context_control_plane.Secrets.Resolve.{
  MaterializationPolicy, default_materialization, ConnectionSecretControls, resolve_backend_ref,
}

-- `_resolve_response_allowlist`, over the names that it tries.
unfoldable pub response_allowlist : Fields → List String → Result (List String)
response_allowlist spec [] = ok []
response_allowlist spec (name ∷ names) =
    let raw = get spec name in
    if is_blank raw
    then response_allowlist spec names
    else do value ← mapping raw name; string_list (get value "allowFields")

abbrev pub allowlist_names : List String
allowlist_names = "outputPolicy" ∷ "responsePolicy" ∷ "responseAllowlist" ∷ []

-- `ttl_seconds <= 0`
unfoldable pub not_positive : ℤ → Bool
not_positive (pos zero) = true
not_positive (pos (suc n)) = false
not_positive (negsuc n) = true

-- `_resolve_materialization_policy`
unfoldable pub resolve_materialization_policy : ResourceDocument → Result MaterializationPolicy
unfolding not_positive
resolve_materialization_policy document = do
  raw ← mapping (get document.spec "materialization") "materialization"
  if not (truthy (obj raw)) then ok default_materialization else do
    let ttl = get_or raw "ttlSeconds" (num (pos 300))
    ttl_seconds ← int (if truthy ttl then ttl else num (pos 300))
    if not_positive ttl_seconds
        then err (secret_error "materialization ttlSeconds must be positive")
        else do
          delivery ← parse_delivery (get raw "delivery")
          ok (record {
            delivery = delivery;
            ttl_seconds = ttl_seconds;
            cleanup_on_exit = truthy (get_or raw "cleanupOnExit" (bool true));
            cleanup_on_read = truthy (get_or raw "cleanupOnRead" (bool false));
          })

-- The loop over `enumerate(...)` of the references.
unfoldable pub normalize_refs : ℕ → List String → Result (List String)
normalize_refs index [] = ok []
normalize_refs index (ref ∷ refs) = do
  name ← normalize_secret_ref (str ref) ("secretRefs[" <> decimal index <> "]")
  rest ← normalize_refs (index + 1) refs
  ok (name ∷ rest)

-- `resolve_connection_secret_controls`
unfoldable pub resolve_connection_secret_controls :
    ResourceDocument → Option ResourceRegistry → Result ConnectionSecretControls
resolve_connection_secret_controls document registry =
    if not (document.identifier.kind == "ConnectionProfile")
    then err (
        secret_error
          ("resource " <> repr document.identifier.name <> " is not a ConnectionProfile"))
    else do
      let plain = get document.spec "secret_refs"
      raw ← string_list (if truthy plain then plain else get document.spec "secretRefs")
      secret_refs ← normalize_refs 0 raw
      backend ← resolve_backend_ref document registry
      allow_fields ← response_allowlist document.spec allowlist_names
      materialization ← resolve_materialization_policy document
      ok (record {
        backend = backend;
        allow_fields = allow_fields;
        materialization = materialization;
        secret_refs = secret_refs;
      })

pub record MaterializationLease : Type 0 where
  pub lease_id : String
  pub issued_at : String
  pub expires_at : String
  pub delivery : String
  pub backend_name : String
  pub backend_namespace : String
  pub cleanup_on_exit : Bool
  pub cleanup_on_read : Bool

-- `issued_at + timedelta(seconds=ttl)`, in seconds
unfoldable pub after_seconds : ℕ → ℤ → ℕ
after_seconds t (pos n) = t + n
after_seconds t (negsuc n) = t - suc n

-- `issue_materialization_lease`
unfoldable pub issue_materialization_lease :
    Runtime → SecretBackendProfile → MaterializationPolicy → MaterializationLease
unfolding after_seconds
issue_materialization_lease rt backend policy =
    let issued = rt.now / 1000000 in
    record {
      lease_id = "mtl_" <> rt.uuid_hex 0;
      issued_at = replace "+00:00" "Z" (rt.isoformat issued);
      expires_at = replace "+00:00" "Z" (rt.isoformat (after_seconds issued policy.ttl_seconds));
      delivery = delivery_text policy.delivery;
      backend_name = backend.name;
      backend_namespace = backend.namespace;
      cleanup_on_exit = policy.cleanup_on_exit;
      cleanup_on_read = policy.cleanup_on_read;
    }

-- `SecretBackendProfile.to_dict`
unfoldable pub backend_to_dict : SecretBackendProfile → Fields
backend_to_dict b = field "name" (str b.name) (
    field "namespace" (str b.namespace) (
      field "type" (str b.backend_type) (
        field "durability" (str (durability_text b.durability)) (
          field "provider" (str b.provider) (
            field "managed" (bool b.managed) (
              field "config" (obj (sanitize_secret_fields b.config))
                (field "source" (str b.source) end)))))))

-- `MaterializationPolicy.to_dict`
unfoldable pub materialization_to_dict : MaterializationPolicy → Fields
materialization_to_dict m = field "delivery" (str (delivery_text m.delivery)) (
    field "ttlSeconds" (num m.ttl_seconds) (
      field "cleanupOnExit" (bool m.cleanup_on_exit)
        (field "cleanupOnRead" (bool m.cleanup_on_read) end)))
