-- ===== src/Secrets/Output.antt =====
-- kernel/secrets.py: secret controls and leases as they are written.
use context_control_plane.Base.{[], ◌∷◌}
use context_control_plane.Python.Value.{bool, str, arr, obj, Fields, dict, texts}
use context_control_plane.Secrets.Resolve.{ConnectionSecretControls}
use context_control_plane.Secrets.Controls.{
  MaterializationLease, backend_to_dict, materialization_to_dict,
}

-- `MaterializationLease.to_dict`
unfoldable pub lease_to_dict : MaterializationLease → Fields
lease_to_dict l = dict (
    ("leaseId", str l.lease_id)
    ∷ ("issuedAt", str l.issued_at)
    ∷ ("expiresAt", str l.expires_at)
    ∷ ("delivery", str l.delivery)
    ∷ (
      "backend",
      obj (dict (("name", str l.backend_name) ∷ ("namespace", str l.backend_namespace) ∷ [])),
    )
    ∷ ("cleanupOnExit", bool l.cleanup_on_exit)
    ∷ ("cleanupOnRead", bool l.cleanup_on_read)
    ∷ [])

-- `ConnectionSecretControls.to_dict`, with `ResponseAllowlistPolicy.to_dict`.
unfoldable pub controls_to_dict : ConnectionSecretControls → Fields
controls_to_dict c = dict (
    ("backend", obj (backend_to_dict c.backend))
    ∷ ("responseAllowlist", obj (dict (("allowFields", arr (texts c.allow_fields)) ∷ [])))
    ∷ ("materialization", obj (materialization_to_dict c.materialization))
    ∷ ("secretRefs", arr (texts c.secret_refs))
    ∷ [])
