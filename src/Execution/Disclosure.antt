-- ===== src/Execution/Disclosure.antt =====
-- kernel/execution.py: what a plan and its decision disclose of the secret backend.
use context_control_plane.Base.{String, ◌≡◌, refl, Option, none, some}
use context_control_plane.Python.Value.{Value, obj, Fields, find}
use context_control_plane.Python.Runtime.{Runtime}
use context_control_plane.Resource.{ResourceDocument}
use context_control_plane.Redaction.{
  is_sensitive_key, looks_like_secret_value, sanitize_secret_fields,
}
use context_control_plane.Redaction.Clean.{IsCleanFields, sanitize_secret_fields-IsClean}
use context_control_plane.Secrets.Backend.{SecretBackendProfile}
use context_control_plane.Secrets.Controls.{backend_to_dict}
use context_control_plane.Secrets.Output.{controls_to_dict}
use context_control_plane.Security.Profile.{ConnectionSafetyDecision}
use context_control_plane.Security.Output.{safety_to_dict}
use context_control_plane.Approvals.{ApprovalReceiptRecord}
use context_control_plane.Execution.Governed.{execution_plan, ready}
use context_control_plane.Execution.Output.{plan_to_dict, governed_to_dict}

-- The value is a backend whose settings are clean.
pub record IsPublicBackend (v : Option Value) : Type 0 where
  pub backend : Fields
  pub is_backend : v ≡ some (obj backend)
  pub config : Fields
  pub has_config : find backend "config" ≡ some (obj config)
  pub clean : IsCleanFields is_sensitive_key looks_like_secret_value config

-- The object under a key of an object.
abbrev pub within : Option Value → String → Option Value
within (some (obj fs)) key = find fs key
within v key = none

backend_to_dict-IsPublicBackend :
    (b : SecretBackendProfile) → IsPublicBackend (some (obj (backend_to_dict b)))
unfolding backend_to_dict find
backend_to_dict-IsPublicBackend b = record {
  backend = backend_to_dict b;
  is_backend = refl;
  config = sanitize_secret_fields b.config;
  has_config = refl;
  clean = sanitize_secret_fields-IsClean b.config;
}

-- The written answer to an execution that is planned shows the secret backend twice, in the plan and in
-- the connection's secret controls. Both times its settings are clean: no field of a sensitive name
-- keeps its value, and no text that looks like a secret is left.
pub governed_to_dict-IsPublicBackend :
    (rt : Runtime) (d : ConnectionSafetyDecision) (operation : String)
    (receipt : Option ApprovalReceiptRecord) (document : Option ResourceDocument)
    → let written = some (obj (governed_to_dict (ready rt d operation receipt document))) in
      IsPublicBackend (within (within written "plan") "secretBackend")
      × IsPublicBackend (within (within (within written "connection") "secretControls") "backend")
unfolding governed_to_dict plan_to_dict ready execution_plan safety_to_dict controls_to_dict find
governed_to_dict-IsPublicBackend rt d operation receipt document =
    let public = backend_to_dict-IsPublicBackend d.secret_controls.backend in (public, public)
