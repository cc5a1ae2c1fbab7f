-- ===== src/Mcp/Manage/Added.antt =====
-- kernel/mcp.py: what is added can be loaded.
use context_control_plane.Base.{
  String, ◌≡◌, refl, ap, sym, ◌∙◌, inl, inr, Bool, true, false, none, some, List, [], ◌∷◌, contains,
  ◌==◌, eq_iff, eq_refl, ◌<>◌, Option-cases, false≢true, arith, if◌then◌else◌, ◌||◌,
}
use context_control_plane.Python.Error.{Error, mcp_error, ok, err, ◌>>=◌, >>=-eq-ok, ok_injective}
use context_control_plane.Python.Text.{strip, is_empty, repr}
use context_control_plane.Python.Value.{obj, Fields}
use context_control_plane.Resource.{ResourceDocument}
use context_control_plane.Packs.Written.{IsItem}
use context_control_plane.Registry.Loaders.{build_resource_document}
use context_control_plane.Mcp.Profile.{
  trust_tiers, secret_usage_modes, one_of, policy_from_document, targets_server,
}
use context_control_plane.Mcp.Startup.{Host}
use context_control_plane.Mcp.Manage.{
  NewServer, addable_egress_modes, payload_of, policy_spec, server_spec, build_payloads, Payloads,
  default_allow, transport_fields, Stored, stored_at, write_payload, is_stored, add_mcp_resources,
}
use context_control_plane.Mcp.Manage.Loaded.{
  one_of_accepted, payload-built, policy-read, added_document, added_policy,
}

stored_at-write_payload :
    (files : List Stored) (p q : String) (x : Fields)
    → stored_at (write_payload files p x) q ≡ (if p == q then some x else stored_at files q)
unfolding stored_at write_payload
stored_at-write_payload [] p q x = refl
stored_at-write_payload (f ∷ files) p q x =
    ground
      (arith, stored_at-write_payload files p q x, eq_iff f.path p, eq_iff f.path q, eq_iff p q)

-- What the building of the payloads has gone through.
record IsAddable (n : NewServer) (allow : List String) (p : Payloads) : Type 0 where
  tier : contains trust_tiers n.trust_tier ≡ true
  usage : contains secret_usage_modes n.secret_usage_mode ≡ true
  mode : contains addable_egress_modes n.egress_mode ≡ true
  policy : p.policy ≡ payload_of "McpPolicy" n (policy_spec n allow)

abbrev payloads_with : NewServer → Fields → List String → Payloads
payloads_with n more allow = record {
  server = payload_of "McpServer" n (server_spec n more);
  policy = payload_of "McpPolicy" n (policy_spec n allow);
}

build_payloads-IsAddable :
    (host : Host) (n : NewServer) (p : Payloads)
    → build_payloads host n ≡ ok p
    → (allow : List String) × IsAddable n allow p
unfolding build_payloads
build_payloads-IsAddable host n p h =
    let a =
      >>=-eq-ok (one_of trust_tiers n.trust_tier "trust tier")
        (λ t. do
          u ← one_of secret_usage_modes n.secret_usage_mode "secret usage mode"
          m ← one_of addable_egress_modes n.egress_mode "egress mode"
          more ← transport_fields n
          allow ← default_allow host n
          ok (payloads_with n more allow))
        h in
    let b =
      >>=-eq-ok (one_of secret_usage_modes n.secret_usage_mode "secret usage mode")
        (λ u. do
          m ← one_of addable_egress_modes n.egress_mode "egress mode"
          more ← transport_fields n
          allow ← default_allow host n
          ok (payloads_with n more allow))
        a.2 in
    let c =
      >>=-eq-ok (one_of addable_egress_modes n.egress_mode "egress mode")
        (λ m. do
          more ← transport_fields n
          allow ← default_allow host n
          ok (payloads_with n more allow))
        b.2 in
    let d =
      >>=-eq-ok (transport_fields n)
        (λ more. do allow ← default_allow host n; ok (payloads_with n more allow)) c.2 in
    let e = >>=-eq-ok (default_allow host n) (λ allow. ok (payloads_with n d.0 allow)) d.2 in
    (
      e.0,
      record {
        tier = one_of_accepted trust_tiers n.trust_tier a.0 "trust tier" a.1;
        usage = one_of_accepted secret_usage_modes n.secret_usage_mode b.0 "secret usage mode" b.1;
        mode = one_of_accepted addable_egress_modes n.egress_mode c.0 "egress mode" c.1;
        policy = sym (ap (λ p. p.policy) (ok_injective e.2));
      },
    )

-- What adding a server leaves behind.
pub record IsAdded (n : NewServer) (server_path policy_path : String) (before after : List Stored)
    : Type 0 where
  pub allow : List String
  pub server : Fields
  pub payload : Fields
  pub document : ResourceDocument
  pub new : (stored_at before server_path ≡ none) × (stored_at before policy_path ≡ none)
  pub stored :
      (path : String)
      → stored_at after path ≡ (
          if policy_path == path
          then some payload
          else if server_path == path
          then some server
          else stored_at before path)
  pub built : build_resource_document (obj payload) policy_path "local" true ≡ ok document
  pub read : policy_from_document document ≡ ok (added_policy n allow policy_path)
  pub targets : targets_server (added_policy n allow policy_path) n.name ≡ true

not_stored :
    (files : List Stored) (path : String)
    → is_stored files path ≡ false
    → stored_at files path ≡ none
unfolding is_stored
not_stored files path h = elim (Option-cases (stored_at files path)) [
  | inl e ↦ e
  | inr e ↦ absurd (false≢true (sym h ∙ rw (e.1, is_stored) refl))
]

-- The guard on the files lets through only where neither stands there.
guard_passed :
    (a b : Bool) (e : Error) (v w : List Stored)
    → (if a || b then err e else ok v) ≡ ok w
    → (a ≡ false) × (b ≡ false) × (v ≡ w)
guard_passed true b e v w h = cc
guard_passed false true e v w h = cc
guard_passed false false e v w h = (refl, refl, ok_injective h)

targets-own :
    (n : NewServer) (allow : List String) (path : String)
    → targets_server (added_policy n allow path) n.name ≡ true
unfolding targets_server
targets-own n allow path = rw (eq_refl n.name) refl

written-twice :
    (files : List Stored) (p q : String) (x y : Fields) (path : String)
    → stored_at (write_payload (write_payload files p x) q y) path
      ≡ (if q == path then some y else if p == path then some x else stored_at files path)
written-twice files p q x y path =
    rw
      (
        stored_at-write_payload (write_payload files p x) q path y,
        stored_at-write_payload files p path x,
      )
      refl

-- Where a server with a name and a namespace that are not blank and have no space around them is
-- added, nothing stood under its two paths before and nothing changes under any other, and the policy
-- that stands there now is accepted by the loaders: it has the trust tier, the egress mode, the secret
-- usage mode and the rules that were asked for, and it targets the server.
pub add_mcp_resources-IsAdded :
    (host : Host) (files after : List Stored) (root server_path policy_path : String)
    (n : NewServer)
    → IsItem n.name
    → IsItem n.namespace
    → add_mcp_resources host files root server_path policy_path n ≡ ok after
    → IsAdded n server_path policy_path files after
unfolding add_mcp_resources
add_mcp_resources-IsAdded host files after root server_path policy_path n name namespace h =
    let problem = mcp_error ("MCP resources for " <> repr n.name <> " already exist in " <> root) in
    let got =
      >>=-eq-ok (build_payloads host n)
        (λ p.
          if is_stored files server_path || is_stored files policy_path
          then err problem
          else ok (write_payload (write_payload files server_path p.server) policy_path p.policy))
        h in
    let free =
      guard_passed (is_stored files server_path) (is_stored files policy_path) problem
        (write_payload (write_payload files server_path got.0.server) policy_path got.0.policy)
        after got.2 in
    let addable = build_payloads-IsAddable host n got.0 got.1 in
    let a = addable.1 in
    record {
      allow = addable.0;
      server = got.0.server;
      payload = got.0.policy;
      document = added_document "McpPolicy" n (policy_spec n addable.0) policy_path;
      new = (not_stored files server_path free.0, not_stored files policy_path free.1);
      stored = λ path.
          ap (λ fs. stored_at fs path) (sym free.2)
          ∙ written-twice files server_path policy_path got.0.server got.0.policy path;
      built =
          ap (λ x. build_resource_document (obj x) policy_path "local" true) a.policy
          ∙ payload-built "McpPolicy" n (policy_spec n addable.0) policy_path
              (unfold strip in refl, unfold is_empty in refl) name namespace;
      read = policy-read n addable.0 policy_path name a.tier a.usage a.mode;
      targets = targets-own n addable.0 policy_path;
    }
