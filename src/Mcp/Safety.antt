-- ===== src/Mcp/Safety.antt =====
-- kernel/mcp.py: when a server is reported to be safe, by what the server and its policy declare.
use mathlib.Core.Path.{subst}
use context_control_plane.Base.{
  String, ◌≡◌, ◌≢◌, ◌⊎◌, refl, ap, sym, ◌∙◌, inl, inr, ◌↔◌, Bool, true, false, not, ◌&&◌, Option,
  none, some, List, [], ◌∷◌, false≢true, some_injective,
}
use context_control_plane.Python.Error.{ok, ◌>>=◌, >>=-eq-ok, ok_injective}
use context_control_plane.Python.Value.{str, Fields, end, get}
use context_control_plane.Mcp.Profile.{McpServerProfile, McpPolicyProfile, is_http, mcp_string_list}
use context_control_plane.Mcp.Startup.{
  Host, Startup, build_startup_report, filesystem_access_requested, network_destinations_requested,
}
use context_control_plane.Mcp.Report.{
  Posture, posture_of, allowed_of, build_posture, no_texts, is_subset, mode_in, uncovered_endpoint,
}
use context_control_plane.Mcp.Tested.{TestReport, report_of, build_mcp_test_report}
use context_control_plane.Mcp.Health.{IsQuiet, report_of-IsQuiet_iff}
use context_control_plane.Mcp.Started.{Starts, build_startup_report-Starts, is_http_iff}
use context_control_plane.Mcp.Shown.{
  truthy-end, IsConfining, mode_in-IsConfining, mode_in-allowlist, tools_of-declared,
}
use context_control_plane.Mcp.Covered.{CoversEndpoint, is_subset-CoversEndpoint, allow-entries}

-- What a policy has to declare for its server to be reported safe.
pub record IsGuarding (host : Host) (server : McpServerProfile) (p : McpPolicyProfile)
    : Type 0 where
  pub trusted : (p.trust_tier ≢ "quarantined") × (p.trust_tier ≢ "user-added")
  pub brokered : p.secret_usage_mode ≢ "raw-secret"
  pub sanitized :
      (p.input_sanitization ≢ end) × (p.output_sanitization ≢ end) × (p.trace_redaction ≢ end)
  pub sandboxed : p.sandbox_profile ≢ end
  pub confined : IsConfining p.egress_policy
  pub covered :
      (server.transport ≡ "http") ⊎ (server.transport ≡ "https")
      → get p.egress_policy "mode" ≡ str "allowlist"
      → (entries : List String) → mcp_string_list (get p.egress_policy "allow") ≡ ok entries
      → CoversEndpoint host server entries

-- All that a server and its policy have to show for the server to be reported safe.
pub record IsSafe (host : Host) (server : McpServerProfile) (policy : Option McpPolicyProfile)
    (inherited : List String) : Type 0 where
  pub attached : McpPolicyProfile
  pub is_attached : policy ≡ some attached
  pub guarding : IsGuarding host server attached
  pub resolved : inherited ≡ []
  pub enabled : server.enabled ≡ true
  pub starts : Starts host server
  pub declared : (server.declared_tools ≢ []) ⊎ (server.capabilities ≢ [])

-- What the building of a posture has gone through.
record IsBuilt (host : Host) (server : McpServerProfile) (policy : Option McpPolicyProfile)
    (p : Posture) : Type 0 where
  startup : Startup
  filesystem : Fields
  destinations : List String
  allowed : List String
  started : build_startup_report host server ≡ ok startup
  requested : network_destinations_requested host server policy ≡ ok destinations
  listed : allowed_of server policy destinations ≡ ok allowed
  same : posture_of server policy startup filesystem destinations allowed ≡ p

build_posture-IsBuilt :
    (host : Host) (server : McpServerProfile) (policy : Option McpPolicyProfile) (p : Posture)
    → build_posture host server policy ≡ ok p
    → IsBuilt host server policy p
unfolding build_posture
build_posture-IsBuilt host server policy p h =
    let a =
      >>=-eq-ok (build_startup_report host server)
        (λ startup. do
          filesystem ← filesystem_access_requested policy
          destinations ← network_destinations_requested host server policy
          allowed ← allowed_of server policy destinations
          ok (posture_of server policy startup filesystem destinations allowed))
        h in
    let b =
      >>=-eq-ok (filesystem_access_requested policy)
        (λ filesystem. do
          destinations ← network_destinations_requested host server policy
          allowed ← allowed_of server policy destinations
          ok (posture_of server policy a.0 filesystem destinations allowed))
        a.2 in
    let c =
      >>=-eq-ok (network_destinations_requested host server policy)
        (λ destinations. do
          allowed ← allowed_of server policy destinations
          ok (posture_of server policy a.0 b.0 destinations allowed))
        b.2 in
    let d =
      >>=-eq-ok (allowed_of server policy c.0)
        (λ allowed. ok (posture_of server policy a.0 b.0 c.0 allowed)) c.2 in
    record {
      startup = a.0;
      filesystem = b.0;
      destinations = c.0;
      allowed = d.0;
      started = a.1;
      requested = c.1;
      listed = d.1;
      same = ok_injective d.2;
    }

flags_iff :
    (a b c d : Bool)
    → ((a && not b && c && not d) ≡ false) ↔ (a ≡ true → c ≡ true → (b ≡ true) ⊎ (d ≡ true))
flags_iff false b c d = (λ h x. absurd (false≢true x), λ h. refl)
flags_iff true true c d = (λ h x y. inl refl, λ h. refl)
flags_iff true false false d = (λ h x y. absurd (false≢true y), λ h. refl)
flags_iff true false true true = (λ h x y. inr refl, λ h. refl)
flags_iff true false true false = (
  λ h. absurd (false≢true (sym h)),
  λ h. absurd (elim (h refl refl) [ inl e ↦ false≢true e | inr e ↦ false≢true e ]),
)

uncovered_endpoint-covered :
    (host : Host) (server : McpServerProfile) (q : McpPolicyProfile) (s : Startup) (f : Fields)
    (ds allowed : List String)
    → network_destinations_requested host server (some q) ≡ ok ds
    → allowed_of server (some q) ds ≡ ok allowed
    → (uncovered_endpoint server (posture_of server (some q) s f ds allowed) ≡ false) ↔ (
        (server.transport ≡ "http") ⊎ (server.transport ≡ "https")
        → get q.egress_policy "mode" ≡ str "allowlist"
        → (entries : List String) → mcp_string_list (get q.egress_policy "allow") ≡ ok entries
        → CoversEndpoint host server entries)
unfolding uncovered_endpoint posture_of
uncovered_endpoint-covered host server q s f ds allowed requested listed =
    let p = posture_of server (some q) s f ds allowed in
    let flags =
      flags_iff (is_http server.transport) (no_texts ds) (mode_in p ("allowlist" ∷ []))
        (is_subset ds allowed) in
    let http = is_http_iff server.transport in
    let mode = mode_in-allowlist p in
    let entries = allow-entries host server q ds requested in
    (
      λ h remote word es he.
          (is_subset-CoversEndpoint host server q ds allowed es (http.1 remote) requested listed
              he).0
            (flags.0 h (http.1 remote) (mode.1 word)),
      λ h. flags.1 (λ remote word.
          (is_subset-CoversEndpoint host server q ds allowed entries.0 remote requested listed
              entries.1).1
            (h (http.0 remote) (mode.0 word) entries.0 entries.1)),
    )

IsQuiet-IsSafe :
    (host : Host) (server : McpServerProfile) (policy : Option McpPolicyProfile)
    (inherited : List String) (s : Startup) (f : Fields) (ds allowed : List String)
    → build_startup_report host server ≡ ok s
    → network_destinations_requested host server policy ≡ ok ds
    → allowed_of server policy ds ≡ ok allowed
    → IsQuiet server inherited (posture_of server policy s f ds allowed)
      ↔ IsSafe host server policy inherited
unfolding posture_of
IsQuiet-IsSafe host server none inherited s f ds allowed started requested listed =
    (λ q. absurd (false≢true q.attached), λ x. absurd (cc x.is_attached))
IsQuiet-IsSafe host server (some q) inherited s f ds allowed started requested listed =
    let p = posture_of server (some q) s f ds allowed in
    let covered = uncovered_endpoint-covered host server q s f ds allowed requested listed in
    (
      λ x. record {
        attached = q;
        is_attached = refl;
        guarding = record {
          trusted = x.trusted;
          brokered = x.brokered;
          sanitized = (
            (truthy-end q.input_sanitization).0 x.sanitized.0,
            (truthy-end q.output_sanitization).0 x.sanitized.1,
            (truthy-end q.trace_redaction).0 x.sanitized.2,
          );
          sandboxed = (truthy-end q.sandbox_profile).0 x.sandboxed;
          confined = (mode_in-IsConfining p).0 x.confined;
          covered = covered.0 x.covered;
        };
        resolved = x.resolved;
        enabled = x.enabled;
        starts = (build_startup_report-Starts host server s x.enabled started).0 x.starts;
        declared = (tools_of-declared server).0 x.declared;
      },
      λ x.
          let y = subst (IsGuarding host server) (sym (some_injective x.is_attached)) x.guarding in
          record {
            starts = (build_startup_report-Starts host server s x.enabled started).1 x.starts;
            resolved = x.resolved;
            enabled = x.enabled;
            trusted = y.trusted;
            attached = refl;
            declared = (tools_of-declared server).1 x.declared;
            brokered = y.brokered;
            sanitized = (
              (truthy-end q.input_sanitization).1 y.sanitized.0,
              (truthy-end q.output_sanitization).1 y.sanitized.1,
              (truthy-end q.trace_redaction).1 y.sanitized.2,
            );
            sandboxed = (truthy-end q.sandbox_profile).1 y.sandboxed;
            confined = (mode_in-IsConfining p).1 y.confined;
            covered = covered.1 y.covered;
          },
    )

-- A report without a probe is "safe" exactly where the server is enabled, has a command that is found or
-- else a URL of scheme http or https with a host, and declares tools or capabilities, and it comes with
-- a policy, without a warning on how that was found, that trusts it beyond "user-added" and
-- "quarantined", hands out no raw secrets, has sanitizations of inputs, outputs and traces and a sandbox
-- profile, and an egress mode that is not "open", "unspecified" or "inherit"; where that mode is
-- "allowlist" and the server is reached by http or https, its host is an entry of the list.
pub build_mcp_test_report-IsSafe_iff :
    (host : Host) (server : McpServerProfile) (policy : Option McpPolicyProfile)
    (inherited : List String) (r : TestReport)
    → build_mcp_test_report host server policy inherited none ≡ ok r
    → (r.health ≡ "safe") ↔ IsSafe host server policy inherited
unfolding build_mcp_test_report
build_mcp_test_report-IsSafe_iff host server policy inherited r h =
    let got =
      >>=-eq-ok (build_posture host server policy) (λ p. ok (report_of server inherited p none))
        h in
    let health = ap (λ r. r.health) (ok_injective got.2) in
    let built = build_posture-IsBuilt host server policy got.0 got.1 in
    let quiet = report_of-IsQuiet_iff server inherited got.0 in
    let safe =
      IsQuiet-IsSafe host server policy inherited built.startup built.filesystem built.destinations
        built.allowed built.started built.requested built.listed in
    (
      λ x. safe.0 (subst (IsQuiet server inherited) (sym built.same) (quiet.0 (health ∙ x))),
      λ x. sym health ∙ quiet.1 (subst (IsQuiet server inherited) built.same (safe.1 x)),
    )
