-- ===== src/Mcp/Health.antt =====
-- kernel/mcp.py: when a server is reported to be safe.
use context_control_plane.Base.{
  false≢true, String, ◌≡◌, ◌≢◌, refl, ap, ◌∙◌, ◌↔◌, true, false, Option, none, some, List, [], ◌∷◌,
  ◌++◌,
}
use context_control_plane.Python.Error.{ok, >>=-eq-ok, ok_injective}
use context_control_plane.Python.Value.{obj, truthy}
use context_control_plane.Mcp.Profile.{McpServerProfile, McpPolicyProfile}
use context_control_plane.Mcp.Startup.{Host}
use context_control_plane.Mcp.Report.{
  Posture, build_posture, no_texts, mode_in, loose_modes, uncovered_endpoint, own_warnings,
  blocked_by,
}
use context_control_plane.Mcp.Tested.{
  ObservedReport, TestReport, report_of, build_mcp_test_report, probe_warnings, probe_blocks,
}
use context_control_plane.Mcp.Warnings.{append_iff, texts_iff, own_iff, blocked_iff, health_iff}

-- What the posture has to be for the report to say "safe".
pub record IsQuiet (server : McpServerProfile) (inherited : List String) (p : Posture)
    : Type 0 where
  pub starts : p.startup.success ≡ true
  pub resolved : inherited ≡ []
  pub enabled : server.enabled ≡ true
  pub trusted : (p.trust_tier ≢ "quarantined") × (p.trust_tier ≢ "user-added")
  pub attached : p.attached ≡ true
  pub declared : no_texts p.declared_tools ≡ false
  pub brokered : p.secret_usage_mode ≢ "raw-secret"
  pub sanitized : (p.input ≡ true) × (p.output ≡ true) × (p.trace ≡ true)
  pub sandboxed : truthy (obj p.sandbox_profile) ≡ true
  pub confined : mode_in p loose_modes ≡ false
  pub covered : uncovered_endpoint server p ≡ false

pub report_of-IsQuiet_iff :
    (server : McpServerProfile) (inherited : List String) (p : Posture)
    → ((report_of server inherited p none).health ≡ "safe") ↔ IsQuiet server inherited p
unfolding report_of
report_of-IsQuiet_iff server inherited p =
    let health = health_iff (blocked_by p.startup) (inherited ++ own_warnings server p) in
    let quiet =
      append_iff inherited (own_warnings server p) (texts_iff inherited) (own_iff server p) in
    let starts = blocked_iff p.startup in
    (
      λ h.
          let x = health.0 h in
          let w = quiet.0 x.1 in
          record {
            starts = starts.0 x.0;
            resolved = w.0;
            enabled = w.1.0;
            trusted = w.1.1.0;
            attached = w.1.1.1.0;
            declared = w.1.1.1.1.0;
            brokered = w.1.1.1.1.1.0;
            sanitized = w.1.1.1.1.1.1.0;
            sandboxed = w.1.1.1.1.1.1.1.0;
            confined = w.1.1.1.1.1.1.1.1.0;
            covered = w.1.1.1.1.1.1.1.1.1;
          },
      λ s. health.1 (
        starts.1 s.starts,
        quiet.1 (
          s.resolved,
          (
            s.enabled,
            (
              s.trusted,
              (
                s.attached,
                (s.declared, (s.brokered, (s.sanitized, (s.sandboxed, (s.confined, s.covered))))),
              ),
            ),
          ),
        ),
      ),
    )

pub no_texts-front : (xs ys : List String) → no_texts (xs ++ ys) ≡ true → no_texts xs ≡ true
unfolding no_texts
no_texts-front [] ys h = refl
no_texts-front (x ∷ xs) ys h = h

pub no_texts-back : (xs ys : List String) → no_texts (xs ++ ys) ≡ true → no_texts ys ≡ true
unfolding no_texts
no_texts-back [] ys h = h
no_texts-back (x ∷ xs) ys h = absurd (false≢true h)

-- A probe adds reasons and warnings, and takes none away.
probed-safe :
    (server : McpServerProfile) (inherited : List String) (p : Posture) (o : ObservedReport)
    → (report_of server inherited p (some o)).health ≡ "safe"
    → (report_of server inherited p none).health ≡ "safe"
unfolding report_of
probed-safe server inherited p o h =
    let own = inherited ++ own_warnings server p in
    let all =
      (health_iff (blocked_by p.startup ++ probe_blocks o) (own ++ probe_warnings p o)).0 h in
    (health_iff (blocked_by p.startup) own).1 (
      no_texts-front (blocked_by p.startup) (probe_blocks o) all.0,
      no_texts-front own (probe_warnings p o) all.1,
    )

-- A probe makes no server safer: where the report with what a probe has observed says "safe", the
-- report without the probe is returned too, and says the same.
pub build_mcp_test_report-probed :
    (host : Host) (server : McpServerProfile) (policy : Option McpPolicyProfile)
    (inherited : List String) (o : ObservedReport) (r : TestReport)
    → build_mcp_test_report host server policy inherited (some o) ≡ ok r
    → r.health ≡ "safe"
    → (q : TestReport) × (build_mcp_test_report host server policy inherited none ≡ ok q)
      × (q.health ≡ "safe")
unfolding build_mcp_test_report report_of
build_mcp_test_report-probed host server policy inherited o r h e =
    let got =
      >>=-eq-ok (build_posture host server policy) (λ p. ok (report_of server inherited p (some o)))
        h in
    (
      report_of server inherited got.0 none,
      rw got.1 refl,
      probed-safe server inherited got.0 o (ap (λ r. r.health) (ok_injective got.2) ∙ e),
    )
