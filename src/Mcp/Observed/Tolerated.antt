-- ===== src/Mcp/Observed/Tolerated.antt =====
-- kernel/mcp_runtime.py: what a server that is reported to be safe has connected to.
use mathlib.Core.Path.{subst}
use context_control_plane.Base.{
  String, ◌≡◌, ◌≢◌, refl, ap, sym, ◌∙◌, inl, inr, Bool, true, false, not, Option, none, some, List,
  [], ◌∷◌, ◌++◌, ◌==◌, eq_iff, false≢true, Bool-cases, if_true, if_false, if◌then◌else◌,
}
use context_control_plane.Python.Error.{ok, >>=-eq-ok, ok_injective}
use context_control_plane.Python.Value.{arr, Items, nil, get_or}
use context_control_plane.Packs.{stripped_texts}
use context_control_plane.Sorting.{All}
use context_control_plane.Sorting.Members.{Has}
use context_control_plane.Mcp.Profile.{McpServerProfile, McpPolicyProfile}
use context_control_plane.Mcp.Startup.{Host}
use context_control_plane.Mcp.Report.{build_posture, no_texts, own_warnings, blocked_by}
use context_control_plane.Mcp.Tested.{
  ObservedReport, TestReport, report_of, build_mcp_test_report, probe_warnings, probe_blocks,
}
use context_control_plane.Mcp.Warnings.{health_iff}
use context_control_plane.Mcp.Health.{no_texts-front, no_texts-back}
use context_control_plane.Mcp.Observed.{
  iterated, destination_matches_allowlist, is_covered, evaluated_mode, each_message,
  uncovered_messages, violations_of, evaluate_egress, SandboxPlan, Observation, Launch, not_found,
  os_error, launched, seen_destinations, proxy_violations, process_report, launch_report,
  observe_mcp_runtime, blank_report,
}

-- One of the entries matches the destination.
pub IsCovered : List String → String → Type 0
IsCovered allowed d = (c : String) × Has c allowed × (destination_matches_allowlist d c ≡ true)

-- The policy lets the server connect to the destination.
pub record IsTolerated (policy : Option McpPolicyProfile) (d : String) : Type 0 where
  pub attached : McpPolicyProfile
  pub is_attached : policy ≡ some attached
  pub not_denied : evaluated_mode attached ≢ "deny"
  pub entries : Items
  pub listed : iterated (get_or attached.egress_policy "allow" (arr nil)) ≡ ok entries
  pub covered : evaluated_mode attached ≡ "allowlist" → IsCovered (stripped_texts entries) d

is_covered-IsCovered :
    (allowed : List String) (d : String) → is_covered allowed d ≡ true → IsCovered allowed d
unfolding is_covered IsCovered
is_covered-IsCovered [] d h = absurd (false≢true h)
is_covered-IsCovered (c ∷ cs) d h = elim (Bool-cases (destination_matches_allowlist d c)) [
  | inl e ↦ (c, inl refl, e)
  | inr e ↦
      let later = is_covered-IsCovered cs d (sym (if_false true e) ∙ h) in
      (later.0, inr later.1, later.2)
]

kept-quiet :
    (b : Bool) (m : String) (rest : List String)
    → no_texts (if not b then m ∷ rest else rest) ≡ true
    → (b ≡ true) × (no_texts rest ≡ true)
unfolding no_texts
kept-quiet true m rest h = (refl, h)
kept-quiet false m rest h = absurd (false≢true h)

uncovered-quiet :
    (allowed ds : List String)
    → no_texts (uncovered_messages allowed ds) ≡ true
    → All (IsCovered allowed) ds
unfolding uncovered_messages
uncovered-quiet allowed [] h = tt
uncovered-quiet allowed (d ∷ ds) h =
    let first = kept-quiet (is_covered allowed d) _ (uncovered_messages allowed ds) h in
    (is_covered-IsCovered allowed d first.0, uncovered-quiet allowed ds first.1)

denied-loud :
    (allowed ds : List String) (mode d : String)
    → no_texts (violations_of mode allowed (d ∷ ds)) ≡ true
    → mode ≢ "deny"
unfolding violations_of each_message no_texts
denied-loud allowed ds mode d h e =
    let denied = (eq_iff mode "deny").1 e in false≢true (sym (ap no_texts (if_true _ denied)) ∙ h)

allowlisted-quiet :
    (allowed ds : List String) (mode : String)
    → no_texts (violations_of mode allowed ds) ≡ true
    → mode ≡ "allowlist"
    → All (IsCovered allowed) ds
unfolding violations_of
allowlisted-quiet allowed ds mode h e =
    uncovered-quiet allowed ds (subst (λ m. no_texts (violations_of m allowed ds) ≡ true) e h)

IsTolerated-All :
    (p : McpPolicyProfile) (entries : Items) (ds : List String)
    → evaluated_mode p ≢ "deny"
    → iterated (get_or p.egress_policy "allow" (arr nil)) ≡ ok entries
    → (evaluated_mode p ≡ "allowlist" → All (IsCovered (stripped_texts entries)) ds)
    → All (IsTolerated (some p)) ds
IsTolerated-All p entries [] permitted listed covered = tt
IsTolerated-All p entries (d ∷ ds) permitted listed covered = (
  record {
    attached = p;
    is_attached = refl;
    not_denied = permitted;
    entries = entries;
    listed = listed;
    covered = λ e. (covered e).0;
  },
  IsTolerated-All p entries ds permitted listed (λ e. (covered e).1),
)

evaluate_egress-quiet :
    (ds : List String) (policy : Option McpPolicyProfile) (vs : List String)
    → evaluate_egress ds policy ≡ ok vs
    → no_texts vs ≡ true
    → All (IsTolerated policy) ds
unfolding evaluate_egress each_message no_texts
evaluate_egress-quiet [] policy vs h quiet = tt
evaluate_egress-quiet (d ∷ ds) none vs h quiet =
    absurd (false≢true (ap no_texts (ok_injective h) ∙ quiet))
evaluate_egress-quiet (d ∷ ds) (some p) vs h quiet =
    let got =
      >>=-eq-ok (iterated (get_or p.egress_policy "allow" (arr nil)))
        (λ items. ok (violations_of (evaluated_mode p) (stripped_texts items) (d ∷ ds))) h in
    let silent = ap no_texts (ok_injective got.2) ∙ quiet in
    IsTolerated-All p got.0 (d ∷ ds)
      (denied-loud (stripped_texts got.0) ds (evaluated_mode p) d silent) got.1
      (allowlisted-quiet (stripped_texts got.0) (d ∷ ds) (evaluated_mode p) silent)

process_report-IsTolerated :
    (policy : Option McpPolicyProfile) (plan : SandboxPlan) (o : Observation) (r : ObservedReport)
    → process_report policy plan o ≡ ok r
    → no_texts r.egress_violations ≡ true
    → All (IsTolerated policy) r.network_destinations
unfolding process_report
process_report-IsTolerated policy plan o r h quiet =
    let got = >>=-eq-ok (evaluate_egress (seen_destinations o) policy) _ h in
    let same = ok_injective got.2 in
    subst (All (IsTolerated policy)) (ap (λ r. r.network_destinations) same) (
      evaluate_egress-quiet (seen_destinations o) policy got.0 got.1 (
        no_texts-front got.0 (proxy_violations o.proxied)
          (ap (λ r. no_texts r.egress_violations) same ∙ quiet)))

launch_report-IsTolerated :
    (server : McpServerProfile) (policy : Option McpPolicyProfile) (plan : SandboxPlan)
    (launch : Launch) (r : ObservedReport)
    → launch_report server policy plan launch ≡ ok r
    → no_texts r.egress_violations ≡ true
    → All (IsTolerated policy) r.network_destinations
unfolding launch_report blank_report
launch_report-IsTolerated server policy plan not_found r h quiet =
    subst (λ r. All (IsTolerated policy) r.network_destinations) (ok_injective h) tt
launch_report-IsTolerated server policy plan (os_error e) r h quiet =
    subst (λ r. All (IsTolerated policy) r.network_destinations) (ok_injective h) tt
launch_report-IsTolerated server policy plan (launched o) r h quiet =
    process_report-IsTolerated policy plan o r h quiet

observe-IsTolerated :
    (server : McpServerProfile) (policy : Option McpPolicyProfile) (plan : SandboxPlan)
    (launch : Launch) (r : ObservedReport)
    → observe_mcp_runtime server policy plan launch ≡ ok r
    → no_texts r.egress_violations ≡ true
    → All (IsTolerated policy) r.network_destinations
unfolding observe_mcp_runtime blank_report
observe-IsTolerated server policy plan launch r h quiet = elim (Bool-cases (not server.enabled)) [
  | inl e ↦
      subst (λ r. All (IsTolerated policy) r.network_destinations)
        (ok_injective (sym (if_true _ e) ∙ h)) tt
  | inr e ↦ elim (Bool-cases (not (server.transport == "stdio"))) [
    | inl f ↦
        subst (λ r. All (IsTolerated policy) r.network_destinations)
          (ok_injective (sym (if_true _ f) ∙ (sym (if_false _ e) ∙ h))) tt
    | inr f ↦
        launch_report-IsTolerated server policy plan launch r
          (sym (if_false _ f) ∙ (sym (if_false _ e) ∙ h)) quiet
  ]
]

-- Where a report on a server is made with what a probe of it has observed, and says "safe", the policy
-- tolerates every destination that the probe has seen: a policy is attached, its egress mode is not
-- "deny", and where it is "allowlist" an entry of the list matches the destination.
pub build_mcp_test_report-IsTolerated :
    (host : Host) (server : McpServerProfile) (policy : Option McpPolicyProfile)
    (inherited : List String) (plan : SandboxPlan) (launch : Launch) (o : ObservedReport)
    (r : TestReport)
    → observe_mcp_runtime server policy plan launch ≡ ok o
    → build_mcp_test_report host server policy inherited (some o) ≡ ok r
    → r.health ≡ "safe"
    → All (IsTolerated policy) o.network_destinations
unfolding build_mcp_test_report report_of probe_blocks
build_mcp_test_report-IsTolerated host server policy inherited plan launch o r seen h safe =
    let got =
      >>=-eq-ok (build_posture host server policy) (λ p. ok (report_of server inherited p (some o)))
        h in
    let p = got.0 in
    let blocks =
      (health_iff (blocked_by p.startup ++ probe_blocks o)
          ((inherited ++ own_warnings server p) ++ probe_warnings p o)).0
        (ap (λ r. r.health) (ok_injective got.2) ∙ safe) in
    observe-IsTolerated server policy plan launch o seen (
      no_texts-front o.egress_violations _
        (no_texts-back (blocked_by p.startup) (probe_blocks o) blocks.0))
