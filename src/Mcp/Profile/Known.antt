-- ===== src/Mcp/Profile/Known.antt =====
-- kernel/mcp.py: what a policy that loads declares.
use context_control_plane.Base.{
  String, ◌≡◌, refl, ap, sym, ◌∙◌, inl, inr, true, some, List, [], ◌∷◌, contains, arith, Bool-cases,
  eq_refl, if_true, if_false, not, ◌==◌,
}
use context_control_plane.Python.Error.{Error, Result, ok, err, ◌>>=◌, ok_injective}
use context_control_plane.Python.Value.{Value, Fields, str, find, put, get_or}
use context_control_plane.Resource.{ResourceDocument, source_of}
use context_control_plane.Registry.Merge.Laws.{find-put}
use context_control_plane.Mcp.Profile.{
  trust_tiers, secret_usage_modes, egress_modes, McpPolicyProfile, one_of, policy_from_document,
  lowered_or, pick, mcp_mapping, mcp_string_list, stringify_mapping_list,
}

-- The words of the policy are those that the report and the runtime know.
pub record IsKnown (p : McpPolicyProfile) : Type 0 where
  pub tier : contains trust_tiers p.trust_tier ≡ true
  pub usage : contains secret_usage_modes p.secret_usage_mode ≡ true
  pub mode :
      (m : String) × (find p.egress_policy "mode" ≡ some (str m)) × (contains egress_modes m ≡ true)

one_of-known :
    (accepted : List String) (s t what : String)
    → one_of accepted s what ≡ ok t
    → contains accepted t ≡ true
unfolding one_of
one_of-known accepted s t what h = elim (Bool-cases (contains accepted s)) [
  | inl e ↦ ground arith
  | inr e ↦ ground arith
]

find-put_same : (e : Fields) (k : String) (v : Value) → find (put e k v) k ≡ some v
find-put_same e k v = find-put e k k v ∙ rw (eq_refl k) refl

-- What a profile has kept of the words that were read.
record Keeps (t u : String) (e : Fields) (m : String) (p : McpPolicyProfile) : Type 0 where
  tier : t ≡ p.trust_tier
  usage : u ≡ p.secret_usage_mode
  egress : put e "mode" (str m) ≡ p.egress_policy

-- The chain from the egress mode on.
chain_end :
    ResourceDocument
    → String
    → String
    → Fields
    → Result String
    → Result (List Fields)
    → Result (List String)
    → Result Fields
    → Result Fields
    → Result Fields
    → Result Fields
    → Result McpPolicyProfile
chain_end d t u e r4 r5 r6 r7 r8 r9 r10 = do
  egress_mode ← r4
  tool_rules ← r5
  targets ← r6
  sandbox_profile ← r7
  input ← r8
  output ← r9
  trace ← r10
  ok (record {
    name = d.identifier.name;
    namespace = d.identifier.namespace;
    targets = targets;
    trust_tier = t;
    sandbox_profile = sandbox_profile;
    egress_policy = put e "mode" (str egress_mode);
    secret_usage_mode = u;
    input_sanitization = input;
    output_sanitization = output;
    trace_redaction = trace;
    tool_rules = tool_rules;
    source = source_of d;
  })

chain_end-Keeps :
    (d : ResourceDocument) (t u : String) (e : Fields) (r4 : Result String)
    (r5 : Result (List Fields)) (r6 : Result (List String)) (r7 r8 r9 r10 : Result Fields)
    (p : McpPolicyProfile)
    → chain_end d t u e r4 r5 r6 r7 r8 r9 r10 ≡ ok p
    → (m : String) × (r4 ≡ ok m) × Keeps t u e m p
unfolding chain_end
chain_end-Keeps d t u e (err x) r5 r6 r7 r8 r9 r10 p h = cc
chain_end-Keeps d t u e (ok m) (err x) r6 r7 r8 r9 r10 p h = cc
chain_end-Keeps d t u e (ok m) (ok a5) (err x) r7 r8 r9 r10 p h = cc
chain_end-Keeps d t u e (ok m) (ok a5) (ok a6) (err x) r8 r9 r10 p h = cc
chain_end-Keeps d t u e (ok m) (ok a5) (ok a6) (ok a7) (err x) r9 r10 p h = cc
chain_end-Keeps d t u e (ok m) (ok a5) (ok a6) (ok a7) (ok a8) (err x) r10 p h = cc
chain_end-Keeps d t u e (ok m) (ok a5) (ok a6) (ok a7) (ok a8) (ok a9) (err x) p h = cc
chain_end-Keeps d t u e (ok m) (ok a5) (ok a6) (ok a7) (ok a8) (ok a9) (ok a10) p h =
    let same = ok_injective h in
    (
      m,
      refl,
      record {
        tier = ap (λ q. q.trust_tier) same;
        usage = ap (λ q. q.secret_usage_mode) same;
        egress = ap (λ q. q.egress_policy) same;
      },
    )

chain-Keeps :
    (d : ResourceDocument) (r1 r2 : Result String) (r3 : Result Fields)
    (r4 : Fields → Result String) (r5 : Result (List Fields)) (r6 : Result (List String))
    (r7 r8 r9 r10 : Result Fields) (p : McpPolicyProfile)
    → (do t ← r1; u ← r2; e ← r3; chain_end d t u e (r4 e) r5 r6 r7 r8 r9 r10) ≡ ok p
    → (t : String) × (u : String) × (e : Fields) × (m : String) × (r1 ≡ ok t)
      × (r2 ≡ ok u)
      × (r4 e ≡ ok m)
      × Keeps t u e m p
chain-Keeps d (err x) r2 r3 r4 r5 r6 r7 r8 r9 r10 p h = cc
chain-Keeps d (ok t) (err x) r3 r4 r5 r6 r7 r8 r9 r10 p h = cc
chain-Keeps d (ok t) (ok u) (err x) r4 r5 r6 r7 r8 r9 r10 p h = cc
chain-Keeps d (ok t) (ok u) (ok e) r4 r5 r6 r7 r8 r9 r10 p h =
    let k = chain_end-Keeps d t u e (r4 e) r5 r6 r7 r8 r9 r10 p h in
    (t, u, e, k.0, refl, refl, k.1, k.2)

err≢ok : {A : Type 0} {e : Error} {a : A} → err e ≡ ok a → ⊥
err≢ok h = cc

-- Every policy that loads declares one of the four trust tiers, one of the three ways to use secrets,
-- and one of the five egress modes, in lower case and with no space around it.
pub policy_from_document-IsKnown :
    (d : ResourceDocument) (p : McpPolicyProfile) → policy_from_document d ≡ ok p → IsKnown p
unfolding policy_from_document chain_end
policy_from_document-IsKnown d p h = elim (Bool-cases (d.identifier.kind == "McpPolicy")) [
  | inl e ↦
      let spec = d.spec in
      let k =
        chain-Keeps d
          (one_of trust_tiers
            (lowered_or (pick spec ("trust_tier" ∷ "trustTier" ∷ [])) "quarantined") "trust tier")
          (one_of secret_usage_modes
            (lowered_or (pick spec ("secret_usage_mode" ∷ "secretUsageMode" ∷ [])) "brokered")
            "secret usage mode")
          (mcp_mapping (pick spec ("egress_policy" ∷ "egressPolicy" ∷ [])) "egress_policy")
          (λ egress.
            one_of egress_modes
              (lowered_or (get_or egress "mode" (str "unspecified")) "unspecified") "egress mode")
          (stringify_mapping_list (pick spec ("tool_rules" ∷ "toolRules" ∷ [])) "tool_rules")
          (mcp_string_list (pick spec ("targets" ∷ [])))
          (mcp_mapping (pick spec ("sandbox_profile" ∷ "sandboxProfile" ∷ [])) "sandbox_profile")
          (mcp_mapping (pick spec ("input_sanitization" ∷ "inputSanitization" ∷ []))
            "input_sanitization")
          (mcp_mapping (pick spec ("output_sanitization" ∷ "outputSanitization" ∷ []))
            "output_sanitization")
          (mcp_mapping (pick spec ("trace_redaction" ∷ "traceRedaction" ∷ [])) "trace_redaction") p
          (sym (if_false {b = not (d.identifier.kind == "McpPolicy")} _ (rw e refl)) ∙ h) in
      let kept = k.7 in
      record {
        tier = ap (contains trust_tiers) (sym kept.tier) ∙ one_of-known trust_tiers _ k.0 _ k.4;
        usage =
            ap (contains secret_usage_modes) (sym kept.usage)
            ∙ one_of-known secret_usage_modes _ k.1 _ k.5;
        mode = (
          k.3,
          ap (λ f. find f "mode") (sym kept.egress) ∙ find-put_same k.2 "mode" (str k.3),
          one_of-known egress_modes _ k.3 _ k.6,
        );
      }
  | inr e ↦
      absurd (err≢ok (sym (if_true {b = not (d.identifier.kind == "McpPolicy")} _ (rw e refl)) ∙ h))
]
