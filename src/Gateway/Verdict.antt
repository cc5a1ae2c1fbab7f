-- ===== src/Gateway/Verdict.antt =====
-- kernel/gateway.py: which rule, override or default a decision comes from.
use context_control_plane.Base.{
  ℕ, ◌+◌, String, ◌<>◌, ◌≡◌, refl, ap, inl, inr, true, false, none, some, List, [], ◌∷◌, ◌++◌,
  arith, length, Bool-cases, Option-cases,
}
use context_control_plane.Python.Error.{ok, >>=-eq-ok, ok_injective}
use context_control_plane.Python.Value.{pos, negsuc, get, has_key}
use context_control_plane.Gateway.Rule.{GatewayRule, Context, matches, normalize_decision}
use context_control_plane.Gateway.Profile.{GatewayPolicyProfile, entry_of}
use context_control_plane.Gateway.Evaluate.{
  GatewayDecision, Request, first_match, context_of, base_decision, entry_warnings, conclude,
  evaluate_gateway_policy,
}

-- No rule of the list matches.
abbrev pub NoneMatch : List GatewayRule → Context → Type 0
NoneMatch [] c = Unit
NoneMatch (rule ∷ rest) c = (matches rule c ≡ false) × NoneMatch rest c

-- Where the first matching rule stands.
record FirstAt (rules : List GatewayRule) (c : Context) (rule : GatewayRule) : Type 0 where
  before : List GatewayRule
  after : List GatewayRule
  split : rules ≡ before ++ rule ∷ after
  earlier : NoneMatch before c
  here : matches rule c ≡ true

-- A first match further down stays the first behind a rule that does not match.
later_match :
    (i : ℕ) {k : ℕ} {r rule : GatewayRule} {rest : List GatewayRule} {c : Context}
    → matches r c ≡ false
    → (f : FirstAt rest c rule) × (k ≡ i + 1 + length f.before)
    → (f : FirstAt (r ∷ rest) c rule) × (k ≡ i + length f.before)
later_match i {r} no_match (f, e) = (
  record {
    before = r ∷ f.before;
    after = f.after;
    split = ap (λ l. r ∷ l) f.split;
    earlier = (no_match, f.earlier);
    here = f.here;
  },
  omega (arith, e),
)

first_match-FirstAt :
    (i : ℕ) (rules : List GatewayRule) (c : Context) (k : ℕ) (rule : GatewayRule)
    → first_match i rules c ≡ some (k, rule)
    → (f : FirstAt rules c rule) × (k ≡ i + length f.before)
unfolding first_match
first_match-FirstAt i [] c k rule h = cc
first_match-FirstAt i (r ∷ rest) c k rule h = elim (Bool-cases (matches r c)) [
  | inl yes_match ↦
      let same : r ≡ rule = ground (arith, h, yes_match) in
      (
        record {
          before = [];
          after = rest;
          split = ap (λ x. x ∷ rest) same;
          earlier = tt;
          here = rw (← same) yes_match;
        },
        ground (arith, h, yes_match),
      )
  | inr no_match ↦
      later_match i no_match
        (first_match-FirstAt (i + 1) rest c k rule (ground (arith, h, no_match)))
]

first_match-NoneMatch :
    (i : ℕ) (rules : List GatewayRule) (c : Context)
    → first_match i rules c ≡ none
    → NoneMatch rules c
unfolding first_match
first_match-NoneMatch i [] c h = tt
first_match-NoneMatch i (r ∷ rest) c h = ground (arith, first_match-NoneMatch (i + 1) rest c)

-- Where the decision `d` of the policy `p` comes from: the first rule that matches, with its place;
-- else the override of the classification; else the default.
pub data Verdict (p : GatewayPolicyProfile) (c : Context) (d : GatewayDecision) : Type 0 where
  by_rule :
      (before after : List GatewayRule) (rule : GatewayRule)
      → p.rules ≡ before ++ rule ∷ after
      → NoneMatch before c
      → matches rule c ≡ true
      → d.decision ≡ rule.decision
      → d.matched_rule_index ≡ pos (length before)
      → Verdict p c d
  by_classification :
      NoneMatch p.rules c
      → has_key (entry_of p.classifications c.classification) "decision" ≡ true
      → normalize_decision
          (get (entry_of p.classifications c.classification) "decision")
          ("classifications." <> c.classification <> ".decision")
        ≡ ok d.decision
      → d.matched_rule_index ≡ negsuc 0
      → Verdict p c d
  by_default :
      NoneMatch p.rules c
      → has_key (entry_of p.classifications c.classification) "decision" ≡ false
      → d.decision ≡ p.default_decision
      → d.matched_rule_index ≡ negsuc 0
      → Verdict p c d

module _ (p : GatewayPolicyProfile) (c : Context) (ws : List String) where
  conclude-by_rule :
      (base : String × String) (k : ℕ) (rule : GatewayRule)
      → (f : FirstAt p.rules c rule) × (k ≡ 0 + length f.before)
      → Verdict p c (conclude p c ws base (some (k, rule)))
  unfolding conclude
  conclude-by_rule (effective, reason) k rule (f, e) =
      by_rule f.before f.after rule f.split f.earlier f.here refl (ap pos (omega (arith, e)))

  conclude-by_base :
      (effective reason : String)
      → base_decision p c.classification ≡ ok (effective, reason)
      → NoneMatch p.rules c
      → Verdict p c (conclude p c ws (effective, reason) none)
  unfolding conclude base_decision
  conclude-by_base effective reason h nothing =
      let entry = entry_of p.classifications c.classification in
      elim (Bool-cases (has_key entry "decision")) [
        | inl own ↦ by_classification nothing own (ground (arith, h, own)) refl
        | inr absent ↦ by_default nothing absent (ground (arith, h, absent)) refl
      ]

  conclude-Verdict :
      (base : String × String)
      → base_decision p c.classification ≡ ok base
      → Verdict p c (conclude p c ws base (first_match 0 p.rules c))
  conclude-Verdict (effective, reason) h = elim (Option-cases (first_match 0 p.rules c)) [
    | inl missed ↦
        rw missed (conclude-by_base effective reason h (first_match-NoneMatch 0 p.rules c missed))
    | inr (kr, hit) ↦ rw hit (
        conclude-by_rule (effective, reason) kr.0 kr.1
          (first_match-FirstAt 0 p.rules c kr.0 kr.1 hit))
  ]

-- A decision that the evaluation returns comes from the first rule that matches the normalized
-- request, with that rule's place as the index; where no rule matches, from the decision of the
-- classification's entry, if it has one; else it is the policy's default. The index is then -1.
pub evaluate-Verdict :
    (p : GatewayPolicyProfile) (r : Request) (d : GatewayDecision)
    → evaluate_gateway_policy p r ≡ ok d
    → Verdict p (context_of p r) d
unfolding evaluate_gateway_policy
evaluate-Verdict p r d h =
    let c = context_of p r in
    let (base, hb, hd) = >>=-eq-ok (base_decision p c.classification) _ h in
    rw (← ok_injective hd) (conclude-Verdict p c (entry_warnings p c.classification) base hb)
