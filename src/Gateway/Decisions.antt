-- ===== src/Gateway/Decisions.antt =====
-- kernel/gateway.py: the decisions of a loaded policy, and when an evaluation raises.
use context_control_plane.Base.{
  String, ◌<>◌, ◌≡◌, ◌↔◌, true, List, [], ◌∷◌, ◌++◌, arith, contains, Bool-cases, inl, inr, ◌==◌,
  ◌⊎◌, eq_iff, if_true, if_false, ap, not, sym, ◌∙◌, false≢true, refl,
}
use context_control_plane.Python.Error.{Error, ok, err, >>=-eq-ok, ok_injective}
use context_control_plane.Python.Value.{Value, str, Fields, get, get_or, has_key, text_or}
use context_control_plane.Python.Text.{strip, lower, is_empty}
use context_control_plane.Resource.{ResourceDocument}
use context_control_plane.Gateway.Rule.{
  GatewayRule, Context, mapping, mapping_list, normalize_decision, allowed_decisions, lowered,
}
use context_control_plane.Gateway.Profile.{
  GatewayPolicyProfile, entry_of, load_rule, load_rules, load_classifications, from_document,
}
use context_control_plane.Gateway.Evaluate.{
  GatewayDecision, Request, context_of, base_decision, evaluate_gateway_policy,
}
use context_control_plane.Gateway.Verdict.{
  Verdict, by_rule, by_classification, by_default, evaluate-Verdict,
}

-- One of "allow", "deny" and "approval_required".
abbrev pub IsDecision : String → Type 0
IsDecision s = contains allowed_decisions s ≡ true

normalize_decision-IsDecision :
    (raw : Value) (field_name d : String) → normalize_decision raw field_name ≡ ok d → IsDecision d
unfolding normalize_decision
normalize_decision-IsDecision raw field_name d h = ground arith

load_rule-IsDecision :
    (item : Fields) (rule : GatewayRule) → load_rule item ≡ ok rule → IsDecision rule.decision
unfolding load_rule
load_rule-IsDecision item rule h =
    let (match, _, h₁) = >>=-eq-ok (mapping (get item "match") "rules[].match") _ h in
    let (decision, hd, h₂) =
      >>=-eq-ok (normalize_decision (get item "decision") "rules[].decision") _ h₁ in
    rw (← ok_injective h₂) (normalize_decision-IsDecision _ _ decision hd)

abbrev AllDecisions : List GatewayRule → Type 0
AllDecisions [] = Unit
AllDecisions (rule ∷ rules) = IsDecision rule.decision × AllDecisions rules

load_rules-AllDecisions :
    (raw : List Fields) (rules : List GatewayRule) → load_rules raw ≡ ok rules → AllDecisions rules
unfolding load_rules
load_rules-AllDecisions [] rules h = rw (← ok_injective h) tt
load_rules-AllDecisions (item ∷ raw) rules h =
    let (rule, hr, h₁) = >>=-eq-ok (load_rule item) _ h in
    let (more, hm, h₂) = >>=-eq-ok (load_rules raw) _ h₁ in
    rw (← ok_injective h₂) (load_rule-IsDecision item rule hr, load_rules-AllDecisions raw more hm)

-- What loading a document guarantees of the decisions that it fixes.
pub record IsLoaded (p : GatewayPolicyProfile) : Type 0 where
  pub default : IsDecision p.default_decision
  pub rules : AllDecisions p.rules

pub from_document-IsLoaded :
    (document : ResourceDocument) (p : GatewayPolicyProfile)
    → from_document document ≡ ok p
    → IsLoaded p
unfolding from_document
from_document-IsLoaded document p h =
    elim (Bool-cases (document.identifier.kind == "GatewayPolicy")) [
      | inr other ↦ absurd (cc (rw other at h))
      | inl same ↦
          let h₀ = rw same at h in
          let (defaults, _, h₁) =
            >>=-eq-ok (mapping (get document.spec "defaults") "defaults") _ h₀ in
          let (default, hd, h₂) =
            >>=-eq-ok
              (normalize_decision (get_or defaults "decision" (str "allow")) "defaults.decision") _
              h₁ in
          let (raw, _, h₃) = >>=-eq-ok (mapping_list (get document.spec "rules") "rules") _ h₂ in
          let (rules, hr, h₄) = >>=-eq-ok (load_rules raw) _ h₃ in
          let (entries, _, h₅) =
            >>=-eq-ok (mapping (get document.spec "classifications") "classifications") _ h₄ in
          let (classifications, _, h₆) = >>=-eq-ok (load_classifications entries []) _ h₅ in
          rw (← ok_injective h₆) (record {
            default = normalize_decision-IsDecision _ _ default hd;
            rules = load_rules-AllDecisions raw rules hr;
          })
    ]

AllDecisions-split :
    (before : List GatewayRule) (rule : GatewayRule) (after : List GatewayRule)
    → AllDecisions (before ++ rule ∷ after)
    → IsDecision rule.decision
AllDecisions-split [] rule after h = h.0
AllDecisions-split (r ∷ before) rule after h = AllDecisions-split before rule after h.1

Verdict-IsDecision :
    {p : GatewayPolicyProfile} {c : Context} {d : GatewayDecision}
    → IsLoaded p
    → Verdict p c d
    → IsDecision d.decision
Verdict-IsDecision l (by_rule before after rule split _ _ same _) =
    rw same (AllDecisions-split before rule after (rw split at l.rules))
Verdict-IsDecision l (by_classification _ _ normal _) = normalize_decision-IsDecision _ _ _ normal
Verdict-IsDecision l (by_default _ _ same _) = rw same l.default

-- A policy that was loaded from a document decides "allow", "deny" or "approval_required", on every
-- request that it decides at all.
pub evaluate-IsDecision :
    (document : ResourceDocument) (p : GatewayPolicyProfile) (r : Request) (d : GatewayDecision)
    → from_document document ≡ ok p
    → evaluate_gateway_policy p r ≡ ok d
    → IsDecision d.decision
evaluate-IsDecision document p r d loaded decided =
    Verdict-IsDecision (from_document-IsLoaded document p loaded) (evaluate-Verdict p r d decided)

-- An evaluation raises what the reading of the "decision" of its classification raises.
evaluate-eq-err :
    (p : GatewayPolicyProfile) (r : Request) (e : Error)
    → let c = context_of p r in
      let entry = entry_of p.classifications c.classification in
      (evaluate_gateway_policy p r ≡ err e) ↔ (
        (has_key entry "decision" ≡ true)
        × (normalize_decision
              (get entry "decision")
              ("classifications." <> c.classification <> ".decision")
            ≡ err e))
unfolding evaluate_gateway_policy base_decision
evaluate-eq-err p r e = ground arith

-- The three words that a policy may decide by.
abbrev pub IsWord : String → Type 0
IsWord s = (s ≡ "allow") ⊎ ((s ≡ "deny") ⊎ (s ≡ "approval_required"))

contains-IsWord : (s : String) → (contains allowed_decisions s ≡ true) ↔ IsWord s
unfolding contains
contains-IsWord s = ground (
  arith,
  eq_iff s "allow",
  eq_iff s "deny",
  eq_iff s "approval_required",
  eq_iff "allow" s,
  eq_iff "deny" s,
  eq_iff "approval_required" s,
)

empty-IsWord : (s : String) → is_empty s ≡ true → ¬ IsWord s
unfolding is_empty
empty-IsWord String.[] h word = elim word [
  | inl e ↦ absurd (false≢true (ap is_empty (sym e) ∙ refl))
  | inr rest ↦ elim rest [
    | inl e ↦ absurd (false≢true (ap is_empty (sym e) ∙ refl))
    | inr e ↦ absurd (false≢true (ap is_empty (sym e) ∙ refl))
  ]
]
empty-IsWord (String.◌∷◌ c s) h word = false≢true h

normalize_decision-raises :
    (raw : Value) (field_name : String)
    → ¬ IsWord (lower (strip (text_or raw "")))
    → (e : Error) × (normalize_decision raw field_name ≡ err e)
unfolding normalize_decision lowered
normalize_decision-raises raw field_name h =
    let value = lower (strip (text_or raw "")) in
    elim (Bool-cases (is_empty value)) [
      | inl blank ↦ (_, if_true _ blank)
      | inr given ↦ elim (Bool-cases (contains allowed_decisions value)) [
        | inl known ↦ absurd (h ((contains-IsWord value).0 known))
        | inr other ↦ (_, if_false _ given ∙ if_true _ (ap not other))
      ]
    ]

normalize_decision-IsWord :
    (raw : Value) (field_name : String) (e : Error)
    → normalize_decision raw field_name ≡ err e
    → ¬ IsWord (lower (strip (text_or raw "")))
unfolding normalize_decision lowered is_empty
normalize_decision-IsWord raw field_name e h word =
    let value = lower (strip (text_or raw "")) in
    elim (Bool-cases (is_empty value)) [
      | inl blank ↦ absurd (empty-IsWord value blank word)
      | inr given ↦
          let known = (contains-IsWord value).1 word in
          absurd (cc (sym (if_false _ given ∙ if_false _ (ap not known)) ∙ h))
    ]

-- An evaluation raises exactly when the entry of the request's classification has a "decision" that,
-- without the space around it and in lower case, is none of "allow", "deny" and "approval_required",
-- whatever the rules say.
pub evaluate-err_iff :
    (p : GatewayPolicyProfile) (r : Request)
    → let c = context_of p r in
      let entry = entry_of p.classifications c.classification in
      ((e : Error) × (evaluate_gateway_policy p r ≡ err e)) ↔ (
        (has_key entry "decision" ≡ true)
        × (¬ IsWord (lower (strip (text_or (get entry "decision") "")))))
evaluate-err_iff p r =
    let c = context_of p r in
    let entry = entry_of p.classifications c.classification in
    let name = "classifications." <> c.classification <> ".decision" in
    (
      λ h.
          let got = (evaluate-eq-err p r h.0).0 h.1 in
          (got.0, normalize_decision-IsWord (get entry "decision") name h.0 got.1),
      λ h.
          let got = normalize_decision-raises (get entry "decision") name h.1 in
          (got.0, (evaluate-eq-err p r got.0).1 (h.0, got.1)),
    )
