-- ===== src/Execution/Authorization.antt =====
-- kernel/execution.py: a plan is made only for a decision that allows it, under the approval that the
-- decision asks for.
use context_control_plane.Base.{
  String, ◌≡◌, refl, sym, ◌∙◌, ◌⊎◌, inl, inr, true, false, not, Option, none, some, false≢true, ap,
  if_true, if_false, Bool-cases,
}
use context_control_plane.Python.Error.{ok, >>=-eq-ok, ok_injective}
use context_control_plane.Python.Text.{strip, is_empty}
use context_control_plane.Python.Runtime.{Runtime}
use context_control_plane.Resource.{ResourceDocument}
use context_control_plane.Security.Profile.{ConnectionSafetyDecision}
use context_control_plane.Approvals.{ApprovalReceiptRecord}
use context_control_plane.Approvals.Receipt.{validate_approval_receipt}
use context_control_plane.Approvals.Validity.{Approves, validate-Approves, validate_iff}
use context_control_plane.Execution.Plan.{CommandStatus, GovernedExecutionDecision, action_of}
use context_control_plane.Execution.Governed.{
  refused, ready, approve, build_connection_execution_plan,
}

module _ (rt : Runtime) (d : ConnectionSafetyDecision) (document : Option ResourceDocument) where
  -- The receipt is one that approves the action of the decision.
  pub record IsApproved (operation : String) (receipt : Option ApprovalReceiptRecord) : Type 0 where
    pub given : ApprovalReceiptRecord
    pub is_given : receipt ≡ some given
    pub approves : Approves rt given (action_of d operation document)

  -- What it takes to execute an operation.
  pub record IsAuthorized (operation : String) (receipt : Option ApprovalReceiptRecord)
      : Type 0 where
    pub allowed : d.allowed ≡ true
    pub approved : (d.approval_required ≡ false) ⊎ IsApproved operation receipt

  -- The two kinds of answers: no plan, with the status that says why, and a plan.
  pub data Answer (operation : String) (receipt : Option ApprovalReceiptRecord)
      (g : GovernedExecutionDecision) : Type 0 where
    without_plan :
        g.plan ≡ none
        → (g.status ≡ CommandStatus.denied) ⊎ (g.status ≡ CommandStatus.approval_required)
        → Answer operation receipt g
    with_plan :
        IsAuthorized operation receipt
        → ready rt d operation receipt document ≡ g
        → Answer operation receipt g

  approve-Answer :
      (operation : String) (receipt : Option ApprovalReceiptRecord) (g : GovernedExecutionDecision)
      → d.allowed ≡ true
      → approve rt d operation receipt document ≡ ok g
      → Answer operation receipt g
  unfolding approve refused
  approve-Answer operation none g a h = rw (← ok_injective h) (without_plan refl (inr refl))
  approve-Answer operation (some r) g a h =
      let (answer, checked, h₁) =
        >>=-eq-ok (validate_approval_receipt rt r (action_of d operation document)) _ h in
      elim (Bool-cases answer.0) [
        | inl valid ↦
            with_plan
              (record {
                allowed = a;
                approved = inr (record {
                  given = r;
                  is_given = refl;
                  approves = validate-Approves rt r _ answer.1 (checked ∙ cc valid);
                });
              })
              (ok_injective (rw valid at h₁))
        | inr invalid ↦ rw (← ok_injective (rw invalid at h₁)) (without_plan refl (inl refl))
      ]

  -- An execution is planned only for a decision that allows it and, where that decision requires an
  -- approval, with a receipt that approves this very action. Any other answer has no plan, and the
  -- status "denied" or "approval_required".
  pub build-Answer :
      (operation : String) (receipt : Option ApprovalReceiptRecord) (g : GovernedExecutionDecision)
      → build_connection_execution_plan rt d operation receipt document ≡ ok g
      → Answer (strip operation) receipt g
  unfolding build_connection_execution_plan refused
  build-Answer operation receipt g h = elim (Bool-cases (is_empty (strip operation))) [
    | inl blank ↦ absurd (cc (sym (if_true _ blank) ∙ h))
    | inr given ↦
        let h₁ = sym (if_false _ given) ∙ h in
        elim (Bool-cases d.allowed) [
          | inr refusal ↦
              rw (← ok_injective (sym (if_true _ (ap not refusal)) ∙ h₁))
                (without_plan refl (inl refl))
          | inl allowed ↦
              let h₂ = sym (if_false _ (ap not allowed)) ∙ h₁ in
              elim (Bool-cases d.approval_required) [
                | inl required ↦
                    approve-Answer (strip operation) receipt g allowed
                      (sym (if_true _ required) ∙ h₂)
                | inr free ↦
                    with_plan (record { allowed = allowed; approved = inl free })
                      (ok_injective (sym (if_false _ free) ∙ h₂))
              ]
        ]
  ]

  approve-ready :
      (operation : String) (receipt : Option ApprovalReceiptRecord)
      → IsApproved operation receipt
      → approve rt d operation receipt document ≡ ok (ready rt d operation receipt document)
  unfolding approve
  approve-ready operation receipt a =
      rw a.is_given (rw ((validate_iff rt a.given (action_of d operation document)).1 a.approves))

  -- Every authorized operation that is not blank is planned: the answer is the plan, and never an
  -- error.
  pub IsAuthorized-build :
      (operation : String) (receipt : Option ApprovalReceiptRecord)
      → is_empty (strip operation) ≡ false
      → IsAuthorized (strip operation) receipt
      → build_connection_execution_plan rt d operation receipt document
        ≡ ok (ready rt d (strip operation) receipt document)
  unfolding build_connection_execution_plan
  IsAuthorized-build operation receipt given a =
      if_false _ given
      ∙ (if_false _ (ap not a.allowed) ∙ elim (Bool-cases d.approval_required) [
        | inr free ↦ if_false _ free
        | inl required ↦ if_true _ required ∙ (elim a.approved [
          | inl free ↦ absurd (false≢true (sym free ∙ required))
          | inr approved ↦ approve-ready (strip operation) receipt approved
        ])
      ])
