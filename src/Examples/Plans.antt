-- ===== src/Examples/Plans.antt =====
-- An execution that is planned under the receipt of the example.
use context_control_plane.Base.{◌≡◌, refl, inr, some}
use context_control_plane.Python.Error.{ok}
use context_control_plane.Python.Text.{strip, is_empty}
use context_control_plane.Approvals.Issue.{at}
use context_control_plane.Approvals.Validity.{validate-Approves}
use context_control_plane.Execution.Plan.{GovernedExecutionDecision}
use context_control_plane.Execution.Governed.{
  execution_plan, ready, build_connection_execution_plan,
}
use context_control_plane.Execution.Authorization.{
  IsAuthorized, Answer, build-Answer, IsAuthorized-build,
}
use context_control_plane.Python.Value.{obj}
use context_control_plane.Execution.Output.{governed_to_dict}
use context_control_plane.Execution.Disclosure.{
  IsPublicBackend, within, governed_to_dict-IsPublicBackend,
}
use context_control_plane.Execution.Policy.{IsPermitted, plan-IsPermitted}
use context_control_plane.Examples.Machine.{machine}
use context_control_plane.Examples.Data.{connection, registry}
use context_control_plane.Examples.Requests.{decision, evaluated}
use context_control_plane.Examples.Receipts.{action, receipt, receipt-accepted}

abbrev planned : GovernedExecutionDecision
planned = ready (at machine 10000000) decision "update" (some receipt) (some connection)

authorized :
    IsAuthorized (at machine 10000000) decision (some connection) (strip " update") (some receipt)
unfolding strip
authorized = record {
  allowed = refl;
  approved = inr (record {
    given = receipt;
    is_given = refl;
    approves =
        validate-Approves (at machine 10000000) receipt action "approval receipt is valid"
          receipt-accepted;
  });
}

built :
    build_connection_execution_plan
      (at machine 10000000)
      decision
      " update"
      (some receipt)
      (some connection)
    ≡ ok planned
unfolding strip
built =
    IsAuthorized-build (at machine 10000000) decision (some connection) " update" (some receipt)
      (unfold is_empty in refl) authorized

IsAuthorized-build_example :
    build_connection_execution_plan
      (at machine 10000000)
      decision
      " update"
      (some receipt)
      (some connection)
    ≡ ok (ready (at machine 10000000) decision (strip " update") (some receipt) (some connection))
IsAuthorized-build_example =
    IsAuthorized-build (at machine 10000000) decision (some connection) " update" (some receipt)
      (unfold is_empty strip in refl) authorized

build-Answer_example :
    Answer (at machine 10000000) decision (some connection) (strip " update") (some receipt) planned
build-Answer_example =
    build-Answer (at machine 10000000) decision (some connection) " update" (some receipt) planned
      built

plan-IsPermitted_example :
    IsPermitted (at machine 10000000) decision (some connection) (strip " update") (some receipt)
plan-IsPermitted_example =
    plan-IsPermitted (at machine 10000000) connection "write" "materialize" "update" (some registry)
      decision (some connection) " update" (some receipt) planned
      (execution_plan (at machine 10000000) decision "update" (some receipt) (some connection))
      evaluated built (unfold ready in refl)

governed_to_dict-IsPublicBackend_example :
    let written = some (obj (governed_to_dict planned)) in
    IsPublicBackend (within (within written "plan") "secretBackend")
    × IsPublicBackend (within (within (within written "connection") "secretControls") "backend")
governed_to_dict-IsPublicBackend_example =
    governed_to_dict-IsPublicBackend (at machine 10000000) decision "update" (some receipt)
      (some connection)
