-- ===== src/Operator/Agreement.antt =====
-- `reconcile -apply` of cmd/opsctl/main.go beside `Reconcile` of internal/workflow/filing.go: the two
-- decide the same about a filing, when they see the same.
use dbos_conformance.Common.{String, true, false, none, some, ◌==◌, string_eq, ◌≡◌}
use dbos_conformance.Domain.{state_needs_review}
use dbos_conformance.Accountable.Queries.{Filing as Served}
use dbos_conformance.Workflow.Outcome.{map_outcome}
use dbos_conformance.Workflow.Reconcile as Net
use dbos_conformance.Workflow.Reconcile.{Looks, Start, started, not_started}
use dbos_conformance.Operator.Enqueue as Enqueue
use dbos_conformance.Operator.Reconcile.{final_command_type}

-- The two read the provider's outcome alike.
data Reading (outcome : String) : Type 0 where
  unknown :
      final_command_type outcome ≡ none
      → (map_outcome outcome == state_needs_review) ≡ true
      → Reading outcome
  known :
      (type : String)
      → final_command_type outcome ≡ some type
      → (map_outcome outcome == state_needs_review) ≡ false
      → Reading outcome
