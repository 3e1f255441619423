-- ===== src/Domain/Identity.antt =====
-- The identities that internal/domain/types.go derives from a filing and its tax year: the workflow
-- ID, the provider operation ID and the idempotency keys of the commands.
pub mod Distinct
use Prim.Native.String.{◌++◌}
use dbos_conformance.Common.{String, ℤ}
use dbos_conformance.Domain.Decimal.{show_int}

-- fmt.Sprintf("filing-%s-y%d", filingID, taxYear)
unfoldable pub workflow_id : String → ℤ → String
workflow_id filing_id tax_year = "filing-" ++ filing_id ++ "-y" ++ show_int tax_year

unfoldable pub provider_operation_id : String → ℤ → String
provider_operation_id filing_id tax_year = "filing-" ++ filing_id ++ "-y" ++ show_int tax_year

unfoldable pub submitted_command_key : String → String
submitted_command_key workflow = workflow ++ "-submitted"

unfoldable pub outcome_command_key : String → String
outcome_command_key workflow = workflow ++ "-outcome"

unfoldable pub review_command_key : String → String
review_command_key workflow = workflow ++ "-needs-review"

unfoldable pub submission_intent_command_key : String → String
submission_intent_command_key operation = operation ++ "-submission-intent"
