-- ===== src/Contracts/Target.antt =====
-- `validate_target` of scripts/pipeline/unified/contracts.py. A validation target makes it validate
-- the serving source as well; a source has no validation of its own, so two rounds are enough.
mod Depth
pub mod Tables
pub mod Identity
pub mod Stage
pub mod Candidate
pub mod Laws
mod Tests
use iac_modules.Common.{ℕ, zero, suc, Result, ok, err, refused, each, ◌>>=◌, ◌>>◌, if◌then◌else◌}
use iac_modules.Json.{Value, get, is_null}
use iac_modules.Contracts.Checkout.{Checkout}
use Tables.{stages}
use Identity.{check_identity, check_lifecycle, check_binding}
use Stage.{check_stage}
use Candidate.{validate_candidate}

-- All that `validate_target` checks before it looks at `validation`.
unfoldable pub check_target : Checkout → Value → Result (Unit {0})
check_target root target = do
  check_identity target
  check_lifecycle target
  check_binding target
  each (check_stage root target) stages

-- The number bounds how deep sources are followed.
unfoldable pub validate_within : ℕ → Checkout → Value → Result Value
validate_within zero root target = err (refused "sources nested too deep")
validate_within (suc n) root target =
    let candidate = validate_candidate (validate_within n root) root target in
    do check_target root target; if is_null (get "validation" target) then ok target else candidate

-- `validate_target`, with the target as it leaves it.
unfoldable pub validate_target : Checkout → Value → Result Value
validate_target root target = validate_within 2 root target
