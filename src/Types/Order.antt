-- ===== src/Types/Order.antt =====
-- The evidence ladder of `rank`, `raise` and `clampTo` in core/src/driver.cpp.
use printer_driver.Base.{◌≤◌, arith}
use printer_driver.Types.{ConfidenceLevel, rank, raise, clamp_to}

pub clamp_to-le : (value ceiling : ConfidenceLevel) → rank (clamp_to value ceiling) ≤ rank ceiling
unfolding clamp_to rank
clamp_to-le value ceiling = ground arith

-- A stronger claim under the same ceiling is not a weaker one.
pub clamp_to-raise :
    (value candidate ceiling : ConfidenceLevel)
    → rank (clamp_to value ceiling) ≤ rank (clamp_to (raise value candidate) ceiling)
unfolding clamp_to raise
clamp_to-raise value candidate ceiling = ground arith
