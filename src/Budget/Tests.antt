-- ===== src/Budget/Tests.antt =====
-- Budgets of server-go/modules/economizer/budget_test.go, and the theorems at them.
use aimee_module_economizer.Prelude.{◌≡◌, refl, none}
use aimee_module_economizer.Prelude.Int.{pos, ◌<ℤ◌}
use aimee_module_economizer.Prelude.Int64.{wrap_int64}
use aimee_module_economizer.Budget.{pct_of, clamp, resolve_budget}
use aimee_module_economizer.Budget.Bounds.{IsWithin, resolve_budget-IsWithin}

quarter : pct_of (pos 200000) (pos 25) ≡ pos 50000
unfolding pct_of clamp wrap_int64
quarter = refl

-- The product of a window of 2^62 tokens and 2 percent wraps around to a negative number, which the
-- second clamp of `pctOf` turns into zero.
wrapped_product : pct_of (pos 4611686018427387904) (pos 2) ≡ pos 0
unfolding pct_of clamp wrap_int64
wrapped_product = refl

resolve_budget-IsWithin_example :
    let b = resolve_budget (pos 1000) none in
    (pos 0 <ℤ b.context_window_tokens)
    × IsWithin b.context_window_tokens b.retained_band_tokens
    × IsWithin b.context_window_tokens b.tail_cap_tokens
    × IsWithin b.context_window_tokens b.pressure_ceiling_tokens
    × IsWithin b.context_window_tokens b.prefix_saturation_tokens
    × IsWithin b.context_window_tokens b.closet_budget_tokens
resolve_budget-IsWithin_example = resolve_budget-IsWithin (pos 1000) none
