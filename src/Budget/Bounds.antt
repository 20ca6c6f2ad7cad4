-- ===== src/Budget/Bounds.antt =====
-- The bounds of a budget (server-go/modules/economizer/budget.go).
use aimee_module_economizer.Prelude.{
  ℕ, zero, suc, ◌*◌, ◌/◌, ◌<◌, min, ◌≡◌, inl, inr, false, not, ◌||◌, Option, none, some, arith,
  Bool-cases,
}
use aimee_module_economizer.Prelude.Int.{ℤ, pos, ltb_ℤ, ◌≤ℤ◌, ◌<ℤ◌}
use aimee_module_economizer.Prelude.Int64.{wrap_int64_id}
use aimee_module_economizer.Budget.{
  budget_default_closet_tokens, at_most, BudgetConfig, pct_of, clamp, override, window_of,
  resolve_budget, is_positive, budget_default_window,
}

-- from zero to the window
abbrev pub IsWithin : ℤ → ℤ → Type 0
IsWithin window v = (pos 0 ≤ℤ v) × (v ≤ℤ window)

clamp-IsWithin : (window v : ℤ) → pos 0 <ℤ window → IsWithin window (clamp window v)
unfolding clamp
clamp-IsWithin window v h = elim (Bool-cases (ltb_ℤ window v)) [
  | inl e ↦
      let f : ltb_ℤ window (pos 0) ≡ false = ground arith in rw (e, f) (omega arith, omega arith)
  | inr e ↦ elim (Bool-cases (ltb_ℤ v (pos 0))) [
    | inl f ↦ rw (e, f) (omega arith, omega arith)
    | inr f ↦ rw (e, f) (ground arith, ground arith)
  ]
]

pct_of-IsWithin : (window pct : ℤ) → pos 0 <ℤ window → IsWithin window (pct_of window pct)
unfolding pct_of
pct_of-IsWithin window pct h =
    elim (Bool-cases (not (is_positive window) || not (is_positive pct))) [
      | inl e ↦ rw e (omega arith, omega arith)
      | inr e ↦ rw e (clamp-IsWithin window _ h)
    ]

-- Without a wrap-around, `pctOf` is the percentage of the window, rounded down, and never more than
-- the window.
pub pct_of_exact :
    (window pct : ℕ)
    → window * pct < 9223372036854775808
    → pct_of (pos window) (pos pct) ≡ pos (min window (window * pct / 100))
unfolding pct_of clamp
pct_of_exact zero pct h = grind arith
pct_of_exact (suc w) zero h = grind arith
pct_of_exact (suc w) (suc p) h =
    rw (wrap_int64_id (pos (suc w * suc p)) (omega arith, omega arith)) (ground arith)

override_positive :
    (default : ℕ) (field : BudgetConfig → ℤ) (cfg : Option BudgetConfig)
    → 0 < default
    → pos 0 <ℤ override default field cfg
unfolding override
override_positive default field none h = omega arith
override_positive default field (some cfg) h = elim (Bool-cases (is_positive (field cfg))) [
  | inl e ↦ rw e (ground arith)
  | inr e ↦ rw e (omega arith)
]

window_positive : (w : ℤ) (cfg : Option BudgetConfig) → pos 0 <ℤ window_of w cfg
unfolding window_of
window_positive w cfg = elim (Bool-cases (is_positive w)) [
  | inl e ↦ rw e (ground arith)
  | inr e ↦
      rw e
        (override_positive budget_default_window (λ c. c.context_window_tokens) cfg (omega arith))
]

at_most-IsWithin :
    (window c : ℤ) → pos 0 <ℤ window → pos 0 <ℤ c → IsWithin window (at_most window c)
at_most-IsWithin window c h k = elim (Bool-cases (ltb_ℤ window c)) [
  | inl e ↦ rw e (omega arith, omega arith)
  | inr e ↦ rw e (omega arith, ground arith)
]

-- Every budget has a positive window, and each of its token counts is from zero to that window,
-- whatever the overrides are and even where a product wraps around.
pub resolve_budget-IsWithin :
    (window_tokens : ℤ) (cfg : Option BudgetConfig)
    → let b = resolve_budget window_tokens cfg in
      (pos 0 <ℤ b.context_window_tokens)
      × IsWithin b.context_window_tokens b.retained_band_tokens
      × IsWithin b.context_window_tokens b.tail_cap_tokens
      × IsWithin b.context_window_tokens b.pressure_ceiling_tokens
      × IsWithin b.context_window_tokens b.prefix_saturation_tokens
      × IsWithin b.context_window_tokens b.closet_budget_tokens
unfolding resolve_budget
resolve_budget-IsWithin w cfg =
    let p = window_positive w cfg in
    let window = window_of w cfg in
    (
      p,
      pct_of-IsWithin window _ p,
      pct_of-IsWithin window _ p,
      pct_of-IsWithin window _ p,
      pct_of-IsWithin window _ p,
      at_most-IsWithin window _ p (
          override_positive budget_default_closet_tokens (λ c. c.closet_budget_tokens) cfg
            (omega arith)),
    )
