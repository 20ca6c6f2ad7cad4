-- ===== src/Budget.antt =====
-- The token budgets of server-go/modules/economizer/budget.go. A Go int is an int64, its product
-- wrapped around.
pub mod Bounds
pub mod Tests
use aimee_module_economizer.Prelude.{
  ℕ, zero, suc, ◌+◌, ◌-◌, ◌*◌, ◌/◌, ◌%◌, ◌^◌, ◌≤◌, ◌<◌, min, ◌≡◌, refl, sym, ap, ap₂, ◌∙◌, subst,
  fun_ext, ◌≢◌, ◌↔◌, ◌⊎◌, inl, inr, Bool, true, false, not, ◌&&◌, ◌||◌, Option, none, some, List,
  [], ◌∷◌, ◌++◌, map, append-nil, append_assoc, arith, if◌then◌else◌, ◌==◌, ltb, leb, Bytes, codes,
  eq_bytes, eq_bytes_iff, length, All, any, all, Bool-cases, Option-cases, ==_iff, take, drop,
}
use aimee_module_economizer.Prelude.Int.{ℤ, pos, negsuc, pos_part, ltb_ℤ, leb_ℤ}
use aimee_module_economizer.Prelude.Int64.{wrap_int64}

abbrev pub budget_default_window : ℕ
budget_default_window = 200000

abbrev pub budget_default_retained_pct : ℕ
budget_default_retained_pct = 25

abbrev pub budget_default_tail_cap_pct : ℕ
budget_default_tail_cap_pct = 15

abbrev pub budget_default_pressure_pct : ℕ
budget_default_pressure_pct = 85

abbrev pub budget_default_saturation_pct : ℕ
budget_default_saturation_pct = 50

abbrev pub budget_default_closet_tokens : ℕ
budget_default_closet_tokens = 512

pub record BudgetConfig : Type 0 where
  pub context_window_tokens : ℤ
  pub retained_band_pct : ℤ
  pub tail_cap_pct : ℤ
  pub pressure_ceiling_pct : ℤ
  pub prefix_saturation_pct : ℤ
  pub closet_budget_tokens : ℤ

pub record Budget : Type 0 where
  pub is_known : Bool
  pub context_window_tokens : ℤ
  pub retained_band_tokens : ℤ
  pub tail_cap_tokens : ℤ
  pub pressure_ceiling_tokens : ℤ
  pub prefix_saturation_tokens : ℤ
  pub closet_budget_tokens : ℤ

abbrev pub is_positive : ℤ → Bool
is_positive z = ltb_ℤ (pos 0) z

-- Go's division by 100, towards zero
abbrev pub over_100 : ℤ → ℤ
over_100 (pos n) = pos (n / 100)
over_100 (negsuc n) = if suc n / 100 == 0 then pos 0 else negsuc (suc n / 100 - 1)

-- the clamps of `pctOf`
unfoldable pub clamp : ℤ → ℤ → ℤ
clamp window v =
    let w = if ltb_ℤ window v then window else v in if ltb_ℤ w (pos 0) then pos 0 else w

-- `pctOf`
unfoldable pub pct_of : ℤ → ℤ → ℤ
pct_of window pct =
    if not (is_positive window) || not (is_positive pct)
    then pos 0
    else clamp window (over_100 (wrap_int64 (pos (pos_part window * pos_part pct))))

-- an operator's override, or the default
unfoldable pub override : ℕ → (BudgetConfig → ℤ) → Option BudgetConfig → ℤ
override default field none = pos default
override default field (some cfg) = if is_positive (field cfg) then field cfg else pos default

unfoldable pub window_of : ℤ → Option BudgetConfig → ℤ
window_of window_tokens cfg =
    if is_positive window_tokens
    then window_tokens
    else override budget_default_window (λ c. c.context_window_tokens) cfg

abbrev pub at_most : ℤ → ℤ → ℤ
at_most window closet = if ltb_ℤ window closet then window else closet

-- `ResolveBudget`
unfoldable pub resolve_budget : ℤ → Option BudgetConfig → Budget
resolve_budget window_tokens cfg =
    let window = window_of window_tokens cfg in
    record {
      is_known = is_positive window_tokens;
      context_window_tokens = window;
      retained_band_tokens =
          pct_of window (override budget_default_retained_pct (λ c. c.retained_band_pct) cfg);
      tail_cap_tokens =
          pct_of window (override budget_default_tail_cap_pct (λ c. c.tail_cap_pct) cfg);
      pressure_ceiling_tokens =
          pct_of window (override budget_default_pressure_pct (λ c. c.pressure_ceiling_pct) cfg);
      prefix_saturation_tokens =
          pct_of window (override budget_default_saturation_pct (λ c. c.prefix_saturation_pct) cfg);
      closet_budget_tokens =
          at_most window (override budget_default_closet_tokens (λ c. c.closet_budget_tokens) cfg);
    }
