-- ===== src/Proof/Cost.antt =====
-- `ProofCostEvaluate` of server-go/modules/economizer/proof.go.
use aimee_module_economizer.Prelude.{
  Bool, true, false, ◌||◌, Option, none, some, List, [], ◌∷◌, if◌then◌else◌,
}
use aimee_module_economizer.Prelude.Int.{ℤ, pos, ltb_ℤ, leb_ℤ}
use aimee_module_economizer.Prelude.Int64.{max_int64}
use aimee_module_economizer.Proof.Money.{money_add}
use aimee_module_economizer.Proof.Validate.{
  Proof, Scenario, validate_proof, is_intervene, Reason, invalid_money_bound, money_overflow,
  not_strictly_cheaper, proof_accepted,
}

pub data CostVerdict : Type 0 where
  cost_rejected cost_proven cost_indeterminate : CostVerdict

-- `CostResult`
abbrev pub CostResult : Type 0
CostResult = CostVerdict × Reason

abbrev is_negative : ℤ → Bool
is_negative z = ltb_ℤ z (pos 0)

abbrev pub money_min : ℤ → ℤ → ℤ
money_min a b = if ltb_ℤ a b then a else b

abbrev pub money_max : ℤ → ℤ → ℤ
money_max a b = if ltb_ℤ b a then a else b

unfoldable pub bad_bound : Scenario → Bool
bad_bound s =
    is_negative s.baseline_lower
    || is_negative s.baseline_upper
    || is_negative s.candidate_lower
    || is_negative s.candidate_upper
    || ltb_ℤ s.baseline_upper s.baseline_lower
    || ltb_ℤ s.candidate_upper s.candidate_lower

-- a bound with the margin against a lower bound: `cost_proven` if it is strictly below
unfoldable pub compare_cost : Option ℤ → ℤ → CostResult
compare_cost none lower = (cost_indeterminate, money_overflow)
compare_cost (some with_margin) lower =
    if leb_ℤ lower with_margin
    then (cost_rejected, not_strictly_cheaper)
    else (cost_proven, proof_accepted)

unfoldable pub scenario_cost : ℤ → Scenario → CostResult
scenario_cost margin s =
    if bad_bound s
    then (cost_indeterminate, invalid_money_bound)
    else compare_cost (money_add s.candidate_upper margin) s.baseline_lower

abbrev pub is_proven : CostVerdict → Bool
is_proven cost_proven = true
is_proven _ = false

-- the loop, with the global bounds so far, and the global check behind it
unfoldable pub cost_loop : ℤ → ℤ → ℤ → List Scenario → CostResult
cost_loop margin baseline candidate [] = compare_cost (money_add candidate margin) baseline
cost_loop margin baseline candidate (s ∷ ss) =
    let rest =
      cost_loop margin (money_min s.baseline_lower baseline) (money_max s.candidate_upper candidate)
        ss in
    if is_proven (scenario_cost margin s).0 then rest else scenario_cost margin s

-- `ProofCostEvaluate`
unfoldable pub proof_cost_evaluate : Option Proof → CostResult
proof_cost_evaluate none = (cost_indeterminate, (validate_proof none).1)
proof_cost_evaluate (some p) =
    if is_intervene (validate_proof (some p)).0
    then cost_loop p.safety_margin max_int64 (pos 0) p.scenarios
    else (cost_indeterminate, (validate_proof (some p)).1)
