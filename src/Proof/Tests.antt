-- ===== src/Proof/Tests.antt =====
-- A proof of two scenarios (server-go/modules/economizer/proof_test.go), and the theorems at it.
use aimee_module_economizer.Prelude.{
  ℕ, ◌≡◌, refl, Bool, true, none, some, [], ◌∷◌, arith, if◌then◌else◌, All, any,
}
use aimee_module_economizer.Prelude.Int.{◌-ℤ◌, pos, ◌+ℤ◌}
use aimee_module_economizer.Prelude.Masks.{bit}
use aimee_module_economizer.Prelude.Int64.{IsInt64, wrap_int64, max_int64, in_int64}
use aimee_module_economizer.Proof.Money.{money_add, money_add_exact}
use aimee_module_economizer.Proof.Validate.{
  Proof, Scenario, RegistryKey, key_valid, validate_proof, is_intervene, seen_loop, see, ones_count,
  intervene,
}
use aimee_module_economizer.Proof.Coverage.{validate_proof-count_id, count_id}
use aimee_module_economizer.Proof.Cost.{
  cost_proven, proof_cost_evaluate, cost_loop, scenario_cost, compare_cost, bad_bound,
}
use aimee_module_economizer.Proof.Cheaper.{IsCheaper, proof_cost_evaluate-IsCheaper}
use aimee_module_economizer.Proof.Evaluate.{
  Registry, evaluate_against, registry_contains, eq_key, decide_cost, registry_signature_valid,
  evaluate_against-intervene,
}

abbrev key : RegistryKey
key = record {
  provider = 1;
  endpoint_id = 1;
  model_snapshot_id = 1;
  tokenizer_id = 1;
  pricing_table_id = 1;
  contract_versions = 1;
  transform_id = 1;
  transform_version = 1;
  scenario_set_id = 1;
  scenario_coverage = 3;
}

abbrev scenario : ℕ → ℕ → Scenario
scenario id upper = record {
  scenario_id = id;
  baseline_lower = pos 100;
  baseline_upper = pos 120;
  candidate_lower = pos 10;
  candidate_upper = pos upper;
}

abbrev two_cases : Proof
two_cases = record {
  tenant_id = 7;
  account_id = 8;
  call_id = 9;
  registry_generation = 1;
  transform = key;
  scenarios = scenario 1 40 ∷ scenario 0 60 ∷ [];
  safety_margin = pos 5;
}

abbrev one_key : Registry
one_key = record { generation = 1; keys = key ∷ [] }

run : Bool
unfolding validate_proof key_valid seen_loop see ones_count proof_cost_evaluate cost_loop
    scenario_cost compare_cost bad_bound money_add wrap_int64 evaluate_against registry_contains
    eq_key decide_cost registry_signature_valid ◌+ℤ◌ ◌-ℤ◌
run = is_intervene (evaluate_against one_key (some two_cases)).0

accepted : is_intervene (validate_proof (some two_cases)).0 ≡ true
unfolding run
accepted = refl

proven : (proof_cost_evaluate (some two_cases)).0 ≡ cost_proven
unfolding run
proven = refl

authorized : (evaluate_against one_key (some two_cases)).0 ≡ intervene
unfolding run
authorized = refl

money_add_exact_example :
    money_add max_int64 (pos 1)
    ≡ (if in_int64 (max_int64 +ℤ pos 1) then some (max_int64 +ℤ pos 1) else none)
money_add_exact_example =
    money_add_exact max_int64 (pos 1) (omega arith, omega arith) (omega arith, omega arith)

validate_proof-count_id_example :
    count_id 1 two_cases.scenarios ≡ bit 1 two_cases.transform.scenario_coverage
validate_proof-count_id_example = validate_proof-count_id two_cases accepted 1

margin-IsInt64 : IsInt64 two_cases.safety_margin
margin-IsInt64 = (omega arith, omega arith)

uppers-IsInt64 : All (λ s. IsInt64 s.candidate_upper) two_cases.scenarios
uppers-IsInt64 = ((omega arith, omega arith), ((omega arith, omega arith), tt))

proof_cost_evaluate-IsCheaper_example : IsCheaper two_cases.safety_margin two_cases.scenarios
proof_cost_evaluate-IsCheaper_example =
    proof_cost_evaluate-IsCheaper two_cases margin-IsInt64 uppers-IsInt64 proven

evaluate_against-intervene_example :
    (two_cases.registry_generation ≡ one_key.generation)
    × (key_valid two_cases.transform ≡ true)
    × (any (λ e. eq_key e two_cases.transform) one_key.keys ≡ true)
    × IsCheaper two_cases.safety_margin two_cases.scenarios
evaluate_against-intervene_example =
    evaluate_against-intervene one_key two_cases margin-IsInt64 uppers-IsInt64 authorized
