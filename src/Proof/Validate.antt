-- ===== src/Proof/Validate.antt =====
-- `validateProof` of server-go/modules/economizer/proof.go. A field of a Go uint64 or uint32 is a
-- number; `math/bits.OnesCount64` is written out.
use aimee_module_economizer.Prelude.{
  ℕ, zero, suc, ◌+◌, ◌/◌, ◌%◌, ◌^◌, Bool, true, false, not, ◌&&◌, ◌||◌, Option, none, some, List,
  [], ◌∷◌, if◌then◌else◌, ◌==◌, ltb, length,
}
use Prim.Native.Nat.{bit_and, bit_or}
use aimee_module_economizer.Prelude.Int.{ℤ, pos, ltb_ℤ}

pub data Decision : Type 0 where
  pass_through intervene indeterminate : Decision

pub data Reason : Type 0 where
  no_reason invalid_argument invalid_identity invalid_scenario_count : Reason
  invalid_scenario_coverage invalid_money_bound money_overflow : Reason
  registry_unverified registry_stale registry_absent not_strictly_cheaper : Reason
  unsupported_endpoint model_not_pinned tokenizer_not_local_exact : Reason
  remote_token_count remote_token_count_unpriced invalid_request_shape : Reason
  unsupported_cache_layout invalid_cache_control protected_prefix_unproven : Reason
  token_guard_band output_bound_unavailable pricing_unavailable proof_accepted : Reason

-- `Provider`, with the numbers of the source
abbrev pub provider_open_ai : ℕ
provider_open_ai = 1

abbrev pub provider_anthropic : ℕ
provider_anthropic = 2

abbrev pub max_scenarios : ℕ
max_scenarios = 16

pub record RegistryKey : Type 0 where
  pub provider : ℕ
  pub endpoint_id : ℕ
  pub model_snapshot_id : ℕ
  pub tokenizer_id : ℕ
  pub pricing_table_id : ℕ
  pub contract_versions : ℕ
  pub transform_id : ℕ
  pub transform_version : ℕ
  pub scenario_set_id : ℕ
  pub scenario_coverage : ℕ

pub record Scenario : Type 0 where
  pub scenario_id : ℕ
  pub baseline_lower : ℤ
  pub baseline_upper : ℤ
  pub candidate_lower : ℤ
  pub candidate_upper : ℤ

pub record Proof : Type 0 where
  pub tenant_id : ℕ
  pub account_id : ℕ
  pub call_id : ℕ
  pub registry_generation : ℕ
  pub transform : RegistryKey
  pub scenarios : List Scenario
  pub safety_margin : ℤ

-- `ProofResult`
abbrev pub ProofResult : Type 0
ProofResult = Decision × Reason

abbrev is_set : ℕ → Bool
is_set n = not (n == 0)

-- `RegistryKey.valid`
unfoldable pub key_valid : RegistryKey → Bool
key_valid k =
    (k.provider == provider_open_ai || k.provider == provider_anthropic)
    && is_set k.endpoint_id
    && is_set k.model_snapshot_id
    && is_set k.tokenizer_id
    && is_set k.pricing_table_id
    && is_set k.contract_versions
    && is_set k.transform_id
    && is_set k.transform_version
    && is_set k.scenario_set_id
    && is_set k.scenario_coverage

-- `bits.OnesCount64`, on the low bits
unfoldable pub ones_count : ℕ → ℕ → ℕ
ones_count zero n = 0
ones_count (suc w) n = n % 2 + ones_count w (n / 2)

-- one scenario of the loop: the ids seen with its id, or `none` if it is out of range or seen
unfoldable pub see : ℕ → ℕ → Option ℕ
see seen id =
    if not (ltb id max_scenarios) || not (bit_and seen (2 ^ id) == 0)
    then none
    else some (bit_or seen (2 ^ id))

unfoldable pub seen_loop : Option ℕ → List Scenario → Option ℕ
seen_loop none ss = none
seen_loop (some seen) [] = some seen
seen_loop (some seen) (s ∷ ss) = seen_loop (see seen s.scenario_id) ss

abbrev covers : Option ℕ → ℕ → Bool
covers none coverage = false
covers (some seen) coverage = seen == coverage

-- `validateProof`
unfoldable pub validate_proof : Option Proof → ProofResult
validate_proof none = (indeterminate, invalid_argument)
validate_proof (some p) =
    if p.tenant_id == 0 || p.account_id == 0 || p.call_id == 0 || not (key_valid p.transform)
    then (indeterminate, invalid_identity)
    else if length p.scenarios == 0 || ltb max_scenarios (length p.scenarios)
    then (indeterminate, invalid_scenario_count)
    else if not (ones_count 64 p.transform.scenario_coverage == length p.scenarios)
    then (indeterminate, invalid_scenario_coverage)
    else if not (covers (seen_loop (some 0) p.scenarios) p.transform.scenario_coverage)
    then (indeterminate, invalid_scenario_coverage)
    else if ltb_ℤ p.safety_margin (pos 0)
    then (indeterminate, invalid_money_bound)
    else (intervene, proof_accepted)

abbrev pub is_intervene : Decision → Bool
is_intervene intervene = true
is_intervene _ = false
