-- ===== src/Proof/Evaluate.antt =====
-- `ProofEvaluate` of server-go/modules/economizer/proof.go: the decision against the registry.
use aimee_module_economizer.Prelude.{
  ℕ, ◌≡◌, refl, ◌≢◌, inl, inr, Bool, true, false, not, ◌&&◌, Option, none, some, List, [], arith,
  if◌then◌else◌, ◌==◌, All, any, Bool-cases,
}
use aimee_module_economizer.Prelude.Int64.{IsInt64}
use aimee_module_economizer.Proof.Validate.{
  Proof, RegistryKey, key_valid, validate_proof, is_intervene, ProofResult, Decision,
  registry_unverified, registry_stale, registry_absent, pass_through, intervene, indeterminate,
}
use aimee_module_economizer.Proof.Cost.{
  CostResult, cost_proven, cost_rejected, cost_indeterminate, proof_cost_evaluate,
}
use aimee_module_economizer.Proof.Cheaper.{IsCheaper, proof_cost_evaluate-IsCheaper}

pub record Registry : Type 0 where
  pub generation : ℕ
  pub keys : List RegistryKey

-- `productionRegistry`
abbrev pub production_registry : Registry
production_registry = record { generation = 1; keys = [] }

-- `registrySignatureValid`
unfoldable pub registry_signature_valid : Bool
registry_signature_valid = true

-- `==` on registry keys
unfoldable pub eq_key : RegistryKey → RegistryKey → Bool
eq_key a b =
    a.provider == b.provider
    && a.endpoint_id == b.endpoint_id
    && a.model_snapshot_id == b.model_snapshot_id
    && a.tokenizer_id == b.tokenizer_id
    && a.pricing_table_id == b.pricing_table_id
    && a.contract_versions == b.contract_versions
    && a.transform_id == b.transform_id
    && a.transform_version == b.transform_version
    && a.scenario_set_id == b.scenario_set_id
    && a.scenario_coverage == b.scenario_coverage

-- `registryContains`
unfoldable pub registry_contains : Registry → RegistryKey → Bool
registry_contains r k = if not (key_valid k) then false else any (λ e. eq_key e k) r.keys

-- the switch on the verdict
unfoldable pub decide_cost : CostResult → ProofResult
decide_cost (cost_proven, reason) = (intervene, reason)
decide_cost (cost_rejected, reason) = (pass_through, reason)
decide_cost (cost_indeterminate, reason) = (indeterminate, reason)

-- `ProofEvaluate` against a registry
unfoldable pub evaluate_against : Registry → Option Proof → ProofResult
evaluate_against r none = validate_proof none
evaluate_against r (some p) =
    if not (is_intervene (validate_proof (some p)).0)
    then validate_proof (some p)
    else if not registry_signature_valid
    then (indeterminate, registry_unverified)
    else if not (p.registry_generation == r.generation)
    then (pass_through, registry_stale)
    else if not (registry_contains r p.transform)
    then (pass_through, registry_absent)
    else decide_cost (proof_cost_evaluate (some p))

-- `ProofEvaluate`
unfoldable pub proof_evaluate : Option Proof → ProofResult
proof_evaluate = evaluate_against production_registry

decide_cost-intervene : (c : CostResult) → (decide_cost c).0 ≡ intervene → c.0 ≡ cost_proven
unfolding decide_cost
decide_cost-intervene (cost_proven, r) h = refl
decide_cost-intervene (cost_rejected, r) h = cc
decide_cost-intervene (cost_indeterminate, r) h = cc

is_intervene_sound : (v : Decision) → v ≡ intervene → is_intervene v ≡ true
is_intervene_sound v h = rw h refl

evaluate_against_steps :
    (r : Registry) (p : Proof)
    → (evaluate_against r (some p)).0 ≡ intervene
    → (is_intervene (validate_proof (some p)).0 ≡ true)
      × (p.registry_generation ≡ r.generation)
      × (registry_contains r p.transform ≡ true)
      × ((decide_cost (proof_cost_evaluate (some p))).0 ≡ intervene)
unfolding evaluate_against registry_signature_valid
evaluate_against_steps r p h = elim (Bool-cases (is_intervene (validate_proof (some p)).0)) [
  | inl e ↦
      let h' = rw (e, evaluate_against) at h in
      (e, ground (arith, h'), ground (arith, h'), ground (arith, h'))
  | inr e ↦
      let h' = rw (e, evaluate_against) at h in
      absurd (cc (is_intervene_sound (validate_proof (some p)).0 h'))
]

-- A call is authorized only against a current registry that lists its valid key, and only if
-- every candidate is strictly cheaper than every baseline, the margin included. The money is int64.
pub evaluate_against-intervene :
    (r : Registry) (p : Proof)
    → IsInt64 p.safety_margin
    → All (λ s. IsInt64 s.candidate_upper) p.scenarios
    → (evaluate_against r (some p)).0 ≡ intervene
    → (p.registry_generation ≡ r.generation)
      × (key_valid p.transform ≡ true)
      × (any (λ e. eq_key e p.transform) r.keys ≡ true)
      × IsCheaper p.safety_margin p.scenarios
unfolding registry_contains
evaluate_against-intervene r p m k h =
    let (v, g, c, d) = evaluate_against_steps r p h in
    (
      g,
      ground arith,
      ground arith,
      proof_cost_evaluate-IsCheaper p m k (decide_cost-intervene (proof_cost_evaluate (some p)) d),
    )

-- Against the production registry, which lists no key, no proof authorizes a call.
pub proof_evaluate-production : (o : Option Proof) → (proof_evaluate o).0 ≢ intervene
unfolding proof_evaluate evaluate_against validate_proof registry_contains
proof_evaluate-production none h = cc
proof_evaluate-production (some p) h =
    let (v, g, c, d) = evaluate_against_steps production_registry p h in ground arith
