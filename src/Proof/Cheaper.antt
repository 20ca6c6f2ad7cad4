-- ===== src/Proof/Cheaper.antt =====
-- What a proven cost is (server-go/modules/economizer/proof.go).
use aimee_module_economizer.Prelude.{
  ◌≡◌, refl, inl, inr, true, false, some, List, [], ◌∷◌, arith, All, Bool-cases,
}
use aimee_module_economizer.Prelude.Int.{ℤ, pos, ltb_ℤ, ◌+ℤ◌, ◌≤ℤ◌, ◌<ℤ◌, +ℤ_parts}
use aimee_module_economizer.Prelude.Int64.{max_int64, IsInt64}
use aimee_module_economizer.Proof.Money.{money_add, money_add_exact}
use aimee_module_economizer.Proof.Validate.{Proof, Scenario, validate_proof, is_intervene}
use aimee_module_economizer.Proof.Cost.{
  CostVerdict, cost_proven, bad_bound, compare_cost, scenario_cost, cost_loop, proof_cost_evaluate,
  money_min, money_max, is_proven,
}

-- The bounds of a scenario, in order.
abbrev pub IsBounded : Scenario → Type 0
IsBounded s =
    (pos 0 ≤ℤ s.baseline_lower)
    × (s.baseline_lower ≤ℤ s.baseline_upper)
    × (pos 0 ≤ℤ s.candidate_lower)
    × (s.candidate_lower ≤ℤ s.candidate_upper)

-- Every candidate, with the margin, is below every baseline; the sums are those of the integers.
abbrev pub IsCheaper : ℤ → List Scenario → Type 0
IsCheaper margin ss =
    All (λ s. IsBounded s × All (λ t. s.candidate_upper +ℤ margin <ℤ t.baseline_lower) ss) ss

abbrev Within : ℤ → ℤ → Scenario → Type 0
Within b c s = IsBounded s × (b ≤ℤ s.baseline_lower) × (s.candidate_upper ≤ℤ c)

compare_cost-proven :
    (a margin lower : ℤ)
    → IsInt64 a
    → IsInt64 margin
    → (compare_cost (money_add a margin) lower).0 ≡ cost_proven
    → a +ℤ margin <ℤ lower
unfolding compare_cost
compare_cost-proven a margin lower h k e = ground (arith, money_add_exact a margin h k)

bad_bound-IsBounded : (s : Scenario) → bad_bound s ≡ false → IsBounded s
unfolding bad_bound
bad_bound-IsBounded s h = (ground arith, ground arith, ground arith, ground arith)

scenario_cost-proven :
    (margin : ℤ) (s : Scenario) → is_proven (scenario_cost margin s).0 ≡ true → IsBounded s
unfolding scenario_cost
scenario_cost-proven margin s h = bad_bound-IsBounded s (ground arith)

is_proven_sound : (v : CostVerdict) → v ≡ cost_proven → is_proven v ≡ true
is_proven_sound v h = rw h refl

money_min_le : (a b : ℤ) → (money_min a b ≤ℤ a) × (money_min a b ≤ℤ b)
money_min_le a b = elim (Bool-cases (ltb_ℤ a b)) [
  | inl e ↦ rw e (omega arith, ground arith)
  | inr e ↦ rw e (ground arith, omega arith)
]

money_max_le : (a b : ℤ) → (a ≤ℤ money_max a b) × (b ≤ℤ money_max a b)
money_max_le a b = elim (Bool-cases (ltb_ℤ b a)) [
  | inl e ↦ rw e (omega arith, ground arith)
  | inr e ↦ rw e (ground arith, omega arith)
]

money_max-IsInt64 : (a b : ℤ) → IsInt64 a → IsInt64 b → IsInt64 (money_max a b)
money_max-IsInt64 a b h k = elim (Bool-cases (ltb_ℤ b a)) [ inl e ↦ rw e h | inr e ↦ rw e k ]

cost_loop-proven :
    (margin b c : ℤ) (ss : List Scenario)
    → IsInt64 margin
    → IsInt64 c
    → All (λ s. IsInt64 s.candidate_upper) ss
    → (cost_loop margin b c ss).0 ≡ cost_proven
    → (b' : ℤ) × (c' : ℤ) × (b' ≤ℤ b) × (c ≤ℤ c') × (c' +ℤ margin <ℤ b') × All (Within b' c') ss
unfolding cost_loop
cost_loop-proven margin b c [] m k r h =
    (b, c, omega arith, omega arith, compare_cost-proven c margin b k m h, tt)
cost_loop-proven margin b c (s ∷ ss) m k r h =
    elim (Bool-cases (is_proven (scenario_cost margin s).0)) [
      | inr e ↦ absurd (ground (arith, rw (e, cost_loop) at h))
      | inl e ↦
          let b₁ = money_min s.baseline_lower b in
          let c₁ = money_max s.candidate_upper c in
          let (p, q) = money_min_le s.baseline_lower b in
          let (x, y) = money_max_le s.candidate_upper c in
          let (b', c', l, u, d, w) =
            cost_loop-proven margin b₁ c₁ ss m (money_max-IsInt64 s.candidate_upper c r.0 k) r.1
              (rw (e, cost_loop) at h) in
          (
            b',
            c',
            omega arith,
            omega arith,
            d,
            ((scenario_cost-proven margin s e, omega arith, omega arith), w),
          )
    ]

below-All :
    (margin b c : ℤ) (u : ℤ) (ss : List Scenario)
    → c +ℤ margin <ℤ b
    → u ≤ℤ c
    → All (Within b c) ss
    → All (λ t. u +ℤ margin <ℤ t.baseline_lower) ss
below-All margin b c u [] d l h = tt
below-All margin b c u (t ∷ ss) d l h =
    (omega (arith, +ℤ_parts u margin, +ℤ_parts c margin, h.0.1), below-All margin b c u ss d l h.1)

All-below-All :
    (margin b c : ℤ) (ss ts : List Scenario)
    → c +ℤ margin <ℤ b
    → All (Within b c) ts
    → All (Within b c) ss
    → All (λ s. IsBounded s × All (λ t. s.candidate_upper +ℤ margin <ℤ t.baseline_lower) ts) ss
All-below-All margin b c [] ts d k h = tt
All-below-All margin b c (s ∷ ss) ts d k h = (
  (h.0.0, below-All margin b c s.candidate_upper ts d h.0.2 k),
  All-below-All margin b c ss ts d k h.1,
)

-- If `ProofCostEvaluate` finds a cost proven, the bounds of each scenario are in order, and the
-- candidate of every scenario costs, with the safety margin, strictly less than the baseline of
-- every scenario. The money is int64; the sums are those of the integers, none wraps around.
pub proof_cost_evaluate-IsCheaper :
    (p : Proof)
    → IsInt64 p.safety_margin
    → All (λ s. IsInt64 s.candidate_upper) p.scenarios
    → (proof_cost_evaluate (some p)).0 ≡ cost_proven
    → IsCheaper p.safety_margin p.scenarios
unfolding proof_cost_evaluate
proof_cost_evaluate-IsCheaper p m r h =
    elim (Bool-cases (is_intervene (validate_proof (some p)).0)) [
      | inl e ↦
          let (b, c, l, u, d, w) =
            cost_loop-proven p.safety_margin max_int64 (pos 0) p.scenarios m
              (omega arith, omega arith) r (rw (e, proof_cost_evaluate) at h) in
          All-below-All p.safety_margin b c p.scenarios p.scenarios d w w
      | inr e ↦ ground (arith, rw (e, proof_cost_evaluate) at h)
    ]
