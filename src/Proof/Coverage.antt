-- ===== src/Proof/Coverage.antt =====
-- The coverage mask of `validateProof` (server-go/modules/economizer/proof.go) and the scenarios.
use aimee_module_economizer.Prelude.{
  ℕ, ◌+◌, ◌^◌, ◌≡◌, refl, inl, inr, true, Option, none, some, List, [], ◌∷◌, arith, if◌then◌else◌,
  ◌==◌, Bool-cases, Option-cases, ==_iff,
}
use Prim.Native.Nat.{bit_and, bit_or}
use aimee_module_economizer.Prelude.Masks.{
  bit, bit-bit_or, bit_and-pow, bit-zero, bit-pow_self, bit-pow_ne, pow_pos,
}
use aimee_module_economizer.Proof.Validate.{
  Proof, Scenario, see, seen_loop, validate_proof, is_intervene,
}

-- how many scenarios have the id
abbrev pub count_id : ℕ → List Scenario → ℕ
count_id i [] = 0
count_id i (s ∷ ss) = (if s.scenario_id == i then 1 else 0) + count_id i ss

see-some :
    (seen id : ℕ) {final : ℕ}
    → see seen id ≡ some final
    → (bit_and seen (2 ^ id) ≡ 0) × (bit_or seen (2 ^ id) ≡ final)
unfolding see
see-some seen id h = (ground arith, ground arith)

unseen : (seen id : ℕ) → bit_and seen (2 ^ id) ≡ 0 → bit id seen ≡ 0
unseen seen id h = grind (arith, h, bit_and-pow id seen, pow_pos id)

see_bits :
    (seen id final : ℕ)
    → see seen id ≡ some final
    → (i : ℕ) → bit i final ≡ (if id == i then 1 else 0) + bit i seen
see_bits seen id final h i =
    let (z, e) = see-some seen id h in
    elim (Bool-cases (id == i)) [
      | inl q ↦
          let q' = (==_iff id i).0 q in
          rw (q, ← e, bit-bit_or i seen (2 ^ id), ← q', bit-pow_self id, unseen seen id z) refl
      | inr q ↦
          rw (q, ← e, bit-bit_or i seen (2 ^ id), bit-pow_ne i id (ground (arith, q))) (omega arith)
    ]

seen_loop_bits :
    (ss : List Scenario) (o : Option ℕ) {seen final : ℕ}
    → o ≡ some seen
    → seen_loop o ss ≡ some final
    → (i : ℕ) → bit i final ≡ count_id i ss + bit i seen
unfolding seen_loop
seen_loop_bits ss none e h i = cc
seen_loop_bits [] (some x) e h i = ground (arith, e, h)
seen_loop_bits (s ∷ ss) (some x) e h i = elim (Option-cases (see x s.scenario_id)) [
  | inl q ↦ ground (arith, rw (q, seen_loop) at h)
  | inr (y, q) ↦
      ground
        (arith, e, see_bits x s.scenario_id y q i, seen_loop_bits ss (see x s.scenario_id) q h i)
]

-- The scenarios of an accepted proof are exhaustive: each bit of its coverage mask is the number
-- of scenarios with that id, so that each id of the mask stands exactly once and no other does.
pub validate_proof-count_id :
    (p : Proof)
    → is_intervene (validate_proof (some p)).0 ≡ true
    → (i : ℕ) → count_id i p.scenarios ≡ bit i p.transform.scenario_coverage
unfolding validate_proof
validate_proof-count_id p h i = elim (Option-cases (seen_loop (some 0) p.scenarios)) [
  | inl q ↦ ground (arith, rw q at h)
  | inr (f, q) ↦
      let h' = rw q at h in
      ground (arith, h', seen_loop_bits p.scenarios (some 0) refl q i, bit-zero i)
]
