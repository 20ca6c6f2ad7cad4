-- ===== src/Provenance/Tests.antt =====
-- A capability of server-go/modules/economizer/provenance_test.go, and the theorems at it.
use aimee_module_economizer.Prelude.{
  ℕ, ◌+◌, ◌≤◌, ◌≡◌, refl, ◌↔◌, true, false, some, List, [], ◌∷◌, Bytes, codes, eq_bytes, length,
}
use aimee_module_economizer.Provenance.{
  ProvenanceBinding, ProvenanceCapability, valid, issue, consume, matches, swap, eq_binding,
}
use aimee_module_economizer.Provenance.Once.{
  Call, consuming, successes, successes-once, consume-issue,
}

-- a digest for the tests: the sum of the bytes
abbrev total : ℕ → Bytes → Bytes
total x [] = x ∷ []
total x (y ∷ ys) = (x + y) ∷ ys

abbrev sum : Bytes → Bytes
sum [] = 0 ∷ []
sum (x ∷ xs) = total x (sum xs)

abbrev binding : ProvenanceBinding
binding = record {
  tenant_id = 1;
  task_id = 2;
  call_id = 3;
  semantic_contract_id = 4;
  transform_id = 5;
  transform_version = 6;
}

abbrev capability : ProvenanceCapability
capability = record { binding = binding; digest = 195 ∷ []; source_len = 2; consumed = false }

is_issued : issue sum binding (codes "ab") ≡ some capability
unfolding issue valid
is_issued = refl

-- a wrong payload, the payload, and the payload again
abbrev calls : List Call
calls =
    consuming binding (codes "ax")
    ∷ consuming binding (codes "ab")
    ∷ consuming binding (codes "ab")
    ∷ []

one_success : successes sum calls capability ≡ 1
unfolding successes consume matches swap valid eq_binding eq_bytes
one_success = refl

successes-once_example : successes sum calls capability ≤ 1
successes-once_example = successes-once sum calls capability

consume-issue_example : ((consume sum capability binding (codes "ab")).0 ≡ true) ↔ (
    (binding ≡ binding)
    × (length (codes "ab") ≡ length (codes "ab"))
    × (sum (codes "ab") ≡ sum (codes "ab")))
consume-issue_example = consume-issue sum binding binding (codes "ab") (codes "ab") is_issued
