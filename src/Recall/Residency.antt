-- ===== src/Recall/Residency.antt =====
-- The residency of a surfaced key (server-go/modules/economizer/recall.go).
use aimee_module_economizer.Prelude.{
  ℕ, ◌-◌, ◌≤◌, ◌<◌, ◌≡◌, refl, inl, inr, Bool, true, false, some, List, [], ◌∷◌, arith,
  if◌then◌else◌, Bytes, eq_bytes, eq_bytes_iff, any, Bool-cases,
}
use aimee_module_economizer.Prelude.Int.{ℤ, pos, ◌-ℤ◌, ◌<ℤ◌}
use aimee_module_economizer.Prelude.Int64.{wrap_int64_id}
use aimee_module_economizer.Recall.{
  RecallIndex, lookup, put, resident, surfaces, detect_loop, detect, ttl_or_default,
}

-- the key is among the keys surfaced
abbrev pub is_surfaced : Bytes → List Bytes → Bool
is_surfaced j = any (λ k. eq_bytes k j)

lookup-put :
    (k j : Bytes) (t : ℤ) (kts : List (Bytes × ℤ))
    → lookup j (put k t kts) ≡ (if eq_bytes k j then some t else lookup j kts)
unfolding lookup put
lookup-put k j t [] = refl
lookup-put k j t ((i, u) ∷ kts) =
    ground (arith, eq_bytes_iff i k, eq_bytes_iff i j, eq_bytes_iff k j, lookup-put k j t kts)

module _ (text : Bytes) (turn ttl : ℤ) where
  detect_loop_keeps :
      (j : Bytes) (keys : List Bytes) (turns : List (Bytes × ℤ))
      → lookup j turns ≡ some turn
      → lookup j (detect_loop text turn ttl keys turns).1 ≡ some turn
  unfolding detect_loop
  detect_loop_keeps j [] turns h = h
  detect_loop_keeps j (k ∷ keys) turns h = elim (Bool-cases (surfaces text turn ttl turns k)) [
    | inl e ↦
        rw e (
          detect_loop_keeps j keys (put k turn turns)
            (ground (arith, lookup-put k j turn turns, h)))
    | inr e ↦ rw e (detect_loop_keeps j keys turns h)
  ]

  -- a surfaced key is marked with the turn
  detect_loop_marks :
      (j : Bytes) (keys : List Bytes) (turns : List (Bytes × ℤ))
      → is_surfaced j (detect_loop text turn ttl keys turns).0 ≡ true
      → lookup j (detect_loop text turn ttl keys turns).1 ≡ some turn
  unfolding detect_loop
  detect_loop_marks j [] turns h = cc
  detect_loop_marks j (k ∷ keys) turns h = elim (Bool-cases (surfaces text turn ttl turns k)) [
    | inr e ↦ rw e (detect_loop_marks j keys turns (rw (e, detect_loop) at h))
    | inl e ↦ elim (Bool-cases (eq_bytes k j)) [
      | inl q ↦ rw e (
          detect_loop_keeps j keys (put k turn turns)
            (ground (arith, lookup-put k j turn turns, q)))
      | inr q ↦ rw e (
          detect_loop_marks j keys (put k turn turns) (ground (arith, q, rw (e, detect_loop) at h)))
    ]
  ]

  resident_shut :
      (j : Bytes) (turns : List (Bytes × ℤ)) {u : ℤ}
      → lookup j turns ≡ some u
      → resident turn u ttl ≡ true
      → surfaces text turn ttl turns j ≡ false
  unfolding surfaces
  resident_shut j turns h r = ground (arith, h, r)

  -- a resident key is not surfaced
  detect_loop_quiet :
      (j : Bytes) (keys : List Bytes) (turns : List (Bytes × ℤ)) {u : ℤ}
      → lookup j turns ≡ some u
      → resident turn u ttl ≡ true
      → is_surfaced j (detect_loop text turn ttl keys turns).0 ≡ false
  unfolding detect_loop
  detect_loop_quiet j [] turns h r = refl
  detect_loop_quiet j (k ∷ keys) turns h r = elim (Bool-cases (surfaces text turn ttl turns k)) [
    | inr e ↦ rw e (detect_loop_quiet j keys turns h r)
    | inl e ↦ elim (Bool-cases (eq_bytes k j)) [
      | inl q ↦
          let s = rw (← (eq_bytes_iff k j).0 q) at (resident_shut j turns h r) in
          absurd (ground (arith, e, s))
      | inr q ↦
          rw (e, q)
            (detect_loop_quiet j keys (put k turn turns)
              (ground (arith, lookup-put k j turn turns, q, h)) r)
    ]
  ]

is_resident :
    (n m : ℕ) (ttl : ℤ)
    → n ≤ m
    → m < 9223372036854775808
    → pos (m - n) <ℤ ttl
    → resident (pos m) (pos n) ttl ≡ true
unfolding ◌-ℤ◌
is_resident n m ttl l b h =
    let e : pos m -ℤ pos n ≡ pos (m - n) = ground arith in
    rw (e, wrap_int64_id (pos (m - n)) (omega arith, omega arith)) (ground arith)

-- A key that `Detect` surfaces on a turn is not surfaced again on a later turn that is fewer turns
-- away than the residency, whatever the texts of the turns are. The turns are int64 and not negative.
pub detect-detect :
    (text later : Bytes) (n m : ℕ) (ttl : ℤ) (ix : RecallIndex) (j : Bytes)
    → n ≤ m
    → m < 9223372036854775808
    → pos (m - n) <ℤ ttl_or_default ttl
    → is_surfaced j (detect text (pos n) ttl ix).0 ≡ true
    → is_surfaced j (detect later (pos m) ttl (detect text (pos n) ttl ix).1).0 ≡ false
unfolding detect
detect-detect text later n m ttl ix j l b d h = elim (Bool-cases (eq_bytes text [])) [
  | inl e ↦ cc (rw (e, detect) at h)
  | inr e ↦ elim (Bool-cases (eq_bytes later [])) [
    | inl f ↦ rw (e, f) refl
    | inr f ↦
        let t = ttl_or_default ttl in
        let marked =
          detect_loop_marks text (pos n) t j ix.keys ix.last_turn (rw (e, detect) at h) in
        rw (e, f)
          (detect_loop_quiet later (pos m) t j ix.keys
            (detect_loop text (pos n) t ix.keys ix.last_turn).1 marked (is_resident n m t l b d))
  ]
]
