-- ===== src/Fold/Boundaries.antt =====
-- The boundary at which server-go/modules/economizer/fold.go cuts a transcript.
use aimee_module_economizer.Prelude.{
  ℕ, zero, suc, ◌-◌, ◌≤◌, ◌<◌, ◌≡◌, refl, ◌∙◌, subst, ◌⊎◌, inl, inr, Bool, true, false, Option,
  none, some, List, arith, ◌==◌, ltb, length, Bool-cases, Option-cases, ==_iff,
}
use aimee_module_economizer.Json.{Value}
use aimee_module_economizer.Fold.{FoldFreeze, Closet}
use aimee_module_economizer.Prelude.{Option-some, get_elem?}
use aimee_module_economizer.Fold.Excerpt.{is_clean_user_turn}
use aimee_module_economizer.Fold.Digest.{prefix_digest}
use aimee_module_economizer.Fold.View.{
  cut_at, may_reuse, Boundary, find_split, frozen_boundary, fresh_boundary, boundary,
}

-- A cut that leaves enough messages ahead of it, at a user turn that answers no call, with the
-- digest of what is ahead of it.
unfoldable pub IsBoundary : Closet → List Value → ℕ → Boundary → Type 0
IsBoundary closet ms min_fold b =
    (min_fold ≤ b.split)
    × (b.split < length ms)
    × (is_clean_user_turn (get_elem? ms b.split) ≡ true)
    × (prefix_digest closet.cjson_number ms b.split ≡ (b.digest, b.folded_bytes))

-- The last clean user turn at or ahead of a message: none between the two is one.
unfoldable pub IsLast : List Value → ℕ → ℕ → Type 0
IsLast ms s from =
    (s ≤ from) × ((i : ℕ) → s < i → i ≤ from → is_clean_user_turn (get_elem? ms i) ≡ false)

none_above :
    (ms : List Value) (n s i : ℕ)
    → ((j : ℕ) → s < j → j ≤ n → is_clean_user_turn (get_elem? ms j) ≡ false)
    → is_clean_user_turn (get_elem? ms (suc n)) ≡ false
    → s < i
    → i ≤ suc n
    → is_clean_user_turn (get_elem? ms i) ≡ false
none_above ms n s i b c p u = elim (Bool-cases (i == suc n)) [
  | inl e ↦ rw ((==_iff i (suc n)).0 e) c
  | inr e ↦ b i p (ground (arith, e))
]

pub find_split-IsLast :
    (ms : List Value) (min_fold from s : ℕ)
    → find_split ms min_fold from ≡ some s
    → (min_fold ≤ s) × (is_clean_user_turn (get_elem? ms s) ≡ true) × IsLast ms s from
unfolding find_split IsLast
find_split-IsLast ms min_fold zero s h = cc
find_split-IsLast ms min_fold (suc n) s h = elim (Bool-cases (ltb (suc n) min_fold)) [
  | inl e ↦ cc (rw (e, find_split) at h)
  | inr e ↦ elim (Bool-cases (is_clean_user_turn (get_elem? ms (suc n)))) [
    | inl c ↦
        let q : suc n ≡ s = ground (arith, rw (e, c, find_split) at h) in
        (
          ground (arith, e, q),
          subst (λ i. is_clean_user_turn (get_elem? ms i) ≡ true) q c,
          (omega (arith, q), λ i l u. absurd (omega (arith, q))),
        )
    | inr c ↦
        let (m, k, (l, b)) = find_split-IsLast ms min_fold n s (rw (e, c, find_split) at h) in
        (m, k, (omega arith, λ i p u. none_above ms n s i b c p u))
  ]
]

-- the boundary was frozen, or it is the last one that keeps the retained messages
unfoldable pub IsPlaced : List Value → ℕ → Boundary → Type 0
IsPlaced ms retained b = (b.reused ≡ true) ⊎ IsLast ms b.split (length ms - retained)

module _ (closet : Closet) where
  cut_at-IsBoundary :
      (ms : List Value) (min_fold s : ℕ) (reused : Bool)
      → min_fold ≤ s
      → s < length ms
      → is_clean_user_turn (get_elem? ms s) ≡ true
      → IsBoundary closet ms min_fold (cut_at closet ms s reused)
  unfolding IsBoundary cut_at
  cut_at-IsBoundary ms min_fold s reused m l c = (m, l, c, refl)

  may_reuse-true :
      (ms : List Value) (min_fold tail_cap : ℕ) (f : FoldFreeze)
      → may_reuse closet ms min_fold tail_cap f ≡ true
      → (min_fold ≤ f.frozen_split)
        × (f.frozen_split < length ms)
        × (is_clean_user_turn (get_elem? ms f.frozen_split) ≡ true)
  unfolding may_reuse
  may_reuse-true ms min_fold tail_cap f h = (ground arith, ground arith, ground arith)

  frozen_boundary-IsBoundary :
      (ms : List Value) (min_fold retained tail_cap : ℕ) (freeze : Option FoldFreeze) (b : Boundary)
      → frozen_boundary closet ms min_fold tail_cap freeze ≡ some b
      → IsBoundary closet ms min_fold b × IsPlaced ms retained b
  unfolding frozen_boundary IsPlaced cut_at
  frozen_boundary-IsBoundary ms min_fold retained tail_cap none b h = cc
  frozen_boundary-IsBoundary ms min_fold retained tail_cap (some f) b h =
      elim (Bool-cases (may_reuse closet ms min_fold tail_cap f)) [
        | inr e ↦ cc (rw (e, frozen_boundary) at h)
        | inl e ↦
            let (m, l, c) = may_reuse-true ms min_fold tail_cap f e in
            subst (λ b. IsBoundary closet ms min_fold b × IsPlaced ms retained b)
              (Option-some (rw (e, frozen_boundary) at h))
              (cut_at-IsBoundary ms min_fold f.frozen_split true m l c, inl refl)
      ]

  fresh_boundary-IsBoundary :
      (ms : List Value) (min_fold retained : ℕ) (b : Boundary)
      → retained < length ms
      → 0 < retained
      → fresh_boundary closet ms min_fold retained ≡ some b
      → IsBoundary closet ms min_fold b × IsPlaced ms retained b
  unfolding fresh_boundary IsPlaced IsLast cut_at
  fresh_boundary-IsBoundary ms min_fold retained b l p h =
      elim (Option-cases (find_split ms min_fold (length ms - retained))) [
        | inl e ↦ cc (rw (e, fresh_boundary) at h)
        | inr (s, e) ↦
            let (m, c, k) = find_split-IsLast ms min_fold (length ms - retained) s e in
            subst (λ b. IsBoundary closet ms min_fold b × IsPlaced ms retained b)
              (Option-some (rw (e, fresh_boundary) at h))
              (cut_at-IsBoundary ms min_fold s false m (omega (arith, k.0)) c, inr k)
      ]

  pub boundary-IsBoundary :
      (ms : List Value) (min_fold retained tail_cap : ℕ) (freeze : Option FoldFreeze) (b : Boundary)
      → retained < length ms
      → 0 < retained
      → boundary closet ms min_fold retained tail_cap freeze ≡ some b
      → IsBoundary closet ms min_fold b × IsPlaced ms retained b
  unfolding boundary
  boundary-IsBoundary ms min_fold retained tail_cap freeze b l p h =
      elim (Option-cases (frozen_boundary closet ms min_fold tail_cap freeze)) [
        | inl e ↦ fresh_boundary-IsBoundary ms min_fold retained b l p (rw (e, boundary) at h)
        | inr (x, e) ↦
            frozen_boundary-IsBoundary ms min_fold retained tail_cap freeze b
              (e ∙ (rw (e, boundary) at h))
      ]
