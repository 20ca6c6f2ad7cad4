-- ===== src/Repair/Loops.antt =====
-- The two loops that the three orphan repairs of server-go/modules/economizer/repair.go share:
-- what placing a result for each missing id, and dropping what is marked, do to a transcript.
use aimee_module_economizer.Prelude.{
  Bool, true, false, not, ◌&&◌, ◌||◌, List, [], ◌∷◌, ◌++◌, none, some, ◌≡◌, refl, ap, ◌∙◌, arith,
  Bytes, eq_bytes, eq_bytes_iff, any, All, Bool-cases, Option-cases, inl, inr,
}
use aimee_module_economizer.Json.{Value}
use aimee_module_economizer.Repair.IdSet.{IdSet, has, is_listed}
use aimee_module_economizer.Repair.Scan.{field_is, is_called, is_answered}
use aimee_module_economizer.Repair.Orphans.{place_missing, drop_where, unmatched}
use aimee_module_economizer.Repair.Collect.{string_field}

pub any-append {ℓ} :
    {A : Type ℓ} (p : A → Bool) (xs ys : List A) → any p (xs ++ ys) ≡ (any p xs || any p ys)
any-append p [] ys = ground arith
any-append p (x ∷ xs) ys = ground (arith, any-append p xs ys)

-- What a strategy's `place` does: it issues no call, and answers the one id.
pub record IsPlacing (place : Bytes → List Value → List Value) : Type 0 where
  pub calls : (id j : Bytes) (ms : List Value) → is_called j (place id ms) ≡ is_called j ms
  pub answered :
      (id j : Bytes) (ms : List Value)
      → is_answered j (place id ms) ≡ (is_answered j ms || eq_bytes id j)

module _ (place : Bytes → List Value → List Value) (results : IdSet) where
  pub is_called-place_missing :
      (good : IsPlacing place) (ids : List Bytes) (ms : List Value) (j : Bytes)
      → is_called j (place_missing place results ids ms).0 ≡ is_called j ms
  unfolding place_missing
  is_called-place_missing good [] ms j = refl
  is_called-place_missing good (id ∷ ids) ms j = elim (Bool-cases (has results id)) [
    | inl e ↦ rw e (is_called-place_missing good ids ms j)
    | inr e ↦ rw e (is_called-place_missing good ids (place id ms) j ∙ good.calls id j ms)
  ]

  pub is_answered-place_missing :
      (good : IsPlacing place) (ids : List Bytes) (ms : List Value) (j : Bytes)
      → is_answered j (place_missing place results ids ms).0
        ≡ (is_answered j ms || (is_listed j ids && not (has results j)))
  unfolding place_missing
  is_answered-place_missing good [] ms j = ground arith
  is_answered-place_missing good (id ∷ ids) ms j = elim (Bool-cases (has results id)) [
    | inl e ↦ rw e (
        ground (
          arith,
          is_answered-place_missing good ids ms j,
          λ (p : eq_bytes id j ≡ true). ap (has results) ((eq_bytes_iff id j).0 p),
        ))
    | inr e ↦ rw e (
        ground (
          arith,
          is_answered-place_missing good ids (place id ms) j,
          good.answered id j ms,
          eq_bytes_iff id j,
        ))
  ]

  pub place_missing-All :
      (P : Value → Type 0) (keeps : (id : Bytes) (ms : List Value) → All P ms → All P (place id ms))
      (ids : List Bytes) (ms : List Value)
      → All P ms
      → All P (place_missing place results ids ms).0
  unfolding place_missing
  place_missing-All P keeps [] ms h = h
  place_missing-All P keeps (id ∷ ids) ms h = elim (Bool-cases (has results id)) [
    | inl e ↦ rw e (place_missing-All P keeps ids ms h)
    | inr e ↦ rw e (place_missing-All P keeps ids (place id ms) (keeps id ms h))
  ]

  -- With a result for every id the loop changes nothing.
  pub place_missing_none :
      (ids : List Bytes) (ms : List Value)
      → All (λ id. has results id ≡ true) ids
      → place_missing place results ids ms ≡ (ms, 0)
  unfolding place_missing
  place_missing_none [] ms h = refl
  place_missing_none (id ∷ ids) ms h = rw h.0 (rw (place_missing_none ids ms h.1))

module _ (orphan : Value → Bool) where
  -- Dropping keeps every test that no dropped value passes.
  pub any-drop_where :
      (P : Value → Type 0) (q : Value → Bool)
      (spares : (v : Value) → P v → orphan v ≡ true → q v ≡ false) (vs : List Value)
      → All P vs
      → any q (drop_where orphan vs).0 ≡ any q vs
  unfolding drop_where
  any-drop_where P q spares [] h = refl
  any-drop_where P q spares (v ∷ vs) h = elim (Bool-cases (orphan v)) [
    | inl e ↦ rw e (rw (spares v h.0 e) (any-drop_where P q spares vs h.1))
    | inr e ↦ rw e (ap (λ b. q v || b) (any-drop_where P q spares vs h.1))
  ]

  pub drop_where_clean : (vs : List Value) → any orphan (drop_where orphan vs).0 ≡ false
  unfolding drop_where
  drop_where_clean [] = refl
  drop_where_clean (v ∷ vs) = elim (Bool-cases (orphan v)) [
    | inl e ↦ rw e (drop_where_clean vs)
    | inr e ↦ rw e (rw e (drop_where_clean vs))
  ]

  pub drop_where_none : (vs : List Value) → any orphan vs ≡ false → drop_where orphan vs ≡ (vs, 0)
  unfolding drop_where
  drop_where_none [] h = refl
  drop_where_none (v ∷ vs) h = elim (Bool-cases (orphan v)) [
    | inl e ↦ cc (rw e at h)
    | inr e ↦ rw e (rw (drop_where_none vs (rw e at h)))
  ]

  pub drop_where-All :
      (P : Value → Type 0) (vs : List Value) → All P vs → All P (drop_where orphan vs).0
  unfolding drop_where
  drop_where-All P [] h = h
  drop_where-All P (v ∷ vs) h = elim (Bool-cases (orphan v)) [
    | inl e ↦ rw e (drop_where-All P vs h.1)
    | inr e ↦ rw e (h.0, drop_where-All P vs h.1)
  ]

-- Whether a field is unmatched depends on the set's ids alone.
pub unmatched_ext :
    (c d : IdSet) (key : Bytes) (v : Value) → has c ≡ has d → unmatched c key v ≡ unmatched d key v
unfolding unmatched
unmatched_ext c d key v p =
    ap (λ (h : Bytes → Bool). elim (string_field v key) [ none ↦ false | some id ↦ not (h id) ]) p

pub All-of-is_listed :
    (P : Bytes → Type 0) (ids : List Bytes)
    → ((id : Bytes) → is_listed id ids ≡ true → P id)
    → All P ids
All-of-is_listed P [] h = tt
All-of-is_listed P (k ∷ ids) h =
    (h k (ground (arith, eq_bytes_iff k k)), All-of-is_listed P ids (λ id e. h id (ground arith)))

-- A string that some call has for its id is not unmatched.
pub field_is-unmatched :
    (c : IdSet) (key j : Bytes) (v : Value)
    → has c j ≡ true
    → unmatched c key v ≡ true
    → field_is key j v ≡ false
unfolding unmatched field_is
field_is-unmatched c key j v h u = elim (Option-cases (string_field v key)) [
  | inl e ↦ rw (e, field_is) refl
  | inr (s, e) ↦
      rw (e, field_is)
        (ground (
          arith,
          eq_bytes_iff s j,
          rw (e, unmatched) at u,
          λ (p : eq_bytes s j ≡ true). ap (has c) ((eq_bytes_iff s j).0 p),
        ))
]
