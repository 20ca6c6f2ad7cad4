-- ===== src/Provenance/Once.antt =====
-- Sequences of calls on one capability (server-go/modules/economizer/provenance.go). Of concurrent
-- calls, the checks read what no other `Consume` changes, and the compare-and-swap is one step.
use aimee_module_economizer.Prelude.{
  eq_bytes_refl, ℕ, ◌+◌, ◌≤◌, ◌≡◌, refl, sym, ◌↔◌, ◌⊎◌, inl, inr, true, false, some, List, [], ◌∷◌,
  arith, if◌then◌else◌, Bytes, eq_bytes_iff, length, Bool-cases,
}
use aimee_module_economizer.Provenance.{
  ProvenanceBinding, ProvenanceCapability, valid, eq_binding, issue, matches, swap, consume,
  destroy, provenance_max_source,
}

-- What a holder does with a capability.
pub data Call : Type 0 where
  consuming : ProvenanceBinding → Bytes → Call
  destroying : Call

module _ (sha256 : Bytes → Bytes) where
  -- how many calls of a sequence succeed, and the capability behind them
  unfoldable pub successes : List Call → ProvenanceCapability → ℕ
  successes [] c = 0
  successes (consuming expected source ∷ calls) c =
      (if (consume sha256 c expected source).0 then 1 else 0)
      + successes calls (consume sha256 c expected source).1
  successes (destroying ∷ calls) c = successes calls (destroy c)

  consume_consumed :
      (c : ProvenanceCapability) (b : ProvenanceBinding) (source : Bytes)
      → c.consumed ≡ true
      → consume sha256 c b source ≡ (false, c)
  unfolding consume swap
  consume_consumed c b source h = ground (arith, h)

  successes_consumed :
      (calls : List Call) (c : ProvenanceCapability) → c.consumed ≡ true → successes calls c ≡ 0
  unfolding successes destroy
  successes_consumed [] c h = refl
  successes_consumed (consuming b source ∷ calls) c h =
      rw (consume_consumed c b source h) (omega (arith, successes_consumed calls c h))
  successes_consumed (destroying ∷ calls) c h = successes_consumed calls (destroy c) refl

  consume_step :
      (c : ProvenanceCapability) (b : ProvenanceBinding) (source : Bytes)
      → (consume sha256 c b source ≡ (false, c))
        ⊎ ((consume sha256 c b source).0 ≡ true) × ((consume sha256 c b source).1.consumed ≡ true)
  unfolding consume swap
  consume_step c b source = elim (Bool-cases (matches sha256 c b source)) [
    | inl e ↦ elim (Bool-cases c.consumed) [
      | inl f ↦ inl (ground (arith, e, f))
      | inr f ↦ inr (ground (arith, e, f), ground (arith, e, f))
    ]
    | inr e ↦ inl (ground (arith, e))
  ]

  -- In any sequence of calls on one capability, at most one `Consume` succeeds.
  pub successes-once : (calls : List Call) (c : ProvenanceCapability) → successes calls c ≤ 1
  unfolding successes destroy
  successes-once [] c = omega arith
  successes-once (destroying ∷ calls) c = omega (arith, successes_consumed calls (destroy c) refl)
  successes-once (consuming b source ∷ calls) c = elim (consume_step c b source) [
    | inl e ↦ rw e (omega (arith, successes-once calls c))
    | inr (t, u) ↦ rw t (omega (arith, successes_consumed calls (consume sha256 c b source).1 u))
  ]

  issued :
      (b : ProvenanceBinding) (source : Bytes) {c : ProvenanceCapability}
      → issue sha256 b source ≡ some c
      → (c.binding ≡ b)
        × (c.digest ≡ sha256 source)
        × (c.source_len ≡ length source)
        × (c.consumed ≡ false)
        × (valid b ≡ true)
        × (length source ≤ provenance_max_source)
  unfolding issue
  issued b source {c} h =
      (ground arith, ground arith, ground arith, ground arith, ground arith, ground arith)

  eq_binding_iff : (a b : ProvenanceBinding) → (eq_binding a b ≡ true) ↔ (a ≡ b)
  unfolding eq_binding
  eq_binding_iff a b = ground arith

  -- the whole test, of a fresh capability
  consume_fresh :
      (c : ProvenanceCapability) (expected : ProvenanceBinding) (actual : Bytes)
      → c.consumed ≡ false
      → (consume sha256 c expected actual).0 ≡ matches sha256 c expected actual
  unfolding consume swap
  consume_fresh c expected actual h = ground (arith, h)

  matches_iff :
      (c : ProvenanceCapability) (expected : ProvenanceBinding) (actual : Bytes)
      → valid c.binding ≡ true
      → c.source_len ≤ provenance_max_source
      → (matches sha256 c expected actual ≡ true)
        ↔ ((expected ≡ c.binding) × (length actual ≡ c.source_len) × (sha256 actual ≡ c.digest))
  unfolding matches
  matches_iff c expected actual v l = (
    λ h. (
      sym ((eq_binding_iff c.binding expected).0 (ground arith)),
      ground arith,
      sym ((eq_bytes_iff c.digest (sha256 actual)).0 (ground arith)),
    ),
    λ (e, m, d).
        rw (e, (eq_binding_iff c.binding c.binding).1 refl, d, eq_bytes_refl c.digest)
          (ground (arith, v, l, m)),
  )

  -- The first `Consume` of an issued capability succeeds exactly for the binding that it was issued
  -- for and a payload with the issued one's length and digest.
  pub consume-issue :
      (b expected : ProvenanceBinding) (source actual : Bytes) {c : ProvenanceCapability}
      → issue sha256 b source ≡ some c
      → ((consume sha256 c expected actual).0 ≡ true)
        ↔ ((expected ≡ b) × (length actual ≡ length source) × (sha256 actual ≡ sha256 source))
  consume-issue b expected source actual {c} i =
      let (p, q, r, s, v, l) = issued b source i in
      rw (consume_fresh c expected actual s, ← p, ← q, ← r)
        (matches_iff c expected actual (rw (← p) at v) (rw (← r) at l))
