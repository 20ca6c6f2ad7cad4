-- ===== src/Gateway/Restore.antt =====
-- The request behind the provider's answer
-- (server-go/modules/economizer/gateway_wire.go).
use aimee_module_economizer.Json.Writes.{set-get, set-set, set-update}
use aimee_module_economizer.Prelude.{
  arith, codes, ℕ, true, List, ◌/◌, ◌++◌, ◌≡◌, refl, ◌≢◌, ap, ◌∙◌, inl, inr, false, Option, none,
  some, [], Bytes, eq_bytes, Option-cases,
}
use mathlib.Core.Option
use aimee_module_economizer.Json.{Value, get, set, update, object, Fields}
use aimee_module_economizer.Gateway.Wire.{
  stats_inc, buffered_mutate, provenance_clear, Effect, is_none, Request, Deps,
}
use aimee_module_economizer.Gateway.After.{
  disabled, post_resend, post_none, after_5xx, after_4xx, buffered_after_status, restore,
  restore_into, repair_under,
}
use aimee_module_economizer.Gateway.Decision.{replace_messages, ReduceResult, StructuralCheck}
use aimee_module_economizer.Gateway.Outcome.{Outcome, IsReplaced}
use aimee_module_economizer.Gateway.Mutate.{
  buffered_mutate-Outcome, buffered_mutate-Outcome, replace_set,
}

-- the structural check run on the array under the key of a request as it came
abbrev pub repair_at : Bytes → Option StructuralCheck → Value → Value
repair_at key none v = v
repair_at key (some check) v = update v key (λ m. (check m).0)

repair_under-repair_at :
    (key : Bytes) (check : Option StructuralCheck) (fs : Fields) {msgs : Value}
    → get (object fs) key ≡ some msgs
    → repair_under key check (object fs) (get (object fs) key) ≡ repair_at key check (object fs)
unfolding repair_under
repair_under-repair_at key none fs h = refl
repair_under-repair_at key (some f) fs h = rw h (set-update fs key (λ m. (f m).0) h)

restore_body :
    (fs : Fields) (key : Bytes) (view msgs : Value)
    → get (object fs) key ≡ some msgs
    → eq_bytes key [] ≡ false
    → replace_messages (some (set (object fs) key view)) key (some msgs) ≡ some (object fs)
restore_body fs key view msgs g k =
    replace_set fs key view msgs k ∙ ap some (set-set fs key view msgs ∙ set-get fs key g)

pub restore-IsReplaced :
    {reduce : Value → ReduceResult} {d : Deps} {key : Bytes} {c : Option Value} (r : Request)
    → IsReplaced reduce d key c r
    → (restore d key r r.ctx.pristine).container ≡ Option.map (repair_at key d.repair) c
unfolding restore restore_into
restore-IsReplaced {d} {key} r q =
    rw
      (
        q.snapshot,
        q.container_is,
        q.replaced,
        restore_body q.fs key q.view q.msgs q.messages_are q.key_is,
      )
      (ap some (repair_under-repair_at key d.repair q.fs q.messages_are))

pub restore-effects :
    (d : Deps) (key : Bytes) (r : Request) (o : Option Value)
    → ((restore d key r o).effects ≡ r.effects)
      × ((restore d key r o).ctx.key ≡ r.ctx.key)
      × ((restore d key r o).ctx.ttl_ms ≡ r.ctx.ttl_ms)
unfolding restore restore_into
restore-effects d key r none = (refl, refl, refl)
restore-effects d key r (some p) = elim (Option-cases (replace_messages r.container key (some p))) [
  | inl e ↦ rw e (refl, refl, refl)
  | inr (v, e) ↦ rw e (refl, refl, refl)
]

-- mutated and unmutated requests, for a split on the flag
pub IsReplaced-of :
    {reduce : Value → ReduceResult} {d : Deps} {key : Bytes} {c : Option Value} (r : Request)
    → Outcome reduce d key c r
    → r.ctx.mutated ≡ true
    → IsReplaced reduce d key c r
IsReplaced-of r (inl h) m = cc
IsReplaced-of r (inr h) m = h.1

pub is_replaceable :
    {reduce : Value → ReduceResult} {d : Deps} {key : Bytes} {c : Option Value} (r : Request)
    → IsReplaced reduce d key c r
    → (is_none r.container ≡ false) × (eq_bytes key [] ≡ false)
is_replaceable r q = (rw q.replaced refl, q.key_is)

module _ (d : Deps) (key : Bytes) (r : Request) where
  pub status_4xx :
      (status : ℕ)
      → r.ctx.mutated ≡ true
      → (is_none r.container ≡ false) × (eq_bytes key [] ≡ false)
      → status / 100 ≡ 4
      → buffered_after_status d key status r ≡ (after_4xx d key r, post_resend)
  unfolding buffered_after_status
  status_4xx status m (n, k) s = ground (arith, m, n, k, s)

  pub status_5xx :
      (status : ℕ)
      → r.ctx.mutated ≡ true
      → (is_none r.container ≡ false) × (eq_bytes key [] ≡ false)
      → status / 100 ≡ 5
      → buffered_after_status d key status r ≡ (after_5xx d r, post_none)
  unfolding buffered_after_status
  status_5xx status m (n, k) s = ground (arith, m, n, k, s)

  pub status_other :
      (status : ℕ)
      → status / 100 ≢ 4
      → status / 100 ≢ 5
      → buffered_after_status d key status r ≡ (r, post_none)
  unfolding buffered_after_status
  status_other status m n = ground (arith, m, n)

  pub status_unmutated :
      (status : ℕ) → r.ctx.mutated ≡ false → buffered_after_status d key status r ≡ (r, post_none)
  unfolding buffered_after_status
  status_unmutated status m = ground (arith, m)

  disabled_same :
      (q : Request) (reason : Bytes)
      → (q.ctx.key ≡ r.ctx.key) × (q.ctx.ttl_ms ≡ r.ctx.ttl_ms)
      → disabled d q.ctx reason ≡ disabled d r.ctx reason
  unfolding disabled
  disabled_same q reason (k, t) = rw (k, t) refl

module _ (reduce : Value → ReduceResult) (d : Deps) (key : Bytes) (c : Option Value)
    (effects : List Effect) where
  -- If the provider refuses a mutated request with a 4xx, the body is again as it came, but for
  -- the structural check's work on its messages; the request is sent once more, unmarked; the
  -- session is disabled; and no later status is acted on.
  pub buffered_after_status-4xx :
      (status later : ℕ)
      → (buffered_mutate reduce d key c effects).ctx.mutated ≡ true
      → status / 100 ≡ 4
      → let r = buffered_mutate reduce d key c effects in
        let a = buffered_after_status d key status r in
        (a.1 ≡ post_resend)
        × (a.0.container ≡ Option.map (repair_at key d.repair) c)
        × (a.0.ctx.mutated ≡ false)
        × (a.0.ctx.reduced ≡ false)
        × (a.0.effects
            ≡ r.effects
              ++ disabled d r.ctx (codes "4xx")
              ++ stats_inc d (codes "4xx_restore_resend"))
        × (buffered_after_status d key later a.0 ≡ (a.0, post_none))
  unfolding after_4xx provenance_clear
  buffered_after_status-4xx status later m s =
      let r = buffered_mutate reduce d key c effects in
      let q = IsReplaced-of r (buffered_mutate-Outcome reduce d key c effects) m in
      let (f, g, h) = restore-effects d key r r.ctx.pristine in
      rw (status_4xx d key r status m (is_replaceable r q) s) (
        refl,
        restore-IsReplaced r q,
        refl,
        refl,
        rw (f, disabled_same d key r (restore d key r r.ctx.pristine) (codes "4xx") (g, h)) refl,
        status_unmutated d key (after_4xx d key r) later refl,
      )
