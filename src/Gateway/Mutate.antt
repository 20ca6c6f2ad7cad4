-- ===== src/Gateway/Mutate.antt =====
-- The outcome of each step of `BufferedMutate`
-- (server-go/modules/economizer/gateway_wire.go).
use aimee_module_economizer.Prelude.{
  ◌≡◌, refl, ap, inl, inr, true, false, not, ◌||◌, Option, none, some, List, [], arith, Bytes,
  eq_bytes, Bool-cases, Option-cases,
}
use aimee_module_economizer.Json.{Value, set, is_array, object, Fields}
use aimee_module_economizer.Json.Laws.{clone_lem}
use aimee_module_economizer.Gateway.Wire.{
  provenance_mark, provenance_clear, is_none, is_apply, get_messages, Sessions, Effect,
  buffered_mutate, mutate_known, mutate_session, mutate_messages, mutate_array, decide, install,
  Request, Deps,
}
use aimee_module_economizer.Gateway.Decision.{
  apply, no_error, should_apply, replace_messages, ReduceResult, BypassReason, snapshot_messages,
}
use aimee_module_economizer.Gateway.Outcome.{Outcome, IsDispatched, should_apply-IsDispatched}

replace_messages-some :
    (c : Option Value) (key : Bytes) (view : Value) {v : Value}
    → replace_messages c key (some view) ≡ some v
    → (fs : Fields) × (c ≡ some (object fs))
      × (eq_bytes key [] ≡ false)
      × (v ≡ set (object fs) key view)
unfolding replace_messages
replace_messages-some (some (object fs)) key view h = (fs, refl, ground arith, ground arith)
replace_messages-some _ key view h = cc

pub replace_set :
    (fs : Fields) (key : Bytes) (view msgs : Value)
    → eq_bytes key [] ≡ false
    → replace_messages (some (set (object fs) key view)) key (some msgs)
      ≡ some (set (set (object fs) key view) key msgs)
unfolding replace_messages set
replace_set fs key view msgs k = rw k refl

is_apply_sound : (b : BypassReason) → is_apply b ≡ true → b ≡ apply
is_apply_sound apply h = refl
is_apply_sound _ h = cc

module _ (reduce : Value → ReduceResult) (d : Deps) (key : Bytes) where
  -- a snapshot of `msgs`, the array under the key, is taken and nothing is replaced
  abbrev IsSnapped : Value → Request → Type 0
  IsSnapped msgs r =
      (r.ctx.mutated ≡ false)
      × (r.ctx.pristine ≡ some msgs)
      × (get_messages r.container key ≡ some msgs)

  install-Outcome :
      (msgs view : Value) (r : Request)
      → IsSnapped msgs r
      → IsDispatched d.repair (reduce msgs) view
      → Outcome reduce d key r.container
          (install d (reduce msgs) r (replace_messages r.container key (reduce msgs).messages))
  unfolding install provenance_clear provenance_mark
  install-Outcome msgs view r s q =
      elim (Option-cases (replace_messages r.container key (some view))) [
        | inl e ↦ rw (q.view_is, e) (inl (s.0, refl))
        | inr (v, e) ↦
            let (fs, c, k, w) = replace_messages-some r.container key view e in
            rw (q.view_is, e)
              (inr (
                refl,
                record {
                  fs = fs;
                  msgs = msgs;
                  view = view;
                  container_is = c;
                  messages_are = rw c at s.2;
                  key_is = k;
                  replaced = ap some w;
                  snapshot = s.1;
                  dispatched = q;
                  marked = refl;
                },
              ))
      ]

  decide-Outcome :
      (msgs : Value) (r : Request)
      → IsSnapped msgs r
      → Outcome reduce d key r.container
          (decide d key (reduce msgs) r (should_apply true (some (reduce msgs)) no_error d.repair))
  unfolding decide provenance_clear
  decide-Outcome msgs r s =
      let b = should_apply true (some (reduce msgs)) no_error d.repair in
      elim (Bool-cases (is_apply b)) [
        | inl e ↦
            let (view, q) = should_apply-IsDispatched d.repair (reduce msgs) (is_apply_sound b e) in
            rw e (install-Outcome msgs view r s q)
        | inr e ↦ rw e (inl (s.0, refl))
      ]

  mutate_array-Outcome :
      (r : Request) (msgs : Value)
      → r.ctx.mutated ≡ false
      → get_messages r.container key ≡ some msgs
      → Outcome reduce d key r.container (mutate_array reduce d key r msgs)
  unfolding mutate_array snapshot_messages
  mutate_array-Outcome r msgs m g = decide-Outcome msgs _ (m, ap some (clone_lem msgs), g)

  mutate_messages-Outcome :
      (r : Request) (o : Option Value)
      → r.ctx.mutated ≡ false
      → get_messages r.container key ≡ o
      → Outcome reduce d key r.container (mutate_messages reduce d key r o)
  unfolding mutate_messages
  mutate_messages-Outcome r none m g = inl (m, refl)
  mutate_messages-Outcome r (some msgs) m g = elim (Bool-cases (is_array (some msgs))) [
    | inl e ↦ rw e (mutate_array-Outcome r msgs m g)
    | inr e ↦ rw e (inl (m, refl))
  ]

  mutate_known-Outcome :
      (sessions : Option Sessions) (r : Request)
      → r.ctx.mutated ≡ false
      → Outcome reduce d key r.container (mutate_known reduce d key sessions r)
  unfolding mutate_known mutate_session
  mutate_known-Outcome none r m = inl (m, refl)
  mutate_known-Outcome (some s) r m = elim (Option-cases (s.resolved)) [
    | inl e ↦ rw e (inl (m, refl))
    | inr (k, e) ↦ elim (Bool-cases (s.is_disabled k)) [
      | inl f ↦ rw (e, f) (inl (m, refl))
      | inr f ↦ rw (e, f) (mutate_messages-Outcome _ _ m refl)
    ]
  ]

  -- Every request leaves `BufferedMutate` in one of two ways: not mutated, its body as it came; or
  -- mutated, its array replaced by a reduction that the reducer reports as applied, that is
  -- strictly smaller and that the structural check finds nothing to repair in, with a copy of the
  -- original array kept.
  pub buffered_mutate-Outcome :
      (c : Option Value) (effects : List Effect)
      → Outcome reduce d key c (buffered_mutate reduce d key c effects)
  unfolding buffered_mutate
  buffered_mutate-Outcome c effects =
      elim (Bool-cases (is_none c || eq_bytes key [] || not d.mutate_on)) [
        | inl e ↦ rw e (inl (refl, refl))
        | inr e ↦ rw e (mutate_known-Outcome d.sessions _ refl)
      ]
