-- ===== src/Gateway/Pairing.antt =====
-- The gateway of server-go/modules/economizer/gateway_wire.go with `MessageHistoryRepair` as its
-- structural check, as the reduce stage passes it.
use aimee_module_economizer.Prelude.{
  eq_bytes_refl, ℕ, ◌≡◌, refl, inl, inr, Bool, true, not, ◌||◌, Option, some, List, arith, Bytes,
  Bool-cases,
}
use aimee_module_economizer.Prelude.Int.{pos}
use aimee_module_economizer.Json.{to_list, Value, Items, get, array}
use aimee_module_economizer.Json.Laws.{get-set}
use aimee_module_economizer.Repair.History.{message_history_repair}
use aimee_module_economizer.Repair.Zero.{repair_zero}
use aimee_module_economizer.Repair.Pairing.{IsAnswered}
use aimee_module_economizer.Gateway.Wire.{buffered_mutate, Request, Deps, Effect}
use aimee_module_economizer.Gateway.After.{stream_disable}
use aimee_module_economizer.Gateway.Decision.{ReduceResult, StructuralCheck}
use aimee_module_economizer.Gateway.Outcome.{IsReplaced}
use aimee_module_economizer.Gateway.Mutate.{buffered_mutate-Outcome}
use aimee_module_economizer.Gateway.Restore.{IsReplaced-of}

abbrev pub production_check : (Bytes → Bool) → StructuralCheck
production_check is_json v =
    ((message_history_repair is_json v).0, pos (message_history_repair is_json v).1)

pos_part : {a b : ℕ} → pos a ≡ pos b → a ≡ b
pos_part h = ground arith

IsAnswered-view :
    (is_json : Bytes → Bool) {reduce : Value → ReduceResult} {d : Deps} {key : Bytes}
    {c : Option Value} (r : Request)
    → d.repair ≡ some (production_check is_json)
    → IsReplaced reduce d key c r
    → (body : Value) (vs : Items) → r.container ≡ some body
    → get body key ≡ some (array vs)
    → IsAnswered (to_list vs)
IsAnswered-view is_json {key} r p q body vs b g =
    let w = rw (eq_bytes_refl key) at (get-set q.fs key key q.view) in
    let e : q.view ≡ array vs = ground (arith, w, b, g, q.replaced) in
    repair_zero is_json vs (pos_part (rw e at (q.dispatched.is_clean (production_check is_json) p)))

-- A mutated request that leaves with an array of messages has no tool call without a result, if
-- the structural check is `MessageHistoryRepair`.
pub buffered_mutate-IsAnswered :
    (is_json : Bytes → Bool) (reduce : Value → ReduceResult) (d : Deps) (key : Bytes)
    (c : Option Value) (effects : List Effect)
    → d.repair ≡ some (production_check is_json)
    → (buffered_mutate reduce d key c effects).ctx.mutated ≡ true
    → (body : Value) (vs : Items) → (buffered_mutate reduce d key c effects).container ≡ some body
    → get body key ≡ some (array vs)
    → IsAnswered (to_list vs)
buffered_mutate-IsAnswered is_json reduce d key c effects p m =
    let r = buffered_mutate reduce d key c effects in
    IsAnswered-view is_json r p (IsReplaced-of r (buffered_mutate-Outcome reduce d key c effects) m)

-- One disable for each streaming turn: a later frame does nothing.
pub stream_disable-stream_disable :
    (d : Deps) (first later : Bytes) (r : Request)
    → stream_disable d later (stream_disable d first r) ≡ stream_disable d first r
unfolding stream_disable
stream_disable-stream_disable d first later r =
    elim (Bool-cases (not r.ctx.mutated || not r.ctx.have_key)) [
      | inl e ↦ rw (e, e) refl
      | inr e ↦ rw e refl
    ]
