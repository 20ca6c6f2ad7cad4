-- ===== src/Gateway/Outcome.antt =====
-- The two outcomes of `BufferedMutate` (server-go/modules/economizer/gateway_wire.go): a request
-- left as it is, and one whose array is replaced behind a snapshot.
use aimee_module_economizer.Prelude.Int.{pos}
use aimee_module_economizer.Prelude.{
  ◌<◌, ◌≡◌, refl, ◌⊎◌, true, false, Option, none, some, [], arith, Bytes, eq_bytes,
}
use aimee_module_economizer.Json.{Fields, Value, get, set, object}
use aimee_module_economizer.Json.Laws.{clone_lem}
use aimee_module_economizer.Gateway.Wire.{Request, Deps}
use aimee_module_economizer.Gateway.Decision.{
  apply, probe, is_reduced, ReduceReason, no_error, should_apply, decide_view, ReduceResult,
  StructuralCheck, reduced,
}

-- What a reduction that may be dispatched is.
pub record IsDispatched (repair : Option StructuralCheck) (res : ReduceResult) (view : Value)
    : Type 0 where
  pub view_is : res.messages ≡ some view
  pub mutated_is : res.mutated ≡ true
  pub reason_is : res.reason ≡ reduced
  pub shrinks : res.reduced_tokens < res.baseline_tokens
  pub is_clean : (check : StructuralCheck) → repair ≡ some check → (check view).1 ≡ pos 0

-- A replaced request: the array under the key was `msgs`, its snapshot is kept, and its reduction
-- stands in its place.
pub record IsReplaced (reduce : Value → ReduceResult) (d : Deps) (key : Bytes) (c : Option Value)
    (r : Request) : Type 0 where
  pub fs : Fields
  pub msgs : Value
  pub view : Value
  pub container_is : c ≡ some (object fs)
  pub messages_are : get (object fs) key ≡ some msgs
  pub key_is : eq_bytes key [] ≡ false
  pub replaced : r.container ≡ some (set (object fs) key view)
  pub snapshot : r.ctx.pristine ≡ some msgs
  pub dispatched : IsDispatched d.repair (reduce msgs) view
  pub marked : r.ctx.reduced ≡ true

probe-apply :
    (repair : Option StructuralCheck) (view : Value)
    → probe repair view ≡ apply
    → (check : StructuralCheck) → repair ≡ some check
    → (check view).1 ≡ pos 0
unfolding probe
probe-apply none view h check e = cc
probe-apply (some f) view h check e = let h' = rw (clone_lem view) at h in ground (arith, h', e)

decide_view-apply :
    (repair : Option StructuralCheck) (res : ReduceResult) (o : Option Value)
    → decide_view repair res o ≡ apply
    → (view : Value) × (o ≡ some view)
      × (res.mutated ≡ true)
      × (is_reduced res.reason ≡ true)
      × (res.reduced_tokens < res.baseline_tokens)
      × (probe repair view ≡ apply)
unfolding decide_view
decide_view-apply repair res none h = cc
decide_view-apply repair res (some view) h =
    (view, refl, ground arith, ground arith, ground arith, ground arith)

is_reduced_sound : (r : ReduceReason) → is_reduced r ≡ true → r ≡ reduced
is_reduced_sound reduced h = refl
is_reduced_sound _ h = cc

-- The decision is `apply` only for a dispatched reduction.
pub should_apply-IsDispatched :
    (repair : Option StructuralCheck) (res : ReduceResult)
    → should_apply true (some res) no_error repair ≡ apply
    → (view : Value) × IsDispatched repair res view
unfolding should_apply
should_apply-IsDispatched repair res h =
    let (view, e, m, r, l, q) = decide_view-apply repair res res.messages h in
    (
      view,
      record {
        view_is = e;
        mutated_is = m;
        reason_is = is_reduced_sound res.reason r;
        shrinks = l;
        is_clean = probe-apply repair view q;
      },
    )

abbrev pub Outcome : (Value → ReduceResult) → Deps → Bytes → Option Value → Request → Type 0
Outcome reduce d key c r =
    ((r.ctx.mutated ≡ false) × (r.container ≡ c))
    ⊎ ((r.ctx.mutated ≡ true) × IsReplaced reduce d key c r)
