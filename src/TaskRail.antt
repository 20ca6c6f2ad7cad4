-- ===== src/TaskRail.antt =====
-- The plan of server-go/modules/economizer/rail.go: its steps and the operations on them. A nil rail
-- is not modelled; an operation that returns an error is `none`.
pub mod Order
pub mod Restore
pub mod Tests
use aimee_module_economizer.Prelude.{
  ℕ, zero, suc, ◌+◌, ◌-◌, ◌*◌, ◌/◌, ◌%◌, ◌^◌, ◌≤◌, ◌<◌, min, ◌≡◌, refl, sym, ap, ap₂, ◌∙◌, subst,
  fun_ext, ◌≢◌, ◌↔◌, ◌⊎◌, inl, inr, Bool, true, false, not, ◌&&◌, ◌||◌, Option, none, some, List,
  [], ◌∷◌, ◌++◌, map, append-nil, append_assoc, arith, if◌then◌else◌, ◌==◌, ltb, leb, Bytes, codes,
  eq_bytes, eq_bytes_iff, length, All, any, all, Bool-cases, Option-cases, ==_iff, take, drop,
}
use mathlib.Core.Option
use aimee_module_economizer.Prelude.Int.{ℤ, pos, negsuc}

pub data StepState : Type 0 where
  pending reserved done : StepState

pub record RailStep : Type 0 where
  pub title : Bytes
  pub evidence : Bytes
  pub state : StepState

pub record TaskRail : Type 0 where
  pub objective : Bytes
  pub locked : Bool
  pub steps : List RailStep

abbrev pub is_pending : StepState → Bool
is_pending pending = true
is_pending _ = false

abbrev pub is_done : StepState → Bool
is_done done = true
is_done _ = false

-- `Start`
unfoldable pub start : Bytes → List Bytes → TaskRail
start objective titles = record {
  objective = objective;
  locked = true;
  steps = map (λ t. record { title = t; evidence = []; state = pending }) titles;
}

-- the step at an index that is in range, replaced by what the operation makes of it
unfoldable pub change_at : (RailStep → Option RailStep) → ℕ → List RailStep → Option (List RailStep)
change_at f i [] = none
change_at f zero (s ∷ ss) = Option.map (λ t. t ∷ ss) (f s)
change_at f (suc i) (s ∷ ss) = Option.map (◌∷◌ s) (change_at f i ss)

unfoldable pub change_step : (RailStep → Option RailStep) → ℤ → TaskRail → Option TaskRail
change_step f (pos i) r = Option.map (λ ss. record r { steps = ss }) (change_at f i r.steps)
change_step f (negsuc i) r = none

unfoldable pub reserve_step : RailStep → Option RailStep
reserve_step s = if not (is_pending s.state) then none else some (record s { state = reserved })

unfoldable pub ack_step : Bytes → RailStep → Option RailStep
ack_step evidence s = some (record s {
  evidence = if not (eq_bytes evidence []) then evidence else s.evidence;
  state = done;
})

-- `Reserve`
unfoldable pub reserve : ℤ → TaskRail → Option TaskRail
reserve = change_step reserve_step

-- `Ack`
unfoldable pub ack : ℤ → Bytes → TaskRail → Option TaskRail
ack idx evidence = change_step (ack_step evidence) idx

-- the index of the first step that is not done, and -1 if there is none
unfoldable pub next_from : ℕ → List RailStep → ℤ
next_from i [] = negsuc 0
next_from i (s ∷ ss) =
    let rest = next_from (suc i) ss in if not (is_done s.state) then pos i else rest

-- `Next`
unfoldable pub next : TaskRail → ℤ
next r = next_from 0 r.steps

unfoldable pub count_done : List RailStep → ℕ
count_done [] = 0
count_done (s ∷ ss) = (if is_done s.state then 1 else 0) + count_done ss

-- `DoneCount`
unfoldable pub done_count : TaskRail → ℕ
done_count r = count_done r.steps
