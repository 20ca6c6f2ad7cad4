-- ===== src/TaskRail/Tests.antt =====
-- A plan of two steps (server-go/modules/economizer/rail_test.go), and the theorems at it.
use aimee_module_economizer.Prelude.{
  ℕ, ◌<◌, ◌≡◌, refl, ◌⊎◌, true, false, Option, none, some, [], ◌∷◌, Bytes, codes, eq_bytes, length,
}
use aimee_module_economizer.Prelude.Int.{pos, negsuc}
use aimee_module_economizer.Json.{Value}
use aimee_module_economizer.TaskRail.{
  reserved, pending, done, TaskRail, start, reserve, ack, change_step, change_at, reserve_step,
  ack_step, next, done_count, next_from,
}
use aimee_module_economizer.TaskRail.Order.{
  stop, step, reserving, acking, IsProgress, Steps-IsProgress, IsFirst, next-IsFirst,
}
use aimee_module_economizer.TaskRail.Restore.{rail_tree, restore_rail, restore_rail-rail_tree}

abbrev plan : TaskRail
plan = record {
  objective = codes "ship";
  locked = true;
  steps =
      record { title = codes "a"; evidence = []; state = pending }
      ∷ record { title = codes "b"; evidence = []; state = pending }
      ∷ [];
}

abbrev first_done : TaskRail
first_done = record {
  objective = codes "ship";
  locked = true;
  steps =
      record { title = codes "a"; evidence = codes "ok"; state = done }
      ∷ record { title = codes "b"; evidence = []; state = reserved }
      ∷ [];
}

abbrev second_reserved : TaskRail
second_reserved = record {
  objective = codes "ship";
  locked = true;
  steps =
      record { title = codes "a"; evidence = []; state = pending }
      ∷ record { title = codes "b"; evidence = []; state = reserved }
      ∷ [];
}

started : start (codes "ship") (codes "a" ∷ codes "b" ∷ []) ≡ plan
unfolding start
started = refl

reserve_second : reserve (pos 1) plan ≡ some second_reserved
unfolding reserve change_step change_at reserve_step
reserve_second = refl

ack_first : ack (pos 0) (codes "ok") second_reserved ≡ some first_done
unfolding ack change_step change_at ack_step eq_bytes
ack_first = refl

reserve_again : reserve (pos 1) second_reserved ≡ none
unfolding reserve change_step change_at reserve_step
reserve_again = refl

Steps-IsProgress_example : IsProgress plan first_done
Steps-IsProgress_example =
    Steps-IsProgress
      (step (reserving (pos 1) reserve_second) (step (acking (pos 0) (codes "ok") ack_first) stop))

next_second : next first_done ≡ pos 1
unfolding next next_from
next_second = refl

next-IsFirst_example :
    ((next first_done ≡ negsuc 0) × (done_count first_done ≡ length first_done.steps))
    ⊎ ((j : ℕ) × (next first_done ≡ pos j)
        × (done_count first_done < length first_done.steps)
        × IsFirst j first_done.steps)
next-IsFirst_example = next-IsFirst first_done

-- a parser that reads the plan from every text
abbrev reads_plan : Bytes → Option Value
reads_plan text = some (rail_tree first_done)

braces : eq_bytes (codes "{}") [] ≡ false
unfolding eq_bytes
braces = refl

restore_rail-rail_tree_example : restore_rail reads_plan (codes "{}") plan ≡ (true, first_done)
restore_rail-rail_tree_example =
    restore_rail-rail_tree reads_plan (codes "{}") first_done plan braces refl
