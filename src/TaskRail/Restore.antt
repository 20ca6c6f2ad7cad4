-- ===== src/TaskRail/Restore.antt =====
-- The persisted plan of server-go/modules/economizer/rail.go: the tree that `Serialize` prints and
-- the one that `RestoreRail` reads. `ParseJSON`, which is `encoding/json`, is a parameter.
use aimee_module_economizer.Json.Laws.{to_list-of_list}
use aimee_module_economizer.Prelude.{
  ℕ, ◌≡◌, refl, ap, ◌∙◌, inl, inr, Bool, true, false, not, ◌&&◌, Option, none, some, List, [], ◌∷◌,
  map, if◌then◌else◌, ◌==◌, ltb, leb, Bytes, codes, eq_bytes, eq_bytes_iff, Bool-cases,
  Option-cases,
}
use aimee_module_economizer.Json.{
  Value, bool, number, string, array, object, end, get, get_string, set, to_list, of_list,
}
use aimee_module_economizer.TaskRail.{TaskRail, RailStep, StepState, pending, reserved, done}

-- the float64 of a state: 0, 1 and 2
unfoldable pub state_number : StepState → ℕ
state_number pending = 0
state_number reserved = 4607182418800017408
state_number done = 4611686018427387904

unfoldable pub step_tree : RailStep → Value
step_tree s =
    let named = set (object end) (codes "title") (string s.title) in
    let stated = set named (codes "state") (number (state_number s.state)) in
    if not (eq_bytes s.evidence [])
    then set stated (codes "evidence") (string s.evidence)
    else stated

-- the tree of `Serialize`
unfoldable pub rail_tree : TaskRail → Value
rail_tree r =
    let named = set (object end) (codes "objective") (string r.objective) in
    let flagged = set named (codes "locked") (bool r.locked) in
    set flagged (codes "steps") (array (of_list (map step_tree r.steps)))

-- `StepState(int(st.Num))` as a state: a float64 from 1 to 2 is reserved, one from 2 to 3 done, and
-- every other number pending
unfoldable pub state_of_number : ℕ → StepState
state_of_number n =
    if leb 4607182418800017408 n && ltb n 4611686018427387904
    then reserved
    else if leb 4611686018427387904 n && ltb n 4613937818241073152
    then done
    else pending

unfoldable pub read_state : Option Value → StepState
read_state (some (number n)) = state_of_number n
read_state _ = pending

abbrev is_object : Value → Bool
is_object (object fs) = true
is_object _ = false

unfoldable pub read_steps : List Value → List RailStep
read_steps [] = []
read_steps (v ∷ vs) =
    let rest = read_steps vs in
    if is_object v
    then record {
      title = get_string v (codes "title");
      evidence = get_string v (codes "evidence");
      state = read_state (get v (codes "state"));
    }
      ∷ rest
    else rest

-- `l.Kind == JSONTrue || (l.Kind == JSONNumber && l.Num != 0)`; the zeros of float64 are 0 and 2^63
unfoldable pub read_locked : Option Value → Bool
read_locked (some (bool b)) = b
read_locked (some (number n)) = not (n == 0) && not (n == 9223372036854775808)
read_locked _ = false

unfoldable pub read_rail : Value → List Value → TaskRail
read_rail root steps = record {
  objective = get_string root (codes "objective");
  locked = read_locked (get root (codes "locked"));
  steps = read_steps steps;
}

unfoldable pub restore_steps : Value → Option Value → Option TaskRail
restore_steps root none = some (read_rail root [])
restore_steps root (some (array vs)) = some (read_rail root (to_list vs))
restore_steps root (some v) = none

unfoldable pub restore_root : Option Value → Option TaskRail
restore_root none = none
restore_root (some root) =
    if is_object root then restore_steps root (get root (codes "steps")) else none

-- `RestoreRail`: whether it succeeds, and the plan behind it
unfoldable pub restore_rail : (Bytes → Option Value) → Bytes → TaskRail → Bool × TaskRail
restore_rail parse_json blob old =
    if eq_bytes blob []
    then (false, old)
    else elim (restore_root (parse_json blob)) [ none ↦ (false, old) | some r ↦ (true, r) ]

state_of_number-state_number : (s : StepState) → state_of_number (state_number s) ≡ s
unfolding state_of_number state_number
state_of_number-state_number pending = refl
state_of_number-state_number reserved = refl
state_of_number-state_number done = refl

read_step : (s : RailStep) (vs : List Value) → read_steps (step_tree s ∷ vs) ≡ s ∷ read_steps vs
unfolding read_steps step_tree set get get_string read_state eq_bytes
read_step s vs = elim (Bool-cases (eq_bytes s.evidence [])) [
  | inl e ↦
      let q = (eq_bytes_iff s.evidence []).0 e in
      rw (e, step_tree, state_of_number-state_number s.state, q) refl
  | inr e ↦ rw (e, step_tree, state_of_number-state_number s.state) refl
]

read_steps-step_tree : (ss : List RailStep) → read_steps (map step_tree ss) ≡ ss
unfolding read_steps
read_steps-step_tree [] = refl
read_steps-step_tree (s ∷ ss) =
    read_step s (map step_tree ss) ∙ ap (◌∷◌ s) (read_steps-step_tree ss)

restore_root-rail_tree : (r : TaskRail) → restore_root (some (rail_tree r)) ≡ some r
unfolding restore_root restore_steps rail_tree read_rail read_locked set get get_string eq_bytes
restore_root-rail_tree r =
    rw (to_list-of_list (map step_tree r.steps), read_steps-step_tree r.steps) refl

-- A text that parses to the tree of a plan restores that plan, whatever plan it replaces.
pub restore_rail-rail_tree :
    (parse_json : Bytes → Option Value) (blob : Bytes) (r old : TaskRail)
    → eq_bytes blob [] ≡ false
    → parse_json blob ≡ some (rail_tree r)
    → restore_rail parse_json blob old ≡ (true, r)
unfolding restore_rail
restore_rail-rail_tree parse_json blob r old n h = rw (n, h, restore_root-rail_tree r) refl

-- A restore that fails leaves the plan as it was.
pub restore_rail-failed :
    (parse_json : Bytes → Option Value) (blob : Bytes) (old : TaskRail)
    → (restore_rail parse_json blob old).0 ≡ false
    → (restore_rail parse_json blob old).1 ≡ old
unfolding restore_rail
restore_rail-failed parse_json blob old h = elim (Bool-cases (eq_bytes blob [])) [
  | inl e ↦ rw e refl
  | inr e ↦ elim (Option-cases (restore_root (parse_json blob))) [
    | inl f ↦ rw (e, f) refl
    | inr (r, f) ↦ absurd (cc (rw (e, f) at h))
  ]
]
