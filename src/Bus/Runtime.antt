-- ===== src/Bus/Runtime.antt =====
-- The serving side of server-go/bus/module_runtime.go: one event of `runModuleClient`, the end of a job,
-- and the check of the stages. What is answered is a value: the loop hands it to `replyModuleResult` and
-- ends if that fails. A job runs beside the loop, so its end is a step of its own.
pub mod Invariant
pub mod Serve
pub mod Tests
use aimee_module_economizer.Prelude.{
  ℕ, zero, suc, ◌+◌, ◌-◌, ◌*◌, ◌/◌, ◌%◌, ◌^◌, ◌≤◌, ◌<◌, min, ◌≡◌, refl, sym, ap, ap₂, ◌∙◌, subst,
  fun_ext, ◌≢◌, ◌↔◌, ◌⊎◌, inl, inr, Bool, true, false, not, ◌&&◌, ◌||◌, Option, none, some, List,
  [], ◌∷◌, ◌++◌, map, append-nil, append_assoc, arith, if◌then◌else◌, ◌==◌, ltb, leb, Bytes, codes,
  eq_bytes, eq_bytes_iff, length, All, any, all, Bool-cases, Option-cases, ==_iff, take, drop,
}
use aimee_module_economizer.Bus.Frame.{Frame, f_more, f_cancel, f_request, has_flag}
use aimee_module_economizer.Bus.Message.{
  ModuleMessage, decode, deadline_expired, module_message_header_len, module_message_max_body,
  module_op_invoke, module_status_ok, module_status_internal,
}

abbrev pub module_max_in_flight : ℕ
module_max_in_flight = 16

abbrev pub module_status_invalid_request : ℕ
module_status_invalid_request = 4

abbrev pub module_status_capability_absent : ℕ
module_status_capability_absent = 1

abbrev pub module_status_deadline_exceeded : ℕ
module_status_deadline_exceeded = 3

abbrev pub module_status_cancelled : ℕ
module_status_cancelled = 2

-- the maps of the loop, by correlation or by event kind
module _ {A : Type 0} where
  unfoldable pub find : ℕ → List (ℕ × A) → Option A
  find k [] = none
  find k (p ∷ xs) = let rest = find k xs in if p.0 == k then some p.1 else rest

  unfoldable pub erase : ℕ → List (ℕ × A) → List (ℕ × A)
  erase k [] = []
  erase k (p ∷ xs) = let rest = erase k xs in if p.0 == k then rest else p ∷ rest

  abbrev pub put_entry : ℕ → A → List (ℕ × A) → List (ℕ × A)
  put_entry k a xs = (k, a) ∷ erase k xs

pub record ModuleStage : Type 0 where
  pub event_kind : ℕ
  pub stage_id : ℕ

-- the loop of `validateModuleConfig`, with the stages so far
unfoldable pub validate_stages : List ModuleStage → List (ℕ × ℕ) → Option (List (ℕ × ℕ))
validate_stages [] stages = some stages
validate_stages (x ∷ xs) stages =
    let rest = validate_stages xs (put_entry x.event_kind x.stage_id stages) in
    if x.event_kind == 0 || x.stage_id == 0
    then none
    else elim (find x.event_kind stages) [ some i ↦ none | none ↦ rest ]

-- `stages[kind]`, zero for a kind that is missing
abbrev pub stage_of : List (ℕ × ℕ) → ℕ → ℕ
stage_of stages kind = elim (find kind stages) [ none ↦ 0 | some i ↦ i ]

pub record ModuleAssembly : Type 0 where
  pub event_kind : ℕ
  pub message : ModuleMessage
  pub body : Bytes

pub record ModuleWork : Type 0 where
  pub event_kind : ℕ
  pub stage_id : ℕ
  pub deadline_ns : ℕ
  pub trace_id : ℕ
  pub cancelled : Bool

pub record Serving : Type 0 where
  pub assemblies : List (ℕ × ModuleAssembly)
  pub jobs : List (ℕ × ModuleWork)

-- the maps when the loop begins
abbrev pub idle_serving : Serving
idle_serving = record { assemblies = []; jobs = [] }

-- the answer to an event: `reply` has the kind, the correlation, the stage, the trace, the status and
-- the body of a call of `replyModuleResult`; `start` is the call of `runHandler`
pub data Answer : Type 0 where
  quiet : Answer
  reply : ℕ → ℕ → ℕ → ℕ → ℕ → Bytes → Answer
  start : ModuleWork → Bytes → Answer

-- `invalidModuleRequest`
abbrev pub invalid_module_request : Frame → ℕ → ℕ → Answer
invalid_module_request f stage_id trace_id =
    reply f.event_kind f.correlation_id (if stage_id == 0 then 1 else stage_id) trace_id
      module_status_invalid_request []

-- the flag of a job is set
unfoldable pub cancel_job : ℕ → List (ℕ × ModuleWork) → List (ℕ × ModuleWork)
cancel_job k [] = []
cancel_job k (p ∷ xs) =
    let rest = cancel_job k xs in
    if p.0 == k then (p.0, record p.1 { cancelled = true }) ∷ xs else p ∷ rest

-- a whole request: its assembly is gone
unfoldable pub dispatch : Bool → ℕ → Frame → ℕ → ModuleMessage → Bytes → Serving → Serving × Answer
dispatch has_handler now f stage m body s =
    if deadline_expired m now
    then (
      s,
      reply f.event_kind f.correlation_id stage m.trace_id module_status_deadline_exceeded [],
    )
    else if not has_handler
    then (
      s,
      reply f.event_kind f.correlation_id stage m.trace_id module_status_capability_absent [],
    )
    else if leb module_max_in_flight (length s.jobs)
    then (s, reply f.event_kind f.correlation_id stage m.trace_id module_status_internal [])
    else let work : ModuleWork = record {
      event_kind = f.event_kind;
      stage_id = stage;
      deadline_ns = m.deadline_ns;
      trace_id = m.trace_id;
      cancelled = false;
    } in
      (record s { jobs = put_entry f.correlation_id work s.jobs }, start work body)

-- a fragment for an assembly
unfoldable pub gather :
    Bool → ℕ → Frame → Bytes → ℕ → ModuleMessage → ModuleAssembly → Serving → Serving × Answer
gather has_handler now f payload stage m a s =
    let body = take m.body_len (drop module_message_header_len payload) in
    let without = record s { assemblies = erase f.correlation_id s.assemblies } in
    let longer = a.body ++ body in
    if ltb module_message_max_body (length a.body + length body)
    then (without, reply f.event_kind f.correlation_id stage m.trace_id module_status_internal [])
    else if has_flag f f_more
    then (
      record s {
        assemblies = put_entry f.correlation_id (record a { body = longer }) s.assemblies;
      },
      quiet,
    )
    else dispatch has_handler now f stage m longer without

abbrev pub mismatch : Frame → ModuleMessage → ModuleAssembly → Bool
mismatch f m a =
    not (a.event_kind == f.event_kind)
    || not (a.message.stage_id == m.stage_id)
    || not (a.message.deadline_ns == m.deadline_ns)
    || not (a.message.trace_id == m.trace_id)

abbrev pub refuse : Frame → ℕ → Serving → Serving × Answer
refuse f stage s = (
  record s { assemblies = erase f.correlation_id s.assemblies },
  invalid_module_request f stage 0,
)

unfoldable pub serve_message :
    Bool → ℕ → Frame → Bytes → ℕ → ModuleMessage → Serving → Serving × Answer
serve_message has_handler now f payload stage m s = elim (find f.correlation_id s.jobs) [
  | some w ↦ refuse f stage s
  | none ↦
      if stage == 0 || not (m.operation == module_op_invoke) || not (m.stage_id == stage)
      then refuse f stage s
      else elim (find f.correlation_id s.assemblies) [
        | some a ↦
            if mismatch f m a
            then refuse f stage s
            else gather has_handler now f payload stage m a s
        | none ↦
            if leb module_max_in_flight (length s.assemblies)
            then (s, reply f.event_kind f.correlation_id stage m.trace_id module_status_internal [])
            else gather has_handler now f payload stage m
                (record { event_kind = f.event_kind; message = m; body = [] }) s
      ]
]

-- one event of the loop, at a time
unfoldable pub serve_event : List (ℕ × ℕ) → Bool → ℕ → Frame → Bytes → Serving → Serving × Answer
serve_event stages has_handler now f payload s =
    if has_flag f f_cancel
    then (
      record {
        assemblies = erase f.correlation_id s.assemblies;
        jobs = cancel_job f.correlation_id s.jobs;
      },
      quiet,
    )
    else if not (has_flag f f_request)
    then (s, quiet)
    else elim (decode payload) [
      | none ↦ refuse f (stage_of stages f.event_kind) s
      | some m ↦ serve_message has_handler now f payload (stage_of stages f.event_kind) m s
    ]

-- `runHandler` behind the handler, at a time
unfoldable pub run_handler : ModuleWork → ℕ → Bytes → ℕ → ℕ × Bytes
run_handler work now response status =
    let checked : ℕ × Bytes =
      if ltb module_status_internal status || ltb module_message_max_body (length response)
      then (module_status_internal, [])
      else if not (status == module_status_ok)
      then (status, [])
      else (status, response) in
    if work.cancelled
    then (module_status_cancelled, [])
    else if not (work.deadline_ns == 0) && not (now == 0) && leb work.deadline_ns now
    then (module_status_deadline_exceeded, [])
    else checked

-- `finishModuleWork` for the job of a correlation
unfoldable pub finish_module_work : ℕ → ModuleWork → ℕ × Bytes → Serving → Serving × Answer
finish_module_work corr work r s = (
  record s { jobs = erase corr s.jobs },
  reply work.event_kind corr work.stage_id work.trace_id r.0 r.1,
)
