-- ===== src/Bus/Runtime/Serve.antt =====
-- The events of `runModuleClient` in server-go/bus/module_runtime.go keep the bounds of its maps.
use aimee_module_economizer.Prelude.{
  ℕ, ◌+◌, ◌<◌, ◌≡◌, inl, inr, Bool, not, ◌||◌, none, some, List, ◌++◌, arith, ◌==◌, ltb, leb, Bytes,
  length, Bool-cases, Option-cases, take, drop,
}
use aimee_module_economizer.Prelude.{length-append}
use aimee_module_economizer.Bus.Frame.{Frame, f_more, f_cancel, f_request, has_flag}
use aimee_module_economizer.Bus.Message.{
  ModuleMessage, decode, deadline_expired, module_message_header_len, module_message_max_body,
  module_op_invoke,
}
use aimee_module_economizer.Bus.Runtime.{
  run_handler, module_max_in_flight, find, erase, ModuleAssembly, ModuleWork, Serving, dispatch,
  gather, mismatch, serve_message, serve_event, finish_module_work, stage_of,
}
use aimee_module_economizer.Bus.Runtime.Invariant.{
  IsServing, length-erase, length-erase_present, find-erase, erase_assembly-IsServing,
  cancel-IsServing, erase_job-IsServing, put_assembly-IsServing, put_job-IsServing, read_count,
}

module _ (has_handler : Bool) (now : ℕ) (f : Frame) (stage : ℕ) (m : ModuleMessage) where
  dispatch-IsServing :
      (body : Bytes) (s : Serving)
      → IsServing s
      → find f.correlation_id s.assemblies ≡ none
      → IsServing (dispatch has_handler now f stage m body s).0
  unfolding dispatch
  dispatch-IsServing body s i n = elim (Bool-cases (deadline_expired m now)) [
    | inl e ↦ rw e i
    | inr e ↦ elim (Bool-cases (not has_handler)) [
      | inl g ↦ rw (e, g) i
      | inr g ↦ elim (Bool-cases (leb module_max_in_flight (length s.jobs))) [
        | inl h ↦ rw (e, g, h) i
        | inr h ↦ rw (e, g, h) (put_job-IsServing f.correlation_id _ s i (ground (arith, h)) n)
      ]
    ]
  ]

  gather-IsServing :
      (payload : Bytes) (a : ModuleAssembly) (s : Serving)
      → IsServing s
      → find f.correlation_id s.jobs ≡ none
      → length (erase f.correlation_id s.assemblies) < module_max_in_flight
      → IsServing (gather has_handler now f payload stage m a s).0
  unfolding gather
  gather-IsServing payload a s i n l =
      let body = take m.body_len (drop module_message_header_len payload) in
      let w = erase_assembly-IsServing f.correlation_id s i in
      elim (Bool-cases (ltb module_message_max_body (length a.body + length body))) [
        | inl e ↦ rw e w
        | inr e ↦ elim (Bool-cases (has_flag f f_more)) [
          | inl g ↦
              rw (e, g)
                (put_assembly-IsServing f.correlation_id (record a { body = a.body ++ body }) s i l
                  (ground (arith, e, length-append a.body body)) n)
          | inr g ↦
              rw (e, g)
                (dispatch-IsServing (a.body ++ body) _ w (find-erase f.correlation_id s.assemblies))
        ]
      ]

  serve_message-IsServing :
      (payload : Bytes) (s : Serving)
      → IsServing s
      → IsServing (serve_message has_handler now f payload stage m s).0
  unfolding serve_message
  serve_message-IsServing payload s i =
      let r = erase_assembly-IsServing f.correlation_id s i in
      elim (Option-cases (find f.correlation_id s.jobs)) [
        | inr (x, e) ↦ rw (serve_message, e) r
        | inl e ↦
            elim (Bool-cases
              (stage == 0 || not (m.operation == module_op_invoke) || not (m.stage_id == stage))) [
                | inl g ↦ rw (serve_message, e, g) r
                | inr g ↦ elim (Option-cases (find f.correlation_id s.assemblies)) [
                  | inr (a, h) ↦ elim (Bool-cases (mismatch f m a)) [
                    | inl q ↦ rw (serve_message, e, g, h, q) r
                    | inr q ↦
                        rw (serve_message, e, g, h, q)
                          (gather-IsServing payload a s i e (
                            omega (
                              arith,
                              length-erase_present f.correlation_id s.assemblies h,
                              read_count s i,
                            )))
                  ]
                  | inl h ↦ elim (Bool-cases (leb module_max_in_flight (length s.assemblies))) [
                    | inl q ↦ rw (serve_message, e, g, h, q) i
                    | inr q ↦
                        rw (serve_message, e, g, h, q)
                          (gather-IsServing payload _ s i e
                            (ground (arith, q, length-erase f.correlation_id s.assemblies)))
                  ]
                ]
              ]
      ]

pub serve_event-IsServing :
    (stages : List (ℕ × ℕ)) (has_handler : Bool) (now : ℕ) (f : Frame) (payload : Bytes)
    (s : Serving)
    → IsServing s
    → IsServing (serve_event stages has_handler now f payload s).0
unfolding serve_event
serve_event-IsServing stages has_handler now f payload s i =
    let r = erase_assembly-IsServing f.correlation_id s i in
    elim (Bool-cases (has_flag f f_cancel)) [
      | inl e ↦ rw e (cancel-IsServing f.correlation_id _ r)
      | inr e ↦ elim (Bool-cases (not (has_flag f f_request))) [
        | inl g ↦ rw (e, g) i
        | inr g ↦ elim (Option-cases (decode payload)) [
          | inl h ↦ rw (e, g, h) r
          | inr (m, h) ↦
              rw (e, g, h)
                (serve_message-IsServing has_handler now f (stage_of stages f.event_kind) m payload
                  s i)
        ]
      ]
    ]

-- The loop: events at any times, and ends of jobs that it holds, in any order.
pub data Steps (stages : List (ℕ × ℕ)) (has_handler : Bool) : Serving → Serving → Type 0 where
  rest : {s : Serving} → Steps stages has_handler s s
  served :
      {s t : Serving} (now : ℕ) (f : Frame) (payload : Bytes)
      → Steps stages has_handler s t
      → Steps stages has_handler s (serve_event stages has_handler now f payload t).0
  finished :
      {s t : Serving} (corr : ℕ) (work : ModuleWork) (now : ℕ) (response : Bytes) (status : ℕ)
      → find corr t.jobs ≡ some work
      → Steps stages has_handler s t
      → Steps stages has_handler s
          (finish_module_work corr work (run_handler work now response status) t).0

finish-IsServing :
    (corr : ℕ) (work : ModuleWork) (r : ℕ × Bytes) (s : Serving)
    → IsServing s
    → IsServing (finish_module_work corr work r s).0
unfolding finish_module_work
finish-IsServing corr work r s i = erase_job-IsServing corr s i

-- Under any sequence of events and ends of jobs the loop keeps at most 16 assemblies and at most 16
-- jobs, every assembled body within the limit, and no correlation with both an assembly and a job.
pub Steps-IsServing :
    (stages : List (ℕ × ℕ)) (has_handler : Bool) {s t : Serving}
    → IsServing s
    → Steps stages has_handler s t
    → IsServing t
Steps-IsServing stages has_handler i rest = i
Steps-IsServing stages has_handler i (served {t = t} now f payload k) =
    serve_event-IsServing stages has_handler now f payload t
      (Steps-IsServing stages has_handler i k)
Steps-IsServing stages has_handler i (finished {t = t} corr work now response status h k) =
    finish-IsServing corr work _ t (Steps-IsServing stages has_handler i k)
