-- ===== src/Bus/Runtime/Tests.antt =====
-- A module with one stage, a request of two fragments, and the theorems at it.
use aimee_module_economizer.Prelude.{
  ℕ, ◌+◌, ap, ◌≡◌, refl, true, false, some, [], ◌∷◌, ◌++◌, Bytes, length, List,
}
use aimee_module_economizer.Bus.Endian.{put, number_of}
use aimee_module_economizer.Bus.Frame.{Frame, f_more, f_request}
use aimee_module_economizer.Bus.Message.{header, decode, valid, read_message, deadline_expired}
use aimee_module_economizer.Bus.Caller.{invoke_message}
use aimee_module_economizer.Bus.Runtime.{
  idle_serving, validate_stages, find, erase, Serving, ModuleWork, start, dispatch, gather,
  serve_message, serve_event, run_handler, finish_module_work,
}
use aimee_module_economizer.Bus.Runtime.Invariant.{IsServing, idle_serving-IsServing}
use aimee_module_economizer.Bus.Runtime.Serve.{rest, served, finished, Steps-IsServing}

abbrev stages : List (ℕ × ℕ)
stages = (77, 9) ∷ []

stages_lem : validate_stages (record { event_kind = 77; stage_id = 9 } ∷ []) [] ≡ some stages
unfolding validate_stages find erase
stages_lem = refl

abbrev part_of : Bytes → Bytes
part_of part = header (invoke_message 9 5 100 (length part)) ++ part

abbrev asking : ℕ → Frame
asking flags = record {
  generation = 1;
  dst_handle = 3;
  src_handle = 0;
  payload_len = 0;
  payload_ref = 0;
  logical_ts = 0;
  seq = 0;
  correlation_id = 6;
  principal_ref = 0;
  event_kind = 77;
  version = 3;
  hdr_flags = flags;
}

abbrev begun : Serving
begun =
    (serve_event stages true 50 (asking (f_request + f_more)) (part_of (1 ∷ 2 ∷ [])) idle_serving).0

abbrev job : ModuleWork
job = record { event_kind = 77; stage_id = 9; deadline_ns = 100; trace_id = 5; cancelled = false }

abbrev working : Serving
working = (serve_event stages true 60 (asking f_request) (part_of (3 ∷ [])) begun).0

working_lem :
    serve_event stages true 60 (asking f_request) (part_of (3 ∷ [])) begun
    ≡ (record { assemblies = []; jobs = (6, job) ∷ [] }, start job (1 ∷ 2 ∷ 3 ∷ []))
unfolding serve_event serve_message gather dispatch find erase decode valid read_message header put
    number_of deadline_expired invoke_message
working_lem = refl

working_job : find 6 working.jobs ≡ some job
unfolding find
working_job = ap (λ r. find 6 r.0.jobs) working_lem

abbrev done_state : Serving
done_state = (finish_module_work 6 job (run_handler job 90 (7 ∷ []) 0) working).0

Steps-IsServing_example : IsServing done_state
Steps-IsServing_example = Steps-IsServing stages true idle_serving-IsServing (
    finished 6 job 90 (7 ∷ []) 0 working_job (
      served 60 (asking f_request) (part_of (3 ∷ []))
        (served 50 (asking (f_request + f_more)) (part_of (1 ∷ 2 ∷ [])) rest)))
