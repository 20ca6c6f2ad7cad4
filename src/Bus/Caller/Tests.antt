-- ===== src/Bus/Caller/Tests.antt =====
-- A module whose fragments hold three bytes of body, and the theorems at its reply of four bytes.
use aimee_module_economizer.Prelude.{
  ℕ, ◌≡◌, refl, true, false, none, List, [], ◌∷◌, ◌++◌, arith, Bytes, length,
}
use aimee_module_economizer.Bus.Endian.{put}
use aimee_module_economizer.Bus.Frame.{Frame, f_more, f_reply}
use aimee_module_economizer.Bus.Message.{valid, header, encode, module_status_ok}
use aimee_module_economizer.Bus.Caller.{
  CallerBus, pieces, packet, result_message, Tick, idle, arrival, replied, await_reply, send,
  send_pieces, reply_module_result, call,
}
use aimee_module_economizer.Bus.Caller.{invoke_message}
use aimee_module_economizer.Bus.Caller.Within.{Outcome, call-Outcome}
use aimee_module_economizer.Bus.Caller.Trip.{
  Sent, Logged, Arrives, arrived, silent, other, event, await_reply-reply_module_result,
}

abbrev log_bus : CallerBus
log_bus = record {
  State = List Sent;
  fragment = λ s kind corr payload following. (
    s ++ (record { kind = kind; corr = corr; payload = payload; following = following } ∷ []),
    true,
  );
  cancel = λ s kind corr. s;
  inline_budget = λ s. 43;
}

abbrev log_bus_log : Logged log_bus
log_bus_log = record { log = λ s. s; log-fragment = λ s kind corr payload following h. refl }

abbrev payload_of : Bytes → Bytes
payload_of part = header (result_message module_status_ok 9 5 (length part)) ++ part

abbrev answer : Bytes
answer = 1 ∷ 2 ∷ 3 ∷ 4 ∷ []

abbrev fragments : List Sent
fragments =
    record { kind = 77; corr = 6; payload = payload_of (1 ∷ 2 ∷ 3 ∷ []); following = true }
    ∷ record { kind = 77; corr = 6; payload = payload_of (4 ∷ []); following = false }
    ∷ []

fragments_lem : reply_module_result log_bus 77 6 9 5 module_status_ok answer [] ≡ (fragments, none)
unfolding reply_module_result send send_pieces pieces packet encode valid header put result_message
fragments_lem = refl

abbrev frame_of : ℕ → ℕ → Frame
frame_of corr flags = record {
  generation = 1;
  dst_handle = 0;
  src_handle = 3;
  payload_len = 0;
  payload_ref = 0;
  logical_ts = 0;
  seq = 0;
  correlation_id = corr;
  principal_ref = 0;
  event_kind = 77;
  version = 3;
  hdr_flags = flags;
}

abbrev seen : List Tick
seen =
    idle false false
    ∷ arrival (frame_of 5 f_reply) []
    ∷ arrival (frame_of 6 f_more) (payload_of (1 ∷ 2 ∷ 3 ∷ []))
    ∷ idle false false
    ∷ arrival (frame_of 6 f_reply) (payload_of (4 ∷ []))
    ∷ []

seen-Arrives : Arrives 6 fragments seen
seen-Arrives = silent (
    other (frame_of 5 f_reply) [] (omega arith) (
      event _ (frame_of 6 f_more) refl refl refl
        (silent (event _ (frame_of 6 f_reply) refl refl refl arrived))))

await_reply-reply_module_result_example : await_reply 77 6 [] seen ≡ replied answer
await_reply-reply_module_result_example =
    await_reply-reply_module_result log_bus log_bus_log 77 6 9 5 answer [] fragments seen
      (omega arith) (omega arith) (omega arith) (omega arith) (omega arith) refl fragments_lem
      seen-Arrives

call-Outcome_example :
    Outcome log_bus 77 6 answer []
      (send log_bus (invoke_message 9 5 0) 77 6 answer [])
      (call log_bus 77 9 5 6 0 answer seen [])
call-Outcome_example = call-Outcome log_bus 77 9 5 6 0 answer seen []
