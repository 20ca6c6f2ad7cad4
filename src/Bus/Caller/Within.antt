-- ===== src/Bus/Caller/Within.antt =====
-- The limit of `awaitReply` in server-go/bus/module_caller.go.
use aimee_module_economizer.Prelude.{
  ℕ, ◌+◌, ◌%◌, ◌^◌, ◌≤◌, ◌<◌, ◌≡◌, refl, inl, inr, true, false, Option, none, some, List, [], ◌∷◌,
  ◌++◌, arith, ltb, Bytes, length, Bool-cases, Option-cases, take, drop,
}
use aimee_module_economizer.Prelude.{length-append, length-take}
use aimee_module_economizer.Bus.Frame.{Frame}
use aimee_module_economizer.Bus.Message.{
  ModuleMessage, decode, valid, module_message_header_len, module_message_max_body,
}
use aimee_module_economizer.Bus.Caller.{
  CallError, config, invoke_message, finish_call, after_send, CallerBus, call, send, Awaited,
  waiting, replied, gave_up, Tick, idle, arrival, poll_error, Step, skip, finish, go_on, stop,
  take_message, take_event, await_reply,
}

abbrev Within : Step → Type 0
Within skip = Unit
Within (stop e) = Unit
Within (finish r) = length r ≤ module_message_max_body
Within (go_on r) = length r ≤ module_message_max_body

abbrev IsWithin : Awaited → Type 0
IsWithin waiting = Unit
IsWithin (gave_up e) = Unit
IsWithin (replied r) = length r ≤ module_message_max_body

decode-body_len :
    (payload : Bytes) (m : ModuleMessage)
    → decode payload ≡ some m
    → m.body_len ≤ module_message_max_body
unfolding decode valid
decode-body_len payload m h = ground arith

take_message-Within :
    (m : ModuleMessage) (f : Frame) (payload body : Bytes)
    → m.body_len ≤ module_message_max_body
    → length body ≤ module_message_max_body
    → Within (take_message m f payload body)
unfolding take_message
take_message-Within m f payload body b l =
    let longer = body ++ take m.body_len (drop module_message_header_len payload) in
    let n : length longer ≤ length body + m.body_len = omega (
      arith,
      length-append body (take m.body_len (drop module_message_header_len payload)),
      length-take m.body_len (drop module_message_header_len payload),
    ) in
    ground arith

take_event-Within :
    (kind corr : ℕ) (f : Frame) (payload body : Bytes)
    → length body ≤ module_message_max_body
    → Within (take_event kind corr f payload body)
unfolding take_event
take_event-Within kind corr f payload body l = elim (Option-cases (decode payload)) [
  | inl e ↦ ground (arith, e)
  | inr (m, e) ↦
      ground (arith, e, take_message-Within m f payload body (decode-body_len payload m e) l)
]

await_reply-IsWithin :
    (kind corr : ℕ) (body : Bytes) (ts : List Tick)
    → length body ≤ module_message_max_body
    → IsWithin (await_reply kind corr body ts)
unfolding await_reply
await_reply-IsWithin kind corr body [] l = tt
await_reply-IsWithin kind corr body (idle true expired ∷ ts) l = tt
await_reply-IsWithin kind corr body (idle false true ∷ ts) l = tt
await_reply-IsWithin kind corr body (idle false false ∷ ts) l =
    await_reply-IsWithin kind corr body ts l
await_reply-IsWithin kind corr body (poll_error ∷ ts) l = tt
await_reply-IsWithin kind corr body (arrival f payload ∷ ts) l =
    (elim (take_event kind corr f payload body)
        as (λ st.
          Within st
          → IsWithin (elim st [
            | skip ↦ await_reply kind corr body ts
            | finish r ↦ replied r
            | go_on r ↦ await_reply kind corr r ts
            | stop e ↦ gave_up e
          ])) [
            | skip ↦ λ w. await_reply-IsWithin kind corr body ts l
            | finish r ↦ λ w. w
            | go_on r ↦ λ w. await_reply-IsWithin kind corr r ts w
            | stop e ↦ λ w. tt
          ])
      (take_event-Within kind corr f payload body l)

-- How a call ends: refused for its size, with its request not sent, with a reply within the limit,
-- with its correlation cancelled, or with what it meets not at its end.
pub data Outcome (b : CallerBus) (kind corr : ℕ) (request : Bytes) (s : b.State)
    (sent : b.State × Option CallError) : b.State × Awaited → Type 0 where
  refused :
      module_message_max_body < length request % 2 ^ 32
      → Outcome b kind corr request s sent (s, gave_up config)
  unsent :
      {t : b.State} (e : CallError)
      → sent ≡ (t, some e)
      → Outcome b kind corr request s sent (t, gave_up e)
  answered :
      {t : b.State} {r : Bytes}
      → sent ≡ (t, none)
      → length r ≤ module_message_max_body
      → Outcome b kind corr request s sent (t, replied r)
  cancels :
      {t : b.State} (e : CallError)
      → sent ≡ (t, none)
      → Outcome b kind corr request s sent (b.cancel t kind corr, gave_up e)
  still_open : {t : b.State} → sent ≡ (t, none) → Outcome b kind corr request s sent (t, waiting)

module _ (b : CallerBus) (kind corr : ℕ) (request : Bytes) (s : b.State) where
  finish_call-Outcome :
      (sent : b.State × Option CallError) (t : b.State) (a : Awaited)
      → sent ≡ (t, none)
      → IsWithin a
      → Outcome b kind corr request s sent (finish_call b kind corr t a)
  finish_call-Outcome sent t waiting e w = still_open e
  finish_call-Outcome sent t (replied r) e w = answered e w
  finish_call-Outcome sent t (gave_up x) e w = cancels x e

  after_send-Outcome :
      (ts : List Tick) (sent : b.State × Option CallError)
      → Outcome b kind corr request s sent (after_send b kind corr ts sent)
  after_send-Outcome ts (t, some e) = unsent e refl
  after_send-Outcome ts (t, none) =
      finish_call-Outcome (t, none) t (await_reply kind corr [] ts) refl
        (await_reply-IsWithin kind corr [] ts (omega arith))

-- A call is refused with its state as it was if its request exceeds the limit, it ends with the error
-- of a request that was not sent, it returns a reply within the limit, or it cancels its correlation
-- and ends with an error, or it waits for as long as it meets nothing that ends it.
pub call-Outcome :
    (b : CallerBus) (kind stage_id trace_id corr deadline_ns : ℕ) (request : Bytes) (ts : List Tick)
    (s : b.State)
    → Outcome b kind corr request s
        (send b (invoke_message stage_id trace_id deadline_ns) kind corr request s)
        (call b kind stage_id trace_id corr deadline_ns request ts s)
unfolding call
call-Outcome b kind stage_id trace_id corr deadline_ns request ts s =
    let sent = send b (invoke_message stage_id trace_id deadline_ns) kind corr request s in
    elim (Bool-cases (ltb module_message_max_body (length request % 2 ^ 32))) [
      | inl e ↦ rw e (refused (ground (arith, e)))
      | inr e ↦ rw e (after_send-Outcome b kind corr request s ts sent)
    ]
