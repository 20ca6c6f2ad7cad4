-- ===== src/Bus/Caller.antt =====
-- A module call of server-go/bus/module_caller.go, and the reply of the serving side in
-- server-go/bus/module_runtime.go. The bus of a caller is an interface. What a caller meets while it
-- waits is a list: a poll without an event, with whether its context has ended and its deadline has
-- passed by then; a poll with an event; or a poll that fails.
pub mod Pieces
pub mod Reply
pub mod Trip
pub mod Within
pub mod Tests
use aimee_module_economizer.Prelude.{
  ℕ, zero, suc, ◌+◌, ◌-◌, ◌*◌, ◌/◌, ◌%◌, ◌^◌, ◌≤◌, ◌<◌, min, ◌≡◌, refl, sym, ap, ap₂, ◌∙◌, subst,
  fun_ext, ◌≢◌, ◌↔◌, ◌⊎◌, inl, inr, Bool, true, false, not, ◌&&◌, ◌||◌, Option, none, some, List,
  [], ◌∷◌, ◌++◌, map, append-nil, append_assoc, arith, if◌then◌else◌, ◌==◌, ltb, leb, Bytes, codes,
  eq_bytes, eq_bytes_iff, length, All, any, all, Bool-cases, Option-cases, ==_iff, take, drop,
}
use aimee_module_economizer.Prelude.{replicate}
use aimee_module_economizer.Bus.Frame.{Frame, f_more, has_flag}
use aimee_module_economizer.Bus.Message.{
  ModuleMessage, encode, decode, module_message_header_len, module_message_max_body,
  module_op_invoke, module_op_result, module_status_ok, module_status_internal,
}

-- the errors of a call; `module_status` carries the module's own
pub data CallError : Type 0 where
  config runtime message deadline cancelled capability_absent rejected bus : CallError
  module_status : ℕ → CallError

abbrev pub kind_error : ℕ
kind_error = 3

abbrev pub kind_capability_absent : ℕ
kind_capability_absent = 4

-- The pieces of a body, each with whether more follow: the loop of `send` and of
-- `replyModuleResult`, on fuel. An empty body has one piece.
unfoldable pub pieces : ℕ → ℕ → Bytes → List (Bytes × Bool)
pieces zero chunk body = []
pieces (suc fuel) chunk body =
    let rest = pieces fuel chunk (drop chunk body) in
    if ltb chunk (length body) then (take chunk body, true) ∷ rest else (body, false) ∷ []

abbrev pub all_pieces : ℕ → Bytes → List (Bytes × Bool)
all_pieces chunk body = pieces (suc (length body)) chunk body

-- a message with its body behind the header, in a buffer of its size
unfoldable pub packet : ModuleMessage → Bytes → Option Bytes
packet m part = elim (encode m (replicate (module_message_header_len + length part) 0)) [
  | none ↦ none
  | some written ↦ some (take module_message_header_len written ++ part)
]

unfoldable pub invoke_message : ℕ → ℕ → ℕ → ℕ → ModuleMessage
invoke_message stage_id trace_id deadline_ns body_len = record {
  operation = module_op_invoke;
  status = module_status_ok;
  stage_id = stage_id;
  flags = 0;
  body_len = body_len;
  deadline_ns = deadline_ns;
  trace_id = trace_id;
}

unfoldable pub result_message : ℕ → ℕ → ℕ → ℕ → ModuleMessage
result_message status stage_id trace_id body_len = record {
  operation = module_op_result;
  status = status;
  stage_id = stage_id;
  flags = 0;
  body_len = body_len;
  deadline_ns = 0;
  trace_id = trace_id;
}

-- What `callerBus` and `moduleBus` offer: a state, and the sending of a fragment of an event kind
-- and a correlation, which may fail; `Cancel`; and the inline budget. For the serving side the sending
-- is the loop around `ReplyFragment`, which tries again while the ring is full.
pub record CallerBus : Type 1 where
  pub State : Type 0
  pub fragment : State → ℕ → ℕ → Bytes → Bool → State × Bool
  pub cancel : State → ℕ → ℕ → State
  pub inline_budget : State → ℕ

pub data Tick : Type 0 where
  idle : Bool → Bool → Tick
  arrival : Frame → Bytes → Tick
  poll_error : Tick

pub data Awaited : Type 0 where
  waiting : Awaited
  replied : Bytes → Awaited
  gave_up : CallError → Awaited

-- what a reply of this call does: its body is appended to the body so far
pub data Step : Type 0 where
  skip : Step
  finish : Bytes → Step
  go_on : Bytes → Step
  stop : CallError → Step

unfoldable pub take_message : ModuleMessage → Frame → Bytes → Bytes → Step
take_message m f payload body =
    if not (m.operation == module_op_result)
    then skip
    else if not (m.status == module_status_ok)
    then stop (module_status m.status)
    else if ltb (length payload) (module_message_header_len + m.body_len)
    then stop runtime
    else if ltb module_message_max_body ((length body % 2 ^ 32 + m.body_len) % 2 ^ 32)
    then stop runtime
    else let longer = body ++ take m.body_len (drop module_message_header_len payload) in
      if has_flag f f_more then go_on longer else finish longer

-- one event of the loop of `awaitReply`
unfoldable pub take_event : ℕ → ℕ → Frame → Bytes → Bytes → Step
take_event kind corr f payload body =
    if f.correlation_id == corr && f.event_kind == kind_capability_absent
    then stop capability_absent
    else if f.correlation_id == corr && f.event_kind == kind_error
    then stop rejected
    else if not (f.event_kind == kind) || not (f.correlation_id == corr)
    then skip
    else elim (decode payload) [ none ↦ skip | some m ↦ take_message m f payload body ]

-- `awaitReply`, with the body so far
unfoldable pub await_reply : ℕ → ℕ → Bytes → List Tick → Awaited
await_reply kind corr body [] = waiting
await_reply kind corr body (idle ended expired ∷ ts) =
    let rest = await_reply kind corr body ts in
    if ended then gave_up cancelled else if expired then gave_up deadline else rest
await_reply kind corr body (poll_error ∷ ts) = gave_up bus
await_reply kind corr body (arrival f payload ∷ ts) = elim (take_event kind corr f payload body) [
  | skip ↦ await_reply kind corr body ts
  | finish done ↦ replied done
  | go_on more ↦ await_reply kind corr more ts
  | stop e ↦ gave_up e
]

module _ (b : CallerBus) where
  -- the loop over the pieces: each is packed and handed to the bus
  unfoldable pub send_pieces :
      (ℕ → ModuleMessage) → ℕ → ℕ → List (Bytes × Bool) → b.State → b.State × Option CallError
  send_pieces make kind corr [] s = (s, none)
  send_pieces make kind corr (p ∷ ps) s = elim (packet (make (length p.0)) p.0) [
    | none ↦ (s, some message)
    | some payload ↦
        let sent = b.fragment s kind corr payload p.1 in
        let rest = send_pieces make kind corr ps sent.0 in
        if sent.1 then rest else (sent.0, some bus)
  ]

  -- `send` and the body of `replyModuleResult`
  unfoldable pub send : (ℕ → ModuleMessage) → ℕ → ℕ → Bytes → b.State → b.State × Option CallError
  send make kind corr body s =
      let budget = b.inline_budget s in
      if leb budget module_message_header_len
      then (s, some runtime)
      else send_pieces make kind corr (all_pieces (budget - module_message_header_len) body) s

  -- `replyModuleResult`: a body goes with the status ok only
  unfoldable pub reply_module_result :
      ℕ → ℕ → ℕ → ℕ → ℕ → Bytes → b.State → b.State × Option CallError
  reply_module_result kind corr stage_id trace_id st body s =
      if ltb module_status_internal st || ltb module_message_max_body (length body)
      then send (result_message module_status_internal stage_id trace_id) kind corr [] s
      else if not (st == module_status_ok)
      then send (result_message st stage_id trace_id) kind corr [] s
      else send (result_message st stage_id trace_id) kind corr body s

  abbrev pub finish_call : ℕ → ℕ → b.State → Awaited → b.State × Awaited
  finish_call kind corr s (gave_up e) = (b.cancel s kind corr, gave_up e)
  finish_call kind corr s a = (s, a)

  abbrev pub after_send : ℕ → ℕ → List Tick → b.State × Option CallError → b.State × Awaited
  after_send kind corr ts (s, some e) = (s, gave_up e)
  after_send kind corr ts (s, none) = finish_call kind corr s (await_reply kind corr [] ts)

  -- `Call`, with its correlation and deadline computed; a wait that ends in an error cancels
  unfoldable pub call : ℕ → ℕ → ℕ → ℕ → ℕ → Bytes → List Tick → b.State → b.State × Awaited
  call kind stage_id trace_id corr deadline_ns request ts s =
      if ltb module_message_max_body (length request % 2 ^ 32)
      then (s, gave_up config)
      else after_send kind corr ts
          (send (invoke_message stage_id trace_id deadline_ns) kind corr request s)
