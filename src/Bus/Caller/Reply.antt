-- ===== src/Bus/Caller/Reply.antt =====
-- The reply of a module, from `replyModuleResult` of server-go/bus/module_runtime.go to `awaitReply` of
-- server-go/bus/module_caller.go.
use aimee_module_economizer.Prelude.{
  ℕ, ◌+◌, ◌%◌, ◌^◌, ◌≤◌, ◌<◌, ◌≡◌, refl, ap, ◌∙◌, ◌≢◌, Bool, true, false, some, List, [], ◌∷◌, ◌++◌,
  append_assoc, arith, if◌then◌else◌, ◌==◌, ltb, Bytes, length, take, drop,
}
use aimee_module_economizer.Prelude.{length-append}
use aimee_module_economizer.Bus.Frame.{Frame, f_more, has_flag}
use aimee_module_economizer.Bus.Message.{
  ModuleMessage, module_message_header_len, module_message_max_body, module_status_ok,
}
use aimee_module_economizer.Bus.Caller.{
  kind_error, kind_capability_absent, all_pieces, packet, result_message, Tick, idle, arrival,
  replied, Step, skip, finish, go_on, take_message, take_event, await_reply,
}
use aimee_module_economizer.Bus.Caller.Pieces.{Splits, last, more, all_pieces-Splits, decode-packet}

-- What a caller meets when the pieces of a reply arrive in their order: polls without an event in a
-- call that goes on, events of other correlations, and one event for each piece.
pub data Delivers (kind corr : ℕ) (make : ℕ → ModuleMessage)
    : List (Bytes × Bool) → List Tick → Type 0 where
  done : {ts : List Tick} → Delivers kind corr make [] ts
  quiet :
      {ps : List (Bytes × Bool)} {ts : List Tick}
      → Delivers kind corr make ps ts
      → Delivers kind corr make ps (idle false false ∷ ts)
  foreign :
      {ps : List (Bytes × Bool)} {ts : List Tick} (f : Frame) (payload : Bytes)
      → f.correlation_id ≢ corr
      → Delivers kind corr make ps ts
      → Delivers kind corr make ps (arrival f payload ∷ ts)
  piece :
      {ps : List (Bytes × Bool)} {ts : List Tick} (p : Bytes × Bool) (f : Frame) (payload : Bytes)
      → f.event_kind ≡ kind
      → f.correlation_id ≡ corr
      → has_flag f f_more ≡ p.1
      → packet (make (length p.0)) p.0 ≡ some payload
      → Delivers kind corr make ps ts
      → Delivers kind corr make (p ∷ ps) (arrival f payload ∷ ts)

-- an event of another correlation changes nothing
take_event-foreign :
    (kind corr : ℕ) (f : Frame) (payload body : Bytes)
    → f.correlation_id ≢ corr
    → take_event kind corr f payload body ≡ skip
unfolding take_event
take_event-foreign kind corr f payload body n = ground arith

await_reply-foreign :
    (kind corr : ℕ) (f : Frame) (payload body : Bytes) (ts : List Tick)
    → f.correlation_id ≢ corr
    → await_reply kind corr body (arrival f payload ∷ ts) ≡ await_reply kind corr body ts
unfolding await_reply
await_reply-foreign kind corr f payload body ts n =
    rw (await_reply, take_event-foreign kind corr f payload body n) refl

await_reply-idle :
    (kind corr : ℕ) (body : Bytes) (ts : List Tick)
    → await_reply kind corr body (idle false false ∷ ts) ≡ await_reply kind corr body ts
unfolding await_reply
await_reply-idle kind corr body ts = refl

abbrev after_piece : Bool → Bytes → Step
after_piece true longer = go_on longer
after_piece false longer = finish longer

after_piece-if :
    (b : Bool) (longer : Bytes) → (if b then go_on longer else finish longer) ≡ after_piece b longer
after_piece-if true longer = refl
after_piece-if false longer = refl

-- a result whose body is `part` appends it
take_message-result :
    (stage_id trace_id : ℕ) (part : Bytes) (f : Frame) (payload body : Bytes)
    → length payload ≡ module_message_header_len + length part
    → take (length part) (drop module_message_header_len payload) ≡ part
    → length body + length part ≤ module_message_max_body
    → take_message (result_message module_status_ok stage_id trace_id (length part)) f payload body
      ≡ after_piece (has_flag f f_more) (body ++ part)
unfolding result_message take_message
take_message-result stage_id trace_id part f payload body n t l =
    let a : ltb (length payload) (module_message_header_len + length part) ≡ false = ground arith in
    let b : ltb module_message_max_body ((length body % 2 ^ 32 + length part) % 2 ^ 32) ≡ false =
      ground arith in
    rw (a, b, t) (after_piece-if (has_flag f f_more) (body ++ part))

module _ (kind corr stage_id trace_id : ℕ) (k3 : kind ≢ kind_error)
    (k4 : kind ≢ kind_capability_absent) (width : (stage_id < 2 ^ 32) × (trace_id < 2 ^ 64)) where
  -- a piece is appended to the body so far
  take_event-piece :
      (part : Bytes) (following : Bool) (f : Frame) (payload body : Bytes)
      → f.event_kind ≡ kind
      → f.correlation_id ≡ corr
      → has_flag f f_more ≡ following
      → packet (result_message module_status_ok stage_id trace_id (length part)) part ≡ some payload
      → length body + length part ≤ module_message_max_body
      → take_event kind corr f payload body ≡ after_piece following (body ++ part)
  unfolding take_event result_message
  take_event-piece part following f payload body e c m p l =
      let (d, n, t) =
        decode-packet (result_message module_status_ok stage_id trace_id (length part)) part payload
          (omega arith, omega arith, width.0, omega arith, omega arith, omega arith, width.1) refl
          p in
      let a : (f.correlation_id == corr) ≡ true = ground arith in
      let b : (f.event_kind == kind) ≡ true = ground arith in
      let g : (f.event_kind == kind_error) ≡ false = ground arith in
      let h : (f.event_kind == kind_capability_absent) ≡ false = ground arith in
      rw (d, a, b, g, h)
        (take_message-result stage_id trace_id part f payload body n t l
          ∙ ap (λ x. after_piece x (body ++ part)) m)

  await_reply-Delivers :
      {ps : List (Bytes × Bool)} {rest : Bytes} (body : Bytes) (ts : List Tick)
      → Splits ps rest
      → length body + length rest ≤ module_message_max_body
      → Delivers kind corr (result_message module_status_ok stage_id trace_id) ps ts
      → await_reply kind corr body ts ≡ replied (body ++ rest)
  unfolding await_reply
  await_reply-Delivers body [] s l done = elim s [ ]
  await_reply-Delivers body (_ ∷ ts) s l done = elim s [ ]
  await_reply-Delivers body (_ ∷ ts) s l (quiet d) =
      await_reply-idle kind corr body ts ∙ await_reply-Delivers body ts s l d
  await_reply-Delivers body (_ ∷ ts) s l (foreign f payload n d) =
      await_reply-foreign kind corr f payload body ts n ∙ await_reply-Delivers body ts s l d
  await_reply-Delivers body (_ ∷ ts) (last {a = part}) l (piece _ f payload e c m p d) =
      rw (await_reply, take_event-piece part false f payload body e c m p l) refl
  await_reply-Delivers body (_ ∷ ts) (more {a = part} {rest = rest} s) l
        (piece _ f payload e c m p d) =
      let n : length (part ++ rest) ≡ length part + length rest = length-append part rest in
      rw (await_reply, take_event-piece part true f payload body e c m p (omega arith))
        (await_reply-Delivers (body ++ part) ts s (omega (arith, length-append body part)) d
          ∙ ap replied (append_assoc body part rest))

  -- What a caller reads of the pieces of a body, in their order, is the body.
  pub await_reply-all_pieces :
      (chunk : ℕ) (body : Bytes) (ts : List Tick)
      → 0 < chunk
      → length body ≤ module_message_max_body
      → Delivers kind corr
          (result_message module_status_ok stage_id trace_id)
          (all_pieces chunk body)
          ts
      → await_reply kind corr [] ts ≡ replied body
  await_reply-all_pieces chunk body ts p l d =
      await_reply-Delivers [] ts (all_pieces-Splits chunk body p) (omega arith) d
