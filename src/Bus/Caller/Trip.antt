-- ===== src/Bus/Caller/Trip.antt =====
-- What the serving side of server-go/bus/module_runtime.go sends is what the caller of
-- server-go/bus/module_caller.go reads.
use aimee_module_economizer.Prelude.{
  ℕ, ◌-◌, ◌^◌, ◌≤◌, ◌<◌, ◌≡◌, refl, sym, ap, ◌∙◌, subst, ◌≢◌, inl, inr, Bool, true, false, none,
  some, List, [], ◌∷◌, ◌++◌, append-nil, append_assoc, arith, ltb, leb, Bytes, length, Bool-cases,
  Option-cases,
}
use aimee_module_economizer.Bus.Frame.{Frame, f_more, has_flag}
use aimee_module_economizer.Bus.Message.{
  ModuleMessage, module_message_header_len, module_message_max_body, module_status_ok,
}
use aimee_module_economizer.Bus.Caller.{
  CallerBus, kind_error, kind_capability_absent, all_pieces, packet, result_message, Tick, idle,
  arrival, replied, await_reply, send, send_pieces, reply_module_result,
}
use aimee_module_economizer.Bus.Caller.Reply.{
  Delivers, done, quiet, foreign, piece, await_reply-all_pieces,
}

pub record Sent : Type 0 where
  pub kind : ℕ
  pub corr : ℕ
  pub payload : Bytes
  pub following : Bool

-- A bus that keeps, in their order, the fragments it took.
pub record Logged (b : CallerBus) : Type 0 where
  pub log : b.State → List Sent
  pub log-fragment :
      (s : b.State) (kind corr : ℕ) (payload : Bytes) (following : Bool)
      → (b.fragment s kind corr payload following).1 ≡ true
      → log (b.fragment s kind corr payload following).0
        ≡ log s
          ++ (record { kind = kind; corr = corr; payload = payload; following = following } ∷ [])

-- What a caller meets when these fragments arrive in their order: polls without an event in a call
-- that goes on, events of other correlations, and one event for each fragment.
pub data Arrives (corr : ℕ) : List Sent → List Tick → Type 0 where
  arrived : {ts : List Tick} → Arrives corr [] ts
  silent :
      {xs : List Sent} {ts : List Tick}
      → Arrives corr xs ts
      → Arrives corr xs (idle false false ∷ ts)
  other :
      {xs : List Sent} {ts : List Tick} (f : Frame) (payload : Bytes)
      → f.correlation_id ≢ corr
      → Arrives corr xs ts
      → Arrives corr xs (arrival f payload ∷ ts)
  event :
      {xs : List Sent} {ts : List Tick} (x : Sent) (f : Frame)
      → f.event_kind ≡ x.kind
      → f.correlation_id ≡ x.corr
      → has_flag f f_more ≡ x.following
      → Arrives corr xs ts
      → Arrives corr (x ∷ xs) (arrival f x.payload ∷ ts)

-- the fragments of some pieces
data Packs (make : ℕ → ModuleMessage) (kind corr : ℕ)
    : List (Bytes × Bool) → List Sent → Type 0 where
  packs_nil : Packs make kind corr [] []
  packs_cons :
      {ps : List (Bytes × Bool)} {xs : List Sent} (p : Bytes × Bool) (payload : Bytes)
      → packet (make (length p.0)) p.0 ≡ some payload
      → Packs make kind corr ps xs
      → Packs make kind corr
          (p ∷ ps)
          (record { kind = kind; corr = corr; payload = payload; following = p.1 } ∷ xs)

Arrives-Delivers :
    {make : ℕ → ModuleMessage} {kind corr : ℕ} {ps : List (Bytes × Bool)} {xs : List Sent}
    {ts : List Tick}
    → Packs make kind corr ps xs
    → Arrives corr xs ts
    → Delivers kind corr make ps ts
Arrives-Delivers packs_nil arrived = done
Arrives-Delivers k (silent a) = quiet (Arrives-Delivers k a)
Arrives-Delivers k (other f payload n a) = foreign f payload n (Arrives-Delivers k a)
Arrives-Delivers (packs_cons p payload e k) (event _ f a b c r) =
    piece p f payload a b c e (Arrives-Delivers k r)

module _ (b : CallerBus) where
  send_pieces-nil :
      (make : ℕ → ModuleMessage) (kind corr : ℕ) (s : b.State)
      → send_pieces b make kind corr [] s ≡ (s, none)
  unfolding send_pieces
  send_pieces-nil make kind corr s = refl

  -- a loop that succeeds has packed its first piece, the bus took it, and the rest succeeds
  send_pieces-cons :
      (make : ℕ → ModuleMessage) (kind corr : ℕ) (p : Bytes × Bool) (ps : List (Bytes × Bool))
      (s t : b.State)
      → send_pieces b make kind corr (p ∷ ps) s ≡ (t, none)
      → (payload : Bytes) × (packet (make (length p.0)) p.0 ≡ some payload)
        × ((b.fragment s kind corr payload p.1).1 ≡ true)
        × (send_pieces b make kind corr ps (b.fragment s kind corr payload p.1).0 ≡ (t, none))
  unfolding send_pieces
  send_pieces-cons make kind corr p ps s t h =
      elim (Option-cases (packet (make (length p.0)) p.0)) [
        | inl e ↦ absurd (ground (arith, e, h))
        | inr (payload, e) ↦ elim (Bool-cases (b.fragment s kind corr payload p.1).1) [
          | inl ok ↦ (payload, e, ok, ground (arith, e, ok, h))
          | inr e2 ↦ absurd (ground (arith, e, e2, h))
        ]
      ]

  send-some :
      (make : ℕ → ModuleMessage) (kind corr : ℕ) (body : Bytes) (s t : b.State)
      → send b make kind corr body s ≡ (t, none)
      → (0 < b.inline_budget s - module_message_header_len)
        × (send_pieces b make kind corr
              (all_pieces (b.inline_budget s - module_message_header_len) body)
              s
            ≡ (t, none))
  unfolding send
  send-some make kind corr body s t h =
      elim (Bool-cases (leb (b.inline_budget s) module_message_header_len)) [
        | inl e ↦ absurd (ground (arith, e, h))
        | inr e ↦ (ground (arith, e), ground (arith, e, h))
      ]

  reply_module_result-ok :
      (kind corr stage_id trace_id : ℕ) (body : Bytes) (s : b.State)
      → length body ≤ module_message_max_body
      → reply_module_result b kind corr stage_id trace_id module_status_ok body s
        ≡ send b (result_message module_status_ok stage_id trace_id) kind corr body s
  unfolding reply_module_result
  reply_module_result-ok kind corr stage_id trace_id body s m =
      let e : ltb module_message_max_body (length body) ≡ false = ground arith in rw e refl

module _ (b : CallerBus) (l : Logged b) where
  send_pieces-Packs :
      (make : ℕ → ModuleMessage) (kind corr : ℕ) (ps : List (Bytes × Bool)) (s t : b.State)
      → send_pieces b make kind corr ps s ≡ (t, none)
      → (xs : List Sent) × (Packs make kind corr ps xs) × (l.log t ≡ l.log s ++ xs)
  send_pieces-Packs make kind corr [] s t h = (
    [],
    packs_nil,
    sym (ap l.log (ap (λ r. r.0) (sym (send_pieces-nil b make kind corr s) ∙ h)))
        ∙ sym (append-nil (l.log s)),
  )
  send_pieces-Packs make kind corr (p ∷ ps) s t h =
      let (payload, e, ok, r) = send_pieces-cons b make kind corr p ps s t h in
      let (xs, k, g) = send_pieces-Packs make kind corr ps _ t r in
      (
        _ ∷ xs,
        packs_cons p payload e k,
        g
            ∙ ap (λ x. x ++ xs) (l.log-fragment s kind corr payload p.1 ok)
            ∙ append_assoc (l.log s) _ xs,
      )

  send-Packs :
      (make : ℕ → ModuleMessage) (kind corr : ℕ) (body : Bytes) (s t : b.State)
      → send b make kind corr body s ≡ (t, none)
      → (0 < b.inline_budget s - module_message_header_len)
        × ((xs : List Sent) × (Packs make kind corr
              (all_pieces (b.inline_budget s - module_message_header_len) body)
              xs)
            × (l.log t ≡ l.log s ++ xs))
  send-Packs make kind corr body s t h =
      let (p, r) = send-some b make kind corr body s t h in
      (
        p,
        send_pieces-Packs make kind corr
            (all_pieces (b.inline_budget s - module_message_header_len) body) s t r,
      )

  -- A body within the limit that `replyModuleResult` sends on a bus with an empty log, with the status
  -- ok, a stage id and a trace id that fit in their fields and a kind that is none of the host's own, is
  -- what `awaitReply` returns when the fragments arrive in their order, with polls without an event and
  -- events of other correlations between them.
  pub await_reply-reply_module_result :
      (kind corr stage_id trace_id : ℕ) (body : Bytes) (s t : b.State) (ts : List Tick)
      → kind ≢ kind_error
      → kind ≢ kind_capability_absent
      → stage_id < 2 ^ 32
      → trace_id < 2 ^ 64
      → length body ≤ module_message_max_body
      → l.log s ≡ []
      → reply_module_result b kind corr stage_id trace_id module_status_ok body s ≡ (t, none)
      → Arrives corr (l.log t) ts
      → await_reply kind corr [] ts ≡ replied body
  await_reply-reply_module_result kind corr stage_id trace_id body s t ts k3 k4 w v m e h a =
      let (p, (xs, k, g)) =
        send-Packs (result_message module_status_ok stage_id trace_id) kind corr body s t
          (sym (reply_module_result-ok b kind corr stage_id trace_id body s m) ∙ h) in
      let q : l.log t ≡ xs = g ∙ ap (λ x. x ++ xs) e in
      await_reply-all_pieces kind corr stage_id trace_id k3 k4 (w, v)
        (b.inline_budget s - module_message_header_len) body ts p m
        (Arrives-Delivers k (subst (λ x. Arrives corr x ts) q a))
