-- ===== src/Bus/Client/Loopback.antt =====
-- An event that server-go/bus/client.go emits, polled from the ring that it was emitted to.
use aimee_module_economizer.Prelude.{
  append_assoc, ℕ, zero, suc, ◌+◌, ◌^◌, ◌≤◌, ◌<◌, ◌≡◌, sym, ap, ◌∙◌, subst, inl, inr, true, false,
  none, some, List, [], ◌∷◌, ◌++◌, arith, if◌then◌else◌, ltb, Bytes, length, All, Bool-cases,
  Option-cases, drop,
}
use aimee_module_economizer.Prelude.{length-drop}
use aimee_module_economizer.Bus.Frame.{header}
use aimee_module_economizer.Bus.RoundTrip.{length-header, IsFrame, decode-header, encode-some}
use aimee_module_economizer.Bus.Client.{
  Client, event_frame, copy_payload, too_large, event_of, event,
}
use aimee_module_economizer.Bus.Frame.{ok, hdr_len, encode, decode}
use aimee_module_economizer.Bus.Ring.{
  Ring, produce_begin, produce_commit, consume_begin, write_slot, read_slot,
}
use aimee_module_economizer.Bus.Ring.Window.{entry}
use aimee_module_economizer.Prelude.{get_elem?-set_self}
use aimee_module_economizer.Bus.Client.{ClientError, emit, poll, is_attached, epoch_changed}
use aimee_module_economizer.Bus.Client.Slot.{reach-entry, poll-attached, poll_slot-event}
use aimee_module_economizer.Bus.Client.Payload.{
  copy_payload-header, event_of-payload, event_of-empty,
}
use aimee_module_economizer.Bus.Ring.Window.{IsRing, contents}
use aimee_module_economizer.Bus.Ring.{slot}
use aimee_module_economizer.Bus.Ring.Begin.{begin_lem}
use aimee_module_economizer.Bus.Ring.Interleaving.{
  stop, step, filling, publishing, Steps-fifo, contents-consume,
}

-- what is written to the slot
filled_slot : Bytes → Bytes → Bytes
filled_slot written payload =
    if ltb 0 (length payload) then copy_payload written payload else written

-- an emit that succeeds fills the slot that the ring hands out, and publishes it
Emitted : Client → Client → ℕ → ℕ → ℕ → Bytes → ℕ → Bytes → Type 0
Emitted c e flags kind corr payload i written =
    (too_large c payload ≡ false)
    × (produce_begin c.outbound ≡ some i)
    × (encode (event_frame c flags kind corr payload) (entry c.outbound.slots i) ≡ some written)
    × (e.outbound ≡ produce_commit (write_slot c.outbound i (filled_slot written payload)))

emit-Emitted :
    (c e : Client) (flags kind corr : ℕ) (payload : Bytes)
    → emit c flags kind corr payload ≡ (e, none)
    → (i : ℕ) × ((written : Bytes) × Emitted c e flags kind corr payload i written)
unfolding emit Emitted filled_slot
emit-Emitted c e flags kind corr payload h = elim (Bool-cases (is_attached c)) [
  | inr a ↦ absurd (failure (ap (λ x. x.1) (rw (a, emit) at h)))
  | inl a ↦ elim (Bool-cases (too_large c payload)) [
    | inl b ↦ absurd (failure (ap (λ x. x.1) (rw (a, b, emit) at h)))
    | inr b ↦ elim (Bool-cases (epoch_changed c)) [
      | inl d ↦ absurd (failure (ap (λ x. x.1) (rw (a, b, d, emit) at h)))
      | inr d ↦ elim (Option-cases (produce_begin c.outbound)) [
        | inl k ↦ absurd (failure (ap (λ x. x.1) (rw (a, b, d, k, emit) at h)))
        | inr (i, k) ↦
            elim (Option-cases
              (encode (event_frame c flags kind corr payload) (entry c.outbound.slots i))) [
                | inl w ↦ absurd (failure (ap (λ x. x.1) (rw (a, b, d, k, w, emit) at h)))
                | inr (written, w) ↦ (
                  i,
                  (
                    written,
                    (b, k, w, sym (ap (λ x. x.0.outbound) (rw (a, b, d, k, w, emit) at h))),
                  ),
                )
              ]
      ]
    ]
  ]
]
  where
    failure : {x : ClientError} → some x ≡ none → ⊥
    failure q = cc

-- the ring that holds the one slot that was published
published :
    (r : Ring) (i : ℕ) (w : Bytes)
    → IsRing r
    → contents r ≡ []
    → produce_begin r ≡ some i
    → IsRing (produce_commit (write_slot r i w))
      × (contents (produce_commit (write_slot r i w)) ≡ w ∷ [])
unfolding produce_begin write_slot read_slot slot
published r i w v e h =
    let l : i < length r.slots = (begin_lem r v).2 i (inl h) in
    let (u, f) =
      Steps-fifo
        (step (filling i w h)
          (step (publishing {r = write_slot r i w} i w h (get_elem?-set_self r.slots i w l)) stop))
        v in
    (u, sym f ∙ ap (λ x. x ++ w ∷ []) e)

-- the consumer of a ring with one entry is handed it
handed :
    (t : Ring) (w : Bytes)
    → IsRing t
    → contents t ≡ w ∷ []
    → (j : ℕ) × (consume_begin t ≡ some j) × (entry t.slots j ≡ w) × (j < length t.slots)
handed t w v e = elim (Option-cases (consume_begin t)) [
  | inl n ↦ absurd (empty (sym e ∙ ((begin_lem t v).1).0 n))
  | inr (j, k) ↦ (j, k, first (sym (contents-consume t j v k) ∙ e), (begin_lem t v).2 j (inr k))
]
  where
    empty : w ∷ [] ≡ [] → ⊥
    empty q = cc

    first : {a : Bytes} {rest : List Bytes} → a ∷ rest ≡ w ∷ [] → a ≡ w
    first q = cc

-- a payload that is not too large fits behind the header
too_large-fits :
    (c : Client) (payload : Bytes)
    → 0 < length payload
    → too_large c payload ≡ false
    → hdr_len + length payload ≤ c.slot_size
unfolding too_large
too_large-fits c payload p t = ground (arith, p, t)

entry-length :
    (slots : List Bytes) (i n : ℕ)
    → All (λ s. length s ≡ n) slots
    → i < length slots
    → length (entry slots i) ≡ n
unfolding entry
entry-length [] i n h l = absurd (omega arith)
entry-length (s ∷ ss) zero n h l = h.0
entry-length (s ∷ ss) (suc i) n h l = entry-length ss i n h.1 (omega arith)

-- what a filled slot holds is read as the event
filled-read :
    (c d : Client) (flags kind corr : ℕ) (payload buffer written after : Bytes)
    → IsFrame (event_frame c flags kind corr payload)
    → encode (event_frame c flags kind corr payload) buffer ≡ some written
    → length buffer ≡ c.slot_size
    → d.slot_size ≡ c.slot_size
    → c.slot_size < 2 ^ 32
    → too_large c payload ≡ false
    → (decode (filled_slot written payload) ≡ (ok, some (event_frame c flags kind corr payload)))
      × (event_of d (filled_slot written payload ++ after) (event_frame c flags kind corr payload)
          ≡ event (event_frame c flags kind corr payload) payload)
unfolding filled_slot
filled-read c d flags kind corr [] buffer written after g h b s w t =
    let (l, v, q) = encode-some (event_frame c flags kind corr []) buffer h in
    (
      subst (λ x. decode x ≡ (ok, some (event_frame c flags kind corr []))) q
          (decode-header (event_frame c flags kind corr []) (drop hdr_len buffer) g v),
      event_of-empty c d flags kind corr (written ++ after),
    )
filled-read c d flags kind corr (x ∷ xs) buffer written after g h b s w t =
    let f = event_frame c flags kind corr (x ∷ xs) in
    let (l, v, q) = encode-some f buffer h in
    let rest = drop (hdr_len + length (x ∷ xs)) (header f ++ drop hdr_len buffer) in
    let fits : hdr_len + length (x ∷ xs) ≤ c.slot_size =
      too_large-fits c (x ∷ xs) (omega arith) t in
    let some_payload : ltb 0 (length (x ∷ xs)) ≡ true = ground arith in
    let e : filled_slot written (x ∷ xs) ≡ header f ++ ((x ∷ xs) ++ rest) =
      ap (λ b. if b then copy_payload written (x ∷ xs) else written) some_payload
      ∙ ap (λ y. copy_payload y (x ∷ xs)) (sym q)
      ∙ copy_payload-header f (drop hdr_len buffer) (x ∷ xs)
          (omega (arith, fits, b, length-drop hdr_len buffer))
          (length-header f (drop hdr_len buffer)) in
    (
      ap decode e ∙ decode-header f ((x ∷ xs) ++ rest) g v,
      ap (λ y. event_of d y f)
            (ap (λ y. y ++ after) e
              ∙ append_assoc (header f) ((x ∷ xs) ++ rest) after
              ∙ ap (λ y. header f ++ y) (append_assoc (x ∷ xs) rest after))
          ∙ event_of-payload c d flags kind corr (x ∷ xs) (rest ++ after) (omega arith)
              (omega (arith, s, fits)) (omega (arith, s, w)),
    )

-- An event that one client emits, to an outbound ring that is empty and whose slots have the
-- client's slot size, is polled with its payload by an attached client of the same slot size whose
-- inbound ring is that ring, with no read pending and the host's epoch as it was. The fields of the
-- frame have their widths.
pub poll-emit :
    (c d e : Client) (flags kind corr : ℕ) (payload : Bytes)
    → emit c flags kind corr payload ≡ (e, none)
    → IsRing c.outbound
    → contents c.outbound ≡ []
    → All (λ s. length s ≡ c.slot_size) c.outbound.slots
    → c.slot_size < 2 ^ 32
    → IsFrame (event_frame c flags kind corr payload)
    → d.slot_size ≡ c.slot_size
    → d.inbound ≡ e.outbound
    → d.pending_read ≡ false
    → d.control ≡ some d.attached_epoch
    → (poll d).1 ≡ event (event_frame c flags kind corr payload) payload
unfolding Emitted
poll-emit c d e flags kind corr payload h v z slots w g s u pend att =
    let (i, (written, (t, k, q, o))) = emit-Emitted c e flags kind corr payload h in
    let sized : length (entry c.outbound.slots i) ≡ c.slot_size =
      entry-length c.outbound.slots i c.slot_size slots ((begin_lem c.outbound v).2 i (inl k)) in
    let (ring, held) = published c.outbound i (filled_slot written payload) v z k in
    let (j, n, f, l) =
      handed (produce_commit (write_slot c.outbound i (filled_slot written payload)))
        (filled_slot written payload) ring held in
    let there : d.inbound ≡ produce_commit (write_slot c.outbound i (filled_slot written payload)) =
      u ∙ o in
    let (after, r) =
      reach-entry d.inbound.slots d.behind j (subst (λ x. j < length x.slots) (sym there) l) in
    let (dec, ev) =
      filled-read c d flags kind corr payload (entry c.outbound.slots i) written after g q sized s w
        t in
    let e = ap (λ x. entry x.slots j) there ∙ f in
    ap (λ x. x.1) (poll-attached d pend att)
    ∙ poll_slot-event d (filled_slot written payload) (event_frame c flags kind corr payload) j
        (ap consume_begin there ∙ n) e dec
    ∙ ap (λ y. event_of d y (event_frame c flags kind corr payload)) (r ∙ ap (λ y. y ++ after) e)
    ∙ ev
