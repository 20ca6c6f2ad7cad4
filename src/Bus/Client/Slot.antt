-- ===== src/Bus/Client/Slot.antt =====
-- The slot that `Poll` of server-go/bus/client.go reads, and the bytes up to the end of its capacity.
use aimee_module_economizer.Prelude.{
  refl, ℕ, zero, suc, ◌<◌, ◌≡◌, ap, ◌∙◌, true, false, not, none, some, List, [], ◌∷◌, ◌++◌, arith,
  if◌then◌else◌, ◌==◌, Bytes, length,
}
use aimee_module_economizer.Bus.Client.{Client, reach, event_of}
use aimee_module_economizer.Bus.Frame.{Frame, ok, decode}
use aimee_module_economizer.Bus.Ring.{consume_begin, consume_commit}
use aimee_module_economizer.Bus.Ring.Window.{entry}
use aimee_module_economizer.Bus.Client.{
  slot_result, entry_result, failed, poll, poll_slot, release, is_attached, epoch_changed, protocol,
  epoch,
}

-- a slot that a ring has begins with its entry
pub reach-entry :
    (slots : List Bytes) (behind : Bytes) (i : ℕ)
    → i < length slots
    → (after : Bytes) × (reach slots behind i ≡ entry slots i ++ after)
unfolding entry reach
reach-entry [] behind i l = absurd (omega arith)
reach-entry (s ∷ ss) behind zero l = (reach ss behind zero, refl)
reach-entry (s ∷ ss) behind (suc i) l = reach-entry ss behind i (omega arith)

-- an attached client with no read pending polls its slot at once
pub poll-attached :
    (d : Client) → d.pending_read ≡ false → d.control ≡ some d.attached_epoch → poll d ≡ poll_slot d
unfolding poll release epoch_changed
poll-attached d pend att =
    let here : is_attached d ≡ true = ap (λ o. elim o [ none ↦ false | some e ↦ true ]) att in
    let same : epoch_changed d ≡ false =
      ap (λ o. elim o [ none ↦ false | some e ↦ not (e == d.attached_epoch) ]) att ∙ ground arith in
    ap
      (λ b.
        if not b
        then (d, failed protocol)
        else if epoch_changed d
        then (d, failed epoch)
        else poll_slot (release d))
      here
    ∙ ap (λ b. if b then (d, failed epoch) else poll_slot (release d)) same
    ∙ ap
        (λ b.
          poll_slot (
            if b then record d { inbound = consume_commit d.inbound; pending_read = false } else d))
        pend

-- a slot whose entry decodes is polled as its event
pub poll_slot-event :
    (d : Client) (bytes : Bytes) (f : Frame) (j : ℕ)
    → consume_begin d.inbound ≡ some j
    → entry d.inbound.slots j ≡ bytes
    → decode bytes ≡ (ok, some f)
    → (poll_slot d).1 ≡ event_of d (reach d.inbound.slots d.behind j) f
unfolding poll_slot slot_result entry_result
poll_slot-event d bytes f j n e dec =
    ap (λ o. (slot_result d o).1) n
    ∙ ap (λ b. (entry_result d (reach d.inbound.slots d.behind j) (decode b).1).1) e
    ∙ ap (λ r. (entry_result d (reach d.inbound.slots d.behind j) r.1).1) dec
