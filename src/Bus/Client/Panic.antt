-- ===== src/Bus/Client/Panic.antt =====
-- The slice expression in `Poll` of server-go/bus/client.go.
use aimee_module_economizer.Prelude.{
  ℕ, ◌+◌, ◌-◌, ◌%◌, ◌^◌, ◌≤◌, ◌<◌, ◌≡◌, ◌∙◌, ap, refl, sym, ◌↔◌, ◌⊎◌, inl, inr, true, false, ltb,
  leb, Bool-cases, some, take, drop, length, arith, Bytes,
}
use aimee_module_economizer.Bus.Client.{Client, event_of, event, poll, reach}
use aimee_module_economizer.Bus.Client.Slot.{poll-attached, poll_slot-event}
use aimee_module_economizer.Bus.Frame.{Frame, ok, f_inline, has_flag, decode}
use aimee_module_economizer.Bus.Frame.{check_placement}
use aimee_module_economizer.Bus.Client.{panics}
use aimee_module_economizer.Bus.Ring.{consume_begin}
use aimee_module_economizer.Bus.Ring.Window.{entry}

-- The reference and the length of a frame wrap around uint64 to an end within a slot size, or lie within
-- the slot size and end behind the bytes that are held.
abbrev pub IsOutside : Frame → ℕ → ℕ → Type 0
IsOutside f size held =
    ((2 ^ 64 ≤ f.payload_ref + f.payload_len) × (f.payload_ref + f.payload_len ≤ 2 ^ 64 + size))
    ⊎ ((held < f.payload_ref + f.payload_len) × (f.payload_ref + f.payload_len ≤ size))

module _ (d : Client) (reached : Bytes) (f : Frame) (ref : f.payload_ref < 2 ^ 64)
    (len : f.payload_len < 2 ^ 32) (size : d.slot_size < 2 ^ 32) where
  event_of-wraps :
      2 ^ 64 ≤ f.payload_ref + f.payload_len
      → (event_of d reached f ≡ panics) ↔ (
          (has_flag f f_inline ≡ true)
          × (0 < f.payload_len)
          × (f.payload_ref + f.payload_len ≤ 2 ^ 64 + d.slot_size))
  unfolding event_of
  event_of-wraps w =
      let e : (f.payload_ref + f.payload_len) % 2 ^ 64 ≡ f.payload_ref + f.payload_len - 2 ^ 64 =
        omega arith in
      rw e (ground (arith, w, ref, len))

  event_of-plain :
      f.payload_ref + f.payload_len < 2 ^ 64
      → (event_of d reached f ≡ panics) ↔ (
          (has_flag f f_inline ≡ true)
          × (0 < f.payload_len)
          × (length reached < f.payload_ref + f.payload_len)
          × (f.payload_ref + f.payload_len ≤ d.slot_size))
  unfolding event_of
  event_of-plain w =
      let e : (f.payload_ref + f.payload_len) % 2 ^ 64 ≡ f.payload_ref + f.payload_len =
        omega arith in
      rw e (ground (arith, w))

  pub event_of-panics : (event_of d reached f ≡ panics) ↔ (
      (has_flag f f_inline ≡ true) × (0 < f.payload_len) × IsOutside f d.slot_size (length reached))
  event_of-panics = elim (Bool-cases (ltb (f.payload_ref + f.payload_len) (2 ^ 64))) [
    | inl e ↦ ground (arith, e, event_of-plain (ground (arith, e)), size)
    | inr e ↦ ground (arith, e, event_of-wraps (ground (arith, e)), size)
  ]

  pub event_of-placed :
      (arena_size : ℕ)
      → d.slot_size ≤ length reached
      → check_placement f d.slot_size arena_size ≡ ok
      → has_flag f f_inline ≡ true
      → event_of d reached f ≡ event f (take f.payload_len (drop f.payload_ref reached))
  unfolding event_of check_placement
  event_of-placed arena_size h c i = elim (Bool-cases (ltb 0 f.payload_len)) [
    | inr e ↦
        let z : f.payload_len ≡ 0 = ground (arith, e) in
        rw (i, e) (ap (λ n. event f (take n (drop f.payload_ref reached))) (sym z))
    | inl e ↦
        let w : f.payload_ref + f.payload_len < 2 ^ 64 = ground (arith, c, i, e, ref, len, size) in
        let m : (f.payload_ref + f.payload_len) % 2 ^ 64 ≡ f.payload_ref + f.payload_len =
          omega (arith, w) in
        let b : f.payload_ref + f.payload_len ≤ d.slot_size = ground (arith, c, i, e, m) in
        let fits : leb (f.payload_ref + f.payload_len) d.slot_size ≡ true = ground (arith, b) in
        let up : leb f.payload_ref (f.payload_ref + f.payload_len) ≡ true = ground arith in
        let held : leb (f.payload_ref + f.payload_len) (length reached) ≡ true =
          ground (arith, b, h) in
        let n : f.payload_ref + f.payload_len - f.payload_ref ≡ f.payload_len = omega arith in
        rw (i, e, m, fits, up, held, n) refl
  ]

-- For an attached client with no read pending and the host's epoch as it was, whose next slot holds a
-- frame that decodes, with a slot size, a reference and a length of their widths: `Poll` panics exactly
-- if the frame is inline with a payload whose reference and length wrap around uint64 to an end within
-- the client's slot size, or whose end is within that size and behind the capacity of the slot. If the
-- capacity covers the client's slot size, an inline frame that `CheckPlacement` accepts is polled with the
-- bytes that it refers to.
pub poll-panics :
    (d : Client) (f : Frame) (j arena_size : ℕ)
    → d.pending_read ≡ false
    → d.control ≡ some d.attached_epoch
    → consume_begin d.inbound ≡ some j
    → decode (entry d.inbound.slots j) ≡ (ok, some f)
    → d.slot_size < 2 ^ 32
    → f.payload_ref < 2 ^ 64
    → f.payload_len < 2 ^ 32
    → let reached = reach d.inbound.slots d.behind j in
      (((poll d).1 ≡ panics) ↔ (
        (has_flag f f_inline ≡ true)
        × (0 < f.payload_len)
        × IsOutside f d.slot_size (length reached)))
      × (d.slot_size ≤ length reached
          → check_placement f d.slot_size arena_size ≡ ok
          → has_flag f f_inline ≡ true
          → (poll d).1 ≡ event f (take f.payload_len (drop f.payload_ref reached)))
poll-panics d f j arena_size p a n e s r l =
    let reached = reach d.inbound.slots d.behind j in
    let q : (poll d).1 ≡ event_of d reached f =
      ap (λ x. x.1) (poll-attached d p a)
      ∙ poll_slot-event d (entry d.inbound.slots j) f j n refl e in
    let (to, from) = event_of-panics d reached f r l s in
    (
      (λ h. to (sym q ∙ h), λ h. q ∙ from h),
      λ h c i. q ∙ event_of-placed d reached f r l s arena_size h c i,
    )
