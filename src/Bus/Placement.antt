-- ===== src/Bus/Placement.antt =====
-- What `CheckPlacement` of server-go/bus/wire.go bounds.
use aimee_module_economizer.Prelude.{
  ℕ, ◌+◌, ◌≤◌, ◌<◌, ◌≡◌, refl, ◌≢◌, inl, inr, true, arith, Bool-cases,
}
use aimee_module_economizer.Bus.Frame.{
  Frame, Result, ok, validate, check_payload, check_placement, hdr_len, is_ok, has_flag, f_inline,
  max_payload,
}

is_ok_sound : (r : Result) → is_ok r ≡ true → r ≡ ok
is_ok_sound ok h = refl
is_ok_sound _ h = cc

check_payload_of_validate : (f : Frame) → validate f ≡ ok → is_ok (check_payload f) ≡ true
unfolding validate
check_payload_of_validate f h = elim (Bool-cases (is_ok (check_payload f))) [
  | inl e ↦ e
  | inr e ↦ ground (arith, rw (e, validate) at h)
]

payload_bound : (f : Frame) → is_ok (check_payload f) ≡ true → f.payload_len ≤ max_payload
unfolding check_payload
payload_bound f h = ground arith

check_placement_valid :
    (f : Frame) (slot_size arena_size : ℕ)
    → check_placement f slot_size arena_size ≡ ok
    → validate f ≡ ok
unfolding check_placement
check_placement_valid f slot_size arena_size h = elim (Bool-cases (is_ok (validate f))) [
  | inl e ↦ is_ok_sound (validate f) e
  | inr e ↦ ground (arith, rw (e, check_placement) at h)
]

-- An inline payload that passes `CheckPlacement` lies behind the header and inside its slot, and is
-- no longer than the limit: the uint64 sum of its place and its length does not wrap around.
pub check_placement-inline :
    (f : Frame) (slot_size arena_size : ℕ)
    → f.payload_ref < 18446744073709551616
    → f.payload_len ≢ 0
    → has_flag f f_inline ≡ true
    → check_placement f slot_size arena_size ≡ ok
    → (hdr_len ≤ f.payload_ref)
      × (f.payload_ref + f.payload_len ≤ slot_size)
      × (f.payload_len ≤ max_payload)
unfolding check_placement
check_placement-inline f slot_size arena_size r n i h =
    let v = check_placement_valid f slot_size arena_size h in
    let b = payload_bound f (check_payload_of_validate f v) in
    let h' = rw (v, i, check_placement) at h in (ground (arith, h', b), ground (arith, h', b), b)
