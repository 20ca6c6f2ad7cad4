-- ===== src/Bus/Ring/Attach.antt =====
-- What `AttachRing` of server-go/bus/ring.go accepts.
use aimee_module_economizer.Prelude.{
  ℕ, zero, suc, ◌+◌, ◌-◌, ◌*◌, ◌^◌, ◌≤◌, ◌<◌, ◌≡◌, refl, ap, subst, inl, inr, false, some, [], ◌∷◌,
  arith, ltb, Bytes, length, All, Bool-cases, drop,
}
use aimee_module_economizer.Bus.Ring.{Ring, distance, count}
use Prim.Native.Nat.{bit_and}
use native.Mathlib.Nat.{pow-le-pow_right, mul-le-mul}
use aimee_module_economizer.Bus.Ring.Window.{IsRing}
use aimee_module_economizer.Bus.Ring.Fifo.{capacity-bounds}
use aimee_module_economizer.Bus.Ring.{
  attach_ring, mapped, bad_geometry, ring_bytes, chunks, ring_hdr_bytes,
}
use aimee_module_economizer.Bus.Ring.Fifo.{capacity-bounds}
use aimee_module_economizer.Bus.Endian.{uint32_at, uint64_at, number_of}
use aimee_module_economizer.Prelude.Powers.{power_of_two}
use aimee_module_economizer.Prelude.{length-take, length-drop}

pow-pos : (w : ℕ) → 0 < 256 ^ w
pow-pos zero = omega arith
pow-pos (suc w) = omega (arith, pow-pos w)

number_of_lt : (w : ℕ) (bs : Bytes) → All (λ b. b < 256) bs → number_of w bs < 256 ^ w
unfolding number_of
number_of_lt zero bs h = omega arith
number_of_lt (suc w) [] h = omega (arith, pow-pos w)
number_of_lt (suc w) (b ∷ bs) h = omega (arith, h.0, number_of_lt w bs h.1)

All-drop : (n : ℕ) (bs : Bytes) → All (λ b. b < 256) bs → All (λ b. b < 256) (drop n bs)
All-drop zero bs h = h
All-drop (suc n) [] h = h
All-drop (suc n) (b ∷ bs) h = All-drop n bs h.1

length-chunks : (n size : ℕ) (bs : Bytes) → length (chunks n size bs) ≡ n
unfolding chunks
length-chunks zero size bs = refl
length-chunks (suc n) size bs = ap suc (length-chunks n size (drop size bs))

-- every slot has its size where the mapping is long enough
chunks-length :
    (n size : ℕ) (bs : Bytes) → size * n ≤ length bs → All (λ s. length s ≡ size) (chunks n size bs)
unfolding chunks
chunks-length zero size bs h = record {}
chunks-length (suc n) size bs h =
    let e : size * suc n ≡ size + size * n = omega arith in
    (
      omega (arith, length-take size bs, e, h),
      chunks-length n size (drop size bs) (omega (arith, length-drop size bs, e, h)),
    )

attach_ring-mapped :
    (mem : Bytes) (r : Ring)
    → attach_ring mem ≡ some r
    → (mapped mem ≡ r)
      × (ring_hdr_bytes ≤ length mem)
      × (bad_geometry (mapped mem) (uint32_at 16 mem) ≡ false)
      × (ring_bytes (mapped mem).slot_size (mapped mem).capacity ≤ length mem)
      × (distance (mapped mem).head (mapped mem).tail ≤ (mapped mem).capacity)
unfolding attach_ring
attach_ring-mapped mem r h = (ground arith, ground arith, ground arith, ground arith, ground arith)

good_geometry :
    (r : Ring) (slots_off : ℕ)
    → bad_geometry r slots_off ≡ false
    → (2 ≤ r.capacity)
      × (bit_and r.capacity (r.capacity - 1) ≡ 0)
      × (0 < r.slot_size)
      × (r.mask ≡ r.capacity - 1)
unfolding bad_geometry
good_geometry r slots_off h = (ground arith, ground arith, ground arith, ground arith)

field_lt : (i : ℕ) (mem : Bytes) → All (λ b. b < 256) mem → uint32_at i mem < 2 ^ 32
field_lt i mem h = number_of_lt 4 (drop i mem) (All-drop i mem h)

cursor_lt : (i : ℕ) (mem : Bytes) → All (λ b. b < 256) mem → uint64_at i mem < 2 ^ 64
cursor_lt i mem h = number_of_lt 8 (drop i mem) (All-drop i mem h)

exponent_lt : (k : ℕ) → 2 ^ k < 2 ^ 32 → k < 32
exponent_lt k h = elim (Bool-cases (ltb k 32)) [
  | inl e ↦ ground (arith, e)
  | inr e ↦
      let l : 32 ≤ k = ground (arith, e) in
      absurd (omega (arith, pow-le-pow_right {n = 2} (omega arith) {i = 32} {j = k} l))
]

mapped-IsRing :
    (mem : Bytes)
    → All (λ b. b < 256) mem
    → bad_geometry (mapped mem) (uint32_at 16 mem) ≡ false
    → distance (mapped mem).head (mapped mem).tail ≤ (mapped mem).capacity
    → IsRing (mapped mem)
unfolding IsRing count mapped
mapped-IsRing mem b g d =
    let (two, pow, size, mask) = good_geometry (mapped mem) (uint32_at 16 mem) g in
    let (k, e) = power_of_two (uint32_at 8 mem) (omega arith) pow in
    (
      (k, e, exponent_lt k (omega (arith, e, field_lt 8 mem b))),
      mask,
      length-chunks (uint32_at 8 mem) (uint32_at 4 mem) (drop ring_hdr_bytes mem),
      cursor_lt 64 mem b,
      cursor_lt 128 mem b,
      d,
    )

mapped-slots :
    (mem : Bytes)
    → ring_bytes (mapped mem).slot_size (mapped mem).capacity ≤ length mem
    → All (λ s. length s ≡ (mapped mem).slot_size) (mapped mem).slots
unfolding mapped ring_bytes
mapped-slots mem n =
    chunks-length (uint32_at 8 mem) (uint32_at 4 mem) (drop ring_hdr_bytes mem)
      (omega (arith, n, length-drop ring_hdr_bytes mem))

ring_bytes_lt :
    (mem : Bytes)
    → All (λ b. b < 256) mem
    → IsRing (mapped mem)
    → ring_bytes (mapped mem).slot_size (mapped mem).capacity < 2 ^ 63
unfolding mapped ring_bytes
ring_bytes_lt mem b v = omega (
  arith,
  mul-le-mul {n₁ = uint32_at 4 mem} {m₁ = uint32_at 8 mem} {n₂ = 2 ^ 32 - 1} {m₂ = 2 ^ 31}
      (omega (arith, field_lt 4 mem b)) (capacity-bounds (mapped mem) v).1,
)

-- A mapping that AttachRing accepts holds a ring whose slots have their size and lie inside it, and
-- the int that is computed for its size does not overflow. The mapping is of bytes.
pub attach_ring-IsRing :
    (mem : Bytes) (r : Ring)
    → All (λ b. b < 256) mem
    → attach_ring mem ≡ some r
    → IsRing r
      × (0 < r.slot_size)
      × All (λ s. length s ≡ r.slot_size) r.slots
      × (ring_bytes r.slot_size r.capacity ≤ length mem)
      × (ring_bytes r.slot_size r.capacity < 2 ^ 63)
attach_ring-IsRing mem r b h =
    let (e, l, g, n, d) = attach_ring-mapped mem r h in
    subst
      (λ r.
        IsRing r
        × (0 < r.slot_size)
        × All (λ s. length s ≡ r.slot_size) r.slots
        × (ring_bytes r.slot_size r.capacity ≤ length mem)
        × (ring_bytes r.slot_size r.capacity < 2 ^ 63))
      e
      (
        mapped-IsRing mem b g d,
        (good_geometry (mapped mem) (uint32_at 16 mem) g).2,
        mapped-slots mem n,
        n,
        ring_bytes_lt mem b (mapped-IsRing mem b g d),
      )
