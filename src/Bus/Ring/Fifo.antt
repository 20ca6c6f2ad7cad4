-- ===== src/Bus/Ring/Fifo.antt =====
-- The cursors of a ring of server-go/bus/ring.go: what slots they stand at and how the count changes.
use aimee_module_economizer.Prelude.{
  ℕ, suc, ◌+◌, ◌-◌, ◌*◌, ◌%◌, ◌^◌, ◌≤◌, ◌<◌, ◌≡◌, sym, ap, ◌∙◌, ◌≢◌, inl, inr, some, arith, ◌==◌,
  leb, Bool-cases,
}
use aimee_module_economizer.Prelude.{Option-some}
use aimee_module_economizer.Prelude.Powers.{bit_and-mask, mod-mod_multiple, pow_split}
use aimee_module_economizer.Prelude.Masks.{pow_pos}
use aimee_module_economizer.Bus.Ring.{
  Ring, distance, count, slot, produce_begin, produce_commit, consume_begin, consume_commit,
}
use Prim.Native.Nat.{bit_and}
use native.Mathlib.Nat.{mod-eq_of_lt, pow-le-pow_right}
use aimee_module_economizer.Bus.Ring.Window.{IsRing, window, plain, window_plain}

-- the slot of a cursor
pub slot_mod : (r : Ring) (i : ℕ) → IsRing r → slot r i ≡ i % r.capacity
unfolding IsRing slot
slot_mod r i v =
    let (k, c, l) = v.0 in
    ap (bit_and i) (v.1 ∙ ap (λ a. a - 1) c) ∙ bit_and-mask k i ∙ ap (λ a. i % a) (sym c)

-- the capacity is no 0, fits into 32 bits and divides the range of a cursor
pub capacity-bounds : (r : Ring) → IsRing r → (0 < r.capacity) × (r.capacity ≤ 2 ^ 31)
unfolding IsRing
capacity-bounds r v =
    let (k, c, l) = v.0 in
    (
      omega (arith, c, pow_pos k),
      omega (arith, c, pow-le-pow_right {n = 2} (omega arith) {i = k} {j = 31} (omega arith)),
    )

pub range_multiple : (r : Ring) → IsRing r → (q : ℕ) × (2 ^ 64 ≡ q * r.capacity)
unfolding IsRing
range_multiple r v =
    let (k, c, l) = v.0 in
    (
      2 ^ (64 - k),
      ap (λ a. 2 ^ a) {x = 64} {y = 64 - k + k} (omega arith)
          ∙ pow_split (64 - k) k
          ∙ ap (λ a. 2 ^ (64 - k) * a) (sym c),
    )

-- the contents with a cursor that does not wrap around
pub contents_plain :
    (r : Ring) (n : ℕ)
    → IsRing r
    → window r.slots r.capacity r.tail n ≡ plain r.slots r.capacity r.tail n
unfolding IsRing
contents_plain r n v =
    let (q, d) = range_multiple r v in
    ap (λ a. window r.slots r.capacity a n) (sym (mod-eq_of_lt {n = r.tail} {m = 2 ^ 64} v.4))
    ∙ window_plain r.slots r.capacity q r.tail n d

-- the slot that the producer's cursor stands at is the one behind the entries
pub head_mod : (r : Ring) → IsRing r → r.head % r.capacity ≡ (r.tail + count r) % r.capacity
unfolding IsRing count distance
head_mod r v =
    let (q, d) = range_multiple r v in
    let h : r.head ≡ (r.tail + (r.head + 2 ^ 64 - r.tail) % 2 ^ 64) % 2 ^ 64 =
      omega (arith, v.3, v.4) in
    ap (λ a. a % r.capacity) h
    ∙ ap (λ w. (r.tail + (r.head + 2 ^ 64 - r.tail) % 2 ^ 64) % w % r.capacity) d
    ∙ mod-mod_multiple (r.tail + (r.head + 2 ^ 64 - r.tail) % 2 ^ 64) q r.capacity

pub produce_begin-some :
    (r : Ring) (i : ℕ)
    → IsRing r
    → produce_begin r ≡ some i
    → (count r < r.capacity) × (i ≡ (r.tail + count r) % r.capacity)
unfolding produce_begin count
produce_begin-some r i v h = elim (Bool-cases (leb r.capacity (distance r.head r.tail))) [
  | inl e ↦ cc (rw (e, produce_begin) at h)
  | inr e ↦ (
    ground (arith, e),
    sym (Option-some (rw (e, produce_begin) at h)) ∙ slot_mod r r.head v ∙ head_mod r v,
  )
]

pub consume_begin-some :
    (r : Ring) (i : ℕ)
    → IsRing r
    → consume_begin r ≡ some i
    → (r.head ≢ r.tail) × (i ≡ r.tail % r.capacity)
unfolding consume_begin
consume_begin-some r i v h = elim (Bool-cases (r.head == r.tail)) [
  | inl e ↦ cc (rw (e, consume_begin) at h)
  | inr e ↦
      (ground (arith, e), sym (Option-some (rw (e, consume_begin) at h)) ∙ slot_mod r r.tail v)
]

-- how the operations change the count
pub count-produce :
    (r : Ring) → IsRing r → count r < r.capacity → count (produce_commit r) ≡ suc (count r)
unfolding IsRing count distance produce_commit
count-produce r v l = omega (arith, v.3, v.4, l, capacity-bounds r v)

pub count-consume :
    (r : Ring) → IsRing r → r.head ≢ r.tail → count r ≡ suc (count (consume_commit r))
unfolding IsRing count distance consume_commit
count-consume r v n = omega (arith, v.3, v.4, n)
