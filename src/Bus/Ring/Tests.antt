-- ===== src/Bus/Ring/Tests.antt =====
-- A ring of two slots whose cursors are about to wrap around, a mapping in the layout of
-- server-go/bus/ring_test.go, and the theorems at them.
use aimee_module_economizer.Prelude.{
  ℕ, ◌^◌, ◌≤◌, ◌<◌, ◌≡◌, refl, ◌↔◌, ◌⊎◌, true, none, some, [], ◌∷◌, ◌++◌, arith, ltb, Bytes, length,
  All, all,
}
use aimee_module_economizer.Prelude.{replicate}
use aimee_module_economizer.Bus.Endian.{number_of}
use aimee_module_economizer.Bus.Ring.{
  Ring, attach_ring, mapped, bad_geometry, ring_bytes, chunks, distance, count, slot, produce_begin,
  produce_commit, consume_begin, consume_commit, write_slot, read_slot,
}
use aimee_module_economizer.Bus.Ring.Window.{IsRing, contents}
use aimee_module_economizer.Bus.Ring.Interleaving.{
  Steps, stop, step, filling, publishing, taking, Steps-fifo,
}
use aimee_module_economizer.Bus.Ring.Begin.{begin_lem}
use aimee_module_economizer.Bus.Ring.Attach.{attach_ring-IsRing}

abbrev last_cursor : ℕ
last_cursor = 18446744073709551615

abbrev idle : Ring
idle = record {
  slot_size = 1;
  capacity = 2;
  mask = 1;
  head = last_cursor;
  tail = last_cursor;
  slots = (0 ∷ []) ∷ (0 ∷ []) ∷ [];
}

idle-IsRing : IsRing idle
unfolding IsRing count distance
idle-IsRing = ((1, refl, omega arith), refl, refl, omega arith, omega arith, omega arith)

abbrev filled : Ring
filled = write_slot idle 1 (7 ∷ [])

run :
    Steps idle
      (consume_commit (produce_commit filled))
      ([] ++ (7 ∷ []) ∷ [] ++ ([] ++ []))
      ([] ++ ([] ++ ((7 ∷ []) ∷ [] ++ [])))
unfolding write_slot produce_commit consume_commit produce_begin consume_begin read_slot slot
    distance
run =
    step (filling 1 (7 ∷ []) refl)
      (step (publishing 1 (7 ∷ []) refl refl) (step (taking 1 (7 ∷ []) refl refl) stop))

Steps-fifo_example :
    IsRing (consume_commit (produce_commit filled))
    × (contents idle ++ (7 ∷ []) ∷ []
        ≡ (7 ∷ []) ∷ [] ++ contents (consume_commit (produce_commit filled)))
Steps-fifo_example = Steps-fifo run idle-IsRing

begin_lem_example :
    ((produce_begin idle ≡ none) ↔ (length (contents idle) ≡ 2))
    × ((consume_begin idle ≡ none) ↔ (contents idle ≡ []))
    × ((i : ℕ) → (produce_begin idle ≡ some i) ⊎ (consume_begin idle ≡ some i) → i < 2)
    × ((i j : ℕ)
        → produce_begin idle ≡ some i
        → consume_begin idle ≡ some j
        → produce_begin (consume_commit idle) ≡ some i)
begin_lem_example = begin_lem idle idle-IsRing

abbrev mapping : Bytes
mapping =
    82
    ∷ 73
    ∷ 78
    ∷ 71
    ∷ 1
    ∷ 0
    ∷ 0
    ∷ 0
    ∷ 2
    ∷ 0
    ∷ 0
    ∷ 0
    ∷ 1
    ∷ 0
    ∷ 0
    ∷ 0
    ∷ 192
    ∷ 0
    ∷ 0
    ∷ 0
    ∷ replicate 174 0

all-All : (bs : Bytes) → all (λ b. ltb b 256) bs ≡ true → All (λ b. b < 256) bs
all-All [] h = record {}
all-All (b ∷ bs) h = (ground (arith, h), all-All bs (ground (arith, h)))

abbrev attached : Ring
attached = record {
  slot_size = 1;
  capacity = 2;
  mask = 1;
  head = 0;
  tail = 0;
  slots = (0 ∷ []) ∷ (0 ∷ []) ∷ [];
}

attaches : attach_ring mapping ≡ some attached
unfolding attach_ring mapped bad_geometry ring_bytes chunks distance number_of
attaches = refl

mapping_bytes : All (λ b. b < 256) mapping
mapping_bytes = all-All mapping refl

attach_ring-IsRing_example :
    IsRing attached
    × (0 < 1)
    × All (λ s. length s ≡ 1) attached.slots
    × (ring_bytes 1 2 ≤ 194)
    × (ring_bytes 1 2 < 2 ^ 63)
attach_ring-IsRing_example = attach_ring-IsRing mapping attached mapping_bytes attaches
