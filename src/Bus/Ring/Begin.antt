-- ===== src/Bus/Ring/Begin.antt =====
-- When a ring of server-go/bus/ring.go hands out a slot, and which.
use aimee_module_economizer.Prelude.{
  ℕ, ◌+◌, ◌%◌, ◌^◌, ◌<◌, ◌≡◌, refl, sym, ap, ◌∙◌, ◌↔◌, ◌⊎◌, inl, inr, Bool, true, false, none, some,
  List, [], ◌∷◌, arith, if◌then◌else◌, ◌==◌, leb, Bytes, length, Bool-cases, ==_iff,
}
use aimee_module_economizer.Bus.Ring.{
  Ring, distance, count, slot, produce_begin, consume_begin, consume_commit,
}
use native.Mathlib.Nat.{mod-lt}
use aimee_module_economizer.Bus.Ring.Window.{IsRing, contents, length-window}
use aimee_module_economizer.Bus.Ring.Fifo.{
  slot_mod, capacity-bounds, head_mod, produce_begin-some, consume_begin-some, count-consume,
}

length-contents : (r : Ring) → length (contents r) ≡ count r
unfolding contents
length-contents r = length-window r.slots r.capacity r.tail (count r)

produce_begin-none :
    (r : Ring) → IsRing r → (produce_begin r ≡ none) ↔ (length (contents r) ≡ r.capacity)
unfolding produce_begin IsRing count
produce_begin-none r v = ground (arith, length-contents r, v.5)

count_zero : (r : Ring) → IsRing r → (count r ≡ 0) ↔ (r.head ≡ r.tail)
unfolding IsRing count distance
count_zero r v = (λ h. omega (arith, h, v.3, v.4), λ h. omega (arith, h, v.3, v.4))

length_zero : (xs : List Bytes) → length xs ≡ 0 → xs ≡ []
length_zero [] h = refl
length_zero (x ∷ xs) h = absurd (omega arith)

pub consume_begin-none : (r : Ring) → IsRing r → (consume_begin r ≡ none) ↔ (contents r ≡ [])
unfolding consume_begin
consume_begin-none r v = elim (Bool-cases (r.head == r.tail)) [
  | inl e ↦
      let z : count r ≡ 0 = (count_zero r v).1 ((==_iff r.head r.tail).0 e) in
      ((λ h. length_zero (contents r) (length-contents r ∙ z)), λ h. rw (e, consume_begin) refl)
  | inr e ↦ (
    (λ h. absurd (cc (rw (e, consume_begin) at h))),
    λ h. absurd (
        differ
          ((==_iff r.head r.tail).1 ((count_zero r v).0 (sym (length-contents r) ∙ ap length h)))
          e),
  )
]
  where
    differ : {b : Bool} → b ≡ true → b ≡ false → ⊥
    differ p q = cc

slot_below : (r : Ring) (a i : ℕ) → IsRing r → i ≡ a % r.capacity → i < length r.slots
unfolding IsRing
slot_below r a i v e = omega (arith, e, v.2, mod-lt a {m = r.capacity} ((capacity-bounds r v).0))

pub begin_below :
    (r : Ring) (i : ℕ)
    → IsRing r
    → (produce_begin r ≡ some i) ⊎ (consume_begin r ≡ some i)
    → i < length r.slots
begin_below r i v (inl h) = slot_below r (r.tail + count r) i v (produce_begin-some r i v h).1
begin_below r i v (inr h) = slot_below r r.tail i v (consume_begin-some r i v h).1

produce_begin-consume_commit :
    (r : Ring) (i j : ℕ)
    → IsRing r
    → produce_begin r ≡ some i
    → consume_begin r ≡ some j
    → produce_begin (consume_commit r) ≡ some i
unfolding produce_begin consume_commit count slot
produce_begin-consume_commit r i j v h k =
    let (l, e) = produce_begin-some r i v h in
    let (n, f) = consume_begin-some r j v k in
    let less : leb r.capacity (distance r.head ((r.tail + 1) % 2 ^ 64)) ≡ false =
      ground (arith, count-consume r v n, l) in
    ap (λ b. if b then none else some (slot r r.head)) less
    ∙ ap some (slot_mod r r.head v ∙ head_mod r v ∙ sym e)

-- A ring refuses the producer exactly if it holds as many entries as it has slots, and the consumer
-- exactly if it holds none; the slot that it hands out is one of its slots, and taking an entry
-- leaves the slot that the producer was given.
pub begin_lem :
    (r : Ring)
    → IsRing r
    → ((produce_begin r ≡ none) ↔ (length (contents r) ≡ r.capacity))
      × ((consume_begin r ≡ none) ↔ (contents r ≡ []))
      × ((i : ℕ) → (produce_begin r ≡ some i) ⊎ (consume_begin r ≡ some i) → i < length r.slots)
      × ((i j : ℕ)
          → produce_begin r ≡ some i
          → consume_begin r ≡ some j
          → produce_begin (consume_commit r) ≡ some i)
begin_lem r v = (
  produce_begin-none r v,
  consume_begin-none r v,
  (λ i h. begin_below r i v h),
  λ i j h k. produce_begin-consume_commit r i j v h k,
)
