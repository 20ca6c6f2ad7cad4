-- ===== src/Bus/Ring/Interleaving.antt =====
-- A ring of server-go/bus/ring.go as a queue, under any interleaving of its producer's and its
-- consumer's steps.
use aimee_module_economizer.Prelude.{
  ℕ, suc, ◌+◌, ◌%◌, ◌^◌, ◌<◌, ◌≡◌, refl, sym, ap, ap₂, ◌∙◌, ◌≢◌, some, List, [], ◌∷◌, ◌++◌,
  append-nil, append_assoc, arith, Bytes,
}
use aimee_module_economizer.Prelude.{length-set}
use aimee_module_economizer.Bus.Ring.{
  Ring, count, produce_begin, produce_commit, consume_begin, consume_commit, write_slot, read_slot,
}
use native.Mathlib.Nat.{mod-lt}
use aimee_module_economizer.Bus.Ring.Window.{
  IsRing, entry, window, contents, slots_ne, plain-set_ne, plain-append,
}
use aimee_module_economizer.Bus.Ring.Fifo.{
  contents_plain, produce_begin-some, consume_begin-some, count-produce, count-consume,
}

pub write_slot-IsRing : (r : Ring) (i : ℕ) (x : Bytes) → IsRing r → IsRing (write_slot r i x)
unfolding IsRing write_slot count
write_slot-IsRing r i x v = (v.0, v.1, length-set r.slots i x ∙ v.2, v.3, v.4, v.5)

contents-write :
    (r : Ring) (i : ℕ) (x : Bytes)
    → IsRing r
    → produce_begin r ≡ some i
    → contents (write_slot r i x) ≡ contents r
unfolding contents write_slot count
contents-write r i x v h =
    let (l, e) = produce_begin-some r i v h in
    contents_plain (write_slot r i x) (count r) (write_slot-IsRing r i x v)
    ∙ plain-set_ne r.slots r.capacity r.tail (count r) i x
        (λ j p q. slots_ne r.capacity r.tail j (count r) p (omega (arith, l)) (sym e ∙ q))
    ∙ sym (contents_plain r (count r) v)

pub contents-produce :
    (r : Ring) (i : ℕ)
    → IsRing r
    → produce_begin r ≡ some i
    → contents (produce_commit r) ≡ contents r ++ entry r.slots i ∷ []
unfolding contents produce_commit
contents-produce r i v h =
    let (l, e) = produce_begin-some r i v h in
    ap (window r.slots r.capacity r.tail) (count-produce r v l)
    ∙ contents_plain r (suc (count r)) v
    ∙ plain-append r.slots r.capacity r.tail (count r)
    ∙ ap₂ (λ a b. a ++ entry r.slots b ∷ []) (sym (contents_plain r (count r) v)) (sym e)

pub contents-consume :
    (r : Ring) (i : ℕ)
    → IsRing r
    → consume_begin r ≡ some i
    → contents r ≡ entry r.slots i ∷ contents (consume_commit r)
unfolding contents consume_commit window
contents-consume r i v h =
    let (n, e) = consume_begin-some r i v h in
    ap (window r.slots r.capacity r.tail) (count-consume r v n)
    ∙ ap
        (λ a.
          entry r.slots a
          ∷ window r.slots r.capacity ((r.tail + 1) % 2 ^ 64) (count (consume_commit r)))
        (sym e)

produce_commit-IsRing : (r : Ring) → IsRing r → count r < r.capacity → IsRing (produce_commit r)
unfolding IsRing produce_commit
produce_commit-IsRing r v l = (
  v.0,
  v.1,
  v.2,
  mod-lt (r.head + 1) {m = 2 ^ 64} (omega arith),
  v.4,
  omega (arith, count-produce r v l),
)

consume_commit-IsRing : (r : Ring) → IsRing r → r.head ≢ r.tail → IsRing (consume_commit r)
unfolding IsRing consume_commit
consume_commit-IsRing r v n = (
  v.0,
  v.1,
  v.2,
  v.3,
  mod-lt (r.tail + 1) {m = 2 ^ 64} (omega arith),
  omega (arith, count-consume r v n, v.5),
)

entry-read_slot : (r : Ring) (i : ℕ) (x : Bytes) → read_slot r i ≡ some x → entry r.slots i ≡ x
unfolding entry read_slot
entry-read_slot r i x h = rw (h, entry) refl

-- A step of the producer or of the consumer, with what is published and what is taken: the producer
-- fills the slot that it was given, or publishes it; the consumer takes the slot that it was given.
pub data Step : Ring → Ring → List Bytes → List Bytes → Type 0 where
  filling :
      {r : Ring} (i : ℕ) (x : Bytes) → produce_begin r ≡ some i → Step r (write_slot r i x) [] []
  publishing :
      {r : Ring} (i : ℕ) (x : Bytes)
      → produce_begin r ≡ some i
      → read_slot r i ≡ some x
      → Step r (produce_commit r) (x ∷ []) []
  taking :
      {r : Ring} (i : ℕ) (x : Bytes)
      → consume_begin r ≡ some i
      → read_slot r i ≡ some x
      → Step r (consume_commit r) [] (x ∷ [])

-- any interleaving
pub data Steps : Ring → Ring → List Bytes → List Bytes → Type 0 where
  stop : {r : Ring} → Steps r r [] []
  step :
      {r s t : Ring} {sent taken sent' taken' : List Bytes}
      → Step r s sent taken
      → Steps s t sent' taken'
      → Steps r t (sent ++ sent') (taken ++ taken')

Step-fifo :
    {r t : Ring} {sent taken : List Bytes}
    → Step r t sent taken
    → IsRing r
    → IsRing t × (contents r ++ sent ≡ taken ++ contents t)
Step-fifo {r = r} (filling i x h) v =
    (write_slot-IsRing r i x v, append-nil (contents r) ∙ sym (contents-write r i x v h))
Step-fifo {r = r} (publishing i x h e) v = (
  produce_commit-IsRing r v (produce_begin-some r i v h).0,
  ap (λ a. contents r ++ a ∷ []) (sym (entry-read_slot r i x e)) ∙ sym (contents-produce r i v h),
)
Step-fifo {r = r} (taking i x h e) v = (
  consume_commit-IsRing r v (consume_begin-some r i v h).0,
  append-nil (contents r)
      ∙ contents-consume r i v h
      ∙ ap (λ a. a ∷ contents (consume_commit r)) (entry-read_slot r i x e),
)

-- Under any interleaving of the steps of one producer and one consumer a ring stays a ring and is a
-- first-in, first-out queue: what it held followed by what is published is what is taken followed by what it holds.
pub Steps-fifo :
    {r t : Ring} {sent taken : List Bytes}
    → Steps r t sent taken
    → IsRing r
    → IsRing t × (contents r ++ sent ≡ taken ++ contents t)
Steps-fifo {r = r} stop v = (v, append-nil (contents r))
Steps-fifo {r = r} {t = t} (step {sent = a} {taken = b} {sent' = c} {taken' = d} x xs) v =
    let (w, e) = Step-fifo x v in
    let (u, f) = Steps-fifo xs w in
    (
      u,
      sym (append_assoc (contents r) a c)
          ∙ ap (λ l. l ++ c) e
          ∙ append_assoc b (contents _) c
          ∙ ap (λ l. b ++ l) f
          ∙ sym (append_assoc b d (contents t)),
    )
