-- ===== src/Bus/Ring/Window.antt =====
-- The slots between the cursors of a ring (server-go/bus/ring.go), the oldest first.
use aimee_module_economizer.Prelude.{
  ℕ, zero, suc, ◌+◌, ◌-◌, ◌*◌, ◌%◌, ◌^◌, ◌≤◌, ◌<◌, ◌≡◌, refl, sym, ap, ap₂, ◌∙◌, ◌≢◌, inl, inr,
  none, some, List, [], ◌∷◌, ◌++◌, arith, ltb, Bytes, length, Bool-cases,
}
use aimee_module_economizer.Prelude.{get_elem?, set, get_elem?-set_self, get_elem?-set_ne}
use aimee_module_economizer.Prelude.Powers.{mod-mod_multiple}
use aimee_module_economizer.Bus.Ring.{Ring, count}
use native.Mathlib.Nat.{mod-add-mod, mod-eq_of_lt, mod-eq-sub-mod, mod-lt}

-- A ring of a power of two slots with at most as many between its cursors.
unfoldable pub IsRing : Ring → Type 0
IsRing r =
    ((k : ℕ) × (r.capacity ≡ 2 ^ k) × (k < 32))
    × (r.mask ≡ r.capacity - 1)
    × (length r.slots ≡ r.capacity)
    × (r.head < 2 ^ 64)
    × (r.tail < 2 ^ 64)
    × (count r ≤ r.capacity)

-- the entry of a slot; a slot past the end counts as empty, and no ring has one between its cursors
unfoldable pub entry : List Bytes → ℕ → Bytes
entry slots i = elim (get_elem? slots i) [ none ↦ [] | some x ↦ x ]

-- `n` entries from a cursor on
unfoldable pub window : List Bytes → ℕ → ℕ → ℕ → List Bytes
window slots size from zero = []
window slots size from (suc n) =
    entry slots (from % size) ∷ window slots size ((from + 1) % 2 ^ 64) n

-- What a ring holds as a queue.
unfoldable pub contents : Ring → List Bytes
contents r = window r.slots r.capacity r.tail (count r)

pub length-window : (slots : List Bytes) (size from n : ℕ) → length (window slots size from n) ≡ n
unfolding window
length-window slots size from zero = refl
length-window slots size from (suc n) = ap suc (length-window slots size ((from + 1) % 2 ^ 64) n)

-- the same entries with a cursor that does not wrap around
unfoldable pub plain : List Bytes → ℕ → ℕ → ℕ → List Bytes
plain slots size from zero = []
plain slots size from (suc n) = entry slots (from % size) ∷ plain slots size (from + 1) n

pub window_plain :
    (slots : List Bytes) (size q from n : ℕ)
    → 2 ^ 64 ≡ q * size
    → window slots size (from % 2 ^ 64) n ≡ plain slots size from n
unfolding window plain
window_plain slots size q from zero d = refl
window_plain slots size q from (suc n) d =
    let e : from % 2 ^ 64 % size ≡ from % size =
      ap (λ w. from % w % size) d ∙ mod-mod_multiple from q size in
    ap₂ (λ i x. entry slots i ∷ x) e
      (ap (λ i. window slots size i n) (mod-add-mod from (2 ^ 64) 1)
        ∙ window_plain slots size q (from + 1) n d)

-- fewer than `size` steps on is another slot
add-mod_ne : (size h k : ℕ) → h < size → 0 < k → k < size → (h + k) % size ≢ h
add-mod_ne size h k l p q = elim (Bool-cases (ltb (h + k) size)) [
  | inl e ↦ omega (arith, mod-eq_of_lt {n = h + k} {m = size} (ground (arith, e)))
  | inr e ↦
      let c : size ≤ h + k = ground (arith, e) in
      omega (
        arith,
        mod-eq-sub-mod {n = h + k} {m = size} c,
        mod-eq_of_lt {n = h + k - size} {m = size} (omega arith),
      )
]

pub slots_ne : (size from j n : ℕ) → j < n → n < size + j → (from + n) % size ≢ (from + j) % size
slots_ne size from j n l h =
    let e : (from + n) % size ≡ ((from + j) % size + (n - j)) % size =
      ap (λ x. x % size) (omega arith) ∙ sym (mod-add-mod (from + j) size (n - j)) in
    rw e (
      add-mod_ne size ((from + j) % size) (n - j) (mod-lt (from + j) {m = size} (omega arith))
        (omega arith) (omega arith))

entry-set_ne :
    (slots : List Bytes) (i j : ℕ) (x : Bytes) → i ≢ j → entry (set slots i x) j ≡ entry slots j
unfolding entry
entry-set_ne slots i j x n = rw (get_elem?-set_ne slots {i = i} {j = j} x n, entry) refl

pub entry-set_self :
    (slots : List Bytes) (i : ℕ) (x : Bytes) → i < length slots → entry (set slots i x) i ≡ x
unfolding entry
entry-set_self slots i x l = rw (get_elem?-set_self slots i x l, entry) refl

-- a write to a slot that is none of the entries' leaves them
pub plain-set_ne :
    (slots : List Bytes) (size from n i : ℕ) (x : Bytes)
    → ((j : ℕ) → j < n → i ≢ (from + j) % size)
    → plain (set slots i x) size from n ≡ plain slots size from n
unfolding plain
plain-set_ne slots size from zero i x h = refl
plain-set_ne slots size from (suc n) i x h =
    ap₂ ◌∷◌
      (entry-set_ne slots i (from % size) x
        (λ e. h 0 (omega arith) (e ∙ ap (λ a. a % size) (omega arith))))
      (plain-set_ne slots size (from + 1) n i x
        (λ j l e. h (suc j) (omega arith) (e ∙ ap (λ a. a % size) (omega arith))))

pub plain-append :
    (slots : List Bytes) (size from n : ℕ)
    → plain slots size from (suc n)
      ≡ plain slots size from n ++ entry slots ((from + n) % size) ∷ []
unfolding plain
plain-append slots size from zero = ap (λ a. entry slots (a % size) ∷ []) (omega arith)
plain-append slots size from (suc n) = ap (◌∷◌ (entry slots (from % size))) (
    plain-append slots size (from + 1) n
    ∙ ap (λ a. plain slots size (from + 1) n ++ entry slots (a % size) ∷ []) (omega arith))
