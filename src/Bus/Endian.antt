-- ===== src/Bus/Endian.antt =====
-- `encoding/binary`'s little-endian numbers, as server-go/bus writes and reads them.
use aimee_module_economizer.Prelude.{
  ℕ, zero, suc, ◌+◌, ◌*◌, ◌/◌, ◌%◌, ◌^◌, ◌<◌, ◌≡◌, refl, ap, [], ◌∷◌, ◌++◌, arith, Bytes, length,
  drop,
}

-- the bytes of a number, the low one first
unfoldable pub put : ℕ → ℕ → Bytes
put zero v = []
put (suc w) v = v % 256 ∷ put w (v / 256)

-- the number of the first bytes; a byte past the end counts as zero, and no caller reads one
unfoldable pub number_of : ℕ → Bytes → ℕ
number_of zero bs = 0
number_of (suc w) [] = 0
number_of (suc w) (b ∷ bs) = b + 256 * number_of w bs

-- `Uint16(in[i:])`, `Uint32(in[i:])` and `Uint64(in[i:])`
abbrev pub uint16_at : ℕ → Bytes → ℕ
uint16_at i bs = number_of 2 (drop i bs)

abbrev pub uint32_at : ℕ → Bytes → ℕ
uint32_at i bs = number_of 4 (drop i bs)

abbrev pub uint64_at : ℕ → Bytes → ℕ
uint64_at i bs = number_of 8 (drop i bs)

pub length-put : (w v : ℕ) → length (put w v) ≡ w
unfolding put
length-put zero v = refl
length-put (suc w) v = ap suc (length-put w (v / 256))

quotient_below : (v n : ℕ) → v < 256 * n → v / 256 < n
quotient_below v n h = omega arith

-- what is put is read, whatever follows
pub number_of-put : (w v : ℕ) (bs : Bytes) → v < 256 ^ w → number_of w (put w v ++ bs) ≡ v
unfolding put number_of
number_of-put zero v bs h = omega arith
number_of-put (suc w) v bs h =
    omega (arith, number_of-put w (v / 256) bs (quotient_below v (256 ^ w) (omega arith)))
