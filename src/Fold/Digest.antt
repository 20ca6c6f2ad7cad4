-- ===== src/Fold/Digest.antt =====
-- `prefixDigest` of server-go/modules/economizer/fold.go: FNV-1a over the serialized messages, in
-- uint64, with their size.
use aimee_module_economizer.Prelude.{ℕ, ◌+◌, ◌*◌, ◌%◌, ◌^◌, List, [], ◌∷◌, Bytes, length, take}
use aimee_module_economizer.Json.{Value}
use Prim.Native.Nat.{bit_xor}
use aimee_module_economizer.Json.Print.{print_json}

abbrev fnv_offset : ℕ
fnv_offset = 14695981039346656037

abbrev fnv_prime : ℕ
fnv_prime = 1099511628211

unfoldable pub hash_bytes : Bytes → ℕ → ℕ
hash_bytes [] h = h
hash_bytes (c ∷ s) h = hash_bytes s (bit_xor h c * fnv_prime % 2 ^ 64)

module _ (cjson_number : ℕ → Bytes) where
  -- the loop, with the digest and the size so far
  unfoldable pub digest_loop : List Value → ℕ → ℕ → ℕ × ℕ
  digest_loop [] h total = (h, total)
  digest_loop (m ∷ ms) h total =
      let s = print_json cjson_number m in digest_loop ms (hash_bytes s h) (total + length s)

  -- `prefixDigest`
  unfoldable pub prefix_digest : List Value → ℕ → ℕ × ℕ
  prefix_digest ms n = digest_loop (take n ms) fnv_offset 0
