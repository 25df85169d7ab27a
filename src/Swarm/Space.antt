-- ===== src/Swarm/Space.antt =====
-- `pubkey_to_swarm_space` of httpserver/swarm.cpp, on a host that is little-endian.
use Prim.Native.Nat.{bit_xor}
use beldex_storage_server.Prelude.{
  ℕ, zero, suc, ◌+◌, ◌*◌, ◌/◌, ◌%◌, ◌^◌, ◌<◌, [], ◌∷◌, take, drop, Bytes, arith,
}

-- The number that bytes spell, least or most significant byte first.
unfoldable pub from_le : Bytes → ℕ
from_le [] = 0
from_le (b ∷ bs) = b + 256 * from_le bs

unfoldable pub from_be : ℕ → Bytes → ℕ
from_be acc [] = acc
from_be acc (b ∷ bs) = from_be (acc * 256 + b) bs

unfoldable pub to_le : ℕ → ℕ → Bytes
to_le zero x = []
to_le (suc n) x = (x % 256) ∷ to_le n (x / 256)

-- boost::endian::big_to_native_inplace of a uint64_t
unfoldable pub swap64 : ℕ → ℕ
unfolding from_be to_le
swap64 x = from_be 0 (to_le 8 x)

-- `raw` is the 32 bytes of the key; each round reads eight of them by memcpy.
unfoldable pub xor_words : ℕ → Bytes → ℕ → ℕ
unfolding from_le
xor_words zero raw res = res
xor_words (suc n) raw res = xor_words n (drop 8 raw) (bit_xor res (from_le (take 8 raw)))

unfoldable pub pubkey_to_swarm_space : Bytes → ℕ
unfolding xor_words swap64
pubkey_to_swarm_space raw = swap64 (xor_words 4 raw 0)

swap64-lt : (x : ℕ) → swap64 x < 2 ^ 64
unfolding swap64
swap64-lt x = omega arith

-- The position of a key is a 64-bit number.
pub swarm_space-lt : (raw : Bytes) → pubkey_to_swarm_space raw < 2 ^ 64
unfolding pubkey_to_swarm_space
swarm_space-lt raw = swap64-lt (xor_words 4 raw 0)
