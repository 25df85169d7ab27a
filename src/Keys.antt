-- ===== src/Keys.antt =====
-- crypto/include/beldexd_key.h: the public keys. A 32-byte array is the number that its bytes
-- spell, most significant byte first, so that the lexicographic order of std::array is the order
-- of the numbers and the null key is 0.
pub mod Coding
use beldex_storage_server.Prelude.{ℕ, Bool, ◌!=◌, nat_eq}

abbrev pub LegacyPubkey : Type 0
LegacyPubkey = ℕ

abbrev pub Ed25519Pubkey : Type 0
Ed25519Pubkey = ℕ

abbrev pub X25519Pubkey : Type 0
X25519Pubkey = ℕ

-- key_base::operator bool
abbrev pub is_set : ℕ → Bool
is_set key = key != 0
