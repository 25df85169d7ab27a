-- ===== src/Signature.antt =====
-- crypto/src/signature.cpp: signatures of master nodes. The group, its scalars and the hashes of
-- libsodium and cn_fast_hash are parameters; a scalar or a point is the number of its 32 bytes.
pub mod Checked
use beldex_storage_server.Prelude.{
  ℕ, ◌+◌, ◌*◌, ◌/◌, ◌%◌, ◌^◌, ◌≡◌, Bool, true, false, not, ◌&&◌, ◌||◌, Option, none, some, List, [],
  ◌∷◌, ◌++◌, ◌==◌, nat_eq, bytes_eq, Bytes, codes, length, take, drop, le_bytes, from_le,
  if◌then◌else◌,
}
use beldex_storage_server.Serialization.{Codec}

-- crypto_scalarmult_ed25519_base_noclamp gives a point and whether the call succeeded; `none` is another
-- call that fails. The law is that of the group: (x - ac)G + c(aG) = xG.
pub record Curve : Type 0 where
  pub cn_fast_hash : Bytes → Bytes
  pub generichash : ℕ → Bytes → Bytes
  pub scalar_reduce : Bytes → ℕ
  pub scalar_mul : ℕ → ℕ → ℕ
  pub scalar_sub : ℕ → ℕ → ℕ
  pub base_noclamp : ℕ → ℕ × Bool
  pub noclamp : ℕ → ℕ → Option ℕ
  pub add : ℕ → ℕ → Option ℕ
  pub is_valid_point : ℕ → Bool
  pub add-noclamp :
      (a c x point : ℕ)
      → noclamp c (base_noclamp a).0 ≡ some point
      → (base_noclamp (scalar_sub x (scalar_mul a c))).1 ≡ true
      → is_valid_point (base_noclamp x).0 ≡ true
      → add (base_noclamp (scalar_sub x (scalar_mul a c))).0 point ≡ some (base_noclamp x).0

pub record Signature : Type 0 where
  pub c : ℕ
  pub r : ℕ

pub record Keypair : Type 0 where
  pub pubkey : ℕ
  pub seckey : ℕ

abbrev pub bytes_of : ℕ → Bytes
bytes_of n = le_bytes 32 n

-- The first byte loses its low three bits, the last one its high two, and then bit 254 is set.
unfoldable pub clamp : ℕ → ℕ
clamp s = s % 2 ^ 254 / 8 * 8 + 2 ^ 254

module _ (curve : Curve) where
  unfoldable pub monero_hash_to_scalar : Bytes → ℕ
  monero_hash_to_scalar input =
      curve.scalar_reduce (take 32 (curve.cn_fast_hash input) ++ le_bytes 32 0)

  unfoldable pub hash_data : Bytes → Bytes
  hash_data input = curve.generichash 32 input

  -- The scalar x, from the hash of the secret key, the public key and the message's hash.
  unfoldable pub nonce_of : Bytes → Keypair → ℕ
  unfolding clamp
  nonce_of prefix_hash keys = clamp (
      curve.scalar_reduce (
        curve.generichash 64
          (curve.generichash 32 (bytes_of keys.seckey) ++ (bytes_of keys.pubkey ++ prefix_hash))))

  -- The hash of the message's hash, the public key and X.
  unfoldable pub challenge : Bytes → ℕ → ℕ → ℕ
  unfolding monero_hash_to_scalar
  challenge prefix_hash pubkey x_point =
      monero_hash_to_scalar (prefix_hash ++ (bytes_of pubkey ++ bytes_of x_point))

  unfoldable pub generate_signature : Bytes → Keypair → Signature
  unfolding nonce_of challenge
  generate_signature prefix_hash keys =
      let x = nonce_of prefix_hash keys in
      let c = challenge prefix_hash keys.pubkey (curve.base_noclamp x).0 in
      record { c = c; r = curve.scalar_sub x (curve.scalar_mul keys.seckey c) }

  -- The end of the check, with the point X.
  unfoldable pub check_point : Signature → Bytes → ℕ → Option ℕ → Bool
  unfolding challenge
  check_point sig prefix_hash pub_key none = false
  check_point sig prefix_hash pub_key (some x_point) =
      curve.is_valid_point x_point && (challenge prefix_hash pub_key x_point == sig.c)

  unfoldable pub check_signature : Signature → Bytes → ℕ → Bool
  unfolding check_point
  check_signature sig prefix_hash pub_key =
      let (x_point, ok) = curve.base_noclamp sig.r in
      if not ok then false else elim (curve.noclamp sig.c pub_key) [
        | none ↦ false
        | some point ↦ check_point sig prefix_hash pub_key (curve.add x_point point)
      ]

-- The bytes of the struct.
unfoldable pub signature_bytes : Signature → Bytes
signature_bytes sig = bytes_of sig.c ++ bytes_of sig.r

-- `none` is an exception.
unfoldable pub from_base64 : Codec → Bytes → Option Signature
from_base64 codec signature_b64 =
    if not (codec.is_base64 signature_b64)
    then none
    else if not (
        length signature_b64 == 86
        || (length signature_b64 == 88 && drop 86 signature_b64 == codes "=="))
    then none
    else (let sig = codec.from_base64 signature_b64 in
        some (record { c = from_le (take 32 sig); r = from_le (drop 32 sig) }))
