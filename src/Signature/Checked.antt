-- ===== src/Signature/Checked.antt =====
-- The signatures of crypto/src/signature.cpp pass their check.
use beldex_storage_server.Prelude.{
  ◌∙◌, ap, sym, take, ◌++◌, from_le, ℕ, ◌≡◌, ◌<◌, refl, true, some, Bytes, codes, length, drop,
  byte_range, arith, bytes_beq, le_bytes, take-append, drop-append, length-le_bytes,
  from_le-le_bytes,
}
use beldex_storage_server.Serialization.{Codec}
use beldex_storage_server.Signature.{
  Curve, Signature, Keypair, nonce_of, challenge, generate_signature, check_point, check_signature,
  signature_bytes, from_base64,
}

module _ (curve : Curve) where
  -- A signature that a key pair makes of a hash passes the check for the pair's public key, if the
  -- public key belongs to the secret one, neither multiplication meets a value that libsodium refuses,
  -- and the point of the nonce is valid.
  pub check_signature-generate_signature :
      (prefix_hash : Bytes) (keys : Keypair) (point : ℕ)
      → keys.pubkey ≡ (curve.base_noclamp keys.seckey).0
      → curve.noclamp (generate_signature curve prefix_hash keys).c keys.pubkey ≡ some point
      → (curve.base_noclamp (generate_signature curve prefix_hash keys).r).1 ≡ true
      → curve.is_valid_point (curve.base_noclamp (nonce_of curve prefix_hash keys)).0 ≡ true
      → check_signature curve (generate_signature curve prefix_hash keys) prefix_hash keys.pubkey
        ≡ true
  unfolding generate_signature check_signature check_point
  check_signature-generate_signature prefix_hash keys point pair multiplied based valid =
      let x = nonce_of curve prefix_hash keys in
      let c = challenge curve prefix_hash keys.pubkey (curve.base_noclamp x).0 in
      let sum =
        curve.add-noclamp keys.seckey c x point (ap (curve.noclamp c) (sym pair) ∙ multiplied) based
          valid in
      rw (based, multiplied, sum, valid) (ground arith)

halves :
    (n x y : ℕ)
    → x < byte_range n
    → y < byte_range n
    → (from_le (take n (le_bytes n x ++ le_bytes n y)) ≡ x)
      × (from_le (drop n (le_bytes n x ++ le_bytes n y)) ≡ y)
halves n x y h k = (
  ap from_le (take-append (le_bytes n x) (le_bytes n y) n (length-le_bytes n x))
      ∙ from_le-le_bytes n x h,
  ap from_le (drop-append (le_bytes n x) (le_bytes n y) n (length-le_bytes n x))
      ∙ from_le-le_bytes n y k,
)

-- A signature is read from the base64 text of its bytes, with the two characters that pad it.
from_base64-signature_bytes :
    (codec : Codec) (sig : Signature)
    → sig.c < byte_range 32
    → sig.r < byte_range 32
    → length (codec.to_base64 (signature_bytes sig)) ≡ 88
    → drop 86 (codec.to_base64 (signature_bytes sig)) ≡ codes "=="
    → from_base64 codec (codec.to_base64 (signature_bytes sig)) ≡ some sig
unfolding from_base64 bytes_beq signature_bytes
from_base64-signature_bytes codec sig c r size padded =
    let (first, second) = halves 32 sig.c sig.r c r in
    rw
      (
        codec.is_base64-to_base64 (signature_bytes sig),
        size,
        padded,
        codec.from_base64-to_base64 (signature_bytes sig),
      )
      (rw (first, second) refl)
