-- ===== src/Keys/Coding/Parsed.antt =====
-- The forms of a key in crypto/src/beldexd_key.cpp that are read back as the key.
use beldex_storage_server.Prelude.{
  ℕ, ◌≡◌, ◌<◌, refl, true, some, length, nat_eq, byte_range, length-be_bytes, from_be-be_bytes,
  arith,
}
use beldex_storage_server.Common.{Hex}
use beldex_storage_server.Serialization.{Codec}
use beldex_storage_server.Keys.Coding.{
  Base32z, view, key_of, load_from_bytes, load_from_hex, hex_of, get_last, parse_pubkey,
}

pub length-view : (key : ℕ) → length (view key) ≡ 32
unfolding view
length-view key = length-be_bytes 32 key

pub key_of-view : (key : ℕ) → key < byte_range 32 → key_of (view key) ≡ key
unfolding view key_of
key_of-view key h = from_be-be_bytes 32 key h

pub load_from_bytes-view : (key : ℕ) → key < byte_range 32 → load_from_bytes (view key) ≡ some key
unfolding load_from_bytes
load_from_bytes-view key h = rw (length-view key, key_of-view key h) refl

module _ (hex : Hex) where
  pub length-hex_of : (key : ℕ) → length (hex_of hex key) ≡ 64
  unfolding hex_of
  length-hex_of key = omega (arith, hex.length-to_hex (view key), length-view key)

  is_hex-hex_of : (key : ℕ) → hex.is_hex (hex_of hex key) ≡ true
  unfolding hex_of
  is_hex-hex_of key = hex.is_hex-to_hex (view key)

  from_hex-hex_of : (key : ℕ) → hex.from_hex (hex_of hex key) ≡ view key
  unfolding hex_of
  from_hex-hex_of key = hex.from_hex-to_hex (view key)

  pub load_from_hex-hex_of :
      (key : ℕ) → key < byte_range 32 → load_from_hex hex (hex_of hex key) ≡ some key
  unfolding load_from_hex
  load_from_hex-hex_of key h =
      rw (length-hex_of key, is_hex-hex_of key, from_hex-hex_of key, key_of-view key h) refl

  module _ (codec : Codec) (base32z : Base32z) where
    -- A key is read back from its bytes, its hex digits, its padded base64 form and its base32z form.
    parse_pubkey_lem :
        (key : ℕ)
        → key < byte_range 32
        → length (codec.to_base64 (view key)) ≡ 44
        → get_last (codec.to_base64 (view key)) 0 ≡ 61
        → (parse_pubkey hex codec base32z (view key) ≡ key)
          × (parse_pubkey hex codec base32z (hex_of hex key) ≡ key)
          × (parse_pubkey hex codec base32z (codec.to_base64 (view key)) ≡ key)
          × (parse_pubkey hex codec base32z (base32z.to_base32z (view key)) ≡ key)
    unfolding parse_pubkey
    parse_pubkey_lem key h size padded = (
      rw (length-view key, key_of-view key h) refl,
      rw (length-hex_of key, is_hex-hex_of key, from_hex-hex_of key, key_of-view key h) refl,
      rw
          (
            size,
            padded,
            codec.is_base64-to_base64 (view key),
            codec.from_base64-to_base64 (view key),
            key_of-view key h,
          )
          refl,
      rw
          (
            base32z.length-to_base32z (view key) (length-view key),
            base32z.is_base32z-to_base32z (view key),
            base32z.from_base32z-to_base32z (view key),
            key_of-view key h,
          )
          refl,
    )
