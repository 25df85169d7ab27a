-- ===== src/Keys/Coding.antt =====
-- crypto/src/beldexd_key.cpp and key_base of crypto/include/beldexd_key.h: the bytes of a key and the
-- codings in which a key is accepted. Base32z is libbmq's.
pub mod Parsed
use beldex_storage_server.Prelude.{
  ℕ, ◌+◌, ◌*◌, ◌≡◌, Bool, true, false, not, ◌&&◌, ◌||◌, Option, none, some, [], ◌∷◌, ◌==◌, nat_eq,
  Bytes, length, be_bytes, from_be, if◌then◌else◌,
}
use beldex_storage_server.Common.{Hex}
use beldex_storage_server.Serialization.{Codec}

-- bmq::is_base32z, to_base32z and from_base32z, with what their documentation says of them.
pub record Base32z : Type 0 where
  pub is_base32z : Bytes → Bool
  pub to_base32z : Bytes → Bytes
  pub from_base32z : Bytes → Bytes
  pub is_base32z-to_base32z : (b : Bytes) → is_base32z (to_base32z b) ≡ true
  pub from_base32z-to_base32z : (b : Bytes) → from_base32z (to_base32z b) ≡ b
  pub length-to_base32z : (b : Bytes) → length b ≡ 32 → length (to_base32z b) ≡ 52

-- key_base::view
unfoldable pub view : ℕ → Bytes
view key = be_bytes 32 key

-- The key of 32 bytes.
unfoldable pub key_of : Bytes → ℕ
key_of b = from_be 0 b

-- `none` is the exception.
unfoldable pub load_from_bytes : Bytes → Option ℕ
load_from_bytes b = if length b == 32 then some (key_of b) else none

abbrev pub get_last : Bytes → ℕ → ℕ
get_last [] default = default
get_last (b ∷ bs) default = get_last bs b

module _ (hex : Hex) where
  unfoldable pub hex_of : ℕ → Bytes
  hex_of key = hex.to_hex (view key)

  unfoldable pub load_from_hex : Bytes → Option ℕ
  load_from_hex b =
      if not (hex.is_hex b)
      then none
      else if not (length b == 64)
      then none
      else some (key_of (hex.from_hex b))

  -- The key 0 stands for no key.
  unfoldable pub parse_pubkey : Codec → Base32z → Bytes → ℕ
  parse_pubkey codec base32z pubkey_in =
      if length pubkey_in == 32
      then key_of pubkey_in
      else if length pubkey_in == 64 && hex.is_hex pubkey_in
      then key_of (hex.from_hex pubkey_in)
      else if (length pubkey_in == 43 || (length pubkey_in == 44 && get_last pubkey_in 0 == 61))
          && codec.is_base64 pubkey_in
      then key_of (codec.from_base64 pubkey_in)
      else if length pubkey_in == 52 && base32z.is_base32z pubkey_in
      then key_of (base32z.from_base32z pubkey_in)
      else 0
