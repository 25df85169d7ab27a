-- ===== src/Channel.antt =====
-- crypto/src/channel_encryption.cpp: class ChannelEncryption. The primitives of libsodium and OpenSSL
-- are parameters: EVP_EncryptInit_ex to EVP_CTRL_GCM_GET_TAG are one function, and so are the calls of a
-- decryption and of a hash. Random bytes are an argument.
pub mod RoundTrip
use beldex_storage_server.Prelude.{
  ℕ, ◌+◌, ◌-◌, ◌≡◌, ◌<◌, ◌≤◌, byte_range, Bool, true, false, not, ◌||◌, Option, none, some, List,
  [], ◌∷◌, ◌++◌, ◌==◌, nat_eq, bytes_eq, Bytes, ltb, length, take, drop, codes, if◌then◌else◌,
}
use beldex_storage_server.Keys.{X25519Pubkey}
use beldex_storage_server.Keys.Coding.{view}
use beldex_storage_server.Onion.{EncryptType, aes_cbc, aes_gcm, xchacha20, ◌>>=◌}

-- EVP_aes_256_cbc and EVP_aes_256_gcm
pub data Cipher : Type 0 where
  evp_aes_256_cbc evp_aes_256_gcm : Cipher

-- EVP_CIPHER_iv_length
abbrev pub iv_length : Cipher → ℕ
iv_length evp_aes_256_cbc = 16
iv_length evp_aes_256_gcm = 12

-- The length of the tag that the callers pass.
abbrev pub taglen : Cipher → ℕ
taglen evp_aes_256_cbc = 0
taglen evp_aes_256_gcm = 16

-- crypto_aead_xchacha20poly1305_ietf_NPUBBYTES and ABYTES
abbrev pub npubbytes : ℕ
npubbytes = 24

abbrev pub abytes : ℕ
abytes = 16

-- `none` is a call that reports failure. A ciphertext comes with its tag, which is empty for a length
-- of 0; the laws are what the documentation promises: the Diffie-Hellman secret is shared, decryption
-- inverts encryption under the same key and iv, and the sizes: a ciphertext is no shorter than its text.
pub record Primitives : Type 0 where
  pub scalarmult_base : ℕ → X25519Pubkey
  pub scalarmult : ℕ → X25519Pubkey → Option Bytes
  pub hmacsha256 : Bytes → Bytes → Bytes
  pub generichash : List Bytes → Bytes
  pub evp_encrypt : Cipher → Bytes → Bytes → Bytes → Option (Bytes × Bytes)
  pub evp_decrypt : Cipher → Bytes → Bytes → Bytes → Bytes → Option Bytes
  pub aead_encrypt : Bytes → Bytes → Bytes → Bytes
  pub aead_decrypt : Bytes → Bytes → Bytes → Option Bytes
  pub scalarmult_base-< : (a : ℕ) → scalarmult_base a < byte_range 32
  pub scalarmult_comm :
      (a b : ℕ) → scalarmult a (scalarmult_base b) ≡ scalarmult b (scalarmult_base a)
  pub evp_decrypt-evp_encrypt :
      (c : Cipher) (key iv plaintext ciphertext tag : Bytes)
      → evp_encrypt c key iv plaintext ≡ some (ciphertext, tag)
      → evp_decrypt c key iv ciphertext tag ≡ some plaintext
  pub length-evp_tag :
      (c : Cipher) (key iv plaintext ciphertext tag : Bytes)
      → evp_encrypt c key iv plaintext ≡ some (ciphertext, tag)
      → length tag ≡ taglen c
  pub length-evp_ciphertext :
      (c : Cipher) (key iv plaintext ciphertext tag : Bytes)
      → evp_encrypt c key iv plaintext ≡ some (ciphertext, tag)
      → length plaintext ≤ length ciphertext
  pub aead_decrypt-aead_encrypt :
      (nonce key plaintext : Bytes)
      → aead_decrypt nonce key (aead_encrypt nonce key plaintext) ≡ some plaintext
  pub length-aead_encrypt :
      (nonce key plaintext : Bytes)
      → length (aead_encrypt nonce key plaintext) ≡ length plaintext + abytes

-- randombytes_buf: so many random bytes.
pub record Random : Type 0 where
  pub buf : ℕ → Bytes
  pub length-buf : (n : ℕ) → length (buf n) ≡ n

-- The result of a decryption: a text, an exception, or an iv that is read past the end of the input.
pub data Decrypted : Type 0 where
  plain : Bytes → Decrypted
  threw undefined : Decrypted

pub record ChannelEncryption : Type 0 where
  pub private_key : ℕ
  pub public_key : X25519Pubkey
  pub server : Bool

unfoldable pub parse_enc_type : Bytes → Option EncryptType
parse_enc_type enc_type =
    if enc_type == codes "xchacha20" || enc_type == codes "xchacha20-poly1305"
    then some xchacha20
    else if enc_type == codes "aes-gcm" || enc_type == codes "gcm"
    then some aes_gcm
    else if enc_type == codes "aes-cbc" || enc_type == codes "cbc"
    then some aes_cbc
    else none

abbrev pub enc_type_text : EncryptType → Bytes
enc_type_text xchacha20 = codes "xchacha20"
enc_type_text aes_gcm = codes "aes-gcm"
enc_type_text aes_cbc = codes "aes-cbc"

module _ (prim : Primitives) where
  unfoldable pub derive_symmetric_key : ℕ → X25519Pubkey → Option Bytes
  derive_symmetric_key seckey pubkey =
      prim.scalarmult seckey pubkey >>= λ key. some (prim.hmacsha256 (codes "BELDEX") key)

  -- calculate_shared_secret for aes-cbc, derive_symmetric_key for aes-gcm.
  unfoldable pub cipher_key : Cipher → ℕ → X25519Pubkey → Option Bytes
  unfolding derive_symmetric_key
  cipher_key evp_aes_256_cbc seckey pubkey = prim.scalarmult seckey pubkey
  cipher_key evp_aes_256_gcm seckey pubkey = derive_symmetric_key seckey pubkey

  unfoldable pub encrypt_openssl : Cipher → Random → Bytes → Bytes → Option Bytes
  encrypt_openssl cipher random plaintext key =
      let iv = random.buf (iv_length cipher) in
      prim.evp_encrypt cipher key iv plaintext >>= λ sealed. some (iv ++ (sealed.0 ++ sealed.1))

  abbrev pub opened : Option Bytes → Decrypted
  opened none = threw
  opened (some plaintext) = plain plaintext

  unfoldable pub decrypt_openssl : Cipher → Bytes → Bytes → Decrypted
  decrypt_openssl cipher ciphertext key =
      let iv = take (iv_length cipher) ciphertext in
      let rest = drop (iv_length cipher) ciphertext in
      if ltb (length rest) (taglen cipher)
      then threw
      else if ltb (length iv) (iv_length cipher)
      then undefined
      else opened (
          prim.evp_decrypt cipher key iv (take (length rest - taglen cipher) rest)
            (drop (length rest - taglen cipher) rest))

  -- The hash of the secret and of the two public keys, the client's first.
  unfoldable pub xchacha20_shared_key : X25519Pubkey → ℕ → X25519Pubkey → Bool → Option Bytes
  xchacha20_shared_key local_pub local_sec remote_pub local_first =
      prim.scalarmult local_sec remote_pub >>= λ secret. some (
        prim.generichash (
          secret
          ∷ view (if local_first then local_pub else remote_pub)
          ∷ view (if local_first then remote_pub else local_pub)
          ∷ []))

  unfoldable pub encrypt_xchacha20 :
      ChannelEncryption → Random → Bytes → X25519Pubkey → Option Bytes
  encrypt_xchacha20 e random plaintext pubkey =
      let nonce = random.buf npubbytes in
      xchacha20_shared_key e.public_key e.private_key pubkey (not e.server) >>= λ key.
      some (nonce ++ prim.aead_encrypt nonce key plaintext)

  -- The nonce has the first `n` bytes.
  unfoldable pub open_aead : ℕ → Bytes → Option Bytes → Decrypted
  open_aead n ciphertext shared =
      if ltb (length (drop n ciphertext)) abytes then threw else elim shared [
        | none ↦ threw
        | some key ↦ opened (prim.aead_decrypt (take n ciphertext) key (drop n ciphertext))
      ]

  unfoldable pub decrypt_xchacha20 : ChannelEncryption → Bytes → X25519Pubkey → Decrypted
  unfolding open_aead
  decrypt_xchacha20 e ciphertext pubkey =
      open_aead npubbytes ciphertext
        (xchacha20_shared_key e.public_key e.private_key pubkey (not e.server))

  unfoldable pub encrypt_evp :
      Cipher → ChannelEncryption → Random → Bytes → X25519Pubkey → Option Bytes
  encrypt_evp cipher e random plaintext pubkey =
      cipher_key cipher e.private_key pubkey >>= encrypt_openssl cipher random plaintext

  unfoldable pub decrypt_evp : Cipher → ChannelEncryption → Bytes → X25519Pubkey → Decrypted
  decrypt_evp cipher e ciphertext pubkey = elim (cipher_key cipher e.private_key pubkey) [
    | none ↦ threw
    | some key ↦ decrypt_openssl cipher ciphertext key
  ]

  -- `none` is an exception.
  unfoldable pub encrypt :
      ChannelEncryption → EncryptType → Random → Bytes → X25519Pubkey → Option Bytes
  encrypt e xchacha20 random plaintext pubkey = encrypt_xchacha20 e random plaintext pubkey
  encrypt e aes_gcm random plaintext pubkey = encrypt_evp evp_aes_256_gcm e random plaintext pubkey
  encrypt e aes_cbc random plaintext pubkey = encrypt_evp evp_aes_256_cbc e random plaintext pubkey

  unfoldable pub decrypt : ChannelEncryption → EncryptType → Bytes → X25519Pubkey → Decrypted
  decrypt e xchacha20 ciphertext pubkey = decrypt_xchacha20 e ciphertext pubkey
  decrypt e aes_gcm ciphertext pubkey = decrypt_evp evp_aes_256_gcm e ciphertext pubkey
  decrypt e aes_cbc ciphertext pubkey = decrypt_evp evp_aes_256_cbc e ciphertext pubkey
