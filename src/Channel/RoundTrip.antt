-- ===== src/Channel/RoundTrip.antt =====
-- What one end of a channel of crypto/src/channel_encryption.cpp encrypts, the other decrypts.
use beldex_storage_server.Prelude.{
  ◌≤◌, true, false, codes, sym, ◌∙◌, ap, ◌-◌, ◌≡◌, refl, false, Option, none, some, ◌++◌, Bytes,
  bytes_beq, ltb, length, length-append, take-append, drop-append, arith,
}
use beldex_storage_server.Onion.{EncryptType, aes_cbc, aes_gcm, xchacha20, ◌>>=◌}
use beldex_storage_server.Channel.{
  open_aead, evp_aes_256_cbc, abytes, Bool, evp_aes_256_gcm, npubbytes, ℕ, decrypt,
  decrypt_xchacha20, decrypt_evp, X25519Pubkey, not, encrypt, encrypt_xchacha20, encrypt_evp,
  xchacha20_shared_key, cipher_key, ChannelEncryption, Cipher, iv_length, taglen, Primitives,
  Random, plain, parse_enc_type, enc_type_text, encrypt_openssl, decrypt_openssl,
}

pub parse_enc_type-enc_type_text :
    (type : EncryptType) → parse_enc_type (enc_type_text type) ≡ some type
unfolding parse_enc_type bytes_beq
parse_enc_type-enc_type_text aes_cbc = refl
parse_enc_type-enc_type_text aes_gcm = refl
parse_enc_type-enc_type_text xchacha20 = refl

pub some->>= :
    {A B : Type 0} (o : Option A) (f : A → Option B) (b : B)
    → (o >>= f) ≡ some b
    → (a : A) × (o ≡ some a) × (f a ≡ some b)
some->>= none f b h = cc
some->>= (some a) f b h = (a, refl, h)

module _ (prim : Primitives) where
  decrypt_openssl-encrypt_openssl :
      (cipher : Cipher) (random : Random) (plaintext key sealed : Bytes)
      → encrypt_openssl prim cipher random plaintext key ≡ some sealed
      → decrypt_openssl prim cipher sealed key ≡ plain plaintext
  unfolding encrypt_openssl decrypt_openssl
  decrypt_openssl-encrypt_openssl cipher random plaintext key sealed h =
      let iv = random.buf (iv_length cipher) in
      let ((ciphertext, tag), e, q) =
        some->>= (prim.evp_encrypt cipher key iv plaintext) _ sealed h in
      let same : iv ++ (ciphertext ++ tag) ≡ sealed = cc in
      let size = random.length-buf (iv_length cipher) in
      let tags = prim.length-evp_tag cipher key iv plaintext ciphertext tag e in
      let whole : length (ciphertext ++ tag) - taglen cipher ≡ length ciphertext =
        omega (arith, length-append ciphertext tag) in
      let long : ltb (length (ciphertext ++ tag)) (taglen cipher) ≡ false =
        ground (arith, length-append ciphertext tag) in
      let full : ltb (length iv) (iv_length cipher) ≡ false = ground arith in
      rw
        (
          ← same,
          take-append iv (ciphertext ++ tag) (iv_length cipher) size,
          drop-append iv (ciphertext ++ tag) (iv_length cipher) size,
          long,
          full,
          whole,
          take-append ciphertext tag (length ciphertext) refl,
          drop-append ciphertext tag (length ciphertext) refl,
          prim.evp_decrypt-evp_encrypt cipher key iv plaintext ciphertext tag e,
        )
        refl

  -- Two ends of a channel: one of a client and one of a server, each with the public key of its own.
  pub record AreEnds (a b : ChannelEncryption) : Type 0 where
    pub first : a.public_key ≡ prim.scalarmult_base a.private_key
    pub second : b.public_key ≡ prim.scalarmult_base b.private_key
    pub roles : b.server ≡ not a.server

  shared_secret :
      (a b : ChannelEncryption)
      → AreEnds a b
      → prim.scalarmult b.private_key a.public_key ≡ prim.scalarmult a.private_key b.public_key
  shared_secret a b ends =
      ap (prim.scalarmult b.private_key) ends.first
      ∙ prim.scalarmult_comm b.private_key a.private_key
      ∙ ap (prim.scalarmult a.private_key) (sym ends.second)

  cipher_key_comm :
      (cipher : Cipher) (a b : ChannelEncryption)
      → AreEnds a b
      → cipher_key prim cipher b.private_key a.public_key
        ≡ cipher_key prim cipher a.private_key b.public_key
  unfolding cipher_key
  cipher_key_comm evp_aes_256_cbc a b ends = shared_secret a b ends
  cipher_key_comm evp_aes_256_gcm a b ends =
      ap (λ (o : Option Bytes). o >>= λ key. some (prim.hmacsha256 (codes "BELDEX") key))
        (shared_secret a b ends)

  xchacha20_shared_key_comm :
      (p q : X25519Pubkey) (s t : ℕ) (role : Bool)
      → prim.scalarmult t p ≡ prim.scalarmult s q
      → xchacha20_shared_key prim q t p (not (not role))
        ≡ xchacha20_shared_key prim p s q (not role)
  unfolding xchacha20_shared_key
  xchacha20_shared_key_comm p q s t true h = rw h refl
  xchacha20_shared_key_comm p q s t false h = rw h refl

  decrypt_evp-encrypt_evp :
      (cipher : Cipher) (a b : ChannelEncryption) (random : Random) (plaintext sealed : Bytes)
      → AreEnds a b
      → encrypt_evp prim cipher a random plaintext b.public_key ≡ some sealed
      → decrypt_evp prim cipher b sealed a.public_key ≡ plain plaintext
  unfolding encrypt_evp decrypt_evp
  decrypt_evp-encrypt_evp cipher a b random plaintext sealed ends h =
      let (key, e, q) = some->>= (cipher_key prim cipher a.private_key b.public_key) _ sealed h in
      let same = cipher_key_comm cipher a b ends ∙ e in
      rw (same, decrypt_evp) (decrypt_openssl-encrypt_openssl cipher random plaintext key sealed q)

  open_aead-encrypt :
      (n : ℕ) (nonce key plaintext : Bytes)
      → length nonce ≡ n
      → open_aead prim n (nonce ++ prim.aead_encrypt nonce key plaintext) (some key)
        ≡ plain plaintext
  unfolding open_aead
  open_aead-encrypt n nonce key plaintext size =
      let long : ltb (length (prim.aead_encrypt nonce key plaintext)) abytes ≡ false =
        ground (arith, prim.length-aead_encrypt nonce key plaintext) in
      rw
        (
          take-append nonce (prim.aead_encrypt nonce key plaintext) n size,
          drop-append nonce (prim.aead_encrypt nonce key plaintext) n size,
          long,
          prim.aead_decrypt-aead_encrypt nonce key plaintext,
        )
        refl

  decrypt-encrypt_xchacha20 :
      (a b : ChannelEncryption) (random : Random) (plaintext sealed : Bytes)
      → AreEnds a b
      → encrypt_xchacha20 prim a random plaintext b.public_key ≡ some sealed
      → decrypt_xchacha20 prim b sealed a.public_key ≡ plain plaintext
  unfolding encrypt_xchacha20 decrypt_xchacha20
  decrypt-encrypt_xchacha20 a b random plaintext sealed ends h =
      let nonce = random.buf npubbytes in
      let (key, e, q) =
        some->>= (xchacha20_shared_key prim a.public_key a.private_key b.public_key (not a.server))
          _ sealed h in
      let same : nonce ++ prim.aead_encrypt nonce key plaintext ≡ sealed = cc in
      let k : xchacha20_shared_key prim b.public_key b.private_key a.public_key (not b.server)
          ≡ some key =
        ap (λ (r : Bool). xchacha20_shared_key prim b.public_key b.private_key a.public_key (not r))
          ends.roles
        ∙ xchacha20_shared_key_comm a.public_key b.public_key a.private_key b.private_key a.server
            (shared_secret a b ends)
        ∙ e in
      let o = open_aead-encrypt npubbytes nonce key plaintext (random.length-buf npubbytes) in
      ap (open_aead prim npubbytes sealed) k
      ∙ ap (λ (c : Bytes). open_aead prim npubbytes c (some key)) (sym same)
      ∙ o

  -- What one end of a channel encrypts, in any of the three ways, the other end decrypts to the same
  -- text, whether the client sends or the server answers.
  pub decrypt-encrypt :
      (a b : ChannelEncryption) (type : EncryptType) (random : Random) (plaintext sealed : Bytes)
      → AreEnds a b
      → encrypt prim a type random plaintext b.public_key ≡ some sealed
      → decrypt prim b type sealed a.public_key ≡ plain plaintext
  unfolding encrypt decrypt
  decrypt-encrypt a b xchacha20 random plaintext sealed ends h =
      decrypt-encrypt_xchacha20 a b random plaintext sealed ends h
  decrypt-encrypt a b aes_gcm random plaintext sealed ends h =
      decrypt_evp-encrypt_evp evp_aes_256_gcm a b random plaintext sealed ends h
  decrypt-encrypt a b aes_cbc random plaintext sealed ends h =
      decrypt_evp-encrypt_evp evp_aes_256_cbc a b random plaintext sealed ends h

  length-encrypt_evp :
      (cipher : Cipher) (a : ChannelEncryption) (random : Random) (plaintext sealed : Bytes)
      (key : X25519Pubkey)
      → encrypt_evp prim cipher a random plaintext key ≡ some sealed
      → length plaintext ≤ length sealed
  unfolding encrypt_evp encrypt_openssl
  length-encrypt_evp cipher a random plaintext sealed key h =
      let iv = random.buf (iv_length cipher) in
      let (k, e, q) = some->>= (cipher_key prim cipher a.private_key key) _ sealed h in
      let ((c, tag), e2, q2) = some->>= (prim.evp_encrypt cipher k iv plaintext) _ sealed q in
      let same : iv ++ (c ++ tag) ≡ sealed = cc in
      let size = prim.length-evp_ciphertext cipher k iv plaintext c tag e2 in
      rw (← same) (omega (arith, length-append iv (c ++ tag), length-append c tag))

  length-encrypt_xchacha20 :
      (a : ChannelEncryption) (random : Random) (plaintext sealed : Bytes) (key : X25519Pubkey)
      → encrypt_xchacha20 prim a random plaintext key ≡ some sealed
      → length plaintext ≤ length sealed
  unfolding encrypt_xchacha20
  length-encrypt_xchacha20 a random plaintext sealed key h =
      let nonce = random.buf npubbytes in
      let (k, e, q) =
        some->>= (xchacha20_shared_key prim a.public_key a.private_key key (not a.server)) _ sealed
          h in
      let same : nonce ++ prim.aead_encrypt nonce k plaintext ≡ sealed = cc in
      let size = prim.length-aead_encrypt nonce k plaintext in
      rw (← same) (omega (arith, length-append nonce (prim.aead_encrypt nonce k plaintext)))

  -- No text is longer than what it is encrypted to.
  pub length-encrypt :
      (a : ChannelEncryption) (type : EncryptType) (random : Random) (plaintext sealed : Bytes)
      (key : X25519Pubkey)
      → encrypt prim a type random plaintext key ≡ some sealed
      → length plaintext ≤ length sealed
  unfolding encrypt
  length-encrypt a xchacha20 random plaintext sealed key h =
      length-encrypt_xchacha20 a random plaintext sealed key h
  length-encrypt a aes_gcm random plaintext sealed key h =
      length-encrypt_evp evp_aes_256_gcm a random plaintext sealed key h
  length-encrypt a aes_cbc random plaintext sealed key h =
      length-encrypt_evp evp_aes_256_cbc a random plaintext sealed key h
