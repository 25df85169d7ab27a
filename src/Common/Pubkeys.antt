-- ===== src/Common/Pubkeys.antt =====
-- Round trips of the user's public key through its two printed forms.
use beldex_storage_server.Prelude.{
  ℕ, ◌<◌, ◌⊎◌, length-append, ◌≡◌, ◌≢◌, refl, ◌&&◌, Bool, true, false, some, [], ◌∷◌, ◌++◌, arith,
  ◌==◌, nat_eq, length, take, drop, Bytes, not, take-append, drop-append,
}
use beldex_storage_server.Common.{
  UserPubkey, Hex, load, prefixed_hex, prefixed_raw, is_valid, netid,
}

-- A key as the network uses it: a network byte and 32 bytes.
pub record IsKey (pk : UserPubkey) (n : ℕ) : Type 0 where
  pub network : pk.network ≡ some n
  pub size : length pk.pubkey ≡ 32

-- Bytes of a positive length are not empty.
nonempty : (b : Bytes) → 0 < length b → elim b [ [] ↦ false | x ∷ xs ↦ true ] ≡ true
nonempty [] h = absurd (omega arith)
nonempty (x ∷ xs) h = refl

pub is_valid-IsKey : (pk : UserPubkey) (n : ℕ) → IsKey pk n → is_valid pk ≡ true
is_valid-IsKey pk n k = nonempty pk.pubkey (omega (arith, k.size))

netid-IsKey : (pk : UserPubkey) (n : ℕ) → IsKey pk n → netid pk ≡ n
unfolding netid
netid-IsKey pk n k = ground (arith, k.network)

-- The raw form of a key reads back as the key, on every network.
pub load-prefixed_raw :
    (hex : Hex) (is_mainnet : Bool) (pk : UserPubkey) (n : ℕ)
    → IsKey pk n
    → load hex is_mainnet (prefixed_raw pk) ≡ pk
unfolding load prefixed_raw
load-prefixed_raw hex is_mainnet pk n k =
    rw (is_valid-IsKey pk n k) (ground (arith, k.network, k.size))

module _ (hex : Hex) where
  -- What the hex form with its prefix holds.
  module _ (pk : UserPubkey) (n : ℕ) (k : IsKey pk n) where
    text : Bytes
    text = hex.to_hex (n ∷ []) ++ hex.to_hex pk.pubkey

    length-text : length text ≡ 66
    unfolding text
    length-text = omega (
      arith,
      length-append (hex.to_hex (n ∷ [])) (hex.to_hex pk.pubkey),
      hex.length-to_hex (n ∷ []),
      hex.length-to_hex pk.pubkey,
      k.size,
    )

    is_hex-text : hex.is_hex text ≡ true
    unfolding text
    is_hex-text = rw (← hex.to_hex-append (n ∷ []) pk.pubkey) (hex.is_hex-to_hex (n ∷ pk.pubkey))

    load-text : (is_mainnet : Bool) → load hex is_mainnet text ≡ pk
    unfolding load
    load-text is_mainnet =
        let prefix : take 2 text ≡ hex.to_hex (n ∷ []) =
          unfold text in take-append _ _ 2 (hex.length-to_hex (n ∷ [])) in
        let body : drop 2 text ≡ hex.to_hex pk.pubkey =
          unfold text in drop-append _ _ 2 (hex.length-to_hex (n ∷ [])) in
        rw
          (
            length-text,
            is_hex-text,
            prefix,
            body,
            hex.from_hex-to_hex (n ∷ []),
            hex.from_hex-to_hex pk.pubkey,
          )
          (ground (arith, k.network))

  -- The hex form of a key reads back as the key, but for network 0 on the test network.
  pub load-prefixed_hex :
      (is_mainnet : Bool) (pk : UserPubkey) (n : ℕ)
      → IsKey pk n
      → (n ≢ 0) ⊎ (is_mainnet ≡ true)
      → load hex is_mainnet (prefixed_hex hex is_mainnet pk) ≡ pk
  unfolding prefixed_hex text
  load-prefixed_hex is_mainnet pk n k h =
      let shown : not (n == 0 && not is_mainnet) ≡ true = ground arith in
      rw (is_valid-IsKey pk n k, netid-IsKey pk n k, shown) (load-text pk n k is_mainnet)

  -- On the main network every key is printed with its network byte, as 66 characters.
  pub prefixed_hex-mainnet :
      (pk : UserPubkey) (n : ℕ)
      → IsKey pk n
      → (prefixed_hex hex true pk ≡ hex.to_hex (n ∷ []) ++ hex.to_hex pk.pubkey)
        × (length (prefixed_hex hex true pk) ≡ 66)
  unfolding prefixed_hex text
  prefixed_hex-mainnet pk n k =
      let shown : not (n == 0 && not true) ≡ true = ground arith in
      rw (is_valid-IsKey pk n k, netid-IsKey pk n k, shown) (refl, length-text pk n k)

  -- On the test network a key of network 0 is printed with no prefix, and reads back under
  -- network 5.
  load-prefixed_hex_testnet :
      (pk : UserPubkey)
      → IsKey pk 0
      → load hex false (prefixed_hex hex false pk) ≡ record pk { network = some 5 }
  unfolding prefixed_hex load
  load-prefixed_hex_testnet pk k = rw (
    is_valid-IsKey pk 0 k,
    netid-IsKey pk 0 k,
    hex.length-to_hex pk.pubkey,
    k.size,
    hex.is_hex-to_hex pk.pubkey,
    hex.from_hex-to_hex pk.pubkey,
  )
