-- ===== src/Common.antt =====
-- common/include/beldex_common.h and common/src/beldex_common.cpp: the public key of a user and the
-- message. Hex coding is libbmq's, not in the repository: it is the interface `Hex`. The global
-- is_mainnet is an argument. The network -1 of an invalid key is `none`. A time point of the system
-- clock is its count of milliseconds since the epoch.
pub mod Pubkeys
use beldex_storage_server.Prelude.{
  ℕ, ◌+◌, ◌*◌, ◌-◌, ◌≡◌, ◌↔◌, Bool, true, false, not, ◌&&◌, Option, none, some, List, [], ◌∷◌, ◌++◌,
  arith, Eq, ◌==◌, nat_eq, bytes_eq, Bytes, bytes_beq_iff, length, take, drop, if◌then◌else◌,
  bytes_beq,
}

abbrev pub user_pubkey_size_bytes : ℕ
user_pubkey_size_bytes = 33

abbrev pub user_pubkey_size_hex : ℕ
user_pubkey_size_hex = user_pubkey_size_bytes * 2

pub record UserPubkey : Type 0 where
  pub network : Option ℕ
  pub pubkey : Bytes

abbrev pub invalid_pubkey : UserPubkey
invalid_pubkey = record { network = none; pubkey = [] }

-- operator bool
abbrev pub is_valid : UserPubkey → Bool
is_valid pk = elim pk.pubkey [ [] ↦ false | b ∷ bs ↦ true ]

abbrev pub network_beq : Option ℕ → Option ℕ → Bool
network_beq none none = true
network_beq none (some b) = false
network_beq (some a) none = false
network_beq (some a) (some b) = a == b

-- operator==
unfoldable pub pubkey_beq : UserPubkey → UserPubkey → Bool
pubkey_beq a b = network_beq a.network b.network && bytes_beq a.pubkey b.pubkey

pub pubkey_beq_iff : (a b : UserPubkey) → (pubkey_beq a b ≡ true) ↔ (a ≡ b)
unfolding pubkey_beq
pubkey_beq_iff a b = (
  λ h. ground (arith, bytes_beq_iff a.pubkey b.pubkey),
  λ h. ground (arith, bytes_beq_iff a.pubkey b.pubkey),
)

instance abbrev pub pubkey_eq : Eq UserPubkey
pubkey_eq = record { beq = pubkey_beq; beq_iff = pubkey_beq_iff }

-- bmq::is_hex, from_hex and to_hex, with what their documentation says of them.
pub record Hex : Type 0 where
  pub is_hex : Bytes → Bool
  pub from_hex : Bytes → Bytes
  pub to_hex : Bytes → Bytes
  pub is_hex-to_hex : (b : Bytes) → is_hex (to_hex b) ≡ true
  pub length-to_hex : (b : Bytes) → length (to_hex b) ≡ 2 * length b
  pub from_hex-to_hex : (b : Bytes) → from_hex (to_hex b) ≡ b
  pub to_hex-append : (a b : Bytes) → to_hex (a ++ b) ≡ to_hex a ++ to_hex b

-- The first byte, read as a uint8_t, of bytes that are not empty.
abbrev pub first_byte : Bytes → ℕ
first_byte [] = 0
first_byte (b ∷ bs) = b

-- The network as a uint8_t. The -1 of an invalid key becomes 255, and is asked for only where the
-- key is valid.
unfoldable pub netid : UserPubkey → ℕ
netid pk = elim pk.network [ none ↦ 255 | some n ↦ n ]

module _ (hex : Hex) (is_mainnet : Bool) where
  unfoldable pub load : Bytes → UserPubkey
  load pk =
      if length pk == user_pubkey_size_hex && hex.is_hex pk
      then record {
        network = some (first_byte (hex.from_hex (take 2 pk)));
        pubkey = hex.from_hex (drop 2 pk);
      }
      else if length pk == user_pubkey_size_bytes
      then record { network = some (first_byte pk); pubkey = drop 1 pk }
      else if not is_mainnet && (length pk == user_pubkey_size_hex - 2 && hex.is_hex pk)
      then record { network = some 5; pubkey = hex.from_hex pk }
      else if not is_mainnet && length pk == user_pubkey_size_bytes - 1
      then record { network = some 5; pubkey = pk }
      else invalid_pubkey

  unfoldable pub prefixed_hex : UserPubkey → Bytes
  unfolding netid
  prefixed_hex pk =
      if not (is_valid pk)
      then []
      else ((if not (netid pk == 0 && not is_mainnet) then hex.to_hex (netid pk ∷ []) else [])
          ++ hex.to_hex pk.pubkey)

-- user_pubkey_t::hex
unfoldable pub hex_of : Hex → UserPubkey → Bytes
hex_of hex pk = hex.to_hex pk.pubkey

unfoldable pub prefixed_raw : UserPubkey → Bytes
unfolding netid
prefixed_raw pk = if not (is_valid pk) then [] else netid pk ∷ pk.pubkey

pub record Message : Type 0 where
  pub pubkey : UserPubkey
  pub hash : Bytes
  pub timestamp : ℕ
  pub expiry : ℕ
  pub payload : Bytes
