-- ===== src/Serialization/Size.antt =====
-- The size of the bencoded batches of httpserver/serialization.cpp against its estimate.
use beldex_storage_server.Prelude.{
  ℕ, suc, ◌+◌, ◌^◌, ◌<◌, ◌≤◌, ◌≡◌, ◌≢◌, refl, Bool, true, false, not, ◌&&◌, some, List, [], ◌∷◌,
  ◌++◌, ltb, All, arith, Bytes, length, Bool-cases, inl, inr,
}
use beldex_storage_server.Common.{Hex, Message, prefixed_raw, UserPubkey}
use beldex_storage_server.Common.Pubkeys.{IsKey, is_valid-IsKey}
use beldex_storage_server.Serialization.{
  Item, string, integer, other, Codec, serialization_batch_size, serialize_bt, entry, finish,
  ser_size, is_empty, serialize_messages, serialization_version_bt,
}
use beldex_storage_server.Serialization.Batches.{HasKey}

-- The size of an item in the bt coding, where `digits` is the length of a decimal number.
abbrev pub item_size : (ℕ → ℕ) → Item → ℕ
item_size digits (string b) = digits (length b) + 1 + length b
item_size digits (integer n) = digits n + 2
item_size digits (other raw) = length raw

abbrev pub items_size : (ℕ → ℕ) → List Item → ℕ
items_size digits [] = 0
items_size digits (i ∷ is) = item_size digits i + items_size digits is

abbrev pub lists_size : (ℕ → ℕ) → List (List Item) → ℕ
lists_size digits [] = 0
lists_size digits (l ∷ ls) = 2 + items_size digits l + lists_size digits ls

-- What the description of bencoding says of sizes.
pub record Sized (codec : Codec) : Type 0 where
  pub digits : ℕ → ℕ
  pub digits-le : (n k : ℕ) → n < 10 ^ suc k → digits n ≤ suc k
  pub size : (l : List (List Item)) → length (codec.bt_serializer l) ≡ 2 + lists_size digits l

-- What the estimate assumes: a hash of three digits' length, data of five, and 13-digit times.
pub record Fits (msg : Message) : Type 0 where
  pub key : HasKey msg
  pub hash : length msg.hash < 1000
  pub payload : length msg.payload < 100000
  pub timestamp : msg.timestamp < 10 ^ 13
  pub expiry : msg.expiry < 10 ^ 13

length-prefixed_raw : (pk : UserPubkey) (n : ℕ) → IsKey pk n → length (prefixed_raw pk) ≡ 33
unfolding prefixed_raw
length-prefixed_raw pk n k = rw (is_valid-IsKey pk n k) (omega (arith, k.size))

module _ (hex : Hex) (codec : Codec) (is_mainnet : Bool) (sized : Sized codec) where
  -- The estimate exceeds what a message takes: it counts a version byte for each.
  entry-lt-ser_size :
      (msg : Message) → Fits msg → 2 + items_size sized.digits (entry msg) < ser_size msg
  unfolding entry
  entry-lt-ser_size msg f = omega (
    arith,
    length-prefixed_raw msg.pubkey f.key.0 f.key.1,
    sized.digits-le (length (prefixed_raw msg.pubkey)) 1,
    sized.digits-le (length msg.hash) 2,
    sized.digits-le (length msg.payload) 4,
    sized.digits-le msg.timestamp 12,
    sized.digits-le msg.expiry 12,
    f.hash,
    f.payload,
    f.timestamp,
    f.expiry,
  )

  -- The size of a batch, with a byte more for each message.
  weight : List (List Item) → ℕ
  weight [] = 0
  weight (l ∷ ls) = 3 + items_size sized.digits l + weight ls

  weight-append : (xs ys : List (List Item)) → weight (xs ++ ys) ≡ weight xs + weight ys
  unfolding weight
  weight-append [] ys = omega arith
  weight-append (x ∷ xs) ys = omega (arith, weight-append xs ys)

  lists_size-le-weight : (ls : List (List Item)) → lists_size sized.digits ls ≤ weight ls
  unfolding weight
  lists_size-le-weight [] = omega arith
  lists_size-le-weight (l ∷ ls) = omega (arith, lists_size-le-weight ls)

  finish-le :
      (ls : List (List Item)) (counter : ℕ)
      → 2 + weight ls ≤ counter
      → counter ≤ serialization_batch_size
      → length (finish hex codec is_mainnet ls) ≤ serialization_batch_size
  unfolding finish weight
  finish-le [] counter h k = omega (arith, sized.size [])
  finish-le (l ∷ ls) counter h k = omega (arith, sized.size (l ∷ ls), lists_size-le-weight ls)

  weight-one : (l : List Item) → weight (l ∷ []) ≡ 3 + items_size sized.digits l
  unfolding weight
  weight-one l = omega arith

  nonempty : (ls : List (List Item)) (l : List Item) → is_empty (ls ++ l ∷ []) ≢ true
  nonempty [] l q = cc
  nonempty (x ∷ xs) l q = cc

  room-le :
      (msg : Message) (ls : List (List Item)) (counter : ℕ)
      → Fits msg
      → (is_empty ls ≡ true → counter ≤ 2)
      → (not (is_empty ls) && ltb serialization_batch_size (counter + ser_size msg)) ≡ false
      → counter + ser_size msg ≤ serialization_batch_size
  room-le msg [] counter f e room = let c = e refl in omega (arith, f.hash, f.payload)
  room-le msg (l ∷ ls) counter f e room = ground arith

  serialize_bt-le :
      (msgs : List Message) (ls : List (List Item)) (counter : ℕ)
      → All Fits msgs
      → 2 + weight ls ≤ counter
      → counter ≤ serialization_batch_size
      → (is_empty ls ≡ true → counter ≤ 2)
      → All
          (λ b. length b ≤ serialization_batch_size)
          (serialize_bt hex codec is_mainnet ls counter msgs)
  unfolding serialize_bt
  serialize_bt-le [] ls counter f h k e = (finish-le ls counter h k, tt)
  serialize_bt-le (msg ∷ msgs) ls counter (f, fs) h k e =
      elim (Bool-cases
        (not (is_empty ls) && ltb serialization_batch_size (counter + ser_size msg))) [
          | inl full ↦ rw full (
            finish-le ls counter h k,
            serialize_bt-le msgs (entry msg ∷ []) (1 + 2 + ser_size msg) fs
                (unfold weight in omega (arith, entry-lt-ser_size msg f))
                (omega (arith, f.hash, f.payload)) (λ q. cc),
          )
          | inr room ↦ rw room (
              serialize_bt-le msgs (ls ++ entry msg ∷ []) (counter + ser_size msg) fs
                (omega (
                  arith,
                  entry-lt-ser_size msg f,
                  weight-append ls (entry msg ∷ []),
                  weight-one (entry msg),
                ))
                (room-le msg ls counter f e room) (λ q. absurd (nonempty ls (entry msg) q)))
        ]

  -- No batch in the bencoded format exceeds 9000000 bytes, if each message is of a user with a
  -- 32-byte key, its hash is below 1000 bytes and its data below 100000, and its times have at most
  -- 13 digits.
  serialize_messages-le :
      (msgs : List Message)
      → All Fits msgs
      → (batches : List Bytes) × (serialize_messages hex codec is_mainnet msgs
            serialization_version_bt
          ≡ some batches)
        × All (λ b. length b ≤ serialization_batch_size) batches
  unfolding serialize_messages
  serialize_messages-le msgs f = (
    serialize_bt hex codec is_mainnet [] 2 msgs,
    refl,
    serialize_bt-le msgs [] 2 f (unfold weight in omega arith) (omega arith) (λ q. omega arith),
  )
