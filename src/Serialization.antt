-- ===== src/Serialization.antt =====
-- httpserver/serialization.h and serialization.cpp: messages as the batches that go from node to
-- node, in the old format (version 0) and the bencoded one (version 1). The bt and base64 codings
-- are libbmq's: the interface `Codec`. A std::string or a slice is its bytes; reading an integer
-- past the end of a slice, which is undefined in C++, is the result `undefined`. Times are in
-- milliseconds, the 64 bits of an int64_t read as an unsigned number.
pub mod Batches
pub mod Size
pub mod Old
pub mod Ends
use beldex_storage_server.Prelude.{
  ℕ, zero, suc, ◌+◌, ◌-◌, ◌%◌, ◌^◌, ◌≡◌, Bool, true, false, not, ◌&&◌, ◌||◌, Option, none, some,
  List, [], ◌∷◌, ◌++◌, ltb, leb, ◌==◌, ◌!=◌, nat_eq, Bytes, length, take, drop, if◌then◌else◌,
  le_bytes, from_le, map,
}
use beldex_storage_server.Common.{
  UserPubkey, Hex, Message, load, is_valid, prefixed_hex, prefixed_raw, user_pubkey_size_hex,
}

abbrev pub serialization_batch_size : ℕ
serialization_batch_size = 9000000

abbrev pub serialization_version_old : ℕ
serialization_version_old = 0

abbrev pub serialization_version_bt : ℕ
serialization_version_bt = 1

-- An element of an inner bt list; `other` is the code of a negative integer, a list or a dictionary. A
-- negative integer is refused by the model in each place; the source takes one as a time.
pub data Item : Type 0 where
  string : Bytes → Item
  integer : ℕ → Item
  other : Bytes → Item

-- What bt_list_consumer gives of a list of lists: the inner lists that can be read, and whether the
-- outer list then ends as it should (else the next read throws).
pub record Consumed : Type 0 where
  pub lists : List (List Item)
  pub is_finished : Bool

-- bmq::bt_serializer, bt_list_consumer and the base64 functions, with what their documentation says.
pub record Codec : Type 0 where
  pub bt_serializer : List (List Item) → Bytes
  pub consume : Bytes → Consumed
  pub is_base64 : Bytes → Bool
  pub to_base64 : Bytes → Bytes
  pub from_base64 : Bytes → Bytes
  pub consume-bt_serializer :
      (l : List (List Item)) → consume (bt_serializer l) ≡ record { lists = l; is_finished = true }
  pub is_base64-to_base64 : (b : Bytes) → is_base64 (to_base64 b) ≡ true
  pub from_base64-to_base64 : (b : Bytes) → from_base64 (to_base64 b) ≡ b

-- A vector of messages, the exception that is thrown again, or a read past the end.
pub data Deserialized : Type 0 where
  deserialized : List Message → Deserialized
  threw : Deserialized
  undefined : Deserialized

-- What a reader of the old format takes off the slice.
pub data Read (A : Type 0) : Type 0 where
  got : A → Bytes → Read A
  short : Read A
  past_end : Read A

-- deserialize_integer of 64 bits
unfoldable pub deserialize_integer : Bytes → Read ℕ
deserialize_integer slice =
    if ltb (length slice) 8 then past_end else got (from_le (take 8 slice)) (drop 8 slice)

-- The two overloads of deserialize_string.
unfoldable pub deserialize_sized : Bytes → ℕ → Read Bytes
deserialize_sized slice len =
    if ltb (length slice) len then short else got (take len slice) (drop len slice)

infixl 10 ◌>>=◌
abbrev pub ◌>>=◌ : {A B : Type 0} → Read A → (A → Bytes → Read B) → Read B
got a rest >>= f = f a rest
short >>= f = short
past_end >>= f = past_end

unfoldable pub deserialize_string : Bytes → Read Bytes
deserialize_string slice = deserialize_integer slice >>= λ len rest. deserialize_sized rest len

-- A failed check of a field ends the whole call with no messages.
abbrev pub check : {A : Type 0} → Bool → Read A → Read A
check test rest = if test then rest else short

-- The end of a round: a nonce that is too short is ignored, and stays on the slice, less its length.
unfoldable pub drop_nonce : Message → ℕ → Bytes → Read Message
drop_nonce msg len slice = elim (deserialize_sized slice len) [
  | got nonce rest ↦ got msg rest
  | short ↦ got msg slice
  | past_end ↦ past_end
]

unfoldable pub skip_nonce : Message → Bytes → Read Message
skip_nonce msg slice = deserialize_integer slice >>= drop_nonce msg

unfoldable pub serialize_integer : ℕ → Bytes
serialize_integer = le_bytes 8

unfoldable pub serialize_string : Bytes → Bytes
serialize_string str = serialize_integer (length str) ++ str

-- The five elements of a message in the bt format.
unfoldable pub entry : Message → List Item
entry msg =
    string (prefixed_raw msg.pubkey)
    ∷ string msg.hash
    ∷ integer msg.timestamp
    ∷ integer msg.expiry
    ∷ string msg.payload
    ∷ []

-- ser_size, the estimate of what a message takes
abbrev pub ser_size : Message → ℕ
ser_size msg = 1 + 2 + 36 + 30 + (4 + length msg.hash) + (6 + length msg.payload)

abbrev pub is_empty {ℓ} : {A : Type ℓ} → List A → Bool
is_empty [] = true
is_empty (x ∷ xs) = false

-- The elements of a message after its public key, which is loaded first.
unfoldable pub consume_rest : UserPubkey → List Item → Option Message
consume_rest pubkey (string hash ∷ integer timestamp ∷ integer expiry ∷ string payload ∷ more) =
    some (record {
      pubkey = pubkey;
      hash = hash;
      timestamp = timestamp;
      expiry = expiry;
      payload = payload;
    })
consume_rest pubkey items = none

-- `char` is signed: a byte from 128 on is below '0'.
abbrev pub is_version : ℕ → Bool
is_version c = (ltb c 48 || leb 128 c) && c != 0

module _ (hex : Hex) (codec : Codec) (is_mainnet : Bool) where
  -- v0::serialize_message, with what it appends
  unfoldable pub serialize_message : Message → Bytes
  serialize_message msg =
      prefixed_hex hex is_mainnet msg.pubkey
      ++ (serialize_string msg.hash
          ++ (serialize_string (codec.to_base64 msg.payload)
              ++ (serialize_integer ((msg.expiry + 2 ^ 64 - msg.timestamp) % 2 ^ 64)
                  ++ (serialize_integer msg.timestamp ++ serialize_string []))))

  -- The rounds of serialize_messages in the old format; `back` is the last string so far.
  pub serialize_old : Bytes → List Message → List Bytes
  serialize_old back [] = back ∷ []
  serialize_old back (msg ∷ msgs) =
      let full = ltb serialization_batch_size (length back) in
      (if full then back ∷ [] else [])
      ++ serialize_old ((if full then [] else back) ++ serialize_message msg) msgs

  abbrev pub pk_size : ℕ
  pk_size = if is_mainnet then user_pubkey_size_hex else user_pubkey_size_hex - 2

  -- One round of v0::deserialize_messages_old.
  unfoldable pub deserialize_message_old : Bytes → Read Message
  deserialize_message_old slice = deserialize_sized slice pk_size >>= λ pk slice.
      (let pubkey = load hex is_mainnet pk in
        check (is_valid pubkey) (
          deserialize_string slice >>= λ hash slice.
          (deserialize_string slice >>= λ text slice. check (codec.is_base64 text) (
            deserialize_integer slice >>= λ ttl slice.
            (deserialize_integer slice >>= λ timestamp slice.
            skip_nonce
              (record {
                pubkey = pubkey;
                hash = hash;
                timestamp = timestamp;
                expiry = (timestamp + ttl) % 2 ^ 64;
                payload = codec.from_base64 text;
              })
              slice)))))

  -- `while (!slice.empty())`; `none` means that the fuel ran out.
  unfoldable pub deserialize_old_loop : ℕ → Bytes → List Message → Option Deserialized
  deserialize_old_loop fuel [] result = some (deserialized result)
  deserialize_old_loop zero (b ∷ bs) result = none
  deserialize_old_loop (suc fuel) (b ∷ bs) result = elim (deserialize_message_old (b ∷ bs)) [
    | got msg slice ↦ deserialize_old_loop fuel slice (result ++ msg ∷ [])
    | short ↦ some (deserialized [])
    | past_end ↦ some undefined
  ]

  -- Each message takes at least one byte, so that the length of the slice is fuel enough.
  unfoldable pub deserialize_messages_old : Bytes → Option Deserialized
  deserialize_messages_old slice = deserialize_old_loop (length slice) slice []

  -- A finished piece: the version as a byte, and the list.
  unfoldable pub finish : List (List Item) → Bytes
  finish l = serialization_version_bt ∷ codec.bt_serializer l

  -- The rounds of serialize_messages in the bt format, over `l` and `counter`.
  unfoldable pub serialize_bt : List (List Item) → ℕ → List Message → List Bytes
  serialize_bt l counter [] = finish l ∷ []
  serialize_bt l counter (msg ∷ msgs) =
      let full = not (is_empty l) && ltb serialization_batch_size (counter + ser_size msg) in
      (if full then finish l ∷ [] else [])
      ++ serialize_bt ((if full then [] else l) ++ entry msg ∷ [])
          (if full then 1 + 2 + ser_size msg else counter + ser_size msg) msgs

  -- `none` is the logic_error for any other version.
  unfoldable pub serialize_messages : List Message → ℕ → Option (List Bytes)
  serialize_messages msgs version =
      if version == serialization_version_old
      then some (serialize_old [] msgs)
      else if version == serialization_version_bt
      then some (serialize_bt [] 2 msgs)
      else none

  -- The loop over a bt list.
  unfoldable pub deserialize_bt : List (List Item) → Bool → List Message → Deserialized
  deserialize_bt [] is_finished result = if is_finished then deserialized result else threw
  deserialize_bt ((string pk ∷ items) ∷ lists) is_finished result =
      let pubkey = load hex is_mainnet pk in
      if not (is_valid pubkey) then deserialized [] else elim (consume_rest pubkey items) [
        | none ↦ threw
        | some msg ↦ deserialize_bt lists is_finished (result ++ msg ∷ [])
      ]
  deserialize_bt (items ∷ lists) is_finished result = threw

  unfoldable pub deserialize_messages : Bytes → Option Deserialized
  deserialize_messages [] = deserialize_messages_old []
  deserialize_messages (c ∷ slice) =
      if not (is_version c)
      then deserialize_messages_old (c ∷ slice)
      else if c != serialization_version_bt
      then some (deserialized [])
      else some (deserialize_bt (codec.consume slice).lists (codec.consume slice).is_finished [])
