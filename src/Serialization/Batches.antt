-- ===== src/Serialization/Batches.antt =====
-- The bencoded batches of httpserver/serialization.cpp: what a node reads of them, and their size.
use beldex_storage_server.Prelude.{
  ℕ, ◌+◌, ◌≡◌, refl, ap, sym, ◌∙◌, Bool, true, not, ◌&&◌, Option, none, some, List, [], ◌∷◌, ◌++◌,
  ltb, map, All, All-append, Bytes, Bool-cases, inl, inr,
}
use mathlib.Core.Option
use mathlib.Core.List.{append_assoc, append-nil}
use mathlib.Core.List.{map-append}
use beldex_storage_server.Common.{Hex, Message}
use beldex_storage_server.Common.Pubkeys.{IsKey, is_valid-IsKey, load-prefixed_raw}
use beldex_storage_server.Serialization.{
  Codec, deserialized, threw, undefined, serialization_batch_size, serialization_version_bt,
  deserialize_messages, deserialize_bt, consume_rest, serialize_messages, serialize_bt, entry,
  finish, ser_size, is_empty,
}

-- A message of a user whose key has 32 bytes and a network byte.
abbrev pub HasKey : Message → Type 0
HasKey msg = (n : ℕ) × IsKey msg.pubkey n

module _ (hex : Hex) (codec : Codec) (is_mainnet : Bool) where
  -- The messages of several batches, if all of them are read.
  unfoldable pub read_batches : List Bytes → Option (List Message)
  read_batches [] = some []
  read_batches (batch ∷ batches) =
      let rest = read_batches batches in
      elim (deserialize_messages hex codec is_mainnet batch) [
        | some (deserialized msgs) ↦ Option.map (λ more. msgs ++ more) rest
        | some threw ↦ none
        | some undefined ↦ none
        | none ↦ none
      ]

  deserialize_bt-entry :
      (msgs result : List Message)
      → All HasKey msgs
      → deserialize_bt hex codec is_mainnet (map entry msgs) true result
        ≡ deserialized (result ++ msgs)
  unfolding deserialize_bt entry consume_rest
  deserialize_bt-entry [] result h = ap deserialized (sym (append-nil result))
  deserialize_bt-entry (msg ∷ msgs) result ((n, k), h) =
      rw (load-prefixed_raw hex is_mainnet msg.pubkey n k, is_valid-IsKey msg.pubkey n k)
        (deserialize_bt-entry msgs (result ++ msg ∷ []) h
          ∙ ap deserialized (append_assoc result (msg ∷ []) msgs))

  deserialize_messages-finish :
      (msgs : List Message)
      → All HasKey msgs
      → deserialize_messages hex codec is_mainnet (finish hex codec is_mainnet (map entry msgs))
        ≡ some (deserialized msgs)
  unfolding deserialize_messages finish
  deserialize_messages-finish msgs h =
      rw (codec.consume-bt_serializer (map entry msgs)) (ap some (deserialize_bt-entry msgs [] h))

  pub read_batches-cons :
      (batch : Bytes) (rest : List Bytes) (msgs more : List Message)
      → deserialize_messages hex codec is_mainnet batch ≡ some (deserialized msgs)
      → read_batches rest ≡ some more
      → read_batches (batch ∷ rest) ≡ some (msgs ++ more)
  unfolding read_batches
  read_batches-cons batch rest msgs more e r = rw (e, r, read_batches) refl

  read-serialize_bt :
      (msgs before : List Message) (counter : ℕ)
      → All HasKey before
      → All HasKey msgs
      → read_batches (serialize_bt hex codec is_mainnet (map entry before) counter msgs)
        ≡ some (before ++ msgs)
  unfolding serialize_bt
  read-serialize_bt [] before counter b h =
      read_batches-cons _ [] before [] (deserialize_messages-finish before b)
        (unfold read_batches in refl)
  read-serialize_bt (msg ∷ msgs) before counter b (k, h) =
      elim (Bool-cases (
        not (is_empty (map entry before))
        && ltb serialization_batch_size (counter + ser_size msg))) [
          | inl full ↦ rw full (
              read_batches-cons _ _ before (msg ∷ msgs) (deserialize_messages-finish before b)
                (read-serialize_bt msgs (msg ∷ []) (1 + 2 + ser_size msg) (k, tt) h))
          | inr room ↦
              rw (room, sym (map-append entry before (msg ∷ [])))
                (read-serialize_bt msgs (before ++ msg ∷ []) (counter + ser_size msg)
                    (All-append HasKey before (msg ∷ []) b (k, tt)) h
                  ∙ ap some (append_assoc before (msg ∷ []) msgs))
        ]

  -- What a node writes in the bencoded format, the other node reads back: all messages of users with
  -- a 32-byte key and a network byte, whole and in order, however they fall into batches.
  pub read-serialize_messages :
      (msgs : List Message)
      → All HasKey msgs
      → (batches : List Bytes) × (serialize_messages hex codec is_mainnet msgs
            serialization_version_bt
          ≡ some batches)
        × (read_batches batches ≡ some msgs)
  unfolding serialize_messages
  read-serialize_messages msgs h =
      (serialize_bt hex codec is_mainnet [] 2 msgs, refl, read-serialize_bt msgs [] 2 tt h)
