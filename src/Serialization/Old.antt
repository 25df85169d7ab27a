-- ===== src/Serialization/Old.antt =====
-- The old format of httpserver/serialization.cpp: what a node reads of its own batches.
use beldex_storage_server.Prelude.{
  ℕ, zero, suc, ◌+◌, ◌-◌, ◌%◌, ◌^◌, ◌<◌, ◌≤◌, ◌≡◌, refl, ap, sym, ◌∙◌, true, false, some, List, [],
  ◌∷◌, ◌++◌, ltb, All, All-append, arith, Bytes, length, length-append, take-append, drop-append,
  Bool-cases, inl, inr, le_bytes, length-le_bytes, from_le-le_bytes, byte_range, nat_eq,
}
use mathlib.Core.List.{append_assoc, append-nil}
use beldex_storage_server.Common.{Hex, Message, prefixed_hex, first_byte}
use beldex_storage_server.Common.Pubkeys.{
  IsKey, is_valid-IsKey, load-prefixed_hex, prefixed_hex-mainnet,
}
use beldex_storage_server.Serialization.{
  Codec, deserialized, got, deserialize_integer, deserialize_sized, deserialize_string,
  serialize_integer, serialize_string, serialize_message, serialize_old, deserialize_message_old,
  skip_nonce, drop_nonce, deserialize_old_loop, deserialize_messages_old, deserialize_messages,
  serialization_batch_size, serialize_messages, serialization_version_old, is_version,
}
use beldex_storage_server.Serialization.Batches.{read_batches, read_batches-cons}

sized-append :
    (a rest : Bytes) (len : ℕ) → length a ≡ len → deserialize_sized (a ++ rest) len ≡ got a rest
unfolding deserialize_sized
sized-append a rest len h =
    let enough : ltb (length (a ++ rest)) len ≡ false = ground (arith, length-append a rest) in
    rw (enough, take-append a rest len h, drop-append a rest len h)

integer-serialize_integer :
    (n : ℕ) (rest : Bytes)
    → n < 2 ^ 64
    → deserialize_integer (serialize_integer n ++ rest) ≡ got n rest
unfolding deserialize_integer serialize_integer
integer-serialize_integer n rest h =
    let size = length-le_bytes 8 n in
    let enough : ltb (length (le_bytes 8 n ++ rest)) 8 ≡ false =
      ground (arith, length-append (le_bytes 8 n) rest) in
    rw (enough, take-append (le_bytes 8 n) rest 8 size, drop-append (le_bytes 8 n) rest 8 size)
      (ap (λ m. got m rest) (from_le-le_bytes 8 n (unfold byte_range in h)))

string-serialize_string :
    (s rest : Bytes)
    → length s < 2 ^ 64
    → deserialize_string (serialize_string s ++ rest) ≡ got s rest
unfolding serialize_string deserialize_string
string-serialize_string s rest h = rw (
  append_assoc (serialize_integer (length s)) s rest,
  integer-serialize_integer (length s) (s ++ rest) h,
  deserialize_string,
  sized-append s rest (length s) refl,
)

-- A message as the old format can carry it: a 32-byte key with a network byte, and lengths and times
-- of 64 bits.
pub record IsPlain (codec : Codec) (msg : Message) : Type 0 where
  pub network : ℕ
  pub key : IsKey msg.pubkey network
  pub byte : network < 256
  pub hash : length msg.hash < 2 ^ 64
  pub payload : length (codec.to_base64 msg.payload) < 2 ^ 64
  pub timestamp : msg.timestamp < 2 ^ 64
  pub expiry : msg.expiry < 2 ^ 64

module _ (hex : Hex) (codec : Codec) where
  -- The parts of a message, before what follows it.
  serialize_message-append :
      (msg : Message) (rest : Bytes)
      → serialize_message hex codec true msg ++ rest
        ≡ prefixed_hex hex true msg.pubkey
          ++ (serialize_string msg.hash
              ++ (serialize_string (codec.to_base64 msg.payload)
                  ++ (serialize_integer ((msg.expiry + 2 ^ 64 - msg.timestamp) % 2 ^ 64)
                      ++ (serialize_integer msg.timestamp ++ (serialize_string [] ++ rest)))))
  unfolding serialize_message
  serialize_message-append msg rest = simp (append_assoc)

  nonce-read :
      (msg : Message) (rest : Bytes) → skip_nonce msg (serialize_string [] ++ rest) ≡ got msg rest
  unfolding skip_nonce drop_nonce
  nonce-read msg rest =
      let empty : serialize_string [] ++ rest ≡ serialize_integer 0 ++ rest =
        unfold serialize_string in
        ap (λ (s : Bytes). s ++ rest) (append-nil (serialize_integer 0)) in
      let nothing : deserialize_sized rest 0 ≡ got [] rest = sized-append [] rest 0 refl in
      rw (empty, integer-serialize_integer 0 rest (omega arith), nothing, drop_nonce) refl

  message-serialize_message :
      (msg : Message) (rest : Bytes)
      → IsPlain codec msg
      → deserialize_message_old hex codec true (serialize_message hex codec true msg ++ rest)
        ≡ got msg rest
  unfolding deserialize_message_old
  message-serialize_message msg rest p =
      let loads = load-prefixed_hex hex true msg.pubkey p.network p.key (inr refl) in
      let back : (msg.timestamp + (msg.expiry + 2 ^ 64 - msg.timestamp) % 2 ^ 64) % 2 ^ 64
          ≡ msg.expiry =
        omega (arith, p.timestamp, p.expiry) in
      rw
        (
          serialize_message-append msg rest,
          sized-append (prefixed_hex hex true msg.pubkey) _ 66
              (prefixed_hex-mainnet hex msg.pubkey p.network p.key).1,
          loads,
          is_valid-IsKey msg.pubkey p.network p.key,
          string-serialize_string msg.hash _ p.hash,
          string-serialize_string (codec.to_base64 msg.payload) _ p.payload,
          codec.is_base64-to_base64 msg.payload,
          integer-serialize_integer ((msg.expiry + 2 ^ 64 - msg.timestamp) % 2 ^ 64) _
              (omega arith),
          integer-serialize_integer msg.timestamp _ p.timestamp,
          codec.from_base64-to_base64 msg.payload,
          back,
        )
        (nonce-read msg rest)

  -- The codes of several messages, one after the other.
  codes : List Message → Bytes
  codes [] = []
  codes (msg ∷ msgs) = serialize_message hex codec true msg ++ codes msgs

  codes-append : (xs ys : List Message) → codes (xs ++ ys) ≡ codes xs ++ codes ys
  unfolding codes
  codes-append [] ys = refl
  codes-append (x ∷ xs) ys =
      rw (codes-append xs ys)
        (sym (append_assoc (serialize_message hex codec true x) (codes xs) (codes ys)))

  loop-step :
      (fuel : ℕ) (slice rest : Bytes) (result : List Message) (msg : Message)
      → deserialize_message_old hex codec true slice ≡ got msg rest
      → 0 < length slice
      → deserialize_old_loop hex codec true (suc fuel) slice result
        ≡ deserialize_old_loop hex codec true fuel rest (result ++ msg ∷ [])
  unfolding deserialize_old_loop
  loop-step fuel [] rest result msg e h = absurd (omega arith)
  loop-step fuel (b ∷ bs) rest result msg e h = rw (e, deserialize_old_loop) refl

  length-serialize_message :
      (msg : Message) (rest : Bytes)
      → IsPlain codec msg
      → length rest < length (serialize_message hex codec true msg ++ rest)
  length-serialize_message msg rest p =
      rw (serialize_message-append msg rest)
        (omega (arith, (prefixed_hex-mainnet hex msg.pubkey p.network p.key).1, length-append {0}))

  loop-codes :
      (msgs : List Message) (fuel : ℕ) (result : List Message)
      → All (IsPlain codec) msgs
      → length (codes msgs) ≤ fuel
      → deserialize_old_loop hex codec true fuel (codes msgs) result
        ≡ some (deserialized (result ++ msgs))
  unfolding codes
  loop-codes [] fuel result p h =
      unfold deserialize_old_loop in ap (λ l. some (deserialized l)) (sym (append-nil result))
  loop-codes (msg ∷ msgs) zero result (p, ps) h =
      absurd (omega (arith, length-serialize_message msg (codes msgs) p))
  loop-codes (msg ∷ msgs) (suc fuel) result (p, ps) h =
      let longer = length-serialize_message msg (codes msgs) p in
      loop-step fuel _ (codes msgs) result msg (message-serialize_message msg (codes msgs) p)
        (omega arith)
      ∙ loop-codes msgs fuel (result ++ msg ∷ []) ps (omega arith)
      ∙ ap (λ l. some (deserialized l)) (append_assoc result (msg ∷ []) msgs)

  -- The first character of a message is no version byte, as it is a hex digit.
  module _
      (digit : (n : ℕ)
        → n < 256
        → (48 ≤ first_byte (hex.to_hex (n ∷ []))) × (first_byte (hex.to_hex (n ∷ [])) < 128)) where
    old-version :
        (slice : Bytes)
        → (48 ≤ first_byte slice) × (first_byte slice < 128)
        → deserialize_messages hex codec true slice ≡ deserialize_messages_old hex codec true slice
    unfolding deserialize_messages
    old-version [] h = refl
    old-version (c ∷ cs) h = let no_version : is_version c ≡ false = ground arith in rw no_version

    first-append : (a b : Bytes) → 0 < length a → first_byte (a ++ b) ≡ first_byte a
    first-append [] b h = absurd (omega arith)
    first-append (x ∷ a) b h = refl

    read-codes :
        (msgs : List Message)
        → All (IsPlain codec) msgs
        → deserialize_messages hex codec true (codes msgs) ≡ some (deserialized msgs)
    unfolding deserialize_messages_old
    read-codes [] p = unfold codes deserialize_messages deserialize_old_loop in refl
    read-codes (msg ∷ msgs) (p, ps) =
        let first : first_byte (codes (msg ∷ msgs)) ≡ first_byte (hex.to_hex (p.network ∷ [])) =
          (unfold codes in
            rw (
              serialize_message-append msg (codes msgs),
              (prefixed_hex-mainnet hex msg.pubkey p.network p.key).0,
              append_assoc (hex.to_hex (p.network ∷ [])) (hex.to_hex msg.pubkey.pubkey),
              first-append (hex.to_hex (p.network ∷ [])) _
                  (omega (arith, hex.length-to_hex (p.network ∷ []))),
            )) in
        old-version (codes (msg ∷ msgs)) (rw first (digit p.network p.byte))
        ∙ loop-codes (msg ∷ msgs) (length (codes (msg ∷ msgs))) [] (p, ps) (omega arith)

    -- The rounds of serialize_messages, where `before` is in the last string so far.
    read-serialize_old :
        (msgs before : List Message)
        → All (IsPlain codec) before
        → All (IsPlain codec) msgs
        → read_batches hex codec true (serialize_old hex codec true (codes before) msgs)
          ≡ some (before ++ msgs)
    unfolding serialize_old
    read-serialize_old [] before b p =
        read_batches-cons hex codec true (codes before) [] before [] (read-codes before b)
          (unfold read_batches in refl)
    read-serialize_old (msg ∷ msgs) before b (p, ps) =
        let one : codes (msg ∷ []) ≡ serialize_message hex codec true msg =
          unfold codes in append-nil _ in
        elim (Bool-cases (ltb serialization_batch_size (length (codes before)))) [
          | inl full ↦
              rw (full, sym one)
                (read_batches-cons hex codec true (codes before) _ before (msg ∷ msgs)
                  (read-codes before b) (read-serialize_old msgs (msg ∷ []) (p, tt) ps))
          | inr room ↦
              rw (room, sym one, sym (codes-append before (msg ∷ [])))
                (read-serialize_old msgs (before ++ msg ∷ [])
                    (All-append (IsPlain codec) before (msg ∷ []) b (p, tt)) ps
                  ∙ ap some (append_assoc before (msg ∷ []) msgs))
        ]

    -- What a node of the main network writes in the old format, the other node reads back: all
    -- messages, whole and in order, however they fall into strings. The hex digits are taken to be
    -- characters from '0' on, the keys to have 32 bytes and a network byte, and lengths and times to
    -- be below 2^64.
    pub read-serialize_messages_old :
        (msgs : List Message)
        → All (IsPlain codec) msgs
        → (batches : List Bytes) × (serialize_messages hex codec true msgs serialization_version_old
            ≡ some batches)
          × (read_batches hex codec true batches ≡ some msgs)
    unfolding serialize_messages codes
    read-serialize_messages_old msgs p =
        (serialize_old hex codec true [] msgs, refl, read-serialize_old msgs [] tt p)
