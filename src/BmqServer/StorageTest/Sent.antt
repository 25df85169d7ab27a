-- ===== src/BmqServer/StorageTest/Sent.antt =====
-- The storage test that httpserver/master_node.cpp sends, as httpserver/bmq_server.cpp reads it.
use beldex_storage_server.Prelude.{
  inl, inr, ◌⊎◌, ℕ, ◌≡◌, ◌≢◌, ◌<◌, refl, true, false, Option, some, [], ◌∷◌, ◌==◌, nat_eq, Bytes,
  length, byte_range, arith,
}
use beldex_storage_server.Common.{Hex, Message}
use beldex_storage_server.Serialization.{Codec}
use beldex_storage_server.Keys.{X25519Pubkey}
use beldex_storage_server.Keys.Coding.{view}
use beldex_storage_server.Keys.Coding.Parsed.{load_from_bytes-view}
use beldex_storage_server.Swarm.{MnRecord, find_node_x25519}
use beldex_storage_server.MasterNode.{
  Node, storage_test, hf_at_least, hardfork_bmq_storage_tests, send_to,
}
use beldex_storage_server.MasterNode.StorageTest.{send_storage_test_req}
use beldex_storage_server.BmqServer.StorageTest.{
  asked, pop_back, hash_text, ask, ask_height, ask_sender, handle_storage_test,
}

-- The two forms of a message's hash: the hexadecimal text of 64 bytes, or the base64 text of 32 bytes
-- less its padding, which is accepted and decoded without it.
pub data IsHash (hex : Hex) (codec : Codec) : Bytes → Bytes → Type 0 where
  hex_hash : (b : Bytes) → length b ≡ 64 → IsHash hex codec (hex.to_hex b) b
  base64_hash :
      (b : Bytes)
      → length b ≡ 32
      → length (pop_back (codec.to_base64 b)) ≡ 43
      → codec.is_base64 (pop_back (codec.to_base64 b)) ≡ true
      → codec.from_base64 (pop_back (codec.to_base64 b)) ≡ b
      → IsHash hex codec (pop_back (codec.to_base64 b)) b

module _ (hex : Hex) (codec : Codec) (parse_int : Bytes → Option ℕ) (to_string : ℕ → Bytes) where
  hash_text_lem :
      (text b : Bytes) → IsHash hex codec text b → hash_text hex codec parse_int b ≡ some text
  unfolding hash_text
  hash_text_lem text b (hex_hash c size) = rw size refl
  hash_text_lem text b (base64_hash c size whole is back) = rw size refl

  -- How the tester reads the text of a hash.
  hash_bytes :
      (text b : Bytes)
      → IsHash hex codec text b
      → (((length text == 128) ≡ true) × (hex.from_hex text ≡ b))
        ⊎ (((length text == 128) ≡ false)
            × (codec.is_base64 text ≡ true)
            × (codec.from_base64 text ≡ b))
  hash_bytes text b (hex_hash c size) =
      inl (ground (arith, hex.length-to_hex b, size), hex.from_hex-to_hex b)
  hash_bytes text b (base64_hash c size whole is back) = inr (ground (arith, whole), is, back)

  sent_lem :
      (testee : MnRecord) (test_height : ℕ) (msg : Message) (node : Node) (b : Bytes)
      → IsHash hex codec msg.hash b
      → hf_at_least node hardfork_bmq_storage_tests ≡ true
      → send_storage_test_req hex codec testee test_height msg node
        ≡ send_to (testee ∷ []) (storage_test node.block_height b) node
  unfolding send_storage_test_req
  sent_lem testee test_height msg node b is hf = elim (hash_bytes msg.hash b is) [
    | inl (long, back) ↦ rw (hf, long, back) refl
    | inr (short, coded, back) ↦ rw (hf, short, coded, back) refl
  ]

  -- A storage test reaches the testee as it was meant: what the tester sends for a message, once the
  -- network tests over BMQ, is for the node's height and the bytes of the message's hash; the testee,
  -- which knows the tester by the key of the connection, asks for the test of that height, that tester
  -- and the same hash.
  pub handle_storage_test-sent :
      (testee mn : MnRecord) (test_height : ℕ) (msg : Message) (node other : Node)
      (key : X25519Pubkey) (b : Bytes)
      → IsHash hex codec msg.hash b
      → hf_at_least node hardfork_bmq_storage_tests ≡ true
      → node.block_height ≢ 0
      → parse_int (to_string node.block_height) ≡ some node.block_height
      → key < byte_range 32
      → find_node_x25519 other.swarm key ≡ some mn
      → (send_storage_test_req hex codec testee test_height msg node
          ≡ send_to (testee ∷ []) (storage_test node.block_height b) node)
        × (handle_storage_test hex codec parse_int other
              (view key)
              (to_string node.block_height ∷ b ∷ [])
            ≡ asked node.block_height mn.pubkey_legacy msg.hash)
  unfolding handle_storage_test ask_sender ask_height ask
  handle_storage_test-sent testee mn test_height msg node other key b is hf up printed small known =
      let nonzero : (node.block_height == 0) ≡ false = ground (arith, up) in
      (
        sent_lem testee test_height msg node b is hf,
        rw
            (
              handle_storage_test,
              ask_sender,
              load_from_bytes-view key small,
              known,
              ask_height,
              printed,
              nonzero,
              ask,
              hash_text_lem msg.hash b is,
            )
            refl,
      )
