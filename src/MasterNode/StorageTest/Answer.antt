-- ===== src/MasterNode/StorageTest/Answer.antt =====
-- Who is told the data of a message in a storage test, and what a tester sends.
use beldex_storage_server.Prelude.{
  ℕ, ◌-◌, ◌≤◌, ◌≡◌, ◌≢◌, ◌<◌, ◌↔◌, ◌⊎◌, refl, true, false, Option, none, some, List, [], ◌∷◌, ◌++◌,
  ◌==◌, nat_eq, Bytes, ltb, length, arith, Bool-cases, Option-cases, inl, inr,
}
use beldex_storage_server.Keys.{LegacyPubkey}
use beldex_storage_server.Common.{Hex, Message}
use beldex_storage_server.Swarm.{MnRecord, same_mnode}
use beldex_storage_server.Storage.{MessageRow, retrieve_by_hash, retrieve_random}
use beldex_storage_server.Serialization.{Codec}
use beldex_storage_server.MasterNode.{
  Node, Sent, storage_test, https_storage_test, test_blocks_buffer, hf_at_least,
  hardfork_bmq_storage_tests,
}
use beldex_storage_server.MasterNode.StorageTest.{
  send_found, start_test, answer_choice, answer_message, Choice, nobody, spinning, chosen,
  derive_tester_testee, MessageTestStatus, success, retry, wrong_req, process_storage_test_req,
  send_storage_test_req, initiate_peer_test,
}

module _ (fuel : ℕ) (mt19937_64 : ℕ → ℕ → ℕ) (node : Node) where
  -- What a request must meet to be answered with data.
  abbrev pub Answered : ℕ → LegacyPubkey → Bytes → Bytes → Type 0
  Answered blk_height tester_pk msg_hash payload =
      (tester testee : MnRecord) × (msg : Message) × (blk_height ≤ node.block_height)
      × (derive_tester_testee fuel mt19937_64 node blk_height ≡ chosen tester testee)
      × (testee.pubkey_legacy ≡ node.swarm.our_address.pubkey_legacy)
      × (tester.pubkey_legacy ≡ tester_pk)
      × (retrieve_by_hash node.db msg_hash ≡ some msg)
      × (msg.payload ≡ payload)

  -- A storage test is answered with data exactly if it is for a block that the node has, this node is
  -- the testee chosen for the block and the sender the tester, and the node has a message of the hash;
  -- the answer is then the data of that message.
  pub process_storage_test_req_lem :
      (blk_height : ℕ) (tester_pk : LegacyPubkey) (msg_hash payload : Bytes)
      → (process_storage_test_req fuel mt19937_64 node blk_height tester_pk msg_hash
          ≡ some (success, payload))
        ↔ Answered blk_height tester_pk msg_hash payload
  unfolding process_storage_test_req answer_choice answer_message
  process_storage_test_req_lem blk_height tester_pk msg_hash payload = (there, back)
    where
      message :
          (r : Option Message)
          → some (answer_message r) ≡ some (success, payload)
          → (msg : Message) × (r ≡ some msg) × (msg.payload ≡ payload)
      message none h = cc
      message (some msg) h = (msg, refl, ground arith)

      choice :
          (c : Choice)
          → derive_tester_testee fuel mt19937_64 node blk_height ≡ c
          → blk_height ≤ node.block_height
          → answer_choice node tester_pk msg_hash c ≡ some (success, payload)
          → Answered blk_height tester_pk msg_hash payload
      choice nobody e l h = cc
      choice spinning e l h = cc
      choice (chosen tester testee) e l h =
          elim (Bool-cases (same_mnode testee node.swarm.our_address)) [
            | inr f ↦
                let no_data : ◌≡◌ {A = Option (MessageTestStatus × Bytes)} (some (wrong_req, []))
                    (some (success, payload)) =
                  rw f at h in
                cc
            | inl us ↦ elim (Bool-cases (tester.pubkey_legacy == tester_pk)) [
              | inr f ↦
                  let no_data : ◌≡◌ {A = Option (MessageTestStatus × Bytes)} (some (wrong_req, []))
                      (some (success, payload)) =
                    rw (us, f) at h in
                  cc
              | inl them ↦
                  let (msg, f, p) =
                    message (retrieve_by_hash node.db msg_hash) (rw (us, them) at h) in
                  (tester, testee, msg, l, e, ground arith, ground arith, f, p)
            ]
          ]

      there :
          process_storage_test_req fuel mt19937_64 node blk_height tester_pk msg_hash
            ≡ some (success, payload)
          → Answered blk_height tester_pk msg_hash payload
      there h = elim (Bool-cases (ltb node.block_height blk_height)) [
        | inl ahead ↦
            let no_data : ◌≡◌ {A = Option (MessageTestStatus × Bytes)} (some (retry, []))
                (some (success, payload)) =
              rw ahead at h in
            cc
        | inr known ↦ choice _ refl (ground arith) (rw known at h)
      ]

      back :
          Answered blk_height tester_pk msg_hash payload
          → process_storage_test_req fuel mt19937_64 node blk_height tester_pk msg_hash
            ≡ some (success, payload)
      back (tester, testee, msg, l, e, us, them, f, p) =
          let known : ltb node.block_height blk_height ≡ false = ground arith in
          let ours : same_mnode testee node.swarm.our_address ≡ true = ground arith in
          let theirs : (tester.pubkey_legacy == tester_pk) ≡ true = ground arith in
          rw (known, e, answer_choice, ours, theirs, f, p) refl

  module _ (hex : Hex) (codec : Codec) (pick : List MessageRow → Option MessageRow) (now : ℕ) where
    -- The bytes of a message's hash, in hexadecimal digits or base64.
    abbrev pub IsHashOf : Message → Bytes → Type 0
    IsHashOf msg hash =
        ((length msg.hash ≡ 128) × (hash ≡ hex.from_hex msg.hash))
        ⊎ ((length msg.hash ≢ 128)
            × (codec.is_base64 msg.hash ≡ true)
            × (hash ≡ codec.from_base64 msg.hash))

    -- The message that a test would be about is missing, or has a hash that is in neither form, with
    -- which no test goes out over BMQ.
    abbrev pub HasNone : Option Message → Type 0
    HasNone found =
        (found ≡ none)
        ⊎ ((msg : Message) × (found ≡ some msg)
            × (hf_at_least node hardfork_bmq_storage_tests ≡ true)
            × (length msg.hash ≢ 128)
            × (codec.is_base64 msg.hash ≡ false))

    -- The test about a message: over BMQ with the current height, by HTTPS with that of the choice.
    abbrev pub IsTest : Message → Sent → Type 0
    IsTest msg sent =
        ((hf_at_least node hardfork_bmq_storage_tests ≡ true)
          × ((hash : Bytes) × IsHashOf msg hash × (sent ≡ storage_test node.block_height hash)))
        ⊎ ((hf_at_least node hardfork_bmq_storage_tests ≡ false)
            × (sent ≡ https_storage_test (node.block_height - test_blocks_buffer) msg.hash))

    -- Why no test is sent.
    abbrev pub Idle : Type 0
    Idle =
        (node.block_height < test_blocks_buffer)
        ⊎ (derive_tester_testee fuel mt19937_64 node (node.block_height - test_blocks_buffer)
            ≡ nobody)
        ⊎ ((tester testee : MnRecord) × (derive_tester_testee fuel mt19937_64 node
                (node.block_height - test_blocks_buffer)
              ≡ chosen tester testee)
            × (tester.pubkey_legacy ≢ node.swarm.our_address.pubkey_legacy))
        ⊎ HasNone (retrieve_random pick node.db now).1

    -- What a tester sends, or why it sends nothing.
    abbrev pub Tests : Node → Type 0
    Tests node' =
        (Idle × (node'.outbox ≡ node.outbox))
        ⊎ ((tester testee : MnRecord) × (msg : Message) × (sent : Sent) × (test_blocks_buffer
              ≤ node.block_height)
            × (derive_tester_testee fuel mt19937_64 node (node.block_height - test_blocks_buffer)
                ≡ chosen tester testee)
            × (tester.pubkey_legacy ≡ node.swarm.our_address.pubkey_legacy)
            × ((retrieve_random pick node.db now).1 ≡ some msg)
            × IsTest msg sent
            × (node'.outbox ≡ node.outbox ++ (testee.pubkey_x25519, sent) ∷ []))

    -- The node once the database has been asked for a message.
    abbrev asked : Node
    asked = record node { db = (retrieve_random pick node.db now).0 }

    abbrev chosen_height : ℕ
    chosen_height = node.block_height - test_blocks_buffer

    send-outbox :
        (testee : MnRecord) (msg : Message)
        → ((hf_at_least node hardfork_bmq_storage_tests ≡ true)
            × (length msg.hash ≢ 128)
            × (codec.is_base64 msg.hash ≡ false)
            × ((send_storage_test_req hex codec testee chosen_height msg asked).outbox
                ≡ node.outbox))
          ⊎ ((sent : Sent) × IsTest msg sent
              × ((send_storage_test_req hex codec testee chosen_height msg asked).outbox
                  ≡ node.outbox ++ (testee.pubkey_x25519, sent) ∷ []))
    unfolding send_storage_test_req hf_at_least
    send-outbox testee msg =
        let at = node.block_height in
        elim (Bool-cases (hf_at_least node hardfork_bmq_storage_tests)) [
          | inr f ↦ rw f (inr (https_storage_test chosen_height msg.hash, inr (refl, refl), refl))
          | inl t ↦ elim (Bool-cases (length msg.hash == 128)) [
            | inl h ↦
                rw (t, h)
                  (let hash = hex.from_hex msg.hash in
                    inr (
                      storage_test at hash,
                      inl (refl, (hash, inl (ground arith, refl), refl)),
                      refl,
                    ))
            | inr h ↦ elim (Bool-cases (codec.is_base64 msg.hash)) [
              | inl b ↦
                  rw (t, h, b)
                    (let hash = codec.from_base64 msg.hash in
                      inr (
                        storage_test at hash,
                        inl (refl, (hash, inr (ground arith, refl, refl), refl)),
                        refl,
                      ))
              | inr b ↦ rw (t, h, b) (inl (refl, ground arith, refl, refl))
            ]
          ]
        ]

    found-outbox :
        (testee : MnRecord) (found : Option Message)
        → (HasNone found
            × ((send_found hex codec testee chosen_height found asked).outbox ≡ node.outbox))
          ⊎ ((msg : Message) × (sent : Sent) × (found ≡ some msg)
              × IsTest msg sent
              × ((send_found hex codec testee chosen_height found asked).outbox
                  ≡ node.outbox ++ (testee.pubkey_x25519, sent) ∷ []))
    unfolding send_found
    found-outbox testee none = inl (inl refl, refl)
    found-outbox testee (some msg) = elim (send-outbox testee msg) [
      | inl (t, long, plain, e) ↦ inl (inr (msg, refl, t, long, plain), e)
      | inr (sent, is, e) ↦ inr (msg, sent, refl, is, e)
    ]

    start-Tests :
        (c : Choice) (node' : Node)
        → test_blocks_buffer ≤ node.block_height
        → derive_tester_testee fuel mt19937_64 node (node.block_height - test_blocks_buffer) ≡ c
        → start_test hex codec pick now node c ≡ some node'
        → Tests node'
    unfolding start_test
    start-Tests nobody node' l e h = inl (inr (inl e), ground arith)
    start-Tests spinning node' l e h = cc
    start-Tests (chosen tester testee) node' l e h =
        elim (Bool-cases (same_mnode tester node.swarm.our_address)) [
          | inr f ↦
              let same : some node ≡ some node' = rw f at h in
              inl (inr (inr (inl (tester, testee, e, ground arith))), ground arith)
          | inl us ↦
              let found = (retrieve_random pick node.db now).1 in
              let same : some (send_found hex codec testee chosen_height found asked) ≡ some node' =
                rw us at h in
              let q : send_found hex codec testee chosen_height found asked ≡ node' =
                ground arith in
              elim (found-outbox testee found) [
                | inl (reason, o) ↦ inl (inr (inr (inr reason)), rw (← q) o)
                | inr (msg, sent, f, is, o) ↦
                    inr (tester, testee, msg, sent, l, e, ground arith, f, is, rw (← q) o)
              ]
        ]

    start_test-spinning : (c : Choice) → start_test hex codec pick now node c ≡ none → c ≡ spinning
    unfolding start_test
    start_test-spinning nobody h = cc
    start_test-spinning spinning h = refl
    start_test-spinning (chosen tester testee) h =
        elim (Bool-cases (same_mnode tester node.swarm.our_address)) [
          | inr f ↦ let no : some node ≡ none = rw f at h in cc
          | inl us ↦
              let found = (retrieve_random pick node.db now).1 in
              let no : some (send_found hex codec testee chosen_height found asked) ≡ none =
                rw us at h in
              cc
        ]

    -- initiate_peer_test sends one storage test, to the testee chosen for the block four below the current
    -- one, if this node is the tester chosen for it and the database gives a message. Before the hardfork
    -- of the BMQ storage tests the test goes by HTTPS and carries the height of that block and the hash's
    -- text; after it, the bytes of the hash, but the current height, for which the testee makes its own
    -- choice. It sends nothing if there is no such block or pair, the tester is another node, or there is
    -- no message or, over BMQ, none with a hash in hexadecimal digits or base64. It gives no node only if
    -- the choice of the pair runs out of fuel.
    pub initiate_peer_test_lem :
        ((initiate_peer_test hex codec pick now fuel mt19937_64 node ≡ none)
          × (derive_tester_testee fuel mt19937_64 node (node.block_height - test_blocks_buffer)
              ≡ spinning))
        ⊎ ((node' : Node) × (initiate_peer_test hex codec pick now fuel mt19937_64 node
              ≡ some node')
            × Tests node')
    unfolding initiate_peer_test
    initiate_peer_test_lem = elim (Bool-cases (ltb node.block_height test_blocks_buffer)) [
      | inl low ↦ rw low (inr (node, refl, inl (inl (ground arith), refl)))
      | inr high ↦
          let c =
            derive_tester_testee fuel mt19937_64 node (node.block_height - test_blocks_buffer) in
          elim (Option-cases (start_test hex codec pick now node c)) [
            | inl e ↦ rw high (inl (e, start_test-spinning c e))
            | inr (node', e) ↦ rw high (inr (node', e, start-Tests c node' (ground arith) refl e))
          ]
    ]
