-- ===== src/Handler/Messages.antt =====
-- `process_client_req` of httpserver/request_handler.cpp for `store`, `retrieve` and `get_swarm`.
pub mod Retrieved
use beldex_storage_server.Prelude.{
  ℕ, ◌+◌, ◌-◌, Bool, true, false, not, ◌&&◌, ◌||◌, Option, none, some, List, [], ◌∷◌, ◌==◌, ◌++◌,
  nat_eq, string_eq, Bytes, String, ltb, leb, map, length, if◌then◌else◌,
}
use beldex_storage_server.Common.{UserPubkey, Message}
use beldex_storage_server.Swarm.Closest.{get_swarm_by_pk, is_pubkey_for_us}
use beldex_storage_server.Storage.{RowIds, Disk, Stored, inserted, already_there, db_full, raised}
use beldex_storage_server.Storage
use beldex_storage_server.Stats.{bump_requests, retrieve}
use beldex_storage_server.Rpc.{BtDict, Signed, Store, Retrieve}
use beldex_storage_server.Rpc.Load.{store_bt}
use beldex_storage_server.Handler.{
  Json, flag, number, text, Fields, ok, unauthorized, forbidden, not_acceptable, ttl_minimum,
  ttl_maximum, store_tolerance, signature_tolerance, Shown, plain, swarm, messages, Env, bytes,
  integer, verify_signature, create_signature, compute_message_hash,
}
use beldex_storage_server.Handler.Reply.{SwarmResponse, peer_replies, own_part}
use beldex_storage_server.MasterNode.{
  Node, hf_at_least, hardfork_recursive_store, hardfork_hash_blake2b, client_retrieve_message_limit,
  process_store,
}
use beldex_storage_server.Handler.Client.{
  Outcome, replied, waiting, setup_recursive_request, handle_wrong_swarm, is_near, own_key,
  shown_signature, with_time,
}

-- "already" is set where the message was not new, which Database::store also answers for a full disk.
pub already_fields : Stored → List (String × Json)
already_fields inserted = []
already_fields already_there = ("already", flag true) ∷ []
already_fields db_full = ("already", flag true) ∷ []
already_fields raised = []

module _ (env : Env) where
  -- The fields of the node's own part after process_store.
  unfoldable pub store_mine : Bool → Bool → ℕ → Bytes → Stored → List (String × Json)
  unfolding create_signature already_fields
  store_mine entry_router b64 now hash raised =
      with_time entry_router now
        (("reason", text env.what) ∷ ("failed", flag true) ∷ ("query_failure", flag true) ∷ [])
  store_mine entry_router b64 now hash stored = with_time entry_router now (
      ("hash", text hash)
      ∷ ("signature", shown_signature env b64 (create_signature env (bytes hash ∷ [])))
      ∷ already_fields stored)

  -- The fields beside the swarm's, for older clients.
  pub store_top : Bool → Bytes → Stored → List (String × Json)
  store_top entry_router hash raised = []
  store_top entry_router hash stored =
      if entry_router then ("hash", text hash) ∷ ("difficulty", number 1) ∷ [] else []

  -- The part of the handler of `store` below its checks.
  unfoldable pub accept_store :
      Bool
      → Bool
      → ℕ
      → List (String × Bool × List Bytes)
      → RowIds
      → Disk
      → Node
      → Store
      → Node × Outcome
  unfolding setup_recursive_request process_store hf_at_least compute_message_hash store_mine
      store_top
  accept_store entry_router b64 now early ids disk node req =
      let recurse = entry_router && hf_at_least node hardfork_recursive_store in
      let (node', res) = setup_recursive_request recurse b64 "store" (store_bt req) node in
      let hash =
        compute_message_hash env req.timestamp req.expiry req.pubkey req.payload
          (not (hf_at_least node hardfork_hash_blake2b)) in
      let (node'', stored) = process_store env.hex env.codec env.is_mainnet ids disk node' (record {
        pubkey = req.pubkey;
        hash = hash;
        timestamp = req.timestamp;
        expiry = req.expiry;
        payload = req.payload;
      }) in
      (
        node'',
        waiting (
            own_part (peer_replies env res early) recurse (own_key env node)
              (store_mine entry_router b64 now hash stored) (store_top entry_router hash stored)),
      )

  unfoldable pub process_store_req :
      Bool
      → Bool
      → ℕ
      → List (String × Bool × List Bytes)
      → RowIds
      → Disk
      → Node
      → Store
      → Node × Outcome
  unfolding handle_wrong_swarm accept_store
  process_store_req recurse b64 now early ids disk node req =
      if not (is_pubkey_for_us node.swarm req.pubkey.pubkey)
      then (node, handle_wrong_swarm node req.pubkey)
      else if ltb req.expiry (req.timestamp + ttl_minimum)
          || ltb (req.timestamp + ttl_maximum) req.expiry
      then (node, replied forbidden (plain "Provided expiry/TTL is not valid."))
      else if ltb (now + store_tolerance) req.timestamp || ltb (req.expiry + store_tolerance) now
      then (node, replied not_acceptable (plain "Timestamp error: check your clock"))
      else accept_store recurse b64 now early ids disk node req

  abbrev pub shown : Bool → Message → Shown
  shown b64 msg = record {
    hash = msg.hash;
    timestamp = msg.timestamp;
    expiration = msg.expiry;
    payload = if b64 then env.codec.to_base64 msg.payload else msg.payload;
  }

  -- The end of the handler of `retrieve`, with MasterNode::retrieve.
  unfoldable pub answer_retrieve : Bool → ℕ → Node → Retrieve → Node × Outcome
  answer_retrieve b64 now node req =
      let last_hash : Bytes = elim req.last_hash [ none ↦ [] | some h ↦ h ] in
      let msgs =
        Storage.retrieve node.db req.pubkey last_hash (some client_retrieve_message_limit) in
      (
        record node { stats = bump_requests retrieve node.stats },
        replied ok (messages (map (shown b64) msgs) now),
      )

  unfoldable pub process_retrieve : Bool → ℕ → Node → Retrieve → Node × Outcome
  unfolding handle_wrong_swarm answer_retrieve verify_signature is_near
  process_retrieve b64 now node req =
      if not (is_pubkey_for_us node.swarm req.pubkey.pubkey)
      then (node, handle_wrong_swarm node req.pubkey)
      else elim req.check_signature [
        | none ↦ answer_retrieve b64 now node req
        | some (signed, timestamp) ↦
            if not (is_near now signature_tolerance timestamp)
            then (
              node,
              replied not_acceptable (plain "retrieve timestamp too far from current time"),
            )
            else if not (
                verify_signature env signed
                  (bytes (env.literal "retrieve") ∷ integer timestamp ∷ []))
            then (node, replied unauthorized (plain "retrieve signature verification failed"))
            else answer_retrieve b64 now node req
      ]

-- The handler of `get_swarm`.
pub process_get_swarm : Node → UserPubkey → Outcome
process_get_swarm node pubkey =
    replied ok (swarm (get_swarm_by_pk node.swarm.all_valid_swarms pubkey.pubkey))
