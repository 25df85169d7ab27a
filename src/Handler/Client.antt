-- ===== src/Handler/Client.antt =====
-- `process_client_req` of httpserver/request_handler.cpp for each request, and the functions of
-- httpserver/master_node.cpp that it calls. The peers that answer before the node has done its own
-- part are the argument `early`.
pub mod Authorized
use beldex_storage_server.Prelude.{
  ℕ, ◌+◌, ◌-◌, Bool, true, false, not, ◌&&◌, ◌||◌, Option, none, some, List, [], ◌∷◌, ◌==◌, ◌++◌,
  nat_eq, string_eq, Bytes, String, ltb, leb, map, length, if◌then◌else◌,
}
use beldex_storage_server.Keys.{X25519Pubkey}
use beldex_storage_server.Common.{UserPubkey, Message, prefixed_hex}
use beldex_storage_server.Swarm.{MnRecord, Swarm}
use beldex_storage_server.Swarm.Closest.{get_swarm_by_pk, is_pubkey_for_us}
use beldex_storage_server.Storage.{
  RowIds, Disk, Database, Stored, inserted, already_there, db_full, raised,
}
use beldex_storage_server.Storage
use beldex_storage_server.Rpc.{
  BtDict, Signed, Store, Retrieve, DeleteMsgs, DeleteAll, DeleteBefore, ExpireAll, ExpireMsgs,
}
use beldex_storage_server.Rpc.Load.{
  store_bt, delete_msgs_bt, delete_all_bt, delete_before_bt, expire_all_bt, expire_msgs_bt,
}
use beldex_storage_server.MasterNode.{Node, Sent, storage_cc, send_to}
use beldex_storage_server.Handler.{
  Json, flag, number, text, texts, object, Fields, end, ok, unauthorized, forbidden, not_acceptable,
  misdirected_request, ttl_minimum, ttl_maximum, store_tolerance, signature_tolerance,
  signature_tolerance_forwarded, Shown, Body, plain, json, swarm, messages, Response, Env, Part,
  bytes, strings, integer, verify_signature, create_signature, compute_message_hash,
}
use beldex_storage_server.Handler.Reply.{SwarmResponse, peer_replies, own_part}

-- A handler's answer: a response at once, or one that waits for the peers.
pub data Outcome : Type 0 where
  replied : ℕ → Body → Outcome
  waiting : SwarmResponse → Outcome

-- setup_recursive_request, with the requests that distribute_command sends.
unfoldable pub setup_recursive_request : Bool → Bool → String → BtDict → Node → Node × SwarmResponse
unfolding send_to
setup_recursive_request recurse b64 cmd req node =
    if recurse
    then (
      send_to node.swarm.swarm_peers (storage_cc cmd req) node,
      record { pending = 1 + length node.swarm.swarm_peers; b64 = b64; result = end; replies = [] },
    )
    else (node, record { pending = 1; b64 = b64; result = end; replies = [] })

unfoldable pub handle_wrong_swarm : Node → UserPubkey → Outcome
handle_wrong_swarm node pubkey =
    replied misdirected_request (swarm (get_swarm_by_pk node.swarm.all_valid_swarms pubkey.pubkey))

-- now - tolerance <= time <= now + tolerance
unfoldable pub is_near : ℕ → ℕ → ℕ → Bool
is_near now tolerance time = not (ltb (time + tolerance) now || ltb (now + tolerance) time)

abbrev pub tolerance_of : Bool → ℕ
tolerance_of recurse = if recurse then signature_tolerance else signature_tolerance_forwarded

abbrev pub with_time : Bool → ℕ → List (String × Json) → List (String × Json)
with_time recurse now mine = if recurse then mine ++ ("t", number now) ∷ [] else mine

module _ (env : Env) where
  abbrev pub own_key : Node → String
  own_key node = env.ed25519_hex node.swarm.our_address.pubkey_ed25519

  abbrev pub shown_signature : Bool → Bytes → Json
  shown_signature b64 sig = text (if b64 then env.codec.to_base64 sig else sig)

  -- The fields of the node's own part after a deletion or an update of `hashes`; `before` and `after`
  -- are what is signed about them.
  unfoldable pub hashes_mine :
      Bool → Bool → ℕ → String → UserPubkey → List Part → List Bytes → List (String × Json)
  unfolding create_signature
  hashes_mine recurse b64 now name pubkey parts hashes =
      let sorted = env.sort hashes in
      let sig =
        create_signature env
          (bytes (prefixed_hex env.hex env.is_mainnet pubkey) ∷ (parts ++ strings sorted ∷ [])) in
      with_time recurse now ((name, texts sorted) ∷ ("signature", shown_signature b64 sig) ∷ [])

  -- The common end of the handlers of signed requests: the request goes out, the database changes by
  -- `change`, and the node's own part joins the answers. An exception of the database is left out.
  unfoldable pub run_signed :
      Bool
      → Bool
      → ℕ
      → List (String × Bool × List Bytes)
      → Node
      → String
      → BtDict
      → String
      → UserPubkey
      → List Part
      → (Database → Database × List Bytes)
      → Node × Outcome
  unfolding setup_recursive_request hashes_mine
  run_signed recurse b64 now early node cmd req name pubkey parts change =
      let (node', res) = setup_recursive_request recurse b64 cmd req node in
      let (db', hashes) = change node'.db in
      (
        record node' { db = db' },
        waiting (
            own_part (peer_replies env res early) recurse (own_key node)
              (hashes_mine recurse b64 now name pubkey parts hashes) []),
      )

  module _ (recurse b64 : Bool) (now : ℕ) (early : List (String × Bool × List Bytes))
      (node : Node) where
    unfoldable pub process_delete_all : DeleteAll → Node × Outcome
    unfolding is_near handle_wrong_swarm verify_signature run_signed
    process_delete_all req =
        let pk = req.signed.pubkey in
        if not (is_pubkey_for_us node.swarm pk.pubkey)
        then (node, handle_wrong_swarm node pk)
        else if not (is_near now (tolerance_of recurse) req.timestamp)
        then (node, replied not_acceptable (plain "delete_all timestamp too far from current time"))
        else if not (
            verify_signature env req.signed
              (bytes (env.literal "delete_all") ∷ integer req.timestamp ∷ []))
        then (node, replied unauthorized (plain "delete_all signature verification failed"))
        else run_signed recurse b64 now early node "delete_all" (delete_all_bt req) "deleted" pk
            (integer req.timestamp ∷ []) (λ db. Storage.delete_all db pk)

    unfoldable pub process_delete_msgs : DeleteMsgs → Node × Outcome
    unfolding handle_wrong_swarm verify_signature run_signed
    process_delete_msgs req =
        let pk = req.signed.pubkey in
        if not (is_pubkey_for_us node.swarm pk.pubkey)
        then (node, handle_wrong_swarm node pk)
        else if not (
            verify_signature env req.signed
              (bytes (env.literal "delete") ∷ strings req.messages ∷ []))
        then (node, replied unauthorized (plain "delete_msgs signature verification failed"))
        else run_signed recurse b64 now early node "delete" (delete_msgs_bt req) "deleted" pk
            (strings req.messages ∷ []) (λ db. Storage.delete_by_hash db pk req.messages)

    unfoldable pub process_delete_before : DeleteBefore → Node × Outcome
    unfolding handle_wrong_swarm verify_signature run_signed
    process_delete_before req =
        let pk = req.signed.pubkey in
        if not (is_pubkey_for_us node.swarm pk.pubkey)
        then (node, handle_wrong_swarm node pk)
        else if ltb (now + 60000) req.before
        then (node, replied unauthorized (plain "delete_before timestamp too far in the future"))
        else if not (
            verify_signature env req.signed
              (bytes (env.literal "delete_before") ∷ integer req.before ∷ []))
        then (node, replied unauthorized (plain "delete_before signature verification failed"))
        else run_signed recurse b64 now early node "delete_before" (delete_before_bt req) "deleted"
            pk (integer req.before ∷ []) (λ db. Storage.delete_by_timestamp db pk req.before)

    unfoldable pub process_expire_all : ExpireAll → Node × Outcome
    unfolding handle_wrong_swarm verify_signature run_signed
    process_expire_all req =
        let pk = req.signed.pubkey in
        if not (is_pubkey_for_us node.swarm pk.pubkey)
        then (node, handle_wrong_swarm node pk)
        else if ltb (req.expiry + tolerance_of recurse) now
        then (node, replied not_acceptable (plain "expire_all timestamp should be >= current time"))
        else if not (
            verify_signature env req.signed
              (bytes (env.literal "expire_all") ∷ integer req.expiry ∷ []))
        then (node, replied unauthorized (plain "expire_all signature verification failed"))
        else run_signed recurse b64 now early node "expire_all" (expire_all_bt req) "updated" pk
            (integer req.expiry ∷ []) (λ db. Storage.update_all_expiries db pk req.expiry)

    unfoldable pub process_expire_msgs : ExpireMsgs → Node × Outcome
    unfolding handle_wrong_swarm verify_signature run_signed
    process_expire_msgs req =
        let pk = req.signed.pubkey in
        if not (is_pubkey_for_us node.swarm pk.pubkey)
        then (node, handle_wrong_swarm node pk)
        else if ltb (req.expiry + 60000) now
        then (node, replied unauthorized (plain "expire_all timestamp should be >= current time"))
        else if not (
            verify_signature env req.signed
              (bytes (env.literal "expire") ∷ integer req.expiry ∷ strings req.messages ∷ []))
        then (node, replied unauthorized (plain "expire_msgs signature verification failed"))
        else run_signed recurse b64 now early node "expire" (expire_msgs_bt req) "updated" pk
            (integer req.expiry ∷ strings req.messages ∷ [])
            (λ db. Storage.update_expiry db pk req.messages req.expiry)
