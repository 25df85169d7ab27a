-- ===== src/Handler/Messages/Retrieved.antt =====
-- A message that a client stores can be read back.
use beldex_storage_server.Prelude.{
  ℕ, ◌+◌, ◌≤◌, ◌≡◌, ◌⊎◌, inl, inr, Bool, true, not, ◌&&◌, ◌||◌, some, List, Bytes, String, ltb,
  refl, Bool-cases, arith,
}
use beldex_storage_server.Common.{Message}
use beldex_storage_server.Swarm.Closest.{is_pubkey_for_us}
use beldex_storage_server.Storage.{
  RowIds, Disk, Database, Stored, inserted, already_there, db_full, raised, store, retrieve_by_hash,
}
use beldex_storage_server.Storage.Invariant.{WellFormed}
use beldex_storage_server.Storage.Store.{StoreResult, store_lem}
use beldex_storage_server.Rpc.{Store}
use beldex_storage_server.Handler.{
  Env, ttl_minimum, ttl_maximum, store_tolerance, compute_message_hash,
}
use beldex_storage_server.MasterNode.{
  Node, relay_legacy, has_raised, hardfork_recursive_store, hf_at_least, hardfork_hash_blake2b,
  process_store,
}
use beldex_storage_server.Handler.Client.{setup_recursive_request}
use beldex_storage_server.Handler.Messages.{accept_store, process_store_req}

-- The message that the handler makes of a request.
abbrev pub message_of : Env → Node → Store → Message
message_of env node req = record {
  pubkey = req.pubkey;
  hash =
      compute_message_hash env req.timestamp req.expiry req.pubkey req.payload
        (not (hf_at_least node hardfork_hash_blake2b));
  timestamp = req.timestamp;
  expiry = req.expiry;
  payload = req.payload;
}

db-process_store :
    (env : Env) (ids : RowIds) (disk : Disk) (node : Node) (msg : Message)
    → (process_store env.hex env.codec env.is_mainnet ids disk node msg).0.db
      ≡ (store ids disk node.db msg).0
unfolding process_store
db-process_store env ids disk node msg =
    elim (Bool-cases (has_raised (store ids disk node.db msg).1)) [
      | inl t ↦ rw t refl
      | inr f ↦ rw f (elim (Bool-cases (hf_at_least node hardfork_recursive_store)) [
        | inl g ↦ rw (g, relay_legacy) refl
        | inr g ↦ rw (g, relay_legacy) refl
      ])
    ]

db-accept_store :
    (env : Env) (recurse b64 : Bool) (now : ℕ) (early : List (String × Bool × List Bytes))
    (ids : RowIds) (disk : Disk) (node : Node) (req : Store)
    → (accept_store env recurse b64 now early ids disk node req).0.db
      ≡ (store ids disk node.db (message_of env node req)).0
unfolding accept_store setup_recursive_request
db-accept_store env recurse b64 now early ids disk node req =
    elim (Bool-cases (recurse && hf_at_least node hardfork_recursive_store)) [
      | inl t ↦ rw t (db-process_store env ids disk _ (message_of env node req))
      | inr f ↦ rw f (db-process_store env ids disk _ (message_of env node req))
    ]

-- What the answer of the database means for the message.
retrieved :
    (ids : RowIds) (disk : Disk) (db : Database) (msg : Message) (r : Database × Stored)
    → StoreResult ids disk db msg r
    → (r.0 ≡ db) ⊎ (WellFormed r.0 × (retrieve_by_hash r.0 msg.hash ≡ some msg))
retrieved ids disk db msg (db', inserted) (h, w, e) = inr (w, e)
retrieved ids disk db msg (db', already_there) (h, e) = inl e
retrieved ids disk db msg (db', db_full) (h, e) = inl e
retrieved ids disk db msg (db', raised) (h, e) = inl e

-- A store request leaves the database as it is, or it is for a user of this node's swarm, its time to
-- live lies between ten seconds and fourteen days, it is neither stamped more than ten seconds ahead
-- nor expired for more than ten, and the database is still well formed and gives the message back,
-- whole, for the hash computed for it.
pub process_store_req_lem :
    (env : Env) (recurse b64 : Bool) (now : ℕ) (early : List (String × Bool × List Bytes))
    (ids : RowIds) (disk : Disk) (node : Node) (req : Store)
    → WellFormed node.db
    → let db' = (process_store_req env recurse b64 now early ids disk node req).0.db in
      let msg = message_of env node req in
      (db' ≡ node.db)
      ⊎ ((is_pubkey_for_us node.swarm req.pubkey.pubkey ≡ true)
          × (req.timestamp + ttl_minimum ≤ req.expiry)
          × (req.expiry ≤ req.timestamp + ttl_maximum)
          × (req.timestamp ≤ now + store_tolerance)
          × (now ≤ req.expiry + store_tolerance)
          × WellFormed db'
          × (retrieve_by_hash db' msg.hash ≡ some msg))
unfolding process_store_req
process_store_req_lem env recurse b64 now early ids disk node req w =
    elim (Bool-cases (is_pubkey_for_us node.swarm req.pubkey.pubkey)) [
      | inr f ↦ rw f (inl refl)
      | inl t ↦
          elim (Bool-cases (
            ltb req.expiry (req.timestamp + ttl_minimum)
            || ltb (req.timestamp + ttl_maximum) req.expiry)) [
              | inl bad ↦ rw (t, bad) (inl refl)
              | inr ttl ↦
                  elim (Bool-cases (
                    ltb (now + store_tolerance) req.timestamp
                    || ltb (req.expiry + store_tolerance) now)) [
                      | inl bad ↦ rw (t, ttl, bad) (inl refl)
                      | inr time ↦
                          let same = db-accept_store env recurse b64 now early ids disk node req in
                          rw (t, ttl, time, same)
                            (elim (retrieved ids disk node.db (message_of env node req)
                              (store ids disk node.db (message_of env node req))
                              (store_lem ids disk node.db (message_of env node req) w)) [
                                | inl e ↦ inl e
                                | inr (w', e) ↦ inr (
                                  refl,
                                  ground arith,
                                  ground arith,
                                  ground arith,
                                  ground arith,
                                  w',
                                  e,
                                )
                              ])
                    ]
            ]
    ]
