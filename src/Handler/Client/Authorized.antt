-- ===== src/Handler/Client/Authorized.antt =====
-- When the requests that delete messages or change their expiry do so.
use beldex_storage_server.Prelude.{
  ℕ, ◌≡◌, ◌⊎◌, inl, inr, Bool, true, false, not, ◌&&◌, ◌+◌, ltb, List, [], ◌∷◌, nat_eq, Bytes,
  String, if◌then◌else◌, refl, ap, Bool-cases,
}
use beldex_storage_server.Common.{UserPubkey}
use beldex_storage_server.Swarm.Closest.{is_pubkey_for_us}
use beldex_storage_server.Storage.{
  Database, delete_all, delete_by_hash, delete_by_timestamp, update_all_expiries, update_expiry,
}
use beldex_storage_server.Rpc.{
  BtDict, Signed, DeleteMsgs, DeleteAll, DeleteBefore, ExpireAll, ExpireMsgs,
}
use beldex_storage_server.Rpc.Load.{
  delete_all_bt, delete_msgs_bt, delete_before_bt, expire_all_bt, expire_msgs_bt,
}
use beldex_storage_server.Handler.{
  Env, Part, bytes, strings, integer, plain, unauthorized, not_acceptable, verify_signature,
}
use beldex_storage_server.MasterNode.{Node}
use beldex_storage_server.Handler.Client.{
  Outcome, replied, is_near, tolerance_of, handle_wrong_swarm, setup_recursive_request, run_signed,
  process_delete_all, process_delete_msgs, process_delete_before, process_expire_all,
  process_expire_msgs,
}

-- The checks of a request: the user is one of this swarm, the time is not refused as `untimely`, and the
-- user signed `parts`.
abbrev pub checked : Env → Node → Bool → Signed → List Part → Bool
checked env node untimely signed parts =
    is_pubkey_for_us node.swarm signed.pubkey.pubkey
    && (not untimely && verify_signature env signed parts)

-- The node after a handler: the checks pass and the database is changed by `change`, or they do not and
-- the node is as before.
abbrev pub Guarded :
    Env
    → Node
    → Bool
    → Signed
    → List Part
    → (Database → Database × List Bytes)
    → Node × Outcome
    → Type 0
Guarded env node untimely signed parts change after =
    ((checked env node untimely signed parts ≡ true) × (after.0.db ≡ (change node.db).0))
    ⊎ ((checked env node untimely signed parts ≡ false) × (after.0 ≡ node))

module _ (env : Env) (recurse b64 : Bool) (now : ℕ) (early : List (String × Bool × List Bytes))
    (node : Node) where
  db-setup :
      (cmd : String) (req : BtDict)
      → (setup_recursive_request recurse b64 cmd req node).0.db ≡ node.db
  unfolding setup_recursive_request
  db-setup cmd req = elim (Bool-cases recurse) [ inl t ↦ rw t refl | inr f ↦ rw f refl ]

  db-run_signed :
      (cmd : String) (req : BtDict) (name : String) (pubkey : UserPubkey) (parts : List Part)
      (change : Database → Database × List Bytes)
      → (run_signed env recurse b64 now early node cmd req name pubkey parts change).0.db
        ≡ (change node.db).0
  unfolding run_signed
  db-run_signed cmd req name pubkey parts change = ap (λ db. (change db).0) (db-setup cmd req)

  -- The checks of a handler, in their order.
  checks :
      (mine refused signed : Bool) (a b c : Outcome) (z : Node × Outcome) (db : Database)
      → z.0.db ≡ db
      → let after =
          if not mine
          then (node, a)
          else if refused
          then (node, b)
          else if not signed
          then (node, c)
          else z in
        (((mine && (not refused && signed)) ≡ true) × (after.0.db ≡ db))
        ⊎ (((mine && (not refused && signed)) ≡ false) × (after.0 ≡ node))
  checks true true signed a b c z db h = inr (refl, refl)
  checks true false true a b c z db h = inl (refl, h)
  checks true false false a b c z db h = inr (refl, refl)
  checks false refused signed a b c z db h = inr (refl, refl)

  -- A handler with the checks, whose refusals by time and signature are `b` and `c`.
  handler-Guarded :
      (untimely : Bool) (signed : Signed) (parts : List Part) (b c : Outcome) (cmd : String)
      (req : BtDict) (name : String) (shown : List Part) (change : Database → Database × List Bytes)
      → Guarded env node untimely signed parts change (
          if not (is_pubkey_for_us node.swarm signed.pubkey.pubkey)
          then (node, handle_wrong_swarm node signed.pubkey)
          else if untimely
          then (node, b)
          else if not (verify_signature env signed parts)
          then (node, c)
          else run_signed env recurse b64 now early node cmd req name signed.pubkey shown change)
  handler-Guarded untimely signed parts b c cmd req name shown change =
      checks (is_pubkey_for_us node.swarm signed.pubkey.pubkey) untimely
        (verify_signature env signed parts) (handle_wrong_swarm node signed.pubkey) b c
        (run_signed env recurse b64 now early node cmd req name signed.pubkey shown change)
        (change node.db).0 (db-run_signed cmd req name signed.pubkey shown change)

  -- A request that deletes messages or changes their expiry passes its checks, that the user belongs to
  -- this node's swarm, that the time of the request is not refused, as it may be for all but the
  -- deletion by hashes, and that its signature verifies, and then it makes its own change to the
  -- database and no other, whichever peers have answered; or it fails one of them, and then it leaves
  -- the node as it is and sends nothing.
  pub requests-Guarded :
      (all : DeleteAll) (msgs : DeleteMsgs) (before : DeleteBefore) (expire : ExpireAll)
      (expire_some : ExpireMsgs)
      → Guarded env node
          (not (is_near now (tolerance_of recurse) all.timestamp))
          all.signed
          (bytes (env.literal "delete_all") ∷ integer all.timestamp ∷ [])
          (λ db. delete_all db all.signed.pubkey)
          (process_delete_all env recurse b64 now early node all)
        × Guarded env node false msgs.signed
            (bytes (env.literal "delete") ∷ strings msgs.messages ∷ [])
            (λ db. delete_by_hash db msgs.signed.pubkey msgs.messages)
            (process_delete_msgs env recurse b64 now early node msgs)
        × Guarded env node
            (ltb (now + 60000) before.before)
            before.signed
            (bytes (env.literal "delete_before") ∷ integer before.before ∷ [])
            (λ db. delete_by_timestamp db before.signed.pubkey before.before)
            (process_delete_before env recurse b64 now early node before)
        × Guarded env node
            (ltb (expire.expiry + tolerance_of recurse) now)
            expire.signed
            (bytes (env.literal "expire_all") ∷ integer expire.expiry ∷ [])
            (λ db. update_all_expiries db expire.signed.pubkey expire.expiry)
            (process_expire_all env recurse b64 now early node expire)
        × Guarded env node
            (ltb (expire_some.expiry + 60000) now)
            expire_some.signed
            (bytes (env.literal "expire")
              ∷ integer expire_some.expiry
              ∷ strings expire_some.messages
              ∷ [])
            (λ db.
              update_expiry db expire_some.signed.pubkey expire_some.messages expire_some.expiry)
            (process_expire_msgs env recurse b64 now early node expire_some)
  unfolding process_delete_all process_delete_msgs process_delete_before process_expire_all
      process_expire_msgs
  requests-Guarded all msgs before expire expire_some = (
    handler-Guarded (not (is_near now (tolerance_of recurse) all.timestamp)) all.signed
        (bytes (env.literal "delete_all") ∷ integer all.timestamp ∷ [])
        (replied not_acceptable (plain "delete_all timestamp too far from current time"))
        (replied unauthorized (plain "delete_all signature verification failed")) "delete_all"
        (delete_all_bt all) "deleted" (integer all.timestamp ∷ [])
        (λ db. delete_all db all.signed.pubkey),
    handler-Guarded false msgs.signed (bytes (env.literal "delete") ∷ strings msgs.messages ∷ [])
        (replied unauthorized (plain ""))
        (replied unauthorized (plain "delete_msgs signature verification failed")) "delete"
        (delete_msgs_bt msgs) "deleted" (strings msgs.messages ∷ [])
        (λ db. delete_by_hash db msgs.signed.pubkey msgs.messages),
    handler-Guarded (ltb (now + 60000) before.before) before.signed
        (bytes (env.literal "delete_before") ∷ integer before.before ∷ [])
        (replied unauthorized (plain "delete_before timestamp too far in the future"))
        (replied unauthorized (plain "delete_before signature verification failed")) "delete_before"
        (delete_before_bt before) "deleted" (integer before.before ∷ [])
        (λ db. delete_by_timestamp db before.signed.pubkey before.before),
    handler-Guarded (ltb (expire.expiry + tolerance_of recurse) now) expire.signed
        (bytes (env.literal "expire_all") ∷ integer expire.expiry ∷ [])
        (replied not_acceptable (plain "expire_all timestamp should be >= current time"))
        (replied unauthorized (plain "expire_all signature verification failed")) "expire_all"
        (expire_all_bt expire) "updated" (integer expire.expiry ∷ [])
        (λ db. update_all_expiries db expire.signed.pubkey expire.expiry),
    handler-Guarded (ltb (expire_some.expiry + 60000) now) expire_some.signed
        (bytes (env.literal "expire")
          ∷ integer expire_some.expiry
          ∷ strings expire_some.messages
          ∷ [])
        (replied unauthorized (plain "expire_all timestamp should be >= current time"))
        (replied unauthorized (plain "expire_msgs signature verification failed")) "expire"
        (expire_msgs_bt expire_some) "updated"
        (integer expire_some.expiry ∷ strings expire_some.messages ∷ [])
        (λ db. update_expiry db expire_some.signed.pubkey expire_some.messages expire_some.expiry),
  )
