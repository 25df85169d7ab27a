-- ===== src/Examples/Requests.antt =====
-- Concrete requests of clients.
use beldex_storage_server.Prelude.{
  bytes_beq, ltb, not, ◌+◌, ◌*◌, ◌-◌, ◌<◌, ◌≤◌, ◌≡◌, ◌≢◌, ◌⊎◌, inr, true, false, none, some, List,
  [], ◌∷◌, arith, refl, length, All, Bytes, replicate, string_eq, ne_of_==, nat_eq,
}
use beldex_storage_server.Swarm.Space.{pubkey_to_swarm_space}
use beldex_storage_server.Swarm.Closest.{get_swarm_by_pk, is_pubkey_for_us}
use beldex_storage_server.Storage.{
  empty, fine, retrieve_by_hash, delete_all, delete_by_hash, delete_by_timestamp,
  update_all_expiries, update_expiry,
}
use beldex_storage_server.Storage.Invariant.{WellFormed, empty-WellFormed}
use beldex_storage_server.Rpc.{
  parsed, Base64, Signed, Store, DeleteMsgs, DeleteAll, DeleteBefore, ExpireAll, ExpireMsgs,
}
use beldex_storage_server.Rpc.Load.{
  load_delete_all, load_delete_msgs, load_delete_before, load_expire_all, load_expire_msgs,
  delete_all_bt, delete_msgs_bt, delete_before_bt, expire_all_bt, expire_msgs_bt,
  is_valid_message_hash,
}
use beldex_storage_server.Rpc.Load.Forward.{IsSigned, load-to_bt}
use beldex_storage_server.Handler.{
  verify_signature, Env, Response, end, flag, ok, bytes, strings, integer,
}
use beldex_storage_server.Handler.Reply.{SwarmResponse}
use beldex_storage_server.Handler.Reply.Once.{Call, answer, own, calls, calls-once}
use beldex_storage_server.Handler.Reply.AlwaysOk.{replies-ok}
use beldex_storage_server.Handler.Client.{
  tolerance_of, is_near, process_delete_all, process_delete_msgs, process_delete_before,
  process_expire_all, process_expire_msgs,
}
use beldex_storage_server.Handler.Client.Authorized.{checked, Guarded, requests-Guarded}
use beldex_storage_server.Handler.Messages.{process_store_req}
use beldex_storage_server.Handler.Messages.Retrieved.{message_of, process_store_req_lem}
use beldex_storage_server.Examples.Concrete.{hex, user, user-IsKey, ids}
use beldex_storage_server.Examples.Codes.{codec}
use beldex_storage_server.Examples.Peers.{node}

abbrev base64 : Base64
base64 = record { is_base64 = λ b. true }

abbrev request : Store
request = record { pubkey = user 5; timestamp = 100000; expiry = 900000; payload = 9 ∷ [] }

abbrev signed : Signed
signed = record {
  pubkey = user 5;
  pubkey_ed25519 = some (replicate 32 3);
  signature = replicate 64 1;
}

signed-IsSigned : IsSigned signed 5
signed-IsSigned = record {
  key = user-IsKey 5;
  signature_size = refl;
  ed25519 = inr (refl, (replicate 32 3, refl, refl));
}

abbrev hashes : List Bytes
hashes = replicate 43 65 ∷ []

some_hash : hashes ≢ []
some_hash e = cc

abbrev all : DeleteAll
all = record { signed = signed; timestamp = 100000 }

abbrev msgs : DeleteMsgs
msgs = record { signed = signed; messages = hashes }

abbrev before : DeleteBefore
before = record { signed = signed; before = 100000 }

abbrev expire : ExpireAll
expire = record { signed = signed; expiry = 100000 }

abbrev expire_some : ExpireMsgs
expire_some = record { signed = signed; expiry = 100000; messages = hashes }

load_to_bt_example :
    (load_delete_all hex base64 true (delete_all_bt all) ≡ parsed all)
    × (load_delete_msgs hex base64 true (delete_msgs_bt msgs) ≡ parsed msgs)
    × (load_delete_before hex base64 true (delete_before_bt before) ≡ parsed before)
    × (load_expire_all hex base64 true (expire_all_bt expire) ≡ parsed expire)
    × (load_expire_msgs hex base64 true (expire_msgs_bt expire_some) ≡ parsed expire_some)
unfolding is_valid_message_hash
load_to_bt_example =
    load-to_bt hex base64 true signed 5 100000 hashes signed-IsSigned some_hash refl

abbrev env : Env
env = record {
  hex = hex;
  is_mainnet = true;
  pk_to_curve25519 = λ pk. some (replicate 32 7);
  verify_detached = λ sig msg pk. true;
  sign_detached = λ msg. replicate 64 1;
  sha512 = λ parts. replicate 64 2;
  blake2b = λ parts. replicate 32 2;
  codec = codec;
  bt_to_json = λ b. none;
  to_chars = λ n. n ∷ [];
  literal = λ s. [];
  sort = λ h. h;
  ed25519_hex = λ k. "own";
  what = [];
}

abbrev answers : List Call
answers = answer "peer" false [] ∷ own true "own" (("failed", flag true) ∷ []) [] ∷ []

abbrev fresh : SwarmResponse
fresh = record { pending = 2; b64 = true; result = end; replies = [] }

once_example :
    ((2 < 2)
      × ((calls env fresh answers).replies ≡ [])
      × ((calls env fresh answers).pending ≡ 2 - 2))
    ⊎ ((length answers ≡ 2) × (length (calls env fresh answers).replies ≡ 0 + 1))
once_example = calls-once env fresh answers (omega arith) (omega arith)

replies_ok_example : All (λ (r : Response). r.status ≡ ok) (calls env fresh answers).replies
replies_ok_example =
    replies-ok env answers 2 true
      (ne_of_== "peer" "failed" refl, ((refl, ne_of_== "own" "failed" refl, tt), tt))

deletion_checked :
    checked env node
      (not (is_near 100000 (tolerance_of true) 100000))
      signed
      (bytes (env.literal "delete_all") ∷ integer 100000 ∷ [])
    ≡ true
unfolding is_near is_pubkey_for_us get_swarm_by_pk verify_signature pubkey_to_swarm_space bytes_beq
deletion_checked = refl

requests-Guarded_example :
    Guarded env node
      (not (is_near 100000 (tolerance_of true) 100000))
      signed
      (bytes (env.literal "delete_all") ∷ integer 100000 ∷ [])
      (λ db. delete_all db (user 5))
      (process_delete_all env true true 100000 [] node all)
    × Guarded env node false signed
        (bytes (env.literal "delete") ∷ strings hashes ∷ [])
        (λ db. delete_by_hash db (user 5) hashes)
        (process_delete_msgs env true true 100000 [] node msgs)
    × Guarded env node
        (ltb (100000 + 60000) 100000)
        signed
        (bytes (env.literal "delete_before") ∷ integer 100000 ∷ [])
        (λ db. delete_by_timestamp db (user 5) 100000)
        (process_delete_before env true true 100000 [] node before)
    × Guarded env node
        (ltb (100000 + tolerance_of true) 100000)
        signed
        (bytes (env.literal "expire_all") ∷ integer 100000 ∷ [])
        (λ db. update_all_expiries db (user 5) 100000)
        (process_expire_all env true true 100000 [] node expire)
    × Guarded env node
        (ltb (100000 + 60000) 100000)
        signed
        (bytes (env.literal "expire") ∷ integer 100000 ∷ strings hashes ∷ [])
        (λ db. update_expiry db (user 5) hashes 100000)
        (process_expire_msgs env true true 100000 [] node expire_some)
requests-Guarded_example =
    requests-Guarded env true true 100000 [] node all msgs before expire expire_some

stored_example :
    ((process_store_req env true true 100000 [] ids fine node request).0.db ≡ empty)
    ⊎ ((is_pubkey_for_us node.swarm (user 5).pubkey ≡ true)
        × (100000 + 10000 ≤ 900000)
        × (900000 ≤ 100000 + 14 * (24 * (3600 * 1000)))
        × (100000 ≤ 100000 + 10000)
        × (100000 ≤ 900000 + 10000)
        × WellFormed (process_store_req env true true 100000 [] ids fine node request).0.db
        × (retrieve_by_hash
              (process_store_req env true true 100000 [] ids fine node request).0.db
              (message_of env node request).hash
            ≡ some (message_of env node request)))
stored_example =
    process_store_req_lem env true true 100000 [] ids fine node request empty-WellFormed
