-- ===== src/Examples/Servers.antt =====
-- Requests to the servers of a node.
use beldex_storage_server.Prelude.{
  ◌≢◌, bytes_beq, le_bytes, from_le, from_be, ◌++◌, ◌↔◌, codes, Bytes, some, find, be_bytes,
  replicate, take, drop, byte_range, ◌*◌, ◌||◌, ℕ, ◌+◌, ◌-◌, ◌≡◌, ◌<◌, ◌≤◌, ◌⊎◌, refl, true, false,
  none, [], ◌∷◌, length, arith, nat_eq,
}
use beldex_storage_server.Keys.Coding.{key_of, parse_pubkey, Base32z, view}
use beldex_storage_server.Common.{Message}
use beldex_storage_server.Utils.Strings.{lowercase_ascii_string}
use beldex_storage_server.Swarm.{find_node, find_node_x25519}
use beldex_storage_server.MasterNode.{
  Node, send_to, storage_test, hf_at_least, hardfork_bmq_storage_tests,
}
use beldex_storage_server.MasterNode.StorageTest.{send_storage_test_req}
use beldex_storage_server.Signature.{
  from_base64, hash_data, Curve, Keypair, generate_signature, check_signature,
}
use beldex_storage_server.Signature.Checked.{check_signature-generate_signature}
use beldex_storage_server.BmqServer.StorageTest.{asked, handle_storage_test}
use beldex_storage_server.BmqServer.StorageTest.Sent.{IsHash, hex_hash, handle_storage_test-sent}
use beldex_storage_server.BmqServer.Values.{
  Bt, items, nil, fields, field, end, integer, json_to_bt, bt_to_json,
}
use beldex_storage_server.BmqServer.Values.Converted.{HasFields, json_to_bt-bt_to_json}
use beldex_storage_server.HttpsServer.Signed.{
  find_header, Request, SignedEnv, sender, validate_mnode_signature,
}
use beldex_storage_server.HttpsServer.Signed.Valid.{IsSigned, validate_mnode_signature_iff}
use beldex_storage_server.Examples.Concrete.{hex, to_digits, message}
use beldex_storage_server.Examples.Codes.{codec}
use beldex_storage_server.Examples.Peers.{node, member}
use beldex_storage_server.HttpsServer.Address.{remote_address, word_at, shorts}
use beldex_storage_server.HttpsServer.Address.Text.{
  IsLongest, joined, shortened, remote_address-IsLongest,
}
use beldex_storage_server.HttpsServer.Calls.{
  Call, handle_request, on_data, queue_response, run_deferred, queued, written_by, Reachable, begin,
  then_, received, answered, looped,
}
use beldex_storage_server.HttpsServer.Calls.Once.{Reachable-once, Reachable-answered}

-- The bytes of ::1.
abbrev loopback : Bytes
loopback = replicate 15 0 ++ 1 ∷ []

abbrev digit : ℕ → Bytes
digit n = (48 + n) ∷ []

loopback_text : remote_address digit digit (λ b. b) loopback ≡ codes "[::1]"
unfolding remote_address
loopback_text = refl

remote_address-IsLongest_example :
    ((s e : ℕ) × IsLongest (word_at (shorts loopback)) 8 s e
      × (remote_address digit digit (λ b. b) loopback
          ≡ codes "[" ++ (shortened digit digit (λ b. b) (shorts loopback) s e ++ codes "]")))
    ⊎ (((i : ℕ) → (8 ≤ i) ⊎ (word_at (shorts loopback) i ≢ 0))
        × (remote_address digit digit (λ b. b) loopback
            ≡ codes "[" ++ (joined digit (shorts loopback) ++ codes "]")))
remote_address-IsLongest_example = remote_address-IsLongest digit digit (λ b. b) loopback refl

-- A request that is received whole and answered.
abbrev opened : Call ℕ
opened = handle_request none none

abbrev whole : Call ℕ
whole = on_data (1 ∷ []) true opened

abbrev replied : Call ℕ
replied = queue_response 200 whole

abbrev done : Call ℕ
done = run_deferred (queued 200) [] replied

done-Reachable : Reachable none none done
unfolding handle_request on_data queue_response
done-Reachable =
    then_ replied done
      (then_ whole replied (then_ opened whole begin (received (1 ∷ []) true opened refl refl))
        (answered 200 whole refl refl))
      (looped (queued 200) [] replied refl)

Reachable-once_example :
    length done.written + length done.deferred ≤ length (written_by {A = ℕ} none) + 1
Reachable-once_example = Reachable-once none none done done-Reachable

done_settled :
    (done.aborted ≡ false) × ((done.replied || done.destroyed) ≡ true) × (done.deferred ≡ [])
unfolding handle_request on_data queue_response run_deferred
done_settled = (refl, refl, refl)

Reachable-answered_example : length done.written ≡ length (written_by {A = ℕ} none) + 1
Reachable-answered_example =
    Reachable-answered none none done done-Reachable done_settled.0 done_settled.1 done_settled.2

abbrev curve : Curve
curve = record {
  cn_fast_hash = λ b. b;
  generichash = λ n b. take n b;
  scalar_reduce = λ b. length b;
  scalar_mul = λ a c. a * c;
  scalar_sub = λ x y. x - y;
  base_noclamp = λ s. (0, true);
  noclamp = λ c p. some 0;
  add = λ p q. some 0;
  is_valid_point = λ p. true;
  add-noclamp = λ a c x p m b v. refl;
}

abbrev keys : Keypair
keys = record { pubkey = 0; seckey = 9 }

check_signature-generate_signature_example :
    check_signature curve (generate_signature curve (1 ∷ 2 ∷ []) keys) (1 ∷ 2 ∷ []) 0 ≡ true
check_signature-generate_signature_example =
    check_signature-generate_signature curve (1 ∷ 2 ∷ []) keys 0 refl refl refl refl

-- Twenty more bytes.
abbrev to_base32z : Bytes → Bytes
to_base32z b = replicate 20 0 ++ b

length-to_base32z : (b : Bytes) → length b ≡ 32 → length (to_base32z b) ≡ 52
length-to_base32z b h = omega (arith, h)

base32z : Base32z
base32z = record {
  is_base32z = λ b. true;
  to_base32z = to_base32z;
  from_base32z = λ b. drop 20 b;
  is_base32z-to_base32z = λ b. refl;
  from_base32z-to_base32z = λ b. refl;
  length-to_base32z = length-to_base32z;
}

abbrev signed_env : SignedEnv
signed_env = record {
  hex = hex;
  codec = codec;
  base32z = base32z;
  curve = curve;
  uninitialized = 0;
}

hashed : IsHash hex codec (to_digits (replicate 64 7)) (replicate 64 7)
hashed = hex_hash (replicate 64 7) refl

-- A node that knows the tester by its x25519 key.
abbrev testee : Node
testee = record node {
  swarm = record node.swarm {
    all_funded_nodes = (2, member 2) ∷ [];
    all_funded_x25519 = (202, 2) ∷ [];
  };
}

-- The bytes of a signature, whose challenge is 64.
abbrev signature_text : Bytes
signature_text = 64 ∷ replicate 85 0

abbrev request : Request
request = record {
  body = 123 ∷ 125 ∷ [];
  headers =
      (codes "x-beldex-mnode-pubkey", be_bytes 32 2)
      ∷ (codes "x-beldex-mnode-signature", signature_text)
      ∷ [];
}

request_accepted : validate_mnode_signature signed_env testee request false ≡ sender 2
unfolding validate_mnode_signature bytes_beq lowercase_ascii_string parse_pubkey be_bytes key_of
    from_be from_base64 find_node find check_signature hash_data le_bytes from_le
request_accepted = refl

request_named : find_header (codes "X-Beldex-Mnode-PubKey") request.headers ≡ some (be_bytes 32 2)
unfolding find_header bytes_beq lowercase_ascii_string
request_named = refl

validate_mnode_signature_example :
    (validate_mnode_signature signed_env testee request false ≡ sender 2) ↔ (
      (parse_pubkey signed_env.hex signed_env.codec signed_env.base32z (be_bytes 32 2) ≡ 2)
      × IsSigned signed_env testee request 2)
validate_mnode_signature_example =
    validate_mnode_signature_iff signed_env testee request (be_bytes 32 2) request_named 2

testee_knows : find_node_x25519 testee.swarm 202 ≡ some (member 2)
unfolding find_node_x25519 find_node find
testee_knows = refl

abbrev tested : Message
tested = record message { hash = to_digits (replicate 64 7) }

node_tests : hf_at_least node hardfork_bmq_storage_tests ≡ true
unfolding hf_at_least
node_tests = refl

small_key : 202 < byte_range 32
unfolding byte_range
small_key = omega arith

handle_storage_test-sent_example :
    (send_storage_test_req hex codec (member 2) 46 tested node
      ≡ send_to (member 2 ∷ []) (storage_test 50 (replicate 64 7)) node)
    × (handle_storage_test hex codec
          (λ b. some 50)
          testee
          (view 202)
          ((50 ∷ []) ∷ replicate 64 7 ∷ [])
        ≡ asked 50 2 (to_digits (replicate 64 7)))
handle_storage_test-sent_example =
    handle_storage_test-sent hex codec (λ b. some 50) (λ n. n ∷ []) (member 2) (member 2) 46 tested
      node testee 202 (replicate 64 7) hashed node_tests (λ q. ground arith) refl small_key
      testee_knows

abbrev value : Bt
value = fields (field (codes "a") (items nil) (field (codes "b") (integer 3) end))

json_to_bt-bt_to_json_example : (json_to_bt (bt_to_json value) ≡ some value) ↔ HasFields value
json_to_bt-bt_to_json_example = json_to_bt-bt_to_json value
