-- ===== src/OnionRoute/Ends.antt =====
-- An onion request does not travel for ever.
use beldex_storage_server.Prelude.{
  codes, ℕ, zero, suc, ◌+◌, ◌≡◌, ◌≢◌, ◌≤◌, Option, none, some, Bytes, inl, inr, Bool-cases,
  Option-cases, arith, ltb,
}
use beldex_storage_server.Keys.{X25519Pubkey}
use beldex_storage_server.MasterNode.{Node, mnode_ready}
use beldex_storage_server.Onion.{max_onion_hops}
use beldex_storage_server.Channel.{Decrypted, plain, threw, undefined}
use beldex_storage_server.Handler.Onion.{
  OnionRequestMetadata, OnionAction, replied, wrapped, requested, relayed, proxied,
  process_onion_req,
}
use beldex_storage_server.Handler.Onion.Allowed.{Allowed, process_onion_req-Allowed}
use beldex_storage_server.BmqServer.Onion.{
  OnionEnv, Server, encode_onion_data, decode_onion_data, handle_onion_request, handle_decoded,
  process_onion, process_decrypted, parsers,
}
use beldex_storage_server.BmqServer.Onion.Coded.{
  received, decode-encode_onion_data, decode_onion_data-pos,
}
use beldex_storage_server.OnionRoute.{Journey, exhausted, travel, follow}

-- What a relay says of the hops.
abbrev Hops : OnionRequestMetadata → Option (Node × OnionAction) → Type 0
Hops m none = Unit
Hops m (some (node, replied status message)) = Unit
Hops m (some (node, wrapped status message m' json b64)) = Unit
Hops m (some (node, requested body m' json b64)) = Unit
Hops m (some (node, proxied url payload)) = Unit
Hops m (some (node, relayed mn payload m')) =
    (m.hop_no ≤ max_onion_hops) × (m'.hop_no ≡ m.hop_no + 1)

module _ (env : OnionEnv) where
  action-Hops :
      (node node' : Node) (m : OnionRequestMetadata) (a : OnionAction)
      → m.hop_no ≤ max_onion_hops
      → Allowed codes env.to_string node m a
      → Hops m (some (node', a))
  action-Hops node node' m (replied status message) h al = tt
  action-Hops node node' m (wrapped status message m' json b64) h al = tt
  action-Hops node node' m (requested body m' json b64) h al = tt
  action-Hops node node' m (proxied url payload) h al = tt
  action-Hops node node' m (relayed mn payload m') h (dest, e, hop) = (h, hop)

  request-Hops :
      (node : Node) (m : OnionRequestMetadata) (plaintext : Option Bytes)
      → m.hop_no ≤ max_onion_hops
      → Hops m (some (process_onion_req codes env.to_string (parsers env) node m plaintext))
  request-Hops node m plaintext h =
      action-Hops node (process_onion_req codes env.to_string (parsers env) node m plaintext).0 m _
        h (process_onion_req-Allowed codes env.to_string node m (parsers env) plaintext)

  decrypted-Hops :
      (node : Node) (m : OnionRequestMetadata) (o : Decrypted)
      → m.hop_no ≤ max_onion_hops
      → Hops m (process_decrypted env node m o)
  unfolding process_decrypted
  decrypted-Hops node m (plain plaintext) h = request-Hops node m (some plaintext) h
  decrypted-Hops node m threw h = request-Hops node m none h
  decrypted-Hops node m undefined h = tt

  handle_decoded-Hops :
      (server : Server) (payload : Bytes) (m : OnionRequestMetadata)
      → Hops m (handle_decoded env server (some (payload, m)))
  unfolding handle_decoded process_onion
  handle_decoded-Hops server payload m = elim (Bool-cases (ltb max_onion_hops m.hop_no)) [
    | inl far ↦ rw far tt
    | inr near ↦ elim (Bool-cases (mnode_ready server.node)) [
      | inr f ↦ rw (near, f) (request-Hops server.node m none (ground arith))
      | inl t ↦ rw (near, t) (decrypted-Hops server.node m _ (ground arith))
    ]
  ]

  module _ (server_of : X25519Pubkey → Option Server) where
    follow-ends :
        (continue : Server → Bytes → Journey) (m : OnionRequestMetadata)
        (o : Option (Node × OnionAction))
        → Hops m o
        → ((server : Server) (payload : Bytes) (m' : OnionRequestMetadata)
            → m.hop_no ≤ max_onion_hops
            → m'.hop_no ≡ m.hop_no + 1
            → continue server (encode_onion_data env payload m') ≢ exhausted)
        → follow env server_of continue o ≢ exhausted
    unfolding follow
    follow-ends continue m none h k = λ q. cc
    follow-ends continue m (some (node, replied status message)) h k = λ q. cc
    follow-ends continue m (some (node, wrapped status message m' json b64)) h k = λ q. cc
    follow-ends continue m (some (node, requested body m' json b64)) h k = λ q. cc
    follow-ends continue m (some (node, proxied url payload)) h k = λ q. cc
    follow-ends continue m (some (node, relayed mn payload m')) (near, hop) k =
        elim (Option-cases (server_of mn.pubkey_x25519)) [
          | inl e ↦ rw (e, follow) (λ q. cc)
          | inr (server, e) ↦ rw (e, follow) (k server payload m' near hop)
        ]

    undecoded-ends :
        (continue : Server → Bytes → Journey) (server : Server)
        → follow env server_of continue (handle_decoded env server none) ≢ exhausted
    unfolding follow handle_decoded
    undecoded-ends continue server = λ q. cc

    travel-decoded :
        (fuel : ℕ) (server : Server) (payload : Bytes) (m : OnionRequestMetadata)
        → 16 ≤ fuel + m.hop_no
        → follow env server_of
            (travel env server_of fuel)
            (handle_decoded env server (some (payload, m)))
          ≢ exhausted
    unfolding travel handle_onion_request
    travel-decoded zero server payload m h =
        follow-ends (travel env server_of zero) m _ (handle_decoded-Hops server payload m)
          (λ s p m' near hop. absurd (omega (arith, h, near)))
    travel-decoded (suc fuel) server payload m h =
        follow-ends (travel env server_of (suc fuel)) m _ (handle_decoded-Hops server payload m)
          (λ s p m' near hop.
            rw (decode-encode_onion_data env p m' (omega (arith, near, hop)))
              (travel-decoded fuel s p (received m') (ground arith)))

    -- Whatever bytes reach a node as an onion request, after at most 15 relays its way has ended.
    pub travel-ends :
        (server : Server) (wire : Bytes) → travel env server_of 16 server wire ≢ exhausted
    unfolding travel handle_onion_request handle_decoded
    travel-ends server wire = elim (Option-cases (decode_onion_data env wire)) [
      | inl e ↦ rw e (undecoded-ends (travel env server_of 15) server)
      | inr ((payload, m), e) ↦ rw e (
          travel-decoded 15 server payload m
            (omega (arith, decode_onion_data-pos env wire payload m e)))
    ]
