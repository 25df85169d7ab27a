-- ===== src/Handler/Onion/Allowed.antt =====
-- Where an onion request may go from a node.
use beldex_storage_server.Prelude.{
  ℕ, ◌+◌, ◌≡◌, ◌≢◌, ◌⊎◌, inl, inr, refl, true, ◌||◌, Option, none, some, ◌++◌, ◌==◌, nat_eq,
  bytes_eq, Bytes, String, All, Bool-cases, eq_of_==,
}
use beldex_storage_server.Keys.{X25519Pubkey}
use beldex_storage_server.Swarm.{MnRecord, find_node_ed25519}
use beldex_storage_server.MasterNode.{Node, mnode_ready, record_onion_request}
use beldex_storage_server.Onion.{
  EncryptType, ParsedInfo, relay_to_node, relay_to_server, final_destination, invalid_ciphertext,
  invalid_json, Parsers, process_ciphertext_v2, is_onion_url_target_allowed, target_prefix,
  target_suffix,
}
use beldex_storage_server.Onion.Payload.{is_onion_url_target_allowed_lem}
use beldex_storage_server.Handler.Onion.{
  OnionRequestMetadata, OnionAction, replied, wrapped, requested, relayed, proxied, url_of,
  send_onion_to_mn, process_final, process_relay, process_proxy, process_parsed, process_onion_req,
}

module _ (literal : String → Bytes) (to_string : ℕ → Bytes) (node : Node)
    (metadata : OnionRequestMetadata) where
  -- What each action must meet.
  abbrev pub Allowed : OnionAction → Type 0
  Allowed (replied status text) = Unit
  Allowed (wrapped status text data' json b64) = Unit
  Allowed (requested body data' json b64) = mnode_ready node ≡ true
  Allowed (relayed mn payload data') =
      (dest : ℕ) × (find_node_ed25519 node.swarm dest ≡ some mn)
      × (data'.hop_no ≡ metadata.hop_no + 1)
  Allowed (proxied url payload) =
      (protocol host target : Bytes) × (port : ℕ) × (url
        ≡ url_of literal to_string protocol host port target)
      × ((protocol ≡ literal "http") ⊎ (protocol ≡ literal "https"))
      × ((rest : Bytes) × (target ≡ target_prefix ++ rest))
      × ((before : Bytes) × (target ≡ before ++ target_suffix))
      × All (λ c. c ≢ 63) target

  relay-Allowed :
      (node' : Node) (payload : Bytes) (ekey : X25519Pubkey) (etype : EncryptType) (dest : ℕ)
      (mn : Option MnRecord)
      → find_node_ed25519 node.swarm dest ≡ mn
      → Allowed (process_relay literal to_string node' metadata payload ekey etype mn).1
  unfolding process_relay send_onion_to_mn
  relay-Allowed node' payload ekey etype dest none e = tt
  relay-Allowed node' payload ekey etype dest (some mn) e = (dest, e, refl)

  proxy-Allowed :
      (node' : Node) (payload host : Bytes) (port : ℕ) (protocol target : Bytes)
      → Allowed (process_proxy literal to_string node' metadata payload host port protocol target).1
  unfolding process_proxy
  proxy-Allowed node' payload host port protocol target =
      elim (Bool-cases (is_onion_url_target_allowed target)) [
        | inr f ↦ elim (Bool-cases (protocol == literal "http" || protocol == literal "https")) [
          | inl a ↦ rw (a, f) tt
          | inr a ↦ rw a tt
        ]
        | inl t ↦
            let (begins, ends, query) = is_onion_url_target_allowed_lem target t in
            elim (Bool-cases (protocol == literal "http")) [
              | inl a ↦
                  rw (a, t)
                    (
                      protocol,
                      host,
                      target,
                      port,
                      refl,
                      inl (eq_of_== protocol (literal "http") a),
                      begins,
                      ends,
                      query,
                    )
              | inr a ↦ elim (Bool-cases (protocol == literal "https")) [
                | inl b ↦
                    rw (a, b, t)
                      (
                        protocol,
                        host,
                        target,
                        port,
                        refl,
                        inr (eq_of_== protocol (literal "https") b),
                        begins,
                        ends,
                        query,
                      )
                | inr b ↦ rw (a, b) tt
              ]
            ]
      ]

  still_ready : mnode_ready node ≡ true → mnode_ready (record_onion_request node) ≡ true
  unfolding mnode_ready record_onion_request
  still_ready r = r

  parsed-Allowed :
      mnode_ready node ≡ true
      → (info : ParsedInfo)
      → Allowed (process_parsed literal to_string (record_onion_request node) metadata info).1
  unfolding process_parsed process_final record_onion_request
  parsed-Allowed r (final_destination body json b64) = rw (still_ready r) r
  parsed-Allowed r (relay_to_node payload ekey etype dest) =
      relay-Allowed (record_onion_request node) payload ekey etype dest _ refl
  parsed-Allowed r (relay_to_server payload host port protocol target) =
      proxy-Allowed (record_onion_request node) payload host port protocol target
  parsed-Allowed r invalid_ciphertext = tt
  parsed-Allowed r invalid_json = tt

  -- An onion request is relayed only to a registered node, with its hops counted up, proxied only over
  -- http or https to a target that begins with "/beldex/", ends with "/lsrpc" and has no question mark,
  -- and handled as a client's only by a node that is ready.
  pub process_onion_req-Allowed :
      (p : Parsers) (plaintext : Option Bytes)
      → Allowed (process_onion_req literal to_string p node metadata plaintext).1
  unfolding process_onion_req
  process_onion_req-Allowed p plaintext = elim (Bool-cases (mnode_ready node)) [
    | inr f ↦ rw f tt
    | inl t ↦ rw t (parsed-Allowed t (process_ciphertext_v2 p plaintext))
  ]
