-- ===== src/Handler/Onion.antt =====
-- process_onion_req of httpserver/request_handler.cpp: what a node does with a decrypted layer of an
-- onion request. The calls that it makes are values; the encryption of a
-- wrapped reply is left out, and the key that the source appends to a text.
pub mod Allowed
use beldex_storage_server.Prelude.{
  ℕ, ◌+◌, Bool, true, false, not, ◌||◌, Option, none, some, List, [], ◌∷◌, ◌++◌, ◌==◌, nat_eq,
  bytes_eq, Bytes, String, if◌then◌else◌,
}
use beldex_storage_server.Keys.{X25519Pubkey}
use beldex_storage_server.Swarm.{MnRecord, find_node_ed25519}
use beldex_storage_server.MasterNode.{Node, mnode_ready, record_onion_request, record_proxy_request}
use beldex_storage_server.Utils.Strings.{starts_with}
use beldex_storage_server.Onion.{
  EncryptType, ParsedInfo, relay_to_node, relay_to_server, final_destination, invalid_ciphertext,
  invalid_json, Parsers, process_ciphertext_v2, is_onion_url_target_allowed,
}

-- The callback is left out.
pub record OnionRequestMetadata : Type 0 where
  pub ephem_key : X25519Pubkey
  pub hop_no : ℕ
  pub enc_type : EncryptType

-- A reply as it is, a reply that wrap_proxy_response encrypts with the two flags, a request of a client
-- whose reply is wrapped in the same way, a request to another node, and one to a server.
pub data OnionAction : Type 0 where
  replied : ℕ → String → OnionAction
  wrapped : ℕ → String → OnionRequestMetadata → Bool → Bool → OnionAction
  requested : Bytes → OnionRequestMetadata → Bool → Bool → OnionAction
  relayed : MnRecord → Bytes → OnionRequestMetadata → OnionAction
  proxied : Bytes → Bytes → OnionAction

-- send_onion_to_mn
unfoldable pub send_onion_to_mn : MnRecord → Bytes → OnionRequestMetadata → OnionAction
send_onion_to_mn mn payload metadata =
    relayed mn payload (record metadata { hop_no = metadata.hop_no + 1 })

-- `literal` gives the bytes of a text and `to_string` those of a number.
module _ (literal : String → Bytes) (to_string : ℕ → Bytes) where
  unfoldable pub url_of : Bytes → Bytes → ℕ → Bytes → Bytes
  url_of protocol host port target =
      let default_port = if protocol == literal "https" then 443 else 80 in
      protocol
      ++ (literal "://"
          ++ (host
              ++ ((if port == default_port then [] else literal ":" ++ to_string port)
                  ++ ((if starts_with target (literal "/") then [] else literal "/") ++ target))))

  unfoldable pub process_final :
      Node → OnionRequestMetadata → Bytes → Bool → Bool → Node × OnionAction
  process_final node metadata body json b64 =
      if not (mnode_ready node)
      then (node, wrapped 503 "Mnode not ready" metadata json b64)
      else (node, requested body metadata json b64)

  -- The relay to the next node, which gets the key and the encryption of the layer.
  unfoldable pub process_relay :
      Node
      → OnionRequestMetadata
      → Bytes
      → X25519Pubkey
      → EncryptType
      → Option MnRecord
      → Node × OnionAction
  unfolding send_onion_to_mn
  process_relay node metadata payload ekey etype none = (node, replied 502 "Next node not found")
  process_relay node metadata payload ekey etype (some dest_node) = (
    node,
    send_onion_to_mn dest_node payload (record metadata { ephem_key = ekey; enc_type = etype }),
  )

  unfoldable pub process_proxy :
      Node → OnionRequestMetadata → Bytes → Bytes → ℕ → Bytes → Bytes → Node × OnionAction
  process_proxy node metadata payload host port protocol target =
      if not (protocol == literal "http" || protocol == literal "https")
        || not (is_onion_url_target_allowed target)
      then (node, wrapped 400 "Invalid url" metadata false true)
      else (record_proxy_request node, proxied (url_of protocol host port target) payload)

  -- The overloads of process_onion_req.
  unfoldable pub process_parsed : Node → OnionRequestMetadata → ParsedInfo → Node × OnionAction
  process_parsed node metadata (final_destination body json b64) =
      process_final node metadata body json b64
  process_parsed node metadata (relay_to_node payload ekey etype dest) =
      process_relay node metadata payload ekey etype (find_node_ed25519 node.swarm dest)
  process_parsed node metadata (relay_to_server payload host port protocol target) =
      process_proxy node metadata payload host port protocol target
  process_parsed node metadata invalid_ciphertext = (node, replied 400 "Invalid ciphertext")
  process_parsed node metadata invalid_json = (node, wrapped 400 "Invalid json" metadata false true)

  -- `plaintext` is what the decryption gives.
  unfoldable pub process_onion_req :
      Parsers → Node → OnionRequestMetadata → Option Bytes → Node × OnionAction
  process_onion_req p node metadata plaintext =
      if not (mnode_ready node)
      then (node, replied 503 "Mnode not ready")
      else process_parsed (record_onion_request node) metadata (process_ciphertext_v2 p plaintext)
