-- ===== src/OnionRoute/Steps.antt =====
-- The steps of an onion request of contrib/onion-request.cpp: into the first node, from node to node, and
-- at the last.
use beldex_storage_server.BmqServer.Onion.Coded.{decode_onion_data_lem}
use beldex_storage_server.OnionRoute.{travel, follow}
use beldex_storage_server.Prelude.{
  bytes_beq, le_bytes, ℕ, suc, ◌+◌, ◌≡◌, ◌<◌, ◌≤◌, ◌^◌, refl, ◌∙◌, Option, some, ◌++◌, Bytes, Bool,
  true, false, arith, ltb, length, byte_range, length-append,
}
use beldex_storage_server.Keys.{Ed25519Pubkey, X25519Pubkey}
use beldex_storage_server.Keys.Coding.{hex_of}
use beldex_storage_server.Keys.Coding.Parsed.{load_from_hex-hex_of}
use beldex_storage_server.Swarm.{MnRecord, find_node_ed25519}
use beldex_storage_server.MasterNode.{Node, mnode_ready, record_onion_request}
use beldex_storage_server.Onion.{EncryptType, InnerJson, field_or}
use beldex_storage_server.Onion.Payload.{split-combined}
use beldex_storage_server.Channel.{enc_type_text}
use beldex_storage_server.Channel.RoundTrip.{parse_enc_type-enc_type_text}
use beldex_storage_server.Handler.Onion.{
  relayed, requested, send_onion_to_mn, process_final, process_relay, OnionRequestMetadata,
  process_parsed,
}
use beldex_storage_server.BmqServer.Onion.{
  handle_decoded, handle_onion_request, OnionEnv, Server, process_onion,
}
use beldex_storage_server.HttpsServer.Onion.{parse_edge, edge_metadata, find_member, EdgeJson}
use beldex_storage_server.OnionClient.{
  entry_blob, encode_size, encode_size, final_layer, wrap_layer, Hop, Layer, Dumps,
}
use beldex_storage_server.OnionRoute.Layers.{
  metadata_of, IsHop, process_onion-seal, process_inner_request-routing,
  process_inner_request-final,
}

module _ (env : OnionEnv) (json : EdgeJson) (dumps : Dumps env json)
    (enc_type : Option EncryptType) where
  pub wrap_layer-relayed :
      (server : Server) (hop : Hop) (next : Ed25519Pubkey) (mn : MnRecord) (inner layer : Layer)
      (n : ℕ)
      → IsHop env server hop
      → find_node_ed25519 server.node.swarm next ≡ some mn
      → next < byte_range 32
      → inner.ephem_key < byte_range 32
      → length inner.blob < 2 ^ 32
      → wrap_layer env json dumps enc_type hop next inner ≡ some layer
      → process_onion env server layer.blob (metadata_of layer n)
        ≡ some (record_onion_request server.node, relayed mn inner.blob (metadata_of inner (n + 1)))
  unfolding wrap_layer encode_size process_parsed process_relay send_onion_to_mn find_node_ed25519
      record_onion_request
  wrap_layer-relayed server hop next mn inner layer n is found range key size h =
      process_onion-seal env json dumps enc_type server hop _ layer n is h
      ∙ rw (process_inner_request-routing env json dumps enc_type inner next key range size, found)
          refl

  pub final_layer-requested :
      (server : Server) (hop : Hop) (layer : Layer) (n : ℕ) (payload control : Bytes)
      (inner : InnerJson) (js b64 : Bool)
      → IsHop env server hop
      → length payload < 2 ^ 32
      → env.parse_json control ≡ some inner
      → inner.has_headers ≡ true
      → field_or inner.json false ≡ some js
      → field_or inner.base64 true ≡ some b64
      → final_layer env json dumps enc_type hop payload control ≡ some layer
      → process_onion env server layer.blob (metadata_of layer n)
        ≡ some (record_onion_request server.node, requested payload (metadata_of layer n) js b64)
  unfolding final_layer encode_size process_parsed process_final mnode_ready record_onion_request
  final_layer-requested server hop layer n payload control inner js b64 is size p hd j b h =
      process_onion-seal env json dumps enc_type server hop _ layer n is h
      ∙ rw
          (
            process_inner_request-final env json dumps enc_type payload control inner js b64 size p
                hd j b,
            is.ready,
          )
          refl

  module _ (server_of : X25519Pubkey → Option Server) where
    pub travel-relayed :
        (fuel : ℕ) (node : Node) (next : Server) (mn : MnRecord) (payload : Bytes)
        (m : OnionRequestMetadata)
        → server_of mn.pubkey_x25519 ≡ some next
        → m.ephem_key < byte_range 32
        → 1 ≤ m.hop_no
        → m.hop_no ≤ 15
        → follow env server_of (travel env server_of (suc fuel)) (some (node, relayed mn payload m))
          ≡ follow env server_of (travel env server_of fuel) (process_onion env next payload m)
    unfolding travel handle_onion_request handle_decoded follow
    travel-relayed fuel node next mn payload m known key low high =
        let near : ltb 15 m.hop_no ≡ false = ground arith in
        rw (follow, known, decode_onion_data_lem env payload m key low (omega (arith, high)), near)
          refl

    -- The entry node reads what the client posts to it.
    pub parse_edge-entry_blob :
        (layer : Layer)
        → layer.ephem_key < byte_range 32
        → length layer.blob < 2 ^ 32
        → parse_edge json env (entry_blob env json dumps enc_type layer)
          ≡ some (layer.blob, metadata_of layer 0)
    unfolding parse_edge entry_blob encode_size edge_metadata find_member bytes_beq
    parse_edge-entry_blob layer key size =
        rw
          (
            split-combined layer.blob
                (dumps.entry (hex_of env.hex layer.ephem_key) (enc_type_text layer.enc_type)) size,
            dumps.parse-entry layer.ephem_key layer.enc_type,
            load_from_hex-hex_of env.hex layer.ephem_key key,
            parse_enc_type-enc_type_text layer.enc_type,
          )
          refl

    pub length-entry_blob :
        (layer : Layer) → length layer.blob ≤ length (entry_blob env json dumps enc_type layer)
    unfolding entry_blob encode_size
    length-entry_blob layer =
        let text = dumps.entry (hex_of env.hex layer.ephem_key) (enc_type_text layer.enc_type) in
        omega (
          arith,
          length-append (le_bytes 4 (length layer.blob)) (layer.blob ++ text),
          length-append layer.blob text,
        )
