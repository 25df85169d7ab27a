-- ===== src/OnionRoute/Layers.antt =====
-- The layers that contrib/onion-request.cpp seals, and what the node for which a layer is sealed makes of
-- it.
use beldex_storage_server.Prelude.{
  codes, ℕ, ◌≡◌, ◌<◌, ◌≤◌, ◌^◌, refl, Option, some, Bytes, Bool, true, false, length, byte_range,
}
use beldex_storage_server.Keys.{Ed25519Pubkey}
use beldex_storage_server.Keys.Coding.{hex_of}
use beldex_storage_server.Keys.Coding.Parsed.{load_from_hex-hex_of}
use beldex_storage_server.MasterNode.{mnode_ready, record_onion_request}
use beldex_storage_server.Onion.{
  process_ciphertext_v2, EncryptType, InnerJson, field_or, relay_to_node, final_destination,
  process_inner_request, parse_layer, parse_to_node, parse_final,
}
use beldex_storage_server.Onion.Payload.{combined, parse_combined_payload_lem}
use beldex_storage_server.Channel.{encrypt, plain, decrypt, enc_type_text}
use beldex_storage_server.Channel.RoundTrip.{
  AreEnds, decrypt-encrypt, length-encrypt, some->>=, parse_enc_type-enc_type_text,
}
use beldex_storage_server.Handler.Onion.{OnionRequestMetadata, process_onion_req, process_parsed}
use beldex_storage_server.BmqServer.Onion.{
  OnionEnv, Server, process_onion, process_decrypted, parsers,
}
use beldex_storage_server.HttpsServer.Onion.{EdgeJson}
use beldex_storage_server.OnionClient.{
  Hop, Layer, Dumps, client_end, etype_of, layer_of, routing_json, seal,
}

-- A node that is ready and has the keys by which the client knows it.
pub record IsHop (env : OnionEnv) (server : Server) (hop : Hop) : Type 0 where
  pub ready : mnode_ready server.node ≡ true
  pub key : server.channel.public_key ≡ hop.x25519
  pub pair : server.channel.public_key ≡ env.prim.scalarmult_base server.channel.private_key
  pub role : server.channel.server ≡ true
  pub range : hop.ed25519 < byte_range 32

-- What a node is told with a layer.
abbrev pub metadata_of : Layer → ℕ → OnionRequestMetadata
metadata_of layer n = record { ephem_key = layer.ephem_key; hop_no = n; enc_type = layer.enc_type }

module _ (env : OnionEnv) (json : EdgeJson) (dumps : Dumps env json)
    (enc_type : Option EncryptType) where
  hop-AreEnds :
      (server : Server) (hop : Hop)
      → IsHop env server hop
      → AreEnds env.prim (client_end env json dumps enc_type hop.seckey) server.channel
  hop-AreEnds server hop is = record { first = refl; second = is.pair; roles = is.role }

  sealed_by :
      (hop : Hop) (text : Bytes) (layer : Layer)
      → seal env json dumps enc_type hop text ≡ some layer
      → (blob : Bytes) × (encrypt env.prim
            (client_end env json dumps enc_type hop.seckey)
            (etype_of env json dumps enc_type hop)
            hop.random
            text
            hop.x25519
          ≡ some blob)
        × (layer_of env json dumps enc_type hop blob ≡ layer)
  unfolding seal
  sealed_by hop text layer h =
      let (blob, e, q) =
        some->>=
          (encrypt env.prim (client_end env json dumps enc_type hop.seckey)
            (etype_of env json dumps enc_type hop) hop.random text hop.x25519)
          _ layer h in
      (blob, e, cc)

  -- What is sealed for a node is what the node decrypts.
  decrypt-seal :
      (server : Server) (hop : Hop) (text : Bytes) (layer : Layer)
      → IsHop env server hop
      → seal env json dumps enc_type hop text ≡ some layer
      → decrypt env.prim server.channel layer.enc_type layer.blob layer.ephem_key ≡ plain text
  decrypt-seal server hop text layer is h =
      let (blob, e, same) = sealed_by hop text layer h in
      rw (← same) (
        decrypt-encrypt env.prim (client_end env json dumps enc_type hop.seckey) server.channel
          (etype_of env json dumps enc_type hop) hop.random text blob (hop-AreEnds server hop is)
          (rw is.key e))

  pub process_onion-seal :
      (server : Server) (hop : Hop) (text : Bytes) (layer : Layer) (n : ℕ)
      → IsHop env server hop
      → seal env json dumps enc_type hop text ≡ some layer
      → process_onion env server layer.blob (metadata_of layer n)
        ≡ some (
            process_parsed codes env.to_string
              (record_onion_request server.node)
              (metadata_of layer n)
              (process_inner_request (parsers env) text))
  unfolding process_onion process_decrypted process_onion_req process_ciphertext_v2
  process_onion-seal server hop text layer n is h =
      rw (is.ready, decrypt-seal server hop text layer is h, is.ready) refl

  pub length-seal :
      (hop : Hop) (text : Bytes) (layer : Layer)
      → seal env json dumps enc_type hop text ≡ some layer
      → length text ≤ length layer.blob
  length-seal hop text layer h =
      let (blob, e, same) = sealed_by hop text layer h in
      rw (← same) (
        length-encrypt env.prim (client_end env json dumps enc_type hop.seckey)
          (etype_of env json dumps enc_type hop) hop.random text blob hop.x25519 e)

  pub seal-ephem_key :
      (hop : Hop) (text : Bytes) (layer : Layer)
      → seal env json dumps enc_type hop text ≡ some layer
      → (layer.ephem_key ≡ env.prim.scalarmult_base hop.seckey)
        × (layer.enc_type ≡ etype_of env json dumps enc_type hop)
  seal-ephem_key hop text layer h =
      let (blob, e, same) = sealed_by hop text layer h in rw (← same) (refl, refl)

  -- What a node makes of a layer that names the next node.
  pub process_inner_request-routing :
      (layer : Layer) (next : Ed25519Pubkey)
      → layer.ephem_key < byte_range 32
      → next < byte_range 32
      → length layer.blob < 2 ^ 32
      → process_inner_request (parsers env) (
          combined layer.blob (
            dumps.routing
              (hex_of env.hex next)
              (hex_of env.hex layer.ephem_key)
              (enc_type_text layer.enc_type)))
        ≡ relay_to_node layer.blob layer.ephem_key layer.enc_type next
  unfolding process_inner_request parse_layer parse_to_node
  process_inner_request-routing layer next k n size =
      rw
        (
          parse_combined_payload_lem (parsers env) layer.blob
              (dumps.routing (hex_of env.hex next) (hex_of env.hex layer.ephem_key)
                (enc_type_text layer.enc_type))
              (routing_json (hex_of env.hex next) (hex_of env.hex layer.ephem_key)
                (enc_type_text layer.enc_type))
              size (dumps.parse_json-routing next layer.ephem_key layer.enc_type),
          process_inner_request,
          load_from_hex-hex_of env.hex next n,
          load_from_hex-hex_of env.hex layer.ephem_key k,
          parse_enc_type-enc_type_text layer.enc_type,
        )
        refl

  pub process_inner_request-final :
      (payload control : Bytes) (inner : InnerJson) (js b64 : Bool)
      → length payload < 2 ^ 32
      → env.parse_json control ≡ some inner
      → inner.has_headers ≡ true
      → field_or inner.json false ≡ some js
      → field_or inner.base64 true ≡ some b64
      → process_inner_request (parsers env) (combined payload control)
        ≡ final_destination payload js b64
  unfolding process_inner_request parse_layer parse_final
  process_inner_request-final payload control inner js b64 size p hd j b =
      rw
        (
          parse_combined_payload_lem (parsers env) payload control inner size p,
          process_inner_request,
          hd,
          j,
          b,
        )
        refl
