-- ===== src/OnionRoute/Delivered.antt =====
-- The way of an onion request that contrib/onion-request.cpp builds, through httpserver/https_server.cpp,
-- bmq_server.cpp and request_handler.cpp on each node of its path.
use beldex_storage_server.OnionRoute.{ended, travel, follow}
use beldex_storage_server.Prelude.{
  le_bytes, ℕ, zero, suc, ◌+◌, ◌≡◌, ◌<◌, ◌≤◌, ◌^◌, refl, ap, Option, some, List, [], ◌∷◌, ◌++◌,
  Bytes, Bool, true, false, arith, length, byte_range, length-append,
}
use beldex_storage_server.Keys.{Ed25519Pubkey, X25519Pubkey}
use beldex_storage_server.Keys.Coding.{hex_of}
use beldex_storage_server.Swarm.{MnRecord, find_node_ed25519}
use beldex_storage_server.MasterNode.{record_onion_request}
use beldex_storage_server.Onion.{EncryptType, InnerJson, field_or}
use beldex_storage_server.Channel.{enc_type_text}
use beldex_storage_server.Channel.RoundTrip.{some->>=}
use beldex_storage_server.Handler.Onion.{OnionAction, requested}
use beldex_storage_server.BmqServer.Onion.{OnionEnv, Server, process_onion}
use beldex_storage_server.HttpsServer.Onion.{process_edge, process_onion_req_v2, EdgeJson}
use beldex_storage_server.OnionClient.{
  onion_request, entry_blob, encode_size, build, encode_size, final_layer, wrap_layer, Hop, Layer,
  Dumps, etype_of,
}
use beldex_storage_server.OnionRoute.Layers.{metadata_of, IsHop, length-seal, seal-ephem_key}
use beldex_storage_server.OnionRoute.Steps.{
  wrap_layer-relayed, final_layer-requested, travel-relayed, parse_edge-entry_blob,
  length-entry_blob,
}

module _ (env : OnionEnv) (server_of : X25519Pubkey → Option Server) where
  -- The servers of a path: each knows the next one by its ed25519 key. The last two are the last server
  -- and the last part of the path.
  pub data Route : Server → Hop → List Hop → Server → Hop → Type 0 where
    arrived : (server : Server) (hop : Hop) → IsHop env server hop → Route server hop [] server hop
    passed :
        (server next last : Server) (hop g h : Hop) (rest : List Hop) (mn : MnRecord)
        → IsHop env server hop
        → find_node_ed25519 server.node.swarm g.ed25519 ≡ some mn
        → server_of mn.pubkey_x25519 ≡ some next
        → Route next g rest last h
        → Route server hop (g ∷ rest) last h

module _ (env : OnionEnv) (json : EdgeJson) (dumps : Dumps env json)
    (enc_type : Option EncryptType) where
  module _ (server_of : X25519Pubkey → Option Server) where
    module _ (payload control : Bytes) (inner : InnerJson) (js b64 : Bool)
        (parsed : env.parse_json control ≡ some inner) (headers : inner.has_headers ≡ true)
        (js_field : field_or inner.json false ≡ some js)
        (b64_field : field_or inner.base64 true ≡ some b64) where
      -- What the last node is asked.
      abbrev final_request : Hop → ℕ → OnionAction
      final_request h n =
          requested payload
            (record {
              ephem_key = env.prim.scalarmult_base h.seckey;
              hop_no = n;
              enc_type = etype_of env json dumps enc_type h;
            })
            js b64

      length-wrap_layer :
          (hop : Hop) (next : Ed25519Pubkey) (inner_layer layer : Layer)
          → wrap_layer env json dumps enc_type hop next inner_layer ≡ some layer
          → length inner_layer.blob ≤ length layer.blob
      unfolding wrap_layer encode_size
      length-wrap_layer hop next inner_layer layer h = ground (
        arith,
        length-append (le_bytes 4 (length inner_layer.blob)) (
            inner_layer.blob
            ++ dumps.routing (hex_of env.hex next) (hex_of env.hex inner_layer.ephem_key)
                (enc_type_text inner_layer.enc_type)),
        length-append inner_layer.blob (
            dumps.routing (hex_of env.hex next) (hex_of env.hex inner_layer.ephem_key)
              (enc_type_text inner_layer.enc_type)),
        length-seal env json dumps enc_type hop _ layer h,
      )

      length-final_layer :
          (hop : Hop) (layer : Layer)
          → final_layer env json dumps enc_type hop payload control ≡ some layer
          → length payload ≤ length layer.blob
      unfolding final_layer encode_size
      length-final_layer hop layer h = ground (
        arith,
        length-append (le_bytes 4 (length payload)) (payload ++ control),
        length-append payload control,
        length-seal env json dumps enc_type hop _ layer h,
      )

      arrive :
          (fuel n : ℕ) (server : Server) (hop : Hop) (layer : Layer)
          → IsHop env server hop
          → final_layer env json dumps enc_type hop payload control ≡ some layer
          → length layer.blob < 2 ^ 32
          → follow env server_of
              (travel env server_of fuel)
              (process_onion env server layer.blob (metadata_of layer n))
            ≡ ended (final_request hop n)
      unfolding final_layer follow
      arrive fuel n server hop layer is e size =
          let (key, type) = seal-ephem_key env json dumps enc_type hop _ layer e in
          let fits : length payload < 2 ^ 32 =
            omega (arith, length-final_layer hop layer e, size) in
          rw
            (
              final_layer-requested env json dumps enc_type server hop layer n payload control inner
                  js b64 is fits parsed headers js_field b64_field e,
              follow,
              key,
              type,
            )
            refl

      build-ephem_key :
          (hop : Hop) (path : List Hop) (layer : Layer)
          → build env json dumps enc_type hop path payload control ≡ some layer
          → layer.ephem_key < byte_range 32
      unfolding build final_layer wrap_layer
      build-ephem_key hop [] layer e =
          rw ((seal-ephem_key env json dumps enc_type hop _ layer e).0)
            (env.prim.scalarmult_base-< hop.seckey)
      build-ephem_key hop (g ∷ rest) layer e =
          let (inner_layer, e1, e2) =
            some->>= (build env json dumps enc_type g rest payload control) _ layer e in
          rw ((seal-ephem_key env json dumps enc_type hop _ layer e2).0)
            (env.prim.scalarmult_base-< hop.seckey)

      Route-IsHop :
          (server last : Server) (hop h : Hop) (path : List Hop)
          → Route env server_of server hop path last h
          → IsHop env server hop
      Route-IsHop server last hop h path (arrived s p is) = is
      Route-IsHop server last hop h path (passed s next l p g k rest mn is found known route) = is

      build-delivered :
          (fuel n : ℕ) (server last : Server) (hop h : Hop) (path : List Hop) (layer : Layer)
          → Route env server_of server hop path last h
          → build env json dumps enc_type hop path payload control ≡ some layer
          → length layer.blob < 2 ^ 32
          → n + length path ≤ 15
          → length path ≤ fuel
          → follow env server_of
              (travel env server_of fuel)
              (process_onion env server layer.blob (metadata_of layer n))
            ≡ ended (final_request h (n + length path))
      unfolding build
      build-delivered fuel n server last hop h path layer (arrived s p is) e size near enough =
          let at : n + 0 ≡ n = omega arith in rw at (arrive fuel n server hop layer is e size)
      build-delivered zero n server last hop h path layer
            (passed s next l p g k rest mn is found known route) e size near enough =
          absurd (omega (arith, enough))
      build-delivered (suc fuel) n server last hop h path layer
            (passed s next l p g k rest mn is found known route) e size near enough =
          let (inner_layer, e1, e2) =
            some->>= (build env json dumps enc_type g rest payload control) _ layer e in
          let key = build-ephem_key g rest inner_layer e1 in
          let fits : length inner_layer.blob < 2 ^ 32 =
            omega (arith, length-wrap_layer hop g.ed25519 inner_layer layer e2, size) in
          let go =
            build-delivered fuel (n + 1) next last g h rest inner_layer route e1 fits
              (omega (arith, near)) (omega (arith, enough)) in
          let same : n + 1 + length rest ≡ n + suc (length rest) = omega arith in
          rw
            (
              wrap_layer-relayed env json dumps enc_type server hop g.ed25519 mn inner_layer layer n
                  is found (Route-IsHop next last g h rest route).range key fits e2,
              travel-relayed env json dumps enc_type server_of fuel
                  (record_onion_request server.node) next mn inner_layer.blob
                  (metadata_of inner_layer (n + 1)) known key (omega arith) (omega (arith, near)),
              ← same,
            )
            go

      -- A request that a client builds for a path of at most 16 nodes, each of which is ready, is known
      -- to the one before it and has the keys of 32 bytes that the client knows it by, reaches the last
      -- of them, whatever the encryption of each layer: posted to the first, it ends as the client's
      -- payload there, with the key of the last layer and a hop number that counts the relays. The
      -- control text has headers, its json and base64 fields are Booleans or missing, and the body is
      -- shorter than 2^32 bytes.
      pub onion_request-delivered :
          (server last : Server) (hop h : Hop) (path : List Hop) (body : Bytes)
          → Route env server_of server hop path last h
          → onion_request env json dumps enc_type hop path payload control ≡ some body
          → length body < 2 ^ 32
          → length path ≤ 15
          → follow env server_of
              (travel env server_of 15)
              (process_onion_req_v2 json env server body)
            ≡ ended (final_request h (length path))
      unfolding onion_request process_onion_req_v2 process_edge
      onion_request-delivered server last hop h path body route e size near =
          let (layer, e1, e2) =
            some->>= (build env json dumps enc_type hop path payload control) _ body e in
          let same : entry_blob env json dumps enc_type layer ≡ body = cc in
          let fits : length layer.blob < 2 ^ 32 = omega (
            arith,
            length-entry_blob env json dumps enc_type server_of layer,
            ap length same,
            size,
          ) in
          let read =
            parse_edge-entry_blob env json dumps enc_type server_of layer
              (build-ephem_key hop path layer e1) fits in
          let none_yet : 0 + length path ≡ length path = omega arith in
          let there =
            build-delivered 15 0 server last hop h path layer route e1 fits (omega (arith, near))
              near in
          rw (← same, read) (rw none_yet at there)
