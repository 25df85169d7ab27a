-- ===== src/OnionClient.antt =====
-- contrib/onion-request.cpp: a client that builds an onion request for a path of master nodes and reads
-- the reply. The keys that it draws, its random bytes and the dump of its json are parameters.
pub mod Reply
use beldex_storage_server.Prelude.{
  ℕ, ◌≡◌, false, Option, none, some, List, [], ◌∷◌, ◌++◌, Bytes, length, le_bytes, codes, nat_eq,
  ◌==◌, if◌then◌else◌,
}
use beldex_storage_server.Keys.{X25519Pubkey, Ed25519Pubkey}
use beldex_storage_server.Keys.Coding.{hex_of}
use beldex_storage_server.Serialization.{Codec}
use beldex_storage_server.Onion.{EncryptType, aes_cbc, aes_gcm, xchacha20, InnerJson, ◌>>=◌}
use beldex_storage_server.Channel.{
  ChannelEncryption, Random, Decrypted, plain, threw, undefined, encrypt, decrypt, enc_type_text,
}
use beldex_storage_server.BmqServer.Values.{object, string, member, no_more}
use beldex_storage_server.BmqServer.Onion.{OnionEnv}
use beldex_storage_server.HttpsServer.Onion.{EdgeJson}

-- A node of the path, with the secret key, the type and the random bytes that are drawn for it.
pub record Hop : Type 0 where
  pub ed25519 : Ed25519Pubkey
  pub x25519 : X25519Pubkey
  pub seckey : ℕ
  pub draw : ℕ
  pub random : Random

-- What a node is to decrypt, and how: blob, A and last_etype.
pub record Layer : Type 0 where
  pub blob : Bytes
  pub ephem_key : X25519Pubkey
  pub enc_type : EncryptType

unfoldable pub encode_size : ℕ → Bytes
encode_size s = le_bytes 4 s

abbrev pub random_etype : ℕ → EncryptType
random_etype i = if i == 0 then aes_cbc else if i == 1 then aes_gcm else xchacha20

-- enc_type.value_or(random_etype())
abbrev pub value_or : Option EncryptType → EncryptType → EncryptType
value_or none drawn = drawn
value_or (some type) drawn = type

-- The fields of a parsed layer that names the next node.
abbrev pub routing_json : Bytes → Bytes → Bytes → InnerJson
routing_json destination ephemeral_key enc_type = record {
  has_headers = false;
  json = none;
  base64 = none;
  host = none;
  target = none;
  port = none;
  protocol = none;
  destination = some destination;
  ephemeral_key = some ephemeral_key;
  enc_type = some (some enc_type);
}

-- The dumps of the two json objects, which parse to the same fields.
pub record Dumps (env : OnionEnv) (json : EdgeJson) : Type 0 where
  pub routing : Bytes → Bytes → Bytes → Bytes
  pub entry : Bytes → Bytes → Bytes
  pub parse_json-routing :
      (d k : ℕ) (t : EncryptType)
      → env.parse_json (routing (hex_of env.hex d) (hex_of env.hex k) (enc_type_text t))
        ≡ some (routing_json (hex_of env.hex d) (hex_of env.hex k) (enc_type_text t))
  pub parse-entry :
      (k : ℕ) (t : EncryptType)
      → json.parse (entry (hex_of env.hex k) (enc_type_text t))
        ≡ some (
            object (
              member
                (codes "enc_type")
                (string (enc_type_text t))
                (member (codes "ephemeral_key") (string (hex_of env.hex k)) no_more)))

module _ (env : OnionEnv) (json : EdgeJson) (dumps : Dumps env json)
    (enc_type : Option EncryptType) where
  -- The channel of a key pair that crypto_box_keypair draws.
  abbrev pub client_end : ℕ → ChannelEncryption
  client_end seckey = record {
    private_key = seckey;
    public_key = env.prim.scalarmult_base seckey;
    server = false;
  }

  abbrev pub etype_of : Hop → EncryptType
  etype_of hop = value_or enc_type (random_etype hop.draw)

  abbrev pub layer_of : Hop → Bytes → Layer
  layer_of hop blob = record {
    blob = blob;
    ephem_key = env.prim.scalarmult_base hop.seckey;
    enc_type = etype_of hop;
  }

  -- The encryption for one node; `none` is an exception.
  unfoldable pub seal : Hop → Bytes → Option Layer
  seal hop text =
      encrypt env.prim (client_end hop.seckey) (etype_of hop) hop.random text hop.x25519 >>= λ blob.
      some (layer_of hop blob)

  unfoldable pub final_layer : Hop → Bytes → Bytes → Option Layer
  unfolding encode_size
  final_layer hop payload control = seal hop (encode_size (length payload) ++ (payload ++ control))

  unfoldable pub wrap_layer : Hop → Ed25519Pubkey → Layer → Option Layer
  unfolding encode_size
  wrap_layer hop next layer = seal hop (
      encode_size (length layer.blob)
      ++ (layer.blob
          ++ dumps.routing (hex_of env.hex next) (hex_of env.hex layer.ephem_key)
              (enc_type_text layer.enc_type)))

  -- The loop from the last node of the path to the first.
  unfoldable pub build : Hop → List Hop → Bytes → Bytes → Option Layer
  build hop [] payload control = final_layer hop payload control
  build hop (next ∷ rest) payload control =
      build next rest payload control >>= wrap_layer hop next.ed25519

  -- The body that is posted to the first node.
  unfoldable pub entry_blob : Layer → Bytes
  unfolding encode_size
  entry_blob layer =
      encode_size (length layer.blob)
      ++ (layer.blob ++ dumps.entry (hex_of env.hex layer.ephem_key) (enc_type_text layer.enc_type))

  unfoldable pub onion_request : Hop → List Hop → Bytes → Bytes → Option Bytes
  onion_request hop path payload control =
      build hop path payload control >>= λ layer. some (entry_blob layer)

-- The text that is shown for a reply, from the last node's key and the secret key and type that were
-- drawn for it; `none` is an iv that is read past the end.
module _ (env : OnionEnv) (codec : Codec) (d : ChannelEncryption) where
  abbrev pub shown : Bytes → Decrypted → Option Bytes
  shown body (plain text) = some text
  shown body threw = some body
  shown body undefined = none

  unfoldable pub retry : EncryptType → X25519Pubkey → Bytes → Option Bytes
  retry type key body =
      if codec.is_base64 body
      then shown (codec.from_base64 body) (decrypt env.prim d type (codec.from_base64 body) key)
      else some body

  unfoldable pub read_reply : EncryptType → X25519Pubkey → Bytes → Option Bytes
  unfolding retry
  read_reply type key body = elim (decrypt env.prim d type body key) [
    | plain text ↦ some text
    | threw ↦ retry type key body
    | undefined ↦ none
  ]
