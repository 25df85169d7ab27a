-- ===== src/BmqServer/Onion.antt =====
-- The onion requests of httpserver/bmq_server.cpp: their coding between nodes, the limit on their hops,
-- and how a node decrypts and processes them.
pub mod Coded
use beldex_storage_server.Prelude.{
  ◌^◌, ℕ, ◌+◌, ◌≡◌, Bool, true, false, not, Option, none, some, List, [], ◌∷◌, ◌==◌, nat_eq,
  bytes_eq, Bytes, String, codes, ltb, if◌then◌else◌, length,
}
use beldex_storage_server.Keys.{X25519Pubkey}
use beldex_storage_server.Keys.Coding.{view, load_from_bytes, load_from_hex}
use beldex_storage_server.Common.{Hex}
use beldex_storage_server.Onion.{InnerJson, Parsers, EncryptType, aes_gcm, max_onion_hops, ◌>>=◌}
use beldex_storage_server.Channel.{
  Primitives, ChannelEncryption, Decrypted, plain, threw, undefined, decrypt, parse_enc_type,
  enc_type_text,
}
use beldex_storage_server.MasterNode.{Node, mnode_ready}
use beldex_storage_server.Handler.Onion.{
  OnionRequestMetadata, OnionAction, replied, process_onion_req,
}
use beldex_storage_server.BmqServer.Values.{
  Bt, text, integer, negative, items, fields, BtDict, end, field,
}

-- The dictionary of an encoded request.
abbrev pub onion_dict : Bytes → EncryptType → X25519Pubkey → ℕ → BtDict
onion_dict payload enc_type ephem_key hop_no = field (codes "data") (text payload) (
    field (codes "enc_type") (text (enc_type_text enc_type)) (
      field (codes "ephemeral_key") (text (view ephem_key))
        (field (codes "hop_no") (integer hop_no) end)))

-- bmq::bt_serialize and bt_dict_consumer, hex coding, json parsing, the printing of numbers, and the
-- primitives of the encryption.
pub record OnionEnv : Type 0 where
  pub hex : Hex
  pub prim : Primitives
  pub parse_json : Bytes → Option InnerJson
  pub to_string : ℕ → Bytes
  pub bt_serialize : BtDict → Bytes
  pub bt_dict_consumer : Bytes → Option BtDict
  pub bt_dict_consumer-bt_serialize :
      (payload : Bytes) (enc_type : EncryptType) (key : X25519Pubkey) (hop_no : ℕ)
      → bt_dict_consumer (bt_serialize (onion_dict payload enc_type key hop_no))
        ≡ some (onion_dict payload enc_type key hop_no)

-- A node with the keys that it decrypts with.
pub record Server : Type 0 where
  pub node : Node
  pub channel : ChannelEncryption

-- skip_until and the value there.
unfoldable pub find_value : Bytes → BtDict → Option Bt
find_value key end = none
find_value key (field k v d) = if k == key then some v else find_value key d

-- consume_string_view; `none` is the exception.
abbrev pub text_of : Bt → Option Bytes
text_of (text s) = some s
text_of (integer n) = none
text_of (negative n) = none
text_of (items l) = none
text_of (fields d) = none

-- consume_integer<int>, which throws for what no int holds, with the floor of 1 that follows.
abbrev pub hop_of : Bt → Option ℕ
hop_of (text s) = none
hop_of (integer n) = if ltb n (2 ^ 31) then some (if ltb n 1 then 1 else n) else none
hop_of (negative n) = if ltb n (2 ^ 31) then some 1 else none
hop_of (items l) = none
hop_of (fields d) = none

abbrev pub required_text : Option Bt → Option Bytes
required_text none = none
required_text (some v) = text_of v

abbrev pub enc_type_or_default : Option Bt → Option EncryptType
enc_type_or_default none = some aes_gcm
enc_type_or_default (some v) = text_of v >>= parse_enc_type

abbrev pub hop_or_default : Option Bt → Option ℕ
hop_or_default none = some 1
hop_or_default (some v) = hop_of v

unfoldable pub decode_fields : BtDict → Option (Bytes × OnionRequestMetadata)
unfolding find_value
decode_fields d = do
  payload ← required_text (find_value (codes "data") d)
  enc_type ← enc_type_or_default (find_value (codes "enc_type") d)
  key ← required_text (find_value (codes "ephemeral_key") d)
  ephem_key ← load_from_bytes key
  hop_no ← hop_or_default (find_value (codes "hop_no") d)
  some (payload, record { ephem_key = ephem_key; hop_no = hop_no; enc_type = enc_type })

module _ (env : OnionEnv) where
  unfoldable pub encode_onion_data : Bytes → OnionRequestMetadata → Bytes
  encode_onion_data payload metadata =
      env.bt_serialize (onion_dict payload metadata.enc_type metadata.ephem_key metadata.hop_no)

  unfoldable pub decode_onion_data : Bytes → Option (Bytes × OnionRequestMetadata)
  decode_onion_data wire = env.bt_dict_consumer wire >>= decode_fields

  abbrev pub parsers : Parsers
  parsers = record {
    parse_json = env.parse_json;
    ed25519_from_hex = load_from_hex env.hex;
    x25519_from_hex = load_from_hex env.hex;
    parse_enc_type = parse_enc_type;
    https = codes "https";
  }

  -- process_onion_req with its decryption; `none` is an iv that is read past the end.
  unfoldable pub process_decrypted :
      Node → OnionRequestMetadata → Decrypted → Option (Node × OnionAction)
  process_decrypted node metadata (plain plaintext) =
      some (process_onion_req codes env.to_string parsers node metadata (some plaintext))
  process_decrypted node metadata threw =
      some (process_onion_req codes env.to_string parsers node metadata none)
  process_decrypted node metadata undefined = none

  unfoldable pub process_onion : Server → Bytes → OnionRequestMetadata → Option (Node × OnionAction)
  unfolding process_decrypted
  process_onion server ciphertext metadata =
      if not (mnode_ready server.node)
      then some (process_onion_req codes env.to_string parsers server.node metadata none)
      else process_decrypted server.node metadata
          (decrypt env.prim server.channel metadata.enc_type ciphertext metadata.ephem_key)

  -- handle_onion_request for a decoded request
  unfoldable pub handle_decoded :
      Server → Option (Bytes × OnionRequestMetadata) → Option (Node × OnionAction)
  handle_decoded server none = some (server.node, replied 400 "Invalid internal onion request")
  handle_decoded server (some (payload, metadata)) =
      if ltb max_onion_hops metadata.hop_no
      then some (server.node, replied 400 "onion request max path length exceeded")
      else process_onion server payload metadata

  -- handle_onion_request for the parts of a message
  unfoldable pub handle_onion_request : Server → List Bytes → Option (Node × OnionAction)
  unfolding handle_decoded
  handle_onion_request server [] = handle_decoded server none
  handle_onion_request server (wire ∷ []) = handle_decoded server (decode_onion_data wire)
  handle_onion_request server (wire ∷ part ∷ parts) = handle_decoded server none
