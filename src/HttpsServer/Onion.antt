-- ===== src/HttpsServer/Onion.antt =====
-- process_onion_req_v2 of httpserver/https_server.cpp: what the first node of an onion request reads of
-- the body that a client posts. The text of the exception that its reply names is left
-- out; whether the request is still open is for HttpsServer/Calls, and a node that is not ready is refused
-- before.
use beldex_storage_server.Prelude.{
  ℕ, ◌-◌, ◌%◌, ◌^◌, Option, none, some, ◌==◌, bytes_eq, Bytes, codes, ltb, if◌then◌else◌,
}
use beldex_storage_server.Keys.Coding.{load_from_hex}
use beldex_storage_server.Onion.{EncryptType, aes_gcm, split_payload, ◌>>=◌}
use beldex_storage_server.Channel.{parse_enc_type}
use beldex_storage_server.MasterNode.{Node}
use beldex_storage_server.Handler.Onion.{OnionRequestMetadata, OnionAction, replied}
use beldex_storage_server.BmqServer.Values.{
  Json, null, boolean, string, floating, unsigned, signed, array, object, JsonFields, no_more,
  member,
}
use beldex_storage_server.BmqServer.Onion.{OnionEnv, Server, process_onion}

-- json::parse, and the int that a floating number converts to, 0 where it is negative.
pub record EdgeJson : Type 0 where
  pub parse : Bytes → Option Json
  pub int_of_floating : Bytes → ℕ

-- json::find
unfoldable pub find_member : Bytes → JsonFields → Option Json
find_member key no_more = none
find_member key (member k v rest) = if k == key then some v else find_member key rest

-- Of a value that is no object, at throws.
abbrev pub members_of : Json → Option JsonFields
members_of null = none
members_of (boolean b) = none
members_of (string s) = none
members_of (floating s) = none
members_of (unsigned n) = none
members_of (signed n) = none
members_of (array l) = none
members_of (object members) = some members

-- get_ref<const std::string&>
abbrev pub string_of : Json → Option Bytes
string_of null = none
string_of (boolean b) = none
string_of (string s) = some s
string_of (floating s) = none
string_of (unsigned n) = none
string_of (signed n) = none
string_of (array l) = none
string_of (object members) = none

-- std::max(0, i) for the int i with these 32 bits.
abbrev pub at_least_zero : ℕ → ℕ
at_least_zero bits = if ltb bits (2 ^ 31) then bits else 0

module _ (json : EdgeJson) where
  -- std::max(0, get<int>()), which takes the low 32 bits of a wider integer.
  abbrev pub hop_no_of : Json → Option ℕ
  hop_no_of null = none
  hop_no_of (boolean b) = some (if b then 1 else 0)
  hop_no_of (string s) = none
  hop_no_of (floating s) = some (json.int_of_floating s)
  hop_no_of (unsigned n) = some (at_least_zero (n % 2 ^ 32))
  hop_no_of (signed n) = some (at_least_zero (2 ^ 32 - 1 - n % 2 ^ 32))
  hop_no_of (array l) = none
  hop_no_of (object members) = none

  abbrev pub edge_hop_no : Option Json → Option ℕ
  edge_hop_no none = some 0
  edge_hop_no (some v) = hop_no_of v

  abbrev pub edge_enc_type : Option Json → Option EncryptType
  edge_enc_type none = some aes_gcm
  edge_enc_type (some v) = string_of v >>= parse_enc_type

  abbrev pub edge_key : Option Json → Option Bytes
  edge_key none = none
  edge_key (some v) = string_of v

  module _ (env : OnionEnv) where
    unfoldable pub edge_metadata : JsonFields → Option OnionRequestMetadata
    unfolding find_member
    edge_metadata req = do
      key ← edge_key (find_member (codes "ephemeral_key") req)
      ephem_key ← load_from_hex env.hex key
      enc_type ← edge_enc_type (find_member (codes "enc_type") req)
      hop_no ← edge_hop_no (find_member (codes "hop_no") req)
      some (record { ephem_key = ephem_key; hop_no = hop_no; enc_type = enc_type })

    -- `none` is an exception.
    unfoldable pub parse_edge : Bytes → Option (Bytes × OnionRequestMetadata)
    parse_edge body = do
      parts ← split_payload body
      value ← json.parse parts.1
      req ← members_of value
      metadata ← edge_metadata req
      some (parts.0, metadata)

    unfoldable pub process_edge :
        Server → Option (Bytes × OnionRequestMetadata) → Option (Node × OnionAction)
    process_edge server none = some (server.node, replied 400 "Error parsing onion request")
    process_edge server (some (ciphertext, onion)) = process_onion env server ciphertext onion

    unfoldable pub process_onion_req_v2 : Server → Bytes → Option (Node × OnionAction)
    unfolding process_edge
    process_onion_req_v2 server body = process_edge server (parse_edge body)
