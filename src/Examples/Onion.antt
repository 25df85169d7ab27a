-- ===== src/Examples/Onion.antt =====
-- A layer of an onion request that asks for a server.
use beldex_storage_server.Prelude.{
  ℕ, nat_eq, false, ◌==◌, string_eq, none, some, [], ◌∷◌, ◌++◌, Bytes, String, length,
  if◌then◌else◌, le_bytes,
}
use beldex_storage_server.Onion.{Parsers, InnerJson, target_prefix, target_suffix, aes_gcm}
use beldex_storage_server.Handler.Onion.{OnionRequestMetadata, process_onion_req}
use beldex_storage_server.Handler.Onion.Allowed.{Allowed, process_onion_req-Allowed}
use beldex_storage_server.Examples.Peers.{node}

abbrev layer : InnerJson
layer = record {
  has_headers = false;
  json = none;
  base64 = none;
  host = some (some (97 ∷ []));
  target = some (target_prefix ++ target_suffix);
  port = some (some 8080);
  protocol = none;
  destination = none;
  ephemeral_key = none;
  enc_type = none;
}

abbrev parsers : Parsers
parsers = record {
  parse_json = λ b. if length b == 2 then some layer else none;
  ed25519_from_hex = λ b. some (length b);
  x25519_from_hex = λ b. some (length b);
  parse_enc_type = λ b. none;
  https = 104 ∷ 115 ∷ [];
}

abbrev literal : String → Bytes
literal text =
    if text == "https"
    then 104 ∷ 115 ∷ []
    else if text == "http"
    then 104 ∷ []
    else if text == "/"
    then 47 ∷ []
    else 58 ∷ []

abbrev to_string : ℕ → Bytes
to_string n = n ∷ []

abbrev metadata : OnionRequestMetadata
metadata = record { ephem_key = 9; hop_no = 2; enc_type = aes_gcm }

abbrev plaintext : Bytes
plaintext = le_bytes 4 3 ++ (7 ∷ 8 ∷ 9 ∷ 123 ∷ 125 ∷ [])

process_onion_req-Allowed_example :
    Allowed literal to_string node metadata
      (process_onion_req literal to_string parsers node metadata (some plaintext)).1
process_onion_req-Allowed_example =
    process_onion_req-Allowed literal to_string node metadata parsers (some plaintext)
