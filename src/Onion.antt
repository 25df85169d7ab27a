-- ===== src/Onion.antt =====
-- httpserver/onion_processing.h and onion_processing.cpp: what a decrypted layer of an onion request
-- asks for. The json document is a record of its fields, a missing field or one of another type being
-- `none`; the parsing of json, of keys and of the encryption type, and the decryption are parameters.
pub mod Payload
use beldex_storage_server.Prelude.{
  ℕ, ◌+◌, Bool, true, false, not, ◌&&◌, ◌||◌, Option, none, some, List, [], ◌∷◌, Bytes, ltb, length,
  take, drop, from_le, if◌then◌else◌,
}
use beldex_storage_server.Keys.{X25519Pubkey, Ed25519Pubkey}
use beldex_storage_server.Utils.Strings.{starts_with, ends_with, is_one_of, find_first}

abbrev pub max_onion_hops : ℕ
max_onion_hops = 15

-- nlohmann::json of a layer. An optional field of another type than asked for is an exception: it is
-- `some none`.
pub record InnerJson : Type 0 where
  pub has_headers : Bool
  pub json : Option (Option Bool)
  pub base64 : Option (Option Bool)
  pub host : Option (Option Bytes)
  pub target : Option Bytes
  pub port : Option (Option ℕ)
  pub protocol : Option (Option Bytes)
  pub destination : Option Bytes
  pub ephemeral_key : Option Bytes
  pub enc_type : Option (Option Bytes)

pub data EncryptType : Type 0 where
  aes_cbc aes_gcm xchacha20 : EncryptType

-- RelayToNodeInfo, RelayToServerInfo, FinalDestinationInfo and ProcessCiphertextError
pub data ParsedInfo : Type 0 where
  relay_to_node : Bytes → X25519Pubkey → EncryptType → Ed25519Pubkey → ParsedInfo
  relay_to_server : Bytes → Bytes → ℕ → Bytes → Bytes → ParsedInfo
  final_destination : Bytes → Bool → Bool → ParsedInfo
  invalid_ciphertext invalid_json : ParsedInfo

pub record Parsers : Type 0 where
  pub parse_json : Bytes → Option InnerJson
  pub ed25519_from_hex : Bytes → Option Ed25519Pubkey
  pub x25519_from_hex : Bytes → Option X25519Pubkey
  pub parse_enc_type : Bytes → Option EncryptType
  pub https : Bytes

-- A field with a default; `none` is the exception of a field of another type.
abbrev pub field_or {ℓ} : {A : Type ℓ} → Option (Option A) → A → Option A
field_or none default = some default
field_or (some value) default = value

infixl 10 ◌>>=◌
abbrev pub ◌>>=◌ {ℓ κ} : {A : Type ℓ} {B : Type κ} → Option A → (A → Option B) → Option B
none >>= f = none
some a >>= f = f a

-- The two parts of a combined payload; `none` is the exception.
unfoldable pub split_payload : Bytes → Option (Bytes × Bytes)
split_payload payload =
    if ltb (length payload) 4
    then none
    else (let n = from_le (take 4 payload) in
        let rest = drop 4 payload in
        if ltb (length rest) n then none else some (take n rest, drop n rest))

-- is_onion_url_target_allowed; the bytes are those of "/beldex/", "/lsrpc" and '?'.
abbrev pub target_prefix : Bytes
target_prefix = 47 ∷ 98 ∷ 101 ∷ 108 ∷ 100 ∷ 101 ∷ 120 ∷ 47 ∷ []

abbrev pub target_suffix : Bytes
target_suffix = 47 ∷ 108 ∷ 115 ∷ 114 ∷ 112 ∷ 99 ∷ []

abbrev pub is_absent : Option ℕ → Bool
is_absent none = true
is_absent (some n) = false

unfoldable pub is_onion_url_target_allowed : Bytes → Bool
is_onion_url_target_allowed target =
    starts_with target target_prefix
    && (ends_with target target_suffix && is_absent (find_first (is_one_of (63 ∷ [])) target))

module _ (p : Parsers) where
  unfoldable pub parse_combined_payload : Bytes → Option (Bytes × InnerJson)
  parse_combined_payload payload =
      split_payload payload >>= λ parts. (p.parse_json parts.1 >>= λ json. some (parts.0, json))

  unfoldable pub parse_final : Bytes → InnerJson → Option ParsedInfo
  parse_final ciphertext inner_json = do
    json ← field_or inner_json.json false
    b64 ← field_or inner_json.base64 true
    some (final_destination ciphertext json b64)

  unfoldable pub parse_to_server : Bytes → InnerJson → Option Bytes → Option ParsedInfo
  parse_to_server plaintext inner_json host_field = do
    host ← host_field
    target ← inner_json.target
    port ← field_or inner_json.port 443
    protocol ← field_or inner_json.protocol p.https
    some (relay_to_server plaintext host port protocol target)

  unfoldable pub parse_to_node : Bytes → InnerJson → Option ParsedInfo
  parse_to_node ciphertext inner_json = do
    destination ← inner_json.destination
    next ← p.ed25519_from_hex destination
    key ← inner_json.ephemeral_key
    eph_key ← p.x25519_from_hex key
    enc_type ← (elim inner_json.enc_type [
      | none ↦ some aes_gcm
      | some none ↦ none
      | some (some text) ↦ p.parse_enc_type text
    ])
    some (relay_to_node ciphertext eph_key enc_type next)

  -- The choice of what the layer is, by the fields that are there.
  unfoldable pub parse_layer : Bytes → Bytes × InnerJson → Option ParsedInfo
  parse_layer plaintext (ciphertext, inner_json) =
      if inner_json.has_headers then parse_final ciphertext inner_json else elim inner_json.host [
        | some host ↦ parse_to_server plaintext inner_json host
        | none ↦ parse_to_node ciphertext inner_json
      ]

  unfoldable pub process_inner_request : Bytes → ParsedInfo
  process_inner_request plaintext =
      elim (parse_combined_payload plaintext >>= parse_layer plaintext) [
        | none ↦ invalid_json
        | some info ↦ info
      ]

  -- `plaintext` is what the decryption gives, `none` where it throws.
  unfoldable pub process_ciphertext_v2 : Option Bytes → ParsedInfo
  process_ciphertext_v2 none = invalid_ciphertext
  process_ciphertext_v2 (some plaintext) = process_inner_request plaintext
