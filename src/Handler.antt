-- ===== src/Handler.antt =====
-- httpserver/request_handler.{h,cpp}: what the handlers of client requests share: json objects,
-- responses, the signatures and the hash of a message. libsodium, OpenSSL, nlohmann::json and the
-- standard library's printing and sorting are the fields of `Env`. Times are in milliseconds.
pub mod Reply
pub mod Client
pub mod Messages
pub mod StorageTest
pub mod Onion
use beldex_storage_server.Prelude.{
  ℕ, ◌+◌, ◌*◌, ◌-◌, Bool, true, false, not, ◌&&◌, ◌||◌, Option, none, some, List, [], ◌∷◌, ◌==◌,
  ◌++◌, nat_eq, string_eq, bytes_eq, Bytes, String, ltb, map, if◌then◌else◌,
}
use beldex_storage_server.Keys.{Ed25519Pubkey}
use beldex_storage_server.Common.{UserPubkey, Hex, netid, prefixed_hex}
use beldex_storage_server.Swarm.{SwarmInfo}
use beldex_storage_server.Rpc.{Signed}
use beldex_storage_server.Serialization.{Codec}

-- nlohmann::json, of the kinds that the handlers build; an object is the list of its fields
mutual
  pub data Json : Type 0 where
    flag : Bool → Json
    number : ℕ → Json
    text : Bytes → Json
    texts : List Bytes → Json
    object : Fields → Json

  pub data Fields : Type 0 where
    end : Fields
    field : String → Json → Fields → Fields

pub find_field : String → Fields → Option Json
find_field name end = none
find_field name (field key value rest) = if key == name then some value else find_field name rest

-- The assignment `j[name] = value`.
pub set_field : String → Json → Fields → Fields
set_field name value end = field name value end
set_field name value (field key old rest) =
    let rest' = set_field name value rest in
    if key == name then field key value rest else field key old rest'

-- json::count, which is 0 on what is no object.
pub has_field : String → Json → Bool
unfolding find_field
has_field name (flag b) = false
has_field name (number n) = false
has_field name (text b) = false
has_field name (texts bs) = false
has_field name (object fs) = elim (find_field name fs) [ none ↦ false | some j ↦ true ]

abbrev pub ok : ℕ
ok = 200

abbrev pub unauthorized : ℕ
unauthorized = 401

abbrev pub forbidden : ℕ
forbidden = 403

abbrev pub not_acceptable : ℕ
not_acceptable = 406

abbrev pub misdirected_request : ℕ
misdirected_request = 421

abbrev pub internal_server_error : ℕ
internal_server_error = 500

-- A message in the response to `retrieve`.
pub record Shown : Type 0 where
  pub hash : Bytes
  pub timestamp : ℕ
  pub expiration : ℕ
  pub payload : Bytes

-- The body of a response: a fixed text, an object, the swarm that swarm_to_json prints, or the
-- messages of `retrieve` with the time.
pub data Body : Type 0 where
  plain : String → Body
  json : Fields → Body
  swarm : SwarmInfo → Body
  messages : List Shown → ℕ → Body

pub record Response : Type 0 where
  pub status : ℕ
  pub body : Body

abbrev pub ttl_minimum : ℕ
ttl_minimum = 10 * 1000

abbrev pub ttl_maximum : ℕ
ttl_maximum = 14 * (24 * (3600 * 1000))

abbrev pub store_tolerance : ℕ
store_tolerance = 10 * 1000

abbrev pub signature_tolerance : ℕ
signature_tolerance = 60 * 1000

abbrev pub signature_tolerance_forwarded : ℕ
signature_tolerance_forwarded = 70 * 1000

-- crypto_sign_ed25519_pk_to_curve25519, crypto_sign_verify_detached, crypto_sign_detached with this
-- node's key, the digests, the codings of libbmq, bt_to_json, std::to_chars, the bytes of a literal,
-- std::sort, key_base::hex and the text of an exception of the database.
pub record Env : Type 0 where
  pub hex : Hex
  pub is_mainnet : Bool
  pub pk_to_curve25519 : Bytes → Option Bytes
  pub verify_detached : Bytes → Bytes → Bytes → Bool
  pub sign_detached : Bytes → Bytes
  pub sha512 : List Bytes → Bytes
  pub blake2b : List Bytes → Bytes
  pub codec : Codec
  pub bt_to_json : Bytes → Option Fields
  pub to_chars : ℕ → Bytes
  pub literal : String → Bytes
  pub sort : List Bytes → List Bytes
  pub ed25519_hex : Ed25519Pubkey → String
  pub what : Bytes

-- An argument of a signature message: text, a list of texts, or an integer or time.
pub data Part : Type 0 where
  bytes : Bytes → Part
  strings : List Bytes → Part
  integer : ℕ → Part

pub concat_bytes : List Bytes → Bytes
concat_bytes [] = []
concat_bytes (b ∷ bs) = b ++ concat_bytes bs

-- while (!b64hash.empty() && b64hash.back() == '=') b64hash.pop_back();
pub trim_padding : Bytes → Bytes
trim_padding [] = []
trim_padding (b ∷ bs) = elim (trim_padding bs) [
  | [] ↦ if b == 61 then [] else b ∷ []
  | c ∷ cs ↦ b ∷ c ∷ cs
]

module _ (env : Env) where
  unfoldable pub part_bytes : Part → Bytes
  unfolding concat_bytes
  part_bytes (bytes b) = b
  part_bytes (strings bs) = concat_bytes bs
  part_bytes (integer n) = env.to_chars n

  unfoldable pub concatenate_sig_message_parts : List Part → Bytes
  unfolding part_bytes concat_bytes
  concatenate_sig_message_parts vals = concat_bytes (map part_bytes vals)

  -- The key that verify_signature checks with: the Ed25519 key given, where the user's key is one of
  -- network 5 (or 0 on the test network), if it converts to the user's key.
  unfoldable pub verifying_key : UserPubkey → Option Bytes → Option Bytes
  unfolding netid
  verifying_key pubkey none = some pubkey.pubkey
  verifying_key pubkey (some pk) =
      if netid pubkey == 5 || (netid pubkey == 0 && not env.is_mainnet)
      then elim (env.pk_to_curve25519 pk) [
        | none ↦ none
        | some xpk ↦ if xpk == pubkey.pubkey then some pk else none
      ]
      else some pubkey.pubkey

  unfoldable pub verify_signature : Signed → List Part → Bool
  unfolding verifying_key concatenate_sig_message_parts
  verify_signature signed vals = elim (verifying_key signed.pubkey signed.pubkey_ed25519) [
    | none ↦ false
    | some pk ↦ env.verify_detached signed.signature (concatenate_sig_message_parts vals) pk
  ]

  unfoldable pub create_signature : List Part → Bytes
  unfolding concatenate_sig_message_parts
  create_signature vals = env.sign_detached (concatenate_sig_message_parts vals)

  unfoldable pub compute_hash_blake2b_b64 : List Bytes → Bytes
  unfolding trim_padding
  compute_hash_blake2b_b64 parts = trim_padding (env.codec.to_base64 (env.blake2b parts))

  unfoldable pub compute_hash_sha512_hex : List Bytes → Bytes
  compute_hash_sha512_hex parts = env.hex.to_hex (env.sha512 parts)

  -- computeMessageHash
  unfoldable pub compute_message_hash : ℕ → ℕ → UserPubkey → Bytes → Bool → Bytes
  unfolding compute_hash_blake2b_b64 compute_hash_sha512_hex netid prefixed_hex
  compute_message_hash timestamp expiry pubkey payload old =
      if old
      then compute_hash_sha512_hex (
          env.to_chars timestamp
          ∷ env.to_chars (expiry - timestamp)
          ∷ prefixed_hex env.hex env.is_mainnet pubkey
          ∷ env.codec.to_base64 payload
          ∷ [])
      else compute_hash_blake2b_b64 (
          env.to_chars timestamp
          ∷ env.to_chars expiry
          ∷ (netid pubkey ∷ [])
          ∷ pubkey.pubkey
          ∷ payload
          ∷ [])
