-- ===== src/HttpsServer/Signed.antt =====
-- validate_mnode_signature of httpserver/https_server.cpp: the headers that a master node signs a request
-- with, and http::headers of httpserver/http.h.
pub mod Valid
use beldex_storage_server.Prelude.{
  ℕ, ◌+◌, Bool, true, false, not, ◌&&◌, Option, none, some, List, [], ◌∷◌, ◌==◌, nat_eq, bytes_eq,
  Bytes, String, codes, ltb, leb, map, if◌then◌else◌,
}
use beldex_storage_server.Keys.{LegacyPubkey}
use beldex_storage_server.Keys.Coding.{Base32z, parse_pubkey}
use beldex_storage_server.Common.{Hex}
use beldex_storage_server.Serialization.{Codec}
use beldex_storage_server.Swarm.{MnRecord, find_node}
use beldex_storage_server.MasterNode.{Node}
use beldex_storage_server.Utils.Strings.{lowercase_ascii_string}
use beldex_storage_server.Signature.{Curve, Signature, from_base64, check_signature, hash_data}

-- The map's find; `headers` holds one entry for each name.
unfoldable pub find_header : Bytes → List (Bytes × Bytes) → Option Bytes
find_header name [] = none
find_header name ((h, v) ∷ headers) =
    if lowercase_ascii_string h == lowercase_ascii_string name
    then some v
    else find_header name headers

-- headers[name] = value
unfoldable pub set_header : Bytes → Bytes → List (Bytes × Bytes) → List (Bytes × Bytes)
set_header name value [] = (name, value) ∷ []
set_header name value ((h, v) ∷ headers) =
    let rest = set_header name value headers in
    if lowercase_ascii_string h == lowercase_ascii_string name
    then (h, value) ∷ headers
    else (h, v) ∷ rest

pub record Request : Type 0 where
  pub body : Bytes
  pub headers : List (Bytes × Bytes)

-- The sender, or the response.
pub data Validated : Type 0 where
  sender : LegacyPubkey → Validated
  response : ℕ → String → Validated

-- `uninitialized` is what a key holds that no value was given to.
pub record SignedEnv : Type 0 where
  pub hex : Hex
  pub codec : Codec
  pub base32z : Base32z
  pub curve : Curve
  pub uninitialized : LegacyPubkey

module _ (env : SignedEnv) where
  -- The key 0 stands for a header that is no key; without the header the key is not initialized.
  abbrev pub pubkey_of : Option Bytes → LegacyPubkey
  pubkey_of none = env.uninitialized
  pubkey_of (some h) = parse_pubkey env.hex env.codec env.base32z h

  unfoldable pub validate_sender :
      Node → Request → Bool → LegacyPubkey → Signature → Option MnRecord → Validated
  validate_sender mn r prevalidate pubkey sig none = response 401 "Unknown master node"
  validate_sender mn r prevalidate pubkey sig (some node) =
      if not prevalidate && not (check_signature env.curve sig (hash_data env.curve r.body) pubkey)
      then response 401 "mnode signature verification failed"
      else sender pubkey

  unfoldable pub validate_header : Node → Request → Bool → LegacyPubkey → Option Bytes → Validated
  unfolding validate_sender
  validate_header mn r prevalidate pubkey none = response 400 "missing signature header"
  validate_header mn r prevalidate pubkey (some text) = elim (from_base64 env.codec text) [
    | none ↦ response 400 "Invalid signature"
    | some sig ↦ validate_sender mn r prevalidate pubkey sig (find_node mn.swarm pubkey)
  ]

  unfoldable pub validate_mnode_signature : Node → Request → Bool → Validated
  unfolding validate_header find_header
  validate_mnode_signature mn r prevalidate =
      let pubkey = pubkey_of (find_header (codes "X-Beldex-Mnode-PubKey") r.headers) in
      if pubkey == 0
      then response 400 "missing/invalid pubkey header"
      else validate_header mn r prevalidate pubkey
          (find_header (codes "X-Beldex-Mnode-Signature") r.headers)
