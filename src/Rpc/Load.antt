-- ===== src/Rpc/Load.antt =====
-- `load` and `to_bt` of each request of httpserver/client_rpc_endpoints.cpp.
pub mod Forward
use beldex_storage_server.Prelude.{
  ℕ, ◌+◌, Bool, not, ◌&&◌, ◌||◌, Option, none, some, List, [], ◌∷◌, ltb, ◌==◌, nat_eq, Bytes,
  length, find_if, if◌then◌else◌,
}
use beldex_storage_server.Common.{UserPubkey, Hex, prefixed_raw}
use beldex_storage_server.Rpc.{
  integer, string, list, BtDict, missing, both, no_message_hashes, bad_last_hash, body_too_long,
  invalid_message_hash, Parsed, parsed, failed, ◌>>=◌, integer_field, string_field, list_field,
  required, exactly_one_of, Base64, Signed, Store, Retrieve, DeleteMsgs, DeleteAll, DeleteBefore,
  ExpireAll, ExpireMsgs, max_message_body, load_pubkey, load_pk_signature,
}

-- The expiry of a message: the one given, or the ttl after the timestamp.
pub load_expiry : ℕ → Option ℕ → Option ℕ → Parsed ℕ
load_expiry timestamp (some expiry) (some ttl) = failed (both "expiry" "ttl")
load_expiry timestamp (some expiry) none = parsed expiry
load_expiry timestamp none (some ttl) = parsed (timestamp + ttl)
load_expiry timestamp none none = failed (missing "expiry")

unfoldable pub is_valid_message_hash : Hex → Base64 → Bytes → Bool
is_valid_message_hash hex base64 hash =
    (length hash == 43 && base64.is_base64 hash) || (length hash == 128 && hex.is_hex hash)

-- The checks on the list `messages` of a request.
pub load_messages : Hex → Base64 → List Bytes → Parsed (List Bytes)
unfolding is_valid_message_hash
load_messages hex base64 [] = failed no_message_hashes
load_messages hex base64 (m ∷ ms) =
    elim (find_if (λ x. not (is_valid_message_hash hex base64 x)) (m ∷ ms)) [
      | none ↦ parsed (m ∷ ms)
      | some bad ↦ failed (invalid_message_hash bad)
    ]

-- The end of the load of `retrieve`: an empty hash counts as none.
pub load_last_hash : Hex → Base64 → Option Bytes → Parsed (Option Bytes)
load_last_hash hex base64 none = parsed none
load_last_hash hex base64 (some []) = parsed none
load_last_hash hex base64 (some (b ∷ bs)) =
    if length (b ∷ bs) == 43
    then (if base64.is_base64 (b ∷ bs) then parsed (some (b ∷ bs)) else failed bad_last_hash)
    else if length (b ∷ bs) == 128
    then (if hex.is_hex (b ∷ bs) then parsed (some (b ∷ bs)) else failed bad_last_hash)
    else failed bad_last_hash

-- lastHash is the older spelling of last_hash.
pub at_most_one_of : Option Bytes → Option Bytes → Parsed (Option Bytes)
at_most_one_of (some a) (some b) = failed (both "last_hash" "lastHash")
at_most_one_of (some a) none = parsed (some a)
at_most_one_of none b = parsed b

-- pubkey ? pubkey : pubKey
abbrev pub either_key : Option Bytes → Option Bytes → Option Bytes
either_key (some a) b = some a
either_key none b = b

-- `*ts`
abbrev pub read : ℕ → Option ℕ → ℕ
read unset none = unset
read unset (some ts) = ts

-- The key of a `retrieve`, and its signature and timestamp where one of the three optional fields is
-- given. The source reads the timestamp without a check that there is one: `unset` is what it finds in
-- the empty optional.
pub load_user :
    Hex
    → Bool
    → ℕ
    → Bytes
    → Option Bytes
    → Option Bytes
    → Option ℕ
    → Parsed (UserPubkey × Option (Signed × ℕ))
unfolding load_pubkey load_pk_signature
load_user hex is_mainnet unset pk none none none =
    load_pubkey hex is_mainnet pk >>= λ user. parsed (user, none)
load_user hex is_mainnet unset pk none none (some ts) =
    load_pk_signature hex is_mainnet (some pk) none none >>= λ signed.
    parsed (signed.pubkey, some (signed, ts))
load_user hex is_mainnet unset pk none (some sig) ts =
    load_pk_signature hex is_mainnet (some pk) none (some sig) >>= λ signed.
    parsed (signed.pubkey, some (signed, read unset ts))
load_user hex is_mainnet unset pk (some pk_ed) sig ts =
    load_pk_signature hex is_mainnet (some pk) (some pk_ed) sig >>= λ signed.
    parsed (signed.pubkey, some (signed, read unset ts))

module _ (hex : Hex) (base64 : Base64) (is_mainnet : Bool) where
  pub load_store : BtDict → Parsed Store
  unfolding string_field integer_field exactly_one_of load_pubkey required load_expiry
  load_store d = do
    body ← string_field "data" d
    expiry ← integer_field "expiry" d
    pubkey_alt ← string_field "pubKey" d
    pubkey ← string_field "pubkey" d
    timestamp ← integer_field "timestamp" d
    ttl ← integer_field "ttl" d
    pk ← exactly_one_of "pubkey" pubkey "pubKey" pubkey_alt
    user ← load_pubkey hex is_mainnet pk
    stamp ← required "timestamp" timestamp
    end ← load_expiry stamp expiry ttl
    payload ← required "data" body
    if ltb max_message_body (length payload)
        then failed body_too_long
        else parsed (record { pubkey = user; timestamp = stamp; expiry = end; payload = payload })

  pub load_retrieve : ℕ → BtDict → Parsed Retrieve
  unfolding string_field integer_field exactly_one_of load_user at_most_one_of load_last_hash
  load_retrieve unset d = do
    last_hash_alt ← string_field "lastHash" d
    last_hash ← string_field "last_hash" d
    pubkey_alt ← string_field "pubKey" d
    pubkey ← string_field "pubkey" d
    pk_ed25519 ← string_field "pubkey_ed25519" d
    sig ← string_field "signature" d
    ts ← integer_field "timestamp" d
    pk ← exactly_one_of "pubkey" pubkey "pubKey" pubkey_alt
    (user, check) ← load_user hex is_mainnet unset pk pk_ed25519 sig ts
    given ← at_most_one_of last_hash last_hash_alt
    hash ← load_last_hash hex base64 given
    parsed (record { pubkey = user; last_hash = hash; check_signature = check })

  -- The fields that load_pk_signature reads.
  pub load_signed : BtDict → Parsed Signed
  unfolding string_field load_pk_signature
  load_signed d = do
    pubkey ← string_field "pubkey" d
    pubkey_ed25519 ← string_field "pubkey_ed25519" d
    signature ← string_field "signature" d
    load_pk_signature hex is_mainnet pubkey pubkey_ed25519 signature

  pub load_delete_msgs : BtDict → Parsed DeleteMsgs
  unfolding list_field load_signed required load_messages
  load_delete_msgs d = do
    given ← list_field "messages" d
    signed ← load_signed d
    hashes ← required "messages" given
    messages ← load_messages hex base64 hashes
    parsed (record { signed = signed; messages = messages })

  pub load_delete_all : BtDict → Parsed DeleteAll
  unfolding integer_field load_signed required
  load_delete_all d = do
    given ← integer_field "timestamp" d
    signed ← load_signed d
    timestamp ← required "timestamp" given
    parsed (record { signed = signed; timestamp = timestamp })

  pub load_delete_before : BtDict → Parsed DeleteBefore
  unfolding integer_field load_signed required
  load_delete_before d = do
    given ← integer_field "before" d
    signed ← load_signed d
    before ← required "before" given
    parsed (record { signed = signed; before = before })

  pub load_expire_all : BtDict → Parsed ExpireAll
  unfolding integer_field load_signed required
  load_expire_all d = do
    given ← integer_field "expiry" d
    signed ← load_signed d
    expiry ← required "expiry" given
    parsed (record { signed = signed; expiry = expiry })

  pub load_expire_msgs : BtDict → Parsed ExpireMsgs
  unfolding integer_field list_field load_signed required load_messages
  load_expire_msgs d = do
    end ← integer_field "expiry" d
    given ← list_field "messages" d
    signed ← load_signed d
    expiry ← required "expiry" end
    hashes ← required "messages" given
    messages ← load_messages hex base64 hashes
    parsed (record { signed = signed; expiry = expiry; messages = messages })

  pub load_get_swarm : BtDict → Parsed UserPubkey
  unfolding string_field exactly_one_of load_pubkey
  load_get_swarm d = do
    pubkey_alt ← string_field "pubKey" d
    pubkey ← string_field "pubkey" d
    pk ← exactly_one_of "pubkey" pubkey "pubKey" pubkey_alt
    load_pubkey hex is_mainnet pk

-- The field pubkey_ed25519, where there is one.
pub ed25519_bt : Option Bytes → BtDict
ed25519_bt none = []
ed25519_bt (some pk) = ("pubkey_ed25519", string pk) ∷ []

pub store_bt : Store → BtDict
unfolding prefixed_raw
store_bt s =
    ("pubkey", string (prefixed_raw s.pubkey))
    ∷ ("timestamp", integer s.timestamp)
    ∷ ("expiry", integer s.expiry)
    ∷ ("data", string s.payload)
    ∷ []

pub delete_msgs_bt : DeleteMsgs → BtDict
unfolding prefixed_raw ed25519_bt
delete_msgs_bt r =
    ("pubkey", string (prefixed_raw r.signed.pubkey))
    ∷ ("messages", list r.messages)
    ∷ ("signature", string r.signed.signature)
    ∷ ed25519_bt r.signed.pubkey_ed25519

pub delete_all_bt : DeleteAll → BtDict
unfolding prefixed_raw ed25519_bt
delete_all_bt r =
    ("pubkey", string (prefixed_raw r.signed.pubkey))
    ∷ ("signature", string r.signed.signature)
    ∷ ("timestamp", integer r.timestamp)
    ∷ ed25519_bt r.signed.pubkey_ed25519

pub delete_before_bt : DeleteBefore → BtDict
unfolding prefixed_raw ed25519_bt
delete_before_bt r =
    ("pubkey", string (prefixed_raw r.signed.pubkey))
    ∷ ("signature", string r.signed.signature)
    ∷ ("before", integer r.before)
    ∷ ed25519_bt r.signed.pubkey_ed25519

pub expire_all_bt : ExpireAll → BtDict
unfolding prefixed_raw ed25519_bt
expire_all_bt r =
    ("pubkey", string (prefixed_raw r.signed.pubkey))
    ∷ ("signature", string r.signed.signature)
    ∷ ("expiry", integer r.expiry)
    ∷ ed25519_bt r.signed.pubkey_ed25519

pub expire_msgs_bt : ExpireMsgs → BtDict
unfolding prefixed_raw ed25519_bt
expire_msgs_bt r =
    ("pubkey", string (prefixed_raw r.signed.pubkey))
    ∷ ("signature", string r.signed.signature)
    ∷ ("expiry", integer r.expiry)
    ∷ ("messages", list r.messages)
    ∷ ed25519_bt r.signed.pubkey_ed25519
