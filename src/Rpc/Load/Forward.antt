-- ===== src/Rpc/Load/Forward.antt =====
-- A request that goes on to the swarm arrives there as it was.
use beldex_storage_server.Prelude.{
  ℕ, ◌≡◌, ◌≤◌, ◌⊎◌, inl, inr, Bool, not, Option, none, some, List, [], ◌∷◌, nat_eq, Bytes, length,
  find, find_if, arith, refl, string_eq, ◌≢◌,
}
use beldex_storage_server.Common.{UserPubkey, Hex, prefixed_raw}
use beldex_storage_server.Common.Pubkeys.{IsKey, is_valid-IsKey, load-prefixed_raw}
use beldex_storage_server.Rpc.{
  BtDict, parsed, integer_field, string_field, list_field, required, exactly_one_of, Base64, Signed,
  Store, DeleteMsgs, DeleteAll, DeleteBefore, ExpireAll, ExpireMsgs, max_message_body, load_pubkey,
  load_pubkey_ed25519, load_pk_signature,
}
use beldex_storage_server.Rpc.Load.{
  load_expiry, is_valid_message_hash, load_messages, load_store, load_signed, load_delete_msgs,
  load_delete_all, load_delete_before, load_expire_all, load_expire_msgs, ed25519_bt, store_bt,
  delete_msgs_bt, delete_all_bt, delete_before_bt, expire_all_bt, expire_msgs_bt,
}

-- What every request that a load accepts has.
pub record IsSigned (s : Signed) (n : ℕ) : Type 0 where
  pub key : IsKey s.pubkey n
  pub signature_size : length s.signature ≡ 64
  pub ed25519 :
      (s.pubkey_ed25519 ≡ none)
      ⊎ ((n ≡ 5) × ((pk : Bytes) × (s.pubkey_ed25519 ≡ some pk) × (length pk ≡ 32)))

load_pubkey-prefixed_raw :
    (hex : Hex) (is_mainnet : Bool) (pk : UserPubkey) (n : ℕ)
    → IsKey pk n
    → load_pubkey hex is_mainnet (prefixed_raw pk) ≡ parsed pk
unfolding load_pubkey
load_pubkey-prefixed_raw hex is_mainnet pk n k =
    rw (load-prefixed_raw hex is_mainnet pk n k, is_valid-IsKey pk n k) refl

-- The fields of a signed request load as they were written.
load_pk_signature_lem :
    (hex : Hex) (is_mainnet : Bool) (s : Signed) (n : ℕ)
    → IsSigned s n
    → load_pk_signature hex is_mainnet
        (some (prefixed_raw s.pubkey))
        s.pubkey_ed25519
        (some s.signature)
      ≡ parsed s
unfolding load_pk_signature required load_pubkey_ed25519
load_pk_signature_lem hex is_mainnet s n h =
    rw (load_pubkey-prefixed_raw hex is_mainnet s.pubkey n h.key) (elim h.ed25519 [
      | inl e ↦ rw e (ground (arith, h.signature_size))
      | inr (five, (pk, e, size)) ↦
          rw (e, h.key.network, five, size) (ground (arith, h.signature_size, size))
    ])

ed25519_field : (o : Option Bytes) → string_field "pubkey_ed25519" (ed25519_bt o) ≡ parsed o
unfolding string_field ed25519_bt find
ed25519_field none = refl
ed25519_field (some pk) = refl

module _ (hex : Hex) (base64 : Base64) (is_mainnet : Bool) where
  -- A store request that goes on to the swarm loads there as it was, if its key is one of 32 bytes and
  -- its body is within the limit.
  load_store-store_bt :
      (s : Store) (n : ℕ)
      → IsKey s.pubkey n
      → length s.payload ≤ max_message_body
      → load_store hex base64 is_mainnet (store_bt s) ≡ parsed s
  unfolding load_store store_bt string_field integer_field exactly_one_of required load_expiry find
  load_store-store_bt s n k h =
      rw (load_pubkey-prefixed_raw hex is_mainnet s.pubkey n k) (ground arith)

  load_signed_lem :
      (s : Signed) (n : ℕ) (d : BtDict)
      → IsSigned s n
      → string_field "pubkey" d ≡ parsed (some (prefixed_raw s.pubkey))
      → string_field "signature" d ≡ parsed (some s.signature)
      → string_field "pubkey_ed25519" d
        ≡ string_field "pubkey_ed25519" (ed25519_bt s.pubkey_ed25519)
      → load_signed hex base64 is_mainnet d ≡ parsed s
  unfolding load_signed
  load_signed_lem s n d h a b c =
      rw (a, b, c, ed25519_field s.pubkey_ed25519) (load_pk_signature_lem hex is_mainnet s n h)

  load_messages_lem :
      (ms : List Bytes)
      → ms ≢ []
      → find_if (λ x. not (is_valid_message_hash hex base64 x)) ms ≡ none
      → load_messages hex base64 ms ≡ parsed ms
  unfolding load_messages
  load_messages_lem [] ne h = absurd (ne refl)
  load_messages_lem (m ∷ ms) ne h = rw (h, load_messages) refl

  -- Each signed request that goes on to the swarm loads there as it was, if its parts are as a load
  -- leaves them: a key of 32 bytes, a signature of 64, an Ed25519 key of 32 only for a key of network 5,
  -- and one or more valid hashes of messages.
  pub load-to_bt :
      (signed : Signed) (n time : ℕ) (hashes : List Bytes)
      → IsSigned signed n
      → hashes ≢ []
      → find_if (λ x. not (is_valid_message_hash hex base64 x)) hashes ≡ none
      → let all : DeleteAll = record { signed = signed; timestamp = time } in
        let msgs : DeleteMsgs = record { signed = signed; messages = hashes } in
        let before : DeleteBefore = record { signed = signed; before = time } in
        let expire : ExpireAll = record { signed = signed; expiry = time } in
        let expire' : ExpireMsgs = record { signed = signed; expiry = time; messages = hashes } in
        (load_delete_all hex base64 is_mainnet (delete_all_bt all) ≡ parsed all)
        × (load_delete_msgs hex base64 is_mainnet (delete_msgs_bt msgs) ≡ parsed msgs)
        × (load_delete_before hex base64 is_mainnet (delete_before_bt before) ≡ parsed before)
        × (load_expire_all hex base64 is_mainnet (expire_all_bt expire) ≡ parsed expire)
        × (load_expire_msgs hex base64 is_mainnet (expire_msgs_bt expire') ≡ parsed expire')
  unfolding load_delete_all load_delete_msgs load_delete_before load_expire_all load_expire_msgs
      delete_all_bt delete_msgs_bt delete_before_bt expire_all_bt expire_msgs_bt integer_field
      list_field string_field required find
  load-to_bt signed n time hashes h ne valid =
      let ms = load_messages_lem hashes ne valid in
      let all : DeleteAll = record { signed = signed; timestamp = time } in
      let msgs : DeleteMsgs = record { signed = signed; messages = hashes } in
      let before : DeleteBefore = record { signed = signed; before = time } in
      let expire : ExpireAll = record { signed = signed; expiry = time } in
      let expire' : ExpireMsgs = record { signed = signed; expiry = time; messages = hashes } in
      (
        rw (load_signed_lem signed n (delete_all_bt all) h refl refl refl) refl,
        rw (load_signed_lem signed n (delete_msgs_bt msgs) h refl refl refl, ms) refl,
        rw (load_signed_lem signed n (delete_before_bt before) h refl refl refl) refl,
        rw (load_signed_lem signed n (expire_all_bt expire) h refl refl refl) refl,
        rw (load_signed_lem signed n (expire_msgs_bt expire') h refl refl refl, ms) refl,
      )
