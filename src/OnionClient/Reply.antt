-- ===== src/OnionClient/Reply.antt =====
-- wrap_proxy_response of httpserver/request_handler.cpp, and how contrib/onion-request.cpp reads what it
-- gives.
use beldex_storage_server.Prelude.{
  ℕ, ◌≡◌, refl, sym, ◌∙◌, ap, Bool, true, false, Option, some, Bytes, codes, if◌then◌else◌,
}
use beldex_storage_server.Keys.{X25519Pubkey}
use beldex_storage_server.Serialization.{Codec}
use beldex_storage_server.Onion.{EncryptType, ◌>>=◌}
use beldex_storage_server.Channel.{
  Primitives, ChannelEncryption, Random, plain, threw, encrypt, decrypt,
}
use beldex_storage_server.Channel.RoundTrip.{AreEnds, decrypt-encrypt, some->>=}
use beldex_storage_server.BmqServer.Values.{Json, string, unsigned, object, member, no_more}
use beldex_storage_server.BmqServer.Onion.{OnionEnv}
use beldex_storage_server.OnionClient.{read_reply, retry}

-- The body of a Response.
pub data ReplyBody : Type 0 where
  text : Bytes → ReplyBody
  value : Json → ReplyBody

-- `dump` is json::dump; `none` is its exception.
module _ (dump : Json → Option Bytes) where
  -- A json body is dumped a second time, unless it is to be embedded.
  unfoldable pub inner_body : ReplyBody → Bool → Option Json
  inner_body (text b) embed_json = some (string b)
  inner_body (value j) embed_json = if embed_json then some j else dump j >>= λ b. some (string b)

  unfoldable pub reply_text : ℕ → ReplyBody → Bool → Option Bytes
  unfolding inner_body
  reply_text status body embed_json = inner_body body embed_json >>= λ j.
      dump (object (member (codes "body") j (member (codes "status") (unsigned status) no_more)))

  module _ (prim : Primitives) (codec : Codec) (channel_cipher : ChannelEncryption)
      (random : Random) where
    unfoldable pub wrap_proxy_response :
        ℕ → ReplyBody → X25519Pubkey → EncryptType → Bool → Bool → Option Bytes
    unfolding reply_text
    wrap_proxy_response status body client_key enc_type embed_json base64 = do
      inner ← reply_text status body embed_json
      ciphertext ← encrypt prim channel_cipher enc_type random inner client_key
      some (if base64 then codec.to_base64 ciphertext else ciphertext)

module _ (dump : Json → Option Bytes) (env : OnionEnv) (codec : Codec) (random : Random) where
  read_reply-encoded :
      (d : ChannelEncryption) (type : EncryptType) (key : X25519Pubkey) (sealed shown : Bytes)
      (base64 : Bool)
      → decrypt env.prim d type sealed key ≡ plain shown
      → (base64 ≡ true → decrypt env.prim d type (codec.to_base64 sealed) key ≡ threw)
      → read_reply env codec d type key (if base64 then codec.to_base64 sealed else sealed)
        ≡ some shown
  unfolding read_reply retry
  read_reply-encoded d type key sealed shown false h first = rw (read_reply, h) refl
  read_reply-encoded d type key sealed shown true h first =
      rw
        (
          read_reply,
          first refl,
          codec.is_base64-to_base64 sealed,
          codec.from_base64-to_base64 sealed,
          h,
        )
        refl

  -- The client whose key the last node encrypts a reply for reads its status and body as they were
  -- dumped. If the reply was to be in base64, its text must not pass for a ciphertext.
  read_reply-wrap_proxy_response :
      (node client : ChannelEncryption) (status : ℕ) (body : ReplyBody) (type : EncryptType)
      (embed_json base64 : Bool) (shown reply : Bytes)
      → AreEnds env.prim node client
      → reply_text dump status body embed_json ≡ some shown
      → wrap_proxy_response dump env.prim codec node random status body client.public_key type
          embed_json base64
        ≡ some reply
      → (base64 ≡ true → decrypt env.prim client type reply node.public_key ≡ threw)
      → read_reply env codec client type node.public_key reply ≡ some shown
  unfolding wrap_proxy_response
  read_reply-wrap_proxy_response node client status body type embed_json base64 shown reply ends t h
        first =
      let (inner, e1, h1) = some->>= (reply_text dump status body embed_json) _ reply h in
      let (sealed, e2, h2) =
        some->>= (encrypt env.prim node type random inner client.public_key) _ reply h1 in
      let whole : (if base64 then codec.to_base64 sealed else sealed) ≡ reply = cc in
      let same : inner ≡ shown = cc in
      let opened = decrypt-encrypt env.prim node client type random inner sealed ends e2 in
      rw (← whole) (
        read_reply-encoded client type node.public_key sealed shown base64 (opened ∙ ap plain same)
          (λ b.
            ap
              (λ (c : Bool).
                decrypt env.prim client type (if c then codec.to_base64 sealed else sealed)
                  node.public_key)
              (sym b)
            ∙ rw whole (first b)))
