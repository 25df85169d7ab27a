-- ===== src/HttpsServer/Signed/Valid.antt =====
-- What a validated request of httpserver/https_server.cpp shows of its sender.
use beldex_storage_server.Prelude.{
  ◌↔◌, ◌≡◌, ◌≢◌, refl, true, false, ap, sym, ◌∙◌, Option, none, some, Option-cases, Bool-cases, inl,
  inr, codes, arith, ◌==◌, nat_eq, Bytes,
}
use beldex_storage_server.Keys.{LegacyPubkey}
use beldex_storage_server.Keys.Coding.{parse_pubkey}
use beldex_storage_server.Swarm.{MnRecord, find_node}
use beldex_storage_server.MasterNode.{Node}
use beldex_storage_server.Signature.{Signature, from_base64, check_signature, hash_data}
use beldex_storage_server.HttpsServer.Signed.{
  find_header, Request, sender, response, SignedEnv, pubkey_of, validate_sender, validate_header,
  validate_mnode_signature,
}

module _ (env : SignedEnv) where
  -- The sender of a request whose headers and body are in order.
  pub record IsSigned (mn : Node) (r : Request) (pubkey : LegacyPubkey) : Type 0 where
    pub sig : Signature
    pub node : MnRecord
    pub text : Bytes
    pub named : pubkey_of env (find_header (codes "X-Beldex-Mnode-PubKey") r.headers) ≡ pubkey
    pub present : pubkey ≢ 0
    pub header : find_header (codes "X-Beldex-Mnode-Signature") r.headers ≡ some text
    pub read : from_base64 env.codec text ≡ some sig
    pub known : find_node mn.swarm pubkey ≡ some node
    pub checked : check_signature env.curve sig (hash_data env.curve r.body) pubkey ≡ true

  validate_sender-inv :
      (mn : Node) (r : Request) (key pubkey : LegacyPubkey) (sig : Signature) (o : Option MnRecord)
      → validate_sender env mn r false key sig o ≡ sender pubkey
      → (key ≡ pubkey)
        × ((node : MnRecord) × (o ≡ some node))
        × (check_signature env.curve sig (hash_data env.curve r.body) key ≡ true)
  unfolding validate_sender
  validate_sender-inv mn r key pubkey sig none h = cc
  validate_sender-inv mn r key pubkey sig (some node) h =
      elim (Bool-cases (check_signature env.curve sig (hash_data env.curve r.body) key)) [
        | inl t ↦ let q : sender key ≡ sender pubkey = rw t at h in (cc, (node, refl), t)
        | inr f ↦
            let q : response 401 "mnode signature verification failed" ≡ sender pubkey =
              rw f at h in
            cc
      ]

  validate_header-inv :
      (mn : Node) (r : Request) (key pubkey : LegacyPubkey) (o : Option Bytes)
      → validate_header env mn r false key o ≡ sender pubkey
      → (text : Bytes) × (sig : Signature) × (o ≡ some text)
        × (from_base64 env.codec text ≡ some sig)
        × (validate_sender env mn r false key sig (find_node mn.swarm key) ≡ sender pubkey)
  unfolding validate_header
  validate_header-inv mn r key pubkey none h = cc
  validate_header-inv mn r key pubkey (some text) h =
      elim (Option-cases (from_base64 env.codec text)) [
        | inl e ↦
            let q : response 400 "Invalid signature" ≡ sender pubkey =
              rw (e, validate_header) at h in
            cc
        | inr (sig, e) ↦ (text, sig, refl, e, rw (e, validate_header) at h)
      ]

  validate_mnode_signature-IsSigned :
      (mn : Node) (r : Request) (pubkey : LegacyPubkey)
      → validate_mnode_signature env mn r false ≡ sender pubkey
      → IsSigned mn r pubkey
  unfolding validate_mnode_signature
  validate_mnode_signature-IsSigned mn r pubkey h =
      let key = pubkey_of env (find_header (codes "X-Beldex-Mnode-PubKey") r.headers) in
      elim (Bool-cases (key == 0)) [
        | inl t ↦
            let q : response 400 "missing/invalid pubkey header" ≡ sender pubkey = rw t at h in cc
        | inr f ↦
            let valid =
              validate_header-inv mn r key pubkey
                (find_header (codes "X-Beldex-Mnode-Signature") r.headers) (rw f at h) in
            let (text, sig, header, read, whole) = valid in
            let (same, (node, known), checked) =
              validate_sender-inv mn r key pubkey sig (find_node mn.swarm key) whole in
            record {
              sig = sig;
              node = node;
              text = text;
              named = same;
              present = λ z. ground (arith, same);
              header = header;
              read = read;
              known = rw same at known;
              checked = rw same at checked;
            }
      ]

  validate_header-sender :
      (mn : Node) (r : Request) (pubkey : LegacyPubkey) (is : IsSigned mn r pubkey)
      → validate_header env mn r false pubkey (some is.text) ≡ sender pubkey
  unfolding validate_header validate_sender
  validate_header-sender mn r pubkey is = rw (validate_header, is.read, is.known, is.checked) refl

  IsSigned-sender :
      (mn : Node) (r : Request) (pubkey : LegacyPubkey)
      → IsSigned mn r pubkey
      → validate_mnode_signature env mn r false ≡ sender pubkey
  unfolding validate_mnode_signature
  IsSigned-sender mn r pubkey is =
      let some_key : (pubkey == 0) ≡ false = ground (arith, is.present) in
      rw (is.named, some_key, is.header) (validate_header-sender mn r pubkey is)

  -- A request with a header for the sender's key is accepted from a sender if and only if the header
  -- reads as the sender's key, that is not the key 0 and is a known master node's, and the headers carry
  -- a signature of the body's hash that passes the check for the key.
  pub validate_mnode_signature_iff :
      (mn : Node) (r : Request) (text : Bytes)
      → find_header (codes "X-Beldex-Mnode-PubKey") r.headers ≡ some text
      → (pubkey : LegacyPubkey)
      → (validate_mnode_signature env mn r false ≡ sender pubkey)
        ↔ ((parse_pubkey env.hex env.codec env.base32z text ≡ pubkey) × IsSigned mn r pubkey)
  validate_mnode_signature_iff mn r text h pubkey = (
    λ e.
        let is = validate_mnode_signature-IsSigned mn r pubkey e in
        (ap (pubkey_of env) (sym h) ∙ is.named, is),
    λ is. IsSigned-sender mn r pubkey is.1,
  )
