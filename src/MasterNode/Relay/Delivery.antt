-- ===== src/MasterNode/Relay/Delivery.antt =====
-- What relay_messages of httpserver/master_node.cpp puts out, and what the nodes that get it read.
use beldex_storage_server.Prelude.{
  ◌≡◌, inl, inr, refl, Bool, Option, none, some, List, [], ◌∷◌, ◌++◌, map, In, In-append,
  In-append_left, In-append_right, In-map, In-map_inv, All, All-append_inv, Bytes, arith, nat_eq,
}
use mathlib.Core.Option
use beldex_storage_server.Keys.{X25519Pubkey}
use beldex_storage_server.Common.{Hex, Message}
use beldex_storage_server.Swarm.{MnRecord}
use beldex_storage_server.Serialization.{
  Codec, Deserialized, deserialized, threw, undefined, deserialize_messages,
}
use beldex_storage_server.Serialization.Batches.{read_batches}
use beldex_storage_server.MasterNode.{Sent, batch}
use beldex_storage_server.MasterNode.Relay.{deliveries}

-- Who gets what from the loops of relay_messages.
pub In-deliveries :
    (mns : List MnRecord) (bs : List Bytes) (mn : MnRecord) (b : Bytes)
    → In mn mns
    → In b bs
    → In (mn.pubkey_x25519, batch b) (deliveries mns bs)
unfolding deliveries
In-deliveries [] bs mn b i j = absurd i
In-deliveries (m ∷ mns) bs mn b (inl e) j =
    rw e (In-append_left _ _ (deliveries mns bs) (In-map (λ x. (m.pubkey_x25519, batch x)) b bs j))
In-deliveries (m ∷ mns) bs mn b (inr i) j =
    In-append_right _ (map (λ x. (m.pubkey_x25519, batch x)) bs) _ (In-deliveries mns bs mn b i j)

pub In-deliveries_inv :
    (mns : List MnRecord) (bs : List Bytes) (x : X25519Pubkey × Sent)
    → In x (deliveries mns bs)
    → (mn : MnRecord) × (b : Bytes) × In mn mns × In b bs × (x ≡ (mn.pubkey_x25519, batch b))
unfolding deliveries
In-deliveries_inv [] bs x i = absurd i
In-deliveries_inv (m ∷ mns) bs x i =
    elim (In-append x (map (λ y. (m.pubkey_x25519, batch y)) bs) (deliveries mns bs) i) [
      | inl j ↦
          let (b, k, e) = In-map_inv (λ y. (m.pubkey_x25519, batch y)) x bs j in
          (m, b, inl refl, k, e)
      | inr j ↦ let (mn, b, k, l, e) = In-deliveries_inv mns bs x j in (mn, b, inr k, l, e)
    ]

module _ (hex : Hex) (codec : Codec) (is_mainnet : Bool) where
  -- A batch that is read as messages, of which one is `msg`.
  abbrev pub Carries : Bytes → Message → Type 0
  Carries blob msg =
      (l : List Message) × (deserialize_messages hex codec is_mainnet blob ≡ some (deserialized l))
      × In msg l

  -- A batch that is read as messages, each of which has `P`.
  abbrev pub CarriesOnly : (Message → Type 0) → Bytes → Type 0
  CarriesOnly P blob =
      (l : List Message) × (deserialize_messages hex codec is_mainnet blob ≡ some (deserialized l))
      × All P l

  read_batches-inv :
      (b : Bytes) (bs : List Bytes) (ms : List Message)
      → read_batches hex codec is_mainnet (b ∷ bs) ≡ some ms
      → (l more : List Message) × (deserialize_messages hex codec is_mainnet b
          ≡ some (deserialized l))
        × (read_batches hex codec is_mainnet bs ≡ some more)
        × (ms ≡ l ++ more)
  unfolding read_batches
  read_batches-inv b bs ms h = go _ refl _ refl h
    where
      go :
          (d : Option Deserialized)
          → deserialize_messages hex codec is_mainnet b ≡ d
          → (r : Option (List Message)) → read_batches hex codec is_mainnet bs ≡ r
          → (elim d [
            | some (deserialized msgs) ↦ Option.map (λ more. msgs ++ more) r
            | some threw ↦ none
            | some undefined ↦ none
            | none ↦ none
          ])
            ≡ some ms
          → (l more : List Message) × (deserialize_messages hex codec is_mainnet b
              ≡ some (deserialized l))
            × (read_batches hex codec is_mainnet bs ≡ some more)
            × (ms ≡ l ++ more)
      go (some (deserialized l)) e (some more) f q = (l, more, e, f, ground arith)
      go (some (deserialized l)) e none f q = cc
      go (some threw) e r f q = cc
      go (some undefined) e r f q = cc
      go none e r f q = cc

  pub read_batches-Carries :
      (bs : List Bytes) (ms : List Message) (msg : Message)
      → read_batches hex codec is_mainnet bs ≡ some ms
      → In msg ms
      → (b : Bytes) × In b bs × Carries b msg
  read_batches-Carries [] ms msg h i =
      let e : [] ≡ ms = unfold read_batches in ground arith in absurd (rw (← e) at i)
  read_batches-Carries (b ∷ bs) ms msg h i =
      let (l, more, d, r, e) = read_batches-inv b bs ms h in
      elim (In-append msg l more (rw e at i)) [
        | inl j ↦ (b, inl refl, (l, d, j))
        | inr j ↦ let (c, k, carries) = read_batches-Carries bs more msg r j in (c, inr k, carries)
      ]

  pub read_batches-CarriesOnly :
      (P : Message → Type 0) (bs : List Bytes) (ms : List Message) (b : Bytes)
      → read_batches hex codec is_mainnet bs ≡ some ms
      → All P ms
      → In b bs
      → CarriesOnly P b
  read_batches-CarriesOnly P [] ms b h p i = absurd i
  read_batches-CarriesOnly P (c ∷ bs) ms b h p i =
      let (l, more, d, r, e) = read_batches-inv c bs ms h in
      let (pl, pm) = All-append_inv P l more (rw e at p) in
      elim i [ inl q ↦ rw q (l, d, pl) | inr j ↦ read_batches-CarriesOnly P bs more b r pm j ]
