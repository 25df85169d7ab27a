-- ===== src/Serialization/Ends.antt =====
-- The loop over the old format in httpserver/serialization.cpp ends on every input, or reads past the end.
use beldex_storage_server.Prelude.{
  ℕ, ◌+◌, ◌/◌, ◌≡◌, ◌⊎◌, refl, ap, drop, length-append, Option-cases, zero, suc, ◌-◌, ◌≤◌, Bool,
  true, false, Option, some, List, [], ◌∷◌, ◌++◌, ltb, arith, Bytes, length, length-drop,
  Bool-cases, inl, inr, nat_eq, ◌==◌,
}
use beldex_storage_server.Common.{Hex, Message, load, is_valid}
use beldex_storage_server.Serialization.{
  Codec, Item, string, integer, other, threw, deserialize_bt, consume_rest, Deserialized,
  deserialized, undefined, Read, got, short, past_end, ◌>>=◌, deserialize_integer,
  deserialize_sized, deserialize_string, deserialize_message_old, skip_nonce, drop_nonce, check,
  deserialize_old_loop, deserialize_messages_old, deserialize_messages, is_version, pk_size,
}

-- What is left of the slice has at most `n` bytes.
abbrev Leaves : {A : Type 0} → ℕ → Read A → Type 0
Leaves n (got a rest) = length rest ≤ n
Leaves n short = Unit
Leaves n past_end = Unit

Leaves-bind :
    {A B : Type 0} (n k : ℕ) (m : Read A) (f : A → Bytes → Read B)
    → Leaves n m
    → ((a : A) (rest : Bytes) → length rest ≤ n → Leaves k (f a rest))
    → Leaves k (m >>= f)
Leaves-bind n k (got a rest) f h g = g a rest h
Leaves-bind n k short f h g = tt
Leaves-bind n k past_end f h g = tt

sized-Leaves : (slice : Bytes) (len : ℕ) → Leaves (length slice - len) (deserialize_sized slice len)
unfolding deserialize_sized
sized-Leaves slice len = elim (Bool-cases (ltb (length slice) len)) [
  | inl less ↦ rw less tt
  | inr enough ↦ rw enough (omega (arith, length-drop len slice))
]

integer-Leaves : (slice : Bytes) (n : ℕ) → length slice ≤ n → Leaves n (deserialize_integer slice)
unfolding deserialize_integer
integer-Leaves slice n h = elim (Bool-cases (ltb (length slice) 8)) [
  | inl less ↦ rw less tt
  | inr enough ↦ rw enough (omega (arith, length-drop 8 slice))
]

Leaves-weaken : {A : Type 0} (n k : ℕ) (m : Read A) → n ≤ k → Leaves n m → Leaves k m
Leaves-weaken n k (got a rest) h l = omega arith
Leaves-weaken n k short h l = tt
Leaves-weaken n k past_end h l = tt

check-Leaves : {A : Type 0} (n : ℕ) (b : Bool) (m : Read A) → Leaves n m → Leaves n (check b m)
check-Leaves n true m h = h
check-Leaves n false m h = tt

string-Leaves : (slice : Bytes) (n : ℕ) → length slice ≤ n → Leaves n (deserialize_string slice)
unfolding deserialize_string
string-Leaves slice n h =
    Leaves-bind n n (deserialize_integer slice) (λ len rest. deserialize_sized rest len)
      (integer-Leaves slice n h)
      (λ len rest k. Leaves-weaken (length rest - len) n _ (omega arith) (sized-Leaves rest len))

drop_nonce-Leaves :
    (msg : Message) (len n : ℕ) (slice : Bytes)
    → length slice ≤ n
    → Leaves n (drop_nonce msg len slice)
unfolding drop_nonce
drop_nonce-Leaves msg len n slice h =
    after (deserialize_sized slice len)
      (Leaves-weaken (length slice - len) n _ (omega arith) (sized-Leaves slice len))
  where
    after :
        (r : Read Bytes)
        → Leaves n r
        → Leaves n (elim r as (λ x. Read Message) [
          | got nonce rest ↦ got msg rest
          | short ↦ got msg slice
          | past_end ↦ past_end
        ])
    after (got nonce rest) l = l
    after short l = h
    after past_end l = tt

skip_nonce-Leaves :
    (msg : Message) (n : ℕ) (slice : Bytes) → length slice ≤ n → Leaves n (skip_nonce msg slice)
unfolding skip_nonce
skip_nonce-Leaves msg n slice h =
    Leaves-bind n n (deserialize_integer slice) (drop_nonce msg) (integer-Leaves slice n h)
      (λ len rest k. drop_nonce-Leaves msg len n rest k)

-- Whether the first byte of the data is the version of a format.
abbrev pub has_version : Bytes → Bool
has_version [] = false
has_version (c ∷ slice) = is_version c

module _ (hex : Hex) (codec : Codec) (is_mainnet : Bool) where
  -- A round takes the public key's characters off the slice, at least.
  message-Leaves :
      (slice : Bytes)
      → Leaves (length slice - 64) (deserialize_message_old hex codec is_mainnet slice)
  unfolding deserialize_message_old
  message-Leaves slice =
      let n = length slice - 64 in
      let key : 64 ≤ pk_size hex codec is_mainnet = ground arith in
      Leaves-bind n n (deserialize_sized slice (pk_size hex codec is_mainnet)) _
        (Leaves-weaken (length slice - pk_size hex codec is_mainnet) n _ (omega arith)
          (sized-Leaves slice (pk_size hex codec is_mainnet)))
        (λ pk rest k. check-Leaves n _ _ (
          Leaves-bind n n (deserialize_string rest) _ (string-Leaves rest n k) (λ hash rest k.
            Leaves-bind n n (deserialize_string rest) _ (string-Leaves rest n k) (λ text rest k.
              check-Leaves n _ _ (
                Leaves-bind n n (deserialize_integer rest) _ (integer-Leaves rest n k)
                  (λ ttl rest k.
                    Leaves-bind n n (deserialize_integer rest) _ (integer-Leaves rest n k)
                      (λ timestamp rest k. skip_nonce-Leaves _ n rest k)))))))

  -- The messages that are read come from pieces of 64 bytes, the last of which may be shorter.
  abbrev Reads : List Message → ℕ → Option Deserialized → Type 0
  Reads result n r =
      ((ms : List Message) × (r ≡ some (deserialized ms))
        × (length ms ≤ length result + (n + 63) / 64))
      ⊎ (r ≡ some undefined)

  loop-Reads :
      (fuel : ℕ) (slice : Bytes) (result : List Message)
      → length slice ≤ fuel
      → Reads result (length slice) (deserialize_old_loop hex codec is_mainnet fuel slice result)
  unfolding deserialize_old_loop
  loop-Reads zero [] result h = inl (result, refl, omega arith)
  loop-Reads (suc fuel) [] result h = inl (result, refl, omega arith)
  loop-Reads zero (b ∷ bs) result h = absurd (omega (arith, h))
  loop-Reads (suc fuel) (b ∷ bs) result h =
      after (deserialize_message_old hex codec is_mainnet (b ∷ bs)) (message-Leaves (b ∷ bs))
        (λ rest more k. loop-Reads fuel rest more k)
    where
      more_Reads :
          (msg : Message) (n : ℕ) (r : Option Deserialized)
          → n ≤ length (b ∷ bs) - 64
          → Reads (result ++ msg ∷ []) n r
          → Reads result (length (b ∷ bs)) r
      more_Reads msg n r l (inr e) = inr e
      more_Reads msg n r l (inl (ms, e, few)) =
          inl (ms, e, omega (arith, few, l, length-append result (msg ∷ [])))

      after :
          (r : Read Message)
          → Leaves (length (b ∷ bs) - 64) r
          → ((rest : Bytes) (more : List Message)
              → length rest ≤ fuel
              → Reads more (length rest) (deserialize_old_loop hex codec is_mainnet fuel rest more))
          → Reads result (length (b ∷ bs)) (elim r as (λ x. Option Deserialized) [
            | got msg slice ↦
                deserialize_old_loop hex codec is_mainnet fuel slice (result ++ msg ∷ [])
            | short ↦ some (deserialized [])
            | past_end ↦ some undefined
          ])
      after (got msg rest) l next =
          more_Reads msg (length rest) _ l (next rest (result ++ msg ∷ []) (omega (arith, l, h)))
      after short l next = inl ([], refl, omega arith)
      after past_end l next = inr refl

  -- At most one message for each list, or an exception.
  abbrev ReadsBt : List Message → ℕ → Deserialized → Type 0
  ReadsBt result n r =
      ((ms : List Message) × (r ≡ deserialized ms) × (length ms ≤ length result + n)) ⊎ (r ≡ threw)

  bt-Reads :
      (lists : List (List Item)) (is_finished : Bool) (result : List Message)
      → ReadsBt result (length lists) (deserialize_bt hex codec is_mainnet lists is_finished result)
  unfolding deserialize_bt
  bt-Reads [] true result = inl (result, refl, omega arith)
  bt-Reads [] false result = inr refl
  bt-Reads ([] ∷ lists) is_finished result = inr refl
  bt-Reads ((integer n ∷ items) ∷ lists) is_finished result = inr refl
  bt-Reads ((other text ∷ items) ∷ lists) is_finished result = inr refl
  bt-Reads ((string pk ∷ items) ∷ lists) is_finished result =
      elim (Bool-cases (is_valid (load hex is_mainnet pk))) [
        | inr bad ↦ rw bad (inl ([], refl, omega arith))
        | inl valid ↦ elim (Option-cases (consume_rest (load hex is_mainnet pk) items)) [
          | inl e ↦ rw (valid, e) (inr refl)
          | inr (msg, e) ↦
              rw (valid, e)
                (elim (bt-Reads lists is_finished (result ++ msg ∷ [])) [
                  | inl (ms, q, few) ↦
                      inl (ms, q, omega (arith, few, length-append result (msg ∷ [])))
                  | inr q ↦ inr q
                ])
        ]
      ]

  old-Reads :
      (slice : Bytes)
      → let r = deserialize_messages_old hex codec is_mainnet slice in
        ((ms : List Message) × (r ≡ some (deserialized ms))
          × (length ms ≤ (length slice + 63) / 64))
        ⊎ (r ≡ some undefined)
  unfolding deserialize_messages_old
  old-Reads slice = elim (loop-Reads (length slice) slice [] (omega arith)) [
    | inl (ms, e, few) ↦ inl (ms, e, omega (arith, few))
    | inr e ↦ inr e
  ]

  -- Every input of deserialize_messages, in either format and on either network, ends in messages, an
  -- exception or a read past the end of the slice. The messages of the old format are at most one for
  -- each 64 bytes begun, those of the newer one at most one for each list of the bencoded data. Only
  -- data with a version throws, and only data of the old format is read past its end, which the source
  -- leaves undefined.
  pub deserialize_messages-ends :
      (slice : Bytes)
      → let r = deserialize_messages hex codec is_mainnet slice in
        ((has_version slice ≡ false)
          × (((ms : List Message) × (r ≡ some (deserialized ms))
                × (length ms ≤ (length slice + 63) / 64))
              ⊎ (r ≡ some undefined)))
        ⊎ ((has_version slice ≡ true)
            × (((ms : List Message) × (r ≡ some (deserialized ms))
                  × (length ms ≤ length (codec.consume (drop 1 slice)).lists))
                ⊎ (r ≡ some threw)))
  unfolding deserialize_messages
  deserialize_messages-ends [] = inl (refl, old-Reads [])
  deserialize_messages-ends (c ∷ slice) = elim (Bool-cases (is_version c)) [
    | inl v ↦ elim (Bool-cases (c == 1)) [
      | inl one ↦
          let plain = codec.consume slice in
          rw (v, one)
            (inr (
              refl,
              elim (bt-Reads plain.lists plain.is_finished []) [
                | inl (ms, e, few) ↦ inl (ms, ap some e, omega (arith, few))
                | inr e ↦ inr (ap some e)
              ],
            ))
      | inr more ↦ rw (v, more) (inr (refl, inl ([], refl, omega arith)))
    ]
    | inr old ↦ rw old (inl (refl, old-Reads (c ∷ slice)))
  ]
