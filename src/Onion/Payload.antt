-- ===== src/Onion/Payload.antt =====
-- The layers of an onion request of httpserver/onion_processing.cpp that are read, and the targets that
-- are allowed.
use beldex_storage_server.Prelude.{
  ℕ, ◌-◌, ◌<◌, ◌≡◌, ◌≢◌, refl, sym, ap, ◌∙◌, ◌^◌, Bool, true, false, Option, none, some, [], ◌∷◌,
  ◌++◌, Bytes, bytes_eq, ◌==◌, ltb, length, take, drop, length-append, take-append-drop,
  take-append, drop-append, le_bytes, length-le_bytes, from_le-le_bytes, byte_range, arith,
  Bool-cases, inl, inr, All, eq_of_==, nat_eq,
}
use beldex_storage_server.Utils.Strings.{starts_with, ends_with, find_first, is_one_of, succ_of}
use beldex_storage_server.Utils.Strings.Join.{prefix-parts}
use beldex_storage_server.Onion.{
  is_absent, split_payload, is_onion_url_target_allowed, target_prefix, target_suffix,
  parse_combined_payload, Parsers, InnerJson,
}

-- What a client puts together: the length of the ciphertext in four bytes, the ciphertext, the json.
abbrev pub combined : Bytes → Bytes → Bytes
combined ciphertext json = le_bytes 4 (length ciphertext) ++ (ciphertext ++ json)

pub split-combined :
    (ciphertext json : Bytes)
    → length ciphertext < 2 ^ 32
    → split_payload (combined ciphertext json) ≡ some (ciphertext, json)
unfolding split_payload
split-combined ciphertext json h =
    let size = length-le_bytes 4 (length ciphertext) in
    let enough : ltb (length (combined ciphertext json)) 4 ≡ false =
      ground (arith, length-append (le_bytes 4 (length ciphertext)) (ciphertext ++ json)) in
    let fits : ltb (length (ciphertext ++ json)) (length ciphertext) ≡ false =
      ground (arith, length-append ciphertext json) in
    rw (
      enough,
      take-append (le_bytes 4 (length ciphertext)) (ciphertext ++ json) 4 size,
      drop-append (le_bytes 4 (length ciphertext)) (ciphertext ++ json) 4 size,
      from_le-le_bytes 4 (length ciphertext) (unfold byte_range in h),
      fits,
      take-append ciphertext json (length ciphertext) refl,
      drop-append ciphertext json (length ciphertext) refl,
    )

-- A combined payload whose ciphertext is shorter than 2^32 bytes is read as its two parts, the json
-- being whatever its text parses to.
pub parse_combined_payload_lem :
    (p : Parsers) (ciphertext text : Bytes) (json : InnerJson)
    → length ciphertext < 2 ^ 32
    → p.parse_json text ≡ some json
    → parse_combined_payload p (combined ciphertext text) ≡ some (ciphertext, json)
unfolding parse_combined_payload
parse_combined_payload_lem p ciphertext text json h e =
    rw (split-combined ciphertext text h, e) refl

-- A test that finds nothing fails at each character.
find_first-none :
    (test : ℕ → Bool) (str : Bytes)
    → is_absent (find_first test str) ≡ true
    → All (λ c. test c ≡ false) str
unfolding find_first
find_first-none test [] h = tt
find_first-none test (c ∷ str) h = elim (Bool-cases (test c)) [
  | inl t ↦ let found : false ≡ true = rw t at h in cc
  | inr f ↦ (f, find_first-none test str (still (find_first test str) (rw f at h)))
]
  where
    still : (o : Option ℕ) → is_absent (succ_of o) ≡ true → is_absent o ≡ true
    still none q = refl
    still (some n) q = cc

-- A target that is allowed begins with "/beldex/", ends with "/lsrpc" and has no question mark.
pub is_onion_url_target_allowed_lem :
    (target : Bytes)
    → is_onion_url_target_allowed target ≡ true
    → ((rest : Bytes) × (target ≡ target_prefix ++ rest))
      × ((before : Bytes) × (target ≡ before ++ target_suffix))
      × All (λ c. c ≢ 63) target
unfolding is_onion_url_target_allowed ends_with
is_onion_url_target_allowed_lem target h =
    let begins : starts_with target target_prefix ≡ true = ground arith in
    let ends : (drop (length target - 6) target == target_suffix) ≡ true = ground arith in
    let absent : is_absent (find_first (is_one_of (63 ∷ [])) target) ≡ true = ground arith in
    (
      (drop 8 target, prefix-parts target target_prefix begins),
      (
        take (length target - 6) target,
        sym (take-append-drop (length target - 6) target)
            ∙ ap (λ (t : Bytes). take (length target - 6) target ++ t)
                (eq_of_== _ target_suffix ends),
      ),
      no_mark target (find_first-none _ target absent),
    )
  where
    no_mark : (s : Bytes) → All (λ c. is_one_of (63 ∷ []) c ≡ false) s → All (λ c. c ≢ 63) s
    no_mark [] a = tt
    no_mark (c ∷ s) (f, a) = (λ q. ground arith, no_mark s a)
