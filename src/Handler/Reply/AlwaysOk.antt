-- ===== src/Handler/Reply/AlwaysOk.antt =====
-- The status of the reply that swarm_response makes for a recursive request.
use beldex_storage_server.Prelude.{
  ℕ, Bool, ◌++◌, ◌≡◌, ◌≢◌, ◌⊎◌, inl, inr, true, false, none, some, List, [], ◌∷◌, ◌==◌, nat_eq,
  string_eq, String, arith, refl, sym, ap, ◌∙◌, All, Bool-cases, eq_of_==, ==_refl, ==_of_ne,
}
use beldex_storage_server.Handler.{
  Json, object, Fields, end, field, find_field, set_field, has_field, ok, json, Response, Env,
}
use beldex_storage_server.Handler.Reply.{
  SwarmResponse, some_good, reply_or_fail, finish, object_of, set_in_swarm, set_all, set_mine,
  peer_reply, peer_result, own_part,
}
use beldex_storage_server.Handler.Reply.Once.{Call, answer, own, call, calls}

find-set_other :
    (name other : String) (value : Json) (fs : Fields)
    → (name == other) ≡ false
    → find_field other (set_field name value fs) ≡ find_field other fs
unfolding find_field set_field
find-set_other name other value end h = rw h refl
find-set_other name other value (field key old rest) h = elim (Bool-cases (key == name)) [
  | inl t ↦ let e = eq_of_== key name t in rw t (ground (arith, h, e))
  | inr f ↦ rw (f, find-set_other name other value rest h) refl
]

find-set_same :
    (name : String) (value : Json) (fs : Fields)
    → find_field name (set_field name value fs) ≡ some value
unfolding find_field set_field
find-set_same name value end = rw (==_refl name) refl
find-set_same name value (field key old rest) = elim (Bool-cases (key == name)) [
  | inl t ↦ rw (t, t) refl
  | inr f ↦ rw (f, f, find-set_same name value rest) refl
]

-- An item without "failed" makes the whole result good.
good-item :
    (name : String) (value : Json) (fs : Fields)
    → find_field name fs ≡ some value
    → has_field "failed" value ≡ false
    → some_good fs ≡ true
unfolding find_field some_good
good-item name value end h g = ground arith
good-item name value (field key v rest) h g = elim (Bool-cases (key == name)) [
  | inl t ↦
      let first : find_field name (field key v rest) ≡ some v = rw (t, find_field) refl in
      let same : v ≡ value = ground (arith, sym first ∙ h) in rw (same, g) refl
  | inr f ↦
      let later : find_field name (field key v rest) ≡ find_field name rest =
        rw (f, find_field) refl in
      let good = good-item name value rest (sym later ∙ h) g in ground (arith, good)
]

-- The result has no object "swarm" yet, or one with no key "failed".
abbrev pub Clean : Fields → Type 0
Clean fs =
    (find_field "swarm" fs ≡ none)
    ⊎ ((sw : Fields) × (find_field "swarm" fs ≡ some (object sw)) × (find_field "failed" sw ≡ none))

-- An answer of a peer whose key is not the text "failed", or the node's own part in a recursive
-- request, likewise, with no field "swarm" at the top.
abbrev pub IsRecursive : Call → Type 0
IsRecursive (answer peer success parts) = peer ≢ "failed"
IsRecursive (own recurse key mine top) =
    (recurse ≡ true) × (key ≢ "failed") × All (λ (f : String × Json). f.0 ≢ "swarm") top

set_in_swarm-failed :
    (mnode : String) (value : Json) (fs : Fields)
    → mnode ≢ "failed"
    → Clean fs
    → (sw : Fields) × (find_field "swarm" (set_in_swarm mnode value fs) ≡ some (object sw))
      × (find_field "failed" sw ≡ none)
unfolding set_in_swarm
set_in_swarm-failed mnode value fs ne (inl e) = (
  set_field mnode value (object_of (find_field "swarm" fs)),
  find-set_same "swarm" _ fs,
  find-set_other mnode "failed" value (object_of (find_field "swarm" fs))
        (==_of_ne mnode "failed" ne)
      ∙ ap (λ o. find_field "failed" (object_of o)) e,
)
set_in_swarm-failed mnode value fs ne (inr (sw, e, h)) = (
  set_field mnode value (object_of (find_field "swarm" fs)),
  find-set_same "swarm" _ fs,
  find-set_other mnode "failed" value (object_of (find_field "swarm" fs))
        (==_of_ne mnode "failed" ne)
      ∙ ap (λ o. find_field "failed" (object_of o)) e
      ∙ h,
)

find-set_all :
    (top : List (String × Json)) (fs : Fields)
    → All (λ (f : String × Json). f.0 ≢ "swarm") top
    → find_field "swarm" (set_all top fs) ≡ find_field "swarm" fs
unfolding set_all
find-set_all [] fs h = refl
find-set_all ((name, value) ∷ rest) fs h =
    find-set_all rest (set_field name value fs) h.1
    ∙ find-set_other name "swarm" value fs (==_of_ne name "swarm" h.0)

All-snoc :
    (rs : List Response) (r : Response)
    → All (λ (x : Response). x.status ≡ ok) rs
    → r.status ≡ ok
    → All (λ (x : Response). x.status ≡ ok) (rs ++ r ∷ [])
All-snoc [] r h e = (e, tt)
All-snoc (x ∷ rs) r h e = (h.0, All-snoc rs r h.1 e)

finish-Clean :
    (res : SwarmResponse) (sw : Fields)
    → find_field "swarm" res.result ≡ some (object sw)
    → find_field "failed" sw ≡ none
    → All (λ (r : Response). r.status ≡ ok) res.replies
    → Clean (finish res).result × All (λ (r : Response). r.status ≡ ok) (finish res).replies
unfolding finish reply_or_fail
finish-Clean res sw e h good = elim (Bool-cases (res.pending == 1)) [
  | inl t ↦
      let item = good-item "swarm" (object sw) res.result e (rw (h, has_field) refl) in
      rw (t, item)
        (inl refl, All-snoc res.replies (record { status = ok; body = json res.result }) good refl)
  | inr f ↦ rw f (inr (sw, e, h), good)
]

call-Clean :
    (env : Env) (res : SwarmResponse) (c : Call)
    → IsRecursive c
    → Clean res.result
    → All (λ (r : Response). r.status ≡ ok) res.replies
    → Clean (call env res c).result × All (λ (r : Response). r.status ≡ ok) (call env res c).replies
unfolding call peer_reply own_part set_mine
call-Clean env res (answer peer success parts) ne clean good =
    let value : Json = object (peer_result env res.b64 success parts) in
    let (sw, e, h) = set_in_swarm-failed peer value res.result ne clean in
    finish-Clean (record res { result = set_in_swarm peer value res.result }) sw e h good
call-Clean env res (own recurse key mine top) (deep, ne, names) clean good =
    let value : Json = object (set_all mine end) in
    let (sw, e, h) = set_in_swarm-failed key value res.result ne clean in
    rw deep (
      finish-Clean (record res { result = set_all top (set_in_swarm key value res.result) }) sw
        (find-set_all top (set_in_swarm key value res.result) names ∙ e) h good)

calls-Clean :
    (env : Env) (res : SwarmResponse) (cs : List Call)
    → All IsRecursive cs
    → Clean res.result
    → All (λ (r : Response). r.status ≡ ok) res.replies
    → All (λ (r : Response). r.status ≡ ok) (calls env res cs).replies
unfolding calls
calls-Clean env res [] rs clean good = good
calls-Clean env res (c ∷ cs) rs clean good =
    let (clean', good') = call-Clean env res c rs.0 clean good in
    calls-Clean env (call env res c) cs rs.1 clean' good'

-- Every reply that is made from the collected answers to a recursive request has the status 200,
-- whatever the node and its peers answered, even if all of them failed: reply_or_fail looks for "failed"
-- beside the answers and not in them. No node's key is the text "failed", and the fields that the node's
-- own part puts at the top are not named "swarm". A request that is refused gets its reply elsewhere.
pub replies-ok :
    (env : Env) (cs : List Call) (n : ℕ) (b64 : Bool)
    → All IsRecursive cs
    → All
        (λ (r : Response). r.status ≡ ok)
        (calls env (record { pending = n; b64 = b64; result = end; replies = [] }) cs).replies
unfolding find_field
replies-ok env cs n b64 rs =
    calls-Clean env (record { pending = n; b64 = b64; result = end; replies = [] }) cs rs (inl refl)
      tt
