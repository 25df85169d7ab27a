-- ===== src/Handler/Reply.antt =====
-- The reply to a request that goes to the whole swarm: swarm_response, reply_or_fail and the callback
-- of distribute_command in httpserver/request_handler.cpp. Each call runs under the mutex of the
-- response, so an interleaving of the peers' answers and the node's own part is a sequence of calls.
pub mod Once
pub mod AlwaysOk
use beldex_storage_server.Prelude.{
  ℕ, ◌-◌, Bool, true, false, not, ◌||◌, Option, none, some, List, [], ◌∷◌, ◌==◌, ◌++◌, nat_eq,
  string_eq, Bytes, String, if◌then◌else◌,
}
use beldex_storage_server.Handler.{
  Json, flag, number, text, texts, object, Fields, end, field, find_field, set_field, has_field, ok,
  internal_server_error, json, Response, Env,
}

-- `replies` are the responses that the callback `cb` got.
pub record SwarmResponse : Type 0 where
  pub pending : ℕ
  pub b64 : Bool
  pub result : Fields
  pub replies : List Response

-- The loop of reply_or_fail over the items of the result.
pub some_good : Fields → Bool
unfolding has_field
some_good end = false
some_good (field mnode reply rest) = not (has_field "failed" reply) || some_good rest

pub reply_or_fail : SwarmResponse → SwarmResponse
unfolding some_good
reply_or_fail res =
    let code : ℕ = if some_good res.result then ok else internal_server_error in
    record res {
      result = end;
      replies = res.replies ++ record { status = code; body = json res.result } ∷ [];
    }

-- if (--res->pending == 0) reply_or_fail(res);
pub finish : SwarmResponse → SwarmResponse
unfolding reply_or_fail
finish res =
    if res.pending == 1
    then reply_or_fail (record res { pending = 0 })
    else record res { pending = res.pending - 1 }

-- The object that `j[...]` finds or makes.
abbrev pub object_of : Option Json → Fields
object_of none = end
object_of (some (flag b)) = end
object_of (some (number n)) = end
object_of (some (text b)) = end
object_of (some (texts bs)) = end
object_of (some (object fs)) = fs

-- res->result["swarm"][mnode] = value
pub set_in_swarm : String → Json → Fields → Fields
unfolding set_field find_field
set_in_swarm mnode value result =
    set_field "swarm" (object (set_field mnode value (object_of (find_field "swarm" result))))
      result

-- Fields set one after the other.
pub set_all : List (String × Json) → Fields → Fields
unfolding set_field
set_all [] fs = fs
set_all ((name, value) ∷ rest) fs = set_all rest (set_field name value fs)

-- The fields that a handler sets of `mine`: in the swarm's object if the request is recursive, else at
-- the top.
pub set_mine : Bool → String → List (String × Json) → Fields → Fields
unfolding set_in_swarm set_all
set_mine recurse own mine result =
    if recurse then set_in_swarm own (object (set_all mine end)) result else set_all mine result

module _ (env : Env) where
  -- The signature of a peer's answer is base64 coded.
  unfoldable pub encode_signature : Fields → Fields
  unfolding find_field set_field
  encode_signature peer_result = elim (find_field "signature" peer_result) [
    | none ↦ peer_result
    | some (flag b) ↦ peer_result
    | some (number n) ↦ peer_result
    | some (text sig) ↦ set_field "signature" (text (env.codec.to_base64 sig)) peer_result
    | some (texts bs) ↦ peer_result
    | some (object fs) ↦ peer_result
  ]

  -- What a peer's answer, or its absence, comes to.
  unfoldable pub peer_result : Bool → Bool → List Bytes → Fields
  unfolding encode_signature
  peer_result b64 false parts = field "failed" (flag true) (field "timeout" (flag true) end)
  peer_result b64 true [] = field "failed" (flag true) (field "bad_peer_response" (flag true) end)
  peer_result b64 true (part ∷ []) = elim (env.bt_to_json part) [
    | none ↦ field "failed" (flag true) (field "bad_peer_response" (flag true) end)
    | some reply ↦ if b64 then encode_signature reply else reply
  ]
  peer_result b64 true (code ∷ reason ∷ []) =
      field "failed" (flag true) (field "code" (text code) (field "reason" (text reason) end))
  peer_result b64 true (a ∷ b ∷ c ∷ rest) =
      field "failed" (flag true) (field "bad_peer_response" (flag true) end)

  -- The callback of distribute_command.
  unfoldable pub peer_reply : SwarmResponse → String → Bool → List Bytes → SwarmResponse
  unfolding peer_result set_in_swarm finish
  peer_reply res peer success parts = finish (record res {
    result = set_in_swarm peer (object (peer_result res.b64 success parts)) res.result;
  })

  -- The answers of peers: the peer's key, whether one came in time, and its parts.
  unfoldable pub peer_replies : SwarmResponse → List (String × Bool × List Bytes) → SwarmResponse
  unfolding peer_reply
  peer_replies res [] = res
  peer_replies res ((peer, success, parts) ∷ rest) =
      peer_replies (peer_reply res peer success parts) rest

-- The end of each handler: the node's own part, with the fields `top` that `store` sets beside it.
pub own_part :
    SwarmResponse → Bool → String → List (String × Json) → List (String × Json) → SwarmResponse
unfolding set_mine set_all finish
own_part res recurse own mine top =
    finish (record res { result = set_all top (set_mine recurse own mine res.result) })
