-- ===== src/Handler/Reply/Once.antt =====
-- The client of a request to the swarm gets one reply, with what every peer answered.
use beldex_storage_server.Prelude.{
  ◌+◌, ◌-◌, ◌≤◌, ◌<◌, ◌≡◌, ◌≢◌, ◌⊎◌, inl, inr, Bool, List, [], ◌∷◌, ◌==◌, nat_eq, string_eq, Bytes,
  String, arith, refl, sym, ap, ◌∙◌, length, length-append, Bool-cases, eq_of_==, ne_of_==,
}
use beldex_storage_server.Handler.{Json, object, Env}
use beldex_storage_server.Handler.Reply.{
  SwarmResponse, reply_or_fail, finish, set_in_swarm, set_all, set_mine, peer_reply, peer_result,
  own_part,
}

-- A call on a response: a peer's answer, or the node's own part.
pub data Call : Type 0 where
  answer : String → Bool → List Bytes → Call
  own : Bool → String → List (String × Json) → List (String × Json) → Call

unfoldable pub call : Env → SwarmResponse → Call → SwarmResponse
call env res (answer peer success parts) = peer_reply env res peer success parts
call env res (own recurse key mine top) = own_part res recurse key mine top

unfoldable pub calls : Env → SwarmResponse → List Call → SwarmResponse
unfolding call
calls env res [] = res
calls env res (c ∷ cs) = calls env (call env res c) cs

finish_lem :
    (res : SwarmResponse)
    → ((res.pending ≡ 1)
        × ((finish res).pending ≡ 0)
        × (length (finish res).replies ≡ length res.replies + 1))
      ⊎ ((res.pending ≢ 1)
          × ((finish res).pending ≡ res.pending - 1)
          × ((finish res).replies ≡ res.replies))
unfolding finish reply_or_fail
finish_lem res = elim (Bool-cases (res.pending == 1)) [
  | inl t ↦ inl (rw t (eq_of_== res.pending 1 t, refl, length-append res.replies _))
  | inr f ↦ inr (rw f (ne_of_== res.pending 1 f, refl, refl))
]

call_lem :
    (env : Env) (res : SwarmResponse) (c : Call)
    → ((res.pending ≡ 1)
        × ((call env res c).pending ≡ 0)
        × (length (call env res c).replies ≡ length res.replies + 1))
      ⊎ ((res.pending ≢ 1)
          × ((call env res c).pending ≡ res.pending - 1)
          × ((call env res c).replies ≡ res.replies))
unfolding call own_part peer_reply
call_lem env res (answer peer success parts) = finish_lem (record res {
  result = set_in_swarm peer (object (peer_result env res.b64 success parts)) res.result;
})
call_lem env res (own recurse key mine top) =
    finish_lem (record res { result = set_all top (set_mine recurse key mine res.result) })

last_call :
    (env : Env) (res : SwarmResponse) (c : Call) (cs : List Call)
    → length cs ≡ 0
    → res.pending ≡ 1
    → length (call env res c).replies ≡ length res.replies + 1
    → (length (c ∷ cs) ≡ res.pending)
      × (length (calls env res (c ∷ cs)).replies ≡ length res.replies + 1)
unfolding calls
last_call env res c [] h one sent = (sym one, sent)
last_call env res c (d ∷ cs) h one sent = absurd (omega arith)

-- As long as calls are outstanding the client gets nothing, and with the last of them it gets one
-- reply, whatever the calls and their order.
pub calls-once :
    (env : Env) (res : SwarmResponse) (cs : List Call)
    → length cs ≤ res.pending
    → 0 < res.pending
    → ((length cs < res.pending)
        × ((calls env res cs).replies ≡ res.replies)
        × ((calls env res cs).pending ≡ res.pending - length cs))
      ⊎ ((length cs ≡ res.pending) × (length (calls env res cs).replies ≡ length res.replies + 1))
unfolding calls
calls-once env res [] h p = inl (p, refl, omega arith)
calls-once env res (c ∷ cs) h p = elim (call_lem env res c) [
  | inl (one, zero_left, sent) ↦ inr (last_call env res c cs (omega arith) one sent)
  | inr (more, left, same) ↦ elim (calls-once env (call env res c) cs (omega arith) (omega arith)) [
    | inl (few, none_sent, pending) ↦ inl (omega arith, none_sent ∙ same, pending ∙ omega arith)
    | inr (all, sent) ↦ inr (omega arith, sent ∙ ap (λ r. length r + 1) same)
  ]
]
