-- ===== src/MasterNode/Peers/Joined.antt =====
-- The two pings of a reachability test make one report, whichever reply comes first.
use beldex_storage_server.Prelude.{
  ℕ, ◌≡◌, refl, sym, ◌∙◌, Bool, true, false, not, ◌&&◌, ◌||◌, [], ◌∷◌, ◌++◌, ◌==◌, nat_eq, ltb,
  any_of-false, In-select, arith, Bool-cases, inl, inr, ==_refl,
}
use beldex_storage_server.Keys.{LegacyPubkey}
use beldex_storage_server.Swarm.{MnRecord}
use beldex_storage_server.Reachability.{
  Reachability, is_failing, add_failing_node, remove_node_from_failing,
}
use beldex_storage_server.MasterNode.{Node}
use beldex_storage_server.MasterNode.Peers.{waiting, ping_reply, report_reachability}

add_failing_node-is_failing :
    (r : Reachability) (pk : LegacyPubkey) (previous_failures now interval : ℕ)
    → is_failing pk (add_failing_node r pk previous_failures now interval).failing ≡ true
unfolding add_failing_node
add_failing_node-is_failing r pk previous_failures now interval =
    elim (Bool-cases (is_failing pk r.failing)) [ inl t ↦ rw t t | inr f ↦ rw (f, ==_refl pk) refl ]

removed :
    (r : Reachability) (pk : LegacyPubkey)
    → is_failing pk (remove_node_from_failing r pk).failing ≡ false
unfolding remove_node_from_failing
removed r pk =
    any_of-false _ _
      (λ k i. let q = (In-select k (λ x. not (x == pk)) r.failing i).1 in ground arith)

nothing : (b : Bool) → (b && false) ≡ false
nothing true = refl
nothing false = refl

unchanged : (b : Bool) → (b && true) ≡ b
unchanged true = refl
unchanged false = refl

module _ (mn : MnRecord) (previous_failures now interval : ℕ) (node : Node) where
  -- The node after the replies to the two pings of one test, in the order of their coming.
  abbrev pub after_replies : Bool → Bool → Node
  after_replies first second =
      (ping_reply mn previous_failures now interval second
        (ping_reply mn previous_failures now interval first (waiting, node))).1

  -- A test makes one report to beldexd, after the later reply: the node passes if it answered both
  -- pings, in either order. It is then failing, exactly if it did not pass, or was failing
  -- before and this was no test of a failing node.
  pub after_replies_lem :
      (first second : Bool)
      → ((after_replies first second).reports
          ≡ node.reports ++ (mn.pubkey_legacy, first && second) ∷ [])
        × (after_replies first second ≡ after_replies second first)
        × (is_failing mn.pubkey_legacy (after_replies first second).reach.failing ≡ (
            not (first && second)
            || (is_failing mn.pubkey_legacy node.reach.failing && not (ltb 0 previous_failures))))
  unfolding ping_reply report_reachability
  after_replies_lem true true = elim (Bool-cases (ltb 0 previous_failures)) [
    | inl old ↦ rw old (
      refl,
      refl,
      removed node.reach mn.pubkey_legacy
          ∙ sym (nothing (is_failing mn.pubkey_legacy node.reach.failing)),
    )
    | inr new ↦
        rw new (refl, refl, sym (unchanged (is_failing mn.pubkey_legacy node.reach.failing)))
  ]
  after_replies_lem true false = (
    refl,
    refl,
    add_failing_node-is_failing node.reach mn.pubkey_legacy previous_failures now interval,
  )
  after_replies_lem false true = (
    refl,
    refl,
    add_failing_node-is_failing node.reach mn.pubkey_legacy previous_failures now interval,
  )
  after_replies_lem false false = (
    refl,
    refl,
    add_failing_node-is_failing node.reach mn.pubkey_legacy previous_failures now interval,
  )
