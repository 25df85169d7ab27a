-- ===== src/Swarm/Events.antt =====
-- What `derive_swarm_events` reports, and that an update settles it.
use beldex_storage_server.Prelude.{
  ◌↔◌, ◌≡◌, ◌≢◌, Bool, true, false, not, ◌&&◌, some, List, arith, In, nat_eq, ◌==◌, select,
  In-select, In-select_of,
}
use beldex_storage_server.Swarm.{
  MnRecord, SwarmInfo, Swarm, invalid_swarm_id, same_mnode, has_mnode, our_swarm,
  derive_swarm_events, set_swarm_id, update_state,
}

-- A node that is still in its swarm reports as new exactly the members that are neither itself
-- nor among the peers it knew.
new_mnodes-exact :
    (s : Swarm) (swarms : List SwarmInfo) (our : SwarmInfo) (mn : MnRecord)
    → our_swarm s.our_address swarms ≡ some our
    → s.cur_swarm_id ≡ our.swarm_id
    → s.cur_swarm_id ≢ invalid_swarm_id
    → In mn (derive_swarm_events s swarms).new_mnodes ↔ (
        In mn our.mnodes
        × (has_mnode mn s.swarm_peers ≡ false)
        × (same_mnode mn s.our_address ≡ false))
unfolding derive_swarm_events
new_mnodes-exact s swarms our mn h e ne =
    let stays : (s.cur_swarm_id == our.swarm_id) ≡ true = ground arith in
    let active : (s.cur_swarm_id == invalid_swarm_id) ≡ false = ground arith in
    rw (h, derive_swarm_events) (rw (active, stays) (there, back))
  where
    unknown : MnRecord → Bool
    unknown m = not (has_mnode m s.swarm_peers) && not (same_mnode m s.our_address)

    there :
        In mn (select unknown our.mnodes)
        → In mn our.mnodes
          × (has_mnode mn s.swarm_peers ≡ false)
          × (same_mnode mn s.our_address ≡ false)
    there i = let (k, q) = In-select mn unknown our.mnodes i in (k, ground arith, ground arith)

    back :
        In mn our.mnodes
          × (has_mnode mn s.swarm_peers ≡ false)
          × (same_mnode mn s.our_address ≡ false)
        → In mn (select unknown our.mnodes)
    back (k, p, q) = In-select_of mn unknown our.mnodes k (ground arith)

-- The whole update of a swarm, as on_swarm_update makes it for an active node.
abbrev pub settle : Swarm → List SwarmInfo → List MnRecord → Swarm
settle s swarms decommissioned =
    let events = derive_swarm_events s swarms in
    update_state (set_swarm_id s events.our_swarm_id) swarms decommissioned events true
