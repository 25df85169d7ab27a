-- ===== src/Swarm/Closest.antt =====
-- `get_swarm_by_pk` and `is_pubkey_for_us` of httpserver/swarm.cpp. The local variables of the loop
-- are a record; a pointer to a swarm is the swarm.
pub mod Distance
pub mod Ring
use beldex_storage_server.Prelude.{
  ℕ, ◌+◌, ◌-◌, ◌%◌, Bool, Option, none, some, List, [], ◌∷◌, ltb, ◌==◌, nat_eq, if◌then◌else◌,
  Bytes,
}
use beldex_storage_server.Swarm.{SwarmInfo, Swarm, u64_mod, invalid_swarm_id, null_swarm}
use beldex_storage_server.Swarm.Space.{pubkey_to_swarm_space}

abbrev pub max_id : ℕ
max_id = invalid_swarm_id - 1

pub record Scan : Type 0 where
  pub cur_best : SwarmInfo
  pub cur_min : ℕ
  pub leftmost : SwarmInfo
  pub rightmost : Option SwarmInfo

abbrev pub start : Scan
start = record {
  cur_best = null_swarm;
  cur_min = invalid_swarm_id;
  leftmost = null_swarm;
  rightmost = none;
}

-- `!rightmost || si.swarm_id > rightmost->swarm_id`
abbrev pub right_of : SwarmInfo → Option SwarmInfo → Option SwarmInfo
right_of si none = some si
right_of si (some r) = if ltb r.swarm_id si.swarm_id then some si else some r

abbrev pub linear_dist : ℕ → ℕ → ℕ
linear_dist res id = if ltb res id then id - res else res - id

-- One round of the loop.
pub scan_step : ℕ → Scan → SwarmInfo → Scan
scan_step res s si =
    if si.swarm_id == invalid_swarm_id
    then s
    else (let dist = linear_dist res si.swarm_id in
        let closer = ltb dist s.cur_min in
        record {
          cur_best = if closer then si else s.cur_best;
          cur_min = if closer then dist else s.cur_min;
          leftmost = if ltb si.swarm_id s.leftmost.swarm_id then si else s.leftmost;
          rightmost = right_of si s.rightmost;
        })

pub scan : ℕ → Scan → List SwarmInfo → Scan
unfolding scan_step
scan res s [] = s
scan res s (si ∷ sis) = scan res (scan_step res s si) sis

-- The special case at the ends of the swarm space, in uint64_t arithmetic.
pub ends : ℕ → Scan → SwarmInfo → SwarmInfo
ends res s rightmost =
    if ltb rightmost.swarm_id res
    then (if ltb (((max_id + u64_mod - res) % u64_mod + s.leftmost.swarm_id) % u64_mod) s.cur_min
        then s.leftmost
        else s.cur_best)
    else if ltb res s.leftmost.swarm_id
    then (if ltb ((res + (max_id + u64_mod - rightmost.swarm_id) % u64_mod) % u64_mod) s.cur_min
        then rightmost
        else s.cur_best)
    else s.cur_best

pub wrap_around : ℕ → Scan → SwarmInfo
unfolding ends
wrap_around res s = elim s.rightmost [ none ↦ null_swarm | some right ↦ ends res s right ]

-- The part of get_swarm_by_pk below its first line.
pub closest_swarm : List SwarmInfo → ℕ → SwarmInfo
unfolding scan wrap_around
closest_swarm all_swarms res = wrap_around res (scan res start all_swarms)

unfoldable pub get_swarm_by_pk : List SwarmInfo → Bytes → SwarmInfo
unfolding closest_swarm
get_swarm_by_pk all_swarms raw = closest_swarm all_swarms (pubkey_to_swarm_space raw)

unfoldable pub is_pubkey_for_us : Swarm → Bytes → Bool
is_pubkey_for_us s raw = s.cur_swarm_id == (get_swarm_by_pk s.all_valid_swarms raw).swarm_id
