-- ===== src/Swarm/Closest/Distance.antt =====
-- What the loop of `get_swarm_by_pk` leaves, and distances on the ring of swarm ids.
use Prim.Native.Nat.{min}
use beldex_storage_server.Prelude.{
  ℕ, ◌+◌, ◌-◌, ◌≤◌, ◌<◌, ◌≡◌, subst, Option, none, some, List, [], ◌∷◌, ltb, nat_eq, if◌then◌else◌,
  arith, In, ◌⊎◌, inl, inr, Bool-cases, ltb→lt, leb→le, ◌%◌,
}
use beldex_storage_server.Swarm.{SwarmInfo, invalid_swarm_id, u64_mod}
use beldex_storage_server.Swarm.Closest.{Scan, scan_step, scan, max_id, linear_dist}

-- The distance of two points on a ring of length `max_id`.
abbrev pub ring_dist : ℕ → ℕ → ℕ
ring_dist a b = min (linear_dist a b) (max_id - linear_dist a b)

abbrev pub IsActive : SwarmInfo → Type 0
IsActive si = si.swarm_id < invalid_swarm_id

abbrev pub Reaches : ℕ → Option SwarmInfo → Type 0
Reaches id none = ⊥
Reaches id (some r) = id ≤ r.swarm_id

-- The loop has taken the swarm id into account.
pub record Covered (res id : ℕ) (s : Scan) : Type 0 where
  pub closest : s.cur_min ≤ linear_dist res id
  pub left : s.leftmost.swarm_id ≤ id
  pub right : Reaches id s.rightmost

step-keeps :
    (res id : ℕ) (s : Scan) (si : SwarmInfo)
    → Covered res id s
    → Covered res id (scan_step res s si)
unfolding scan_step
step-keeps res id s si c = ground arith

step-covers :
    (res : ℕ) (s : Scan) (si : SwarmInfo)
    → IsActive si
    → Covered res si.swarm_id (scan_step res s si)
unfolding scan_step
step-covers res s si a = ground arith

scan-keeps :
    (res id : ℕ) (s : Scan) (sis : List SwarmInfo)
    → Covered res id s
    → Covered res id (scan res s sis)
unfolding scan
scan-keeps res id s [] c = c
scan-keeps res id s (si ∷ sis) c =
    scan-keeps res id (scan_step res s si) sis (step-keeps res id s si c)

pub scan-covers :
    (res : ℕ) (s : Scan) (x : SwarmInfo) (sis : List SwarmInfo)
    → In x sis
    → IsActive x
    → Covered res x.swarm_id (scan res s sis)
unfolding scan
scan-covers res s x [] h a = absurd h
scan-covers res s x (si ∷ sis) (inl e) a = rw e (
    scan-keeps res si.swarm_id (scan_step res s si) sis (step-covers res s si (subst IsActive e a)))
scan-covers res s x (si ∷ sis) (inr h) a = scan-covers res (scan_step res s si) x sis h a

-- The arithmetic of the ring, on the linear distances `a` and `b` of two swarms.
ring_le :
    (a b : ℕ)
    → (a ≤ b) ⊎ (max_id - a ≤ b)
    → (a ≤ max_id - b) ⊎ (max_id - a ≤ max_id - b)
    → min a (max_id - a) ≤ min b (max_id - b)
ring_le a b h k = omega arith

linear_dist-above : (res id : ℕ) → id ≤ res → linear_dist res id ≡ res - id
linear_dist-above res id h = ground arith

linear_dist-below : (res id : ℕ) → res ≤ id → linear_dist res id ≡ id - res
linear_dist-below res id h = ground arith

module _ (res id left right best cur_min : ℕ) (small : res ≤ max_id) (a : id < invalid_swarm_id)
    (left_id : left ≤ id) (id_right : id ≤ right) (right_active : right < invalid_swarm_id)
    (cur : cur_min ≡ linear_dist res best) (close : cur_min ≤ linear_dist res id) where
  -- The position lies to the right of every swarm.
  pub beyond_right :
      right < res
      → ring_dist res (
          if ltb (((max_id + u64_mod - res) % u64_mod + left) % u64_mod) cur_min
          then left
          else best)
        ≤ ring_dist res id
  beyond_right h = elim (Bool-cases (ltb wrapped cur_min)) [
    | inl t ↦
        let lt = ltb→lt wrapped cur_min t in
        rw (t, linear_dist-above res left (omega arith), linear_dist-above res id (omega arith))
          (ring_le (res - left) (res - id)
            (inr (omega (arith, close, lt, linear_dist-above res id))) (inr (omega arith)))
    | inr f ↦
        let ge = leb→le cur_min wrapped (ground arith) in
        rw (f, ← cur, linear_dist-above res id (omega arith))
          (ring_le cur_min (res - id) (inl (omega (arith, close, linear_dist-above res id)))
            (inl (omega arith)))
  ]
    where
      wrapped : ℕ
      wrapped = ((max_id + u64_mod - res) % u64_mod + left) % u64_mod

  -- The position lies to the left of every swarm.
  pub before_left :
      res < left
      → ring_dist res (
          if ltb ((res + (max_id + u64_mod - right) % u64_mod) % u64_mod) cur_min
          then right
          else best)
        ≤ ring_dist res id
  before_left h = elim (Bool-cases (ltb wrapped cur_min)) [
    | inl t ↦
        let lt = ltb→lt wrapped cur_min t in
        rw (t, linear_dist-below res right (omega arith), linear_dist-below res id (omega arith))
          (ring_le (right - res) (id - res)
            (inr (omega (arith, close, lt, linear_dist-below res id))) (inr (omega arith)))
    | inr f ↦
        let ge = leb→le cur_min wrapped (ground arith) in
        rw (f, ← cur, linear_dist-below res id (omega arith))
          (ring_le cur_min (id - res) (inl (omega (arith, close, linear_dist-below res id)))
            (inl (omega arith)))
  ]
    where
      wrapped : ℕ
      wrapped = (res + (max_id + u64_mod - right) % u64_mod) % u64_mod

  -- The position lies between the ends.
  pub between :
      left ≤ res
      → res ≤ right
      → cur_min ≤ res - left
      → cur_min ≤ right - res
      → ring_dist res best ≤ ring_dist res id
  between h k to_left to_right =
      rw (← cur) (ring_le cur_min (linear_dist res id) (inl close) (inl (ground arith)))
