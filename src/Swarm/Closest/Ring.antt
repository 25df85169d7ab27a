-- ===== src/Swarm/Closest/Ring.antt =====
-- `get_swarm_by_pk` finds a swarm at the least distance on the ring of swarm ids.
use beldex_storage_server.Prelude.{
  ℕ, ◌≤◌, ◌<◌, ◌≡◌, ◌≢◌, refl, subst, some, List, [], ◌∷◌, ltb, ◌==◌, nat_eq, if◌then◌else◌, arith,
  In, Bytes, ◌⊎◌, inl, inr, Bool-cases,
}
use beldex_storage_server.Swarm.{SwarmInfo, invalid_swarm_id, null_swarm}
use beldex_storage_server.Swarm.Space.{pubkey_to_swarm_space, swarm_space-lt}
use beldex_storage_server.Swarm.Closest.{
  Scan, start, scan_step, scan, wrap_around, closest_swarm, get_swarm_by_pk, ends, max_id,
  linear_dist,
}
use beldex_storage_server.Swarm.Closest.Distance.{
  ring_dist, IsActive, Reaches, Covered, scan-covers, beyond_right, before_left, between,
}

module _ (P : SwarmInfo → Type 0) (res : ℕ) (small : res ≤ max_id) where
  -- What the loop's variables hold once it has met an active swarm.
  record Found (s : Scan) (r : SwarmInfo) : Type 0 where
    is_right : s.rightmost ≡ some r
    right : P r
    right_active : IsActive r
    left : P s.leftmost
    left_active : IsActive s.leftmost
    best : P s.cur_best
    best_active : IsActive s.cur_best
    best_dist : s.cur_min ≡ linear_dist res s.cur_best.swarm_id

  Sound : Scan → Type 0
  Sound s = (s ≡ start) ⊎ ((r : SwarmInfo) × Found s r)

  step-Found :
      (s : Scan) (r si : SwarmInfo)
      → IsActive si
      → P si
      → Found s r
      → Found (scan_step res s si) (if ltb r.swarm_id si.swarm_id then si else r)
  unfolding scan_step
  step-Found s r si a p f = ground arith

  step-start : (si : SwarmInfo) → IsActive si → P si → Found (scan_step res start si) si
  unfolding scan_step
  step-start si a p = ground arith

  step-Sound :
      (s : Scan) (si : SwarmInfo)
      → si.swarm_id ≤ invalid_swarm_id
      → P si
      → Sound s
      → Sound (scan_step res s si)
  unfolding Sound
  step-Sound s si fits p h = elim (Bool-cases (si.swarm_id == invalid_swarm_id)) [
    | inl skipped ↦ unfold scan_step in rw skipped h
    | inr active ↦ elim h [
      | inl e ↦ inr (si, rw e (step-start si (ground arith) p))
      | inr (r, f) ↦ inr (_, step-Found s r si (ground arith) p f)
    ]
  ]

  scan-Sound :
      (s : Scan) (sis : List SwarmInfo)
      → ((x : SwarmInfo) → In x sis → (x.swarm_id ≤ invalid_swarm_id) × P x)
      → Sound s
      → Sound (scan res s sis)
  unfolding scan
  scan-Sound s [] all h = h
  scan-Sound s (si ∷ sis) all h =
      let (fits, p) = all si (inl refl) in
      scan-Sound (scan_step res s si) sis (λ x i. all x (inr i)) (step-Sound s si fits p h)

  -- The distances to the ends are known too, since the ends are swarms that the loop met.
  wrap_around-nearest :
      (s : Scan) (r : SwarmInfo) (id : ℕ)
      → id < invalid_swarm_id
      → Found s r
      → Covered res id s
      → s.cur_min ≤ linear_dist res r.swarm_id
      → s.cur_min ≤ linear_dist res s.leftmost.swarm_id
      → let w = wrap_around res s in
        P w × IsActive w × (ring_dist res w.swarm_id ≤ ring_dist res id)
  unfolding wrap_around
  wrap_around-nearest s r id a f c to_right to_left =
      rw (f.is_right, wrap_around) (ground arith, ground arith, nearest)
    where
      left : ℕ
      left = s.leftmost.swarm_id

      reach : id ≤ r.swarm_id
      reach = subst (Reaches id) f.is_right c.right

      nearest : ring_dist res (ends res s r).swarm_id ≤ ring_dist res id
      nearest = elim (Bool-cases (ltb r.swarm_id res)) [
        | inl t ↦ rw t (
            ground (
              arith,
              beyond_right res id left r.swarm_id s.cur_best.swarm_id s.cur_min small a c.left reach
                  f.right_active f.best_dist c.closest,
            ))
        | inr e ↦ elim (Bool-cases (ltb res left)) [
          | inl t ↦ rw e (
              rw t (
                ground (
                  arith,
                  before_left res id left r.swarm_id s.cur_best.swarm_id s.cur_min small a c.left
                      reach f.right_active f.best_dist c.closest,
                )))
          | inr g ↦ rw e (
              rw g (
                between res id left r.swarm_id s.cur_best.swarm_id s.cur_min small a c.left reach
                  f.right_active f.best_dist c.closest (ground arith) (ground arith) (ground arith)
                  (ground arith)))
        ]
      ]

abbrev pub IdsFit : List SwarmInfo → Type 0
IdsFit sis = (x : SwarmInfo) → In x sis → x.swarm_id ≤ invalid_swarm_id

-- Once an active swarm is in the list, the loop does not end where it started.
not-start : (res id : ℕ) (s : Scan) → id < invalid_swarm_id → s ≡ start → ¬ Covered res id s
not-start res id s a e c = (subst (λ t. Covered res id t) e c).right

pub closest_swarm-nearest :
    (all : List SwarmInfo) (res : ℕ) (x : SwarmInfo)
    → IdsFit all
    → res ≤ max_id
    → In x all
    → IsActive x
    → let w = closest_swarm all res in
      In w all × IsActive w × (ring_dist res w.swarm_id ≤ ring_dist res x.swarm_id)
unfolding closest_swarm Sound
closest_swarm-nearest all res x fits small i a =
    elim (scan-Sound (λ y. In y all) res small start all (λ y j. (fits y j, j)) (inl refl)) [
      | inl e ↦ absurd (not-start res x.swarm_id _ a e (scan-covers res start x all i a))
      | inr (r, f) ↦
          let s = scan res start all in
          wrap_around-nearest (λ y. In y all) res small s r x.swarm_id a f
            (scan-covers res start x all i a)
            (scan-covers res start r all f.right f.right_active).closest
            (scan-covers res start s.leftmost all f.left f.left_active).closest
    ]

-- For a key whose position is not 2^64 - 1: if there is an active swarm, the chosen swarm is an
-- active one of the list, and no active swarm is nearer to the key on the ring.
pub get_swarm_by_pk-nearest :
    (all : List SwarmInfo) (raw : Bytes) (x : SwarmInfo)
    → IdsFit all
    → pubkey_to_swarm_space raw ≢ invalid_swarm_id
    → In x all
    → IsActive x
    → let w = get_swarm_by_pk all raw in
      In w all
      × IsActive w
      × (ring_dist (pubkey_to_swarm_space raw) w.swarm_id
          ≤ ring_dist (pubkey_to_swarm_space raw) x.swarm_id)
unfolding get_swarm_by_pk
get_swarm_by_pk-nearest all raw x fits ne i a =
    closest_swarm-nearest all (pubkey_to_swarm_space raw) x fits
      (omega (arith, swarm_space-lt raw, ne)) i a

scan-inactive :
    (res : ℕ) (s : Scan) (all : List SwarmInfo)
    → ((x : SwarmInfo) → In x all → x.swarm_id ≡ invalid_swarm_id)
    → scan res s all ≡ s
unfolding scan
scan-inactive res s [] h = refl
scan-inactive res s (si ∷ sis) h =
    rw (h si (inl refl)) (scan-inactive res s sis (λ x i. h x (inr i)))

-- Where no swarm is active, there is no swarm for any key, and the invalid id is the answer.
get_swarm_by_pk-none :
    (all : List SwarmInfo) (raw : Bytes)
    → ((x : SwarmInfo) → In x all → x.swarm_id ≡ invalid_swarm_id)
    → get_swarm_by_pk all raw ≡ null_swarm
unfolding get_swarm_by_pk
get_swarm_by_pk-none all raw h =
    rw (scan-inactive (pubkey_to_swarm_space raw) start all h, wrap_around)
