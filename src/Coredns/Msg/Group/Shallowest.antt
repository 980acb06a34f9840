-- ===== src/Coredns/Msg/Group/Shallowest.antt =====
-- What `Group` of coredns/plugin/rdns/msg/service.go returns for services that all have a group.
use rdns_server.Base.{
  ℕ, ◌≡◌, refl, ap, Bool, true, false, ◌&&◌, List, [], ◌∷◌, map, none, some, Bytes, ltb, ◌==◌, same,
  if◌then◌else◌, arith, All, inl, inr, Bool-cases,
}
use rdns_server.Text.{count, slash}
use rdns_server.Coredns.Msg.{Service}
use rdns_server.Coredns.Msg.Group.{Scan, scan, select, choose, group}

-- The least number of slashes in a key, where the first has k.
unfoldable pub least : ℕ → List Service → ℕ
least k [] = k
least k (s ∷ sx) = let x = count s.key slash in if ltb x k then least x sx else least k sx

-- The group of the first service whose key has that many slashes.
unfoldable pub first_at : ℕ → Bytes → List Service → Bytes
first_at m g [] = g
first_at m g (s ∷ sx) = if count s.key slash == m then s.group else first_at m g sx

-- All services whose key has that many slashes have this group.
unfoldable pub agree : ℕ → Bytes → List Service → Bool
agree m g [] = true
agree m g (s ∷ sx) = (if count s.key slash == m then same s.group g else true) && agree m g sx

-- The services of a group.
unfoldable pub of_group : Bytes → List Service → List Service
of_group g [] = []
of_group g (s ∷ sx) = let rest = of_group g sx in if same s.group g then s ∷ rest else rest

abbrev pub HasGroup : Service → Type 0
HasGroup s = same s.group [] ≡ false

least-le : (k : ℕ) (sx : List Service) → ltb k (least k sx) ≡ false
unfolding least
least-le k [] = ground arith
least-le k (s ∷ sx) = ground (arith, least-le (count s.key slash) sx, least-le k sx)

scan-lengths :
    (sx : List Service) (g : Bytes) (k : ℕ)
    → All HasGroup sx
    → (scan sx g k).lengths ≡ map (λ s. count s.key slash) sx
unfolding scan
scan-lengths [] g k a = refl
scan-lengths (s ∷ sx) g k (n, a) = elim (Bool-cases (ltb (count s.key slash) k)) [
  | inl e ↦
      rw (scan, e, n)
        (ap (λ l. count s.key slash ∷ l) (scan-lengths sx s.group (count s.key slash) a))
  | inr e ↦ rw (scan, e) (ap (λ l. count s.key slash ∷ l) (scan-lengths sx g k a))
]

scan-least :
    (sx : List Service) (g : Bytes) (k : ℕ) → All HasGroup sx → (scan sx g k).slashes ≡ least k sx
unfolding scan least
scan-least [] g k a = refl
scan-least (s ∷ sx) g k (n, a) =
    ground (arith, n, scan-least sx g k a, scan-least sx s.group (count s.key slash) a)

-- A key with fewer slashes than k is there, so that the group does not matter.
first_at-any :
    (sx : List Service) (k : ℕ) (g h : Bytes)
    → (least k sx == k) ≡ false
    → first_at (least k sx) g sx ≡ first_at (least k sx) h sx
unfolding least first_at
first_at-any [] k g h e = ground arith
first_at-any (s ∷ sx) k g h e = ground (
  arith,
  e,
  first_at-any sx k g h,
  first_at-any sx (count s.key slash) g h,
  least-le (count s.key slash) sx,
  least-le k sx,
)

first_at-HasGroup :
    (m : ℕ) (g : Bytes) (sx : List Service)
    → same g [] ≡ false
    → All HasGroup sx
    → same (first_at m g sx) [] ≡ false
unfolding first_at
first_at-HasGroup m g [] h a = h
first_at-HasGroup m g (s ∷ sx) h (n, a) = ground (arith, n, first_at-HasGroup m g sx h a)

scan-first :
    (sx : List Service) (g : Bytes) (k : ℕ)
    → All HasGroup sx
    → (scan sx g k).group ≡ (if least k sx == k then g else first_at (least k sx) g sx)
unfolding scan least first_at
scan-first [] g k a = ground arith
scan-first (s ∷ sx) g k (n, a) = ground (
  arith,
  n,
  scan-first sx g k a,
  scan-first sx s.group (count s.key slash) a,
  first_at-any sx (count s.key slash) g s.group,
  least-le (count s.key slash) sx,
  least-le k sx,
)

select-agree :
    (g : Bytes) (m : ℕ) (sx : List Service)
    → All HasGroup sx
    → select g m sx (map (λ s. count s.key slash) sx)
      ≡ (if agree m g sx then some (of_group g sx) else none)
unfolding select agree of_group
select-agree g m [] a = refl
select-agree g m (s ∷ sx) (n, a) = ground (arith, n, select-agree g m sx a)

choose-agree :
    (sx : List Service) (r : Scan) (m : ℕ) (g : Bytes)
    → All HasGroup sx
    → r.lengths ≡ map (λ s. count s.key slash) sx
    → r.slashes ≡ m
    → r.group ≡ g
    → same g [] ≡ false
    → choose sx r ≡ (if agree m g sx then of_group g sx else sx)
unfolding choose
choose-agree sx r m g a l t e n = elim (Bool-cases (agree m g sx)) [
  | inl p ↦ rw (e, n, t, l, select-agree g m sx a, p) refl
  | inr p ↦ rw (e, n, t, l, select-agree g m sx a, p) refl
]

-- The services of the group of the first service with a shortest key, if those with a shortest key agree
-- on it, and else all.
unfoldable pub grouped : List Service → List Service
unfolding least first_at agree of_group
grouped [] = []
grouped (s ∷ sx) =
    let m = least (count s.key slash) sx in
    let g = first_at m s.group (s ∷ sx) in
    if agree m g (s ∷ sx) then of_group g (s ∷ sx) else s ∷ sx

-- Where every service has a group, Group returns the services of one group, that of the services with the
-- shortest keys, the keys with the least number of slashes, if these agree on it, and all services if
-- they do not.
pub group-grouped : (sx : List Service) → All HasGroup sx → group sx ≡ grouped sx
unfolding group grouped
group-grouped [] a = refl
group-grouped (s ∷ sx) (n, a) =
    let k = count s.key slash in
    let m = least k sx in
    choose-agree (s ∷ sx) (scan (s ∷ sx) s.group k) m (first_at m s.group (s ∷ sx)) (n, a)
      (scan-lengths (s ∷ sx) s.group k (n, a)) (ground (arith, scan-least sx s.group k a))
      (ground (arith, scan-first sx s.group k a)) (first_at-HasGroup m s.group (s ∷ sx) n (n, a))
