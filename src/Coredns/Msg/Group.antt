-- ===== src/Coredns/Msg/Group.antt =====
-- `Group` of coredns/plugin/rdns/msg/service.go.
pub mod Shallowest
use rdns_server.Base.{
  ℕ, ◌≡◌, ◌≢◌, refl, sym, ◌⊎◌, inl, inr, Bool, true, false, ◌&&◌, ◌||◌, List, [], ◌∷◌, map, Option,
  none, some, Bytes, ltb, ◌==◌, same, same_iff, if◌then◌else◌, arith, Bool-cases,
}
use rdns_server.Text.{count, slash}
use rdns_server.Coredns.Msg.{Service}

-- What the first loop leaves behind: the group of the shortest key, its number of slashes, and
-- the array `length`, which is 0 from a `break` on.
pub record Scan : Type 0 where
  pub group : Bytes
  pub slashes : ℕ
  pub lengths : List ℕ

with_length : ℕ → Scan → Scan
with_length x r = record r { lengths = x ∷ r.lengths }

unfoldable pub scan : List Service → Bytes → ℕ → Scan
unfolding with_length
scan [] group slashes = record { group = group; slashes = slashes; lengths = [] }
scan (s ∷ sx) group slashes =
    let x = count s.key slash in
    elim (ltb x slashes) [
      | false ↦ with_length x (scan sx group slashes)
      | true ↦ elim (same s.group []) [
        | true ↦ record { group = group; slashes = slashes; lengths = x ∷ map (λ _. 0) sx }
        | false ↦ with_length x (scan sx s.group x)
      ]
    ]

onto : Service → Option (List Service) → Option (List Service)
onto s none = none
onto s (some sx) = some (s ∷ sx)

-- The second loop; `none` is its early return of all services.
unfoldable pub select : Bytes → ℕ → List Service → List ℕ → Option (List Service)
unfolding onto
select group slashes [] ns = some []
select group slashes (s ∷ sx) [] = some []
select group slashes (s ∷ sx) (n ∷ ns) =
    let rest = select group slashes sx ns in
    if same s.group []
    then onto s rest
    else if (n == slashes) && not_same s.group group
    then none
    else if same s.group group
    then onto s rest
    else rest
  where
    not_same : Bytes → Bytes → Bool
    not_same s t = if same s t then false else true

or_all : List Service → Option (List Service) → List Service
or_all sx none = sx
or_all sx (some ret) = ret

-- The services, once the first loop is over.
unfoldable pub choose : List Service → Scan → List Service
unfolding select or_all
choose sx r = if same r.group [] then sx else or_all sx (select r.group r.slashes sx r.lengths)

unfoldable pub group : List Service → List Service
unfolding scan select or_all choose
group [] = []
group (s ∷ sx) = choose (s ∷ sx) (scan (s ∷ sx) s.group (count s.key slash))

-- The services of one group, and those of none.
unfoldable pub members : Bytes → List Service → List Service
members g [] = []
members g (s ∷ sx) = if same s.group [] || same s.group g then s ∷ members g sx else members g sx

-- A service of the list has this group.
abbrev pub Has : Bytes → List Service → Type 0
Has g [] = ⊥
Has g (s ∷ sx) = (s.group ≡ g) ⊎ Has g sx

same_length : List Service → List ℕ → Bool
same_length [] [] = true
same_length (s ∷ sx) (n ∷ ns) = same_length sx ns
same_length _ _ = false

same_length-zeros : (sx : List Service) → same_length sx (map (λ _. 0) sx) ≡ true
unfolding same_length
same_length-zeros [] = refl
same_length-zeros (s ∷ sx) = same_length-zeros sx

scan-lengths : (sx : List Service) (g : Bytes) (k : ℕ) → same_length sx (scan sx g k).lengths ≡ true
unfolding scan same_length
scan-lengths [] g k = refl
scan-lengths (s ∷ sx) g k =
    ground (
      arith,
      scan-lengths sx g k,
      scan-lengths sx s.group (count s.key slash),
      same_length-zeros sx,
    )

scan-Has :
    (sx : List Service) (g : Bytes) (k : ℕ) → ((scan sx g k).group ≡ g) ⊎ Has (scan sx g k).group sx
unfolding scan
scan-Has [] g k = inl refl
scan-Has (s ∷ sx) g k = ground (arith, scan-Has sx g k, scan-Has sx s.group (count s.key slash))

select-members :
    (g : Bytes) (k : ℕ) (sx : List Service) (ns : List ℕ)
    → same_length sx ns ≡ true
    → (select g k sx ns ≡ none) ⊎ (select g k sx ns ≡ some (members g sx))
unfolding select members same_length
select-members g k [] ns h = inr refl
select-members g k (s ∷ sx) [] h = cc
select-members g k (s ∷ sx) (n ∷ ns) h = ground (arith, select-members g k sx ns h)

choose-members :
    (sx : List Service) (r : Scan)
    → Has r.group sx
    → same_length sx r.lengths ≡ true
    → (choose sx r ≡ sx) ⊎ ((g : Bytes) × (g ≢ []) × Has g sx × (choose sx r ≡ members g sx))
unfolding choose or_all
choose-members sx r h k = elim (Bool-cases (same r.group [])) [
  | inl e ↦ inl (rw e)
  | inr e ↦ elim (select-members r.group r.slashes sx r.lengths k) [
    | inl q ↦ inl (rw (e, q))
    | inr q ↦ inr (r.group, (λ p. ground (arith, same_iff r.group [])), h, rw (e, q))
  ]
]

-- All services come back, or those of one group with those of none. That group is the group of one
-- of the services, and not empty.
pub group_lem :
    (sx : List Service)
    → (group sx ≡ sx) ⊎ ((g : Bytes) × (g ≢ []) × Has g sx × (group sx ≡ members g sx))
unfolding group
group_lem [] = inl refl
group_lem (s ∷ sx) =
    choose-members (s ∷ sx) (scan (s ∷ sx) s.group (count s.key slash))
      (at_head (scan-Has (s ∷ sx) s.group (count s.key slash)))
      (scan-lengths (s ∷ sx) s.group (count s.key slash))
  where
    at_head : {h : Bytes} → (h ≡ s.group) ⊎ Has h (s ∷ sx) → Has h (s ∷ sx)
    at_head (inl p) = inl (sym p)
    at_head (inr q) = q
