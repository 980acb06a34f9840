-- ===== src/Coredns/Etcd/Answers.antt =====
-- What the services that etcd's keys yield have in common.
use rdns_server.Base.{
  ℕ, ◌%◌, ◌^◌, ◌≤◌, ◌<◌, ◌≡◌, ◌≢◌, ◌⊎◌, inl, inr, Bool, true, not, ◌||◌, List, [], ◌∷◌, Bytes, same,
  same_iff, if◌then◌else◌, Result, ok, err, ◌>>=◌, All, arith, Bool-cases,
}
use rdns_server.Base.Int.{pos}
use rdns_server.Coredns.Dns.{Dns, Request, name, type_txt}
use rdns_server.Coredns.Msg.{Service}
use rdns_server.Coredns.Msg.Group.{group, members, group_lem}
use rdns_server.Coredns.Backend.{Error}
use rdns_server.Coredns.Etcd.{
  Kv, Etcd, ttl, Visit, skip, fail, serve, follow, complete, should_include, loop_nodes, records,
  records_of, services, default_ttl, get, bounded_name, in_zone_apex,
}

-- The TTL of an answer is positive, at most the lease number and the service's own TTL where these
-- are not 0, and it is one of the two or, where both are 0, the default.
pub ttl_lem :
    (kv : Kv) (s : Service)
    → (0 < ttl kv s)
      × ((kv.lease % 2 ^ 32 ≡ 0) ⊎ (ttl kv s ≤ kv.lease % 2 ^ 32))
      × ((s.ttl ≡ 0) ⊎ (ttl kv s ≤ s.ttl))
      × (((ttl kv s ≡ default_ttl) × (kv.lease % 2 ^ 32 ≡ 0) × (s.ttl ≡ 0))
          ⊎ (ttl kv s ≡ kv.lease % 2 ^ 32)
          ⊎ (ttl kv s ≡ s.ttl))
unfolding ttl
ttl_lem kv s = ground arith

-- A service that may stand in an answer to a query of this type.
pub record IsAnswer (qtype : ℕ) (s : Service) : Type 0 where
  pub live : 0 < s.ttl
  pub ranked : s.priority ≢ pos 0
  pub filled : ((qtype ≡ type_txt) × (s.text ≢ [])) ⊎ ((qtype ≢ type_txt) × (s.host ≢ []))

complete-IsAnswer :
    (n : Kv) (s : Service) (qtype : ℕ)
    → should_include (complete n s) qtype ≡ true
    → IsAnswer qtype (complete n s)
unfolding complete should_include
complete-IsAnswer n s qtype h = record {
  live = (ttl_lem n s).0;
  ranked = ground arith;
  filled = ground (arith, same_iff s.text [], same_iff s.host []);
}

abbrev AllOk : {A : Type 0} → (A → Type 0) → Result Error (List A) → Type 0
AllOk P (ok xs) = All P xs
AllOk P (err x) = Unit

follow-AllOk :
    (n : Kv) (qtype : ℕ) (bx : List Service) (v : Visit)
    (rest : List Service → Result Error (List Service))
    → ((b : List Service) → AllOk (IsAnswer qtype) (rest b))
    → AllOk (IsAnswer qtype) (follow n qtype bx v rest)
unfolding follow
follow-AllOk n qtype bx skip rest h = h bx
follow-AllOk n qtype bx (fail x) rest h = tt
follow-AllOk n qtype bx (serve s) rest h = push (rest (s ∷ bx)) (h (s ∷ bx))
  where
    push :
        (r : Result Error (List Service))
        → AllOk (IsAnswer qtype) r
        → AllOk
            (IsAnswer qtype)
            (r >>= λ sx. ok (if should_include (complete n s) qtype then complete n s ∷ sx else sx))
    push (err x) k = tt
    push (ok sx) k = elim (Bool-cases (should_include (complete n s) qtype)) [
      | inl i ↦ rw i (complete-IsAnswer n s qtype i, k)
      | inr o ↦ rw o k
    ]

AllOk-bind :
    {A : Type 0} (qtype : ℕ) (r : Result Error A) (f : A → Result Error (List Service))
    → ((x : A) → AllOk (IsAnswer qtype) (f x))
    → AllOk (IsAnswer qtype) (r >>= f)
AllOk-bind qtype (ok x) f h = h x
AllOk-bind qtype (err x) f h = tt

loop_nodes-AllOk :
    (e : Etcd) (bx : List Service) (kvs : List Kv) (parts : List Bytes) (star : Bool) (qtype : ℕ)
    → AllOk (IsAnswer qtype) (loop_nodes e bx kvs parts star qtype)
unfolding loop_nodes
loop_nodes-AllOk e bx [] parts star qtype = tt
loop_nodes-AllOk e bx (n ∷ kvs) parts star qtype =
    follow-AllOk n qtype bx _ _ (λ b. loop_nodes-AllOk e b kvs parts star qtype)

members-All :
    (P : Service → Type 0) (g : Bytes) (sx : List Service) → All P sx → All P (members g sx)
unfolding members
members-All P g [] h = tt
members-All P g (s ∷ sx) (hs, h) = elim (Bool-cases (same s.group [] || same s.group g)) [
  | inl e ↦ rw e (hs, members-All P g sx h)
  | inr e ↦ rw e (members-All P g sx h)
]

group-All : (P : Service → Type 0) (sx : List Service) → All P sx → All P (group sx)
group-All P sx h = elim (group_lem sx) [
  | inl p ↦ rw p h
  | inr (g, _, _, p) ↦ rw p (members-All P g sx h)
]

module _ (dns : Dns) (e : Etcd) where
  records_of-AllOk :
      (nm : Bytes) (qtype : ℕ) (exact : Bool)
      → AllOk (IsAnswer qtype) (records_of dns e nm qtype exact)
  unfolding records_of
  records_of-AllOk nm qtype exact =
      AllOk-bind qtype (get e _ (not exact)) _ (λ kvs. loop_nodes-AllOk e [] _ _ _ qtype)

  records-AllOk :
      (state : Request) (exact : Bool) → AllOk (IsAnswer state.qtype) (records dns e state exact)
  unfolding records
  records-AllOk state exact = elim (Bool-cases (in_zone_apex dns e (name dns state) e.zones)) [
    | inl p ↦ rw p tt
    | inr p ↦
        rw p (records_of-AllOk (bounded_name dns e (name dns state) state.qtype) state.qtype exact)
  ]

  grouped :
      (state : Request) (r : Result Error (List Service)) (sx : List Service)
      → AllOk (IsAnswer state.qtype) r
      → (r >>= λ x. ok (group x)) ≡ ok sx
      → All (IsAnswer state.qtype) sx
  grouped state (err x) sx h p = cc
  grouped state (ok x) sx h p =
      let q : group x ≡ sx = cc in rw (← q) (group-All (IsAnswer state.qtype) x h)

  -- Every service that the backend returns has a positive TTL, a priority that is not 0, a text if
  -- the query is for TXT records and a host otherwise.
  pub services-IsAnswer :
      (state : Request) (exact : Bool) (sx : List Service)
      → services dns e state exact ≡ ok sx
      → All (IsAnswer state.qtype) sx
  unfolding services
  services-IsAnswer state exact sx h =
      grouped state (records dns e state exact) sx (records-AllOk state exact) h
