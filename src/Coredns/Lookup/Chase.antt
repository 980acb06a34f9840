-- ===== src/Coredns/Lookup/Chase.antt =====
-- The recursion of `A` and `AAAA` ends, for whatever chain or loop of CNAMEs.
use rdns_server.Base.{
  ℕ, zero, suc, ◌+◌, ◌<◌, ◌≤◌, ◌≡◌, refl, sym, ap, List, [], ◌∷◌, ◌++◌, Bytes, length,
  length-append, Result, ok, err, arith,
}
use rdns_server.Coredns.Dns.{Dns, Request, Rr, type_a, type_aaaa, qname, new_with_question}
use rdns_server.Coredns.Msg.{Service, new_a, new_aaaa, new_cname}
use rdns_server.Coredns.Backend.{Error, ServiceBackend}
use rdns_server.Coredns.Lookup.{
  chase, gather, answer, addresses_step, addresses, a_records, aaaa_records,
}

abbrev Lookups : Type 0
Lookups = Request → List Rr → Result Error (List Rr)

-- A lookup calls itself only with one more previous record, and only behind seven at most.
abbrev SameCalls : List Rr → Lookups → Lookups → Type 0
SameCalls previous f g =
    (state : Request) (rs : List Rr)
    → length rs ≡ suc (length previous)
    → length previous ≤ 7
    → f state rs ≡ g state rs

module _ (dns : Dns) (b : ServiceBackend) where
  chase-SameCalls :
      (f g : Lookups) (zone : Bytes) (state : Request) (previous : List Rr) (serv : Service)
      → SameCalls previous f g
      → chase dns b f zone state previous serv ≡ chase dns b g zone state previous serv
  unfolding chase
  chase-SameCalls f g zone state previous serv h =
      let new_record = new_cname dns serv (qname dns state) serv.host in
      let longer : length (previous ++ new_record ∷ []) ≡ suc (length previous) =
        omega (arith, length-append previous (new_record ∷ [])) in
      ground (
        arith,
        h (new_with_question dns serv.host state.qtype) (previous ++ new_record ∷ []) longer,
      )

  module _ (want : ℕ) (new_address : Service → Bytes → Bytes → Rr) where
    gather-SameCalls :
        (f g : Lookups) (zone : Bytes) (state : Request) (previous : List Rr) (dup : List Bytes)
        (sx : List Service)
        → SameCalls previous f g
        → gather dns b want new_address f zone state previous dup sx
          ≡ gather dns b want new_address g zone state previous dup sx
    unfolding gather
    gather-SameCalls f g zone state previous dup [] h = refl
    gather-SameCalls f g zone state previous dup (serv ∷ sx) h = ground (
      arith,
      chase-SameCalls f g zone state previous serv h,
      gather-SameCalls f g zone state previous dup sx h,
      gather-SameCalls f g zone state previous (serv.host ∷ dup) sx h,
    )

    answer-SameCalls :
        (f g : Lookups) (zone : Bytes) (state : Request) (previous : List Rr)
        (found : Result Error (List Service))
        → SameCalls previous f g
        → answer dns b want new_address f zone state previous found
          ≡ answer dns b want new_address g zone state previous found
    unfolding answer
    answer-SameCalls f g zone state previous (err x) h = refl
    answer-SameCalls f g zone state previous (ok sx) h =
        ap ok (gather-SameCalls f g zone state previous [] sx h)

    step-SameCalls :
        (f g : Lookups) (zone : Bytes) (state : Request) (previous : List Rr)
        → SameCalls previous f g
        → addresses_step dns b want new_address f zone state previous
          ≡ addresses_step dns b want new_address g zone state previous
    unfolding addresses_step
    step-SameCalls f g zone state previous h = answer-SameCalls f g zone _ previous _ h

    -- One more level of fuel changes nothing, where the fuel and the previous records make nine.
    addresses_stable :
        (fuel : ℕ) (zone : Bytes) (state : Request) (previous : List Rr)
        → 8 < fuel + length previous
        → 0 < fuel
        → addresses dns b want new_address (suc fuel) zone state previous
          ≡ addresses dns b want new_address fuel zone state previous
    unfolding addresses
    addresses_stable zero zone state previous h k = absurd (omega arith)
    addresses_stable (suc fuel) zone state previous h k =
        step-SameCalls (addresses dns b want new_address (suc fuel) zone)
          (addresses dns b want new_address fuel zone) zone state previous
          (λ st rs e short. addresses_stable fuel zone st rs (omega arith) (omega arith))

    -- With nine levels of fuel and at least one previous record, or with more fuel: the same.
    nine_levels :
        (zone : Bytes) (state : Request) (previous : List Rr)
        → addresses dns b want new_address 9 zone state previous
          ≡ addresses_step dns b want new_address
              (addresses dns b want new_address 9 zone)
              zone
              state
              previous
    nine_levels zone state previous =
        unfold addresses in
        step-SameCalls (addresses dns b want new_address 8 zone)
          (addresses dns b want new_address 9 zone) zone state previous
          (λ st rs e short. sym (addresses_stable 8 zone st rs (omega arith) (omega arith)))

  -- `A` satisfies the source's recursive equation, in which a call for the target of a CNAME is a call
  -- of `A` itself: the nine levels of fuel never show, whatever chain or loop of names the services make.
  pub a_records_step :
      (zone : Bytes) (state : Request) (previous : List Rr)
      → a_records dns b zone state previous
        ≡ addresses_step dns b type_a new_a (a_records dns b zone) zone state previous
  unfolding a_records
  a_records_step = nine_levels type_a new_a

  -- `AAAA` satisfies the source's recursive equation: its nine levels of fuel never show.
  pub aaaa_records_step :
      (zone : Bytes) (state : Request) (previous : List Rr)
      → aaaa_records dns b zone state previous
        ≡ addresses_step dns b type_aaaa new_aaaa (aaaa_records dns b zone) zone state previous
  unfolding aaaa_records
  aaaa_records_step = nine_levels type_aaaa new_aaaa
