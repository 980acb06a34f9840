-- ===== src/Coredns/Lookup.antt =====
-- A and AAAA of coredns/plugin/backend_lookup.go, with the chase of CNAMEs. The other record types
-- are in the children.
pub mod Chase
pub mod Extra
pub mod Single
use rdns_server.Base.{
  ℕ, zero, suc, ◌+◌, Bool, true, false, not, ◌&&◌, ◌||◌, List, [], ◌∷◌, ◌++◌, Bytes, codes, length,
  same, ltb, ◌==◌, if◌then◌else◌, Result, ok, err,
}
use rdns_server.Coredns.Dns.{
  Dns, Request, Rr, qname, name, clear, new_with_question, type_a, type_aaaa, type_cname,
}
use rdns_server.Coredns.Msg.{Service, host_type, new_cname, new_a, new_aaaa}
use rdns_server.Coredns.Zones.{name_matches}
use rdns_server.Coredns.Backend.{Error, out_of_fuel, ServiceBackend}

unfoldable pub mem : Bytes → List Bytes → Bool
mem s [] = false
mem s (t ∷ ts) = same s t || mem s ts

module _ (dns : Dns) (b : ServiceBackend) where
  -- The services for a name, those of apex.dns.<zone> for the zone itself, and the question that the
  -- shared message holds afterwards: it is changed for the lookup and set back.
  unfoldable pub check_for_apex : Bytes → Request → Result Error (List Service) × Bytes
  unfolding name clear qname
  check_for_apex zone state =
      let old = qname dns state in
      let fake = record (clear state) { question = dns.dns_join (codes "apex.dns" ∷ zone ∷ []) } in
      let back = record fake { question = old } in
      if not (same (name dns state) zone)
      then (b.services state false, state.question)
      else elim (b.services fake false) [
        | ok sx ↦ (ok sx, old)
        | err x ↦ (b.services back false, old)
      ]

  -- What a CNAME service adds to the answer; `next` is the recursive call.
  unfoldable pub chase :
      (Request → List Rr → Result Error (List Rr)) → Bytes → Request → List Rr → Service → List Rr
  unfolding qname name new_with_question new_cname name_matches
  chase next zone state previous serv =
      let new_record = new_cname dns serv (qname dns state) serv.host in
      let target = dns.fqdn serv.host in
      if name_matches dns (name dns state) target
      then []
      else if ltb 7 (length previous)
      then []
      else if dns.duplicate_cname target previous
      then []
      else if dns.is_sub_domain zone target
      then (elim (next (new_with_question dns serv.host state.qtype)
          (previous ++ new_record ∷ [])) [
            | err x ↦ []
            | ok [] ↦ []
            | ok (r ∷ rs) ↦ new_record ∷ r ∷ rs
          ])
      else (elim (b.lookup state target state.qtype) [
        | err x ↦ []
        | ok answer ↦ new_record ∷ answer
      ])

  -- The loop over the services, for the type `want` of addresses; `dup` holds the hosts seen so far.
  unfoldable pub gather :
      ℕ
      → (Service → Bytes → Bytes → Rr)
      → (Request → List Rr → Result Error (List Rr))
      → Bytes
      → Request
      → List Rr
      → List Bytes
      → List Service
      → List Rr
  unfolding chase mem host_type
  gather want new_address next zone state previous dup [] = []
  gather want new_address next zone state previous dup (serv ∷ sx) =
      let (what, ip) = host_type dns serv in
      let rest = λ (d : List Bytes). gather want new_address next zone state previous d sx in
      elim (what == type_cname) [
        | true ↦ chase next zone state previous serv ++ rest dup
        | false ↦ elim ((what == want) && not (mem serv.host dup)) [
          | true ↦ new_address serv (qname dns state) ip ∷ rest (serv.host ∷ dup)
          | false ↦ rest dup
        ]
      ]

  -- The services are looped over, unless looking them up failed.
  unfoldable pub answer :
      ℕ
      → (Service → Bytes → Bytes → Rr)
      → (Request → List Rr → Result Error (List Rr))
      → Bytes
      → Request
      → List Rr
      → Result Error (List Service)
      → Result Error (List Rr)
  unfolding gather
  answer want new_address next zone state previous (err x) = err x
  answer want new_address next zone state previous (ok sx) =
      ok (gather want new_address next zone state previous [] sx)

  -- A body of `A` and `AAAA`, around the recursive call.
  unfoldable pub addresses_step :
      ℕ
      → (Service → Bytes → Bytes → Rr)
      → (Request → List Rr → Result Error (List Rr))
      → Bytes
      → Request
      → List Rr
      → Result Error (List Rr)
  unfolding check_for_apex answer
  addresses_step want new_address next zone state previous =
      let (found, question) = check_for_apex zone state in
      answer want new_address next zone (record state { question = question }) previous found

  unfoldable pub addresses :
      ℕ → (Service → Bytes → Bytes → Rr) → ℕ → Bytes → Request → List Rr → Result Error (List Rr)
  unfolding addresses_step
  addresses want new_address zero zone state previous = err out_of_fuel
  addresses want new_address (suc fuel) zone state previous =
      addresses_step want new_address (addresses want new_address fuel zone) zone state previous

  -- `A` and `AAAA`: nine levels are enough, since a call with more than seven previous records
  -- makes no further one.
  unfoldable pub a_records : Bytes → Request → List Rr → Result Error (List Rr)
  unfolding addresses new_a
  a_records = addresses type_a new_a 9

  unfoldable pub aaaa_records : Bytes → Request → List Rr → Result Error (List Rr)
  unfolding addresses new_aaaa
  aaaa_records = addresses type_aaaa new_aaaa 9
