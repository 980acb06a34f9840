-- ===== src/Coredns/Lookup/Single.antt =====
-- CNAME, TXT, PTR, SOA and BackendError's message of coredns/plugin/backend_lookup.go.
use rdns_server.Base.{
  Bool, true, false, List, [], ◌∷◌, ◌++◌, map, none, some, Bytes, codes, ltb, ◌==◌, if◌then◌else◌,
  Result, ok, err, ◌>>=◌,
}
use rdns_server.Text.{dot}
use rdns_server.Coredns.Dns.{Dns, Request, Rr, soa, qname, type_soa}
use rdns_server.Coredns.Msg.{Service, new_cname, new_txt, new_ptr}
use rdns_server.Coredns.Backend.{Error, panic, ServiceBackend}
use rdns_server.Coredns.Lookup.{mem}

module _ (dns : Dns) (b : ServiceBackend) where
  -- Is the host of a service a name, net.ParseIP(serv.Host) == nil?
  unfoldable pub is_named : Service → Bool
  is_named serv = elim (dns.parse_ip serv.host) [ none ↦ true | some ip ↦ false ]

  cname_of_first : Request → List Service → List Rr
  cname_of_first state [] = []
  cname_of_first state (serv ∷ sx) =
      if is_named serv then new_cname dns serv (qname dns state) serv.host ∷ [] else []

  unfoldable pub cname_records : Request → Result Error (List Rr)
  unfolding cname_of_first is_named qname new_cname
  cname_records state = do sx ← b.services state true; ok (cname_of_first state sx)

  unfoldable pub txt_records : Request → Result Error (List Rr)
  unfolding qname new_txt
  txt_records state = do
    sx ← b.services state false
    ok (map (λ (serv : Service). new_txt serv (qname dns state)) sx)

  -- The loop of `PTR`, with the hosts seen so far.
  unfoldable pub pointers : Request → List Bytes → List Service → List Rr
  unfolding mem is_named
  pointers state dup [] = []
  pointers state dup (serv ∷ sx) = elim (is_named serv) [
    | false ↦ pointers state dup sx
    | true ↦ elim (mem serv.host dup) [
      | true ↦ pointers state dup sx
      | false ↦ new_ptr dns serv (qname dns state) serv.host ∷ pointers state (serv.host ∷ dup) sx
    ]
  ]

  unfoldable pub ptr_records : Request → Result Error (List Rr)
  unfolding pointers qname new_ptr
  ptr_records state = do sx ← b.reverse state true; ok (pointers state [] sx)

  -- `panic` is the index zone[0] of an empty zone.
  unfoldable pub soa_records : Bytes → Request → Result Error (List Rr)
  soa_records [] state = err panic
  soa_records (c ∷ zone) state =
      let min_ttl = b.min_ttl state in
      let ttl = if ltb min_ttl 300 then min_ttl else 300 in
      let named = if c == dot then [] else c ∷ zone in
      ok (
        soa (record { owner = c ∷ zone; rrtype = type_soa; ttl = ttl }) (codes "ns.dns." ++ named)
          (codes "hostmaster." ++ named) (b.serial state) 7200 1800 86400 min_ttl
        ∷ [])
