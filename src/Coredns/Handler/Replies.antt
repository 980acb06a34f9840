-- ===== src/Coredns/Handler/Replies.antt =====
-- What a client gets back for one query.
use rdns_server.Base.{
  ◌≡◌, ◌≢◌, refl, ◌∙◌, ◌⊎◌, inl, inr, Bool, true, false, List, [], ◌∷◌, ◌++◌, Option, none, some,
  Bytes, codes, same, same_iff, Result, ok, err, arith, Bool-cases,
}
use rdns_server.Coredns.Dns.{Dns, Request, Rr, name, named, clear, type_ns}
use rdns_server.Coredns.Zones.{matches}
use rdns_server.Coredns.Backend.{Error, ServiceBackend}
use rdns_server.Coredns.Etcd.{Etcd, backend}
use rdns_server.Coredns.Lookup.Extra.{Float64, ns_records}
use rdns_server.Coredns.Handler.{
  Message, Outcome, Found, Next, error_message, next_or_failure, backend_error, reply, find,
  serve_dns, rcode_success, rcode_name_error, rcode_server_failure, client_write,
}

module _ (dns : Dns) (b : ServiceBackend) (float : Float64) where
  -- The three replies that the plugin writes itself: an answer, which is not empty and has no error;
  -- an empty reply with the code of success; and an empty reply with an error's code, NXDOMAIN for
  -- a name error that does not fall through, with no error to log, and SERVFAIL, with the error, for any other.
  abbrev pub Written : Bool → Result Error (List Rr × List Rr) → Message → Option Error → Type 0
  Written falls (ok ([], extra)) m error =
      (m.answer ≡ []) × (m.extra ≡ []) × (m.rcode ≡ rcode_success) × (error ≡ none)
  Written falls (ok (r ∷ rs, extra)) m error =
      (m.answer ≡ r ∷ rs)
      × (m.ns ≡ [])
      × (m.extra ≡ extra)
      × (m.rcode ≡ rcode_success)
      × (error ≡ none)
  Written falls (err x) m error =
      (m.answer ≡ [])
      × (m.extra ≡ [])
      × (((b.is_name_error x ≡ true)
            × (falls ≡ false)
            × (m.rcode ≡ rcode_name_error)
            × (error ≡ none))
          ⊎ ((b.is_name_error x ≡ false) × (m.rcode ≡ rcode_server_failure) × (error ≡ some x)))

  -- The query goes on to the next handler with a name error, or a reply is written: authoritative,
  -- for the question that the message holds, and with a code for the caller that says so.
  abbrev pub Replied : Request → Bool → Next → Result Error (List Rr × List Rr) → Outcome → Type 0
  Replied state falls next r o =
      ((x : Error) × (r ≡ err x)
        × (b.is_name_error x ≡ true)
        × (falls ≡ true)
        × (o ≡ next_or_failure next state))
      ⊎ ((m : Message) × (o.written ≡ some m)
          × Written falls r m o.error
          × (m.authoritative ≡ true)
          × (m.question ≡ state.question)
          × (client_write o.rcode ≡ true))

  reply-Replied :
      (zone : Bytes) (state : Request) (falls : Bool) (next : Next)
      (r : Result Error (List Rr × List Rr))
      → Replied state falls next r (reply dns b float zone state falls next r)
  unfolding reply backend_error error_message client_write
  reply-Replied zone state falls next (ok ([], extra)) =
      inr (_, refl, (refl, refl, refl, refl), refl, refl, refl)
  reply-Replied zone state falls next (ok (r ∷ rs, extra)) =
      inr (_, refl, (refl, refl, refl, refl, refl), refl, refl, refl)
  reply-Replied zone state falls next (err x) = elim (Bool-cases (b.is_name_error x)) [
    | inl e ↦ elim (Bool-cases falls) [
      | inl f ↦ inl (x, refl, e, f, rw (e, f))
      | inr f ↦ inr (
        error_message dns b float zone rcode_name_error state,
        rw (e, f),
        (refl, refl, inl (e, f, refl, rw (e, f))),
        refl,
        refl,
        rw (e, f),
      )
    ]
    | inr e ↦ inr (
      error_message dns b float zone rcode_server_failure state,
      rw e,
      (refl, refl, inr (e, refl, rw e)),
      refl,
      refl,
      rw e,
    )
  ]

  ns_records_failed :
      (zone : Bytes) (state : Request) (x : Error)
      → b.services (record (clear state) { question = codes "ns.dns." ++ zone }) false ≡ err x
      → (ns_records dns b zone state).1 ≡ codes "ns.dns." ++ zone
  unfolding ns_records
  ns_records_failed zone state x failed = rw (failed, ns_records)

  find_ns :
      (zone : Bytes) (state : Request)
      → state.qtype ≡ type_ns
      → same (name dns state) zone ≡ true
      → (find dns b float zone state).question ≡ (ns_records dns b zone state).1
  unfolding find
  find_ns zone state typed here = simp (typed, here)

module _ (dns : Dns) (e : Etcd) (float : Float64) where
  -- The zone that a query is answered for, and what is found for it.
  abbrev pub zone_of : Request → Bytes
  zone_of r = matches dns e.zones (name dns (named dns r))

  abbrev pub found : Request → Found
  found r = find dns (backend dns e) float (zone_of r) (named dns r)

  -- A query for a name in no zone goes to the next handler as it came. Any other is answered from
  -- what was found: with the records, with an empty reply, or with SERVFAIL and the error; where the
  -- error is that of a name, by the next handler if the name falls through, and with NXDOMAIN only if it
  -- does not.
  pub serve_dns_lem :
      (next : Next) (r : Request)
      → ((zone_of r ≡ []) × (serve_dns dns e float next r ≡ next_or_failure next r))
        ⊎ ((zone_of r ≢ [])
            × Replied dns
                (backend dns e)
                float
                (record (named dns r) { question = (found r).question })
                (e.falls_through (name dns (named dns r)))
                next
                (found r).result
                (serve_dns dns e float next r))
  unfolding serve_dns
  serve_dns_lem next r = elim (Bool-cases (same (zone_of r) [])) [
    | inl p ↦ inl ((same_iff _ _).0 p, rw p)
    | inr p ↦ inr (
      (λ q. ground (arith, same_iff (zone_of r) [])),
      rw p (
          reply-Replied dns (backend dns e) float (zone_of r)
            (record (named dns r) { question = (found r).question }) _ next (found r).result),
    )
  ]

  -- An NS query for a zone whose name servers cannot be looked up is answered for another question
  -- than the client's: the name that `NS` put into the message is still there.
  pub ns_reply_question :
      (next : Next) (r : Request) (x : Error)
      → r.qtype ≡ type_ns
      → name dns (named dns r) ≡ zone_of r
      → zone_of r ≢ []
      → e.falls_through (name dns (named dns r)) ≡ false
      → (backend dns e).services
          (record (clear (named dns r)) { question = codes "ns.dns." ++ zone_of r })
          false
        ≡ err x
      → (m : Message) × ((serve_dns dns e float next r).written ≡ some m)
        × (m.question ≡ codes "ns.dns." ++ zone_of r)
  unfolding named
  ns_reply_question next r x typed apex zoned falls failed = elim (serve_dns_lem next r) [
    | inl (p, _) ↦ absurd (zoned p)
    | inr (_, inl (y, _, _, f, _)) ↦ cc
    | inr (_, inr (m, w, _, _, q, _)) ↦ (
      m,
      w,
      q
          ∙ find_ns dns (backend dns e) float (zone_of r) (named dns r) typed
              ((same_iff _ _).1 apex)
          ∙ ns_records_failed dns (backend dns e) float (zone_of r) (named dns r) x failed,
    )
  ]
