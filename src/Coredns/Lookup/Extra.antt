-- ===== src/Coredns/Lookup/Extra.antt =====
-- SRV, MX and NS of coredns/plugin/backend_lookup.go: answers with an additional section.
use rdns_server.Base.{
  ℕ, Bool, true, false, ◌&&◌, ◌||◌, List, [], ◌∷◌, ◌++◌, none, some, Bytes, codes, same, ◌==◌,
  if◌then◌else◌, Result, ok, err, ◌>>=◌,
}
use rdns_server.Base.Int.{ℤ, pos, negsuc, eqb_ℤ, uint16, ◌+ℤ◌}
use rdns_server.Coredns.Dns.{
  Dns, Request, Rr, Header, a, aaaa, cname, qname, clear, new_with_question, type_a, type_aaaa,
  type_cname,
}
use rdns_server.Coredns.Msg.{Service, host_type, target, new_srv, new_mx, new_ns}
use rdns_server.Coredns.Msg.Path.{domain}
use rdns_server.Coredns.Backend.{Error, ns_not_ip, panic, ServiceBackend}
use rdns_server.Coredns.Lookup.{mem, a_records}

-- float64, as far as `SRV` computes with it; `floor16` is uint16(math.Floor(x)).
pub record Float64 : Type 1 where
  pub F : Type 0
  pub of_int : ℤ → F
  pub mul : F → F → F
  pub div : F → F → F
  pub floor16 : F → ℕ

-- The keys of the map `dup`.
pub record Item : Type 0 where
  pub name : Bytes
  pub port : ℕ
  pub addr : Bytes

same_item : Item → Item → Bool
same_item i j = same i.name j.name && (i.port == j.port) && same i.addr j.addr

has_item : Item → List Item → Bool
has_item i [] = false
has_item i (j ∷ js) = same_item i j || has_item i js

-- The answer, and the map with the item in it.
unfoldable pub is_duplicate : List Item → Bytes → Bytes → ℕ → Bool × List Item
unfolding same_item has_item
is_duplicate m name addr port =
    let i : Item =
      if same addr []
      then record { name = name; port = port; addr = [] }
      else record { name = name; port = 0; addr = addr } in
    if has_item i m then (true, m) else (false, i ∷ m)

unfoldable pub new_address : Service → Bytes → Bytes → ℕ → Rr
new_address s name ip what =
    let hdr : Header = record { owner = name; rrtype = what; ttl = s.ttl } in
    if what == type_a then a hdr ip else aaaa hdr ip

not_cnames : List Rr → List Rr
not_cnames [] = []
not_cnames (cname h t ∷ rs) = not_cnames rs
not_cnames (r ∷ rs) = r ∷ not_cnames rs

-- The map `w`: the sum of the weights of each priority, a weight of 0 counting as 100.
bump : ℤ → ℤ → List (ℤ × ℤ) → List (ℤ × ℤ)
bump p n [] = (p, n) ∷ []
bump p n ((q, m) ∷ w) = if eqb_ℤ p q then (q, m +ℤ n) ∷ w else (q, m) ∷ bump p n w

unfoldable pub total_weights : List (ℤ × ℤ) → List Service → List (ℤ × ℤ)
unfolding bump
total_weights w [] = w
total_weights w (s ∷ sx) =
    total_weights (bump s.priority (if eqb_ℤ s.weight (pos 0) then pos 100 else s.weight) w) sx

weight_at : ℤ → List (ℤ × ℤ) → ℤ
weight_at p [] = pos 0
weight_at p ((q, m) ∷ w) = if eqb_ℤ p q then m else weight_at p w

-- The variables of the loops of `SRV` and `MX`.
pub record Sections : Type 0 where
  pub dup : List Item
  pub looked_up : List Bytes
  pub records : List Rr
  pub extra : List Rr

abbrev pub empty : Sections
empty = record { dup = []; looked_up = []; records = []; extra = [] }

-- A record and an address, unless they are there already.
unfoldable pub add_address : Sections → Bytes → ℕ → Bytes → Bytes → Rr → Rr → Sections
unfolding is_duplicate
add_address acc name port owner addr rec address =
    let (old, dup) = is_duplicate acc.dup name [] port in
    let (known, dup') = is_duplicate dup owner addr 0 in
    record acc {
      dup = dup';
      records = if old then acc.records else acc.records ++ rec ∷ [];
      extra = if known then acc.extra else acc.extra ++ address ∷ [];
    }

or_none : Result Error (List Rr) → List Rr
or_none (ok rs) = rs
or_none (err x) = []

module _ (dns : Dns) (b : ServiceBackend) where
  -- The addresses of a target: asked of an upstream server, or of the backend for a name in the zone.
  unfoldable pub target_addresses : Bytes → Request → Bytes → List Rr
  unfolding or_none not_cnames a_records
  target_addresses zone state host =
      if dns.is_sub_domain zone host
      then or_none (a_records dns b zone (new_with_question dns host type_a) [])
      else or_none (b.lookup state host type_a)
        ++ not_cnames (or_none (b.lookup state host type_aaaa))

  -- A record with a name as its target, and the addresses of that name when it is new.
  unfoldable pub add_target : Bytes → Request → Sections → Bytes → Rr → Sections
  unfolding target_addresses mem
  add_target zone state acc host rec =
      if mem host acc.looked_up
      then record acc { records = acc.records ++ rec ∷ [] }
      else record acc {
        records = acc.records ++ rec ∷ [];
        looked_up = host ∷ acc.looked_up;
        extra = acc.extra ++ target_addresses zone state host;
      }

  module _ (zone : Bytes) (state : Request) where
    -- A round of the second loop of `SRV`; a port of -1 is skipped.
    unfoldable pub srv_round : ℕ → Sections → Service → Result Error Sections
    unfolding add_target add_address new_address host_type new_srv target
    srv_round weight acc serv = elim (eqb_ℤ serv.port (negsuc 0)) [
      | true ↦ ok acc
      | false ↦
          let (what, ip) = host_type dns serv in
          elim (what == type_cname) [
            | true ↦ ok (
                add_target zone state acc (target dns serv)
                  (new_srv dns serv (qname dns state) weight))
            | false ↦ elim (domain dns serv.key) [
              | none ↦ err panic
              | some host ↦
                  let serv' = record serv { host = host } in
                  ok (
                    add_address acc (target dns serv') (uint16 serv.port) (target dns serv')
                      serv.host (new_srv dns serv' (qname dns state) weight)
                      (new_address serv' (target dns serv') ip what))
            ]
          ]
    ]

    -- A round of `MX`; only a service that is marked as mail takes part.
    unfoldable pub mx_round : Sections → Service → Result Error Sections
    unfolding add_target add_address new_address host_type new_mx target
    mx_round acc serv = elim serv.mail [
      | false ↦ ok acc
      | true ↦
          let (what, ip) = host_type dns serv in
          elim (what == type_cname) [
            | true ↦
                ok (add_target zone state acc (target dns serv) (new_mx dns serv (qname dns state)))
            | false ↦ elim (domain dns serv.key) [
              | none ↦ err panic
              | some host ↦
                  let serv' = record serv { host = host } in
                  ok (
                    add_address acc (target dns serv') (uint16 serv.priority) host serv.host
                      (new_mx dns serv' (qname dns state)) (new_address serv' host ip what))
            ]
          ]
    ]

  unfoldable pub mx_loop : Bytes → Request → Sections → List Service → Result Error Sections
  unfolding mx_round
  mx_loop zone state acc [] = ok acc
  mx_loop zone state acc (serv ∷ sx) =
      mx_round zone state acc serv >>= λ acc'. mx_loop zone state acc' sx

  unfoldable pub mx_records : Bytes → Request → Result Error Sections
  unfolding mx_loop
  mx_records zone state = do sx ← b.services state false; mx_loop zone state empty sx

  -- The loop of `NS`: the answers, and their addresses.
  unfoldable pub ns_loop :
      Request → List Rr → List Rr → List Service → Result Error (List Rr × List Rr)
  unfolding host_type new_ns new_address
  ns_loop state records extra [] = ok (records, extra)
  ns_loop state records extra (serv ∷ sx) =
      let (what, ip) = host_type dns serv in
      elim (what == type_cname) [
        | true ↦ err (ns_not_ip serv.host)
        | false ↦ elim (domain dns serv.key) [
          | none ↦ err panic
          | some host ↦
              let serv' = record serv { host = host } in
              ns_loop state (records ++ new_ns dns serv' (qname dns state) ∷ [])
                (extra ++ new_address serv' host ip what ∷ []) sx
        ]
      ]

  -- The services of ns.dns.<zone>. The second part is the question that the shared message holds
  -- afterwards: it is set back only behind the return on an error.
  unfoldable pub ns_records : Bytes → Request → Result Error (List Rr × List Rr) × Bytes
  unfolding ns_loop qname clear
  ns_records zone state =
      let old = qname dns state in
      let fake = record (clear state) { question = codes "ns.dns." ++ zone } in
      elim (b.services fake false) [
        | err x ↦ (err x, fake.question)
        | ok sx ↦ (ns_loop (record fake { question = old }) [] [] sx, old)
      ]

module _ (dns : Dns) (b : ServiceBackend) (float : Float64) where
  -- 100.0 / w * weight, rounded down.
  unfoldable pub srv_weight : List (ℤ × ℤ) → Service → ℕ
  unfolding weight_at
  srv_weight w serv =
      let share = float.div (float.of_int (pos 100)) (float.of_int (weight_at serv.priority w)) in
      float.floor16 (
        float.mul share (float.of_int (if eqb_ℤ serv.weight (pos 0) then pos 100 else serv.weight)))

  unfoldable pub srv_loop :
      List (ℤ × ℤ) → Bytes → Request → Sections → List Service → Result Error Sections
  unfolding srv_round srv_weight
  srv_loop w zone state acc [] = ok acc
  srv_loop w zone state acc (serv ∷ sx) =
      srv_round dns b zone state (srv_weight w serv) acc serv >>= λ acc'.
      srv_loop w zone state acc' sx

  unfoldable pub srv_records : Bytes → Request → Result Error Sections
  unfolding srv_loop total_weights
  srv_records zone state = do
    sx ← b.services state false
    srv_loop (total_weights [] sx) zone state empty sx
