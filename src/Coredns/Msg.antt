-- ===== src/Coredns/Msg.antt =====
-- coredns/plugin/rdns/msg: a service, and the resource records that are built from it.
pub mod Path
pub mod Group
pub mod Chunks
use rdns_server.Base.{
  ℕ, zero, suc, Bool, true, false, List, [], ◌∷◌, Option, Bytes, ltb, drop, if◌then◌else◌,
}
use rdns_server.Base.Int.{ℤ, pos, negsuc, ltb_ℤ, uint16}
use rdns_server.Coredns.Dns.{
  Dns, Rr, Header, a, aaaa, cname, txt, ptr, ns, mx, srv, to4, type_a, type_aaaa, type_cname,
  type_txt, type_ptr, type_ns, type_mx, type_srv,
}
use mathlib.Core.Option.{none, some}
use Chunks.{split255}

pub record Service : Type 0 where
  pub host : Bytes
  pub port : ℤ
  pub priority : ℤ
  pub weight : ℤ
  pub text : Bytes
  pub mail : Bool
  pub ttl : ℕ
  pub target_strip : ℤ
  pub group : Bytes
  pub key : Bytes

header : Bytes → ℕ → ℕ → Header
header owner rrtype ttl = record { owner = owner; rrtype = rrtype; ttl = ttl }

module _ (dns : Dns) where
  -- The rounds of the loop of `targetStrip`.
  strip_labels : Bytes → ℕ → ℕ → Bool → ℕ × Bool
  strip_labels name zero offset end = (offset, end)
  strip_labels name (suc n) offset end =
      let (offset', end') = dns.next_label name offset in strip_labels name n offset' end'

  -- The name with that many labels taken off, or the name itself where it has too few.
  unfoldable pub strip_target : Bytes → ℕ → Bytes
  unfolding strip_labels
  strip_target name n =
      let (offset, end) = strip_labels name n 0 false in drop (if end then 0 else offset) name

  -- dns.Fqdn(s.Host), and its leftmost labels taken off if s.TargetStrip > 0
  unfoldable pub target : Service → Bytes
  unfolding strip_target
  target s = strip (s.target_strip)
    where
      strip : ℤ → Bytes
      strip (pos (suc n)) = strip_target (dns.fqdn s.host) (suc n)
      strip (pos zero) = dns.fqdn s.host
      strip (negsuc n) = dns.fqdn s.host

  unfoldable pub new_srv : Service → Bytes → ℕ → Rr
  unfolding header
  new_srv s name weight =
      srv (header name type_srv s.ttl) (uint16 s.priority) weight (uint16 s.port) (target s)

  unfoldable pub new_mx : Service → Bytes → Rr
  unfolding header
  new_mx s name = mx (header name type_mx s.ttl) (uint16 s.priority) (target s)

  unfoldable pub new_cname : Service → Bytes → Bytes → Rr
  unfolding header
  new_cname s name host = cname (header name type_cname s.ttl) (dns.fqdn host)

  unfoldable pub new_ptr : Service → Bytes → Bytes → Rr
  unfolding header
  new_ptr s name host = ptr (header name type_ptr s.ttl) (dns.fqdn host)

  unfoldable pub new_ns : Service → Bytes → Rr
  unfolding header
  new_ns s name = ns (header name type_ns s.ttl) (target s)

  -- The DNS type of what the host field holds, with the address if it is one.
  unfoldable pub host_type : Service → ℕ × Bytes
  unfolding to4
  host_type s = elim (dns.parse_ip s.host) [
    | none ↦ (type_cname, [])
    | some ip ↦ elim (to4 ip) [ some four ↦ (type_a, four) | none ↦ (type_aaaa, ip) ]
  ]

unfoldable pub new_a : Service → Bytes → Bytes → Rr
unfolding header
new_a s name ip = a (header name type_a s.ttl) ip

unfoldable pub new_aaaa : Service → Bytes → Bytes → Rr
unfolding header
new_aaaa s name ip = aaaa (header name type_aaaa s.ttl) ip

unfoldable pub new_txt : Service → Bytes → Rr
unfolding header
new_txt s name = txt (header name type_txt s.ttl) (split255 s.text)
