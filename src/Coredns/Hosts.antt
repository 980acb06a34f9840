-- ===== src/Coredns/Hosts.antt =====
-- `Host` and SplitHostPort of coredns/plugin/normalize.go.
pub mod Reverse
use rdns_server.Base.{
  ℕ, zero, suc, ◌+◌, ◌-◌, ◌/◌, ◌%◌, ◌==◌, ◌≡◌, refl, Bool, true, false, not, List, [], ◌∷◌, Option,
  none, some, Bytes, codes, length, take, drop, same, ltb, if◌then◌else◌, Result, ok, err, ◌>>=◌,
}
use rdns_server.Coredns.Dns.{Dns}
use rdns_server.Coredns.Zones.{normalize}

-- A network in the notation of net.ParseCIDR: the name that dns.ReverseAddr makes of the address, the
-- two numbers of its mask, and the length of its address.
pub record Network : Type 0 where
  pub reverse_name : Option Bytes
  pub ones : ℕ
  pub bits : ℕ
  pub ip_length : ℕ

-- What the functions call: the rest of parse.Transport, strconv.Itoa after strconv.Atoi, the flag of
-- dns.IsDomainName, and net.ParseCIDR.
pub record Parsers : Type 0 where
  pub after_transport : Bytes → Bytes
  pub port_of : Bytes → Option Bytes
  pub is_domain_name : Bytes → Bool
  pub parse_cidr : Bytes → Option Network

pub record HostPort : Type 0 where
  pub host : Bytes
  pub port : Bytes
  pub network : Option Network

-- What is before the last colon of a string that has one, and what is behind it.
unfoldable pub at_last_colon : Bytes → Option (Bytes × Bytes)
at_last_colon [] = none
at_last_colon (x ∷ s) = elim (at_last_colon s) [
  | some (p, q) ↦ some (x ∷ p, q)
  | none ↦ if x == b':' then some ([], s) else none
]

abbrev with_port : Bytes → Bytes → Option Bytes → Bytes × Bytes
with_port s p none = (s, [])
with_port s p (some port) = (p, port)

-- The host and the port. Nothing behind the last colon is an error, and so is the empty string, in
-- which the place of the colon, -1, is the length less one.
unfoldable pub cut_port : Parsers → Bytes → Result Bytes (Bytes × Bytes)
unfolding at_last_colon
cut_port parsers [] = err (codes "expecting data after last colon")
cut_port parsers (x ∷ s) = elim (at_last_colon (x ∷ s)) [
  | none ↦ ok (x ∷ s, [])
  | some (p, q) ↦ elim (same q []) [
    | true ↦ err (codes "expecting data after last colon")
    | false ↦ ok (with_port (x ∷ s) p (parsers.port_of q))
  ]
]

-- The number of labels that are taken off the name of an address.
unfoldable pub dropped_labels : ℕ → ℕ → ℕ → ℕ
dropped_labels ones bits size_digit = ((bits - ones) + (bits - ones) % size_digit) / size_digit

unfoldable pub size_digit : ℕ → ℕ
size_digit ip_length = if ip_length == 16 then 4 else 8

-- The loop over the labels, from this offset on; it ends with the last label.
unfoldable pub label_offset : Dns → Bytes → ℕ → ℕ → ℕ
label_offset dns name zero offset = offset
label_offset dns name (suc n) offset =
    let next = dns.next_label name offset in
    let rest = label_offset dns name n next.0 in if next.1 then next.0 else rest

-- A network is replaced by its reverse zone.
unfoldable pub reverse_zone : Dns → Bytes → Option Network → Bytes
unfolding dropped_labels size_digit label_offset
reverse_zone dns host none = host
reverse_zone dns host (some n) = elim n.reverse_name [
  | none ↦ host
  | some name ↦
      drop (label_offset dns name (dropped_labels n.ones n.bits (size_digit n.ip_length)) 0) name
]

-- The checks of the host behind the port.
unfoldable pub checked_host : Dns → Parsers → Bytes → Bytes → Result Bytes HostPort
unfolding reverse_zone
checked_host dns parsers host port =
    if ltb 255 (length host)
    then err (codes "specified zone is too long")
    else if not (parsers.is_domain_name host)
    then err (codes "zone is not a valid domain name")
    else ok (record {
      host = reverse_zone dns host (parsers.parse_cidr host);
      port = port;
      network = parsers.parse_cidr host;
    })

unfoldable pub split_host_port : Dns → Parsers → Bytes → Result Bytes HostPort
unfolding cut_port checked_host
split_host_port dns parsers s = cut_port parsers s >>= λ x. checked_host dns parsers x.0 x.1

-- The host that SplitHostPort returns, which is empty with an error.
host_or_empty : Result Bytes HostPort → Bytes
host_or_empty (ok x) = x.host
host_or_empty (err e) = []

-- Host.Normalize, with the error dropped.
unfoldable pub normalize_host : Dns → Parsers → Bytes → Bytes
unfolding host_or_empty split_host_port normalize
normalize_host dns parsers s =
    normalize dns (host_or_empty (split_host_port dns parsers (parsers.after_transport s)))
