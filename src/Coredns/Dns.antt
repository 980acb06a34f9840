-- ===== src/Coredns/Dns.antt =====
-- The names of github.com/miekg/dns, of CoreDNS and of package net that the plugin uses: resource
-- records and requests as data, the functions on names as a parameter.
use rdns_server.Base.{
  ℕ, ◌==◌, Bool, ◌&&◌, List, [], ◌∷◌, Option, Bytes, length, take, drop, same, if◌then◌else◌,
}
use rdns_server.Text.{to_lower}
use mathlib.Core.Option.{none, some}

-- dns.TypeA and its like; dns.TypeNone is 0.
abbrev pub type_a : ℕ
type_a = 1

abbrev pub type_ns : ℕ
type_ns = 2

abbrev pub type_cname : ℕ
type_cname = 5

abbrev pub type_soa : ℕ
type_soa = 6

abbrev pub type_ptr : ℕ
type_ptr = 12

abbrev pub type_mx : ℕ
type_mx = 15

abbrev pub type_txt : ℕ
type_txt = 16

abbrev pub type_aaaa : ℕ
type_aaaa = 28

abbrev pub type_srv : ℕ
type_srv = 33

-- dns.RR_Header, of class INET
pub record Header : Type 0 where
  pub owner : Bytes
  pub rrtype : ℕ
  pub ttl : ℕ

-- dns.RR; `other` is a record of a type that the plugin never builds.
pub data Rr : Type 0 where
  a : Header → Bytes → Rr
  aaaa : Header → Bytes → Rr
  cname : Header → Bytes → Rr
  txt : Header → List Bytes → Rr
  ptr : Header → Bytes → Rr
  ns : Header → Bytes → Rr
  mx : Header → ℕ → Bytes → Rr
  srv : Header → ℕ → ℕ → ℕ → Bytes → Rr
  soa : Header → Bytes → Bytes → ℕ → ℕ → ℕ → ℕ → ℕ → Rr
  other : Header → Bytes → Rr

-- What the plugin calls: functions of the two packages on names, and net.ParseIP.
pub record Dns : Type 0 where
  pub split_domain_name : Bytes → List Bytes
  pub fqdn : Bytes → Bytes
  -- dns.IsSubDomain(parent, child)
  pub is_sub_domain : Bytes → Bytes → Bool
  pub next_label : Bytes → ℕ → ℕ × Bool
  -- dnsutil.Join
  pub dns_join : List Bytes → Bytes
  -- dnsutil.DuplicateCNAME, on the target of its first argument
  pub duplicate_cname : Bytes → List Rr → Bool
  -- dns.Name(s).String()
  pub present : Bytes → Bytes
  -- the sixteen bytes of the address
  pub parse_ip : Bytes → Option Bytes

-- ip.To4(): an address behind the prefix ::ffff:0:0/96.
unfoldable pub to4 : Bytes → Option Bytes
to4 ip =
    if length ip == 4
    then some ip
    else if (length ip == 16)
        && same (take 12 ip) (0 ∷ 0 ∷ 0 ∷ 0 ∷ 0 ∷ 0 ∷ 0 ∷ 0 ∷ 0 ∷ 0 ∷ 255 ∷ 255 ∷ [])
    then some (drop 12 ip)
    else none

-- request.Request: the question that its message holds, and the cache of `Name`, empty if unset.
pub record Request : Type 0 where
  pub question : Bytes
  pub qtype : ℕ
  pub cached : Bytes

module _ (dns : Dns) where
  -- state.QName()
  unfoldable pub qname : Request → Bytes
  qname state = dns.present state.question

  -- state.Name()
  unfoldable pub name : Request → Bytes
  name state = if same state.cached [] then to_lower (dns.present state.question) else state.cached

  -- The request after a call of state.Name(), which fills the cache.
  unfoldable pub named : Request → Request
  unfolding name
  named state = record state { cached = name state }

  -- state.NewWithQuestion(name, type)
  unfoldable pub new_with_question : Bytes → ℕ → Request
  new_with_question host typ = record { question = dns.fqdn host; qtype = typ; cached = [] }

-- state.Clear()
unfoldable pub clear : Request → Request
clear state = record state { cached = [] }
