-- ===== src/Coredns/Etcd.antt =====
-- coredns/plugin/rdns/etcd.go and xfr.go: the service backend over etcd.
pub mod Answers
use rdns_server.Base.{
  ℕ, zero, suc, ◌+◌, ◌-◌, ◌%◌, ◌^◌, Bool, true, false, not, ◌&&◌, ◌||◌, List, [], ◌∷◌, ◌++◌, Bytes,
  codes, length, drop, same, ltb, leb, ◌==◌, if◌then◌else◌, Result, ok, err, ◌>>=◌,
}
use rdns_server.Base.Int.{ℤ, pos, negsuc, eqb_ℤ}
use rdns_server.Text.{split, join, has_prefix, has_suffix, trim_suffix, dot, slash}
use rdns_server.Coredns.Dns.{Dns, Request, Rr, name, type_a, type_txt}
use rdns_server.Coredns.Msg.{Service}
use rdns_server.Coredns.Msg.Path.{path, path_with_wildcard, is_wildcard}
use rdns_server.Coredns.Msg.Group.{group}
use rdns_server.Coredns.Backend.{Error, key_not_found, client, bad_value, ServiceBackend}

-- mvccpb.KeyValue
pub record Kv : Type 0 where
  pub key : Bytes
  pub value : Bytes
  pub lease : ℕ

-- The ETCD struct, and what its methods call: the etcd client's Get with and without WithPrefix,
-- json.Unmarshal into a Service, the upstream's Lookup, Fall.Through and the Unix time.
pub record Etcd : Type 0 where
  pub zones : List Bytes
  pub path_prefix : Bytes
  pub wildcard_bound : ℕ
  pub client_get : Bytes → Result Error (List Kv)
  pub client_get_prefix : Bytes → Result Error (List Kv)
  pub unmarshal : Bytes → Result Bytes Service
  pub upstream : Request → Bytes → ℕ → Result Error (List Rr)
  pub falls_through : Bytes → Bool
  pub unix_time : ℕ

abbrev pub default_priority : ℤ
default_priority = pos 10

abbrev pub default_ttl : ℕ
default_ttl = 300

-- `*a == *b` on services
unfoldable pub same_service : Service → Service → Bool
same_service s t =
    same s.host t.host
    && eqb_ℤ s.port t.port
    && eqb_ℤ s.priority t.priority
    && eqb_ℤ s.weight t.weight
    && same s.text t.text
    && same_bool s.mail t.mail
    && (s.ttl == t.ttl)
    && eqb_ℤ s.target_strip t.target_strip
    && same s.group t.group
    && same s.key t.key
  where
    same_bool : Bool → Bool → Bool
    same_bool true b = b
    same_bool false b = not b

seen : Service → List Service → Bool
seen s [] = false
seen s (t ∷ ts) = same_service s t || seen s ts

-- uint32(kv.Lease) and the TTL of the service.
unfoldable pub ttl : Kv → Service → ℕ
ttl kv s =
    let etcd_ttl = kv.lease % 2 ^ 32 in
    if (etcd_ttl == 0) && (s.ttl == 0)
    then default_ttl
    else if etcd_ttl == 0
    then s.ttl
    else if s.ttl == 0
    then etcd_ttl
    else if ltb etcd_ttl s.ttl
    then etcd_ttl
    else s.ttl

unfoldable pub should_include : Service → ℕ → Bool
should_include s qtype = if qtype == type_txt then not (same s.text []) else not (same s.host [])

-- The loop over the parts of a name with wildcards, beside the parts of a key.
unfoldable pub key_matches : List Bytes → List Bytes → Bool
key_matches [] ks = true
key_matches (n ∷ ns) [] = false
key_matches (n ∷ ns) (k ∷ ks) = (is_wildcard n || same k n) && key_matches ns ks

last_segment : List Bytes → Bytes
last_segment [] = []
last_segment (s ∷ []) = s
last_segment (s ∷ t ∷ ss) = last_segment (t ∷ ss)

is_digit : ℕ → Bool
is_digit c = leb b'0' c && leb c b'9'

all_digits : Bytes → Bool
all_digits [] = true
all_digits (c ∷ s) = is_digit c && all_digits s

-- `\d{1,3}`
is_octet : Bytes → Bool
is_octet s = leb 1 (length s) && leb (length s) 3 && all_digits s

-- `^\d{1,3}_\d{1,3}_\d{1,3}_\d{1,3}$`
unfoldable pub is_address_label : Bytes → Bool
unfolding is_octet all_digits is_digit
is_address_label s = four (split b'_' s)
  where
    four : List Bytes → Bool
    four (p ∷ q ∷ r ∷ t ∷ []) = is_octet p && is_octet q && is_octet r && is_octet t
    four _ = false

-- The service of a key and its value, as the loop of `loopNodes` completes it.
unfoldable pub complete : Kv → Service → Service
unfolding ttl
complete n s = record s {
  ttl = ttl n s;
  priority = if eqb_ℤ s.priority (pos 0) then default_priority else s.priority;
}

-- A round of `loopNodes` goes on with the next key, returns an error, or has a new service.
pub data Visit : Type 0 where
  skip : Visit
  fail : Error → Visit
  serve : Service → Visit

-- The rest of a round, and of the loop.
unfoldable pub follow :
    Kv
    → ℕ
    → List Service
    → Visit
    → (List Service → Result Error (List Service))
    → Result Error (List Service)
unfolding complete
follow n qtype bx skip rest = rest bx
follow n qtype bx (fail x) rest = err x
follow n qtype bx (serve s) rest = rest (s ∷ bx) >>= λ sx.
    ok (if should_include (complete n s) qtype then complete n s ∷ sx else sx)

module _ (e : Etcd) where
  -- The body of the loop of `filterKvs`: is this key one level below the name?
  unfoldable pub keeps_key : List Bytes → Kv → Bool
  unfolding last_segment is_address_label
  keeps_key segments v =
      let parts = length (split slash v.key) in
      let s = last_segment segments in
      if not (same s (codes "*"))
        && is_address_label s
        && (e.wildcard_bound == (length segments + 253) % 256)
      then false
      else (not (same s (codes "*")) && (parts == length segments + 1))
        || (same s (codes "*") && (parts == length segments))

  keep_keys : List Bytes → List Kv → List Kv
  keep_keys segments [] = []
  keep_keys segments (v ∷ kvs) =
      if keeps_key segments v then v ∷ keep_keys segments kvs else keep_keys segments kvs

  unfoldable pub filter_kvs : List Kv → List Bytes → ℕ → List Kv
  unfolding keep_keys
  filter_kvs kvs segments qtype = if qtype == type_a then keep_keys segments kvs else kvs

  unfoldable pub get : Bytes → Bool → Result Error (List Kv)
  get path true =
      let below = if has_suffix path (codes "/") then path else path ++ codes "/" in
      do
        kvs ← e.client_get_prefix below
        if leb 1 (length kvs) then ok kvs else do
          exact ← e.client_get (trim_suffix below (codes "/"))
          if leb 1 (length exact) then ok exact else err key_not_found
  get path false = do
    kvs ← e.client_get path
    if leb 1 (length kvs) then ok kvs else err key_not_found

  -- What one round of the loop of `loopNodes` does with a key; `bx` holds the services seen so far.
  unfoldable pub visit : List Service → List Bytes → Bool → Kv → Visit
  unfolding seen same_service
  visit bx parts star n =
      if star && not (key_matches parts (split slash n.key))
      then skip
      else elim (e.unmarshal n.value) [
        | err m ↦ fail (bad_value n.key m)
        | ok s ↦
            if seen (record s { key = n.key }) bx then skip else serve (record s { key = n.key })
      ]

  unfoldable pub loop_nodes :
      List Service → List Kv → List Bytes → Bool → ℕ → Result Error (List Service)
  unfolding visit follow complete
  loop_nodes bx [] parts star qtype = ok []
  loop_nodes bx (n ∷ kvs) parts star qtype =
      follow n qtype bx (visit bx parts star n) (λ bx'. loop_nodes bx' kvs parts star qtype)

module _ (dns : Dns) (e : Etcd) where
  unfoldable pub path_exist : List Bytes → Bool
  path_exist ss =
      elim (e.client_get_prefix (path_with_wildcard dns (join dot ss) e.path_prefix).0) [
        | ok kvs ↦ leb 1 (length kvs)
        | err x ↦ false
      ]

  -- A name with more labels than the bound that has no key is looked up as a wildcard name.
  -- `int8(len(temp))` is below 128 where the comparison holds.
  unfoldable pub bounded_name : Bytes → ℕ → Bytes
  unfolding path_exist
  bounded_name nm qtype =
      let labels = dns.split_domain_name nm in
      let count = length labels % 256 in
      if ltb 0 e.wildcard_bound
        && not (qtype == type_txt)
        && ltb count 128
        && ltb e.wildcard_bound count
        && not (path_exist labels)
      then codes "*." ++ join dot (drop (count - e.wildcard_bound) labels)
      else nm

  in_zone_apex : Bytes → List Bytes → Bool
  in_zone_apex nm [] = false
  in_zone_apex nm (z ∷ zs) = has_prefix nm z || in_zone_apex nm zs

  -- `Records` behind the choice of a name.
  unfoldable pub records_of : Bytes → ℕ → Bool → Result Error (List Service)
  unfolding get filter_kvs loop_nodes
  records_of nm qtype exact =
      let (key, star) = path_with_wildcard dns nm e.path_prefix in
      let segments = split slash (path dns nm e.path_prefix) in
      do
        kvs ← get e key (not exact)
        loop_nodes e [] (filter_kvs e kvs segments qtype) segments star qtype

  unfoldable pub records : Request → Bool → Result Error (List Service)
  unfolding in_zone_apex bounded_name records_of
  records state exact =
      if in_zone_apex (name dns state) e.zones
      then ok []
      else records_of (bounded_name (name dns state) state.qtype) state.qtype exact

  unfoldable pub services : Request → Bool → Result Error (List Service)
  unfolding records group
  services state exact = do sx ← records state exact; ok (group sx)

  is_name_error : Error → Bool
  is_name_error key_not_found = true
  is_name_error _ = false

  -- ETCD as a ServiceBackend, with the methods of xfr.go.
  unfoldable pub backend : ServiceBackend
  unfolding services is_name_error
  backend = record {
    services = services;
    reverse = services;
    lookup = e.upstream;
    is_name_error = is_name_error;
    serial = λ state. e.unix_time % 2 ^ 32;
    min_ttl = λ state. 30;
  }
