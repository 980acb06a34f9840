-- ===== src/Coredns/Examples.antt =====
-- Runs of the DNS plugin: a toy resolver library, an etcd with a few keys, and one instance of each theorem.
use mathlib.Core.List.{flatten}
use rdns_server.Base.{
  ℕ, ◌%◌, ◌^◌, ◌≤◌, ◌<◌, ◌≡◌, ◌≢◌, refl, ◌⊎◌, true, false, List, [], ◌∷◌, ◌++◌, reverse, none, some,
  Bytes, codes, same, if◌then◌else◌, ok, err, All, arith, ◌-◌, ◌*◌, ◌==◌, ◌||◌, leb, inl,
}
use rdns_server.Base.Int.{ℤ, pos}
use rdns_server.Text.{
  split, join, has_prefix, has_suffix, join_path, trim_suffix, to_lower, count, slash, dot,
}
use rdns_server.Text.Clean.{IsSegment}
use rdns_server.Coredns.Hosts.{dropped_labels}
use rdns_server.Coredns.Hosts.Reverse.{dropped_labels_lem}
use rdns_server.Coredns.Dns.{Dns, Request, a, name, named, type_a, type_ns, clear}
use rdns_server.Coredns.Msg.{Service, new_a}
use rdns_server.Coredns.Msg.Path.{
  path, domain, path_with_wildcard, is_wildcard, root, IsPlain, domain-path, path_with_wildcard_lem,
}
use rdns_server.Coredns.Msg.Group.{group}
use rdns_server.Coredns.Msg.Group.Shallowest.{grouped, group-grouped}
use rdns_server.Coredns.Msg.Chunks.{split255, Chunked, split255_lem}
use rdns_server.Coredns.Zones.{matches, OneOf, Longest, matches_lem}
use rdns_server.Coredns.Backend.{key_not_found}
use rdns_server.Coredns.Etcd.{
  Kv, Etcd, ttl, default_ttl, services, backend, should_include, keeps_key,
}
use rdns_server.Coredns.Etcd.Answers.{IsAnswer, ttl_lem, services-IsAnswer}
use rdns_server.Coredns.Lookup.{a_records, addresses_step}
use rdns_server.Coredns.Lookup.Chase.{a_records_step}
use rdns_server.Coredns.Lookup.Extra.{Float64}
use rdns_server.Coredns.Handler.{Message, serve_dns, find, next_or_failure}
use rdns_server.Coredns.Handler.Replies.{Replied, serve_dns_lem, ns_reply_question}

abbrev pub dotted : Bytes → Bytes
dotted s = if has_suffix s (codes ".") then s else s ++ codes "."

abbrev pub address : Bytes
address = 10 ∷ 0 ∷ 0 ∷ 7 ∷ []

abbrev pub zone : Bytes
zone = codes "lb.cloud"

abbrev pub host : Bytes
host = codes "abc.lb.cloud"

-- Names are written without the dot at their end.
abbrev pub toy : Dns
toy = record {
  split_domain_name = split dot;
  fqdn = λ s. s;
  is_sub_domain = λ parent child. has_suffix child parent;
  next_label = λ s offset. (offset, true);
  dns_join = join dot;
  duplicate_cname = λ target rs. false;
  present = λ s. s;
  parse_ip = λ s. if same s (codes "10.0.0.7") then some address else none;
}

abbrev no_float : Float64
no_float = record { F = ℤ; of_int = λ n. n; mul = λ x y. x; div = λ x y. x; floor16 = λ x. 0 }

abbrev pub service_at : Bytes → Service
service_at h = record {
  host = h;
  port = pos 0;
  priority = pos 0;
  weight = pos 0;
  text = [];
  mail = false;
  ttl = 0;
  target_strip = pos 0;
  group = [];
  key = [];
}

abbrev pub kv_of : Bytes → Kv
kv_of k = record { key = k; value = codes "10.0.0.7"; lease = 60 }

abbrev pub stored : Bytes
stored = codes "/rdnsv3/cloud/lb/abc/10_0_0_7"

-- One key, whose value is the host itself.
abbrev pub store : Etcd
store = record {
  zones = zone ∷ [];
  path_prefix = codes "rdnsv3";
  wildcard_bound = 0;
  client_get = λ k. ok (if same k stored then kv_of stored ∷ [] else []);
  client_get_prefix = λ k. ok (if has_prefix stored k then kv_of stored ∷ [] else []);
  unmarshal = λ v. ok (service_at v);
  upstream = λ state h t. err key_not_found;
  falls_through = λ h. false;
  unix_time = 1600000000;
}

abbrev asked : Bytes → ℕ → Request
asked h t = record { question = h; qtype = t; cached = [] }

abbrev found_service : Service
found_service = record (service_at (codes "10.0.0.7")) { key = stored; ttl = 60; priority = pos 10 }

services_run : services toy store (asked host type_a) false ≡ ok (found_service ∷ [])
unfolding services split path_with_wildcard path join_path has_prefix has_suffix same group to_lower
    trim_suffix should_include count keeps_key name
services_run = refl

services-IsAnswer_example : All (IsAnswer type_a) (found_service ∷ [])
services-IsAnswer_example =
    services-IsAnswer toy store (asked host type_a) false (found_service ∷ []) services_run

a_records_step_example :
    a_records toy (backend toy store) zone (asked host type_a) []
    ≡ addresses_step toy
        (backend toy store)
        type_a
        new_a
        (a_records toy (backend toy store) zone)
        zone
        (asked host type_a)
        []
a_records_step_example = a_records_step toy (backend toy store) zone (asked host type_a) []

a_records_run :
    a_records toy (backend toy store) zone (asked host type_a) []
    ≡ ok (a (record { owner = host; rrtype = type_a; ttl = 60 }) address ∷ [])
unfolding a_records backend same to_lower has_prefix has_suffix path_with_wildcard join_path
    keeps_key path should_include count
a_records_run = refl

split255_lem_example :
    (flatten (split255 (codes "text")) ≡ codes "text") × Chunked (split255 (codes "text"))
split255_lem_example = split255_lem (codes "text")

segment :
    (s : Bytes) → s ≢ [] → All (λ c. c ≢ slash) s → s ≢ codes "." → s ≢ codes ".." → IsSegment s
segment s f l d u = record { filled = f; flat = l; not_dot = d; not_up = u }

abc-IsSegment : IsSegment (codes "abc")
abc-IsSegment = segment _ (λ e. cc) (ground arith) (λ e. cc) (λ e. cc)

lb-IsSegment : IsSegment (codes "lb")
lb-IsSegment = segment _ (λ e. cc) (ground arith) (λ e. cc) (λ e. cc)

cloud-IsSegment : IsSegment (codes "cloud")
cloud-IsSegment = segment _ (λ e. cc) (ground arith) (λ e. cc) (λ e. cc)

prefix-IsSegment : IsSegment (codes "rdnsv3")
prefix-IsSegment = segment _ (λ e. cc) (ground arith) (λ e. cc) (λ e. cc)

labels-IsSegment : All IsSegment (codes "abc" ∷ codes "lb" ∷ codes "cloud" ∷ [])
labels-IsSegment = (abc-IsSegment, (lb-IsSegment, (cloud-IsSegment, tt)))

domain-path_example : domain toy (path toy host (codes "rdnsv3")) ≡ some host
unfolding join split
domain-path_example =
    domain-path toy (codes "rdnsv3") prefix-IsSegment host (λ e. cc) labels-IsSegment

path_with_wildcard_lem_example :
    (All IsPlain (reverse (split dot (codes "a.*.cloud")))
      × (path_with_wildcard toy (codes "a.*.cloud") (codes "rdnsv3")
          ≡ (path toy (codes "a.*.cloud") (codes "rdnsv3"), false)))
    ⊎ ((ks : List Bytes) × (w : Bytes) × (rest : List Bytes) × (reverse
            (split dot (codes "a.*.cloud"))
          ≡ ks ++ w ∷ rest)
        × All IsPlain ks
        × (is_wildcard w ≡ true)
        × (path_with_wildcard toy (codes "a.*.cloud") (codes "rdnsv3")
            ≡ (join_path (root (codes "rdnsv3") ∷ ks), true)))
path_with_wildcard_lem_example = path_with_wildcard_lem toy (codes "a.*.cloud") (codes "rdnsv3")

abbrev zones : List Bytes
zones = codes "cloud" ∷ zone ∷ []

matches_run : matches toy zones host ≡ zone
unfolding matches has_suffix
matches_run = refl

matches_lem_example :
    ((matches toy zones host ≡ [])
      ⊎ (OneOf toy (matches toy zones host) zones
          × (has_suffix host (matches toy zones host) ≡ true)))
    × Longest toy host (matches toy zones host) zones
matches_lem_example = matches_lem toy zones host

ttl_lem_example :
    (0 < ttl (kv_of stored) found_service)
    × (((kv_of stored).lease % 2 ^ 32 ≡ 0)
        ⊎ (ttl (kv_of stored) found_service ≤ (kv_of stored).lease % 2 ^ 32))
    × ((found_service.ttl ≡ 0) ⊎ (ttl (kv_of stored) found_service ≤ found_service.ttl))
    × (((ttl (kv_of stored) found_service ≡ default_ttl)
          × ((kv_of stored).lease % 2 ^ 32 ≡ 0)
          × (found_service.ttl ≡ 0))
        ⊎ (ttl (kv_of stored) found_service ≡ (kv_of stored).lease % 2 ^ 32)
        ⊎ (ttl (kv_of stored) found_service ≡ found_service.ttl))
ttl_lem_example = ttl_lem (kv_of stored) found_service

abbrev two : List Service
two =
    record found_service { group = codes "g"; key = codes "/a/b" }
    ∷ record found_service { group = codes "h"; key = codes "/a/b/c" }
    ∷ []

group-grouped_example : group two ≡ grouped two
unfolding same
group-grouped_example = group-grouped two (refl, (refl, tt))

serve_dns_lem_example :
    ((matches toy store.zones (name toy (named toy (asked host type_a))) ≡ [])
      × (serve_dns toy store no_float none (asked host type_a)
          ≡ next_or_failure none (asked host type_a)))
    ⊎ ((matches toy store.zones (name toy (named toy (asked host type_a))) ≢ [])
        × Replied toy
            (backend toy store)
            no_float
            (record (named toy (asked host type_a)) {
              question =
                  (find toy
                    (backend toy store)
                    no_float
                    (matches toy store.zones (name toy (named toy (asked host type_a))))
                    (named toy (asked host type_a))).question;
            })
            false
            none
            (find toy
              (backend toy store)
              no_float
              (matches toy store.zones (name toy (named toy (asked host type_a))))
              (named toy (asked host type_a))).result
            (serve_dns toy store no_float none (asked host type_a)))
serve_dns_lem_example = serve_dns_lem toy store no_float none (asked host type_a)

no_name_servers :
    (backend toy store).services
      (record (clear (named toy (asked zone type_ns))) {
        question =
            codes "ns.dns." ++ matches toy store.zones (name toy (named toy (asked zone type_ns)));
      })
      false
    ≡ err key_not_found
unfolding backend has_prefix name same clear to_lower has_suffix path_with_wildcard join_path
    matches named trim_suffix
no_name_servers = refl

in_zone :
    name toy (named toy (asked zone type_ns))
    ≡ matches toy store.zones (name toy (named toy (asked zone type_ns)))
unfolding matches named has_suffix same to_lower
in_zone = refl

has_zone : matches toy store.zones (name toy (named toy (asked zone type_ns))) ≢ []
unfolding matches named name has_suffix same to_lower
has_zone = λ e. cc

ns_reply_question_example :
    (m : Message) × ((serve_dns toy store no_float none (asked zone type_ns)).written ≡ some m)
    × (m.question
        ≡ codes "ns.dns." ++ matches toy store.zones (name toy (named toy (asked zone type_ns))))
ns_reply_question_example =
    ns_reply_question toy store no_float none (asked zone type_ns) key_not_found refl in_zone
      has_zone refl no_name_servers

dropped_labels_lem_example :
    leb (32 - 23) (dropped_labels 23 32 8 * 8)
    ≡ (((32 - 23) % 8 == 0) || leb 8 (2 * ((32 - 23) % 8)))
dropped_labels_lem_example = dropped_labels_lem 23 32 8 (inl refl)
