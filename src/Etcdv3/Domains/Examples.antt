-- ===== src/Etcdv3/Domains/Examples.antt =====
-- A domain's hosts are read back, over a table.
use rdns_server.Base.{
  ◌<◌, ◌≡◌, refl, ap, false, [], ◌∷◌, reverse, none, some, Bytes, codes, drop, ok, arith,
}
use mathlib.Core.List.{reverse-append, reverse-reverse}
use rdns_server.Base.Int.{pos}
use rdns_server.Text.{contains, has_prefix, count, slash, dot}
use rdns_server.Model.{Domain, DomainOptions, seconds_left}
use rdns_server.Etcdv3.Names.{get_path, format_value}
use rdns_server.Etcdv3.Client.{Config}
use rdns_server.Etcdv3.Sync.{host_key}
use rdns_server.Etcdv3.Domains.{get}
use rdns_server.Etcdv3.Domains.Stored.{IsDotted, Decodes, stored, get-stored}
use rdns_server.Etcdv3.Examples.{Entries, table, below, config, base_path, one, two}

-- What is between the two ends of a formatted value.
abbrev between : Bytes → Bytes
between v = reverse (drop 2 (reverse (drop 9 v)))

abbrev pub decoding : Config
decoding = record config { unmarshal = λ v. some (record { host = between v; text = none }) }

pub decodes : Decodes decoding
unfolding format_value
decodes h plain =
    rw (reverse-append h (codes "\"}"))
      (ap (λ x. some (record { host = x; text = none })) (reverse-reverse h))

abbrev pub asked : DomainOptions
asked = record {
  fqdn = codes "abc.lb.cloud";
  hosts = [];
  sub_domain = [];
  text = [];
  cname = [];
  normal = false;
}

abbrev pub domain : Domain
domain = record {
  fqdn = codes "abc.lb.cloud";
  hosts = two ∷ [];
  sub_domain = [];
  text = [];
  cname = [];
  expiration = seconds_left (pos 60);
}

pub two-IsDotted : IsDotted two
unfolding contains
two-IsDotted = (refl, ground arith, ground arith)

pub rooted : 0 < count decoding.prefix slash
unfolding count
rooted = omega arith

-- The store as setRecord leaves it for two hosts.
abbrev stored_pairs : Entries
stored_pairs =
    (base_path, (format_value [], 5))
    ∷ (host_key base_path one, (format_value one, 5))
    ∷ (host_key base_path two, (format_value two, 5))
    ∷ []

pub one-IsDotted : IsDotted one
unfolding contains
one-IsDotted = (refl, ground arith, ground arith)

stored_read :
    table.get_prefix (get_path decoding.prefix asked.fqdn) stored_pairs
    ≡ (ok (stored (get_path decoding.prefix asked.fqdn) 5 (one ∷ two ∷ [])), stored_pairs)
unfolding below has_prefix get_path rdns_server.Text.join rdns_server.Text.split host_key
stored_read = refl

get-stored_example :
    get table decoding asked stored_pairs
    ≡ (ok (record domain { hosts = one ∷ two ∷ [] }), stored_pairs)
get-stored_example =
    get-stored table decoding decodes asked 5 (pos 60) (one ∷ two ∷ []) stored_pairs stored_pairs
      stored_pairs (λ m k. refl) rooted (one-IsDotted, (two-IsDotted, tt)) stored_read refl
