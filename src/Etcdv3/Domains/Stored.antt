-- ===== src/Etcdv3/Domains/Stored.antt =====
-- What Get of backend/etcdv3/etcdv3.go reads back of the keys and values that setRecord and syncRecords
-- write for a domain.
use rdns_server.Base.{
  ℕ, ◌<◌, ◌≡◌, ◌≢◌, refl, true, false, List, [], ◌∷◌, map, none, some, Bytes, codes, same,
  same_refl, All, ok, arith,
}
use rdns_server.Base.Int.{ℤ}
use rdns_server.Text.{contains, has_prefix, count, replace, slash}
use rdns_server.Text.RoundTrip.{Lacks}
use rdns_server.Coredns.Etcd.{Kv}
use rdns_server.Model.{DomainOptions, seconds_left}
use rdns_server.Etcdv3.Names.{get_path, convert_to_path, find_sub_prefix, format_key, format_value}
use rdns_server.Etcdv3.Names.Paths.{below_base, count-append}
use rdns_server.Etcdv3.Client.{Client, Config, mem}
use rdns_server.Etcdv3.Client.Laws.{VisitsAll}
use rdns_server.Etcdv3.Sync.{host_key}
use rdns_server.Etcdv3.Leases.{lookup_keys, record_keys, is_record, wrapped}
use rdns_server.Etcdv3.Keys.{is_sub, add_host, fields_of, split_keys, sub_hosts}
use rdns_server.Etcdv3.Domains.{get}

-- A text that JSON writes as it is: printable ASCII, with no double quote and no backslash.
abbrev pub IsPlain : Bytes → Type 0
IsPlain = All (λ x. (31 < x) × (x < 127) × (x ≢ 34) × (x ≢ 92))

-- A host with a dot and no slash, as an IPv4 address is.
abbrev pub IsDotted : Bytes → Type 0
IsDotted h = (contains h (codes ".") ≡ true) × Lacks slash h × IsPlain h

-- JSON decodes the values that formatValue makes of such texts.
abbrev pub Decodes : Config → Type 0
Decodes b =
    (h : Bytes) → IsPlain h → b.unmarshal (format_value h) ≡ some (record { host = h; text = none })

-- The pair of a host, and the pairs of a domain that has these hosts and no sub-domain.
abbrev pub stored_host : Bytes → ℕ → Bytes → Kv
stored_host path lease h = record { key = host_key path h; value = format_value h; lease = lease }

abbrev pub stored : Bytes → ℕ → List Bytes → List Kv
stored path lease hosts =
    record { key = path; value = format_value []; lease = lease }
    ∷ map (stored_host path lease) hosts

pub contains-format_key :
    (h : Bytes) → contains h (codes ".") ≡ true → contains (format_key h) (codes "_") ≡ true
unfolding contains has_prefix format_key replace
contains-format_key [] e = absurd cc
contains-format_key (x ∷ h) e = ground (arith, contains-format_key h)

pub format_key-Lacks : (h : Bytes) → Lacks slash h → Lacks slash (format_key h)
unfolding format_key replace
format_key-Lacks [] l = tt
format_key-Lacks (x ∷ h) (lx, l) = (ground arith, format_key-Lacks h l)

pub dotted-ne : (h : Bytes) → contains h (codes ".") ≡ true → same h [] ≡ false
unfolding contains has_prefix same
dotted-ne [] e = absurd cc
dotted-ne (x ∷ h) e = refl

pub no_members : (ks : List Bytes) → ((k : Bytes) → mem k ks ≡ false) → ks ≡ []
unfolding mem
no_members [] h = refl
no_members (k ∷ ks) h = absurd (never (rw (same_refl k) at (h k)))
  where
    never : true ≡ false → ⊥
    never e = cc

module _ (c : Client) (b : Config) (decodes : Decodes b) where
  pub is_record-stored :
      (k h : Bytes) (lease : ℕ)
      → IsPlain h
      → is_record c b (record { key = k; value = format_value h; lease = lease }) ≡ true
  unfolding is_record format_value
  is_record-stored k h lease plain = rw (decodes h plain) refl

  record_keys-stored :
      (path : Bytes) (lease : ℕ) (hosts : List Bytes)
      → All IsDotted hosts
      → record_keys c b (map (stored_host path lease) hosts) ≡ map (stored_host path lease) hosts
  unfolding record_keys
  record_keys-stored path lease [] _ = refl
  record_keys-stored path lease (h ∷ hosts) (dotted, rest) =
      rw
        (
          is_record-stored (host_key path h) h lease dotted.2,
          record_keys-stored path lease hosts rest,
        )
        refl

  pub is_sub-host :
      (h : Bytes) → IsDotted h → is_sub (format_key h) (record { host = h; text = none }) ≡ false
  unfolding is_sub
  is_sub-host h (dotted, _, _) = rw (contains-format_key h dotted) (ground arith)

  -- The loop over the keys of hosts.
  split_keys-hosts :
      (path : Bytes) (lease : ℕ) (hosts : List Bytes) (s : c.State)
      → 1 < count path slash
      → All IsDotted hosts
      → split_keys c b true path (map (stored_host path lease) hosts) s
        ≡ (ok (record { subs = []; hosts = hosts }), s)
  unfolding split_keys fields_of host_key add_host
  split_keys-hosts path lease [] s deep _ = refl
  split_keys-hosts path lease (h ∷ hosts) s deep (dotted, rest) =
      rw
        (
          below_base path (format_key h) (format_key-Lacks h dotted.1) deep,
          decodes h dotted.2,
          split_keys-hosts path lease hosts s deep rest,
          is_sub-host h dotted,
          dotted-ne h dotted.0,
        )
        refl

  lookup_keys-stored :
      (path : Bytes) (lease : ℕ) (hosts : List Bytes) (s t : c.State)
      → All IsDotted hosts
      → c.get_prefix path s ≡ (ok (stored path lease hosts), t)
      → lookup_keys c b path s ≡ (ok (stored path lease hosts), t)
  unfolding lookup_keys wrapped record_keys
  lookup_keys-stored path lease hosts s t dotted h =
      rw (h, is_record-stored path [] lease tt, record_keys-stored path lease hosts dotted) refl

  split_keys-stored :
      (path : Bytes) (lease : ℕ) (hosts : List Bytes) (s : c.State)
      → 1 < count path slash
      → All IsDotted hosts
      → split_keys c b true path (stored path lease hosts) s
        ≡ (ok (record { subs = []; hosts = hosts }), s)
  unfolding split_keys fields_of find_sub_prefix is_sub same
  split_keys-stored path lease hosts s deep dotted =
      rw (same_refl path, decodes [] tt, split_keys-hosts path lease hosts s deep dotted) refl

  -- Get reads a domain without sub-domains back: where the store has, below its path, the pair that
  -- setRecord puts first and those that syncRecords puts for its hosts, Get returns these hosts in the
  -- store's order, no sub-domain, and the seconds that the lease has left. The hosts are dotted addresses
  -- of plain bytes, JSON decodes the values formatted from such bytes, `range` visits the keys of a map, and the path prefix
  -- holds a slash.
  pub get-stored :
      (opts : DomainOptions) (lease : ℕ) (n : ℤ) (hosts : List Bytes) (s t u : c.State)
      → VisitsAll b
      → 0 < count b.prefix slash
      → All IsDotted hosts
      → c.get_prefix (get_path b.prefix opts.fqdn) s
        ≡ (ok (stored (get_path b.prefix opts.fqdn) lease hosts), t)
      → c.time_to_live lease t ≡ (ok n, u)
      → get c b opts s ≡ (
        ok (record {
          fqdn = opts.fqdn;
          hosts = hosts;
          sub_domain = [];
          text = [];
          cname = [];
          expiration = seconds_left n;
        }),
        u,
      )
  unfolding get sub_hosts get_path convert_to_path count
  get-stored opts lease n hosts s t u visits rooted dotted read left =
      let path = get_path b.prefix opts.fqdn in
      let deep : 1 < count path slash =
        ground (arith, count-append b.prefix (convert_to_path opts.fqdn) slash) in
      rw
        (
          lookup_keys-stored path lease hosts s t dotted read,
          split_keys-stored path lease hosts t deep dotted,
          left,
          no_members (b.order []) (visits []),
        )
        refl
