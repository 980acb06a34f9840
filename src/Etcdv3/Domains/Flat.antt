-- ===== src/Etcdv3/Domains/Flat.antt =====
-- Get of backend/etcdv3/etcdv3.go over a store that is seen key by key: the hosts of a domain without
-- sub-domains.
use rdns_server.Base.{
  ℕ, ◌<◌, ◌≡◌, ◌∙◌, refl, ap, true, false, List, [], ◌∷◌, ◌++◌, Bytes, same, same_iff, same_refl,
  All, Result, ok, err, arith,
}
use rdns_server.Base.Int.{ℤ}
use rdns_server.Text.{count, slash}
use rdns_server.Text.RoundTrip.{Lacks}
use rdns_server.Coredns.Etcd.{Kv}
use rdns_server.Model.{Domain, DomainOptions}
use rdns_server.Etcdv3.Names.{get_path, convert_to_path, find_sub_prefix, format_key, format_value}
use rdns_server.Etcdv3.Names.Paths.{below_base, count-append, has_prefix-append, same_longer}
use rdns_server.Etcdv3.Client.{Client, Config, Error, mem}
use rdns_server.Etcdv3.Client.Laws.{StoreLaws, PrefixLaw, VisitsAll, has_key, is_present}
use rdns_server.Etcdv3.Sync.{host_key, sync_records}
use rdns_server.Etcdv3.Sync.View.{host_key-injective}
use rdns_server.Etcdv3.Sync.Replaces.{sync_records-is_present}
use rdns_server.Etcdv3.Leases.{lookup_keys, record_keys, wrapped}
use rdns_server.Etcdv3.Keys.{is_sub, add_host, fields_of, split_keys, sub_hosts}
use rdns_server.Etcdv3.Domains.{get}
use rdns_server.Etcdv3.Domains.Stored.{
  Decodes, IsDotted, stored_host, format_key-Lacks, dotted-ne, no_members, is_record-stored,
  is_sub-host,
}

-- The pair of a domain that is held, or of one of its hosts.
pub data IsFlat (path : Bytes) : Kv → Type 0 where
  flat_base :
      (lease : ℕ) → IsFlat path (record { key = path; value = format_value []; lease = lease })
  flat_host :
      (lease : ℕ) (h : Bytes) → IsDotted h → Lacks b'_' h → IsFlat path (stored_host path lease h)

pub base_apart : (path k : Bytes) → same path (host_key path k) ≡ false
unfolding host_key
base_apart path k = ground (
  arith,
  same_longer path slash (format_key k),
  same_iff path (path ++ slash ∷ format_key k),
  same_iff (path ++ slash ∷ format_key k) path,
)

module _ (c : Client) (b : Config) (decodes : Decodes b) (path : Bytes) where
  pub record_keys-flat : (kvs : List Kv) → All (IsFlat path) kvs → record_keys c b kvs ≡ kvs
  unfolding record_keys
  record_keys-flat [] a = refl
  record_keys-flat (kv ∷ kvs) (flat_base l, a) =
      rw (is_record-stored c b decodes path [] l tt, record_keys-flat kvs a) refl
  record_keys-flat (kv ∷ kvs) (flat_host l h d u, a) =
      rw (is_record-stored c b decodes (host_key path h) h l d.2, record_keys-flat kvs a) refl

  split_keys-base :
      (lease : ℕ) (kvs : List Kv) (hosts : List Bytes) (s : c.State)
      → split_keys c b true path kvs s ≡ (ok (record { subs = []; hosts = hosts }), s)
      → split_keys c b true path
          (record { key = path; value = format_value []; lease = lease } ∷ kvs)
          s
        ≡ (ok (record { subs = []; hosts = hosts }), s)
  unfolding split_keys fields_of find_sub_prefix is_sub same
  split_keys-base lease kvs hosts s p = rw (same_refl path, decodes [] tt, p) refl

  split_keys-host :
      (lease : ℕ) (h : Bytes) (kvs : List Kv) (hosts : List Bytes) (s : c.State)
      → 1 < count path slash
      → IsDotted h
      → split_keys c b true path kvs s ≡ (ok (record { subs = []; hosts = hosts }), s)
      → split_keys c b true path (stored_host path lease h ∷ kvs) s
        ≡ (ok (record { subs = []; hosts = h ∷ hosts }), s)
  unfolding split_keys fields_of host_key add_host
  split_keys-host lease h kvs hosts s deep d p =
      rw
        (
          below_base path (format_key h) (format_key-Lacks h d.1) deep,
          decodes h d.2,
          p,
          is_sub-host c b decodes h d,
          dotted-ne h d.0,
        )
        refl

  -- The loop of Get over such pairs.
  split_keys-flat :
      (kvs : List Kv) (s : c.State)
      → 1 < count path slash
      → All (IsFlat path) kvs
      → (hosts : List Bytes) × (split_keys c b true path kvs s
          ≡ (ok (record { subs = []; hosts = hosts }), s))
        × ((k : Bytes) → Lacks b'_' k → mem k hosts ≡ has_key (host_key path k) kvs)
  unfolding mem has_key
  split_keys-flat [] s deep a = ([], unfold split_keys in refl, λ k u. refl)
  split_keys-flat (kv ∷ kvs) s deep (flat_base l, a) =
      let (hosts, p, q) = split_keys-flat kvs s deep a in
      (hosts, split_keys-base l kvs hosts s p, λ k u. rw (base_apart path k) (q k u))
  split_keys-flat (kv ∷ kvs) s deep (flat_host l h d u, a) =
      let (hosts, p, q) = split_keys-flat kvs s deep a in
      (
        h ∷ hosts,
        split_keys-host l h kvs hosts s deep d p,
        λ k v.
            rw (host_key-injective path h k u v, q k v)
              (ground (arith, same_iff k h, same_iff h k)),
      )

module _ (c : Client) (laws : StoreLaws c) (prefix_law : PrefixLaw c laws) (b : Config)
    (visits : VisitsAll b) (decodes : Decodes b) (rooted : 0 < count b.prefix slash)
    (opts : DomainOptions) (kvs : List Kv) (s t u : c.State) (d : Domain)
    (read : c.get_prefix (get_path b.prefix opts.fqdn) s ≡ (ok kvs, t))
    (flat : All (IsFlat (get_path b.prefix opts.fqdn)) kvs) (got : get c b opts s ≡ (ok d, u)) where
  abbrev path : Bytes
  path = get_path b.prefix opts.fqdn

  deep : 1 < count path slash
  unfolding get_path convert_to_path count
  deep = ground (arith, count-append b.prefix (convert_to_path opts.fqdn) slash)

  looked_up : lookup_keys c b path s ≡ (ok kvs, t)
  unfolding lookup_keys wrapped
  looked_up = rw (read, record_keys-flat c b decodes path kvs flat) refl

  got_hosts :
      (hosts : List Bytes)
      → split_keys c b true path kvs t ≡ (ok (record { subs = []; hosts = hosts }), t)
      → (d.hosts ≡ hosts) × (d.sub_domain ≡ [])
  unfolding get sub_hosts
  got_hosts hosts p = with_first kvs refl
    where
      with_first : (ks : List Kv) → kvs ≡ ks → (d.hosts ≡ hosts) × (d.sub_domain ≡ [])
      with_first [] e = absurd (never (rw (looked_up, e) at got))
        where
          never : {x : Error} → ◌≡◌ {A = Result Error Domain × c.State} (err x, t) (ok d, u) → ⊥
          never q = cc
      with_first (kv ∷ ks) e = timed (c.time_to_live kv.lease t) refl
        where
          timed :
              (r : Result Error ℤ × c.State)
              → c.time_to_live kv.lease t ≡ r
              → (d.hosts ≡ hosts) × (d.sub_domain ≡ [])
          timed (ok n, v) f =
              let given =
                rw (looked_up, e, rw e at p, f, no_members (b.order []) (visits [])) at got in
              (cc, cc)
          timed (err x, v) f = let given = rw (looked_up, e, rw e at p, f) at got in absurd cc

  -- Get sees the hosts that the store has below the path, and no other.
  pub get-hosts :
      (k : Bytes) → Lacks b'_' k → mem k d.hosts ≡ is_present (laws.view s (host_key path k))
  unfolding host_key
  get-hosts k v =
      let (hosts, p, q) = split_keys-flat c b decodes path kvs t deep flat in
      ap (mem k) (got_hosts hosts p).0
      ∙ q k v
      ∙ prefix_law path (host_key path k) kvs s t read
          (has_prefix-append path (slash ∷ format_key k))

  -- Get after a synchronisation that succeeded.
  pub get-sync_records :
      (new old : List Bytes) (lease : ℕ) (before : c.State) (k : Bytes)
      → All (Lacks b'_') new
      → All (Lacks b'_') old
      → Lacks b'_' k
      → is_present (laws.view before (host_key (get_path b.prefix opts.fqdn) k)) ≡ mem k old
      → sync_records c b new old (get_path b.prefix opts.fqdn) lease before ≡ (ok tt, s)
      → mem k d.hosts ≡ mem k new
  get-sync_records new old lease before k an ao n held synced =
      get-hosts k n
      ∙ sync_records-is_present c laws b new old path lease before s k visits an ao n held synced
