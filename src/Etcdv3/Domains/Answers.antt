-- ===== src/Etcdv3/Domains/Answers.antt =====
-- The domain that Update of backend/etcdv3/etcdv3.go answers with.
pub mod Examples
use rdns_server.Base.{
  ℕ, ◌<◌, ◌≡◌, ◌∙◌, refl, sym, ap, true, false, List, [], ◌∷◌, Option-cases, some, none, Bytes,
  codes, same, same_iff, same_refl, Bool-cases, All, ok, err, inl, inr, arith,
}
use rdns_server.Base.Exec.{Exec, Exec-cases, pure, or_raise, ◌>>=◌, ◌>>◌, >>=-eq-ok}
use rdns_server.Text.{count, slash}
use rdns_server.Text.RoundTrip.{Lacks}
use rdns_server.Coredns.Etcd.{Kv}
use rdns_server.Model.{Domain, DomainOptions}
use rdns_server.Etcdv3.Names.{get_path, convert_to_path, format_value, find_slug_with_zone}
use rdns_server.Etcdv3.Names.Paths.{count-append}
use rdns_server.Etcdv3.Client.{Client, Config, Error, panic, no_lookup_results, mem}
use rdns_server.Etcdv3.Client.Laws.{StoreLaws, PrefixLaw, ReadLaws, VisitsAll, is_present}
use rdns_server.Etcdv3.Sync.{host_key, sync_records}
use rdns_server.Etcdv3.Leases.{first, lookup_keys, lock_slug_name}
use rdns_server.Etcdv3.Keys.{set_record}
use rdns_server.Etcdv3.Domains.{get, update}
use rdns_server.Etcdv3.Domains.Stored.{Decodes, dotted-ne}
use rdns_server.Etcdv3.Domains.Flat.{
  IsFlat, flat_base, flat_host, base_apart, get-hosts, get-sync_records,
}
use rdns_server.Etcdv3.Sync.View.{host_key-injective}
use rdns_server.Etcdv3.Domains.Writes.{
  IsHost, IsFlatBelow, same_view-IsFlatBelow, sync_records-IsFlatBelow, read-IsFlat,
}
use rdns_server.Etcdv3.Domains.Updates.{
  set_record-syncs, failed_ne, lookup_keys-flat, lookup_keys-err, below_path,
}

mem-empty : (hs : List Bytes) → All IsHost hs → mem [] hs ≡ false
unfolding mem
mem-empty [] a = refl
mem-empty (h ∷ hs) ((d, _), a) =
    ground (arith, dotted-ne h d.0, mem-empty hs a, same_iff [] h, same_iff h [])

flat_apart : (path : Bytes) (kv : Kv) → IsFlat path kv → same kv.key (host_key path []) ≡ false
flat_apart path kv (flat_base l) = base_apart path []
flat_apart path kv (flat_host l h d u) = rw (host_key-injective path h [] u tt) (dotted-ne h d.0)

hosts-Lacks : (hs : List Bytes) → All IsHost hs → All (Lacks b'_') hs
hosts-Lacks [] a = tt
hosts-Lacks (h ∷ hs) ((_, l), a) = (l, hosts-Lacks hs a)

module _ (c : Client) (laws : StoreLaws c) (prefix_law : PrefixLaw c laws) (reads : ReadLaws c laws)
    (b : Config) (visits : VisitsAll b) (decodes : Decodes b) (rooted : 0 < count b.prefix slash)
    (opts : DomainOptions) where
  abbrev path : Bytes
  path = get_path b.prefix opts.fqdn

  deep : 1 < count path slash
  unfolding get_path convert_to_path count
  deep = ground (arith, count-append b.prefix (convert_to_path opts.fqdn) slash)

  -- The end of Update: the slug's lock is renewed, and the domain that was read is the answer.
  abbrev answered : Domain → Exec Error c.State Domain
  answered d = do
    slug ← or_raise panic (find_slug_with_zone opts.fqdn b.domain)
    lock_slug_name c b slug true
    pure d

  answer : (d d' : Domain) (v u : c.State) → answered d' v ≡ (ok d, u) → d' ≡ d
  answer d d' v u h =
      let (slug, w, p, q) =
        >>=-eq-ok (or_raise panic (find_slug_with_zone opts.fqdn b.domain))
          (λ slug. lock_slug_name c b slug true >> pure d') v u d h in
      let (_, x, r, t) = >>=-eq-ok (lock_slug_name c b slug true) (λ _. pure d') w u d q in cc

  -- An Update that succeeds: setRecord did, and its answer is that of Get behind it.
  update-steps :
      (s u : c.State) (d : Domain)
      → IsFlatBelow c laws path s
      → update c b opts s ≡ (ok d, u)
      → (m : c.State) × (n : c.State) × (v : c.State) × (set : Domain) × ((j : Bytes)
          → laws.view m j ≡ laws.view s j)
        × (set_record c b path opts true m ≡ (ok set, n))
        × (get c b opts n ≡ (ok d, v))
  unfolding update
  update-steps s u d flat h = elim (Exec-cases (c.get_prefix path) s) [
    | inr (x, m, e) ↦
        let (y, looked) = lookup_keys-err c b decodes path deep x s m e in
        absurd (failed_ne c b decodes path deep y d m u (rw looked at h))
    | inl (kvs, m, e) ↦
        let looked =
          lookup_keys-flat c b decodes path deep kvs s m e
            (read-IsFlat c laws path reads kvs s m e flat) in
        elim (Option-cases (first kvs)) [
          | inl z ↦
              absurd (
                failed_ne c b decodes path deep (no_lookup_results path) d m u
                  (rw (looked, z) at h))
          | inr (kv, z) ↦ elim (Exec-cases (set_record c b path opts true) m) [
            | inr (x, n, f) ↦
                absurd (failed_ne c b decodes path deep x d n u (rw (looked, z, f) at h))
            | inl (set, n, f) ↦ elim (Exec-cases (get c b opts) n) [
              | inr (x, v, g) ↦
                  absurd (failed_ne c b decodes path deep x d v u (rw (looked, z, f, g) at h))
              | inl (d', v, g) ↦
                  let same_domain = answer d d' v u (rw (looked, z, f, g) at h) in
                  (
                    m,
                    n,
                    v,
                    set,
                    reads.read-view path kvs s m e,
                    f,
                    g ∙ ap (λ x. (ok x, v)) same_domain,
                  )
            ]
          ]
        ]
  ]

  -- A Get that succeeds has read below the path.
  unread :
      (n t v : c.State) (x : Error) (d : Domain)
      → c.get_prefix path n ≡ (err x, t)
      → get c b opts n ≡ (ok d, v)
      → ⊥
  unfolding get
  unread n t v x d r g =
      let (y, looked) = lookup_keys-err c b decodes path deep x n t r in
      failed_ne c b decodes path deep y d t v (rw looked at g)

  -- No pair of such a store is that of an empty host.
  no_empty_host :
      (n : c.State)
      → IsFlatBelow c laws path n
      → is_present (laws.view n (host_key path [])) ≡ false
  unfolding is_present
  no_empty_host n f = elim (Option-cases (laws.view n (host_key path []))) [
    | inl e ↦ rw e refl
    | inr ((v, l), e) ↦ absurd (
        never (
          sym (same_refl (host_key path []))
          ∙ flat_apart path _ (f (host_key path []) v l (below_path c b decodes path deep []) e)))
  ]
    where
      never : true ≡ false → ⊥
      never e = cc

  -- The hosts that an Update that succeeds answers with are those it was asked for, as a set: a name
  -- without an underscore is among the one if and only if it is among the other. The options
  -- have no sub-domain, and their hosts are printable ASCII with a dot and without an underscore, a slash,
  -- a double quote or a backslash; before the Update the keys below the domain's path were its own and
  -- those of such hosts. The store obeys the laws of puts, deletes and reads, with a prefix and without;
  -- JSON decodes the values formatted from such texts, `range` visits every key of a map, and the path
  -- prefix holds a slash.
  pub update-hosts :
      (s u : c.State) (d : Domain) (k : Bytes)
      → opts.sub_domain ≡ []
      → All IsHost opts.hosts
      → IsFlatBelow c laws (get_path b.prefix opts.fqdn) s
      → update c b opts s ≡ (ok d, u)
      → Lacks b'_' k
      → mem k d.hosts ≡ mem k opts.hosts
  update-hosts s u d k no_subs hosts flat h lacks =
      let (m, n, v, set, view, f, g) = update-steps s u d flat h in
      let flat_m = same_view-IsFlatBelow c laws path s m view flat in
      let (old, m2, lease, view2, old_lacks, held, synced) =
        set_record-syncs c b decodes path deep laws prefix_law reads visits opts m n set no_subs
          flat_m f in
      let flat_n =
        sync_records-IsFlatBelow c laws path b opts.hosts old lease m2 n visits hosts synced
          (same_view-IsFlatBelow c laws path m m2 view2 flat_m) in
      elim (Exec-cases (c.get_prefix path) n) [
        | inl (kvs, t, r) ↦ elim (Bool-cases (same k [])) [
          | inl empty ↦ rw ((same_iff k []).0 empty) (
              get-hosts c laws prefix_law b visits decodes rooted opts kvs n t v d r
                (read-IsFlat c laws path reads kvs n t r flat_n) g [] tt
              ∙ no_empty_host n flat_n
              ∙ sym (mem-empty opts.hosts hosts))
          | inr named ↦
              get-sync_records c laws prefix_law b visits decodes rooted opts kvs n t v d r
                (read-IsFlat c laws path reads kvs n t r flat_n) g opts.hosts old lease m2 k
                (hosts-Lacks opts.hosts hosts) old_lacks lacks
                (ap is_present (view2 (host_key path k)) ∙ held k named lacks) synced
        ]
        | inr (x, t, r) ↦ absurd (unread n t v x d r g)
      ]
