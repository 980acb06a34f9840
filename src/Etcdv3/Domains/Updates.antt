-- ===== src/Etcdv3/Domains/Updates.antt =====
-- Update of backend/etcdv3/etcdv3.go, for a domain without sub-domains: what it answers with.
use rdns_server.Base.{
  ℕ, ◌<◌, ◌≡◌, ◌∙◌, refl, sym, ap, true, false, List, [], ◌∷◌, Bytes, codes, same, same_iff,
  same_refl, All, Result, ok, err, inl, inr, arith,
}
use rdns_server.Base.Exec.{Exec-cases}
use rdns_server.Text.{has_prefix, count, slash}
use rdns_server.Text.RoundTrip.{Lacks}
use rdns_server.Coredns.Etcd.{Kv}
use rdns_server.Model.{Domain, DomainOptions}
use rdns_server.Etcdv3.Names.{find_sub_prefix, format_key, format_value}
use rdns_server.Etcdv3.Names.Paths.{below_base, has_prefix-append}
use rdns_server.Etcdv3.Client.{Client, Config, Error, wrap, mem}
use rdns_server.Etcdv3.Client.Laws.{StoreLaws, PrefixLaw, ReadLaws, VisitsAll, has_key, is_present}
use rdns_server.Etcdv3.Sync.{host_key, sync_records}
use rdns_server.Etcdv3.Sync.View.{host_key-injective}
use rdns_server.Etcdv3.Leases.{lookup_keys, wrapped, add_text, set_token}
use rdns_server.Etcdv3.Leases.Renewal.{set_token-keeps}
use rdns_server.Etcdv3.Keys.{
  is_sub, add_host, fields_of, split_keys, sub_hosts, set_sub_records, delete_subs, sync_subs,
  bring_up_to_date, put_empty, set_record,
}
use rdns_server.Etcdv3.Domains.Stored.{
  Decodes, stored_host, format_key-Lacks, no_members, is_sub-host,
}
use rdns_server.Etcdv3.Domains.Flat.{IsFlat, flat_base, flat_host, base_apart, record_keys-flat}
use rdns_server.Etcdv3.Domains.Writes.{IsHost, IsFlatBelow, same_view-IsFlatBelow, read-IsFlat}

module _ (c : Client) (b : Config) (decodes : Decodes b) (path : Bytes)
    (deep : 1 < count path slash) where
  old-base :
      (lease : ℕ) (kvs : List Kv) (hosts : List Bytes) (s : c.State)
      → split_keys c b false path kvs s ≡ (ok (record { subs = []; hosts = hosts }), s)
      → split_keys c b false path
          (record { key = path; value = format_value []; lease = lease } ∷ kvs)
          s
        ≡ (ok (record { subs = []; hosts = [] ∷ hosts }), s)
  unfolding split_keys fields_of find_sub_prefix is_sub same add_host
  old-base lease kvs hosts s p = rw (same_refl path, decodes [] tt, p) refl

  old-host :
      (lease : ℕ) (h : Bytes) (kvs : List Kv) (hosts : List Bytes) (s : c.State)
      → IsHost h
      → split_keys c b false path kvs s ≡ (ok (record { subs = []; hosts = hosts }), s)
      → split_keys c b false path (stored_host path lease h ∷ kvs) s
        ≡ (ok (record { subs = []; hosts = h ∷ hosts }), s)
  unfolding split_keys fields_of host_key add_host
  old-host lease h kvs hosts s (d, _) p =
      rw
        (
          below_base path (format_key h) (format_key-Lacks h d.1) deep,
          decodes h d.2,
          p,
          is_sub-host c b decodes h d,
        )
        refl

  -- The loop of setRecord over flat pairs: it takes the domain's own for an empty host.
  split_keys-old :
      (kvs : List Kv) (s : c.State)
      → All (IsFlat path) kvs
      → (hosts : List Bytes) × (split_keys c b false path kvs s
          ≡ (ok (record { subs = []; hosts = hosts }), s))
        × All (Lacks b'_') hosts
        × ((k : Bytes)
            → same k [] ≡ false
            → Lacks b'_' k
            → mem k hosts ≡ has_key (host_key path k) kvs)
  unfolding mem has_key
  split_keys-old [] s a = ([], unfold split_keys in refl, tt, λ k n u. refl)
  split_keys-old (kv ∷ kvs) s (flat_base l, a) =
      let (hosts, p, x, q) = split_keys-old kvs s a in
      ([] ∷ hosts, old-base l kvs hosts s p, (tt, x), λ k n u. rw (base_apart path k, n) (q k n u))
  split_keys-old (kv ∷ kvs) s (flat_host l h d u, a) =
      let (hosts, p, x, q) = split_keys-old kvs s a in
      (
        h ∷ hosts,
        old-host l h kvs hosts s (d, u) p,
        (u, x),
        λ k n v.
            rw (host_key-injective path h k u v, q k n v)
              (ground (arith, same_iff k h, same_iff h k)),
      )

  pub lookup_keys-flat :
      (kvs : List Kv) (s t : c.State)
      → c.get_prefix path s ≡ (ok kvs, t)
      → All (IsFlat path) kvs
      → lookup_keys c b path s ≡ (ok kvs, t)
  unfolding lookup_keys wrapped
  lookup_keys-flat kvs s t h a = rw (h, record_keys-flat c b decodes path kvs a) refl

  pub lookup_keys-err :
      (x : Error) (s t : c.State)
      → c.get_prefix path s ≡ (err x, t)
      → (y : Error) × (lookup_keys c b path s ≡ (err y, t))
  unfolding lookup_keys wrapped add_text
  lookup_keys-err x s t h = (wrap (codes "lookup") x, rw h refl)

  pub below_path : (k : Bytes) → has_prefix (host_key path k) path ≡ true
  unfolding host_key
  below_path k = has_prefix-append path (slash ∷ format_key k)

  pub failed_ne :
      {A : Type 0} (x : Error) (a : A) (s t : c.State)
      → ◌≡◌ {A = Result Error A × c.State} (err x, s) (ok a, t)
      → ⊥
  failed_ne x a s t h = cc

  module _ (laws : StoreLaws c) (prefix_law : PrefixLaw c laws) (reads : ReadLaws c laws)
      (visits : VisitsAll b) where
    -- What bring_up_to_date does: it reads the old hosts and synchronises them with the new ones.
    bring_up_to_date-syncs :
        (opts : DomainOptions) (lease : ℕ) (s t : c.State)
        → opts.sub_domain ≡ []
        → IsFlatBelow c laws path s
        → bring_up_to_date c b path opts lease s ≡ (ok tt, t)
        → (old : List Bytes) × (m : c.State) × ((j : Bytes) → laws.view m j ≡ laws.view s j)
          × All (Lacks b'_') old
          × ((k : Bytes)
              → same k [] ≡ false
              → Lacks b'_' k
              → is_present (laws.view s (host_key path k)) ≡ mem k old)
          × (sync_records c b opts.hosts old path lease m ≡ (ok tt, t))
    unfolding bring_up_to_date sub_hosts wrapped add_text set_sub_records delete_subs sync_subs
    bring_up_to_date-syncs opts lease s t flat_opts flat h =
        elim (Exec-cases (c.get_prefix path) s) [
          | inr (x, m, e) ↦
              let (y, looked) = lookup_keys-err x s m e in
              absurd (failed_ne y tt m t (rw looked at h))
          | inl (kvs, m, e) ↦
              let a = read-IsFlat c laws path reads kvs s m e flat in
              let looked = lookup_keys-flat kvs s m e a in
              let none_visited = no_members (b.order []) (visits []) in
              let (old, p, lacks, q) = split_keys-old kvs m a in
              elim (Exec-cases (sync_records c b opts.hosts old path lease) m) [
                | inr (x, n, f) ↦ absurd (
                    failed_ne (wrap (codes "sync") x) tt n t (rw (looked, p, none_visited, f) at h))
                | inl (_, n, f) ↦
                    let last = rw (looked, p, none_visited, f, none_visited, flat_opts) at h in
                    let ends : n ≡ t = ap (λ r. r.1) last in
                    (
                      old,
                      m,
                      reads.read-view path kvs s m e,
                      lacks,
                      λ k z u.
                          sym (prefix_law path (host_key path k) kvs s m e (below_path k))
                          ∙ sym (q k z u),
                      f ∙ ap (λ x. (ok tt, x)) ends,
                    )
              ]
        ]

    -- setRecord of a domain that is held, for options without sub-domains.
    pub set_record-syncs :
        (opts : DomainOptions) (s t : c.State) (d : Domain)
        → opts.sub_domain ≡ []
        → IsFlatBelow c laws path s
        → set_record c b path opts true s ≡ (ok d, t)
        → (old : List Bytes) × (m : c.State) × (lease : ℕ) × ((j : Bytes)
            → laws.view m j ≡ laws.view s j)
          × All (Lacks b'_') old
          × ((k : Bytes)
              → same k [] ≡ false
              → Lacks b'_' k
              → is_present (laws.view s (host_key path k)) ≡ mem k old)
          × (sync_records c b opts.hosts old path lease m ≡ (ok tt, t))
    unfolding set_record put_empty
    set_record-syncs opts s t d flat_opts flat h =
        elim (Exec-cases (set_token c b opts.fqdn true) s) [
          | inr (x, u, e) ↦ absurd (failed_ne x d u t (rw e at h))
          | inl ((lease, n), u, e) ↦ elim (Exec-cases (bring_up_to_date c b path opts lease) u) [
            | inr (x, v, f) ↦ absurd (failed_ne x d v t (rw (e, f) at h))
            | inl (_, v, f) ↦
                let ends : v ≡ t = ap (λ r. r.1) (rw (e, f) at h) in
                let kept = (set_token-keeps c laws b opts.fqdn lease n s u e).1 in
                let (old, m, view, lacks, held, synced) =
                  bring_up_to_date-syncs opts lease u v flat_opts
                    (same_view-IsFlatBelow c laws path s u kept flat) f in
                (
                  old,
                  m,
                  lease,
                  λ j. view j ∙ kept j,
                  lacks,
                  λ k z w. ap is_present (sym (kept (host_key path k))) ∙ held k z w,
                  synced ∙ ap (λ x. (ok tt, x)) ends,
                )
          ]
        ]
