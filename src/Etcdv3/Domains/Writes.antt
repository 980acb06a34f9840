-- ===== src/Etcdv3/Domains/Writes.antt =====
-- That the store keeps nothing but flat pairs below a path, through syncRecords of backend/etcdv3/etcdv3.go.
use rdns_server.Base.{
  ℕ, ◌≡◌, ◌∙◌, sym, ap, true, List, [], ◌∷◌, some, Option, Bytes, same, same_iff, All, ok, inl, inr,
  Bool-cases, arith,
}
use rdns_server.Base.Exec.{>>=-eq-ok}
use rdns_server.Text.{has_prefix}
use rdns_server.Text.RoundTrip.{Lacks}
use rdns_server.Coredns.Etcd.{Kv}
use rdns_server.Etcdv3.Names.{format_value}
use rdns_server.Etcdv3.Client.{Client, Config, mem, slice_to_map}
use rdns_server.Etcdv3.Client.Laws.{StoreLaws, ReadLaws, VisitsAll}
use rdns_server.Etcdv3.Sync.{host_key, delete_stale, put_missing, sync_records}
use rdns_server.Etcdv3.Sync.View.{plain_of_mem, plain_at_mem, mem-visited}
use rdns_server.Etcdv3.Domains.Stored.{IsDotted}
use rdns_server.Etcdv3.Domains.Flat.{IsFlat, flat_host}

-- A host that syncRecords can be given.
abbrev pub IsHost : Bytes → Type 0
IsHost h = IsDotted h × Lacks b'_' h

module _ (c : Client) (laws : StoreLaws c) (path : Bytes) where
  -- Below the path, the store has the pair of a domain and those of its hosts.
  abbrev pub IsFlatBelow : c.State → Type 0
  IsFlatBelow s =
      (j v : Bytes) (l : ℕ)
      → has_prefix j path ≡ true
      → laws.view s j ≡ some (v, l)
      → IsFlat path (record { key = j; value = v; lease = l })

  pub same_view-IsFlatBelow :
      (s t : c.State)
      → ((j : Bytes) → laws.view t j ≡ laws.view s j)
      → IsFlatBelow s
      → IsFlatBelow t
  same_view-IsFlatBelow s t e f j v l p h = f j v l p (sym (e j) ∙ h)

  delete_stale-IsFlatBelow :
      (left rs : List Bytes) (s t : c.State)
      → delete_stale c left path rs s ≡ (ok tt, t)
      → IsFlatBelow s
      → IsFlatBelow t
  unfolding delete_stale
  delete_stale-IsFlatBelow left [] s t h f =
      same_view-IsFlatBelow s t (λ j. ap (λ x. laws.view x j) (sym (ap (λ x. x.1) h))) f
  delete_stale-IsFlatBelow left (r ∷ rs) s t h f = elim (Bool-cases (mem r left)) [
    | inl e ↦ delete_stale-IsFlatBelow left rs s t (rw (e, delete_stale) at h) f
    | inr e ↦
        let (u, m, p, q) =
          >>=-eq-ok (c.delete (host_key path r)) (λ _. delete_stale c left path rs) s t tt
            (rw (e, delete_stale) at h) in
        delete_stale-IsFlatBelow left rs m t q
          (λ j v l a b. f j v l a (ground (arith, laws.view-delete (host_key path r) s m p j, b)))
  ]

  put-IsFlatBelow :
      (h : Bytes) (lease : ℕ) (s t : c.State)
      → IsHost h
      → c.put (host_key path h) (format_value h) lease s ≡ (ok tt, t)
      → IsFlatBelow s
      → IsFlatBelow t
  put-IsFlatBelow h lease s t (dotted, lacks) e f j v l p g =
      elim (Bool-cases (same (host_key path h) j)) [
        | inl x ↦
            let at_host = (same_iff (host_key path h) j).0 x in
            let written : ◌≡◌ {A = Option (Bytes × ℕ)} (some (format_value h, lease))
                (some (v, l)) =
              rw x at (sym (laws.view-put (host_key path h) (format_value h) lease s t e j) ∙ g) in
            let value_is : v ≡ format_value h = cc in
            let lease_is : l ≡ lease = cc in
            rw (sym at_host, value_is, lease_is) (flat_host lease h dotted lacks)
        | inr x ↦
            f j v l p
              (ground (arith, laws.view-put (host_key path h) (format_value h) lease s t e j, g))
      ]

  put_missing-IsFlatBelow :
      (right ls : List Bytes) (lease : ℕ) (s t : c.State)
      → All IsHost ls
      → put_missing c right path lease ls s ≡ (ok tt, t)
      → IsFlatBelow s
      → IsFlatBelow t
  unfolding put_missing
  put_missing-IsFlatBelow right [] lease s t a h f =
      same_view-IsFlatBelow s t (λ j. ap (λ x. laws.view x j) (sym (ap (λ x. x.1) h))) f
  put_missing-IsFlatBelow right (l ∷ ls) lease s t (al, a) h f = elim (Bool-cases (mem l right)) [
    | inl e ↦ put_missing-IsFlatBelow right ls lease s t a (rw (e, put_missing) at h) f
    | inr e ↦
        let (u, m, p, q) =
          >>=-eq-ok (c.put (host_key path l) (format_value l) lease)
            (λ _. put_missing c right path lease ls) s t tt (rw (e, put_missing) at h) in
        put_missing-IsFlatBelow right ls lease m t a q (put-IsFlatBelow l lease s m al p f)
  ]

  -- A synchronisation to a list of hosts keeps the store flat below the path.
  pub sync_records-IsFlatBelow :
      (b : Config) (new old : List Bytes) (lease : ℕ) (s t : c.State)
      → VisitsAll b
      → All IsHost new
      → sync_records c b new old path lease s ≡ (ok tt, t)
      → IsFlatBelow s
      → IsFlatBelow t
  unfolding sync_records
  sync_records-IsFlatBelow b new old lease s t visits hosts h f =
      let left = slice_to_map new in
      let right = slice_to_map old in
      let (u, m, p, q) =
        >>=-eq-ok (delete_stale c left path (b.order right))
          (λ _. put_missing c right path lease (b.order left)) s t tt h in
      put_missing-IsFlatBelow right (b.order left) lease m t
        (plain_of_mem IsHost (b.order left)
          (λ k x. plain_at_mem IsHost new k hosts (sym (mem-visited c laws b visits k new) ∙ x)))
        q (delete_stale-IsFlatBelow left (b.order right) s m p f)

  -- What a read below the path gives is flat.
  pub read-IsFlat :
      (reads : ReadLaws c laws) (kvs : List Kv) (s t : c.State)
      → c.get_prefix path s ≡ (ok kvs, t)
      → IsFlatBelow s
      → All (IsFlat path) kvs
  read-IsFlat reads kvs s t h f = each kvs (reads.read-pairs path kvs s t h)
    where
      each :
          (ks : List Kv)
          → All
              (λ kv.
                (has_prefix kv.key path ≡ true) × (laws.view s kv.key ≡ some (kv.value, kv.lease)))
              ks
          → All (IsFlat path) ks
      each [] _ = tt
      each (kv ∷ ks) ((p, v), a) = (f kv.key kv.value kv.lease p v, each ks a)
