-- ===== src/Etcdv3/Sync/Replaces.antt =====
-- `syncRecords` as the replacement of one set of hosts by another.
use rdns_server.Base.{ℕ, List, Bytes, ◌≡◌, ok, arith, All, inl, inr, Bool-cases}
use rdns_server.Text.RoundTrip.{Lacks}
use rdns_server.Etcdv3.Client.{Client, Config, mem}
use rdns_server.Etcdv3.Client.Laws.{StoreLaws, VisitsAll, is_present}
use rdns_server.Etcdv3.Sync.{host_key, sync_records}
use rdns_server.Etcdv3.Sync.View.{sync_records-host}

module _ (c : Client) (laws : StoreLaws c) (b : Config) where
  -- The set of hosts with a pair below the path: where it says of a host what the old list says, it says
  -- what the new list says after a synchronisation that succeeds. The hosts are any without an
  -- underscore; the store obeys the laws of puts and deletes, and `range` visits every key of a map.
  pub sync_records-is_present :
      (new old : List Bytes) (path : Bytes) (lease : ℕ) (s t : c.State) (k : Bytes)
      → VisitsAll b
      → All (Lacks b'_') new
      → All (Lacks b'_') old
      → Lacks b'_' k
      → is_present (laws.view s (host_key path k)) ≡ mem k old
      → sync_records c b new old path lease s ≡ (ok tt, t)
      → is_present (laws.view t (host_key path k)) ≡ mem k new
  unfolding is_present
  sync_records-is_present new old path lease s t k visits an ao n held synced =
      let view = sync_records-host c laws b visits new old path lease s t synced an ao k n in
      elim (Bool-cases (mem k new)) [
        | inl e ↦ elim (Bool-cases (mem k old)) [
          | inl f ↦ ground (arith, view, held, e, f)
          | inr f ↦ ground (arith, view, held, e, f)
        ]
        | inr e ↦ ground (arith, view, held, e)
      ]
