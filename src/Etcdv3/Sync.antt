-- ===== src/Etcdv3/Sync.antt =====
-- `syncRecords` of backend/etcdv3/etcdv3.go.
pub mod View
pub mod Replaces
use rdns_server.Base.{ℕ, Bool, true, false, List, [], ◌∷◌, ◌++◌, Bytes, ◌≡◌}
use rdns_server.Base.Exec.{Exec, pure, ◌>>=◌, ◌>>◌}
use rdns_server.Text.{slash}
use rdns_server.Etcdv3.Names.{format_key, format_value}
use rdns_server.Etcdv3.Client.{Client, Config, Error, mem, slice_to_map}

-- fmt.Sprintf("%s/%s", path, formatKey(host))
unfoldable pub host_key : Bytes → Bytes → Bytes
unfolding format_key
host_key path host = path ++ slash ∷ format_key host

module _ (c : Client) where
  -- `for r := range right`
  unfoldable pub delete_stale : List Bytes → Bytes → List Bytes → Exec Error c.State (Unit {0})
  unfolding mem host_key
  delete_stale left path [] = pure tt
  delete_stale left path (r ∷ rs) = elim (mem r left) [
    | true ↦ delete_stale left path rs
    | false ↦ c.delete (host_key path r) >> delete_stale left path rs
  ]

  -- `for l := range left`
  unfoldable pub put_missing : List Bytes → Bytes → ℕ → List Bytes → Exec Error c.State (Unit {0})
  unfolding mem host_key format_value
  put_missing right path lease [] = pure tt
  put_missing right path lease (l ∷ ls) = elim (mem l right) [
    | true ↦ put_missing right path lease ls
    | false ↦ c.put (host_key path l) (format_value l) lease >> put_missing right path lease ls
  ]

  unfoldable pub sync_records :
      Config → List Bytes → List Bytes → Bytes → ℕ → Exec Error c.State (Unit {0})
  unfolding delete_stale put_missing slice_to_map
  sync_records b new old path lease =
      let left = slice_to_map new in
      let right = slice_to_map old in
      do delete_stale left path (b.order right); put_missing right path lease (b.order left)
