-- ===== src/Etcdv3/Client.antt =====
-- What backend/etcdv3 calls and keeps: the etcd client, JSON, randomness and Go's maps as parameters.
pub mod Laws
use rdns_server.Base.{
  ℕ, Bool, true, false, ◌||◌, List, [], ◌∷◌, Option, none, some, Bytes, same, if◌then◌else◌, ◌≡◌,
  Result, ok, err,
}
use rdns_server.Base.Int.{ℤ}
use rdns_server.Base.Exec.{Exec}
use rdns_server.Coredns.Etcd.{Kv}

-- The errors of the backend. `wrap` is errors.Wrapf with one of the texts of errors.go; `panic` is an
-- index out of range, which ends the request; `key_not_found` is rpctypes.ErrKeyNotFound.
pub data Error : Type 0 where
  client : Bytes → Error
  bad_value : Bytes → Error
  empty_record multi_records no_lookup_results not_valid_domain_name : Bytes → Error
  key_not_found grant_lease keepalive_once panic : Error
  wrap : Bytes → Error → Error

-- What unmarshalToMap finds under "host", empty if missing, and under "text".
pub record Fields : Type 0 where
  pub host : Bytes
  pub text : Option Bytes

-- The methods of clientv3.Client. A state is whatever they read and write.
pub record Client : Type 1 where
  pub State : Type 0
  pub get : Bytes → Exec Error State (List Kv)
  pub get_prefix : Bytes → Exec Error State (List Kv)
  pub put : Bytes → Bytes → ℕ → Exec Error State (Unit {0})
  pub delete : Bytes → Exec Error State (Unit {0})
  pub delete_prefix : Bytes → Exec Error State (Unit {0})
  -- TimeToLive: the seconds left
  pub time_to_live : ℕ → Exec Error State ℤ
  -- Grant: the number of the lease and its seconds
  pub grant : ℤ → Exec Error State (ℕ × ℤ)
  -- KeepAliveOnce: the seconds left
  pub keep_alive_once : ℕ → Exec Error State ℤ

-- The Backend struct without its client, and the library functions that its methods call.
pub record Config : Type 0 where
  pub domain : Bytes
  pub prefix : Bytes
  -- in seconds
  pub frozen_ttl : ℤ
  pub lease_time : ℤ
  -- json.Unmarshal into a map of strings
  pub unmarshal : Bytes → Option Fields
  -- the order in which `range` visits the keys of a map
  pub order : List Bytes → List Bytes
  -- the slugs that generateSlug draws, and the token
  pub draw : ℕ → Bytes
  pub fresh_token : Bytes

-- A key of a map whose keys are kept in a list.
unfoldable pub mem : Bytes → List Bytes → Bool
mem s [] = false
mem s (t ∷ ts) = same s t || mem s ts

-- sliceToMap: the keys, each once.
unfoldable pub slice_to_map : List Bytes → List Bytes
unfolding mem
slice_to_map [] = []
slice_to_map (s ∷ ss) = let m = slice_to_map ss in if mem s m then m else s ∷ m
