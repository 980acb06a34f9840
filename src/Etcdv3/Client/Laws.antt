-- ===== src/Etcdv3/Client/Laws.antt =====
-- What the backend relies on: documented behaviour of the etcd client and of Go's `range`.
use rdns_server.Base.{
  ℕ, ◌≡◌, Bool, true, false, ◌||◌, Option, none, some, List, [], ◌∷◌, All, Bytes, same,
  if◌then◌else◌, ok,
}
use rdns_server.Text.{has_prefix}
use rdns_server.Base.Int.{ℤ}
use rdns_server.Coredns.Etcd.{Kv}
use rdns_server.Etcdv3.Client.{Client, Config, mem}

-- A view of the store, the value and the lease under each key, and what a write that succeeds does to
-- it while no lease runs out. (A write that fails may or may not have been done: nothing is said of it.)
pub record StoreLaws (c : Client) : Type 0 where
  pub view : c.State → Bytes → Option (Bytes × ℕ)
  pub view-put :
      (k v : Bytes) (l : ℕ) (s t : c.State)
      → c.put k v l s ≡ (ok tt, t)
      → (j : Bytes) → view t j ≡ (if same k j then some (v, l) else view s j)
  pub view-delete :
      (k : Bytes) (s t : c.State)
      → c.delete k s ≡ (ok tt, t)
      → (j : Bytes) → view t j ≡ (if same k j then none else view s j)
  pub view-get :
      (k : Bytes) (kvs : List Kv) (s t : c.State)
      → c.get k s ≡ (ok kvs, t)
      → (j : Bytes) → view t j ≡ view s j
  pub get-view :
      (k : Bytes) (kv : Kv) (kvs : List Kv) (s t : c.State)
      → c.get k s ≡ (ok (kv ∷ kvs), t)
      → view s k ≡ some (kv.value, kv.lease)
  pub view-time_to_live :
      (l : ℕ) (n : ℤ) (s t : c.State)
      → c.time_to_live l s ≡ (ok n, t)
      → (j : Bytes) → view t j ≡ view s j

-- A pair of the list has this key.
unfoldable pub has_key : Bytes → List Kv → Bool
has_key j [] = false
has_key j (kv ∷ kvs) = same kv.key j || has_key j kvs

unfoldable pub is_present : {A : Type 0} → Option A → Bool
is_present none = false
is_present (some a) = true

-- A read with WithPrefix gives a pair for each key with the prefix that the store has.
abbrev pub PrefixLaw : (c : Client) → StoreLaws c → Type 0
PrefixLaw c laws =
    (p j : Bytes) (kvs : List Kv) (s t : c.State)
    → c.get_prefix p s ≡ (ok kvs, t)
    → has_prefix j p ≡ true
    → has_key j kvs ≡ is_present (laws.view s j)

-- What such a read gives is what the store has, which it leaves as it was.
pub record ReadLaws (c : Client) (laws : StoreLaws c) : Type 0 where
  pub read-view :
      (p : Bytes) (kvs : List Kv) (s t : c.State)
      → c.get_prefix p s ≡ (ok kvs, t)
      → (j : Bytes) → laws.view t j ≡ laws.view s j
  pub read-pairs :
      (p : Bytes) (kvs : List Kv) (s t : c.State)
      → c.get_prefix p s ≡ (ok kvs, t)
      → All
          (λ kv. (has_prefix kv.key p ≡ true) × (laws.view s kv.key ≡ some (kv.value, kv.lease)))
          kvs

-- `range` visits the keys of a map, each of them and no other.
abbrev pub VisitsAll : Config → Type 0
VisitsAll b = (m : List Bytes) (k : Bytes) → mem k (b.order m) ≡ mem k m
