-- ===== src/Etcdv3/Keys.antt =====
-- The keys below a path as hosts and sub-domains, and how `setRecord` and its like bring them up to
-- date (backend/etcdv3/etcdv3.go).
use rdns_server.Base.{
  ℕ, Bool, true, false, not, ◌&&◌, List, [], ◌∷◌, map, none, some, Bytes, codes, same,
  if◌then◌else◌,
}
use rdns_server.Base.Exec.{Exec, pure, or_raise, ◌>>=◌, ◌>>◌}
use rdns_server.Text.{contains}
use rdns_server.Coredns.Etcd.{Kv}
use rdns_server.Etcdv3.Names.{get_path, find_sub_prefix, sub_name, format_value}
use rdns_server.Model.{Domain, DomainOptions, seconds_left}
use rdns_server.Etcdv3.Client.{Client, Config, Fields, Error, panic, bad_value, mem}
use rdns_server.Etcdv3.Leases.{lookup_keys, set_token, wrapped}
use rdns_server.Etcdv3.Sync.{sync_records}

-- The sub-domains, each once, and the hosts that lie below a path.
pub record Split : Type 0 where
  pub subs : List Bytes
  pub hosts : List Bytes

unfoldable pub add_sub : Bytes → Split → Split
unfolding mem
add_sub k r = if mem k r.subs then r else record r { subs = k ∷ r.subs }

unfoldable pub add_host : Bytes → Split → Split
add_host h r = record r { hosts = h ∷ r.hosts }

-- Is the key, which lies behind `prefix` and has these fields, one of a sub-domain?
unfoldable pub is_sub : Bytes → Fields → Bool
is_sub prefix m =
    not (same prefix [])
    && not (contains prefix (codes "_"))
    && (elim m.text [ none ↦ true | some t ↦ false ])

-- The keys of a map of sub-domains, and a look into it.
abbrev pub keys : List (Bytes × List Bytes) → List Bytes
keys = map (λ e. e.0)

module _ (c : Client) (b : Config) where
  unfoldable pub fields_of : Kv → Exec Error c.State Fields
  fields_of v = or_raise (bad_value v.key) (b.unmarshal v.value)

  -- The loop over the keys below a path. `Get` alone leaves empty hosts out.
  unfoldable pub split_keys : Bool → Bytes → List Kv → Exec Error c.State Split
  unfolding fields_of find_sub_prefix is_sub add_sub add_host
  split_keys filled path [] = pure (record { subs = []; hosts = [] })
  split_keys filled path (v ∷ kvs) = do
    prefix ← or_raise panic (find_sub_prefix v.key path)
    m ← fields_of v
    rest ← split_keys filled path kvs
    pure (
        if is_sub prefix m
        then add_sub prefix rest
        else if filled && same m.host []
        then rest
        else add_host m.host rest)

  unfoldable pub hosts_of : List Kv → Exec Error c.State (List Bytes)
  unfolding fields_of
  hosts_of [] = pure []
  hosts_of (v ∷ kvs) = do m ← fields_of v; hosts ← hosts_of kvs; pure (m.host ∷ hosts)

  -- `for k := range subs`, over the keys in the order of the range
  unfoldable pub sub_hosts : Bytes → List Bytes → Exec Error c.State (List (Bytes × List Bytes))
  unfolding lookup_keys hosts_of get_path
  sub_hosts fqdn [] = pure []
  sub_hosts fqdn (k ∷ ks) = do
    kvs ← lookup_keys c b (get_path b.prefix (sub_name k fqdn))
    hosts ← hosts_of kvs
    rest ← sub_hosts fqdn ks
    pure ((k, hosts) ∷ rest)

  -- The sub-domains that the options do not have are deleted.
  unfoldable pub delete_subs : DomainOptions → List Bytes → Exec Error c.State (Unit {0})
  unfolding mem get_path
  delete_subs opts [] = pure tt
  delete_subs opts (k ∷ ks) = elim (mem k (keys opts.sub_domain)) [
    | true ↦ delete_subs opts ks
    | false ↦ c.delete_prefix (get_path b.prefix (sub_name k opts.fqdn)) >> delete_subs opts ks
  ]

  -- `for prefix, values := range opts.SubDomain`; its order is that of the list.
  unfoldable pub sync_subs : Bytes → ℕ → List (Bytes × List Bytes) → Exec Error c.State (Unit {0})
  unfolding lookup_keys hosts_of wrapped get_path sync_records
  sync_subs fqdn lease [] = pure tt
  sync_subs fqdn lease ((k, values) ∷ subs) = do
    let path = get_path b.prefix (sub_name k fqdn)
    kvs ← lookup_keys c b path
    hosts ← hosts_of kvs
    wrapped (codes "sync sub") (sync_records c b values hosts path lease)
    sync_subs fqdn lease subs

  unfoldable pub set_sub_records : DomainOptions → List Bytes → ℕ → Exec Error c.State (Unit {0})
  unfolding delete_subs sync_subs
  set_sub_records opts origins lease = do
    delete_subs opts (b.order origins)
    sync_subs opts.fqdn lease opts.sub_domain

  -- What `setRecord` and `MigrateRecord` do once the lease is known.
  unfoldable pub bring_up_to_date : Bytes → DomainOptions → ℕ → Exec Error c.State (Unit {0})
  unfolding lookup_keys split_keys sub_hosts sync_records set_sub_records wrapped
  bring_up_to_date path opts lease = do
    kvs ← lookup_keys c b path
    old ← split_keys false path kvs
    subs ← sub_hosts opts.fqdn (b.order old.subs)
    wrapped (codes "sync") (sync_records c b opts.hosts old.hosts path lease)
    wrapped (codes "set sub") (set_sub_records opts (keys subs) lease)

  unfoldable pub put_empty : Bool → Bytes → ℕ → Exec Error c.State (Unit {0})
  unfolding format_value
  put_empty true path lease = pure tt
  put_empty false path lease = c.put path (format_value []) lease

  -- The flag says whether the domain is there already.
  unfoldable pub set_record : Bytes → DomainOptions → Bool → Exec Error c.State Domain
  unfolding set_token put_empty bring_up_to_date
  set_record path opts exist = do
    token ← set_token c b opts.fqdn exist
    put_empty exist path token.0
    bring_up_to_date path opts token.0
    pure (record {
      fqdn = opts.fqdn;
      hosts = opts.hosts;
      sub_domain = opts.sub_domain;
      text = [];
      cname = [];
      expiration = seconds_left token.1;
    })
