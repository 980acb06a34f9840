-- ===== src/Etcdv3/Domains.antt =====
-- The operations on A records of backend/etcdv3/etcdv3.go.
pub mod Slugs
pub mod Stored
pub mod Examples
pub mod Flat
pub mod Writes
pub mod Updates
pub mod Answers
use rdns_server.Base.{
  ℕ, zero, suc, ◌+◌, Bool, true, false, not, ◌&&◌, List, [], ◌∷◌, ◌++◌, Option, none, some, Bytes,
  codes, same, if◌then◌else◌, Result, ok, err,
}
use rdns_server.Base.Int.{ℤ}
use rdns_server.Base.Exec.{Exec, pure, raise, or_raise, ◌>>=◌, ◌>>◌}
use rdns_server.Text.{contains}
use rdns_server.Coredns.Etcd.{Kv}
use rdns_server.Etcdv3.Names.{get_path, find_sub_prefix, find_slug_with_zone, sub_name}
use rdns_server.Model.{Domain, DomainOptions, seconds_left}
use rdns_server.Etcdv3.Client.{Client, Config, Error, panic, no_lookup_results}
use rdns_server.Etcdv3.Leases.{
  first, lookup_keys, lock_slug_name, check_slug_name, check_path_exist, set_token, keep_alive,
  wrapped,
}
use rdns_server.Etcdv3.Keys.{split_keys, sub_hosts, set_record, keys}

module _ (c : Client) (b : Config) where
  unfoldable pub get : DomainOptions → Exec Error c.State Domain
  unfolding lookup_keys split_keys sub_hosts get_path
  get opts = do
    let path = get_path b.prefix opts.fqdn
    kvs ← lookup_keys c b path
    kv ← or_raise (no_lookup_results path) (first kvs)
    r ← split_keys c b true path kvs
    seconds ← c.time_to_live kv.lease
    subs ← sub_hosts c b opts.fqdn (b.order r.subs)
    pure (record {
      fqdn = opts.fqdn;
      hosts = r.hosts;
      sub_domain = subs;
      text = [];
      cname = [];
      expiration = seconds_left seconds;
    })

  -- The loop of `Set`: this many draws are left. The path is that of the last draw that was not frozen,
  -- the slug that of the last draw, and the name is set only by a draw that is free.
  unfoldable pub choose_slug :
      ℕ → ℕ → Bytes → Bytes → Bytes → Exec Error c.State (Bytes × Bytes × Bytes)
  unfolding check_slug_name check_path_exist get_path
  choose_slug zero i path slug fqdn = pure (path, slug, fqdn)
  choose_slug (suc left) i path slug fqdn = do
    let drawn = b.draw i
    let candidate = sub_name drawn b.domain
    let candidate_path = get_path b.prefix candidate
    frozen ← check_slug_name c b drawn
    elim frozen [
      | true ↦ choose_slug left (i + 1) path drawn fqdn
      | false ↦ check_path_exist c b candidate_path >>= λ taken. elim taken [
        | true ↦ choose_slug left (i + 1) candidate_path drawn fqdn
        | false ↦ pure (candidate_path, drawn, candidate)
      ]
    ]

  unfoldable pub set : DomainOptions → Exec Error c.State Domain
  unfolding choose_slug set_record lock_slug_name get
  set opts = do
    choice ← choose_slug 100 0 [] [] opts.fqdn
    set_record c b choice.0 (record opts { fqdn = choice.2 }) false
    lock_slug_name c b choice.1 false
    get (record opts { fqdn = choice.2 })

  unfoldable pub update : DomainOptions → Exec Error c.State Domain
  unfolding lookup_keys set_record lock_slug_name get get_path find_slug_with_zone
  update opts = do
    let path = get_path b.prefix opts.fqdn
    kvs ← lookup_keys c b path
    or_raise (no_lookup_results path) (first kvs)
    set_record c b path opts true
    d ← get opts
    slug ← or_raise panic (find_slug_with_zone opts.fqdn b.domain)
    lock_slug_name c b slug true
    pure d

  -- The keys of the hosts, which hold an underscore.
  unfoldable pub delete_hosts : Bytes → Bytes → List Kv → Exec Error c.State (Unit {0})
  unfolding find_sub_prefix get_path wrapped
  delete_hosts fqdn path [] = pure tt
  delete_hosts fqdn path (v ∷ kvs) = do
    prefix ← or_raise panic (find_sub_prefix v.key path)
    (if not (same prefix []) && contains prefix (codes "_")
        then wrapped (codes "delete") (c.delete (get_path b.prefix (sub_name prefix fqdn)))
        else pure tt)
    delete_hosts fqdn path kvs

  unfoldable pub delete_sub_domains : Bytes → List Bytes → Exec Error c.State (Unit {0})
  unfolding get_path wrapped
  delete_sub_domains fqdn [] = pure tt
  delete_sub_domains fqdn (k ∷ ks) = do
    wrapped (codes "delete") (c.delete_prefix (get_path b.prefix (sub_name k fqdn)))
    delete_sub_domains fqdn ks

  unfoldable pub delete : DomainOptions → Exec Error c.State (Unit {0})
  unfolding get lookup_keys delete_hosts delete_sub_domains wrapped get_path
  delete opts = do
    d ← get opts
    kvs ← lookup_keys c b (get_path b.prefix opts.fqdn)
    delete_hosts opts.fqdn (get_path b.prefix opts.fqdn) kvs
    wrapped (codes "delete") (c.delete (get_path b.prefix opts.fqdn))
    delete_sub_domains opts.fqdn (b.order (keys d.sub_domain))

  unfoldable pub renew : DomainOptions → Exec Error c.State Domain
  unfolding set_token keep_alive lookup_keys split_keys sub_hosts get_path
  renew opts = do
    let path = get_path b.prefix opts.fqdn
    token ← set_token c b opts.fqdn true
    seconds ← keep_alive c b token.0
    kvs ← lookup_keys c b path
    or_raise (no_lookup_results path) (first kvs)
    r ← split_keys c b false path kvs
    subs ← sub_hosts c b opts.fqdn (b.order r.subs)
    pure (record {
      fqdn = opts.fqdn;
      hosts = r.hosts;
      sub_domain = subs;
      text = [];
      cname = [];
      expiration = seconds_left seconds;
    })
