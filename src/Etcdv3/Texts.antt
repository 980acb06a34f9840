-- ===== src/Etcdv3/Texts.antt =====
-- TXT records, CNAME records and migration of backend/etcdv3/etcdv3.go.
use rdns_server.Base.{
  true, false, [], Option, none, some, Bytes, codes, same, get_elem?, if◌then◌else◌,
}
use rdns_server.Base.Exec.{Exec, pure, raise, or_raise, ◌>>=◌, ◌>>◌}
use rdns_server.Text.{split, slash}
use rdns_server.Etcdv3.Names.{
  get_path, get_frozen_path, get_token_path, find_slug_with_zone, sub_name, format_text_value,
  too_short,
}
use rdns_server.Model.{
  Domain, DomainOptions, MigrateRecord, MigrateFrozen, MigrateToken, no_domain, seconds_left,
}
use rdns_server.Etcdv3.Client.{Client, Config, Error, panic, empty_record, not_valid_domain_name}
use rdns_server.Etcdv3.Leases.{first, set_token, grant_new, wrapped}
use rdns_server.Etcdv3.Keys.{fields_of, put_empty, bring_up_to_date}

text_of : Option Bytes → Bytes
text_of none = []
text_of (some t) = t

module _ (c : Client) (b : Config) where
  unfoldable pub get_text : DomainOptions → Exec Error c.State Domain
  unfolding too_short get_path wrapped fields_of text_of
  get_text opts =
      if too_short opts.fqdn b.domain then raise (not_valid_domain_name opts.fqdn) else do
        kvs ← wrapped (codes "empty") (c.get (get_path b.prefix opts.fqdn))
        kv ← or_raise (empty_record (get_path b.prefix opts.fqdn)) (first kvs)
        seconds ← c.time_to_live kv.lease
        m ← fields_of c b kv
        pure (record {
          fqdn = opts.fqdn;
          hosts = [];
          sub_domain = [];
          text = text_of m.text;
          cname = [];
          expiration = seconds_left seconds;
        })

  -- The text is put under the lease of the slug's token.
  unfoldable pub put_text : DomainOptions → Exec Error c.State (Unit {0})
  unfolding find_slug_with_zone set_token get_path format_text_value wrapped
  put_text opts = do
    slug ← or_raise panic (find_slug_with_zone opts.fqdn b.domain)
    lease ← set_token c b (sub_name slug b.domain) true
    wrapped (codes "set")
        (c.put (get_path b.prefix opts.fqdn) (format_text_value opts.text) lease.0)

  unfoldable pub set_text : DomainOptions → Exec Error c.State Domain
  unfolding too_short put_text get_text
  set_text opts =
      if too_short opts.fqdn b.domain
      then raise (not_valid_domain_name opts.fqdn)
      else do put_text opts; get_text opts

  unfoldable pub update_text : DomainOptions → Exec Error c.State Domain
  unfolding too_short put_text get_text
  update_text opts =
      if too_short opts.fqdn b.domain
      then raise (not_valid_domain_name opts.fqdn)
      else do get_text opts; put_text opts; get_text opts

  unfoldable pub delete_text : DomainOptions → Exec Error c.State (Unit {0})
  unfolding get_path wrapped
  delete_text opts = wrapped (codes "delete") (c.delete (get_path b.prefix opts.fqdn))

  -- The CNAME operations do nothing.
  unfoldable pub set_cname : DomainOptions → Exec Error c.State Domain
  set_cname opts = pure no_domain

  unfoldable pub delete_cname : DomainOptions → Exec Error c.State (Unit {0})
  delete_cname opts = pure tt

  unfoldable pub migrate_frozen : MigrateFrozen → Exec Error c.State (Unit {0})
  unfolding grant_new wrapped get_frozen_path
  migrate_frozen opts = do
    lease ← grant_new c b opts.expires_in
    wrapped (codes "set") (c.put (get_frozen_path b.prefix opts.path) [] lease.0)

  -- The name is the third part of the path; `panic` is an index out of range.
  unfoldable pub migrate_token : MigrateToken → Exec Error c.State (Unit {0})
  unfolding grant_new wrapped get_token_path
  migrate_token opts = do
    name ← or_raise panic (get_elem? (split slash opts.path) 2)
    lease ← grant_new c b opts.expires_in
    wrapped (codes "set") (c.put (get_token_path name) opts.token lease.0)

  unfoldable pub migrate_record : MigrateRecord → Exec Error c.State (Unit {0})
  unfolding set_text set_token put_empty bring_up_to_date get_path
  migrate_record opts =
      if same opts.text []
      then (let dopts : DomainOptions = record {
        fqdn = opts.fqdn;
        hosts = opts.hosts;
        sub_domain = opts.sub_domain;
        text = [];
        cname = [];
        normal = false;
      } in
          do
            token ← set_token c b dopts.fqdn true
            put_empty c b false (get_path b.prefix dopts.fqdn) token.0
            bring_up_to_date c b (get_path b.prefix dopts.fqdn) dopts token.0)
      else (let dopts : DomainOptions = record {
        fqdn = opts.fqdn;
        hosts = [];
        sub_domain = [];
        text = opts.text;
        cname = [];
        normal = false;
      } in
          do set_text dopts; pure tt)
