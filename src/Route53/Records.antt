-- ===== src/Route53/Records.antt =====
-- The CNAME and TXT records, tokens and migrations of backend/route53/route53.go.
pub mod Quotes
use rdns_server.Base.{
  ℕ, Bool, true, false, not, ◌&&◌, ◌||◌, List, [], ◌∷◌, ◌++◌, Option, none, some, Bytes, codes,
  same, leb, length, if◌then◌else◌, Result, ok, err,
}
use rdns_server.Base.Int.{ℤ, pos}
use rdns_server.Base.Exec.{Exec, pure, raise, or_raise, ◌>>=◌, ◌>>◌}
use rdns_server.Text.{trim_set, dot}
use rdns_server.Model.{Domain, DomainOptions, MigrateRecord, MigrateFrozen, MigrateToken, no_domain}
use rdns_server.Database.{Fault, Database, Row, Token, checked}
use rdns_server.Route53.{
  Kind, kind_a, kind_txt, kind_cname, RecordSet, Error, filter_records, exist_record, panic,
  HostedZone, Settings, wildcard_name, wrapped, of_database, get_records, set_record, delete_record,
  expiration_of,
}
use rdns_server.Route53.Filters
use rdns_server.Route53.Filters.{find_slug_with_zone}
use rdns_server.Route53.Domains.{
  query_token, freeze_name, set_token, set_all, hold_empty, delete_sets,
}

-- A record set with one value.
unfoldable pub one_value : Kind → Bytes → Bytes → RecordSet
one_value kind name value = record { name = name; kind = some kind; values = value ∷ [] }

-- A text in quotation marks.
unfoldable pub quoted : Bytes → Bytes
quoted text = b'"' ∷ (text ++ b'"' ∷ [])

unfoldable pub first_value : List Bytes → Result Error Bytes
first_value [] = err panic
first_value (v ∷ vs) = ok v

-- rrs[0].ResourceRecords[0].Value: no record set is an error, no value in it a panic.
unfoldable pub value_of_first : Bytes → List RecordSet → Result Error Bytes
unfolding first_value
value_of_first fqdn [] = err (filter_records fqdn)
value_of_first fqdn (rs ∷ rrs) = first_value rs.values

module _ {S : Type 0} (z : HostedZone S) (db : Database S) (b : Settings S) where
  unfoldable pub filtered : Bytes → Kind → Exec Error S Filters.Filtered
  unfolding get_records Filters.filter_records
  filtered fqdn kind = do
    records ← get_records z db b fqdn kind
    pure (Filters.filter_records records fqdn kind)

  -- The record sets, if there is one of the name itself.
  unfoldable pub valid_or_raise : Bytes → Filters.Filtered → Exec Error S (Unit {0})
  valid_or_raise fqdn f s = elim f.valid [
    | true ↦ (ok tt, s)
    | false ↦ (err (filter_records fqdn), s)
  ]

  -- A domain with a text or a CNAME, and the expiration of the token of its slug.
  unfoldable pub expiring : Bytes → Domain → Exec Error S Domain
  unfolding query_token find_slug_with_zone expiration_of
  expiring fqdn d = do
    token ← query_token z db b (find_slug_with_zone b.zone fqdn) fqdn
    pure (record d { expiration = expiration_of z db b token.created_on })

  unfoldable pub value_or_raise : Bytes → List RecordSet → Exec Error S Bytes
  unfolding value_of_first
  value_or_raise fqdn rrs s = (value_of_first fqdn rrs, s)

  unfoldable pub get_cname : DomainOptions → Exec Error S Domain
  unfolding filtered valid_or_raise value_or_raise expiring query_token find_slug_with_zone
      expiration_of
  get_cname opts = do
    f ← filtered opts.fqdn kind_cname
    valid_or_raise opts.fqdn f
    d ← expiring opts.fqdn (record no_domain { fqdn = opts.fqdn })
    value ← value_or_raise opts.fqdn f.c
    pure (record d { cname = value })

  unfoldable pub set_named : Kind → Bytes → Bytes → ℤ → Exec Error S (Unit {0})
  unfolding set_record one_value
  set_named kind fqdn value tid = do
    set_record z db b (one_value kind fqdn value) kind tid (pos 0) false
    pure tt

  -- The CNAME record of a domain and its wildcard.
  unfoldable pub set_both : Bytes → Bytes → ℤ → Exec Error S (Unit {0})
  unfolding set_named
  set_both fqdn value tid = do
    set_named kind_cname fqdn value tid
    set_named kind_cname (wildcard_name fqdn) value tid

  unfoldable pub set_cname : DomainOptions → Exec Error S Domain
  unfolding freeze_name get_cname set_token set_both wrapped
  set_cname opts = do
    fqdn ← freeze_name z db b get_cname opts.fqdn
    tid ← wrapped (codes "insert token") (set_token z db b fqdn false)
    set_both fqdn opts.cname tid
    get_cname (record opts { fqdn = fqdn })

  unfoldable pub update_cname : DomainOptions → Exec Error S Domain
  unfolding filtered valid_or_raise of_database wrapped set_both expiring
  update_cname opts = do
    f ← filtered opts.fqdn kind_cname
    valid_or_raise opts.fqdn f
    r ← wrapped (codes "query CNAME") (of_database (checked (db.query_cname opts.fqdn)))
    set_both opts.fqdn opts.cname r.parent
    expiring opts.fqdn (record no_domain { fqdn = opts.fqdn; cname = opts.cname })

  unfoldable pub delete_cname : DomainOptions → Exec Error S (Unit {0})
  unfolding filtered valid_or_raise delete_sets
  delete_cname opts = do
    f ← filtered opts.fqdn kind_cname
    valid_or_raise opts.fqdn f
    delete_sets z db b false kind_cname f.c

  unfoldable pub get_text : DomainOptions → Exec Error S Domain
  unfolding filtered valid_or_raise value_or_raise expiring
  get_text opts = do
    f ← filtered opts.fqdn kind_txt
    valid_or_raise opts.fqdn f
    d ← expiring opts.fqdn (record no_domain { fqdn = opts.fqdn })
    value ← value_or_raise opts.fqdn f.t
    pure (record d { text = trim_set (b'"' ∷ []) value })

  unfoldable pub set_text : DomainOptions → Exec Error S Domain
  unfolding filtered query_token find_slug_with_zone set_named quoted get_text
  set_text opts = do
    f ← filtered opts.fqdn kind_txt
    elim f.valid [
      | true ↦ raise (exist_record opts.fqdn)
      | false ↦ query_token z db b (find_slug_with_zone b.zone opts.fqdn) opts.fqdn >>= λ token.
          set_named kind_txt opts.fqdn (quoted opts.text) token.id >> get_text opts
    ]

  unfoldable pub update_text : DomainOptions → Exec Error S Domain
  unfolding filtered valid_or_raise of_database wrapped set_named quoted expiring
  update_text opts = do
    f ← filtered opts.fqdn kind_txt
    valid_or_raise opts.fqdn f
    r ← wrapped (codes "query TXT") (of_database (checked (db.query_txt opts.fqdn)))
    set_named kind_txt opts.fqdn (quoted opts.text) r.parent
    expiring opts.fqdn (record no_domain { fqdn = opts.fqdn; hosts = opts.hosts; text = opts.text })

  unfoldable pub delete_text : DomainOptions → Exec Error S (Unit {0})
  unfolding filtered valid_or_raise delete_sets
  delete_text opts = do
    f ← filtered opts.fqdn kind_txt
    valid_or_raise opts.fqdn f
    delete_sets z db b false kind_txt f.t

  unfoldable pub get_token : Bytes → Exec Error S Bytes
  unfolding of_database
  get_token fqdn = do token ← of_database (checked (db.query_token fqdn)); pure token.token

  unfoldable pub get_token_count : Exec Error S ℤ
  unfolding of_database
  get_token_count = of_database db.query_token_count

  unfoldable pub migrate_frozen : MigrateFrozen → Exec Error S (Unit {0})
  unfolding of_database
  migrate_frozen opts = of_database (db.migrate_frozen opts.path opts.nano)

  unfoldable pub migrate_token : MigrateToken → Exec Error S (Unit {0})
  unfolding of_database
  migrate_token opts = of_database (db.migrate_token opts.token opts.path opts.nano)

  unfoldable pub migrate_record : MigrateRecord → Exec Error S (Unit {0})
  unfolding set_text query_token find_slug_with_zone hold_empty set_all
  migrate_record opts =
      let dopts : DomainOptions = record {
        fqdn = opts.fqdn;
        hosts = if same opts.text [] then opts.hosts else [];
        sub_domain = if same opts.text [] then opts.sub_domain else [];
        text = opts.text;
        cname = [];
        normal = false;
      } in
      if same opts.text []
      then (do
        token ← query_token z db b (find_slug_with_zone b.zone dopts.fqdn) dopts.fqdn
        pid ← hold_empty z db b dopts.fqdn token.id
        set_all z db b dopts.fqdn dopts token.id pid)
      else (do set_text dopts; pure tt)
