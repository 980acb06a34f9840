-- ===== src/Route53.antt =====
-- backend/route53/route53.go: what the backend keeps and calls, its filters, and how it sets and deletes
-- one record in the hosted zone and in the database.
pub mod Filters
pub mod Domains
pub mod Records
pub mod Slugs
pub mod Mirror
pub mod Memory
pub mod Examples
pub mod Interface
use rdns_server.Base.{
  ℕ, Bool, true, false, not, ◌&&◌, List, [], ◌∷◌, Option, none, some, Bytes, codes, same, leb,
  length, ◌++◌, if◌then◌else◌, Result, ok, err,
}
use rdns_server.Base.Int.{ℤ, pos, ◌+ℤ◌}
use rdns_server.Base.Exec.{Exec, pure, ◌>>=◌, ◌>>◌}
use rdns_server.Text.{join, trim_right_set, dot}
use rdns_server.Model.{Expiration, unix_nano}
use rdns_server.Database.{Fault, no_rows, Database, Row, Query, no_row}
use rdns_server.Etcdv3.Names.{sub_name}

-- The types of records that the backend knows.
pub data Kind : Type 0 where
  kind_a : Kind
  kind_txt : Kind
  kind_cname : Kind

unfoldable pub same_kind : Kind → Kind → Bool
same_kind kind_a kind_a = true
same_kind kind_txt kind_txt = true
same_kind kind_cname kind_cname = true
same_kind _ _ = false

-- route53.ResourceRecordSet: its name, type and values; `kind` is `none` for any other type. The TTL is
-- that of the backend.
pub record RecordSet : Type 0 where
  pub name : Bytes
  pub kind : Option Kind
  pub values : List Bytes

-- The errors: those of the database and of the client of Route 53, with errors.Wrapf as `wrap`.
pub data Error : Type 0 where
  database : Fault → Error
  route53 : Bytes → Error
  filter_records : Bytes → Error
  exist_record : Bytes → Error
  generate_name : Error
  panic : Error
  wrap : Bytes → Error → Error

-- The client of Route 53 for the hosted zone: ListResourceRecordSets from a name and a type on, and
-- ChangeResourceRecordSets with one UPSERT or one DELETE.
pub record HostedZone (S : Type 0) : Type 0 where
  pub list : Bytes → Kind → Exec Bytes S (List RecordSet)
  pub upsert : RecordSet → Exec Bytes S (Unit {0})
  pub delete : RecordSet → Exec Bytes S (Unit {0})

-- The Backend struct without its client, the clock, the draws of generateSlug and generateToken, and
-- the order in which `range` visits a map.
pub record Settings (S : Type 0) : Type 0 where
  pub zone : Bytes
  -- in nanoseconds
  pub lease_time : ℤ
  -- time.Now().Unix()
  pub unix_now : S → ℤ
  pub draw : ℕ → Bytes
  pub fresh_token : Bytes
  pub order : List (Bytes × List Bytes) → List (Bytes × List Bytes)

-- fmt.Sprintf("empty.%s", fqdn) and fmt.Sprintf("\\052.%s", fqdn)
abbrev pub empty_name : Bytes → Bytes
empty_name fqdn = codes "empty." ++ fqdn

abbrev pub wildcard_name : Bytes → Bytes
wildcard_name fqdn = b'\\' ∷ codes "052." ++ fqdn

-- strings.TrimRight(name, ".")
abbrev pub trimmed : Bytes → Bytes
trimmed = trim_right_set (dot ∷ [])

module _ {S : Type 0} where
  mapped : {E F A : Type 0} → (E → F) → Result E A × S → Result F A × S
  mapped f (ok a, s) = (ok a, s)
  mapped f (err e, s) = (err (f e), s)

  -- An action of the database or of Route 53, with its error as one of the backend.
  unfoldable pub of_database : {A : Type 0} → Exec Fault S A → Exec Error S A
  unfolding mapped
  of_database m s = mapped database (m s)

  unfoldable pub of_route53 : {A : Type 0} → Exec Bytes S A → Exec Error S A
  unfolding mapped
  of_route53 m s = mapped route53 (m s)

  -- errors.Wrapf
  unfoldable pub wrapped : {A : Type 0} → Bytes → Exec Error S A → Exec Error S A
  unfolding mapped
  wrapped text m s = mapped (wrap text) (m s)

  value_of : {A : Type 0} → (A × Option Fault) × S → Result Error A × S
  value_of ((a, e), s) = (ok a, s)

  -- `result, _ := query`
  unfoldable pub dropping : {A : Type 0} → Query S A → Exec Error S A
  unfolding value_of
  dropping q s = value_of (q s)

module _ {S : Type 0} (z : HostedZone S) (db : Database S) (b : Settings S) where
  unfoldable pub get_records : Bytes → Kind → Exec Error S (List RecordSet)
  unfolding wrapped of_route53
  get_records fqdn kind = wrapped (codes "found") (of_route53 (z.list fqdn kind))

  row_of : RecordSet → ℤ → ℤ → ℤ → Row
  row_of rrs rtype parent created = record {
    id = pos 0;
    fqdn = rrs.name;
    rtype = rtype;
    content = join b',' rrs.values;
    created_on = created;
    updated_on = none;
    parent = parent;
  }

  unfoldable pub put_row :
      Bool → (Row → Exec Fault S ℤ) → (Row → Exec Fault S ℤ) → Row → Exec Error S ℤ
  unfolding of_database
  put_row false update insert row = of_database (update row)
  put_row true update insert row = of_database (insert row)

  -- The row is updated if the query finds one with a name, and inserted otherwise.
  unfoldable pub upsert_row :
      Query S Row → (Row → Exec Fault S ℤ) → (Row → Exec Fault S ℤ) → Row → Exec Error S ℤ
  unfolding dropping put_row
  upsert_row query update insert row = do
    found ← dropping query
    put_row (same found.fqdn []) update insert row

  -- The row that `setRecordToDatabase` writes.
  unfoldable pub database_row : RecordSet → Kind → ℤ → ℤ → Bool → S → Row
  unfolding row_of
  database_row rrs kind_a tid pid false s = row_of rrs (pos 1) tid (b.unix_now s)
  database_row rrs kind_a tid pid true s = row_of rrs (pos 2) pid (b.unix_now s)
  database_row rrs kind_txt tid pid sub s = row_of rrs (pos 0) tid (b.unix_now s)
  database_row rrs kind_cname tid pid sub s = row_of rrs (pos 3) tid (b.unix_now s)

  unfoldable pub set_record_to_database : RecordSet → Kind → ℤ → ℤ → Bool → Exec Error S ℤ
  unfolding upsert_row database_row
  set_record_to_database rrs kind_a tid pid false s =
      upsert_row (db.query_a rrs.name) db.update_a db.insert_a
        (database_row rrs kind_a tid pid false s) s
  set_record_to_database rrs kind_a tid pid true s =
      upsert_row (db.query_sub_a rrs.name) db.update_sub_a db.insert_sub_a
        (database_row rrs kind_a tid pid true s) s
  set_record_to_database rrs kind_txt tid pid sub s =
      upsert_row (db.query_txt rrs.name) db.update_txt db.insert_txt
        (database_row rrs kind_txt tid pid sub s) s
  set_record_to_database rrs kind_cname tid pid sub s =
      upsert_row (db.query_cname rrs.name) db.update_cname db.insert_cname
        (database_row rrs kind_cname tid pid sub s) s

  unfoldable pub delete_row : Bytes → Kind → Bool → Exec Fault S (Unit {0})
  delete_row name kind_a false = db.delete_a name
  delete_row name kind_a true = db.delete_sub_a name
  delete_row name kind_txt sub = db.delete_txt name
  delete_row name kind_cname sub = db.delete_cname name

  unfoldable pub delete_record_from_database : RecordSet → Kind → Bool → Exec Error S (Unit {0})
  unfolding delete_row of_database
  delete_record_from_database rrs kind sub = of_database (delete_row (trimmed rrs.name) kind sub)

  -- The UPSERT is left out for a record set with no values.
  unfoldable pub upsert_zone : RecordSet → Exec Error S (Unit {0})
  unfolding of_route53 wrapped
  upsert_zone rrs =
      if leb 1 (length rrs.values)
      then wrapped (codes "upsert") (of_route53 (z.upsert rrs))
      else pure tt

  unfoldable pub set_record : RecordSet → Kind → ℤ → ℤ → Bool → Exec Error S ℤ
  unfolding upsert_zone set_record_to_database wrapped
  set_record rrs kind tid pid sub = do
    upsert_zone rrs
    wrapped (codes "insert") (set_record_to_database rrs kind tid pid sub)

  unfoldable pub delete_record : RecordSet → Kind → Bool → Exec Error S (Unit {0})
  unfolding delete_record_from_database wrapped of_route53
  delete_record rrs kind sub = do
    wrapped (codes "delete route53") (of_route53 (z.delete (record rrs { kind = some kind })))
    wrapped (codes "delete database") (delete_record_from_database rrs kind sub)

  -- convertExpiration
  unfoldable pub expiration_of : ℤ → Expiration
  expiration_of created = unix_nano (created +ℤ b.lease_time)
