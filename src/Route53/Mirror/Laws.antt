-- ===== src/Route53/Mirror/Laws.antt =====
-- What setRecord and deleteRecord rely on: documented behaviour of the hosted zone and of the tables.
use rdns_server.Base.{
  ◌≡◌, Bool, true, false, ◌&&◌, Option, none, some, List, [], Bytes, same, if◌then◌else◌, ok,
}
use rdns_server.Base.Int.{ℤ}
use rdns_server.Base.Exec.{Exec}
use rdns_server.Database.{Fault, Database, Row, Query}
use rdns_server.Route53.{
  Kind, kind_a, kind_txt, kind_cname, same_kind, RecordSet, HostedZone, trimmed,
}

-- The tables of records.
pub data Table : Type 0 where
  table_a : Table
  table_sub_a : Table
  table_txt : Table
  table_cname : Table

unfoldable pub same_table : Table → Table → Bool
same_table table_a table_a = true
same_table table_sub_a table_sub_a = true
same_table table_txt table_txt = true
same_table table_cname table_cname = true
same_table _ _ = false

-- The table of a kind of records, and of sub-domains or not.
unfoldable pub table_of : Kind → Bool → Table
table_of kind_a false = table_a
table_of kind_a true = table_sub_a
table_of kind_txt sub = table_txt
table_of kind_cname sub = table_cname

-- Do rows of the second table refer to rows of the first?
unfoldable pub cascades : Table → Table → Bool
cascades table_a table_sub_a = true
cascades _ _ = false

module _ {S : Type 0} (db : Database S) where
  unfoldable pub query_row : Table → Bytes → Query S Row
  query_row table_a = db.query_a
  query_row table_sub_a = db.query_sub_a
  query_row table_txt = db.query_txt
  query_row table_cname = db.query_cname

  unfoldable pub insert_row : Table → Row → Exec Fault S ℤ
  insert_row table_a = db.insert_a
  insert_row table_sub_a = db.insert_sub_a
  insert_row table_txt = db.insert_txt
  insert_row table_cname = db.insert_cname

  unfoldable pub update_row : Table → Row → Exec Fault S ℤ
  update_row table_a = db.update_a
  update_row table_sub_a = db.update_sub_a
  update_row table_txt = db.update_txt
  update_row table_cname = db.update_cname

  unfoldable pub drop_row : Table → Bytes → Exec Fault S (Unit {0})
  drop_row table_a = db.delete_a
  drop_row table_sub_a = db.delete_sub_a
  drop_row table_txt = db.delete_txt
  drop_row table_cname = db.delete_cname

module _ {S : Type 0} (z : HostedZone S) (db : Database S) where
  -- Two views of the state, the values of a record set of the zone by its name without the dot at its
  -- end, and the content of a row by its name, and what reads and writes that succeed do to them. Names
  -- are compared byte by byte, as they are where all are in lower case.
  pub record Laws : Type 0 where
    pub values_at : S → Kind → Bytes → Option (List Bytes)
    pub content_at : S → Table → Bytes → Option Bytes
    -- An UPSERT sets one record set, a DELETE removes one; neither touches the database.
    pub values-upsert :
        (r : RecordSet) (k : Kind) (s t : S)
        → r.kind ≡ some k
        → z.upsert r s ≡ (ok tt, t)
        → (j : Kind) (n : Bytes)
        → values_at t j n ≡ (
            if same_kind j k && same (trimmed n) (trimmed r.name)
            then some r.values
            else values_at s j n)
    pub content-upsert :
        (r : RecordSet) (s t : S)
        → z.upsert r s ≡ (ok tt, t)
        → (x : Table) (n : Bytes) → content_at t x n ≡ content_at s x n
    pub values-delete :
        (r : RecordSet) (k : Kind) (s t : S)
        → r.kind ≡ some k
        → z.delete r s ≡ (ok tt, t)
        → (j : Kind) (n : Bytes)
        → values_at t j n
          ≡ (if same_kind j k && same (trimmed n) (trimmed r.name) then none else values_at s j n)
    pub content-delete :
        (r : RecordSet) (s t : S)
        → z.delete r s ≡ (ok tt, t)
        → (x : Table) (n : Bytes) → content_at t x n ≡ content_at s x n
    -- A query changes nothing. An INSERT of a name, and an UPDATE of one that the query finds, leave its row
    -- with the new content, since names are unique in a table; a DELETE leaves none, and may take the
    -- rows with it that refer to its row.
    pub query-row : (x : Table) (n : Bytes) (s : S) → (query_row db x n s).1 ≡ s
    pub content-insert :
        (x : Table) (r : Row) (i : ℤ) (s t : S)
        → insert_row db x r s ≡ (ok i, t)
        → (y : Table) (n : Bytes)
        → content_at t y n
          ≡ (if same_table y x && same n r.fqdn then some r.content else content_at s y n)
    pub content-update :
        (x : Table) (r : Row) (i : ℤ) (s t : S)
        → same (query_row db x r.fqdn s).0.0.fqdn [] ≡ false
        → update_row db x r s ≡ (ok i, t)
        → (y : Table) (n : Bytes)
        → content_at t y n
          ≡ (if same_table y x && same n r.fqdn then some r.content else content_at s y n)
    pub content-drop :
        (x : Table) (m : Bytes) (s t : S)
        → drop_row db x m s ≡ (ok tt, t)
        → (y : Table) (n : Bytes) → cascades x y ≡ false
        → content_at t y n ≡ (if same_table y x && same n m then none else content_at s y n)
    pub values-insert :
        (x : Table) (r : Row) (i : ℤ) (s t : S)
        → insert_row db x r s ≡ (ok i, t)
        → (j : Kind) (n : Bytes) → values_at t j n ≡ values_at s j n
    pub values-update :
        (x : Table) (r : Row) (i : ℤ) (s t : S)
        → update_row db x r s ≡ (ok i, t)
        → (j : Kind) (n : Bytes) → values_at t j n ≡ values_at s j n
    pub values-drop :
        (x : Table) (m : Bytes) (s t : S)
        → drop_row db x m s ≡ (ok tt, t)
        → (j : Kind) (n : Bytes) → values_at t j n ≡ values_at s j n
