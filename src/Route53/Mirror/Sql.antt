-- ===== src/Route53/Mirror/Sql.antt =====
-- What is relied on of Route 53 and MySQL where database/mysql/mysql.go is the database.
use rdns_server.Base.{
  ◌≡◌, false, ◌&&◌, Option, none, some, List, [], ◌∷◌, Bytes, codes, same, if◌then◌else◌, ok,
}
use rdns_server.Base.Int.{ℤ}
use rdns_server.Database.{Row}
use rdns_server.Database.Mysql.{Sql}
use rdns_server.Database.Mysql.Scan.{Value, text, number}
use rdns_server.Route53.{Kind, same_kind, RecordSet, HostedZone, trimmed}
use rdns_server.Route53.Mirror.Laws.{
  Table, table_a, table_sub_a, table_txt, table_cname, same_table, cascades,
}

-- The statements that write and read the row of a name.
unfoldable pub insert_statement : Table → Bytes
insert_statement table_a =
    codes "INSERT INTO record_a (fqdn, type, content, created_on, tid) VALUES (?, ?, ?, ?, ?)"
insert_statement table_sub_a =
    codes "INSERT INTO sub_record_a (fqdn, type, content, created_on, pid) VALUES (?, ?, ?, ?, ?)"
insert_statement table_txt =
    codes "INSERT INTO record_txt (fqdn, type, content, created_on, tid) VALUES (?, ?, ?, ?, ?)"
insert_statement table_cname =
    codes "INSERT INTO record_cname (fqdn, type, content, created_on, tid) VALUES (?, ?, ?, ?, ?)"

unfoldable pub update_statement : Table → Bytes
update_statement table_a =
    codes "UPDATE record_a SET type = ?, content = ?, created_on = ?, tid = ? WHERE fqdn = ?"
update_statement table_sub_a =
    codes "UPDATE sub_record_a SET type = ?, content = ?, created_on = ?, pid = ? WHERE fqdn = ?"
update_statement table_txt =
    codes "UPDATE record_txt SET type = ?, content = ?, created_on = ?, tid = ? WHERE fqdn = ?"
update_statement table_cname =
    codes "UPDATE record_cname SET type = ?, content = ?, created_on = ?, tid = ? WHERE fqdn = ?"

unfoldable pub delete_statement : Table → Bytes
delete_statement table_a = codes "DELETE FROM record_a WHERE fqdn = ?"
delete_statement table_sub_a = codes "DELETE FROM sub_record_a WHERE fqdn = ?"
delete_statement table_txt = codes "DELETE FROM record_txt WHERE fqdn = ?"
delete_statement table_cname = codes "DELETE FROM record_cname WHERE fqdn = ?"

unfoldable pub select_statement : Table → Bytes
select_statement table_a = codes "SELECT * FROM record_a WHERE fqdn = ?"
select_statement table_sub_a = codes "SELECT * FROM sub_record_a WHERE fqdn = ?"
select_statement table_txt = codes "SELECT * FROM record_txt WHERE fqdn = ?"
select_statement table_cname = codes "SELECT * FROM record_cname WHERE fqdn = ?"

abbrev pub insert_args : Row → List Value
insert_args r =
    text r.fqdn ∷ number r.rtype ∷ text r.content ∷ number r.created_on ∷ number r.parent ∷ []

abbrev pub update_args : Row → List Value
update_args r =
    number r.rtype ∷ text r.content ∷ number r.created_on ∷ number r.parent ∷ text r.fqdn ∷ []

-- The content of a row that is there is another.
unfoldable pub renewed : Bytes → Option Bytes → Option Bytes
renewed c none = none
renewed c (some d) = some c

module _ {S : Type 0} (z : HostedZone S) (sql : Sql S) where
  -- Two views of the state, the values of a record set of the zone and the content of a row, and what
  -- Route 53 and MySQL do to them where they report success. Names are unique in a table and compared
  -- byte by byte, as they are where all are in lower case.
  pub record SqlLaws : Type 0 where
    pub values_at : S → Kind → Bytes → Option (List Bytes)
    pub content_at : S → Table → Bytes → Option Bytes
    -- An UPSERT sets one record set, a DELETE removes one; neither touches the database.
    pub values-upsert :
        (r : RecordSet) (k : Kind) (s t : S)
        → r.kind ≡ some k
        → z.upsert r s ≡ (ok tt, t)
        → (j : Kind) (n : Bytes)
        → values_at t j n ≡ (
            if same_kind j k && same (trimmed n) (trimmed r.name)
            then some r.values
            else values_at s j n)
    pub content-upsert :
        (r : RecordSet) (s t : S)
        → z.upsert r s ≡ (ok tt, t)
        → (x : Table) (n : Bytes) → content_at t x n ≡ content_at s x n
    pub values-delete :
        (r : RecordSet) (k : Kind) (s t : S)
        → r.kind ≡ some k
        → z.delete r s ≡ (ok tt, t)
        → (j : Kind) (n : Bytes)
        → values_at t j n
          ≡ (if same_kind j k && same (trimmed n) (trimmed r.name) then none else values_at s j n)
    pub content-delete :
        (r : RecordSet) (s t : S)
        → z.delete r s ≡ (ok tt, t)
        → (x : Table) (n : Bytes) → content_at t x n ≡ content_at s x n
    -- A SELECT changes nothing, and gives no row for a name that has none.
    pub query-keeps :
        (x : Table) (n : Bytes) (s : S) → (sql.query (select_statement x) (text n ∷ []) s).1 ≡ s
    pub query-none :
        (x : Table) (n : Bytes) (rows : List (List Value)) (s t : S)
        → content_at s x n ≡ none
        → sql.query (select_statement x) (text n ∷ []) s ≡ (ok rows, t)
        → rows ≡ []
    -- An INSERT adds a row, an UPDATE changes the row of the name, and a DELETE removes it and may take
    -- the rows with it that refer to it; none of them touches the zone.
    pub content-insert :
        (x : Table) (r : Row) (i : ℤ) (s t : S)
        → sql.exec (insert_statement x) (insert_args r) s ≡ (ok i, t)
        → (y : Table) (n : Bytes)
        → content_at t y n
          ≡ (if same_table y x && same n r.fqdn then some r.content else content_at s y n)
    pub content-update :
        (x : Table) (r : Row) (i : ℤ) (s t : S)
        → sql.exec (update_statement x) (update_args r) s ≡ (ok i, t)
        → (y : Table) (n : Bytes)
        → content_at t y n ≡ (
            if same_table y x && same n r.fqdn
            then renewed r.content (content_at s y n)
            else content_at s y n)
    pub content-drop :
        (x : Table) (m : Bytes) (i : ℤ) (s t : S)
        → sql.exec (delete_statement x) (text m ∷ []) s ≡ (ok i, t)
        → (y : Table) (n : Bytes) → cascades x y ≡ false
        → content_at t y n ≡ (if same_table y x && same n m then none else content_at s y n)
    pub values-insert :
        (x : Table) (r : Row) (i : ℤ) (s t : S)
        → sql.exec (insert_statement x) (insert_args r) s ≡ (ok i, t)
        → (j : Kind) (n : Bytes) → values_at t j n ≡ values_at s j n
    pub values-update :
        (x : Table) (r : Row) (i : ℤ) (s t : S)
        → sql.exec (update_statement x) (update_args r) s ≡ (ok i, t)
        → (j : Kind) (n : Bytes) → values_at t j n ≡ values_at s j n
    pub values-drop :
        (x : Table) (m : Bytes) (i : ℤ) (s t : S)
        → sql.exec (delete_statement x) (text m ∷ []) s ≡ (ok i, t)
        → (j : Kind) (n : Bytes) → values_at t j n ≡ values_at s j n
