-- ===== src/Route53/Mirror/Mysql.antt =====
-- setRecord and deleteRecord of backend/route53/route53.go over the tables of database/mysql/mysql.go.
use rdns_server.Base.{
  ◌≡◌, refl, sym, ap, ◌∙◌, inl, inr, Bool, true, false, ◌&&◌, Option, some, List, [], ◌∷◌, Bytes,
  same, same_iff, leb, length, if◌then◌else◌, Result, ok, err, Option-cases, Bool-cases, arith,
}
use rdns_server.Base.Int.{ℤ}
use rdns_server.Base.Exec.{Exec-cases, pure, >>=-eq-ok}
use rdns_server.Database.{Fault, Row, no_row}
use rdns_server.Database.Mysql.{Sql, mysql, run}
use rdns_server.Database.Mysql.Scan.{Value, text, answered, scan_last, scan_row}
use rdns_server.Route53.{Kind, RecordSet, HostedZone, Settings, trimmed, set_record}
use rdns_server.Route53.Mirror.Laws.{
  Laws, Table, table_a, table_sub_a, table_txt, table_cname, same_table, table_of, query_row,
  insert_row, update_row, drop_row,
}
use rdns_server.Route53.Mirror.Sql.{
  SqlLaws, insert_statement, update_statement, delete_statement, select_statement, insert_args,
  update_args, renewed,
}
use rdns_server.Route53.Mirror.Agreement.{content_of, Covers, set_record-Agree}

module _ {S : Type 0} (sql : Sql S) where
  insert_row-exec :
      (x : Table) (r : Row)
      → insert_row (mysql sql) x r ≡ sql.exec (insert_statement x) (insert_args r)
  unfolding insert_row mysql insert_statement
  insert_row-exec table_a r = refl
  insert_row-exec table_sub_a r = refl
  insert_row-exec table_txt r = refl
  insert_row-exec table_cname r = refl

  update_row-exec :
      (x : Table) (r : Row)
      → update_row (mysql sql) x r ≡ sql.exec (update_statement x) (update_args r)
  unfolding update_row mysql update_statement
  update_row-exec table_a r = refl
  update_row-exec table_sub_a r = refl
  update_row-exec table_txt r = refl
  update_row-exec table_cname r = refl

  drop_row-run :
      (x : Table) (m : Bytes)
      → drop_row (mysql sql) x m ≡ run sql (delete_statement x) (text m ∷ [])
  unfolding drop_row mysql delete_statement
  drop_row-run table_a m = refl
  drop_row-run table_sub_a m = refl
  drop_row-run table_txt m = refl
  drop_row-run table_cname m = refl

  query_row-answered :
      (x : Table) (n : Bytes) (s : S)
      → query_row (mysql sql) x n s
        ≡ answered no_row
            (scan_last scan_row no_row)
            (sql.query (select_statement x) (text n ∷ []) s)
  unfolding query_row mysql select_statement
  query_row-answered table_a n s = refl
  query_row-answered table_sub_a n s = refl
  query_row-answered table_txt n s = refl
  query_row-answered table_cname n s = refl

  answered-state :
      {A : Type 0} (a : A) (read : List (List Value) → A × Option Fault)
      (x : Result Fault (List (List Value)) × S)
      → (answered a read x).1 ≡ x.1
  unfolding answered
  answered-state a read (ok rs, s) = refl
  answered-state a read (err e, s) = refl

  run-ok :
      (q : Bytes) (args : List Value) (s t : S)
      → run sql q args s ≡ (ok tt, t)
      → (i : ℤ) × (sql.exec q args s ≡ (ok i, t))
  unfolding run
  run-ok q args s t h =
      let (i, u, p, e) = >>=-eq-ok (sql.exec q args) (λ _. pure tt) s t tt h in
      (i, p ∙ ap (λ x. (ok i, x)) (ap (λ x. x.1) e))

pub same_table-eq : (x y : Table) → same_table x y ≡ true → x ≡ y
unfolding same_table
same_table-eq table_a table_a h = refl
same_table-eq table_a table_sub_a h = absurd cc
same_table-eq table_a table_txt h = absurd cc
same_table-eq table_a table_cname h = absurd cc
same_table-eq table_sub_a table_a h = absurd cc
same_table-eq table_sub_a table_sub_a h = refl
same_table-eq table_sub_a table_txt h = absurd cc
same_table-eq table_sub_a table_cname h = absurd cc
same_table-eq table_txt table_a h = absurd cc
same_table-eq table_txt table_sub_a h = absurd cc
same_table-eq table_txt table_txt h = refl
same_table-eq table_txt table_cname h = absurd cc
same_table-eq table_cname table_a h = absurd cc
same_table-eq table_cname table_sub_a h = absurd cc
same_table-eq table_cname table_txt h = absurd cc
same_table-eq table_cname table_cname h = refl

module _ {S : Type 0} (z : HostedZone S) (sql : Sql S) (laws : SqlLaws z sql) where
  -- A row that the query finds is there.
  found-content :
      (x : Table) (n : Bytes) (s : S)
      → same (query_row (mysql sql) x n s).0.0.fqdn [] ≡ false
      → (c : Bytes) × (laws.content_at s x n ≡ some c)
  unfolding answered scan_last same
  found-content x n s h = elim (Option-cases (laws.content_at s x n)) [
    | inr (c, e) ↦ (c, e)
    | inl e ↦ elim (Exec-cases (sql.query (select_statement x) (text n ∷ [])) s) [
      | inr (f, t, q) ↦ absurd (never (rw (query_row-answered sql x n s, q) at h))
      | inl (rows, t, q) ↦
          absurd
            (never (rw (query_row-answered sql x n s, q, laws.query-none x n rows s t e q) at h))
    ]
  ]
    where
      never : true ≡ false → ⊥
      never e = cc

  renewed-found :
      (x y : Table) (m n c : Bytes) (s : S)
      → same (query_row (mysql sql) x m s).0.0.fqdn [] ≡ false
      → (if same_table y x && same n m
          then renewed c (laws.content_at s y n)
          else laws.content_at s y n)
        ≡ (if same_table y x && same n m then some c else laws.content_at s y n)
  unfolding renewed
  renewed-found x y m n c s h = elim (Bool-cases (same_table y x && same n m)) [
    | inr e ↦ rw e refl
    | inl e ↦
        let table_is : y ≡ x = same_table-eq y x (ground (arith, e)) in
        let name_is : n ≡ m = (same_iff n m).0 (ground (arith, e)) in
        let (d, there) = found-content x m s h in rw (e, table_is, name_is, there) refl
  ]

  -- The tables of the MySQL database obey the laws that setRecord and deleteRecord rely on.
  mysql_laws : Laws z (mysql sql)
  mysql_laws = record {
    values_at = laws.values_at;
    content_at = laws.content_at;
    values-upsert = laws.values-upsert;
    content-upsert = laws.content-upsert;
    values-delete = laws.values-delete;
    content-delete = laws.content-delete;
    query-row = λ x n s.
        ap (λ a. a.1) (query_row-answered sql x n s)
        ∙ answered-state sql no_row (scan_last scan_row no_row) _
        ∙ laws.query-keeps x n s;
    content-insert = λ x r i s t h. laws.content-insert x r i s t (inserts x r i s t h);
    content-update = λ x r i s t f h y n.
        laws.content-update x r i s t (updates x r i s t h) y n
        ∙ renewed-found x y r.fqdn n r.content s f;
    content-drop = λ x m s t h. let (i, e) = drops x m s t h in laws.content-drop x m i s t e;
    values-insert = λ x r i s t h. laws.values-insert x r i s t (inserts x r i s t h);
    values-update = λ x r i s t h. laws.values-update x r i s t (updates x r i s t h);
    values-drop = λ x m s t h. let (i, e) = drops x m s t h in laws.values-drop x m i s t e;
  }
    where
      inserts :
          (x : Table) (r : Row) (i : ℤ) (s t : S)
          → insert_row (mysql sql) x r s ≡ (ok i, t)
          → sql.exec (insert_statement x) (insert_args r) s ≡ (ok i, t)
      inserts x r i s t h = sym (ap (λ f. f s) (insert_row-exec sql x r)) ∙ h

      updates :
          (x : Table) (r : Row) (i : ℤ) (s t : S)
          → update_row (mysql sql) x r s ≡ (ok i, t)
          → sql.exec (update_statement x) (update_args r) s ≡ (ok i, t)
      updates x r i s t h = sym (ap (λ f. f s) (update_row-exec sql x r)) ∙ h

      drops :
          (x : Table) (m : Bytes) (s t : S)
          → drop_row (mysql sql) x m s ≡ (ok tt, t)
          → (i : ℤ) × (sql.exec (delete_statement x) (text m ∷ []) s ≡ (ok i, t))
      drops x m s t h =
          run-ok sql (delete_statement x) (text m ∷ []) s t
            (sym (ap (λ f. f s) (drop_row-run sql x m)) ∙ h)

  -- The content of a name's row is that of the record set of its kind, or both are missing.
  abbrev pub InStep : S → Kind → Bool → Bytes → Type 0
  InStep s k sub n = laws.content_at s (table_of k sub) n ≡ content_of (laws.values_at s k n)

  module _ (b : Settings S) where
    -- After setRecord of a record set with a value succeeded over the MySQL database, the zone has its
    -- values, and the row of its name in its kind's table has the values of the zone for the name, and so
    -- has any other row that had the values of the zone before, but for the name's row in the other table of
    -- A records. The names end in no dot; Route 53 does
    -- what it reports, and so do the statements on one name's row.
    pub set_record-InStep :
        (r : RecordSet) (k : Kind) (tid pid : ℤ) (sub : Bool) (i : ℤ) (s t : S) (j : Kind)
        (u : Bool) (n : Bytes)
        → r.kind ≡ some k
        → leb 1 (length r.values) ≡ true
        → trimmed r.name ≡ r.name
        → trimmed n ≡ n
        → Covers (same n r.name) j k u sub (InStep s j u n)
        → set_record z (mysql sql) b r k tid pid sub s ≡ (ok i, t)
        → InStep t j u n × (laws.values_at t k r.name ≡ some r.values)
    unfolding mysql_laws
    set_record-InStep = set_record-Agree z (mysql sql) b mysql_laws
