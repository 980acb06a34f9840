-- ===== src/Route53/Memory/Statements.antt =====
-- The statements on records run over tables in memory, and the laws of a zone and of such tables.
use rdns_server.Base.{
  ◌≡◌, refl, sym, ap, ◌∙◌, ◌&&◌, List, [], ◌∷◌, Option, none, some, Bytes, same, if◌then◌else◌,
  Result, ok, err, inl, inr, Bool-cases, same_iff, arith,
}
use rdns_server.Base.Int.{ℤ, pos}
use rdns_server.Database.{Fault, Row}
use rdns_server.Database.Mysql.{Sql}
use rdns_server.Database.Mysql.Scan.{Value, text, number, null, bad_scan}
use rdns_server.Route53.{trimmed}
use rdns_server.Route53.Mirror.Laws.{
  Table, table_a, table_sub_a, table_txt, table_cname, same_table,
}
use rdns_server.Route53.Mirror.Sql.{
  SqlLaws, insert_statement, update_statement, delete_statement, select_statement, insert_args,
  update_args, renewed,
}
use rdns_server.Route53.Mirror.Mysql.{same_table-eq}
use rdns_server.Route53.Memory.{
  Memory, zone, put_row, content, after, put_set-sets, kept_rows, put_row-content, put_row-sets,
}

-- The table that a statement is about.
unfoldable table_with : (Table → Bytes) → Bytes → Option Table
table_with f q =
    if same q (f table_a)
    then some table_a
    else if same q (f table_sub_a)
    then some table_sub_a
    else if same q (f table_txt)
    then some table_txt
    else if same q (f table_cname)
    then some table_cname
    else none

abbrev row_with : Bytes → ℤ → Bytes → ℤ → ℤ → Row
row_with n k c d p = record {
  id = pos 1;
  fqdn = n;
  rtype = k;
  content = c;
  created_on = d;
  updated_on = none;
  parent = p;
}

-- The row, where there is one already.
unfoldable if_there : Row → Option Row → Option Row
if_there r none = none
if_there r (some old) = some r

abbrev Answer : Type 0
Answer = Result Fault ℤ × Memory

unfoldable put_in : Option Table → Row → Memory → Answer
put_in none r s = (err bad_scan, s)
put_in (some x) r s = (ok (pos 1), put_row x r.fqdn (some r) s)

unfoldable change_in : Option Table → Row → Memory → Answer
unfolding if_there
change_in none r s = (err bad_scan, s)
change_in (some x) r s = (ok (pos 1), put_row x r.fqdn (if_there r (s.rows x r.fqdn)) s)

unfoldable drop_in : Option Table → Bytes → Memory → Answer
drop_in none n s = (err bad_scan, s)
drop_in (some x) n s = (ok (pos 1), put_row x n none s)

unfoldable execute : Bytes → List Value → Memory → Answer
unfolding table_with put_in change_in drop_in
execute q (text n ∷ number k ∷ text c ∷ number d ∷ number p ∷ []) s =
    put_in (table_with insert_statement q) (row_with n k c d p) s
execute q (number k ∷ text c ∷ number d ∷ number p ∷ text n ∷ []) s =
    change_in (table_with update_statement q) (row_with n k c d p) s
execute q (text n ∷ []) s = drop_in (table_with delete_statement q) n s
execute q _ s = (err bad_scan, s)

unfoldable rows_of : Option Row → List (List Value)
rows_of none = []
rows_of (some r) =
    (number r.id
      ∷ text r.fqdn
      ∷ number r.rtype
      ∷ text r.content
      ∷ number r.created_on
      ∷ null
      ∷ number r.parent
      ∷ [])
    ∷ []

unfoldable rows_in : Option Table → Bytes → Memory → List (List Value)
unfolding rows_of
rows_in none n s = []
rows_in (some x) n s = rows_of (s.rows x n)

unfoldable select : Bytes → List Value → Memory → List (List Value)
unfolding table_with rows_in
select q (text n ∷ []) s = rows_in (table_with select_statement q) n s
select q _ s = []

unfoldable pub memory_sql : Sql Memory
unfolding execute select
memory_sql = record {
  exec = execute;
  query = λ q args s. (ok (select q args s), s);
  now = λ s. pos 5;
}

table_with-insert : (x : Table) → table_with insert_statement (insert_statement x) ≡ some x
unfolding table_with insert_statement same
table_with-insert table_a = refl
table_with-insert table_sub_a = refl
table_with-insert table_txt = refl
table_with-insert table_cname = refl

table_with-update : (x : Table) → table_with update_statement (update_statement x) ≡ some x
unfolding table_with update_statement same
table_with-update table_a = refl
table_with-update table_sub_a = refl
table_with-update table_txt = refl
table_with-update table_cname = refl

table_with-delete : (x : Table) → table_with delete_statement (delete_statement x) ≡ some x
unfolding table_with delete_statement same
table_with-delete table_a = refl
table_with-delete table_sub_a = refl
table_with-delete table_txt = refl
table_with-delete table_cname = refl

table_with-select : (x : Table) → table_with select_statement (select_statement x) ≡ some x
unfolding table_with select_statement same
table_with-select table_a = refl
table_with-select table_sub_a = refl
table_with-select table_txt = refl
table_with-select table_cname = refl

stored : Row → Row
stored r = row_with r.fqdn r.rtype r.content r.created_on r.parent

inserted :
    (x : Table) (r : Row) (i : ℤ) (s t : Memory)
    → execute (insert_statement x) (insert_args r) s ≡ (ok i, t)
    → put_row x r.fqdn (some (stored r)) s ≡ t
unfolding execute put_in stored
inserted x r i s t h =
    after (pos 1) i _ t (sym (ap (λ o. put_in o (stored r) s) (table_with-insert x)) ∙ h)

updated :
    (x : Table) (r : Row) (i : ℤ) (s t : Memory)
    → execute (update_statement x) (update_args r) s ≡ (ok i, t)
    → put_row x r.fqdn (if_there (stored r) (s.rows x r.fqdn)) s ≡ t
unfolding execute change_in stored
updated x r i s t h =
    after (pos 1) i _ t (sym (ap (λ o. change_in o (stored r) s) (table_with-update x)) ∙ h)

removed :
    (x : Table) (m : Bytes) (i : ℤ) (s t : Memory)
    → execute (delete_statement x) (text m ∷ []) s ≡ (ok i, t)
    → put_row x m none s ≡ t
unfolding execute drop_in
removed x m i s t h = after (pos 1) i _ t (sym (ap (λ o. drop_in o m s) (table_with-delete x)) ∙ h)

content-there : (r : Row) (o : Option Row) → content (if_there r o) ≡ renewed r.content (content o)
unfolding content if_there renewed
content-there r none = refl
content-there r (some old) = refl

changed :
    (x y : Table) (n : Bytes) (r : Row) (s : Memory)
    → (if same_table y x && same n r.fqdn
        then content (if_there (stored r) (s.rows x r.fqdn))
        else content (s.rows y n))
      ≡ (if same_table y x && same n r.fqdn
          then renewed r.content (content (s.rows y n))
          else content (s.rows y n))
unfolding stored
changed x y n r s = elim (Bool-cases (same_table y x && same n r.fqdn)) [
  | inr e ↦ rw e refl
  | inl e ↦
      let table_is : y ≡ x = same_table-eq y x (ground (arith, e)) in
      let name_is : n ≡ r.fqdn = (same_iff n r.fqdn).0 (ground (arith, e)) in
      rw (e, table_is, name_is) (content-there (stored r) (s.rows x r.fqdn))
]

no_rows_of : (o : Option Row) → content o ≡ none → rows_of o ≡ []
unfolding content rows_of
no_rows_of none h = refl
no_rows_of (some r) h = absurd cc

selected :
    (x : Table) (n : Bytes) (s : Memory)
    → select (select_statement x) (text n ∷ []) s ≡ rows_of (s.rows x n)
unfolding select rows_in
selected x n s = ap (λ o. rows_in o n s) (table_with-select x)

pub sql_laws : SqlLaws zone memory_sql
unfolding zone content memory_sql stored
sql_laws = record {
  values_at = λ s k n. s.sets k (trimmed n);
  content_at = λ s x n. content (s.rows x n);
  values-upsert = λ r k s t e h j n.
      put_set-sets r.kind k j (trimmed r.name) (trimmed n) (some r.values) s t e
        (after tt tt _ t h);
  content-upsert =
      λ r s t h x n. kept_rows r.kind x (trimmed r.name) n (some r.values) s t (after tt tt _ t h);
  values-delete = λ r k s t e h j n.
      put_set-sets r.kind k j (trimmed r.name) (trimmed n) none s t e (after tt tt _ t h);
  content-delete =
      λ r s t h x n. kept_rows r.kind x (trimmed r.name) n none s t (after tt tt _ t h);
  query-keeps = λ x n s. refl;
  query-none = λ x n rows s t e h.
      sym (given (select (select_statement x) (text n ∷ []) s) rows s t h)
      ∙ selected x n s
      ∙ no_rows_of (s.rows x n) e;
  content-insert =
      λ x r i s t h y n. put_row-content x y r.fqdn n (some (stored r)) s t (inserted x r i s t h);
  content-update = λ x r i s t h y n.
      put_row-content x y r.fqdn n (if_there (stored r) (s.rows x r.fqdn)) s t (updated x r i s t h)
      ∙ changed x y n r s;
  content-drop = λ x m i s t h y n c. put_row-content x y m n none s t (removed x m i s t h);
  values-insert = λ x r i s t h j n.
      put_row-sets x j r.fqdn (trimmed n) (some (stored r)) s t (inserted x r i s t h);
  values-update = λ x r i s t h j n.
      put_row-sets x j r.fqdn (trimmed n) (if_there (stored r) (s.rows x r.fqdn)) s t
        (updated x r i s t h);
  values-drop = λ x m i s t h j n. put_row-sets x j m (trimmed n) none s t (removed x m i s t h);
}
  where
    given :
        (a c : List (List Value)) (s t : Memory)
        → ◌≡◌ {A = Result Fault (List (List Value)) × Memory} (ok a, s) (ok c, t)
        → a ≡ c
    given a c s t h = cc
