-- ===== src/Route53/Memory.antt =====
-- A zone and tables in memory.
pub mod Statements
use rdns_server.Base.{
  ◌≡◌, refl, sym, ap, ◌∙◌, Bool, true, false, ◌&&◌, List, [], Option, none, some, Bytes, same,
  if◌then◌else◌, Result, ok,
}
use rdns_server.Base.Int.{ℤ, pos}
use rdns_server.Base.Exec.{Exec}
use rdns_server.Database.{Fault, no_rows, Database, Row, no_token, no_row, Query}
use rdns_server.Route53.{Kind, same_kind, HostedZone, trimmed}
use rdns_server.Route53.Mirror.Laws.{
  Laws, Table, table_a, table_sub_a, table_txt, table_cname, same_table, query_row, insert_row,
  update_row, drop_row,
}

-- The record sets of the zone, and the rows of the tables.
pub record Memory : Type 0 where
  pub sets : Kind → Bytes → Option (List Bytes)
  pub rows : Table → Bytes → Option Row

unfoldable pub put_set : Option Kind → Bytes → Option (List Bytes) → Memory → Memory
put_set none name values s = s
put_set (some k) name values s = record s {
  sets = λ j n. if same_kind j k && same n name then values else s.sets j n;
}

unfoldable pub put_row : Table → Bytes → Option Row → Memory → Memory
put_row x name row s = record s {
  rows = λ y n. if same_table y x && same n name then row else s.rows y n;
}

unfoldable pub row_or_none : Option Row → Row
row_or_none none = no_row
row_or_none (some r) = r

unfoldable pub zone : HostedZone Memory
unfolding put_set
zone = record {
  list = λ n k s. (ok [], s);
  upsert = λ r s. (ok tt, put_set r.kind (trimmed r.name) (some r.values) s);
  delete = λ r s. (ok tt, put_set r.kind (trimmed r.name) none s);
}

abbrev find_row : Table → Bytes → Query Memory Row
find_row x n s = ((row_or_none (s.rows x n), none), s)

abbrev write_row : Table → Row → Exec Fault Memory ℤ
write_row x r s = (ok (pos 1), put_row x r.fqdn (some r) s)

abbrev remove_row : Table → Bytes → Exec Fault Memory (Unit {0})
remove_row x n s = (ok tt, put_row x n none s)

abbrev nothing_done : Exec Fault Memory (Unit {0})
nothing_done s = (ok tt, s)

unfoldable pub tables : Database Memory
unfolding put_row
tables = record {
  insert_frozen = λ x. nothing_done;
  query_frozen = λ x s. (([], some no_rows), s);
  renew_frozen = λ x. nothing_done;
  delete_frozen = λ x. nothing_done;
  delete_expired_frozen = λ t. nothing_done;
  migrate_frozen = λ x t. nothing_done;
  insert_token = λ t n s. (ok (pos 1), s);
  query_token_count = λ s. (ok (pos 0), s);
  query_token = λ n s. ((no_token, some no_rows), s);
  query_expired_tokens = λ t s. (([], none), s);
  renew_token = λ n s. (ok (pos 1, pos 0), s);
  delete_token = λ t. nothing_done;
  migrate_token = λ t n e. nothing_done;
  insert_a = write_row table_a;
  update_a = write_row table_a;
  query_a = find_row table_a;
  list_sub_a = λ i s. (([], none), s);
  delete_a = remove_row table_a;
  insert_sub_a = write_row table_sub_a;
  update_sub_a = write_row table_sub_a;
  query_sub_a = find_row table_sub_a;
  delete_sub_a = remove_row table_sub_a;
  insert_cname = write_row table_cname;
  update_cname = write_row table_cname;
  query_cname = find_row table_cname;
  delete_cname = remove_row table_cname;
  insert_txt = write_row table_txt;
  update_txt = write_row table_txt;
  query_txt = find_row table_txt;
  query_expired_txts = λ i s. (([], none), s);
  delete_txt = remove_row table_txt;
}

unfoldable pub content : Option Row → Option Bytes
content none = none
content (some r) = some r.content

pub after :
    {E A : Type 0} (a c : A) (s t : Memory)
    → ◌≡◌ {A = Result E A × Memory} (ok a, s) (ok c, t)
    → s ≡ t
after a c s t h = cc

content_if :
    (e : Bool) (r : Option Row) (x : Option Row)
    → content (if e then r else x) ≡ (if e then content r else content x)
unfolding content
content_if true r x = refl
content_if false r x = refl

pub put_set-sets :
    (o : Option Kind) (k j : Kind) (name n : Bytes) (values : Option (List Bytes)) (s t : Memory)
    → o ≡ some k
    → put_set o name values s ≡ t
    → t.sets j n ≡ (if same_kind j k && same n name then values else s.sets j n)
unfolding put_set
put_set-sets o k j name n values s t e h =
    sym (ap (λ u. u.sets j n) h) ∙ ap (λ x. (put_set x name values s).sets j n) e

put_set-rows :
    (o : Option Kind) (x : Table) (name n : Bytes) (values : Option (List Bytes)) (s : Memory)
    → (put_set o name values s).rows x n ≡ s.rows x n
unfolding put_set
put_set-rows none x name n values s = refl
put_set-rows (some k) x name n values s = refl

pub kept_rows :
    (o : Option Kind) (x : Table) (name n : Bytes) (values : Option (List Bytes)) (s t : Memory)
    → put_set o name values s ≡ t
    → content (t.rows x n) ≡ content (s.rows x n)
kept_rows o x name n values s t h =
    sym (ap (λ u. content (u.rows x n)) h) ∙ ap content (put_set-rows o x name n values s)

pub put_row-content :
    (x y : Table) (name n : Bytes) (row : Option Row) (s t : Memory)
    → put_row x name row s ≡ t
    → content (t.rows y n)
      ≡ (if same_table y x && same n name then content row else content (s.rows y n))
unfolding put_row
put_row-content x y name n row s t h =
    sym (ap (λ u. content (u.rows y n)) h)
    ∙ content_if (same_table y x && same n name) row (s.rows y n)

pub put_row-sets :
    (x : Table) (j : Kind) (name n : Bytes) (row : Option Row) (s t : Memory)
    → put_row x name row s ≡ t
    → t.sets j n ≡ s.sets j n
unfolding put_row
put_row-sets x j name n row s t h = sym (ap (λ u. u.sets j n) h)
