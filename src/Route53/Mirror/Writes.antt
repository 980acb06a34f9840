-- ===== src/Route53/Mirror/Writes.antt =====
-- What the writes of backend/route53/route53.go do when they succeed.
use rdns_server.Base.{
  ◌≡◌, refl, sym, ap, ◌∙◌, Bool, true, false, ◌&&◌, some, [], Bytes, same, if◌then◌else◌, Result,
  ok, err,
}
use mathlib.Core.Path.{subst}
use rdns_server.Base.Int.{ℤ}
use rdns_server.Base.Exec.{Exec}
use rdns_server.Text.{join}
use rdns_server.Database.{Fault, Database, Row}
use rdns_server.Route53.{
  Kind, kind_a, kind_txt, kind_cname, RecordSet, Error, HostedZone, Settings, mapped, of_database,
  of_route53, wrapped, dropping, put_row, upsert_row, database_row, row_of, set_record_to_database,
  delete_row,
}
use rdns_server.Route53.Mirror.Laws.{
  Laws, Table, same_table, table_of, query_row, insert_row, update_row, drop_row,
}

module _ {S : Type 0} {E F A : Type 0} where
  mapped-ok :
      (f : E → F) (x : Result E A × S) (a : A) (t : S) → mapped f x ≡ (ok a, t) → x ≡ (ok a, t)
  unfolding mapped
  mapped-ok f (ok c, u) a t h = cc
  mapped-ok f (err e, u) a t h = absurd (never h)
    where
      never : ◌≡◌ {A = Result F A × S} (err (f e), u) (ok a, t) → ⊥
      never p = cc

module _ {S : Type 0} where
  pub wrapped_route53-ok :
      {A : Type 0} (text : Bytes) (m : Exec Bytes S A) (s t : S) (a : A)
      → wrapped text (of_route53 m) s ≡ (ok a, t)
      → m s ≡ (ok a, t)
  unfolding wrapped of_route53
  wrapped_route53-ok text m s t a h = mapped-ok _ (m s) a t (mapped-ok _ _ a t h)

  pub wrapped_database-ok :
      {A : Type 0} (text : Bytes) (m : Exec Fault S A) (s t : S) (a : A)
      → wrapped text (of_database m) s ≡ (ok a, t)
      → m s ≡ (ok a, t)
  unfolding wrapped of_database
  wrapped_database-ok text m s t a h = mapped-ok _ (m s) a t (mapped-ok _ _ a t h)

  pub wrapped-ok :
      {A : Type 0} (text : Bytes) (m : Exec Error S A) (s t : S) (a : A)
      → wrapped text m s ≡ (ok a, t)
      → m s ≡ (ok a, t)
  unfolding wrapped
  wrapped-ok text m s t a h = mapped-ok _ (m s) a t h

  of_database-ok :
      {A : Type 0} (m : Exec Fault S A) (s t : S) (a : A)
      → of_database m s ≡ (ok a, t)
      → m s ≡ (ok a, t)
  unfolding of_database
  of_database-ok m s t a h = mapped-ok _ (m s) a t h

module _ {S : Type 0} (z : HostedZone S) (db : Database S) (b : Settings S) where
  set_record_to_database-table :
      (r : RecordSet) (k : Kind) (tid pid : ℤ) (sub : Bool) (s : S)
      → set_record_to_database z db b r k tid pid sub s
        ≡ upsert_row z db b
            (query_row db (table_of k sub) r.name)
            (update_row db (table_of k sub))
            (insert_row db (table_of k sub))
            (database_row z db b r k tid pid sub s)
            s
  unfolding set_record_to_database table_of query_row update_row insert_row
  set_record_to_database-table r kind_a tid pid false s = refl
  set_record_to_database-table r kind_a tid pid true s = refl
  set_record_to_database-table r kind_txt tid pid sub s = refl
  set_record_to_database-table r kind_cname tid pid sub s = refl

  database_row-row :
      (r : RecordSet) (k : Kind) (tid pid : ℤ) (sub : Bool) (s : S)
      → ((database_row z db b r k tid pid sub s).fqdn ≡ r.name)
        × ((database_row z db b r k tid pid sub s).content ≡ join b',' r.values)
  unfolding database_row row_of
  database_row-row r kind_a tid pid false s = (refl, refl)
  database_row-row r kind_a tid pid true s = (refl, refl)
  database_row-row r kind_txt tid pid sub s = (refl, refl)
  database_row-row r kind_cname tid pid sub s = (refl, refl)

  pub delete_row-table :
      (n : Bytes) (k : Kind) (sub : Bool)
      → delete_row z db b n k sub ≡ drop_row db (table_of k sub) n
  unfolding delete_row drop_row table_of
  delete_row-table n kind_a false = refl
  delete_row-table n kind_a true = refl
  delete_row-table n kind_txt sub = refl
  delete_row-table n kind_cname sub = refl

  module _ (laws : Laws z db) where
    put_row-writes :
        (e : Bool) (x : Table) (r : Row) (i : ℤ) (s t : S)
        → same (query_row db x r.fqdn s).0.0.fqdn [] ≡ e
        → put_row z db b e (update_row db x) (insert_row db x) r s ≡ (ok i, t)
        → ((y : Table) (n : Bytes)
            → laws.content_at t y n
              ≡ (if same_table y x && same n r.fqdn then some r.content else laws.content_at s y n))
          × ((j : Kind) (n : Bytes) → laws.values_at t j n ≡ laws.values_at s j n)
    unfolding put_row
    put_row-writes true x r i s t e h =
        let w = of_database-ok (insert_row db x r) s t i h in
        (laws.content-insert x r i s t w, laws.values-insert x r i s t w)
    put_row-writes false x r i s t e h =
        let w = of_database-ok (update_row db x r) s t i h in
        (laws.content-update x r i s t e w, laws.values-update x r i s t w)

    -- A row that is written has the new content, whether it was there or not.
    upsert_row-writes :
        (x : Table) (r : Row) (i : ℤ) (s t : S)
        → upsert_row z db b (query_row db x r.fqdn) (update_row db x) (insert_row db x) r s
          ≡ (ok i, t)
        → ((y : Table) (n : Bytes)
            → laws.content_at t y n
              ≡ (if same_table y x && same n r.fqdn then some r.content else laws.content_at s y n))
          × ((j : Kind) (n : Bytes) → laws.values_at t j n ≡ laws.values_at s j n)
    unfolding upsert_row dropping
    upsert_row-writes x r i s t h =
        put_row-writes (same (query_row db x r.fqdn s).0.0.fqdn []) x r i s t refl (
          subst
            (λ u.
              put_row z db b (same (query_row db x r.fqdn s).0.0.fqdn []) (update_row db x)
                (insert_row db x) r u
              ≡ (ok i, t))
            (laws.query-row x r.fqdn s) h)

    pub set_record_to_database-writes :
        (r : RecordSet) (k : Kind) (tid pid : ℤ) (sub : Bool) (i : ℤ) (s t : S)
        → set_record_to_database z db b r k tid pid sub s ≡ (ok i, t)
        → ((y : Table) (n : Bytes)
            → laws.content_at t y n ≡ (
                if same_table y (table_of k sub) && same n r.name
                then some (join b',' r.values)
                else laws.content_at s y n))
          × ((j : Kind) (n : Bytes) → laws.values_at t j n ≡ laws.values_at s j n)
    set_record_to_database-writes r k tid pid sub i s t h =
        let x = table_of k sub in
        let row = database_row z db b r k tid pid sub s in
        let (f, c) = database_row-row r k tid pid sub s in
        let (cw, vw) = upsert_row-writes x row i s t (
          subst
            (λ n.
              upsert_row z db b (query_row db x n) (update_row db x) (insert_row db x) row s
              ≡ (ok i, t))
            (sym f) (sym (set_record_to_database-table r k tid pid sub s) ∙ h)) in
        (
          λ y n.
              cw y n
              ∙ ap
                  (λ a.
                    if same_table y x && same n a then some row.content else laws.content_at s y n)
                  f
              ∙ ap (λ a. if same_table y x && same n r.name then some a else laws.content_at s y n)
                  c,
          vw,
        )
