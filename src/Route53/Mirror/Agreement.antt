-- ===== src/Route53/Mirror/Agreement.antt =====
-- setRecord and deleteRecord of backend/route53/route53.go keep the zone and the database in step.
use rdns_server.Base.{
  ◌≡◌, refl, sym, ap, ◌∙◌, ◌⊎◌, inl, inr, Bool, true, false, ◌&&◌, Option, none, some, List, Bytes,
  codes, same, same_refl, leb, length, if◌then◌else◌, ok, arith,
}
use rdns_server.Base.Int.{ℤ}
use rdns_server.Base.Exec.{>>=-eq-ok}
use rdns_server.Text.{join}
use rdns_server.Database.{Database}
use rdns_server.Route53.{
  Kind, kind_a, kind_txt, kind_cname, same_kind, RecordSet, HostedZone, Settings, trimmed,
  of_route53, wrapped, set_record_to_database, delete_row, delete_record_from_database, upsert_zone,
  set_record, delete_record,
}
use rdns_server.Route53.Mirror.Writes.{
  wrapped_route53-ok, wrapped_database-ok, wrapped-ok, set_record_to_database-writes,
  delete_row-table,
}
use rdns_server.Route53.Mirror.Laws.{Laws, same_table, table_of, cascades}

same_kind_refl : (k : Kind) → same_kind k k ≡ true
unfolding same_kind
same_kind_refl kind_a = refl
same_kind_refl kind_txt = refl
same_kind_refl kind_cname = refl

-- The content of the row for values.
unfoldable pub content_of : Option (List Bytes) → Option Bytes
content_of none = none
content_of (some values) = some (join b',' values)

-- Records of one table have one kind.
same_table-kind :
    (j k : Kind) (u v : Bool)
    → (same_table (table_of j u) (table_of k v) && same_kind j k)
      ≡ same_table (table_of j u) (table_of k v)
unfolding same_table table_of same_kind
same_table-kind kind_a kind_a false false = refl
same_table-kind kind_a kind_a false true = refl
same_table-kind kind_a kind_a true false = refl
same_table-kind kind_a kind_a true true = refl
same_table-kind kind_a kind_txt false v = refl
same_table-kind kind_a kind_txt true v = refl
same_table-kind kind_a kind_cname false v = refl
same_table-kind kind_a kind_cname true v = refl
same_table-kind kind_txt kind_a u false = refl
same_table-kind kind_txt kind_a u true = refl
same_table-kind kind_txt kind_txt u v = refl
same_table-kind kind_txt kind_cname u v = refl
same_table-kind kind_cname kind_a u false = refl
same_table-kind kind_cname kind_a u true = refl
same_table-kind kind_cname kind_txt u v = refl
same_table-kind kind_cname kind_cname u v = refl

same_table-side : (j k : Kind) (u : Bool) → same_table (table_of j u) (table_of k u) ≡ same_kind j k
unfolding same_table table_of same_kind
same_table-side kind_a kind_a false = refl
same_table-side kind_a kind_a true = refl
same_table-side kind_a kind_txt false = refl
same_table-side kind_a kind_txt true = refl
same_table-side kind_a kind_cname false = refl
same_table-side kind_a kind_cname true = refl
same_table-side kind_txt kind_a false = refl
same_table-side kind_txt kind_a true = refl
same_table-side kind_txt kind_txt u = refl
same_table-side kind_txt kind_cname u = refl
same_table-side kind_cname kind_a false = refl
same_table-side kind_cname kind_a true = refl
same_table-side kind_cname kind_txt u = refl
same_table-side kind_cname kind_cname u = refl

-- A write of both views, or of neither, keeps them in step.
both_written :
    (w v v' : Option (List Bytes)) (c c' : Option Bytes) (x y : Bool)
    → c' ≡ (if x then content_of w else c)
    → v' ≡ (if y then w else v)
    → ((x ≡ true) × (y ≡ true)) ⊎ ((x ≡ false) × (y ≡ false) × (c ≡ content_of v))
    → c' ≡ content_of v'
both_written w v v' c c' x y hc hv (inl (p, q)) = rw (hc, hv, p, q) refl
both_written w v v' c c' x y hc hv (inr (p, q, a)) = rw (hc, hv, p, q) a

-- A name of the kind and the table that are written, or any other of which a property holds.
abbrev pub Covers : Bool → Kind → Kind → Bool → Bool → Type 0 → Type 0
Covers e j k u v A =
    (((same_kind j k && e) ≡ true) × (u ≡ v)) ⊎ (((same_kind j k && e) ≡ false) × A)

written_both :
    (e : Bool) (j k : Kind) (u v : Bool) (A : Type 0)
    → Covers e j k u v A
    → (((same_table (table_of j u) (table_of k v) && e) ≡ true) × ((same_kind j k && e) ≡ true))
      ⊎ (((same_table (table_of j u) (table_of k v) && e) ≡ false)
          × ((same_kind j k && e) ≡ false)
          × A)
written_both e j k u v A (inl (p, q)) = inl (rw q (ap (λ x. x && e) (same_table-side j k v) ∙ p), p)
written_both e j k u v A (inr (p, a)) = inr (ground (arith, p, same_table-kind j k u v), p, a)

module _ {S : Type 0} (z : HostedZone S) (db : Database S) (b : Settings S) where
  module _ (laws : Laws z db) where
    -- The row of a name has the values of the record set of its kind, or both are missing.
    abbrev pub Agree : S → Kind → Bool → Bytes → Type 0
    Agree s k sub n = laws.content_at s (table_of k sub) n ≡ content_of (laws.values_at s k n)

    untrimmed :
        (n m : Bytes) → trimmed n ≡ n → trimmed m ≡ m → same (trimmed n) (trimmed m) ≡ same n m
    untrimmed n m p q = ap (λ x. same x (trimmed m)) p ∙ ap (same n) q

    this_one :
        (k : Kind) (name : Bytes) (v w : Option (List Bytes))
        → (if same_kind k k && same name name then v else w) ≡ v
    this_one k name v w = rw (same_kind_refl k, same_refl name) refl

    -- After setRecord of a record set with a value succeeded, the zone has its values, and the database
    -- has the values of the zone for its name, in its kind's table, and for any other name for which it
    -- had them before. The names end in no dot; the zone and the tables obey the laws.
    pub set_record-Agree :
        (r : RecordSet) (k : Kind) (tid pid : ℤ) (sub : Bool) (i : ℤ) (s t : S) (j : Kind)
        (u : Bool) (n : Bytes)
        → r.kind ≡ some k
        → leb 1 (length r.values) ≡ true
        → trimmed r.name ≡ r.name
        → trimmed n ≡ n
        → Covers (same n r.name) j k u sub (Agree s j u n)
        → set_record z db b r k tid pid sub s ≡ (ok i, t)
        → Agree t j u n × (laws.values_at t k r.name ≡ some r.values)
    unfolding set_record upsert_zone content_of
    set_record-Agree r k tid pid sub i s t j u n e v f g a h =
        let (o, m, p, q) = >>=-eq-ok (upsert_zone z db b r) _ s t i h in
        let up =
          wrapped_route53-ok (codes "upsert") (z.upsert r) s m tt (rw (v, upsert_zone) at p) in
        let (cw, vw) =
          set_record_to_database-writes z db b laws r k tid pid sub i m t
            (wrapped-ok (codes "insert") (set_record_to_database z db b r k tid pid sub) m t i q) in
        let x = table_of j u in
        (
          both_written (some r.values) (laws.values_at s j n) (laws.values_at t j n)
              (laws.content_at s x n) (laws.content_at t x n)
              (same_table x (table_of k sub) && same n r.name) (same_kind j k && same n r.name)
              (cw x n
                ∙ ap
                    (λ c.
                      if same_table x (table_of k sub) && same n r.name
                      then some (join b',' r.values)
                      else c)
                    (laws.content-upsert r s m up x n))
              (vw j n
                ∙ laws.values-upsert r k s m e up j n
                ∙ ap (λ y. if same_kind j k && y then some r.values else laws.values_at s j n)
                    (untrimmed n r.name g f))
              (written_both (same n r.name) j k u sub _ a),
          vw k r.name
              ∙ laws.values-upsert r k s m e up k r.name
              ∙ this_one k (trimmed r.name) (some r.values) (laws.values_at s k r.name),
        )

    -- After deleteRecord succeeded, the zone has lost the name, and the database has the values of the
    -- zone for it, so none, in its kind's table, and for any other name for which it had them before,
    -- but for rows of sub-domains where a row of their parents' table was deleted. The names end in no
    -- dot; the zone and the tables obey the laws.
    pub delete_record-Agree :
        (r : RecordSet) (k : Kind) (sub : Bool) (s t : S) (j : Kind) (u : Bool) (n : Bytes)
        → trimmed r.name ≡ r.name
        → trimmed n ≡ n
        → cascades (table_of k sub) (table_of j u) ≡ false
        → Covers (same n r.name) j k u sub (Agree s j u n)
        → delete_record z db b r k sub s ≡ (ok tt, t)
        → Agree t j u n × (laws.values_at t k r.name ≡ none)
    unfolding delete_record delete_record_from_database content_of
    delete_record-Agree r k sub s t j u n f g d a h =
        let gone = record r { kind = some k } in
        let (o, m, p, q) =
          >>=-eq-ok (wrapped (codes "delete route53") (of_route53 (z.delete gone))) _ s t tt h in
        let out = wrapped_route53-ok (codes "delete route53") (z.delete gone) s m tt p in
        let row =
          wrapped_database-ok (codes "delete database") (delete_row z db b (trimmed r.name) k sub) m
            t tt q in
        let x = table_of j u in
        (
          both_written none (laws.values_at s j n) (laws.values_at t j n) (laws.content_at s x n)
              (laws.content_at t x n) (same_table x (table_of k sub) && same n r.name)
              (same_kind j k && same n r.name)
              (laws.content-drop (table_of k sub) (trimmed r.name) m t
                  (ap (λ a. a m) (sym (delete_row-table z db b (trimmed r.name) k sub)) ∙ row) x n d
                ∙ ap
                    (λ c.
                      if same_table x (table_of k sub) && same n (trimmed r.name) then none else c)
                    (laws.content-delete gone s m out x n)
                ∙ ap
                    (λ y.
                      if same_table x (table_of k sub) && same n y
                      then none
                      else laws.content_at s x n)
                    f)
              (laws.values-drop (table_of k sub) (trimmed r.name) m t
                  (ap (λ a. a m) (sym (delete_row-table z db b (trimmed r.name) k sub)) ∙ row) j n
                ∙ laws.values-delete gone k s m refl out j n
                ∙ ap (λ y. if same_kind j k && y then none else laws.values_at s j n)
                    (untrimmed n r.name g f))
              (written_both (same n r.name) j k u sub _ a),
          laws.values-drop (table_of k sub) (trimmed r.name) m t
                (ap (λ a. a m) (sym (delete_row-table z db b (trimmed r.name) k sub)) ∙ row) k
                r.name
              ∙ laws.values-delete gone k s m refl out k r.name
              ∙ this_one k (trimmed r.name) none (laws.values_at s k r.name),
        )
