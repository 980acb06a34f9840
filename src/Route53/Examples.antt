-- ===== src/Route53/Examples.antt =====
-- Runs of the Route 53 backend over a zone and tables in memory, and one instance of each theorem.
use rdns_server.Base.{
  some, ℕ, suc, ◌≤◌, ◌≡◌, refl, inl, inr, true, false, not, ◌&&◌, ◌==◌, List, [], ◌∷◌, ◌++◌, none,
  Bytes, codes, same, if◌then◌else◌, ok, err, arith, Bool-cases,
}
use rdns_server.Base.Int.{pos}
use rdns_server.Base.Exec.{Exec}
use rdns_server.Text.{dot, trim_right_set}
use rdns_server.Text.RoundTrip.{Lacks}
use rdns_server.Model.{Domain, DomainOptions, no_domain}
use rdns_server.Database.Mysql.{Sql, mysql}
use rdns_server.Service.{owner}
use rdns_server.Service.Access.{below}
use rdns_server.Route53.{
  kind_a, RecordSet, Error, generate_name, HostedZone, Settings, set_record, delete_record, trimmed,
  same_kind,
}
use rdns_server.Route53.Filters.{find_slug_with_zone}
use rdns_server.Route53.Domains.{a_set, only_name, freeze_name, is_frozen, is_unused, update}
use rdns_server.Route53.Domains.Choice.{usable, candidate, freeze_name-finds, freeze_name-gives_up}
use rdns_server.Route53.Slugs.{find_slug_with_zone-owner, find_slug_with_zone-deep}
use rdns_server.Route53.Mirror.Mysql.{InStep, set_record-InStep}
use rdns_server.Route53.Memory.Statements.{memory_sql, sql_laws}
use rdns_server.Route53.Memory.{Memory, zone, tables, put_set, put_row}

abbrev name : Bytes
name = codes "abc.lb.cloud"

abbrev one : Bytes
one = codes "1.1.1.1"

abbrev two : Bytes
two = codes "2.2.2.2"

abbrev empty : Memory
empty = record { sets = λ k n. none; rows = λ x n. none }

abbrev settings : {S : Type 0} → Settings S
settings = record {
  zone = codes "lb.cloud";
  lease_time = pos 60;
  unix_now = λ s. pos 5;
  draw = λ i. if i == 0 then codes "aaaaaa" else codes "bbbbbb";
  fresh_token = codes "token";
  order = λ m. m;
}

abbrev hosts : RecordSet
hosts = a_set name (one ∷ two ∷ [])

abbrev filled : Memory
filled = (set_record zone (mysql memory_sql) settings hosts kind_a (pos 1) (pos 2) false empty).1

filled_eq :
    set_record zone (mysql memory_sql) settings hosts kind_a (pos 1) (pos 2) false empty
    ≡ (ok (pos 1), filled)
unfolding set_record same zone memory_sql put_set put_row a_set mysql
    rdns_server.Route53.Mirror.Sql.select_statement rdns_server.Route53.Mirror.Sql.insert_statement
filled_eq = refl

abbrev emptied : Memory
emptied = (delete_record zone (mysql memory_sql) settings hosts kind_a false filled).1

no_dot : trimmed name ≡ name
unfolding trim_right_set
no_dot = refl

written : (same_kind kind_a kind_a && same name name) ≡ true
unfolding same_kind same
written = refl

set_record-InStep_example :
    InStep zone memory_sql sql_laws filled kind_a false name
    × (sql_laws.values_at filled kind_a name ≡ some (one ∷ two ∷ []))
unfolding a_set
set_record-InStep_example =
    set_record-InStep zone memory_sql sql_laws settings hosts kind_a (pos 1) (pos 2) false (pos 1)
      empty filled kind_a false name refl refl no_dot no_dot (inl (written, refl)) filled_eq

abbrev listed : List RecordSet
listed =
    a_set (name ++ dot ∷ []) (one ∷ [])
    ∷ a_set (codes "x1." ++ name ++ dot ∷ []) (two ∷ [])
    ∷ a_set (codes "other.cloud.") (two ∷ [])
    ∷ []

label : Lacks dot (codes "x1")
label = ground arith

slug : Lacks dot (codes "abc")
slug = ground arith

single : 1 ≤ 1
single = omega arith

find_slug_with_zone-owner_example :
    find_slug_with_zone (codes "lb.cloud") (codes "x1.abc.lb.cloud")
    ≡ owner (codes "lb.cloud") (codes "x1.abc.lb.cloud")
unfolding below
find_slug_with_zone-owner_example =
    find_slug_with_zone-owner (codes "x1" ∷ []) (codes "abc") (codes "lb.cloud") single (label, tt)
      slug

find_slug_with_zone-deep_example :
    (find_slug_with_zone (codes "lb.cloud") (codes "x1.x1.abc.lb.cloud") ≡ codes "x1.")
    × (owner (codes "lb.cloud") (codes "x1.x1.abc.lb.cloud") ≡ name)
unfolding below
find_slug_with_zone-deep_example =
    find_slug_with_zone-deep (codes "x1") (codes "x1") [] (codes "abc") (codes "lb.cloud")
      (label, (label, tt)) slug

abbrev first_name : Bytes
first_name = codes "aaaaaa.lb.cloud"

-- A lookup that finds the name of the first draw.
abbrev find_first : DomainOptions → Exec Error Memory Domain
find_first o s =
    if same o.fqdn first_name
    then (ok (record no_domain { fqdn = first_name }), s)
    else (err generate_name, s)

abbrev find_all : DomainOptions → Exec Error Memory Domain
find_all o s = (ok (record no_domain { fqdn = first_name }), s)

none_frozen : (x : Bytes) → is_frozen zone tables settings x empty ≡ (ok false, empty)
unfolding is_frozen tables same
none_frozen x = refl

first_used :
    (n : Bytes)
    → is_unused zone tables settings (find_first (only_name n)) empty
      ≡ (ok (not (same n first_name)), empty)
unfolding is_unused same
first_used n = elim (Bool-cases (same n first_name)) [ inl e ↦ rw e refl | inr e ↦ rw e refl ]

all_used :
    (n : Bytes) → is_unused zone tables settings (find_all (only_name n)) empty ≡ (ok false, empty)
unfolding is_unused same
all_used n = refl

frozen_insertion : (x : Bytes) → tables.insert_frozen x empty ≡ (ok tt, empty)
unfolding tables
frozen_insertion x = refl

second_usable :
    usable zone tables settings find_first empty (λ x. false) (λ n. same n first_name) 1 ≡ true
unfolding usable same
second_usable = refl

freeze_name-finds_example :
    (j : ℕ) × (j ≤ 1)
    × (usable zone tables settings find_first empty (λ x. false) (λ n. same n first_name) j ≡ true)
    × (freeze_name zone tables settings find_first [] empty ≡ (
      ok (candidate zone tables settings find_first empty (λ x. false) (λ n. same n first_name) j),
      empty,
    ))
freeze_name-finds_example =
    freeze_name-finds zone tables settings find_first empty (λ x. false) (λ n. same n first_name)
      none_frozen first_used (λ x. empty) [] 1 frozen_insertion (omega arith) second_usable

all_unusable :
    (k : ℕ) → usable zone tables settings find_all empty (λ x. false) (λ n. true) k ≡ false
unfolding usable same
all_unusable k = refl

freeze_name-gives_up_example :
    freeze_name zone tables settings find_all [] empty ≡ (err generate_name, empty)
freeze_name-gives_up_example =
    freeze_name-gives_up zone tables settings find_all empty (λ x. false) (λ n. true) none_frozen
      all_used (λ k l. all_unusable k)

-- A database and a zone that count what is written.
abbrev no_rows_at_all : Sql ℕ
no_rows_at_all = record {
  exec = λ q args n. (ok (pos 1), suc n);
  query = λ q args n. (ok [], n);
  now = λ n. pos 0;
}

abbrev no_sets : HostedZone ℕ
no_sets = record {
  list = λ n k s. (ok [], s);
  upsert = λ r n. (ok tt, suc n);
  delete = λ r n. (ok tt, suc n);
}

-- An update of a name without a row reports success.
unheld : update no_sets (mysql no_rows_at_all) settings (only_name name) 7 ≡ (ok no_domain, 7)
unfolding update mysql same
unheld = refl
