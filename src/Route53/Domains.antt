-- ===== src/Route53/Domains.antt =====
-- Get, Set, Update, Delete and Renew of backend/route53/route53.go: the A records.
pub mod Choice
use rdns_server.Base.{
  ℕ, zero, suc, ◌+◌, Bool, true, false, not, ◌&&◌, ◌||◌, List, [], ◌∷◌, ◌++◌, Option, none, some,
  Bytes, codes, same, leb, length, if◌then◌else◌, Result, ok, err,
}
use rdns_server.Base.Int.{ℤ, pos}
use rdns_server.Base.Exec.{Exec, pure, raise, ◌>>=◌, ◌>>◌}
use rdns_server.Text.{split, dot}
use rdns_server.Model.{Domain, DomainOptions, no_domain, unset}
use rdns_server.Database.{Fault, no_rows, Database, Row, Token, checked}
use rdns_server.Etcdv3.Names.{sub_name}
use rdns_server.Etcdv3.Client.{mem}
use rdns_server.Etcdv3.Keys.{keys}
use rdns_server.Route53.{
  Kind, kind_a, RecordSet, Error, database, generate_name, HostedZone, Settings, empty_name,
  wildcard_name, wrapped, of_database, dropping, get_records, set_record_to_database, set_record,
  delete_record, expiration_of,
}
use rdns_server.Route53.Filters.{
  Filtered, filter_records, convert_a, convert_sub, look_up, insert, first_piece,
}

-- A record set of type A with these values.
unfoldable pub a_set : Bytes → List Bytes → RecordSet
a_set name hosts = record { name = name; kind = some kind_a; values = hosts }

unfoldable pub or_nil : Option (List Bytes) → List Bytes
or_nil none = []
or_nil (some hosts) = hosts

-- The sub-domains that the database lists.
unfoldable pub sub_domains : List (Bytes × List Bytes) → List Row → List (Bytes × List Bytes)
unfolding insert first_piece
sub_domains m [] = m
sub_domains m (r ∷ rs) =
    sub_domains (insert (first_piece (split dot r.fqdn)) (split b',' r.content) m) rs

-- The options of a name alone.
abbrev pub only_name : Bytes → DomainOptions
only_name fqdn = record {
  fqdn = fqdn;
  hosts = [];
  sub_domain = [];
  text = [];
  cname = [];
  normal = false;
}

module _ {S : Type 0} (z : HostedZone S) (db : Database S) (b : Settings S) where
  unfoldable pub query_token : Bytes → Bytes → Exec Error S Token
  unfolding of_database wrapped
  query_token name fqdn =
      wrapped (codes "query token") (of_database (checked (db.query_token name)))

  -- A domain that has no records in the hosted zone is read from the database. Without a row for
  -- "empty" it is the empty domain, with the error of the query: errors.Wrapf of no error is none.
  unfoldable pub get_held : Bytes → Token → Exec Error S Domain
  unfolding of_database wrapped dropping sub_domains expiration_of
  get_held fqdn token = do
    e ← wrapped (codes "query A") (of_database (checked (db.query_a (empty_name fqdn))))
    elim (same e.fqdn []) [
      | true ↦ pure no_domain
      | false ↦ dropping (db.list_sub_a e.id) >>= λ subs. pure (record {
        fqdn = fqdn;
        hosts = split b',' e.content;
        sub_domain = sub_domains [] subs;
        text = [];
        cname = [];
        expiration = expiration_of z db b token.created_on;
      })
    ]

  unfoldable pub get : DomainOptions → Exec Error S Domain
  unfolding query_token get_records filter_records get_held convert_a convert_sub look_up or_nil
      expiration_of
  get opts = do
    token ← query_token opts.fqdn opts.fqdn
    records ← get_records z db b opts.fqdn kind_a
    let f = filter_records records opts.fqdn kind_a
    elim f.valid [
      | false ↦ get_held opts.fqdn token
      | true ↦ pure (record {
        fqdn = opts.fqdn;
        hosts = or_nil (look_up opts.fqdn (convert_a [] f.a));
        sub_domain = convert_sub [] f.s;
        text = [];
        cname = [];
        expiration = expiration_of z db b token.created_on;
      })
    ]

  -- The error of QueryFrozen ends `Set` unless it is sql.ErrNoRows.
  frozen_answer : (Bytes × Option Fault) × S → Result Error Bool × S
  frozen_answer ((r, none), s) = (ok (not (same r [])), s)
  frozen_answer ((r, some no_rows), s) = (ok (not (same r [])), s)
  frozen_answer ((r, some e), s) = (err (database e), s)

  unfoldable pub is_frozen : Bytes → Exec Error S Bool
  unfolding frozen_answer
  is_frozen slug s = frozen_answer (db.query_frozen slug s)

  unused_answer : Result Error Domain × S → Result Error Bool × S
  unused_answer (ok d, s) = (ok (same d.fqdn []), s)
  unused_answer (err e, s) = (ok true, s)

  -- Does the lookup of a name fail or give the empty domain?
  unfoldable pub is_unused : Exec Error S Domain → Exec Error S Bool
  unfolding unused_answer
  is_unused m s = unused_answer (m s)

  -- The loop of `Set` and `SetCNAME`, with this many draws left. `lookup` is `Get` or `GetCNAME`.
  unfoldable pub choose_name :
      (DomainOptions → Exec Error S Domain) → ℕ → ℕ → Bytes → Exec Error S Bytes
  unfolding is_frozen is_unused first_piece
  choose_name lookup zero i fqdn = pure fqdn
  choose_name lookup (suc left) i fqdn = do
    let candidate = sub_name (b.draw i) b.zone
    frozen ← is_frozen (first_piece (split dot candidate))
    elim frozen [
      | true ↦ choose_name lookup left (i + 1) fqdn
      | false ↦ is_unused (lookup (only_name candidate)) >>= λ unused. elim unused [
        | true ↦ pure candidate
        | false ↦ choose_name lookup left (i + 1) fqdn
      ]
    ]

  -- The name that was chosen, its slug frozen in the database.
  unfoldable pub freeze_chosen : Bytes → Exec Error S Bytes
  unfolding of_database wrapped first_piece
  freeze_chosen fqdn = elim (same fqdn []) [
    | true ↦ raise generate_name
    | false ↦
        wrapped (codes "insert frozen")
          (of_database (db.insert_frozen (first_piece (split dot fqdn))))
        >> pure fqdn
  ]

  unfoldable pub freeze_name : (DomainOptions → Exec Error S Domain) → Bytes → Exec Error S Bytes
  unfolding freeze_chosen
  freeze_name lookup given = choose_name lookup 100 0 given >>= freeze_chosen

  unfoldable pub set_token : Bytes → Bool → Exec Error S ℤ
  unfolding of_database
  set_token fqdn true = do renewed ← of_database (db.renew_token fqdn); pure renewed.0
  set_token fqdn false = of_database (db.insert_token b.fresh_token fqdn)

  -- `for k, v := range opts.SubDomain`; its order is that of the list.
  unfoldable pub set_subs : Bytes → ℤ → ℤ → List (Bytes × List Bytes) → Exec Error S (Unit {0})
  unfolding set_record a_set
  set_subs fqdn tid pid [] = pure tt
  set_subs fqdn tid pid ((k, v) ∷ subs) = do
    set_record z db b (a_set (sub_name k fqdn) v) kind_a tid pid true
    set_subs fqdn tid pid subs

  -- The A record of a domain, its wildcard and its sub-domains.
  unfoldable pub set_all : Bytes → DomainOptions → ℤ → ℤ → Exec Error S (Unit {0})
  unfolding set_record set_subs a_set
  set_all fqdn opts tid pid = do
    set_record z db b (a_set fqdn opts.hosts) kind_a tid pid false
    set_record z db b (a_set (wildcard_name fqdn) opts.hosts) kind_a tid pid false
    set_subs fqdn tid pid opts.sub_domain

  unfoldable pub hold_empty : Bytes → ℤ → Exec Error S ℤ
  unfolding set_record_to_database wrapped a_set
  hold_empty fqdn tid =
      wrapped (codes "insert")
        (set_record_to_database z db b (a_set (empty_name fqdn) ([] ∷ [])) kind_a tid (pos 0) false)

  unfoldable pub set : DomainOptions → Exec Error S Domain
  unfolding freeze_name get set_token hold_empty set_all wrapped
  set opts = do
    fqdn ← freeze_name get opts.fqdn
    tid ← wrapped (codes "insert token") (set_token fqdn false)
    pid ← hold_empty fqdn tid
    set_all fqdn opts tid pid
    get (record opts { fqdn = fqdn })

  -- The A record and its wildcard, where the options have no hosts: their rows are looked for among
  -- the sub-domains.
  unfoldable pub delete_own : Bytes → List Bytes → Option (List Bytes) → Exec Error S (Unit {0})
  unfolding delete_record a_set
  delete_own fqdn (h ∷ hosts) old = pure tt
  delete_own fqdn [] none = pure tt
  delete_own fqdn [] (some old) = do
    delete_record z db b (a_set fqdn old) kind_a true
    delete_record z db b (a_set (wildcard_name fqdn) old) kind_a true

  -- The sub-domains that the options do not have.
  unfoldable pub delete_stale : DomainOptions → List (Bytes × List Bytes) → Exec Error S (Unit {0})
  unfolding delete_record a_set mem
  delete_stale opts [] = pure tt
  delete_stale opts ((k, v) ∷ subs) = elim (mem k (keys opts.sub_domain)) [
    | true ↦ delete_stale opts subs
    | false ↦
        delete_record z db b (a_set (sub_name k opts.fqdn) v) kind_a true >> delete_stale opts subs
  ]

  -- Without a row for "empty" the empty domain is returned, with no error, as in `Get`.
  unfoldable pub update : DomainOptions → Exec Error S Domain
  unfolding get get_records filter_records of_database wrapped set_all delete_own delete_stale
      convert_a convert_sub look_up
  update opts = do
    records ← get_records z db b opts.fqdn kind_a
    let f = filter_records records opts.fqdn kind_a
    e ← wrapped (codes "query A") (of_database (checked (db.query_a (empty_name opts.fqdn))))
    elim (same e.fqdn []) [
      | true ↦ pure no_domain
      | false ↦
          set_all opts.fqdn opts e.parent e.id
          >> delete_own opts.fqdn opts.hosts (look_up opts.fqdn (convert_a [] f.a))
          >> delete_stale opts (b.order (convert_sub [] f.s))
          >> get opts
    ]

  unfoldable pub delete_sets : Bool → Kind → List RecordSet → Exec Error S (Unit {0})
  unfolding delete_record
  delete_sets sub typ [] = pure tt
  delete_sets sub typ (rs ∷ rrs) = do delete_record z db b rs typ sub; delete_sets sub typ rrs

  unfoldable pub delete : DomainOptions → Exec Error S (Unit {0})
  unfolding get_records filter_records delete_sets of_database wrapped
  delete opts = do
    records ← get_records z db b opts.fqdn kind_a
    let f = filter_records records opts.fqdn kind_a
    delete_sets false kind_a f.a
    delete_sets true kind_a f.s
    wrapped (codes "delete A") (of_database (db.delete_a (empty_name opts.fqdn)))

  unfoldable pub renew : DomainOptions → Exec Error S Domain
  unfolding query_token of_database wrapped first_piece expiration_of
  renew opts = do
    token ← query_token opts.fqdn opts.fqdn
    wrapped (codes "renew token") (of_database (db.renew_token token.fqdn))
    wrapped (codes "renew frozen")
        (of_database (db.renew_frozen (first_piece (split dot opts.fqdn))))
    pure (record no_domain { fqdn = opts.fqdn; expiration = expiration_of z db b token.created_on })
