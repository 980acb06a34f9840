-- ===== src/Service.antt =====
-- The HTTP service: service/token.go and service/handlers.go, over the interface of backend/backend.go.
pub mod Handlers
pub mod Routes
pub mod Access
pub mod Session
pub mod Examples
use rdns_server.Base.{
  ℕ, ◌+◌, ◌-◌, Bool, true, false, not, ◌&&◌, ◌||◌, List, [], ◌∷◌, Option, none, some, Bytes, codes,
  same, length, leb, ltb, if◌then◌else◌, Result, ok, err,
}
use rdns_server.Base.Exec.{Exec}
use rdns_server.Text.{split, split_after_n, contains, has_prefix, trim_left_set, dot}
use rdns_server.Model.{Domain, DomainOptions, MigrateRecord, MigrateFrozen, MigrateToken}
use rdns_server.Etcdv3.Client.{Client, Config, Error}
use rdns_server.Etcdv3.Texts.{
  get_text, set_text, update_text, delete_text, set_cname, delete_cname, migrate_record,
  migrate_frozen, migrate_token,
}
use rdns_server.Etcdv3.Leases.{get_token}
use rdns_server.Etcdv3.Domains.{get, set, update, delete, renew}

-- The interface Backend.
pub record Backend : Type 1 where
  pub State : Type 0
  pub Error : Type 0
  -- err.Error()
  pub error_text : Error → Bytes
  pub get : DomainOptions → Exec Error State Domain
  pub set : DomainOptions → Exec Error State Domain
  pub update : DomainOptions → Exec Error State Domain
  pub renew : DomainOptions → Exec Error State Domain
  pub get_text : DomainOptions → Exec Error State Domain
  pub set_text : DomainOptions → Exec Error State Domain
  pub update_text : DomainOptions → Exec Error State Domain
  pub get_cname : DomainOptions → Exec Error State Domain
  pub set_cname : DomainOptions → Exec Error State Domain
  pub update_cname : DomainOptions → Exec Error State Domain
  pub delete : DomainOptions → Exec Error State (Unit {0})
  pub delete_text : DomainOptions → Exec Error State (Unit {0})
  pub delete_cname : DomainOptions → Exec Error State (Unit {0})
  pub get_token : Bytes → Exec Error State Bytes
  pub migrate_record : MigrateRecord → Exec Error State (Unit {0})
  pub migrate_frozen : MigrateFrozen → Exec Error State (Unit {0})
  pub migrate_token : MigrateToken → Exec Error State (Unit {0})
  pub zone : Bytes

-- backend/etcdv3 as a Backend.
unfoldable pub etcd_backend : (Error → Bytes) → Client → Config → Backend
unfolding get set update delete renew get_text set_text update_text delete_text set_cname
    delete_cname get_token migrate_record migrate_frozen migrate_token
etcd_backend text c b = record {
  State = c.State;
  Error = Error;
  error_text = text;
  get = get c b;
  set = set c b;
  update = update c b;
  renew = renew c b;
  get_text = get_text c b;
  set_text = set_text c b;
  update_text = update_text c b;
  get_cname = set_cname c b;
  set_cname = set_cname c b;
  update_cname = set_cname c b;
  delete = delete c b;
  delete_text = delete_text c b;
  delete_cname = delete_cname c b;
  get_token = get_token c b;
  migrate_record = migrate_record c b;
  migrate_frozen = migrate_frozen c b;
  migrate_token = migrate_token c b;
  zone = b.domain;
}

-- bcrypt and base64. `hash` is what one call of GenerateFromPassword returns, with its
-- random salt.
pub record Library : Type 0 where
  pub hash : Bytes → Result Bytes Bytes
  pub compare_hash : Bytes → Bytes → Bool
  pub encode : Bytes → Bytes
  pub decode : Bytes → Option Bytes

-- What the handlers read of a request: the name in its path, the values of the query's `normal`, and
-- its body as the parsers of package model read it.
pub record HttpRequest : Type 0 where
  pub method : Bytes
  pub path : Bytes
  pub authorization : Bytes
  pub fqdn : Option Bytes
  pub normal : List Bytes
  pub domain_options : Result Bytes DomainOptions
  pub record_options : Result Bytes MigrateRecord
  pub frozen_options : Result Bytes MigrateFrozen
  pub token_options : Result Bytes MigrateToken

-- model.Response
pub record Response : Type 0 where
  pub status : ℕ
  pub message : Bytes
  pub domain : Option Domain
  pub token : Bytes

abbrev pub ok_status : ℕ
ok_status = 200

abbrev pub forbidden_status : ℕ
forbidden_status = 403

abbrev pub error_status : ℕ
error_status = 500

-- returnHTTPError
abbrev pub http_error : ℕ → Bytes → Response
http_error status text = record { status = status; message = text; domain = none; token = [] }

unfoldable pub last_piece : Bytes → List Bytes → Bytes
last_piece s [] = s
last_piece s (p ∷ ps) = last_piece p ps

-- The name whose token counts: the one directly below the zone.
unfoldable pub owner : Bytes → Bytes → Bytes
unfolding last_piece
owner zone fqdn =
    let labels = length (split dot fqdn) in
    let zone_labels = length (split dot zone) in
    if ltb (zone_labels + 1) labels
    then last_piece fqdn (split_after_n dot (labels - zone_labels) fqdn)
    else fqdn

-- The condition of tokenMiddleware.
unfoldable pub guarded : Bytes → Bytes → Bool
guarded method path =
    (same method (codes "POST") && contains path (codes "/txt"))
    || (not (same method (codes "POST"))
        && not (has_prefix path (codes "/ping"))
        && not (has_prefix path (codes "/metrics")))

-- The token of a header: every leading byte of "Bearer " is taken off.
unfoldable pub bearer : Bytes → Bytes
bearer = trim_left_set (codes "Bearer ")

module _ (lib : Library) (b : Backend) where
  abbrev pub encoded : Result Bytes Bytes → Result Bytes Bytes
  encoded (ok h) = ok (lib.encode h)
  encoded (err x) = err x

  unfoldable pub hashed : Result b.Error Bytes × b.State → Result Bytes Bytes × b.State
  hashed (ok origin, s) = (encoded (lib.hash origin), s)
  hashed (err x, s) = (err (b.error_text x), s)

  unfoldable pub generate_token : Bytes → Exec Bytes b.State Bytes
  unfolding hashed
  generate_token fqdn s = hashed (b.get_token fqdn s)

  unfoldable pub compared : Bytes → Result b.Error Bytes × b.State → Bool × b.State
  compared hash (ok origin, s) = (lib.compare_hash hash origin, s)
  compared hash (err x, s) = (false, s)

  unfoldable pub compare_token : Bytes → Bytes → b.State → Bool × b.State
  unfolding owner compared
  compare_token fqdn token s = elim (lib.decode token) [
    | none ↦ (false, s)
    | some hash ↦ compared hash (b.get_token (owner b.zone fqdn) s)
  ]

  -- A handler, with what its backend keeps.
  abbrev pub Handler : Type 0
  Handler = HttpRequest → b.State → Response × b.State

  unfoldable pub allow : Handler → HttpRequest → Bool × b.State → Response × b.State
  allow next r (true, s) = next r s
  allow next r (false, s) = (http_error forbidden_status (codes "forbidden to use"), s)

  unfoldable pub token_middleware : Handler → Handler
  unfolding guarded bearer compare_token allow
  token_middleware next r s = elim (guarded r.method r.path) [
    | false ↦ next r s
    | true ↦ elim r.fqdn [
      | none ↦ (http_error forbidden_status (codes "must specific the fqdn"), s)
      | some fqdn ↦ allow next r (compare_token fqdn (bearer r.authorization) s)
    ]
  ]
