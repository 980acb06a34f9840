-- ===== src/Service/Routes.antt =====
-- service/routes.go: the routes, and those that ask for a token.
use rdns_server.Base.{◌≡◌, refl, Bool, true, false, [], ◌∷◌, ◌++◌, Bytes, codes, same, arith}
use rdns_server.Text.{contains, has_prefix}
use rdns_server.Service.{Backend, Library, HttpRequest, Response, guarded, token_middleware}
use rdns_server.Service.Handlers.{
  create_domain, get_domain, renew_domain, update_domain, delete_domain, create_cname, get_cname,
  update_cname, delete_cname, create_text, get_text, update_text, delete_text, ping, migrate_record,
  migrate_frozen, migrate_token,
}

pub data Route : Type 0 where
  ping_route : Route
  get_domain_route : Route
  create_domain_route : Route
  update_domain_route : Route
  delete_domain_route : Route
  renew_domain_route : Route
  create_cname_route : Route
  get_cname_route : Route
  update_cname_route : Route
  delete_cname_route : Route
  create_text_route : Route
  get_text_route : Route
  update_text_route : Route
  delete_text_route : Route
  migrate_record_route : Route
  migrate_frozen_route : Route
  migrate_token_route : Route

unfoldable pub method_of : Route → Bytes
method_of ping_route = codes "GET"
method_of get_domain_route = codes "GET"
method_of create_domain_route = codes "POST"
method_of update_domain_route = codes "PUT"
method_of delete_domain_route = codes "DELETE"
method_of renew_domain_route = codes "PUT"
method_of create_cname_route = codes "POST"
method_of get_cname_route = codes "GET"
method_of update_cname_route = codes "PUT"
method_of delete_cname_route = codes "DELETE"
method_of create_text_route = codes "POST"
method_of get_text_route = codes "GET"
method_of update_text_route = codes "PUT"
method_of delete_text_route = codes "DELETE"
method_of migrate_record_route = codes "POST"
method_of migrate_frozen_route = codes "POST"
method_of migrate_token_route = codes "POST"

-- The path of a route, with the name in the place of {fqdn}.
unfoldable pub path_of : Route → Bytes → Bytes
path_of ping_route f = codes "/ping"
path_of get_domain_route f = codes "/v1/domain/" ++ f
path_of create_domain_route f = codes "/v1/domain"
path_of update_domain_route f = codes "/v1/domain/" ++ f
path_of delete_domain_route f = codes "/v1/domain/" ++ f
path_of renew_domain_route f = codes "/v1/domain/" ++ f ++ codes "/renew"
path_of create_cname_route f = codes "/v1/domain/cname"
path_of get_cname_route f = codes "/v1/domain/" ++ f ++ codes "/cname"
path_of update_cname_route f = codes "/v1/domain/" ++ f ++ codes "/cname"
path_of delete_cname_route f = codes "/v1/domain/" ++ f ++ codes "/cname"
path_of create_text_route f = codes "/v1/domain/" ++ f ++ codes "/txt"
path_of get_text_route f = codes "/v1/domain/" ++ f ++ codes "/txt"
path_of update_text_route f = codes "/v1/domain/" ++ f ++ codes "/txt"
path_of delete_text_route f = codes "/v1/domain/" ++ f ++ codes "/txt"
path_of migrate_record_route f = codes "/v1/migrate/record"
path_of migrate_frozen_route f = codes "/v1/migrate/frozen"
path_of migrate_token_route f = codes "/v1/migrate/token"

-- The routes with a name in their path.
unfoldable pub has_name : Route → Bool
has_name ping_route = false
has_name create_domain_route = false
has_name create_cname_route = false
has_name migrate_record_route = false
has_name migrate_frozen_route = false
has_name migrate_token_route = false
has_name _ = true

module _ (lib : Library) (b : Backend) where
  unfoldable pub handler_of : Route → HttpRequest → b.State → Response × b.State
  unfolding create_domain get_domain renew_domain update_domain delete_domain create_cname get_cname
      update_cname delete_cname create_text get_text update_text delete_text ping migrate_record
      migrate_frozen migrate_token
  handler_of ping_route = ping lib b
  handler_of get_domain_route = get_domain lib b
  handler_of create_domain_route = create_domain lib b
  handler_of update_domain_route = update_domain lib b
  handler_of delete_domain_route = delete_domain lib b
  handler_of renew_domain_route = renew_domain lib b
  handler_of create_cname_route = create_cname lib b
  handler_of get_cname_route = get_cname lib b
  handler_of update_cname_route = update_cname lib b
  handler_of delete_cname_route = delete_cname lib b
  handler_of create_text_route = create_text lib b
  handler_of get_text_route = get_text lib b
  handler_of update_text_route = update_text lib b
  handler_of delete_text_route = delete_text lib b
  handler_of migrate_record_route = migrate_record lib b
  handler_of migrate_frozen_route = migrate_frozen lib b
  handler_of migrate_token_route = migrate_token lib b

  -- A request for a route, behind the middleware.
  unfoldable pub serve_route : Route → HttpRequest → b.State → Response × b.State
  unfolding token_middleware handler_of
  serve_route route = token_middleware lib b (handler_of route)

contains-append : (p s q : Bytes) → has_prefix s q ≡ true → contains (p ++ s) q ≡ true
unfolding contains
contains-append [] [] q h = h
contains-append [] (x ∷ s) q h = ground (arith, h)
contains-append (x ∷ p) s q h = ground (arith, contains-append p s q h)

-- A token is asked for on exactly the routes with a name in their path, whatever the name.
pub guarded-path_of :
    (route : Route) (f : Bytes) → guarded (method_of route) (path_of route f) ≡ has_name route
unfolding guarded method_of path_of has_name same has_prefix contains
guarded-path_of create_text_route f =
    rw (contains-append (codes "/v1/domain/" ++ f) (codes "/txt") (codes "/txt") refl) refl
guarded-path_of ping_route f = refl
guarded-path_of get_domain_route f = refl
guarded-path_of create_domain_route f = refl
guarded-path_of update_domain_route f = refl
guarded-path_of delete_domain_route f = refl
guarded-path_of renew_domain_route f = refl
guarded-path_of create_cname_route f = refl
guarded-path_of get_cname_route f = refl
guarded-path_of update_cname_route f = refl
guarded-path_of delete_cname_route f = refl
guarded-path_of get_text_route f = refl
guarded-path_of update_text_route f = refl
guarded-path_of delete_text_route f = refl
guarded-path_of migrate_record_route f = refl
guarded-path_of migrate_frozen_route f = refl
guarded-path_of migrate_token_route f = refl
