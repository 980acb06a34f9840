-- ===== src/Service/Session/Examples.antt =====
-- A domain is created over a small backend, and then renewed with the token of the answer.
use rdns_server.Base.{◌≡◌, refl, false, List, [], ◌∷◌, none, some, Bytes, codes, ok, err, arith}
use rdns_server.Text.{dot}
use rdns_server.Text.RoundTrip.{Lacks}
use rdns_server.Model.{Domain, no_domain}
use rdns_server.Service.{Backend, Response, HttpRequest, bearer}
use rdns_server.Service.Handlers.{create_domain, renew_domain}
use rdns_server.Service.Routes.{renew_domain_route, serve_route}
use rdns_server.Service.Examples.{plain_library, request, compares}
use rdns_server.Service.Session.{created, create_domain-opens}

abbrev slug_domain : Domain
slug_domain = record no_domain { fqdn = codes "abc.lb.cloud" }

-- A backend that keeps the names that it set, and has one token for all of them.
abbrev little : Backend
little = record {
  State = List Bytes;
  Error = Bytes;
  error_text = λ e. e;
  get = λ o s. (ok slug_domain, s);
  set = λ o s. (ok slug_domain, slug_domain.fqdn ∷ s);
  update = λ o s. (ok slug_domain, s);
  renew = λ o s. (ok (record slug_domain { fqdn = o.fqdn }), s);
  get_text = λ o s. (err (codes "none"), s);
  set_text = λ o s. (err (codes "none"), s);
  update_text = λ o s. (err (codes "none"), s);
  get_cname = λ o s. (err (codes "none"), s);
  set_cname = λ o s. (err (codes "none"), s);
  update_cname = λ o s. (err (codes "none"), s);
  delete = λ o s. (ok tt, []);
  delete_text = λ o s. (ok tt, s);
  delete_cname = λ o s. (ok tt, s);
  get_token = λ n s. (ok (codes "token"), s);
  migrate_record = λ m s. (ok tt, s);
  migrate_frozen = λ m s. (ok tt, s);
  migrate_token = λ m s. (ok tt, s);
  zone = codes "lb.cloud";
}

-- A request for a domain with one host.
abbrev create : HttpRequest
create = record (request []) {
  method = codes "POST";
  path = codes "/v1/domain";
  fqdn = none;
  domain_options = ok (record {
    fqdn = [];
    hosts = codes "1.1.1.1" ∷ [];
    sub_domain = [];
    text = [];
    cname = [];
    normal = false;
  });
}

answered :
    create_domain plain_library little create []
    ≡ (created plain_library little slug_domain (codes "Jtoken"), codes "abc.lb.cloud" ∷ [])
unfolding create_domain rdns_server.Service.generate_token
answered = refl

-- The next request, with the token.
abbrev renew : HttpRequest
renew = record (request (codes "Bearer Jtoken")) { fqdn = some (codes "abc.lb.cloud") }

abc-Lacks : Lacks dot (codes "abc")
abc-Lacks = ground arith

kept : bearer (codes "Jtoken") ≡ codes "Jtoken"
unfolding bearer rdns_server.Text.trim_left_set
kept = refl

create_domain-opens_example :
    serve_route plain_library little renew_domain_route renew (codes "abc.lb.cloud" ∷ [])
    ≡ renew_domain plain_library little renew (codes "abc.lb.cloud" ∷ [])
unfolding rdns_server.Service.Access.below renew_domain rdns_server.Service.Routes.handler_of
create_domain-opens_example =
    create_domain-opens plain_library little (λ h. refl) compares (λ n s. refl) renew_domain_route
      create renew [] (codes "abc.lb.cloud" ∷ []) slug_domain [] (codes "abc") (codes "Jtoken")
      answered refl tt abc-Lacks kept refl refl
