-- ===== src/Service/Examples.antt =====
-- Runs of the service over the etcd backend, and one instance of each theorem.
use rdns_server.Base.{
  ◌≡◌, refl, ◌⊎◌, true, [], ◌∷◌, Option, none, some, Bytes, codes, same, same_refl, Result, ok, err,
}
use rdns_server.Text.{has_prefix}
use rdns_server.Etcdv3.Examples.{table, config}
use rdns_server.Service.{
  Backend, Library, HttpRequest, etcd_backend, guarded, bearer, owner, token_middleware,
}
use rdns_server.Service.Handlers.{update_text}
use rdns_server.Service.Routes.{create_text_route, method_of, path_of, has_name, guarded-path_of}
use rdns_server.Service.Access.{token_middleware_lem, Refused}

-- A hash is the token itself, and an encoding has one byte more.
abbrev pub plain_library : Library
plain_library = record {
  hash = λ o. ok o;
  compare_hash = same;
  encode = λ h. b'J' ∷ h;
  decode = tail;
}
  where
    tail : Bytes → Option Bytes
    tail [] = none
    tail (c ∷ h) = some h

unfoldable server : Backend
unfolding etcd_backend
server = etcd_backend (λ x. codes "error") table config

unfoldable tokens : server.State
unfolding server
tokens = (codes "/tokenv3/abc_lb_cloud", (codes "secret", 5)) ∷ []

abbrev name : Bytes
name = codes "www.abc.lb.cloud"

abbrev pub request : Bytes → HttpRequest
request header = record {
  method = codes "PUT";
  path = codes "/v1/domain/www.abc.lb.cloud/txt";
  authorization = header;
  fqdn = some name;
  normal = [];
  domain_options = err (codes "no body");
  record_options = err (codes "no body");
  frozen_options = err (codes "no body");
  token_options = err (codes "no body");
}

guarded-path_of_example :
    guarded (method_of create_text_route) (path_of create_text_route name)
    ≡ has_name create_text_route
guarded-path_of_example = guarded-path_of create_text_route name

asks : guarded (codes "PUT") (codes "/v1/domain/www.abc.lb.cloud/txt") ≡ true
unfolding guarded same has_prefix
asks = refl

token_middleware_lem_example :
    Refused plain_library server (request (codes "Bearer JDJh")) tokens (
      token_middleware plain_library server
        (update_text plain_library server)
        (request (codes "Bearer JDJh"))
        tokens)
    ⊎ ((f : Bytes) × (hash : Bytes) × (origin : Bytes) × (t : server.State) × (some name ≡ some f)
        × (plain_library.decode (bearer (codes "Bearer JDJh")) ≡ some hash)
        × (server.get_token (owner server.zone f) tokens ≡ (ok origin, t))
        × (same hash origin ≡ true)
        × (token_middleware plain_library server
              (update_text plain_library server)
              (request (codes "Bearer JDJh"))
              tokens
            ≡ update_text plain_library server (request (codes "Bearer JDJh")) t))
unfolding server
token_middleware_lem_example =
    token_middleware_lem plain_library server (update_text plain_library server)
      (request (codes "Bearer JDJh")) tokens asks

pub compares : (o h : Bytes) → ◌≡◌ {A = Result Bytes Bytes} (ok o) (ok h) → same h o ≡ true
compares o h e = let p : o ≡ h = cc in rw p (same_refl h)
