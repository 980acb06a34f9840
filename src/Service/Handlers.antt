-- ===== src/Service/Handlers.antt =====
-- service/handlers.go: one handler for each route.
use rdns_server.Base.{
  Bool, true, false, List, [], ◌∷◌, Option, none, some, Bytes, codes, same, if◌then◌else◌, Result,
  ok, err,
}
use rdns_server.Model.{Domain, DomainOptions}
use rdns_server.Service.{
  Backend, Library, HttpRequest, Response, http_error, ok_status, error_status, generate_token,
}

-- vars["fqdn"]
or_empty : Option Bytes → Bytes
or_empty none = []
or_empty (some s) = s

-- vals["normal"] begins with "true"
is_normal : List Bytes → Bool
is_normal [] = false
is_normal (v ∷ vs) = same v (codes "true")

-- The options of a request without a body.
unfoldable pub named_options : HttpRequest → DomainOptions
unfolding or_empty
named_options r = record {
  fqdn = or_empty r.fqdn;
  hosts = [];
  sub_domain = [];
  text = [];
  cname = [];
  normal = false;
}

-- Options that are normal where the query says so.
unfoldable pub marked : HttpRequest → DomainOptions → DomainOptions
unfolding is_normal
marked r o = record o { normal = if is_normal r.normal then true else o.normal }

-- returnSuccess and returnSuccessNoData
unfoldable pub success : Domain → Bytes → Response
success d text = record { status = ok_status; message = text; domain = some d; token = [] }

unfoldable pub success_no_data : Response
success_no_data = record { status = ok_status; message = []; domain = none; token = [] }

module _ (lib : Library) (b : Backend) where
  abbrev pub failed : b.Error → Response
  failed x = http_error error_status (b.error_text x)

  -- A domain, or an error of the server.
  domain_reply : Result b.Error Domain × b.State → Response × b.State
  domain_reply (ok d, s) = (success d [], s)
  domain_reply (err x, s) = (failed x, s)

  -- Reading answers with the code of success even where it failed; an error leaves the domain empty.
  read_reply : Result b.Error Domain × b.State → Response × b.State
  read_reply (ok d, s) = (success d [], s)
  read_reply (err x, s) =
      (record { status = ok_status; message = b.error_text x; domain = none; token = [] }, s)

  done_reply : Result b.Error (Unit {0}) × b.State → Response × b.State
  done_reply (ok u, s) = (success_no_data, s)
  done_reply (err x, s) = (failed x, s)

  abbrev pub with_token : Domain → Result Bytes Bytes × b.State → Response × b.State
  with_token d (ok token, s) =
      (record { status = ok_status; message = []; domain = some d; token = token }, s)
  with_token d (err text, s) = (http_error error_status text, s)

  -- returnSuccessWithToken behind an operation
  unfoldable pub token_reply : Result b.Error Domain × b.State → Response × b.State
  token_reply (ok d, s) = with_token d (generate_token lib b d.fqdn s)
  token_reply (err x, s) = (failed x, s)

  -- A body that does not parse is an error of the server.
  unfoldable pub parsed :
      {A : Type 0}
      → Result Bytes A
      → (A → b.State → Response × b.State)
      → b.State
      → Response × b.State
  parsed (ok a) f s = f a s
  parsed (err text) f s = (http_error error_status text, s)

  unfoldable pub create_domain : HttpRequest → b.State → Response × b.State
  unfolding parsed token_reply marked
  create_domain r s = parsed r.domain_options (λ o t. token_reply (b.set (marked r o) t)) s

  unfoldable pub get_domain : HttpRequest → b.State → Response × b.State
  unfolding read_reply marked named_options
  get_domain r s = read_reply (b.get (marked r (named_options r)) s)

  unfoldable pub renew_domain : HttpRequest → b.State → Response × b.State
  unfolding domain_reply named_options
  renew_domain r s = domain_reply (b.renew (named_options r) s)

  unfoldable pub update_domain : HttpRequest → b.State → Response × b.State
  unfolding parsed domain_reply marked or_empty
  update_domain r s =
      parsed r.domain_options
        (λ o t. domain_reply (b.update (record (marked r o) { fqdn = or_empty r.fqdn }) t)) s

  unfoldable pub delete_domain : HttpRequest → b.State → Response × b.State
  unfolding done_reply marked named_options
  delete_domain r s = done_reply (b.delete (marked r (named_options r)) s)

  unfoldable pub create_cname : HttpRequest → b.State → Response × b.State
  unfolding parsed token_reply marked
  create_cname r s = parsed r.domain_options (λ o t. token_reply (b.set_cname (marked r o) t)) s

  unfoldable pub get_cname : HttpRequest → b.State → Response × b.State
  unfolding read_reply marked named_options
  get_cname r s = read_reply (b.get_cname (marked r (named_options r)) s)

  unfoldable pub update_cname : HttpRequest → b.State → Response × b.State
  unfolding parsed domain_reply marked or_empty
  update_cname r s =
      parsed r.domain_options
        (λ o t. domain_reply (b.update_cname (record (marked r o) { fqdn = or_empty r.fqdn }) t)) s

  unfoldable pub delete_cname : HttpRequest → b.State → Response × b.State
  unfolding done_reply marked named_options
  delete_cname r s = done_reply (b.delete_cname (marked r (named_options r)) s)

  unfoldable pub create_text : HttpRequest → b.State → Response × b.State
  unfolding parsed domain_reply or_empty
  create_text r s =
      parsed r.domain_options
        (λ o t. domain_reply (b.set_text (record o { fqdn = or_empty r.fqdn }) t)) s

  unfoldable pub get_text : HttpRequest → b.State → Response × b.State
  unfolding read_reply named_options
  get_text r s = read_reply (b.get_text (named_options r) s)

  unfoldable pub update_text : HttpRequest → b.State → Response × b.State
  unfolding parsed domain_reply or_empty
  update_text r s =
      parsed r.domain_options
        (λ o t. domain_reply (b.update_text (record o { fqdn = or_empty r.fqdn }) t)) s

  unfoldable pub delete_text : HttpRequest → b.State → Response × b.State
  unfolding done_reply named_options
  delete_text r s = done_reply (b.delete_text (named_options r) s)

  unfoldable pub ping : HttpRequest → b.State → Response × b.State
  unfolding success_no_data
  ping r s = (success_no_data, s)

  unfoldable pub migrate_record : HttpRequest → b.State → Response × b.State
  unfolding parsed done_reply
  migrate_record r s = parsed r.record_options (λ o t. done_reply (b.migrate_record o t)) s

  unfoldable pub migrate_frozen : HttpRequest → b.State → Response × b.State
  unfolding parsed done_reply
  migrate_frozen r s = parsed r.frozen_options (λ o t. done_reply (b.migrate_frozen o t)) s

  unfoldable pub migrate_token : HttpRequest → b.State → Response × b.State
  unfolding parsed done_reply
  migrate_token r s = parsed r.token_options (λ o t. done_reply (b.migrate_token o t)) s
