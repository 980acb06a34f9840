-- ===== src/Route53/Interface.antt =====
-- backend/route53 as a Backend.
use rdns_server.Base.{Bytes}
use rdns_server.Database.{Database}
use rdns_server.Service.{Backend}
use rdns_server.Route53.{Error, HostedZone, Settings}
use rdns_server.Route53.Domains.{get, set, update, delete, renew}
use rdns_server.Route53.Records.{
  get_text, set_text, update_text, delete_text, get_cname, set_cname, update_cname, delete_cname,
  get_token, migrate_record, migrate_frozen, migrate_token,
}

unfoldable pub route53_backend :
    {S : Type 0} → (Error → Bytes) → HostedZone S → Database S → Settings S → Backend
unfolding get set update delete renew get_text set_text update_text delete_text get_cname set_cname
    update_cname delete_cname get_token migrate_record migrate_frozen migrate_token
route53_backend {S} text z db b = record {
  State = S;
  Error = Error;
  error_text = text;
  get = get z db b;
  set = set z db b;
  update = update z db b;
  renew = renew z db b;
  get_text = get_text z db b;
  set_text = set_text z db b;
  update_text = update_text z db b;
  get_cname = get_cname z db b;
  set_cname = set_cname z db b;
  update_cname = update_cname z db b;
  delete = delete z db b;
  delete_text = delete_text z db b;
  delete_cname = delete_cname z db b;
  get_token = get_token z db b;
  migrate_record = migrate_record z db b;
  migrate_frozen = migrate_frozen z db b;
  migrate_token = migrate_token z db b;
  zone = b.zone;
}
