-- ===== src/Command/Backends.antt =====
-- NewBackend of backend/etcdv3/etcdv3.go and backend/route53/route53.go, NewDatabase of
-- database/mysql/mysql.go: the connections that the commands make.
use rdns_server.Base.{List, [], ◌∷◌, ◌++◌, Option, none, some, Bytes, codes, Result, ok, err, ◌>>=◌}
use rdns_server.Base.Int.{ℤ}
use rdns_server.Text.{split, trim_right_set, dot}
use rdns_server.Text.Numbers.{parse_int}
use rdns_server.Command.Environment.{Error, failed, wrap, Environment, getenv}

abbrev pub library : {A : Type 0} → Result Bytes A → Result Error A
library (ok a) = ok a
library (err e) = err (failed e)

-- An error of a parser, wrapped with the text for the flag.
abbrev pub flag_or_wrap : {A : Type 0} → Bytes → Result Bytes A → Result Error A
flag_or_wrap name (ok a) = ok a
flag_or_wrap name (err e) = err (wrap (codes "failed to parse flag: " ++ name) (failed e))

-- strconv.ParseInt(s, 10, 64), with its error.
abbrev parsed : Bytes → Option ℤ → Result Bytes ℤ
parsed s none = err s
parsed s (some n) = ok n

-- The Backend struct of backend/etcdv3. Durations are nanoseconds.
pub record EtcdBackend (K : Type 0) : Type 0 where
  pub domain : Bytes
  pub prefix : Bytes
  pub frozen_ttl : ℤ
  pub lease_time : ℤ
  pub client : K

-- clientv3.New with a timeout of five seconds to dial, and time.ParseDuration.
pub record EtcdLibrary : Type 1 where
  pub Client : Type 0
  pub new_client : List Bytes → Result Bytes Client
  pub parse_duration : Bytes → Result Bytes ℤ

unfoldable pub new_etcd_backend :
    (lib : EtcdLibrary) → Environment → Result Error (EtcdBackend lib.Client)
unfolding getenv split
new_etcd_backend lib env = do
  c ← library (lib.new_client (split b',' (getenv env (codes "ETCD_ENDPOINTS"))))
  lease_time ← library (lib.parse_duration (getenv env (codes "ETCD_LEASE_TIME")))
  frozen ← library (lib.parse_duration (getenv env (codes "FROZEN")))
  ok (record {
    domain = getenv env (codes "DOMAIN");
    prefix = getenv env (codes "ETCD_PREFIX_PATH");
    frozen_ttl = frozen;
    lease_time = lease_time;
    client = c;
  })

-- The Backend struct of backend/route53.
pub record Route53Backend (K : Type 0) : Type 0 where
  pub lease_time : ℤ
  pub zone : Bytes
  pub zone_id : Bytes
  pub ttl : ℤ
  pub svc : K

-- session.NewSession with the service made of it, GetHostedZone (the zone's name and number),
-- time.ParseDuration, sql.Open with the two limits on its connections, and Ping.
pub record Route53Library : Type 1 where
  pub Service : Type 0
  pub Db : Type 0
  pub new_service : Result Bytes Service
  pub get_hosted_zone : Service → Bytes → Result Bytes (Bytes × Bytes)
  pub parse_duration : Bytes → Result Bytes ℤ
  pub open_db : Bytes → Result Bytes Db
  pub ping : Db → Result Bytes (Unit {0})

unfoldable pub new_route53_backend :
    (lib : Route53Library) → Environment → Result Error (Route53Backend lib.Service)
unfolding getenv parse_int trim_right_set
new_route53_backend lib env = do
  svc ← library lib.new_service
  zone ← library (lib.get_hosted_zone svc (getenv env (codes "AWS_HOSTED_ZONE_ID")))
  lease_time ←
      flag_or_wrap (codes "database_lease_time")
        (lib.parse_duration (getenv env (codes "DATABASE_LEASE_TIME")))
  ttl ←
      flag_or_wrap (codes "ttl")
        (parsed (getenv env (codes "TTL")) (parse_int 64 (getenv env (codes "TTL"))))
  ok (record {
    lease_time = lease_time;
    zone = trim_right_set (dot ∷ []) zone.0;
    zone_id = zone.1;
    ttl = ttl;
    svc = svc;
  })

-- NewDatabase
unfoldable pub new_database : (lib : Route53Library) → Bytes → Result Error lib.Db
new_database lib dsn = do db ← library (lib.open_db dsn); _ ← library (lib.ping db); ok db
