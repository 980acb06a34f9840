-- ===== src/Command/Route53.antt =====
-- command/route53/route53.go: the flags and the action of the command.
use rdns_server.Base.{
  String, Bool, false, List, [], ◌∷◌, none, some, Bytes, codes, same, if◌then◌else◌, Result, ok,
  err,
}
use rdns_server.Command.Environment.{
  Error, wrap, no_database, Environment, Flag, Context, set_environments,
}
use rdns_server.Command.Backends.{Route53Library, Route53Backend, new_route53_backend, new_database}
use rdns_server.Command.Daemons.{Daemon, metrics, purger, http, Outcome, stopped, running}

unfoldable pub flags : List Flag
flags =
    flag "AWS_HOSTED_ZONE_ID" "used to set aws hosted zone ID." ""
    ∷ flag "AWS_ACCESS_KEY_ID" "used to set aws access key ID." ""
    ∷ flag "AWS_SECRET_ACCESS_KEY" "used to set aws secret access key." ""
    ∷ flag "DATABASE" "used to set database driver." "mysql"
    ∷ flag "DATABASE_LEASE_TIME" "used to set database lease time." "240h"
    ∷ flag "DSN" "used to set database dsn." ""
    ∷ flag "TTL" "used to set route53 ttl." "10"
    ∷ []
  where
    flag : String → String → String → Flag
    flag k u v = record { key = codes k; usage = codes u; value = codes v }

-- No flag may be empty.
abbrev pub none_optional : Bytes → Bool
none_optional k = false

-- mysql.DriverName
abbrev driver_name : Bytes
driver_name = codes "mysql"

module _ (lib : Route53Library) (c : Context) where
  abbrev Ended : Type 0
  Ended = Outcome lib.Db (Route53Backend lib.Service)

  abbrev daemons : List Daemon
  daemons = metrics ∷ purger ∷ http (c.global_string (codes "listen")) ∷ []

  unfoldable pub set_database : Result Error lib.Db
  unfolding new_database
  set_database =
      if same (c.string (codes "database")) driver_name
      then new_database lib (c.string (codes "dsn"))
      else err no_database

  -- What follows setBackend.
  unfoldable pub with_backend : lib.Db → Result Error (Route53Backend lib.Service) → Ended
  with_backend d (err e) = stopped e (some d)
  with_backend d (ok b) = running b daemons

  -- What follows setDatabase.
  unfoldable pub with_database : Result Error lib.Db → Environment → Ended
  unfolding with_backend new_route53_backend
  with_database (err e) env = stopped e none
  with_database (ok d) env = with_backend d (new_route53_backend lib env)

  -- What follows setEnvironments.
  unfoldable pub with_environments : Result Error (Unit {0}) → Environment → Ended
  unfolding with_database set_database
  with_environments (err e) env = stopped (wrap (codes "failed to set environments") e) none
  with_environments (ok _) env = with_database set_database env

  -- Action, on the environment, with the names of the flags in the order of `range`.
  unfoldable pub action : List Bytes → Environment → Ended × Environment
  unfolding set_environments with_environments
  action keys env =
      let (set, env') = set_environments none_optional c keys env in
      (with_environments set env', env')
