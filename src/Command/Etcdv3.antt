-- ===== src/Command/Etcdv3.antt =====
-- command/etcdv3/etcdv3.go: the flags and the action of the command.
pub mod Runs
use rdns_server.Base.{
  String, Bool, ◌||◌, List, [], ◌∷◌, Option, none, some, Bytes, codes, same, Result, ok, err,
}
use rdns_server.Command.Environment.{Error, wrap, Environment, Flag, Context, set_environments}
use rdns_server.Command.Backends.{EtcdLibrary, EtcdBackend, new_etcd_backend}
use rdns_server.Command.Daemons.{Daemon, metrics, core_dns, http, Outcome, stopped, running}
use rdns_server.Command.Corefile.{Files, generate_core_file}

unfoldable pub flags : List Flag
flags =
    flag "DOMAIN" "used to set etcd root domain." "lb.rancher.cloud"
    ∷ flag "ETCD_ENDPOINTS" "used to set etcd endpoints." "http://127.0.0.1:2379"
    ∷ flag "ETCD_PREFIX_PATH" "used to set etcd prefix path." "/rdnsv3"
    ∷ flag "ETCD_LEASE_TIME" "used to set etcd lease time." "240h"
    ∷ flag "CORE_DNS_FILE" "used to set coredns file." "/etc/rdns/config/Corefile"
    ∷ flag "CORE_DNS_PORT" "used to set coredns port." "53"
    ∷ flag "CORE_DNS_CPU" "used to set coredns cpu, a number (e.g. 3) or a percent (e.g. 50%)."
        "50%"
    ∷ flag "CORE_DNS_DB_FILE"
        "used to set coredns file plugin db's file name (e.g. /etc/rdns/config/dbfile)." ""
    ∷ flag "CORE_DNS_DB_ZONE"
        "used to set coredns file plugin db's zone (e.g. api.lb.rancher.cloud)." ""
    ∷ flag "TTL" "used to set coredns ttl." "60"
    ∷ []
  where
    flag : String → String → String → Flag
    flag k u v = record { key = codes k; usage = codes u; value = codes v }

-- The flags that may be empty.
unfoldable pub is_optional : Bytes → Bool
is_optional k = same k (codes "CORE_DNS_DB_FILE") || same k (codes "CORE_DNS_DB_ZONE")

module _ (lib : EtcdLibrary) {S : Type 0} (files : Files S) (c : Context) where
  abbrev Ended : Type 0
  Ended = Outcome lib.Client (EtcdBackend lib.Client)

  abbrev daemons : List Daemon
  daemons = metrics ∷ core_dns ∷ http (c.global_string (codes "listen")) ∷ []

  -- What follows generateCoreFile.
  abbrev with_core_file : EtcdBackend lib.Client → Result Error (Unit {0}) → Ended
  with_core_file b (ok _) = running b daemons
  with_core_file b (err e) = stopped e (some b.client)

  -- What follows setBackend.
  unfoldable pub with_backend : Result Error (EtcdBackend lib.Client) → Environment → S → Ended × S
  unfolding generate_core_file
  with_backend (err e) env s = (stopped e none, s)
  with_backend (ok b) env s =
      (with_core_file b (generate_core_file files env s).0, (generate_core_file files env s).1)

  -- What follows setEnvironments.
  unfoldable pub with_environments :
      Result Error (Unit {0}) → Environment → S → Ended × (Environment × S)
  unfolding with_backend new_etcd_backend
  with_environments (err e) env s =
      (stopped (wrap (codes "failed to set environments") e) none, (env, s))
  with_environments (ok _) env s =
      let (ended, t) = with_backend (new_etcd_backend lib env) env s in (ended, (env, t))

  -- Action, on the environment and the disk, with the names of the flags in the order of `range`.
  unfoldable pub action : List Bytes → Environment → S → Ended × (Environment × S)
  unfolding set_environments with_environments is_optional
  action keys env s =
      let (set, env') = set_environments is_optional c keys env in with_environments set env' s
