-- ===== src/Command/Main.antt =====
-- main.go and metric: the program's flags and commands, and a round of the metrics daemon.
use rdns_server.Base.{ℕ, ◌==◌, Bool, List, [], ◌∷◌, ◌++◌, Bytes, codes, Result, ok, err}
use rdns_server.Base.Int.{ℤ, pos}
use rdns_server.Base.Exec.{Exec}
use rdns_server.Command.Environment.{StringFlag, string_flags}
use rdns_server.Command.Etcdv3
use rdns_server.Command.Route53

-- cli.BoolFlag
pub record BoolFlag : Type 0 where
  pub name : Bytes
  pub env_var : Bytes
  pub usage : Bytes

-- cli.Command, but for its action.
pub record CliCommand : Type 0 where
  pub name : Bytes
  pub alias : Bytes
  pub usage : Bytes
  pub flags : List StringFlag

pub record App : Type 0 where
  pub author : Bytes
  pub version : Bytes
  pub name : Bytes
  pub usage : Bytes
  pub debug : BoolFlag
  pub string_flags : List StringFlag
  pub commands : List CliCommand

abbrev dns_version : Bytes
dns_version = codes "v0.5.7"

-- The flags of the program that have a value.
unfoldable pub program_flags : List StringFlag
program_flags =
    record {
      name = codes "listen";
      env_var = codes "LISTEN";
      usage = codes "used to set listen port.";
      value = codes ":9333";
    }
    ∷ record {
      name = codes "frozen";
      env_var = codes "FROZEN";
      usage = codes "used to set the duration when the domain name can be used again.";
      value = codes "2160h";
    }
    ∷ []

-- main, for a program of this name built at this date.
unfoldable pub app : Bytes → Bytes → App
unfolding program_flags string_flags Etcdv3.flags Route53.flags
app program date = record {
  author = codes "Rancher Labs, Inc.";
  version = dns_version;
  name = program;
  usage = codes "control and configure RDNS(" ++ date ++ codes ")";
  debug = record {
    name = codes "debug, d";
    env_var = codes "DEBUG";
    usage = codes "used to set debug mode.";
  };
  string_flags = program_flags;
  commands =
      record {
        name = codes "route53";
        alias = codes "r53";
        usage = codes "use aws route53 backend";
        flags = string_flags Route53.flags;
      }
      ∷ record {
        name = codes "etcdv3";
        alias = codes "ev3";
        usage = codes "use etcd-v3 backend";
        flags = string_flags Etcdv3.flags;
      }
      ∷ [];
}

-- beforeFunc: only root may run the program; `false` ends it.
unfoldable pub before_func : ℕ → Bool
before_func uid = uid == 0

abbrev counted : {E : Type 0} → Result E ℤ → ℤ
counted (ok n) = n
counted (err e) = pos 0

-- A round of the metrics daemon: an error of the count is logged, and the gauge is set to 0.
unfoldable pub metric_round : {E S : Type 0} → Exec E S ℤ → (ℤ → S → S) → S → S
metric_round get_token_count set_gauge s =
    set_gauge (counted (get_token_count s).0) (get_token_count s).1
