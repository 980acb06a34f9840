-- ===== src/Model.antt =====
-- The records of package model: model/domain.go and model/migrate.go.
use rdns_server.Base.{List, [], Bytes, Bool}
use rdns_server.Base.Int.{ℤ}

-- A *time.Time: so many seconds after the moment it is asked for, a Unix time in nanoseconds, or nil.
pub data Expiration : Type 0 where
  seconds_left : ℤ → Expiration
  unix_nano : ℤ → Expiration
  unset : Expiration

pub record Domain : Type 0 where
  pub fqdn : Bytes
  pub hosts : List Bytes
  pub sub_domain : List (Bytes × List Bytes)
  pub text : Bytes
  pub cname : Bytes
  pub expiration : Expiration

abbrev pub no_domain : Domain
no_domain = record {
  fqdn = [];
  hosts = [];
  sub_domain = [];
  text = [];
  cname = [];
  expiration = unset;
}

pub record DomainOptions : Type 0 where
  pub fqdn : Bytes
  pub hosts : List Bytes
  pub sub_domain : List (Bytes × List Bytes)
  pub text : Bytes
  pub cname : Bytes
  pub normal : Bool

-- Of a MigrateRecord the fields that the backends read. The time of the others is read in two ways:
-- `expires_in` is the number of seconds from now to it, `nano` its UnixNano().
pub record MigrateRecord : Type 0 where
  pub fqdn : Bytes
  pub hosts : List Bytes
  pub sub_domain : List (Bytes × List Bytes)
  pub text : Bytes

pub record MigrateFrozen : Type 0 where
  pub path : Bytes
  pub expires_in : ℤ
  pub nano : ℤ

pub record MigrateToken : Type 0 where
  pub path : Bytes
  pub token : Bytes
  pub expires_in : ℤ
  pub nano : ℤ
