-- ===== src/Command.antt =====
-- The commands: command/etcdv3 and command/route53, main.go, and the metrics daemon. A child for each.
pub mod Environment
pub mod Corefile
pub mod Backends
pub mod Daemons
pub mod Main
pub mod Examples
pub mod Etcdv3
pub mod Route53
