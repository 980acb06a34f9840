-- ===== src/Coredns.antt =====
-- The CoreDNS plugin: coredns/plugin. A child for each of its files.
pub mod Dns
pub mod Msg
pub mod Zones
pub mod Hosts
pub mod Backend
pub mod Etcd
pub mod Lookup
pub mod Handler
pub mod Setup
pub mod Start
pub mod Examples
