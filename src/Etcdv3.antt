-- ===== src/Etcdv3.antt =====
-- backend/etcdv3: the backend that keeps its records in etcd.
pub mod Names
pub mod Client
pub mod Sync
pub mod Leases
pub mod Keys
pub mod Domains
pub mod Texts
pub mod Examples
