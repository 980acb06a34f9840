-- ===== src/Route53/Mirror.antt =====
-- How backend/route53 keeps the hosted zone and the database in step.
pub mod Laws
pub mod Writes
pub mod Agreement
pub mod Sql
pub mod Mysql
