-- ===== src/Coredns/Backend.antt =====
-- coredns/plugin/backend.go: what a lookup asks of a backend.
use rdns_server.Base.{ℕ, Bool, List, Bytes, Result}
use rdns_server.Coredns.Dns.{Request, Rr}
use rdns_server.Coredns.Msg.{Service}

-- The errors of the plugin and of what it calls; `client` is an error of the etcd client or of an
-- upstream server, `bad_value` that of a key whose value does not parse, `panic` a run-time panic;
-- `out_of_fuel` is no error of the program: it marks a bound on recursion that is too low.
pub data Error : Type 0 where
  key_not_found : Error
  client : Bytes → Error
  bad_value : Bytes → Bytes → Error
  ns_not_ip : Bytes → Error
  no_next : Error
  panic : Error
  out_of_fuel : Error

-- ServiceBackend. Within one query the answers do not change.
pub record ServiceBackend : Type 0 where
  pub services : Request → Bool → Result Error (List Service)
  pub reverse : Request → Bool → Result Error (List Service)
  pub lookup : Request → Bytes → ℕ → Result Error (List Rr)
  pub is_name_error : Error → Bool
  pub serial : Request → ℕ
  pub min_ttl : Request → ℕ
