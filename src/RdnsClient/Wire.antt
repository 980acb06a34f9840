-- ===== src/RdnsClient/Wire.antt =====
-- What client/rdns_client.go sends, receives, and calls.
use rdns_server.Base.{ℕ, List, Option, Bytes, Result}
use rdns_server.Base.Exec.{Exec}

-- The errors of Kubernetes, and those of the client, with errors.Wrap as `wrap`.
pub data Kube : Type 0 where
  not_found : Kube
  already_exists : Kube
  other : Bytes → Kube

pub data Error : Type 0 where
  kube : Kube → Error
  transport : Bytes → Error
  read_body : Bytes → Error
  decode_body : Bytes → Error
  rejected : Bytes → Error
  bad_request : Bytes → Error
  bad_json : Bytes → Error
  panic : Error
  wrap : Bytes → Error → Error

-- Slices and maps that may be nil are options.
pub record Data : Type 0 where
  pub fqdn : Bytes
  pub hosts : Option (List Bytes)
  pub sub_domain : Option (List (Bytes × Option (List Bytes)))

pub record Reply : Type 0 where
  pub message : Bytes
  pub domain : Data
  pub token : Bytes

-- The options that the client sends.
pub record Options : Type 0 where
  pub hosts : Option (List Bytes)
  pub sub_domain : Option (List (Bytes × Option (List Bytes)))
  pub cname : Bytes

pub record Request : Type 0 where
  pub method : Bytes
  pub url : Bytes
  pub body : Option Bytes
  pub content_type : Bytes
  pub authorization : Option Bytes

pub record Secret : Type 0 where
  pub namespace : Bytes
  pub name : Bytes
  pub token : Bytes
  pub fqdn : Bytes

-- Packages net/http and encoding/json, and the two interfaces to the secrets. `send` gives the status
-- and what reading the body gives; the data of a secret are its StringData, which Kubernetes merges.
pub record World : Type 1 where
  pub State : Type 0
  pub invalid : Bytes → Bytes → Option Bytes
  pub send : Request → Exec Bytes State (ℕ × Result Bytes Bytes)
  pub encode : Options → Result Bytes Bytes
  pub decode : Bytes → Result Bytes Reply
  pub get_secret : Bytes → Bytes → Exec Kube State Secret
  pub create_secret : Secret → Exec Kube State (Unit {0})
  pub update_secret : Secret → Exec Kube State (Unit {0})
