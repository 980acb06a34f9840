-- ===== src/RdnsClient/Examples.antt =====
-- Runs of the client against a service with one answer, and one instance of each theorem.
use mathlib.Core.List.Permᴰ.{swap}
use rdns_server.Base.{
  ℕ, ◌≡◌, refl, sym, ap, ◌∙◌, Bool, true, false, List, [], ◌∷◌, Option, none, some, Bytes, codes,
  Result, ok, err,
}
use rdns_server.RdnsClient.Wire.{
  World, Data, Reply, Request, Secret, Kube, not_found, already_exists,
}
use rdns_server.RdnsClient.{
  Settings, get_domain, get_secret, create_domain, apply_domain, perform, secret_key,
}
use rdns_server.RdnsClient.Sorting.{deep_equal_map}
use rdns_server.RdnsClient.Applied.{
  failure_ok, SecretLaws, apply_domain_unchanged, create_domain-secret_at,
}

abbrev one : Bytes
one = codes "1.1.1.1"

abbrev two : Bytes
two = codes "2.2.2.2"

abbrev served : Data
served = record { fqdn = codes "abc.lb.cloud"; hosts = some (two ∷ one ∷ []); sub_domain = none }

abbrev answer : Reply
answer = record { message = []; domain = served; token = codes "hash" }

abbrev read : Option Secret → Result Kube Secret × Option Secret
read none = (err not_found, none)
read (some x) = (ok x, some x)

abbrev write_new : Secret → Option Secret → Result Kube (Unit {0}) × Option Secret
write_new x none = (ok tt, some x)
write_new x (some y) = (err already_exists, some y)

-- A cluster with one secret or none.
abbrev world : World
world = record {
  State = Option Secret;
  invalid = λ m u. none;
  send = λ r s. (ok (200, ok (codes "{}")), s);
  encode = λ o. ok (codes "{}");
  decode = λ body. ok answer;
  get_secret = λ n k s. read s;
  create_secret = λ x s. write_new x s;
  update_secret = λ x s. (ok tt, some x);
}

abbrev settings : Settings
settings = record { base = codes "http://api"; cluster_name = codes "c1" }

secret_laws : SecretLaws world settings
secret_laws = record {
  secret_at = λ s n k. s;
  secret_at-create = λ x s t h. newly x s t h;
  secret_at-update = λ x s t h. sym (ap (λ p. p.1) h);
}
  where
    newly : (x : Secret) (s t : Option Secret) → write_new x s ≡ (ok tt, t) → t ≡ some x
    newly x none t h = sym (ap (λ p. p.1) h)
    newly x (some y) t h = absurd (failure_ok h)

abbrev stored : Option Secret
stored = (create_domain world settings (some (one ∷ [])) false none).1

creation :
    create_domain world settings (some (one ∷ [])) false none ≡ (ok (codes "abc.lb.cloud"), stored)
unfolding create_domain
creation = refl

create_domain-secret_at_example :
    (req : Request) × (reply : Reply) × (u : Option Secret) × (v : Option Secret) × (perform world
        settings req u
      ≡ (ok reply, v))
    × (reply.domain.fqdn ≡ codes "abc.lb.cloud")
    × (secret_laws.secret_at stored (codes "c1") secret_key
        ≡ some (record {
          namespace = codes "c1";
          name = codes "rdns-token";
          token = reply.token;
          fqdn = codes "abc.lb.cloud";
        }))
create_domain-secret_at_example =
    create_domain-secret_at world settings secret_laws (some (one ∷ [])) false
      (codes "abc.lb.cloud") none stored creation

abbrev held : Option Secret
held = some (record {
  namespace = codes "c1";
  name = secret_key;
  token = codes "hash";
  fqdn = codes "abc.lb.cloud";
})

found : get_domain world settings false held ≡ (ok (some served), held)
unfolding get_domain rdns_server.Base.same
found = refl

readable : get_secret world settings held ≡ (ok (codes "abc.lb.cloud", codes "hash"), held)
unfolding get_secret
readable = refl

no_subs : deep_equal_map none none ≡ true
unfolding deep_equal_map
no_subs = refl

apply_domain_unchanged_example :
    apply_domain world settings (some (one ∷ two ∷ [])) none false held
    ≡ (ok (false, codes "abc.lb.cloud"), held)
apply_domain_unchanged_example =
    apply_domain_unchanged world settings (one ∷ two ∷ []) (two ∷ one ∷ []) none served false
      (codes "abc.lb.cloud") (codes "hash") held held (swap refl refl) refl no_subs found readable
