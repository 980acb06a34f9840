-- ===== src/RdnsClient.antt =====
-- client/rdns_client.go: the client of the service, which keeps its name and token in a secret.
pub mod Wire
pub mod Sorting
pub mod Applied
pub mod Examples
use rdns_server.Base.{
  ℕ, Bool, true, false, not, ◌&&◌, ◌||◌, List, [], ◌∷◌, ◌++◌, Option, none, some, Bytes, codes,
  same, ltb, if◌then◌else◌, Result, ok, err,
}
use rdns_server.Base.Exec.{Exec, pure, raise, lift, ◌>>=◌, ◌>>◌}
use rdns_server.Text.{slash}
use rdns_server.RdnsClient.Wire.{
  Kube, not_found, already_exists, other, Error, kube, transport, read_body, decode_body, rejected,
  bad_request, bad_json, panic, wrap, Data, Reply, Options, Request, Secret, World,
}
use rdns_server.RdnsClient.Sorting.{sorted, deep_equal_hosts, deep_equal_map}

-- The Client struct without its clients and its lock.
pub record Settings : Type 0 where
  pub base : Bytes
  pub cluster_name : Bytes

abbrev pub secret_key : Bytes
secret_key = codes "rdns-token"

-- The path of CNAME records.
unfoldable pub cname_path : Bool → Bytes
cname_path true = codes "/cname"
cname_path false = []

unfoldable pub build_url : Bytes → Bytes → Bytes → Bytes
build_url base fqdn path = base ++ codes "/domain" ++ fqdn ++ path

unfoldable pub set_base_url : Bytes → Settings → Settings
set_base_url base c = if same base c.base then c else record c { base = base }

-- `options.CNAME = hosts[0]` or `options.Hosts = hosts`; no host is a panic.
unfoldable pub options_of :
    Bool → Option (List Bytes) → Option (List (Bytes × Option (List Bytes))) → Result Error Options
options_of false hosts subs = ok (record { hosts = hosts; sub_domain = subs; cname = [] })
options_of true (some (h ∷ hosts)) subs = ok (record { hosts = none; sub_domain = subs; cname = h })
options_of true (some []) subs = err panic
options_of true none subs = err panic

module _ (w : World) (c : Settings) where
  abbrev Act : Type 0 → Type 0
  Act A = Exec Error w.State A

  kube_answer : {A : Type 0} → Result Kube A × w.State → Result Error A × w.State
  kube_answer (ok a, s) = (ok a, s)
  kube_answer (err e, s) = (err (kube e), s)

  -- errors.Wrap
  wrap_answer : {A : Type 0} → Bytes → Result Error A × w.State → Result Error A × w.State
  wrap_answer text (ok a, s) = (ok a, s)
  wrap_answer text (err e, s) = (err (wrap text e), s)

  unfoldable pub wrapped : {A : Type 0} → Bytes → Act A → Act A
  unfolding wrap_answer
  wrapped text m s = wrap_answer text (m s)

  unfoldable pub request : Bytes → Bytes → Option Bytes → Result Error Request
  request method url body = elim (w.invalid method url) [
    | some text ↦ err (bad_request text)
    | none ↦ ok (record {
      method = method;
      url = url;
      body = body;
      content_type = codes "application/json";
      authorization = none;
    })
  ]

  -- What the status, the body and what it decodes to make of a reply.
  unfoldable pub accepted : ℕ → Reply → Result Error Reply
  accepted code reply =
      if (ltb code 200 || ltb 300 code) && not (same reply.message [])
      then err (rejected reply.message)
      else ok reply

  unfoldable pub decoded : ℕ → Result Bytes Reply → Result Error Reply
  unfolding accepted
  decoded code (err text) = err (decode_body text)
  decoded code (ok reply) = accepted code reply

  unfoldable pub received : Result Bytes (ℕ × Result Bytes Bytes) → Result Error Reply
  unfolding decoded
  received (err text) = err (transport text)
  received (ok (code, err text)) = err (read_body text)
  received (ok (code, ok body)) = decoded code (w.decode body)

  unfoldable pub perform : Request → Act Reply
  unfolding received
  perform req s = (received (w.send req s).0, (w.send req s).1)

  -- The name and the token of the secret.
  unfoldable pub get_secret : Exec Kube w.State (Bytes × Bytes)
  get_secret = w.get_secret c.cluster_name secret_key >>= λ sec. pure (sec.fqdn, sec.token)

  created : Secret → Result Kube (Unit {0}) × w.State → Result Error (Unit {0}) × w.State
  created secret (ok a, s) = (ok tt, s)
  created secret (err already_exists, s) = kube_answer (w.update_secret secret s)
  created secret (err not_found, s) = (err (kube not_found), s)
  created secret (err (other e), s) = (err (kube (other e)), s)

  unfoldable pub secret_of : Reply → Secret
  secret_of reply = record {
    namespace = c.cluster_name;
    name = secret_key;
    token = reply.token;
    fqdn = reply.domain.fqdn;
  }

  unfoldable pub set_secret : Reply → Act (Unit {0})
  unfolding created kube_answer secret_of
  set_secret reply s = created (secret_of reply) (w.create_secret (secret_of reply) s)

  unfoldable pub authorized : Bytes → Request → Request
  authorized token req = record req { authorization = some (codes "Bearer " ++ token) }

  -- A request with the token.
  unfoldable pub call : Bytes → Bytes → Bytes → Option Bytes → Bytes → Act Reply
  unfolding request authorized perform wrapped
  call who method url body token = do
    req ← wrapped (who ++ codes ": failed to build a request") (lift (request method url body))
    wrapped (who ++ codes ": failed to execute a request") (perform (authorized token req))

  data_of : Reply → Option Data
  data_of reply = if same reply.domain.fqdn [] then none else some reply.domain

  unfoldable pub get_with :
      Bool → Result Kube (Bytes × Bytes) × w.State → Result Error (Option Data) × w.State
  unfolding call build_url cname_path data_of
  get_with cname (err not_found, s) = (ok none, s)
  get_with cname (err already_exists, s) =
      (err (wrap (codes "GetDomain: failed to get stored secret") (kube already_exists)), s)
  get_with cname (err (other e), s) =
      (err (wrap (codes "GetDomain: failed to get stored secret") (kube (other e))), s)
  get_with cname (ok (fqdn, token), s) =
      (call (codes "GetDomain") (codes "GET") (build_url c.base (slash ∷ fqdn) (cname_path cname))
            none token
          >>= λ reply. pure (data_of reply))
        s

  unfoldable pub get_domain : Bool → Act (Option Data)
  unfolding get_secret get_with
  get_domain cname s = get_with cname (get_secret s)

  encoded : Result Bytes Bytes → Result Error Bytes
  encoded (ok body) = ok body
  encoded (err text) = err (bad_json text)

  unfoldable pub create_domain : Option (List Bytes) → Bool → Act Bytes
  unfolding options_of encoded request perform wrapped set_secret build_url cname_path
  create_domain hosts cname = do
    options ← lift (options_of cname hosts none)
    body ← lift (encoded (w.encode options))
    req ←
        wrapped (codes "CreateDomain: failed to build a request")
          (lift (request (codes "POST") (build_url c.base [] (cname_path cname)) (some body)))
    reply ← wrapped (codes "CreateDomain: failed to execute a request") (perform req)
    set_secret reply
    pure reply.domain.fqdn

  -- The secret, for a request that needs one.
  unfoldable pub stored : Bytes → Act (Bytes × Bytes)
  unfolding get_secret wrapped kube_answer
  stored who =
      wrapped (who ++ codes ": failed to get stored secret") (λ s. kube_answer (get_secret s))

  unfoldable pub update_domain :
      Option (List Bytes) → Option (List (Bytes × Option (List Bytes))) → Bool → Act Bytes
  unfolding stored options_of encoded call build_url cname_path
  update_domain hosts subs cname = do
    secret ← stored (codes "UpdateDomain")
    options ← lift (options_of cname hosts subs)
    body ← lift (encoded (w.encode options))
    call (codes "UpdateDomain") (codes "PUT")
        (build_url c.base (slash ∷ secret.0) (cname_path cname)) (some body) secret.1
    pure secret.0

  unfoldable pub delete_domain : Act Bytes
  unfolding stored call build_url
  delete_domain = do
    secret ← stored (codes "DeleteDomain")
    call (codes "DeleteDomain") (codes "DELETE") (build_url c.base (slash ∷ secret.0) []) none
        secret.1
    pure secret.0

  unfoldable pub renew_domain : Act Bytes
  unfolding stored call build_url
  renew_domain = do
    secret ← stored (codes "RenewDomain")
    call (codes "RenewDomain") (codes "PUT") (build_url c.base (slash ∷ secret.0) (codes "/renew"))
        none secret.1
    pure secret.0

  name_or_empty : Result Kube (Bytes × Bytes) × w.State → Result Error (Bool × Bytes) × w.State
  name_or_empty (ok (fqdn, token), s) = (ok (false, fqdn), s)
  name_or_empty (err e, s) = (ok (false, []), s)

  -- The flag says whether the name is new.
  unfoldable pub apply_to :
      Option (List Bytes)
      → Option (List (Bytes × Option (List Bytes)))
      → Bool
      → Option Data
      → Act (Bool × Bytes)
  unfolding create_domain update_domain get_secret name_or_empty sorted deep_equal_hosts
      deep_equal_map
  apply_to hosts subs cname none = create_domain hosts cname >>= λ fqdn. pure (true, fqdn)
  apply_to hosts subs cname (some d) =
      if deep_equal_hosts (sorted d.hosts) (sorted hosts) && deep_equal_map d.sub_domain subs
      then (λ s. name_or_empty (get_secret s))
      else update_domain (sorted hosts) subs cname >>= λ fqdn. pure (false, fqdn)

  unfoldable pub apply_domain :
      Option (List Bytes) → Option (List (Bytes × Option (List Bytes))) → Bool → Act (Bool × Bytes)
  unfolding get_domain apply_to
  apply_domain hosts subs cname = get_domain cname >>= apply_to hosts subs cname
