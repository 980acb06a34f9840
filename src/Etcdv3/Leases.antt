-- ===== src/Etcdv3/Leases.antt =====
-- Leases, tokens and frozen slugs of backend/etcdv3/etcdv3.go.
pub mod Renewal
use rdns_server.Base.{
  ℕ, Bool, true, false, List, [], ◌∷◌, Option, none, some, Bytes, codes, length, ltb, if◌then◌else◌,
  Result, ok, err,
}
use rdns_server.Base.Int.{ℤ}
use rdns_server.Base.Exec.{Exec, pure, raise, or_raise, ◌>>=◌, ◌>>◌}
use rdns_server.Coredns.Etcd.{Kv}
use rdns_server.Etcdv3.Names.{get_token_path, get_frozen_path}
use rdns_server.Etcdv3.Client.{
  Client, Config, Error, wrap, empty_record, multi_records, grant_lease, keepalive_once,
  key_not_found,
}

-- The first element of a slice, kvs[0].
abbrev pub first : List Kv → Option Kv
first [] = none
first (kv ∷ kvs) = some kv

module _ {S : Type 0} where
  unfoldable pub add_text : {A : Type 0} → Bytes → Result Error A × S → Result Error A × S
  add_text text (ok a, t) = (ok a, t)
  add_text text (err e, t) = (err (wrap text e), t)

  -- errors.Wrapf on the error of an action
  unfoldable pub wrapped : {A : Type 0} → Bytes → Exec Error S A → Exec Error S A
  unfolding add_text
  wrapped text m s = add_text text (m s)

  change_error : {A : Type 0} → Error → Result Error A × S → Result Error A × S
  change_error x (ok a, t) = (ok a, t)
  change_error x (err e, t) = (err x, t)

  -- An action whose error is replaced by another.
  unfoldable pub instead : {A : Type 0} → Error → Exec Error S A → Exec Error S A
  unfolding change_error
  instead x m s = change_error x (m s)

  any_key : Result Error (List Kv) × S → Result Error Bool × S
  any_key (ok kvs, t) = (ok (ltb 0 (length kvs)), t)
  any_key (err e, t) = (ok false, t)

  -- Whether a Get finds a key; an error counts as no.
  unfoldable pub found : Exec Error S (List Kv) → Exec Error S Bool
  unfolding any_key
  found m s = any_key (m s)

  count_of : Result Error (List Kv) × S → Result Error ℕ × S
  count_of (ok kvs, t) = (ok (length kvs), t)
  count_of (err key_not_found, t) = (ok 0, t)
  count_of (err e, t) = (err e, t)

module _ (c : Client) (b : Config) where
  unfoldable pub grant_new : ℤ → Exec Error c.State (ℕ × ℤ)
  unfolding instead
  grant_new seconds = instead grant_lease (c.grant seconds)

  unfoldable pub keep_alive : ℕ → Exec Error c.State ℤ
  unfolding instead
  keep_alive id = instead keepalive_once (c.keep_alive_once id)

  -- The keys that `lookupKeys` passes on: those with an empty value, and those whose value parses and
  -- has no text.
  unfoldable pub is_record : Kv → Bool
  is_record v = elim v.value [
    | [] ↦ true
    | x ∷ xs ↦ elim (b.unmarshal v.value) [
      | none ↦ false
      | some m ↦ elim m.text [ none ↦ true | some t ↦ false ]
    ]
  ]

  unfoldable pub record_keys : List Kv → List Kv
  unfolding is_record
  record_keys [] = []
  record_keys (v ∷ kvs) = if is_record v then v ∷ record_keys kvs else record_keys kvs

  unfoldable pub lookup_keys : Bytes → Exec Error c.State (List Kv)
  unfolding record_keys wrapped
  lookup_keys path = do kvs ← wrapped (codes "lookup") (c.get_prefix path); pure (record_keys kvs)

  unfoldable pub check_slug_name : Bytes → Exec Error c.State Bool
  unfolding found get_frozen_path
  check_slug_name slug = found (c.get (get_frozen_path b.prefix slug))

  unfoldable pub check_path_exist : Bytes → Exec Error c.State Bool
  unfolding found
  check_path_exist path = found (c.get path)

  -- The token that is there with its lease, or a new one with a new lease.
  unfoldable pub current_token : Bytes → Bool → Exec Error c.State (Bytes × ℕ × ℤ)
  current_token fqdn true = do
    kvs ← wrapped (codes "empty") (c.get (get_token_path fqdn))
    kv ← or_raise (empty_record (get_token_path fqdn)) (first kvs)
    seconds ← c.time_to_live kv.lease
    pure (kv.value, kv.lease, seconds)
  current_token fqdn false = do
    lease ← grant_new b.lease_time
    pure (b.fresh_token, lease.0, lease.1)

  unfoldable pub set_token : Bytes → Bool → Exec Error c.State (ℕ × ℤ)
  unfolding current_token wrapped get_token_path grant_new
  set_token fqdn exist = do
    token ← current_token fqdn exist
    wrapped (codes "set") (c.put (get_token_path fqdn) token.0 token.1)
    pure (token.1, token.2)

  frozen_lease : Bytes → Bool → Exec Error c.State ℕ
  frozen_lease path true = do
    kvs ← lookup_keys path
    kv ← or_raise (empty_record path) (first kvs)
    pure kv.lease
  frozen_lease path false = do lease ← grant_new b.frozen_ttl; pure lease.0

  unfoldable pub lock_slug_name : Bytes → Bool → Exec Error c.State (Unit {0})
  unfolding frozen_lease lookup_keys grant_new wrapped get_frozen_path
  lock_slug_name slug exist = do
    lease ← frozen_lease (get_frozen_path b.prefix slug) exist
    wrapped (codes "set") (c.put (get_frozen_path b.prefix slug) [] lease)

  token_value : Bytes → List Kv → Exec Error c.State Bytes
  token_value path [] = raise (empty_record path)
  token_value path (kv ∷ []) = pure kv.value
  token_value path (kv ∷ kv' ∷ kvs) = raise (multi_records path)

  unfoldable pub get_token : Bytes → Exec Error c.State Bytes
  unfolding token_value get_token_path
  get_token fqdn = do kvs ← c.get (get_token_path fqdn); token_value (get_token_path fqdn) kvs

  unfoldable pub get_token_count : Exec Error c.State ℕ
  unfolding count_of
  get_token_count s = count_of (c.get_prefix (codes "/tokenv3") s)
