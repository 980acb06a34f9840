-- ===== src/Purge.antt =====
-- purge/purge.go: the expired tokens and frozen slugs of the database.
pub mod Rounds
pub mod Examples
use rdns_server.Base.{
  Bool, true, false, not, List, [], ◌∷◌, Option, none, some, Bytes, codes, same, if◌then◌else◌,
  Result, ok, err,
}
use rdns_server.Base.Int.{ℤ, ◌+ℤ◌, negated}
use rdns_server.Base.Exec.{Exec, pure, ◌>>=◌, ◌>>◌}
use rdns_server.Model.{Domain}
use rdns_server.Database.{Fault, Database, Token, Row}
use rdns_server.Service.{Backend}
use rdns_server.Route53.Domains.{only_name}

module _ (b : Backend) (db : Database b.State) where
  -- An action whose error is only logged.
  unfoldable pub logged : {E A : Type 0} → Exec E b.State A → Exec b.Error b.State (Unit {0})
  logged m s = (ok tt, (m s).1)

  -- What a lookup finds is deleted, if the lookup succeeds and finds a name.
  unfoldable pub delete_if :
      Result b.Error Domain × b.State
      → Exec b.Error b.State (Unit {0})
      → Result b.Error (Unit {0}) × b.State
  delete_if (err e, s) delete = (ok tt, s)
  delete_if (ok d, s) delete = if same d.fqdn [] then (ok tt, s) else delete s

  unfoldable pub delete_found :
      Exec b.Error b.State Domain
      → Exec b.Error b.State (Unit {0})
      → Exec b.Error b.State (Unit {0})
  unfolding delete_if
  delete_found lookup delete s = delete_if (lookup s) delete

  -- The loop over the TXT records: its `continue` goes on with the next of them.
  unfoldable pub delete_texts : List Row → Exec b.Error b.State (Unit {0})
  unfolding logged
  delete_texts [] = pure tt
  delete_texts (r ∷ rs) = do logged (b.delete_text (only_name r.fqdn)); delete_texts rs

  unfoldable pub delete_all_texts : ℤ → Exec b.Error b.State (Unit {0})
  unfolding delete_texts
  delete_all_texts id s =
      delete_texts (db.query_expired_txts id s).0.0 (db.query_expired_txts id s).1

  -- One round of the loop over the tokens; an error is one that ends the round with `continue`.
  unfoldable pub purge_token : Token → Exec b.Error b.State (Unit {0})
  unfolding delete_found delete_all_texts logged
  purge_token token = do
    delete_found (b.get (only_name token.fqdn)) (b.delete (only_name token.fqdn))
    delete_found (b.get_cname (only_name token.fqdn)) (b.delete_cname (only_name token.fqdn))
    delete_all_texts token.id
    logged (db.delete_token token.token)

  unfoldable pub purge_tokens : List Token → Exec b.Error b.State (Unit {0})
  unfolding logged purge_token
  purge_tokens [] = pure tt
  purge_tokens (token ∷ tokens) = do logged (purge_token token); purge_tokens tokens

  -- An error of the query is only logged, and the tokens that it gave are purged.
  unfoldable pub purge_expired : ℤ → Exec b.Error b.State (Unit {0})
  unfolding purge_tokens
  purge_expired t s = purge_tokens (db.query_expired_tokens t s).0.0 (db.query_expired_tokens t s).1

  -- `purge`, at the times before which frozen slugs and tokens are expired.
  unfoldable pub purge : ℤ → ℤ → Exec b.Error b.State (Unit {0})
  unfolding logged purge_expired
  purge frozen_time ttl_time = do
    logged (db.delete_expired_frozen frozen_time)
    purge_expired ttl_time

-- The time that lies a duration before now, in nanoseconds; `none` if the duration is not read, which
-- ends the process.
abbrev before : ℤ → Option ℤ → Option ℤ
before now none = none
before now (some d) = some (now +ℤ negated d)

-- calculateFrozenTime and calculateTTLTime, with time.ParseDuration and time.Now.
unfoldable pub calculate_frozen_time : (Bytes → Option ℤ) → (Bytes → Bytes) → ℤ → Option ℤ
calculate_frozen_time parse_duration getenv now =
    before now (parse_duration (getenv (codes "FROZEN")))

unfoldable pub calculate_ttl_time : (Bytes → Option ℤ) → (Bytes → Bytes) → ℤ → Option ℤ
calculate_ttl_time parse_duration getenv now =
    before now (parse_duration (getenv (codes "DATABASE_LEASE_TIME")))
