-- ===== src/Purge/Examples.antt =====
-- Runs of the purger over a list of tokens, of which one is expired.
use rdns_server.Base.{◌≡◌, refl, List, [], ◌∷◌, none, Bytes, codes, same, if◌then◌else◌, ok, err}
use rdns_server.Base.Int.{ℤ, pos}
use rdns_server.Base.Exec.{Exec}
use rdns_server.Model.{no_domain}
use rdns_server.Database.{Fault, Database, Token, Row, no_token, no_row, Query}
use rdns_server.Service.{Backend}
use rdns_server.Purge.{purge_token, purge}
use rdns_server.Purge.Rounds.{Round, purge_token_lem}

unfoldable without : Bytes → List Bytes → List Bytes
without x [] = []
without x (t ∷ ts) = let rest = without x ts in if same t x then rest else t ∷ rest

-- A backend that finds every name and deletes none.
abbrev stubborn : Backend
stubborn = record {
  State = List Bytes;
  Error = Bytes;
  error_text = λ e. e;
  get = λ o s. (ok (record no_domain { fqdn = o.fqdn }), s);
  set = λ o s. (ok no_domain, s);
  update = λ o s. (ok no_domain, s);
  renew = λ o s. (ok no_domain, s);
  get_text = λ o s. (ok no_domain, s);
  set_text = λ o s. (ok no_domain, s);
  update_text = λ o s. (ok no_domain, s);
  get_cname = λ o s. (err (codes "none"), s);
  set_cname = λ o s. (ok no_domain, s);
  update_cname = λ o s. (ok no_domain, s);
  delete = λ o s. (err (codes "throttled"), s);
  delete_text = λ o s. (ok tt, s);
  delete_cname = λ o s. (ok tt, s);
  get_token = λ n s. (ok [], s);
  migrate_record = λ m s. (ok tt, s);
  migrate_frozen = λ m s. (ok tt, s);
  migrate_token = λ m s. (ok tt, s);
  zone = codes "lb.cloud";
}

abbrev old : Token
old = record { id = pos 1; token = codes "old"; fqdn = codes "abc.lb.cloud"; created_on = pos 0 }

abbrev nothing_done : Exec Fault (List Bytes) (Unit {0})
nothing_done s = (ok tt, s)

abbrev row_done : Row → Exec Fault (List Bytes) ℤ
row_done r s = (ok (pos 1), s)

abbrev no_row_found : Bytes → Query (List Bytes) Row
no_row_found n s = ((no_row, none), s)

-- A database of tokens, of which one is expired.
unfoldable tokens : Database (List Bytes)
unfolding without
tokens = record {
  insert_frozen = λ x. nothing_done;
  query_frozen = λ x s. (([], none), s);
  renew_frozen = λ x. nothing_done;
  delete_frozen = λ x. nothing_done;
  delete_expired_frozen = λ t. nothing_done;
  migrate_frozen = λ x t. nothing_done;
  insert_token = λ t n s. (ok (pos 1), t ∷ s);
  query_token_count = λ s. (ok (pos 0), s);
  query_token = λ n s. ((no_token, none), s);
  query_expired_tokens = λ t s. ((old ∷ [], none), s);
  renew_token = λ n s. (ok (pos 1, pos 0), s);
  delete_token = λ x s. (ok tt, without x s);
  migrate_token = λ t n e. nothing_done;
  insert_a = row_done;
  update_a = row_done;
  query_a = no_row_found;
  list_sub_a = λ i s. (([], none), s);
  delete_a = λ n. nothing_done;
  insert_sub_a = row_done;
  update_sub_a = row_done;
  query_sub_a = no_row_found;
  delete_sub_a = λ n. nothing_done;
  insert_cname = row_done;
  update_cname = row_done;
  query_cname = no_row_found;
  delete_cname = λ n. nothing_done;
  insert_txt = row_done;
  update_txt = row_done;
  query_txt = no_row_found;
  query_expired_txts = λ i s. (([], none), s);
  delete_txt = λ n. nothing_done;
}

abbrev start : List Bytes
start = codes "old" ∷ codes "new" ∷ []

throttled : purge_token stubborn tokens old start ≡ (err (codes "throttled"), start)
unfolding purge_token same
throttled = refl

-- A backend that deletes what it finds.
abbrev willing : Backend
willing = record stubborn { delete = λ o s. (ok tt, s) }

purged : purge willing tokens (pos 9) (pos 9) start ≡ (ok tt, codes "new" ∷ [])
unfolding purge same tokens
purged = refl

purge_token_lem_example : Round willing tokens old start (purge_token willing tokens old start)
purge_token_lem_example = purge_token_lem willing tokens old start
