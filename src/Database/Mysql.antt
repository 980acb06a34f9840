-- ===== src/Database/Mysql.antt =====
-- database/mysql/mysql.go: the database over package database/sql.
pub mod Scan
use rdns_server.Base.{List, [], ◌∷◌, Bytes, codes, Option, none, some, Result, ok, err}
use rdns_server.Base.Int.{ℤ, pos}
use rdns_server.Base.Exec.{Exec, pure, ◌>>=◌, ◌>>◌}
use rdns_server.Database.{
  checked, Fault, no_rows, fault, Token, Row, no_token, no_row, Query, Database,
}
use rdns_server.Database.Mysql.Scan.{
  Value, text, number, null, scan_text, scan_number, scan_token, scan_row, scan_last, scan_first,
  scan_all, answered,
}

-- sql.DB: a statement is prepared and run. `exec` returns LastInsertId, `query` the rows that
-- rows.Next goes through. `now` is time.Now().UnixNano().
pub record Sql (S : Type 0) : Type 0 where
  pub exec : Bytes → List Value → Exec Fault S ℤ
  pub query : Bytes → List Value → Exec Fault S (List (List Value))
  pub now : S → ℤ

module _ {S : Type 0} (sql : Sql S) where
  -- A statement whose LastInsertId is dropped.
  unfoldable pub run : Bytes → List Value → Exec Fault S (Unit {0})
  run statement args = do sql.exec statement args; pure tt

  unfoldable pub query_text : Bytes → List Value → Query S Bytes
  unfolding answered scan_first scan_text
  query_text statement args s = answered [] (scan_first scan_text []) (sql.query statement args s)

  unfoldable pub query_number : Bytes → List Value → Query S ℤ
  unfolding answered scan_first scan_number
  query_number statement args s =
      answered (pos 0) (scan_first scan_number (pos 0)) (sql.query statement args s)

  unfoldable pub query_one_token : Bytes → List Value → Query S Token
  unfolding answered scan_first scan_token
  query_one_token statement args s =
      answered no_token (scan_first scan_token no_token) (sql.query statement args s)

  unfoldable pub query_tokens : Bytes → List Value → Query S (List Token)
  unfolding answered scan_all scan_token
  query_tokens statement args s = answered [] (scan_all scan_token) (sql.query statement args s)

  unfoldable pub query_row : Bytes → List Value → Query S Row
  unfolding answered scan_last scan_row
  query_row statement args s =
      answered no_row (scan_last scan_row no_row) (sql.query statement args s)

  unfoldable pub query_rows : Bytes → List Value → Query S (List Row)
  unfolding answered scan_all scan_row
  query_rows statement args s = answered [] (scan_all scan_row) (sql.query statement args s)

  unfoldable pub insert_frozen : Bytes → Exec Fault S (Unit {0})
  unfolding run
  insert_frozen prefix s =
      run (codes "INSERT INTO frozen_prefix (prefix, created_on) VALUES ( ?, ? )")
        (text prefix ∷ number (sql.now s) ∷ []) s

  unfoldable pub query_frozen : Bytes → Query S Bytes
  unfolding query_text
  query_frozen prefix =
      query_text (codes "SELECT prefix FROM frozen_prefix WHERE prefix = ?") (text prefix ∷ [])

  unfoldable pub renew_frozen : Bytes → Exec Fault S (Unit {0})
  unfolding run
  renew_frozen prefix s =
      run (codes "UPDATE frozen_prefix SET created_on = ? WHERE prefix = ?")
        (number (sql.now s) ∷ text prefix ∷ []) s

  unfoldable pub delete_frozen : Bytes → Exec Fault S (Unit {0})
  unfolding run
  delete_frozen prefix = run (codes "DELETE FROM frozen_prefix WHERE prefix = ?") (text prefix ∷ [])

  unfoldable pub delete_expired_frozen : ℤ → Exec Fault S (Unit {0})
  unfolding run
  delete_expired_frozen t =
      run (codes "DELETE FROM frozen_prefix WHERE created_on <= ?") (number t ∷ [])

  unfoldable pub migrate_frozen : Bytes → ℤ → Exec Fault S (Unit {0})
  unfolding run
  migrate_frozen prefix expiration =
      run (codes "INSERT INTO frozen_prefix (prefix, created_on) VALUES ( ?, ? )")
        (text prefix ∷ number expiration ∷ [])

  unfoldable pub insert_token : Bytes → Bytes → Exec Fault S ℤ
  insert_token token name s =
      sql.exec (codes "INSERT INTO token (token, fqdn, created_on) VALUES( ?, ?, ? )")
        (text token ∷ text name ∷ number (sql.now s) ∷ []) s

  unfoldable pub query_token_count : Exec Fault S ℤ
  unfolding query_number
  query_token_count = checked (query_number (codes "SELECT count(*) FROM token") [])

  unfoldable pub query_token : Bytes → Query S Token
  unfolding query_one_token
  query_token name = query_one_token (codes "SELECT * FROM token WHERE fqdn = ?") (text name ∷ [])

  unfoldable pub query_expired_tokens : ℤ → Query S (List Token)
  unfolding query_tokens
  query_expired_tokens t =
      query_tokens (codes "SELECT * FROM token WHERE created_on <= ?") (number t ∷ [])

  unfoldable pub renew_token : Bytes → Exec Fault S (ℤ × ℤ)
  renew_token name s = renewed (sql.now s) s
    where
      renewed : ℤ → Exec Fault S (ℤ × ℤ)
      renewed t = do
        id ←
            sql.exec (codes "UPDATE token SET created_on = ? WHERE fqdn = ?")
              (number t ∷ text name ∷ [])
        pure (id, t)

  unfoldable pub delete_token : Bytes → Exec Fault S (Unit {0})
  unfolding run
  delete_token token = run (codes "DELETE FROM token WHERE token = ?") (text token ∷ [])

  unfoldable pub migrate_token : Bytes → Bytes → ℤ → Exec Fault S (Unit {0})
  unfolding run
  migrate_token token name expiration =
      run (codes "INSERT INTO token (token, fqdn, created_on) VALUES( ?, ?, ? )")
        (text token ∷ text name ∷ number expiration ∷ [])

  unfoldable pub insert_a : Row → Exec Fault S ℤ
  insert_a r =
      sql.exec
        (codes "INSERT INTO record_a (fqdn, type, content, created_on, tid) VALUES (?, ?, ?, ?, ?)")
        (text r.fqdn ∷ number r.rtype ∷ text r.content ∷ number r.created_on ∷ number r.parent ∷ [])

  unfoldable pub update_a : Row → Exec Fault S ℤ
  update_a r =
      sql.exec
        (codes "UPDATE record_a SET type = ?, content = ?, created_on = ?, tid = ? WHERE fqdn = ?")
        (number r.rtype ∷ text r.content ∷ number r.created_on ∷ number r.parent ∷ text r.fqdn ∷ [])

  unfoldable pub query_a : Bytes → Query S Row
  unfolding query_row
  query_a name = query_row (codes "SELECT * FROM record_a WHERE fqdn = ?") (text name ∷ [])

  unfoldable pub delete_a : Bytes → Exec Fault S (Unit {0})
  unfolding run
  delete_a name = run (codes "DELETE FROM record_a WHERE fqdn = ?") (text name ∷ [])

  unfoldable pub insert_sub_a : Row → Exec Fault S ℤ
  insert_sub_a r =
      sql.exec
        (codes
          "INSERT INTO sub_record_a (fqdn, type, content, created_on, pid) VALUES (?, ?, ?, ?, ?)")
        (text r.fqdn ∷ number r.rtype ∷ text r.content ∷ number r.created_on ∷ number r.parent ∷ [])

  unfoldable pub update_sub_a : Row → Exec Fault S ℤ
  update_sub_a r =
      sql.exec
        (codes
          "UPDATE sub_record_a SET type = ?, content = ?, created_on = ?, pid = ? WHERE fqdn = ?")
        (number r.rtype ∷ text r.content ∷ number r.created_on ∷ number r.parent ∷ text r.fqdn ∷ [])

  unfoldable pub query_sub_a : Bytes → Query S Row
  unfolding query_row
  query_sub_a name = query_row (codes "SELECT * FROM sub_record_a WHERE fqdn = ?") (text name ∷ [])

  unfoldable pub delete_sub_a : Bytes → Exec Fault S (Unit {0})
  unfolding run
  delete_sub_a name = run (codes "DELETE FROM sub_record_a WHERE fqdn = ?") (text name ∷ [])

  unfoldable pub insert_cname : Row → Exec Fault S ℤ
  insert_cname r =
      sql.exec
        (codes
          "INSERT INTO record_cname (fqdn, type, content, created_on, tid) VALUES (?, ?, ?, ?, ?)")
        (text r.fqdn ∷ number r.rtype ∷ text r.content ∷ number r.created_on ∷ number r.parent ∷ [])

  unfoldable pub update_cname : Row → Exec Fault S ℤ
  update_cname r =
      sql.exec
        (codes
          "UPDATE record_cname SET type = ?, content = ?, created_on = ?, tid = ? WHERE fqdn = ?")
        (number r.rtype ∷ text r.content ∷ number r.created_on ∷ number r.parent ∷ text r.fqdn ∷ [])

  unfoldable pub query_cname : Bytes → Query S Row
  unfolding query_row
  query_cname name = query_row (codes "SELECT * FROM record_cname WHERE fqdn = ?") (text name ∷ [])

  unfoldable pub delete_cname : Bytes → Exec Fault S (Unit {0})
  unfolding run
  delete_cname name = run (codes "DELETE FROM record_cname WHERE fqdn = ?") (text name ∷ [])

  unfoldable pub insert_txt : Row → Exec Fault S ℤ
  insert_txt r =
      sql.exec
        (codes
          "INSERT INTO record_txt (fqdn, type, content, created_on, tid) VALUES (?, ?, ?, ?, ?)")
        (text r.fqdn ∷ number r.rtype ∷ text r.content ∷ number r.created_on ∷ number r.parent ∷ [])

  unfoldable pub update_txt : Row → Exec Fault S ℤ
  update_txt r =
      sql.exec
        (codes
          "UPDATE record_txt SET type = ?, content = ?, created_on = ?, tid = ? WHERE fqdn = ?")
        (number r.rtype ∷ text r.content ∷ number r.created_on ∷ number r.parent ∷ text r.fqdn ∷ [])

  unfoldable pub query_txt : Bytes → Query S Row
  unfolding query_row
  query_txt name = query_row (codes "SELECT * FROM record_txt WHERE fqdn = ?") (text name ∷ [])

  unfoldable pub delete_txt : Bytes → Exec Fault S (Unit {0})
  unfolding run
  delete_txt name = run (codes "DELETE FROM record_txt WHERE fqdn = ?") (text name ∷ [])

  unfoldable pub list_sub_a : ℤ → Query S (List Row)
  unfolding query_rows
  list_sub_a id = query_rows (codes "SELECT * FROM sub_record_a WHERE pid = ?") (number id ∷ [])

  unfoldable pub query_expired_txts : ℤ → Query S (List Row)
  unfolding query_rows
  query_expired_txts id =
      query_rows (codes "SELECT * FROM record_txt WHERE tid = ?") (number id ∷ [])

  unfoldable pub mysql : Database S
  unfolding insert_frozen query_frozen renew_frozen delete_frozen delete_expired_frozen
      migrate_frozen insert_token query_token_count query_token query_expired_tokens renew_token
      delete_token migrate_token insert_a update_a query_a list_sub_a delete_a insert_sub_a
      update_sub_a query_sub_a delete_sub_a insert_cname update_cname query_cname delete_cname
      insert_txt update_txt query_txt query_expired_txts delete_txt
  mysql = record {
    insert_frozen = insert_frozen;
    query_frozen = query_frozen;
    renew_frozen = renew_frozen;
    delete_frozen = delete_frozen;
    delete_expired_frozen = delete_expired_frozen;
    migrate_frozen = migrate_frozen;
    insert_token = insert_token;
    query_token_count = query_token_count;
    query_token = query_token;
    query_expired_tokens = query_expired_tokens;
    renew_token = renew_token;
    delete_token = delete_token;
    migrate_token = migrate_token;
    insert_a = insert_a;
    update_a = update_a;
    query_a = query_a;
    list_sub_a = list_sub_a;
    delete_a = delete_a;
    insert_sub_a = insert_sub_a;
    update_sub_a = update_sub_a;
    query_sub_a = query_sub_a;
    delete_sub_a = delete_sub_a;
    insert_cname = insert_cname;
    update_cname = update_cname;
    query_cname = query_cname;
    delete_cname = delete_cname;
    insert_txt = insert_txt;
    update_txt = update_txt;
    query_txt = query_txt;
    query_expired_txts = query_expired_txts;
    delete_txt = delete_txt;
  }
