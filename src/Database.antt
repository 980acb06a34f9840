-- ===== src/Database.antt =====
-- The interface of database/database.go and the rows of model/database.go.
pub mod Mysql
use rdns_server.Base.{ℕ, List, [], Bytes, Option, none, some, Result, ok, err}
use rdns_server.Base.Int.{ℤ, pos}
use rdns_server.Base.Exec.{Exec}

-- sql.ErrNoRows, and any other error of a driver.
pub data Fault : Type 0 where
  no_rows : Fault
  fault : Bytes → Fault

pub record Token : Type 0 where
  pub id : ℤ
  pub token : Bytes
  pub fqdn : Bytes
  pub created_on : ℤ

-- RecordA, SubRecordA, RecordTXT and RecordCNAME: `parent` is TID, or PID for a sub-record.
pub record Row : Type 0 where
  pub id : ℤ
  pub fqdn : Bytes
  pub rtype : ℤ
  pub content : Bytes
  pub created_on : ℤ
  pub updated_on : Option ℤ
  pub parent : ℤ

-- &model.Token{} and &model.RecordA{}
abbrev pub no_token : Token
no_token = record { id = pos 0; token = []; fqdn = []; created_on = pos 0 }

abbrev pub no_row : Row
no_row = record {
  id = pos 0;
  fqdn = [];
  rtype = pos 0;
  content = [];
  created_on = pos 0;
  updated_on = none;
  parent = pos 0;
}

-- A query returns a value and an error, and the value counts where the caller drops the error.
abbrev pub Query : Type 0 → Type 0 → Type 0
Query S A = S → (A × Option Fault) × S

module _ {S A : Type 0} where
  abbrev pub checked_answer : (A × Option Fault) × S → Result Fault A × S
  checked_answer ((a, none), s) = (ok a, s)
  checked_answer ((a, some e), s) = (err e, s)

  -- A query whose error is checked.
  abbrev pub checked : Query S A → Exec Fault S A
  checked q s = checked_answer (q s)

-- The methods of the interface, on what the database keeps; numbers of rows as int64 results.
pub record Database (S : Type 0) : Type 0 where
  pub insert_frozen : Bytes → Exec Fault S (Unit {0})
  pub query_frozen : Bytes → Query S Bytes
  pub renew_frozen : Bytes → Exec Fault S (Unit {0})
  pub delete_frozen : Bytes → Exec Fault S (Unit {0})
  pub delete_expired_frozen : ℤ → Exec Fault S (Unit {0})
  pub migrate_frozen : Bytes → ℤ → Exec Fault S (Unit {0})
  pub insert_token : Bytes → Bytes → Exec Fault S ℤ
  pub query_token_count : Exec Fault S ℤ
  pub query_token : Bytes → Query S Token
  pub query_expired_tokens : ℤ → Query S (List Token)
  pub renew_token : Bytes → Exec Fault S (ℤ × ℤ)
  pub delete_token : Bytes → Exec Fault S (Unit {0})
  pub migrate_token : Bytes → Bytes → ℤ → Exec Fault S (Unit {0})
  pub insert_a : Row → Exec Fault S ℤ
  pub update_a : Row → Exec Fault S ℤ
  pub query_a : Bytes → Query S Row
  pub list_sub_a : ℤ → Query S (List Row)
  pub delete_a : Bytes → Exec Fault S (Unit {0})
  pub insert_sub_a : Row → Exec Fault S ℤ
  pub update_sub_a : Row → Exec Fault S ℤ
  pub query_sub_a : Bytes → Query S Row
  pub delete_sub_a : Bytes → Exec Fault S (Unit {0})
  pub insert_cname : Row → Exec Fault S ℤ
  pub update_cname : Row → Exec Fault S ℤ
  pub query_cname : Bytes → Query S Row
  pub delete_cname : Bytes → Exec Fault S (Unit {0})
  pub insert_txt : Row → Exec Fault S ℤ
  pub update_txt : Row → Exec Fault S ℤ
  pub query_txt : Bytes → Query S Row
  pub query_expired_txts : ℤ → Query S (List Row)
  pub delete_txt : Bytes → Exec Fault S (Unit {0})
