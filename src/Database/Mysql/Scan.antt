-- ===== src/Database/Mysql/Scan.antt =====
-- What database/mysql/mysql.go reads from the rows of a query.
use rdns_server.Base.{List, [], ◌∷◌, Bytes, codes, Option, none, some, Result, ok, err}
use rdns_server.Base.Int.{ℤ}
use rdns_server.Database.{Fault, no_rows, fault, Token, Row}

-- An argument of a statement, or a column of a row.
pub data Value : Type 0 where
  text : Bytes → Value
  number : ℤ → Value
  null : Value

-- What Scan reports of a row whose columns do not fit.
abbrev pub bad_scan : Fault
bad_scan = fault (codes "sql: Scan error")

unfoldable pub scan_text : List Value → Option Bytes
scan_text (text s ∷ []) = some s
scan_text _ = none

unfoldable pub scan_number : List Value → Option ℤ
scan_number (number n ∷ []) = some n
scan_number _ = none

unfoldable pub scan_token : List Value → Option Token
scan_token (number i ∷ text t ∷ text f ∷ number c ∷ []) =
    some (record { id = i; token = t; fqdn = f; created_on = c })
scan_token _ = none

-- sql.NullInt64
unfoldable pub scan_row : List Value → Option Row
scan_row (number i ∷ text f ∷ number k ∷ text x ∷ number c ∷ number u ∷ number p ∷ []) =
    some (record {
      id = i;
      fqdn = f;
      rtype = k;
      content = x;
      created_on = c;
      updated_on = some u;
      parent = p;
    })
scan_row (number i ∷ text f ∷ number k ∷ text x ∷ number c ∷ null ∷ number p ∷ []) = some (record {
  id = i;
  fqdn = f;
  rtype = k;
  content = x;
  created_on = c;
  updated_on = none;
  parent = p;
})
scan_row _ = none

module _ {A : Type 0} (scan : List Value → Option A) where
  -- `for rows.Next()` with one variable: the last row counts.
  unfoldable pub scan_last : A → List (List Value) → A × Option Fault
  scan_last a [] = (a, none)
  scan_last a (r ∷ rs) = elim (scan r) [ none ↦ (a, some bad_scan) | some b ↦ scan_last b rs ]

  -- QueryRow(…).Scan: the first row.
  unfoldable pub scan_first : A → List (List Value) → A × Option Fault
  scan_first zero [] = (zero, some no_rows)
  scan_first zero (r ∷ rs) = elim (scan r) [ none ↦ (zero, some bad_scan) | some b ↦ (b, none) ]

  -- `for rows.Next()` into a list: what was read before an error is returned with it.
  unfoldable pub scan_all : List (List Value) → List A × Option Fault
  scan_all [] = ([], none)
  scan_all (r ∷ rs) =
      let rest = scan_all rs in
      elim (scan r) [ none ↦ ([], some bad_scan) | some b ↦ (b ∷ rest.0, rest.1) ]

module _ {S A : Type 0} where
  unfoldable pub answered :
      A
      → (List (List Value) → A × Option Fault)
      → Result Fault (List (List Value)) × S
      → (A × Option Fault) × S
  answered zero read (ok rs, s) = (read rs, s)
  answered zero read (err e, s) = ((zero, some e), s)
