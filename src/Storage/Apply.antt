-- ===== src/Storage/Apply.antt =====
-- internal/storage/postgres/apply.go: the body of a migration, and the transaction of `Migrate`.
pub mod Steps
pub mod Ledger
pub mod Body
use Prim.Native.Char.{Char, code}
use Prim.Native.String.{[], ◌∷◌}
use feeds_server.Base.{
  ℕ, ◌+◌, ◌-◌, ◌≡◌, ◌⊎◌, inl, inr, refl, String, ◌==◌, Bool, true, false, ◌&&◌, not, Option, none,
  some, List, ◌++◌, ltb, leb, eqb, if◌then◌else◌,
}
use feeds_server.Base.Text.{Unicode, has_prefix, has_suffix, to_upper, trim_space}
use feeds_server.Storage.Attempt.{Attempt, done, failed}
use feeds_server.Storage.Migrations.{Migration}

-- `crypto/sha256` with `encoding/hex`.
pub record Digest : Type 0 where
  pub sha256_hex : String → String

unfoldable pub migration_checksum : ⦃d : Digest⦄ → String → String
unfolding trim_space
migration_checksum ⦃d⦄ sql = d.sha256_hex (trim_space sql)

-- The bytes of a character in UTF-8, and slices of a text by bytes. A slice that would end within
-- a character leaves that character out.
abbrev pub width : Char → ℕ
width c =
    if ltb (code c) 0x80
    then 1
    else if ltb (code c) 0x800
    then 2
    else if ltb (code c) 0x10000
    then 3
    else 4

unfoldable pub byte_length : String → ℕ
byte_length [] = 0
byte_length (c ∷ s) = width c + byte_length s

unfoldable pub drop_bytes : ℕ → String → String
drop_bytes n [] = []
drop_bytes n (c ∷ s) = let rest = drop_bytes (n - width c) s in if eqb n 0 then c ∷ s else rest

unfoldable pub take_bytes : ℕ → String → String
take_bytes n [] = []
take_bytes n (c ∷ s) =
    let rest = take_bytes (n - width c) s in if leb (width c) n then c ∷ rest else ""

module _ ⦃u : Unicode⦄ where
  -- The tests are on the text in capitals, the slices on the text itself.
  unfoldable pub migration_body : String → Attempt String
  unfolding trim_space to_upper has_prefix has_suffix byte_length drop_bytes take_bytes
  migration_body sql =
      let trimmed = trim_space sql in
      let body = trim_space (drop_bytes 6 (take_bytes (byte_length trimmed - 7) trimmed)) in
      if not (has_prefix "BEGIN;" (to_upper trimmed))
      then failed "migration must begin with BEGIN;"
      else if not (has_suffix "COMMIT;" (to_upper trimmed))
      then failed "migration must end with COMMIT;"
      else if body == ""
      then failed "migration body is empty"
      else done body

-- A row of the table schema_migrations.
pub record Row : Type 0 where
  pub version : ℕ
  pub name : String
  pub checksum : String

-- The database inside the transaction: its ledger, and the rest.
pub record Tables (D : Type 0) : Type 0 where
  pub ledger : List Row
  pub rest : D

-- The statements, over the rest of the database. Each may fail; `read`, `record_row` and the others
-- that return an option have no effect but that of the code.
pub record Database (D : Type 0) : Type 0 where
  pub begin : Tables D → Option String
  pub lock : Tables D → Option String
  pub schema : D → Attempt D
  pub ledger_table : D → Attempt D
  pub read : ℕ → Tables D → Option String
  pub exec : String → D → Attempt D
  pub record_row : Row → Tables D → Option String
  pub commit : Tables D → Option String

-- How the statements of a transaction end: all have run, or one has failed. Either way the
-- transaction has the tables as far as they came.
pub data Ran (D : Type 0) : Type 0 where
  ran : Tables D → Ran D
  broke : String → Tables D → Ran D

pub Ran-cases :
    {D : Type 0} (r : Ran D)
    → ((t : Tables D) × (r ≡ ran t)) ⊎ ((e : String) × (t : Tables D) × (r ≡ broke e t))
Ran-cases (ran t) = inl (t, refl)
Ran-cases (broke e t) = inr (e, t, refl)

pub ran-injective : {D : Type 0} {t t' : Tables D} → ran t ≡ ran t' → t ≡ t'
ran-injective e = cc

-- What a connection sees: the tables that are committed, and those of its open transaction.
pub record Session (D : Type 0) : Type 0 where
  pub committed : Tables D
  pub pending : Option (Tables D)

-- `SELECT name, checksum … WHERE version = $1`
unfoldable pub recorded : ℕ → List Row → Option Row
recorded v List.[] = none
recorded v (List.◌∷◌ r rs) = if eqb r.version v then some r else recorded v rs

module _ ⦃u : Unicode⦄ ⦃d : Digest⦄ {D : Type 0} (db : Database D) where
  abbrev pub row_of : Migration → Row
  row_of m = record { version = m.version; name = m.name; checksum = migration_checksum m.sql }

  -- The `INSERT` behind the body.
  abbrev pub add_row : Row → Tables D → Ran D
  add_row r t = elim (db.record_row r t) [
    | some e ↦ broke e t
    | none ↦ ran (record { ledger = t.ledger ++ (List.◌∷◌ r List.[]); rest = t.rest })
  ]

  abbrev pub exec_body : Migration → Tables D → Attempt String → Ran D
  exec_body m t (failed e) = broke e t
  exec_body m t (done body) = elim (db.exec body t.rest) [
    | failed e ↦ broke e t
    | done rest ↦ add_row (row_of m) (record { ledger = t.ledger; rest = rest })
  ]

  -- A migration that is not in the ledger.
  unfoldable pub apply_new : Migration → Tables D → Ran D
  unfolding migration_body
  apply_new m t = exec_body m t (migration_body m.sql)

  abbrev pub accept_row : Migration → Row → Tables D → Ran D
  accept_row m r t =
      if r.name == m.name && r.checksum == migration_checksum m.sql
      then ran t
      else broke "migration integrity mismatch" t

  -- The body of the loop.
  unfoldable pub apply_one : Migration → Tables D → Ran D
  apply_one m t = elim (db.read m.version t) [
    | some e ↦ broke e t
    | none ↦ elim (recorded m.version t.ledger) [ some r ↦ accept_row m r t | none ↦ apply_new m t ]
  ]

  unfoldable pub apply_all : List Migration → Tables D → Ran D
  apply_all List.[] t = ran t
  apply_all (List.◌∷◌ m ms) t = elim (apply_one m t) [
    | broke e t' ↦ broke e t'
    | ran t' ↦ apply_all ms t'
  ]

  -- The lock, and the two statements in front of the loop.
  unfoldable pub prepare : Tables D → Ran D
  prepare t = elim (db.lock t) [
    | some e ↦ broke e t
    | none ↦ elim (db.schema t.rest) [
      | failed e ↦ broke e t
      | done rest ↦ elim (db.ledger_table rest) [
        | failed e ↦ broke e (record { ledger = t.ledger; rest = rest })
        | done rest' ↦ ran (record { ledger = t.ledger; rest = rest' })
      ]
    ]
  ]

  -- The statements between the begin and the commit.
  unfoldable pub in_transaction : List Migration → Tables D → Ran D
  in_transaction ms t = elim (prepare t) [ broke e t' ↦ broke e t' | ran t' ↦ apply_all ms t' ]

  -- Behind the statements: a return with their error, or the commit.
  abbrev pub commit_ran : Session D → Ran D → Option String × Session D
  commit_ran s (broke e t) = (some e, record s { pending = some t })
  commit_ran s (ran t) = elim (db.commit t) [
    | some e ↦ (some e, record s { pending = some t })
    | none ↦ (none, record { committed = t; pending = none })
  ]

  -- The deferred `tx.Rollback`, without effect behind a commit.
  abbrev pub rollback : Session D → Session D
  rollback s = record s { pending = none }

  abbrev pub deferred_rollback : Option String × Session D → Option String × Session D
  deferred_rollback (e, s) = (e, rollback s)

  -- `Migrate` on an open store: the error, and the session behind it.
  unfoldable pub migrate : Attempt (List Migration) → Session D → Option String × Session D
  migrate (failed e) s = (some e, s)
  migrate (done ms) s = elim (db.begin s.committed) [
    | some e ↦ (some e, s)
    | none ↦
        deferred_rollback
          (commit_ran (record s { pending = some s.committed }) (in_transaction ms s.committed))
  ]

-- Opens all that `migrate` goes through.
unfoldable pub apply_run : Unit {0}
unfolding migrate in_transaction prepare apply_all apply_one apply_new recorded migration_body
    migration_checksum
apply_run = tt
