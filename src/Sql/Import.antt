-- ===== src/Sql/Import.antt =====
-- `ImportSQL` of internal/svc/dbeditor_io.go. The database server is a parameter: a database, and
-- what a statement does to it.
pub mod Errors
use aegis_hosting_control_pa.Base.{
  ◌||◌, ◌&&◌, ◌*◌, ℕ, zero, suc, ◌+◌, String, Bool, true, false, Option, none, some, List, [], ◌∷◌,
  not, ◌==◌, if◌then◌else◌, length, ◌≡◌, refl,
}
use aegis_hosting_control_pa.Sql.Bytes.{Bytes, bytes}
use aegis_hosting_control_pa.Sql.Parts.{Scanner, new_scanner}
use aegis_hosting_control_pa.Sql.Scanner.{
  Next, statement, eof, too_long, read_error, exhausted, next,
}

pub record Target (D : Type 0) : Type 0 where
  -- ExecContext: the affected rows, or an error; what was written stays written
  pub exec : Bytes → D → Option ℕ × D
  -- BeginTx; and Commit and Rollback of the transaction, which a statement of the script may have
  -- ended already: whether there is an error, and the database behind the call
  pub begin : D → Option D
  pub commit : D → Bool × D
  pub rollback : D → D
  -- utf8.ValidString
  pub is_utf8 : Bytes → Bool
  -- whether the context has ended before the n-th statement
  pub cancelled : ℕ → Bool

-- `editorMaxStatement`
abbrev pub max_statement : ℕ
max_statement = 64 * 1024 * 1024

pub record ImportResult : Type 0 where
  pub statements : ℕ
  pub affected : ℕ
  -- `FailedAt`, 0 if no statement failed
  pub failed_at : ℕ

-- What an import returns beside the database: whether the error is nil.
pub record Imported (D : Type 0) : Type 0 where
  pub result : ImportResult
  pub ok : Bool
  pub db : D

-- A statement ends the loop, or it goes on.
pub data Turn (D : Type 0) : Type 0 where
  stop : Imported D → Turn D
  go : ImportResult → D → Turn D

module _ {D : Type 0} (t : Target D) where
  abbrev pub stopped : ImportResult → D → Imported D
  stopped r d = record { result = record r { failed_at = r.statements + 1 }; ok = false; db = d }

  -- A statement of the loop: UTF-8, the context, and the server.
  pub import_one : Bytes → ImportResult → D → Turn D
  import_one q r d =
      if not (t.is_utf8 q) || t.cancelled (r.statements + 1)
      then stop (stopped r d)
      else (let (done, d') = t.exec q d in
          elim done [
            | none ↦ stop (stopped r d')
            | some k ↦ go (record r { statements = r.statements + 1; affected = r.affected + k }) d'
          ])

  -- The loop of `ImportSQL`; `none` if the number of rounds does not suffice.
  pub import_loop : ℕ → Scanner → ImportResult → D → Option (Imported D)
  import_loop zero s r d = none
  import_loop (suc n) s r d =
      let (x, s') = next s in
      elim x [
        | eof ↦ some (record { result = r; ok = true; db = d })
        | too_long ↦ some (stopped r d)
        | read_error ↦ some (stopped r d)
        | exhausted ↦ none
        | statement q ↦ elim (import_one q r d) [
          | stop i ↦ some i
          | go r' d' ↦ import_loop n s' r' d'
        ]
      ]

  abbrev pub fresh : ImportResult
  fresh = record { statements = 0; affected = 0; failed_at = 0 }

  -- The end of a transaction: Commit, or the deferred Rollback, which does nothing behind a Commit.
  abbrev pub end_transaction : Imported D → Imported D
  end_transaction i =
      let (committed, db) = t.commit i.db in
      if not i.ok
      then record {
        result = record i.result { statements = 0; affected = 0 };
        ok = false;
        db = t.rollback i.db;
      }
      else if i.result.statements == 0
      then record { result = i.result; ok = false; db = t.rollback i.db }
      else record { result = i.result; ok = committed; db = db }

  abbrev pub map_option : (Imported D → Imported D) → Option (Imported D) → Option (Imported D)
  map_option f none = none
  map_option f (some i) = some (f i)

  abbrev pub in_transaction : Option D → D → (D → Option (Imported D)) → Option (Imported D)
  in_transaction none d run = some (record { result = fresh; ok = false; db = d })
  in_transaction (some d') d run = map_option end_transaction (run d')

  -- The end without one: an empty script is an error too.
  abbrev pub end_plain : Imported D → Imported D
  end_plain i = record i {
    ok = i.ok && not (i.result.statements == 0);
    db = (t.exec (bytes "SET FOREIGN_KEY_CHECKS=1") i.db).1;
  }

  -- `ImportSQL` on a stream that holds `input` and then ends, or fails.
  pub import_sql : Bool → Bytes → Bool → D → Option (Imported D)
  import_sql mysql input broken d =
      let s = new_scanner input broken mysql max_statement in
      let n = suc (length input) in
      if mysql
      then map_option end_plain
          (import_loop n s fresh (t.exec (bytes "SET FOREIGN_KEY_CHECKS=0") d).1)
      else in_transaction (t.begin d) d (λ d'. import_loop n s fresh d')
