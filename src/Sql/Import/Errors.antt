-- ===== src/Sql/Import/Errors.antt =====
-- The errors of `ImportSQL` of internal/svc/dbeditor_io.go.
use aegis_hosting_control_pa.Base.{
  ◌+◌, ◌||◌, not, of_if, ℕ, zero, suc, ◌<◌, true, false, Option, none, some, length, ◌≡◌, refl,
  arith,
}
use aegis_hosting_control_pa.Sql.Bytes.{Bytes}
use aegis_hosting_control_pa.Sql.Parts.{Scanner, new_scanner}
use aegis_hosting_control_pa.Sql.Scanner.{
  Next, statement, eof, too_long, read_error, exhausted, next,
}
use aegis_hosting_control_pa.Sql.Scanner.Progress.{Ended, Ended-weaken, next-Ended}
use aegis_hosting_control_pa.Sql.Scanner.Broken.{IsOpen, next-IsOpen}
use aegis_hosting_control_pa.Sql.Import.{
  Target, ImportResult, Imported, import_loop, import_one, Turn, stop, go, import_sql, stopped,
  max_statement, fresh, end_transaction, map_option, in_transaction,
}

module _ {D : Type 0} (t : Target D) where
  -- Some statements lead from one database to another.
  pub data Ran (begun : D) : D → Type 0 where
    none_yet : Ran begun begun
    one_more : {d : D} (q : Bytes) → Ran begun d → Ran begun (t.exec q d).1

  -- The loop has ended, with an error, on what some statements have left.
  abbrev Failed : D → Option (Imported D) → Type 0
  Failed begun none = ⊥
  Failed begun (some i) = (i.ok ≡ false) × Ran begun i.db

  abbrev Stops : D → Turn D → Type 0
  Stops begun (stop i) = (i.ok ≡ false) × Ran begun i.db
  Stops begun (go r d) = Ran begun d

  done-Stops :
      (begun : D) (done : Option ℕ) (r : ImportResult) (d : D)
      → Ran begun d
      → Stops begun (elim done [
        | none ↦ stop (stopped t r d)
        | some k ↦ go (record r { statements = r.statements + 1; affected = r.affected + k }) d
      ])
  done-Stops begun none r d ran = (refl, ran)
  done-Stops begun (some k) r d ran = ran

  import_one-Stops :
      (begun : D) (q : Bytes) (r : ImportResult) (d : D)
      → Ran begun d
      → Stops begun (import_one t q r d)
  unfolding import_one
  import_one-Stops begun q r d ran =
      of_if {A = Turn D} (Stops begun) (not (t.is_utf8 q) || t.cancelled (r.statements + 1)) _ _
        (refl, ran) (done-Stops begun (t.exec q d).0 r (t.exec q d).1 (one_more q ran))

  turn-Failed :
      (begun : D) (n : ℕ) (turn : Turn D) (s : Scanner)
      → Stops begun turn
      → ((r : ImportResult) (d : D) → Ran begun d → Failed begun (import_loop t n s r d))
      → Failed begun (elim turn [ stop i ↦ some i | go r d ↦ import_loop t n s r d ])
  turn-Failed begun n (stop i) s stops others = stops
  turn-Failed begun n (go r d) s stops others = others r d stops

  -- What follows a result of `Next`.
  loop-Failed :
      (begun : D) (n : ℕ) (x : Next) (s : Scanner) (r : ImportResult) (d : D)
      → Ran begun d
      → Ended n (x, s)
      → IsOpen (x, s)
      → ((r' : ImportResult) (d' : D)
          → s.broken ≡ true
          → length s.input < n
          → Ran begun d'
          → Failed begun (import_loop t n s r' d'))
      → Failed begun (elim x [
        | eof ↦ some (record { result = r; ok = true; db = d })
        | too_long ↦ some (stopped t r d)
        | read_error ↦ some (stopped t r d)
        | exhausted ↦ none
        | statement q ↦ elim (import_one t q r d) [
          | stop i ↦ some i
          | go r' d' ↦ import_loop t n s r' d'
        ]
      ])
  loop-Failed begun n eof s r d ran ended held others = absurd held
  loop-Failed begun n too_long s r d ran ended held others = (refl, ran)
  loop-Failed begun n read_error s r d ran ended held others = (refl, ran)
  loop-Failed begun n exhausted s r d ran ended held others = absurd ended
  loop-Failed begun n (statement q) s r d ran ended held others =
      turn-Failed begun n (import_one t q r d) s (import_one-Stops begun q r d ran)
        (λ r' d' ran'. others r' d' held ended ran')

  import_loop-Failed :
      (begun : D) (n : ℕ) (s : Scanner) (r : ImportResult) (d : D)
      → Ran begun d
      → s.broken ≡ true
      → length s.input < n
      → Failed begun (import_loop t n s r d)
  unfolding import_loop
  import_loop-Failed begun zero s r d ran h fuel = absurd (omega arith)
  import_loop-Failed begun (suc n) s r d ran h fuel =
      loop-Failed begun n (next s).0 (next s).1 r d ran
        (Ended-weaken (length s.input) n (next s) (omega arith) (next-Ended s)) (next-IsOpen s h)
        (λ r' d' h' fuel' ran'. import_loop-Failed begun n (next s).1 r' d' ran' h' fuel')

  -- How a failed import leaves the database d: as it was, if the transaction did not begin, or else
  -- rolled back from what some statements of the transaction had left, with no statement reported.
  abbrev pub AfterBegin : Option D → D → D → Type 0
  AfterBegin none d final = final ≡ d
  AfterBegin (some begun) d final = (d' : D) × Ran begun d' × (final ≡ t.rollback d')

  abbrev pub IsRolledBack : D → Imported D → Type 0
  IsRolledBack d i =
      (i.ok ≡ false)
      × (i.result.statements ≡ 0)
      × (i.result.affected ≡ 0)
      × AfterBegin (t.begin d) d i.db

  -- The end of the transaction of a loop that failed.
  abbrev IsEnded : Option D → D → Option (Imported D) → Type 0
  IsEnded b d o =
      (i : Imported D) × (o ≡ some i)
      × ((i.ok ≡ false) × (i.result.statements ≡ 0) × (i.result.affected ≡ 0) × AfterBegin b d i.db)

  end-Failed :
      (begun d : D) (o : Option (Imported D))
      → Failed begun o
      → IsEnded (some begun) d (map_option t (end_transaction t) o)
  end-Failed begun d none h = absurd h
  end-Failed begun d (some i) (failed, ran) =
      rw failed (_, refl, (refl, refl, refl, (i.db, ran, refl)))

  began-Failed :
      (d : D) (b : Option D) (run : D → Option (Imported D))
      → ((begun : D) → Failed begun (run begun))
      → IsEnded b d (in_transaction t b d run)
  began-Failed d none run h = (_, refl, (refl, refl, refl, refl))
  began-Failed d (some begun) run h = end-Failed begun d (run begun) (h begun)

  -- An import into PostgreSQL from a stream that breaks, with an error that comes again at every read,
  -- ends in an error, reports no statement, and is never committed by the panel: the database is what
  -- the server's rollback leaves behind some statements of the transaction, or what it was if the
  -- transaction did not begin. Whatever bytes came before the break, and whatever the server answers.
  pub import_sql-broken :
      (input : Bytes) (d : D)
      → (i : Imported D) × (import_sql t false input true d ≡ some i) × IsRolledBack d i
  unfolding import_sql
  import_sql-broken input d = began-Failed d (t.begin d) _ (λ begun.
      import_loop-Failed begun (suc (length input)) (new_scanner input true false max_statement)
        (fresh t) begun none_yet refl (omega arith))
