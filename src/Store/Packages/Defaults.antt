-- ===== src/Store/Packages/Defaults.antt =====
-- The package that internal/store gives to accounts without a choice: `CreatePackage`,
-- `UpdatePackage` and `DeletePackage` of users.go leave at most one.
use aegis_hosting_control_pa.Base.{
  ℕ, suc, ◌≤◌, ◌<◌, Bool, false, List, [], ◌∷◌, ◌++◌, ◌&&◌, not, ltb, ◌==◌, same, of_if, of_test,
  Bool-cases, inl, inr, any, keep, update_rows, drop_rows, count_rows, All, ◌≡◌, refl, arith,
}
use aegis_hosting_control_pa.Base.Rows.{count_rows-append}
use aegis_hosting_control_pa.Env.{Env, Op}
use aegis_hosting_control_pa.Store.Schema.{User, Package, Db}
use aegis_hosting_control_pa.Store.Result.{M, Result}
use aegis_hosting_control_pa.Store.Packages.{
  seconds, has_package_id, set_default, clear_defaults, keep_one_default, create_package,
  update_package, delete_package, write_package,
}

abbrev is_default : Package → Bool
is_default p = p.is_default

-- The ids are a primary key that counts up, and at most one package is the default.
pub record IsTidy (ps : List Package) (last : ℕ) : Type 0 where
  pub counted : All (λ p. p.id ≤ last) ps
  pub keyed : (k : ℕ) → count_rows (has_package_id k) ps ≤ 1
  pub one : count_rows is_default ps ≤ 1

abbrev pub Tidy : Db → Type 0
Tidy db = IsTidy db.packages db.last_package_id

-- Only the row of the id keeps its mark.
clear_defaults-le :
    (id : ℕ) (ps : List Package)
    → count_rows is_default (clear_defaults id ps) ≤ count_rows (has_package_id id) ps
unfolding clear_defaults count_rows update_rows
clear_defaults-le id [] = omega arith
clear_defaults-le id (p ∷ ps) = ground (arith, clear_defaults-le id ps)

-- A change that keeps the ids keeps what is counted by them.
module _ (q : Package → Bool) (f : Package → Package)
    (same_id : (p : Package) → (f p).id ≡ p.id) where
  update-key :
      (k : ℕ) (ps : List Package)
      → count_rows (has_package_id k) (update_rows q f ps) ≡ count_rows (has_package_id k) ps
  unfolding count_rows update_rows
  update-key k [] = refl
  update-key k (p ∷ ps) = ground (arith, update-key k ps, same_id p)

  update-counted :
      (last : ℕ) (ps : List Package)
      → All (λ p. p.id ≤ last) ps
      → All (λ p. p.id ≤ last) (update_rows q f ps)
  unfolding update_rows
  update-counted last [] h = tt
  update-counted last (p ∷ ps) (h, hs) = (ground (arith, same_id p), update-counted last ps hs)

-- A change that sets no mark.
update-unmarked :
    (q : Package → Bool) (f : Package → Package)
    → ((p : Package) → (f p).is_default ≡ false)
    → (ps : List Package) → count_rows is_default (update_rows q f ps) ≤ count_rows is_default ps
unfolding count_rows update_rows
update-unmarked q f off [] = omega arith
update-unmarked q f off (p ∷ ps) = ground (arith, update-unmarked q f off ps, off p)

keep-count : (r q : Package → Bool) (ps : List Package) → count_rows r (keep q ps) ≤ count_rows r ps
unfolding count_rows keep
keep-count r q [] = omega arith
keep-count r q (p ∷ ps) = ground (arith, keep-count r q ps)

keep-counted :
    (last : ℕ) (q : Package → Bool) (ps : List Package)
    → All (λ p. p.id ≤ last) ps
    → All (λ p. p.id ≤ last) (keep q ps)
unfolding keep
keep-counted last q [] h = tt
keep-counted last q (p ∷ ps) (h, hs) =
    of_if (All (λ p'. p'.id ≤ last)) (q p) _ _ (h, keep-counted last q ps hs)
      (keep-counted last q ps hs)

-- No row has an id above the counter.
count-fresh :
    (last k : ℕ) (ps : List Package)
    → All (λ p. p.id ≤ last) ps
    → last < k
    → count_rows (has_package_id k) ps ≡ 0
unfolding count_rows
count-fresh last k [] h lt = refl
count-fresh last k (p ∷ ps) (h, hs) lt = ground (arith, count-fresh last k ps hs lt)

append-counted :
    (last : ℕ) (ps : List Package) (p : Package)
    → All (λ q. q.id ≤ last) ps
    → p.id ≡ suc last
    → All (λ q. q.id ≤ suc last) (ps ++ p ∷ [])
append-counted last [] p h e = (omega arith, tt)
append-counted last (q ∷ ps) p (h, hs) e = (omega arith, append-counted last ps p hs e)

-- With the mark of the others cleared, the table is tidy again.
keep_one-IsTidy :
    (e : Env) (p : Package) (db : Db)
    → e.fault Op.clear_default_packages ≡ false
    → All (λ q. q.id ≤ db.last_package_id) db.packages
    → ((k : ℕ) → count_rows (has_package_id k) db.packages ≤ 1)
    → (p.is_default ≡ false → count_rows is_default db.packages ≤ 1)
    → Tidy (keep_one_default e p db)
unfolding keep_one_default clear_defaults
keep_one-IsTidy e p db works counted keyed one =
    let others : Package → Bool = λ q. not (has_package_id p.id q) in
    of_test {A = Db} Tidy (p.is_default && not (e.fault Op.clear_default_packages)) _ _
      (λ _. record {
        counted = update-counted others (set_default false) (λ _. refl) _ _ counted;
        keyed = λ k.
            omega (arith, keyed k, update-key others (set_default false) (λ _. refl) k db.packages);
        one = omega (arith, keyed p.id, clear_defaults-le p.id db.packages);
      })
      (λ off. record { counted = counted; keyed = keyed; one = one (ground arith) })

create-IsTidy :
    (e : Env) (p : Package) (db : Db)
    → e.fault Op.clear_default_packages ≡ false
    → Tidy db
    → Tidy (create_package e p db).1
unfolding create_package
create-IsTidy e p db works tidy =
    let row : Package = record p { id = suc db.last_package_id; created_at = seconds e.now } in
    let P : Result Package × Db → Type 0 = λ r. Tidy r.1 in
    let fresh =
      count-fresh db.last_package_id (suc db.last_package_id) db.packages tidy.counted
        (omega arith) in
    of_if P (e.fault Op.create_package) _ _ tidy (
      of_if P (any (λ q. same q.name p.name) db.packages) _ _ tidy (
        keep_one-IsTidy e row _ works (append-counted _ _ row tidy.counted refl)
          (λ k.
            ground
              (arith, fresh, tidy.keyed k, count_rows-append (has_package_id k) db.packages row))
          (λ off. ground (arith, tidy.one, count_rows-append is_default db.packages row))))

update-IsTidy :
    (e : Env) (p : Package) (db : Db)
    → e.fault Op.clear_default_packages ≡ false
    → Tidy db
    → Tidy (update_package e p db).1
unfolding update_package
update-IsTidy e p db works tidy =
    let P : Result (Unit {0}) × Db → Type 0 = λ r. Tidy r.1 in
    of_if P (e.fault Op.update_package) _ _ tidy (
      of_if P
        (any (has_package_id p.id) db.packages
          && any (λ q. same q.name p.name && not (has_package_id p.id q)) db.packages)
        _ _ tidy
        (keep_one-IsTidy e p _ works
          (update-counted (has_package_id p.id) (write_package p) (λ _. refl) _ _ tidy.counted)
          (λ k. omega (
            arith,
            tidy.keyed k,
            update-key (has_package_id p.id) (write_package p) (λ _. refl) k db.packages,
          ))
          (λ off. omega (
            arith,
            tidy.one,
            update-unmarked (has_package_id p.id) (write_package p) (λ _. off) db.packages,
          ))))

drop-IsTidy : (e : Env) (id : ℕ) (db : Db) → Tidy db → Tidy (delete_package e id db).1
unfolding delete_package
drop-IsTidy e id db tidy =
    let left : Package → Bool = λ p. not (has_package_id id p) in
    let dropped : IsTidy (drop_rows (has_package_id id) db.packages) db.last_package_id = record {
      counted = keep-counted _ left _ tidy.counted;
      keyed = λ k. omega (arith, tidy.keyed k, keep-count (has_package_id k) left db.packages);
      one = omega (arith, tidy.one, keep-count is_default left db.packages);
    } in
    elim (Bool-cases (e.fault Op.count_package_users)) [
      | inl fails ↦ rw fails tidy
      | inr works ↦ rw works (
          of_if {A = M (Unit {0})} (λ m. Tidy (m db).1)
            (ltb 0 (count_rows (λ (u : User). u.package_id == id) db.users)) _ _ tidy
            (of_if {A = Result (Unit {0}) × Db} (λ r. Tidy r.1) (e.fault Op.delete_package) _ _ tidy
              dropped))
    ]

-- The operations on packages.
pub data Change : Type 0 where
  create update : Package → Change
  delete : ℕ → Change

abbrev pub change : Env → Change → Db → Db
change e (create p) db = (create_package e p db).1
change e (update p) db = (update_package e p db).1
change e (delete id) db = (delete_package e id db).1

-- Every operation on packages keeps at most one default package, the key of the table and its
-- counter, on every branch, if the statement that clears the other marks does not fail.
pub change-Tidy :
    (e : Env) (c : Change) (db : Db)
    → e.fault Op.clear_default_packages ≡ false
    → Tidy db
    → Tidy (change e c db)
change-Tidy e (create p) db works tidy = create-IsTidy e p db works tidy
change-Tidy e (update p) db works tidy = update-IsTidy e p db works tidy
change-Tidy e (delete id) db works tidy = drop-IsTidy e id db tidy
