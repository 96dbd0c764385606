-- ===== src/Store/Delete/Orphans.antt =====
-- Deleting an account leaves no row of it, and no row whose parent is gone.
use aegis_hosting_control_pa.Base.{
  ℕ, Bool, true, false, ◌≡◌, refl, not, List, [], ◌∷◌, ◌==◌, keep, any, drop_rows, All, arith,
}
use aegis_hosting_control_pa.Base.Rows.{any-partition, any-drop_rows, All-keep}
use aegis_hosting_control_pa.Env.{Env, Op}
use aegis_hosting_control_pa.Store.Schema.{User, Domain, DomainChild, Db}
use aegis_hosting_control_pa.Store.Delete.{delete_user, owns_domain, owns_child}

abbrev pub is_user : Db → ℕ → Bool
is_user db k = any (λ (u : User). u.id == k) db.users

abbrev pub is_domain : Db → ℕ → Bool
is_domain db k = any (λ (d : Domain). d.id == k) db.domains

abbrev pub is_child : List DomainChild → ℕ → Bool
is_child rows k = any (λ (c : DomainChild). c.id == k) rows

-- Every row has its parent: the schema declares no foreign keys, so nothing but the program sees to it.
pub record IsLinked (db : Db) : Type 0 where
  pub domains : All (λ d. is_user db d.user_id ≡ true) db.domains
  pub mail_domains : All (λ m. is_domain db m.domain_id ≡ true) db.mail_domains
  pub domain_aliases : All (λ a. is_domain db a.domain_id ≡ true) db.domain_aliases
  pub dns_zones : All (λ z. is_domain db z.domain_id ≡ true) db.dns_zones
  pub ssl_orders : All (λ o. is_domain db o.domain_id ≡ true) db.ssl_orders
  pub mailboxes : All (λ b. is_child db.mail_domains b.mail_domain_id ≡ true) db.mailboxes
  pub mail_aliases : All (λ a. is_child db.mail_domains a.parent_id ≡ true) db.mail_aliases
  pub dns_records : All (λ r. is_child db.dns_zones r.parent_id ≡ true) db.dns_records
  pub containers : All (λ c. is_user db c.user_id ≡ true) db.containers
  pub cron_jobs : All (λ c. is_user db c.user_id ≡ true) db.cron_jobs
  pub api_tokens : All (λ t. is_user db t.user_id ≡ true) db.api_tokens
  pub totp_challenges : All (λ t. is_user db t.user_id ≡ true) db.totp_challenges
  pub suspension_actions : All (λ a. is_user db a.user_id ≡ true) db.suspension_actions
  pub ftp_accounts : All (λ f. is_user db f.user_id ≡ true) db.ftp_accounts
  pub databases : All (λ d. is_user db d.user_id ≡ true) db.databases
  pub sessions : All (λ s. is_user db s.user_id ≡ true) db.sessions

apart :
    (id k : ℕ) (users : List User)
    → (k == id) ≡ false
    → any (λ u. u.id == k) (keep (λ u. u.id == id) users) ≡ false
unfolding any keep
apart id k [] other = refl
apart id k (u ∷ users) other = ground (arith, apart id k users)

not-true : (b : Bool) → not b ≡ true → b ≡ false
not-true true h = cc
not-true false h = refl

-- Another account than the deleted one stays.
is_user-drop :
    (id k : ℕ) (users : List User)
    → any (λ u. u.id == k) users ≡ true
    → not (k == id) ≡ true
    → any (λ u. u.id == k) (drop_rows (λ u. u.id == id) users) ≡ true
is_user-drop id k users h other =
    any-partition (λ u. u.id == k) (λ u. u.id == id) users h
      (apart id k users (not-true (k == id) other))

-- A domain that the account does not own stays.
is_domain-drop :
    (id k : ℕ) (db : Db)
    → is_domain db k ≡ true
    → not (owns_domain db id k) ≡ true
    → any (λ (d : Domain). d.id == k) (drop_rows (λ d. d.user_id == id) db.domains) ≡ true
is_domain-drop id k db h other =
    any-partition (λ d. d.id == k) (λ d. d.user_id == id) db.domains h
      (not-true (owns_domain db id k) other)

-- So does a mail domain or a zone that belongs to none of its domains.
is_child-drop :
    (id k : ℕ) (db : Db) (rows : List DomainChild)
    → is_child rows k ≡ true
    → not (owns_child db rows id k) ≡ true
    → is_child (drop_rows (λ c. owns_domain db id c.domain_id) rows) k ≡ true
is_child-drop id k db rows h other =
    any-partition (λ c. c.id == k) (λ c. owns_domain db id c.domain_id) rows h
      (not-true (owns_child db rows id k) other)

module _ {A : Type 0} (key : A → ℕ) (id : ℕ) (db : Db) where
  of_users :
      (rows : List A)
      → All (λ x. is_user db (key x) ≡ true) rows
      → All
          (λ x. any (λ (u : User). u.id == key x) (drop_rows (λ u. u.id == id) db.users) ≡ true)
          (drop_rows (λ x. key x == id) rows)
  of_users rows =
      All-keep _ _ (λ x. not (key x == id)) rows
        (λ x h other. is_user-drop id (key x) db.users h other)

  of_domains :
      (rows : List A)
      → All (λ x. is_domain db (key x) ≡ true) rows
      → All
          (λ x.
            any (λ (d : Domain). d.id == key x) (drop_rows (λ d. d.user_id == id) db.domains)
            ≡ true)
          (drop_rows (λ x. owns_domain db id (key x)) rows)
  of_domains rows =
      All-keep _ _ (λ x. not (owns_domain db id (key x))) rows
        (λ x h other. is_domain-drop id (key x) db h other)

  of_children :
      (parents : List DomainChild) (rows : List A)
      → All (λ x. is_child parents (key x) ≡ true) rows
      → All
          (λ x. is_child (drop_rows (λ c. owns_domain db id c.domain_id) parents) (key x) ≡ true)
          (drop_rows (λ x. owns_child db parents id (key x)) rows)
  of_children parents rows =
      All-keep _ _ (λ x. not (owns_child db parents id (key x))) rows
        (λ x h other. is_child-drop id (key x) db parents h other)

-- Deleting an account, where the transaction works, orphans nothing: if every row had its parent,
-- every row that is left has it, and no account with the id is left.
pub delete_user-IsLinked :
    (e : Env) (id : ℕ) (db : Db)
    → e.fault Op.delete_user ≡ false
    → IsLinked db
    → IsLinked (delete_user e id db).1 × (is_user (delete_user e id db).1 id ≡ false)
unfolding delete_user
delete_user-IsLinked e id db works l = rw works (
  record {
    domains = of_users (λ d. d.user_id) id db db.domains l.domains;
    mail_domains = of_domains (λ m. m.domain_id) id db db.mail_domains l.mail_domains;
    domain_aliases = of_domains (λ a. a.domain_id) id db db.domain_aliases l.domain_aliases;
    dns_zones = of_domains (λ z. z.domain_id) id db db.dns_zones l.dns_zones;
    ssl_orders = of_domains (λ o. o.domain_id) id db db.ssl_orders l.ssl_orders;
    mailboxes = of_children (λ b. b.mail_domain_id) id db db.mail_domains db.mailboxes l.mailboxes;
    mail_aliases =
        of_children (λ a. a.parent_id) id db db.mail_domains db.mail_aliases l.mail_aliases;
    dns_records = of_children (λ r. r.parent_id) id db db.dns_zones db.dns_records l.dns_records;
    containers = of_users (λ c. c.user_id) id db db.containers l.containers;
    cron_jobs = of_users (λ c. c.user_id) id db db.cron_jobs l.cron_jobs;
    api_tokens = of_users (λ t. t.user_id) id db db.api_tokens l.api_tokens;
    totp_challenges = of_users (λ t. t.user_id) id db db.totp_challenges l.totp_challenges;
    suspension_actions = of_users (λ a. a.user_id) id db db.suspension_actions l.suspension_actions;
    ftp_accounts = of_users (λ f. f.user_id) id db db.ftp_accounts l.ftp_accounts;
    databases = of_users (λ d. d.user_id) id db db.databases l.databases;
    sessions = of_users (λ s. s.user_id) id db db.sessions l.sessions;
  },
  any-drop_rows (λ u. u.id == id) db.users,
)
