-- ===== src/Store/Suspension.antt =====
-- internal/store/suspension.go and the lists that suspending walks over.
use aegis_hosting_control_pa.Base.{
  ℕ, Bool, true, false, List, [], ◌∷◌, ◌++◌, ◌&&◌, ◌==◌, leb, if◌then◌else◌, keep, first, any,
  drop_rows, update_rows, map,
}
use aegis_hosting_control_pa.Env.{Env, Op}
use aegis_hosting_control_pa.Store.Schema.{
  Domain, DomainChild, Mailbox, Container, FtpAccount, Owned, SuspendKind, mailbox, container,
  SuspensionAction,
}
use aegis_hosting_control_pa.Store.Result.{M, exec, query, query_row}
use aegis_hosting_control_pa.Store.Users.{row_or_not_found}

abbrev pub same_kind : SuspendKind → SuspendKind → Bool
same_kind mailbox mailbox = true
same_kind container container = true
same_kind _ _ = false

abbrev pub is_action : ℕ → SuspendKind → ℕ → SuspensionAction → Bool
is_action user_id kind ref a = a.user_id == user_id && same_kind a.kind kind && a.ref == ref

-- INSERT OR IGNORE, with (user_id, kind, ref) as the primary key.
unfoldable pub record_suspension_action : Env → ℕ → SuspendKind → ℕ → M (Unit {0})
record_suspension_action e user_id kind ref = exec e (Op.record_suspension_action ref) λ db.
    if any (is_action user_id kind ref) db.suspension_actions
    then db
    else let row : SuspensionAction = record { user_id = user_id; kind = kind; ref = ref } in
      record db { suspension_actions = db.suspension_actions ++ row ∷ [] }

-- ORDER BY ref
unfoldable pub insert_ref : ℕ → List ℕ → List ℕ
insert_ref a [] = a ∷ []
insert_ref a (b ∷ bs) = if leb a b then a ∷ b ∷ bs else b ∷ insert_ref a bs

unfoldable pub order_by_ref : List ℕ → List ℕ
unfolding insert_ref
order_by_ref [] = []
order_by_ref (a ∷ as') = insert_ref a (order_by_ref as')

unfoldable pub list_suspension_actions : Env → ℕ → SuspendKind → M (List ℕ)
list_suspension_actions e user_id kind = query e Op.list_suspension_actions λ db. order_by_ref (
    map (λ (a : SuspensionAction). a.ref)
      (keep (λ a. a.user_id == user_id && same_kind a.kind kind) db.suspension_actions))

unfoldable pub clear_suspension_actions : Env → ℕ → M (Unit {0})
clear_suspension_actions e user_id = exec e Op.clear_suspension_actions λ db. record db {
  suspension_actions = drop_rows (λ a. a.user_id == user_id) db.suspension_actions;
}

unfoldable pub set_mailbox_enabled : Env → ℕ → Bool → M (Unit {0})
set_mailbox_enabled e id enabled = exec e (Op.set_mailbox_enabled id) λ db. record db {
  mailboxes =
      update_rows (λ (m : Mailbox). m.id == id) (λ m. record m { enabled = enabled }) db.mailboxes;
}

-- The lists of the rows of one account.
unfoldable pub list_domains : Env → ℕ → M (List Domain)
list_domains e user_id = query e Op.list_domains (λ db. keep (λ d. d.user_id == user_id) db.domains)

unfoldable pub list_ftp_accounts : Env → ℕ → M (List FtpAccount)
list_ftp_accounts e user_id =
    query e Op.list_ftp_accounts (λ db. keep (λ f. f.user_id == user_id) db.ftp_accounts)

unfoldable pub list_databases : Env → ℕ → M (List Owned)
list_databases e user_id =
    query e Op.list_databases (λ db. keep (λ d. d.user_id == user_id) db.databases)

unfoldable pub list_containers : Env → ℕ → M (List Container)
list_containers e user_id =
    query e Op.list_containers (λ db. keep (λ c. c.user_id == user_id) db.containers)

unfoldable pub get_mail_domain : Env → ℕ → M DomainChild
get_mail_domain e domain_id =
    query_row e Op.get_mail_domain
      (λ db. row_or_not_found (first (λ m. m.domain_id == domain_id) db.mail_domains))

unfoldable pub list_mailboxes : Env → ℕ → M (List Mailbox)
list_mailboxes e mail_domain_id =
    query e Op.list_mailboxes (λ db. keep (λ m. m.mail_domain_id == mail_domain_id) db.mailboxes)
