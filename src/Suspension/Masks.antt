-- ===== src/Suspension/Masks.antt =====
-- Mailboxes under a suspension: those of the recorded ids are switched off.
use aegis_hosting_control_pa.Base.{
  ==_iff, sym, ◌∙◌, ℕ, Bool, true, false, ◌≡◌, refl, List, [], ◌∷◌, ◌++◌, ◌==◌, ◌||◌, ◌&&◌, not,
  if◌then◌else◌, any, keep, update_rows, map, All, arith, Bool-cases, inl, inr,
}
use aegis_hosting_control_pa.Store.Schema.{Mailbox, SuspensionAction, mailbox}
use aegis_hosting_control_pa.Store.Suspension.{is_action, same_kind, order_by_ref, insert_ref}
use aegis_hosting_control_pa.Suspension.Lift.{is_listed}

abbrev pub masked : (ℕ → Bool) → Mailbox → Mailbox
masked off b = if off b.id then record b { enabled = false } else b

-- The mailbox ids that are recorded for an account.
abbrev pub is_recorded : ℕ → List SuspensionAction → ℕ → Bool
is_recorded uid acts id = any (is_action uid mailbox id) acts

-- What the mailboxes were before is known from the records: a recorded one was enabled.
pub record IsMasked (orig : List Mailbox) (off : ℕ → Bool) (boxes : List Mailbox) : Type 0 where
  pub shown : boxes ≡ map (masked off) orig
  pub backed : All (λ b. off b.id ≡ true → b.enabled ≡ true) orig

-- Ids are unique, as far as it matters.
abbrev pub HaveUniqueIds : List Mailbox → Type 0
HaveUniqueIds orig =
    All (λ (b : Mailbox). All (λ (c : Mailbox). (c.id == b.id) ≡ true → c.enabled ≡ b.enabled) orig)
      orig

-- A mailbox that a visitor reads as enabled was so at first.
abbrev pub WasEnabled : List Mailbox → Mailbox → Type 0
WasEnabled orig b =
    b.enabled ≡ true → All (λ (c : Mailbox). (c.id == b.id) ≡ true → c.enabled ≡ true) orig

module _ {ℓ κ} {A : Type ℓ} (P Q : A → Type κ) where
  pub All-map : (xs : List A) → ((x : A) → P x → Q x) → All P xs → All Q xs
  All-map [] f h = tt
  All-map (x ∷ xs) f (p, h) = (f x p, All-map xs f h)

-- Switching one more id off.
pub update-masked :
    (off : ℕ → Bool) (id : ℕ) (bs : List Mailbox)
    → update_rows (λ b. b.id == id) (λ b. record b { enabled = false }) (map (masked off) bs)
      ≡ map (masked (λ k. off k || id == k)) bs
unfolding update_rows
update-masked off id [] = refl
update-masked off id (b ∷ bs) = ground (arith, update-masked off id bs)

-- Switching one on again, if it was.
pub update-unmasked :
    (off : ℕ → Bool) (id : ℕ) (bs : List Mailbox)
    → All (λ b. (b.id == id) ≡ true → b.enabled ≡ true) bs
    → update_rows (λ b. b.id == id) (λ b. record b { enabled = true }) (map (masked off) bs)
      ≡ map (masked (λ k. off k && not (id == k))) bs
unfolding update_rows
update-unmasked off id [] h = refl
update-unmasked off id (b ∷ bs) (p, h) = ground (arith, update-unmasked off id bs h)

-- The map by another predicate that agrees on the ids.
pub map-masked :
    (off off' : ℕ → Bool) (bs : List Mailbox)
    → ((k : ℕ) → off k ≡ off' k)
    → map (masked off) bs ≡ map (masked off') bs
map-masked off off' [] h = refl
map-masked off off' (b ∷ bs) h = ground (arith, h b.id, map-masked off off' bs h)

was_enabled :
    (off : ℕ → Bool) (orig : List Mailbox) (b : Mailbox)
    → All (λ (c : Mailbox). (c.id == b.id) ≡ true → c.enabled ≡ b.enabled) orig
    → WasEnabled orig (masked off b)
was_enabled off orig b agree on = elim (Bool-cases (off b.id)) [
  | inl masked_off ↦ cc (rw masked_off at on)
  | inr kept ↦ rw kept (All-map _ _ orig (λ c f same_id. f same_id ∙ (rw kept at on)) agree)
]

-- What the visitor reads.
pub WasEnabled-keep :
    (off : ℕ → Bool) (p : Mailbox → Bool) (orig bs : List Mailbox)
    → All
        (λ (b : Mailbox). All (λ (c : Mailbox). (c.id == b.id) ≡ true → c.enabled ≡ b.enabled) orig)
        bs
    → All (WasEnabled orig) (keep p (map (masked off) bs))
unfolding keep
WasEnabled-keep off p orig [] h = tt
WasEnabled-keep off p orig (b ∷ bs) (agree, h) = elim (Bool-cases (p (masked off b))) [
  | inl kept ↦ rw kept (was_enabled off orig b agree, WasEnabled-keep off p orig bs h)
  | inr dropped ↦ rw dropped (WasEnabled-keep off p orig bs h)
]

is_listed-insert :
    (k a : ℕ) (ids : List ℕ) → is_listed k (insert_ref a ids) ≡ (a == k || is_listed k ids)
unfolding insert_ref
is_listed-insert k a [] = refl
is_listed-insert k a (b ∷ ids) = ground (arith, is_listed-insert k a ids)

pub is_listed-order : (k : ℕ) (ids : List ℕ) → is_listed k (order_by_ref ids) ≡ is_listed k ids
unfolding order_by_ref
is_listed-order k [] = refl
is_listed-order k (a ∷ ids) =
    ground (arith, is_listed-insert k a (order_by_ref ids), is_listed-order k ids)

-- The listed refs of an account's mailboxes are those that are recorded.
pub is_listed-refs :
    (uid k : ℕ) (acts : List SuspensionAction)
    → is_listed k (
        map
          (λ (a : SuspensionAction). a.ref)
          (keep (λ a. a.user_id == uid && same_kind a.kind mailbox) acts))
      ≡ is_recorded uid acts k
unfolding keep any
is_listed-refs uid k [] = refl
is_listed-refs uid k (a ∷ acts) = ground (arith, is_listed-refs uid k acts)

pub any-append {ℓ} :
    {A : Type ℓ} (p : A → Bool) (xs : List A) (x : A) → any p (xs ++ x ∷ []) ≡ (any p xs || p x)
unfolding any
any-append p [] x = ground arith
any-append p (y ∷ xs) x = ground (arith, any-append p xs x)

-- The same mailboxes under a predicate that agrees.
pub IsMasked-change :
    (orig : List Mailbox) (off off' : ℕ → Bool) (boxes : List Mailbox)
    → ((k : ℕ) → off' k ≡ off k)
    → IsMasked orig off boxes
    → IsMasked orig off' boxes
IsMasked-change orig off off' boxes agree m = record {
  shown = m.shown ∙ map-masked off off' orig (λ k. sym (agree k));
  backed = All-map _ _ orig (λ b f h. f (sym (agree b.id) ∙ h)) m.backed;
}

-- A row that is there already adds nothing.
pub is_recorded-again :
    (uid id k : ℕ) (acts : List SuspensionAction)
    → is_recorded uid acts id ≡ true
    → is_recorded uid acts k ≡ (is_recorded uid acts k || id == k)
is_recorded-again uid id k acts there = elim (Bool-cases (id == k)) [
  | inl same_id ↦ let e = (==_iff id k).0 same_id in rw (same_id, ← e, there)
  | inr other ↦ rw other (ground arith)
]

==-sym : (a b : ℕ) → (a == b) ≡ true → (b == a) ≡ true
==-sym a b h = ground arith

either : (x y : Bool) (P : Type 0) → (x || y) ≡ true → (x ≡ true → P) → (y ≡ true → P) → P
either true y P h f g = f refl
either false y P h f g = g h

-- What backs a predicate and one more id.
pub backed_by_both :
    (off : ℕ → Bool) (id : ℕ) (bs : List Mailbox)
    → All (λ b. off b.id ≡ true → b.enabled ≡ true) bs
    → All (λ b. (b.id == id) ≡ true → b.enabled ≡ true) bs
    → All (λ b. (off b.id || id == b.id) ≡ true → b.enabled ≡ true) bs
backed_by_both off id [] h k = tt
backed_by_both off id (b ∷ bs) (p, h) (q, k) = (
  λ e. either (off b.id) (id == b.id) (b.enabled ≡ true) e p (λ s. q (==-sym id b.id s)),
  backed_by_both off id bs h k,
)

-- Nothing is switched off by a predicate that holds of no id.
pub map-unmasked :
    (off : ℕ → Bool) (bs : List Mailbox) → ((k : ℕ) → off k ≡ false) → map (masked off) bs ≡ bs
map-unmasked off [] h = refl
map-unmasked off (b ∷ bs) h = ground (arith, h b.id, map-unmasked off bs h)
