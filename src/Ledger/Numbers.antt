-- ===== src/Ledger/Numbers.antt =====
-- Account numbers: which operations keep them distinct (RichdaleAccounting/nexus-core/src/accounting/ledger.rs).
use text.Mathlib.TextEquality.{eq_iff}
use text.Mathlib.TextPositions.{eq_refl}
use rich_aim_acct_inv.Prelude.{
  ℕ, ◌≡◌, refl, ◌≢◌, inl, inr, false, some, List, [], ◌∷◌, String, str_eq, arith, find, Bool-cases,
}
use rich_aim_acct_inv.Prelude.OrdMap.{OrdMap, get?, insert, modify, values, get?-insert}
use rich_aim_acct_inv.Money.{Decimal}
use rich_aim_acct_inv.Financial.{
  Uuid, DateTime, Account, update_balance, TransactionEntry, Transaction,
}
use rich_aim_acct_inv.Ledger.{
  Outside, Ledger, number_is_taken, create_account, update_account, get_account_by_number,
  apply_entries, record_transaction,
}
use rich_aim_acct_inv.Ledger.Outcome.{record_transaction_cases}

str_eq_ne : (s t : String) → s ≢ t → str_eq s t ≡ false
str_eq_ne s t h = elim (Bool-cases (str_eq s t)) [
  | inl same ↦ absurd (h ((eq_iff s t).0 same))
  | inr differ ↦ differ
]

module _ {M : Type 0} where
  -- No two accounts have the same number.
  abbrev pub UniqueNumbers : OrdMap (Account M) → Type 0
  UniqueNumbers [] = Unit
  UniqueNumbers ((_, a) ∷ m) = (number_is_taken a.number m ≡ false) × UniqueNumbers m

  not_taken-ne :
      (n : String) (k : ℕ) (m : OrdMap (Account M)) (a : Account M)
      → number_is_taken n m ≡ false
      → get? k m ≡ some a
      → a.number ≢ n
  unfolding number_is_taken get?
  not_taken-ne n k [] a h g e = cc
  not_taken-ne n k ((j, w) ∷ m) a h g e = ground (arith, eq_iff w.number n, not_taken-ne n k m a, e)

  number_is_taken-insert :
      (n : String) (k : ℕ) (v : Account M) (m : OrdMap (Account M))
      → number_is_taken n m ≡ false
      → str_eq v.number n ≡ false
      → number_is_taken n (insert k v m) ≡ false
  unfolding number_is_taken insert
  number_is_taken-insert n k v [] h e = ground arith
  number_is_taken-insert n k v ((j, w) ∷ m) h e = ground (arith, number_is_taken-insert n k v m)

  insert-UniqueNumbers :
      (k : ℕ) (v : Account M) (m : OrdMap (Account M))
      → UniqueNumbers m
      → number_is_taken v.number m ≡ false
      → UniqueNumbers (insert k v m)
  unfolding number_is_taken insert
  insert-UniqueNumbers k v [] u h = (refl, tt)
  insert-UniqueNumbers k v ((j, w) ∷ m) u h = ground (
    arith,
    insert-UniqueNumbers k v m u.1,
    number_is_taken-insert w.number k v m,
    eq_iff w.number v.number,
    eq_iff v.number w.number,
    str_eq_ne v.number w.number,
  )

  -- Creating an account keeps the numbers distinct, whether the call succeeds or is refused because
  -- the number is in use.
  pub create_account-UniqueNumbers :
      (now : DateTime) (a : Account M) (l : Ledger M)
      → UniqueNumbers l.accounts
      → UniqueNumbers (create_account now a l).1.accounts
  unfolding create_account
  create_account-UniqueNumbers now a l u = elim (Bool-cases (number_is_taken a.number l.accounts)) [
    | inl taken ↦ rw taken u
    | inr is_free ↦ rw is_free (
        insert-UniqueNumbers a.id (record a { created_at = now; updated_at = now }) l.accounts u
          is_free)
  ]

  UniqueNumbers-injective :
      (i j : ℕ) (m : OrdMap (Account M)) (a b : Account M)
      → UniqueNumbers m
      → get? i m ≡ some a
      → get? j m ≡ some b
      → a.number ≡ b.number
      → i ≡ j
  unfolding get?
  UniqueNumbers-injective i j [] a b u p q e = cc
  UniqueNumbers-injective i j ((k, w) ∷ m) a b u p q e = ground (
    arith,
    UniqueNumbers-injective i j m a b u.1,
    not_taken-ne w.number i m a u.0,
    not_taken-ne w.number j m b u.0,
  )

  update_account_known :
      (now : DateTime) (j : Uuid) (b c : Account M) (l : Ledger M)
      → get? j l.accounts ≡ some b
      → c.id ≡ j
      → (update_account now j c l).1.accounts ≡ insert j (record c { updated_at = now }) l.accounts
  unfolding update_account
  update_account_known now j b c l q id_j = ground arith

  -- Updating an account does not check its number: giving an account of the ledger the number of
  -- another one is accepted, and two accounts then share the number.
  update_account_duplicates :
      (now : DateTime) (i j : Uuid) (a b : Account M) (l : Ledger M)
      → get? i l.accounts ≡ some a
      → get? j l.accounts ≡ some b
      → b.id ≡ j
      → i ≢ j
      → ¬ UniqueNumbers (update_account now j (record b { number = a.number }) l).1.accounts
  update_account_duplicates now i j a b l p q id_j ne u = ne (
      UniqueNumbers-injective i j (insert j b' l.accounts) a b'
        (rw (update_account_known now j b (record b { number = a.number }) l q id_j) at u)
        (rw (get?-insert i j b' l.accounts) (ground arith))
        (rw (get?-insert j j b' l.accounts) (ground arith)) refl)
    where
      b' : Account M
      b' = record b { number = a.number; updated_at = now }

module _ {M : Type 0} ⦃d : Decimal M⦄ where
  number_is_taken-modify :
      (n : String) (k now : ℕ) (x : M) (e : TransactionEntry M) (m : OrdMap (Account M))
      → number_is_taken n (modify k (update_balance now x e.entry_type) m) ≡ number_is_taken n m
  unfolding number_is_taken modify update_balance
  number_is_taken-modify n k now x e [] = refl
  number_is_taken-modify n k now x e ((j, w) ∷ m) =
      ground (arith, number_is_taken-modify n k now x e m)

  modify-UniqueNumbers :
      (k now : ℕ) (x : M) (e : TransactionEntry M) (m : OrdMap (Account M))
      → UniqueNumbers m
      → UniqueNumbers (modify k (update_balance now x e.entry_type) m)
  unfolding modify update_balance
  modify-UniqueNumbers k now x e [] u = tt
  modify-UniqueNumbers k now x e ((j, w) ∷ m) u =
      ground
        (arith, modify-UniqueNumbers k now x e m u.1, number_is_taken-modify w.number k now x e m)

  apply_entries-UniqueNumbers :
      (now : DateTime) (es : List (TransactionEntry M)) (m : OrdMap (Account M))
      → UniqueNumbers m
      → UniqueNumbers (apply_entries now es m)
  unfolding apply_entries
  apply_entries-UniqueNumbers now [] m u = u
  apply_entries-UniqueNumbers now (e ∷ es) m u =
      apply_entries-UniqueNumbers now es _ (modify-UniqueNumbers e.account_id now e.amount e m u)

  -- Recording a transaction keeps the account numbers distinct.
  pub record_transaction-UniqueNumbers :
      (o : Outside) (t : Transaction M) (l : Ledger M)
      → UniqueNumbers l.accounts
      → UniqueNumbers (record_transaction o t l).1.accounts
  record_transaction-UniqueNumbers o t l u = elim (record_transaction_cases o t l) [
    | inl (acceptable, done) ↦ rw done (apply_entries-UniqueNumbers o.now t.entries l.accounts u)
    | inr (x, refused) ↦ rw refused u
  ]

module _ {M : Type 0} where
  find_number :
      (k : ℕ) (m : OrdMap (Account M)) (a : Account M)
      → UniqueNumbers m
      → get? k m ≡ some a
      → find (λ b. str_eq b.number a.number) (values m) ≡ some a
  unfolding get?
  find_number k [] a u g = cc
  find_number k ((j, w) ∷ m) a u g = ground (
    arith,
    find_number k m a u.1,
    not_taken-ne w.number k m a u.0,
    eq_iff w.number a.number,
    eq_refl a.number,
  )

  -- With distinct numbers, looking an account up by its number finds that account.
  get_account_by_number_unique :
      (k : Uuid) (a : Account M) (l : Ledger M)
      → UniqueNumbers l.accounts
      → get? k l.accounts ≡ some a
      → get_account_by_number a.number l ≡ some a
  unfolding get_account_by_number
  get_account_by_number_unique k a l u g = find_number k l.accounts a u g
