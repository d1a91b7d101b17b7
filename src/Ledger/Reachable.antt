-- ===== src/Ledger/Reachable.antt =====
-- The ledger as a state machine: opening accounts and recording transactions from the default chart
-- (RichdaleAccounting/nexus-core/src/accounting/ledger.rs).
use rich_aim_acct_inv.Prelude.{
  ℕ, suc, ◌==◌, ◌≡◌, refl, ◌∙◌, inl, inr, none, List, [], ◌∷◌, Result-cases, ◌≢◌, ◌≤◌, String, ltb,
  arith, Bool-cases,
}
use rich_aim_acct_inv.Prelude.Int.{ℤ, pos, ◌+ℤ◌, int_laws, parts_of}
use rich_aim_acct_inv.Prelude.OrdMap.{OrdMap, get?, insert, get?-insert}
use rich_aim_acct_inv.Prelude.State.{◌>>=◌}
use rich_aim_acct_inv.Money.{Decimal}
use rich_aim_acct_inv.Financial.{Uuid, DateTime, AccountType, Account, new_account, Transaction}
use rich_aim_acct_inv.Ledger.{
  Outside, Ledger, new_ledger, create_account, create_accounts, default_accounts, initialize,
  number_is_taken, record_transaction,
}
use rich_aim_acct_inv.Ledger.Equation.{net, side, net-record_transaction}
use rich_aim_acct_inv.Ledger.Numbers.{
  UniqueNumbers, create_account-UniqueNumbers, record_transaction-UniqueNumbers,
}

side-zero : (ty : AccountType) (v : ℤ) → v ≡ pos 0 → side ty v ≡ pos 0
side-zero AccountType.asset v h = h
side-zero AccountType.expense v h = h
side-zero AccountType.liability v h = omega (int_laws, parts_of h)
side-zero AccountType.equity v h = omega (int_laws, parts_of h)
side-zero AccountType.revenue v h = omega (int_laws, parts_of h)

module _ {M : Type 0} ⦃d : Decimal M⦄ where
  open d use {value}

  -- Debits and credits are equal over all accounts, and account numbers are distinct.
  pub record Sound (l : Ledger M) : Type 0 where
    pub balanced : net l.accounts ≡ pos 0
    pub distinct : UniqueNumbers l.accounts

  net-insert_new :
      (k : ℕ) (v : Account M) (m : OrdMap (Account M))
      → get? k m ≡ none
      → net (insert k v m) ≡ side v.account_type (value v.balance) +ℤ net m
  unfolding get? insert
  net-insert_new k v [] h = refl
  net-insert_new k v ((j, w) ∷ m) h = elim (Bool-cases (k == j)) [
    | inl hit ↦ absurd (ground arith)
    | inr miss ↦ elim (Bool-cases (ltb k j)) [
      | inl before ↦ rw (miss, before)
      | inr after ↦
          rw (miss, after) (omega (int_laws, parts_of (net-insert_new k v m (ground arith))))
    ]
  ]

  -- What changes a ledger: an account is opened under an id that is not in use, or a transaction is
  -- handed in.
  pub data Step (l : Ledger M) : Ledger M → Type 0 where
    opens :
        (now : DateTime) (id : Uuid) (number name : String) (ty : AccountType)
        → get? id l.accounts ≡ none
        → Step l (create_account now (new_account id now number name ty) l).1
    records : (o : Outside) (t : Transaction M) → Step l (record_transaction o t l).1

  -- The ledgers that come from the empty one.
  pub data Reachable : Ledger M → Type 0 where
    start : Reachable new_ledger
    next : {l k : Ledger M} → Reachable l → Step l k → Reachable k

  opens-balanced :
      (now : DateTime) (id : Uuid) (number name : String) (ty : AccountType) (l : Ledger M)
      → get? id l.accounts ≡ none
      → net (create_account now (new_account id now number name ty) l).1.accounts ≡ net l.accounts
  unfolding create_account new_account
  opens-balanced now id number name ty l h = elim (Bool-cases (number_is_taken number l.accounts)) [
    | inl taken ↦ rw taken
    | inr is_free ↦
        rw
          (
            is_free,
            net-insert_new id (new_account id now number name ty) l.accounts h,
            side-zero ty (value d.dec_0) d.value-dec_0,
          )
          (omega int_laws)
  ]

  Step-Sound : {l k : Ledger M} → Step l k → Sound l → Sound k
  Step-Sound {l} (opens now id number name ty h) s = record {
    balanced = opens-balanced now id number name ty l h ∙ s.balanced;
    distinct = create_account-UniqueNumbers now (new_account id now number name ty) l s.distinct;
  }
  Step-Sound {l} (records o t) s = record {
    balanced = net-record_transaction o t l ∙ s.balanced;
    distinct = record_transaction-UniqueNumbers o t l s.distinct;
  }

  -- However accounts are opened, under unused ids, and transactions handed in, acceptable or not, from
  -- the empty ledger on: total debits equal total credits over all accounts, and account numbers are
  -- distinct.
  pub Reachable-Sound : {l : Ledger M} → Reachable l → Sound l
  Reachable-Sound start = record { balanced = refl; distinct = tt }
  Reachable-Sound (next r s) = Step-Sound s (Reachable-Sound r)

  create_account-other :
      (now : DateTime) (a : Account M) (k : Uuid) (l : Ledger M)
      → a.id ≢ k
      → get? k l.accounts ≡ none
      → get? k (create_account now a l).1.accounts ≡ none
  unfolding create_account
  create_account-other now a k l ne h = elim (Bool-cases (number_is_taken a.number l.accounts)) [
    | inl taken ↦ rw taken h
    | inr is_free ↦
        rw
          (is_free, get?-insert k a.id (record a { created_at = now; updated_at = now }) l.accounts)
          (ground arith)
  ]

  module _ (o : Outside) (distinct : (i j : ℕ) → o.fresh i ≡ o.fresh j → i ≡ j) where
    create_accounts-Reachable :
        (i : ℕ) (specs : List (String × String × AccountType)) (l : Ledger M)
        → Reachable l
        → ((j : ℕ) → i ≤ j → get? (o.fresh j) l.accounts ≡ none)
        → Reachable (create_accounts o i specs l).1
    unfolding create_accounts new_account
    create_accounts-Reachable i [] l r h = r
    create_accounts-Reachable i ((number, name, ty) ∷ rest) l r h =
        elim (Result-cases (create_account o.now account l).0) [
          | inl (b, done) ↦
              rw (done, ◌>>=◌)
                (create_accounts-Reachable (suc i) rest _ stepped (λ j le.
                  create_account-other o.now account (o.fresh j) l
                    (λ e. omega (arith, distinct i j e)) (h j (omega arith))))
          | inr (x, refused) ↦ rw (refused, ◌>>=◌) stepped
        ]
      where
        account : Account M
        account = new_account (o.fresh i) o.now number name ty

        stepped : Reachable (create_account o.now account l).1
        stepped = next r (opens o.now (o.fresh i) number name ty (h i (omega arith)))

    -- Initialising an empty ledger, with ids that differ from one another, leaves one that ledger calls
    -- produce: accounts opened one after another under unused ids.
    pub initialize-Reachable : Reachable (initialize o new_ledger).1
    unfolding initialize get?
    initialize-Reachable =
        create_accounts-Reachable 0 default_accounts new_ledger start (λ j le. refl)
