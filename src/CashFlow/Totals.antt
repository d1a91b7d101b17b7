-- ===== src/CashFlow/Totals.antt =====
-- The net change in cash of the statement against the entries to the cash account
-- (RichdaleAccounting/nexus-core/src/accounting/cashflow.rs).
use rich_aim_acct_inv.Prelude.{◌≡◌, some, none, Option, List, [], ◌∷◌, All, String}
use rich_aim_acct_inv.Prelude.Int.{ℤ, pos, ◌+ℤ◌, ◌-ℤ◌, int_laws, parts_of}
use rich_aim_acct_inv.Money.{Decimal, Division, zero_parts, sub_parts, add_parts}
use rich_aim_acct_inv.Financial.{DateTime, Account, TransactionEntry, Transaction}
use rich_aim_acct_inv.Ledger.{
  Ledger, list_accounts, list_transactions_by_date, get_account_by_number,
}
use rich_aim_acct_inv.Ledger.Validity.{debits, credits}
use rich_aim_acct_inv.CashFlow.{
  Changes, account_of, add_entry, add_entries, add_transactions, no_changes, net_change,
  balance_or_zero, generate_cash_flow_statement,
}
use rich_aim_acct_inv.CashFlow.Effects.{
  Covered, net, value-net_change, debited_at, debited-sides, net-entry,
}

module _ {M : Type 0} ⦃d : Decimal M⦄ where
  open d use {value}

  -- What an entry debits to the account with a number, less what it credits.
  abbrev pub entry_at : String → Option (Account M) → TransactionEntry M → ℤ
  entry_at number none e = pos 0
  entry_at number (some a) e = debited_at number a.number e.entry_type e.amount

  module _ (accounts : List (Account M)) where
    -- The debits to the account with a number, less the credits, over entries and transactions.
    abbrev pub entries_at : String → List (TransactionEntry M) → ℤ
    entries_at number [] = pos 0
    entries_at number (e ∷ es) =
        entry_at number (account_of accounts e.account_id) e +ℤ entries_at number es

    abbrev pub moved_at : String → List (Transaction M) → ℤ
    moved_at number [] = pos 0
    moved_at number (x ∷ xs) = entries_at number x.entries +ℤ moved_at number xs

    -- An entry to one of the accounts that the statement tells apart.
    abbrev pub Known : TransactionEntry M → Type 0
    Known e =
        (a : Account M) × (account_of accounts e.account_id ≡ some a)
        × Covered a.account_type a.number

    -- All its entries are to such accounts, and its debits equal its credits.
    pub record Plain (x : Transaction M) : Type 0 where
      pub known : All Known x.entries
      pub balanced : debits x.entries ≡ credits x.entries

    module _ ⦃q : Division M⦄ where
      net-add_entries :
          (es : List (TransactionEntry M)) (t : Changes M)
          → All Known es
          → net (add_entries accounts es t) +ℤ (debits es -ℤ credits es)
            ≡ net t +ℤ (entries_at "1000" es +ℤ (entries_at "1050" es +ℤ entries_at "1050" es))
      unfolding add_entries
      net-add_entries [] t v = omega int_laws
      net-add_entries (e ∷ es) t ((a, found, c), rest) =
          rw (found, add_entries)
            (omega (
              int_laws,
              parts_of (net-add_entries es (add_entry (some a) e t) rest),
              parts_of (net-entry c e.entry_type e.amount t),
              parts_of (debited-sides e.entry_type e.amount),
            ))

      net-add_transactions :
          (xs : List (Transaction M)) (t : Changes M)
          → All Plain xs
          → net (add_transactions accounts xs t)
            ≡ net t +ℤ (moved_at "1000" xs +ℤ (moved_at "1050" xs +ℤ moved_at "1050" xs))
      unfolding add_transactions
      net-add_transactions [] t v = omega int_laws
      net-add_transactions (x ∷ xs) t (plain, rest) = omega (
        int_laws,
        parts_of (net-add_transactions xs (add_entries accounts x.entries t) rest),
        parts_of (net-add_entries x.entries t plain.known),
        parts_of plain.balanced,
      )

  -- The same over the transactions of a period.
  abbrev pub moved_within : Ledger M → DateTime → DateTime → String → ℤ
  moved_within l start end number =
      moved_at (list_accounts l) number (list_transactions_by_date start end l)

  module _ ⦃q : Division M⦄ where
    -- If the period's transactions balance and name only accounts that the statement tells apart
    -- (those of the income statement, cash, and 1020 to 1050, 2000 to 2020 and 3000 of the default
    -- chart), then its net change in cash is what they debit to the cash account, less what they
    -- credit, and twice what they debit to accumulated depreciation, less what they credit: it is
    -- right when no depreciation is booked, and each depreciation lowers it twice. The cash at the
    -- end less that at the beginning is that change, and the cash at the end is the balance of the
    -- cash account.
    pub generate_cash_flow_statement_lem :
        (l : Ledger M) (start end : DateTime)
        → All (Plain (list_accounts l)) (list_transactions_by_date start end l)
        → let s = generate_cash_flow_statement l start end in
          (value s.net_change_in_cash
            ≡ moved_within l start end "1000"
              +ℤ (moved_within l start end "1050" +ℤ moved_within l start end "1050"))
          × (value s.ending_cash -ℤ value s.beginning_cash ≡ value s.net_change_in_cash)
          × (value s.ending_cash ≡ value (balance_or_zero (get_account_by_number "1000" l)))
    unfolding generate_cash_flow_statement
    generate_cash_flow_statement_lem l start end v =
        let accounts = list_accounts l in
        let xs = list_transactions_by_date start end l in
        let t = add_transactions accounts xs no_changes in
        let b = balance_or_zero (get_account_by_number "1000" l) in
        (
          omega (
            int_laws,
            parts_of (value-net_change t),
            parts_of (net-add_transactions accounts xs no_changes v),
            zero_parts d,
          ),
          omega (int_laws, add_parts (d.sub b (net_change t)) (net_change t)),
          omega (
            int_laws,
            add_parts (d.sub b (net_change t)) (net_change t),
            sub_parts b (net_change t),
          ),
        )
