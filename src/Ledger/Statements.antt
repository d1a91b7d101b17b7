-- ===== src/Ledger/Statements.antt =====
-- What the balance sheet and the income statement add up to (RichdaleAccounting/nexus-core/src/accounting/ledger.rs).
use rich_aim_acct_inv.Prelude.{◌≡◌, refl, ◌∙◌, List, [], ◌∷◌, map, if◌then◌else◌}
use rich_aim_acct_inv.Prelude.Int.{ℤ, pos, ◌+ℤ◌, ◌-ℤ◌, int_laws, parts_of}
use rich_aim_acct_inv.Prelude.OrdMap.{OrdMap, values}
use rich_aim_acct_inv.Money.{Decimal}
use rich_aim_acct_inv.Financial.{
  AccountType, Account, EntryType, TransactionEntry, Transaction, DateTime,
}
use rich_aim_acct_inv.Ledger.{
  Ledger, sheet_step, sheet_loop, get_balance_sheet, income_step, income_entries, income_loop,
  get_income_statement, get_account, in_range,
}
use rich_aim_acct_inv.Ledger.Equation.{net, side}

-- Revenue balances less expense balances: what has not been closed to equity.
abbrev pub unclosed : AccountType → ℤ → ℤ
unclosed AccountType.asset v = pos 0
unclosed AccountType.liability v = pos 0
unclosed AccountType.equity v = pos 0
unclosed AccountType.revenue v = v
unclosed AccountType.expense v = pos 0 -ℤ v

-- An entry with its side turned round.
abbrev flip_type : EntryType → EntryType
flip_type EntryType.debit = EntryType.credit
flip_type EntryType.credit = EntryType.debit

module _ {M : Type 0} ⦃d : Decimal M⦄ where
  open d use {value, dec_0, add}

  abbrev pub earnings : OrdMap (Account M) → ℤ
  earnings [] = pos 0
  earnings ((_, a) ∷ m) = unclosed a.account_type (value a.balance) +ℤ earnings m

  -- Assets less liabilities and equity.
  abbrev gap : M × M × M → ℤ
  gap (x, y, z) = value x -ℤ (value y +ℤ value z)

  gap-sheet_step :
      (ty : AccountType) (b : M) (sums : M × M × M)
      → gap (sheet_step ty b sums) ≡ gap sums +ℤ (side ty (value b) +ℤ unclosed ty (value b))
  gap-sheet_step AccountType.asset b (x, y, z) = rw (d.value-add x b) (omega int_laws)
  gap-sheet_step AccountType.liability b (x, y, z) = rw (d.value-add y b) (omega int_laws)
  gap-sheet_step AccountType.equity b (x, y, z) = rw (d.value-add z b) (omega int_laws)
  gap-sheet_step AccountType.revenue b (x, y, z) = omega int_laws
  gap-sheet_step AccountType.expense b (x, y, z) = omega int_laws

  gap-sheet_loop :
      (m : OrdMap (Account M)) (sums : M × M × M)
      → gap (sheet_loop (values m) sums) ≡ gap sums +ℤ (net m +ℤ earnings m)
  unfolding sheet_loop
  gap-sheet_loop [] sums = omega int_laws
  gap-sheet_loop ((_, a) ∷ m) sums = omega (
    int_laws,
    parts_of (gap-sheet_loop m (sheet_step a.account_type a.balance sums)),
    parts_of (gap-sheet_step a.account_type a.balance sums),
  )

  -- Total assets exceed total liabilities plus equity by the accounting equation's remainder and the
  -- revenue less expenses that are still in their accounts.
  balance_sheet_gap :
      (l : Ledger M)
      → value (get_balance_sheet l).total_assets
          -ℤ value (get_balance_sheet l).total_liabilities_plus_equity
        ≡ net l.accounts +ℤ earnings l.accounts
  unfolding get_balance_sheet
  balance_sheet_gap l =
      rw (d.value-add _ _)
        (gap-sheet_loop l.accounts (dec_0, dec_0, dec_0) ∙ rw d.value-dec_0 (omega int_laws))

  abbrev pub flip_entry : TransactionEntry M → TransactionEntry M
  flip_entry e = record e { entry_type = flip_type e.entry_type }

  abbrev pub flip_transaction : Transaction M → Transaction M
  flip_transaction t = record t { entries = map flip_entry t.entries }

  -- The ledger whose transactions are all reversed.
  abbrev pub flip_ledger : Ledger M → Ledger M
  flip_ledger l = record l { transactions = map (λ e. (e.0, flip_transaction e.1)) l.transactions }

  income_entries-flip :
      (l : Ledger M) (ts : OrdMap (Transaction M)) (es : List (TransactionEntry M)) (sums : M × M)
      → income_entries (record l { transactions = ts }) (map flip_entry es) sums
        ≡ income_entries l es sums
  unfolding income_entries get_account
  income_entries-flip l ts [] sums = refl
  income_entries-flip l ts (e ∷ es) sums =
      income_entries-flip l ts es (income_step (get_account e.account_id l) e.amount sums)

  income_loop-flip :
      (start end : DateTime) (l : Ledger M) (us ts : OrdMap (Transaction M)) (sums : M × M)
      → income_loop start end
          (record l { transactions = us })
          (values (map (λ e. (e.0, flip_transaction e.1)) ts))
          sums
        ≡ income_loop start end l (values ts) sums
  unfolding income_loop
  income_loop-flip start end l us [] sums = refl
  income_loop-flip start end l us ((k, t) ∷ ts) sums =
      rw (income_entries-flip l us t.entries sums, income_loop)
        (income_loop-flip start end l us ts
          (if in_range start end t then income_entries l t.entries sums else sums))

  -- The income statement does not look at the side of an entry: reversing every transaction of the
  -- ledger, so that each sale becomes a refund and each expense a credit, leaves the statement as it
  -- was.
  get_income_statement-flip :
      (start end : DateTime) (l : Ledger M)
      → get_income_statement start end (flip_ledger l) ≡ get_income_statement start end l
  unfolding get_income_statement
  get_income_statement-flip start end l =
      rw (income_loop-flip start end l (flip_ledger l).transactions l.transactions (dec_0, dec_0))
