-- ===== src/Payroll/Postings.antt =====
-- The transactions that pay slips are booked by
-- (RichdaleAccounting/nexus-core/src/accounting/payroll.rs).
use Prim.Native.String.{◌++◌ as concat}
use rich_aim_acct_inv.Prelude.{if◌then◌else◌, Option, none, some, List, [], ◌∷◌, ◌++◌, String}
use rich_aim_acct_inv.Money.{Decimal, dec_lt}
use rich_aim_acct_inv.Financial.{
  Uuid, Account, EntryType, TransactionEntry, new_entry, Transaction, new_transaction,
}
use rich_aim_acct_inv.Ledger.{Ledger, Outside, after_draws, get_account_by_number}
use rich_aim_acct_inv.Payroll.Defs.{PayrollCalculation, PayrollProcessor}

pub record PayrollAccounts : Type 0 where
  pub salaries_id : Uuid
  pub fed_tax_id : Uuid
  pub state_tax_id : Uuid
  pub local_tax_id : Uuid
  pub ss_id : Uuid
  pub medicare_id : Uuid
  pub retirement_id : Uuid
  pub cash_id : Uuid

module _ {M : Type 0} ⦃d : Decimal M⦄ where
  open d use {dec_0}

  abbrev pub id_or : Uuid → Option (Account M) → Uuid
  id_or placeholder none = placeholder
  id_or placeholder (some a) = a.id

  -- The id of the account with a number, or a fresh one.
  abbrev pub account_id_or : Uuid → String → Option (Ledger M) → Uuid
  account_id_or placeholder number none = placeholder
  account_id_or placeholder number (some l) = id_or placeholder (get_account_by_number number l)

  -- The first eight ids are set aside for the accounts that are missing.
  unfoldable pub payroll_account_ids : Outside → Option (Ledger M) → PayrollAccounts
  payroll_account_ids o l = record {
    salaries_id = account_id_or (o.fresh 0) "5010" l;
    fed_tax_id = account_id_or (o.fresh 1) "2030" l;
    state_tax_id = account_id_or (o.fresh 2) "2040" l;
    local_tax_id = account_id_or (o.fresh 3) "2020" l;
    ss_id = account_id_or (o.fresh 4) "2050" l;
    medicare_id = account_id_or (o.fresh 5) "2060" l;
    retirement_id = account_id_or (o.fresh 6) "2070" l;
    cash_id = account_id_or (o.fresh 7) "1000" l;
  }

  -- A withheld amount is credited if it is positive.
  unfoldable pub withheld : Uuid → Uuid → M → String → List (TransactionEntry M)
  withheld id account_id amount description =
      if dec_lt dec_0 amount
      then new_entry id account_id EntryType.credit amount description ∷ []
      else []

  module _ (shown : Uuid → String) where
    abbrev pub for_employee : String → PayrollCalculation M → String
    for_employee what c = concat what (concat " for employee " (shown c.employee_id))

    -- The entries of one pay slip; nine ids are set aside for a slip.
    unfoldable pub payroll_entries :
        Outside → PayrollAccounts → PayrollCalculation M → List (TransactionEntry M)
    payroll_entries o a c =
        new_entry (o.fresh 0) a.salaries_id EntryType.debit c.gross_pay (for_employee "Gross pay" c)
        ∷ (withheld (o.fresh 1) a.fed_tax_id c.federal_tax (for_employee "Federal tax" c)
            ++ (withheld (o.fresh 2) a.state_tax_id c.state_tax (for_employee "State tax" c)
                ++ (withheld (o.fresh 3) a.local_tax_id c.local_tax (for_employee "Local tax" c)
                    ++ (withheld (o.fresh 4) a.ss_id c.social_security
                          (for_employee "Social security" c)
                        ++ (withheld (o.fresh 5) a.medicare_id c.medicare
                              (for_employee "Medicare" c)
                            ++ (withheld (o.fresh 6) a.retirement_id c.retirement
                                  (for_employee "Retirement" c)
                                ++ new_entry (o.fresh 7) a.cash_id EntryType.credit c.net_pay
                                    (for_employee "Net pay" c)
                                  ∷ []))))))

    unfoldable pub payroll_transaction :
        Outside → PayrollAccounts → Uuid → PayrollCalculation M → Transaction M
    unfolding payroll_entries
    payroll_transaction o a pay_period_id c =
        new_transaction (o.fresh 8) o.now
          (concat "Payroll for employee "
            (concat (shown c.employee_id) (concat " - Period " (shown pay_period_id))))
          o.now (payroll_entries o a c)

    -- The loop over the pay slips.
    unfoldable pub payroll_transactions :
        Outside → PayrollAccounts → Uuid → List (PayrollCalculation M) → List (Transaction M)
    unfolding payroll_transaction
    payroll_transactions o a pay_period_id [] = []
    payroll_transactions o a pay_period_id (c ∷ cs) =
        payroll_transaction o a pay_period_id c
        ∷ payroll_transactions (after_draws 9 o) a pay_period_id cs

    -- It cannot fail, and changes nothing.
    unfoldable pub generate_payroll_transactions :
        Outside → Uuid → List (PayrollCalculation M) → PayrollProcessor M → List (Transaction M)
    unfolding payroll_account_ids payroll_transactions
    generate_payroll_transactions o pay_period_id cs p =
        payroll_transactions (after_draws 8 o) (payroll_account_ids o p.ledger) pay_period_id cs
