-- ===== src/Payroll/Staff.antt =====
-- Setting the processor up, and the calls on employees and their time
-- (RichdaleAccounting/nexus-core/src/accounting/payroll.rs).
use Prim.Native.String.{◌++◌ as concat}
use rich_aim_acct_inv.Prelude.{
  ◌==◌, Bool, ◌&&◌, not, leb, if◌then◌else◌, Option, none, some, List, [], ◌∷◌, String, str_eq, ok,
  err, find, filter,
}
use rich_aim_acct_inv.Prelude.OrdMap.{get?, insert, remove, values}
use rich_aim_acct_inv.Prelude.State.{◌>>◌, pure}
use rich_aim_acct_inv.Money.{Decimal}
use rich_aim_acct_inv.Financial.{Uuid, NaiveDate, AccountType, new_account}
use rich_aim_acct_inv.Ledger.{Outside, after_draws, is_some, get_account_by_number, create_account}
use rich_aim_acct_inv.Payroll.Defs.{
  Employee, PayPeriod, PayPeriodStatus, PayrollError, PayrollProcessor, TimeEntry, Method, Calendar,
}

abbrev pub payroll_accounts : List (String × String)
payroll_accounts =
    ("2030", "Federal Tax Payable")
    ∷ ("2040", "State Tax Payable")
    ∷ ("2050", "Social Security Payable")
    ∷ ("2060", "Medicare Payable")
    ∷ ("2070", "Retirement Payable")
    ∷ []

module _ {M : Type 0} ⦃d : Decimal M⦄ where
  -- One round of the loop: the account is created unless its number is in use.
  unfoldable pub ensure_account : Outside → String → String → Method M (Unit {0})
  ensure_account o number name p = elim p.ledger [
    | none ↦ (ok tt, p)
    | some l ↦
        let (r, l') =
          create_account o.now (new_account (o.fresh 0) o.now number name AccountType.liability)
            l in
        if is_some (get_account_by_number number l) then (ok tt, p) else elim r [
          | ok _ ↦ (ok tt, record p { ledger = some l' })
          | err e ↦ (err (PayrollError.account_refused number e), record p { ledger = some l' })
        ]
  ]

  unfoldable pub ensure_accounts : Outside → List (String × String) → Method M (Unit {0})
  unfolding ensure_account
  ensure_accounts o [] = pure tt
  ensure_accounts o ((number, name) ∷ rest) =
      ensure_account o number name >> ensure_accounts (after_draws 1 o) rest

  unfoldable pub ensure_payroll_accounts : Outside → Method M (Unit {0})
  unfolding ensure_accounts
  ensure_payroll_accounts o = ensure_accounts o payroll_accounts

  unfoldable pub create_current_pay_period : Calendar → Outside → Method M (Unit {0})
  create_current_pay_period cal o p =
      let today : NaiveDate = o.date_naive o.now in
      let period : PayPeriod = record {
        id = o.fresh 0;
        start_date = cal.days_before 14 today;
        end_date = today;
        pay_date = cal.days_after 5 today;
        period_number = 1;
        year = cal.year_of today;
        status = PayPeriodStatus.open_period;
      } in
      (
        ok tt,
        record p {
          pay_periods = insert period.id period p.pay_periods;
          current_pay_period = some period;
        },
      )

  -- `PayrollProcessor::initialize`
  unfoldable pub initialize : Calendar → Outside → Method M (Unit {0})
  unfolding create_current_pay_period ensure_payroll_accounts
  initialize cal o = create_current_pay_period cal o >> ensure_payroll_accounts (after_draws 1 o)

module _ {M : Type 0} where
  -- `employees.values().any(|e| e.number == number)`
  unfoldable pub number_in_use : String → List (Employee M) → Bool
  number_in_use number es = is_some (find (λ e. str_eq e.number number) es)

  unfoldable pub create_employee : Outside → Employee M → Method M (Employee M)
  unfolding number_in_use
  create_employee o e p =
      let e' : Employee M = record e { created_at = o.now; updated_at = o.now } in
      if number_in_use e.number (values p.employees)
      then (
        err (PayrollError.other (concat "Employee number " (concat e.number " already exists"))),
        p,
      )
      else (ok e', record p { employees = insert e.id e' p.employees })

  unfoldable pub get_employee : Uuid → PayrollProcessor M → Option (Employee M)
  get_employee id p = get? id p.employees

  unfoldable pub get_employee_by_number : String → PayrollProcessor M → Option (Employee M)
  get_employee_by_number number p = find (λ e. str_eq e.number number) (values p.employees)

  unfoldable pub list_employees : PayrollProcessor M → List (Employee M)
  list_employees p = values p.employees

  unfoldable pub update_employee : Outside → Uuid → Employee M → Method M (Employee M)
  update_employee o id e p =
      let e' : Employee M = record e { updated_at = o.now } in
      if not (e.id == id)
      then (err (PayrollError.other "Employee ID mismatch"), p)
      else if not (is_some (get? id p.employees))
      then (err (PayrollError.employee_not_found id), p)
      else (ok e', record p { employees = insert id e' p.employees })

  unfoldable pub delete_employee : Uuid → Method M Bool
  delete_employee id p =
      (ok (is_some (get? id p.employees)), record p { employees = remove id p.employees })

  unfoldable pub record_time : TimeEntry M → Method M (TimeEntry M)
  record_time t p =
      if not (is_some (get? t.employee_id p.employees))
      then (err (PayrollError.employee_not_found t.employee_id), p)
      else (ok t, record p { time_entries = insert t.id t p.time_entries })

  unfoldable pub get_time_entries :
      Uuid → NaiveDate → NaiveDate → PayrollProcessor M → List (TimeEntry M)
  get_time_entries employee_id start_date end_date p =
      filter (λ t. (t.employee_id == employee_id) && (leb start_date t.date && leb t.date end_date))
        (values p.time_entries)
