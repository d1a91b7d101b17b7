-- ===== src/Ledger/Chart.antt =====
-- The methods on the chart of accounts (RichdaleAccounting/nexus-core/src/accounting/ledger.rs).
use Prim.Native.String.{◌++◌ as concat}
use rich_aim_acct_inv.Prelude.{
  ℕ, suc, ◌==◌, Bool, true, false, Option, none, some, List, [], ◌∷◌, String, str_eq, not, find,
  filter, ok, err, if◌then◌else◌,
}
use rich_aim_acct_inv.Prelude.OrdMap.{OrdMap, get?, insert, remove, values}
use rich_aim_acct_inv.Prelude.State.{◌>>◌, pure}
use rich_aim_acct_inv.Money.{Decimal}
use rich_aim_acct_inv.Financial.{Uuid, DateTime, AccountType, Account, new_account}
use rich_aim_acct_inv.Ledger.Defs.{Outside, Ledger, account_not_found, other, Method}

abbrev pub is_some {ℓ} : {A : Type ℓ} → Option A → Bool
is_some none = false
is_some (some _) = true

abbrev pub type_eq : AccountType → AccountType → Bool
type_eq AccountType.asset AccountType.asset = true
type_eq AccountType.liability AccountType.liability = true
type_eq AccountType.equity AccountType.equity = true
type_eq AccountType.revenue AccountType.revenue = true
type_eq AccountType.expense AccountType.expense = true
type_eq _ _ = false

module _ {M : Type 0} where
  -- `accounts.values().any(|a| a.number == number)`
  unfoldable pub number_is_taken : String → OrdMap (Account M) → Bool
  number_is_taken number [] = false
  number_is_taken number ((_, a) ∷ m) =
      if str_eq a.number number then true else number_is_taken number m

  unfoldable pub get_account : Uuid → Ledger M → Option (Account M)
  get_account id l = get? id l.accounts

  -- The first account in the order of the ids that has the number.
  unfoldable pub get_account_by_number : String → Ledger M → Option (Account M)
  get_account_by_number number l = find (λ a. str_eq a.number number) (values l.accounts)

  unfoldable pub list_accounts : Ledger M → List (Account M)
  list_accounts l = values l.accounts

  unfoldable pub list_accounts_by_type : AccountType → Ledger M → List (Account M)
  list_accounts_by_type account_type l =
      filter (λ a. type_eq a.account_type account_type) (values l.accounts)

  unfoldable pub create_account : DateTime → Account M → Method M (Account M)
  unfolding number_is_taken
  create_account now account l =
      if number_is_taken account.number l.accounts
      then (err (other (concat "Account number " (concat account.number " already exists"))), l)
      else let stamped : Account M = record account { created_at = now; updated_at = now } in
        (ok stamped, record l { accounts = insert account.id stamped l.accounts })

  unfoldable pub update_account : DateTime → Uuid → Account M → Method M (Account M)
  update_account now id account l =
      if not (account.id == id)
      then (err (other "Account ID mismatch"), l)
      else if not (is_some (get? id l.accounts))
      then (err (account_not_found id), l)
      else let stamped : Account M = record account { updated_at = now } in
        (ok stamped, record l { accounts = insert id stamped l.accounts })

  -- `remove(&id).is_some()`
  unfoldable pub delete_account : Uuid → Method M Bool
  delete_account id l =
      (ok (is_some (get? id l.accounts)), record l { accounts = remove id l.accounts })

module _ {M : Type 0} ⦃d : Decimal M⦄ where
  -- A run of `create_account(Account::new(..)).await?`, with the i-th fresh id for the i-th account.
  unfoldable pub create_accounts :
      Outside → ℕ → List (String × String × AccountType) → Method M (Unit {0})
  unfolding create_account
  create_accounts o i [] = pure tt
  create_accounts o i ((number, name, account_type) ∷ rest) =
      create_account o.now (new_account (o.fresh i) o.now number name account_type)
      >> create_accounts o (suc i) rest

abbrev pub default_accounts : List (String × String × AccountType)
default_accounts =
    ("1000", "Cash", AccountType.asset)
    ∷ ("1010", "Bank Account", AccountType.asset)
    ∷ ("1020", "Accounts Receivable", AccountType.asset)
    ∷ ("1030", "Inventory", AccountType.asset)
    ∷ ("1040", "Fixed Assets", AccountType.asset)
    ∷ ("1050", "Accumulated Depreciation", AccountType.asset)
    ∷ ("2000", "Accounts Payable", AccountType.liability)
    ∷ ("2010", "Loans Payable", AccountType.liability)
    ∷ ("2020", "Accrued Expenses", AccountType.liability)
    ∷ ("3000", "Owner's Equity", AccountType.equity)
    ∷ ("3010", "Retained Earnings", AccountType.equity)
    ∷ ("4000", "Sales Revenue", AccountType.revenue)
    ∷ ("4010", "Service Revenue", AccountType.revenue)
    ∷ ("4020", "Interest Revenue", AccountType.revenue)
    ∷ ("5000", "Cost of Goods Sold", AccountType.expense)
    ∷ ("5010", "Salaries Expense", AccountType.expense)
    ∷ ("5020", "Rent Expense", AccountType.expense)
    ∷ ("5030", "Utilities Expense", AccountType.expense)
    ∷ ("5040", "Office Supplies Expense", AccountType.expense)
    ∷ ("5050", "Depreciation Expense", AccountType.expense)
    ∷ []

module _ {M : Type 0} ⦃d : Decimal M⦄ where
  unfoldable pub create_default_accounts : Outside → Method M (Unit {0})
  unfolding create_accounts
  create_default_accounts o = create_accounts o 0 default_accounts

  abbrev is_empty : OrdMap (Account M) → Bool
  is_empty [] = true
  is_empty (_ ∷ _) = false

  -- `Ledger::initialize`: a ledger that has accounts is left alone.
  unfoldable pub initialize : Outside → Method M (Unit {0})
  unfolding create_default_accounts
  initialize o l = if is_empty l.accounts then create_default_accounts o l else (ok tt, l)
