-- ===== src/Financial/Accounts.antt =====
-- The chart of accounts: types, normal balances and the balance update
-- (RichdaleAccounting/nexus-core/src/database/financial.rs). Times and ids are numbers, which the
-- program takes from `chrono` and `uuid` and only compares.
use rich_aim_acct_inv.Prelude.{ℕ, Bool, true, false, Option, none, some, String}
use rich_aim_acct_inv.Money.{Decimal}

abbrev pub Uuid : Type 0
Uuid = ℕ

abbrev pub DateTime : Type 0
DateTime = ℕ

abbrev pub NaiveDate : Type 0
NaiveDate = ℕ

pub data AccountType : Type 0 where
  asset liability equity revenue expense : AccountType

pub data BalanceType : Type 0 where
  debit credit : BalanceType

pub data EntryType : Type 0 where
  debit credit : EntryType

-- `AccountType::normal_balance`
abbrev pub type_normal_balance : AccountType → BalanceType
type_normal_balance AccountType.asset = BalanceType.debit
type_normal_balance AccountType.expense = BalanceType.debit
type_normal_balance AccountType.liability = BalanceType.credit
type_normal_balance AccountType.equity = BalanceType.credit
type_normal_balance AccountType.revenue = BalanceType.credit

abbrev pub is_debit_normal : AccountType → Bool
is_debit_normal AccountType.asset = true
is_debit_normal AccountType.expense = true
is_debit_normal AccountType.liability = false
is_debit_normal AccountType.equity = false
is_debit_normal AccountType.revenue = false

pub data AccountStatus : Type 0 where
  active inactive frozen closed : AccountStatus

pub record BankAccountDetails : Type 0 where
  pub bank_name : String
  pub account_number : String
  pub routing_number : String
  pub address : String
  pub phone : String
  pub website : String
  pub account_holder : String
  pub account_type : String
  pub currency : String

pub record Account (M : Type 0) : Type 0 where
  pub id : Uuid
  pub number : String
  pub name : String
  pub description : String
  pub account_type : AccountType
  pub parent_id : Option Uuid
  pub status : AccountStatus
  pub balance : M
  pub currency : String
  pub is_bank_account : Bool
  pub bank_details : Option BankAccountDetails
  pub is_reconciled : Bool
  pub last_reconciled : Option DateTime
  pub created_at : DateTime
  pub updated_at : DateTime

-- `AccountStatus::Active` is the only status that takes postings.
abbrev pub status_is_active : AccountStatus → Bool
status_is_active AccountStatus.active = true
status_is_active _ = false

-- `Account::is_active`
abbrev pub is_active : {M : Type 0} → Account M → Bool
is_active a = status_is_active a.status

-- `Account::normal_balance`
abbrev pub normal_balance : {M : Type 0} → Account M → BalanceType
normal_balance a = type_normal_balance a.account_type

module _ {M : Type 0} ⦃d : Decimal M⦄ where
  open d use {dec_0, dec_1, dec_neg_1, add, mul}

  -- `Account::new`, over the fresh id and the time that `Default` draws.
  unfoldable pub new_account : Uuid → DateTime → String → String → AccountType → Account M
  new_account id now number name account_type = record {
    id = id;
    number = number;
    name = name;
    description = "";
    account_type = account_type;
    parent_id = none;
    status = AccountStatus.active;
    balance = dec_0;
    currency = "USD";
    is_bank_account = false;
    bank_details = none;
    is_reconciled = false;
    last_reconciled = none;
    created_at = now;
    updated_at = now;
  }

  -- `Account::new_bank_account`
  unfoldable pub new_bank_account :
      Uuid → DateTime → String → String → BankAccountDetails → Account M
  unfolding new_account
  new_bank_account id now number name details =
      let base : Account M = new_account id now number name AccountType.asset in
      record base { is_bank_account = true; bank_details = some details }

  abbrev pub multiplier : BalanceType → EntryType → M
  multiplier BalanceType.debit EntryType.debit = dec_1
  multiplier BalanceType.debit EntryType.credit = dec_neg_1
  multiplier BalanceType.credit EntryType.debit = dec_neg_1
  multiplier BalanceType.credit EntryType.credit = dec_1

  -- `Account::update_balance`
  unfoldable pub update_balance : DateTime → M → EntryType → Account M → Account M
  update_balance now amount entry_type a = record a {
    balance = add a.balance (mul (multiplier (normal_balance a) entry_type) amount);
    updated_at = now;
  }
