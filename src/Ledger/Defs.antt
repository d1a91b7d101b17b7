-- ===== src/Ledger/Defs.antt =====
-- The state and the errors of the ledger (RichdaleAccounting/nexus-core/src/accounting/ledger.rs).
-- Each method is one step: the locks it takes are held by nobody else meanwhile. Persistence to
-- SurrealDB is left out: it only reads, and a failure there is logged and forgotten.
use rich_aim_acct_inv.Prelude.{ℕ, ◌+◌, String, []}
use rich_aim_acct_inv.Prelude.OrdMap.{OrdMap}
use rich_aim_acct_inv.Prelude.State.{Action}
use rich_aim_acct_inv.Financial.{Uuid, DateTime, NaiveDate, Account, Transaction, JournalEntry}

-- What a call takes from `chrono` and `uuid`: the time, the ids that it draws in turn, and the
-- calendar.
pub record Outside : Type 0 where
  pub now : DateTime
  pub fresh : ℕ → Uuid
  pub date_naive : DateTime → NaiveDate

-- An id stands for the text that the message prints of it.
pub data LedgerError : Type 0 where
  account_not_found : Uuid → LedgerError
  unbalanced_transaction : LedgerError
  invalid_account_type insufficient_funds account_inactive : String → LedgerError
  journal_entry_error database_error other : String → LedgerError

pub record Ledger (M : Type 0) : Type 0 where
  pub accounts : OrdMap (Account M)
  pub transactions : OrdMap (Transaction M)
  pub journal_entries : OrdMap (JournalEntry M)
  pub current_journal_number : ℕ
  pub current_transaction_number : ℕ

-- `Ledger::new`
abbrev pub new_ledger : {M : Type 0} → Ledger M
new_ledger = record {
  accounts = [];
  transactions = [];
  journal_entries = [];
  current_journal_number = 1;
  current_transaction_number = 1;
}

abbrev pub Method : Type 0 → Type 0 → Type 0
Method M A = Action (Ledger M) LedgerError A

-- The same outside, with the first `n` ids drawn.
abbrev pub after_draws : ℕ → Outside → Outside
after_draws n o = record o { fresh = λ i. o.fresh (n + i) }
