-- ===== src/Financial/Entries.antt =====
-- Transaction entries, transactions and journal entries
-- (RichdaleAccounting/nexus-core/src/database/financial.rs). A transaction's JSON `metadata` is
-- left out: nothing in the ledger reads it.
use rich_aim_acct_inv.Prelude.{
  Bool, true, false, Option, none, some, List, [], ◌∷◌, ◌++◌, map, filter, not, String, Result, ok,
  err, if◌then◌else◌,
}
use rich_aim_acct_inv.Money.{Decimal, dec_eq, sum}
use rich_aim_acct_inv.Financial.Accounts.{Uuid, DateTime, NaiveDate, EntryType}

pub record TransactionEntry (M : Type 0) : Type 0 where
  pub id : Uuid
  pub account_id : Uuid
  pub entry_type : EntryType
  pub amount : M
  pub description : String
  pub reference : Option String
  pub currency : String
  pub exchange_rate : Option M
  pub base_currency_amount : Option M

-- `TransactionEntry::new`, over the fresh id that `Default` draws.
unfoldable pub new_entry : {M : Type 0} → Uuid → Uuid → EntryType → M → String → TransactionEntry M
new_entry id account_id entry_type amount description = record {
  id = id;
  account_id = account_id;
  entry_type = entry_type;
  amount = amount;
  description = description;
  reference = none;
  currency = "USD";
  exchange_rate = none;
  base_currency_amount = none;
}

abbrev pub entry_type_is_debit : EntryType → Bool
entry_type_is_debit EntryType.debit = true
entry_type_is_debit EntryType.credit = false

-- `TransactionEntry::is_debit`
abbrev pub is_debit : {M : Type 0} → TransactionEntry M → Bool
is_debit e = entry_type_is_debit e.entry_type

-- `TransactionEntry::is_credit`
abbrev pub is_credit : {M : Type 0} → TransactionEntry M → Bool
is_credit e = not (entry_type_is_debit e.entry_type)

pub data TransactionType : Type 0 where
  invoice payment expense transfer journal_entry adjustment reconciliation other : TransactionType

pub data TransactionStatus : Type 0 where
  draft pending posted reconciled voided error : TransactionStatus

pub record Transaction (M : Type 0) : Type 0 where
  pub id : Uuid
  pub number : String
  pub description : String
  pub date : DateTime
  pub transaction_type : TransactionType
  pub status : TransactionStatus
  pub entries : List (TransactionEntry M)
  pub journal_entry_id : Option Uuid
  pub document_ids : List String
  pub created_at : DateTime
  pub updated_at : DateTime

-- `Transaction::new`, over the fresh id and the time that `Default` draws.
unfoldable pub new_transaction :
    {M : Type 0} → Uuid → DateTime → String → DateTime → List (TransactionEntry M) → Transaction M
new_transaction id now description date entries = record {
  id = id;
  number = "";
  description = description;
  date = date;
  transaction_type = TransactionType.other;
  status = TransactionStatus.draft;
  entries = entries;
  journal_entry_id = none;
  document_ids = [];
  created_at = now;
  updated_at = now;
}

pub record JournalEntry (M : Type 0) : Type 0 where
  pub id : Uuid
  pub number : String
  pub date : NaiveDate
  pub description : String
  pub reference : Option String
  pub entries : List (TransactionEntry M)
  pub is_posted : Bool
  pub posted_at : Option DateTime
  pub is_reconciled : Bool
  pub created_at : DateTime
  pub updated_at : DateTime

-- `JournalEntry::new`
unfoldable pub new_journal_entry :
    {M : Type 0} → Uuid → DateTime → String → NaiveDate → JournalEntry M
new_journal_entry id now description date = record {
  id = id;
  number = "";
  date = date;
  description = description;
  reference = none;
  entries = [];
  is_posted = false;
  posted_at = none;
  is_reconciled = false;
  created_at = now;
  updated_at = now;
}

-- `JournalEntry::add_entry`
unfoldable pub add_entry : {M : Type 0} → TransactionEntry M → JournalEntry M → JournalEntry M
add_entry e j = record j { entries = j.entries ++ e ∷ [] }

-- `Transaction::add_document_id`
unfoldable pub add_document_id : {M : Type 0} → String → Transaction M → Transaction M
add_document_id document_id t = record t { document_ids = t.document_ids ++ document_id ∷ [] }

-- `Transaction::account_ids`
unfoldable pub account_ids : {M : Type 0} → Transaction M → List Uuid
account_ids t = map (λ e. e.account_id) t.entries

-- `JournalEntry::unpost`
unfoldable pub unpost : {M : Type 0} → JournalEntry M → JournalEntry M
unpost j = record j { is_posted = false; posted_at = none }

module _ {M : Type 0} ⦃d : Decimal M⦄ where
  open d use {dec_0, add}

  -- The loop of `is_balanced`, over `total_debits` and `total_credits`.
  unfoldable pub balance_loop : List (TransactionEntry M) → M → M → Bool
  balance_loop [] total_debits total_credits = dec_eq total_debits total_credits
  balance_loop (e ∷ es) total_debits total_credits =
      balance_loop es (if is_debit e then add total_debits e.amount else total_debits)
        (if is_debit e then total_credits else add total_credits e.amount)

  -- `Transaction::is_balanced`
  unfoldable pub transaction_is_balanced : Transaction M → Bool
  transaction_is_balanced t = balance_loop t.entries dec_0 dec_0

  -- `Transaction::total_amount`
  unfoldable pub total_amount : Transaction M → M
  total_amount t = sum (map (λ e. e.amount) (filter is_debit t.entries))

  -- `JournalEntry::total_debits`
  unfoldable pub total_debits : JournalEntry M → M
  total_debits j = sum (map (λ e. e.amount) (filter is_debit j.entries))

  -- `JournalEntry::total_credits`
  unfoldable pub total_credits : JournalEntry M → M
  total_credits j = sum (map (λ e. e.amount) (filter is_credit j.entries))

  -- `JournalEntry::is_balanced`
  unfoldable pub journal_is_balanced : JournalEntry M → Bool
  journal_is_balanced j = balance_loop j.entries dec_0 dec_0

  -- `JournalEntry::post`
  unfoldable pub post : DateTime → JournalEntry M → Result String (JournalEntry M)
  post now j =
      if journal_is_balanced j
      then ok (record j { is_posted = true; posted_at = some now })
      else err "Journal entry is not balanced"
