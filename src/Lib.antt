-- ===== src/Lib.antt =====
-- NexusLedger: a verification library for the accounting core of RichdaleAccounting/nexus-core (Rust).
--
-- The program keeps double-entry books. A ledger holds accounts, transactions and journal entries; the
-- processors for accounts payable, invoices and fixed assets keep their own documents and post to the
-- ledger; budgets are compared with it, and a cash flow statement is drawn from it; the tax calculator and
-- the payroll processor compute what is due and what is paid; the reconciliation processor matches bank
-- statements with booked transactions; an orchestrator hands tasks to agents, which call the processors.
-- On an edge device, versions of a record that differ from the server's are conflicts, which are logged
-- and resolved, blobs are compressed, and sensitive fields are encrypted. The modules here follow that:
--
--   Prelude     what all modules share: tests on numbers, lists, results, integers, maps ordered by
--               number (OrdMap) or keyed by text (StrMap), methods over a state, and the printing of
--               numbers with eight digits.
--   Money       rust_decimal::Decimal, as interfaces: Decimal, Division and Rates. Money.Fixed has decimals
--               with four digits, with which the tests compute.
--   Financial   src/database/financial.rs: accounts, entries, transactions and journal entries.
--   Ledger      src/accounting/ledger.rs: Ledger.Chart (create_account and the other calls on
--               accounts), Ledger.Posting (validate_transaction, record_transaction and what it calls),
--               Ledger.Reports (trial balance, balance sheet, income statement).
--   Ap          src/accounting/ap.rs: ApProcessor, with Ap.Entering, Ap.Paying and Ap.Voiding for
--               enter_bill, pay_bill and pay_bill_partial, and void_bill. Ap.Calls has every call as one type.
--   Invoices    src/accounting/invoice.rs: InvoiceProcessor, with Invoices.Creating for create_invoice and
--               Invoices.Paying for process_payment and cancel_invoice. Invoices.Cases has every call.
--   Assets      src/accounting/assets.rs: FixedAsset and AssetManager, with Assets.Depreciating for
--               post_depreciation and Assets.Disposing for dispose_asset.
--   Budgets     src/accounting/budget.rs: BudgetManager, whose generate_variance_report reads the ledger.
--   CashFlow    src/accounting/cashflow.rs: generate_cash_flow_statement, which reads the ledger.
--   Taxes       src/accounting/tax.rs: TaxCalculator, with Taxes.Jurisdictions for the jurisdictions and
--               calculate_tax, and Taxes.Filings for the filings.
--   Payroll     src/accounting/payroll.rs: PayrollProcessor, with Payroll.Staff for employees and their time,
--               Payroll.Pay for calculate_payroll and process_payroll, and Payroll.Postings for
--               generate_payroll_transactions.
--   Reconciliations  src/accounting/reconciliation.rs: ReconciliationProcessor in
--               Reconciliations.Processor, match_transactions in Reconciliations.Matching, and the
--               texts that it compares in Reconciliations.Words.
--   Conflicts   src/edge/conflict.rs: ConflictResolver, with Conflicts.Log for what reads and writes the
--               table conflict_log, Conflicts.Names for the texts in it, and Conflicts.Resolving for
--               resolve_conflict and the other ways to resolve.
--   Compression src/edge/compression.rs: compress_blob and decompress_blob, over lz4 and a checksum.
--   Encryption  src/edge/encryption.rs: blobs, the wrapping of keys and change_password in
--               Encryption.Defs, and FieldEncryptor in Encryption.Fields.
--   Agents      src/agents/task.rs, agent_types.rs, status.rs and orchestrator.rs: Agents.Tasks,
--               Agents.Status, Agents.Orchestrator (agents coming and going, submit_task) and
--               Agents.Dispatch (process_next_task and what it calls, and the inner loop of start).
--
-- Paths are under RichdaleAccounting/nexus-core. In each of these the modules with definitions carry the
-- source's names, and the other modules prove something about them.
--
-- How the code is read. A method on a shared object is a function from the object to a Result and the
-- object after the call, with what was written before an error kept. Each method is one step: the locks
-- that it takes are held by nobody else meanwhile. Ledger, processors and orchestrator are records with
-- the fields of the source; a BTreeMap is a list ordered by key, and so is a HashMap, whose own order of
-- iteration is not fixed by the source. A Uuid is a number, and so are times and dates: the program
-- compares them and passes them on. The ids and the time that a call draws are its argument, the record
-- Outside; the ids of one call are numbered in the order of the draws. Where an error message prints an
-- id, a status or another error, the model's error carries it instead of the text.
--
-- Decimals are a parameter: a type with the operations that the program calls and a number for each
-- value, in units of 10^-28. Its laws state that sums and differences are exact, as rust_decimal's are
-- while a result fits 96 bits and 28 digits, and that comparisons compare the numbers. Products are exact
-- for the factors 1 and -1, which is all that the ledger uses. Where rates are applied, Rates gives the
-- source's literals, and states that a product with zero is zero and that a product with a factor that is
-- not negative is monotone, as a rounded product is; other products, and the quotients that depreciation
-- takes, are opaque. The integers and the decimals of Money.Fixed are instances.
--
-- What the code takes from elsewhere is a parameter: the dates of a calendar (Payroll), lower case by
-- Unicode's tables and the date of a time (Reconciliations.Matching), JSON and the text of times (the
-- Codec of Conflicts, which reads back the JSON of values nested less than 128 deep and without floats,
-- and times whose years have four digits). The table conflict_log is the list of its rows in
-- the order of their ids; each SQL statement is the function that it denotes, and SQLite is taken to
-- answer every one. Jurisdictions by code are a map keyed by text. Compression takes lz4 and the checksum as
-- Codecs, and Encryption takes the cipher, the derivation of keys, UTF-8 and JSON as Primitives, whose laws
-- say that what is encrypted is decrypted again under the same key and nonce, and that JSON is read back
-- within the same limits; nothing is assumed of other keys. Bytes are numbers, and random bytes are arguments.
--
-- The counters of transactions, journal entries and invoices are u64 and do not wrap here; nothing short
-- of 2^64 calls would tell the difference. The one loop that is not structural is the inner loop of the
-- orchestrator's start, which runs on fuel: one round of fuel for each attempt that the queued tasks have
-- left, and one more, while an agent is available.
--
-- Not modelled: persistence to SurrealDB, which only copies what is in memory and whose failures are
-- logged; the agents' wrappers that parse JSON task payloads; JSON metadata; floats (processing times,
-- health scores and ratios); what the agents do with a task, which is a parameter of the dispatch; the
-- reports of accounting/reporting.rs; receipts and exchange rates; applying a resolved conflict to the local store; and
-- the api, ai, audit, monitor and utils directories and the rest of edge.
pub mod Prelude
pub mod Money
pub mod Financial
pub mod Ledger
pub mod Ap
pub mod Invoices
pub mod Assets
pub mod Budgets
pub mod CashFlow
pub mod Taxes
pub mod Payroll
pub mod Reconciliations
pub mod Conflicts
pub mod Compression
pub mod Encryption
pub mod Agents
