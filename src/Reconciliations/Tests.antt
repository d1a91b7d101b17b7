-- ===== src/Reconciliations/Tests.antt =====
-- A small statement against a small book (RichdaleAccounting/nexus-core/src/accounting/reconciliation.rs).
use rich_aim_acct_inv.Prelude.{
  ℕ, ◌≡◌, ◌*◌, refl, false, not, none, List, [], ◌∷◌, All, filter, String, ok, some, arith, ◌⊎◌,
  ◌+◌, true, err,
}
use rich_aim_acct_inv.Prelude.Int.{pos, ◌+ℤ◌, ◌-ℤ◌}
use rich_aim_acct_inv.Money.Fixed.{
  Fixed, units, literal_units, fixed_decimal, fixed_rates, fixed_division,
}
use rich_aim_acct_inv.Financial.{
  Uuid, EntryType, Transaction, new_entry, new_transaction, total_amount,
}
use rich_aim_acct_inv.Reconciliations.{
  Reading, StatementTransaction, StatementTransactionType, contains, match_transactions,
  matched_ids, match_lines, best_match, pair_score, amount_points, amount_diff, text_points,
  reference_points, date_points, split_whitespace, ReconciliationProcessor, new_reconciliation,
  Reconciliation, new_processor, reconcile_account, get_reconciliation,
  mark_transaction_unreconciled, mark_transaction_reconciled, ReconciliationError,
}
use rich_aim_acct_inv.Reconciliations.Assignment.{
  Assigned, Distinct, match_transactions-Assigned, match_transactions_once,
}
use rich_aim_acct_inv.Reconciliations.Scores.{Scored, match_transactions-scores}
use rich_aim_acct_inv.Prelude.OrdMap.{get?}
use rich_aim_acct_inv.Money.{sum}
use rich_aim_acct_inv.Ledger.{Outside}
use rich_aim_acct_inv.Reconciliations.Marks.{IsMarked, SameMarks, Disjoint, mark-roundtrip}
use rich_aim_acct_inv.Reconciliations.Accounts.{Settled, result, is_taken, reconcile_account_lem}

abbrev cents : ℕ → Fixed
cents n = units (pos (n * 100))

-- Texts in lower case, for which nothing is to be done.
abbrev reading : Reading
reading = record { to_lowercase = λ s. s; date_naive = λ t. t }

abbrev line : String → ℕ → StatementTransaction Fixed
line description amount = record {
  date = 5;
  description = description;
  amount = cents amount;
  transaction_type = StatementTransactionType.debit;
  reference = "";
  is_matched = false;
  matched_transaction_id = none;
  match_score = none;
}

abbrev booked : Uuid → String → ℕ → Transaction Fixed
booked id description amount =
    new_transaction id 5 description 6 (new_entry 90 3 EntryType.debit (cents amount) "" ∷ [])

-- Two coffees of the same price, and rent that is a cent off.
abbrev statement : List (StatementTransaction Fixed)
statement = line "coffee" 300 ∷ line "coffee shop" 300 ∷ line "rent" 10001 ∷ line "gift" 777 ∷ []

abbrev book : List (Transaction Fixed)
book = booked 11 "rent" 10000 ∷ booked 12 "coffee shop" 300 ∷ booked 13 "other" 300 ∷ []

-- The coffee takes the shop's transaction, which has a word in common; the shop's line gets the
-- other one, whose description has nothing to do with it.
matched : matched_ids (match_transactions reading statement book).0 ≡ 12 ∷ 13 ∷ 11 ∷ []
unfolding match_transactions match_lines best_match pair_score amount_points amount_diff text_points
    reference_points date_points split_whitespace new_transaction new_entry total_amount sum
    literal_units ◌+ℤ◌ ◌-ℤ◌
matched = refl

match_transactions-Assigned_example :
    (all : List Uuid) × Assigned reading book [] statement
      (match_transactions reading statement book).0
      (match_transactions reading statement book).1
      all
match_transactions-Assigned_example = match_transactions-Assigned reading book statement

match_transactions_once_example :
    Distinct (matched_ids (match_transactions reading statement book).0)
    × ((match_transactions reading statement book).2
        ≡ filter
            (λ b. not (contains (matched_ids (match_transactions reading statement book).0) b.id))
            book)
match_transactions_once_example = match_transactions_once reading book statement

match_transactions-scores_example :
    All (λ s. Scored s.match_score) (match_transactions reading statement book).0
match_transactions-scores_example = match_transactions-scores reading statement book

abbrev outside : Outside
outside = record { now = 9; fresh = λ i. 50 + i; date_naive = λ t. t }

abbrev june : Reconciliation Fixed
june = record (new_reconciliation outside 3 6 (cents 0) (cents 10601)) {
  reconciled_transactions = 12 ∷ [];
  outstanding_transactions = 11 ∷ 13 ∷ [];
}

abbrev desk : ReconciliationProcessor Fixed
desk = record { reconciliations = (50, june) ∷ []; reconciliations_by_account = (3, 50 ∷ []) ∷ [] }

june_stored : get? 50 desk.reconciliations ≡ some june
unfolding get?
june_stored = refl

june_own : june.id ≡ 50
unfolding new_reconciliation
june_own = refl

mark-roundtrip_example :
    (r1 : Reconciliation Fixed) × (r2 : Reconciliation Fixed) × (get_reconciliation 50
        (mark_transaction_reconciled 50 13 desk).1
      ≡ some r1)
    × IsMarked 13 june r1
    × (get_reconciliation 50
          (mark_transaction_unreconciled 50 13 (mark_transaction_reconciled 50 13 desk).1).1
        ≡ some r2)
    × SameMarks june r2
mark-roundtrip_example = mark-roundtrip 50 13 desk june june_stored june_own refl refl

stored_by_id :
    (k : Uuid) (r : Reconciliation Fixed) → get? k desk.reconciliations ≡ some r → r.id ≡ k
unfolding get? new_reconciliation
stored_by_id k r h = ground arith

june-Disjoint : Disjoint june
june-Disjoint x = ground arith

abbrev empty : ReconciliationProcessor Fixed
empty = new_processor

abbrev june_result : Reconciliation Fixed
june_result = result reading outside 3 6 (cents 0) (cents 10601) statement book

reconcile_account_lem_example :
    ((is_taken reading outside 3 6 (cents 0) (cents 10601) statement book empty ≡ false)
      × ((reconcile_account reading outside 3 6 (cents 0) (cents 10601) statement book empty).0
          ≡ ok june_result)
      × (get_reconciliation 50
            (reconcile_account reading outside 3 6 (cents 0) (cents 10601) statement book empty).1
          ≡ some june_result)
      × Settled reading (cents 0) (match_transactions reading statement book).0 june_result)
    ⊎ ((is_taken reading outside 3 6 (cents 0) (cents 10601) statement book empty ≡ true)
        × (reconcile_account reading outside 3 6 (cents 0) (cents 10601) statement book empty
            ≡ (err ReconciliationError.reconciliation_exists, empty)))
reconcile_account_lem_example =
    reconcile_account_lem reading outside 3 6 (cents 0) (cents 10601) statement book empty
