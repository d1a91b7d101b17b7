-- ===== src/Reconciliations/Processor.antt =====
-- The calls on reconciliations (RichdaleAccounting/nexus-core/src/accounting/reconciliation.rs).
use rich_aim_acct_inv.Prelude.{
  ◌==◌, Bool, true, false, not, if◌then◌else◌, Option, none, some, List, [], ◌∷◌, ◌++◌, map, filter,
  ok, err,
}
use rich_aim_acct_inv.Prelude.OrdMap.{get?, insert, remove, modify, values}
use rich_aim_acct_inv.Prelude.State.{◌>>=◌, ◌>>◌, pure}
use rich_aim_acct_inv.Money.{Decimal, Division, Rates, dec_eq}
use rich_aim_acct_inv.Financial.{Uuid, NaiveDate, Transaction}
use rich_aim_acct_inv.Ledger.{Outside, is_some}
use rich_aim_acct_inv.Reconciliations.Defs.{
  Reconciliation, ReconciliationStatus, ReconciliationError, ReconciliationProcessor,
  StatementTransaction, Method, contains,
}
use rich_aim_acct_inv.Reconciliations.Matching.{Reading, statement_amount, match_transactions}

abbrev pub ids_or_none : Option (List Uuid) → List Uuid
ids_or_none none = []
ids_or_none (some ids) = ids

-- `retain(|&x| x != id)`
abbrev pub without : Uuid → List Uuid → List Uuid
without id ids = filter (λ x. not (x == id)) ids

-- `if !ids.contains(&id) { ids.push(id) }`
abbrev pub with_id : Uuid → List Uuid → List Uuid
with_id id ids = if contains ids id then ids else ids ++ id ∷ []

module _ {M : Type 0} where
  abbrev pub is_of_date : NaiveDate → Option (Reconciliation M) → Bool
  is_of_date date none = false
  is_of_date date (some r) = r.statement_date == date

  -- One of the ids is that of a reconciliation for the date.
  unfoldable pub date_is_taken : NaiveDate → List Uuid → ReconciliationProcessor M → Bool
  date_is_taken date [] p = false
  date_is_taken date (id ∷ ids) p =
      if is_of_date date (get? id p.reconciliations) then true else date_is_taken date ids p

module _ {M : Type 0} ⦃d : Decimal M⦄ where
  open d use {sub, dec_0}

  unfoldable pub new_reconciliation : Outside → Uuid → NaiveDate → M → M → Reconciliation M
  new_reconciliation o account_id statement_date starting statement_ending = record {
    id = o.fresh 0;
    account_id = account_id;
    statement_date = statement_date;
    starting_balance = starting;
    ending_balance = starting;
    statement_ending_balance = statement_ending;
    reconciled_transactions = [];
    outstanding_transactions = [];
    difference = sub statement_ending starting;
    status = ReconciliationStatus.in_progress;
    notes = "";
    created_at = o.now;
    updated_at = o.now;
  }

  unfoldable pub create_reconciliation :
      Outside → Uuid → NaiveDate → M → M → Method M (Reconciliation M)
  unfolding new_reconciliation
  create_reconciliation o account_id statement_date starting statement_ending p =
      let r : Reconciliation M =
        new_reconciliation o account_id statement_date starting statement_ending in
      let ids : List Uuid = ids_or_none (get? account_id p.reconciliations_by_account) in
      if date_is_taken statement_date ids p
      then (err ReconciliationError.reconciliation_exists, p)
      else (
        ok r,
        record p {
          reconciliations = insert r.id r p.reconciliations;
          reconciliations_by_account =
              insert account_id (ids ++ r.id ∷ []) p.reconciliations_by_account;
        },
      )

module _ {M : Type 0} where
  unfoldable pub get_reconciliation : Uuid → ReconciliationProcessor M → Option (Reconciliation M)
  get_reconciliation id p = get? id p.reconciliations

  -- `filter_map` over the ids that are stored.
  unfoldable pub stored_of : List Uuid → ReconciliationProcessor M → List (Reconciliation M)
  stored_of [] p = []
  stored_of (id ∷ ids) p = elim (get? id p.reconciliations) [
    | none ↦ stored_of ids p
    | some r ↦ r ∷ stored_of ids p
  ]

  unfoldable pub list_reconciliations_by_account :
      Uuid → ReconciliationProcessor M → List (Reconciliation M)
  list_reconciliations_by_account account_id p =
      stored_of (ids_or_none (get? account_id p.reconciliations_by_account)) p

  unfoldable pub list_all_reconciliations : ReconciliationProcessor M → List (Reconciliation M)
  list_all_reconciliations p = values p.reconciliations

  unfoldable pub update_reconciliation : Uuid → Reconciliation M → Method M (Reconciliation M)
  update_reconciliation id r p =
      if not (r.id == id)
      then (err (ReconciliationError.other "Reconciliation ID mismatch"), p)
      else if not (is_some (get? id p.reconciliations))
      then (err (ReconciliationError.not_found id), p)
      else (ok r, record p { reconciliations = insert id r p.reconciliations })

  unfoldable pub delete_reconciliation : Uuid → Method M Bool
  delete_reconciliation id p = elim (get? id p.reconciliations) [
    | none ↦ (ok false, p)
    | some r ↦ (
      ok true,
      record p {
        reconciliations = remove id p.reconciliations;
        reconciliations_by_account =
            modify r.account_id (without r.id) p.reconciliations_by_account;
      },
    )
  ]

  -- `auto_match`, which only sets the status.
  unfoldable pub auto_match : Uuid → Method M (Reconciliation M)
  unfolding update_reconciliation get_reconciliation
  auto_match id p = elim (get_reconciliation id p) [
    | none ↦ (err (ReconciliationError.not_found id), p)
    | some r ↦
        let r' : Reconciliation M = record r { status = ReconciliationStatus.needs_review } in
        (update_reconciliation r'.id r' >> pure r') p
  ]

  abbrev pub reconciled : Uuid → Reconciliation M → Reconciliation M
  reconciled t r = record r {
    reconciled_transactions = with_id t r.reconciled_transactions;
    outstanding_transactions = without t r.outstanding_transactions;
  }

  unfoldable pub mark_transaction_reconciled : Uuid → Uuid → Method M (Unit {0})
  unfolding update_reconciliation get_reconciliation
  mark_transaction_reconciled id t p = elim (get_reconciliation id p) [
    | none ↦ (err (ReconciliationError.not_found id), p)
    | some r ↦ (update_reconciliation r.id (reconciled t r) >> pure tt) p
  ]

  abbrev pub unreconciled : Uuid → Reconciliation M → Reconciliation M
  unreconciled t r = record r {
    reconciled_transactions = without t r.reconciled_transactions;
    outstanding_transactions = with_id t r.outstanding_transactions;
  }

  unfoldable pub mark_transaction_unreconciled : Uuid → Uuid → Method M (Unit {0})
  unfolding update_reconciliation get_reconciliation
  mark_transaction_unreconciled id t p = elim (get_reconciliation id p) [
    | none ↦ (err (ReconciliationError.not_found id), p)
    | some r ↦ (update_reconciliation r.id (unreconciled t r) >> pure tt) p
  ]

  -- The ids that lines are matched with, those that have one.
  abbrev pub matched_ids : List (StatementTransaction M) → List Uuid
  matched_ids [] = []
  matched_ids (s ∷ ss) = elim s.matched_transaction_id [
    | none ↦ matched_ids ss
    | some id ↦ id ∷ matched_ids ss
  ]

module _ {M : Type 0} ⦃d : Decimal M⦄ ⦃q : Division M⦄ where
  open d use {sub, add, dec_0}

  -- The starting balance with the matched lines added.
  unfoldable pub balance_from : M → List (StatementTransaction M) → M
  balance_from balance [] = balance
  balance_from balance (s ∷ ss) =
      balance_from (add balance (statement_amount s.transaction_type s.amount)) ss

  module _ ⦃x : Rates M⦄ (read : Reading) where
    -- What `reconcile_account` makes of a new reconciliation.
    unfoldable pub reconciled_with :
        M
        → M
        → List (StatementTransaction M)
        → List (Transaction M)
        → Reconciliation M
        → Reconciliation M
    unfolding balance_from
    reconciled_with starting statement_ending ss bs r =
        let (m, _, unmatched_book) = match_transactions read ss bs in
        let ending : M = balance_from starting m in
        let difference : M = sub statement_ending ending in
        record r {
          reconciled_transactions = matched_ids m;
          outstanding_transactions = map (λ b. b.id) unmatched_book;
          ending_balance = ending;
          difference = difference;
          status =
              if dec_eq difference dec_0
              then ReconciliationStatus.completed
              else ReconciliationStatus.needs_review;
        }

    unfoldable pub reconcile_account :
        Outside
        → Uuid
        → NaiveDate
        → M
        → M
        → List (StatementTransaction M)
        → List (Transaction M)
        → Method M (Reconciliation M)
    unfolding create_reconciliation update_reconciliation reconciled_with
    reconcile_account o account_id statement_date starting statement_ending ss bs = do
      r ← create_reconciliation o account_id statement_date starting statement_ending
      update_reconciliation r.id (reconciled_with starting statement_ending ss bs r)
      pure (reconciled_with starting statement_ending ss bs r)
