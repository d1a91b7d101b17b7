-- ===== src/Reconciliations/Accounts.antt =====
-- Reconciling an account (RichdaleAccounting/nexus-core/src/accounting/reconciliation.rs).
use rich_aim_acct_inv.Prelude.{
  ◌≡◌, ◌⊎◌, ◌∙◌, ◌↔◌, refl, ap, Bool, true, false, some, List, [], ◌∷◌, ◌++◌, arith, Bool-cases,
  inl, inr, if◌then◌else◌, ok, err, eq_self,
}
use rich_aim_acct_inv.Prelude.Int.{ℤ, pos, ◌+ℤ◌, ◌-ℤ◌, int_laws, parts_of, eqb_ℤ→eq, eqb_ℤ_refl}
use rich_aim_acct_inv.Prelude.OrdMap.{get?, insert, get?-insert}
use rich_aim_acct_inv.Prelude.State.{◌>>◌, pure, after_ok, after_err}
use rich_aim_acct_inv.Money.{Decimal, Division, Rates, sub_parts, zero_parts, dec_eq}
use rich_aim_acct_inv.Financial.{Uuid, NaiveDate, Transaction}
use rich_aim_acct_inv.Ledger.{Outside}
use rich_aim_acct_inv.Reconciliations.{
  Reconciliation, ReconciliationStatus, ReconciliationProcessor, ReconciliationError,
  StatementTransaction, Reading, statement_amount, match_transactions, balance_from,
  reconciled_with, reconcile_account, create_reconciliation, new_reconciliation,
  update_reconciliation, get_reconciliation, date_is_taken, ids_or_none, matched_ids, Method,
}

module _ {M : Type 0} ⦃d : Decimal M⦄ ⦃q : Division M⦄ where
  open d use {value}

  -- The lines' amounts, credits counted negative.
  abbrev pub signed_total : List (StatementTransaction M) → ℤ
  signed_total [] = pos 0
  signed_total (s ∷ ss) = value (statement_amount s.transaction_type s.amount) +ℤ signed_total ss

  value-balance_from :
      (ss : List (StatementTransaction M)) (b : M)
      → value (balance_from b ss) ≡ value b +ℤ signed_total ss
  unfolding balance_from
  value-balance_from [] b = omega int_laws
  value-balance_from (s ∷ ss) b =
      value-balance_from ss _ ∙ ap (λ z. z +ℤ signed_total ss) (d.value-add b _) ∙ omega int_laws

  abbrev status_for : M → ReconciliationStatus
  status_for difference =
      if dec_eq difference d.dec_0
      then ReconciliationStatus.completed
      else ReconciliationStatus.needs_review

  no_difference_iff : (a b : M) → (dec_eq (d.sub a b) d.dec_0 ≡ true) ↔ (value b ≡ value a)
  no_difference_iff a b = (
    λ h. omega (
      int_laws,
      sub_parts a b,
      parts_of (eqb_ℤ→eq (value (d.sub a b)) (value d.dec_0) h),
      zero_parts d,
    ),
    λ h.
        let same : value (d.sub a b) ≡ value d.dec_0 =
          omega (int_laws, sub_parts a b, parts_of h, zero_parts d) in
        rw same (eqb_ℤ_refl (value d.dec_0)),
  )

  status_for_iff :
      (x : M) → (status_for x ≡ ReconciliationStatus.completed) ↔ (dec_eq x d.dec_0 ≡ true)
  status_for_iff x = elim (Bool-cases (dec_eq x d.dec_0)) [
    | inl none_left ↦ (λ h. none_left, λ h. rw none_left refl)
    | inr left ↦ (λ h. ground arith, λ h. ground arith)
  ]

  module _ ⦃r : Rates M⦄ (read : Reading) where
    -- A reconciliation that fits the lines that were matched.
    pub record Settled (starting : M) (m : List (StatementTransaction M)) (x : Reconciliation M)
        : Type 0 where
      pub ending : value x.ending_balance ≡ value starting +ℤ signed_total m
      pub left : value x.difference ≡ value x.statement_ending_balance -ℤ value x.ending_balance
      pub complete :
          (x.status ≡ ReconciliationStatus.completed)
          ↔ (value x.ending_balance ≡ value x.statement_ending_balance)
      pub listed : x.reconciled_transactions ≡ matched_ids m

    module _ (o : Outside) (account_id : Uuid) (date : NaiveDate) (starting statement_ending : M)
        (ss : List (StatementTransaction M)) (bs : List (Transaction M)) where
      abbrev pub result : Reconciliation M
      result =
          reconciled_with read starting statement_ending ss bs
            (new_reconciliation o account_id date starting statement_ending)

      result-Settled : Settled starting (match_transactions read ss bs).0 result
      unfolding reconciled_with new_reconciliation
      result-Settled = record {
        ending = value-balance_from _ starting;
        left = d.value-sub _ _;
        complete = (
          λ h. (no_difference_iff _ _).0 ((status_for_iff _).0 h),
          λ h. (status_for_iff _).1 ((no_difference_iff _ _).1 h),
        );
        listed = refl;
      }

      abbrev pub is_taken : ReconciliationProcessor M → Bool
      is_taken p = date_is_taken date (ids_or_none (get? account_id p.reconciliations_by_account)) p

      abbrev fresh : Reconciliation M
      fresh = new_reconciliation o account_id date starting statement_ending

      abbrev with_fresh : ReconciliationProcessor M → ReconciliationProcessor M
      with_fresh p = record p {
        reconciliations = insert (o.fresh 0) fresh p.reconciliations;
        reconciliations_by_account =
            insert account_id
              (ids_or_none (get? account_id p.reconciliations_by_account) ++ o.fresh 0 ∷ [])
              p.reconciliations_by_account;
      }

      abbrev make : Method M (Reconciliation M)
      make = create_reconciliation o account_id date starting statement_ending

      abbrev finish : Reconciliation M → Method M (Reconciliation M)
      finish x =
          update_reconciliation x.id (reconciled_with read starting statement_ending ss bs x)
          >> pure (reconciled_with read starting statement_ending ss bs x)

      created :
          (p : ReconciliationProcessor M)
          → is_taken p ≡ false
          → create_reconciliation o account_id date starting statement_ending p
            ≡ (ok fresh, with_fresh p)
      unfolding create_reconciliation new_reconciliation
      created p free = rw free refl

      refused :
          (p : ReconciliationProcessor M)
          → is_taken p ≡ true
          → create_reconciliation o account_id date starting statement_ending p
            ≡ (err ReconciliationError.reconciliation_exists, p)
      unfolding create_reconciliation
      refused p used = rw used refl

      updated :
          (p : ReconciliationProcessor M)
          → update_reconciliation (o.fresh 0) result (with_fresh p) ≡ (
            ok result,
            record (with_fresh p) {
              reconciliations = insert (o.fresh 0) result (with_fresh p).reconciliations;
            },
          )
      unfolding update_reconciliation reconciled_with new_reconciliation
      updated p =
          let found : get? (o.fresh 0) (with_fresh p).reconciliations ≡ some fresh =
            get?-insert (o.fresh 0) (o.fresh 0) fresh p.reconciliations
            ∙ rw (eq_self (o.fresh 0)) refl in
          rw (eq_self (o.fresh 0), found) refl

      -- If the account has no reconciliation for the date yet, reconciling it succeeds. The result is
      -- stored, its ending balance is the starting balance and the matched lines' amounts, credits
      -- counted negative, its difference is what the statement has beyond that, and it is complete
      -- exactly when the ending balance is the statement's. Otherwise the call is refused and
      -- changes nothing.
      pub reconcile_account_lem :
          (p : ReconciliationProcessor M)
          → ((is_taken p ≡ false)
              × ((reconcile_account read o account_id date starting statement_ending ss bs p).0
                  ≡ ok result)
              × (get_reconciliation
                    (o.fresh 0)
                    (reconcile_account read o account_id date starting statement_ending ss bs p).1
                  ≡ some result)
              × Settled starting (match_transactions read ss bs).0 result)
            ⊎ ((is_taken p ≡ true)
                × (reconcile_account read o account_id date starting statement_ending ss bs p
                    ≡ (err ReconciliationError.reconciliation_exists, p)))
      unfolding reconcile_account get_reconciliation
      reconcile_account_lem p = elim (Bool-cases (is_taken p)) [
        | inl used ↦ inr (used, after_err make finish p p _ (refused p used))
        | inr free ↦
            let whole =
              after_ok make finish p (with_fresh p) fresh (created p free)
              ∙ after_ok (update_reconciliation (o.fresh 0) result) (λ _. pure result)
                  (with_fresh p) _ result (updated p) in
            inl (
              free,
              ap (λ w. w.0) whole,
              ap (λ w. get? (o.fresh 0) w.1.reconciliations) whole
                  ∙ get?-insert (o.fresh 0) (o.fresh 0) result (with_fresh p).reconciliations
                  ∙ rw (eq_self (o.fresh 0)) refl,
              result-Settled,
            )
      ]
