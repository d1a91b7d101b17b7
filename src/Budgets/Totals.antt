-- ===== src/Budgets/Totals.antt =====
-- The lines of a variance report and its totals (RichdaleAccounting/nexus-core/src/accounting/budget.rs).
use rich_aim_acct_inv.Prelude.{◌≡◌, refl, ap, inl, inr, List, [], ◌∷◌, map, filter, Bool-cases}
use rich_aim_acct_inv.Prelude.OrdMap.{OrdMap}
use rich_aim_acct_inv.Prelude.Int.{ℤ, pos, ◌+ℤ◌, ◌-ℤ◌, int_laws, parts_of}
use rich_aim_acct_inv.Money.{Decimal, Division, add_parts, sub_parts, zero_parts}
use rich_aim_acct_inv.Financial.{NaiveDate, Account}
use rich_aim_acct_inv.Ledger.{Ledger, list_accounts, list_transactions_by_date}
use rich_aim_acct_inv.Budgets.{
  Budget, BudgetVarianceLine, BudgetVarianceReport, BudgetManager, Days, overlaps, variance_line,
  report_lines, add_transactions, generate_variance_report,
}

module _ {M : Type 0} ⦃d : Decimal M⦄ where
  open d use {value, dec_0}

  abbrev pub sum_by : (BudgetVarianceLine M → M) → List (BudgetVarianceLine M) → ℤ
  sum_by f [] = pos 0
  sum_by f (x ∷ xs) = value (f x) +ℤ sum_by f xs

  -- The totals of a report are the sums over its lines.
  pub record Totalled (r : BudgetVarianceReport M) : Type 0 where
    pub budgets_add_up : value r.total_budgeted ≡ sum_by (λ x. x.budgeted) r.lines
    pub actuals_add_up : value r.total_actual ≡ sum_by (λ x. x.actual) r.lines
    pub variances_add_up : value r.total_variance ≡ sum_by (λ x. x.variance) r.lines

  module _ ⦃q : Division M⦄ (accounts : List (Account M)) (actuals : OrdMap M)
      (from to : NaiveDate) where
    report_lines-budgeted :
        (bs : List (Budget M)) (x y : M)
        → value (report_lines accounts actuals from to bs x y).1
          ≡ value x +ℤ sum_by (λ l. l.budgeted) (report_lines accounts actuals from to bs x y).0
    unfolding report_lines
    report_lines-budgeted [] x y = omega int_laws
    report_lines-budgeted (b ∷ bs) x y = elim (Bool-cases (overlaps from to b)) [
      | inl counted ↦ rw counted (
          omega (
            int_laws,
            parts_of (report_lines-budgeted bs (d.add x b.budgeted_amount) _),
            add_parts x b.budgeted_amount,
          ))
      | inr skipped ↦ rw skipped (report_lines-budgeted bs x y)
    ]

    report_lines-actual :
        (bs : List (Budget M)) (x y : M)
        → value (report_lines accounts actuals from to bs x y).2
          ≡ value y +ℤ sum_by (λ l. l.actual) (report_lines accounts actuals from to bs x y).0
    unfolding report_lines
    report_lines-actual [] x y = omega int_laws
    report_lines-actual (b ∷ bs) x y = elim (Bool-cases (overlaps from to b)) [
      | inl counted ↦
          let z = (variance_line accounts actuals b).actual in
          rw counted
            (omega (int_laws, parts_of (report_lines-actual bs _ (d.add y z)), add_parts y z))
      | inr skipped ↦ rw skipped (report_lines-actual bs x y)
    ]

    report_lines-variance :
        (bs : List (Budget M)) (x y : M)
        → sum_by (λ l. l.variance) (report_lines accounts actuals from to bs x y).0
          ≡ sum_by (λ l. l.actual) (report_lines accounts actuals from to bs x y).0
            -ℤ sum_by (λ l. l.budgeted) (report_lines accounts actuals from to bs x y).0
    unfolding report_lines
    report_lines-variance [] x y = omega int_laws
    report_lines-variance (b ∷ bs) x y = elim (Bool-cases (overlaps from to b)) [
      | inl counted ↦
          let z = (variance_line accounts actuals b).actual in
          rw counted (
            omega (
              int_laws,
              parts_of (report_lines-variance bs (d.add x b.budgeted_amount) (d.add y z)),
              sub_parts z b.budgeted_amount,
            ))
      | inr skipped ↦ rw skipped (report_lines-variance bs x y)
    ]

    report_lines-lines :
        (bs : List (Budget M)) (x y : M)
        → (report_lines accounts actuals from to bs x y).0
          ≡ map (variance_line accounts actuals) (filter (overlaps from to) bs)
    unfolding report_lines
    report_lines-lines [] x y = refl
    report_lines-lines (b ∷ bs) x y = elim (Bool-cases (overlaps from to b)) [
      | inl counted ↦
          rw counted (ap (λ ls. variance_line accounts actuals b ∷ ls) (report_lines-lines bs _ _))
      | inr skipped ↦ rw skipped (report_lines-lines bs x y)
    ]

  -- A variance report has one line for each budget whose period overlaps the report's, in their order,
  -- with what the ledger's transactions of the period come to; its totals of budgets, actual amounts and
  -- variances are the sums over the lines.
  generate_variance_report-Totalled :
      ⦃q : Division M⦄ (days : Days) (from to : NaiveDate) (l : Ledger M) (m : BudgetManager M)
      → Totalled (generate_variance_report days from to l m)
        × ((generate_variance_report days from to l m).lines
            ≡ map
                (variance_line (list_accounts l) (
                  add_transactions
                    (list_accounts l)
                    (list_transactions_by_date (days.day_start from) (days.day_end to) l)
                    []))
                (filter (overlaps from to) m.budgets))
  unfolding generate_variance_report
  generate_variance_report-Totalled days from to l m =
      let accounts = list_accounts l in
      let actuals =
        add_transactions accounts
          (list_transactions_by_date (days.day_start from) (days.day_end to) l) [] in
      let b = parts_of (report_lines-budgeted accounts actuals from to m.budgets dec_0 dec_0) in
      let a = parts_of (report_lines-actual accounts actuals from to m.budgets dec_0 dec_0) in
      let v = parts_of (report_lines-variance accounts actuals from to m.budgets dec_0 dec_0) in
      let r = report_lines accounts actuals from to m.budgets dec_0 dec_0 in
      (
        record {
          budgets_add_up = omega (int_laws, b, zero_parts d);
          actuals_add_up = omega (int_laws, a, zero_parts d);
          variances_add_up = omega (int_laws, a, b, v, zero_parts d, sub_parts r.2 r.1);
        },
        report_lines-lines accounts actuals from to m.budgets dec_0 dec_0,
      )
