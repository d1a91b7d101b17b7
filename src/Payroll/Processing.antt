-- ===== src/Payroll/Processing.antt =====
-- Processing the payroll of a pay period
-- (RichdaleAccounting/nexus-core/src/accounting/payroll.rs).
use mathlib.Core.Path.{subst}
use rich_aim_acct_inv.Prelude.{
  ◌≡◌, ◌≢◌, ◌∙◌, refl, ap, List, [], ◌∷◌, All, arith, Bool-cases, Option-cases, inl, inr, ok, err,
  some, none, filter, Bool, true, sym, eq_self, eq_ne,
}
use rich_aim_acct_inv.Prelude.OrdMap.{get?, get?-modify, modify, values}
use rich_aim_acct_inv.Money.{Decimal, Division, Rates}
use rich_aim_acct_inv.Financial.{Uuid}
use rich_aim_acct_inv.Payroll.{
  Employee, EmploymentStatus, PayPeriod, PayPeriodStatus, PayrollCalculation, PayrollError,
  PayrollProcessor, get_employee, get_time_entries, hours_from, pay_slip, calculate_payroll,
  calculate_all, active_employees, as_processed, is_active_status, list_employees, process_payroll,
}
use rich_aim_acct_inv.Payroll.Slips.{AddsUp, calculate_payroll-AddsUp}

module _ {ℓ κ} {A : Type ℓ} (P : A → Type κ) where
  All-filter : (f : A → Bool) (xs : List A) → All P xs → All P (filter f xs)
  All-filter f [] h = tt
  All-filter f (x ∷ xs) h = elim (Bool-cases (f x)) [
    | inl kept ↦ rw kept (h.0, All-filter f xs h.1)
    | inr dropped ↦ rw dropped (All-filter f xs h.1)
  ]

is_active_status_lem :
    (s : EmploymentStatus) → is_active_status s ≡ true → s ≡ EmploymentStatus.active
is_active_status_lem s h = ground arith

module _ {M : Type 0} where
  -- An employee that is found under its id.
  abbrev pub Found : PayrollProcessor M → Employee M → Type 0
  Found p e = get? e.id p.employees ≢ none

module _ {M : Type 0} ⦃d : Decimal M⦄ ⦃q : Division M⦄ ⦃r : Rates M⦄ where
  -- The pay slips for a period: one that adds up for each active employee, in their order, and none
  -- for any other.
  pub data SlipsOf (j : Uuid) : List (Employee M) → List (PayrollCalculation M) → Type 0 where
    no_more : SlipsOf j [] []
    paid :
        {e : Employee M} {c : PayrollCalculation M} {es : List (Employee M)}
        {cs : List (PayrollCalculation M)}
        → e.status ≡ EmploymentStatus.active
        → c.employee_id ≡ e.id
        → c.pay_period_id ≡ j
        → AddsUp c
        → SlipsOf j es cs
        → SlipsOf j (e ∷ es) (c ∷ cs)
    passed_over :
        {e : Employee M} {es : List (Employee M)} {cs : List (PayrollCalculation M)}
        → e.status ≢ EmploymentStatus.active
        → SlipsOf j es cs
        → SlipsOf j (e ∷ es) cs

  -- The pay period is processed; all else is as it was.
  pub record OnlyProcessed (j : Uuid) (period : PayPeriod) (p p' : PayrollProcessor M)
      : Type 0 where
    pub processed :
        get? j p'.pay_periods ≡ some (record period { status = PayPeriodStatus.processed })
    pub other_periods : (k : Uuid) → k ≢ j → get? k p'.pay_periods ≡ get? k p.pay_periods
    pub all_else : record p' { pay_periods = p.pay_periods } ≡ p

  module _ (j : Uuid) (p : PayrollProcessor M) where
    calculate_payroll_succeeds :
        (e : Employee M) (period : PayPeriod)
        → Found p e
        → get? j p.pay_periods ≡ some period
        → (c : PayrollCalculation M) × (calculate_payroll e.id j p ≡ ok c)
          × (c.employee_id ≡ e.id)
          × (c.pay_period_id ≡ j)
    unfolding calculate_payroll get_employee pay_slip
    calculate_payroll_succeeds e period found at = elim (Option-cases (get? e.id p.employees)) [
      | inl missing ↦ absurd (found missing)
      | inr (x, there) ↦ (
        pay_slip x e.id j (
            hours_from d.dec_0 d.dec_0 (get_time_entries e.id period.start_date period.end_date p)),
        ground arith,
        refl,
        refl,
      )
    ]

    calculate_payroll_refused :
        (e : Employee M)
        → Found p e
        → get? j p.pay_periods ≡ none
        → calculate_payroll e.id j p ≡ err (PayrollError.invalid_pay_period j)
    unfolding calculate_payroll get_employee
    calculate_payroll_refused e found missing = elim (Option-cases (get? e.id p.employees)) [
      | inl gone ↦ absurd (found gone)
      | inr (x, there) ↦ ground arith
    ]

    calculate_all_succeeds :
        (es : List (Employee M)) (period : PayPeriod)
        → All (Found p) es
        → get? j p.pay_periods ≡ some period
        → (cs : List (PayrollCalculation M)) × (calculate_all j p
              (filter (λ e. is_active_status e.status) es)
            ≡ ok cs)
          × SlipsOf j es cs
    unfolding calculate_all
    calculate_all_succeeds [] period found at = ([], refl, no_more)
    calculate_all_succeeds (e ∷ es) period found at =
        let (cs, all_made, slips) = calculate_all_succeeds es period found.1 at in
        elim (Bool-cases (is_active_status e.status)) [
          | inl active ↦
              let (c, made, whose, when) = calculate_payroll_succeeds e period found.0 at in
              (
                c ∷ cs,
                rw (active, made, all_made, calculate_all) refl,
                paid (is_active_status_lem e.status active) whose when
                    (calculate_payroll-AddsUp e.id j p c made) slips,
              )
          | inr other ↦ (cs, rw (other, all_made) refl, passed_over (λ h. ground arith) slips)
        ]

    -- If every employee is found under its id, processing the payroll of a stored pay period
    -- succeeds. It returns a pay slip for that period for each employee whose status is active, in
    -- order, all of which add up, and none for any other employee. The pay period's status is
    -- processed from then on; the rest of it, the other pay periods and all else are as before.
    pub process_payroll_succeeds :
        (period : PayPeriod)
        → All (Found p) (values p.employees)
        → get? j p.pay_periods ≡ some period
        → (cs : List (PayrollCalculation M)) × (p' : PayrollProcessor M) × (process_payroll j p
            ≡ (ok cs, p'))
          × SlipsOf j (values p.employees) cs
          × OnlyProcessed j period p p'
    unfolding process_payroll list_employees
    process_payroll_succeeds period found at =
        let (cs, made, slips) = calculate_all_succeeds (values p.employees) period found at in
        (
          cs,
          record p { pay_periods = modify j as_processed p.pay_periods },
          rw (made, process_payroll) refl,
          slips,
          record {
            processed = get?-modify j j as_processed p.pay_periods ∙ rw (eq_self j, at) refl;
            other_periods = λ k other.
                get?-modify k j as_processed p.pay_periods
                ∙ rw (eq_ne j k (λ e. other (sym e))) refl;
            all_else = refl;
          },
        )

    -- If every employee is found under its id and there is an active one, processing the payroll of
    -- a pay period that is not stored fails with the pay period's id and changes nothing.
    process_payroll_refused :
        (e : Employee M) (es : List (Employee M))
        → All (Found p) (values p.employees)
        → active_employees p ≡ e ∷ es
        → get? j p.pay_periods ≡ none
        → process_payroll j p ≡ (err (PayrollError.invalid_pay_period j), p)
    unfolding process_payroll calculate_all list_employees
    process_payroll_refused e es found active missing =
        let first : All (Found p) (e ∷ es) =
          subst (All (Found p)) active
            (All-filter (Found p) (λ x. is_active_status x.status) (values p.employees) found) in
        let stopped : calculate_all j p (active_employees p)
            ≡ err (PayrollError.invalid_pay_period j) =
          ap (calculate_all j p) active
          ∙ rw (calculate_payroll_refused e first.0 missing, calculate_all) refl in
        rw (stopped, process_payroll) refl
