-- ===== src/Ap/Calls.antt =====
-- Every way to use the processor on bills (RichdaleAccounting/nexus-core/src/accounting/ap.rs).
use rich_aim_acct_inv.Prelude.{String}
use rich_aim_acct_inv.Money.{Decimal}
use rich_aim_acct_inv.Financial.{Uuid, DateTime, NaiveDate}
use rich_aim_acct_inv.Ledger.{Outside}
use rich_aim_acct_inv.Ap.{
  ApBill, ApProcessor, enter_bill, schedule_payment, pay_bill, pay_bill_partial, void_bill,
}

pub data Call (M : Type 0) : Type 0 where
  enters : Outside → ApBill M → Call M
  schedules : DateTime → Uuid → NaiveDate → Call M
  pays : Outside → Uuid → Call M
  pays_part : Outside → String → Uuid → M → Call M
  voids : Outside → Uuid → Call M

-- What a call leaves, whatever it returns.
abbrev pub call : {M : Type 0} ⦃d : Decimal M⦄ → Call M → ApProcessor M → ApProcessor M
call (enters o bill) p = (enter_bill o bill p).1
call (schedules now bill_id date) p = (schedule_payment now bill_id date p).1
call (pays o bill_id) p = (pay_bill o bill_id p).1
call (pays_part o shown bill_id amount) p = (pay_bill_partial o shown bill_id amount p).1
call (voids o bill_id) p = (void_bill o bill_id p).1
