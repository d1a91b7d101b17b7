-- ===== src/Assets/Tests.antt =====
-- Runs of the calls on assets on a small book (RichdaleAccounting/nexus-core/src/accounting/assets.rs).
use rich_aim_acct_inv.Prelude.{◌+◌, ◌/◌, ◌≡◌, refl, true, none, List, [], ◌∷◌, arith, ok}
use rich_aim_acct_inv.Prelude.Int.{ℤ, pos, pos_part, neg_part, ◌-ℤ◌, ◌+ℤ◌, ◌<ℤ◌}
use rich_aim_acct_inv.Prelude.OrdMap.{get?}
use rich_aim_acct_inv.Money.{Division, int_decimal}
use rich_aim_acct_inv.Financial.{
  Account, new_account, AccountType, EntryType, TransactionEntry, new_entry,
}
use rich_aim_acct_inv.Ledger.{Ledger, Outside, get_account_by_number}
use rich_aim_acct_inv.Ledger.Validity.{Usable, Postable}
use rich_aim_acct_inv.Assets.{
  DepreciationMethod, FixedAsset, AssetBooks, Printing, post_depreciation, is_due,
  monthly_depreciation, gain_loss, gain_or_loss_entry, is_fully_depreciated,
}
use rich_aim_acct_inv.Assets.Balanced.{Posted, post_depreciation-Posted}
use rich_aim_acct_inv.Assets.Salvage.{AllAbove, post_depreciation-AllAbove}

abs_neg : (a : ℤ) → a <ℤ pos 0 → pos (pos_part a + neg_part a) ≡ pos 0 -ℤ a
unfolding ◌-ℤ◌
abs_neg a h = ground arith

-- Whole numbers, with quotients rounded down.
instance abbrev int_division : Division ℤ
int_division = record {
  div = λ a b. pos (pos_part a / pos_part b);
  from = λ n. pos n;
  abs = λ a. pos (pos_part a + neg_part a);
  value-abs_neg = abs_neg;
  neg = λ a. pos 0 -ℤ a;
  value-neg = λ a. refl;
}

abbrev outside : Outside
outside = record { now = 7; fresh = λ i. 100 + i; date_naive = λ t. t }

abbrev printing : Printing
printing = record {
  year_month = λ x. "2026-01";
  year_month_digits = λ x. "202601";
  month_name = λ x. "January 2026";
  noon = λ x. x;
  short_id = λ x. "00000050";
}

abbrev cash : Account ℤ
cash = new_account 1 0 "1000" "Cash" AccountType.asset

abbrev fixed : Account ℤ
fixed = new_account 2 0 "1040" "Fixed Assets" AccountType.asset

abbrev accumulated : Account ℤ
accumulated = new_account 3 0 "1050" "Accumulated Depreciation" AccountType.asset

abbrev interest : Account ℤ
interest = new_account 4 0 "4020" "Interest Revenue" AccountType.revenue

abbrev expense : Account ℤ
expense = new_account 5 0 "5050" "Depreciation Expense" AccountType.expense

abbrev book : Ledger ℤ
book = record {
  accounts = (1, cash) ∷ (2, fixed) ∷ (3, accumulated) ∷ (4, interest) ∷ (5, expense) ∷ [];
  transactions = [];
  journal_entries = [];
  current_journal_number = 1;
  current_transaction_number = 1;
}

-- Bought for 10, to last three months, and depreciated by 9 in three.
abbrev tool : FixedAsset ℤ
tool = record {
  id = 50;
  name = "Drill";
  description = "";
  account_id = 2;
  cost = pos 10;
  salvage_value = pos 0;
  useful_life_months = 3;
  depreciation_method = DepreciationMethod.straight_line;
  acquisition_date = 1;
  disposed_date = none;
  accumulated_depreciation = pos 9;
  created_at = 1;
  updated_at = 1;
}

abbrev van : FixedAsset ℤ
van = record tool {
  id = 51;
  cost = pos 1000;
  salvage_value = pos 100;
  depreciation_method = DepreciationMethod.double_declining;
  accumulated_depreciation = pos 200;
}

abbrev books : AssetBooks ℤ
books = record { manager = record { assets = tool ∷ van ∷ [] }; ledger = book }

cash-Usable : Usable book "1000" cash
unfolding get_account_by_number get? new_account
cash-Usable = record { found = refl; stored = refl; active = refl }

fixed-Usable : Usable book "1040" fixed
unfolding get_account_by_number get? new_account
fixed-Usable = record { found = refl; stored = refl; active = refl }

accumulated-Usable : Usable book "1050" accumulated
unfolding get_account_by_number get? new_account
accumulated-Usable = record { found = refl; stored = refl; active = refl }

expense-Usable : Usable book "5050" expense
unfolding get_account_by_number get? new_account
expense-Usable = record { found = refl; stored = refl; active = refl }

post_depreciation-Posted_example :
    Posted outside printing 9 5 3 books (post_depreciation outside printing 9 books)
unfolding new_account
post_depreciation-Posted_example =
    post_depreciation-Posted outside printing 9 books expense accumulated expense-Usable
      accumulated-Usable

books-AllAbove : AllAbove books
unfolding ◌-ℤ◌
books-AllAbove = (tt, (omega arith, tt))

post_depreciation-AllAbove_example : AllAbove (post_depreciation outside printing 9 books).1
post_depreciation-AllAbove_example =
    post_depreciation-AllAbove outside printing 9 books books-AllAbove

tool_due : is_due 9 tool ≡ true
unfolding is_due is_fully_depreciated monthly_depreciation ◌-ℤ◌
tool_due = refl

one_month_too_many :
    (tool.cost -ℤ tool.salvage_value)
    <ℤ (tool.accumulated_depreciation +ℤ monthly_depreciation tool)
unfolding monthly_depreciation ◌-ℤ◌ ◌+ℤ◌
one_month_too_many = omega arith

-- The drill, worth 1, is sold for 4.
abbrev gain_entries : List (TransactionEntry ℤ)
gain_entries = new_entry 103 4 EntryType.credit (pos 3) "Gain on sale of asset: Drill" ∷ []

gain_found : gain_or_loss_entry outside tool (gain_loss tool (pos 4)) book ≡ ok gain_entries
unfolding gain_or_loss_entry get_account_by_number new_account ◌-ℤ◌
gain_found = refl

interest-Postable :
    Postable book.accounts (new_entry 103 4 EntryType.credit (pos 3) "Gain on sale of asset: Drill")
unfolding get? new_account new_entry
interest-Postable = (interest, refl, refl)
