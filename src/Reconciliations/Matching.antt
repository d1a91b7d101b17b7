-- ===== src/Reconciliations/Matching.antt =====
-- Matching the lines of a statement with booked transactions
-- (RichdaleAccounting/nexus-core/src/accounting/reconciliation.rs).
use Prim.Native.String.{len}
use rich_aim_acct_inv.Prelude.{
  ℕ, ◌+◌, ◌-◌, ◌==◌, Bool, true, false, ◌&&◌, ◌||◌, not, leb, ltb, if◌then◌else◌, Option, none,
  some, List, [], ◌∷◌, String, str_eq, filter,
}
use rich_aim_acct_inv.Money.{Decimal, Division, Rates, dec_eq, dec_le}
use rich_aim_acct_inv.Financial.{Uuid, NaiveDate, DateTime, Transaction, total_amount}
use rich_aim_acct_inv.Reconciliations.Defs.{
  StatementTransaction, StatementTransactionType, contains,
}
use rich_aim_acct_inv.Reconciliations.Words.{contains_text, is_empty_text, split_whitespace}

-- What the comparison takes from Unicode's tables and the calendar. Dates are numbers of days.
pub record Reading : Type 0 where
  pub to_lowercase : String → String
  pub date_naive : DateTime → NaiveDate

-- `any(..)`
abbrev pub any {ℓ} : {A : Type ℓ} → (A → Bool) → List A → Bool
any f [] = false
any f (x ∷ xs) = if f x then true else any f xs

-- The points for a description, both in lower case.
unfoldable pub description_points : String → String → ℕ
description_points s b =
    if str_eq s b
    then 50
    else if contains_text s b || contains_text b s
    then 30
    else if any (λ w. contains_text b w && ltb 3 (len w)) (split_whitespace s)
    then 15
    else 0

-- The points for days between the two dates.
unfoldable pub date_points : ℕ → ℕ
date_points days = if days == 0 then 20 else if leb days 3 then 10 else if leb days 7 then 5 else 0

abbrev pub days_between : NaiveDate → NaiveDate → ℕ
days_between a b = (a - b) + (b - a)

-- The points for the amount and all others.
abbrev pub with_points : Option ℕ → ℕ → Option ℕ
with_points none n = none
with_points (some m) n = some (m + n)

abbrev pub is_reference : String → Option String → Bool
is_reference r none = false
is_reference r (some s) = str_eq s r

module _ {M : Type 0} where
  unfoldable pub reference_points : StatementTransaction M → Transaction M → ℕ
  reference_points s b =
      if is_empty_text s.reference
      then 0
      else if any (λ e. is_reference s.reference e.reference) b.entries
      then 40
      else if str_eq b.number s.reference || contains_text b.description s.reference
      then 30
      else 0

  unfoldable pub text_points : Reading → StatementTransaction M → Transaction M → ℕ
  unfolding description_points
  text_points read s b =
      if not (is_empty_text s.description) && not (is_empty_text b.description)
      then description_points (read.to_lowercase s.description) (read.to_lowercase b.description)
      else 0

  -- A line with the transaction that it is matched with.
  abbrev pub as_matched : StatementTransaction M → Uuid → ℕ → StatementTransaction M
  as_matched s id score = record s {
    is_matched = true;
    matched_transaction_id = some id;
    match_score = some score;
  }

  -- The better of the best match so far and another one; an equal score does not replace it.
  abbrev pub better :
      Option ℕ → Transaction M → Option (Transaction M × ℕ) → Option (Transaction M × ℕ)
  better none b best = best
  better (some score) b none = some (b, score)
  better (some score) b (some (b', best_score)) =
      if ltb best_score score then some (b, score) else some (b', best_score)

module _ {M : Type 0} ⦃d : Decimal M⦄ ⦃q : Division M⦄ where
  open d use {sub, dec_0}
  open q use {abs, neg}

  abbrev pub statement_amount : StatementTransactionType → M → M
  statement_amount StatementTransactionType.debit amount = amount
  statement_amount StatementTransactionType.credit amount = neg amount

  -- `amount_diff`
  unfoldable pub amount_diff : StatementTransaction M → Transaction M → M
  amount_diff s b =
      abs (sub (abs (statement_amount s.transaction_type s.amount)) (abs (total_amount b)))

  module _ ⦃r : Rates M⦄ where
    abbrev pub tolerance : M
    tolerance = r.literal 1 2

    -- The points for the amount; a pair that is further apart is passed over.
    unfoldable pub amount_points : M → Option ℕ
    amount_points diff =
        if dec_eq diff dec_0 then some 100 else if dec_le diff tolerance then some 80 else none

  module _ ⦃r : Rates M⦄ (read : Reading) where
    unfoldable pub pair_score : StatementTransaction M → Transaction M → Option ℕ
    pair_score s b = with_points (amount_points (amount_diff s b)) (
        text_points read s b
        + reference_points s b
        + date_points (days_between s.date (read.date_naive b.date)))

    -- The loop over the booked transactions, past those that are matched already.
    unfoldable pub best_match :
        List Uuid
        → StatementTransaction M
        → List (Transaction M)
        → Option (Transaction M × ℕ)
        → Option (Transaction M × ℕ)
    best_match ids s [] best = best
    best_match ids s (b ∷ bs) best =
        best_match ids s bs (better (if contains ids b.id then none else pair_score s b) b best)

    -- The loop over the lines: those matched, those not, and the ids of what they are matched with.
    unfoldable pub match_lines :
        List (Transaction M)
        → List Uuid
        → List (StatementTransaction M)
        → List (StatementTransaction M) × List (StatementTransaction M) × List Uuid
    match_lines bs ids [] = ([], [], ids)
    match_lines bs ids (s ∷ ss) = elim (best_match ids s bs none) [
      | none ↦ let (m, u, all) = match_lines bs ids ss in (m, s ∷ u, all)
      | some (b, score) ↦
          let (m, u, all) = match_lines bs (b.id ∷ ids) ss in (as_matched s b.id score ∷ m, u, all)
    ]

    unfoldable pub match_transactions :
        List (StatementTransaction M)
        → List (Transaction M)
        → List (StatementTransaction M) × List (StatementTransaction M) × List (Transaction M)
    match_transactions ss bs =
        let (m, u, all) = match_lines bs [] ss in (m, u, filter (λ b. not (contains all b.id)) bs)
