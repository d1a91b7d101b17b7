-- ===== src/Reconciliations/Scores.antt =====
-- The range of the scores (RichdaleAccounting/nexus-core/src/accounting/reconciliation.rs).
use mathlib.Core.Path.{subst}
use rich_aim_acct_inv.Prelude.{
  ◌↔◌, false, ℕ, ◌≤◌, ◌≡◌, Option, none, some, List, arith, String, All,
}
use rich_aim_acct_inv.Money.{Decimal, Division, Rates, dec_le, dec_eq}
use rich_aim_acct_inv.Financial.{Uuid, Transaction}
use rich_aim_acct_inv.Reconciliations.{
  StatementTransaction, Reading, description_points, reference_points, text_points, date_points,
  amount_points, tolerance, amount_diff, with_points, pair_score, match_transactions,
}
use rich_aim_acct_inv.Reconciliations.Assignment.{
  Assigned, done, taken, left_over, match_transactions-Assigned,
}

-- A score, if there is one, lies between 80 and 210.
abbrev InRange : Option ℕ → Type 0
InRange none = Unit
InRange (some n) = (80 ≤ n) × (n ≤ 210)

description_points-le : (s b : String) → description_points s b ≤ 50
unfolding description_points
description_points-le s b = ground arith

date_points-le : (n : ℕ) → date_points n ≤ 20
unfolding date_points
date_points-le n = ground arith

module _ {M : Type 0} where
  reference_points-le : (s : StatementTransaction M) (b : Transaction M) → reference_points s b ≤ 40
  unfolding reference_points
  reference_points-le s b = ground arith

  text_points-le :
      (read : Reading) (s : StatementTransaction M) (b : Transaction M) → text_points read s b ≤ 50
  unfolding text_points
  text_points-le read s b = ground (
    arith,
    description_points-le (read.to_lowercase s.description) (read.to_lowercase b.description),
  )

-- There is a score, and it lies between 80 and 210.
abbrev pub Scored : Option ℕ → Type 0
Scored none = ⊥
Scored (some n) = (80 ≤ n) × (n ≤ 210)

module _ {M : Type 0} ⦃d : Decimal M⦄ ⦃q : Division M⦄ ⦃r : Rates M⦄ (read : Reading) where
  with_points-InRange : (x : M) (n : ℕ) → n ≤ 110 → InRange (with_points (amount_points x) n)
  unfolding amount_points
  with_points-InRange x n h = ground arith

  pair_score-InRange :
      (s : StatementTransaction M) (b : Transaction M) → InRange (pair_score read s b)
  unfolding pair_score
  pair_score-InRange s b =
      with_points-InRange (amount_diff s b) _
        (omega (arith, text_points-le read s b, reference_points-le s b, date_points-le _))

  Assigned-scores :
      (bs : List (Transaction M)) {ids all : List Uuid} {ss m u : List (StatementTransaction M)}
      → Assigned read bs ids ss m u all
      → All (λ s. Scored s.match_score) m
  Assigned-scores bs done = tt
  Assigned-scores bs (left_over _ rest) = Assigned-scores bs rest
  Assigned-scores bs (taken b score best rest) =
      (subst InRange best.scored (pair_score-InRange _ b), Assigned-scores bs rest)

  -- Every line that is matched has a score, which lies between 80 and 210.
  pub match_transactions-scores :
      (ss : List (StatementTransaction M)) (bs : List (Transaction M))
      → All (λ s. Scored s.match_score) (match_transactions read ss bs).0
  match_transactions-scores ss bs = Assigned-scores bs (match_transactions-Assigned read bs ss).1

  -- A pair is passed over exactly when its amounts differ, and by more than the tolerance: dates,
  -- descriptions and references do not keep a line from being matched.
  pair_score-none_iff :
      (s : StatementTransaction M) (b : Transaction M)
      → (pair_score read s b ≡ none) ↔ (
          (dec_eq (amount_diff s b) d.dec_0 ≡ false) × (dec_le (amount_diff s b) tolerance ≡ false))
  unfolding pair_score amount_points
  pair_score-none_iff s b = (λ h. (ground arith, ground arith), λ h. ground arith)
