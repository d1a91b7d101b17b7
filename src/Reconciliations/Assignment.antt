-- ===== src/Reconciliations/Assignment.antt =====
-- What the matching returns: each line with the best transaction that is free, and none twice
-- (RichdaleAccounting/nexus-core/src/accounting/reconciliation.rs).
use mathlib.Core.Path.{fun_ext}
use rich_aim_acct_inv.Prelude.{
  ℕ, ◌≡◌, ◌==◌, ◌∙◌, refl, sym, ap, true, false, ◌||◌, not, none, List, [], ◌∷◌, All, filter, arith,
  Bool-cases, Option-cases, inl, inr,
}
use rich_aim_acct_inv.Money.{Decimal, Division, Rates}
use rich_aim_acct_inv.Financial.{Uuid, Transaction}
use rich_aim_acct_inv.Reconciliations.{
  StatementTransaction, contains, Reading, best_match, match_lines, match_transactions, as_matched,
  matched_ids,
}
use rich_aim_acct_inv.Reconciliations.Optimal.{Best, Unfit, best_match-Best, best_match-none}

abbrev pub Distinct : List Uuid → Type 0
Distinct [] = Unit
Distinct (x ∷ xs) = (contains xs x ≡ false) × Distinct xs

new_of_both :
    (k : Uuid) (ids xs : List Uuid)
    → All (λ x. contains (k ∷ ids) x ≡ false) xs
    → All (λ x. contains ids x ≡ false) xs × (contains xs k ≡ false)
new_of_both k ids [] h = (tt, refl)
new_of_both k ids (x ∷ xs) h =
    let (new, other) = new_of_both k ids xs h.1 in
    elim (Bool-cases (k == x)) [
      | inl same ↦
          let clash : true ≡ false = sym (rw same refl) ∙ h.0 in
          let no_way : ⊥ = cc clash in absurd no_way
      | inr differs ↦ ((sym (rw differs refl) ∙ h.0, new), ground (arith, other))
    ]

module _ {M : Type 0} ⦃d : Decimal M⦄ ⦃q : Division M⦄ ⦃r : Rates M⦄ (read : Reading)
    (bs : List (Transaction M)) where
  -- The lines in their order, from the ids that are taken: each gets the best transaction that is
  -- free, which is then taken, or is left over because there is none that it can have. `all` are
  -- the ids that are taken at the end.
  pub data Assigned
      : List Uuid
        → List (StatementTransaction M)
        → List (StatementTransaction M)
        → List (StatementTransaction M)
        → List Uuid
        → Type 0 where
    done : {ids : List Uuid} → Assigned ids [] [] [] ids
    taken :
        {ids all : List Uuid} {s : StatementTransaction M} {ss m u : List (StatementTransaction M)}
        (b : Transaction M) (score : ℕ)
        → Best read ids s bs b score
        → Assigned (b.id ∷ ids) ss m u all
        → Assigned ids (s ∷ ss) (as_matched s b.id score ∷ m) u all
    left_over :
        {ids all : List Uuid} {s : StatementTransaction M} {ss m u : List (StatementTransaction M)}
        → All (Unfit read ids s) bs
        → Assigned ids ss m u all
        → Assigned ids (s ∷ ss) m (s ∷ u) all

  match_lines-Assigned :
      (ids : List Uuid) (ss : List (StatementTransaction M))
      → Assigned ids ss
          (match_lines read bs ids ss).0
          (match_lines read bs ids ss).1
          (match_lines read bs ids ss).2
  unfolding match_lines
  match_lines-Assigned ids [] = done
  match_lines-Assigned ids (s ∷ ss) = elim (Option-cases (best_match read ids s bs none)) [
    | inl out ↦
        rw (out, match_lines)
          (left_over (best_match-none read ids s bs none out).1 (match_lines-Assigned ids ss))
    | inr ((b, score), found) ↦
        rw (found, match_lines)
          (taken b score (best_match-Best read ids s bs b score found)
            (match_lines-Assigned (b.id ∷ ids) ss))
  ]

  -- An id is taken at the end if it was before or a line got it, and no line gets one that was.
  record Apart (ids all : List Uuid) (m : List (StatementTransaction M)) : Type 0 where
    once : Distinct (matched_ids m)
    new : All (λ x. contains ids x ≡ false) (matched_ids m)
    union : (x : Uuid) → contains all x ≡ contains ids x || contains (matched_ids m) x

  Assigned-Apart :
      {ids all : List Uuid} {ss m u : List (StatementTransaction M)}
      → Assigned ids ss m u all
      → Apart ids all m
  Assigned-Apart done = record { once = tt; new = tt; union = λ x. ground arith }
  Assigned-Apart (left_over _ rest) = Assigned-Apart rest
  Assigned-Apart (taken b score best rest) =
      let a = Assigned-Apart rest in
      let (new, other) = new_of_both b.id _ _ a.new in
      record {
        once = (other, a.once);
        new = (best.free, new);
        union = λ x. ground (arith, a.union x);
      }

  -- The lines matched, in the order of the statement, and those left over come about as follows:
  -- line by line, the line is matched with a transaction that is free and has the most points of
  -- those free, which is then taken; or it is left over, as each transaction is taken or its
  -- amount is too far off.
  pub match_transactions-Assigned :
      (ss : List (StatementTransaction M))
      → (all : List Uuid) × Assigned [] ss
          (match_transactions read ss bs).0
          (match_transactions read ss bs).1
          all
  unfolding match_transactions
  match_transactions-Assigned ss = ((match_lines read bs [] ss).2, match_lines-Assigned [] ss)

  -- No two lines are matched with the same transaction, and the booked transactions that are
  -- returned as unmatched are those, in order, that no line is matched with.
  pub match_transactions_once :
      (ss : List (StatementTransaction M))
      → Distinct (matched_ids (match_transactions read ss bs).0)
        × ((match_transactions read ss bs).2
            ≡ filter (λ b. not (contains (matched_ids (match_transactions read ss bs).0) b.id)) bs)
  unfolding match_transactions
  match_transactions_once ss =
      let a = Assigned-Apart (match_lines-Assigned [] ss) in
      (a.once, ap (λ f. filter (λ (b : Transaction M). not (f b.id)) bs) (fun_ext a.union))
