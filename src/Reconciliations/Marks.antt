-- ===== src/Reconciliations/Marks.antt =====
-- Marking transactions, and the reconciliation of an account
-- (RichdaleAccounting/nexus-core/src/accounting/reconciliation.rs).
use mathlib.Core.Path.{subst}
use rich_aim_acct_inv.Prelude.{
  ◌≡◌, ◌==◌, ◌∙◌, ◌⊎◌, refl, sym, ap, true, false, ◌||◌, some, List, [], ◌∷◌, ◌++◌, arith,
  Bool-cases, Option-cases, inl, inr, if◌then◌else◌, ok, eq_self,
}
use rich_aim_acct_inv.Prelude.OrdMap.{get?, insert, get?-insert, Every, Every-insert, Every-get?}
use rich_aim_acct_inv.Prelude.State.{pure, after_ok}
use rich_aim_acct_inv.Financial.{Uuid}
use rich_aim_acct_inv.Reconciliations.{
  Reconciliation, ReconciliationProcessor, contains, without, with_id, reconciled, unreconciled,
  update_reconciliation, get_reconciliation, mark_transaction_reconciled,
  mark_transaction_unreconciled,
}

contains-without :
    (t x : Uuid) (ids : List Uuid)
    → contains (without t ids) x ≡ (if t == x then false else contains ids x)
contains-without t x [] = ground arith
contains-without t x (y ∷ ys) = ground (arith, contains-without t x ys)

contains-append :
    (xs ys : List Uuid) (x : Uuid) → contains (xs ++ ys) x ≡ contains xs x || contains ys x
contains-append [] ys x = refl
contains-append (y ∷ xs) ys x = ground (arith, contains-append xs ys x)

contains-with_id :
    (t x : Uuid) (ids : List Uuid)
    → contains (with_id t ids) x ≡ (if t == x then true else contains ids x)
contains-with_id t x ids =
    ground (arith, contains-append ids (t ∷ []) x, contains-append ids (t ∷ []) t)

-- No transaction is both reconciled and outstanding.
abbrev pub Disjoint : {M : Type 0} → Reconciliation M → Type 0
Disjoint r =
    (x : Uuid)
    → (contains r.reconciled_transactions x ≡ false)
      ⊎ (contains r.outstanding_transactions x ≡ false)

module _ {M : Type 0} where
  reconciled-Disjoint : (t : Uuid) (r : Reconciliation M) → Disjoint r → Disjoint (reconciled t r)
  reconciled-Disjoint t r v x = elim (Bool-cases (t == x)) [
    | inl same ↦ inr (contains-without t x r.outstanding_transactions ∙ rw same refl)
    | inr other ↦ elim (v x) [
      | inl out ↦ inl (contains-with_id t x r.reconciled_transactions ∙ rw other out)
      | inr out ↦ inr (contains-without t x r.outstanding_transactions ∙ rw other out)
    ]
  ]

  unreconciled-Disjoint :
      (t : Uuid) (r : Reconciliation M) → Disjoint r → Disjoint (unreconciled t r)
  unreconciled-Disjoint t r v x = elim (Bool-cases (t == x)) [
    | inl same ↦ inl (contains-without t x r.reconciled_transactions ∙ rw same refl)
    | inr other ↦ elim (v x) [
      | inl out ↦ inl (contains-without t x r.reconciled_transactions ∙ rw other out)
      | inr out ↦ inr (contains-with_id t x r.outstanding_transactions ∙ rw other out)
    ]
  ]

  -- A stored reconciliation that is written back, changed but for its id.
  written_back :
      (f : Reconciliation M → Reconciliation M) (id : Uuid) (p : ReconciliationProcessor M)
      (r : Reconciliation M)
      → get? id p.reconciliations ≡ some r
      → r.id ≡ id
      → (f r).id ≡ r.id
      → update_reconciliation r.id (f r) p
        ≡ (ok (f r), record p { reconciliations = insert id (f r) p.reconciliations })
  unfolding update_reconciliation
  written_back f id p r there own keeps =
      let same : ((f r).id == r.id) ≡ true = ground arith in rw (same, own, there) refl

  mark_transaction_reconciled_lem :
      (id t : Uuid) (p : ReconciliationProcessor M) (r : Reconciliation M)
      → get? id p.reconciliations ≡ some r
      → r.id ≡ id
      → mark_transaction_reconciled id t p
        ≡ (ok tt, record p { reconciliations = insert id (reconciled t r) p.reconciliations })
  unfolding mark_transaction_reconciled get_reconciliation
  mark_transaction_reconciled_lem id t p r there own =
      rw (there, mark_transaction_reconciled)
        (after_ok (update_reconciliation r.id (reconciled t r)) (λ _. pure tt) p _ (reconciled t r)
          (written_back (reconciled t) id p r there own refl))

  mark_transaction_unreconciled_lem :
      (id t : Uuid) (p : ReconciliationProcessor M) (r : Reconciliation M)
      → get? id p.reconciliations ≡ some r
      → r.id ≡ id
      → mark_transaction_unreconciled id t p
        ≡ (ok tt, record p { reconciliations = insert id (unreconciled t r) p.reconciliations })
  unfolding mark_transaction_unreconciled get_reconciliation
  mark_transaction_unreconciled_lem id t p r there own =
      rw (there, mark_transaction_unreconciled)
        (after_ok (update_reconciliation r.id (unreconciled t r)) (λ _. pure tt) p _
          (unreconciled t r) (written_back (unreconciled t) id p r there own refl))

  -- The same transactions are reconciled, and the same are outstanding.
  pub record SameMarks (r r' : Reconciliation M) : Type 0 where
    pub same_reconciled :
        (x : Uuid) → contains r'.reconciled_transactions x ≡ contains r.reconciled_transactions x
    pub same_outstanding :
        (x : Uuid) → contains r'.outstanding_transactions x ≡ contains r.outstanding_transactions x

  marks-SameMarks :
      (t : Uuid) (r : Reconciliation M)
      → contains r.reconciled_transactions t ≡ false
      → contains r.outstanding_transactions t ≡ true
      → SameMarks r (unreconciled t (reconciled t r))
  marks-SameMarks t r out listed = record {
    same_reconciled = λ x.
        contains-without t x (reconciled t r).reconciled_transactions
        ∙ ground (arith, contains-with_id t x r.reconciled_transactions);
    same_outstanding = λ x.
        contains-with_id t x (reconciled t r).outstanding_transactions
        ∙ ground (arith, contains-without t x r.outstanding_transactions);
  }

  -- A transaction has become reconciled and is outstanding no longer; all others are as before.
  pub record IsMarked (t : Uuid) (r r' : Reconciliation M) : Type 0 where
    pub is_reconciled : contains r'.reconciled_transactions t ≡ true
    pub not_outstanding : contains r'.outstanding_transactions t ≡ false
    pub others_reconciled :
        (x : Uuid)
        → (t == x) ≡ false
        → contains r'.reconciled_transactions x ≡ contains r.reconciled_transactions x
    pub others_outstanding :
        (x : Uuid)
        → (t == x) ≡ false
        → contains r'.outstanding_transactions x ≡ contains r.outstanding_transactions x

  reconciled-IsMarked : (t : Uuid) (r : Reconciliation M) → IsMarked t r (reconciled t r)
  reconciled-IsMarked t r = record {
    is_reconciled = contains-with_id t t r.reconciled_transactions ∙ rw (eq_self t) refl;
    not_outstanding = contains-without t t r.outstanding_transactions ∙ rw (eq_self t) refl;
    others_reconciled = λ x other. contains-with_id t x r.reconciled_transactions ∙ rw other refl;
    others_outstanding = λ x other. contains-without t x r.outstanding_transactions ∙ rw other refl;
  }

  -- Marking an outstanding transaction of a reconciliation that is stored under its id as
  -- reconciled stores a reconciliation there in which it is reconciled and not outstanding, and all
  -- others are as before. Marking it as not reconciled then leaves one with the same transactions
  -- reconciled and the same outstanding as at first.
  pub mark-roundtrip :
      (id t : Uuid) (p : ReconciliationProcessor M) (r : Reconciliation M)
      → get? id p.reconciliations ≡ some r
      → r.id ≡ id
      → contains r.reconciled_transactions t ≡ false
      → contains r.outstanding_transactions t ≡ true
      → (r1 : Reconciliation M) × (r2 : Reconciliation M) × (get_reconciliation id
            (mark_transaction_reconciled id t p).1
          ≡ some r1)
        × IsMarked t r r1
        × (get_reconciliation id
              (mark_transaction_unreconciled id t (mark_transaction_reconciled id t p).1).1
            ≡ some r2)
        × SameMarks r r2
  unfolding get_reconciliation
  mark-roundtrip id t p r there own out listed =
      let p1 : ReconciliationProcessor M = record p {
        reconciliations = insert id (reconciled t r) p.reconciliations;
      } in
      let first : (mark_transaction_reconciled id t p).1 ≡ p1 =
        ap (λ w. w.1) (mark_transaction_reconciled_lem id t p r there own) in
      let stored : get? id p1.reconciliations ≡ some (reconciled t r) =
        get?-insert id id (reconciled t r) p.reconciliations ∙ rw (eq_self id) refl in
      let second : (mark_transaction_unreconciled id t p1).1.reconciliations
          ≡ insert id (unreconciled t (reconciled t r)) p1.reconciliations =
        ap (λ w. w.1.reconciliations)
          (mark_transaction_unreconciled_lem id t p1 (reconciled t r) stored own) in
      (
        reconciled t r,
        unreconciled t (reconciled t r),
        ap (λ w. get? id w.reconciliations) first ∙ stored,
        reconciled-IsMarked t r,
        ap (λ w. get? id (mark_transaction_unreconciled id t w).1.reconciliations) first
            ∙ ap (get? id) second
            ∙ get?-insert id id (unreconciled t (reconciled t r)) p1.reconciliations
            ∙ rw (eq_self id) refl,
        marks-SameMarks t r out listed,
      )

  -- What marking does, successfully or not, keeps each reconciliation's reconciled and outstanding
  -- transactions apart, if every stored one is stored under its id.
  mark-Disjoint :
      (id t : Uuid) (p : ReconciliationProcessor M)
      → ((k : Uuid) (r : Reconciliation M) → get? k p.reconciliations ≡ some r → r.id ≡ k)
      → Every Disjoint p.reconciliations
      → Every Disjoint (mark_transaction_reconciled id t p).1.reconciliations
        × Every Disjoint (mark_transaction_unreconciled id t p).1.reconciliations
  unfolding mark_transaction_reconciled mark_transaction_unreconciled get_reconciliation
  mark-Disjoint id t p own v = elim (Option-cases (get? id p.reconciliations)) [
    | inl missing ↦ rw (missing, mark_transaction_reconciled, mark_transaction_unreconciled) (v, v)
    | inr (r, there) ↦
        let d = Every-get? Disjoint id p.reconciliations r v there in
        (
          subst (λ w. Every Disjoint w.1.reconciliations)
              (sym (mark_transaction_reconciled_lem id t p r there (own id r there)))
              (Every-insert Disjoint id (reconciled t r) p.reconciliations
                (reconciled-Disjoint t r d) v),
          subst (λ w. Every Disjoint w.1.reconciliations)
              (sym (mark_transaction_unreconciled_lem id t p r there (own id r there)))
              (Every-insert Disjoint id (unreconciled t r) p.reconciliations
                (unreconciled-Disjoint t r d) v),
        )
  ]
