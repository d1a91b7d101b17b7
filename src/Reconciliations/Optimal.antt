-- ===== src/Reconciliations/Optimal.antt =====
-- The matching against what it is for: each line gets the best free transaction
-- (RichdaleAccounting/nexus-core/src/accounting/reconciliation.rs).
use mathlib.Core.Path.{subst}
use native.Mathlib.Nat.{le_trans}
use rich_aim_acct_inv.Prelude.{
  sym, ap, ℕ, ◌≤◌, ◌≡◌, ◌≢◌, ◌∙◌, ◌⊎◌, refl, true, false, Option, none, some, List, [], ◌∷◌, All,
  arith, Bool-cases, Option-cases, inl, inr, if◌then◌else◌, ltb,
}
use rich_aim_acct_inv.Money.{Decimal, Division, Rates}
use rich_aim_acct_inv.Financial.{Uuid, Transaction}
use rich_aim_acct_inv.Reconciliations.{
  StatementTransaction, contains, Reading, pair_score, better, best_match,
}

none-ne-some : {A : Type 0} {a : A} → none ≢ some a
none-ne-some h = ground arith

abbrev fst_or : {A : Type 0} → A → Option (A × ℕ) → A
fst_or a none = a
fst_or a (some (b, n)) = b

abbrev snd_of : {A : Type 0} → Option (A × ℕ) → Option ℕ
snd_of none = none
snd_of (some (b, n)) = some n

module _ {M : Type 0} where
  -- A transaction of a list.
  abbrev pub In : Transaction M → List (Transaction M) → Type 0
  In b [] = ⊥
  In b (x ∷ xs) = (x ≡ b) ⊎ In b xs

  better_source :
      (o : Option ℕ) (x : Transaction M) (best : Option (Transaction M × ℕ)) (b : Transaction M)
      (n : ℕ)
      → better o x best ≡ some (b, n)
      → (best ≡ some (b, n)) ⊎ ((x ≡ b) × (o ≡ some n))
  better_source none x best b n h = inl h
  better_source (some m) x none b n h = inr (ground arith, ground arith)
  better_source (some m) x (some (b', k)) b n h = elim (Bool-cases (ltb k m)) [
    | inl more ↦
        let won : some (x, m) ≡ some (b, n) = sym (rw more refl) ∙ h in
        inr (ap (λ w. (fst_or x w)) won, ap snd_of won)
    | inr less ↦ inl (sym (rw less refl) ∙ h)
  ]

  better_keeps :
      (o : Option ℕ) (x : Transaction M) (best : Option (Transaction M × ℕ)) (b' : Transaction M)
      (n : ℕ)
      → best ≡ some (b', n)
      → (w : Transaction M) × (m : ℕ) × (better o x best ≡ some (w, m)) × (n ≤ m)
  better_keeps none x best b' n h = (b', n, h, omega arith)
  better_keeps (some m) x none b' n h = (let no_pair : ⊥ = ground arith in absurd no_pair)
  better_keeps (some m) x (some (c, k)) b' n h =
      let same : k ≡ n = ground arith in
      elim (Bool-cases (ltb k m)) [
        | inl more ↦ (x, m, rw more refl, ground arith)
        | inr less ↦ (c, k, rw less refl, omega arith)
      ]

  better_takes :
      (n : ℕ) (x : Transaction M) (best : Option (Transaction M × ℕ))
      → (w : Transaction M) × (m : ℕ) × (better (some n) x best ≡ some (w, m)) × (n ≤ m)
  better_takes n x none = (x, n, refl, omega arith)
  better_takes n x (some (c, k)) = elim (Bool-cases (ltb k n)) [
    | inl more ↦ (x, n, rw more refl, omega arith)
    | inr less ↦ (c, k, rw less refl, ground arith)
  ]

module _ {M : Type 0} ⦃d : Decimal M⦄ ⦃q : Division M⦄ ⦃r : Rates M⦄ (read : Reading) where
  -- A transaction that a line cannot have: it is taken, or its amount is too far off.
  abbrev pub Unfit : List Uuid → StatementTransaction M → Transaction M → Type 0
  Unfit ids s b = (contains ids b.id ≡ true) ⊎ (pair_score read s b ≡ none)

  -- A transaction that a line cannot have, or that has no more points than those given.
  abbrev pub Beaten : List Uuid → StatementTransaction M → ℕ → Transaction M → Type 0
  Beaten ids s score b =
      Unfit ids s b ⊎ ((points : ℕ) × (pair_score read s b ≡ some points) × (points ≤ score))

  -- A free transaction with the points given, and none has more.
  pub record Best (ids : List Uuid) (s : StatementTransaction M) (bs : List (Transaction M))
      (b : Transaction M) (score : ℕ) : Type 0 where
    pub booked : In b bs
    pub free : contains ids b.id ≡ false
    pub scored : pair_score read s b ≡ some score
    pub beats : All (Beaten ids s score) bs

  abbrev offer : List Uuid → StatementTransaction M → Transaction M → Option ℕ
  offer ids s b = if contains ids b.id then none else pair_score read s b

  -- What the loop ends with, from a best match so far.
  record Won (ids : List Uuid) (s : StatementTransaction M) (bs : List (Transaction M))
      (best : Option (Transaction M × ℕ)) (b : Transaction M) (score : ℕ) : Type 0 where
    from : (best ≡ some (b, score)) ⊎ (In b bs × (offer ids s b ≡ some score))
    kept : (b' : Transaction M) (n : ℕ) → best ≡ some (b', n) → n ≤ score
    others : All (Beaten ids s score) bs

  best_match-Won :
      (ids : List Uuid) (s : StatementTransaction M) (bs : List (Transaction M))
      (best : Option (Transaction M × ℕ)) (b : Transaction M) (score : ℕ)
      → best_match read ids s bs best ≡ some (b, score)
      → Won ids s bs best b score
  unfolding best_match
  best_match-Won ids s [] best b score h = record {
    from = inl h;
    kept = λ b' n e. ground arith;
    others = tt;
  }
  best_match-Won ids s (x ∷ xs) best b score h =
      let w = best_match-Won ids s xs (better (offer ids s x) x best) b score h in
      record {
        from = elim w.from [
          | inl e ↦ elim (better_source (offer ids s x) x best b score e) [
            | inl was ↦ inl was
            | inr (same, o) ↦ inr (inl same, subst (λ t. offer ids s t ≡ some score) same o)
          ]
          | inr (later, o) ↦ inr (inr later, o)
        ];
        kept = λ b' n e.
            let (c, m, now, more) = better_keeps (offer ids s x) x best b' n e in
            le_trans more (w.kept c m now);
        others = (
          elim (Bool-cases (contains ids x.id)) [
            | inl taken ↦ inl (inl taken)
            | inr free ↦ elim (Option-cases (pair_score read s x)) [
              | inl too_far ↦ inl (inr too_far)
              | inr (n, points) ↦
                  let (c, m, now, more) = better_takes n x best in
                  let offered : offer ids s x ≡ some n = rw free points in
                  inr (
                    n,
                    points,
                    le_trans more (w.kept c m (ap (λ o. better o x best) offered ∙ now)),
                  )
            ]
          ],
          w.others,
        );
      }

  pub best_match-none :
      (ids : List Uuid) (s : StatementTransaction M) (bs : List (Transaction M))
      (best : Option (Transaction M × ℕ))
      → best_match read ids s bs best ≡ none
      → (best ≡ none) × All (Unfit ids s) bs
  unfolding best_match
  best_match-none ids s [] best h = (h, tt)
  best_match-none ids s (x ∷ xs) best h =
      let (now, rest) = best_match-none ids s xs (better (offer ids s x) x best) h in
      elim (Option-cases (offer ids s x)) [
        | inl out ↦ (
          ap (λ o. better o x best) (sym out) ∙ now,
          (
            elim (Bool-cases (contains ids x.id)) [
              | inl taken ↦ inl taken
              | inr free ↦ inr (sym (rw free refl) ∙ out)
            ],
            rest,
          ),
        )
        | inr (n, offered) ↦
            let (c, m, taken, more) = better_takes n x best in
            let clash : none ≡ some (c, m) = sym now ∙ ap (λ o. better o x best) offered ∙ taken in
            absurd (none-ne-some clash)
      ]

  pub best_match-Best :
      (ids : List Uuid) (s : StatementTransaction M) (bs : List (Transaction M)) (b : Transaction M)
      (score : ℕ)
      → best_match read ids s bs none ≡ some (b, score)
      → Best ids s bs b score
  best_match-Best ids s bs b score h =
      let w = best_match-Won ids s bs none b score h in
      elim w.from [
        | inl e ↦ absurd (none-ne-some e)
        | inr (booked, offered) ↦ elim (Bool-cases (contains ids b.id)) [
          | inl taken ↦
              let clash : none ≡ some score = sym (rw taken refl) ∙ offered in
              absurd (none-ne-some clash)
          | inr free ↦ record {
            booked = booked;
            free = free;
            scored = sym (rw free refl) ∙ offered;
            beats = w.others;
          }
        ]
      ]
