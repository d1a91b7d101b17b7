-- ===== src/Conflicts/Audit.antt =====
-- What the log tells of a conflict (RichdaleAccounting/nexus-core/src/edge/conflict.rs).
use mathlib.Core.Option
use text.Mathlib.TextEquality.{eq_iff}
use rich_aim_acct_inv.Prelude.{
  ℕ, ◌≡◌, ◌≢◌, ◌<◌, ◌==◌, ◌∙◌, ◌⊎◌, refl, sym, ap, true, false, none, some, List, [], ◌∷◌, ◌++◌,
  String, All, All-find, arith, Bool-cases, Option-cases, inl, inr, if◌then◌else◌, eq_self,
}
use rich_aim_acct_inv.Conflicts.{LogRow, is_of_entity, latest, update_row, row_by_id}
use rich_aim_acct_inv.Conflicts.Invariant.{Apart, Separate}

none-ne-some : {A : Type 0} {a : A} → none ≢ some a
none-ne-some h = ground arith

pub row_by_id-update_row :
    (id : ℕ) (f : LogRow → LogRow) (rows : List LogRow) (r : LogRow)
    → ((x : LogRow) → (f x).id ≡ x.id)
    → row_by_id id rows ≡ some r
    → row_by_id id (update_row id f rows) ≡ some (f r)
unfolding update_row
row_by_id-update_row id f [] r keeps h = absurd (none-ne-some h)
row_by_id-update_row id f (x ∷ rows) r keeps h = elim (Bool-cases (x.id == id)) [
  | inl hit ↦
      let same : some x ≡ some r = sym (rw hit refl) ∙ h in
      let hit' : ((f x).id == id) ≡ true = ap (λ n. n == id) (keeps x) ∙ hit in
      rw (hit, hit') (ap (Option.map f) same)
  | inr miss ↦ rw (miss, miss) (row_by_id-update_row id f rows r keeps (sym (rw miss refl) ∙ h))
]

pub row_by_id-append :
    (rows : List LogRow) (n : LogRow)
    → All (λ r. r.id < n.id) rows
    → row_by_id n.id (rows ++ n ∷ []) ≡ some n
row_by_id-append [] n v = rw (eq_self n.id) refl
row_by_id-append (r ∷ rows) n v =
    let other : (r.id == n.id) ≡ false = ground arith in rw other (row_by_id-append rows n v.1)

row_by_id-id : (id : ℕ) (rows : List LogRow) (x : LogRow) → row_by_id id rows ≡ some x → x.id ≡ id
row_by_id-id id [] x h = absurd (none-ne-some h)
row_by_id-id id (r ∷ rows) x h = elim (Bool-cases (r.id == id)) [
  | inl hit ↦ let same : some r ≡ some x = sym (rw hit refl) ∙ h in ground arith
  | inr miss ↦ row_by_id-id id rows x (sym (rw miss refl) ∙ h)
]

-- Rows that are not of an entity.
abbrev pub NotOf : String → String → LogRow → Type 0
NotOf ty en r = is_of_entity ty en r ≡ false

pub latest-none :
    (ty en : String) (rows : List LogRow) → latest ty en rows ≡ none → All (NotOf ty en) rows
unfolding latest
latest-none ty en [] h = tt
latest-none ty en (r ∷ rows) h = elim (Option-cases (latest ty en rows)) [
  | inr (id, found) ↦
      let now : latest ty en (r ∷ rows) ≡ some id = rw found refl in
      absurd (none-ne-some (sym h ∙ now))
  | inl none_later ↦
      let here : (if is_of_entity ty en r then some r.id else none) ≡ none =
        sym (rw none_later refl) ∙ h in
      (ground arith, latest-none ty en rows none_later)
]

-- The entry of an entity: it is found by its id, and no other row is of the entity.
pub record OneEntry (ty en : String) (id : ℕ) (rows : List LogRow) (x : LogRow) : Type 0 where
  pub found : row_by_id id rows ≡ some x
  pub its_type : x.entity_type ≡ ty
  pub its_id : x.entity_id ≡ en
  pub others : All (λ r. NotOf ty en r ⊎ (r.id ≡ id)) rows

All-inl :
    (ty en : String) (id : ℕ) (rows : List LogRow)
    → All (NotOf ty en) rows
    → All (λ r. NotOf ty en r ⊎ (r.id ≡ id)) rows
All-inl ty en id [] v = tt
All-inl ty en id (r ∷ rows) v = (inl v.0, All-inl ty en id rows v.1)

pub latest-OneEntry :
    (ty en : String) (rows : List LogRow) (id : ℕ)
    → Separate rows
    → latest ty en rows ≡ some id
    → (x : LogRow) × OneEntry ty en id rows x
unfolding latest
latest-OneEntry ty en [] id v h = absurd (none-ne-some h)
latest-OneEntry ty en (r ∷ rows) id v h = elim (Option-cases (latest ty en rows)) [
  | inr (j, later) ↦
      let same : some j ≡ some id = sym (rw later refl) ∙ h in
      let (x, one) = latest-OneEntry ty en rows id v.1 (later ∙ same) in
      let apart : Apart r x = All-find (Apart r) (λ y. y.id == id) rows x v.0 one.found in
      let own = row_by_id-id id rows x one.found in
      (
        x,
        record {
          found = let other : (r.id == id) ≡ false = ground arith in rw other one.found;
          its_type = one.its_type;
          its_id = one.its_id;
          others = (inl (ground (arith, one.its_type, one.its_id)), one.others);
        },
      )
  | inl none_later ↦
      let here : (if is_of_entity ty en r then some r.id else none) ≡ some id =
        sym (rw none_later refl) ∙ h in
      (
        r,
        record {
          found = ground arith;
          its_type = ground (arith, eq_iff r.entity_type ty);
          its_id = ground (arith, eq_iff r.entity_id en);
          others = (inr (ground arith), All-inl ty en id rows (latest-none ty en rows none_later));
        },
      )
]
