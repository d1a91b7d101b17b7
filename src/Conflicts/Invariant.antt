-- ===== src/Conflicts/Invariant.antt =====
-- One entry of the log for each entity (RichdaleAccounting/nexus-core/src/edge/conflict.rs).
use rich_aim_acct_inv.Prelude.{
  ℕ, ◌≡◌, ◌≢◌, ◌<◌, ◌+◌, ◌==◌, ◌∙◌, refl, sym, false, none, some, List, [], ◌∷◌, ◌++◌, All,
  All-append, arith, Bool-cases, Option-cases, Result-cases, inl, inr, if◌then◌else◌,
}
use rich_aim_acct_inv.Financial.{DateTime}
use rich_aim_acct_inv.Conflicts.{
  Codec, ConflictResolver, LogRow, SyncConflict, with_rows, fresh_row, inserted_row, is_of_entity,
  latest, update_row, write_conflict, log_conflict,
}

-- Two rows with different ids, and for different entities.
abbrev pub Apart : LogRow → LogRow → Type 0
Apart a b = (a.id ≢ b.id) × (is_of_entity b.entity_type b.entity_id a ≡ false)

abbrev pub Separate : List LogRow → Type 0
Separate [] = Unit
Separate (r ∷ rows) = All (Apart r) rows × Separate rows

-- The log has one entry for each entity, ids are distinct, and the next one is new.
pub record IsLog (s : ConflictResolver) : Type 0 where
  pub below : All (λ r. r.id < s.next_id) s.rows
  pub separate : Separate s.rows

-- An update that leaves the key columns as they are.
abbrev pub Keeps : (LogRow → LogRow) → Type 0
Keeps f =
    (r : LogRow)
    → ((f r).id ≡ r.id) × ((f r).entity_type ≡ r.entity_type) × ((f r).entity_id ≡ r.entity_id)

All-update_row :
    (P : LogRow → Type 0) (id : ℕ) (f : LogRow → LogRow) (rows : List LogRow)
    → ((r : LogRow) → P r → P (f r))
    → All P rows
    → All P (update_row id f rows)
unfolding update_row
All-update_row P id f [] h v = tt
All-update_row P id f (r ∷ rows) h v = elim (Bool-cases (r.id == id)) [
  | inl hit ↦ rw hit (h r v.0, All-update_row P id f rows h v.1)
  | inr miss ↦ rw miss (v.0, All-update_row P id f rows h v.1)
]

Apart-right : (f : LogRow → LogRow) → Keeps f → (a b : LogRow) → Apart a b → Apart a (f b)
Apart-right f keeps a b v = rw ((keeps b).0, (keeps b).1, (keeps b).2) v

Apart-left : (f : LogRow → LogRow) → Keeps f → (a b : LogRow) → Apart a b → Apart (f a) b
Apart-left f keeps a b v = rw ((keeps a).0, (keeps a).1, (keeps a).2) v

All-Apart-right :
    (id : ℕ) (f : LogRow → LogRow)
    → Keeps f
    → (a : LogRow) (rows : List LogRow) → All (Apart a) rows
    → All (Apart a) (update_row id f rows)
All-Apart-right id f keeps a rows v =
    All-update_row (Apart a) id f rows (λ b. Apart-right f keeps a b) v

All-Apart-left :
    (f : LogRow → LogRow)
    → Keeps f
    → (a : LogRow) (rows : List LogRow) → All (Apart a) rows
    → All (Apart (f a)) rows
All-Apart-left f keeps a [] v = tt
All-Apart-left f keeps a (b ∷ rows) v =
    (Apart-left f keeps a b v.0, All-Apart-left f keeps a rows v.1)

Separate-update_row :
    (id : ℕ) (f : LogRow → LogRow)
    → Keeps f
    → (rows : List LogRow) → Separate rows
    → Separate (update_row id f rows)
unfolding update_row
Separate-update_row id f keeps [] v = tt
Separate-update_row id f keeps (r ∷ rows) v = elim (Bool-cases (r.id == id)) [
  | inl hit ↦ rw hit (
    All-Apart-left f keeps r (update_row id f rows) (All-Apart-right id f keeps r rows v.0),
    Separate-update_row id f keeps rows v.1,
  )
  | inr miss ↦
      rw miss (All-Apart-right id f keeps r rows v.0, Separate-update_row id f keeps rows v.1)
]

pub updated-IsLog :
    (id : ℕ) (f : LogRow → LogRow) (s : ConflictResolver)
    → Keeps f
    → IsLog s
    → IsLog (with_rows (update_row id f) s)
updated-IsLog id f s keeps v = record {
  below = All-update_row (λ r. r.id < s.next_id) id f s.rows (λ r h. rw (keeps r).0 h) v.below;
  separate = Separate-update_row id f keeps s.rows v.separate;
}

-- A row that is put behind the others.
Separate-append :
    (rows : List LogRow) (n : LogRow)
    → Separate rows
    → All (λ r. Apart r n) rows
    → Separate (rows ++ n ∷ [])
Separate-append [] n v h = (tt, tt)
Separate-append (r ∷ rows) n v h =
    (All-append (Apart r) rows (n ∷ []) v.0 (h.0, tt), Separate-append rows n v.1 h.1)

-- A new id, for an entity that has no entry.
new_for-All :
    (rows : List LogRow) (n : LogRow)
    → All (λ r. r.id < n.id) rows
    → latest n.entity_type n.entity_id rows ≡ none
    → All (λ r. Apart r n) rows
unfolding latest
new_for-All [] n v h = tt
new_for-All (r ∷ rows) n v h = elim (Option-cases (latest n.entity_type n.entity_id rows)) [
  | inr (id, found) ↦
      let clash : some id ≡ none = sym (rw found refl) ∙ h in
      let no_way : ⊥ = ground arith in absurd no_way
  | inl none_later ↦
      let here : (if is_of_entity n.entity_type n.entity_id r then some r.id else none) ≡ none =
        sym (rw none_later refl) ∙ h in
      ((omega arith, ground arith), new_for-All rows n v.1 none_later)
]

grown_below : (rows : List LogRow) (n : ℕ) → All (λ r. r.id < n) rows → All (λ r. r.id < n + 1) rows
grown_below [] n v = tt
grown_below (r ∷ rows) n v = (omega arith, grown_below rows n v.1)

module _ {V : Type 0} (k : Codec V) where
  pub log_conflict-IsLog :
      (now : DateTime) (c : SyncConflict V) (s : ConflictResolver)
      → IsLog s
      → IsLog (log_conflict k now c s).1
  unfolding log_conflict write_conflict
  log_conflict-IsLog now c s v = elim (Result-cases (k.to_text c.local_data)) [
    | inr (e, unwritten) ↦ rw (unwritten, log_conflict) v
    | inl (l, local) ↦ elim (Result-cases (k.to_text c.remote_data)) [
      | inr (e, unwritten) ↦ rw (local, unwritten, log_conflict) v
      | inl (r, remote) ↦ elim (Option-cases (latest c.entity_type c.entity_id s.rows)) [
        | inr (id, found) ↦
            rw (local, remote, found, log_conflict)
              (updated-IsLog id (fresh_row k s.strategy now c l r) s (λ x. (refl, refl, refl)) v)
        | inl none_yet ↦
            let row : LogRow = inserted_row k s.next_id s.strategy now c l r in
            rw (local, remote, none_yet, log_conflict)
              (record {
                below =
                    All-append (λ x. x.id < s.next_id + 1) s.rows (row ∷ [])
                      (grown_below s.rows s.next_id v.below) (omega arith, tt);
                separate =
                    Separate-append s.rows row v.separate (new_for-All s.rows row v.below none_yet);
              })
      ]
    ]
  ]
