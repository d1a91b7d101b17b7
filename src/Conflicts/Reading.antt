-- ===== src/Conflicts/Reading.antt =====
-- Reading a logged conflict back, and what logging does to older entries
-- (RichdaleAccounting/nexus-core/src/edge/conflict.rs).
use mathlib.Core.Path.{subst}
use rich_aim_acct_inv.Prelude.{
  ℕ, ◌≡◌, ◌∙◌, ◌⊎◌, refl, sym, ap, none, some, List, [], ◌∷◌, String, All, All-append, arith,
  Option-cases, Bool-cases, inl, inr, ok, ◌==◌, ◌<◌, true, false,
}
use rich_aim_acct_inv.Financial.{DateTime}
use rich_aim_acct_inv.Conflicts.{
  Codec, ConflictResolver, ConflictResolutionStrategy, ConflictLogEntry, LogRow, SyncConflict,
  latest, update_row, row_by_id, fresh_row, inserted_row, write_conflict, log_conflict,
  get_conflict, row_to_conflict_log_entry, str_to_strategy-strategy_to_str,
}
use rich_aim_acct_inv.Conflicts.Invariant.{IsLog}
use rich_aim_acct_inv.Conflicts.Audit.{
  NotOf, latest-none, latest-OneEntry, row_by_id-append, row_by_id-update_row,
}

module _ {V : Type 0} where
  -- An entry that tells of a conflict, both versions included, and that nobody has resolved it.
  pub record Tells (c : SyncConflict V) (strategy : ConflictResolutionStrategy)
      (e : ConflictLogEntry V) : Type 0 where
    pub its_type : e.entity_type ≡ c.entity_type
    pub its_id : e.entity_id ≡ c.entity_id
    pub local_version : e.local_data ≡ c.local_data
    pub remote_version : e.remote_data ≡ c.remote_data
    pub local_time : e.local_modified_at ≡ c.local_modified_at
    pub remote_time : e.remote_modified_at ≡ c.remote_modified_at
    pub planned : e.resolution ≡ strategy
    pub unresolved : (e.winner ≡ none) × (e.resolved_at ≡ none)

  -- The entry that a freshly written row is read as.
  abbrev fresh_entry :
      ConflictResolutionStrategy → DateTime → SyncConflict V → LogRow → ConflictLogEntry V
  fresh_entry strategy now c r = record {
    id = r.id;
    entity_type = r.entity_type;
    entity_id = r.entity_id;
    local_data = c.local_data;
    remote_data = c.remote_data;
    local_modified_at = c.local_modified_at;
    remote_modified_at = c.remote_modified_at;
    resolution = strategy;
    winner = none;
    winning_data = none;
    losing_data = none;
    resolved_at = none;
    created_at = now;
  }

-- Both versions of a conflict are within the limits of `serde_json`, and every time is written with a
-- year of four digits.
pub record IsReadable {V : Type 0} (k : Codec V) (now : DateTime) (c : SyncConflict V)
    : Type 0 where
  pub local_depth : k.depth c.local_data < 128
  pub local_floats : k.has_floats c.local_data ≡ false
  pub remote_depth : k.depth c.remote_data < 128
  pub remote_floats : k.has_floats c.remote_data ≡ false
  pub local_year : k.has_four_digit_year c.local_modified_at ≡ true
  pub remote_year : k.has_four_digit_year c.remote_modified_at ≡ true
  pub now_year : k.has_four_digit_year now ≡ true

module _ {V : Type 0} (k : Codec V) (now : DateTime) (c : SyncConflict V) (local remote : String)
    (local_written : k.to_text c.local_data ≡ ok local)
    (remote_written : k.to_text c.remote_data ≡ ok remote) where
  read_fresh :
      (strategy : ConflictResolutionStrategy) (r : LogRow)
      → IsReadable k now c
      → row_to_conflict_log_entry k (fresh_row k strategy now c local remote r)
        ≡ ok (fresh_entry strategy now c r)
  unfolding row_to_conflict_log_entry
  read_fresh strategy r h =
      rw
        (
          k.of_text-to_text c.local_data local h.local_depth h.local_floats local_written,
          k.of_text-to_text c.remote_data remote h.remote_depth h.remote_floats remote_written,
          k.time_of-time_text c.local_modified_at h.local_year,
          k.time_of-time_text c.remote_modified_at h.remote_year,
          str_to_strategy-strategy_to_str strategy,
          k.time_of-time_text now h.now_year,
          row_to_conflict_log_entry,
        )
        refl

  log_conflict-write :
      (s : ConflictResolver)
      → log_conflict k now c s
        ≡ write_conflict k now c local remote (latest c.entity_type c.entity_id s.rows) s
  unfolding log_conflict
  log_conflict-write s = rw (local_written, remote_written, log_conflict) refl

  get_conflict_stored :
      (id : ℕ) (s : ConflictResolver) (r : LogRow)
      → row_by_id id s.rows ≡ some r
      → get_conflict k id s ≡ row_to_conflict_log_entry k r
  unfolding get_conflict
  get_conflict_stored id s r h = rw (h, get_conflict) refl

  Tells-of :
      (strategy : ConflictResolutionStrategy) (r : LogRow)
      → r.entity_type ≡ c.entity_type
      → r.entity_id ≡ c.entity_id
      → Tells c strategy (fresh_entry strategy now c r)
  Tells-of strategy r ty en = record {
    its_type = ty;
    its_id = en;
    local_version = refl;
    remote_version = refl;
    local_time = refl;
    remote_time = refl;
    planned = refl;
    unresolved = (refl, refl);
  }

  -- If both versions can be serialized, are nested less than 128 deep and have no floating-point
  -- number, and the years of both versions' times and of the logging have four digits: logging a
  -- conflict succeeds with the id of an entry, and reading that entry back gives the entity, both
  -- versions, both times and the resolver's strategy, not resolved.
  pub log_conflict-get_conflict :
      (s : ConflictResolver)
      → IsReadable k now c
      → IsLog s
      → (id : ℕ) × (e : ConflictLogEntry V) × ((log_conflict k now c s).0 ≡ ok id)
        × (get_conflict k id (log_conflict k now c s).1 ≡ ok e)
        × Tells c s.strategy e
  unfolding write_conflict get_conflict
  log_conflict-get_conflict s h v = elim (Option-cases (latest c.entity_type c.entity_id s.rows)) [
    | inr (id, found) ↦
        let (x, one) = latest-OneEntry c.entity_type c.entity_id s.rows id v.separate found in
        let f = fresh_row k s.strategy now c local remote in
        let written =
          log_conflict-write s ∙ ap (λ o. write_conflict k now c local remote o s) found in
        (
          id,
          fresh_entry s.strategy now c x,
          ap (λ w. w.0) written,
          ap (λ w. get_conflict k id w.1) written
              ∙ get_conflict_stored id (write_conflict k now c local remote (some id) s).1 (f x)
                  (row_by_id-update_row id f s.rows x (λ y. refl) one.found)
              ∙ read_fresh s.strategy x h,
          Tells-of s.strategy x one.its_type one.its_id,
        )
    | inl none_yet ↦
        let row = inserted_row k s.next_id s.strategy now c local remote in
        let written =
          log_conflict-write s ∙ ap (λ o. write_conflict k now c local remote o s) none_yet in
        (
          s.next_id,
          fresh_entry s.strategy now c row,
          ap (λ w. w.0) written,
          ap (λ w. get_conflict k s.next_id w.1) written
              ∙ get_conflict_stored s.next_id (write_conflict k now c local remote none s).1 row
                  (row_by_id-append s.rows row v.below)
              ∙ read_fresh s.strategy row h,
          Tells-of s.strategy row refl refl,
        )
  ]

  -- The entry holds what was logged now, and is not resolved.
  pub record Fresh (r : LogRow) : Type 0 where
    pub new_local : r.local_data ≡ local
    pub new_remote : r.remote_data ≡ remote
    pub unresolved : (r.winner ≡ none) × (r.winning_data ≡ none) × (r.losing_data ≡ none)

  abbrev pub Renewed : LogRow → Type 0
  Renewed r = NotOf c.entity_type c.entity_id r ⊎ Fresh r

  Renewed-update :
      (strategy : ConflictResolutionStrategy) (id : ℕ) (rows : List LogRow)
      → All (λ r. NotOf c.entity_type c.entity_id r ⊎ (r.id ≡ id)) rows
      → All Renewed (update_row id (fresh_row k strategy now c local remote) rows)
  unfolding update_row
  Renewed-update strategy id [] v = tt
  Renewed-update strategy id (r ∷ rows) v = elim (Bool-cases (r.id == id)) [
    | inl hit ↦ rw hit (
      inr (record { new_local = refl; new_remote = refl; unresolved = (refl, refl, refl) }),
      Renewed-update strategy id rows v.1,
    )
    | inr miss ↦ rw miss (
      elim v.0 [
        | inl not_of ↦ inl not_of
        | inr same ↦ let no_way : ⊥ = ground arith in absurd no_way
      ],
      Renewed-update strategy id rows v.1,
    )
  ]

  Renewed-rest :
      (rows : List LogRow) → All (NotOf c.entity_type c.entity_id) rows → All Renewed rows
  Renewed-rest [] v = tt
  Renewed-rest (r ∷ rows) v = (inl v.0, Renewed-rest rows v.1)

  -- If both versions can be serialized: once a conflict is logged, every entry for its entity holds
  -- the two versions of that conflict and no resolution, so the log no longer tells of an earlier
  -- conflict of the entity, nor of how it was resolved.
  log_conflict_overwrites :
      (s : ConflictResolver) → IsLog s → All Renewed (log_conflict k now c s).1.rows
  unfolding write_conflict
  log_conflict_overwrites s v = elim (Option-cases (latest c.entity_type c.entity_id s.rows)) [
    | inr (id, found) ↦
        let (x, one) = latest-OneEntry c.entity_type c.entity_id s.rows id v.separate found in
        let written =
          log_conflict-write s ∙ ap (λ o. write_conflict k now c local remote o s) found in
        subst (λ w. All Renewed w.1.rows) (sym written)
          (Renewed-update s.strategy id s.rows one.others)
    | inl none_yet ↦
        let written =
          log_conflict-write s ∙ ap (λ o. write_conflict k now c local remote o s) none_yet in
        subst (λ w. All Renewed w.1.rows) (sym written)
          (All-append Renewed s.rows _
            (Renewed-rest s.rows (latest-none c.entity_type c.entity_id s.rows none_yet))
            (
              inr (record { new_local = refl; new_remote = refl; unresolved = (refl, refl, refl) }),
              tt,
            ))
  ]
